-- ===== src/Cpu/Tlb.antt =====
-- cpu/src/tlb.c: the translation cache with FIFO or LRU replacement. A row of the list is named
-- by its field `entrada`, which is its index; `time` is the argument `ahora`.
pub mod Coherence
pub mod Clear
use tp_2024_1c_asado_criollo.Prelude.{
  ℕ, zero, suc, ◌+◌, ◌/◌, ◌%◌, ℤ, pos, negsuc, Bool, true, false, not, List, [], ◌∷◌, Option, none,
  some, ◌&&◌, ◌==◌, ltb, ltb_ℤ, opuesto, mas_uno, eqb_ℤ, if◌then◌else◌, ◌>>=◌, get_elem?, set,
}

pub data Algoritmo : Type 0 where
  lru fifo : Algoritmo

pub record FilaTlb : Type 0 where
  pub entrada : ℕ
  pub is_free : Bool
  pub pagina : ℤ
  pub nro_marco : Option ℕ
  pub pid : ℤ
  pub tiempo_usado : ℤ

pub record Tlb : Type 0 where
  pub filas : List FilaTlb
  pub next_registro_libre : ℕ
  pub algoritmo : Algoritmo
  pub entradas_tlb : ℕ
  pub tamanio_pagina : ℕ

-- The constant UNDEFINED, -100.
abbrev pub undefined : ℤ
undefined = negsuc 99

-- The loop of iniciar_tlb from index `i` on; `basura` is the field that malloc leaves unset.
unfoldable pub crear_filas : ℤ → ℕ → ℕ → List FilaTlb
crear_filas basura zero i = []
crear_filas basura (suc n) i =
    record {
      entrada = i;
      is_free = true;
      pagina = undefined;
      nro_marco = none;
      pid = undefined;
      tiempo_usado = basura;
    }
    ∷ crear_filas basura n (i + 1)

unfoldable pub iniciar_tlb : ℤ → Algoritmo → ℕ → ℕ → Tlb
iniciar_tlb basura alg entradas tamanio_pagina = record {
  filas = crear_filas basura entradas 0;
  next_registro_libre = 0;
  algoritmo = alg;
  entradas_tlb = entradas;
  tamanio_pagina = tamanio_pagina;
}

unfoldable pub buscar_nro_pagina : FilaTlb → ℕ → ℕ → Bool
buscar_nro_pagina r pagina pid = eqb_ℤ r.pagina (pos pagina) && eqb_ℤ r.pid (pos pid)

unfoldable pub actualizar_tiempo_usado : Algoritmo → ℕ → FilaTlb → FilaTlb
actualizar_tiempo_usado lru ahora r = record r { tiempo_usado = pos ahora }
actualizar_tiempo_usado fifo ahora r = r

-- buscar_registro_tlb: the first row that matches.
unfoldable pub buscar_registro_tlb : ℕ → ℕ → List FilaTlb → Option FilaTlb
unfolding buscar_nro_pagina
buscar_registro_tlb pagina pid [] = none
buscar_registro_tlb pagina pid (r ∷ rs) =
    if buscar_nro_pagina r pagina pid then some r else buscar_registro_tlb pagina pid rs

-- The update of that row through its pointer.
unfoldable pub tocar : Algoritmo → ℕ → ℕ → ℕ → List FilaTlb → List FilaTlb
unfolding buscar_nro_pagina actualizar_tiempo_usado
tocar alg ahora pagina pid [] = []
tocar alg ahora pagina pid (r ∷ rs) =
    if buscar_nro_pagina r pagina pid
    then actualizar_tiempo_usado alg ahora r ∷ rs
    else r ∷ tocar alg ahora pagina pid rs

-- `none` is NULL: a miss.
unfoldable pub obtener_frame : Tlb → ℕ → ℕ → ℕ → Option ℕ × Tlb
unfolding buscar_registro_tlb tocar
obtener_frame t ahora pagina pid = elim (buscar_registro_tlb pagina pid t.filas) [
  | none ↦ (none, t)
  | some r ↦ (r.nro_marco, record t { filas = tocar t.algoritmo ahora pagina pid t.filas })
]

unfoldable pub ordenar_por_tiempo : FilaTlb → FilaTlb → Bool
ordenar_por_tiempo a b = ltb_ℤ a.tiempo_usado b.tiempo_usado

-- What both ways of adding an entry write into the row.
unfoldable pub ocupar_fila : ℕ → ℕ → ℕ → ℕ → FilaTlb → FilaTlb
ocupar_fila ahora frame pagina pid r = record r {
  nro_marco = some frame;
  pagina = pos pagina;
  pid = pos pid;
  tiempo_usado = pos ahora;
}

-- A write through the pointer to the row with this number.
unfoldable pub guardar_fila : FilaTlb → List FilaTlb → List FilaTlb
guardar_fila f [] = []
guardar_fila f (r ∷ rs) = if r.entrada == f.entrada then f ∷ rs else r ∷ guardar_fila f rs

abbrev pub siguiente_registro : Algoritmo → ℕ → ℕ → ℕ
siguiente_registro fifo n entradas = (n + 1) % entradas
siguiente_registro lru n entradas = n + 1

-- LimpiarTLB for one row: entries of the process beyond its new size are cleared.
unfoldable pub limpiar_fila : ℕ → ℤ → FilaTlb → FilaTlb
limpiar_fila pid newpagesize r =
    if eqb_ℤ r.pid (pos pid) && not (ltb_ℤ r.pagina newpagesize)
    then record r {
      is_free = true;
      pagina = undefined;
      nro_marco = none;
      pid = undefined;
      tiempo_usado = negsuc 0;
    }
    else r

unfoldable pub limpiar_filas : ℕ → ℤ → List FilaTlb → List FilaTlb
unfolding limpiar_fila
limpiar_filas pid newpagesize [] = []
limpiar_filas pid newpagesize (r ∷ rs) =
    limpiar_fila pid newpagesize r ∷ limpiar_filas pid newpagesize rs

-- With C's division toward zero: one is added to the quotient of a negative size too.
unfoldable pub newpagesize : ℤ → ℕ → ℤ
newpagesize (pos n) tamanio_pagina =
    pos (if n % tamanio_pagina == 0 then n / tamanio_pagina else n / tamanio_pagina + 1)
newpagesize (negsuc n) tamanio_pagina =
    let cociente = opuesto ((n + 1) / tamanio_pagina) in
    if (n + 1) % tamanio_pagina == 0 then cociente else mas_uno cociente

unfoldable pub limpiar_tlb : Tlb → ℕ → ℤ → Tlb
unfolding limpiar_filas newpagesize
limpiar_tlb t pid newsize = record t {
  filas = limpiar_filas pid (newpagesize newsize t.tamanio_pagina) t.filas;
}

-- list_sorted of the commons, at ordenar_por_tiempo.
module _ (list_sorted : List FilaTlb → List FilaTlb) where
  unfoldable pub realizar_algoritmo_reemplazo : Tlb → ℕ → ℕ → ℕ → ℕ → Option Tlb
  unfolding ocupar_fila guardar_fila
  realizar_algoritmo_reemplazo t ahora frame pagina pid = do
    r ← get_elem? (list_sorted t.filas) 0
    some (record t { filas = guardar_fila (ocupar_fila ahora frame pagina pid r) t.filas })

  unfoldable pub ocupar_siguiente : Tlb → ℕ → ℕ → ℕ → ℕ → Option Tlb
  unfolding ocupar_fila
  ocupar_siguiente t ahora frame pagina pid = do
    r ← get_elem? t.filas t.next_registro_libre
    let f = ocupar_fila ahora frame pagina pid (record r { is_free = false })
    some (record t {
      filas = set t.filas t.next_registro_libre f;
      next_registro_libre = siguiente_registro t.algoritmo t.next_registro_libre t.entradas_tlb;
    })

  unfoldable pub actualizar_tlb : Tlb → ℕ → ℕ → ℕ → ℕ → Option Tlb
  unfolding ocupar_siguiente realizar_algoritmo_reemplazo
  actualizar_tlb t ahora frame pagina pid =
      if ltb t.next_registro_libre t.entradas_tlb
      then ocupar_siguiente t ahora frame pagina pid
      else realizar_algoritmo_reemplazo t ahora frame pagina pid
