-- ===== src/Cpu/Tlb/Coherence.antt =====
-- Coherence of the TLB with the page tables, for lookups and for updates under either algorithm.
use tp_2024_1c_asado_criollo.Prelude.{
  ℕ, zero, suc, ◌<◌, ◌≡◌, ◌≢◌, refl, ap, pos, false, List, [], ◌∷◌, Option, none, some, ◌==◌, ltb,
  eqb_ℤ_iff, arith, get_elem?, set, ◌⊎◌, inl, inr, Option-cases, Bool-cases, ◌≤◌, ◌∙◌, sym, length,
  length-set, get_elem?_of_lt,
}
use tp_2024_1c_asado_criollo.Cpu.Tlb.{
  Algoritmo, lru, fifo, FilaTlb, Tlb, buscar_nro_pagina, actualizar_tiempo_usado,
  buscar_registro_tlb, tocar, ordenar_por_tiempo, obtener_frame, ocupar_fila, guardar_fila,
  realizar_algoritmo_reemplazo, ocupar_siguiente, actualizar_tlb, siguiente_registro,
}

-- An entry says what the page tables say. `tabla pagina pid` is the frame of that page.
abbrev pub FilaOk : (ℕ → ℕ → Option ℕ) → FilaTlb → Type 0
FilaOk tabla r =
    (pagina pid a : ℕ)
    → r.pagina ≡ pos pagina
    → r.pid ≡ pos pid
    → r.nro_marco ≡ some a
    → tabla pagina pid ≡ some a

abbrev pub IsCoherente : (ℕ → ℕ → Option ℕ) → List FilaTlb → Type 0
IsCoherente tabla [] = Unit {0}
IsCoherente tabla (r ∷ rs) = FilaOk tabla r × IsCoherente tabla rs

-- `r` is one of the rows, and none was used before it.
abbrev pub Esta : FilaTlb → List FilaTlb → Type 0
Esta r [] = ⊥
Esta r (x ∷ xs) = (r ≡ x) ⊎ Esta r xs

abbrev pub Menor : FilaTlb → List FilaTlb → Type 0
Menor r [] = Unit {0}
Menor r (x ∷ xs) = (ordenar_por_tiempo x r ≡ false) × Menor r xs

pub buscar_registro_tlb-IsCoherente :
    (tabla : ℕ → ℕ → Option ℕ) (pagina pid a : ℕ) (rs : List FilaTlb) {r : FilaTlb}
    → IsCoherente tabla rs
    → buscar_registro_tlb pagina pid rs ≡ some r
    → r.nro_marco ≡ some a
    → tabla pagina pid ≡ some a
unfolding buscar_registro_tlb
buscar_registro_tlb-IsCoherente tabla pagina pid a [] h e m = cc
buscar_registro_tlb-IsCoherente tabla pagina pid a (q ∷ rs) {r} h e m = ground (
  arith,
  eqb_ℤ_iff q.pagina (pos pagina),
  eqb_ℤ_iff q.pid (pos pid),
  h.0 pagina pid a,
  buscar_registro_tlb-IsCoherente tabla pagina pid a rs {r = r} h.1,
)

actualizar_tiempo_usado-FilaOk :
    (tabla : ℕ → ℕ → Option ℕ) (alg : Algoritmo) (ahora : ℕ) (r : FilaTlb)
    → FilaOk tabla r
    → FilaOk tabla (actualizar_tiempo_usado alg ahora r)
unfolding actualizar_tiempo_usado
actualizar_tiempo_usado-FilaOk tabla lru ahora r h = h
actualizar_tiempo_usado-FilaOk tabla fifo ahora r h = h

tocar-IsCoherente :
    (tabla : ℕ → ℕ → Option ℕ) (alg : Algoritmo) (ahora pagina pid : ℕ) (rs : List FilaTlb)
    → IsCoherente tabla rs
    → IsCoherente tabla (tocar alg ahora pagina pid rs)
unfolding tocar
tocar-IsCoherente tabla alg ahora pagina pid [] h = tt
tocar-IsCoherente tabla alg ahora pagina pid (r ∷ rs) h =
    elim (Bool-cases (buscar_nro_pagina r pagina pid)) [
      | inl e ↦ rw e (actualizar_tiempo_usado-FilaOk tabla alg ahora r h.0, h.1)
      | inr e ↦ rw e (h.0, tocar-IsCoherente tabla alg ahora pagina pid rs h.1)
    ]

length-tocar :
    (alg : Algoritmo) (ahora pagina pid : ℕ) (rs : List FilaTlb)
    → length (tocar alg ahora pagina pid rs) ≡ length rs
unfolding tocar
length-tocar alg ahora pagina pid [] = refl
length-tocar alg ahora pagina pid (r ∷ rs) = ground (arith, length-tocar alg ahora pagina pid rs)

-- The list has its configured length, and the next row to fill is one of it, or the end.
pub record IsValid (t : Tlb) : Type 0 where
  pub largo : length t.filas ≡ t.entradas_tlb
  pub registro : t.next_registro_libre ≤ t.entradas_tlb

-- What a lookup and an update of the TLB leave.
pub record Agregado (tabla : ℕ → ℕ → Option ℕ) (t t' : Tlb) : Type 0 where
  pub valido : IsValid t'
  pub coherente : IsCoherente tabla t'.filas
  pub misma_pagina : t'.tamanio_pagina ≡ t.tamanio_pagina
  pub mismas_entradas : t'.entradas_tlb ≡ t.entradas_tlb

-- A lookup in a valid TLB that agrees with the page tables misses or returns what the page table
-- says, and leaves the TLB valid and in agreement.
pub obtener_frame-Agregado :
    (tabla : ℕ → ℕ → Option ℕ) (t : Tlb) (ahora pagina pid : ℕ)
    → IsValid t
    → IsCoherente tabla t.filas
    → let (o, t') = obtener_frame t ahora pagina pid in
      ((o ≡ none) ⊎ (o ≡ tabla pagina pid)) × Agregado tabla t t'
unfolding obtener_frame
obtener_frame-Agregado tabla t ahora pagina pid v h =
    elim (Option-cases (buscar_registro_tlb pagina pid t.filas)) [
      | inl e ↦
          rw (e, obtener_frame)
            (
              inl refl,
              record { valido = v; coherente = h; misma_pagina = refl; mismas_entradas = refl },
            )
      | inr (r, e) ↦
          rw (e, obtener_frame)
            (
              resultado r e,
              record {
                valido = record {
                  largo = length-tocar t.algoritmo ahora pagina pid t.filas ∙ v.largo;
                  registro = v.registro;
                };
                coherente = tocar-IsCoherente tabla t.algoritmo ahora pagina pid t.filas h;
                misma_pagina = refl;
                mismas_entradas = refl;
              },
            )
    ]
  where
    resultado :
        (r : FilaTlb)
        → buscar_registro_tlb pagina pid t.filas ≡ some r
        → (r.nro_marco ≡ none) ⊎ (r.nro_marco ≡ tabla pagina pid)
    resultado r e = elim (Option-cases r.nro_marco) [
      | inl n ↦ inl n
      | inr (a, n) ↦
          inr (n ∙ sym (buscar_registro_tlb-IsCoherente tabla pagina pid a t.filas h e n))
    ]

set-IsCoherente :
    (tabla : ℕ → ℕ → Option ℕ) (f : FilaTlb) (rs : List FilaTlb) (i : ℕ)
    → FilaOk tabla f
    → IsCoherente tabla rs
    → IsCoherente tabla (set rs i f)
set-IsCoherente tabla f [] i k h = tt
set-IsCoherente tabla f (r ∷ rs) zero k h = (k, h.1)
set-IsCoherente tabla f (r ∷ rs) (suc i) k h = (h.0, set-IsCoherente tabla f rs i k h.1)

guardar_fila-IsCoherente :
    (tabla : ℕ → ℕ → Option ℕ) (f : FilaTlb) (rs : List FilaTlb)
    → FilaOk tabla f
    → IsCoherente tabla rs
    → IsCoherente tabla (guardar_fila f rs)
unfolding guardar_fila
guardar_fila-IsCoherente tabla f [] k h = tt
guardar_fila-IsCoherente tabla f (r ∷ rs) k h = elim (Bool-cases (r.entrada == f.entrada)) [
  | inl e ↦ rw e (k, h.1)
  | inr e ↦ rw e (h.0, guardar_fila-IsCoherente tabla f rs k h.1)
]

ocupar_fila-FilaOk :
    (tabla : ℕ → ℕ → Option ℕ) (ahora frame pagina pid : ℕ) (r : FilaTlb)
    → tabla pagina pid ≡ some frame
    → FilaOk tabla (ocupar_fila ahora frame pagina pid r)
unfolding ocupar_fila
ocupar_fila-FilaOk tabla ahora frame pagina pid r e p q a ep eq em =
    let pp : pagina ≡ p = ground (arith, ep) in
    let qq : pid ≡ q = ground (arith, eq) in rw (← pp, ← qq) (e ∙ em)

-- list_sorted gives back the elements that it was given, a smallest one first.
pub record IsSorted (list_sorted : List FilaTlb → List FilaTlb) : Type 0 where
  pub primero :
      (x : FilaTlb) (xs : List FilaTlb)
      → (r : FilaTlb) × (get_elem? (list_sorted (x ∷ xs)) 0 ≡ some r)
        × Esta r (x ∷ xs)
        × Menor r (x ∷ xs)

length-guardar_fila : (f : FilaTlb) (rs : List FilaTlb) → length (guardar_fila f rs) ≡ length rs
unfolding guardar_fila
length-guardar_fila f [] = refl
length-guardar_fila f (r ∷ rs) = ground (arith, length-guardar_fila f rs)

module _ (list_sorted : List FilaTlb → List FilaTlb) (ordenada : IsSorted list_sorted)
    (tabla : ℕ → ℕ → Option ℕ) (t : Tlb) (ahora frame pagina pid : ℕ) (v : IsValid t)
    (h : IsCoherente tabla t.filas) (e : tabla pagina pid ≡ some frame) where
  reemplazo :
      (rs : List FilaTlb)
      → t.filas ≡ rs
      → length rs ≢ 0
      → (t' : Tlb) × (realizar_algoritmo_reemplazo list_sorted t ahora frame pagina pid ≡ some t')
        × Agregado tabla t t'
  unfolding realizar_algoritmo_reemplazo
  reemplazo [] q n = absurd (n refl)
  reemplazo (x ∷ xs) q n =
      let (r, z, _, _) = ordenada.primero x xs in
      let f = ocupar_fila ahora frame pagina pid r in
      let z' : get_elem? (list_sorted t.filas) 0 ≡ some r =
        ap (λ w. get_elem? (list_sorted w) 0) q ∙ z in
      (
        record t { filas = guardar_fila f t.filas },
        rw z',
        record {
          valido = record {
            largo = length-guardar_fila f t.filas ∙ v.largo;
            registro = v.registro;
          };
          coherente =
              guardar_fila-IsCoherente tabla f t.filas
                (ocupar_fila-FilaOk tabla ahora frame pagina pid r e) h;
          misma_pagina = refl;
          mismas_entradas = refl;
        },
      )

  siguiente :
      (alg : Algoritmo)
      → t.entradas_tlb ≢ 0
      → t.next_registro_libre < t.entradas_tlb
      → siguiente_registro alg t.next_registro_libre t.entradas_tlb ≤ t.entradas_tlb
  siguiente lru ne lt = omega arith
  siguiente fifo ne lt = grind arith

  libre :
      t.next_registro_libre < t.entradas_tlb
      → t.entradas_tlb ≢ 0
      → (t' : Tlb) × (ocupar_siguiente list_sorted t ahora frame pagina pid ≡ some t')
        × Agregado tabla t t'
  unfolding ocupar_siguiente
  libre lt ne =
      let (r, z) = get_elem?_of_lt t.filas t.next_registro_libre (omega (arith, v.largo)) in
      let f = ocupar_fila ahora frame pagina pid (record r { is_free = false }) in
      let t' = record t {
        filas = set t.filas t.next_registro_libre f;
        next_registro_libre = siguiente_registro t.algoritmo t.next_registro_libre t.entradas_tlb;
      } in
      (
        t',
        rw z,
        record {
          valido = record {
            largo = length-set t.filas t.next_registro_libre f ∙ v.largo;
            registro = siguiente t.algoritmo ne lt;
          };
          coherente =
              set-IsCoherente tabla f t.filas t.next_registro_libre
                (ocupar_fila-FilaOk tabla ahora frame pagina pid (record r { is_free = false }) e)
                h;
          misma_pagina = refl;
          mismas_entradas = refl;
        },
      )

  -- Adding the entry for a page that the memory has just answered, to a TLB with at least one row,
  -- succeeds under either algorithm and leaves the TLB valid and in agreement with the page tables.
  pub actualizar_tlb-Agregado :
      t.entradas_tlb ≢ 0
      → (t' : Tlb) × (actualizar_tlb list_sorted t ahora frame pagina pid ≡ some t')
        × Agregado tabla t t'
  unfolding actualizar_tlb
  actualizar_tlb-Agregado ne = elim (Bool-cases (ltb t.next_registro_libre t.entradas_tlb)) [
    | inl c ↦ let z = libre (ground (arith, c)) ne in (z.0, rw c z.1, z.2)
    | inr c ↦ let z = reemplazo t.filas refl (λ k. ne (sym v.largo ∙ k)) in (z.0, rw c z.1, z.2)
  ]
