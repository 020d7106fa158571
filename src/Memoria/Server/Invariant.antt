-- ===== src/Memoria/Server/Invariant.antt =====
-- The invariant of the memory server: which frames are taken, and by whom.
use tp_2024_1c_asado_criollo.Prelude.{
  ℕ, zero, suc, ◌+◌, ◌/◌, ◌≡◌, refl, sym, List, [], ◌∷◌, ◌++◌, some, arith, length,
}
use tp_2024_1c_asado_criollo.Memoria.Frames.{Proceso, crear_frames}
use tp_2024_1c_asado_criollo.Memoria.Frames.Occupancy.{ocup, veces, direcciones}
use tp_2024_1c_asado_criollo.Memoria.State.{
  Memoria, inicializar_memoria, buscar_proceso, guardar_proceso, quitar_proceso,
}

-- How often the page tables of all processes name frame `j`.
abbrev pub veces_total : ℕ → List Proceso → ℕ
veces_total j [] = 0
veces_total j (p ∷ ps) = veces j p.paginas + veces_total j ps

-- cantPaginas is the length of the page table.
abbrev pub Cuentas : List Proceso → Type 0
Cuentas [] = Unit {0}
Cuentas (p ∷ ps) = (p.cant_paginas ≡ length p.paginas) × Cuentas ps

pub record IsValid (m : Memoria) : Type 0 where
  pub exacto : (j : ℕ) → veces_total j m.procesos ≡ ocup j m.frames
  pub cuentas : Cuentas m.procesos
  pub lugares :
      direcciones m.frames
      ≡ direcciones (crear_frames m.base m.tamanio_pagina (m.tamanio_memoria / m.tamanio_pagina) 0)

ocup-crear_frames : (base t n i j : ℕ) → ocup j (crear_frames base t n i) ≡ 0
unfolding crear_frames
ocup-crear_frames base t zero i j = refl
ocup-crear_frames base t (suc n) i zero = refl
ocup-crear_frames base t (suc n) i (suc j) = ocup-crear_frames base t n (i + 1) j

pub inicializar_memoria-IsValid :
    (base : ℕ) (c : ℕ → ℕ) (tm tp : ℕ) → IsValid (inicializar_memoria base c tm tp)
unfolding inicializar_memoria
inicializar_memoria-IsValid base c tm tp = record {
  exacto = λ j. sym (ocup-crear_frames base tp (tm / tp) 0 j);
  cuentas = tt;
  lugares = refl;
}

pub veces_total-quitar :
    (pid j : ℕ) (ps : List Proceso) {p : Proceso}
    → buscar_proceso pid ps ≡ some p
    → veces j p.paginas + veces_total j (quitar_proceso pid ps) ≡ veces_total j ps
unfolding buscar_proceso quitar_proceso
veces_total-quitar pid j [] e = cc
veces_total-quitar pid j (q ∷ ps) {p} e = ground (arith, veces_total-quitar pid j ps {p = p})

pub veces_total-guardar :
    (pid j : ℕ) (q : Proceso) (ps : List Proceso) {p : Proceso}
    → buscar_proceso pid ps ≡ some p
    → veces_total j (guardar_proceso pid q ps)
      ≡ veces j q.paginas + veces_total j (quitar_proceso pid ps)
unfolding buscar_proceso quitar_proceso guardar_proceso
veces_total-guardar pid j q [] e = cc
veces_total-guardar pid j q (r ∷ ps) {p} e = ground (arith, veces_total-guardar pid j q ps {p = p})

pub veces_total-append :
    (j : ℕ) (ps qs : List Proceso) → veces_total j (ps ++ qs) ≡ veces_total j ps + veces_total j qs
veces_total-append j [] qs = omega arith
veces_total-append j (p ∷ ps) qs = omega (arith, veces_total-append j ps qs)

pub Cuentas-buscar :
    (pid : ℕ) (ps : List Proceso) {p : Proceso}
    → Cuentas ps
    → buscar_proceso pid ps ≡ some p
    → p.cant_paginas ≡ length p.paginas
unfolding buscar_proceso
Cuentas-buscar pid [] h e = cc
Cuentas-buscar pid (q ∷ ps) {p} h e = ground (arith, Cuentas-buscar pid ps {p = p} h.1)

pub Cuentas-guardar :
    (pid : ℕ) (q : Proceso) (ps : List Proceso)
    → Cuentas ps
    → q.cant_paginas ≡ length q.paginas
    → Cuentas (guardar_proceso pid q ps)
unfolding guardar_proceso
Cuentas-guardar pid q [] h e = tt
Cuentas-guardar pid q (r ∷ ps) h e = ground (arith, Cuentas-guardar pid q ps h.1 e)

pub Cuentas-quitar : (pid : ℕ) (ps : List Proceso) → Cuentas ps → Cuentas (quitar_proceso pid ps)
unfolding quitar_proceso
Cuentas-quitar pid [] h = tt
Cuentas-quitar pid (r ∷ ps) h = ground (arith, Cuentas-quitar pid ps h.1)

pub Cuentas-append : (ps qs : List Proceso) → Cuentas ps → Cuentas qs → Cuentas (ps ++ qs)
Cuentas-append [] qs h k = k
Cuentas-append (p ∷ ps) qs h k = (h.0, Cuentas-append ps qs h.1 k)
