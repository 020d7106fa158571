-- ===== src/Memoria/Server/Tables.antt =====
-- The addresses that the memory server answers, before and after a RESIZE.
use tp_2024_1c_asado_criollo.Prelude.{
  int_of_u32, ℕ, zero, suc, ◌<◌, ◌≡◌, ◌≢◌, refl, sym, ap, ◌∙◌, List, [], ◌∷◌, ◌++◌, some, ◌==◌,
  arith, get_elem?, take, inl, inr, ◌⊎◌, Bool-cases, Option-cases,
}
use tp_2024_1c_asado_criollo.Commons.Pcb.{Pcb}
use tp_2024_1c_asado_criollo.Memoria.Frames.{Frame, Proceso, Codigo, resize_proceso}
use tp_2024_1c_asado_criollo.Memoria.Frames.Occupancy.{direcciones}
use tp_2024_1c_asado_criollo.Memoria.Frames.Resize.{Resized}
use tp_2024_1c_asado_criollo.Memoria.State.{
  Memoria, buscar_proceso, guardar_proceso, direccion_frame,
}
use tp_2024_1c_asado_criollo.Memoria.Server.{resize, direccion_de}
use tp_2024_1c_asado_criollo.Memoria.Server.Preserve.{otras}

direccion_frame-mismas :
    (fs gs : List Frame) (n : ℕ) {a : ℕ}
    → direcciones gs ≡ direcciones fs
    → direccion_frame fs n ≡ some a
    → direccion_frame gs n ≡ some a
unfolding direccion_frame
direccion_frame-mismas [] gs n q e = cc
direccion_frame-mismas (f ∷ fs) [] n q e = absurd cc
direccion_frame-mismas (f ∷ fs) (g ∷ gs) zero q e = cc
direccion_frame-mismas (f ∷ fs) (g ∷ gs) (suc n) q e = direccion_frame-mismas fs gs n (cc) e

get_elem?-take :
    (ps : List ℕ) (k i : ℕ) {n : ℕ}
    → i < k
    → get_elem? ps i ≡ some n
    → get_elem? (take k ps) i ≡ some n
get_elem?-take [] k i h e = absurd cc
get_elem?-take (p ∷ ps) zero i h e = absurd (omega arith)
get_elem?-take (p ∷ ps) (suc k) zero h e = e
get_elem?-take (p ∷ ps) (suc k) (suc i) h e = get_elem?-take ps k i (omega arith) e

get_elem?-append :
    (ps qs : List ℕ) (i : ℕ) {n : ℕ} → get_elem? ps i ≡ some n → get_elem? (ps ++ qs) i ≡ some n
get_elem?-append [] qs i e = absurd cc
get_elem?-append (p ∷ ps) qs zero e = e
get_elem?-append (p ∷ ps) qs (suc i) e = get_elem?-append ps qs i e

buscar_proceso-pid :
    (pid : ℕ) (ps : List Proceso) {p : Proceso} → buscar_proceso pid ps ≡ some p → p.pcb.pid ≡ pid
unfolding buscar_proceso
buscar_proceso-pid pid [] e = cc
buscar_proceso-pid pid (q ∷ ps) {p} e = ground (arith, buscar_proceso-pid pid ps {p = p})

buscar-guardar_mismo :
    (pid : ℕ) (q : Proceso) (ps : List Proceso) {p : Proceso}
    → q.pcb.pid ≡ pid
    → buscar_proceso pid ps ≡ some p
    → buscar_proceso pid (guardar_proceso pid q ps) ≡ some q
unfolding buscar_proceso guardar_proceso
buscar-guardar_mismo pid q [] h e = cc
buscar-guardar_mismo pid q (r ∷ ps) {p} h e =
    ground (arith, h, buscar-guardar_mismo pid q ps {p = p} h)

buscar-guardar_otro :
    (pid otro : ℕ) (q : Proceso) (ps : List Proceso)
    → q.pcb.pid ≡ pid
    → pid ≢ otro
    → buscar_proceso otro (guardar_proceso pid q ps) ≡ buscar_proceso otro ps
unfolding buscar_proceso guardar_proceso
buscar-guardar_otro pid otro q [] h ne = refl
buscar-guardar_otro pid otro q (r ∷ ps) h ne =
    ground (arith, h, ne, buscar-guardar_otro pid otro q ps h ne)

-- What an address is made of.
record Direccion (m : Memoria) (pid i a : ℕ) : Type 0 where
  proceso : Proceso
  numero : ℕ
  esta : buscar_proceso pid m.procesos ≡ some proceso
  pagina : get_elem? proceso.paginas i ≡ some numero
  marco : direccion_frame m.frames numero ≡ some a

direccion_de-Direccion :
    (m : Memoria) (pid i a : ℕ) → direccion_de m pid i ≡ some a → Direccion m pid i a
unfolding direccion_de
direccion_de-Direccion m pid i a e = elim (Option-cases (buscar_proceso pid m.procesos)) [
  | inl f ↦ absurd (cc (rw f at e))
  | inr (p, f) ↦
      let e₁ = rw f at e in
      elim (Option-cases (get_elem? p.paginas i)) [
        | inl g ↦ absurd (cc (rw g at e₁))
        | inr (n, g) ↦ record { proceso = p; numero = n; esta = f; pagina = g; marco = rw g at e₁ }
      ]
]

pub resize-tamanio :
    (m : Memoria) (pid bytes : ℕ) {c : Codigo} {m' : Memoria}
    → resize m pid bytes ≡ some (c, m')
    → m'.tamanio_pagina ≡ m.tamanio_pagina
unfolding resize
resize-tamanio m pid bytes {c} {m'} e = elim (Option-cases (buscar_proceso pid m.procesos)) [
  | inl f ↦ absurd (cc (rw f at e))
  | inr (p, f) ↦
      let e₁ = rw f at e in
      elim (Option-cases (resize_proceso m.tamanio_pagina p (int_of_u32 bytes) m.frames)) [
        | inl g ↦ absurd (cc (rw g at e₁))
        | inr (r, g) ↦ cc (rw g at e₁)
      ]
]

conserva-pagina :
    (nuevo i : ℕ) (ps qs : List ℕ) {n : ℕ}
    → (qs ≡ take nuevo ps) ⊎ ((nuevas : List ℕ) × (qs ≡ ps ++ nuevas))
    → i < nuevo
    → get_elem? ps i ≡ some n
    → get_elem? qs i ≡ some n
conserva-pagina nuevo i ps qs (inl e) h g = rw e (get_elem?-take ps nuevo i h g)
conserva-pagina nuevo i ps qs (inr (nuevas, e)) h g = rw e (get_elem?-append ps nuevas i g)

-- After a RESIZE the other processes keep all their addresses, and the process those of the pages
-- below its new count.
pub direccion_de-resize :
    (m m' : Memoria) (pid nuevo : ℕ) {p q : Proceso} {c : Codigo}
    → buscar_proceso pid m.procesos ≡ some p
    → m'.procesos ≡ guardar_proceso pid q m.procesos
    → Resized nuevo (otras m pid) p m.frames c q m'.frames
    → (i otro a : ℕ) → (otro ≢ pid) ⊎ (i < nuevo)
    → direccion_de m otro i ≡ some a
    → direccion_de m' otro i ≡ some a
unfolding direccion_de
direccion_de-resize m m' pid nuevo {p} {q} e s z i otro a o f =
    let d = direccion_de-Direccion m otro i a f in
    let qp : q.pcb.pid ≡ pid =
      ap (λ (b : Pcb). b.pid) z.pcb ∙ buscar_proceso-pid pid m.procesos e in
    let marco = direccion_frame-mismas m.frames m'.frames d.numero z.mismas d.marco in
    elim (Bool-cases (otro == pid)) [
      | inl k ↦
          let igual : otro ≡ pid = ground (arith, k) in
          let mismo : d.proceso ≡ p = cc (d.esta, rw (sym igual) at e) in
          let lt : i < nuevo = ground (arith, o, igual) in
          let g =
            conserva-pagina nuevo i p.paginas q.paginas z.conserva lt (rw mismo at d.pagina) in
          rw (s, igual, buscar-guardar_mismo pid q m.procesos qp e, g) marco
      | inr k ↦
          let ne : pid ≢ otro = λ r. absurd (ground (arith, k, r)) in
          rw (s, buscar-guardar_otro pid otro q m.procesos qp ne, d.esta, d.pagina) marco
    ]
