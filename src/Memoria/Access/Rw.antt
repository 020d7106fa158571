-- ===== src/Memoria/Access/Rw.antt =====
-- Escribir followed by Leer.
use tp_2024_1c_asado_criollo.Prelude.{
  ℕ, zero, suc, ◌+◌, ◌-◌, ◌≤◌, ◌<◌, ◌≡◌, ◌≢◌, sym, ap, List, [], ◌∷◌, ◌++◌, true, some, leb,
  if◌then◌else◌, arith, ◌>>=◌, length, get_elem?, take, drop, subst, inl, inr, Bool-cases,
}
use tp_2024_1c_asado_criollo.Memoria.State.{Memoria, filtrar_pid}
use tp_2024_1c_asado_criollo.Memoria.Access.{
  leer_bytes, escribir_bytes, en_memoria, buscar_pagina, leer_resto, escribir_resto, leer, escribir,
}
use tp_2024_1c_asado_criollo.Memoria.Access.Pages.{
  marco, IsMarco, IsTabla, Distinto, con_bytes, marcos_disjuntos,
}

-- Page `i` of the table is frame `n`.
abbrev pub Pagina : List ℕ → ℕ → ℕ → Type 0
Pagina ps i n = get_elem? ps i ≡ some n

pub IsTabla-drop : (m : Memoria) (ps : List ℕ) (i : ℕ) → IsTabla m ps → IsTabla m (drop i ps)
IsTabla-drop m ps zero h = h
IsTabla-drop m [] (suc i) h = tt
IsTabla-drop m (p ∷ ps) (suc i) h = IsTabla-drop m ps i h.2

pub Pagina-IsMarco :
    (m : Memoria) (ps : List ℕ) (i : ℕ) {n : ℕ} → IsTabla m ps → Pagina ps i n → IsMarco m n
Pagina-IsMarco m [] i h e = cc
Pagina-IsMarco m (p ∷ ps) zero {n} h e = subst (IsMarco m) (ground (arith, e)) h.0
Pagina-IsMarco m (p ∷ ps) (suc i) h e = Pagina-IsMarco m ps i h.2 e

Distinto-Pagina : (ps : List ℕ) (i p : ℕ) {n : ℕ} → Distinto p ps → Pagina ps i n → p ≢ n
Distinto-Pagina [] i p d e = cc
Distinto-Pagina (q ∷ ps) zero p d e = ground (arith, d.0)
Distinto-Pagina (q ∷ ps) (suc i) p d e = Distinto-Pagina ps i p d.1 e

-- The pages behind page `i` are on other frames.
pub Pagina-Distinto :
    (m : Memoria) (ps : List ℕ) (i : ℕ) {n : ℕ}
    → IsTabla m ps
    → Pagina ps i n
    → Distinto n (drop (suc i) ps)
Pagina-Distinto m [] i h e = cc
Pagina-Distinto m (p ∷ ps) zero {n} h e = subst (λ k. Distinto k ps) (ground (arith, e)) h.1
Pagina-Distinto m (p ∷ ps) (suc i) h e = Pagina-Distinto m ps i h.2 e

-- In a table of distinct frames the address finds its page.
pub buscar_pagina_lem :
    (m : Memoria) (ps : List ℕ) (i off : ℕ) {n : ℕ}
    → IsTabla m ps
    → Pagina ps i n
    → off < m.tamanio_pagina
    → buscar_pagina m ps (marco m n + off) ≡ some i
unfolding buscar_pagina
buscar_pagina_lem m [] i off h e o = cc
buscar_pagina_lem m (p ∷ ps) zero off {n} h e o =
    let pn : p ≡ n = ground (arith, e) in rw h.0.esta (ground (arith, ap (marco m) pn))
buscar_pagina_lem m (p ∷ ps) (suc i) off {n} h e o =
    rw (h.0.esta, buscar_pagina_lem m ps i off h.2 e o)
      (ground (
        arith,
        marcos_disjuntos m n p (marco m n + off) (λ z. Distinto-Pagina ps i p h.1 e (sym z))
            (omega arith) (omega arith),
      ))

-- A run inside one frame lies in the memory.
en_memoria_tramo :
    (m : Memoria) (n off k : ℕ)
    → IsMarco m n
    → off + k ≤ m.tamanio_pagina
    → en_memoria m (marco m n + off) k ≡ true
unfolding en_memoria
en_memoria_tramo m n off k h le = grind (arith, h.cabe)

-- The address `off` bytes into page `i`, which is frame `n`, of the process `pid`.
pub record Logica (m : Memoria) (pid : ℕ) (ps : List ℕ) (i n off : ℕ) : Type 0 where
  pub proceso : filtrar_pid pid m.procesos ≡ some ps
  pub tabla : IsTabla m ps
  pub pagina : Pagina ps i n
  pub desplazamiento : off < m.tamanio_pagina

module _ (m : Memoria) (pid : ℕ) (ps : List ℕ) (i n off : ℕ) (l : Logica m pid ps i n off) where
  resta : m.tamanio_pagina - (marco m n + off - marco m n) ≡ m.tamanio_pagina - off
  resta = omega arith

  pub leer_eq :
      (k : ℕ)
      → leer m (marco m n + off) k pid ≡ (
          if leb k (m.tamanio_pagina - off)
          then some (leer_bytes m.bytes (marco m n + off) k)
          else (leer_resto m (drop (i + 1) ps) (k - (m.tamanio_pagina - off)) >>= λ resto.
              some (leer_bytes m.bytes (marco m n + off) (m.tamanio_pagina - off) ++ resto)))
  unfolding leer
  leer_eq k =
      let d = l.desplazamiento in
      let im = Pagina-IsMarco m ps i l.tabla l.pagina in
      rw (l.proceso, buscar_pagina_lem m ps i off l.tabla l.pagina d, l.pagina, im.esta, resta)
        (elim (Bool-cases (leb k (m.tamanio_pagina - off))) [
          | inl e ↦ rw (e, en_memoria_tramo m n off k im (ground arith))
          | inr e ↦ rw (e, en_memoria_tramo m n off (m.tamanio_pagina - off) im (omega arith))
        ])

  pub escribir_eq :
      (v : List ℕ)
      → escribir m (marco m n + off) v pid ≡ (
          if leb (length v) (m.tamanio_pagina - off)
          then some (con_bytes m (escribir_bytes m.bytes (marco m n + off) v))
          else escribir_resto
              (con_bytes m
                (escribir_bytes m.bytes (marco m n + off) (take (m.tamanio_pagina - off) v)))
              (drop (i + 1) ps)
              (drop (m.tamanio_pagina - off) v))
  unfolding escribir
  escribir_eq v =
      let d = l.desplazamiento in
      let im = Pagina-IsMarco m ps i l.tabla l.pagina in
      rw (l.proceso, buscar_pagina_lem m ps i off l.tabla l.pagina d, l.pagina, im.esta, resta)
        (elim (Bool-cases (leb (length v) (m.tamanio_pagina - off))) [
          | inl e ↦ rw (e, en_memoria_tramo m n off (length v) im (ground arith))
          | inr e ↦ rw (e, en_memoria_tramo m n off (m.tamanio_pagina - off) im (omega arith))
        ])
