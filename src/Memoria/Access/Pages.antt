-- ===== src/Memoria/Access/Pages.antt =====
-- The loops of Leer and Escribir over whole pages.
use tp_2024_1c_asado_criollo.Prelude.{
  ℕ, ◌+◌, ◌-◌, ◌*◌, ◌≤◌, ◌<◌, ◌≡◌, ◌≢◌, refl, sym, ap, ◌∙◌, List, [], ◌∷◌, true, some, arith,
  length, take, drop, length-take, length-drop, take-append-drop, ◌⊎◌, inl, inr,
}
use native.Mathlib.Decide.{dec_lt}
use tp_2024_1c_asado_criollo.Memoria.State.{Memoria, direccion_frame}
use tp_2024_1c_asado_criollo.Memoria.Access.{
  leer_bytes, escribir_bytes, en_memoria, tramo, leer_resto, escribir_resto,
}
use tp_2024_1c_asado_criollo.Memoria.Access.Cells.{
  escribir_bytes_fuera, leer_bytes_ext, leer-escribir_bytes,
}

-- The address of frame `n`.
abbrev pub marco : Memoria → ℕ → ℕ
marco m n = n * m.tamanio_pagina + m.base

-- Frame `n` exists, at its place, inside the memory.
pub record IsMarco (m : Memoria) (n : ℕ) : Type 0 where
  pub esta : direccion_frame m.frames n ≡ some (marco m n)
  pub cabe : (n + 1) * m.tamanio_pagina ≤ m.tamanio_memoria

abbrev pub Distinto : ℕ → List ℕ → Type 0
Distinto n [] = Unit {0}
Distinto n (k ∷ ks) = (n ≢ k) × Distinto n ks

-- Every page of the list has a frame, and no two have the same one.
abbrev pub IsTabla : Memoria → List ℕ → Type 0
IsTabla m [] = Unit {0}
IsTabla m (n ∷ ns) = IsMarco m n × Distinto n ns × IsTabla m ns

-- The address `x` lies in none of the frames.
abbrev pub Fuera : Memoria → List ℕ → ℕ → Type 0
Fuera m [] x = Unit {0}
Fuera m (n ∷ ns) x = ((x < marco m n) ⊎ (marco m n + m.tamanio_pagina ≤ x)) × Fuera m ns x

mul_mono : (a b t : ℕ) → a ≤ b → a * t ≤ b * t
mul_mono a b t h = grind arith

siguiente : (n k t : ℕ) → n < k → n * t + t ≤ k * t
siguiente n k t h = omega (arith, mul_mono (n + 1) k t (omega arith))

-- Distinct frames do not overlap.
pub marcos_disjuntos :
    (m : Memoria) (n k x : ℕ)
    → n ≢ k
    → marco m n ≤ x
    → x < marco m n + m.tamanio_pagina
    → (x < marco m k) ⊎ (marco m k + m.tamanio_pagina ≤ x)
marcos_disjuntos m n k x ne lo hi = elim (dec_lt n k) [
  | yes p ↦ inl (omega (arith, siguiente n k m.tamanio_pagina p))
  | no p ↦ inr (omega (arith, siguiente k n m.tamanio_pagina (omega arith)))
]

pub Distinto-Fuera :
    (m : Memoria) (n : ℕ) (ks : List ℕ) (x : ℕ)
    → Distinto n ks
    → marco m n ≤ x
    → x < marco m n + m.tamanio_pagina
    → Fuera m ks x
Distinto-Fuera m n [] x d lo hi = tt
Distinto-Fuera m n (k ∷ ks) x d lo hi =
    (marcos_disjuntos m n k x d.0 lo hi, Distinto-Fuera m n ks x d.1 lo hi)

pub en_memoria-marco :
    (m : Memoria) (n k : ℕ) → IsMarco m n → k ≤ m.tamanio_pagina → en_memoria m (marco m n) k ≡ true
unfolding en_memoria
en_memoria-marco m n k h le = grind (arith, h.cabe)

abbrev pub con_bytes : Memoria → (ℕ → ℕ) → Memoria
con_bytes m c = record m { bytes = c }

-- The content of the memory plays no part in where the frames are.
pub IsMarco-con_bytes : (m : Memoria) (c : ℕ → ℕ) (n : ℕ) → IsMarco m n → IsMarco (con_bytes m c) n
IsMarco-con_bytes m c n h = record { esta = h.esta; cabe = h.cabe }

pub IsTabla-con_bytes :
    (m : Memoria) (c : ℕ → ℕ) (ns : List ℕ) → IsTabla m ns → IsTabla (con_bytes m c) ns
IsTabla-con_bytes m c [] h = tt
IsTabla-con_bytes m c (n ∷ ns) h = (IsMarco-con_bytes m c n h.0, h.1, IsTabla-con_bytes m c ns h.2)

-- What the writing loop has done: the pages read back as `v`, and no other byte changed.
pub record Escrito (m : Memoria) (ps v : List ℕ) (c' : ℕ → ℕ) : Type 0 where
  pub lee : leer_resto (con_bytes m c') ps (length v) ≡ some v
  pub ajeno : (x : ℕ) → Fuera m ps x → c' x ≡ m.bytes x

tramo-le : (m : Memoria) (n : ℕ) → (tramo m n ≤ m.tamanio_pagina) × (tramo m n ≤ n)
tramo-le m n = ground arith

length-take-tramo :
    (m : Memoria) (v : List ℕ) → length (take (tramo m (length v)) v) ≡ tramo m (length v)
length-take-tramo m v = omega (arith, length-take {0} (tramo m (length v)) v, tramo-le m (length v))

-- Reading back a page that was written, when the later writes `c'` left it alone.
leer_resto-cons :
    (m : Memoria) (n : ℕ) (ps : List ℕ) (v₀ : ℕ) (vs : List ℕ) (c' : ℕ → ℕ)
    → IsMarco m n
    → Distinto n ps
    → let v = v₀ ∷ vs in
      let k = tramo m (length v) in
      Escrito (con_bytes m (escribir_bytes m.bytes (marco m n) (take k v))) ps (drop k v) c'
      → leer_resto (con_bytes m c') (n ∷ ps) (length v) ≡ some v
unfolding leer_resto
leer_resto-cons m n ps v₀ vs c' h d e =
    let v = v₀ ∷ vs in
    let k = tramo m (length v) in
    let c₁ = escribir_bytes m.bytes (marco m n) (take k v) in
    let lt = length-take-tramo m v in
    let le = tramo-le m (length v) in
    let resto : leer_resto (con_bytes m c') ps (length v - k) ≡ some (drop k v) =
      ap (leer_resto (con_bytes m c') ps) (sym (length-drop {0} k v)) ∙ e.lee in
    let igual : leer_bytes c' (marco m n) k ≡ take k v =
      leer_bytes_ext c' c₁ (marco m n) k
        (λ x lo hi. e.ajeno x (Distinto-Fuera m n ps x d lo (omega (arith, le.0))))
      ∙ ap (leer_bytes c₁ (marco m n)) (sym lt)
      ∙ leer-escribir_bytes m.bytes (marco m n) (take k v) in
    rw (
      h.esta,
      en_memoria-marco (con_bytes m c') n k (IsMarco-con_bytes m c' n h) le.0,
      resto,
      igual,
      take-append-drop k v,
    )

Fuera-marco :
    (m : Memoria) (n : ℕ) (ps : List ℕ) (x k : ℕ)
    → k ≤ m.tamanio_pagina
    → Fuera m (n ∷ ps) x
    → (x < marco m n) ⊎ (marco m n + k ≤ x)
Fuera-marco m n ps x k le f = omega (arith, f.0)

-- With enough pages the writing loop returns, and has written all of `v`.
pub escribir_resto-Escrito :
    (m : Memoria) (ps v : List ℕ)
    → IsTabla m ps
    → length v ≤ length ps * m.tamanio_pagina
    → (c' : ℕ → ℕ) × (escribir_resto m ps v ≡ some (con_bytes m c')) × Escrito m ps v c'
unfolding escribir_resto
escribir_resto-Escrito m ps [] h l =
    (m.bytes, refl, record { lee = unfold leer_resto in refl; ajeno = λ x f. refl })
escribir_resto-Escrito m [] (v₀ ∷ vs) h l = absurd (omega arith)
escribir_resto-Escrito m (n ∷ ps) (v₀ ∷ vs) h l =
    let v = v₀ ∷ vs in
    let k = tramo m (length v) in
    let le = tramo-le m (length v) in
    let lt = length-take-tramo m v in
    let c₁ = escribir_bytes m.bytes (marco m n) (take k v) in
    let (c', e, w) =
      escribir_resto-Escrito (con_bytes m c₁) ps (drop k v) (IsTabla-con_bytes m c₁ ps h.2)
        (grind (arith, length-drop {0} k v)) in
    (
      c',
      rw (h.0.esta, en_memoria-marco m n k h.0 le.0) e,
      record {
        lee = leer_resto-cons m n ps v₀ vs c' h.0 h.1 w;
        ajeno = λ x f.
            w.ajeno x f.1
            ∙ escribir_bytes_fuera m.bytes (marco m n) (take k v) x
                (omega (arith, lt, Fuera-marco m n ps x k le.0 f));
      },
    )
