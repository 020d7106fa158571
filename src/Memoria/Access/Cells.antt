-- ===== src/Memoria/Access/Cells.antt =====
-- Reading and writing runs of bytes.
use tp_2024_1c_asado_criollo.Prelude.{
  ℕ, zero, suc, ◌+◌, ◌≤◌, ◌<◌, ◌≡◌, refl, ap₂, ◌∙◌, List, [], ◌∷◌, ◌==◌, if◌then◌else◌, arith,
  length, ◌⊎◌, inl,
}
use tp_2024_1c_asado_criollo.Memoria.Access.{leer_bytes, escribir_bytes}

-- A write changes nothing outside its run.
pub escribir_bytes_fuera :
    (c : ℕ → ℕ) (a : ℕ) (v : List ℕ) (x : ℕ)
    → (x < a) ⊎ (a + length v ≤ x)
    → escribir_bytes c a v x ≡ c x
unfolding escribir_bytes
escribir_bytes_fuera c a [] x h = refl
escribir_bytes_fuera c a (b ∷ bs) x h =
    escribir_bytes_fuera (λ y. if y == a then b else c y) (a + 1) bs x (ground (arith, h))
    ∙ ground (arith, h)

pub leer_bytes_ext :
    (c c' : ℕ → ℕ) (a n : ℕ)
    → ((x : ℕ) → a ≤ x → x < a + n → c x ≡ c' x)
    → leer_bytes c a n ≡ leer_bytes c' a n
unfolding leer_bytes
leer_bytes_ext c c' a zero h = refl
leer_bytes_ext c c' a (suc n) h =
    ap₂ ◌∷◌ (h a (omega arith) (omega arith))
      (leer_bytes_ext c c' (a + 1) n (λ x p q. h x (omega arith) (omega arith)))

-- A run that was written is read back.
pub leer-escribir_bytes :
    (c : ℕ → ℕ) (a : ℕ) (v : List ℕ) → leer_bytes (escribir_bytes c a v) a (length v) ≡ v
unfolding leer_bytes escribir_bytes
leer-escribir_bytes c a [] = refl
leer-escribir_bytes c a (b ∷ bs) =
    let c' : ℕ → ℕ = λ x. if x == a then b else c x in
    ap₂ ◌∷◌ (escribir_bytes_fuera c' (a + 1) bs a (inl (omega arith)) ∙ ground arith)
      (leer-escribir_bytes c' (a + 1) bs)
