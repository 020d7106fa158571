-- ===== src/EntradaSalida/Bitmap/Search.antt =====
-- GetNextFreeSpace and CheckIfEspacioDisponible of DialFS.c.
use tp_2024_1c_asado_criollo.Prelude.{
  ℕ, zero, suc, ◌+◌, ◌≤◌, ◌<◌, ◌≡◌, ◌≢◌, refl, true, false, not, ◌&&◌, Option, none, some, ◌==◌,
  leb, arith, Bool-cases, inl, inr,
}
use tp_2024_1c_asado_criollo.EntradaSalida.Bitmap.{
  Bitmap, is_set, libre_desde, get_next_free_space, revisar, check_if_espacio_disponible,
}

-- The result is the first free block from `i` on, among `n`, and -1 means that there is none.
pub data Primero (m : Bitmap) (i n : ℕ) : Option ℕ → Type 0 where
  lleno : ((j : ℕ) → i ≤ j → j < i + n → is_set m j ≡ true) → Primero m i n none
  hay :
      (k : ℕ)
      → i ≤ k
      → k < i + n
      → is_set m k ≡ false
      → ((j : ℕ) → i ≤ j → j < k → is_set m j ≡ true)
      → Primero m i n (some k)

Primero-mas :
    (m : Bitmap) (i n : ℕ) {o : Option ℕ}
    → is_set m i ≡ true
    → Primero m (i + 1) n o
    → Primero m i (suc n) o
Primero-mas m i n e (lleno f) = lleno (λ j lo hi. elim (Bool-cases (j == i)) [
  | inl c ↦ let q : j ≡ i = ground (arith, c) in rw q e
  | inr c ↦
      let q : j ≢ i = λ r. absurd (ground (arith, c, r)) in f j (omega (arith, q)) (omega arith)
])
Primero-mas m i n e (hay k lo hi g f) = hay k (omega arith) (omega arith) g (λ j l u.
    elim (Bool-cases (j == i)) [
      | inl c ↦ let q : j ≡ i = ground (arith, c) in rw q e
      | inr c ↦ let q : j ≢ i = λ r. absurd (ground (arith, c, r)) in f j (omega (arith, q)) u
    ])

libre_desde-Primero : (m : Bitmap) (i n : ℕ) → Primero m i n (libre_desde m i n)
unfolding libre_desde
libre_desde-Primero m i zero = lleno (λ j lo hi. absurd (omega arith))
libre_desde-Primero m i (suc n) = elim (Bool-cases (is_set m i)) [
  | inl e ↦ rw e (Primero-mas m i n e (libre_desde-Primero m (i + 1) n))
  | inr e ↦ rw e (hay i (omega arith) (omega arith) e (λ j lo hi. absurd (omega arith)))
]

-- GetNextFreeSpace returns the first block that is not set, and -1 exactly when every block of the
-- bitmap is set.
pub get_next_free_space-Primero : (m : Bitmap) → Primero m 0 m.size (get_next_free_space m)
unfolding get_next_free_space
get_next_free_space-Primero m = libre_desde-Primero m 0 m.size

revisar-true : (m : Bitmap) (i n : ℕ) → revisar m i n true ≡ true
unfolding revisar
revisar-true m i zero = refl
revisar-true m i (suc n) = ground (arith, revisar-true m (i + 1) n)

-- CheckIfEspacioDisponible looks at the count of free blocks and at the first block of the range
-- only: the blocks behind it may be taken.
pub check_if_espacio_disponible_lem :
    (m : Bitmap) (base tamanio : ℕ)
    → check_if_espacio_disponible m base tamanio
      ≡ leb tamanio m.free_space && (not (tamanio == 0) && not (is_set m base))
unfolding check_if_espacio_disponible revisar
check_if_espacio_disponible_lem m base zero = ground arith
check_if_espacio_disponible_lem m base (suc n) = ground (arith, revisar-true m (base + 1) n)
