-- ===== src/EntradaSalida/Bitmap/FreeSpace.antt =====
-- free_space against the bits, in DialFS.c.
use tp_2024_1c_asado_criollo.Prelude.{
  ℕ, zero, suc, ◌+◌, ◌/◌, ◌%◌, ◌*◌, ◌≤◌, ◌<◌, ◌≡◌, ◌≢◌, refl, ◌∙◌, Bool, true, false, List, [], ◌∷◌,
  some, ◌==◌, ltb, if◌then◌else◌, get_elem?, set, length, arith, Bool-cases, inl, inr,
  get_elem?_of_lt, length-set, get_elem?-set_self, get_elem?-set_ne,
}
use tp_2024_1c_asado_criollo.EntradaSalida.Bitmap.{Bitmap, poner, bit}

-- Every byte has eight bits.
abbrev pub Bytes : List (List Bool) → Type 0
Bytes [] = Unit {0}
Bytes (b ∷ bs) = (length b ≡ 8) × Bytes bs

abbrev pub uno : Bool → ℕ
uno true = 1
uno false = 0

-- How many of the first `n` blocks are taken.
abbrev pub tomados : List (List Bool) → ℕ → ℕ
tomados bits zero = 0
tomados bits (suc n) = uno (bit bits n) + tomados bits n

-- The array covers the blocks, and free_space is the number of the bits that are not set.
pub record IsExacto (m : Bitmap) : Type 0 where
  pub bytes : Bytes m.bits
  pub cubre : m.size ≤ length m.bits * 8
  pub exacto : m.free_space + tomados m.bits m.size ≡ m.size

Bytes-get :
    (bs : List (List Bool)) (i : ℕ) {b : List Bool}
    → Bytes bs
    → get_elem? bs i ≡ some b
    → length b ≡ 8
Bytes-get [] i h e = absurd cc
Bytes-get (x ∷ bs) zero {b} h e = ground (arith, e, h.0)
Bytes-get (x ∷ bs) (suc i) h e = Bytes-get bs i h.1 e

Bytes-set :
    (bs : List (List Bool)) (i : ℕ) (b : List Bool) → Bytes bs → length b ≡ 8 → Bytes (set bs i b)
Bytes-set [] i b h e = tt
Bytes-set (x ∷ bs) zero b h e = (e, h.1)
Bytes-set (x ∷ bs) (suc i) b h e = (h.0, Bytes-set bs i b h.1 e)

-- Changing one bit changes that bit and no other.
pub record Puesto (bits bits' : List (List Bool)) (i : ℕ) (v : Bool) : Type 0 where
  pub bytes : Bytes bits'
  pub largo : length bits' ≡ length bits
  pub puesto : bit bits' i ≡ v
  pub otros : (j : ℕ) → j ≢ i → bit bits' j ≡ bit bits j

pub poner-Puesto :
    (bits : List (List Bool)) (i : ℕ) (v : Bool)
    → Bytes bits
    → i < length bits * 8
    → Puesto bits (poner bits i v) i v
poner-Puesto bits i v h lt =
    let (b, e) = get_elem?_of_lt bits (i / 8) (omega arith) in
    let ocho = Bytes-get bits (i / 8) h e in
    let b' = set b (i % 8) v in
    let mismo : get_elem? (set bits (i / 8) b') (i / 8) ≡ some b' =
      get_elem?-set_self bits (i / 8) b' (omega arith) in
    rw (e, poner)
      (record {
        bytes = Bytes-set bits (i / 8) b' h (length-set b (i % 8) v ∙ ocho);
        largo = length-set bits (i / 8) b';
        puesto = rw (mismo, bit, get_elem?-set_self b (i % 8) v (omega (arith, ocho))) refl;
        otros = λ j ne. elim (Bool-cases (j / 8 == i / 8)) [
          | inl c ↦
              let q : j / 8 ≡ i / 8 = ground (arith, c) in
              rw
                (
                  q,
                  bit,
                  mismo,
                  e,
                  get_elem?-set_ne b (i % 8) (j % 8) v (λ r. ne (omega (arith, q, r))),
                )
                refl
          | inr c ↦
              rw
                (get_elem?-set_ne bits (i / 8) (j / 8) b' (λ r. absurd (ground (arith, c, r))), bit)
                refl
        ];
      })

-- The count after a change of one bit.
pub tomados-Puesto :
    (bits bits' : List (List Bool)) (i : ℕ) (v : Bool) (n : ℕ)
    → Puesto bits bits' i v
    → tomados bits' n + (if ltb i n then uno (bit bits i) else 0)
      ≡ tomados bits n + (if ltb i n then uno v else 0)
tomados-Puesto bits bits' i v zero p = ground arith
tomados-Puesto bits bits' i v (suc n) p = elim (Bool-cases (n == i)) [
  | inl e ↦
      let q : n ≡ i = ground (arith, e) in
      let a : ltb i n ≡ false = ground (arith, q) in
      let b : ltb i (suc n) ≡ true = ground (arith, q) in
      rw (b, q, p.puesto) (omega (arith, rw (a, q) at (tomados-Puesto bits bits' i v n p)))
  | inr e ↦
      let q : n ≢ i = λ r. absurd (ground (arith, e, r)) in
      let a : ltb i (suc n) ≡ ltb i n = ground (arith, q) in
      rw (a, p.otros n q) (omega (arith, tomados-Puesto bits bits' i v n p))
]
