-- ===== src/EntradaSalida/Bitmap/Ranges.antt =====
-- AsignarEspacioBitmap and LiberarEspacioBitmap of DialFS.c over a range of blocks.
use tp_2024_1c_asado_criollo.Prelude.{
  ℕ, zero, suc, ◌+◌, ◌-◌, ◌≤◌, ◌<◌, ◌≡◌, ◌≢◌, refl, sym, ◌∙◌, Bool, true, false, not, List, ◌==◌,
  ltb, if◌then◌else◌, arith, Bool-cases, inl, inr, ◌⊎◌,
}
use tp_2024_1c_asado_criollo.EntradaSalida.Bitmap.{
  Bitmap, poner, bit, set_bit, limpiar_bit, is_set, asignar_bloque, asignar_espacio_bitmap,
  liberar_bloque, liberar_desde, liberar_espacio_bitmap,
}
use tp_2024_1c_asado_criollo.EntradaSalida.Bitmap.FreeSpace.{
  uno, tomados, IsExacto, poner-Puesto, tomados-Puesto,
}

-- The blocks from `p` on, `n` of them, have the value `v`; the others are as they were, and
-- free_space is right again.
pub record Cambiado (m m' : Bitmap) (p n : ℕ) (v : Bool) : Type 0 where
  pub exacto : IsExacto m'
  pub mismo : m'.size ≡ m.size
  pub dentro : (i : ℕ) → p ≤ i → i < p + n → is_set m' i ≡ v
  pub fuera : (i : ℕ) → (i < p) ⊎ (p + n ≤ i) → is_set m' i ≡ is_set m i

is_set-bit : (m : Bitmap) (j : ℕ) → j < m.size → is_set m j ≡ bit m.bits j
unfolding is_set
is_set-bit m j h = let si : ltb j m.size ≡ true = ground arith in rw si refl

-- One bit written, with free_space counted anew.
un_bloque :
    (m : Bitmap) (j k : ℕ) (v : Bool)
    → IsExacto m
    → j < m.size
    → is_set m j ≡ not v
    → k + uno v ≡ m.free_space + uno (not v)
    → Cambiado m (record m { bits = poner m.bits j v; free_space = k }) j 1 v
unfolding is_set
un_bloque m j k v h lt e c =
    let p = poner-Puesto m.bits j v h.bytes (omega (arith, h.cubre)) in
    let si : ltb j m.size ≡ true = ground arith in
    let era : bit m.bits j ≡ not v = rw si at e in
    record {
      exacto = record {
        bytes = p.bytes;
        cubre = rw p.largo h.cubre;
        exacto = omega (
          arith,
          c,
          h.exacto,
          rw (si, era) at (tomados-Puesto m.bits (poner m.bits j v) j v m.size p),
        );
      };
      mismo = refl;
      dentro = λ i lo hi. let q : i ≡ j = omega arith in rw (q, si) p.puesto;
      fuera = λ i o. let q : i ≢ j = λ r. absurd (omega (arith, r, o)) in rw (p.otros i q) refl;
    }

sin_cambio : (m : Bitmap) (j : ℕ) (v : Bool) → IsExacto m → is_set m j ≡ v → Cambiado m m j 1 v
sin_cambio m j v h e = record {
  exacto = h;
  mismo = refl;
  dentro = λ i lo hi. let q : i ≡ j = omega arith in rw q e;
  fuera = λ i o. refl;
}

tomados-le : (bits : List (List Bool)) (n : ℕ) → tomados bits n ≤ n
tomados-le bits zero = omega arith
tomados-le bits (suc n) = ground (arith, tomados-le bits n)

tomados-lt : (bits : List (List Bool)) (j n : ℕ) → j < n → bit bits j ≡ false → tomados bits n < n
tomados-lt bits j zero h e = absurd (omega arith)
tomados-lt bits j (suc n) h e = elim (Bool-cases (n == j)) [
  | inl c ↦ let q : n ≡ j = ground (arith, c) in rw (q, e) (omega (arith, tomados-le bits j))
  | inr c ↦
      let q : n ≢ j = λ r. absurd (ground (arith, c, r)) in
      ground (arith, tomados-lt bits j n (omega (arith, q)) e)
]

asignar_bloque-Cambiado :
    (m : Bitmap) (j : ℕ) → IsExacto m → j < m.size → Cambiado m (asignar_bloque m j) j 1 true
unfolding asignar_bloque
asignar_bloque-Cambiado m j h lt = elim (Bool-cases (is_set m j)) [
  | inl e ↦ rw (e, asignar_bloque) (sin_cambio m j true h e)
  | inr e ↦
      let si : ltb j m.size ≡ true = ground arith in
      rw (e, asignar_bloque, set_bit, si)
        (un_bloque m j (m.free_space - 1) true h lt e (hay_libre e))
]
  where
    hay_libre : is_set m j ≡ false → m.free_space - 1 + uno true ≡ m.free_space + uno false
    hay_libre e =
        omega (arith, h.exacto, tomados-lt m.bits j m.size lt (sym (is_set-bit m j lt) ∙ e))

liberar_bloque-Cambiado :
    (m : Bitmap) (j : ℕ) → IsExacto m → j < m.size → Cambiado m (liberar_bloque m j) j 1 false
unfolding liberar_bloque
liberar_bloque-Cambiado m j h lt = elim (Bool-cases (is_set m j)) [
  | inl e ↦
      let si : ltb j m.size ≡ true = ground arith in
      rw (e, liberar_bloque, limpiar_bit, si)
        (un_bloque m j (m.free_space + 1) false h lt e (omega arith))
  | inr e ↦ rw (e, liberar_bloque) (sin_cambio m j false h e)
]

-- A block, and then the blocks behind it.
Cambiado-mas :
    {m m₁ m₂ : Bitmap} (p n : ℕ) (v : Bool)
    → Cambiado m m₁ p 1 v
    → Cambiado m₁ m₂ (p + 1) n v
    → Cambiado m m₂ p (suc n) v
Cambiado-mas {m} {m₁} {m₂} p n v a b = record {
  exacto = b.exacto;
  mismo = b.mismo ∙ a.mismo;
  dentro = λ i lo hi. elim (Bool-cases (i == p)) [
    | inl c ↦
        let q : i ≡ p = ground (arith, c) in
        b.fuera i (inl (omega (arith, q))) ∙ a.dentro i lo (omega (arith, q))
    | inr c ↦
        let q : i ≢ p = λ r. absurd (ground (arith, c, r)) in
        b.dentro i (omega (arith, q)) (omega arith)
  ];
  fuera = λ i o. b.fuera i (antes i o) ∙ a.fuera i (justo i o);
}
  where
    antes : (i : ℕ) → (i < p) ⊎ (p + suc n ≤ i) → (i < p + 1) ⊎ (p + 1 + n ≤ i)
    antes i (inl h) = inl (omega arith)
    antes i (inr h) = inr (omega arith)

    justo : (i : ℕ) → (i < p) ⊎ (p + suc n ≤ i) → (i < p) ⊎ (p + 1 ≤ i)
    justo i (inl h) = inl h
    justo i (inr h) = inr (omega arith)

nada : (m : Bitmap) (p : ℕ) (v : Bool) → IsExacto m → Cambiado m m p 0 v
nada m p v h = record {
  exacto = h;
  mismo = refl;
  dentro = λ i lo hi. absurd (omega arith);
  fuera = λ i o. refl;
}

-- Within a bitmap whose free_space is right, AsignarEspacioBitmap sets exactly the blocks of the
-- range, those that were already set included, and free_space stays the number of blocks that are
-- not set.
pub asignar_espacio_bitmap-Cambiado :
    (m : Bitmap) (p n : ℕ)
    → IsExacto m
    → p + n ≤ m.size
    → Cambiado m (asignar_espacio_bitmap m p n) p n true
unfolding asignar_espacio_bitmap
asignar_espacio_bitmap-Cambiado m p zero h le = nada m p true h
asignar_espacio_bitmap-Cambiado m p (suc n) h le =
    let a = asignar_bloque-Cambiado m p h (omega arith) in
    Cambiado-mas p n true a (
      asignar_espacio_bitmap-Cambiado (asignar_bloque m p) (p + 1) n a.exacto
        (omega (arith, a.mismo)))

liberar_desde-Cambiado :
    (m : Bitmap) (p n : ℕ)
    → IsExacto m
    → p + n ≤ m.size
    → Cambiado m (liberar_desde m p n) p n false
unfolding liberar_desde
liberar_desde-Cambiado m p zero h le = nada m p false h
liberar_desde-Cambiado m p (suc n) h le =
    let a = liberar_bloque-Cambiado m p h (omega arith) in
    Cambiado-mas p n false a
      (liberar_desde-Cambiado (liberar_bloque m p) (p + 1) n a.exacto (omega (arith, a.mismo)))

-- Within a bitmap whose free_space is right, LiberarEspacioBitmap clears exactly the blocks of the
-- range, where a size of 0 stands for one block, and free_space stays the number of blocks that are
-- not set.
pub liberar_espacio_bitmap-Cambiado :
    (m : Bitmap) (p n : ℕ)
    → IsExacto m
    → p + (if n == 0 then 1 else n) ≤ m.size
    → Cambiado m (liberar_espacio_bitmap m p n) p (if n == 0 then 1 else n) false
unfolding liberar_espacio_bitmap
liberar_espacio_bitmap-Cambiado m p n h le =
    liberar_desde-Cambiado m p (if n == 0 then 1 else n) h le
