-- ===== src/EntradaSalida/Archivos/Invariant.antt =====
-- The files of DialFS.c and their blocks.
use native.Mathlib.Nat.{mod-add-div', mod-lt}
use tp_2024_1c_asado_criollo.Prelude.{
  ℕ, ◌+◌, ◌*◌, ◌%◌, ◌≤◌, ◌<◌, ◌≡◌, ◌≢◌, true, List, Option, some, ◌==◌, eq_bytes, eq_bytes_iff,
  if◌then◌else◌, arith, Bool-cases, inl, inr, ◌⊎◌,
}
use tp_2024_1c_asado_criollo.EntradaSalida.Bitmap.{is_set}
use tp_2024_1c_asado_criollo.EntradaSalida.Bitmap.FreeSpace.{IsExacto}
use tp_2024_1c_asado_criollo.EntradaSalida.Archivos.{Metadata, DialFs, poner_metadata, cant_bloques}

-- The blocks of a file: one at least.
abbrev pub ocupa : ℕ → Metadata → ℕ
ocupa bs m = let n = cant_bloques bs m.tamanio_archivo in if n == 0 then 1 else n

pub size-cant_bloques : (bs size : ℕ) → 0 < bs → size ≤ cant_bloques bs size * bs
unfolding cant_bloques
size-cant_bloques bs size h = elim (Bool-cases (size % bs == 0)) [
  | inl e ↦ rw e (ground (arith, e, mod-add-div' size bs))
  | inr e ↦ rw e (grind (arith, mod-add-div' size bs, mod-lt size h))
]

abbrev pub Separados : ℕ → Metadata → Metadata → Type 0
Separados bs m m' =
    (m.bloque_inicial + ocupa bs m ≤ m'.bloque_inicial)
    ⊎ (m'.bloque_inicial + ocupa bs m' ≤ m.bloque_inicial)

-- The bitmap counts right; the blocks of every file lie in it and are taken; two files share none.
pub record Ordenado (fs : DialFs) : Type 0 where
  pub exacto : IsExacto fs.bitmap
  pub positivo : 0 < fs.block_size
  pub dentro :
      (n : List ℕ) (m : Metadata)
      → fs.metadata n ≡ some m
      → m.bloque_inicial + ocupa fs.block_size m ≤ fs.bitmap.size
  pub tomados :
      (n : List ℕ) (m : Metadata)
      → fs.metadata n ≡ some m
      → (i : ℕ) → m.bloque_inicial ≤ i
      → i < m.bloque_inicial + ocupa fs.block_size m
      → is_set fs.bitmap i ≡ true
  pub separados :
      (n n' : List ℕ) (m m' : Metadata)
      → n ≢ n'
      → fs.metadata n ≡ some m
      → fs.metadata n' ≡ some m'
      → Separados fs.block_size m m'

-- What is under a name after one name's metadata has been written.
pub poner_metadata-get :
    (md : List ℕ → Option Metadata) (f n : List ℕ) (o : Option Metadata) {m : Metadata}
    → poner_metadata md f o n ≡ some m
    → ((n ≡ f) × (o ≡ some m)) ⊎ ((n ≢ f) × (md n ≡ some m))
poner_metadata-get md f n o e = elim (Bool-cases (eq_bytes n f)) [
  | inl c ↦ inl ((eq_bytes_iff n f).0 c, rw c at e)
  | inr c ↦ inr (λ q. absurd (cc (c, (eq_bytes_iff n f).1 q)), rw c at e)
]
