-- ===== src/EntradaSalida/Archivos/RoundTrip.antt =====
-- FS_Write and FS_Read of DialFS.c over the blocks of several files.
use native.Mathlib.Nat.{mul-le-mul_right}
use tp_2024_1c_asado_criollo.Prelude.{
  ℕ, ◌+◌, ◌*◌, ◌≤◌, ◌<◌, ◌≡◌, ◌≢◌, refl, ap, true, false, List, [], ◌∷◌, take, some, ◌==◌, ltb, leb,
  if◌then◌else◌, arith, length, Bool-cases, Option-cases, inl, inr,
}
use tp_2024_1c_asado_criollo.Commons.Buffer.{memcpy_from}
use tp_2024_1c_asado_criollo.Memoria.Access.{escribir_bytes}
use tp_2024_1c_asado_criollo.Memoria.Access.Cells.{
  escribir_bytes_fuera, leer_bytes_ext, leer-escribir_bytes,
}
use tp_2024_1c_asado_criollo.EntradaSalida.Archivos.{
  Metadata, DialFs, cero, cant_bloques, escribir_bloques, fs_write, fs_read,
}
use tp_2024_1c_asado_criollo.EntradaSalida.Archivos.Invariant.{ocupa, size-cant_bloques, Ordenado}

abbrev tamanio_max : ℕ → Metadata → ℕ
tamanio_max bs m = if m.tamanio_archivo == 0 then bs else m.tamanio_archivo

ocupa-positivo : (bs : ℕ) (m : Metadata) → 1 ≤ ocupa bs m
ocupa-positivo bs m = ground arith

ocupa-cant_bloques : (bs : ℕ) (m : Metadata) → cant_bloques bs m.tamanio_archivo ≤ ocupa bs m
ocupa-cant_bloques bs m = ground arith

tamanio_max-ocupa : (bs : ℕ) (m : Metadata) → 0 < bs → tamanio_max bs m ≤ ocupa bs m * bs
tamanio_max-ocupa bs m h = elim (Bool-cases (m.tamanio_archivo == 0)) [
  | inl e ↦ rw e (omega (arith, mul-le-mul_right {m = 1} {n = ocupa bs m} bs (ocupa-positivo bs m)))
  | inr e ↦
      let c = size-cant_bloques bs m.tamanio_archivo h in
      rw e (omega (arith, c, mul-le-mul_right bs (ocupa-cant_bloques bs m)))
]

take_todo : (v : List ℕ) → take (length v) v ≡ v
take_todo [] = refl
take_todo (x ∷ v) = ap (λ z. x ∷ z) (take_todo v)

-- What lies in the blocks before another run of blocks comes before what lies in that run.
antes : (bs b o b' x y : ℕ) → b + o ≤ b' → x ≤ o * bs → b * bs + x ≤ b' * bs + y
antes bs b o b' x y h l = grind (arith, mul-le-mul_right bs h)

memcpy_from_todo : (v : List ℕ) → memcpy_from v 0 (length v) ≡ some v
unfolding memcpy_from
memcpy_from_todo v =
    let si : leb (0 + length v) (length v) ≡ true = ground arith in rw (si, take_todo v) refl

-- A read of another file is of other bytes.
fs_read-ajeno :
    (fs : DialFs) (a : ℕ) (v : List ℕ) (f n : List ℕ) (m : Metadata) (pos p t : ℕ)
    → Ordenado fs
    → fs.metadata f ≡ some m
    → length v + pos ≤ m.tamanio_archivo
    → n ≢ f
    → a ≡ m.bloque_inicial * fs.block_size + pos
    → fs_read (record fs { bloques = escribir_bytes fs.bloques a v }) n p t ≡ fs_read fs n p t
unfolding fs_read
fs_read-ajeno fs a v f n m pos p t h e l ne ea =
    let bs = fs.block_size in
    elim (Option-cases (fs.metadata n)) [
      | inl z ↦ rw (z, fs_read) refl
      | inr (m', z) ↦ elim (Bool-cases (ltb (tamanio_max fs.block_size m') (t + p))) [
        | inl y ↦ rw (z, fs_read, y) refl
        | inr y ↦
            rw (z, fs_read, y)
              (ap some (
                leer_bytes_ext _ _ _ t (λ x lo hi.
                  escribir_bytes_fuera fs.bloques a v x (elim (h.separados n f m' m ne z e) [
                    | inl o ↦
                        let u : p + t ≤ ocupa bs m' * bs =
                          ground (arith, y, tamanio_max-ocupa bs m' h.positivo) in
                        inl (
                          omega (
                            arith,
                            ea,
                            hi,
                            antes bs m'.bloque_inicial (ocupa bs m') m.bloque_inicial (p + t) pos o
                                u,
                          ))
                    | inr o ↦
                        let u : pos + length v ≤ ocupa bs m * bs = omega (
                          arith,
                          l,
                          size-cant_bloques bs m.tamanio_archivo h.positivo,
                          mul-le-mul_right bs (ocupa-cant_bloques bs m),
                        ) in
                        inr (
                          omega (
                            arith,
                            ea,
                            lo,
                            antes bs m.bloque_inicial (ocupa bs m) m'.bloque_inicial
                                (pos + length v) p o u,
                          ))
                  ]))))
      ]
    ]

-- In a file system whose files share no block, FS_Write within the size of a file returns 0; then
-- FS_Read gives the bytes back, and every FS_Read of another file gives what it gave before.
pub fs_write-fs_read :
    (fs : DialFs) (f v : List ℕ) (pos : ℕ) {m : Metadata}
    → Ordenado fs
    → fs.metadata f ≡ some m
    → length v + pos ≤ m.tamanio_archivo
    → (fs' : DialFs) × (fs_write fs f pos v (length v) ≡ some (cero, fs'))
      × (fs_read fs' f pos (length v) ≡ some v)
      × ((n : List ℕ) (p t : ℕ) → n ≢ f → fs_read fs' n p t ≡ fs_read fs n p t)
unfolding fs_write fs_read escribir_bloques
fs_write-fs_read fs f v pos {m} h e l =
    let a = m.bloque_inicial * fs.block_size + pos in
    let fs' : DialFs = record fs { bloques = escribir_bytes fs.bloques a v } in
    let cabe : ltb m.tamanio_archivo (length v + pos) ≡ false = ground (arith, l) in
    let entra : ltb (tamanio_max fs.block_size m) (length v + pos) ≡ false = ground (arith, l) in
    (
      fs',
      rw (e, fs_write, cabe, memcpy_from_todo v) refl,
      rw (e, fs_read, entra) (ap some (leer-escribir_bytes fs.bloques a v)),
      λ n p t ne. fs_read-ajeno fs a v f n m pos p t h e l ne refl,
    )
