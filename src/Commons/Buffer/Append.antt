-- ===== src/Commons/Buffer/Append.antt =====
-- buffer_add_buffer, buffer_get_sobrante and the transmission of a buffer, of utils/src/commons.c.
use tp_2024_1c_asado_criollo.Prelude.{
  ℕ, ◌+◌, ◌-◌, ◌≡◌, refl, ap, true, List, [], ◌∷◌, ◌++◌, some, arith, leb, length, take, drop,
  length-append, take-length_append, drop-length_append, append-nil,
}
use tp_2024_1c_asado_criollo.Commons.Buffer.{
  memcpy_to, memcpy_from, realloc, buffer_add_buffer, buffer_get_sobrante, transmitir,
}
use tp_2024_1c_asado_criollo.Commons.Buffer.Stream.{at}

drop-todo : (xs : List ℕ) → drop (length xs) xs ≡ []
drop-todo [] = refl
drop-todo (x ∷ xs) = drop-todo xs

take-todo : (xs : List ℕ) → take (length xs) xs ≡ xs
take-todo [] = refl
take-todo (x ∷ xs) = ap (λ z. x ∷ z) (take-todo xs)

-- A part of a block.
memcpy_from-medio :
    (xs ys : List ℕ) (n : ℕ) → n ≡ length ys → memcpy_from (xs ++ ys) (length xs) n ≡ some ys
unfolding memcpy_from
memcpy_from-medio xs ys n e =
    let si : leb (length xs + n) (length (xs ++ ys)) ≡ true =
      ground (arith, e, length-append {0} xs ys) in
    rw (si, drop-length_append xs ys, e, take-todo ys) refl

-- The end of a block is overwritten, or the whole of it.
memcpy_to-fin :
    (xs old ys : List ℕ)
    → length old ≡ length ys
    → memcpy_to (xs ++ old) (length xs) ys ≡ some (xs ++ ys)
unfolding memcpy_to
memcpy_to-fin xs old ys e =
    let n : length xs + length ys ≡ length (xs ++ old) =
      omega (arith, e, length-append {0} xs old) in
    let si : leb (length (xs ++ old)) (length (xs ++ old)) ≡ true = ground arith in
    rw (n, si, take-length_append xs old, drop-todo (xs ++ old), append-nil ys) refl

memcpy_to-todo : (block bs : List ℕ) → length block ≡ length bs → memcpy_to block 0 bs ≡ some bs
memcpy_to-todo block bs e = memcpy_to-fin [] block bs e

module _ (malloc : ℕ → List ℕ) (bloque : (n : ℕ) → length (malloc n) ≡ n) where
  -- What is behind the cursor, as a buffer of its own.
  pub buffer_get_sobrante_lem :
      (done rest : List ℕ) (size : ℕ)
      → size ≡ length done + length rest
      → buffer_get_sobrante malloc (at size done rest)
        ≡ some (record { size = length rest; offset = 0; stream = rest })
  unfolding buffer_get_sobrante
  buffer_get_sobrante_lem done rest size e =
      let n : size - length done ≡ length rest = omega (arith, e) in
      rw
        (
          n,
          memcpy_from-medio done rest (length rest) refl,
          memcpy_to-todo (malloc (length rest)) rest (bloque (length rest)),
        )
        refl

  pub buffer_add_buffer_lem :
      (xs ys : List ℕ) (o p : ℕ)
      → buffer_add_buffer malloc
          (record { size = length xs; offset = o; stream = xs })
          (record { size = length ys; offset = p; stream = ys })
        ≡ some (record { size = length xs + length ys; offset = o; stream = xs ++ ys })
  unfolding buffer_add_buffer realloc
  buffer_add_buffer_lem xs ys o p =
      let n : length xs + length ys - length xs ≡ length ys = omega arith in
      let m = malloc (length ys) in
      let t : length xs + length ys ≡ length (xs ++ m) =
        omega (arith, length-append {0} xs m, bloque (length ys)) in
      let todo : take (length xs + length ys) (xs ++ m) ≡ xs ++ m = rw t (take-todo (xs ++ m)) in
      rw
        (
          memcpy_from-medio [] ys (length ys) refl,
          n,
          todo,
          memcpy_to-fin xs m ys (bloque (length ys)),
        )
        refl

  pub transmitir_lem :
      (xs : List ℕ) (size o : ℕ)
      → size ≡ length xs
      → transmitir malloc (record { size = size; offset = o; stream = xs })
        ≡ some (record { size = length xs; offset = 0; stream = xs })
  unfolding transmitir
  transmitir_lem xs size o e =
      rw
        (
          e,
          memcpy_from-medio [] xs (length xs) refl,
          memcpy_to-todo (malloc (length xs)) xs (bloque (length xs)),
        )
        refl
