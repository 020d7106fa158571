-- ===== src/Commons/Buffer/Stream.antt =====
-- Writing and reading a buffer as appending to and consuming a byte stream.
use tp_2024_1c_asado_criollo.Prelude.{
  ℕ, ◌+◌, ◌≤◌, ◌<◌, ◌^◌, ◌%◌, ◌≡◌, sym, ap, ◌∙◌, List, [], ◌∷◌, ◌++◌, Option, some, arith, ◌>>=◌,
  length, take, drop, length-append, take-length_append, drop-length_append, append_assoc,
  length-take, length-drop, append-nil, take-append-drop,
}
use tp_2024_1c_asado_criollo.Commons.Buffer.{
  Buffer, memcpy_to, memcpy_from, bytes_u32, u32_of_bytes, buffer_write, buffer_read,
  buffer_add_uint32, buffer_add_uint8, buffer_read_uint32, buffer_read_uint8,
}

-- A buffer whose cursor stands between two parts of its block.
abbrev pub at : ℕ → List ℕ → List ℕ → Buffer
at size done rest = record { size = size; offset = length done; stream = done ++ rest }

-- `m` overwrites what follows the cursor by the bytes `bs` and stops behind them.
pub record Puts (m : Buffer → Option Buffer) (bs : List ℕ) : Type 0 where
  pub puts :
      (size : ℕ) (done old rest : List ℕ)
      → length old ≡ length bs
      → m (at size done (old ++ rest)) ≡ some (at size (done ++ bs) rest)

-- `m` takes the bytes `bs` that follow the cursor, stops behind them and returns `a`.
pub record Gets {ℓ} {A : Type ℓ} (m : Buffer → Option (A × Buffer)) (bs : List ℕ) (a : A)
    : Type ℓ where
  pub gets :
      (size : ℕ) (done rest : List ℕ)
      → m (at size done (bs ++ rest)) ≡ some (a, at size (done ++ bs) rest)

drop-add : (xs ys zs : List ℕ) (n : ℕ) → n ≡ length xs + length ys → drop n (xs ++ (ys ++ zs)) ≡ zs
drop-add xs ys zs n e =
    ap (λ k. drop k (xs ++ (ys ++ zs))) (e ∙ sym (length-append xs ys))
    ∙ ap (drop (length (xs ++ ys))) (sym (append_assoc xs ys zs))
    ∙ drop-length_append (xs ++ ys) zs

pub buffer_write-Puts : (bs : List ℕ) → Puts (λ b. buffer_write b bs) bs
unfolding buffer_write memcpy_to
buffer_write-Puts bs = record {
  puts = λ size done old rest e. ground (
    arith,
    length-append {0} done (old ++ rest),
    length-append {0} old rest,
    length-append {0} done bs,
    take-length_append {0} done (old ++ rest),
    drop-add done old rest (length done + length bs),
    append_assoc done bs rest,
  );
}

pub buffer_read-Gets : (bs : List ℕ) → Gets (λ b. buffer_read b (length bs)) bs bs
unfolding buffer_read memcpy_from
buffer_read-Gets bs = record {
  gets = λ size done rest. ground (
    arith,
    length-append {0} done (bs ++ rest),
    length-append {0} bs rest,
    length-append {0} done bs,
    drop-length_append {0} done (bs ++ rest),
    take-length_append {0} bs rest,
    append_assoc done bs rest,
  );
}

split_take : (n : ℕ) (xs : List ℕ) → n ≤ length xs → length (take n xs) ≡ n
split_take n xs h = omega (arith, length-take {0} n xs)

-- Writes in a row write their bytes in a row.
pub Puts-bind :
    {m n : Buffer → Option Buffer} (bs cs : List ℕ)
    → Puts m bs
    → Puts n cs
    → Puts (λ b. m b >>= n) (bs ++ cs)
Puts-bind {m} {n} bs cs hm hn = record {
  puts = λ size done old rest e.
      let k = length bs in
      let h1 : length (take k old) ≡ length bs =
        split_take k old (omega (arith, length-append {0} bs cs)) in
      let h2 : length (drop k old) ≡ length cs =
        omega (arith, length-append {0} bs cs, length-drop {0} k old) in
      let eq : old ++ rest ≡ take k old ++ (drop k old ++ rest) =
        ap (λ z. z ++ rest) (sym (take-append-drop k old))
        ∙ append_assoc (take k old) (drop k old) rest in
      rw (
        eq,
        hm.puts size done (take k old) (drop k old ++ rest) h1,
        hn.puts size (done ++ bs) (drop k old) rest h2,
        append_assoc done bs cs,
      );
}

-- Reads in a row.
pub Gets-bind {ℓ κ} :
    {A : Type ℓ} {B : Type κ} {m : Buffer → Option (A × Buffer)}
    (f : A → Buffer → Option (B × Buffer)) (bs cs : List ℕ) (a : A) (b : B)
    → Gets m bs a
    → Gets (f a) cs b
    → Gets (λ s. m s >>= λ r. f r.0 r.1) (bs ++ cs) b
Gets-bind f bs cs a b hm hf = record {
  gets = λ size done rest. rw (
    append_assoc bs cs rest,
    hm.gets size done (cs ++ rest),
    hf.gets size (done ++ bs) rest,
    append_assoc done bs cs,
  );
}

pub Gets-map {ℓ κ} :
    {A : Type ℓ} {B : Type κ} {m : Buffer → Option (A × Buffer)} (g : A → B) (bs : List ℕ) (a : A)
    → Gets m bs a
    → Gets (λ s. m s >>= λ r. some (g r.0, r.1)) bs (g a)
Gets-map g bs a hm = record { gets = λ size done rest. rw (hm.gets size done rest) }

pub Gets-pure {ℓ} : {A : Type ℓ} (a : A) → Gets (λ s. some (a, s)) [] a
Gets-pure a = record { gets = λ size done rest. rw (append-nil done) }

pub u32_of_bytes-bytes_u32 : (x : ℕ) → x < 2 ^ 32 → u32_of_bytes (bytes_u32 x) ≡ x
unfolding u32_of_bytes
u32_of_bytes-bytes_u32 x h = omega arith

pub buffer_add_uint32-Puts : (x : ℕ) → Puts (λ b. buffer_add_uint32 b x) (bytes_u32 x)
unfolding buffer_add_uint32
buffer_add_uint32-Puts x = buffer_write-Puts (bytes_u32 x)

pub buffer_add_uint8-Puts : (x : ℕ) → Puts (λ b. buffer_add_uint8 b x) ((x % 256) ∷ [])
unfolding buffer_add_uint8
buffer_add_uint8-Puts x = buffer_write-Puts ((x % 256) ∷ [])

pub buffer_read_uint32-Gets : (x : ℕ) → x < 2 ^ 32 → Gets buffer_read_uint32 (bytes_u32 x) x
unfolding buffer_read_uint32
buffer_read_uint32-Gets x h = record {
  gets = λ size done rest.
      rw ((buffer_read-Gets (bytes_u32 x)).gets size done rest, u32_of_bytes-bytes_u32 x h);
}

pub buffer_read_uint8-Gets : (x : ℕ) → x < 256 → Gets buffer_read_uint8 ((x % 256) ∷ []) x
unfolding buffer_read_uint8 u32_of_bytes
buffer_read_uint8-Gets x h = record {
  gets =
      λ size done rest. rw ((buffer_read-Gets ((x % 256) ∷ [])).gets size done rest) (ground arith);
}
