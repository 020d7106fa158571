-- ===== src/Commons/Buffer.antt =====
-- t_buffer of utils/src/commons.c: a malloc'ed block with a cursor. Bytes are numbers below 256,
-- little-endian as on x86. An access outside the block, undefined in C, is a fault (`none`).
pub mod Stream
pub mod Append
use tp_2024_1c_asado_criollo.Prelude.{
  ℕ, ◌+◌, ◌-◌, ◌*◌, ◌/◌, ◌%◌, ◌^◌, List, [], ◌∷◌, ◌++◌, Option, none, some, leb, if◌then◌else◌,
  ◌>>=◌, length, take, drop,
}

pub record Buffer : Type 0 where
  pub size : ℕ
  pub offset : ℕ
  pub stream : List ℕ

-- memcpy of `bs` into a block at an offset.
unfoldable pub memcpy_to : List ℕ → ℕ → List ℕ → Option (List ℕ)
memcpy_to block off bs =
    if leb (off + length bs) (length block)
    then some (take off block ++ (bs ++ drop (off + length bs) block))
    else none

-- memcpy of `n` bytes out of a block from an offset.
unfoldable pub memcpy_from : List ℕ → ℕ → ℕ → Option (List ℕ)
memcpy_from block off n =
    if leb (off + n) (length block) then some (take n (drop off block)) else none

-- The bytes of a uint32_t and of the int with the same bit pattern.
abbrev pub bytes_u32 : ℕ → List ℕ
bytes_u32 x = (x % 256) ∷ (x / 256 % 256) ∷ (x / 65536 % 256) ∷ (x / 16777216 % 256) ∷ []

unfoldable pub u32_of_bytes : List ℕ → ℕ
u32_of_bytes [] = 0
u32_of_bytes (b ∷ bs) = b + 256 * u32_of_bytes bs

-- What every `buffer_add_...` does: copy at the cursor and move it.
unfoldable pub buffer_write : Buffer → List ℕ → Option Buffer
buffer_write b bs = do
  s ← memcpy_to b.stream b.offset bs
  some (record b { offset = b.offset + length bs; stream = s })

-- What every `buffer_read_...` does: copy from the cursor and move it.
unfoldable pub buffer_read : Buffer → ℕ → Option (List ℕ × Buffer)
buffer_read b n = do
  bs ← memcpy_from b.stream b.offset n
  some (bs, record b { offset = b.offset + n })

unfoldable pub buffer_add_uint32 : Buffer → ℕ → Option Buffer
buffer_add_uint32 b x = buffer_write b (bytes_u32 x)

unfoldable pub buffer_add_int : Buffer → ℕ → Option Buffer
buffer_add_int b x = buffer_write b (bytes_u32 x)

unfoldable pub buffer_add_uint8 : Buffer → ℕ → Option Buffer
buffer_add_uint8 b x = buffer_write b ((x % 256) ∷ [])

-- The length, then the bytes of the string without its NUL.
unfoldable pub buffer_add_string : Buffer → List ℕ → Option Buffer
buffer_add_string b s = do b' ← buffer_write b (bytes_u32 (length s)); buffer_write b' s

unfoldable pub buffer_read_uint32 : Buffer → Option (ℕ × Buffer)
buffer_read_uint32 b = do (bs, b') ← buffer_read b 4; some (u32_of_bytes bs, b')

unfoldable pub buffer_read_int : Buffer → Option (ℕ × Buffer)
buffer_read_int b = do (bs, b') ← buffer_read b 4; some (u32_of_bytes bs, b')

unfoldable pub buffer_read_uint8 : Buffer → Option (ℕ × Buffer)
buffer_read_uint8 b = do (bs, b') ← buffer_read b 1; some (u32_of_bytes bs, b')

unfoldable pub buffer_read_string : Buffer → ℕ → Option (List ℕ × Buffer)
buffer_read_string b n = buffer_read b n

unfoldable pub deserializar_string : Buffer → Option (List ℕ × Buffer)
deserializar_string b = do (n, b') ← buffer_read_uint32 b; buffer_read_string b' n

-- What `malloc(n)` returns is a block of `n` bytes of any content.
module _ (malloc : ℕ → List ℕ) where
  unfoldable pub buffer_create : ℕ → Buffer
  buffer_create n = record { size = n; offset = 0; stream = malloc n }

  -- realloc keeps the old bytes that fit.
  unfoldable pub realloc : List ℕ → ℕ → List ℕ
  realloc block n = take n (block ++ malloc (n - length block))

  -- The second buffer goes behind the first; the cursor stays.
  unfoldable pub buffer_add_buffer : Buffer → Buffer → Option Buffer
  buffer_add_buffer b c = do
    bs ← memcpy_from c.stream 0 c.size
    s ← memcpy_to (realloc b.stream (b.size + c.size)) b.size bs
    some (record b { size = b.size + c.size; stream = s })

  unfoldable pub serializar_string : List ℕ → Option Buffer
  serializar_string s = buffer_add_string (buffer_create (length s + 4)) s

  -- The part behind the cursor, as a new buffer.
  unfoldable pub buffer_get_sobrante : Buffer → Option Buffer
  buffer_get_sobrante b = do
    bs ← memcpy_from b.stream b.offset (b.size - b.offset)
    s ← memcpy_to (malloc (b.size - b.offset)) 0 bs
    some (record { size = b.size - b.offset; offset = 0; stream = s })

  -- EnviarBuffer at one end and RecibirBuffer at the other: the size, then as many bytes.
  unfoldable pub transmitir : Buffer → Option Buffer
  transmitir b = do
    bs ← memcpy_from b.stream 0 b.size
    s ← memcpy_to (malloc b.size) 0 bs
    some (record { size = b.size; offset = 0; stream = s })
