-- ===== src/EntradaSalida/Bitmap.antt =====
-- The bitmap of free blocks of entradasalida/src/DialFS.c. A byte is the list of its eight bits,
-- the lowest first, so that `1 << k` selects the element `k`. free_space is an int, whose
-- decrement at 0 is not reached from a bitmap that counts right.
pub mod FreeSpace
pub mod Ranges
pub mod Search
use tp_2024_1c_asado_criollo.Prelude.{
  ℕ, zero, suc, ◌+◌, ◌-◌, ◌/◌, ◌%◌, Bool, true, false, not, List, [], ◌∷◌, Option, none, some, ◌==◌,
  ltb, leb, if◌then◌else◌, get_elem?, set, replicate,
}

pub record Bitmap : Type 0 where
  pub size : ℕ
  pub free_space : ℕ
  pub bits : List (List Bool)

abbrev pub byte_cero : List Bool
byte_cero = false ∷ false ∷ false ∷ false ∷ false ∷ false ∷ false ∷ false ∷ []

-- calloc gives bytes 0.
unfoldable pub create_bitmap : ℕ → Bitmap
create_bitmap size = record {
  size = size;
  free_space = size;
  bits = replicate ((size + 7) / 8) byte_cero;
}

-- The byte with one bit changed, in the array.
abbrev pub poner : List (List Bool) → ℕ → Bool → List (List Bool)
poner bits index v = elim (get_elem? bits (index / 8)) [
  | none ↦ bits
  | some b ↦ set bits (index / 8) (set b (index % 8) v)
]

abbrev pub bit : List (List Bool) → ℕ → Bool
bit bits index = elim (get_elem? bits (index / 8)) [
  | none ↦ false
  | some b ↦ elim (get_elem? b (index % 8)) [ none ↦ false | some v ↦ v ]
]

unfoldable pub set_bit : Bitmap → ℕ → Bitmap
set_bit m index = if ltb index m.size then record m { bits = poner m.bits index true } else m

unfoldable pub limpiar_bit : Bitmap → ℕ → Bitmap
limpiar_bit m index = if ltb index m.size then record m { bits = poner m.bits index false } else m

unfoldable pub is_set : Bitmap → ℕ → Bool
is_set m index = if ltb index m.size then bit m.bits index else false

-- The body of the loop of AsignarEspacioBitmap.
unfoldable pub asignar_bloque : Bitmap → ℕ → Bitmap
unfolding set_bit is_set
asignar_bloque m j =
    if is_set m j then m else (let m' = set_bit m j in record m' { free_space = m'.free_space - 1 })

-- The loop, with `n` blocks left from `j` on.
unfoldable pub asignar_espacio_bitmap : Bitmap → ℕ → ℕ → Bitmap
asignar_espacio_bitmap m j zero = m
asignar_espacio_bitmap m j (suc n) = asignar_espacio_bitmap (asignar_bloque m j) (j + 1) n

unfoldable pub liberar_bloque : Bitmap → ℕ → Bitmap
unfolding limpiar_bit is_set
liberar_bloque m j =
    if is_set m j
    then (let m' = limpiar_bit m j in record m' { free_space = m'.free_space + 1 })
    else m

unfoldable pub liberar_desde : Bitmap → ℕ → ℕ → Bitmap
liberar_desde m j zero = m
liberar_desde m j (suc n) = liberar_desde (liberar_bloque m j) (j + 1) n

unfoldable pub liberar_espacio_bitmap : Bitmap → ℕ → ℕ → Bitmap
unfolding liberar_desde
liberar_espacio_bitmap m posicion size = liberar_desde m posicion (if size == 0 then 1 else size)

-- GetNextFreeSpace from block `i` on with `n` left; `none` is -1.
unfoldable pub libre_desde : Bitmap → ℕ → ℕ → Option ℕ
libre_desde m i zero = none
libre_desde m i (suc n) = if not (is_set m i) then some i else libre_desde m (i + 1) n

unfoldable pub get_next_free_space : Bitmap → Option ℕ
unfolding libre_desde
get_next_free_space m = libre_desde m 0 m.size

-- The loop of CheckIfEspacioDisponible; the flag is hayEspacio, and the first taken block ends it.
unfoldable pub revisar : Bitmap → ℕ → ℕ → Bool → Bool
revisar m i zero hay = hay
revisar m i (suc n) hay = if not (is_set m i) then revisar m (i + 1) n true else hay

unfoldable pub check_if_espacio_disponible : Bitmap → ℕ → ℕ → Bool
unfolding revisar
check_if_espacio_disponible m base tamanio =
    if leb tamanio m.free_space then revisar m base tamanio false else false
