-- ===== src/EntradaSalida/Archivos.antt =====
-- The files of entradasalida/src/DialFS.c: CrearFile, BorrarFile, TruncateFile, Compactar, FS_Write
-- and FS_Read. A name is the list of its bytes. The bitmap's file, the metadata's and the blocks'
-- are parts of the state; an int is a number, not negative. `none` is a fault: a metadata file that
-- is not there, or a read outside of an allocated block. In the blocks' file every byte has a value;
-- what fread finds behind its end is any.
pub mod Invariant
pub mod RoundTrip
pub mod Blocks
use tp_2024_1c_asado_criollo.Prelude.{
  ℕ, zero, suc, ◌+◌, ◌-◌, ◌*◌, ◌/◌, ◌%◌, Bool, true, false, List, [], ◌∷◌, ◌++◌, Option, none, some,
  ◌==◌, ltb, eq_bytes, if◌then◌else◌, ◌>>=◌, length,
}
use tp_2024_1c_asado_criollo.Commons.Buffer.{memcpy_from}
use tp_2024_1c_asado_criollo.Memoria.Access.{leer_bytes, escribir_bytes}
use tp_2024_1c_asado_criollo.EntradaSalida.Bitmap.{
  Bitmap, asignar_espacio_bitmap, liberar_espacio_bitmap, get_next_free_space,
  check_if_espacio_disponible,
}
use tp_2024_1c_asado_criollo.EntradaSalida.Nombres.{actualizar_archivo_nombres}

-- BLOQUE_INICIAL and TAMANIO_ARCHIVO.
pub record Metadata : Type 0 where
  pub bloque_inicial : ℕ
  pub tamanio_archivo : ℕ

pub record DialFs : Type 0 where
  pub bitmap : Bitmap
  pub metadata : List ℕ → Option Metadata
  pub nombres : List ℕ
  pub bloques : ℕ → ℕ
  pub block_size : ℕ

-- The int that a function returns; CrearFile ends without a return.
pub data Retorno : Type 0 where
  cero menos_uno sin_valor : Retorno

abbrev pub poner_metadata :
    (List ℕ → Option Metadata) → List ℕ → Option Metadata → List ℕ → Option Metadata
poner_metadata md filename m n = if eq_bytes n filename then m else md n

-- config_set_value and config_save_in_file of both values.
unfoldable pub actualizar_metadata : DialFs → List ℕ → ℕ → ℕ → DialFs
actualizar_metadata fs filename base tamanio = record fs {
  metadata =
      poner_metadata fs.metadata filename
        (some (record { bloque_inicial = base; tamanio_archivo = tamanio }));
}

unfoldable pub crear_file_metadata : DialFs → List ℕ → ℕ → DialFs
unfolding actualizar_metadata
crear_file_metadata fs filename base = actualizar_metadata fs filename base fs.block_size

unfoldable pub crear_file : DialFs → List ℕ → Retorno × DialFs
unfolding get_next_free_space crear_file_metadata asignar_espacio_bitmap actualizar_archivo_nombres
crear_file fs filename = elim (fs.metadata filename) [
  | some m ↦ (menos_uno, fs)
  | none ↦ elim (get_next_free_space fs.bitmap) [
    | none ↦ (menos_uno, fs)
    | some base ↦ (
      sin_valor,
      record (crear_file_metadata fs filename base) {
        bitmap = asignar_espacio_bitmap fs.bitmap base 1;
        nombres = actualizar_archivo_nombres fs.nombres filename true;
      },
    )
  ]
]

-- How many blocks a size takes.
unfoldable pub cant_bloques : ℕ → ℕ → ℕ
cant_bloques block_size size =
    if size % block_size == 0 then size / block_size else size / block_size + 1

-- `error` says that remove failed.
unfoldable pub borrar_file : Bool → DialFs → List ℕ → Option (Retorno × DialFs)
unfolding cant_bloques liberar_espacio_bitmap actualizar_archivo_nombres
borrar_file error fs filename = do
  m ← fs.metadata filename
  let n = cant_bloques fs.block_size m.tamanio_archivo
  if error
      then some (menos_uno, fs)
      else some (
        cero,
        record fs {
          bitmap = liberar_espacio_bitmap fs.bitmap m.bloque_inicial n;
          metadata = poner_metadata fs.metadata filename none;
          nombres = actualizar_archivo_nombres fs.nombres filename false;
        },
      )

-- The bytes that fwrite takes from a block are inside of it.
unfoldable pub escribir_bloques : DialFs → ℕ → List ℕ → ℕ → Option DialFs
unfolding memcpy_from escribir_bytes
escribir_bloques fs pos value tamanio = do
  bs ← memcpy_from value 0 tamanio
  some (record fs { bloques = escribir_bytes fs.bloques pos bs })

unfoldable pub fs_write : DialFs → List ℕ → ℕ → List ℕ → ℕ → Option (Retorno × DialFs)
unfolding escribir_bloques
fs_write fs filename pos value tamanio = elim (fs.metadata filename) [
  | none ↦ some (menos_uno, fs)
  | some m ↦
      if ltb m.tamanio_archivo (tamanio + pos)
      then some (menos_uno, fs)
      else (escribir_bloques fs (m.bloque_inicial * fs.block_size + pos) value tamanio >>= λ fs'.
          some (cero, fs'))
]

-- The result is NULL where it is `none`.
unfoldable pub fs_read : DialFs → List ℕ → ℕ → ℕ → Option (List ℕ)
unfolding leer_bytes
fs_read fs filename pos tamanio = elim (fs.metadata filename) [
  | none ↦ none
  | some m ↦
      let tamanio_max = if m.tamanio_archivo == 0 then fs.block_size else m.tamanio_archivo in
      if ltb tamanio_max (tamanio + pos)
      then none
      else some (leer_bytes fs.bloques (m.bloque_inicial * fs.block_size + pos) tamanio)
]

pub record Archivo : Type 0 where
  pub nombre : List ℕ
  pub base : ℕ
  pub size : ℕ
  pub contenido : Option (List ℕ)

unfoldable pub cargar_archivo : DialFs → List ℕ → Option Archivo
unfolding fs_read
cargar_archivo fs nombre = do
  m ← fs.metadata nombre
  let size = if m.tamanio_archivo == 0 then fs.block_size else m.tamanio_archivo
  some (record {
    nombre = nombre;
    base = m.bloque_inicial;
    size = size;
    contenido = fs_read fs nombre 0 size;
  })

-- The file to grow, and the others in the order of the names.
unfoldable pub cargar_archivos :
    DialFs → ℕ → List ℕ → List (List ℕ) → Option (Option Archivo × List Archivo)
unfolding cargar_archivo
cargar_archivos fs newsize filename [] = some (none, [])
cargar_archivos fs newsize filename (n ∷ ns) = do
  a ← cargar_archivo fs n
  (e, xs) ← cargar_archivos fs newsize filename ns
  if eq_bytes n filename
      then (elim e [
        | none ↦ some (some (record a { size = newsize }), xs)
        | some x ↦ some (some x, xs)
      ])
      else some (e, a ∷ xs)

-- The loop that writes the files one behind the other, from `pos` on.
unfoldable pub compactar_desde : DialFs → ℕ → List Archivo → Option (ℕ × DialFs)
unfolding cant_bloques escribir_bloques actualizar_metadata
compactar_desde fs pos [] = some (pos, fs)
compactar_desde fs pos (a ∷ xs) = do
  let n = cant_bloques fs.block_size a.size * fs.block_size
  contenido ← a.contenido
  fs₁ ← escribir_bloques fs pos contenido n
  compactar_desde (actualizar_metadata fs₁ a.nombre (pos / fs.block_size) a.size) (pos + n) xs

-- config_get_array_value and list_sort are the commons library's.
module _ (get_array : List ℕ → List (List ℕ)) (list_sort : List Archivo → List Archivo) where
  unfoldable pub compactar : DialFs → ℕ → ℕ → List ℕ → Option DialFs
  unfolding liberar_espacio_bitmap asignar_espacio_bitmap cargar_archivos compactar_desde
      escribir_bloques actualizar_metadata
  compactar fs newsize espacio_a_asignar filename = do
    let tamanio_a_ocupar = fs.bitmap.size - fs.bitmap.free_space + espacio_a_asignar
    let vacio = liberar_espacio_bitmap fs.bitmap 0 fs.bitmap.size
    (e, xs) ← cargar_archivos fs newsize filename (get_array fs.nombres)
    (pos, fs₁) ← compactar_desde fs 0 (list_sort xs)
    x ← e
    contenido ← x.contenido
    fs₂ ← escribir_bloques fs₁ pos contenido x.size
    let fs₃ = actualizar_metadata fs₂ x.nombre (pos / fs.block_size) x.size
    some (record fs₃ { bitmap = asignar_espacio_bitmap vacio 0 tamanio_a_ocupar })

  unfoldable pub truncate_file : DialFs → List ℕ → ℕ → Option (Retorno × DialFs)
  unfolding cant_bloques liberar_espacio_bitmap asignar_espacio_bitmap actualizar_metadata
      check_if_espacio_disponible compactar
  truncate_file fs filename newsize = do
    m ← fs.metadata filename
    let blocksize = cant_bloques fs.block_size m.tamanio_archivo
    let fin = m.bloque_inicial + blocksize
    let newblocksize = cant_bloques fs.block_size newsize
    let nueva = actualizar_metadata fs filename m.bloque_inicial newsize
    if ltb newblocksize blocksize
        then (let dif = blocksize - newblocksize in
            some (
              cero,
              record nueva { bitmap = liberar_espacio_bitmap fs.bitmap (blocksize - dif) dif },
            ))
        else if ltb blocksize newblocksize
        then (let espacio = newblocksize - blocksize in
            if ltb fs.bitmap.free_space espacio
            then some (menos_uno, fs)
            else if check_if_espacio_disponible fs.bitmap fin espacio
            then some (cero, record nueva { bitmap = asignar_espacio_bitmap fs.bitmap fin espacio })
            else compactar fs newsize espacio filename >>= λ fs'. some (cero, fs'))
        else some (cero, nueva)
