-- ===== src/Kernel/Interfaces.antt =====
-- The interfaces that are connected to the kernel and the requests that wait for them, in
-- kernel/src/main.c. A name is the list of its bytes.
use tp_2024_1c_asado_criollo.Prelude.{
  ℕ, Bool, false, ◌||◌, List, [], ◌∷◌, ◌++◌, Option, none, some, ◌==◌, eq_bytes, if◌then◌else◌,
  ◌>>=◌,
}
use tp_2024_1c_asado_criollo.Commons.Buffer.{
  Buffer, buffer_create, buffer_add_uint32, buffer_get_sobrante, buffer_add_buffer,
  buffer_read_uint32, buffer_read_string,
}
use tp_2024_1c_asado_criollo.Cpu.Decode.{
  Instruccion, io_gen_sleep, io_stdin_read, io_stdout_write, io_fs_create, io_fs_delete,
  io_fs_truncate, io_fs_write, io_fs_read, codigo_instruccion,
}

-- tipo_io of utils/src/commons.h, and the value of each enumerator.
pub data TipoIo : Type 0 where
  generica stdin stdout dialfs : TipoIo

unfoldable pub codigo_tipo : TipoIo → ℕ
codigo_tipo generica = 0
codigo_tipo stdin = 1
codigo_tipo stdout = 2
codigo_tipo dialfs = 3

-- The process by its PID, and the message for the interface.
pub record SolicitudIo : Type 0 where
  pub proceso : ℕ
  pub instruccion : Buffer

pub record Interfaz : Type 0 where
  pub tipo : ℕ
  pub nombre : List ℕ
  pub queue_procesar : List SolicitudIo

-- list_find(interfaces, IsInterfazPorNombre).
unfoldable pub buscar_interfaz : List ℕ → List Interfaz → Option Interfaz
buscar_interfaz nombre [] = none
buscar_interfaz nombre (i ∷ is) =
    if eq_bytes nombre i.nombre then some i else buscar_interfaz nombre is

-- A write through the pointer that list_find gave.
unfoldable pub guardar_interfaz : List ℕ → Interfaz → List Interfaz → List Interfaz
guardar_interfaz nombre j [] = []
guardar_interfaz nombre j (i ∷ is) =
    if eq_bytes nombre i.nombre then j ∷ is else i ∷ guardar_interfaz nombre j is

abbrev pub es : ℕ → Instruccion → Bool
es operacion i = operacion == codigo_instruccion i

-- The switch of ValidarIO over the type of the interface.
unfoldable pub admite : ℕ → ℕ → Bool
unfolding codigo_tipo codigo_instruccion
admite tipo operacion =
    if tipo == codigo_tipo generica
    then es operacion io_gen_sleep
    else if tipo == codigo_tipo stdin
    then es operacion io_stdin_read
    else if tipo == codigo_tipo stdout
    then es operacion io_stdout_write
    else if tipo == codigo_tipo dialfs
    then (es operacion io_fs_create
        || (es operacion io_fs_delete
            || (es operacion io_fs_read
                || (es operacion io_fs_truncate || es operacion io_fs_write))))
    else false

-- The interface, and NULL for one that is not connected or does not do the operation.
unfoldable pub validar_io : List Interfaz → List ℕ → ℕ → Option Interfaz
unfolding buscar_interfaz admite
validar_io is nombre operacion = elim (buscar_interfaz nombre is) [
  | none ↦ none
  | some i ↦ if admite i.tipo operacion then some i else none
]

-- The message for the interface: the operation, the PID and what is left of the CPU's message.
unfoldable pub crear_solicitud : (ℕ → List ℕ) → ℕ → ℕ → Buffer → Option SolicitudIo
unfolding buffer_create buffer_add_uint32 buffer_get_sobrante buffer_add_buffer
crear_solicitud malloc operacion pid buffer = do
  aux ← buffer_add_uint32 (buffer_create malloc 8) operacion
  aux ← buffer_add_uint32 aux pid
  sobrante ← buffer_get_sobrante malloc buffer
  aux ← buffer_add_buffer malloc aux sobrante
  some (record { proceso = pid; instruccion = aux })

-- queue_push on the queue of the interface that ValidarIO gave.
unfoldable pub encolar : Interfaz → SolicitudIo → List Interfaz → List Interfaz
unfolding guardar_interfaz
encolar i s is =
    guardar_interfaz i.nombre (record i { queue_procesar = i.queue_procesar ++ (s ∷ []) }) is

-- The case IDENTIFICAR_IO of ServerKernel.
unfoldable pub identificar_io : List Interfaz → Buffer → Option (List Interfaz)
unfolding buffer_read_uint32 buffer_read_string
identificar_io is buffer = do
  (tipo, b) ← buffer_read_uint32 buffer
  (n, b) ← buffer_read_uint32 b
  (nombre, b) ← buffer_read_string b n
  some (is ++ (record { tipo = tipo; nombre = nombre; queue_procesar = [] } ∷ []))
