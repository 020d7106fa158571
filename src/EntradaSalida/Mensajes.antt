-- ===== src/EntradaSalida/Mensajes.antt =====
-- The requests that an interface receives from the kernel, in Interfaz of entradasalida/src/main.c,
-- and the requests that it sends to the memory, in entradasalida/src/operaciones.c. A pointer is a
-- number below 2^64. The operands that are numbers are read into variables of the switch, and the
-- instruction keeps their addresses.
pub mod RoundTrip
use tp_2024_1c_asado_criollo.Prelude.{
  ℕ, ◌+◌, ◌*◌, ◌^◌, Bool, true, false, List, [], ◌∷◌, Option, none, some, ◌==◌, if◌then◌else◌,
  ◌>>=◌, ◌||◌, length,
}
use tp_2024_1c_asado_criollo.Commons.Buffer.{
  Buffer, u32_of_bytes, buffer_create, buffer_read, buffer_write, buffer_add_uint32,
  buffer_read_uint32, deserializar_string,
}
use tp_2024_1c_asado_criollo.Cpu.Decode.{
  io_gen_sleep, io_stdin_read, io_stdout_write, io_fs_create, io_fs_delete, io_fs_truncate,
  io_fs_write, io_fs_read, codigo_instruccion,
}
use tp_2024_1c_asado_criollo.Cpu.Execute.Io.{bytes_puntero}

-- A pointer to a variable of a block of the switch, while the block lasts and afterwards.
pub data Local : Type 0 where
  vivo : ℕ → Local
  muerto : Local

-- Only a living variable has a value.
unfoldable pub valor_local : Local → Option ℕ
valor_local (vivo n) = some n
valor_local muerto = none

-- The fields of t_instruccion that each operation fills.
pub data Pedido : Type 0 where
  dormir : ℕ → Pedido
  leer_teclado : ℕ → Local → Pedido
  mostrar : ℕ → Local → ℕ → Pedido
  crear : List ℕ → Pedido
  borrar : List ℕ → Pedido
  truncar : List ℕ → Local → Pedido
  leer_archivo : List ℕ → ℕ → Local → Local → Pedido
  escribir_archivo : List ℕ → ℕ → Local → Local → Pedido
  otro : ℕ → Pedido

-- The end of the switch: its variables are gone, and the pointers to them stay.
unfoldable pub cerrar_bloque : Pedido → Pedido
cerrar_bloque (dormir n) = dormir n
cerrar_bloque (leer_teclado a v) = leer_teclado a muerto
cerrar_bloque (mostrar a v n) = mostrar a muerto n
cerrar_bloque (crear f) = crear f
cerrar_bloque (borrar f) = borrar f
cerrar_bloque (truncar f v) = truncar f muerto
cerrar_bloque (leer_archivo f a v w) = leer_archivo f a muerto muerto
cerrar_bloque (escribir_archivo f a v w) = escribir_archivo f a muerto muerto
cerrar_bloque (otro op) = otro op

-- *(uint32_t**)buffer_read(buffer,sizeof(int*)).
unfoldable pub leer_puntero : Buffer → Option (ℕ × Buffer)
unfolding buffer_read u32_of_bytes
leer_puntero b = do (bs, b') ← buffer_read b 8; some (u32_of_bytes bs, b')

unfoldable pub leer_dormir : Buffer → Option (Pedido × Buffer)
unfolding buffer_read_uint32
leer_dormir b = do (valor, b₁) ← buffer_read_uint32 b; some (dormir valor, b₁)

unfoldable pub leer_stdin : Buffer → Option (Pedido × Buffer)
unfolding leer_puntero buffer_read_uint32
leer_stdin b = do
  (reg1, b₁) ← leer_puntero b
  (reg2, b₂) ← buffer_read_uint32 b₁
  some (leer_teclado reg1 (vivo reg2), b₂)

-- The case goes on to read the field valor too.
unfoldable pub leer_stdout : Buffer → Option (Pedido × Buffer)
unfolding leer_puntero buffer_read_uint32
leer_stdout b = do
  (reg1, b₁) ← leer_puntero b
  (reg2, b₂) ← buffer_read_uint32 b₁
  (valor, b₃) ← buffer_read_uint32 b₂
  some (mostrar reg1 (vivo reg2) valor, b₃)

unfoldable pub leer_nombre : (List ℕ → Pedido) → Buffer → Option (Pedido × Buffer)
unfolding deserializar_string
leer_nombre f b = do (archivo, b₁) ← deserializar_string b; some (f archivo, b₁)

unfoldable pub leer_truncar : Buffer → Option (Pedido × Buffer)
unfolding deserializar_string buffer_read_uint32
leer_truncar b = do
  (archivo, b₁) ← deserializar_string b
  (reg1, b₂) ← buffer_read_uint32 b₁
  some (truncar archivo (vivo reg1), b₂)

unfoldable pub leer_fs : (List ℕ → ℕ → Local → Local → Pedido) → Buffer → Option (Pedido × Buffer)
unfolding deserializar_string leer_puntero buffer_read_uint32
leer_fs f b = do
  (archivo, b₁) ← deserializar_string b
  (reg1, b₂) ← leer_puntero b₁
  (reg2, b₃) ← buffer_read_uint32 b₂
  (reg3, b₄) ← buffer_read_uint32 b₃
  some (f archivo reg1 (vivo reg2) (vivo reg3), b₄)

-- The switch over the operation.
unfoldable pub leer_operandos : ℕ → Buffer → Option (Pedido × Buffer)
unfolding codigo_instruccion leer_dormir leer_stdin leer_stdout leer_nombre leer_truncar leer_fs
leer_operandos op b =
    if op == codigo_instruccion io_gen_sleep
    then leer_dormir b
    else if op == codigo_instruccion io_stdin_read
    then leer_stdin b
    else if op == codigo_instruccion io_stdout_write
    then leer_stdout b
    else if op == codigo_instruccion io_fs_create
    then leer_nombre crear b
    else if op == codigo_instruccion io_fs_delete
    then leer_nombre borrar b
    else if op == codigo_instruccion io_fs_truncate
    then leer_truncar b
    else if op == codigo_instruccion io_fs_read
    then leer_fs leer_archivo b
    else if op == codigo_instruccion io_fs_write
    then leer_fs escribir_archivo b
    else some (otro op, b)

-- The case RECIBIR_INSTRUCCION up to the end of the switch: the PID, and the instruction within it.
unfoldable pub leer_instruccion : Buffer → Option (ℕ × Pedido)
unfolding buffer_read_uint32 leer_operandos
leer_instruccion b = do
  (op, b₁) ← buffer_read_uint32 b
  (pid, b₂) ← buffer_read_uint32 b₁
  (p, b₃) ← leer_operandos op b₂
  some (pid, p)

-- What EjecutarInstruccion is then called with.
unfoldable pub recibir_instruccion : Buffer → Option (ℕ × Pedido)
unfolding leer_instruccion cerrar_bloque
recibir_instruccion b = do (pid, p) ← leer_instruccion b; some (pid, cerrar_bloque p)

-- The message for the memory to write, and the one to read.
unfoldable pub serializar_input : (ℕ → List ℕ) → ℕ → List ℕ → ℕ → Option Buffer
unfolding buffer_create buffer_add_uint32 buffer_write
serializar_input malloc direccion input pid = do
  b ← buffer_add_uint32 (buffer_create malloc (8 + 4 + length input)) pid
  b ← buffer_write b (bytes_puntero direccion)
  buffer_write b input

unfoldable pub serializar_output : (ℕ → List ℕ) → ℕ → ℕ → ℕ → Option Buffer
unfolding buffer_create buffer_add_uint32 buffer_write
serializar_output malloc direccion tamanio pid = do
  b ← buffer_add_uint32 (buffer_create malloc (8 + 4 * 2)) pid
  b ← buffer_write b (bytes_puntero direccion)
  buffer_add_uint32 b tamanio
