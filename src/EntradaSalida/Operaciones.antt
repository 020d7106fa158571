-- ===== src/EntradaSalida/Operaciones.antt =====
-- EjecutarInstruccion of entradasalida/src/main.c and the handlers of operaciones.c. The memory and
-- the keyboard are parameters.
use tp_2024_1c_asado_criollo.Prelude.{ℕ, Bool, List, [], ◌∷◌, Option, some, ◌>>=◌}
use tp_2024_1c_asado_criollo.Commons.Buffer.{Buffer, memcpy_to, memcpy_from}
use tp_2024_1c_asado_criollo.EntradaSalida.Archivos.{
  DialFs, Retorno, cero, menos_uno, sin_valor, Archivo, crear_file, borrar_file, truncate_file,
  fs_write, fs_read,
}
use tp_2024_1c_asado_criollo.EntradaSalida.Mensajes.{
  Pedido, valor_local, dormir, leer_teclado, mostrar, crear, borrar, truncar, leer_archivo,
  escribir_archivo, otro, serializar_input, serializar_output,
}

-- The memory's answers to the operations 7 and 8: the code, and the bytes.
pub record ConexionIo (M : Type 0) : Type 0 where
  pub escribir : M → Buffer → Option (Retorno × M)
  pub leer : M → Buffer → Option (List ℕ × M)

-- What an interface holds: its file system, and the memory behind the connection.
pub record Estado (M : Type 0) : Type 0 where
  pub fs : DialFs
  pub memoria : M

-- The loop that copies the input: what it does not reach stays as malloc gave it.
unfoldable pub copiar_input : List ℕ → List ℕ → List ℕ
copiar_input [] input = []
copiar_input (x ∷ value) [] = x ∷ value
copiar_input (x ∷ value) (c ∷ input) = c ∷ copiar_input value input

module _ (malloc : ℕ → List ℕ) {M : Type 0} (conexion : ConexionIo M)
    (get_array : List ℕ → List (List ℕ)) (list_sort : List Archivo → List Archivo) where
  -- `input` is what readline returns.
  unfoldable pub handle_io_stdin_read : List ℕ → ℕ → ℕ → ℕ → Estado M → Option (Retorno × Estado M)
  unfolding copiar_input serializar_input
  handle_io_stdin_read input reg1 reg2 pid s = do
    b ← serializar_input malloc reg1 (copiar_input (malloc reg2) input) pid
    (r, m) ← conexion.escribir s.memoria b
    some (r, record s { memoria = m })

  -- The final 0 is written behind the bytes that buffer_read gave; they are printed, and the
  -- function ends without a return.
  unfoldable pub handle_io_stdout_write : ℕ → ℕ → ℕ → Estado M → Option (Retorno × Estado M)
  unfolding serializar_output memcpy_from memcpy_to
  handle_io_stdout_write reg1 reg2 pid s = do
    b ← serializar_output malloc reg1 reg2 pid
    (bs, m) ← conexion.leer s.memoria b
    respuesta ← memcpy_from bs 0 reg2
    texto ← memcpy_to respuesta reg2 (0 ∷ [])
    some (sin_valor, record s { memoria = m })

  unfoldable pub handle_io_fs_write :
      List ℕ → ℕ → ℕ → ℕ → ℕ → Estado M → Option (Retorno × Estado M)
  unfolding serializar_output memcpy_from fs_write
  handle_io_fs_write filename reg1 reg2 reg3 pid s = do
    b ← serializar_output malloc reg1 reg2 pid
    (bs, m) ← conexion.leer s.memoria b
    value ← memcpy_from bs 0 reg2
    (r, fs) ← fs_write s.fs filename reg3 value reg2
    some (r, record { fs = fs; memoria = m })

  -- FS_Read's NULL is copied from.
  unfoldable pub handle_io_fs_read : List ℕ → ℕ → ℕ → ℕ → ℕ → Estado M → Option (Retorno × Estado M)
  unfolding fs_read serializar_input
  handle_io_fs_read filename reg1 reg2 reg3 pid s = do
    value ← fs_read s.fs filename reg3 reg2
    b ← serializar_input malloc reg1 value pid
    (r, m) ← conexion.escribir s.memoria b
    some (r, record s { memoria = m })

  abbrev con_fs : Estado M → Option (Retorno × DialFs) → Option (Retorno × Estado M)
  con_fs s o = o >>= λ (r, fs). some (r, record s { fs = fs })

  -- `input` is what readline would return, `error` says that remove would fail. The handlers read
  -- what registro2 and registro3 point to, for IO_FS_TRUNCATE registro1.
  unfoldable pub ejecutar_instruccion :
      List ℕ → Bool → Pedido → ℕ → Estado M → Option (Retorno × Estado M)
  unfolding crear_file borrar_file truncate_file valor_local
  ejecutar_instruccion input error (dormir n) pid s = some (cero, s)
  ejecutar_instruccion input error (leer_teclado a v) pid s =
      valor_local v >>= λ n. handle_io_stdin_read input a n pid s
  ejecutar_instruccion input error (mostrar a v m) pid s =
      valor_local v >>= λ n. handle_io_stdout_write a n pid s
  ejecutar_instruccion input error (crear f) pid s = con_fs s (some (crear_file s.fs f))
  ejecutar_instruccion input error (borrar f) pid s = con_fs s (borrar_file error s.fs f)
  ejecutar_instruccion input error (truncar f v) pid s =
      valor_local v >>= λ n. con_fs s (truncate_file get_array list_sort s.fs f n)
  ejecutar_instruccion input error (leer_archivo f a v w) pid s =
      valor_local v >>= λ n. valor_local w >>= λ p. handle_io_fs_read f a n p pid s
  ejecutar_instruccion input error (escribir_archivo f a v w) pid s =
      valor_local v >>= λ n. valor_local w >>= λ p. handle_io_fs_write f a n p pid s
  ejecutar_instruccion input error (otro op) pid s = some (menos_uno, s)
