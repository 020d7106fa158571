-- ===== src/Cpu/Execute/Io.antt =====
-- The instructions of executeInstruccion that end the cycle: each writes its operation and its
-- operands into a buffer of its own size and appends it to the buffer for the kernel.
pub mod Fit
use tp_2024_1c_asado_criollo.Prelude.{
  ℕ, ◌+◌, ◌*◌, ◌/◌, ◌^◌, Bool, true, false, String, codes, List, [], ◌∷◌, ◌++◌, Option, none, some,
  length, if◌then◌else◌, ◌>>=◌,
}
use tp_2024_1c_asado_criollo.Commons.Buffer.{
  Buffer, bytes_u32, buffer_create, buffer_write, buffer_add_uint32, buffer_add_int,
  buffer_add_string, buffer_add_buffer,
}
use tp_2024_1c_asado_criollo.Commons.Pcb.{Registros}
use tp_2024_1c_asado_criollo.Cpu.Tlb.{FilaTlb}
use tp_2024_1c_asado_criollo.Cpu.Registros.{Registro, leer_palabra}
use tp_2024_1c_asado_criollo.Cpu.Decode.{
  Instruccion, io_gen_sleep, io_stdin_read, io_stdout_write, io_fs_create, io_fs_delete,
  io_fs_truncate, io_fs_write, io_fs_read, TInstruccion, codigo_instruccion,
}
use tp_2024_1c_asado_criollo.Cpu.Execute.{
  Cpu, ConexionMemoria, leer_registro, direccion_de_registro,
}

-- The 8 bytes of a pointer.
abbrev pub bytes_puntero : ℕ → List ℕ
bytes_puntero a = bytes_u32 a ++ bytes_u32 (a / 2 ^ 32)

-- operaciones_recursos of utils/src/commons.h.
pub data OperacionRecurso : Type 0 where
  op_wait op_signal : OperacionRecurso

unfoldable pub codigo_operacion : OperacionRecurso → ℕ
codigo_operacion op_wait = 0
codigo_operacion op_signal = 1

-- `malloc(n)` is a block of `n` bytes of any content.
module _ (malloc : ℕ → List ℕ) where
  -- buffer_add_buffer(bufferRetorno, buffer) and the flag.
  abbrev pub retornar_io : {M : Type 0} → Cpu M → Option Buffer → Option (Cpu M)
  retornar_io c o = do
    b ← o
    retorno ← buffer_add_buffer malloc c.buffer_retorno b
    some (record c { buffer_retorno = retorno; interrupcion_io = true })

  abbrev pub retornar_recurso : {M : Type 0} → Cpu M → Option Buffer → Option (Cpu M)
  retornar_recurso c o = do
    b ← o
    retorno ← buffer_add_buffer malloc c.buffer_retorno b
    some (record c { buffer_retorno = retorno; interrupcion_recursos = true })

  -- The buffer of IO_GEN_SLEEP.
  unfoldable pub buffer_sleep : String → ℕ → Option Buffer
  buffer_sleep interfaz valor = do
    b ←
        buffer_add_uint32 (buffer_create malloc (length (codes interfaz) + 12))
          (codigo_instruccion io_gen_sleep)
    b ← buffer_add_string b (codes interfaz)
    buffer_add_uint32 b valor

  -- The buffer of IO_STDIN_READ and IO_STDOUT_WRITE.
  unfoldable pub buffer_std : Instruccion → String → ℕ → ℕ → Option Buffer
  buffer_std op interfaz direccion tamanio = do
    b ←
        buffer_add_uint32 (buffer_create malloc (8 + length (codes interfaz) + 12))
          (codigo_instruccion op)
    b ← buffer_add_string b (codes interfaz)
    b ← buffer_write b (bytes_puntero direccion)
    buffer_add_uint32 b tamanio

  -- The buffer of IO_FS_CREATE and IO_FS_DELETE.
  unfoldable pub buffer_archivo : Instruccion → String → String → Option Buffer
  buffer_archivo op interfaz archivo = do
    b ←
        buffer_add_int
          (buffer_create malloc (12 + length (codes interfaz) + length (codes archivo)))
          (codigo_instruccion op)
    b ← buffer_add_string b (codes interfaz)
    buffer_add_string b (codes archivo)

  -- The buffer of IO_FS_TRUNCATE. After the `if` on the width the second block has no `else`: it
  -- always runs.
  unfoldable pub buffer_truncate : String → String → Bool → Registro → Registros → Option Buffer
  buffer_truncate interfaz archivo es8 rg r = do
    b ←
        buffer_add_int
          (buffer_create malloc (4 + length (codes interfaz) + length (codes archivo) + 12))
          (codigo_instruccion io_fs_truncate)
    b ← buffer_add_string b (codes interfaz)
    b ← buffer_add_string b (codes archivo)
    b ← if es8 then buffer_add_uint32 b (leer_registro true rg r) else some b
    buffer_add_uint32 b (leer_palabra rg r)

  -- The buffer of IO_FS_WRITE and IO_FS_READ.
  unfoldable pub buffer_fs : Instruccion → String → String → ℕ → ℕ → ℕ → Option Buffer
  buffer_fs op interfaz archivo direccion tamanio puntero = do
    b ←
        buffer_add_int
          (buffer_create malloc (16 + length (codes interfaz) + length (codes archivo) + 12))
          (codigo_instruccion op)
    b ← buffer_add_string b (codes interfaz)
    b ← buffer_add_string b (codes archivo)
    b ← buffer_write b (bytes_puntero direccion)
    b ← buffer_add_int b tamanio
    buffer_add_int b puntero

  -- The buffer of WAIT and SIGNAL.
  unfoldable pub buffer_recurso : OperacionRecurso → String → Option Buffer
  buffer_recurso op recurso = do
    b ← buffer_add_uint32 (buffer_create malloc (length (codes recurso) + 8)) (codigo_operacion op)
    buffer_add_string b (codes recurso)

  module _ {M : Type 0} (conexion : ConexionMemoria M) (list_sorted : List FilaTlb → List FilaTlb)
      (ahora pid : ℕ) where
    unfoldable pub ejecutar_io_gen_sleep : TInstruccion → Cpu M → Option (Cpu M)
    ejecutar_io_gen_sleep i c = do s ← i.interfaz; retornar_io c (buffer_sleep s i.valor)

    unfoldable pub ejecutar_io_std : Instruccion → TInstruccion → Cpu M → Option (Cpu M)
    ejecutar_io_std op i c = do
      s ← i.interfaz
      r1 ← i.registro1
      r2 ← i.registro2
      (a, c₁) ← direccion_de_registro conexion list_sorted ahora pid i.registro18bit r1 c
      retornar_io c₁ (buffer_std op s a (leer_registro i.registro28bit r2 c₁.registros))

    unfoldable pub ejecutar_io_archivo : Instruccion → TInstruccion → Cpu M → Option (Cpu M)
    ejecutar_io_archivo op i c = do
      s ← i.interfaz
      f ← i.archivo
      retornar_io c (buffer_archivo op s f)

    unfoldable pub ejecutar_io_truncate : TInstruccion → Cpu M → Option (Cpu M)
    ejecutar_io_truncate i c = do
      s ← i.interfaz
      f ← i.archivo
      r1 ← i.registro1
      retornar_io c (buffer_truncate s f i.registro18bit r1 c.registros)

    unfoldable pub ejecutar_io_fs : Instruccion → TInstruccion → Cpu M → Option (Cpu M)
    ejecutar_io_fs op i c = do
      s ← i.interfaz
      f ← i.archivo
      r1 ← i.registro1
      r2 ← i.registro2
      r3 ← i.registro3
      (a, c₁) ← direccion_de_registro conexion list_sorted ahora pid i.registro18bit r1 c
      let tamanio = leer_registro i.registro28bit r2 c₁.registros
      retornar_io c₁ (buffer_fs op s f a tamanio (leer_registro i.registro38bit r3 c₁.registros))

    unfoldable pub ejecutar_recurso : OperacionRecurso → TInstruccion → Cpu M → Option (Cpu M)
    ejecutar_recurso op i c = do s ← i.recurso; retornar_recurso c (buffer_recurso op s)
