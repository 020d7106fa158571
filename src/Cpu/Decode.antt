-- ===== src/Cpu/Decode.antt =====
-- The decoder of cpu/src/cpu.c, and t_instruccion and the names of utils/src/commons.{h,c}. The
-- tokens are what strtok cuts from the line; `atoi` is the C library's, as a uint32_t.
pub mod RoundTrip
pub mod Tokens
use tp_2024_1c_asado_criollo.Prelude.{
  ℕ, zero, suc, ◌+◌, Bool, true, false, String, eq_text, List, [], ◌∷◌, Option, none, some,
  if◌then◌else◌,
}
use tp_2024_1c_asado_criollo.Cpu.Registros.{Registro, RegisterPointer, obtener_registro}

pub data Instruccion : Type 0 where
  set mov_in mov_out sum sub jnz resize copy_string wait signal io_gen_sleep io_stdin_read :
      Instruccion
  io_stdout_write io_fs_create io_fs_delete io_fs_truncate io_fs_write io_fs_read : Instruccion
  inst_exit invalid_instruction : Instruccion

-- The value of the enumerator.
unfoldable pub codigo_instruccion : Instruccion → ℕ
codigo_instruccion set = 0
codigo_instruccion mov_in = 1
codigo_instruccion mov_out = 2
codigo_instruccion sum = 3
codigo_instruccion sub = 4
codigo_instruccion jnz = 5
codigo_instruccion resize = 6
codigo_instruccion copy_string = 7
codigo_instruccion wait = 8
codigo_instruccion signal = 9
codigo_instruccion io_gen_sleep = 10
codigo_instruccion io_stdin_read = 11
codigo_instruccion io_stdout_write = 12
codigo_instruccion io_fs_create = 13
codigo_instruccion io_fs_delete = 14
codigo_instruccion io_fs_truncate = 15
codigo_instruccion io_fs_write = 16
codigo_instruccion io_fs_read = 17
codigo_instruccion inst_exit = 18
codigo_instruccion invalid_instruction = 19

unfoldable pub get_instruction_name : Instruccion → String
get_instruction_name set = "SET"
get_instruction_name mov_in = "MOV_IN"
get_instruction_name mov_out = "MOV_OUT"
get_instruction_name sum = "SUM"
get_instruction_name sub = "SUB"
get_instruction_name jnz = "JNZ"
get_instruction_name resize = "RESIZE"
get_instruction_name copy_string = "COPY_STRING"
get_instruction_name wait = "WAIT"
get_instruction_name signal = "SIGNAL"
get_instruction_name io_gen_sleep = "IO_GEN_SLEEP"
get_instruction_name io_stdin_read = "IO_STDIN_READ"
get_instruction_name io_stdout_write = "IO_STDOUT_WRITE"
get_instruction_name io_fs_create = "IO_FS_CREATE"
get_instruction_name io_fs_delete = "IO_FS_DELETE"
get_instruction_name io_fs_truncate = "IO_FS_TRUNCATE"
get_instruction_name io_fs_write = "IO_FS_WRITE"
get_instruction_name io_fs_read = "IO_FS_READ"
get_instruction_name inst_exit = "INST_EXIT"
get_instruction_name invalid_instruction = "INVALID_INSTRUCTION"

unfoldable pub obtener_instruccion : String → Instruccion
obtener_instruccion token =
    if eq_text token "SET"
    then set
    else if eq_text token "MOV_IN"
    then mov_in
    else if eq_text token "MOV_OUT"
    then mov_out
    else if eq_text token "SUM"
    then sum
    else if eq_text token "SUB"
    then sub
    else if eq_text token "JNZ"
    then jnz
    else if eq_text token "RESIZE"
    then resize
    else if eq_text token "COPY_STRING"
    then copy_string
    else if eq_text token "WAIT"
    then wait
    else if eq_text token "SIGNAL"
    then signal
    else if eq_text token "IO_GEN_SLEEP"
    then io_gen_sleep
    else if eq_text token "IO_STDIN_READ"
    then io_stdin_read
    else if eq_text token "IO_STDOUT_WRITE"
    then io_stdout_write
    else if eq_text token "IO_FS_CREATE"
    then io_fs_create
    else if eq_text token "IO_FS_DELETE"
    then io_fs_delete
    else if eq_text token "IO_FS_TRUNCATE"
    then io_fs_truncate
    else if eq_text token "IO_FS_WRITE"
    then io_fs_write
    else if eq_text token "IO_FS_READ"
    then io_fs_read
    else if eq_text token "EXIT"
    then inst_exit
    else invalid_instruction

-- t_instruccion; `none` is a null pointer.
pub record TInstruccion : Type 0 where
  pub instruccion : Instruccion
  pub registro1 : Option Registro
  pub registro2 : Option Registro
  pub registro3 : Option Registro
  pub registro18bit : Bool
  pub registro28bit : Bool
  pub registro38bit : Bool
  pub valor : ℕ
  pub interfaz : Option String
  pub archivo : Option String
  pub recurso : Option String

-- inicializarInstruccion: the memset leaves the first enumerator.
unfoldable pub inicializar_instruccion : TInstruccion
inicializar_instruccion = record {
  instruccion = set;
  registro1 = none;
  registro2 = none;
  registro3 = none;
  registro18bit = false;
  registro28bit = false;
  registro38bit = false;
  valor = 0;
  interfaz = none;
  archivo = none;
  recurso = none;
}

abbrev pub con_registro1 : RegisterPointer → TInstruccion → TInstruccion
con_registro1 p t = record t { registro1 = p.reg; registro18bit = p.is8bit }

abbrev pub con_registro2 : RegisterPointer → TInstruccion → TInstruccion
con_registro2 p t = record t { registro2 = p.reg; registro28bit = p.is8bit }

abbrev pub con_registro3 : RegisterPointer → TInstruccion → TInstruccion
con_registro3 p t = record t { registro3 = p.reg; registro38bit = p.is8bit }

-- `basura` is what obtenerRegistro leaves in is8bit for a name that it does not know.
module _ (atoi : String → ℕ) (basura : Bool) where
  -- The switch on operandoCount of two register operands.
  abbrev pub dos_registros : ℕ → String → TInstruccion → TInstruccion
  dos_registros (suc zero) token t = con_registro1 (obtener_registro basura token) t
  dos_registros (suc (suc zero)) token t = con_registro2 (obtener_registro basura token) t
  dos_registros _ token t = t

  abbrev pub registro_y_valor : ℕ → String → TInstruccion → TInstruccion
  registro_y_valor (suc zero) token t = con_registro1 (obtener_registro basura token) t
  registro_y_valor (suc (suc zero)) token t = record t { valor = atoi token }
  registro_y_valor _ token t = t

  abbrev pub solo_valor : ℕ → String → TInstruccion → TInstruccion
  solo_valor (suc zero) token t = record t { valor = atoi token }
  solo_valor _ token t = t

  abbrev pub solo_recurso : ℕ → String → TInstruccion → TInstruccion
  solo_recurso (suc zero) token t = record t { recurso = some token }
  solo_recurso _ token t = t

  abbrev pub interfaz_y_valor : ℕ → String → TInstruccion → TInstruccion
  interfaz_y_valor (suc zero) token t = record t { interfaz = some token }
  interfaz_y_valor (suc (suc zero)) token t = record t { valor = atoi token }
  interfaz_y_valor _ token t = t

  abbrev pub interfaz_y_registros : ℕ → String → TInstruccion → TInstruccion
  interfaz_y_registros (suc zero) token t = record t { interfaz = some token }
  interfaz_y_registros (suc (suc zero)) token t = con_registro1 (obtener_registro basura token) t
  interfaz_y_registros (suc (suc (suc zero))) token t =
      con_registro2 (obtener_registro basura token) t
  interfaz_y_registros _ token t = t

  abbrev pub interfaz_y_archivo : ℕ → String → TInstruccion → TInstruccion
  interfaz_y_archivo (suc zero) token t = record t { interfaz = some token }
  interfaz_y_archivo (suc (suc zero)) token t = record t { archivo = some token }
  interfaz_y_archivo _ token t = t

  abbrev pub archivo_y_tamanio : ℕ → String → TInstruccion → TInstruccion
  archivo_y_tamanio (suc zero) token t = record t { interfaz = some token }
  archivo_y_tamanio (suc (suc zero)) token t = record t { archivo = some token }
  archivo_y_tamanio (suc (suc (suc zero))) token t = con_registro1 (obtener_registro basura token) t
  archivo_y_tamanio _ token t = t

  abbrev pub archivo_y_registros : ℕ → String → TInstruccion → TInstruccion
  archivo_y_registros (suc zero) token t = record t { interfaz = some token }
  archivo_y_registros (suc (suc zero)) token t = record t { archivo = some token }
  archivo_y_registros (suc (suc (suc zero))) token t =
      con_registro1 (obtener_registro basura token) t
  archivo_y_registros (suc (suc (suc (suc zero)))) token t =
      con_registro2 (obtener_registro basura token) t
  archivo_y_registros (suc (suc (suc (suc (suc zero))))) token t =
      con_registro3 (obtener_registro basura token) t
  archivo_y_registros _ token t = t

  -- One token of an instruction, operandoCount already advanced.
  unfoldable pub operando : Instruccion → ℕ → String → TInstruccion → TInstruccion
  operando set n token t = registro_y_valor n token t
  operando jnz n token t = registro_y_valor n token t
  operando mov_in n token t = dos_registros n token t
  operando mov_out n token t = dos_registros n token t
  operando sum n token t = dos_registros n token t
  operando sub n token t = dos_registros n token t
  operando copy_string n token t = solo_valor n token t
  operando resize n token t = solo_valor n token t
  operando wait n token t = solo_recurso n token t
  operando signal n token t = solo_recurso n token t
  operando io_gen_sleep n token t = interfaz_y_valor n token t
  operando io_stdin_read n token t = interfaz_y_registros n token t
  operando io_stdout_write n token t = interfaz_y_registros n token t
  operando io_fs_create n token t = interfaz_y_archivo n token t
  operando io_fs_delete n token t = interfaz_y_archivo n token t
  operando io_fs_truncate n token t = archivo_y_tamanio n token t
  operando io_fs_write n token t = archivo_y_registros n token t
  operando io_fs_read n token t = archivo_y_registros n token t
  operando inst_exit n token t = t
  operando invalid_instruction n token t = t

  -- The loop over strtok; `n` is operandoCount.
  unfoldable pub operandos : Instruccion → ℕ → List String → TInstruccion → TInstruccion
  unfolding operando
  operandos i n [] t = t
  operandos i n (token ∷ tokens) t = operandos i (n + 1) tokens (operando i (n + 1) token t)

  -- What JNZ and COPY_STRING set after their loops.
  unfoldable pub implicitos : Instruccion → TInstruccion → TInstruccion
  implicitos jnz t = record t { registro2 = some Registro.pc; registro28bit = false }
  implicitos copy_string t = record t { registro1 = some Registro.si; registro2 = some Registro.di }
  implicitos _ t = t

  unfoldable pub parsear_instruccion : List String → TInstruccion
  unfolding operandos implicitos obtener_instruccion inicializar_instruccion
  parsear_instruccion [] = inicializar_instruccion
  parsear_instruccion (token ∷ tokens) =
      let i = obtener_instruccion token in
      implicitos i (operandos i 0 tokens (record inicializar_instruccion { instruccion = i }))
