-- ===== src/Cpu/Decode/RoundTrip.antt =====
-- The assembly language as data, and the decoder of cpu/src/cpu.c on it.
use tp_2024_1c_asado_criollo.Prelude.{ℕ, ◌≡◌, refl, Bool, String, List, [], ◌∷◌, some}
use tp_2024_1c_asado_criollo.Cpu.Registros.{
  Registro, pc, ax, bx, cx, dx, eax, ebx, ecx, edx, si, di, obtener_registro,
}
use tp_2024_1c_asado_criollo.Cpu.Registros.Layout.{es_8bit}
use tp_2024_1c_asado_criollo.Cpu.Decode.{
  Instruccion, set, mov_in, mov_out, sum, sub, jnz, resize, copy_string, wait, signal, io_gen_sleep,
  io_stdin_read, io_stdout_write, io_fs_create, io_fs_delete, io_fs_truncate, io_fs_write,
  io_fs_read, inst_exit, TInstruccion, inicializar_instruccion, parsear_instruccion,
}

-- A line of assembly: an instruction with its operands.
pub data Orden : Type 0 where
  o_set : Registro → String → Orden
  o_mov_in o_mov_out o_sum o_sub : Registro → Registro → Orden
  o_jnz : Registro → String → Orden
  o_resize o_copy_string o_wait o_signal : String → Orden
  o_io_gen_sleep : String → String → Orden
  o_io_stdin_read o_io_stdout_write : String → Registro → Registro → Orden
  o_io_fs_create o_io_fs_delete : String → String → Orden
  o_io_fs_truncate : String → String → Registro → Orden
  o_io_fs_write o_io_fs_read : String → String → Registro → Registro → Registro → Orden
  o_exit : Orden

pub nombre_registro : Registro → String
nombre_registro pc = "PC"
nombre_registro ax = "AX"
nombre_registro bx = "BX"
nombre_registro cx = "CX"
nombre_registro dx = "DX"
nombre_registro eax = "EAX"
nombre_registro ebx = "EBX"
nombre_registro ecx = "ECX"
nombre_registro edx = "EDX"
nombre_registro si = "SI"
nombre_registro di = "DI"

-- The order as the tokens of a line.
unfoldable pub imprimir : Orden → List String
imprimir (o_set r v) = "SET" ∷ nombre_registro r ∷ v ∷ []
imprimir (o_mov_in r q) = "MOV_IN" ∷ nombre_registro r ∷ nombre_registro q ∷ []
imprimir (o_mov_out r q) = "MOV_OUT" ∷ nombre_registro r ∷ nombre_registro q ∷ []
imprimir (o_sum r q) = "SUM" ∷ nombre_registro r ∷ nombre_registro q ∷ []
imprimir (o_sub r q) = "SUB" ∷ nombre_registro r ∷ nombre_registro q ∷ []
imprimir (o_jnz r v) = "JNZ" ∷ nombre_registro r ∷ v ∷ []
imprimir (o_resize v) = "RESIZE" ∷ v ∷ []
imprimir (o_copy_string v) = "COPY_STRING" ∷ v ∷ []
imprimir (o_wait s) = "WAIT" ∷ s ∷ []
imprimir (o_signal s) = "SIGNAL" ∷ s ∷ []
imprimir (o_io_gen_sleep s v) = "IO_GEN_SLEEP" ∷ s ∷ v ∷ []
imprimir (o_io_stdin_read s r q) = "IO_STDIN_READ" ∷ s ∷ nombre_registro r ∷ nombre_registro q ∷ []
imprimir (o_io_stdout_write s r q) =
    "IO_STDOUT_WRITE" ∷ s ∷ nombre_registro r ∷ nombre_registro q ∷ []
imprimir (o_io_fs_create s f) = "IO_FS_CREATE" ∷ s ∷ f ∷ []
imprimir (o_io_fs_delete s f) = "IO_FS_DELETE" ∷ s ∷ f ∷ []
imprimir (o_io_fs_truncate s f r) = "IO_FS_TRUNCATE" ∷ s ∷ f ∷ nombre_registro r ∷ []
imprimir (o_io_fs_write s f r q p) =
    "IO_FS_WRITE" ∷ s ∷ f ∷ nombre_registro r ∷ nombre_registro q ∷ nombre_registro p ∷ []
imprimir (o_io_fs_read s f r q p) =
    "IO_FS_READ" ∷ s ∷ f ∷ nombre_registro r ∷ nombre_registro q ∷ nombre_registro p ∷ []
imprimir o_exit = "EXIT" ∷ []

-- t_instruccion with these registers, each with the width of its field, and nothing else.
abbrev registros1 : Instruccion → Registro → TInstruccion
registros1 i r = record inicializar_instruccion {
  instruccion = i;
  registro1 = some r;
  registro18bit = es_8bit r;
}

abbrev registros2 : Instruccion → Registro → Registro → TInstruccion
registros2 i r q = record (registros1 i r) { registro2 = some q; registro28bit = es_8bit q }

abbrev registros3 : Instruccion → Registro → Registro → Registro → TInstruccion
registros3 i r q p = record (registros2 i r q) { registro3 = some p; registro38bit = es_8bit p }

abbrev sin_registros : Instruccion → TInstruccion
sin_registros i = record inicializar_instruccion { instruccion = i }

-- What an order means to the execution.
unfoldable pub significado : (String → ℕ) → Orden → TInstruccion
significado atoi (o_set r v) = record (registros1 set r) { valor = atoi v }
significado atoi (o_mov_in r q) = registros2 mov_in r q
significado atoi (o_mov_out r q) = registros2 mov_out r q
significado atoi (o_sum r q) = registros2 sum r q
significado atoi (o_sub r q) = registros2 sub r q
significado atoi (o_jnz r v) = record (registros2 jnz r pc) { valor = atoi v }
significado atoi (o_resize v) = record (sin_registros resize) { valor = atoi v }
significado atoi (o_copy_string v) = record (registros2 copy_string si di) { valor = atoi v }
significado atoi (o_wait s) = record (sin_registros wait) { recurso = some s }
significado atoi (o_signal s) = record (sin_registros signal) { recurso = some s }
significado atoi (o_io_gen_sleep s v) = record (sin_registros io_gen_sleep) {
  interfaz = some s;
  valor = atoi v;
}
significado atoi (o_io_stdin_read s r q) = record (registros2 io_stdin_read r q) {
  interfaz = some s;
}
significado atoi (o_io_stdout_write s r q) = record (registros2 io_stdout_write r q) {
  interfaz = some s;
}
significado atoi (o_io_fs_create s f) = record (sin_registros io_fs_create) {
  interfaz = some s;
  archivo = some f;
}
significado atoi (o_io_fs_delete s f) = record (sin_registros io_fs_delete) {
  interfaz = some s;
  archivo = some f;
}
significado atoi (o_io_fs_truncate s f r) = record (registros1 io_fs_truncate r) {
  interfaz = some s;
  archivo = some f;
}
significado atoi (o_io_fs_write s f r q p) = record (registros3 io_fs_write r q p) {
  interfaz = some s;
  archivo = some f;
}
significado atoi (o_io_fs_read s f r q p) = record (registros3 io_fs_read r q p) {
  interfaz = some s;
  archivo = some f;
}
significado atoi o_exit = sin_registros inst_exit

pub obtener_registro_lem :
    (basura : Bool) (r : Registro)
    → obtener_registro basura (nombre_registro r) ≡ record { reg = some r; is8bit = es_8bit r }
unfolding obtener_registro nombre_registro
obtener_registro_lem basura pc = refl
obtener_registro_lem basura ax = refl
obtener_registro_lem basura bx = refl
obtener_registro_lem basura cx = refl
obtener_registro_lem basura dx = refl
obtener_registro_lem basura eax = refl
obtener_registro_lem basura ebx = refl
obtener_registro_lem basura ecx = refl
obtener_registro_lem basura edx = refl
obtener_registro_lem basura si = refl
obtener_registro_lem basura di = refl

-- Every order of the assembly language, with any registers and any texts, is decoded to what it
-- means, whatever the uninitialised is8bit holds.
pub parsear_instruccion-imprimir :
    (atoi : String → ℕ) (basura : Bool) (o : Orden)
    → parsear_instruccion atoi basura (imprimir o) ≡ significado atoi o
unfolding parsear_instruccion imprimir significado
parsear_instruccion-imprimir atoi b (o_set r v) = rw (obtener_registro_lem b r)
parsear_instruccion-imprimir atoi b (o_mov_in r q) =
    simp (obtener_registro_lem b r, obtener_registro_lem b q)
parsear_instruccion-imprimir atoi b (o_mov_out r q) =
    simp (obtener_registro_lem b r, obtener_registro_lem b q)
parsear_instruccion-imprimir atoi b (o_sum r q) =
    simp (obtener_registro_lem b r, obtener_registro_lem b q)
parsear_instruccion-imprimir atoi b (o_sub r q) =
    simp (obtener_registro_lem b r, obtener_registro_lem b q)
parsear_instruccion-imprimir atoi b (o_jnz r v) = simp (obtener_registro_lem b r)
parsear_instruccion-imprimir atoi b (o_resize v) = refl
parsear_instruccion-imprimir atoi b (o_copy_string v) = refl
parsear_instruccion-imprimir atoi b (o_wait s) = refl
parsear_instruccion-imprimir atoi b (o_signal s) = refl
parsear_instruccion-imprimir atoi b (o_io_gen_sleep s v) = refl
parsear_instruccion-imprimir atoi b (o_io_stdin_read s r q) =
    simp (obtener_registro_lem b r, obtener_registro_lem b q)
parsear_instruccion-imprimir atoi b (o_io_stdout_write s r q) =
    simp (obtener_registro_lem b r, obtener_registro_lem b q)
parsear_instruccion-imprimir atoi b (o_io_fs_create s f) = refl
parsear_instruccion-imprimir atoi b (o_io_fs_delete s f) = refl
parsear_instruccion-imprimir atoi b (o_io_fs_truncate s f r) = simp (obtener_registro_lem b r)
parsear_instruccion-imprimir atoi b (o_io_fs_write s f r q p) =
    simp (obtener_registro_lem b r, obtener_registro_lem b q, obtener_registro_lem b p)
parsear_instruccion-imprimir atoi b (o_io_fs_read s f r q p) =
    simp (obtener_registro_lem b r, obtener_registro_lem b q, obtener_registro_lem b p)
parsear_instruccion-imprimir atoi b o_exit = refl
