-- ===== src/Cpu/Execute/Cycle.antt =====
-- executeInstruccion as a whole and the cycle of EjecutarProceso.
use tp_2024_1c_asado_criollo.Prelude.{
  ℕ, zero, suc, ◌+◌, ◌%◌, ◌^◌, Bool, true, false, String, List, Option, none, some, ◌==◌, ◌||◌,
  if◌then◌else◌, ◌>>=◌,
}
use tp_2024_1c_asado_criollo.Commons.Buffer.{buffer_create}
use tp_2024_1c_asado_criollo.Commons.Pcb.{Registros}
use tp_2024_1c_asado_criollo.Cpu.Tlb.{FilaTlb}
use tp_2024_1c_asado_criollo.Cpu.Decode.{
  set, mov_in, mov_out, sum, sub, jnz, resize, copy_string, wait, signal, io_gen_sleep,
  io_stdin_read, io_stdout_write, io_fs_create, io_fs_delete, io_fs_truncate, io_fs_write,
  io_fs_read, inst_exit, invalid_instruction, TInstruccion, parsear_instruccion,
}
use tp_2024_1c_asado_criollo.Cpu.Execute.{
  Cpu, ConexionMemoria, con_registros, ejecutar_set, ejecutar_sum, ejecutar_sub, ejecutar_jnz,
  ejecutar_resize, ejecutar_mov_in, ejecutar_mov_out, ejecutar_copy_string,
}
use tp_2024_1c_asado_criollo.Cpu.Execute.Io.{
  op_wait, op_signal, ejecutar_io_gen_sleep, ejecutar_io_std, ejecutar_io_archivo,
  ejecutar_io_truncate, ejecutar_io_fs, ejecutar_recurso,
}

-- interrupt_code of cpu/utils_C/cpu.h.
pub data InterruptCode : Type 0 where
  fin_proceso interrupcion_externa op_io op_recursos op_out_of_memory : InterruptCode

-- The program counter after an instruction: one further, unless the instruction changed it.
unfoldable pub avanzar : ℕ → Registros → Registros
avanzar pcant r = if pcant == r.pc then record r { pc = (r.pc + 1) % 2 ^ 32 } else r

-- The test of the loop without the external interruption.
unfoldable pub interrumpido : {M : Type 0} → Cpu M → Bool
interrumpido c =
    c.interrupcion_io || c.interrupcion_recursos || c.fin_proceso || c.interrupcion_out_of_memory

-- The code after the loop; the external interruption is what is left.
unfoldable pub codigo_salida : {M : Type 0} → Cpu M → InterruptCode
codigo_salida c =
    if c.interrupcion_io
    then op_io
    else if c.interrupcion_recursos
    then op_recursos
    else if c.fin_proceso
    then fin_proceso
    else if c.interrupcion_out_of_memory
    then op_out_of_memory
    else interrupcion_externa

module _ (malloc : ℕ → List ℕ) {M : Type 0} (conexion : ConexionMemoria M)
    (list_sorted : List FilaTlb → List FilaTlb) (ahora pid : ℕ) where
  unfoldable pub execute_instruccion : TInstruccion → Cpu M → Option (Cpu M)
  execute_instruccion i c = elim i.instruccion [
    | set ↦ con_registros c (ejecutar_set i c.registros)
    | sum ↦ con_registros c (ejecutar_sum i c.registros)
    | sub ↦ con_registros c (ejecutar_sub i c.registros)
    | jnz ↦ con_registros c (ejecutar_jnz i c.registros)
    | io_gen_sleep ↦ ejecutar_io_gen_sleep malloc conexion list_sorted ahora pid i c
    | resize ↦ ejecutar_resize conexion list_sorted ahora pid i c
    | mov_out ↦ ejecutar_mov_out conexion list_sorted ahora pid i c
    | mov_in ↦ ejecutar_mov_in conexion list_sorted ahora pid i c
    | io_stdin_read ↦ ejecutar_io_std malloc conexion list_sorted ahora pid io_stdin_read i c
    | io_stdout_write ↦ ejecutar_io_std malloc conexion list_sorted ahora pid io_stdout_write i c
    | io_fs_create ↦ ejecutar_io_archivo malloc conexion list_sorted ahora pid io_fs_create i c
    | io_fs_delete ↦ ejecutar_io_archivo malloc conexion list_sorted ahora pid io_fs_delete i c
    | io_fs_truncate ↦ ejecutar_io_truncate malloc conexion list_sorted ahora pid i c
    | io_fs_write ↦ ejecutar_io_fs malloc conexion list_sorted ahora pid io_fs_write i c
    | io_fs_read ↦ ejecutar_io_fs malloc conexion list_sorted ahora pid io_fs_read i c
    | inst_exit ↦ some (record c { fin_proceso = true })
    | signal ↦ ejecutar_recurso malloc conexion list_sorted ahora pid op_signal i c
    | wait ↦ ejecutar_recurso malloc conexion list_sorted ahora pid op_wait i c
    | copy_string ↦ ejecutar_copy_string conexion list_sorted ahora pid i c
    | invalid_instruction ↦ some c
  ]

-- `traer` is fetchInstruccion and strtok: the tokens of the process's line at a program counter.
-- `interrupcion n` says whether the external interruption is there before the n-th turn.
module _ (malloc : ℕ → List ℕ) {M : Type 0} (conexion : ConexionMemoria M)
    (list_sorted : List FilaTlb → List FilaTlb) (atoi : String → ℕ) (basura : Bool)
    (traer : M → ℕ → ℕ → Option (List String)) (interrupcion : ℕ → Bool) (pid : ℕ) where
  -- One turn of the loop. `pcant` is the PC that the turn starts from.
  unfoldable pub turno : ℕ → Cpu M → Option (Cpu M)
  turno ahora c = do
    tokens ← traer c.memoria pid c.registros.pc
    let i = parsear_instruccion atoi basura tokens
    c' ← execute_instruccion malloc conexion list_sorted ahora pid i c
    some (record c' { registros = avanzar c.registros.pc c'.registros })

  -- The loop, for at most `fuel` turns; `none` is a fault or no fuel.
  unfoldable pub ciclo : ℕ → ℕ → Cpu M → Option (Cpu M)
  unfolding interrumpido turno
  ciclo zero n c = none
  ciclo (suc fuel) n c =
      let resto = turno n c >>= λ c'. ciclo fuel (n + 1) c' in
      if interrupcion n || interrumpido c then some c else resto

  -- The flags are cleared and the buffer is empty when the process begins.
  unfoldable pub ejecutar_proceso : ℕ → Cpu M → Option (InterruptCode × Cpu M)
  unfolding ciclo codigo_salida
  ejecutar_proceso fuel c = do
    c' ← ciclo fuel 0 (record c {
      buffer_retorno = buffer_create malloc 0;
      interrupcion_io = false;
      interrupcion_recursos = false;
      fin_proceso = false;
      interrupcion_out_of_memory = false;
    })
    some (codigo_salida c', c')
