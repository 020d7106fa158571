-- ===== src/Kernel/Planificador.antt =====
-- The kernel of kernel/src/main.c as a whole: IniciarProceso, FinalizarProceso, a turn of
-- PlanificadorCortoPlazo with the CPU's answer, and GestionarInterfaz. A function that waits for
-- another thread is cut in two at the wait. `none` is a fault.
pub mod Desalojo
pub mod Diagrama
pub mod Esperas
pub mod Transitions
pub mod Invariant
pub mod Finish
pub mod Handlers
pub mod Petitions
pub mod Dispatch
pub mod Turn
pub mod Admit
pub mod Events
pub mod Run
use tp_2024_1c_asado_criollo.Prelude.{
  eq_bytes, ℕ, zero, suc, ◌+◌, ◌-◌, ◌%◌, ◌^◌, Bool, true, false, not, ◌&&◌, String, codes, eq_text,
  List, [], ◌∷◌, ◌++◌, Option, none, some, ◌==◌, ltb, leb, if◌then◌else◌, ◌>>=◌, ◌>>◌, guard,
  get_elem?, set,
}
use tp_2024_1c_asado_criollo.Commons.Buffer.{Buffer, buffer_read_uint32, deserializar_string}
use tp_2024_1c_asado_criollo.Commons.Pcb.{
  Pcb, crear_pcb, deserializar_pcb, exec, blocked, exit, codigo_estado,
}
use tp_2024_1c_asado_criollo.Cpu.Execute.Io.{op_wait, op_signal, codigo_operacion}
use tp_2024_1c_asado_criollo.Kernel.Recursos.{
  Recurso, Recursos, PeticionRecursos, wait_recurso, signal_recurso,
}
use tp_2024_1c_asado_criollo.Kernel.Colas.{
  Kernel, cambiar_estado, eliminar_proceso_de_queue, enviar_a_ready, enviar_a_ready_primero,
  enviar_a_prioridad, elegir_proceso,
}
use tp_2024_1c_asado_criollo.Kernel.Interfaces.{
  SolicitudIo, Interfaz, buscar_interfaz, guardar_interfaz, validar_io, crear_solicitud, encolar,
}

-- desaloja_proceso is the value of the semaphore; quantum is the bit pattern of the int.
pub record Sistema : Type 0 where
  pub kernel : Kernel
  pub recursos : Recursos
  pub bloqueados : List ℕ
  pub interfaces : List Interfaz
  pub algoritmo_planificacion : String
  pub quantum : ℕ
  pub next_process_id : ℕ
  pub terminar_proceso : Bool
  pub desalojado : Bool
  pub desaloja_proceso : ℕ

-- desalojo_code of main.h, and the value of each enumerator.
pub data DesalojoCode : Type 0 where
  fin_proceso fin_quantum bloqueo_io cambiar_recurso out_of_memory : DesalojoCode

unfoldable pub codigo_desalojo : DesalojoCode → ℕ
codigo_desalojo fin_proceso = 0
codigo_desalojo fin_quantum = 1
codigo_desalojo bloqueo_io = 2
codigo_desalojo cambiar_recurso = 3
codigo_desalojo out_of_memory = 4

abbrev pub con_kernel : Sistema → Option Kernel → Option Sistema
con_kernel s o = o >>= λ k. some (record s { kernel = k })

abbrev pub pcb_de : Sistema → ℕ → Option Pcb
pcb_de s pid = get_elem? s.kernel.process_list pid

unfoldable pub iniciar_proceso : Sistema → Sistema
unfolding crear_pcb
iniciar_proceso s = record s {
  kernel = record s.kernel {
    process_list = s.kernel.process_list ++ (crear_pcb s.next_process_id s.quantum ∷ []);
    queue_new = s.kernel.queue_new ++ (s.next_process_id ∷ []);
  };
  next_process_id = s.next_process_id + 1;
}

-- A write through the pointer to the process.
unfoldable pub guardar_pcb : Sistema → ℕ → Pcb → Sistema
guardar_pcb s pid p = record s {
  kernel = record s.kernel { process_list = set s.kernel.process_list pid p };
}

unfoldable pub poner_quantum : Sistema → ℕ → ℕ → Option Sistema
unfolding guardar_pcb
poner_quantum s pid q = do p ← pcb_de s pid; some (guardar_pcb s pid (record p { quantum = q }))

-- list_find(bloqueados, isCurrentPID).
unfoldable pub esta : ℕ → List ℕ → Bool
esta pid [] = false
esta pid (q ∷ qs) = if q == pid then true else esta pid qs

-- The end of OcuparRecurso: the process is sent to ready; it stays among the blocked ones.
unfoldable pub despertar : Sistema → Option ℕ → Option Sistema
unfolding esta enviar_a_ready
despertar s none = some s
despertar s (some pid) =
    if esta pid s.bloqueados then con_kernel s (enviar_a_ready s.kernel pid) else none

unfoldable pub signal_y_despertar : Sistema → String → ℕ → Option Sistema
unfolding signal_recurso despertar
signal_y_despertar s nombre pid = do
  (o, rs) ← signal_recurso s.recursos nombre pid
  despertar (record s { recursos = rs }) o

-- The names in list_filter(peticiones_recursos, isCurrPeticionByPID).
unfoldable pub nombres_peticiones : ℕ → List PeticionRecursos → List String
nombres_peticiones pid [] = []
nombres_peticiones pid (p ∷ ps) =
    if pid == p.pid then p.nombre_recurso ∷ nombres_peticiones pid ps else nombres_peticiones pid ps

unfoldable pub liberar_peticiones : List String → ℕ → Sistema → Option Sistema
unfolding signal_y_despertar
liberar_peticiones [] pid s = some s
liberar_peticiones (n ∷ ns) pid s = do s' ← signal_y_despertar s n pid; liberar_peticiones ns pid s'

-- multiprogramacion_curr--, which overflows at INT_MIN only.
unfoldable pub bajar_multiprogramacion : Sistema → Option Sistema
bajar_multiprogramacion s =
    guard (ltb 0 s.kernel.multiprogramacion_curr)
    >> some (record s {
      kernel = record s.kernel { multiprogramacion_curr = s.kernel.multiprogramacion_curr - 1 };
    })

-- FinalizarProceso behind the wait. The memory's answer is only logged.
unfoldable pub finalizar_proceso : Sistema → ℕ → Option Sistema
unfolding eliminar_proceso_de_queue nombres_peticiones liberar_peticiones cambiar_estado
    bajar_multiprogramacion
finalizar_proceso s pid = do
  p ← pcb_de s pid
  r ← eliminar_proceso_de_queue s.kernel.queue_ready p.pid
  c ← eliminar_proceso_de_queue s.kernel.cola_prioridad p.pid
  let k = record s.kernel { queue_ready = r; cola_prioridad = c }
  let ns = nombres_peticiones pid s.recursos.peticiones
  s ← liberar_peticiones ns pid (record s { kernel = k })
  s ← con_kernel s (cambiar_estado s.kernel pid exit)
  bajar_multiprogramacion s

-- FinalizarProceso for the user: a process in EXEC is asked to leave the CPU, and the result says
-- that the thread waits for it.
unfoldable pub finalizar_por_usuario : Sistema → ℕ → Option (Bool × Sistema)
unfolding finalizar_proceso codigo_estado
finalizar_por_usuario s pid = do
  p ← pcb_de s pid
  if p.estado == codigo_estado exec
      then some (true, record s { terminar_proceso = true })
      else finalizar_proceso s pid >>= λ s'. some (false, s')

-- The thread that waits goes on when the semaphore lets it.
unfoldable pub continuar_finalizar : Sistema → ℕ → Option Sistema
unfolding finalizar_proceso
continuar_finalizar s pid = elim s.desaloja_proceso [
  | zero ↦ some s
  | suc n ↦ finalizar_proceso (record s { desaloja_proceso = n }) pid
]

-- The low word of quantumProceso - delta_ms, a difference of uint64_t.
abbrev pub quantum_restante : ℕ → ℕ → ℕ
quantum_restante q delta = (q + (2 ^ 64 - delta % 2 ^ 64)) % 2 ^ 32

-- The word as an int is positive.
abbrev pub positivo : ℕ → Bool
positivo x = ltb 0 x && ltb x (2 ^ 31)

abbrev pub es_vrr : Sistema → Bool
es_vrr s = eq_text s.algoritmo_planificacion "VRR"
