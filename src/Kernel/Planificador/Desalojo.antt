-- ===== src/Kernel/Planificador/Desalojo.antt =====
-- What PlanificadorCortoPlazo and GestionarInterfaz of kernel/src/main.c do with a process that
-- the CPU has given back: a function per case of the switch, and the turn as a whole.
use tp_2024_1c_asado_criollo.Prelude.{
  eq_bytes, ℕ, suc, get_elem?, ◌^◌, true, false, String, codes, List, [], ◌∷◌, ◌++◌, Option, none,
  some, ◌==◌, leb, if◌then◌else◌, ◌>>=◌,
}
use tp_2024_1c_asado_criollo.Commons.Buffer.{Buffer, buffer_read_uint32, deserializar_string}
use tp_2024_1c_asado_criollo.Commons.Pcb.{deserializar_pcb, blocked, codigo_estado}
use tp_2024_1c_asado_criollo.Cpu.Execute.Io.{op_wait, op_signal, codigo_operacion}
use tp_2024_1c_asado_criollo.Kernel.Recursos.{Recurso, wait_recurso}
use tp_2024_1c_asado_criollo.Kernel.Colas.{
  cambiar_estado, enviar_a_ready, enviar_a_ready_primero, enviar_a_prioridad, elegir_proceso,
}
use tp_2024_1c_asado_criollo.Kernel.Interfaces.{
  SolicitudIo, buscar_interfaz, guardar_interfaz, validar_io, crear_solicitud, encolar,
}
use tp_2024_1c_asado_criollo.Kernel.Planificador.{
  Sistema, fin_proceso, fin_quantum, bloqueo_io, cambiar_recurso, out_of_memory, codigo_desalojo,
  con_kernel, pcb_de, guardar_pcb, poner_quantum, signal_y_despertar, finalizar_proceso,
  quantum_restante, positivo, es_vrr,
}

unfoldable pub atender_fin_quantum : Sistema → ℕ → Option Sistema
unfolding poner_quantum enviar_a_ready
atender_fin_quantum s pid =
    if s.terminar_proceso
    then some (record s { terminar_proceso = false; desaloja_proceso = suc s.desaloja_proceso })
    else poner_quantum s pid s.quantum >>= λ s. con_kernel s (enviar_a_ready s.kernel pid)

-- The process keeps what is left of its quantum and goes to the priority queue, or has none left.
unfoldable pub seguir : Sistema → ℕ → ℕ → ℕ → Option Sistema
unfolding poner_quantum enviar_a_ready enviar_a_prioridad
seguir s pid q delta =
    if positivo (quantum_restante q delta)
    then (poner_quantum s pid (quantum_restante q delta) >>= λ s.
        con_kernel s (enviar_a_prioridad s.kernel pid))
    else con_kernel s (enviar_a_ready s.kernel pid)

unfoldable pub bloquear : Sistema → ℕ → ℕ → Option Sistema
unfolding cambiar_estado poner_quantum codigo_estado
bloquear s pid q = con_kernel s (cambiar_estado s.kernel pid blocked) >>= λ s. poner_quantum s pid q

-- The case BLOQUEO_IO behind the reading of the operation and of the name.
unfoldable pub pedir_io : (ℕ → List ℕ) → Sistema → ℕ → ℕ → ℕ → ℕ → List ℕ → Buffer → Option Sistema
unfolding validar_io finalizar_proceso crear_solicitud bloquear encolar
pedir_io malloc s pid q delta operacion nombre buffer =
    elim (validar_io s.interfaces nombre operacion) [
      | none ↦ finalizar_proceso s pid
      | some i ↦ do
        solicitud ← crear_solicitud malloc operacion pid buffer
        s' ← bloquear s pid (if es_vrr s then quantum_restante q delta else s.quantum)
        some (record s' { interfaces = encolar i solicitud s'.interfaces })
    ]

-- ValidarRecurso by the bytes of the name: the resource's name as it is kept.
unfoldable pub recurso_llamado : List ℕ → List Recurso → Option String
recurso_llamado nombre [] = none
recurso_llamado nombre (r ∷ rs) =
    if eq_bytes (codes r.nombre) nombre then some r.nombre else recurso_llamado nombre rs

unfoldable pub atender_wait : Sistema → ℕ → ℕ → ℕ → String → Option Sistema
unfolding wait_recurso bloquear seguir
atender_wait s pid q delta nombre = do
  (bloqueado, rs) ← wait_recurso s.recursos nombre pid
  let s₁ = record s { recursos = rs }
  if bloqueado
      then (bloquear s₁ pid s₁.quantum >>= λ s₂.
          some (record s₂ { bloqueados = s₂.bloqueados ++ (pid ∷ []) }))
      else seguir s₁ pid q delta

unfoldable pub atender_signal : Sistema → ℕ → ℕ → ℕ → String → Option Sistema
unfolding signal_y_despertar seguir
atender_signal s pid q delta nombre = do s₁ ← signal_y_despertar s nombre pid; seguir s₁ pid q delta

-- The case CAMBIAR_RECURSO behind the reading of the operation and of the name.
unfoldable pub pedir_recurso : Sistema → ℕ → ℕ → ℕ → ℕ → List ℕ → Option Sistema
unfolding recurso_llamado finalizar_proceso atender_wait atender_signal codigo_operacion
pedir_recurso s pid q delta operacion nombre = elim (recurso_llamado nombre s.recursos.recursos) [
  | none ↦ finalizar_proceso s pid
  | some n ↦
      if operacion == codigo_operacion op_wait
      then atender_wait s pid q delta n
      else if operacion == codigo_operacion op_signal
      then atender_signal s pid q delta n
      else some s
]

-- The switch over the reason: `q` is quantumProceso, `delta` is delta_ms.
unfoldable pub atender_motivo : (ℕ → List ℕ) → Sistema → ℕ → ℕ → ℕ → ℕ → Buffer → Option Sistema
unfolding codigo_desalojo atender_fin_quantum pedir_io pedir_recurso finalizar_proceso
atender_motivo malloc s pid q delta motivo b =
    if motivo == codigo_desalojo fin_proceso
    then finalizar_proceso s pid
    else if motivo == codigo_desalojo fin_quantum
    then atender_fin_quantum s pid
    else if motivo == codigo_desalojo bloqueo_io
    then (buffer_read_uint32 b >>= λ (operacion, b₁). deserializar_string b₁ >>= λ (nombre, b₂).
        pedir_io malloc s pid q delta operacion nombre b₂)
    else if motivo == codigo_desalojo cambiar_recurso
    then (buffer_read_uint32 b >>= λ (operacion, b₁).
        deserializar_string b₁ >>= λ (nombre, b₂). pedir_recurso s pid q delta operacion nombre)
    else if motivo == codigo_desalojo out_of_memory
    then finalizar_proceso s pid
    else some s

-- What the CPU sends back is copied over the process; then the reason is read.
unfoldable pub recibir_proceso : (ℕ → List ℕ) → Sistema → ℕ → ℕ → ℕ → Buffer → Option Sistema
unfolding guardar_pcb atender_motivo
recibir_proceso malloc s pid q delta respuesta = do
  (aux, b) ← deserializar_pcb respuesta
  (motivo, b) ← buffer_read_uint32 b
  atender_motivo malloc (guardar_pcb (record s { desalojado = true }) pid aux) pid q delta motivo b

-- A turn of PlanificadorCortoPlazo, with the CPU's answer and the time that it took.
unfoldable pub planificador_corto_plazo : (ℕ → List ℕ) → Buffer → ℕ → Sistema → Option Sistema
unfolding elegir_proceso recibir_proceso
planificador_corto_plazo malloc respuesta delta s = do
  (o, k) ← elegir_proceso s.kernel
  elim o [
    | none ↦ some s
    | some pid ↦ do
      p ← get_elem? k.process_list pid
      recibir_proceso malloc (record s { kernel = k; desalojado = false }) pid p.quantum delta
          respuesta
  ]

-- GestionarInterfaz until the request is sent: the one that is popped, if its process is blocked.
unfoldable pub tomar_solicitud : Sistema → List ℕ → Option (Option SolicitudIo × Sistema)
unfolding buscar_interfaz guardar_interfaz codigo_estado
tomar_solicitud s nombre = do
  i ← buscar_interfaz nombre s.interfaces
  elim i.queue_procesar [
    | [] ↦ some (none, s)
    | x ∷ xs ↦ do
      p ← pcb_de s x.proceso
      let is = guardar_interfaz nombre (record i { queue_procesar = xs }) s.interfaces
      let s' = record s { interfaces = is }
      some (if p.estado == codigo_estado blocked then some x else none, s')
  ]

-- GestionarInterfaz from the interface's answer on, which is an int.
unfoldable pub terminar_solicitud : Sistema → ℕ → ℕ → Option Sistema
unfolding finalizar_proceso enviar_a_ready enviar_a_ready_primero
terminar_solicitud s pid error =
    if leb (2 ^ 31) error
    then finalizar_proceso s pid
    else if es_vrr s
    then con_kernel s (enviar_a_ready_primero s.kernel pid)
    else con_kernel s (enviar_a_ready s.kernel pid)
