-- ===== src/Kernel/Colas.antt =====
-- The queues of kernel/src/main.c and the functions that move processes between them. A process
-- is a pointer into processList, whose index is its PID; `none` is a null pointer's dereference.
-- The two ints of the degree are counted from INT_MIN on: the number n stands for n - 2^31, so that
-- 0 in the code is 2^31 here and comparisons and steps are those of the ints.
pub mod Order
pub mod Admission
use tp_2024_1c_asado_criollo.Prelude.{
  ℕ, zero, suc, ◌+◌, Bool, true, false, not, List, [], ◌∷◌, ◌++◌, Option, none, some, ◌==◌, ltb,
  leb, if◌then◌else◌, ◌>>=◌, ◌&&◌, length, get_elem?, set,
}
use tp_2024_1c_asado_criollo.Commons.Pcb.{
  Pcb, EstadoProceso, new, ready, exec, blocked, exit, codigo_estado,
}

pub record Kernel : Type 0 where
  pub process_list : List Pcb
  pub queue_new : List ℕ
  pub queue_ready : List ℕ
  pub cola_prioridad : List ℕ
  pub multiprogramacion_curr : ℕ
  pub multiprogramacion_max : ℕ

unfoldable pub cambiar_estado : Kernel → ℕ → EstadoProceso → Option Kernel
cambiar_estado k pid e = do
  p ← get_elem? k.process_list pid
  some (record k { process_list = set k.process_list pid (record p { estado = codigo_estado e }) })

-- `n` times queue_pop from the first queue, and queue_push on the second of what passes the test.
unfoldable pub mover : (ℕ → Bool) → ℕ → List ℕ → List ℕ → Option (List ℕ × List ℕ)
mover pasa zero desde hasta = some (desde, hasta)
mover pasa (suc n) [] hasta = none
mover pasa (suc n) (p ∷ desde) hasta =
    if pasa p then mover pasa n desde (hasta ++ (p ∷ [])) else mover pasa n desde hasta

-- Both loops of EliminarProcesoDeQueue.
unfoldable pub eliminar_proceso_de_queue : List ℕ → ℕ → Option (List ℕ)
unfolding mover
eliminar_proceso_de_queue queue pid = do
  (resto, aux) ← mover (λ q. not (pid == q)) (length queue) queue []
  (vacia, nueva) ← mover (λ q. not (pid == q)) (length aux) aux resto
  some nueva

-- The loop of GetPrioridad pops every process and pushes it back.
unfoldable pub rotar : ℕ → List ℕ → Option (List ℕ)
rotar zero q = some q
rotar (suc n) [] = none
rotar (suc n) (p ∷ q) = rotar n (q ++ (p ∷ []))

unfoldable pub enviar_a_ready : Kernel → ℕ → Option Kernel
enviar_a_ready k pid = do
  p ← get_elem? k.process_list pid
  if p.estado == codigo_estado exit then some k else (do
    k' ← cambiar_estado k pid ready
    q ← rotar (length (k'.queue_ready ++ (pid ∷ []))) (k'.queue_ready ++ (pid ∷ []))
    some (record k' { queue_ready = q }))

unfoldable pub enviar_a_ready_primero : Kernel → ℕ → Option Kernel
enviar_a_ready_primero k pid = do
  k' ← cambiar_estado k pid ready
  (resto, aux) ← mover (λ q. true) (length k'.queue_ready) k'.queue_ready (pid ∷ [])
  (vacia, q) ← mover (λ q. true) (length aux) aux resto
  q' ← rotar (length q) q
  some (record k' { queue_ready = q' })

unfoldable pub enviar_a_prioridad : Kernel → ℕ → Option Kernel
enviar_a_prioridad k pid = do
  k' ← cambiar_estado k pid ready
  some (record k' { cola_prioridad = k'.cola_prioridad ++ (pid ∷ []) })

-- The head of PlanificadorCortoPlazo, on both queues: the process to run, if there is one, now in
-- EXEC.
unfoldable pub elegir_de : List ℕ → List ℕ → Kernel → Option (Option ℕ × Kernel)
elegir_de (p ∷ ps) q k =
    cambiar_estado (record k { cola_prioridad = ps }) p exec >>= λ k'. some (some p, k')
elegir_de [] (p ∷ ps) k =
    cambiar_estado (record k { queue_ready = ps }) p exec >>= λ k'. some (some p, k')
elegir_de [] [] k = some (none, k)

unfoldable pub elegir_proceso : Kernel → Option (Option ℕ × Kernel)
unfolding elegir_de
elegir_proceso k = elegir_de k.cola_prioridad k.queue_ready k

-- One process of queue_new: popped, sent to ready and counted.
unfoldable pub admitir_uno : Kernel → Option Kernel
admitir_uno k = elim k.queue_new [
  | [] ↦ none
  | p ∷ ps ↦ enviar_a_ready (record k { queue_new = ps }) p >>= λ k'.
      some (record k' { multiprogramacion_curr = k'.multiprogramacion_curr + 1 })
]

-- The `for` of PlanificadorLargoPlazo from `i` on: its bound is the queue's size at each turn.
-- `fuel` bounds the turns; `none` is also its end.
unfoldable pub admitir : ℕ → ℕ → Kernel → Option Kernel
unfolding admitir_uno
admitir zero i k = none
admitir (suc fuel) i k =
    if not (ltb i (length k.queue_new))
    then some k
    else if leb k.multiprogramacion_max k.multiprogramacion_curr
    then some k
    else admitir_uno k >>= λ k'. admitir fuel (i + 1) k'

-- One turn of PlanificadorLargoPlazo.
unfoldable pub planificador_largo_plazo : Kernel → Option Kernel
unfolding admitir
planificador_largo_plazo k =
    if ltb 0 (length k.queue_new) && ltb k.multiprogramacion_curr k.multiprogramacion_max
    then admitir (suc (length k.queue_new)) 0 k
    else some k
