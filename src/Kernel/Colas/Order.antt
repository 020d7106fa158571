-- ===== src/Kernel/Colas/Order.antt =====
-- The queue functions as operations on sequences.
use tp_2024_1c_asado_criollo.Prelude.{
  ℕ, ◌≡◌, ◌≢◌, refl, sym, ap, ◌∙◌, Bool, true, false, not, List, [], ◌∷◌, ◌++◌, some, ◌==◌,
  if◌then◌else◌, length, get_elem?, set, arith, append_assoc, append-nil, Bool-cases, inl, inr,
}
use tp_2024_1c_asado_criollo.Commons.Pcb.{Pcb, ready, exit, codigo_estado}
use tp_2024_1c_asado_criollo.Kernel.Colas.{
  Kernel, cambiar_estado, mover, eliminar_proceso_de_queue, rotar, enviar_a_ready,
  enviar_a_ready_primero,
}

abbrev pub filtrar : (ℕ → Bool) → List ℕ → List ℕ
filtrar pasa [] = []
filtrar pasa (p ∷ ps) = if pasa p then p ∷ filtrar pasa ps else filtrar pasa ps

-- Moving a whole queue appends what passes the test, in order.
pub mover_lem :
    (pasa : ℕ → Bool) (q hasta : List ℕ)
    → mover pasa (length q) q hasta ≡ some ([], hasta ++ filtrar pasa q)
unfolding mover
mover_lem pasa [] hasta = ap (λ z. some ([], z)) (sym (append-nil hasta))
mover_lem pasa (p ∷ q) hasta = elim (Bool-cases (pasa p)) [
  | inl e ↦ rw e (
      mover_lem pasa q (hasta ++ (p ∷ []))
      ∙ ap (λ z. some ([], z)) (append_assoc hasta (p ∷ []) (filtrar pasa q)))
  | inr e ↦ rw e (mover_lem pasa q hasta)
]

filtrar_idem : (pasa : ℕ → Bool) (q : List ℕ) → filtrar pasa (filtrar pasa q) ≡ filtrar pasa q
filtrar_idem pasa [] = refl
filtrar_idem pasa (p ∷ q) = elim (Bool-cases (pasa p)) [
  | inl e ↦ rw (e, e) (ap (λ z. p ∷ z) (filtrar_idem pasa q))
  | inr e ↦ rw e (filtrar_idem pasa q)
]

filtrar_todo : (q : List ℕ) → filtrar (λ p. true) q ≡ q
filtrar_todo [] = refl
filtrar_todo (p ∷ q) = ap (λ z. p ∷ z) (filtrar_todo q)

-- EliminarProcesoDeQueue never pops an empty queue, and what is left is the queue without the
-- process, in its order.
pub eliminar_proceso_de_queue_lem :
    (queue : List ℕ) (pid : ℕ)
    → eliminar_proceso_de_queue queue pid ≡ some (filtrar (λ q. not (pid == q)) queue)
unfolding eliminar_proceso_de_queue
eliminar_proceso_de_queue_lem queue pid =
    let pasa : ℕ → Bool = λ q. not (pid == q) in
    rw (mover_lem pasa queue [], mover_lem pasa (filtrar pasa queue) [], filtrar_idem pasa queue)
      refl

rotar_lem : (q r : List ℕ) → rotar (length q) (q ++ r) ≡ some (r ++ q)
unfolding rotar
rotar_lem [] r = ap some (sym (append-nil r))
rotar_lem (p ∷ q) r =
    ap (rotar (length q)) (append_assoc q r (p ∷ []))
    ∙ rotar_lem q (r ++ (p ∷ []))
    ∙ ap some (append_assoc r (p ∷ []) q)

-- GetPrioridad leaves the queue as it was.
pub rotar_todo : (q : List ℕ) → rotar (length q) q ≡ some q
rotar_todo q = ap (rotar (length q)) (sym (append-nil q)) ∙ rotar_lem q []

-- EnviarAReadyPrimero of a process of the list puts it, now in READY, in front of the queue and
-- keeps the order of the others.
pub enviar_a_ready_primero_lem :
    (k : Kernel) (pid : ℕ) {p : Pcb}
    → get_elem? k.process_list pid ≡ some p
    → enviar_a_ready_primero k pid
      ≡ some (record k {
        process_list = set k.process_list pid (record p { estado = codigo_estado ready });
        queue_ready = pid ∷ k.queue_ready;
      })
unfolding enviar_a_ready_primero cambiar_estado
enviar_a_ready_primero_lem k pid e =
    let pasa : ℕ → Bool = λ q. true in
    rw
      (
        e,
        mover_lem pasa k.queue_ready (pid ∷ []),
        filtrar_todo k.queue_ready,
        mover_lem pasa (pid ∷ k.queue_ready) [],
        filtrar_todo k.queue_ready,
        rotar_todo (pid ∷ k.queue_ready),
      )
      refl

-- EnviarAReady of a process that has not exited puts it, now in READY, behind the others.
pub enviar_a_ready_lem :
    (k : Kernel) (pid : ℕ) {p : Pcb}
    → get_elem? k.process_list pid ≡ some p
    → p.estado ≢ codigo_estado exit
    → enviar_a_ready k pid
      ≡ some (record k {
        process_list = set k.process_list pid (record p { estado = codigo_estado ready });
        queue_ready = k.queue_ready ++ (pid ∷ []);
      })
unfolding enviar_a_ready cambiar_estado
enviar_a_ready_lem k pid {p} e h =
    let no : (p.estado == codigo_estado exit) ≡ false = ground (arith, h) in
    rw (e, no, rotar_todo (k.queue_ready ++ (pid ∷ []))) refl
