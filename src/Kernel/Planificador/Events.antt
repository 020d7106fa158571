-- ===== src/Kernel/Planificador/Events.antt =====
-- IniciarProceso and the end of GestionarInterfaz of kernel/src/main.c: a new process, and a
-- request that an interface has answered.
use tp_2024_1c_asado_criollo.Prelude.{
  ℕ, zero, suc, ◌+◌, ◌≤◌, ◌<◌, ◌^◌, ◌≡◌, refl, sym, ap, ◌∙◌, List, [], ◌∷◌, ◌++◌, some, ◌==◌, leb,
  if◌then◌else◌, get_elem?, length, arith, Bool-cases, inl, inr, ◌⊎◌, length-append,
}
use tp_2024_1c_asado_criollo.Commons.Pcb.{Pcb, new, ready, blocked, exit, codigo_estado, crear_pcb}
use tp_2024_1c_asado_criollo.Kernel.Planificador.{Sistema, es_vrr, iniciar_proceso}
use tp_2024_1c_asado_criollo.Kernel.Planificador.Desalojo.{terminar_solicitud}
use tp_2024_1c_asado_criollo.Kernel.Planificador.Diagrama.{estado_de, cuenta, cuenta-append}
use tp_2024_1c_asado_criollo.Kernel.Planificador.Esperas.{esperas}
use tp_2024_1c_asado_criollo.Kernel.Planificador.Transitions.{
  enviar_a_ready-Pasado, enviar_a_ready_primero-Pasado,
}
use tp_2024_1c_asado_criollo.Kernel.Planificador.Invariant.{estado, Sano, Camina, Pasado-Camina}
use tp_2024_1c_asado_criollo.Kernel.Planificador.Finish.{finalizar_proceso-Camina}

estado_de-append :
    (ps : List Pcb) (p : Pcb) (j : ℕ)
    → estado_de (ps ++ (p ∷ [])) j ≡ (if j == length ps then p.estado else estado_de ps j)
unfolding estado_de
estado_de-append [] p zero = refl
estado_de-append [] p (suc j) = ground arith
estado_de-append (q ∷ ps) p zero = ground arith
estado_de-append (q ∷ ps) p (suc j) = ground (arith, estado_de-append ps p j)

pub estado_de-fuera : (ps : List Pcb) (j : ℕ) → length ps ≤ j → estado_de ps j ≡ 5
unfolding estado_de
estado_de-fuera [] j h = refl
estado_de-fuera (p ∷ ps) zero h = absurd (omega arith)
estado_de-fuera (p ∷ ps) (suc j) h = estado_de-fuera ps j (omega arith)

get-append :
    (ps : List Pcb) (p : Pcb) (j : ℕ) {x : Pcb}
    → get_elem? (ps ++ (p ∷ [])) j ≡ some x
    → (get_elem? ps j ≡ some x) ⊎ ((j ≡ length ps) × (p ≡ x))
get-append [] p zero e = inr (refl, cc)
get-append [] p (suc j) e = absurd cc
get-append (q ∷ ps) p zero e = inl e
get-append (q ∷ ps) p (suc j) {x} e = elim (get-append ps p j e) [
  | inl f ↦ inl f
  | inr (f, g) ↦ inr (ap suc f, g)
]

-- A new process, with the next PID, is NEW and at the end of its queue.
pub iniciar_proceso-Sano :
    (s : Sistema)
    → Sano s
    → s.next_process_id ≡ length s.kernel.process_list
    → Sano (iniciar_proceso s)
      × ((iniciar_proceso s).next_process_id ≡ length (iniciar_proceso s).kernel.process_list)
      × ((j : ℕ)
          → estado (iniciar_proceso s) j
            ≡ (if j == s.next_process_id then codigo_estado new else estado s j))
unfolding iniciar_proceso crear_pcb codigo_estado
iniciar_proceso-Sano s h n =
    let p = crear_pcb s.next_process_id s.quantum in
    let ps = s.kernel.process_list in
    let est : (j : ℕ)
        → estado (iniciar_proceso s) j ≡ (if j == s.next_process_id then 0 else estado s j) =
      λ j. estado_de-append ps p j ∙ rw n refl in
    let nadie : estado s s.next_process_id ≡ 5 =
      rw n (estado_de-fuera ps (length ps) (omega arith)) in
    let nunca : cuenta s.next_process_id s.kernel.queue_new ≡ 0 =
      h.colas.solo_nuevos s.next_process_id (λ z. absurd (omega (arith, z, nadie)))
        (λ z. absurd (omega (arith, z, nadie))) in
    let con : (j : ℕ)
        → cuenta j (s.kernel.queue_new ++ (s.next_process_id ∷ []))
          ≡ cuenta j s.kernel.queue_new + (if s.next_process_id == j then 1 else 0) =
      λ j. ground (arith, cuenta-append j s.kernel.queue_new (s.next_process_id ∷ [])) in
    (
      record {
        colas = record {
          listos = λ j. elim (Bool-cases (j == s.next_process_id)) [
            | inl z ↦
                let r : j ≡ s.next_process_id = ground (arith, z) in
                rw (est j, z) (h.colas.listos j ∙ rw (r, nadie) refl)
            | inr z ↦ rw (est j, z) (h.colas.listos j)
          ];
          nuevos = λ j y. elim (Bool-cases (j == s.next_process_id)) [
            | inl z ↦
                let r : j ≡ s.next_process_id = ground (arith, z) in
                ground (arith, con j, rw (sym r) at nunca, z)
            | inr z ↦ ground (arith, con j, h.colas.nuevos j (rw (est j, z) at y), z)
          ];
          solo_nuevos = λ j y w. elim (Bool-cases (j == s.next_process_id)) [
            | inl z ↦ absurd (rw (est j, z) at y refl)
            | inr z ↦
                ground
                  (arith, con j, h.colas.solo_nuevos j (rw (est j, z) at y) (rw (est j, z) at w), z)
          ];
          una_vez = λ j. elim (Bool-cases (j == s.next_process_id)) [
            | inl z ↦
                let r : j ≡ s.next_process_id = ground (arith, z) in
                ground (arith, con j, rw (sym r) at nunca, z)
            | inr z ↦ ground (arith, con j, h.colas.una_vez j, z)
          ];
          identidad = λ j x t. elim (get-append ps p j t) [
            | inl e ↦ h.colas.identidad j x e
            | inr (e, f) ↦ rw (sym f) (n ∙ sym e)
          ];
        };
        conocen = h.conocen;
        esperan = λ j. elim (Bool-cases (j == s.next_process_id)) [
          | inl z ↦
              let r : j ≡ s.next_process_id = ground (arith, z) in
              let c : estado s j ≡ 5 = rw r nadie in rw (est j, z) (rw c at (h.esperan j))
          | inr z ↦ rw (est j, z) (h.esperan j)
        ];
      },
      omega (arith, n, length-append {0} ps (p ∷ [])),
      est,
    )

-- The end of an I/O request of a process that is BLOCKED and waits for no resource: READY, or EXIT
-- when the interface reports an error.
pub terminar_solicitud-Camina :
    (s : Sistema) (pid error : ℕ)
    → Sano s
    → estado s pid ≡ codigo_estado blocked
    → esperas pid s.recursos.peticiones ≡ 0
    → 0 < s.kernel.multiprogramacion_curr
    → (s' : Sistema) × (terminar_solicitud s pid error ≡ some s')
      × Camina s s' pid (if leb (2 ^ 31) error then exit else ready)
unfolding terminar_solicitud
terminar_solicitud-Camina s pid error h b w g = elim (Bool-cases (leb (2 ^ 31) error)) [
  | inl e ↦ let (s', f, c, d) = finalizar_proceso-Camina s pid h (inr b) w g in (s', rw e f, rw e c)
  | inr e ↦ elim (Bool-cases (es_vrr s)) [
    | inl v ↦
        let (k', f, p) = enviar_a_ready_primero-Pasado s.kernel pid h.colas (inr b) in
        (record s { kernel = k' }, rw (e, v, f) refl, rw e (Pasado-Camina s k' pid ready h p w))
    | inr v ↦
        let (k', f, p) = enviar_a_ready-Pasado s.kernel pid h.colas (inr b) in
        (record s { kernel = k' }, rw (e, v, f) refl, rw e (Pasado-Camina s k' pid ready h p w))
  ]
]
