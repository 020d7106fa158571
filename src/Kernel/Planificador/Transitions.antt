-- ===== src/Kernel/Planificador/Transitions.antt =====
-- The primitives of kernel/src/main.c that change the state of one process and its queue.
use tp_2024_1c_asado_criollo.Prelude.{
  ℕ, ◌+◌, ◌≡◌, ◌≢◌, refl, sym, ◌∙◌, false, List, [], ◌∷◌, ◌++◌, some, ◌==◌, if◌then◌else◌,
  get_elem?, set, arith, Bool-cases, inl, inr, not, get_elem?-set_self, get_elem?-set_ne,
  get_elem?-lt, ◌⊎◌,
}
use tp_2024_1c_asado_criollo.Commons.Pcb.{
  Pcb, EstadoProceso, new, ready, exec, blocked, exit, codigo_estado,
}
use tp_2024_1c_asado_criollo.Kernel.Colas.{
  Kernel, cambiar_estado, eliminar_proceso_de_queue, enviar_a_ready, enviar_a_ready_primero,
  enviar_a_prioridad,
}
use tp_2024_1c_asado_criollo.Kernel.Colas.Order.{
  filtrar, enviar_a_ready_lem, enviar_a_ready_primero_lem, eliminar_proceso_de_queue_lem,
}
use tp_2024_1c_asado_criollo.Kernel.Planificador.Diagrama.{
  estado_de, estado_de-get, estado_de-set, get-estado_de, cuenta, cuenta-append, cuenta-filtrar,
  uno_si, EnColas,
}

-- The process is now in the state `e`, the others are as they were.
pub record Pasado (k k' : Kernel) (pid : ℕ) (e : EstadoProceso) : Type 0 where
  pub colas : EnColas k'
  pub estados :
      (j : ℕ)
      → estado_de k'.process_list j
        ≡ (if pid == j then codigo_estado e else estado_de k.process_list j)
  pub mismo_grado : k'.multiprogramacion_curr ≡ k.multiprogramacion_curr

pub identidad-set :
    (ps : List Pcb) (i j : ℕ) (q x : Pcb) {p : Pcb}
    → ((l : ℕ) (y : Pcb) → get_elem? ps l ≡ some y → y.pid ≡ l)
    → get_elem? ps i ≡ some p
    → q.pid ≡ p.pid
    → get_elem? (set ps i q) j ≡ some x
    → x.pid ≡ j
identidad-set ps i j q x {p} h e f g = elim (Bool-cases (i == j)) [
  | inl c ↦
      let r : i ≡ j = ground (arith, c) in
      let m : q ≡ x = cc (rw r at g, get_elem?-set_self ps j q (get_elem?-lt ps j (rw r at e))) in
      rw (sym m, f, h i p e) r
  | inr c ↦
      let r : i ≢ j = λ z. absurd (ground (arith, c, z)) in
      h j x (sym (get_elem?-set_ne ps i j q r) ∙ g)
]

-- A change of one process's state, with the ready queues that go with it.
pub EnColas-cambio :
    (k k' : Kernel) (pid : ℕ) (e : EstadoProceso) (p q : Pcb)
    → EnColas k
    → get_elem? k.process_list pid ≡ some p
    → (q.estado ≡ codigo_estado e) × (q.pid ≡ p.pid)
    → k'.process_list ≡ set k.process_list pid q
    → k'.queue_new ≡ k.queue_new
    → k'.multiprogramacion_curr ≡ k.multiprogramacion_curr
    → codigo_estado e ≢ codigo_estado new
    → (p.estado ≡ codigo_estado new → codigo_estado e ≡ codigo_estado exit)
    → (p.estado ≡ codigo_estado exit → codigo_estado e ≡ codigo_estado exit)
    → ((j : ℕ)
        → cuenta j k'.queue_ready + cuenta j k'.cola_prioridad ≡ (
            if pid == j
            then uno_si (codigo_estado e == codigo_estado ready)
            else cuenta j k.queue_ready + cuenta j k.cola_prioridad))
    → Pasado k k' pid e
EnColas-cambio k k' pid e p q h g y l n m ne exi sal c =
    let est : (j : ℕ)
        → estado_de k'.process_list j
          ≡ (if pid == j then codigo_estado e else estado_de k.process_list j) =
      λ j. rw (l, sym y.0) (estado_de-set k.process_list pid j q g) in
    let era = estado_de-get k.process_list pid g in
    record {
      colas = record {
        listos = λ j. elim (Bool-cases (pid == j)) [
          | inl z ↦ rw (est j, z) (rw z at (c j))
          | inr z ↦ rw (est j, z) (rw z at (c j) ∙ h.listos j)
        ];
        nuevos = λ j t. elim (Bool-cases (pid == j)) [
          | inl z ↦ absurd (ne (rw (est j, z) at t))
          | inr z ↦ rw n (h.nuevos j (rw (est j, z) at t))
        ];
        solo_nuevos = λ j t u. elim (Bool-cases (pid == j)) [
          | inl z ↦
              let r : pid ≡ j = ground (arith, z) in
              let no : codigo_estado e ≢ codigo_estado exit = rw (est j, z) at u in
              rw n (
                h.solo_nuevos j (λ w. no (exi (sym era ∙ rw (sym r) at w)))
                  (λ w. no (sal (sym era ∙ rw (sym r) at w))))
          | inr z ↦ rw n (h.solo_nuevos j (rw (est j, z) at t) (rw (est j, z) at u))
        ];
        una_vez = λ j. rw n (h.una_vez j);
        identidad = λ j x t. identidad-set k.process_list pid j q x h.identidad g y.1 (rw l at t);
      };
      estados = est;
      mismo_grado = m;
    }

-- What the sending of a process that runs or is blocked to READY does to its queue.
module _ (k : Kernel) (pid : ℕ) (h : EnColas k)
    (vivo : (estado_de k.process_list pid ≡ codigo_estado exec)
      ⊎ (estado_de k.process_list pid ≡ codigo_estado blocked)) where
  hay_proceso :
      (p : Pcb) × (get_elem? k.process_list pid ≡ some p)
      × (p.estado ≢ codigo_estado exit)
      × (p.estado ≢ codigo_estado new)
      × (cuenta pid k.queue_ready + cuenta pid k.cola_prioridad ≡ 0)
  unfolding codigo_estado
  hay_proceso =
      let (p, g, e) = get-estado_de k.process_list pid (λ z. absurd (omega (arith, z, vivo))) in
      (
        p,
        g,
        λ z. absurd (omega (arith, z, e, vivo)),
        λ z. absurd (omega (arith, z, e, vivo)),
        ground (arith, vivo, h.listos pid),
      )

  a_ready :
      (k' : Kernel) (p : Pcb)
      → get_elem? k.process_list pid ≡ some p
      → p.estado ≢ codigo_estado exit
      → p.estado ≢ codigo_estado new
      → k'.process_list ≡ set k.process_list pid (record p { estado = codigo_estado ready })
      → k'.queue_new ≡ k.queue_new
      → k'.multiprogramacion_curr ≡ k.multiprogramacion_curr
      → ((j : ℕ)
          → cuenta j k'.queue_ready + cuenta j k'.cola_prioridad
            ≡ (if pid == j then 1 else 0) + (cuenta j k.queue_ready + cuenta j k.cola_prioridad))
      → Pasado k k' pid ready
  unfolding codigo_estado
  a_ready k' p g x y l n m c =
      EnColas-cambio k k' pid ready p _ h g (refl, refl) l n m (λ z. omega (arith, z))
        (λ z. absurd (y z)) (λ z. absurd (x z))
        (λ j. elim (Bool-cases (pid == j)) [
          | inl z ↦
              let r : pid ≡ j = ground (arith, z) in
              let (q, a, b, d, f) = hay_proceso in rw z (omega (arith, rw z at (c j), rw r at f))
          | inr z ↦ rw z (omega (arith, rw z at (c j)))
        ])

  -- EnviarAReady, EnviarAReadyPrimero and EnviarAPrioridad return and keep the queues.
  pub enviar_a_ready-Pasado :
      (k' : Kernel) × (enviar_a_ready k pid ≡ some k') × Pasado k k' pid ready
  enviar_a_ready-Pasado =
      let (p, g, x, y, z) = hay_proceso in
      (
        _,
        enviar_a_ready_lem k pid g x,
        a_ready _ p g x y refl refl refl
            (λ j. ground (arith, cuenta-append j k.queue_ready (pid ∷ []))),
      )

  pub enviar_a_ready_primero-Pasado :
      (k' : Kernel) × (enviar_a_ready_primero k pid ≡ some k') × Pasado k k' pid ready
  enviar_a_ready_primero-Pasado =
      let (p, g, x, y, z) = hay_proceso in
      (_, enviar_a_ready_primero_lem k pid g, a_ready _ p g x y refl refl refl (λ j. omega arith))

  pub enviar_a_prioridad-Pasado :
      (k' : Kernel) × (enviar_a_prioridad k pid ≡ some k') × Pasado k k' pid ready
  unfolding enviar_a_prioridad cambiar_estado
  enviar_a_prioridad-Pasado =
      let (p, g, x, y, z) = hay_proceso in
      let k' : Kernel = record k {
        process_list = set k.process_list pid (record p { estado = codigo_estado ready });
        cola_prioridad = k.cola_prioridad ++ (pid ∷ []);
      } in
      (
        k',
        rw g refl,
        a_ready k' p g x y refl refl refl
            (λ j. ground (arith, cuenta-append j k.cola_prioridad (pid ∷ []))),
      )

-- CambiarEstado of a process that is in no ready queue, to a state that is in none, returns.
pub cambiar_estado-Pasado :
    (k : Kernel) (pid : ℕ) (e : EstadoProceso) {p : Pcb}
    → EnColas k
    → get_elem? k.process_list pid ≡ some p
    → codigo_estado e ≢ codigo_estado new
    → codigo_estado e ≢ codigo_estado ready
    → (p.estado ≡ codigo_estado new → codigo_estado e ≡ codigo_estado exit)
    → (p.estado ≡ codigo_estado exit → codigo_estado e ≡ codigo_estado exit)
    → p.estado ≢ codigo_estado ready
    → (k' : Kernel) × (cambiar_estado k pid e ≡ some k') × Pasado k k' pid e
unfolding cambiar_estado
cambiar_estado-Pasado k pid e {p} h g nn nr a b fuera =
    let k' : Kernel = record k {
      process_list = set k.process_list pid (record p { estado = codigo_estado e });
    } in
    let era = estado_de-get k.process_list pid g in
    let no : (codigo_estado e == codigo_estado ready) ≡ false = ground (arith, nr) in
    let nunca : (estado_de k.process_list pid == codigo_estado ready) ≡ false =
      ground (arith, era, fuera) in
    (
      k',
      rw g refl,
      EnColas-cambio k k' pid e p _ h g (refl, refl) refl refl refl nn a b
          (λ j. elim (Bool-cases (pid == j)) [
            | inl z ↦
                let r : pid ≡ j = ground (arith, z) in
                rw (z, no, sym r) (h.listos pid ∙ rw nunca refl)
            | inr z ↦ rw z refl
          ]),
    )

-- A write of a PCB with the same PID and in the same state.
pub guardar-Pasado :
    (k : Kernel) (pid : ℕ) (e : EstadoProceso) (q : Pcb) {p : Pcb}
    → EnColas k
    → get_elem? k.process_list pid ≡ some p
    → p.estado ≡ codigo_estado e
    → codigo_estado e ≢ codigo_estado new
    → (q.estado ≡ codigo_estado e) × (q.pid ≡ p.pid)
    → Pasado k (record k { process_list = set k.process_list pid q }) pid e
guardar-Pasado k pid e q {p} h g c ne y =
    EnColas-cambio k (record k { process_list = set k.process_list pid q }) pid e p q h g y refl
      refl refl ne (λ z. absurd (ne (sym c ∙ z))) (λ z. sym c ∙ z)
      (λ j. elim (Bool-cases (pid == j)) [
        | inl z ↦
            let r : pid ≡ j = ground (arith, z) in
            let d : estado_de k.process_list pid ≡ codigo_estado e =
              estado_de-get k.process_list pid g ∙ c in
            rw (z, sym r) (rw d at (h.listos pid))
        | inr z ↦ rw z refl
      ])

-- Taking a process off two queues in which it is not leaves every count.
cuenta-sin :
    (pid j : ℕ) (r c : List ℕ)
    → cuenta pid r + cuenta pid c ≡ 0
    → cuenta j (filtrar (λ q. not (pid == q)) r) + cuenta j (filtrar (λ q. not (pid == q)) c)
      ≡ cuenta j r + cuenta j c
cuenta-sin pid j r c h = elim (Bool-cases (pid == j)) [
  | inl e ↦
      let q : pid ≡ j = ground (arith, e) in
      ground (arith, e, rw q at h, cuenta-filtrar pid j r, cuenta-filtrar pid j c)
  | inr e ↦ ground (arith, e, cuenta-filtrar pid j r, cuenta-filtrar pid j c)
]

-- Both calls of EliminarProcesoDeQueue for a process that is in neither queue.
pub eliminar-EnColas :
    (k : Kernel) (pid : ℕ)
    → EnColas k
    → estado_de k.process_list pid ≢ codigo_estado ready
    → (r c : List ℕ) × (eliminar_proceso_de_queue k.queue_ready pid ≡ some r)
      × (eliminar_proceso_de_queue k.cola_prioridad pid ≡ some c)
      × EnColas (record k { queue_ready = r; cola_prioridad = c })
eliminar-EnColas k pid h fuera =
    let b : (estado_de k.process_list pid == codigo_estado ready) ≡ false = ground (arith, fuera) in
    let z : cuenta pid k.queue_ready + cuenta pid k.cola_prioridad ≡ 0 = h.listos pid ∙ rw b refl in
    (
      _,
      _,
      eliminar_proceso_de_queue_lem k.queue_ready pid,
      eliminar_proceso_de_queue_lem k.cola_prioridad pid,
      record {
        listos = λ j. cuenta-sin pid j k.queue_ready k.cola_prioridad z ∙ h.listos j;
        nuevos = h.nuevos;
        solo_nuevos = h.solo_nuevos;
        una_vez = h.una_vez;
        identidad = h.identidad;
      },
    )
