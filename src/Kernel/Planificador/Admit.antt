-- ===== src/Kernel/Planificador/Admit.antt =====
-- IniciarProceso and PlanificadorLargoPlazo of kernel/src/main.c and the states of the processes.
use tp_2024_1c_asado_criollo.Prelude.{
  ℕ, zero, suc, ◌+◌, ◌≤◌, ◌<◌, ◌≡◌, ◌≢◌, refl, ◌∙◌, true, not, ◌&&◌, List, [], ◌∷◌, ◌++◌, some,
  ◌==◌, ltb, leb, if◌then◌else◌, get_elem?, set, length, arith, Bool-cases, inl, inr, ◌⊎◌,
}
use tp_2024_1c_asado_criollo.Commons.Pcb.{Pcb, new, ready, exit, codigo_estado}
use tp_2024_1c_asado_criollo.Kernel.Colas.{
  Kernel, enviar_a_ready, admitir_uno, admitir, planificador_largo_plazo,
}
use tp_2024_1c_asado_criollo.Kernel.Colas.Order.{enviar_a_ready_lem}
use tp_2024_1c_asado_criollo.Kernel.Planificador.Diagrama.{
  estado_de, estado_de-set, get-estado_de, cuenta, cuenta-append, EnColas,
}
use tp_2024_1c_asado_criollo.Kernel.Planificador.Transitions.{identidad-set}

-- Some NEW processes are READY, the others stay.
abbrev pub Admite : ℕ → ℕ → Type 0
Admite a b = (b ≡ a) ⊎ ((a ≡ codigo_estado new) × (b ≡ codigo_estado ready))

pub record Admitidos (k k' : Kernel) : Type 0 where
  pub colas : EnColas k'
  pub estados : (j : ℕ) → Admite (estado_de k.process_list j) (estado_de k'.process_list j)

Admite-trans : (a b c : ℕ) → Admite a b → Admite b c → Admite a c
unfolding codigo_estado
Admite-trans a b c h i = ground (arith, h, i)

admitir_uno-vivo :
    (k : Kernel) (q : ℕ) (qs : List ℕ) {p : Pcb}
    → k.queue_new ≡ q ∷ qs
    → get_elem? k.process_list q ≡ some p
    → p.estado ≢ codigo_estado exit
    → admitir_uno k
      ≡ some (record k {
        process_list = set k.process_list q (record p { estado = codigo_estado ready });
        queue_new = qs;
        queue_ready = k.queue_ready ++ (q ∷ []);
        multiprogramacion_curr = k.multiprogramacion_curr + 1;
      })
unfolding admitir_uno
admitir_uno-vivo k q qs e g h = rw (e, enviar_a_ready_lem (record k { queue_new = qs }) q g h) refl

admitir_uno-exit :
    (k : Kernel) (q : ℕ) (qs : List ℕ) {p : Pcb}
    → k.queue_new ≡ q ∷ qs
    → get_elem? k.process_list q ≡ some p
    → (p.estado == codigo_estado exit) ≡ true
    → admitir_uno k
      ≡ some (record k { queue_new = qs; multiprogramacion_curr = k.multiprogramacion_curr + 1 })
unfolding admitir_uno enviar_a_ready
admitir_uno-exit k q qs e g h = rw (e, g, h) refl

-- The first of the new processes goes to READY, or has exited and is dropped.
admitir_uno-Admitidos :
    (k : Kernel) (q : ℕ) (qs : List ℕ)
    → EnColas k
    → k.queue_new ≡ q ∷ qs
    → (k' : Kernel) × (admitir_uno k ≡ some k') × (k'.queue_new ≡ qs) × Admitidos k k'
unfolding codigo_estado
admitir_uno-Admitidos k q qs h e =
    let una : cuenta q k.queue_new ≡ suc (cuenta q qs) = rw e (ground arith) in
    let nada : cuenta q qs ≡ 0 = omega (arith, una, h.una_vez q) in
    let otros : (j : ℕ) → q ≢ j → cuenta j qs ≡ cuenta j k.queue_new =
      λ j ne. rw e (ground (arith, ne)) in
    let menos : (j : ℕ) → cuenta j qs ≤ 1 = λ j.
      let m : cuenta j qs ≤ cuenta j k.queue_new = rw e (omega arith) in
      omega (arith, m, h.una_vez j) in
    elim (Bool-cases (estado_de k.process_list q == codigo_estado exit)) [
      | inl s ↦
          let fin : estado_de k.process_list q ≡ 4 = ground (arith, s) in
          let (p, g, f) = get-estado_de k.process_list q (λ z. absurd (omega (arith, z, fin))) in
          let si : (p.estado == 4) ≡ true = ground (arith, f, fin) in
          let k' : Kernel = record k {
            queue_new = qs;
            multiprogramacion_curr = k.multiprogramacion_curr + 1;
          } in
          (
            k',
            admitir_uno-exit k q qs e g si,
            refl,
            record {
              colas = record {
                listos = h.listos;
                nuevos = λ j z.
                    otros j (λ r. absurd (omega (arith, z, fin, rw r at fin))) ∙ h.nuevos j z;
                solo_nuevos =
                    λ j y z. otros j (λ r. absurd (z (rw r at fin))) ∙ h.solo_nuevos j y z;
                una_vez = menos;
                identidad = h.identidad;
              };
              estados = λ j. inl refl;
            },
          )
      | inr s ↦
          let no_sale : estado_de k.process_list q ≢ 4 = λ z. absurd (ground (arith, s, z)) in
          let nace : estado_de k.process_list q ≡ 0 =
            ground (arith, una, h.solo_nuevos q, no_sale) in
          let (p, g, f) = get-estado_de k.process_list q (λ z. absurd (omega (arith, z, nace))) in
          let p' : Pcb = record p { estado = 1 } in
          let ne : p.estado ≢ 4 = λ z. absurd (omega (arith, z, f, nace)) in
          let k' : Kernel = record k {
            process_list = set k.process_list q p';
            queue_new = qs;
            queue_ready = k.queue_ready ++ (q ∷ []);
            multiprogramacion_curr = k.multiprogramacion_curr + 1;
          } in
          let est : (j : ℕ)
              → estado_de k'.process_list j ≡ (if q == j then 1 else estado_de k.process_list j) =
            λ j. estado_de-set k.process_list q j p' g in
          let lista : cuenta q k.queue_ready + cuenta q k.cola_prioridad ≡ 0 =
            ground (arith, h.listos q, nace) in
          (
            k',
            admitir_uno-vivo k q qs e g ne,
            refl,
            record {
              colas = record {
                listos = λ j. elim (Bool-cases (q == j)) [
                  | inl z ↦
                      let r : q ≡ j = ground (arith, z) in
                      rw (est j, z)
                        (ground (arith, z, rw r at lista, cuenta-append j k.queue_ready (q ∷ [])))
                  | inr z ↦
                      rw (est j, z)
                        (ground (arith, z, h.listos j, cuenta-append j k.queue_ready (q ∷ [])))
                ];
                nuevos = λ j y. elim (Bool-cases (q == j)) [
                  | inl z ↦ absurd (omega (arith, rw (est j, z) at y))
                  | inr z ↦
                      otros j (λ r. absurd (ground (arith, z, r))) ∙ h.nuevos j (rw (est j, z) at y)
                ];
                solo_nuevos = λ j y w. elim (Bool-cases (q == j)) [
                  | inl z ↦ let r : q ≡ j = ground (arith, z) in rw r at nada
                  | inr z ↦
                      otros j (λ r. absurd (ground (arith, z, r)))
                      ∙ h.solo_nuevos j (rw (est j, z) at y) (rw (est j, z) at w)
                ];
                una_vez = menos;
                identidad = λ j x t. identidad-set k.process_list q j p' x h.identidad g refl t;
              };
              estados = λ j. elim (Bool-cases (q == j)) [
                | inl z ↦ let r : q ≡ j = ground (arith, z) in inr (rw r at nace, est j ∙ rw z refl)
                | inr z ↦ inl (est j ∙ rw z refl)
              ];
            },
          )
    ]

admitir-Admitidos :
    (fuel i : ℕ) (k : Kernel) (news : List ℕ)
    → EnColas k
    → k.queue_new ≡ news
    → length news < fuel
    → (k' : Kernel) × (admitir fuel i k ≡ some k') × Admitidos k k'
unfolding admitir
admitir-Admitidos zero i k news h e f = absurd (omega arith)
admitir-Admitidos (suc fuel) i k [] h e f =
    let a : not (ltb i (length k.queue_new)) ≡ true = ground (arith, e) in
    (k, rw a refl, record { colas = h; estados = λ j. inl refl })
admitir-Admitidos (suc fuel) i k (q ∷ qs) h e f =
    let (k₁, u, n, x) = admitir_uno-Admitidos k q qs h e in
    let (k₂, r, z) = admitir-Admitidos fuel (i + 1) k₁ qs x.colas n (omega (arith, f)) in
    elim (Bool-cases (not (ltb i (length k.queue_new)))) [
      | inl a ↦ (k, rw a refl, record { colas = h; estados = λ j. inl refl })
      | inr a ↦ elim (Bool-cases (leb k.multiprogramacion_max k.multiprogramacion_curr)) [
        | inl b ↦ (k, rw (a, b) refl, record { colas = h; estados = λ j. inl refl })
        | inr b ↦ (
          k₂,
          rw (a, b, u) r,
          record {
            colas = z.colas;
            estados = λ j.
                Admite-trans (estado_de k.process_list j) (estado_de k₁.process_list j)
                  (estado_de k₂.process_list j) (x.estados j) (z.estados j);
          },
        )
      ]
    ]

-- A turn of the long-term planner, on queues that agree with the states, also with new processes
-- that have exited, returns: the queues agree with the states again, and a process stays in its
-- state or goes from NEW to READY.
pub planificador_largo_plazo-Admitidos :
    (k : Kernel)
    → EnColas k
    → (k' : Kernel) × (planificador_largo_plazo k ≡ some k') × Admitidos k k'
unfolding planificador_largo_plazo
planificador_largo_plazo-Admitidos k h =
    elim (Bool-cases
      (ltb 0 (length k.queue_new) && ltb k.multiprogramacion_curr k.multiprogramacion_max)) [
        | inl e ↦
            let (k', r, z) =
              admitir-Admitidos (suc (length k.queue_new)) 0 k k.queue_new h refl (omega arith) in
            (k', rw (e, r) refl, z)
        | inr e ↦ (k, rw e refl, record { colas = h; estados = λ j. inl refl })
      ]
