-- ===== src/Kernel/Planificador/Dispatch.antt =====
-- The choice of the process that runs next, in PlanificadorCortoPlazo of kernel/src/main.c.
use tp_2024_1c_asado_criollo.Prelude.{
  ℕ, ◌+◌, ◌≡◌, refl, ap, ◌∙◌, true, List, [], ◌∷◌, none, some, ◌==◌, if◌then◌else◌, set, arith,
  Bool-cases, inl, inr, ◌⊎◌,
}
use tp_2024_1c_asado_criollo.Commons.Pcb.{Pcb, ready, exec, codigo_estado}
use tp_2024_1c_asado_criollo.Kernel.Colas.{Kernel, cambiar_estado, elegir_de, elegir_proceso}
use tp_2024_1c_asado_criollo.Kernel.Planificador.Diagrama.{
  estado_de, get-estado_de, cuenta, uno_si, EnColas,
}
use tp_2024_1c_asado_criollo.Kernel.Planificador.Transitions.{Pasado, EnColas-cambio}

List-cases : (xs : List ℕ) → (xs ≡ []) ⊎ ((y : ℕ) × (ys : List ℕ) × (xs ≡ y ∷ ys))
List-cases [] = inl refl
List-cases (y ∷ ys) = inr (y, ys, refl)

-- A process taken from its queue is dispatched.
despachar :
    (k : Kernel) (r c : List ℕ) (pid : ℕ)
    → EnColas k
    → ((j : ℕ)
        → cuenta j r + cuenta j c + (if pid == j then 1 else 0)
          ≡ cuenta j k.queue_ready + cuenta j k.cola_prioridad)
    → (k' : Kernel) × (cambiar_estado (record k { queue_ready = r; cola_prioridad = c }) pid exec
        ≡ some k')
      × (estado_de k.process_list pid ≡ codigo_estado ready)
      × Pasado k k' pid exec
unfolding cambiar_estado codigo_estado
despachar k r c pid h q =
    let si : (pid == pid) ≡ true = ground arith in
    let uno : cuenta pid r + cuenta pid c + 1
        ≡ uno_si (estado_de k.process_list pid == codigo_estado ready) =
      rw si at (q pid) ∙ h.listos pid in
    let listo : estado_de k.process_list pid ≡ 1 = ground (arith, uno) in
    let nada : cuenta pid r + cuenta pid c ≡ 0 = ground (arith, uno) in
    let (p, g, f) = get-estado_de k.process_list pid (λ z. absurd (omega (arith, z, listo))) in
    let p' : Pcb = record p { estado = codigo_estado exec } in
    let k' : Kernel = record k {
      process_list = set k.process_list pid p';
      queue_ready = r;
      cola_prioridad = c;
    } in
    (
      k',
      rw g refl,
      listo,
      EnColas-cambio k k' pid exec p p' h g (refl, refl) refl refl refl (λ z. omega (arith, z))
          (λ z. absurd (omega (arith, z, f, listo))) (λ z. absurd (omega (arith, z, f, listo)))
          (λ j. elim (Bool-cases (pid == j)) [
            | inl z ↦ let e : pid ≡ j = ground (arith, z) in rw z (rw e at nada)
            | inr z ↦ rw z (omega (arith, rw z at (q j)))
          ]),
    )

-- The process that is chosen was READY; it leaves its queue and is in EXEC.
pub elegir_proceso-Pasado :
    (k : Kernel)
    → EnColas k
    → (elegir_proceso k ≡ some (none, k))
      ⊎ ((pid : ℕ) × (k' : Kernel) × (elegir_proceso k ≡ some (some pid, k'))
          × (estado_de k.process_list pid ≡ codigo_estado ready)
          × Pasado k k' pid exec)
unfolding elegir_proceso elegir_de
elegir_proceso-Pasado k h = elim (List-cases k.cola_prioridad) [
  | inr (p, ps, e) ↦
      let (k', f, l, x) = despachar k k.queue_ready ps p h (λ j. rw e (omega arith)) in
      inr (p, k', ap (λ c. elegir_de c k.queue_ready k) e ∙ rw f refl, l, x)
  | inl e ↦ elim (List-cases k.queue_ready) [
    | inr (p, ps, d) ↦
        let (k', f, l, x) = despachar k ps k.cola_prioridad p h (λ j. rw d (omega arith)) in
        inr (
          p,
          k',
          ap (λ c. elegir_de c k.queue_ready k) e ∙ ap (λ q. elegir_de [] q k) d ∙ rw f refl,
          l,
          x,
        )
    | inl d ↦ inl (ap (λ c. elegir_de c k.queue_ready k) e ∙ ap (λ q. elegir_de [] q k) d)
  ]
]
