-- ===== src/Kernel/Planificador/Handlers.antt =====
-- The cases of PlanificadorCortoPlazo of kernel/src/main.c for a process that runs.
use tp_2024_1c_asado_criollo.Prelude.{
  ℕ, suc, ◌<◌, ◌≡◌, ◌≢◌, refl, sym, ◌∙◌, Bool, true, false, List, none, some, ◌==◌, if◌then◌else◌,
  arith, Bool-cases, Option-cases, subst, inl, inr,
}
use tp_2024_1c_asado_criollo.Commons.Buffer.{Buffer}
use tp_2024_1c_asado_criollo.Commons.Pcb.{
  EstadoProceso, new, ready, exec, blocked, exit, codigo_estado,
}
use tp_2024_1c_asado_criollo.Kernel.Colas.{Kernel, enviar_a_ready, enviar_a_prioridad}
use tp_2024_1c_asado_criollo.Kernel.Interfaces.{SolicitudIo, validar_io, crear_solicitud, encolar}
use tp_2024_1c_asado_criollo.Kernel.Planificador.{
  Sistema, con_kernel, poner_quantum, guardar_pcb, quantum_restante, positivo, es_vrr,
}
use tp_2024_1c_asado_criollo.Kernel.Planificador.Desalojo.{
  atender_fin_quantum, seguir, bloquear, pedir_io,
}
use tp_2024_1c_asado_criollo.Kernel.Planificador.Diagrama.{estado_de, get-estado_de, EnColas}
use tp_2024_1c_asado_criollo.Kernel.Planificador.Transitions.{
  Pasado, enviar_a_ready-Pasado, enviar_a_prioridad-Pasado, cambiar_estado-Pasado, guardar-Pasado,
}
use tp_2024_1c_asado_criollo.Kernel.Planificador.Invariant.{
  estado, Sano, Camina, Camina-trans, EnColas-Camina, Pasado-Camina, exec-esperas,
}
use tp_2024_1c_asado_criollo.Kernel.Planificador.Finish.{finalizar_proceso-Camina}

-- The quantum of a process is none of its state.
poner_quantum-Pasado :
    (s : Sistema) (pid q : ℕ) (e : EstadoProceso)
    → EnColas s.kernel
    → estado s pid ≡ codigo_estado e
    → codigo_estado e ≢ codigo_estado new
    → codigo_estado e ≢ 5
    → (k' : Kernel) × (poner_quantum s pid q ≡ some (record s { kernel = k' }))
      × Pasado s.kernel k' pid e
unfolding poner_quantum guardar_pcb
poner_quantum-Pasado s pid q e h c n m =
    let (p, g, f) = get-estado_de s.kernel.process_list pid (λ z. m (sym c ∙ z)) in
    (
      _,
      rw g refl,
      guardar-Pasado s.kernel pid e (record p { quantum = q }) h g (f ∙ c) n (f ∙ c, refl),
    )

-- A process that runs and goes on running.
module _ (s : Sistema) (pid : ℕ) (h : Sano s) (r : estado s pid ≡ codigo_estado exec) where
  pub poner_quantum-Camina :
      (q : ℕ) → (s' : Sistema) × (poner_quantum s pid q ≡ some s') × Camina s s' pid exec
  unfolding codigo_estado
  poner_quantum-Camina q =
      let (k', e, p) =
        poner_quantum-Pasado s pid q exec h.colas r (λ z. omega (arith, z))
          (λ z. omega (arith, z)) in
      (
        _,
        e,
        Pasado-Camina s k' pid exec h p (exec-esperas s pid h (λ z. absurd (omega (arith, r, z)))),
      )

  enviar_a_ready-Camina :
      (s' : Sistema) × (con_kernel s (enviar_a_ready s.kernel pid) ≡ some s')
      × Camina s s' pid ready
  unfolding codigo_estado
  enviar_a_ready-Camina =
      let (k', e, p) = enviar_a_ready-Pasado s.kernel pid h.colas (inl r) in
      (
        record s { kernel = k' },
        rw e refl,
        Pasado-Camina s k' pid ready h p (exec-esperas s pid h (λ z. absurd (omega (arith, r, z)))),
      )

  enviar_a_prioridad-Camina :
      (s' : Sistema) × (con_kernel s (enviar_a_prioridad s.kernel pid) ≡ some s')
      × Camina s s' pid ready
  unfolding codigo_estado
  enviar_a_prioridad-Camina =
      let (k', e, p) = enviar_a_prioridad-Pasado s.kernel pid h.colas (inl r) in
      (
        record s { kernel = k' },
        rw e refl,
        Pasado-Camina s k' pid ready h p (exec-esperas s pid h (λ z. absurd (omega (arith, r, z)))),
      )

if_true : {A : Type 0} (b : Bool) (x y : A) → b ≡ true → (if b then x else y) ≡ x
if_true b x y e = rw e refl

if_false : {A : Type 0} (b : Bool) (x y : A) → b ≡ false → (if b then x else y) ≡ y
if_false b x y e = rw e refl

-- The end of a quantum: the process is READY with a whole quantum, or stays for the thread that
-- finishes it.
pub atender_fin_quantum-Camina :
    (s : Sistema) (pid : ℕ)
    → Sano s
    → estado s pid ≡ codigo_estado exec
    → (s' : Sistema) × (atender_fin_quantum s pid ≡ some s')
      × Camina s s' pid (if s.terminar_proceso then exec else ready)
unfolding atender_fin_quantum
atender_fin_quantum-Camina s pid h r = elim (Bool-cases s.terminar_proceso) [
  | inl t ↦
      let s' : Sistema = record s {
        terminar_proceso = false;
        desaloja_proceso = suc s.desaloja_proceso;
      } in
      let c : Camina s s' pid exec = record {
        sano = record { colas = h.colas; conocen = h.conocen; esperan = h.esperan };
        propio = r;
        ajenos = λ j n. inl refl;
      } in
      (
        s',
        if_true s.terminar_proceso _ _ t,
        subst (λ b. Camina s s' pid (if b then exec else ready)) (sym t) c,
      )
  | inr t ↦
      let (s₁, e, a) = poner_quantum-Camina s pid h r s.quantum in
      let (s₂, f, b) = enviar_a_ready-Camina s₁ pid a.sano a.propio in
      (
        s₂,
        if_false s.terminar_proceso _ _ t ∙ rw e f,
        subst (λ b. Camina s s₂ pid (if b then exec else ready)) (sym t) (Camina-trans pid a b),
      )
]

-- The rest of the quantum.
pub seguir-Camina :
    (s : Sistema) (pid q delta : ℕ)
    → Sano s
    → estado s pid ≡ codigo_estado exec
    → (s' : Sistema) × (seguir s pid q delta ≡ some s') × Camina s s' pid ready
unfolding seguir
seguir-Camina s pid q delta h r = elim (Bool-cases (positivo (quantum_restante q delta))) [
  | inl t ↦
      let (s₁, e, a) = poner_quantum-Camina s pid h r (quantum_restante q delta) in
      let (s₂, f, b) = enviar_a_prioridad-Camina s₁ pid a.sano a.propio in
      (s₂, rw (t, e) f, Camina-trans pid a b)
  | inr t ↦ let (s₁, e, a) = enviar_a_ready-Camina s pid h r in (s₁, rw t e, a)
]

-- The kernel's part of the blocking of a process that runs.
pub bloquear-EnColas :
    (s : Sistema) (pid q : ℕ)
    → EnColas s.kernel
    → estado s pid ≡ codigo_estado exec
    → (k' : Kernel) × (bloquear s pid q ≡ some (record s { kernel = k' }))
      × EnColas k'
      × ((j : ℕ)
          → estado_de k'.process_list j ≡ (if pid == j then codigo_estado blocked else estado s j))
unfolding bloquear codigo_estado
bloquear-EnColas s pid q h r =
    let (p, g, f) = get-estado_de s.kernel.process_list pid (λ z. absurd (omega (arith, z, r))) in
    let (k₁, e, a) =
      cambiar_estado-Pasado s.kernel pid blocked h g (λ z. omega (arith, z)) (λ z. omega (arith, z))
        (λ z. absurd (omega (arith, z, f, r))) (λ z. absurd (omega (arith, z, f, r)))
        (λ z. absurd (omega (arith, z, f, r))) in
    let si : (pid == pid) ≡ true = ground arith in
    let s₁ : Sistema = record s { kernel = k₁ } in
    let (k₂, d, b) =
      poner_quantum-Pasado s₁ pid q blocked a.colas (a.estados pid ∙ rw si refl)
        (λ z. omega (arith, z)) (λ z. omega (arith, z)) in
    (
      k₂,
      rw e d,
      b.colas,
      λ j. elim (Bool-cases (pid == j)) [
        | inl z ↦ b.estados j ∙ rw z refl
        | inr z ↦ b.estados j ∙ rw z (a.estados j ∙ rw z refl)
      ],
    )

-- A process that asks for I/O is BLOCKED when its interface is connected and does the operation,
-- and EXIT otherwise.
pub pedir_io-Camina :
    (malloc : ℕ → List ℕ) (s : Sistema) (pid q delta operacion : ℕ) (nombre : List ℕ) (b : Buffer)
    {sol : SolicitudIo}
    → Sano s
    → estado s pid ≡ codigo_estado exec
    → 0 < s.kernel.multiprogramacion_curr
    → crear_solicitud malloc operacion pid b ≡ some sol
    → (s' : Sistema) × (pedir_io malloc s pid q delta operacion nombre b ≡ some s')
      × Camina s s' pid
          (elim (validar_io s.interfaces nombre operacion) [ none ↦ exit | some i ↦ blocked ])
unfolding pedir_io codigo_estado
pedir_io-Camina malloc s pid q delta operacion nombre b {sol} h r g c =
    let w = exec-esperas s pid h (λ z. absurd (omega (arith, r, z))) in
    elim (Option-cases (validar_io s.interfaces nombre operacion)) [
      | inl e ↦
          let (s', f, a, d) = finalizar_proceso-Camina s pid h (inl r) w g in
          (s', rw (e, pedir_io) f, rw e a)
      | inr (i, e) ↦
          let n = if es_vrr s then quantum_restante q delta else s.quantum in
          let (k', f, x, y) = bloquear-EnColas s pid n h.colas r in
          let s' : Sistema = record s { kernel = k'; interfaces = encolar i sol s.interfaces } in
          (
            s',
            rw (e, pedir_io, c, f) refl,
            rw e (
                EnColas-Camina s s' pid blocked h x y h.conocen (λ j n. omega arith)
                  (omega (arith, w)) (λ j t. t)),
          )
    ]
