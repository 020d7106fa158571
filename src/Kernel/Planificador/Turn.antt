-- ===== src/Kernel/Planificador/Turn.antt =====
-- A turn of PlanificadorCortoPlazo of kernel/src/main.c against the diagram of the states.
use tp_2024_1c_asado_criollo.Prelude.{
  ℕ, ◌<◌, ◌≡◌, ◌≢◌, refl, sym, ◌∙◌, Bool, true, false, List, Option, some, String, ◌==◌,
  if◌then◌else◌, set, arith, Bool-cases, Option-cases, inl, inr, subst,
}
use tp_2024_1c_asado_criollo.Commons.Buffer.{Buffer, buffer_read_uint32, deserializar_string}
use tp_2024_1c_asado_criollo.Commons.Pcb.{
  Pcb, EstadoProceso, ready, exec, blocked, exit, codigo_estado, deserializar_pcb,
}
use tp_2024_1c_asado_criollo.Kernel.Colas.{Kernel, elegir_proceso}
use tp_2024_1c_asado_criollo.Kernel.Interfaces.{SolicitudIo, validar_io, crear_solicitud}
use tp_2024_1c_asado_criollo.Kernel.Planificador.{
  Sistema, bloqueo_io, cambiar_recurso, codigo_desalojo, guardar_pcb,
}
use tp_2024_1c_asado_criollo.Kernel.Planificador.Desalojo.{
  atender_motivo, recibir_proceso, planificador_corto_plazo,
}
use tp_2024_1c_asado_criollo.Kernel.Planificador.Diagrama.{
  ◌⟶*◌, quieto, luego, ⟶*-refl, ⟶*-trans, despacha, desaloja, bloquea, despierta, termina,
  estado_de, get-estado_de,
}
use tp_2024_1c_asado_criollo.Kernel.Planificador.Transitions.{Pasado, guardar-Pasado}
use tp_2024_1c_asado_criollo.Kernel.Planificador.Dispatch.{elegir_proceso-Pasado}
use tp_2024_1c_asado_criollo.Kernel.Planificador.Invariant.{
  estado, Sano, Camina, Camina-trans, Despierta, Pasado-Camina, exec-esperas,
}
use tp_2024_1c_asado_criollo.Kernel.Planificador.Finish.{finalizar_proceso-Camina}
use tp_2024_1c_asado_criollo.Kernel.Planificador.Handlers.{
  atender_fin_quantum-Camina, pedir_io-Camina,
}
use tp_2024_1c_asado_criollo.Kernel.Planificador.Petitions.{
  Sale, sigue, vuelve, espera, acaba, Salida, sin_recurso, con_recurso, pedir_recurso-Camina,
}

-- What follows the reason in the CPU's message.
pub data EsMensaje (malloc : ℕ → List ℕ) (pid motivo : ℕ) (b : Buffer) : Type 0 where
  sin_datos :
      motivo ≢ codigo_desalojo bloqueo_io
      → motivo ≢ codigo_desalojo cambiar_recurso
      → EsMensaje malloc pid motivo b
  de_io :
      {operacion : ℕ} {nombre : List ℕ} {b₁ b₂ : Buffer} {sol : SolicitudIo}
      → motivo ≡ codigo_desalojo bloqueo_io
      → buffer_read_uint32 b ≡ some (operacion, b₁)
      → deserializar_string b₁ ≡ some (nombre, b₂)
      → crear_solicitud malloc operacion pid b₂ ≡ some sol
      → EsMensaje malloc pid motivo b
  de_recurso :
      {operacion : ℕ} {nombre : List ℕ} {b₁ b₂ : Buffer}
      → motivo ≡ codigo_desalojo cambiar_recurso
      → buffer_read_uint32 b ≡ some (operacion, b₁)
      → deserializar_string b₁ ≡ some (nombre, b₂)
      → EsMensaje malloc pid motivo b

Sale-if : (b : Bool) → Sale (if b then exec else ready)
Sale-if true = sigue
Sale-if false = vuelve

Salida-Sale : {o : Option String} {e : EstadoProceso} → Salida o e → Sale e
Salida-Sale sin_recurso = acaba
Salida-Sale (con_recurso x n) = x

pub atender_motivo-Camina :
    (malloc : ℕ → List ℕ) (s : Sistema) (pid q delta motivo : ℕ) (b : Buffer)
    → Sano s
    → estado s pid ≡ codigo_estado exec
    → 0 < s.kernel.multiprogramacion_curr
    → EsMensaje malloc pid motivo b
    → (e : EstadoProceso) × (s' : Sistema) × (atender_motivo malloc s pid q delta motivo b
        ≡ some s')
      × Camina s s' pid e
      × Sale e
unfolding atender_motivo codigo_desalojo codigo_estado
atender_motivo-Camina malloc s pid q delta motivo b h r g
      (de_io {operacion} {nombre} {b₁} {b₂} m x y c) =
    let (s', f, a) = pedir_io-Camina malloc s pid q delta operacion nombre b₂ h r g c in
    (
      _,
      s',
      rw (m, x, y) f,
      a,
      elim (Option-cases (validar_io s.interfaces nombre operacion)) [
        | inl z ↦ rw z acaba
        | inr (i, z) ↦ rw z espera
      ],
    )
atender_motivo-Camina malloc s pid q delta motivo b h r g (de_recurso {operacion} {nombre} m x y) =
    let (e, s', f, a, z) = pedir_recurso-Camina s pid q delta operacion nombre h r g in
    (e, s', rw (m, x, y) f, a, Salida-Sale z)
atender_motivo-Camina malloc s pid q delta motivo b h r g (sin_datos n₂ n₃) =
    let w = exec-esperas s pid h (λ x. absurd (omega (arith, r, x))) in
    let c₂ : (motivo == 2) ≡ false = ground (arith, n₂) in
    let c₃ : (motivo == 3) ≡ false = ground (arith, n₃) in
    let (sf, ff, af, df) = finalizar_proceso-Camina s pid h (inl r) w g in
    elim (Bool-cases (motivo == 0)) [
      | inl m ↦ (exit, sf, rw m ff, af, acaba)
      | inr m ↦ elim (Bool-cases (motivo == 1)) [
        | inl m₁ ↦
            let (s', f, a) = atender_fin_quantum-Camina s pid h r in
            (_, s', rw (m, m₁) f, a, Sale-if s.terminar_proceso)
        | inr m₁ ↦ elim (Bool-cases (motivo == 4)) [
          | inl m₄ ↦ (exit, sf, rw (m, m₁, c₂, c₃, m₄) ff, af, acaba)
          | inr m₄ ↦ (
            exec,
            s,
            rw (m, m₁, c₂, c₃, m₄) refl,
            record { sano = h; propio = r; ajenos = λ j n. inl refl },
            sigue,
          )
        ]
      ]
    ]

-- The CPU's answer: the process itself, in EXEC, a reason, and what belongs to the reason.
pub record EsRespuesta (malloc : ℕ → List ℕ) (pid : ℕ) (respuesta : Buffer) : Type 0 where
  pub aux : Pcb
  pub motivo : ℕ
  pub b₁ : Buffer
  pub b₂ : Buffer
  pub leido : deserializar_pcb respuesta ≡ some (aux, b₁)
  pub leido_motivo : buffer_read_uint32 b₁ ≡ some (motivo, b₂)
  pub mismo_pid : aux.pid ≡ pid
  pub sigue_exec : aux.estado ≡ codigo_estado exec
  pub mensaje : EsMensaje malloc pid motivo b₂

pub recibir_proceso-Camina :
    (malloc : ℕ → List ℕ) (s : Sistema) (pid q delta : ℕ) (respuesta : Buffer)
    → Sano s
    → estado s pid ≡ codigo_estado exec
    → 0 < s.kernel.multiprogramacion_curr
    → EsRespuesta malloc pid respuesta
    → (e : EstadoProceso) × (s' : Sistema) × (recibir_proceso malloc s pid q delta respuesta
        ≡ some s')
      × Camina s s' pid e
      × Sale e
unfolding recibir_proceso guardar_pcb codigo_estado
recibir_proceso-Camina malloc s pid q delta respuesta h r g m =
    let (p, a, f) = get-estado_de s.kernel.process_list pid (λ z. absurd (omega (arith, z, r))) in
    let x =
      guardar-Pasado s.kernel pid exec m.aux h.colas a (f ∙ r) (λ z. omega (arith, z))
        (m.sigue_exec, m.mismo_pid ∙ sym (h.colas.identidad pid p a)) in
    let k' = record s.kernel { process_list = set s.kernel.process_list pid m.aux } in
    let w = exec-esperas s pid h (λ z. absurd (omega (arith, r, z))) in
    let c = Pasado-Camina s k' pid exec h x w in
    let s₁ : Sistema = record s { kernel = k'; desalojado = true } in
    let h₁ : Sano s₁ = record {
      colas = c.sano.colas;
      conocen = c.sano.conocen;
      esperan = c.sano.esperan;
    } in
    let (e, s₂, d, b, z) =
      atender_motivo-Camina malloc s₁ pid q delta m.motivo m.b₂ h₁ c.propio g m.mensaje in
    let b' : Camina (record s { kernel = k' }) s₂ pid e = record {
      sano = b.sano;
      propio = b.propio;
      ajenos = b.ajenos;
    } in
    (e, s₂, rw (m.leido, m.leido_motivo) d, Camina-trans pid c b', z)

Sale-⟶* : {e : EstadoProceso} → Sale e → codigo_estado ready ⟶* codigo_estado e
Sale-⟶* sigue = luego quieto despacha
Sale-⟶* vuelve = luego (luego quieto despacha) desaloja
Sale-⟶* espera = luego (luego quieto despacha) bloquea
Sale-⟶* acaba = luego (luego quieto despacha) termina

pub Despierta-⟶* : (a b : ℕ) → Despierta a b → a ⟶* b
Despierta-⟶* a b (inl e) = ⟶*-refl (sym e)
Despierta-⟶* a b (inr (e, f)) =
    let p : codigo_estado blocked ⟶* codigo_estado ready = luego quieto despierta in rw (e, f) p

listo_no_bloqueado : codigo_estado ready ≢ codigo_estado blocked
unfolding codigo_estado
listo_no_bloqueado = λ e. omega (arith, e)

exec_es_estado : codigo_estado exec ≢ 5
unfolding codigo_estado
exec_es_estado = λ e. omega (arith, e)

-- The process that is chosen was READY and is EXEC; the others are as they were.
pub despachar-Camina :
    (s : Sistema) (pid : ℕ) (k' : Kernel)
    → Sano s
    → elegir_proceso s.kernel ≡ some (some pid, k')
    → (estado s pid ≡ codigo_estado ready)
      × Camina s (record s { kernel = k'; desalojado = false }) pid exec
despachar-Camina s pid k' h f = elim (elegir_proceso-Pasado s.kernel h.colas) [
  | inl e ↦ absurd (cc (e, f))
  | inr (pid₁, k₁, e, l, p) ↦
      let i : pid₁ ≡ pid = cc in
      let b : k₁ ≡ k' = cc in
      let l' : estado s pid ≡ codigo_estado ready =
        subst (λ x. estado s x ≡ codigo_estado ready) i l in
      let p' =
        subst (λ x. Pasado s.kernel x pid exec) b (subst (λ x. Pasado s.kernel k₁ x exec) i p) in
      let w = exec-esperas s pid h (λ z. absurd (listo_no_bloqueado (sym l' ∙ z))) in
      let c = Pasado-Camina s k' pid exec h p' w in
      (
        l',
        record {
          sano = record {
            colas = c.sano.colas;
            conocen = c.sano.conocen;
            esperan = c.sano.esperan;
          };
          propio = c.propio;
          ajenos = c.ajenos;
        },
      )
]

-- What the kernel's turn is to the diagram.
pub record Recorre (s s' : Sistema) : Type 0 where
  pub sano : Sano s'
  pub camino : (j : ℕ) → estado s j ⟶* estado s' j

-- A turn of the short-term planner, from a kernel whose queues agree with the states of the
-- processes and whose waiting processes are BLOCKED, with the degree not INT_MIN, and with an
-- answer of the CPU that has what its reason needs, whatever process is chosen, returns: the
-- invariant holds again, and the state of every process has moved along the diagram of the five
-- states.
pub planificador_corto_plazo-Recorre :
    (malloc : ℕ → List ℕ) (respuesta : Buffer) (delta : ℕ) (s : Sistema)
    → Sano s
    → 0 < s.kernel.multiprogramacion_curr
    → ((pid : ℕ)
        → estado s pid ≡ codigo_estado ready
        → (k : Kernel) → elegir_proceso s.kernel ≡ some (some pid, k)
        → EsRespuesta malloc pid respuesta)
    → (s' : Sistema) × (planificador_corto_plazo malloc respuesta delta s ≡ some s') × Recorre s s'
unfolding planificador_corto_plazo
planificador_corto_plazo-Recorre malloc respuesta delta s h g m =
    elim (elegir_proceso-Pasado s.kernel h.colas) [
      | inl e ↦ (s, rw e refl, record { sano = h; camino = λ j. quieto })
      | inr (pid, k', e, l, p) ↦
          let (_, c) = despachar-Camina s pid k' h e in
          let r : estado_de k'.process_list pid ≡ codigo_estado exec = c.propio in
          let s₁ : Sistema = record s { kernel = k'; desalojado = false } in
          let h₁ : Sano s₁ = c.sano in
          let (x, a, f) =
            get-estado_de k'.process_list pid (λ z. absurd (exec_es_estado (sym r ∙ z))) in
          let (d, s₂, q, b, t) =
            recibir_proceso-Camina malloc s₁ pid x.quantum delta respuesta h₁ r (rw p.mismo_grado g)
              (m pid l k' e) in
          (
            s₂,
            rw (e, a) q,
            record {
              sano = b.sano;
              camino = λ j. elim (Bool-cases (pid == j)) [
                | inl z ↦ let i : pid ≡ j = ground (arith, z) in rw (sym i, l, b.propio) (Sale-⟶* t)
                | inr z ↦
                    let i : pid ≢ j = λ v. absurd (ground (arith, z, v)) in
                    ⟶*-trans (Despierta-⟶* (estado s j) (estado s₁ j) (c.ajenos j i))
                      (Despierta-⟶* (estado s₁ j) (estado s₂ j) (b.ajenos j i))
              ];
            },
          )
    ]
