-- ===== src/Kernel/Planificador/Run.antt =====
-- The kernel of kernel/src/main.c as a transition system: IniciarProceso, the long-term planner, both
-- halves of a turn of the short-term planner, and the end of an I/O request, in any order. A turn is
-- cut where it waits for the CPU, so the other events may come while a process runs. Each event is
-- taken as a whole: what another thread may do in the middle of one is left out, so in particular
-- between WaitRecurso, which adds the petition, and the lines that make the process BLOCKED.
use tp_2024_1c_asado_criollo.Prelude.{
  ℕ, ◌<◌, ◌^◌, ◌≡◌, ◌≢◌, refl, sym, ◌∙◌, Bool, true, false, List, some, ◌==◌, leb, if◌then◌else◌,
  length, arith, Bool-cases, inl, inr, subst,
}
use tp_2024_1c_asado_criollo.Commons.Buffer.{Buffer}
use tp_2024_1c_asado_criollo.Commons.Pcb.{
  EstadoProceso, new, ready, exec, blocked, exit, codigo_estado,
}
use tp_2024_1c_asado_criollo.Kernel.Colas.{Kernel, elegir_proceso, planificador_largo_plazo}
use tp_2024_1c_asado_criollo.Kernel.Planificador.{Sistema, iniciar_proceso}
use tp_2024_1c_asado_criollo.Kernel.Planificador.Desalojo.{recibir_proceso, terminar_solicitud}
use tp_2024_1c_asado_criollo.Kernel.Planificador.Diagrama.{
  ◌⟶*◌, quieto, luego, admite, despacha, desaloja, bloquea, despierta, termina, ⟶*-refl, ⟶*-trans,
  estado_de,
}
use tp_2024_1c_asado_criollo.Kernel.Planificador.Esperas.{esperas}
use tp_2024_1c_asado_criollo.Kernel.Planificador.Invariant.{estado, Sano, Camina, exec-esperas}
use tp_2024_1c_asado_criollo.Kernel.Planificador.Turn.{
  EsRespuesta, Despierta-⟶*, recibir_proceso-Camina, despachar-Camina,
}
use tp_2024_1c_asado_criollo.Kernel.Planificador.Petitions.{Sale, sigue, vuelve, espera, acaba}
use tp_2024_1c_asado_criollo.Kernel.Planificador.Admit.{
  Admite, Admitidos, planificador_largo_plazo-Admitidos,
}
use tp_2024_1c_asado_criollo.Kernel.Planificador.Events.{
  estado_de-fuera, iniciar_proceso-Sano, terminar_solicitud-Camina,
}

-- The steps of the kernel. IniciarProceso takes the number of the processes as the next PID; the CPU
-- gets the process that is chosen; the CPU answers for a process that is EXEC, `q` its quantum when
-- it was sent, and the answer has what its reason needs; an interface answers for a process that is
-- still BLOCKED and waits for no resource; the degree is not INT_MIN where a process may end.
pub data Evento (malloc : ℕ → List ℕ) (s : Sistema) : Sistema → Type 0 where
  inicia : s.next_process_id ≡ length s.kernel.process_list → Evento malloc s (iniciar_proceso s)
  admite_nuevos :
      (k' : Kernel)
      → planificador_largo_plazo s.kernel ≡ some k'
      → Evento malloc s (record s { kernel = k' })
  entra_en_cpu :
      (pid : ℕ) (k' : Kernel)
      → elegir_proceso s.kernel ≡ some (some pid, k')
      → Evento malloc s (record s { kernel = k'; desalojado = false })
  sale_de_cpu :
      {s' : Sistema} (pid q delta : ℕ) (respuesta : Buffer)
      → estado s pid ≡ codigo_estado exec
      → 0 < s.kernel.multiprogramacion_curr
      → EsRespuesta malloc pid respuesta
      → recibir_proceso malloc s pid q delta respuesta ≡ some s'
      → Evento malloc s s'
  responde :
      {s' : Sistema} (pid error : ℕ)
      → estado s pid ≡ codigo_estado blocked
      → esperas pid s.recursos.peticiones ≡ 0
      → 0 < s.kernel.multiprogramacion_curr
      → terminar_solicitud s pid error ≡ some s'
      → Evento malloc s s'

pub data Corrida (malloc : ℕ → List ℕ) (s : Sistema) : Sistema → Type 0 where
  nada : Corrida malloc s s
  sigue_con : {s₁ s₂ : Sistema} → Corrida malloc s s₁ → Evento malloc s₁ s₂ → Corrida malloc s s₂

-- The invariant, and the way of every process that there was.
pub record Evoluciona (s s' : Sistema) : Type 0 where
  pub sano : Sano s'
  pub camino : (j : ℕ) → estado s j ≢ 5 → estado s j ⟶* estado s' j

codigo_estado-chico : (e : EstadoProceso) → codigo_estado e ≢ 5
unfolding codigo_estado
codigo_estado-chico new = λ z. omega (arith, z)
codigo_estado-chico ready = λ z. omega (arith, z)
codigo_estado-chico exec = λ z. omega (arith, z)
codigo_estado-chico blocked = λ z. omega (arith, z)
codigo_estado-chico exit = λ z. omega (arith, z)

⟶*-sigue : {a b : ℕ} → a ⟶* b → a ≢ 5 → b ≢ 5
⟶*-sigue quieto h = h
⟶*-sigue (luego {e} {f} p s) h = codigo_estado-chico f

some-inj : {A : Type 0} {a b : A} → some a ≡ some b → a ≡ b
some-inj e = cc

Admite-⟶* : (a b : ℕ) → Admite a b → a ⟶* b
Admite-⟶* a b (inl e) = ⟶*-refl (sym e)
Admite-⟶* a b (inr (e, f)) =
    let p : codigo_estado new ⟶* codigo_estado ready = luego quieto admite in rw (e, f) p

blocked-⟶* : (b : Bool) → codigo_estado blocked ⟶* codigo_estado (if b then exit else ready)
blocked-⟶* true = luego quieto termina
blocked-⟶* false = luego quieto despierta

exec-⟶* : {e : EstadoProceso} → Sale e → codigo_estado exec ⟶* codigo_estado e
exec-⟶* sigue = quieto
exec-⟶* vuelve = luego quieto desaloja
exec-⟶* espera = luego quieto bloquea
exec-⟶* acaba = luego quieto termina

-- Where the process itself has moved along the diagram, all have.
Camina-⟶* :
    {s s' : Sistema} {pid : ℕ} {e : EstadoProceso}
    → Camina s s' pid e
    → estado s pid ⟶* estado s' pid
    → (j : ℕ) → estado s j ⟶* estado s' j
Camina-⟶* {s} {s'} {pid} c p j = elim (Bool-cases (pid == j)) [
  | inl t ↦ let r : pid ≡ j = ground (arith, t) in subst (λ x. estado s x ⟶* estado s' x) r p
  | inr t ↦
      Despierta-⟶* (estado s j) (estado s' j) (c.ajenos j (λ v. absurd (ground (arith, t, v))))
]

nuevo-esperas :
    (s : Sistema) (j : ℕ)
    → Sano s
    → estado s j ≡ codigo_estado new
    → esperas j s.recursos.peticiones ≡ 0
unfolding codigo_estado
nuevo-esperas s j h e = exec-esperas s j h (λ z. absurd (omega (arith, e, z)))

Evento-Evoluciona :
    {malloc : ℕ → List ℕ} {s s' : Sistema} → Sano s → Evento malloc s s' → Evoluciona s s'
Evento-Evoluciona {s = s} h (inicia n) =
    let (x, y, z) = iniciar_proceso-Sano s h n in
    record {
      sano = x;
      camino = λ j c. elim (Bool-cases (j == s.next_process_id)) [
        | inl t ↦
            let r : j ≡ s.next_process_id = ground (arith, t) in
            absurd (c (estado_de-fuera s.kernel.process_list j (omega (arith, n, r))))
        | inr t ↦ ⟶*-refl (sym (z j ∙ rw t refl))
      ];
    }
Evento-Evoluciona {s = s} h (admite_nuevos k' e) =
    let (k₁, f, a) = planificador_largo_plazo-Admitidos s.kernel h.colas in
    let q : k₁ ≡ k' = some-inj (sym f ∙ e) in
    let a' = subst (λ k. Admitidos s.kernel k) q a in
    record {
      sano = record {
        colas = a'.colas;
        conocen = h.conocen;
        esperan = λ j. elim (a'.estados j) [
          | inl t ↦ rw t (h.esperan j)
          | inr (t, u) ↦ (let w = nuevo-esperas s j h t in omega (arith, w))
        ];
      };
      camino = λ j c. Admite-⟶* (estado s j) (estado_de k'.process_list j) (a'.estados j);
    }
Evento-Evoluciona {s = s} h (entra_en_cpu pid k' e) =
    let (l, c) = despachar-Camina s pid k' h e in
    let p : codigo_estado ready ⟶* codigo_estado exec = luego quieto despacha in
    record { sano = c.sano; camino = λ j x. Camina-⟶* c (rw (l, c.propio) p) j }
Evento-Evoluciona {malloc} {s} h (sale_de_cpu {s'} pid q delta respuesta r g m e) =
    let (d, s₁, f, c, t) = recibir_proceso-Camina malloc s pid q delta respuesta h r g m in
    let z : s₁ ≡ s' = some-inj (sym f ∙ e) in
    let c' = subst (λ u. Camina s u pid d) z c in
    record { sano = c'.sano; camino = λ j x. Camina-⟶* c' (rw (r, c'.propio) (exec-⟶* t)) j }
Evento-Evoluciona {s = s} h (responde {s'} pid error b w g e) =
    let (s₁, f, c) = terminar_solicitud-Camina s pid error h b w g in
    let q : s₁ ≡ s' = some-inj (sym f ∙ e) in
    let c' = subst (λ t. Camina s t pid (if leb (2 ^ 31) error then exit else ready)) q c in
    record {
      sano = c'.sano;
      camino = λ j x. Camina-⟶* c' (rw (b, c'.propio) (blocked-⟶* (leb (2 ^ 31) error))) j;
    }

-- From a kernel whose queues agree with the states of the processes and whose waiting processes are
-- BLOCKED, after any sequence of events, each taken as a whole and on the conditions of Evento -
-- new processes, turns of the long-term planner, processes that are given to the CPU, answers of
-- the CPU, answers of the interfaces for processes that are BLOCKED and wait for no resource - the
-- same holds, and every process that there was has moved along the diagram of the five states.
pub Corrida-Evoluciona :
    {malloc : ℕ → List ℕ} {s s' : Sistema} → Sano s → Corrida malloc s s' → Evoluciona s s'
Corrida-Evoluciona h nada = record { sano = h; camino = λ j c. quieto }
Corrida-Evoluciona h (sigue_con c e) =
    let x = Corrida-Evoluciona h c in
    let y = Evento-Evoluciona x.sano e in
    record {
      sano = y.sano;
      camino = λ j n. ⟶*-trans (x.camino j n) (y.camino j (⟶*-sigue (x.camino j n) n));
    }
