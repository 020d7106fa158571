-- ===== src/Kernel/Planificador/Petitions.antt =====
-- WAIT and SIGNAL of a process that runs, in PlanificadorCortoPlazo of kernel/src/main.c.
use tp_2024_1c_asado_criollo.Prelude.{
  eq_bytes, ℕ, ◌+◌, ◌-◌, ◌<◌, ◌≡◌, ◌≢◌, refl, sym, ◌∙◌, Bool, true, false, not, String, codes,
  eq_text_iff, List, [], ◌∷◌, ◌++◌, Option, none, some, ◌==◌, ltb, if◌then◌else◌, arith, Bool-cases,
  Option-cases, inl, inr,
}
use tp_2024_1c_asado_criollo.Commons.Pcb.{EstadoProceso, ready, exec, blocked, exit, codigo_estado}
use tp_2024_1c_asado_criollo.Cpu.Execute.Io.{op_wait, op_signal, codigo_operacion}
use tp_2024_1c_asado_criollo.Kernel.Recursos.{
  Recurso, PeticionRecursos, Recursos, guardar_recurso, wait_recurso,
}
use tp_2024_1c_asado_criollo.Kernel.Recursos.Conservation.{buscar_recurso-nombre}
use tp_2024_1c_asado_criollo.Kernel.Planificador.{Sistema, esta}
use tp_2024_1c_asado_criollo.Kernel.Planificador.Desalojo.{
  recurso_llamado, atender_wait, atender_signal, pedir_recurso,
}
use tp_2024_1c_asado_criollo.Kernel.Planificador.Diagrama.{uno_si}
use tp_2024_1c_asado_criollo.Kernel.Planificador.Esperas.{
  esperas, hay, conocidas, hay-buscar, hay-guardar, conocidas_ext, conocidas-append, esperas-append,
}
use tp_2024_1c_asado_criollo.Kernel.Planificador.Invariant.{
  estado, Sano, Camina, Despierta-trans, EnColas-Camina, exec-esperas,
}
use tp_2024_1c_asado_criollo.Kernel.Planificador.Finish.{
  finalizar_proceso-Camina, signal_y_despertar-Suelta,
}
use tp_2024_1c_asado_criollo.Kernel.Planificador.Handlers.{seguir-Camina, bloquear-EnColas}

-- What WAIT does to the names and to the petitions that wait.
record Esperado (s s' : Recursos) (pid : ℕ) (bloqueado : Bool) : Type 0 where
  conocen : conocidas s.recursos s.peticiones ≡ true → conocidas s'.recursos s'.peticiones ≡ true
  propias : esperas pid s'.peticiones ≡ esperas pid s.peticiones + uno_si bloqueado
  ajenas : (j : ℕ) → pid ≢ j → esperas j s'.peticiones ≡ esperas j s.peticiones

wait_recurso-Esperado :
    (s : Recursos) (n : String) (pid : ℕ)
    → hay n s.recursos ≡ true
    → (b : Bool) × (s' : Recursos) × (wait_recurso s n pid ≡ some (b, s')) × Esperado s s' pid b
unfolding wait_recurso
wait_recurso-Esperado s n pid h =
    let (r, e) = hay-buscar n s.recursos h in
    let l = ltb 0 r.instancias_disponibles in
    let q = if l then record r { instancias_disponibles = r.instancias_disponibles - 1 } else r in
    let p : PeticionRecursos = record { pid = pid; nombre_recurso = r.nombre; ocupada = l } in
    let nm = buscar_recurso-nombre n s.recursos e in
    let mismo : q.nombre ≡ n = (elim (Bool-cases l) [ inl z ↦ rw z nm | inr z ↦ rw z nm ]) in
    let ext : (m : String) → hay m (guardar_recurso n q s.recursos) ≡ hay m s.recursos =
      λ m. hay-guardar n m q s.recursos mismo in
    let si : (pid == pid) ≡ true = ground arith in
    (
      not l,
      record { recursos = guardar_recurso n q s.recursos; peticiones = s.peticiones ++ (p ∷ []) },
      rw e refl,
      record {
        conocen = λ c.
            conocidas_ext s.recursos (guardar_recurso n q s.recursos) (s.peticiones ++ (p ∷ [])) ext
            ∙ conocidas-append s.recursos s.peticiones (p ∷ [])
            ∙ rw (c, nm, h) refl;
        propias = esperas-append pid s.peticiones (p ∷ []) ∙ ground (arith, si);
        ajenas = λ j ne. esperas-append j s.peticiones (p ∷ []) ∙ ground (arith, ne);
      },
    )

esta-append : (j pid : ℕ) (qs : List ℕ) → esta j qs ≡ true → esta j (qs ++ (pid ∷ [])) ≡ true
unfolding esta
esta-append j pid [] h = absurd cc
esta-append j pid (q ∷ qs) h = ground (arith, h, esta-append j pid qs)

esta-ultimo : (pid : ℕ) (qs : List ℕ) → esta pid (qs ++ (pid ∷ [])) ≡ true
unfolding esta
esta-ultimo pid [] = ground arith
esta-ultimo pid (q ∷ qs) = ground (arith, esta-ultimo pid qs)

-- WAIT on a resource that exists: the process is BLOCKED, or goes on as READY.
pub atender_wait-Camina :
    (s : Sistema) (pid q delta : ℕ) (n : String)
    → Sano s
    → estado s pid ≡ codigo_estado exec
    → hay n s.recursos.recursos ≡ true
    → (b : Bool) × (rs : Recursos) × (s' : Sistema) × (wait_recurso s.recursos n pid ≡ some (b, rs))
      × (atender_wait s pid q delta n ≡ some s')
      × Camina s s' pid (if b then blocked else ready)
unfolding atender_wait codigo_estado
atender_wait-Camina s pid q delta n h r c =
    let (b, rs, e, z) = wait_recurso-Esperado s.recursos n pid c in
    let s₁ : Sistema = record s { recursos = rs } in
    let w = exec-esperas s pid h (λ x. absurd (omega (arith, r, x))) in
    elim (Bool-cases b) [
      | inl t ↦
          let (k', d, x, y) = bloquear-EnColas s₁ pid s.quantum h.colas r in
          let s' : Sistema = record s₁ { kernel = k'; bloqueados = s.bloqueados ++ (pid ∷ []) } in
          let p : Camina s s' pid blocked =
            EnColas-Camina s s' pid blocked h x y (z.conocen h.conocen)
              (λ j ne. omega (arith, z.ajenas j ne))
              (rw (esta-ultimo pid s.bloqueados) (omega (arith, w, rw t at z.propias)))
              (λ j f. esta-append j pid s.bloqueados f) in
          (b, rs, s', e, rw (e, t, d) refl, rw t p)
      | inr t ↦
          let h₁ : Sano s₁ = record {
            colas = h.colas;
            conocen = z.conocen h.conocen;
            esperan = λ j. elim (Bool-cases (pid == j)) [
              | inl f ↦
                  let g : pid ≡ j = ground (arith, f) in
                  rw (sym g) (omega (arith, w, rw t at z.propias))
              | inr f ↦ omega (arith, h.esperan j, z.ajenas j (λ g. absurd (ground (arith, f, g))))
            ];
          } in
          let (s', d, x) = seguir-Camina s₁ pid q delta h₁ r in
          (
            b,
            rs,
            s',
            e,
            rw (e, t) d,
            rw t (record { sano = x.sano; propio = x.propio; ajenos = x.ajenos }),
          )
    ]

-- SIGNAL on a resource that exists: the process goes on as READY.
pub atender_signal-Camina :
    (s : Sistema) (pid q delta : ℕ) (n : String)
    → Sano s
    → estado s pid ≡ codigo_estado exec
    → hay n s.recursos.recursos ≡ true
    → (s' : Sistema) × (atender_signal s pid q delta n ≡ some s') × Camina s s' pid ready
unfolding atender_signal codigo_estado
atender_signal-Camina s pid q delta n h r c =
    let w = exec-esperas s pid h (λ x. absurd (omega (arith, r, x))) in
    let (s₁, e, a) = signal_y_despertar-Suelta s n pid h c w in
    let (s₂, d, x) = seguir-Camina s₁ pid q delta a.sano (a.propio ∙ r) in
    (
      s₂,
      rw e d,
      record {
        sano = x.sano;
        propio = x.propio;
        ajenos = λ j n.
            Despierta-trans (estado s j) (estado s₁ j) (estado s₂ j) (a.ajenos j n) (x.ajenos j n);
      },
    )

recurso_llamado-hay :
    (nombre : List ℕ) (rs : List Recurso) {n : String}
    → recurso_llamado nombre rs ≡ some n
    → hay n rs ≡ true
unfolding recurso_llamado
recurso_llamado-hay nombre [] e = absurd cc
recurso_llamado-hay nombre (r ∷ rs) {n} e = elim (Bool-cases (eq_bytes (codes r.nombre) nombre)) [
  | inl f ↦ ground (arith, rw f at e, eq_text_iff r.nombre n)
  | inr f ↦ ground (arith, recurso_llamado-hay nombre rs (rw f at e))
]

-- The states that a process in EXEC can be left in.
pub data Sale : EstadoProceso → Type 0 where
  sigue : Sale exec
  vuelve : Sale ready
  espera : Sale blocked
  acaba : Sale exit

-- It ends without the resource, and does not end with it.
pub data Salida : Option String → EstadoProceso → Type 0 where
  sin_recurso : Salida none exit
  con_recurso : {n : String} {e : EstadoProceso} → Sale e → e ≢ exit → Salida (some n) e

espera_o_vuelve : {n : String} (b : Bool) → Salida (some n) (if b then blocked else ready)
espera_o_vuelve true = con_recurso espera (λ z. absurd cc)
espera_o_vuelve false = con_recurso vuelve (λ z. absurd cc)

-- A process that asks for a resource ends when the resource does not exist; otherwise it is left
-- in another state.
pub pedir_recurso-Camina :
    (s : Sistema) (pid q delta operacion : ℕ) (nombre : List ℕ)
    → Sano s
    → estado s pid ≡ codigo_estado exec
    → 0 < s.kernel.multiprogramacion_curr
    → (e : EstadoProceso) × (s' : Sistema) × (pedir_recurso s pid q delta operacion nombre
        ≡ some s')
      × Camina s s' pid e
      × Salida (recurso_llamado nombre s.recursos.recursos) e
unfolding pedir_recurso codigo_estado
pedir_recurso-Camina s pid q delta operacion nombre h r g =
    let w = exec-esperas s pid h (λ x. absurd (omega (arith, r, x))) in
    elim (Option-cases (recurso_llamado nombre s.recursos.recursos)) [
      | inl e ↦
          let (s', f, a, d) = finalizar_proceso-Camina s pid h (inl r) w g in
          (exit, s', rw (e, pedir_recurso) f, a, rw e sin_recurso)
      | inr (n, e) ↦
          let c = recurso_llamado-hay nombre s.recursos.recursos e in
          elim (Bool-cases (operacion == codigo_operacion op_wait)) [
            | inl o ↦
                let (b, rs, s', x, f, a) = atender_wait-Camina s pid q delta n h r c in
                (
                  if b then blocked else ready,
                  s',
                  rw (e, pedir_recurso, o) f,
                  a,
                  rw e (espera_o_vuelve b),
                )
            | inr o ↦ elim (Bool-cases (operacion == codigo_operacion op_signal)) [
              | inl u ↦
                  let (s', f, a) = atender_signal-Camina s pid q delta n h r c in
                  (
                    ready,
                    s',
                    rw (e, pedir_recurso, o, u) f,
                    a,
                    rw e (con_recurso vuelve (λ z. absurd cc)),
                  )
              | inr u ↦ (
                exec,
                s,
                rw (e, pedir_recurso, o, u) refl,
                record { sano = h; propio = r; ajenos = λ j n. inl refl },
                rw e (con_recurso sigue (λ z. absurd cc)),
              )
            ]
          ]
    ]
