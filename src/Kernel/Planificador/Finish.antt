-- ===== src/Kernel/Planificador/Finish.antt =====
-- SIGNAL with the process that it wakes, and FinalizarProceso of kernel/src/main.c.
use tp_2024_1c_asado_criollo.Prelude.{
  ℕ, ◌+◌, ◌-◌, ◌≤◌, ◌<◌, ◌≡◌, ◌≢◌, refl, ◌∙◌, Bool, true, false, ◌&&◌, String, List, [], ◌∷◌, none,
  some, ◌==◌, ltb, arith, Bool-cases, Option-cases, inl, inr, ◌⊎◌, ◌>>=◌,
}
use tp_2024_1c_asado_criollo.Commons.Pcb.{ready, exec, blocked, exit, codigo_estado}
use tp_2024_1c_asado_criollo.Kernel.Colas.{Kernel, cambiar_estado}
use tp_2024_1c_asado_criollo.Kernel.Recursos.{Recurso, PeticionRecursos, Recursos}
use tp_2024_1c_asado_criollo.Kernel.Planificador.{
  Sistema, con_kernel, esta, despertar, signal_y_despertar, nombres_peticiones, liberar_peticiones,
  bajar_multiprogramacion, finalizar_proceso,
}
use tp_2024_1c_asado_criollo.Kernel.Planificador.Diagrama.{get-estado_de, EnColas}
use tp_2024_1c_asado_criollo.Kernel.Planificador.Esperas.{
  esperas, hay, conocidas, Soltado, signal_recurso-Soltado,
}
use tp_2024_1c_asado_criollo.Kernel.Planificador.Transitions.{
  enviar_a_ready-Pasado, cambiar_estado-Pasado, eliminar-EnColas,
}
use tp_2024_1c_asado_criollo.Kernel.Planificador.Invariant.{
  estado, Sano, Camina, Despierta, Despierta-trans, EnColas-Camina,
}

-- What SIGNAL by a process that waits for nothing does to the kernel: it stays in its state.
pub record Suelta (s s' : Sistema) (pid : ℕ) : Type 0 where
  pub sano : Sano s'
  pub propio : estado s' pid ≡ estado s pid
  pub ajenos : (j : ℕ) → pid ≢ j → Despierta (estado s j) (estado s' j)
  pub mismo_grado : s'.kernel.multiprogramacion_curr ≡ s.kernel.multiprogramacion_curr
  pub nombres : (m : String) → hay m s'.recursos.recursos ≡ hay m s.recursos.recursos
  pub esperan : esperas pid s'.recursos.peticiones ≡ 0

nadie-Suelta :
    (s : Sistema) (rs : Recursos) (pid : ℕ)
    → Sano s
    → Soltado s.recursos rs none
    → esperas pid s.recursos.peticiones ≡ 0
    → Suelta s (record s { recursos = rs }) pid
nadie-Suelta s rs pid h z w = record {
  sano = record {
    colas = h.colas;
    conocen = z.conocen h.conocen;
    esperan = λ j. omega (arith, h.esperan j, z.esperan j);
  };
  propio = refl;
  ajenos = λ j n. inl refl;
  mismo_grado = refl;
  nombres = z.nombres;
  esperan = omega (arith, w, z.esperan pid);
}

-- The woken process was BLOCKED and among the blocked ones.
despertar-Suelta :
    (s : Sistema) (rs : Recursos) (pid q : ℕ)
    → Sano s
    → Soltado s.recursos rs (some q)
    → esperas pid s.recursos.peticiones ≡ 0
    → (s' : Sistema) × (despertar (record s { recursos = rs }) (some q) ≡ some s') × Suelta s s' pid
unfolding despertar
despertar-Suelta s rs pid q h z w =
    let si : (q == q) ≡ true = ground arith in
    let uno : esperas q rs.peticiones + 1 ≤ esperas q s.recursos.peticiones =
      omega (arith, rw si at (z.esperan q)) in
    let b : estado s q ≡ codigo_estado blocked = ground (arith, h.esperan q, uno) in
    let uno_solo : esperas q s.recursos.peticiones ≤ 1 = ground (arith, h.esperan q) in
    let d : esta q s.bloqueados ≡ true = ground (arith, h.esperan q, uno) in
    let ne : q ≢ pid = λ e. absurd (omega (arith, w, uno, rw e at uno)) in
    let (k', e, p) = enviar_a_ready-Pasado s.kernel q h.colas (inr b) in
    let s' : Sistema = record s { recursos = rs; kernel = k' } in
    let c : Camina s s' q ready =
      EnColas-Camina s s' q ready h p.colas p.estados (z.conocen h.conocen)
        (λ j n. omega (arith, z.esperan j)) (omega (arith, uno, uno_solo)) (λ j t. t) in
    (
      s',
      rw (d, e) refl,
      record {
        sano = c.sano;
        propio = let x : (q == pid) ≡ false = ground (arith, ne) in p.estados pid ∙ rw x refl;
        ajenos = λ j n. elim (Bool-cases (q == j)) [
          | inl x ↦ let r : q ≡ j = ground (arith, x) in inr (rw r at b, p.estados j ∙ rw x refl)
          | inr x ↦ inl (p.estados j ∙ rw x refl)
        ];
        mismo_grado = p.mismo_grado;
        nombres = z.nombres;
        esperan = omega (arith, w, z.esperan pid);
      },
    )

-- SIGNAL on a resource that exists, by a process that waits for nothing.
pub signal_y_despertar-Suelta :
    (s : Sistema) (n : String) (pid : ℕ)
    → Sano s
    → hay n s.recursos.recursos ≡ true
    → esperas pid s.recursos.peticiones ≡ 0
    → (s' : Sistema) × (signal_y_despertar s n pid ≡ some s') × Suelta s s' pid
unfolding signal_y_despertar
signal_y_despertar-Suelta s n pid h c w =
    let (o, rs, e, z) = signal_recurso-Soltado s.recursos n pid c in
    elim (Option-cases o) [
      | inl f ↦ (
        record s { recursos = rs },
        rw (e, f, despertar) refl,
        nadie-Suelta s rs pid h (rw f at z) w,
      )
      | inr (q, f) ↦
          let (s', d, y) = despertar-Suelta s rs pid q h (rw f at z) w in (s', rw (e, f) d, y)
    ]

Suelta-trans : {s s₁ s₂ : Sistema} (pid : ℕ) → Suelta s s₁ pid → Suelta s₁ s₂ pid → Suelta s s₂ pid
Suelta-trans {s} {s₁} {s₂} pid a b = record {
  sano = b.sano;
  propio = b.propio ∙ a.propio;
  ajenos =
      λ j n. Despierta-trans (estado s j) (estado s₁ j) (estado s₂ j) (a.ajenos j n) (b.ajenos j n);
  mismo_grado = b.mismo_grado ∙ a.mismo_grado;
  nombres = λ m. b.nombres m ∙ a.nombres m;
  esperan = b.esperan;
}

-- Every name of the list is a resource's.
abbrev todas : List Recurso → List String → Bool
todas rs [] = true
todas rs (n ∷ ns) = hay n rs && todas rs ns

todas_ext :
    (rs rs' : List Recurso) (ns : List String)
    → ((m : String) → hay m rs' ≡ hay m rs)
    → todas rs' ns ≡ todas rs ns
todas_ext rs rs' [] h = refl
todas_ext rs rs' (n ∷ ns) h = rw (h n, todas_ext rs rs' ns h) refl

todas-nombres_peticiones :
    (rs : List Recurso) (pid : ℕ) (ps : List PeticionRecursos)
    → conocidas rs ps ≡ true
    → todas rs (nombres_peticiones pid ps) ≡ true
unfolding nombres_peticiones
todas-nombres_peticiones rs pid [] h = refl
todas-nombres_peticiones rs pid (p ∷ ps) h = ground (arith, todas-nombres_peticiones rs pid ps)

liberar_peticiones-Suelta :
    (s : Sistema) (ns : List String) (pid : ℕ)
    → Sano s
    → todas s.recursos.recursos ns ≡ true
    → esperas pid s.recursos.peticiones ≡ 0
    → (s' : Sistema) × (liberar_peticiones ns pid s ≡ some s') × Suelta s s' pid
unfolding liberar_peticiones
liberar_peticiones-Suelta s [] pid h t w = (
  s,
  refl,
  record {
    sano = h;
    propio = refl;
    ajenos = λ j n. inl refl;
    mismo_grado = refl;
    nombres = λ m. refl;
    esperan = w;
  },
)
liberar_peticiones-Suelta s (n ∷ ns) pid h t w =
    let c : hay n s.recursos.recursos ≡ true = ground (arith, t) in
    let (s₁, e, a) = signal_y_despertar-Suelta s n pid h c w in
    let u : todas s₁.recursos.recursos ns ≡ true =
      todas_ext s.recursos.recursos s₁.recursos.recursos ns a.nombres ∙ ground (arith, t) in
    let (s₂, f, b) = liberar_peticiones-Suelta s₁ ns pid a.sano u a.esperan in
    (s₂, rw e f, Suelta-trans pid a b)

EnColas-grado : (k : Kernel) (n : ℕ) → EnColas k → EnColas (record k { multiprogramacion_curr = n })
EnColas-grado k n h = record {
  listos = h.listos;
  nuevos = h.nuevos;
  solo_nuevos = h.solo_nuevos;
  una_vez = h.una_vez;
  identidad = h.identidad;
}

-- The end of FinalizarProceso.
sacar-Camina :
    (s : Sistema) (pid : ℕ)
    → Sano s
    → (estado s pid ≡ codigo_estado exec) ⊎ (estado s pid ≡ codigo_estado blocked)
    → esperas pid s.recursos.peticiones ≡ 0
    → 0 < s.kernel.multiprogramacion_curr
    → (s' : Sistema) × ((con_kernel s (cambiar_estado s.kernel pid exit)
          >>= bajar_multiprogramacion)
        ≡ some s')
      × Camina s s' pid exit
      × (s'.kernel.multiprogramacion_curr + 1 ≡ s.kernel.multiprogramacion_curr)
unfolding bajar_multiprogramacion codigo_estado
sacar-Camina s pid h v w g =
    let (p, a, e) = get-estado_de s.kernel.process_list pid (λ z. absurd (omega (arith, z, v))) in
    let (k', c, q) =
      cambiar_estado-Pasado s.kernel pid exit h.colas a (λ z. omega (arith, z))
        (λ z. omega (arith, z)) (λ z. refl) (λ z. refl) (λ z. absurd (omega (arith, z, e, v))) in
    let si : ltb 0 k'.multiprogramacion_curr ≡ true = ground (arith, g, q.mismo_grado) in
    let k₂ = record k' { multiprogramacion_curr = k'.multiprogramacion_curr - 1 } in
    let s' : Sistema = record s { kernel = k₂ } in
    (
      s',
      rw (c, si) refl,
      EnColas-Camina s s' pid exit h (EnColas-grado k' (k'.multiprogramacion_curr - 1) q.colas)
          q.estados h.conocen (λ j n. omega arith) (omega (arith, w)) (λ j t. t),
      omega (arith, g, q.mismo_grado),
    )

-- From a kernel whose queues agree with the states of the processes and whose waiting processes are
-- BLOCKED, FinalizarProceso of a process that runs or is BLOCKED and waits for no resource, while
-- the degree is not INT_MIN, returns: the process is EXIT, each other process stays in its state or
-- goes from BLOCKED to READY, the degree is one less, and the invariant is kept.
pub finalizar_proceso-Camina :
    (s : Sistema) (pid : ℕ)
    → Sano s
    → (estado s pid ≡ codigo_estado exec) ⊎ (estado s pid ≡ codigo_estado blocked)
    → esperas pid s.recursos.peticiones ≡ 0
    → 0 < s.kernel.multiprogramacion_curr
    → (s' : Sistema) × (finalizar_proceso s pid ≡ some s')
      × Camina s s' pid exit
      × (s'.kernel.multiprogramacion_curr + 1 ≡ s.kernel.multiprogramacion_curr)
unfolding finalizar_proceso codigo_estado
finalizar_proceso-Camina s pid h v w g =
    let (p, a, e) = get-estado_de s.kernel.process_list pid (λ z. absurd (omega (arith, z, v))) in
    let i = h.colas.identidad pid p a in
    let (r, c, er, ec, q) =
      eliminar-EnColas s.kernel pid h.colas (λ z. absurd (omega (arith, z, v))) in
    let s₀ : Sistema = record s {
      kernel = record s.kernel { queue_ready = r; cola_prioridad = c };
    } in
    let h₀ : Sano s₀ = record { colas = q; conocen = h.conocen; esperan = h.esperan } in
    let ns = nombres_peticiones pid s.recursos.peticiones in
    let (s₁, f, b) =
      liberar_peticiones-Suelta s₀ ns pid h₀
        (todas-nombres_peticiones s.recursos.recursos pid s.recursos.peticiones h.conocen) w in
    let (s₂, l, z, d) = sacar-Camina s₁ pid b.sano (rw b.propio v) b.esperan (rw b.mismo_grado g) in
    (
      s₂,
      rw (a, i, er, ec, f) l,
      record {
        sano = z.sano;
        propio = z.propio;
        ajenos = λ j n.
            Despierta-trans (estado s j) (estado s₁ j) (estado s₂ j) (b.ajenos j n) (z.ajenos j n);
      },
      d ∙ b.mismo_grado,
    )
