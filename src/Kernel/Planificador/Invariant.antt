-- ===== src/Kernel/Planificador/Invariant.antt =====
-- The invariant of the kernel of kernel/src/main.c and what keeps it.
use tp_2024_1c_asado_criollo.Prelude.{
  ℕ, ◌≤◌, ◌≡◌, if◌then◌else◌, ◌≢◌, refl, sym, ◌∙◌, true, false, ◌&&◌, ◌==◌, arith, Bool-cases, inl,
  inr, ◌⊎◌,
}
use tp_2024_1c_asado_criollo.Commons.Pcb.{EstadoProceso, ready, blocked, codigo_estado}
use tp_2024_1c_asado_criollo.Kernel.Colas.{Kernel}
use tp_2024_1c_asado_criollo.Kernel.Planificador.{Sistema, esta}
use tp_2024_1c_asado_criollo.Kernel.Planificador.Diagrama.{estado_de, uno_si, EnColas}
use tp_2024_1c_asado_criollo.Kernel.Planificador.Esperas.{esperas, conocidas}
use tp_2024_1c_asado_criollo.Kernel.Planificador.Transitions.{Pasado}

abbrev pub estado : Sistema → ℕ → ℕ
estado s j = estado_de s.kernel.process_list j

-- The queues agree with the states; every petition is for a resource that exists; a process waits
-- for one resource at most, and only when it is BLOCKED and among the blocked ones.
pub record Sano (s : Sistema) : Type 0 where
  pub colas : EnColas s.kernel
  pub conocen : conocidas s.recursos.recursos s.recursos.peticiones ≡ true
  pub esperan :
      (j : ℕ)
      → esperas j s.recursos.peticiones
        ≤ uno_si (estado s j == codigo_estado blocked && esta j s.bloqueados)

-- The state stays, or a BLOCKED process is READY.
abbrev pub Despierta : ℕ → ℕ → Type 0
Despierta a b = (b ≡ a) ⊎ ((a ≡ codigo_estado blocked) × (b ≡ codigo_estado ready))

-- The process goes to the state `e`; the others stay, or are woken.
pub record Camina (s s' : Sistema) (pid : ℕ) (e : EstadoProceso) : Type 0 where
  pub sano : Sano s'
  pub propio : estado s' pid ≡ codigo_estado e
  pub ajenos : (j : ℕ) → pid ≢ j → Despierta (estado s j) (estado s' j)

pub Despierta-trans : (a b c : ℕ) → Despierta a b → Despierta b c → Despierta a c
unfolding codigo_estado
Despierta-trans a b c h i = ground (arith, h, i)

pub Camina-trans :
    {s s₁ s₂ : Sistema} (pid : ℕ) {e f : EstadoProceso}
    → Camina s s₁ pid e
    → Camina s₁ s₂ pid f
    → Camina s s₂ pid f
Camina-trans {s} {s₁} {s₂} pid a b = record {
  sano = b.sano;
  propio = b.propio;
  ajenos =
      λ j n. Despierta-trans (estado s j) (estado s₁ j) (estado s₂ j) (a.ajenos j n) (b.ajenos j n);
}

-- A change of one process's state in the whole kernel.
pub EnColas-Camina :
    (s s' : Sistema) (pid : ℕ) (e : EstadoProceso)
    → Sano s
    → EnColas s'.kernel
    → ((j : ℕ) → estado s' j ≡ (if pid == j then codigo_estado e else estado s j))
    → conocidas s'.recursos.recursos s'.recursos.peticiones ≡ true
    → ((j : ℕ) → pid ≢ j → esperas j s'.recursos.peticiones ≤ esperas j s.recursos.peticiones)
    → esperas pid s'.recursos.peticiones
      ≤ uno_si (codigo_estado e == codigo_estado blocked && esta pid s'.bloqueados)
    → ((j : ℕ) → esta j s.bloqueados ≡ true → esta j s'.bloqueados ≡ true)
    → Camina s s' pid e
EnColas-Camina s s' pid e h p est c o w b = record {
  sano = record {
    colas = p;
    conocen = c;
    esperan = λ j. elim (Bool-cases (pid == j)) [
      | inl z ↦
          let r : pid ≡ j = ground (arith, z) in
          let q : estado s' j ≡ codigo_estado e = est j ∙ rw z refl in rw (q, sym r) w
      | inr z ↦
          let r : pid ≢ j = λ t. absurd (ground (arith, z, t)) in
          let q : estado s' j ≡ estado s j = est j ∙ rw z refl in
          rw q (ground (arith, o j r, h.esperan j, b j))
    ];
  };
  propio = let z : (pid == pid) ≡ true = ground arith in est pid ∙ rw z refl;
  ajenos = λ j n. let z : (pid == j) ≡ false = ground (arith, n) in inl (est j ∙ rw z refl);
}

-- The kernel alone changes, and the process waits for nothing.
pub Pasado-Camina :
    (s : Sistema) (k' : Kernel) (pid : ℕ) (e : EstadoProceso)
    → Sano s
    → Pasado s.kernel k' pid e
    → esperas pid s.recursos.peticiones ≡ 0
    → Camina s (record s { kernel = k' }) pid e
Pasado-Camina s k' pid e h p w =
    EnColas-Camina s (record s { kernel = k' }) pid e h p.colas p.estados h.conocen
      (λ j n. omega arith) (omega (arith, w)) (λ j t. t)

-- A process that runs waits for nothing.
pub exec-esperas :
    (s : Sistema) (pid : ℕ)
    → Sano s
    → estado s pid ≢ codigo_estado blocked
    → esperas pid s.recursos.peticiones ≡ 0
exec-esperas s pid h e =
    let z : (estado s pid == codigo_estado blocked) ≡ false = ground (arith, e) in
    omega (arith, rw z at (h.esperan pid))
