-- ===== src/Kernel/Colas/Admission.antt =====
-- PlanificadorLargoPlazo of kernel/src/main.c.
use tp_2024_1c_asado_criollo.Prelude.{
  ℕ, zero, suc, ◌+◌, ◌≤◌, ◌<◌, ◌≡◌, ◌≢◌, refl, sym, ap, ◌∙◌, true, not, ◌&&◌, List, [], ◌∷◌, ◌++◌,
  some, ltb, leb, length, get_elem?, set, arith, append_assoc, append-nil, Bool-cases, inl, inr,
  ◌⊎◌,
}
use tp_2024_1c_asado_criollo.Commons.Pcb.{Pcb, ready, exit, codigo_estado}
use tp_2024_1c_asado_criollo.Kernel.Colas.{Kernel, admitir_uno, admitir, planificador_largo_plazo}
use tp_2024_1c_asado_criollo.Kernel.Colas.Order.{enviar_a_ready_lem}

-- Every process of the queue is in the list of processes and has not exited.
abbrev pub Vivos : List Pcb → List ℕ → Type 0
Vivos ps [] = Unit {0}
Vivos ps (q ∷ qs) =
    ((p : Pcb) × (get_elem? ps q ≡ some p) × (p.estado ≢ codigo_estado exit)) × Vivos ps qs

-- What the planner has done.
pub record Admitido (k k' : Kernel) : Type 0 where
  pub tomados : List ℕ
  pub quedan : k.queue_new ≡ tomados ++ k'.queue_new
  pub llegan : k'.queue_ready ≡ k.queue_ready ++ tomados
  pub cuenta : k'.multiprogramacion_curr ≡ k.multiprogramacion_curr + length tomados
  pub mismo_max : k'.multiprogramacion_max ≡ k.multiprogramacion_max
  pub grado : k'.multiprogramacion_curr ≤ k.multiprogramacion_max
  pub vivos : Vivos k'.process_list k'.queue_new

get_elem?-set_estado :
    (ps : List Pcb) (i j : ℕ) (p q x : Pcb)
    → get_elem? ps i ≡ some p
    → get_elem? ps j ≡ some x
    → (get_elem? (set ps i q) j ≡ some x) ⊎ (get_elem? (set ps i q) j ≡ some q)
get_elem?-set_estado [] i j p q x e f = absurd cc
get_elem?-set_estado (r ∷ ps) zero zero p q x e f = inr refl
get_elem?-set_estado (r ∷ ps) zero (suc j) p q x e f = inl f
get_elem?-set_estado (r ∷ ps) (suc i) zero p q x e f = inl f
get_elem?-set_estado (r ∷ ps) (suc i) (suc j) p q x e f = get_elem?-set_estado ps i j p q x e f

Vivos-set :
    (ps : List Pcb) (i : ℕ) (p q : Pcb) (qs : List ℕ)
    → get_elem? ps i ≡ some p
    → q.estado ≢ codigo_estado exit
    → Vivos ps qs
    → Vivos (set ps i q) qs
Vivos-set ps i p q [] e h v = tt
Vivos-set ps i p q (j ∷ qs) e h ((x, f, n), v) = (
  elim (get_elem?-set_estado ps i j p q x e f) [ inl g ↦ (x, g, n) | inr g ↦ (q, g, h) ],
  Vivos-set ps i p q qs e h v,
)

no_exit : codigo_estado ready ≢ codigo_estado exit
unfolding codigo_estado
no_exit = λ e. omega (arith, e)

nada :
    (k : Kernel)
    → Vivos k.process_list k.queue_new
    → k.multiprogramacion_curr ≤ k.multiprogramacion_max
    → Admitido k k
nada k v h = record {
  tomados = [];
  quedan = refl;
  llegan = sym (append-nil k.queue_ready);
  cuenta = omega arith;
  mismo_max = refl;
  grado = h;
  vivos = v;
}

admitir-Admitido :
    (fuel i : ℕ) (k : Kernel) (news : List ℕ)
    → k.queue_new ≡ news
    → length news < fuel
    → Vivos k.process_list news
    → k.multiprogramacion_curr ≤ k.multiprogramacion_max
    → (k' : Kernel) × (admitir fuel i k ≡ some k') × Admitido k k'
unfolding admitir
admitir-Admitido zero i k news e f v h = absurd (omega arith)
admitir-Admitido (suc fuel) i k [] e f v h =
    let a : not (ltb i (length k.queue_new)) ≡ true = ground (arith, e) in
    (k, rw a refl, nada k (rw e tt) h)
admitir-Admitido (suc fuel) i k (q ∷ qs) e f ((p, g, n), v) h =
    let k₀ : Kernel = record k { queue_new = qs } in
    let p' : Pcb = record p { estado = codigo_estado ready } in
    let k₁ : Kernel = record k {
      process_list = set k.process_list q p';
      queue_new = qs;
      queue_ready = k.queue_ready ++ (q ∷ []);
      multiprogramacion_curr = k.multiprogramacion_curr + 1;
    } in
    let uno : admitir_uno k ≡ some k₁ =
      unfold admitir_uno in rw (e, enviar_a_ready_lem k₀ q g n) refl in
    elim (Bool-cases (not (ltb i (length k.queue_new)))) [
      | inl a ↦ (k, rw a refl, nada k (rw e ((p, g, n), v)) h)
      | inr a ↦ elim (Bool-cases (leb k.multiprogramacion_max k.multiprogramacion_curr)) [
        | inl b ↦ (k, rw (a, b) refl, nada k (rw e ((p, g, n), v)) h)
        | inr b ↦
            let (k₂, r, z) =
              admitir-Admitido fuel (i + 1) k₁ qs refl (omega (arith, f))
                (Vivos-set k.process_list q p p' qs g no_exit v) (ground (arith, b)) in
            (
              k₂,
              rw (a, b, uno, r) refl,
              record {
                tomados = q ∷ z.tomados;
                quedan = e ∙ ap (λ l. q ∷ l) z.quedan;
                llegan = z.llegan ∙ append_assoc k.queue_ready (q ∷ []) z.tomados;
                cuenta = omega (arith, z.cuenta);
                mismo_max = z.mismo_max;
                grado = z.grado;
                vivos = z.vivos;
              },
            )
      ]
    ]

-- A turn of the long-term planner, with new processes that have not exited and a count within the
-- degree of multiprogramming, returns; the processes that it admits are the first of the new ones,
-- they go behind those that are ready, in order, each is counted, and the count does not pass the
-- degree.
pub planificador_largo_plazo-Admitido :
    (k : Kernel)
    → Vivos k.process_list k.queue_new
    → k.multiprogramacion_curr ≤ k.multiprogramacion_max
    → (k' : Kernel) × (planificador_largo_plazo k ≡ some k') × Admitido k k'
unfolding planificador_largo_plazo
planificador_largo_plazo-Admitido k v h =
    elim (Bool-cases
      (ltb 0 (length k.queue_new) && ltb k.multiprogramacion_curr k.multiprogramacion_max)) [
        | inl e ↦
            let (k', r, z) =
              admitir-Admitido (suc (length k.queue_new)) 0 k k.queue_new refl (omega arith) v h in
            (k', rw (e, r) refl, z)
        | inr e ↦ (k, rw e refl, nada k v h)
      ]
