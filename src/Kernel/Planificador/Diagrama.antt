-- ===== src/Kernel/Planificador/Diagrama.antt =====
-- The diagram of the states of a process, and the states and queues of kernel/src/main.c as counts.
use tp_2024_1c_asado_criollo.Prelude.{
  ℕ, zero, suc, ◌+◌, ◌≤◌, ◌≡◌, ◌≢◌, refl, Bool, true, false, not, List, [], ◌∷◌, ◌++◌, some, ◌==◌,
  if◌then◌else◌, get_elem?, set, arith,
}
use tp_2024_1c_asado_criollo.Commons.Pcb.{
  Pcb, EstadoProceso, new, ready, exec, blocked, exit, codigo_estado,
}
use tp_2024_1c_asado_criollo.Kernel.Colas.{Kernel}
use tp_2024_1c_asado_criollo.Kernel.Colas.Order.{filtrar}

-- The five states: admission, dispatch, preemption, blocking, waking, and the end of a process that
-- runs or that is finished from outside.
infix 50 ◌⟶◌
pub data ◌⟶◌ : EstadoProceso → EstadoProceso → Type 0 where
  admite : new ⟶ ready
  despacha : ready ⟶ exec
  desaloja : exec ⟶ ready
  bloquea : exec ⟶ blocked
  despierta : blocked ⟶ ready
  termina : {e : EstadoProceso} → e ⟶ exit

-- Any number of steps, on the codes that the PCBs hold.
infix 50 ◌⟶*◌
pub data ◌⟶*◌ (c : ℕ) : ℕ → Type 0 where
  quieto : c ⟶* c
  luego : {e f : EstadoProceso} → c ⟶* codigo_estado e → e ⟶ f → c ⟶* codigo_estado f

pub ⟶*-trans : {a b c : ℕ} → a ⟶* b → b ⟶* c → a ⟶* c
⟶*-trans p quieto = p
⟶*-trans p (luego q s) = luego (⟶*-trans p q) s

pub ⟶*-refl : {a b : ℕ} → a ≡ b → a ⟶* b
⟶*-refl e = rw e quieto

abbrev pub un_paso : {a b : EstadoProceso} → a ⟶ b → codigo_estado a ⟶* codigo_estado b
un_paso s = luego quieto s

-- The state of a process by its index; 5, which is no state, behind the list.
unfoldable pub estado_de : List Pcb → ℕ → ℕ
estado_de [] i = 5
estado_de (p ∷ ps) zero = p.estado
estado_de (p ∷ ps) (suc i) = estado_de ps i

pub estado_de-get :
    (ps : List Pcb) (i : ℕ) {p : Pcb} → get_elem? ps i ≡ some p → estado_de ps i ≡ p.estado
unfolding estado_de
estado_de-get [] i e = absurd cc
estado_de-get (q ∷ ps) zero e = cc
estado_de-get (q ∷ ps) (suc i) e = estado_de-get ps i e

pub get-estado_de :
    (ps : List Pcb) (i : ℕ)
    → estado_de ps i ≢ 5
    → (p : Pcb) × (get_elem? ps i ≡ some p) × (p.estado ≡ estado_de ps i)
unfolding estado_de
get-estado_de [] i h = absurd (h refl)
get-estado_de (q ∷ ps) zero h = (q, refl, refl)
get-estado_de (q ∷ ps) (suc i) h = get-estado_de ps i h

pub estado_de-set :
    (ps : List Pcb) (i j : ℕ) (q : Pcb) {p : Pcb}
    → get_elem? ps i ≡ some p
    → estado_de (set ps i q) j ≡ (if i == j then q.estado else estado_de ps j)
unfolding estado_de
estado_de-set [] i j q e = absurd cc
estado_de-set (r ∷ ps) zero zero q e = refl
estado_de-set (r ∷ ps) zero (suc j) q e = ground arith
estado_de-set (r ∷ ps) (suc i) zero q e = ground arith
estado_de-set (r ∷ ps) (suc i) (suc j) q e = ground (arith, estado_de-set ps i j q e)

-- How often a process stands in a queue.
abbrev pub cuenta : ℕ → List ℕ → ℕ
cuenta pid [] = 0
cuenta pid (q ∷ qs) = (if q == pid then 1 else 0) + cuenta pid qs

pub cuenta-append :
    (pid : ℕ) (xs ys : List ℕ) → cuenta pid (xs ++ ys) ≡ cuenta pid xs + cuenta pid ys
cuenta-append pid [] ys = omega arith
cuenta-append pid (x ∷ xs) ys = omega (arith, cuenta-append pid xs ys)

pub cuenta-filtrar :
    (pid j : ℕ) (xs : List ℕ)
    → cuenta j (filtrar (λ q. not (pid == q)) xs) ≡ (if pid == j then 0 else cuenta j xs)
cuenta-filtrar pid j [] = ground arith
cuenta-filtrar pid j (x ∷ xs) = ground (arith, cuenta-filtrar pid j xs)

abbrev pub uno_si : Bool → ℕ
uno_si true = 1
uno_si false = 0

-- A process stands once in the queues of the ready ones when it is READY, and not at all
-- otherwise; it stands once in the queue of the new ones when it is NEW, and may be there when it
-- has exited; the index of a process is its PID.
pub record EnColas (k : Kernel) : Type 0 where
  pub listos :
      (j : ℕ)
      → cuenta j k.queue_ready + cuenta j k.cola_prioridad
        ≡ uno_si (estado_de k.process_list j == codigo_estado ready)
  pub nuevos : (j : ℕ) → estado_de k.process_list j ≡ codigo_estado new → cuenta j k.queue_new ≡ 1
  pub solo_nuevos :
      (j : ℕ)
      → estado_de k.process_list j ≢ codigo_estado new
      → estado_de k.process_list j ≢ codigo_estado exit
      → cuenta j k.queue_new ≡ 0
  pub una_vez : (j : ℕ) → cuenta j k.queue_new ≤ 1
  pub identidad : (j : ℕ) (p : Pcb) → get_elem? k.process_list j ≡ some p → p.pid ≡ j
