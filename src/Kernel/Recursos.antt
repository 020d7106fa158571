-- ===== src/Kernel/Recursos.antt =====
-- WaitRecurso, SignalRecurso and OcuparRecurso of kernel/src/main.c. They run one at a time, under
-- mutex_recursos. `none` is the dereference of a resource that list_find did not find.
pub mod Conservation
pub mod Release
use tp_2024_1c_asado_criollo.Prelude.{
  ℕ, zero, suc, ◌+◌, ◌-◌, ◌<◌, Bool, true, false, not, ◌&&◌, String, eq_text, List, [], ◌∷◌, ◌++◌,
  Option, none, some, ◌==◌, ltb, if◌then◌else◌, ◌>>=◌,
}

pub record Recurso : Type 0 where
  pub nombre : String
  pub maxinstancias : ℕ
  pub instancias_disponibles : ℕ

pub record PeticionRecursos : Type 0 where
  pub pid : ℕ
  pub nombre_recurso : String
  pub ocupada : Bool

pub record Recursos : Type 0 where
  pub recursos : List Recurso
  pub peticiones : List PeticionRecursos

-- InicializarRecursos: the names and the numbers of instances of the configuration.
unfoldable pub crear_recursos : List (String × ℕ) → List Recurso
crear_recursos [] = []
crear_recursos ((s, n) ∷ xs) =
    record { nombre = s; maxinstancias = n; instancias_disponibles = n } ∷ crear_recursos xs

unfoldable pub inicializar_recursos : List (String × ℕ) → Recursos
inicializar_recursos xs = record { recursos = crear_recursos xs; peticiones = [] }

-- list_find(recursos, isCurrRecurso).
unfoldable pub buscar_recurso : String → List Recurso → Option Recurso
buscar_recurso n [] = none
buscar_recurso n (r ∷ rs) = if eq_text r.nombre n then some r else buscar_recurso n rs

-- A write through the pointer that list_find gave.
unfoldable pub guardar_recurso : String → Recurso → List Recurso → List Recurso
guardar_recurso n q [] = []
guardar_recurso n q (r ∷ rs) = if eq_text r.nombre n then q ∷ rs else r ∷ guardar_recurso n q rs

unfoldable pub validar_recurso : Recursos → String → Bool
validar_recurso s n = elim (buscar_recurso n s.recursos) [ none ↦ false | some r ↦ true ]

-- The result says whether the process is to be blocked.
unfoldable pub wait_recurso : Recursos → String → ℕ → Option (Bool × Recursos)
unfolding buscar_recurso guardar_recurso
wait_recurso s n pid = do
  r ← buscar_recurso n s.recursos
  let hay = ltb 0 r.instancias_disponibles
  let q = if hay then record r { instancias_disponibles = r.instancias_disponibles - 1 } else r
  let p : PeticionRecursos = record { pid = pid; nombre_recurso = r.nombre; ocupada = hay }
  some (
    not hay,
    record { recursos = guardar_recurso n q s.recursos; peticiones = s.peticiones ++ (p ∷ []) },
  )

-- list_remove_by_condition(peticiones_recursos, isCurrPeticion): the first one only.
unfoldable pub quitar_peticion : String → ℕ → List PeticionRecursos → List PeticionRecursos
quitar_peticion n pid [] = []
quitar_peticion n pid (p ∷ ps) =
    if eq_text p.nombre_recurso n && p.pid == pid then ps else p ∷ quitar_peticion n pid ps

-- The loop of OcuparRecurso over the petitions: the first one that waits for the resource gets
-- it; its process is the one to wake.
unfoldable pub ocupar_peticion : String → List PeticionRecursos → Option ℕ × List PeticionRecursos
ocupar_peticion n [] = (none, [])
ocupar_peticion n (p ∷ ps) =
    if eq_text p.nombre_recurso n && not p.ocupada
    then (some p.pid, record p { ocupada = true } ∷ ps)
    else (let (o, qs) = ocupar_peticion n ps in (o, p ∷ qs))

unfoldable pub ocupar_recurso :
    Recurso → List PeticionRecursos → Option ℕ × Recurso × List PeticionRecursos
unfolding ocupar_peticion
ocupar_recurso r ps =
    let (o, qs) = ocupar_peticion r.nombre ps in
    elim o [
      | none ↦ (none, r, qs)
      | some pid ↦
          (some pid, record r { instancias_disponibles = r.instancias_disponibles - 1 }, qs)
    ]

-- The result says which process, if any, is sent to ready.
unfoldable pub signal_recurso : Recursos → String → ℕ → Option (Option ℕ × Recursos)
unfolding buscar_recurso guardar_recurso quitar_peticion ocupar_recurso
signal_recurso s n pid = do
  r ← buscar_recurso n s.recursos
  let r₁ = record r { instancias_disponibles = r.instancias_disponibles + 1 }
  let ps = quitar_peticion n pid s.peticiones
  let (o, r₂, qs) = if ltb 0 r₁.instancias_disponibles then ocupar_recurso r₁ ps else (none, r₁, ps)
  some (o, record { recursos = guardar_recurso n r₂ s.recursos; peticiones = qs })
