-- ===== src/Kernel/Planificador/Esperas.antt =====
-- The petitions of kernel/src/main.c that wait, process by process, and SIGNAL.
use tp_2024_1c_asado_criollo.Prelude.{
  ℕ, ◌+◌, ◌≤◌, ◌≡◌, refl, Bool, true, false, not, ◌&&◌, String, eq_text, eq_text_iff, List, [], ◌∷◌,
  ◌++◌, Option, none, some, ◌==◌, ltb, if◌then◌else◌, arith, ap, ◌∙◌, inl, inr, Bool-cases,
  Option-cases,
}
use tp_2024_1c_asado_criollo.Kernel.Recursos.{
  Recurso, PeticionRecursos, Recursos, buscar_recurso, guardar_recurso, quitar_peticion,
  ocupar_peticion, ocupar_recurso, signal_recurso,
}
use tp_2024_1c_asado_criollo.Kernel.Recursos.Conservation.{buscar_recurso-nombre}

-- How many petitions of the process wait.
abbrev pub esperas : ℕ → List PeticionRecursos → ℕ
esperas j [] = 0
esperas j (p ∷ ps) = (if p.pid == j && not p.ocupada then 1 else 0) + esperas j ps

-- Whether list_find finds the resource, and whether it does so for every petition.
abbrev pub hay : String → List Recurso → Bool
hay n [] = false
hay n (r ∷ rs) = if eq_text r.nombre n then true else hay n rs

abbrev pub conocidas : List Recurso → List PeticionRecursos → Bool
conocidas rs [] = true
conocidas rs (p ∷ ps) = hay p.nombre_recurso rs && conocidas rs ps

pub hay-buscar :
    (n : String) (rs : List Recurso)
    → hay n rs ≡ true
    → (r : Recurso) × (buscar_recurso n rs ≡ some r)
unfolding buscar_recurso
hay-buscar n [] h = absurd cc
hay-buscar n (r ∷ rs) h = elim (Bool-cases (eq_text r.nombre n)) [
  | inl e ↦ (r, rw e refl)
  | inr e ↦ let (q, f) = hay-buscar n rs (rw e at h) in (q, rw e f)
]

pub hay-guardar :
    (n m : String) (q : Recurso) (rs : List Recurso)
    → q.nombre ≡ n
    → hay m (guardar_recurso n q rs) ≡ hay m rs
unfolding guardar_recurso
hay-guardar n m q [] e = refl
hay-guardar n m q (r ∷ rs) e = ground (arith, e, eq_text_iff r.nombre n, hay-guardar n m q rs e)

pub conocidas_ext :
    (rs rs' : List Recurso) (ps : List PeticionRecursos)
    → ((m : String) → hay m rs' ≡ hay m rs)
    → conocidas rs' ps ≡ conocidas rs ps
conocidas_ext rs rs' [] h = refl
conocidas_ext rs rs' (p ∷ ps) h = rw (h p.nombre_recurso, conocidas_ext rs rs' ps h) refl

pub esperas-append :
    (j : ℕ) (ps qs : List PeticionRecursos) → esperas j (ps ++ qs) ≡ esperas j ps + esperas j qs
esperas-append j [] qs = omega arith
esperas-append j (p ∷ ps) qs = omega (arith, esperas-append j ps qs)

pub conocidas-append :
    (rs : List Recurso) (ps qs : List PeticionRecursos)
    → conocidas rs (ps ++ qs) ≡ conocidas rs ps && conocidas rs qs
conocidas-append rs [] qs = refl
conocidas-append rs (p ∷ ps) qs = ground (arith, conocidas-append rs ps qs)

quitar_peticion-esperas :
    (n : String) (pid j : ℕ) (rs : List Recurso) (ps : List PeticionRecursos)
    → (esperas j (quitar_peticion n pid ps) ≤ esperas j ps)
      × (conocidas rs ps ≡ true → conocidas rs (quitar_peticion n pid ps) ≡ true)
unfolding quitar_peticion
quitar_peticion-esperas n pid j rs [] = (omega arith, λ h. h)
quitar_peticion-esperas n pid j rs (p ∷ ps) = ground (arith, quitar_peticion-esperas n pid j rs ps)

-- The woken process counts once.
abbrev pub es_ese : Option ℕ → ℕ → ℕ
es_ese none j = 0
es_ese (some pid) j = if pid == j then 1 else 0

ocupar_peticion-esperas :
    (n : String) (j : ℕ) (rs : List Recurso) (ps : List PeticionRecursos)
    → (esperas j (ocupar_peticion n ps).1 + es_ese (ocupar_peticion n ps).0 j ≡ esperas j ps)
      × (conocidas rs (ocupar_peticion n ps).1 ≡ conocidas rs ps)
unfolding ocupar_peticion
ocupar_peticion-esperas n j rs [] = (refl, refl)
ocupar_peticion-esperas n j rs (p ∷ ps) =
    let z = ocupar_peticion-esperas n j rs ps in
    elim (Bool-cases (eq_text p.nombre_recurso n && not p.ocupada)) [
      | inl e ↦ rw e (ground (arith, e))
      | inr e ↦ rw e (omega (arith, z.0), rw z.1 refl)
    ]

-- What SIGNAL does to the petitions that wait and to the names.
pub record Soltado (s s' : Recursos) (o : Option ℕ) : Type 0 where
  pub nombres : (m : String) → hay m s'.recursos ≡ hay m s.recursos
  pub conocen :
      conocidas s.recursos s.peticiones ≡ true → conocidas s'.recursos s'.peticiones ≡ true
  pub esperan : (j : ℕ) → esperas j s'.peticiones + es_ese o j ≤ esperas j s.peticiones

ocupar_recurso-nombre :
    (r : Recurso) (ps : List PeticionRecursos)
    → ((ocupar_recurso r ps).1.nombre ≡ r.nombre)
      × ((ocupar_recurso r ps).0 ≡ (ocupar_peticion r.nombre ps).0)
      × ((ocupar_recurso r ps).2 ≡ (ocupar_peticion r.nombre ps).1)
unfolding ocupar_recurso
ocupar_recurso-nombre r ps = elim (Option-cases (ocupar_peticion r.nombre ps).0) [
  | inl e ↦ rw (e, ocupar_recurso) (refl, refl, refl)
  | inr (pid, e) ↦ rw (e, ocupar_recurso) (refl, refl, refl)
]

-- SIGNAL on a resource that exists returns.
pub signal_recurso-Soltado :
    (s : Recursos) (n : String) (pid : ℕ)
    → hay n s.recursos ≡ true
    → (o : Option ℕ) × (s' : Recursos) × (signal_recurso s n pid ≡ some (o, s')) × Soltado s s' o
unfolding signal_recurso
signal_recurso-Soltado s n pid h =
    let (r, e) = hay-buscar n s.recursos h in
    let ps = quitar_peticion n pid s.peticiones in
    let r₁ : Recurso = record r { instancias_disponibles = r.instancias_disponibles + 1 } in
    let w = ocupar_recurso r₁ ps in
    let z = ocupar_recurso-nombre r₁ ps in
    let mas : ltb 0 (r.instancias_disponibles + 1) ≡ true = ground arith in
    let nombres : (m : String) → hay m (guardar_recurso n w.1 s.recursos) ≡ hay m s.recursos =
      λ m. hay-guardar n m w.1 s.recursos (z.0 ∙ buscar_recurso-nombre n s.recursos e) in
    (
      w.0,
      record { recursos = guardar_recurso n w.1 s.recursos; peticiones = w.2 },
      rw (e, mas) refl,
      record {
        nombres = nombres;
        conocen = λ c.
            conocidas_ext s.recursos (guardar_recurso n w.1 s.recursos) w.2 nombres
            ∙ ap (conocidas s.recursos) z.2
            ∙ (ocupar_peticion-esperas r.nombre 0 s.recursos ps).1
            ∙ (quitar_peticion-esperas n pid 0 s.recursos s.peticiones).1 c;
        esperan = λ j.
            rw (z.1, z.2)
              (omega (
                arith,
                (ocupar_peticion-esperas r.nombre j s.recursos ps).0,
                (quitar_peticion-esperas n pid j s.recursos s.peticiones).0,
              ));
      },
    )
