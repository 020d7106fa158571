-- ===== src/Kernel/Recursos/Conservation.antt =====
-- The accounts of the resources of the kernel, and WAIT.
use tp_2024_1c_asado_criollo.Prelude.{
  ℕ, ◌+◌, ◌-◌, ◌<◌, ◌≡◌, ◌≢◌, refl, Bool, true, false, not, ◌&&◌, String, eq_text, eq_text_iff,
  List, [], ◌∷◌, ◌++◌, some, ◌==◌, ltb, if◌then◌else◌, arith, ◌∙◌, ◌⊎◌, inl, inr, Bool-cases,
}
use tp_2024_1c_asado_criollo.Kernel.Recursos.{
  Recurso, PeticionRecursos, Recursos, buscar_recurso, guardar_recurso, wait_recurso,
}

-- How many petitions hold an instance of the resource, and how many wait for one.
abbrev pub ocupadas : String → List PeticionRecursos → ℕ
ocupadas n [] = 0
ocupadas n (p ∷ ps) = (if eq_text p.nombre_recurso n && p.ocupada then 1 else 0) + ocupadas n ps

abbrev pub esperan : String → List PeticionRecursos → ℕ
esperan n [] = 0
esperan n (p ∷ ps) = (if eq_text p.nombre_recurso n && not p.ocupada then 1 else 0) + esperan n ps

pub record Cuenta (r : Recurso) (ps : List PeticionRecursos) : Type 0 where
  pub conserva : r.instancias_disponibles + ocupadas r.nombre ps ≡ r.maxinstancias
  pub agotado : 0 < esperan r.nombre ps → r.instancias_disponibles ≡ 0

-- Every resource that can be found is accounted for.
abbrev pub IsConservado : Recursos → Type 0
IsConservado s =
    (n : String) (r : Recurso) → buscar_recurso n s.recursos ≡ some r → Cuenta r s.peticiones

pub buscar_recurso-nombre :
    (n : String) (rs : List Recurso) {r : Recurso} → buscar_recurso n rs ≡ some r → r.nombre ≡ n
unfolding buscar_recurso
buscar_recurso-nombre n [] e = cc
buscar_recurso-nombre n (x ∷ rs) {r} e =
    ground (arith, eq_text_iff x.nombre n, buscar_recurso-nombre n rs {r = r})

-- What is found after a write to the resource named `n`.
buscar-guardar_recurso :
    (n m : String) (q : Recurso) (rs : List Recurso) {r : Recurso}
    → q.nombre ≡ n
    → buscar_recurso m (guardar_recurso n q rs) ≡ some r
    → ((n ≡ m) × (r ≡ q)) ⊎ ((n ≢ m) × (buscar_recurso m rs ≡ some r))
unfolding buscar_recurso guardar_recurso
buscar-guardar_recurso n m q [] e h = cc
buscar-guardar_recurso n m q (x ∷ rs) {r} e h = ground (
  arith,
  eq_text_iff x.nombre n,
  eq_text_iff x.nombre m,
  eq_text_iff q.nombre m,
  buscar-guardar_recurso n m q rs {r = r} e,
)

ocupadas-append :
    (n : String) (ps qs : List PeticionRecursos)
    → ocupadas n (ps ++ qs) ≡ ocupadas n ps + ocupadas n qs
ocupadas-append n [] qs = omega arith
ocupadas-append n (p ∷ ps) qs = omega (arith, ocupadas-append n ps qs)

esperan-append :
    (n : String) (ps qs : List PeticionRecursos)
    → esperan n (ps ++ qs) ≡ esperan n ps + esperan n qs
esperan-append n [] qs = omega arith
esperan-append n (p ∷ ps) qs = omega (arith, esperan-append n ps qs)

-- A write to one resource and to the petitions that keeps that resource's account and does not
-- touch the counts of the others.
pub IsConservado-guardar :
    (s : Recursos) (n : String) (q : Recurso) (ps : List PeticionRecursos)
    → IsConservado s
    → q.nombre ≡ n
    → Cuenta q ps
    → ((m : String)
        → n ≢ m
        → (ocupadas m ps ≡ ocupadas m s.peticiones) × (esperan m ps ≡ esperan m s.peticiones))
    → IsConservado (record { recursos = guardar_recurso n q s.recursos; peticiones = ps })
IsConservado-guardar s n q ps h e c k = λ m x f.
    elim (buscar-guardar_recurso n m q s.recursos {r = x} e f) [
      | inl (a, b) ↦ rw b c
      | inr (a, b) ↦
          let z = h m x b in
          let nm = buscar_recurso-nombre m s.recursos b in
          let i = k x.nombre (λ t. a (t ∙ nm)) in
          record { conserva = rw i.0 z.conserva; agotado = rw i.1 z.agotado }
    ]

-- The account of the resource that is waited for.
Cuenta-wait :
    (r : Recurso) (ps : List PeticionRecursos) (pid : ℕ)
    → Cuenta r ps
    → let hay = ltb 0 r.instancias_disponibles in
      Cuenta
        (if hay then record r { instancias_disponibles = r.instancias_disponibles - 1 } else r)
        (ps ++ (record { pid = pid; nombre_recurso = r.nombre; ocupada = hay } ∷ []))
Cuenta-wait r ps pid c = elim (Bool-cases (ltb 0 r.instancias_disponibles)) [
  | inl e ↦ rw e (record {
    conserva = ground (
      arith,
      e,
      c.conserva,
      eq_text_iff r.nombre r.nombre,
      ocupadas-append r.nombre ps
          (record { pid = pid; nombre_recurso = r.nombre; ocupada = true } ∷ []),
    );
    agotado = ground (
      arith,
      e,
      c.agotado,
      eq_text_iff r.nombre r.nombre,
      esperan-append r.nombre ps
          (record { pid = pid; nombre_recurso = r.nombre; ocupada = true } ∷ []),
    );
  })
  | inr e ↦ rw e (record {
    conserva = ground (
      arith,
      e,
      c.conserva,
      eq_text_iff r.nombre r.nombre,
      ocupadas-append r.nombre ps
          (record { pid = pid; nombre_recurso = r.nombre; ocupada = false } ∷ []),
    );
    agotado = ground (arith, e);
  })
]

otros-wait :
    (n m : String) (ps : List PeticionRecursos) (p : PeticionRecursos)
    → p.nombre_recurso ≡ n
    → n ≢ m
    → (ocupadas m (ps ++ (p ∷ [])) ≡ ocupadas m ps) × (esperan m (ps ++ (p ∷ [])) ≡ esperan m ps)
otros-wait n m ps p e h = ground (
  arith,
  eq_text_iff p.nombre_recurso m,
  ocupadas-append m ps (p ∷ []),
  esperan-append m ps (p ∷ []),
)

if-nombre :
    (b : Bool) (r : Recurso) (k : ℕ)
    → (if b then record r { instancias_disponibles = k } else r).nombre ≡ r.nombre
if-nombre true r k = refl
if-nombre false r k = refl

-- With every resource accounted for, WAIT on a resource that exists returns, blocks the process
-- exactly when no instance is free, and keeps every resource accounted for.
pub wait_recurso-IsConservado :
    (s : Recursos) (n : String) (pid : ℕ) {r : Recurso}
    → IsConservado s
    → buscar_recurso n s.recursos ≡ some r
    → (b : Bool) × (s' : Recursos) × (wait_recurso s n pid ≡ some (b, s'))
      × (b ≡ (r.instancias_disponibles == 0))
      × IsConservado s'
unfolding wait_recurso
wait_recurso-IsConservado s n pid {r} h e =
    let hay = ltb 0 r.instancias_disponibles in
    let q = if hay then record r { instancias_disponibles = r.instancias_disponibles - 1 } else r in
    let p : PeticionRecursos = record { pid = pid; nombre_recurso = r.nombre; ocupada = hay } in
    let nm = buscar_recurso-nombre n s.recursos e in
    (
      not hay,
      record { recursos = guardar_recurso n q s.recursos; peticiones = s.peticiones ++ (p ∷ []) },
      rw e refl,
      ground arith,
      IsConservado-guardar s n q _ h (if-nombre hay r (r.instancias_disponibles - 1) ∙ nm)
          (Cuenta-wait r s.peticiones pid (h n r e)) (λ m ne. otros-wait n m s.peticiones p nm ne),
    )
