-- ===== src/Kernel/Recursos/Release.antt =====
-- SIGNAL and the accounts of the resources.
use tp_2024_1c_asado_criollo.Prelude.{
  ℕ, ◌+◌, ◌<◌, ◌≡◌, ◌≢◌, refl, Bool, true, false, not, ◌&&◌, String, eq_text, eq_text_iff, List, [],
  ◌∷◌, Option, none, some, ◌==◌, ltb, if◌then◌else◌, arith, sym, ap, ◌∙◌, inl, inr, Bool-cases,
  Option-cases,
}
use tp_2024_1c_asado_criollo.Kernel.Recursos.{
  Recurso, PeticionRecursos, Recursos, buscar_recurso, guardar_recurso, quitar_peticion,
  ocupar_peticion, ocupar_recurso, signal_recurso,
}
use tp_2024_1c_asado_criollo.Kernel.Recursos.Conservation.{
  ocupadas, esperan, Cuenta, IsConservado, IsConservado-guardar, buscar_recurso-nombre,
}

-- Whether the first petition of the process for the resource holds an instance.
abbrev pub tiene : String → ℕ → List PeticionRecursos → Bool
tiene n pid [] = false
tiene n pid (p ∷ ps) =
    if eq_text p.nombre_recurso n && p.pid == pid then p.ocupada else tiene n pid ps

-- The process that the resource goes on to: the first one of the list that waits for it.
abbrev pub primero_que_espera : String → List PeticionRecursos → Option ℕ
primero_que_espera n [] = none
primero_que_espera n (p ∷ ps) =
    if eq_text p.nombre_recurso n && not p.ocupada then some p.pid else primero_que_espera n ps

quitar_peticion-tiene :
    (n : String) (pid : ℕ) (ps : List PeticionRecursos)
    → tiene n pid ps ≡ true
    → (ocupadas n (quitar_peticion n pid ps) + 1 ≡ ocupadas n ps)
      × (esperan n (quitar_peticion n pid ps) ≡ esperan n ps)
      × (primero_que_espera n (quitar_peticion n pid ps) ≡ primero_que_espera n ps)
unfolding quitar_peticion
quitar_peticion-tiene n pid [] h = cc
quitar_peticion-tiene n pid (p ∷ ps) h =
    ground (arith, eq_text_iff p.nombre_recurso n, quitar_peticion-tiene n pid ps)

quitar_peticion-otros :
    (n m : String) (pid : ℕ) (ps : List PeticionRecursos)
    → n ≢ m
    → (ocupadas m (quitar_peticion n pid ps) ≡ ocupadas m ps)
      × (esperan m (quitar_peticion n pid ps) ≡ esperan m ps)
unfolding quitar_peticion
quitar_peticion-otros n m pid [] h = (refl, refl)
quitar_peticion-otros n m pid (p ∷ ps) h = ground (
  arith,
  eq_text_iff p.nombre_recurso n,
  eq_text_iff p.nombre_recurso m,
  quitar_peticion-otros n m pid ps h,
)

abbrev uno_si_hay : Option ℕ → ℕ
uno_si_hay none = 0
uno_si_hay (some pid) = 1

-- What the loop of OcuparRecurso does to the counts.
record Ocupado (n : String) (ps qs : List PeticionRecursos) (o : Option ℕ) : Type 0 where
  primero : o ≡ primero_que_espera n ps
  ocupa : ocupadas n qs ≡ ocupadas n ps + uno_si_hay o
  espera : esperan n qs + uno_si_hay o ≡ esperan n ps
  nadie : o ≡ none → esperan n ps ≡ 0
  ajenas : (m : String) → n ≢ m → (ocupadas m qs ≡ ocupadas m ps) × (esperan m qs ≡ esperan m ps)

ocupar_peticion-Ocupado :
    (n : String) (ps : List PeticionRecursos)
    → Ocupado n ps (ocupar_peticion n ps).1 (ocupar_peticion n ps).0
unfolding ocupar_peticion
ocupar_peticion-Ocupado n [] = record {
  primero = refl;
  ocupa = refl;
  espera = refl;
  nadie = λ e. refl;
  ajenas = λ m h. (refl, refl);
}
ocupar_peticion-Ocupado n (p ∷ ps) =
    let z = ocupar_peticion-Ocupado n ps in
    elim (Bool-cases (eq_text p.nombre_recurso n && not p.ocupada)) [
      | inl e ↦ rw e (record {
        primero = rw e refl;
        ocupa = ground (arith, e);
        espera = ground (arith, e);
        nadie = λ i. cc;
        ajenas = λ m h.
            ground (arith, e, eq_text_iff p.nombre_recurso n, eq_text_iff p.nombre_recurso m);
      })
      | inr e ↦ rw e (record {
        primero = rw e z.primero;
        ocupa = omega (arith, z.ocupa);
        espera = omega (arith, z.espera);
        nadie = λ i. ground (arith, e, z.nadie i);
        ajenas = λ m h. omega (arith, z.ajenas m h);
      })
    ]

-- OcuparRecurso after an instance has come free.
Cuenta-ocupar_recurso :
    (r : Recurso) (ps : List PeticionRecursos)
    → r.instancias_disponibles + ocupadas r.nombre ps + 1 ≡ r.maxinstancias
    → (0 < esperan r.nombre ps → r.instancias_disponibles ≡ 0)
    → let (o, q, qs) =
        ocupar_recurso (record r { instancias_disponibles = r.instancias_disponibles + 1 }) ps in
      (q.nombre ≡ r.nombre)
      × Cuenta q qs
      × (o ≡ primero_que_espera r.nombre ps)
      × ((m : String)
          → r.nombre ≢ m
          → (ocupadas m qs ≡ ocupadas m ps) × (esperan m qs ≡ esperan m ps))
unfolding ocupar_recurso
Cuenta-ocupar_recurso r ps c a =
    let z = ocupar_peticion-Ocupado r.nombre ps in
    elim (Option-cases (ocupar_peticion r.nombre ps).0) [
      | inl e ↦
          rw (e, ocupar_recurso)
            (
              refl,
              record {
                conserva = omega (arith, c, rw e at z.ocupa);
                agotado = λ i. absurd (omega (arith, i, rw e at z.espera, z.nadie e));
              },
              sym e ∙ z.primero,
              z.ajenas,
            )
      | inr (pid, e) ↦
          rw (e, ocupar_recurso)
            (
              refl,
              record {
                conserva = omega (arith, c, rw e at z.ocupa);
                agotado = λ i. omega (arith, i, rw e at z.espera, a);
              },
              sym e ∙ z.primero,
              z.ajenas,
            )
    ]

-- With every resource accounted for, SIGNAL by a process whose first petition for an existing
-- resource holds an instance returns, wakes the first process that waits for the resource, if there
-- is one, and keeps every resource accounted for: free and held instances add up to the maximum,
-- and none is free while a process waits.
pub signal_recurso-IsConservado :
    (s : Recursos) (n : String) (pid : ℕ) {r : Recurso}
    → IsConservado s
    → buscar_recurso n s.recursos ≡ some r
    → tiene n pid s.peticiones ≡ true
    → (o : Option ℕ) × (s' : Recursos) × (signal_recurso s n pid ≡ some (o, s'))
      × (o ≡ primero_que_espera n s.peticiones)
      × IsConservado s'
unfolding signal_recurso
signal_recurso-IsConservado s n pid {r} h e t =
    let nm = buscar_recurso-nombre n s.recursos e in
    let ps = quitar_peticion n pid s.peticiones in
    let q = quitar_peticion-tiene n pid s.peticiones t in
    let c = h n r e in
    let z =
      Cuenta-ocupar_recurso r ps (rw nm (omega (arith, q.0, rw nm at c.conserva)))
        (λ i. c.agotado (rw nm (omega (arith, q.1, rw nm at i)))) in
    let w =
      ocupar_recurso (record r { instancias_disponibles = r.instancias_disponibles + 1 }) ps in
    let mas : ltb 0 (r.instancias_disponibles + 1) ≡ true = ground arith in
    (
      w.0,
      record { recursos = guardar_recurso n w.1 s.recursos; peticiones = w.2 },
      rw (e, mas) refl,
      z.2 ∙ ap (λ k. primero_que_espera k ps) nm ∙ q.2,
      IsConservado-guardar s n w.1 w.2 h (z.0 ∙ nm) z.1 (λ m ne.
          let i = quitar_peticion-otros n m pid s.peticiones ne in
          let j = z.3 m (λ k. ne (sym nm ∙ k)) in (j.0 ∙ i.0, j.1 ∙ i.1)),
    )
