-- ===== src/Memoria/Server/Run.antt =====
-- The invariant along any sequence of requests.
use tp_2024_1c_asado_criollo.Prelude.{
  ℕ, ◌+◌, ◌-◌, ◌≡◌, refl, List, [], ◌∷◌, Bool, true, false, Option, some, none, leb, if◌then◌else◌,
  ◌>>=◌, guard, length, take, drop, get_elem?, inl, inr, Option-cases, subst, int_of_u32, ℤ-cases,
}
use tp_2024_1c_asado_criollo.Memoria.Frames.{cant_paginas_nuevo, resize_proceso, cambiar_paginas}
use tp_2024_1c_asado_criollo.Memoria.State.{
  Memoria, buscar_proceso, inicializar_memoria, filtrar_pid, direccion_frame,
}
use tp_2024_1c_asado_criollo.Memoria.Access.{
  escribir_bytes, buscar_pagina, en_memoria, tramo, escribir_resto, escribir,
}
use tp_2024_1c_asado_criollo.Memoria.Access.Pages.{con_bytes}
use tp_2024_1c_asado_criollo.Memoria.Server.{
  Peticion, recibir_proceso, solicitar_instruccion, pedir_resize, eliminar_proceso,
  solicitar_direccion_fisica, solicitar_tamanio_pagina, pedir_escribir, pedir_leer, desconocida,
  Respuesta, resize, eliminar, instruccion_de, direccion_de, atender, servir,
}
use tp_2024_1c_asado_criollo.Memoria.Access.{leer}
use tp_2024_1c_asado_criollo.Memoria.Server.Invariant.{IsValid, inicializar_memoria-IsValid}
use tp_2024_1c_asado_criollo.Memoria.Server.Preserve.{
  agregar_proceso-IsValid, resize_lem, eliminar_lem,
}

-- A property of the result, if there is one.
abbrev pub Luego {ℓ κ} : {A : Type ℓ} → Option A → (A → Type κ) → Type κ
Luego none P = Unit
Luego (some a) P = P a

Luego-bind {ℓ κ μ} :
    {A : Type ℓ} {B : Type κ} (o : Option A) (f : A → Option B) (P : B → Type μ)
    → ((a : A) → o ≡ some a → Luego (f a) P)
    → Luego (o >>= f) P
Luego-bind none f P h = tt
Luego-bind (some a) f P h = h a refl

Luego-if {ℓ κ} :
    {A : Type ℓ} (b : Bool) (x y : Option A) (P : A → Type κ)
    → Luego x P
    → Luego y P
    → Luego (if b then x else y) P
Luego-if true x y P h k = h
Luego-if false x y P h k = k

pub Luego_of {ℓ κ} :
    {A : Type ℓ} (P : A → Type κ) (o : Option A) {a : A} → o ≡ some a → Luego o P → P a
Luego_of P o e h = subst (λ z. Luego z P) e h

con_bytes-IsValid : {m : Memoria} (c : ℕ → ℕ) → IsValid m → IsValid (con_bytes m c)
con_bytes-IsValid c v = record { exacto = v.exacto; cuentas = v.cuentas; lugares = v.lugares }

escribir_resto-IsValid :
    (m : Memoria) (ps v : List ℕ) → IsValid m → Luego (escribir_resto m ps v) IsValid
unfolding escribir_resto
escribir_resto-IsValid m [] [] h = h
escribir_resto-IsValid m (p ∷ ps) [] h = h
escribir_resto-IsValid m [] (v ∷ vs) h = tt
escribir_resto-IsValid m (p ∷ ps) (v ∷ vs) h = Luego-bind (direccion_frame m.frames p) _ _ λ pie _.
    let k = tramo m (length (v ∷ vs)) in
    Luego-bind (guard (en_memoria m pie k)) _ _ λ _ _.
      escribir_resto-IsValid (con_bytes m (escribir_bytes m.bytes pie (take k (v ∷ vs)))) ps
        (drop k (v ∷ vs)) (con_bytes-IsValid _ h)

escribir-IsValid :
    (m : Memoria) (a : ℕ) (v : List ℕ) (pid : ℕ) → IsValid m → Luego (escribir m a v pid) IsValid
unfolding escribir
escribir-IsValid m a v pid h = Luego-bind (filtrar_pid pid m.procesos) _ _ λ ps _.
    Luego-bind (buscar_pagina m ps a) _ _ λ i _. Luego-bind (get_elem? ps i) _ _ λ n _.
      Luego-bind (direccion_frame m.frames n) _ _ λ pie _.
        Luego-if (leb (length v) (m.tamanio_pagina - (a - pie))) _ _ _
          (Luego-bind (guard (en_memoria m a (length v))) _ _ λ _ _. con_bytes-IsValid _ h)
          (Luego-bind (guard (en_memoria m a (m.tamanio_pagina - (a - pie)))) _ _
            λ _ _. escribir_resto-IsValid _ (drop (i + 1) ps) _ (con_bytes-IsValid _ h))

resize-IsValid :
    (m : Memoria) (pid bytes : ℕ) → IsValid m → Luego (resize m pid bytes) (λ r. IsValid r.1)
resize-IsValid m pid bytes h = elim (Option-cases (buscar_proceso pid m.procesos)) [
  | inl e ↦ unfold resize in rw e tt
  | inr (p, e) ↦ elim (ℤ-cases (cant_paginas_nuevo (int_of_u32 bytes) m.tamanio_pagina)) [
    | inl (n, f) ↦ let z = resize_lem m pid bytes h f e in rw z.3 z.4
    | inr (n, f) ↦ unfold resize resize_proceso cambiar_paginas in rw (e, f) tt
  ]
]

eliminar-IsValid : (m : Memoria) (pid : ℕ) → IsValid m → Luego (eliminar m pid) IsValid
eliminar-IsValid m pid h = elim (Option-cases (buscar_proceso pid m.procesos)) [
  | inl e ↦ unfold eliminar in rw e tt
  | inr (p, e) ↦ let z = eliminar_lem m pid h e in rw z.1 z.2
]

atender-IsValid : (m : Memoria) (r : Peticion) → IsValid m → Luego (atender m r) (λ z. IsValid z.1)
unfolding atender
atender-IsValid m (recibir_proceso pcb programa) h = agregar_proceso-IsValid m pcb programa h
atender-IsValid m (solicitar_instruccion pid pc) h =
    Luego-bind (instruccion_de m pid pc) _ _ λ _ _. h
atender-IsValid m (pedir_resize pid bytes) h =
    Luego-bind (resize m pid bytes) _ _
      λ r e. Luego_of (λ z. IsValid z.1) _ e (resize-IsValid m pid bytes h)
atender-IsValid m (eliminar_proceso pid) h =
    Luego-bind (eliminar m pid) _ _ λ r e. Luego_of IsValid _ e (eliminar-IsValid m pid h)
atender-IsValid m (solicitar_direccion_fisica pid pagina) h =
    Luego-bind (direccion_de m pid pagina) _ _ λ _ _. h
atender-IsValid m solicitar_tamanio_pagina h = h
atender-IsValid m (pedir_escribir pid a v) h =
    Luego-bind (escribir m a v pid) _ _ λ r e. Luego_of IsValid _ e (escribir-IsValid m a v pid h)
atender-IsValid m (pedir_leer pid a n) h = Luego-bind (leer m a n pid) _ _ λ _ _. h
atender-IsValid m desconocida h = h

pub servir-IsValid :
    (m : Memoria) (rs : List Peticion) → IsValid m → Luego (servir m rs) (λ z. IsValid z.1)
unfolding servir
servir-IsValid m [] h = h
servir-IsValid m (r ∷ rs) h = Luego-bind (atender m r) _ _ λ a e.
    let h' = Luego_of (λ z. IsValid z.1) _ e (atender-IsValid m r h) in
    Luego-bind (servir a.1 rs) _ _ λ b f. Luego_of (λ z. IsValid z.1) _ f (servir-IsValid a.1 rs h')

-- From InicializarMemoria on, after any sequence of requests that the server answers, every page of
-- every process has a taken frame of its own, no other frame is taken, every cantPaginas is the
-- length of its page table, and the frames stand where they were created.
pub servir_inicial-IsValid :
    (base : ℕ) (c : ℕ → ℕ) (tm tp : ℕ) (rs : List Peticion) {as' : List Respuesta} {m : Memoria}
    → servir (inicializar_memoria base c tm tp) rs ≡ some (as', m)
    → IsValid m
servir_inicial-IsValid base c tm tp rs e =
    Luego_of (λ z. IsValid z.1) _ e (servir-IsValid _ rs (inicializar_memoria-IsValid base c tm tp))
