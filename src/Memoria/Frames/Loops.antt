-- ===== src/Memoria/Frames/Loops.antt =====
-- The two loops of ResizeProceso.
use tp_2024_1c_asado_criollo.Prelude.{
  ℕ, zero, suc, ◌+◌, ◌≤◌, ◌<◌, ◌≡◌, refl, sym, ap, ◌∙◌, Bool, true, false, List, [], ◌∷◌, ◌++◌,
  Option, none, some, arith, length, get_elem?, take, take_all, append_assoc, append-nil, inl, inr,
  ◌⊎◌,
}
use tp_2024_1c_asado_criollo.Memoria.Frames.{
  Frame, Proceso, ocupar_siguiente_frame, ampliar, list_remove, quitar_paginas,
}
use tp_2024_1c_asado_criollo.Memoria.Frames.Occupancy.{
  ocup, libres, veces, direcciones, OcupaO, ocupar_desde-OcupaO, Ocupa, Libera,
  liberar_frame-Libera,
}

pub veces-append : (j : ℕ) (xs ys : List ℕ) → veces j (xs ++ ys) ≡ veces j xs + veces j ys
veces-append j [] ys = omega arith
veces-append j (x ∷ xs) ys = omega (arith, veces-append j xs ys)

-- What the growing loop has done: the pages `nuevas`, on frames that were free, stand behind the
-- old ones. With the flag raised no frame is left; without it all `k` pages are there.
pub record Amplia (k : ℕ) (p : Proceso) (fs : List Frame) (falta : Bool) (p' : Proceso)
    (fs' : List Frame) : Type 0 where
  pub nuevas : List ℕ
  pub paginas : p'.paginas ≡ p.paginas ++ nuevas
  pub cant : p'.cant_paginas ≡ p.cant_paginas + length nuevas
  pub pcb : p'.pcb ≡ p.pcb
  pub instrucciones : p'.instrucciones ≡ p.instrucciones
  pub ocupadas : (j : ℕ) → ocup j fs' ≡ ocup j fs + veces j nuevas
  pub quedan : libres fs' + length nuevas ≡ libres fs
  pub mismas : direcciones fs' ≡ direcciones fs
  pub fin :
      ((falta ≡ true) × (libres fs' ≡ 0) × (length nuevas < k))
      ⊎ ((falta ≡ false) × (length nuevas ≡ k))

Amplia-suc :
    (k n : ℕ) (p : Proceso) (fs fs₁ : List Frame) {falta : Bool} {p' : Proceso} {fs' : List Frame}
    → Ocupa 0 fs n fs₁
    → Amplia k
        (record p { cant_paginas = p.cant_paginas + 1; paginas = p.paginas ++ (n ∷ []) })
        fs₁
        falta
        p'
        fs'
    → Amplia (suc k) p fs falta p' fs'
Amplia-suc k n p fs fs₁ o a = record {
  nuevas = n ∷ a.nuevas;
  paginas = a.paginas ∙ append_assoc p.paginas (n ∷ []) a.nuevas;
  cant = omega (arith, a.cant);
  pcb = a.pcb;
  instrucciones = a.instrucciones;
  ocupadas = λ j. ground (arith, a.ocupadas j, o.uno j);
  quedan = omega (arith, a.quedan, o.menos);
  mismas = a.mismas ∙ o.mismas;
  fin = ground (arith, a.fin);
}

abbrev AmpliaR : ℕ → Proceso → List Frame → Bool × Proceso × List Frame → Type 0
AmpliaR k p fs (falta, p', fs') = Amplia k p fs falta p' fs'

Amplia-none :
    (k : ℕ) (p : Proceso) (fs : List Frame) → libres fs ≡ 0 → Amplia (suc k) p fs true p fs
Amplia-none k p fs h = record {
  nuevas = [];
  paginas = sym (append-nil p.paginas);
  cant = omega arith;
  pcb = refl;
  instrucciones = refl;
  ocupadas = λ j. omega arith;
  quedan = omega arith;
  mismas = refl;
  fin = inl (refl, h, omega arith);
}

abbrev con_pagina : Proceso → ℕ → Proceso
con_pagina p n = record p { cant_paginas = p.cant_paginas + 1; paginas = p.paginas ++ (n ∷ []) }

ampliar-step :
    (k : ℕ) (p : Proceso) (fs : List Frame) (o : Option (ℕ × List Frame))
    → OcupaO 0 fs o
    → ((n : ℕ) (fs' : List Frame) → AmpliaR k (con_pagina p n) fs' (ampliar k (con_pagina p n) fs'))
    → AmpliaR
        (suc k)
        p
        fs
        (elim o [ none ↦ (true, p, fs) | some (n, fs') ↦ ampliar k (con_pagina p n) fs' ])
ampliar-step k p fs none h ih = Amplia-none k p fs h
ampliar-step k p fs (some (n, fs')) h ih = Amplia-suc k n p fs fs' h (ih n fs')

-- Growing by `k` pages takes free frames one by one, until all are taken or all pages are there.
pub ampliar-Amplia : (k : ℕ) (p : Proceso) (fs : List Frame) → AmpliaR k p fs (ampliar k p fs)
unfolding ampliar ocupar_siguiente_frame
ampliar-Amplia zero p fs = record {
  nuevas = [];
  paginas = sym (append-nil p.paginas);
  cant = omega arith;
  pcb = refl;
  instrucciones = refl;
  ocupadas = λ j. omega arith;
  quedan = omega arith;
  mismas = refl;
  fin = inr (refl, refl);
}
ampliar-Amplia (suc k) p fs =
    ampliar-step k p fs (ocupar_siguiente_frame fs) (ocupar_desde-OcupaO 0 fs)
      (λ n fs'. ampliar-Amplia k (con_pagina p n) fs')

-- A list with an index one short of its end splits there.
ultimo :
    (m : ℕ) (ps : List ℕ)
    → length ps ≡ suc m
    → (n : ℕ) × (get_elem? ps m ≡ some n)
      × (ps ≡ list_remove ps m ++ (n ∷ []))
      × (length (list_remove ps m) ≡ m)
unfolding list_remove
ultimo zero [] h = absurd (omega arith)
ultimo zero (x ∷ []) h = (x, refl, refl, refl)
ultimo zero (x ∷ y ∷ ps) h = absurd (omega arith)
ultimo (suc m) [] h = absurd (omega arith)
ultimo (suc m) (x ∷ ps) h =
    let (n, e, s, l) = ultimo m ps (omega arith) in (n, e, ap (◌∷◌ x) s, ap suc l)

take-append_le : (k : ℕ) (xs ys : List ℕ) → k ≤ length xs → take k (xs ++ ys) ≡ take k xs
take-append_le zero xs ys h = refl
take-append_le (suc k) [] ys h = absurd (omega arith)
take-append_le (suc k) (x ∷ xs) ys h = ap (◌∷◌ x) (take-append_le k xs ys (omega arith))

-- What the shrinking loop has done, where `otras` counts the frames' other uses.
pub record Quita (nuevo k : ℕ) (otras : ℕ → ℕ) (ps : List ℕ) (fs : List Frame) (ps' : List ℕ)
    (fs' : List Frame) : Type 0 where
  pub paginas : ps' ≡ take nuevo ps
  pub exacto : (j : ℕ) → veces j ps' + otras j ≡ ocup j fs'
  pub quedan : libres fs' ≡ libres fs + k
  pub mismas : direcciones fs' ≡ direcciones fs

pub ocup-le : (j : ℕ) (fs : List Frame) → ocup j fs ≤ 1
ocup-le j [] = omega arith
ocup-le zero (f ∷ fs) = ground arith
ocup-le (suc j) (f ∷ fs) = ocup-le j fs

Quita-suc :
    (nuevo k n : ℕ) (otras : ℕ → ℕ) (ps qs : List ℕ) (fs fs₁ : List Frame) {ps' : List ℕ}
    {fs' : List Frame}
    → ps ≡ qs ++ (n ∷ [])
    → nuevo ≤ length qs
    → Libera n fs fs₁
    → Quita nuevo k otras qs fs₁ ps' fs'
    → Quita nuevo (suc k) otras ps fs ps' fs'
Quita-suc nuevo k n otras ps qs fs fs₁ e le l q = record {
  paginas = q.paginas ∙ sym (ap (take nuevo) e ∙ take-append_le nuevo qs (n ∷ []) le);
  exacto = q.exacto;
  quedan = omega (arith, q.quedan, l.mas);
  mismas = q.mismas ∙ l.mismas;
}

-- Shrinking from `nuevo + k` pages, each on a frame of its own, succeeds and frees the last `k`.
pub quitar_paginas-Quita :
    (nuevo k : ℕ) (otras : ℕ → ℕ) (ps : List ℕ) (fs : List Frame)
    → length ps ≡ nuevo + k
    → ((j : ℕ) → veces j ps + otras j ≡ ocup j fs)
    → (ps' : List ℕ) × (fs' : List Frame) × (quitar_paginas nuevo k ps fs ≡ some (ps', fs'))
      × Quita nuevo k otras ps fs ps' fs'
unfolding quitar_paginas
quitar_paginas-Quita nuevo zero otras ps fs e h = (
  ps,
  fs,
  refl,
  record {
    paginas = sym (take_all nuevo ps (omega arith));
    exacto = h;
    quedan = omega arith;
    mismas = refl;
  },
)
quitar_paginas-Quita nuevo (suc k) otras ps fs e h =
    let (n, g, s, l) = ultimo (nuevo + k) ps (omega arith) in
    let qs = list_remove ps (nuevo + k) in
    let cuenta = λ (j : ℕ). ap (veces j) s ∙ veces-append j qs (n ∷ []) in
    let uno : ocup n fs ≡ 1 = ground (arith, h n, cuenta n, ocup-le n fs) in
    let (fs₁, ef, lib) = liberar_frame-Libera n fs uno in
    let (ps', fs', eq, q) =
      quitar_paginas-Quita nuevo k otras qs fs₁ l (λ j. ground (arith, h j, cuenta j, lib.uno j)) in
    (
      ps',
      fs',
      rw (g, ef) eq,
      Quita-suc nuevo k n otras ps qs fs fs₁ {ps' = ps'} {fs' = fs'} s (omega arith) lib q,
    )
