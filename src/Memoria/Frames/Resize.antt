-- ===== src/Memoria/Frames/Resize.antt =====
-- ResizeProceso as a whole.
use tp_2024_1c_asado_criollo.Prelude.{
  ℕ, zero, suc, ℤ, pos, opuesto, ◌+◌, ◌-◌, ◌/◌, ◌*◌, ◌≤◌, ◌<◌, ◌≡◌, refl, ap, Bool, List, ◌++◌,
  some, ltb, if◌then◌else◌, arith, length, take, length-append, length-take, Bool-cases, inl, inr,
  ◌⊎◌,
}
use tp_2024_1c_asado_criollo.Memoria.Frames.{
  Frame, Proceso, Codigo, cero, menos_uno, cant_paginas_nuevo, resize_proceso,
}
use tp_2024_1c_asado_criollo.Memoria.Frames.Occupancy.{ocup, libres, veces, direcciones}
use tp_2024_1c_asado_criollo.Memoria.Frames.Loops.{
  veces-append, Amplia, ampliar-Amplia, Quita, quitar_paginas-Quita,
}

-- What ResizeProceso has done to a process that had `cant` pages, when `nuevo` were asked for.
pub record Resized (nuevo : ℕ) (otras : ℕ → ℕ) (p : Proceso) (fs : List Frame) (c : Codigo)
    (p' : Proceso) (fs' : List Frame) : Type 0 where
  pub cuenta : p'.cant_paginas ≡ length p'.paginas
  pub exacto : (j : ℕ) → veces j p'.paginas + otras j ≡ ocup j fs'
  pub quedan : libres fs' + p'.cant_paginas ≡ libres fs + p.cant_paginas
  pub mismas : direcciones fs' ≡ direcciones fs
  pub pcb : p'.pcb ≡ p.pcb
  pub instrucciones : p'.instrucciones ≡ p.instrucciones
  pub conserva :
      (p'.paginas ≡ take nuevo p.paginas) ⊎ ((nuevas : List ℕ) × (p'.paginas ≡ p.paginas ++ nuevas))
  pub fin :
      ((c ≡ cero) × (p'.cant_paginas ≡ nuevo))
      ⊎ ((c ≡ menos_uno)
          × (libres fs' ≡ 0)
          × (p.cant_paginas ≤ p'.cant_paginas)
          × (p'.cant_paginas < nuevo))

-- With a page size that is not zero, the number of pages of a size that is not negative is the size
-- divided by the page size, rounded up; that of a size that is not positive is rounded toward zero.
pub cant_paginas_nuevo_lem :
    (bytes tamanio_pagina : ℕ)
    → 0 < tamanio_pagina
    → ((n : ℕ) × (cant_paginas_nuevo (pos bytes) tamanio_pagina ≡ pos n)
        × (bytes ≤ n * tamanio_pagina)
        × (n * tamanio_pagina < bytes + tamanio_pagina))
      × ((n : ℕ) × (cant_paginas_nuevo (opuesto bytes) tamanio_pagina ≡ opuesto n)
          × (n * tamanio_pagina ≤ bytes)
          × (bytes < n * tamanio_pagina + tamanio_pagina))
unfolding cant_paginas_nuevo
cant_paginas_nuevo_lem zero t h =
    ((_, refl, grind arith, grind arith), (0, ap pos (ground arith), omega arith, omega (arith, h)))
cant_paginas_nuevo_lem (suc bytes) t h =
    ((_, refl, grind arith, grind arith), ((bytes + 1) / t, refl, grind arith, grind arith))

module _ (otras : ℕ → ℕ) (p : Proceso) (fs : List Frame)
    (cuenta : p.cant_paginas ≡ length p.paginas)
    (exacto : (j : ℕ) → veces j p.paginas + otras j ≡ ocup j fs) where
  Amplia-Resized :
      (nuevo : ℕ) {falta : Bool} {p' : Proceso} {fs' : List Frame}
      → p.cant_paginas < nuevo
      → Amplia (nuevo - p.cant_paginas) p fs falta p' fs'
      → Resized nuevo otras p fs (if falta then menos_uno else cero) p' fs'
  Amplia-Resized nuevo {falta} h a = record {
    cuenta =
        omega (arith, cuenta, a.cant, ap length a.paginas, length-append {0} p.paginas a.nuevas);
    exacto = λ j.
        omega (
          arith,
          exacto j,
          a.ocupadas j,
          ap (veces j) a.paginas,
          veces-append j p.paginas a.nuevas,
        );
    quedan = omega (arith, a.cant, a.quedan);
    mismas = a.mismas;
    pcb = a.pcb;
    instrucciones = a.instrucciones;
    conserva = inr (a.nuevas, a.paginas);
    fin = ground (arith, a.fin, a.cant);
  }

  Quita-Resized :
      (nuevo : ℕ) {ps' : List ℕ} {fs' : List Frame}
      → nuevo ≤ p.cant_paginas
      → Quita nuevo (p.cant_paginas - nuevo) otras p.paginas fs ps' fs'
      → Resized nuevo otras p fs cero (record p { cant_paginas = nuevo; paginas = ps' }) fs'
  Quita-Resized nuevo h q = record {
    cuenta = omega (arith, cuenta, ap length q.paginas, length-take {0} nuevo p.paginas);
    exacto = q.exacto;
    quedan = omega (arith, q.quedan);
    mismas = q.mismas;
    pcb = refl;
    instrucciones = refl;
    conserva = inl q.paginas;
    fin = inl (refl, refl);
  }

  -- ResizeProceso returns for every size that rounds to no negative number of pages. It reaches the page count asked for and returns 0, or it takes
  -- every free frame and returns -1; the pages that stay keep their frames, and every taken frame
  -- is still counted exactly once.
  pub resize_proceso-Resized :
      (tamanio_pagina : ℕ) (bytes : ℤ) {nuevo : ℕ}
      → cant_paginas_nuevo bytes tamanio_pagina ≡ pos nuevo
      → (c : Codigo) × (p' : Proceso) × (fs' : List Frame) × (resize_proceso tamanio_pagina p bytes
            fs
          ≡ some (c, p', fs'))
        × Resized nuevo otras p fs c p' fs'
  unfolding resize_proceso
  resize_proceso-Resized t bytes {nuevo} r = elim (Bool-cases (ltb p.cant_paginas nuevo)) [
    | inl crece ↦
        let a = ampliar-Amplia (nuevo - p.cant_paginas) p fs in
        (_, _, _, rw (r, crece) refl, Amplia-Resized nuevo (ground arith) a)
    | inr no_crece ↦
        let (ps', fs', e, q) =
          quitar_paginas-Quita nuevo (p.cant_paginas - nuevo) otras p.paginas fs
            (ground (arith, cuenta)) exacto in
        (_, _, _, rw (r, no_crece, e) refl, Quita-Resized nuevo (ground arith) q)
  ]
