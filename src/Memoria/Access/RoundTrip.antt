-- ===== src/Memoria/Access/RoundTrip.antt =====
-- Escribir followed by Leer at the same address, over as many pages as the value takes.
use tp_2024_1c_asado_criollo.Prelude.{
  ℕ, zero, suc, ◌+◌, ◌-◌, ◌*◌, ◌≤◌, ◌<◌, ◌≡◌, sym, ap, ◌∙◌, List, [], ◌∷◌, true, false, some, leb,
  arith, length, take, drop, length-take, length-drop, take-append-drop, get_elem?-lt, ◌⊎◌, inl,
  inr, Bool-cases,
}
use tp_2024_1c_asado_criollo.Memoria.State.{Memoria}
use tp_2024_1c_asado_criollo.Memoria.Access.{
  leer_bytes, escribir_bytes, leer_resto, escribir_resto, leer, escribir,
}
use tp_2024_1c_asado_criollo.Memoria.Access.Cells.{
  escribir_bytes_fuera, leer_bytes_ext, leer-escribir_bytes,
}
use tp_2024_1c_asado_criollo.Memoria.Access.Pages.{
  marco, Distinto, Fuera, con_bytes, Distinto-Fuera, IsTabla-con_bytes, Escrito,
  escribir_resto-Escrito,
}
use tp_2024_1c_asado_criollo.Memoria.Access.Rw.{
  Logica, Pagina, IsTabla-drop, Pagina-Distinto, leer_eq, escribir_eq,
}

-- A write at `direccion` that returned, is read back, and left all bytes outside `ps` alone.
pub record Guardado (m : Memoria) (pid direccion : ℕ) (ps v : List ℕ) (c : ℕ → ℕ) : Type 0 where
  pub vuelve : escribir m direccion v pid ≡ some (con_bytes m c)
  pub lee : leer (con_bytes m c) direccion (length v) pid ≡ some v
  pub ajeno : (x : ℕ) → Fuera m ps x → c x ≡ m.bytes x

module _ (m : Memoria) (pid : ℕ) (ps : List ℕ) (i n off : ℕ) (l : Logica m pid ps i n off) where
  Logica-con_bytes : (c : ℕ → ℕ) → Logica (con_bytes m c) pid ps i n off
  Logica-con_bytes c = record {
    proceso = l.proceso;
    tabla = IsTabla-con_bytes m c ps l.tabla;
    pagina = l.pagina;
    desplazamiento = l.desplazamiento;
  }

  Fuera-drop :
      (c : ℕ → ℕ) (qs : List ℕ) (j x : ℕ) → Fuera m qs x → Fuera (con_bytes m c) (drop j qs) x
  Fuera-drop c [] zero x f = tt
  Fuera-drop c (q ∷ qs) zero x f = (f.0, Fuera-drop c qs zero x f.1)
  Fuera-drop c [] (suc j) x f = tt
  Fuera-drop c (q ∷ qs) (suc j) x f = Fuera-drop c qs j x f.1

  mas_uno : i + 1 ≡ suc i
  mas_uno = omega arith

  Fuera-Pagina :
      (qs : List ℕ) (j x : ℕ)
      → Pagina qs j n
      → Fuera m qs x
      → (x < marco m n) ⊎ (marco m n + m.tamanio_pagina ≤ x)
  Fuera-Pagina [] j x e f = cc
  Fuera-Pagina (q ∷ qs) zero x e f =
      let qn : q ≡ n = ground (arith, e) in ground (arith, ap (marco m) qn, f.0)
  Fuera-Pagina (q ∷ qs) (suc j) x e f = Fuera-Pagina qs j x e f.1

  -- The value fits the rest of the page.
  guarda_corto :
      (v : List ℕ)
      → leb (length v) (m.tamanio_pagina - off) ≡ true
      → Guardado m pid (marco m n + off) ps v (escribir_bytes m.bytes (marco m n + off) v)
  guarda_corto v e =
      let c = escribir_bytes m.bytes (marco m n + off) v in
      record {
        vuelve = escribir_eq m pid ps i n off l v ∙ rw e;
        lee =
            leer_eq (con_bytes m c) pid ps i n off (Logica-con_bytes c) (length v)
            ∙ rw (e, leer-escribir_bytes m.bytes (marco m n + off) v);
        ajeno = λ x f.
            escribir_bytes_fuera m.bytes (marco m n + off) v x
              (ground (arith, Fuera-Pagina ps i x l.pagina f));
      }

  -- The value runs on over the pages behind.
  guarda_largo :
      (v : List ℕ) (c : ℕ → ℕ)
      → leb (length v) (m.tamanio_pagina - off) ≡ false
      → let k = m.tamanio_pagina - off in
        let m₁ = con_bytes m (escribir_bytes m.bytes (marco m n + off) (take k v)) in
        escribir_resto m₁ (drop (i + 1) ps) (drop k v) ≡ some (con_bytes m c)
        → Escrito m₁ (drop (i + 1) ps) (drop k v) c
        → Guardado m pid (marco m n + off) ps v c
  guarda_largo v c e r w =
      let k = m.tamanio_pagina - off in
      let lt : length (take k v) ≡ k = ground (arith, length-take {0} k v) in
      let a = marco m n + off in
      let c₁ = escribir_bytes m.bytes a (take k v) in
      let distinto : Distinto n (drop (i + 1) ps) =
        rw mas_uno (Pagina-Distinto m ps i l.tabla l.pagina) in
      let igual : leer_bytes c a k ≡ take k v =
        leer_bytes_ext c c₁ a k (λ x lo hi. w.ajeno x (
          Distinto-Fuera (con_bytes m c₁) n (drop (i + 1) ps) x distinto (omega arith)
            (omega (arith, l.desplazamiento))))
        ∙ ap (leer_bytes c₁ a) (sym lt)
        ∙ leer-escribir_bytes m.bytes a (take k v) in
      let resto : leer_resto (con_bytes m c) (drop (i + 1) ps) (length v - k) ≡ some (drop k v) =
        ap (leer_resto (con_bytes m c) (drop (i + 1) ps)) (sym (length-drop {0} k v)) ∙ w.lee in
      record {
        vuelve = escribir_eq m pid ps i n off l v ∙ rw e r;
        lee =
            leer_eq (con_bytes m c) pid ps i n off (Logica-con_bytes c) (length v)
            ∙ rw (e, igual, resto, take-append-drop k v);
        ajeno = λ x f.
            w.ajeno x (Fuera-drop c₁ ps (i + 1) x f)
            ∙ escribir_bytes_fuera m.bytes a (take k v) x
                (omega (arith, lt, l.desplazamiento, Fuera-Pagina ps i x l.pagina f));
      }

  -- Where the page table of the process names distinct frames of the memory, Escribir at a logical
  -- address whose page has a frame, of a value that fits the pages from there on, returns; Leer
  -- then gives the value back, and no byte outside the frames of the process has changed.
  pub leer-escribir :
      (v : List ℕ)
      → off + length v ≤ (length ps - i) * m.tamanio_pagina
      → (c : ℕ → ℕ) × Guardado m pid (marco m n + off) ps v c
  leer-escribir v cabe = elim (Bool-cases (leb (length v) (m.tamanio_pagina - off))) [
    | inl e ↦ (_, guarda_corto v e)
    | inr e ↦
        let k = m.tamanio_pagina - off in
        let m₁ = con_bytes m (escribir_bytes m.bytes (marco m n + off) (take k v)) in
        let paginas : length ps - i ≡ length ps - (i + 1) + 1 =
          omega (arith, get_elem?-lt ps i l.pagina) in
        let producto : (length ps - i) * m.tamanio_pagina
            ≡ (length ps - (i + 1)) * m.tamanio_pagina + m.tamanio_pagina =
          omega (arith, ap (λ (z : ℕ). z * m.tamanio_pagina) paginas) in
        let cabe' : length (drop k v) ≤ length (drop (i + 1) ps) * m.tamanio_pagina =
          rw (length-drop k v, length-drop (i + 1) ps)
            (omega (arith, producto, cabe, l.desplazamiento)) in
        let (c, r, w) =
          escribir_resto-Escrito m₁ (drop (i + 1) ps) (drop k v)
            (IsTabla-drop m₁ ps (i + 1) (IsTabla-con_bytes m m₁.bytes ps l.tabla)) cabe' in
        (c, guarda_largo v c e r w)
  ]
