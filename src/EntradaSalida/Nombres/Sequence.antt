-- ===== src/EntradaSalida/Nombres/Sequence.antt =====
-- The text of the file names as a sequence of names.
use tp_2024_1c_asado_criollo.Prelude.{
  ℕ, ◌+◌, ◌-◌, ◌<◌, ◌≡◌, ◌≢◌, refl, sym, ap, ◌∙◌, true, false, List, [], ◌∷◌, ◌++◌, ◌==◌, ltb,
  eq_bytes, eq_bytes_iff, arith, length, take, length-append, take-length_append, append_assoc,
  append-nil, Bool-cases, inl, inr,
}
use tp_2024_1c_asado_criollo.EntradaSalida.Nombres.{
  abre, cierra, coma, insert_at_end, actualizar_archivo_nombres,
}

-- The names behind the first, each with its comma, and "[a,b,c]".
abbrev pub resto : List (List ℕ) → List ℕ
resto [] = []
resto (n ∷ ns) = coma ∷ (n ++ resto ns)

abbrev pub texto : List ℕ → List (List ℕ) → List ℕ
texto x ns = (abre ∷ (x ++ resto ns)) ++ (cierra ∷ [])

resto-append : (ns : List (List ℕ)) (y : List ℕ) → resto (ns ++ (y ∷ [])) ≡ resto ns ++ (coma ∷ y)
resto-append [] y = ap (λ z. coma ∷ z) (append-nil y)
resto-append (n ∷ ns) y =
    ap (λ z. coma ∷ z)
      (ap (λ z. n ++ z) (resto-append ns y) ∙ sym (append_assoc n (resto ns) (coma ∷ y)))

length-positivo : (x : List ℕ) → x ≢ [] → 0 < length x
length-positivo [] h = absurd (h refl)
length-positivo (c ∷ x) h = omega arith

-- A name is added behind the others, to a text whose first name is not empty.
agregar :
    (x y : List ℕ) (ns : List (List ℕ))
    → x ≢ []
    → actualizar_archivo_nombres (texto x ns) y true ≡ texto x (ns ++ (y ∷ []))
unfolding actualizar_archivo_nombres insert_at_end
agregar x y ns h =
    let pre = abre ∷ (x ++ resto ns) in
    let l : length (texto x ns) ≡ length pre + 1 = length-append pre (cierra ∷ []) in
    let m : 1 < length pre = omega (arith, length-positivo x h, length-append {0} x (resto ns)) in
    let a : (length (texto x ns) == 0) ≡ false = ground (arith, l) in
    let b : eq_bytes (texto x ns) (abre ∷ cierra ∷ []) ≡ false =
      (elim (Bool-cases (eq_bytes (texto x ns) (abre ∷ cierra ∷ []))) [
        | inl e ↦
            let q = ap length ((eq_bytes_iff (texto x ns) (abre ∷ cierra ∷ [])).0 e) in
            absurd (omega (arith, q, l, m))
        | inr e ↦ e
      ]) in
    let c : ltb 1 (length (texto x ns)) ≡ true = ground (arith, l, m) in
    let d : length (texto x ns) - 1 ≡ length pre = omega (arith, l) in
    let t : take (length pre) (texto x ns) ≡ pre = take-length_append pre (cierra ∷ []) in
    let cy = coma ∷ y in
    let r : x ++ resto (ns ++ (y ∷ [])) ≡ (x ++ resto ns) ++ cy =
      ap (λ z. x ++ z) (resto-append ns y) ∙ sym (append_assoc x (resto ns) cy) in
    rw (a, b, c, d)
      (ap (λ z. z ++ (coma ∷ (y ++ (cierra ∷ [])))) t
        ∙ sym (append_assoc pre cy (cierra ∷ []))
        ∙ ap (λ z. (abre ∷ z) ++ (cierra ∷ [])) (sym r))

primero :
    (y : List ℕ)
    → (actualizar_archivo_nombres [] y true ≡ texto y [])
      × (actualizar_archivo_nombres (abre ∷ cierra ∷ []) y true ≡ texto y [])
unfolding actualizar_archivo_nombres
primero y =
    let e : y ++ (cierra ∷ []) ≡ (y ++ []) ++ (cierra ∷ []) =
      ap (λ z. z ++ (cierra ∷ [])) (sym (append-nil y)) in
    (ap (λ z. abre ∷ z) e, ap (λ z. abre ∷ z) e)

-- ActualizarArchivoNombres on the creation of a file: an empty value, or "[]", becomes the text of
-- the one name; to the text of a sequence of names, the first not empty, the name is added behind
-- the others.
pub actualizar_archivo_nombres-texto :
    (x y : List ℕ) (ns : List (List ℕ))
    → x ≢ []
    → (actualizar_archivo_nombres [] y true ≡ texto y [])
      × (actualizar_archivo_nombres (abre ∷ cierra ∷ []) y true ≡ texto y [])
      × (actualizar_archivo_nombres (texto x ns) y true ≡ texto x (ns ++ (y ∷ [])))
actualizar_archivo_nombres-texto x y ns h = ((primero y).0, (primero y).1, agregar x y ns h)
