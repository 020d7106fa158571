-- ===== src/Tests/Sort.antt =====
-- An insertion sort, in the place of list_sorted of the commons.
use tp_2024_1c_asado_criollo.Prelude.{
  ◌≡◌, refl, ℤ, pos, negsuc, true, false, List, [], ◌∷◌, ltb_ℤ, if◌then◌else◌, arith, inl, inr,
  Bool-cases,
}
use tp_2024_1c_asado_criollo.Cpu.Tlb.{FilaTlb, ordenar_por_tiempo}
use tp_2024_1c_asado_criollo.Cpu.Tlb.Coherence.{IsSorted, Esta, Menor}

insertar : FilaTlb → List FilaTlb → List FilaTlb
insertar r [] = r ∷ []
insertar r (x ∷ xs) = if ordenar_por_tiempo x r then x ∷ insertar r xs else r ∷ x ∷ xs

pub ordenar : List FilaTlb → List FilaTlb
ordenar [] = []
ordenar (x ∷ xs) = insertar x (ordenar xs)

trans_ℤ : (x m r : ℤ) → ltb_ℤ x m ≡ false → ltb_ℤ m r ≡ false → ltb_ℤ x r ≡ false
trans_ℤ (pos x) (pos m) (pos r) h k = ground arith
trans_ℤ (pos x) (pos m) (negsuc r) h k = refl
trans_ℤ (pos x) (negsuc m) (pos r) h k = absurd (ground arith)
trans_ℤ (pos x) (negsuc m) (negsuc r) h k = refl
trans_ℤ (negsuc x) (pos m) (pos r) h k = absurd (ground arith)
trans_ℤ (negsuc x) (pos m) (negsuc r) h k = absurd (ground arith)
trans_ℤ (negsuc x) (negsuc m) (pos r) h k = absurd (ground arith)
trans_ℤ (negsuc x) (negsuc m) (negsuc r) h k = ground arith

asim_ℤ : (x r : ℤ) → ltb_ℤ x r ≡ true → ltb_ℤ r x ≡ false
asim_ℤ (pos x) (pos r) h = ground arith
asim_ℤ (pos x) (negsuc r) h = absurd (ground arith)
asim_ℤ (negsuc x) (pos r) h = refl
asim_ℤ (negsuc x) (negsuc r) h = ground arith

irrefl_ℤ : (x : ℤ) → ltb_ℤ x x ≡ false
irrefl_ℤ (pos x) = ground arith
irrefl_ℤ (negsuc x) = ground arith

Menor-trans :
    (m r : FilaTlb) (xs : List FilaTlb) → ordenar_por_tiempo m r ≡ false → Menor m xs → Menor r xs
unfolding ordenar_por_tiempo
Menor-trans m r [] h k = tt
Menor-trans m r (x ∷ xs) h (k, l) =
    (trans_ℤ x.tiempo_usado m.tiempo_usado r.tiempo_usado k h, Menor-trans m r xs h l)

-- The head of a sorted list that is not empty.
Cabeza : List FilaTlb → List FilaTlb → Type 0
Cabeza l xs = (r : FilaTlb) × (ys : List FilaTlb) × (l ≡ r ∷ ys) × Esta r xs × Menor r xs

ordenar-Cabeza : (x : FilaTlb) (xs : List FilaTlb) → Cabeza (ordenar (x ∷ xs)) (x ∷ xs)
unfolding ordenar insertar Cabeza ordenar_por_tiempo
ordenar-Cabeza x [] = (x, [], refl, inl refl, (irrefl_ℤ x.tiempo_usado, tt))
ordenar-Cabeza x (y ∷ ys) =
    let (m, zs, e, d, f) = ordenar-Cabeza y ys in
    elim (Bool-cases (ltb_ℤ m.tiempo_usado x.tiempo_usado)) [
      | inl c ↦
          (m, insertar x zs, rw (e, c) refl, inr d, (asim_ℤ m.tiempo_usado x.tiempo_usado c, f))
      | inr c ↦ (
        x,
        m ∷ zs,
        rw (e, c) refl,
        inl refl,
        (irrefl_ℤ x.tiempo_usado, Menor-trans m x (y ∷ ys) c f),
      )
    ]

pub ordenar-IsSorted : IsSorted ordenar
unfolding Cabeza
ordenar-IsSorted = record {
  primero = λ x xs. let (r, ys, e, d, f) = ordenar-Cabeza x xs in (r, rw e refl, d, f);
}
