-- ===== src/Cpu/Tlb/Clear.antt =====
-- LimpiarTLB, which follows every resize, and the coherence of the TLB.
use tp_2024_1c_asado_criollo.Prelude.{
  ℕ, ◌≡◌, ◌≢◌, ℤ, pos, negsuc, true, false, not, List, [], ◌∷◌, Option, some, ◌&&◌, ltb_ℤ, eqb_ℤ,
  arith, ◌⊎◌, inl, inr, Bool-cases,
}
use tp_2024_1c_asado_criollo.Cpu.Tlb.{
  FilaTlb, Tlb, limpiar_fila, limpiar_filas, newpagesize, limpiar_tlb,
}
use tp_2024_1c_asado_criollo.Cpu.Tlb.Coherence.{FilaOk, IsCoherente}

-- A row that LimpiarTLB keeps is of another process, or of a page that stays.
se_queda :
    (pid : ℕ) (nuevo : ℤ) (p q : ℕ) (b c : ℤ)
    → (eqb_ℤ c (pos pid) && not (ltb_ℤ b nuevo)) ≡ false
    → b ≡ pos p
    → c ≡ pos q
    → (q ≢ pid) ⊎ (ltb_ℤ (pos p) nuevo ≡ true)
se_queda pid (pos n) p q (pos b) (pos c) h e f = ground arith
se_queda pid (negsuc n) p q (pos b) (pos c) h e f = ground arith
se_queda pid nuevo p q (pos b) (negsuc c) h e f = cc
se_queda pid nuevo p q (negsuc b) c h e f = cc

limpiar_fila-FilaOk :
    (tabla tabla' : ℕ → ℕ → Option ℕ) (pid : ℕ) (nuevo : ℤ) (r : FilaTlb)
    → ((p q a : ℕ)
        → (q ≢ pid) ⊎ (ltb_ℤ (pos p) nuevo ≡ true)
        → tabla p q ≡ some a
        → tabla' p q ≡ some a)
    → FilaOk tabla r
    → FilaOk tabla' (limpiar_fila pid nuevo r)
unfolding limpiar_fila
limpiar_fila-FilaOk tabla tabla' pid nuevo r k h p q a ep eq em =
    elim (Bool-cases (eqb_ℤ r.pid (pos pid) && not (ltb_ℤ r.pagina nuevo))) [
      | inl c ↦ absurd (ground arith)
      | inr c ↦
          k p q a (se_queda pid nuevo p q r.pagina r.pid c (ground arith) (ground arith))
            (h p q a (ground arith) (ground arith) (ground arith))
    ]

limpiar_filas-IsCoherente :
    (tabla tabla' : ℕ → ℕ → Option ℕ) (pid : ℕ) (nuevo : ℤ) (rs : List FilaTlb)
    → ((p q a : ℕ)
        → (q ≢ pid) ⊎ (ltb_ℤ (pos p) nuevo ≡ true)
        → tabla p q ≡ some a
        → tabla' p q ≡ some a)
    → IsCoherente tabla rs
    → IsCoherente tabla' (limpiar_filas pid nuevo rs)
unfolding limpiar_filas
limpiar_filas-IsCoherente tabla tabla' pid nuevo [] k h = tt
limpiar_filas-IsCoherente tabla tabla' pid nuevo (r ∷ rs) k h = (
  limpiar_fila-FilaOk tabla tabla' pid nuevo r k h.0,
  limpiar_filas-IsCoherente tabla tabla' pid nuevo rs k h.1,
)

-- When the page tables change only for pages of the process from the count on to which LimpiarTLB
-- rounds the new size, LimpiarTLB makes the TLB agree with the new tables, for any int as the new
-- size.
pub limpiar_tlb-IsCoherente :
    (tabla tabla' : ℕ → ℕ → Option ℕ) (t : Tlb) (pid : ℕ) (newsize : ℤ)
    → ((p q a : ℕ)
        → (q ≢ pid) ⊎ (ltb_ℤ (pos p) (newpagesize newsize t.tamanio_pagina) ≡ true)
        → tabla p q ≡ some a
        → tabla' p q ≡ some a)
    → IsCoherente tabla t.filas
    → IsCoherente tabla' (limpiar_tlb t pid newsize).filas
unfolding limpiar_tlb
limpiar_tlb-IsCoherente tabla tabla' t pid newsize k h =
    limpiar_filas-IsCoherente tabla tabla' pid (newpagesize newsize t.tamanio_pagina) t.filas k h
