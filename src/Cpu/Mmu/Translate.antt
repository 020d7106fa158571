-- ===== src/Cpu/Mmu/Translate.antt =====
-- The translation of cpu/src/mmu.c against the page tables.
use tp_2024_1c_asado_criollo.Prelude.{
  ℕ, ◌+◌, ◌*◌, ◌/◌, ◌%◌, ◌<◌, ◌≡◌, refl, ◌∙◌, List, Option, none, some, ◌==◌, arith, ◌⊎◌, inl, inr,
  Bool-cases,
}
use native.Mathlib.Nat.{div-add-mod}
use tp_2024_1c_asado_criollo.Cpu.Tlb.{Tlb, FilaTlb, obtener_frame}
use tp_2024_1c_asado_criollo.Cpu.Tlb.Coherence.{
  IsCoherente, IsValid, IsSorted, Agregado, obtener_frame-Agregado, actualizar_tlb-Agregado,
}
use tp_2024_1c_asado_criollo.Cpu.Mmu.{
  numero_pagina, calcular_desplazamiento, fallo_tlb, con_tlb, obtener_direccion_fisica,
}

-- With a page size that is not zero, the offset of a logical address is its remainder, it is below
-- the page size, and page number and offset give the address back.
pub calcular_desplazamiento_lem :
    (tp dir : ℕ)
    → 0 < tp
    → (calcular_desplazamiento tp dir (numero_pagina tp dir) ≡ dir % tp)
      × (calcular_desplazamiento tp dir (numero_pagina tp dir) < tp)
      × (numero_pagina tp dir * tp + calcular_desplazamiento tp dir (numero_pagina tp dir) ≡ dir)
unfolding calcular_desplazamiento numero_pagina
calcular_desplazamiento_lem tp dir h = grind (arith, div-add-mod dir tp)

module _ (list_sorted : List FilaTlb → List FilaTlb) (ordenada : IsSorted list_sorted)
    (pedir : ℕ → ℕ → Option ℕ) (ahora pagina desplazamiento pid a : ℕ)
    (e : pedir pagina pid ≡ some a) where
  fallo_tlb-Agregado :
      (t : Tlb)
      → IsValid t
      → IsCoherente pedir t.filas
      → (t' : Tlb) × (fallo_tlb list_sorted pedir t ahora pagina desplazamiento pid
          ≡ some (a + desplazamiento, t'))
        × Agregado pedir t t'
  unfolding fallo_tlb
  fallo_tlb-Agregado t v h = elim (Bool-cases (t.entradas_tlb == 0)) [
    | inl z ↦ (
      t,
      rw (e, z),
      record { valido = v; coherente = h; misma_pagina = refl; mismas_entradas = refl },
    )
    | inr z ↦
        let r =
          actualizar_tlb-Agregado list_sorted ordenada pedir t ahora a pagina pid v h e
            (ground (arith, z)) in
        (r.0, rw (e, z, r.1), r.2)
  ]

  con_tlb-Agregado :
      (t : Tlb) (o : Option ℕ)
      → (o ≡ none) ⊎ (o ≡ pedir pagina pid)
      → IsValid t
      → IsCoherente pedir t.filas
      → (t' : Tlb) × (con_tlb list_sorted pedir (o, t) ahora pagina desplazamiento pid
          ≡ some (a + desplazamiento, t'))
        × Agregado pedir t t'
  unfolding con_tlb
  con_tlb-Agregado t none c v h = fallo_tlb-Agregado t v h
  con_tlb-Agregado t (some f) c v h = (
    t,
    ground (arith, c, e),
    record { valido = v; coherente = h; misma_pagina = refl; mismas_entradas = refl },
  )

-- With a valid TLB that agrees with the page tables, a logical address in a mapped page becomes the
-- address of the frame plus the offset in the page, on a hit and on a miss, under FIFO and LRU; the
-- TLB stays valid and in agreement.
pub obtener_direccion_fisica_lem :
    (list_sorted : List FilaTlb → List FilaTlb) (pedir : ℕ → ℕ → Option ℕ) (t : Tlb)
    (ahora dir pid a : ℕ)
    → IsSorted list_sorted
    → 0 < t.tamanio_pagina
    → IsValid t
    → IsCoherente pedir t.filas
    → pedir (dir / t.tamanio_pagina) pid ≡ some a
    → (t' : Tlb) × (obtener_direccion_fisica list_sorted pedir t ahora dir pid
        ≡ some (a + dir % t.tamanio_pagina, t'))
      × Agregado pedir t t'
unfolding obtener_direccion_fisica numero_pagina
obtener_direccion_fisica_lem ls pedir t ahora dir pid a ord pos v h e =
    let pg = numero_pagina t.tamanio_pagina dir in
    let d = calcular_desplazamiento t.tamanio_pagina dir pg in
    let de = (calcular_desplazamiento_lem t.tamanio_pagina dir pos).0 in
    elim (Bool-cases (t.entradas_tlb == 0)) [
      | inl z ↦
          let r = fallo_tlb-Agregado ls ord pedir ahora pg d pid a e t v h in
          (r.0, rw (z, ← de) r.1, r.2)
      | inr z ↦
          let g = obtener_frame-Agregado pedir t ahora pg pid v h in
          let t₁ = (obtener_frame t ahora pg pid).1 in
          let r =
            con_tlb-Agregado ls ord pedir ahora pg d pid a e t₁ (obtener_frame t ahora pg pid).0 g.0
              g.1.valido g.1.coherente in
          (
            r.0,
            rw (z, ← de) r.1,
            record {
              valido = r.2.valido;
              coherente = r.2.coherente;
              misma_pagina = r.2.misma_pagina ∙ g.1.misma_pagina;
              mismas_entradas = r.2.mismas_entradas ∙ g.1.mismas_entradas;
            },
          )
    ]
