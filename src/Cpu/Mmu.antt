-- ===== src/Cpu/Mmu.antt =====
-- cpu/src/mmu.c: from a logical address to a physical one.
pub mod Translate
use tp_2024_1c_asado_criollo.Prelude.{
  ℕ, ◌+◌, ◌-◌, ◌*◌, ◌/◌, List, Option, none, some, ◌==◌, if◌then◌else◌, ◌>>=◌,
}
use tp_2024_1c_asado_criollo.Cpu.Tlb.{Tlb, FilaTlb, obtener_frame, actualizar_tlb}

unfoldable pub numero_pagina : ℕ → ℕ → ℕ
numero_pagina tamanio_pagina dir = dir / tamanio_pagina

unfoldable pub calcular_desplazamiento : ℕ → ℕ → ℕ → ℕ
calcular_desplazamiento tamanio_pagina dir pagina = dir - pagina * tamanio_pagina

-- `pedir pagina pid` is solicitar_direccion_fisica: what the memory answers.
module _ (list_sorted : List FilaTlb → List FilaTlb) (pedir : ℕ → ℕ → Option ℕ) where
  -- The branch of a miss, or of a CPU with no TLB.
  unfoldable pub fallo_tlb : Tlb → ℕ → ℕ → ℕ → ℕ → Option (ℕ × Tlb)
  fallo_tlb t ahora pagina desplazamiento pid = do
    direccion ← pedir pagina pid
    t' ←
        if t.entradas_tlb == 0
        then some t
        else actualizar_tlb list_sorted t ahora direccion pagina pid
    some (direccion + desplazamiento, t')

  unfoldable pub con_tlb : Option ℕ × Tlb → ℕ → ℕ → ℕ → ℕ → Option (ℕ × Tlb)
  con_tlb (some frame, t) ahora pagina desplazamiento pid = some (frame + desplazamiento, t)
  con_tlb (none, t) ahora pagina desplazamiento pid = fallo_tlb t ahora pagina desplazamiento pid

  unfoldable pub obtener_direccion_fisica : Tlb → ℕ → ℕ → ℕ → Option (ℕ × Tlb)
  obtener_direccion_fisica t ahora dir pid =
      let pagina = numero_pagina t.tamanio_pagina dir in
      let desplazamiento = calcular_desplazamiento t.tamanio_pagina dir pagina in
      if t.entradas_tlb == 0
      then fallo_tlb t ahora pagina desplazamiento pid
      else con_tlb (obtener_frame t ahora pagina pid) ahora pagina desplazamiento pid
