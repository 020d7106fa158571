-- ===== src/Memoria/Frames.antt =====
-- The frame table and ResizeProceso of memoria/src/main.c.
pub mod Occupancy
pub mod Loops
pub mod Resize
use tp_2024_1c_asado_criollo.Prelude.{
  ℕ, zero, suc, ℤ, pos, negsuc, opuesto, ◌+◌, ◌-◌, ◌*◌, ◌/◌, ◌%◌, Bool, true, false, not, List, [],
  ◌∷◌, ◌++◌, Option, none, some, ltb, if◌then◌else◌, ◌>>=◌, get_elem?,
}
use tp_2024_1c_asado_criollo.Commons.Pcb.{Pcb}

pub record Frame : Type 0 where
  pub direccion_fisica : ℕ
  pub ocupado : Bool

pub record Proceso : Type 0 where
  pub instrucciones : Option (List (List ℕ))
  pub pcb : Pcb
  pub cant_paginas : ℕ
  pub paginas : List ℕ

-- The result codes 0 and -1.
pub data Codigo : Type 0 where
  cero menos_uno : Codigo

-- The loop of InicializarMemoria over the frames from index `i` on.
unfoldable pub crear_frames : ℕ → ℕ → ℕ → ℕ → List Frame
crear_frames base tamanio_pagina zero i = []
crear_frames base tamanio_pagina (suc n) i =
    record { direccion_fisica = i * tamanio_pagina + base; ocupado = false }
    ∷ crear_frames base tamanio_pagina n (i + 1)

unfoldable pub liberar_frame : List Frame → ℕ → Option (List Frame)
liberar_frame [] n = none
liberar_frame (f ∷ fs) zero = some (record f { ocupado = false } ∷ fs)
liberar_frame (f ∷ fs) (suc n) = liberar_frame fs n >>= λ fs'. some (f ∷ fs')

-- The loop of OcuparSiguienteFrame, at index `i`.
unfoldable pub ocupar_desde : ℕ → List Frame → Option (ℕ × List Frame)
ocupar_desde i [] = none
ocupar_desde i (f ∷ fs) =
    if not f.ocupado
    then some (i, record f { ocupado = true } ∷ fs)
    else (ocupar_desde (i + 1) fs >>= λ r. some (r.0, f ∷ r.1))

-- `none` is the result -1.
unfoldable pub ocupar_siguiente_frame : List Frame → Option (ℕ × List Frame)
ocupar_siguiente_frame fs = ocupar_desde 0 fs

-- The number of pages for an int, with C's division toward zero: the remainder of a negative size is
-- never above 0, so its quotient stays as it is.
unfoldable pub cant_paginas_nuevo : ℤ → ℕ → ℤ
cant_paginas_nuevo (pos bytes) tamanio_pagina =
    pos (
      if ltb 0 (bytes % tamanio_pagina) then bytes / tamanio_pagina + 1 else bytes / tamanio_pagina)
cant_paginas_nuevo (negsuc n) tamanio_pagina = opuesto ((n + 1) / tamanio_pagina)

-- The growing loop with `k` rounds left. The flag is OutOfMemory.
unfoldable pub ampliar : ℕ → Proceso → List Frame → Bool × Proceso × List Frame
ampliar zero p fs = (false, p, fs)
ampliar (suc k) p fs = elim (ocupar_siguiente_frame fs) [
  | none ↦ (true, p, fs)
  | some (n, fs') ↦
      ampliar k (record p { cant_paginas = p.cant_paginas + 1; paginas = p.paginas ++ (n ∷ []) })
        fs'
]

-- list_remove of the commons, for an index in range.
unfoldable pub list_remove {ℓ} : {A : Type ℓ} → List A → ℕ → List A
list_remove [] i = []
list_remove (x ∷ xs) zero = xs
list_remove (x ∷ xs) (suc i) = x ∷ list_remove xs i

-- The shrinking loop, for the indices from `nuevo + k - 1` down to `nuevo`: the frame of the
-- entry is freed and the entry removed.
unfoldable pub quitar_paginas : ℕ → ℕ → List ℕ → List Frame → Option (List ℕ × List Frame)
quitar_paginas nuevo zero ps fs = some (ps, fs)
quitar_paginas nuevo (suc k) ps fs = do
  n ← get_elem? ps (nuevo + k)
  fs' ← liberar_frame fs n
  quitar_paginas nuevo k (list_remove ps (nuevo + k)) fs'

-- At a negative number of pages the shrinking loop goes on below index 0, where list_get gives the
-- NULL that is then dereferenced.
unfoldable pub cambiar_paginas : Proceso → ℤ → List Frame → Option (Codigo × Proceso × List Frame)
cambiar_paginas p (pos nuevo) fs =
    if ltb p.cant_paginas nuevo
    then (let (out_of_memory, p', fs') = ampliar (nuevo - p.cant_paginas) p fs in
        some (if out_of_memory then menos_uno else cero, p', fs'))
    else (do
      (ps, fs') ← quitar_paginas nuevo (p.cant_paginas - nuevo) p.paginas fs
      some (cero, record p { cant_paginas = nuevo; paginas = ps }, fs'))
cambiar_paginas p (negsuc n) fs = none

unfoldable pub resize_proceso :
    ℕ → Proceso → ℤ → List Frame → Option (Codigo × Proceso × List Frame)
unfolding cambiar_paginas cant_paginas_nuevo
resize_proceso tamanio_pagina p bytes fs =
    cambiar_paginas p (cant_paginas_nuevo bytes tamanio_pagina) fs
