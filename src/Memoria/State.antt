-- ===== src/Memoria/State.antt =====
-- The globals of memoria/src/main.c, and the searches of the process list. `bytes` is the content
-- of the block that starts at the address `base`.
use tp_2024_1c_asado_criollo.Prelude.{
  ℕ, ◌/◌, Option, none, some, List, [], ◌∷◌, ◌==◌, if◌then◌else◌, ◌>>=◌, get_elem?,
}
use tp_2024_1c_asado_criollo.Memoria.Frames.{Frame, Proceso, crear_frames}

pub record Memoria : Type 0 where
  pub procesos : List Proceso
  pub frames : List Frame
  pub base : ℕ
  pub bytes : ℕ → ℕ
  pub tamanio_memoria : ℕ
  pub tamanio_pagina : ℕ

-- `base` and `bytes` are what malloc returned; the process list is empty at the start.
unfoldable pub inicializar_memoria : ℕ → (ℕ → ℕ) → ℕ → ℕ → Memoria
inicializar_memoria base bytes tamanio_memoria tamanio_pagina = record {
  procesos = [];
  frames = crear_frames base tamanio_pagina (tamanio_memoria / tamanio_pagina) 0;
  base = base;
  bytes = bytes;
  tamanio_memoria = tamanio_memoria;
  tamanio_pagina = tamanio_pagina;
}

-- `list_find(procesos, isCurrentPID)`; `none` is NULL.
unfoldable pub buscar_proceso : ℕ → List Proceso → Option Proceso
buscar_proceso pid [] = none
buscar_proceso pid (p ∷ ps) = if p.pcb.pid == pid then some p else buscar_proceso pid ps

-- An update through the pointer that this search returns.
unfoldable pub guardar_proceso : ℕ → Proceso → List Proceso → List Proceso
guardar_proceso pid q [] = []
guardar_proceso pid q (p ∷ ps) = if p.pcb.pid == pid then q ∷ ps else p ∷ guardar_proceso pid q ps

-- `list_remove_by_condition(procesos, isCurrentPID)`.
unfoldable pub quitar_proceso : ℕ → List Proceso → List Proceso
quitar_proceso pid [] = []
quitar_proceso pid (p ∷ ps) = if p.pcb.pid == pid then ps else p ∷ quitar_proceso pid ps

-- The page table of the first process with the PID. NULL, dereferenced, is a fault.
unfoldable pub filtrar_pid : ℕ → List Proceso → Option (List ℕ)
unfolding buscar_proceso
filtrar_pid pid ps = buscar_proceso pid ps >>= λ p. some p.paginas

-- `frames[n].direccionFisica`; an index outside the table is a fault.
unfoldable pub direccion_frame : List Frame → ℕ → Option ℕ
direccion_frame fs n = get_elem? fs n >>= λ f. some f.direccion_fisica
