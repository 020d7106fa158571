-- ===== src/Memoria/Access.antt =====
-- Leer, Escribir and buscar_pagina of memoria/src/main.c: byte access that runs over the pages of
-- a process.
pub mod Cells
pub mod Pages
pub mod Rw
pub mod RoundTrip
use tp_2024_1c_asado_criollo.Prelude.{
  ℕ, zero, suc, ◌+◌, ◌-◌, List, [], ◌∷◌, ◌++◌, Bool, Option, none, some, ◌&&◌, ltb, leb,
  if◌then◌else◌, ◌==◌, ◌>>=◌, ◌>>◌, guard, length, get_elem?, take, drop,
}
use tp_2024_1c_asado_criollo.Memoria.State.{Memoria, filtrar_pid, direccion_frame}
use tp_2024_1c_asado_criollo.Memoria.Frames.{Frame}

-- memcpy out of and into the memory block.
unfoldable pub leer_bytes : (ℕ → ℕ) → ℕ → ℕ → List ℕ
leer_bytes c a zero = []
leer_bytes c a (suc n) = c a ∷ leer_bytes c (a + 1) n

unfoldable pub escribir_bytes : (ℕ → ℕ) → ℕ → List ℕ → ℕ → ℕ
escribir_bytes c a [] = c
escribir_bytes c a (b ∷ bs) = escribir_bytes (λ x. if x == a then b else c x) (a + 1) bs

-- The bytes from `a` to `a + n` lie in the block.
unfoldable pub en_memoria : Memoria → ℕ → ℕ → Bool
en_memoria m a n = leb m.base a && leb (a + n) (m.base + m.tamanio_memoria)

-- The index of the first page whose frame holds the address. `none` is -1, which both callers
-- hand to list_get and then dereference.
unfoldable pub buscar_pagina : Memoria → List ℕ → ℕ → Option ℕ
buscar_pagina m [] direccion = none
buscar_pagina m (n ∷ ns) direccion = do
  inicio ← direccion_frame m.frames n
  let rest = (buscar_pagina m ns direccion >>= λ i. some (i + 1))
  if leb inicio direccion && ltb direccion (inicio + m.tamanio_pagina) then some 0 else rest

-- `tamanioPagina <= tamanioRestante ? tamanioPagina : tamanioRestante`
abbrev pub tramo : Memoria → ℕ → ℕ
tramo m restante = if leb m.tamanio_pagina restante then m.tamanio_pagina else restante

-- The loop of Leer over the pages that follow, with `restante` bytes to go.
unfoldable pub leer_resto : Memoria → List ℕ → ℕ → Option (List ℕ)
leer_resto m ps zero = some []
leer_resto m [] (suc n) = none
leer_resto m (p ∷ ps) (suc n) = do
  pie ← direccion_frame m.frames p
  guard (en_memoria m pie (tramo m (suc n)))
  resto ← leer_resto m ps (suc n - tramo m (suc n))
  some (leer_bytes m.bytes pie (tramo m (suc n)) ++ resto)

unfoldable pub leer : Memoria → ℕ → ℕ → ℕ → Option (List ℕ)
leer m direccion tamanio pid = do
  paginas ← filtrar_pid pid m.procesos
  numero ← buscar_pagina m paginas direccion
  pagina ← get_elem? paginas numero
  pie ← direccion_frame m.frames pagina
  let restante = m.tamanio_pagina - (direccion - pie)
  if leb tamanio restante
      then (guard (en_memoria m direccion tamanio) >> some (leer_bytes m.bytes direccion tamanio))
      else (do
        guard (en_memoria m direccion restante)
        resto ← leer_resto m (drop (numero + 1) paginas) (tamanio - restante)
        some (leer_bytes m.bytes direccion restante ++ resto))

-- The loop of Escribir over the pages that follow, with `value` to go.
unfoldable pub escribir_resto : Memoria → List ℕ → List ℕ → Option Memoria
escribir_resto m ps [] = some m
escribir_resto m [] (v ∷ vs) = none
escribir_resto m (p ∷ ps) (v ∷ vs) = do
  pie ← direccion_frame m.frames p
  let k = tramo m (length (v ∷ vs))
  guard (en_memoria m pie k)
  escribir_resto (record m { bytes = escribir_bytes m.bytes pie (take k (v ∷ vs)) }) ps
      (drop k (v ∷ vs))

unfoldable pub escribir : Memoria → ℕ → List ℕ → ℕ → Option Memoria
escribir m direccion value pid = do
  paginas ← filtrar_pid pid m.procesos
  numero ← buscar_pagina m paginas direccion
  pagina ← get_elem? paginas numero
  pie ← direccion_frame m.frames pagina
  let restante = m.tamanio_pagina - (direccion - pie)
  if leb (length value) restante
      then (guard (en_memoria m direccion (length value))
          >> some (record m { bytes = escribir_bytes m.bytes direccion value }))
      else (do
        guard (en_memoria m direccion restante)
        escribir_resto (record m { bytes = escribir_bytes m.bytes direccion (take restante value) })
            (drop (numero + 1) paginas) (drop restante value))
