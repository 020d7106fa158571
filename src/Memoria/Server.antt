-- ===== src/Memoria/Server.antt =====
-- ServerMemoria of memoria/src/main.c: one request at a time, as the mutexes have it. The retardo
-- (usleep) and the log have no part in the state.
pub mod Invariant
pub mod Preserve
pub mod Isolation
pub mod Run
pub mod Tables
use tp_2024_1c_asado_criollo.Prelude.{
  ℕ, List, [], ◌∷◌, ◌++◌, Option, none, some, ◌>>=◌, get_elem?, int_of_u32,
}
use tp_2024_1c_asado_criollo.Commons.Pcb.{Pcb}
use tp_2024_1c_asado_criollo.Memoria.Frames.{
  Proceso, Codigo, cero, menos_uno, quitar_paginas, resize_proceso,
}
use tp_2024_1c_asado_criollo.Memoria.State.{
  Memoria, buscar_proceso, guardar_proceso, quitar_proceso, direccion_frame,
}
use tp_2024_1c_asado_criollo.Memoria.Access.{leer, escribir}

-- What arrives after the operation code. The instructions of a new process are what LeerPrograma
-- read from its file, `none` when there is no such file.
pub data Peticion : Type 0 where
  recibir_proceso : Pcb → Option (List (List ℕ)) → Peticion
  solicitar_instruccion : ℕ → ℕ → Peticion
  pedir_resize : ℕ → ℕ → Peticion
  eliminar_proceso : ℕ → Peticion
  solicitar_direccion_fisica : ℕ → ℕ → Peticion
  solicitar_tamanio_pagina : Peticion
  pedir_escribir : ℕ → ℕ → List ℕ → Peticion
  pedir_leer : ℕ → ℕ → ℕ → Peticion
  desconocida : Peticion

pub data Respuesta : Type 0 where
  codigo_error : ℕ → Respuesta
  instruccion : List ℕ → Respuesta
  codigo : Codigo → Respuesta
  direccion : ℕ → Respuesta
  tamanio_pagina : ℕ → Respuesta
  datos : List ℕ → Respuesta
  nada : Respuesta

abbrev codigo_programa : Option (List (List ℕ)) → ℕ
codigo_programa none = 1
codigo_programa (some is) = 0

unfoldable pub agregar_proceso : Memoria → Pcb → Option (List (List ℕ)) → Memoria
agregar_proceso m pcb programa =
    let p : Proceso = record {
      instrucciones = programa;
      pcb = pcb;
      cant_paginas = 0;
      paginas = [];
    } in
    record m { procesos = m.procesos ++ (p ∷ []) }

unfoldable pub instruccion_de : Memoria → ℕ → ℕ → Option (List ℕ)
instruccion_de m pid pc = do
  p ← buscar_proceso pid m.procesos
  is ← p.instrucciones
  get_elem? is pc

-- The size that was read as a uint32_t is an int from here on.
unfoldable pub resize : Memoria → ℕ → ℕ → Option (Codigo × Memoria)
unfolding int_of_u32
resize m pid bytes = do
  p ← buscar_proceso pid m.procesos
  (c, q, fs) ← resize_proceso m.tamanio_pagina p (int_of_u32 bytes) m.frames
  some (c, record m { procesos = guardar_proceso pid q m.procesos; frames = fs })

unfoldable pub eliminar : Memoria → ℕ → Option Memoria
eliminar m pid = do
  p ← buscar_proceso pid m.procesos
  (ps, fs) ← quitar_paginas 0 p.cant_paginas p.paginas m.frames
  some (record m { procesos = quitar_proceso pid m.procesos; frames = fs })

unfoldable pub direccion_de : Memoria → ℕ → ℕ → Option ℕ
direccion_de m pid pagina = do
  p ← buscar_proceso pid m.procesos
  n ← get_elem? p.paginas pagina
  direccion_frame m.frames n

unfoldable pub atender : Memoria → Peticion → Option (Respuesta × Memoria)
atender m (recibir_proceso pcb programa) =
    some (codigo_error (codigo_programa programa), agregar_proceso m pcb programa)
atender m (solicitar_instruccion pid pc) = instruccion_de m pid pc >>= λ s. some (instruccion s, m)
atender m (pedir_resize pid bytes) = resize m pid bytes >>= λ r. some (codigo r.0, r.1)
atender m (eliminar_proceso pid) = eliminar m pid >>= λ m'. some (codigo cero, m')
atender m (solicitar_direccion_fisica pid pagina) =
    direccion_de m pid pagina >>= λ a. some (direccion a, m)
atender m solicitar_tamanio_pagina = some (tamanio_pagina m.tamanio_pagina, m)
atender m (pedir_escribir pid a value) = escribir m a value pid >>= λ m'. some (codigo cero, m')
atender m (pedir_leer pid a n) = leer m a n pid >>= λ s. some (datos s, m)
atender m desconocida = some (nada, m)

-- The loop of ServerMemoria over the requests of the connections, in the order of the mutexes.
unfoldable pub servir : Memoria → List Peticion → Option (List Respuesta × Memoria)
servir m [] = some ([], m)
servir m (r ∷ rs) = do
  (a, m') ← atender m r
  (respuestas, m'') ← servir m' rs
  some (a ∷ respuestas, m'')
