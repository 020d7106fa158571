-- ===== src/Tests/Memoria.antt =====
-- The memory server with four frames of 16 bytes and two processes.
use tp_2024_1c_asado_criollo.Prelude.{
  pos, opuesto, int_of_u32, ℕ, ◌+◌, ◌*◌, ◌≤◌, ◌<◌, ◌≡◌, refl, List, [], ◌∷◌, none, some, arith,
  true, false, length, get_elem?,
}
use tp_2024_1c_asado_criollo.Commons.Pcb.{crear_pcb}
use tp_2024_1c_asado_criollo.Memoria.Frames.{
  Proceso, Codigo, cero, crear_frames, cant_paginas_nuevo, resize_proceso, cambiar_paginas, ampliar,
  ocupar_siguiente_frame, ocupar_desde, quitar_paginas, liberar_frame, list_remove,
}
use tp_2024_1c_asado_criollo.Memoria.Frames.Occupancy.{ocup, veces, libres}
use tp_2024_1c_asado_criollo.Memoria.Frames.Resize.{Resized, cant_paginas_nuevo_lem}
use tp_2024_1c_asado_criollo.Memoria.State.{
  Memoria, inicializar_memoria, buscar_proceso, guardar_proceso, quitar_proceso, filtrar_pid,
}
use tp_2024_1c_asado_criollo.Memoria.Access.Pages.{marco}
use tp_2024_1c_asado_criollo.Memoria.Access.Rw.{Logica}
use tp_2024_1c_asado_criollo.Memoria.Access.RoundTrip.{Guardado, leer-escribir}
use tp_2024_1c_asado_criollo.Memoria.Server.{
  Peticion, Respuesta, agregar_proceso, resize, eliminar, atender, servir,
}
use tp_2024_1c_asado_criollo.Memoria.Server.Invariant.{IsValid}
use tp_2024_1c_asado_criollo.Memoria.Server.Preserve.{resize_lem, eliminar_lem, otras}
use tp_2024_1c_asado_criollo.Memoria.Server.Isolation.{IsValid-IsTabla, escribir_aislado}
use tp_2024_1c_asado_criollo.Memoria.Server.Run.{servir_inicial-IsValid}

abbrev peticiones : List Peticion
peticiones =
    Peticion.recibir_proceso (crear_pcb 0 2) none
    ∷ Peticion.recibir_proceso (crear_pcb 1 2) none
    ∷ Peticion.pedir_resize 0 40
    ∷ Peticion.pedir_resize 0 20
    ∷ Peticion.pedir_resize 1 16
    ∷ []

abbrev respuestas : List Respuesta
respuestas =
    Respuesta.codigo_error 1
    ∷ Respuesta.codigo_error 1
    ∷ Respuesta.codigo cero
    ∷ Respuesta.codigo cero
    ∷ Respuesta.codigo cero
    ∷ []

abbrev pub proceso : ℕ → List ℕ → Proceso
proceso pid paginas = record {
  instrucciones = none;
  pcb = crear_pcb pid 2;
  cant_paginas = length paginas;
  paginas = paginas;
}

abbrev pub cuatro_marcos : Memoria
cuatro_marcos = record {
  procesos = proceso 0 (0 ∷ 1 ∷ []) ∷ proceso 1 (2 ∷ []) ∷ [];
  frames =
      record { direccion_fisica = 1000; ocupado = true }
      ∷ record { direccion_fisica = 1016; ocupado = true }
      ∷ record { direccion_fisica = 1032; ocupado = true }
      ∷ record { direccion_fisica = 1048; ocupado = false }
      ∷ [];
  base = 1000;
  bytes = λ x. 0;
  tamanio_memoria = 64;
  tamanio_pagina = 16;
}

servida :
    servir (inicializar_memoria 1000 (λ x. 0) 64 16) peticiones ≡ some (respuestas, cuatro_marcos)
unfolding servir inicializar_memoria crear_frames atender resize resize_proceso agregar_proceso
    int_of_u32 cambiar_paginas crear_pcb buscar_proceso cant_paginas_nuevo guardar_proceso ampliar
    ocupar_siguiente_frame ocupar_desde quitar_paginas liberar_frame list_remove
servida = refl

servir_inicial-IsValid_example : IsValid cuatro_marcos
servir_inicial-IsValid_example =
    servir_inicial-IsValid 1000 (λ x. 0) 64 16 peticiones {as' = respuestas} {m = cuatro_marcos}
      servida

pub cuatro_marcos-IsValid : IsValid cuatro_marcos
cuatro_marcos-IsValid =
    servir_inicial-IsValid 1000 (λ x. 0) 64 16 peticiones {as' = respuestas} {m = cuatro_marcos}
      servida

pub esta_0 : buscar_proceso 0 cuatro_marcos.procesos ≡ some (proceso 0 (0 ∷ 1 ∷ []))
unfolding buscar_proceso crear_pcb
esta_0 = refl

esta_1 : buscar_proceso 1 cuatro_marcos.procesos ≡ some (proceso 1 (2 ∷ []))
unfolding buscar_proceso crear_pcb
esta_1 = refl

-- Four pages are asked for where one frame is left.
resize_lem_example :
    (c : Codigo) × (m' : Memoria) × (q : Proceso) × (resize cuatro_marcos 1 64 ≡ some (c, m'))
    × IsValid m'
    × (m'.procesos ≡ guardar_proceso 1 q cuatro_marcos.procesos)
    × (m'.bytes ≡ cuatro_marcos.bytes)
    × Resized 4 (otras cuatro_marcos 1) (proceso 1 (2 ∷ [])) cuatro_marcos.frames c q m'.frames
unfolding cant_paginas_nuevo int_of_u32
resize_lem_example = resize_lem cuatro_marcos 1 64 cuatro_marcos-IsValid refl esta_1

eliminar_lem_example :
    (m' : Memoria) × (eliminar cuatro_marcos 0 ≡ some m')
    × IsValid m'
    × (m'.procesos ≡ quitar_proceso 0 cuatro_marcos.procesos)
    × (libres m'.frames ≡ 1 + 2)
    × ((j : ℕ) → veces j (0 ∷ 1 ∷ []) + ocup j m'.frames ≡ ocup j cuatro_marcos.frames)
eliminar_lem_example = eliminar_lem cuatro_marcos 0 cuatro_marcos-IsValid esta_0

logica : Logica cuatro_marcos 0 (0 ∷ 1 ∷ []) 0 0 14
unfolding filtrar_pid buscar_proceso crear_pcb
logica = record {
  proceso = refl;
  tabla = IsValid-IsTabla 0 cuatro_marcos-IsValid esta_0;
  pagina = refl;
  desplazamiento = omega arith;
}

-- Six bytes from offset 14 of the first page on.
abbrev valor : List ℕ
valor = 1 ∷ 2 ∷ 3 ∷ 4 ∷ 5 ∷ 6 ∷ []

escribir_aislado_example :
    (c : ℕ → ℕ) × Guardado cuatro_marcos 0 (marco cuatro_marcos 0 + 14) (0 ∷ 1 ∷ []) valor c
    × ((j k x : ℕ)
        → get_elem? (2 ∷ []) j ≡ some k
        → marco cuatro_marcos k ≤ x
        → x < marco cuatro_marcos k + 16
        → c x ≡ 0)
escribir_aislado_example =
    escribir_aislado 0 1 cuatro_marcos-IsValid (omega arith) esta_0 esta_1 0 0 14 valor refl
      (omega arith) (omega arith)

leer-escribir_example :
    (c : ℕ → ℕ) × Guardado cuatro_marcos 0 (marco cuatro_marcos 0 + 14) (0 ∷ 1 ∷ []) valor c
leer-escribir_example = leer-escribir cuatro_marcos 0 (0 ∷ 1 ∷ []) 0 0 14 logica valor (omega arith)

cant_paginas_nuevo_lem_example :
    ((n : ℕ) × (cant_paginas_nuevo (pos 40) 16 ≡ pos n) × (40 ≤ n * 16) × (n * 16 < 40 + 16))
    × ((n : ℕ) × (cant_paginas_nuevo (opuesto 40) 16 ≡ opuesto n)
        × (n * 16 ≤ 40)
        × (40 < n * 16 + 16))
cant_paginas_nuevo_lem_example = cant_paginas_nuevo_lem 40 16 (omega arith)
