-- ===== src/Cpu/Conexion.antt =====
-- cpu/src/conexion_memoria.c over the server of memoria/src/main.c: each request is attended in
-- the state in which it arrives.
pub mod RoundTrip
pub mod Resize
use tp_2024_1c_asado_criollo.Prelude.{ℕ, List, Option, none, some, ◌>>=◌}
use tp_2024_1c_asado_criollo.Memoria.Frames.{Codigo}
use tp_2024_1c_asado_criollo.Memoria.State.{Memoria}
use tp_2024_1c_asado_criollo.Memoria.Server.{Peticion, Respuesta, atender}
use tp_2024_1c_asado_criollo.Cpu.Execute.{ConexionMemoria}

-- What the reply holds, if it is of the kind that the request expects.
abbrev pub en_direccion : Respuesta → Option ℕ
en_direccion (Respuesta.direccion a) = some a
en_direccion _ = none

abbrev pub en_datos : Respuesta → Option (List ℕ)
en_datos (Respuesta.datos s) = some s
en_datos _ = none

abbrev pub en_codigo : Respuesta × Memoria → Option (Codigo × Memoria)
en_codigo (Respuesta.codigo c, m) = some (c, m)
en_codigo _ = none

unfoldable pub solicitar_direccion_fisica : Memoria → ℕ → ℕ → Option ℕ
solicitar_direccion_fisica m pagina pid =
    atender m (Peticion.solicitar_direccion_fisica pid pagina) >>= λ r. en_direccion r.0

unfoldable pub leer_en_memoria : Memoria → ℕ → ℕ → ℕ → Option (List ℕ)
leer_en_memoria m pid direccion tamanio =
    atender m (Peticion.pedir_leer pid direccion tamanio) >>= λ r. en_datos r.0

unfoldable pub escribir_en_memoria : Memoria → ℕ → ℕ → List ℕ → Option (Codigo × Memoria)
escribir_en_memoria m pid direccion value =
    atender m (Peticion.pedir_escribir pid direccion value) >>= en_codigo

unfoldable pub pedir_resize : Memoria → ℕ → ℕ → Option (Codigo × Memoria)
pedir_resize m pid tamanio = atender m (Peticion.pedir_resize pid tamanio) >>= en_codigo

abbrev pub conexion_memoria : ConexionMemoria Memoria
conexion_memoria = record {
  solicitar_direccion_fisica = solicitar_direccion_fisica;
  leer_en_memoria = leer_en_memoria;
  escribir_en_memoria = escribir_en_memoria;
  pedir_resize = pedir_resize;
}
