-- ===== src/Cpu/Execute.antt =====
-- executeInstruccion of cpu/src/cpu.c: one instruction over the registers, the TLB, the buffer
-- that returns to the kernel and the flags that end the cycle.
pub mod Io
pub mod Cycle
pub mod Alu
use tp_2024_1c_asado_criollo.Prelude.{
  int_of_u32, ℕ, ◌+◌, ◌-◌, ◌^◌, ◌%◌, Bool, true, false, List, [], ◌∷◌, Option, none, some, ◌==◌,
  ◌&&◌, not, if◌then◌else◌, ◌>>=◌,
}
use tp_2024_1c_asado_criollo.Commons.Buffer.{Buffer, u32_of_bytes, bytes_u32}
use tp_2024_1c_asado_criollo.Commons.Pcb.{Registros}
use tp_2024_1c_asado_criollo.Memoria.Frames.{Codigo, cero, menos_uno}
use tp_2024_1c_asado_criollo.Cpu.Tlb.{Tlb, FilaTlb, limpiar_tlb}
use tp_2024_1c_asado_criollo.Cpu.Mmu.{obtener_direccion_fisica}
use tp_2024_1c_asado_criollo.Cpu.Registros.{
  Registro, leer_byte, leer_palabra, guardar_byte, guardar_palabra,
}
use tp_2024_1c_asado_criollo.Cpu.Decode.{TInstruccion}

-- The CPU while a process runs, with the memory at the other end of its socket.
pub record Cpu (M : Type 0) : Type 0 where
  pub registros : Registros
  pub tlb : Tlb
  pub buffer_retorno : Buffer
  pub interrupcion_io : Bool
  pub interrupcion_recursos : Bool
  pub fin_proceso : Bool
  pub interrupcion_out_of_memory : Bool
  pub memoria : M

-- cpu/src/conexion_memoria.c: what the memory answers to the CPU's requests.
pub record ConexionMemoria (M : Type 0) : Type 0 where
  pub solicitar_direccion_fisica : M → ℕ → ℕ → Option ℕ
  pub leer_en_memoria : M → ℕ → ℕ → ℕ → Option (List ℕ)
  pub escribir_en_memoria : M → ℕ → ℕ → List ℕ → Option (Codigo × M)
  pub pedir_resize : M → ℕ → ℕ → Option (Codigo × M)

-- A register read as its flag says.
unfoldable pub leer_registro : Bool → Registro → Registros → ℕ
unfolding leer_byte leer_palabra
leer_registro true rg r = leer_byte rg r
leer_registro false rg r = leer_palabra rg r

unfoldable pub guardar_registro : Bool → Registro → ℕ → Registros → Registros
unfolding guardar_byte guardar_palabra
guardar_registro true rg v r = guardar_byte rg v r
guardar_registro false rg v r = guardar_palabra rg v r

unfoldable pub ejecutar_set : TInstruccion → Registros → Option Registros
ejecutar_set i r = do r1 ← i.registro1; some (guardar_registro i.registro18bit r1 i.valor r)

-- The four branches on the widths of the two registers.
unfoldable pub ejecutar_sum : TInstruccion → Registros → Option Registros
ejecutar_sum i r = do
  r1 ← i.registro1
  r2 ← i.registro2
  some (
      if i.registro18bit && i.registro28bit
      then guardar_byte r1 (leer_byte r1 r + leer_byte r2 r) r
      else if i.registro18bit && not i.registro28bit
      then guardar_byte r1 (leer_byte r1 r + leer_palabra r2 r % 256) r
      else if not i.registro18bit && not i.registro28bit
      then guardar_palabra r1 (leer_palabra r1 r + leer_palabra r2 r) r
      else guardar_palabra r1 (leer_palabra r1 r + leer_byte r2 r) r)

-- Words whatever the widths are; nothing on a null pointer.
unfoldable pub ejecutar_sub : TInstruccion → Registros → Option Registros
ejecutar_sub i r = elim i.registro1 [
  | none ↦ some r
  | some r1 ↦ elim i.registro2 [
    | none ↦ some r
    | some r2 ↦ some (guardar_palabra r1 (leer_palabra r1 r + (2 ^ 32 - leer_palabra r2 r)) r)
  ]
]

unfoldable pub ejecutar_jnz : TInstruccion → Registros → Option Registros
ejecutar_jnz i r = do
  r1 ← i.registro1
  if leer_palabra r1 r == 0
      then some r
      else i.registro2 >>= λ r2. some (guardar_palabra r2 i.valor r)

abbrev pub con_registros : {M : Type 0} → Cpu M → Option Registros → Option (Cpu M)
con_registros c o = o >>= λ r. some (record c { registros = r })

-- interrupcionOutOfMemory after an answer of the memory.
abbrev pub sin_memoria : Codigo → Bool → Bool
sin_memoria menos_uno b = true
sin_memoria cero b = b

-- The bytes of a register: one or four.
abbrev pub bytes_registro : Bool → ℕ → List ℕ
bytes_registro true v = (v % 256) ∷ []
bytes_registro false v = bytes_u32 v

-- The memory's instructions; `ahora` is the clock, `pid` is procesoEnEjecucion.
module _ {M : Type 0} (conexion : ConexionMemoria M) (list_sorted : List FilaTlb → List FilaTlb)
    (ahora pid : ℕ) where
  -- The physical address of the logical one that a register holds.
  unfoldable pub direccion_de_registro : Bool → Registro → Cpu M → Option (ℕ × Cpu M)
  direccion_de_registro es8 rg c = do
    (a, t) ←
        obtener_direccion_fisica list_sorted
          (λ pagina p. conexion.solicitar_direccion_fisica c.memoria pagina p) c.tlb ahora
          (leer_registro es8 rg c.registros) pid
    some (a, record c { tlb = t })

  -- LimpiarTLB takes the size as an int.
  unfoldable pub ejecutar_resize : TInstruccion → Cpu M → Option (Cpu M)
  ejecutar_resize i c = do
    (codigo, m) ← conexion.pedir_resize c.memoria pid i.valor
    some (record c {
      memoria = m;
      interrupcion_out_of_memory = sin_memoria codigo c.interrupcion_out_of_memory;
      tlb = limpiar_tlb c.tlb pid (int_of_u32 i.valor);
    })

  unfoldable pub ejecutar_mov_out : TInstruccion → Cpu M → Option (Cpu M)
  ejecutar_mov_out i c = do
    r1 ← i.registro1
    r2 ← i.registro2
    (a, c₁) ← direccion_de_registro i.registro18bit r1 c
    let valor = bytes_registro i.registro28bit (leer_registro i.registro28bit r2 c₁.registros)
    (codigo, m) ← conexion.escribir_en_memoria c₁.memoria pid a valor
    some (record c₁ {
      memoria = m;
      interrupcion_out_of_memory = sin_memoria codigo c₁.interrupcion_out_of_memory;
    })

  unfoldable pub ejecutar_mov_in : TInstruccion → Cpu M → Option (Cpu M)
  ejecutar_mov_in i c = do
    r1 ← i.registro1
    r2 ← i.registro2
    (a, c₁) ← direccion_de_registro i.registro28bit r2 c
    bs ← conexion.leer_en_memoria c₁.memoria pid a (if i.registro18bit then 1 else 4)
    some (record c₁ {
      registros = guardar_registro i.registro18bit r1 (u32_of_bytes bs) c₁.registros;
    })

  -- From SI to DI. The error code of the write is not looked at.
  unfoldable pub ejecutar_copy_string : TInstruccion → Cpu M → Option (Cpu M)
  ejecutar_copy_string i c = do
    r1 ← i.registro1
    r2 ← i.registro2
    (origen, c₁) ← direccion_de_registro false r1 c
    (destino, c₂) ← direccion_de_registro false r2 c₁
    bs ← conexion.leer_en_memoria c₂.memoria pid origen i.valor
    (codigo, m) ← conexion.escribir_en_memoria c₂.memoria pid destino bs
    some (record c₂ { memoria = m })
