-- ===== src/Cpu/Conexion/RoundTrip.antt =====
-- The CPU's instructions on memory over the memory server: through the MMU, the TLB and the page
-- tables to the bytes and back.
use tp_2024_1c_asado_criollo.Prelude.{
  ℕ, ◌+◌, ◌-◌, ◌*◌, ◌/◌, ◌%◌, ◌^◌, ◌≤◌, ◌<◌, ◌≡◌, refl, sym, ap, ◌∙◌, Bool, true, false, String,
  List, Option, some, length, get_elem?, if◌then◌else◌, arith, Option-cases, inl, inr, subst,
}
use native.Mathlib.Nat.{div-add-mod, mod-eq_of_lt}
use tp_2024_1c_asado_criollo.Commons.Buffer.{u32_of_bytes}
use tp_2024_1c_asado_criollo.Commons.Buffer.Stream.{u32_of_bytes-bytes_u32}
use tp_2024_1c_asado_criollo.Memoria.Frames.{cero, Proceso}
use tp_2024_1c_asado_criollo.Memoria.State.{Memoria, buscar_proceso, filtrar_pid}
use tp_2024_1c_asado_criollo.Memoria.Access.{leer, escribir}
use tp_2024_1c_asado_criollo.Memoria.Access.Pages.{marco, con_bytes}
use tp_2024_1c_asado_criollo.Memoria.Access.Rw.{Logica}
use tp_2024_1c_asado_criollo.Memoria.Access.RoundTrip.{Guardado, leer-escribir}
use tp_2024_1c_asado_criollo.Memoria.Server.{direccion_de, atender}
use tp_2024_1c_asado_criollo.Memoria.Server.Invariant.{IsValid}
use tp_2024_1c_asado_criollo.Memoria.Server.Isolation.{IsValid-IsTabla, IsValid-direccion_de}
use tp_2024_1c_asado_criollo.Cpu.Tlb.{Tlb, FilaTlb}
use tp_2024_1c_asado_criollo.Cpu.Tlb.Coherence.{IsCoherente, IsSorted, Agregado}
use tp_2024_1c_asado_criollo.Cpu.Tlb.Coherence
use tp_2024_1c_asado_criollo.Cpu.Mmu.Translate.{obtener_direccion_fisica_lem}
use tp_2024_1c_asado_criollo.Cpu.Registros.{Registro}
use tp_2024_1c_asado_criollo.Cpu.Registros.Layout.{es_8bit, modulo, valor_de, con_valor}
use tp_2024_1c_asado_criollo.Cpu.Decode.RoundTrip.{o_mov_in, o_mov_out, significado}
use tp_2024_1c_asado_criollo.Cpu.Execute.{
  Cpu, bytes_registro, guardar_registro, direccion_de_registro, ejecutar_mov_in, ejecutar_mov_out,
}
use tp_2024_1c_asado_criollo.Cpu.Execute.Alu.{leer_registro_lem, guardar_registro_lem}
use tp_2024_1c_asado_criollo.Cpu.Conexion.{
  conexion_memoria, solicitar_direccion_fisica, leer_en_memoria, escribir_en_memoria,
}

solicitar_direccion_fisica_lem :
    (m : Memoria) (pagina pid : ℕ) {a : ℕ}
    → direccion_de m pid pagina ≡ some a
    → solicitar_direccion_fisica m pagina pid ≡ some a
unfolding solicitar_direccion_fisica atender
solicitar_direccion_fisica_lem m pagina pid e = rw e refl

pub solicitar-direccion_de :
    (m : Memoria) (pagina pid : ℕ)
    → solicitar_direccion_fisica m pagina pid ≡ direccion_de m pid pagina
unfolding solicitar_direccion_fisica atender
solicitar-direccion_de m pagina pid = elim (Option-cases (direccion_de m pid pagina)) [
  | inl e ↦ rw e refl
  | inr (a, e) ↦ rw e refl
]

-- The content of the memory plays no part in the addresses.
solicitar-con_bytes :
    (m : Memoria) (k : ℕ → ℕ)
    → solicitar_direccion_fisica m ≡ solicitar_direccion_fisica (con_bytes m k)
unfolding direccion_de
solicitar-con_bytes m k = λ i pagina p.
    (solicitar-direccion_de m pagina p ∙ sym (solicitar-direccion_de (con_bytes m k) pagina p)) i

leer_en_memoria_lem :
    (m : Memoria) (pid direccion tamanio : ℕ) {s : List ℕ}
    → leer m direccion tamanio pid ≡ some s
    → leer_en_memoria m pid direccion tamanio ≡ some s
unfolding leer_en_memoria atender
leer_en_memoria_lem m pid direccion tamanio e = rw e refl

escribir_en_memoria_lem :
    (m : Memoria) (pid direccion : ℕ) (value : List ℕ) {m' : Memoria}
    → escribir m direccion value pid ≡ some m'
    → escribir_en_memoria m pid direccion value ≡ some (cero, m')
unfolding escribir_en_memoria atender
escribir_en_memoria_lem m pid direccion value e = rw e refl

-- The TLB of a CPU agrees with the memory at the other end.
pub record IsListo (c : Cpu Memoria) : Type 0 where
  pub memoria : IsValid c.memoria
  pub tlb : Coherence.IsValid c.tlb
  pub coherente : IsCoherente (solicitar_direccion_fisica c.memoria) c.tlb.filas
  pub pagina : c.tlb.tamanio_pagina ≡ c.memoria.tamanio_pagina
  pub positivo : 0 < c.memoria.tamanio_pagina

-- The register holds a logical address of the process with frame `n`, with room for `k` bytes.
pub record Apunta (c : Cpu Memoria) (pid : ℕ) (p : Proceso) (rg : Registro) (n k : ℕ) : Type 0 where
  pub proceso : buscar_proceso pid c.memoria.procesos ≡ some p
  pub marcado : get_elem? p.paginas (valor_de rg c.registros / c.memoria.tamanio_pagina) ≡ some n
  pub cabe :
      valor_de rg c.registros % c.memoria.tamanio_pagina + k
      ≤ (length p.paginas - valor_de rg c.registros / c.memoria.tamanio_pagina)
        * c.memoria.tamanio_pagina

module _ (list_sorted : List FilaTlb → List FilaTlb) (ordenada : IsSorted list_sorted)
    (ahora pid : ℕ) where
  -- The address that the CPU computes from a register.
  direccion_de_registro_lem :
      (c : Cpu Memoria) (rg : Registro) {p : Proceso} {n k : ℕ}
      → IsListo c
      → Apunta c pid p rg n k
      → (t : Tlb) × (direccion_de_registro conexion_memoria list_sorted ahora pid (es_8bit rg) rg c
          ≡ some (
            marco c.memoria n + valor_de rg c.registros % c.memoria.tamanio_pagina,
            record c { tlb = t },
          ))
        × Agregado (solicitar_direccion_fisica c.memoria) c.tlb t
  unfolding direccion_de_registro
  direccion_de_registro_lem c rg {p} {n} h a =
      let dir = valor_de rg c.registros in
      let pedir : ℕ → ℕ → Option ℕ = solicitar_direccion_fisica c.memoria in
      let e =
        solicitar_direccion_fisica_lem c.memoria (dir / c.memoria.tamanio_pagina) pid
          (IsValid-direccion_de pid h.memoria a.proceso _ a.marcado) in
      let r =
        obtener_direccion_fisica_lem list_sorted pedir c.tlb ahora dir pid (marco c.memoria n)
          ordenada (rw h.pagina h.positivo) h.tlb h.coherente (rw h.pagina e) in
      (r.0, rw (leer_registro_lem rg c.registros, r.1, h.pagina) refl, r.2)

-- The width of a register in bytes.
abbrev pub ancho : Registro → ℕ
ancho rg = if es_8bit rg then 1 else 4

length-bytes_registro : (b : Bool) (v : ℕ) → length (bytes_registro b v) ≡ (if b then 1 else 4)
length-bytes_registro true v = refl
length-bytes_registro false v = refl

u32_of_bytes-bytes_registro :
    (b : Bool) (v : ℕ) → v < (if b then 256 else 2 ^ 32) → u32_of_bytes (bytes_registro b v) ≡ v
unfolding u32_of_bytes
u32_of_bytes-bytes_registro true v h = omega arith
u32_of_bytes-bytes_registro false v h = u32_of_bytes-bytes_u32 v h

module _ (list_sorted : List FilaTlb → List FilaTlb) (ordenada : IsSorted list_sorted)
    (ahora pid : ℕ) where
  ejecutar_mov_out_lem :
      (atoi : String → ℕ) (c : Cpu Memoria) (ra rv : Registro) {p : Proceso} {n : ℕ}
      → IsListo c
      → Apunta c pid p ra n (ancho rv)
      → (k : ℕ → ℕ) × (t : Tlb) × (ejecutar_mov_out conexion_memoria list_sorted ahora pid
            (significado atoi (o_mov_out ra rv))
            c
          ≡ some (record c { tlb = t; memoria = con_bytes c.memoria k }))
        × Guardado c.memoria pid
            (marco c.memoria n + valor_de ra c.registros % c.memoria.tamanio_pagina)
            p.paginas
            (bytes_registro (es_8bit rv) (valor_de rv c.registros))
            k
        × IsListo (record c { tlb = t; memoria = con_bytes c.memoria k })
  unfolding ejecutar_mov_out significado filtrar_pid
  ejecutar_mov_out_lem atoi c ra rv {p} {n} h a =
      let m = c.memoria in
      let dir = valor_de ra c.registros in
      let v = bytes_registro (es_8bit rv) (valor_de rv c.registros) in
      let (t, e, g) = direccion_de_registro_lem list_sorted ordenada ahora pid c ra h a in
      let l : Logica m pid p.paginas (dir / m.tamanio_pagina) n (dir % m.tamanio_pagina) = record {
        proceso = rw a.proceso refl;
        tabla = IsValid-IsTabla pid h.memoria a.proceso;
        pagina = a.marcado;
        desplazamiento = omega (arith, h.positivo, div-add-mod dir m.tamanio_pagina);
      } in
      let (k, w) =
        leer-escribir m pid p.paginas (dir / m.tamanio_pagina) n (dir % m.tamanio_pagina) l v
          (rw (length-bytes_registro (es_8bit rv) (valor_de rv c.registros)) a.cabe) in
      (
        k,
        t,
        rw (e, leer_registro_lem rv c.registros, escribir_en_memoria_lem m pid _ v w.vuelve) refl,
        w,
        record {
          memoria = record {
            exacto = h.memoria.exacto;
            cuentas = h.memoria.cuentas;
            lugares = h.memoria.lugares;
          };
          tlb = g.valido;
          coherente = subst (λ f. IsCoherente f t.filas) (solicitar-con_bytes m k) g.coherente;
          pagina = g.misma_pagina ∙ h.pagina;
          positivo = h.positivo;
        },
      )

  leido :
      (rd rv : Registro) (x : ℕ)
      → es_8bit rd ≡ es_8bit rv
      → x < modulo rv
      → u32_of_bytes (bytes_registro (es_8bit rv) x) % modulo rd ≡ x
  leido rd rv x e h = rw (u32_of_bytes-bytes_registro (es_8bit rv) x h, e) (mod-eq_of_lt h)

  -- On a CPU whose TLB is valid and agrees with a valid memory, MOV_OUT of a register at a logical
  -- address whose page has a frame, with room for the value in the pages from there on, then MOV_IN
  -- from the same address register into a register of the same width, returns; the second register
  -- then holds the value and every other register is as it was: over the TLB, the MMU and the
  -- memory server, also across a page boundary.
  pub mov_in-mov_out :
      (atoi : String → ℕ) (c : Cpu Memoria) (ra rv rd : Registro) {p : Proceso} {n : ℕ}
      → IsListo c
      → Apunta c pid p ra n (ancho rv)
      → es_8bit rd ≡ es_8bit rv
      → valor_de rv c.registros < modulo rv
      → (c₁ c₂ : Cpu Memoria) × (ejecutar_mov_out conexion_memoria list_sorted ahora pid
            (significado atoi (o_mov_out ra rv))
            c
          ≡ some c₁)
        × (ejecutar_mov_in conexion_memoria list_sorted ahora pid
              (significado atoi (o_mov_in rd ra))
              c₁
            ≡ some c₂)
        × (c₂.registros ≡ con_valor rd (valor_de rv c.registros) c.registros)
  unfolding ejecutar_mov_in significado
  mov_in-mov_out atoi c ra rv rd {p} {n} h a anchos rango =
      let (k, t, e, w, listo) = ejecutar_mov_out_lem atoi c ra rv h a in
      let c₁ : Cpu Memoria = record c { tlb = t; memoria = con_bytes c.memoria k } in
      let x = valor_de rv c.registros in
      let v = bytes_registro (es_8bit rv) x in
      let a₁ : Apunta c₁ pid p ra n (ancho rv) = record {
        proceso = a.proceso;
        marcado = a.marcado;
        cabe = a.cabe;
      } in
      let (t₂, e₂, g₂) = direccion_de_registro_lem list_sorted ordenada ahora pid c₁ ra listo a₁ in
      let dir = marco c.memoria n + valor_de ra c.registros % c.memoria.tamanio_pagina in
      let lee : leer (con_bytes c.memoria k) dir (if es_8bit rd then 1 else 4) pid ≡ some v =
        rw (anchos, ← length-bytes_registro (es_8bit rv) x) w.lee in
      (
        c₁,
        record c₁ {
          tlb = t₂;
          registros = guardar_registro (es_8bit rd) rd (u32_of_bytes v) c.registros;
        },
        e,
        rw
            (
              e₂,
              leer_en_memoria_lem (con_bytes c.memoria k) pid dir (if es_8bit rd then 1 else 4) lee,
            )
            refl,
        guardar_registro_lem rd (u32_of_bytes v) c.registros
            ∙ ap (λ z. con_valor rd z c.registros) (leido rd rv x anchos rango),
      )
