-- ===== src/Tests/Cpu.antt =====
-- The CPU with a TLB of two rows over the memory of Tests/Memoria.
use tp_2024_1c_asado_criollo.Prelude.{
  ltb_ℤ, ℕ, ◌+◌, ◌*◌, ◌<◌, ◌≡◌, ◌≢◌, refl, pos, true, false, [], ◌∷◌, Option, none, some, arith,
  ◌⊎◌, if◌then◌else◌, ◌==◌, ◌^◌,
}
use tp_2024_1c_asado_criollo.Memoria.State.{Memoria}
use tp_2024_1c_asado_criollo.Cpu.Tlb.{
  undefined, lru, fifo, FilaTlb, Tlb, obtener_frame, actualizar_tlb, limpiar_tlb, newpagesize,
}
use tp_2024_1c_asado_criollo.Cpu.Tlb.Coherence.{
  IsValid, IsCoherente, FilaOk, Agregado, obtener_frame-Agregado, actualizar_tlb-Agregado,
}
use tp_2024_1c_asado_criollo.Cpu.Tlb.Clear.{limpiar_tlb-IsCoherente}
use tp_2024_1c_asado_criollo.Cpu.Mmu.{
  numero_pagina, calcular_desplazamiento, obtener_direccion_fisica,
}
use tp_2024_1c_asado_criollo.Cpu.Mmu.Translate.{
  calcular_desplazamiento_lem, obtener_direccion_fisica_lem,
}
use tp_2024_1c_asado_criollo.Cpu.Registros.{eax, ebx, ecx}
use tp_2024_1c_asado_criollo.Cpu.Registros.Layout.{valor_de, con_valor}
use tp_2024_1c_asado_criollo.Cpu.Decode.RoundTrip.{o_resize, o_mov_in, o_mov_out, significado}
use tp_2024_1c_asado_criollo.Cpu.Execute.{
  Cpu, sin_memoria, ejecutar_resize, ejecutar_mov_in, ejecutar_mov_out,
}
use tp_2024_1c_asado_criollo.Cpu.Conexion.{conexion_memoria}
use tp_2024_1c_asado_criollo.Cpu.Conexion.RoundTrip.{IsListo, Apunta, mov_in-mov_out}
use tp_2024_1c_asado_criollo.Cpu.Conexion.Resize.{ejecutar_resize-IsListo}
use tp_2024_1c_asado_criollo.Memoria.Frames.{Codigo}
use tp_2024_1c_asado_criollo.Memoria.Server.{resize}
use tp_2024_1c_asado_criollo.Tests.Sort.{ordenar, ordenar-IsSorted}
use tp_2024_1c_asado_criollo.Tests.Memoria.{cuatro_marcos, cuatro_marcos-IsValid, esta_0, proceso}

-- Frame addresses of two pages of the process 0.
abbrev tabla : ℕ → ℕ → Option ℕ
tabla pagina pid =
    if pid == 0
    then (if pagina == 0 then some 1000 else if pagina == 1 then some 1016 else none)
    else none

-- One row per page, the LRU one in the second.
abbrev tlb_llena : Tlb
tlb_llena = record {
  filas =
      record {
        entrada = 0;
        is_free = false;
        pagina = pos 0;
        nro_marco = some 1000;
        pid = pos 0;
        tiempo_usado = pos 9;
      }
      ∷ record {
        entrada = 1;
        is_free = false;
        pagina = pos 1;
        nro_marco = some 1016;
        pid = pos 0;
        tiempo_usado = pos 5;
      }
      ∷ [];
  next_registro_libre = 2;
  algoritmo = lru;
  entradas_tlb = 2;
  tamanio_pagina = 16;
}

llena-IsValid : IsValid tlb_llena
llena-IsValid = record { largo = refl; registro = omega arith }

llena-IsCoherente : IsCoherente tabla tlb_llena.filas
llena-IsCoherente = (
  λ pagina pid a e f g. ground (arith, e, f, g),
  (λ pagina pid a e f g. ground (arith, e, f, g), tt),
)

obtener_frame-Agregado_example :
    let (o, t') = obtener_frame tlb_llena 12 1 0 in
    ((o ≡ none) ⊎ (o ≡ some 1016)) × Agregado tabla tlb_llena t'
obtener_frame-Agregado_example =
    obtener_frame-Agregado tabla tlb_llena 12 1 0 llena-IsValid llena-IsCoherente

actualizar_tlb-Agregado_example :
    (t' : Tlb) × (actualizar_tlb ordenar tlb_llena 12 1016 1 0 ≡ some t')
    × Agregado tabla tlb_llena t'
actualizar_tlb-Agregado_example =
    actualizar_tlb-Agregado ordenar ordenar-IsSorted tabla tlb_llena 12 1016 1 0 llena-IsValid
      llena-IsCoherente refl (omega arith)

-- The process keeps one page.
abbrev tabla_menor : ℕ → ℕ → Option ℕ
tabla_menor pagina pid = if pid == 0 then (if pagina == 0 then some 1000 else none) else none

queda :
    (p q a : ℕ)
    → (q ≢ 0) ⊎ (ltb_ℤ (pos p) (newpagesize (pos 10) 16) ≡ true)
    → tabla p q ≡ some a
    → tabla_menor p q ≡ some a
unfolding newpagesize
queda p q a h e = ground (arith, h, e)

limpiar_tlb-IsCoherente_example : IsCoherente tabla_menor (limpiar_tlb tlb_llena 0 (pos 10)).filas
limpiar_tlb-IsCoherente_example =
    limpiar_tlb-IsCoherente tabla tabla_menor tlb_llena 0 (pos 10) queda llena-IsCoherente

calcular_desplazamiento_lem_example :
    (calcular_desplazamiento 16 23 (numero_pagina 16 23) ≡ 7)
    × (calcular_desplazamiento 16 23 (numero_pagina 16 23) < 16)
    × (numero_pagina 16 23 * 16 + calcular_desplazamiento 16 23 (numero_pagina 16 23) ≡ 23)
calcular_desplazamiento_lem_example = calcular_desplazamiento_lem 16 23 (omega arith)

obtener_direccion_fisica_lem_example :
    (t' : Tlb) × (obtener_direccion_fisica ordenar tabla tlb_llena 12 23 0 ≡ some (1016 + 7, t'))
    × Agregado tabla tlb_llena t'
obtener_direccion_fisica_lem_example =
    obtener_direccion_fisica_lem ordenar tabla tlb_llena 12 23 0 1016 ordenar-IsSorted (omega arith)
      llena-IsValid llena-IsCoherente refl

abbrev fila_vacia : ℕ → FilaTlb
fila_vacia i = record {
  entrada = i;
  is_free = true;
  pagina = undefined;
  nro_marco = none;
  pid = undefined;
  tiempo_usado = pos 0;
}

vacia-FilaOk : (f : ℕ → ℕ → Option ℕ) (i : ℕ) → FilaOk f (fila_vacia i)
vacia-FilaOk f i = λ pagina pid a e g h. absurd (ground (arith, h))

-- EBX points two bytes before the end of the first page.
abbrev cpu : Cpu Memoria
cpu = record {
  registros = record {
    pc = 0;
    ax = 0;
    bx = 0;
    cx = 0;
    dx = 0;
    eax = 123456;
    ebx = 14;
    ecx = 0;
    edx = 0;
    si = 0;
    di = 0;
  };
  tlb = record {
    filas = fila_vacia 0 ∷ fila_vacia 1 ∷ [];
    next_registro_libre = 0;
    algoritmo = fifo;
    entradas_tlb = 2;
    tamanio_pagina = 16;
  };
  buffer_retorno = record { size = 0; offset = 0; stream = [] };
  interrupcion_io = false;
  interrupcion_recursos = false;
  fin_proceso = false;
  interrupcion_out_of_memory = false;
  memoria = cuatro_marcos;
}

listo : IsListo cpu
listo = record {
  memoria = cuatro_marcos-IsValid;
  tlb = record { largo = refl; registro = omega arith };
  coherente = (vacia-FilaOk _ 0, (vacia-FilaOk _ 1, tt));
  pagina = refl;
  positivo = omega arith;
}

apunta : Apunta cpu 0 (proceso 0 (0 ∷ 1 ∷ [])) ebx 0 4
unfolding valor_de
apunta = record { proceso = esta_0; marcado = refl; cabe = omega arith }

en_rango : valor_de eax cpu.registros < 2 ^ 32
unfolding valor_de
en_rango = omega arith

mov_in-mov_out_example :
    (c₁ c₂ : Cpu Memoria) × (ejecutar_mov_out conexion_memoria ordenar 7 0
        (significado (λ s. 0) (o_mov_out ebx eax))
        cpu
      ≡ some c₁)
    × (ejecutar_mov_in conexion_memoria ordenar 7 0 (significado (λ s. 0) (o_mov_in ecx ebx)) c₁
        ≡ some c₂)
    × (c₂.registros ≡ con_valor ecx (valor_de eax cpu.registros) cpu.registros)
mov_in-mov_out_example =
    mov_in-mov_out ordenar ordenar-IsSorted 7 0 (λ s. 0) cpu ebx eax ecx listo apunta refl en_rango

-- The process 0 shrinks to one page.
ejecutar_resize-IsListo_example :
    (codigo : Codigo) × (c' : Cpu Memoria) × (ejecutar_resize conexion_memoria ordenar 7 0
        (significado (λ s. 16) (o_resize "16"))
        cpu
      ≡ some c')
    × (resize cuatro_marcos 0 (significado (λ s. 16) (o_resize "16")).valor
        ≡ some (codigo, c'.memoria))
    × (c'.interrupcion_out_of_memory ≡ sin_memoria codigo false)
    × (c'.registros ≡ cpu.registros)
    × IsListo c'
unfolding significado
ejecutar_resize-IsListo_example =
    ejecutar_resize-IsListo ordenar 7 0 (significado (λ s. 16) (o_resize "16")) cpu listo
      (omega arith) esta_0
