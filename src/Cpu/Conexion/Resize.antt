-- ===== src/Cpu/Conexion/Resize.antt =====
-- RESIZE of executeInstruccion over the memory server, with LimpiarTLB after it.
use tp_2024_1c_asado_criollo.Prelude.{
  ℕ, ◌<◌, ◌^◌, ◌≡◌, ◌≢◌, refl, sym, ap, ◌∙◌, List, [], ◌∷◌, some, length, arith, ◌⊎◌, inl, inr, ℤ,
  pos, ltb_ℤ, true, int_of_u32, int_of_u32-pos,
}
use tp_2024_1c_asado_criollo.Memoria.Frames.{Codigo, Proceso, cant_paginas_nuevo}
use tp_2024_1c_asado_criollo.Memoria.State.{Memoria, buscar_proceso}
use tp_2024_1c_asado_criollo.Memoria.Server.{resize, atender}
use tp_2024_1c_asado_criollo.Memoria.Server.Preserve.{resize_lem}
use tp_2024_1c_asado_criollo.Memoria.Server.Tables.{direccion_de-resize, resize-tamanio}
use tp_2024_1c_asado_criollo.Cpu.Tlb.{Tlb, FilaTlb, limpiar_filas, limpiar_tlb, newpagesize}
use tp_2024_1c_asado_criollo.Cpu.Tlb.Coherence
use tp_2024_1c_asado_criollo.Cpu.Tlb.Clear.{limpiar_tlb-IsCoherente}
use tp_2024_1c_asado_criollo.Cpu.Decode.{TInstruccion}
use tp_2024_1c_asado_criollo.Cpu.Execute.{Cpu, sin_memoria, ejecutar_resize}
use tp_2024_1c_asado_criollo.Cpu.Conexion.{
  conexion_memoria, pedir_resize, solicitar_direccion_fisica,
}
use tp_2024_1c_asado_criollo.Cpu.Conexion.RoundTrip.{IsListo, solicitar-direccion_de}

-- The CPU and the memory round the number of pages up alike, for a size that is not negative.
newpagesize-cant_paginas :
    (n t : ℕ) → (k : ℕ) × (newpagesize (pos n) t ≡ pos k) × (cant_paginas_nuevo (pos n) t ≡ pos k)
unfolding newpagesize cant_paginas_nuevo
newpagesize-cant_paginas n t = (_, refl, ap pos (ground arith))

menor_que : (pg nuevo : ℕ) {P : Type 0} → P ⊎ (ltb_ℤ (pos pg) (pos nuevo) ≡ true) → P ⊎ (pg < nuevo)
menor_que pg nuevo (inl p) = inl p
menor_que pg nuevo (inr h) = inr (ground arith)

length-limpiar_filas :
    (pid : ℕ) (n : ℤ) (rs : List FilaTlb) → length (limpiar_filas pid n rs) ≡ length rs
unfolding limpiar_filas
length-limpiar_filas pid n [] = refl
length-limpiar_filas pid n (r ∷ rs) = omega (arith, length-limpiar_filas pid n rs)

limpiar_tlb-IsValid :
    (t : Tlb) (pid : ℕ) (n : ℤ) → Coherence.IsValid t → Coherence.IsValid (limpiar_tlb t pid n)
unfolding limpiar_tlb
limpiar_tlb-IsValid t pid n v = record {
  largo = length-limpiar_filas pid (newpagesize n t.tamanio_pagina) t.filas ∙ v.largo;
  registro = v.registro;
}

pedir_resize_lem :
    (m : Memoria) (pid n : ℕ) {c : Codigo} {m' : Memoria}
    → resize m pid n ≡ some (c, m')
    → pedir_resize m pid n ≡ some (c, m')
unfolding pedir_resize atender
pedir_resize_lem m pid n e = rw e refl

-- On a CPU whose TLB is valid and agrees with a valid memory, RESIZE below 2 ^ 31, of a process
-- that the memory has, returns, out of memory exactly when the memory answers -1 or it was so
-- before, and leaves the memory valid, the TLB valid and in agreement with the new page tables, and
-- the registers as they were.
pub ejecutar_resize-IsListo :
    (list_sorted : List FilaTlb → List FilaTlb) (ahora pid : ℕ) (i : TInstruccion) (c : Cpu Memoria)
    {p : Proceso}
    → IsListo c
    → i.valor < 2 ^ 31
    → buscar_proceso pid c.memoria.procesos ≡ some p
    → (codigo : Codigo) × (c' : Cpu Memoria) × (ejecutar_resize conexion_memoria list_sorted ahora
          pid i c
        ≡ some c')
      × (resize c.memoria pid i.valor ≡ some (codigo, c'.memoria))
      × (c'.interrupcion_out_of_memory ≡ sin_memoria codigo c.interrupcion_out_of_memory)
      × (c'.registros ≡ c.registros)
      × IsListo c'
unfolding ejecutar_resize
ejecutar_resize-IsListo ls ahora pid i c {p} h chico e =
    let m = c.memoria in
    let n = i.valor in
    let (nuevo, f₁, f₂) = newpagesize-cant_paginas n m.tamanio_pagina in
    let es = int_of_u32-pos n chico in
    let cpu_redondea : newpagesize (int_of_u32 n) c.tlb.tamanio_pagina ≡ pos nuevo =
      rw (es, h.pagina) f₁ in
    let memoria_redondea : cant_paginas_nuevo (int_of_u32 n) m.tamanio_pagina ≡ pos nuevo =
      rw es f₂ in
    let (k, m', q, r, v, s, b, z) = resize_lem m pid n h.memoria memoria_redondea e in
    let tam = resize-tamanio m pid n r in
    let cambia : (pg q a : ℕ)
        → (q ≢ pid) ⊎ (ltb_ℤ (pos pg) (newpagesize (int_of_u32 n) c.tlb.tamanio_pagina) ≡ true)
        → solicitar_direccion_fisica m pg q ≡ some a
        → solicitar_direccion_fisica m' pg q ≡ some a =
      λ pg q a o f.
        solicitar-direccion_de m' pg q
        ∙ direccion_de-resize m m' pid nuevo e s z pg q a
            (menor_que pg nuevo (rw cpu_redondea at o)) (sym (solicitar-direccion_de m pg q) ∙ f) in
    (
      k,
      record c {
        memoria = m';
        interrupcion_out_of_memory = sin_memoria k c.interrupcion_out_of_memory;
        tlb = limpiar_tlb c.tlb pid (int_of_u32 n);
      },
      rw (pedir_resize_lem m pid n r) refl,
      r,
      refl,
      refl,
      record {
        memoria = v;
        tlb = limpiar_tlb-IsValid c.tlb pid (int_of_u32 n) h.tlb;
        coherente =
            limpiar_tlb-IsCoherente (solicitar_direccion_fisica m) (solicitar_direccion_fisica m')
              c.tlb pid (int_of_u32 n) cambia h.coherente;
        pagina = unfold limpiar_tlb in h.pagina ∙ sym tam;
        positivo = rw tam h.positivo;
      },
    )
