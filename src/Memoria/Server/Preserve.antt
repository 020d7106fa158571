-- ===== src/Memoria/Server/Preserve.antt =====
-- The invariant of the memory server and each request.
use tp_2024_1c_asado_criollo.Prelude.{
  ℕ, pos, int_of_u32, ◌+◌, ◌≡◌, refl, ap, ◌∙◌, List, Option, some, arith,
}
use tp_2024_1c_asado_criollo.Commons.Pcb.{Pcb}
use tp_2024_1c_asado_criollo.Memoria.Frames.{Proceso, Codigo, cant_paginas_nuevo}
use tp_2024_1c_asado_criollo.Memoria.Frames.Occupancy.{ocup, libres, veces}
use tp_2024_1c_asado_criollo.Memoria.Frames.Loops.{quitar_paginas-Quita}
use tp_2024_1c_asado_criollo.Memoria.Frames.Resize.{Resized, resize_proceso-Resized}
use tp_2024_1c_asado_criollo.Memoria.State.{
  Memoria, buscar_proceso, guardar_proceso, quitar_proceso,
}
use tp_2024_1c_asado_criollo.Memoria.Server.{agregar_proceso, resize, eliminar}
use tp_2024_1c_asado_criollo.Memoria.Server.Invariant.{
  veces_total, IsValid, veces_total-quitar, veces_total-guardar, veces_total-append, Cuentas-buscar,
  Cuentas-guardar, Cuentas-quitar, Cuentas-append,
}

pub agregar_proceso-IsValid :
    (m : Memoria) (pcb : Pcb) (programa : Option (List (List ℕ)))
    → IsValid m
    → IsValid (agregar_proceso m pcb programa)
unfolding agregar_proceso
agregar_proceso-IsValid m pcb programa v = record {
  exacto = λ j. veces_total-append j m.procesos _ ∙ omega (arith, v.exacto j);
  cuentas = Cuentas-append m.procesos _ v.cuentas (refl, tt);
  lugares = v.lugares;
}

-- The other uses of frame `j`, beside those of the process `pid`.
abbrev pub otras : Memoria → ℕ → ℕ → ℕ
otras m pid j = veces_total j (quitar_proceso pid m.procesos)

-- In a valid memory, RESIZE of a process that exists, with a size that, as the int that
-- ResizeProceso takes, rounds to no negative page count, returns and keeps the invariant: it
-- reaches that page count and answers 0, or it takes every free frame and answers -1; the pages
-- that stay keep their frames, the other processes and the bytes are untouched.
pub resize_lem :
    (m : Memoria) (pid bytes : ℕ) {nuevo : ℕ} {p : Proceso}
    → IsValid m
    → cant_paginas_nuevo (int_of_u32 bytes) m.tamanio_pagina ≡ pos nuevo
    → buscar_proceso pid m.procesos ≡ some p
    → (c : Codigo) × (m' : Memoria) × (q : Proceso) × (resize m pid bytes ≡ some (c, m'))
      × IsValid m'
      × (m'.procesos ≡ guardar_proceso pid q m.procesos)
      × (m'.bytes ≡ m.bytes)
      × Resized nuevo (otras m pid) p m.frames c q m'.frames
unfolding resize
resize_lem m pid bytes {nuevo} {p} v n e =
    let (c, q, fs, r, z) =
      resize_proceso-Resized (otras m pid) p m.frames (Cuentas-buscar pid m.procesos v.cuentas e)
        (λ j. veces_total-quitar pid j m.procesos e ∙ v.exacto j) m.tamanio_pagina
        (int_of_u32 bytes) n in
    (
      c,
      record m { procesos = guardar_proceso pid q m.procesos; frames = fs },
      q,
      rw (e, r),
      record {
        exacto = λ j. veces_total-guardar pid j q m.procesos e ∙ z.exacto j;
        cuentas = Cuentas-guardar pid q m.procesos v.cuentas z.cuenta;
        lugares = z.mismas ∙ v.lugares;
      },
      refl,
      refl,
      z,
    )

-- In a valid memory, ELIMINAR_PROCESO of a process that exists returns, keeps the invariant, gives
-- back exactly the frames of that process and takes it off the list.
pub eliminar_lem :
    (m : Memoria) (pid : ℕ) {p : Proceso}
    → IsValid m
    → buscar_proceso pid m.procesos ≡ some p
    → (m' : Memoria) × (eliminar m pid ≡ some m')
      × IsValid m'
      × (m'.procesos ≡ quitar_proceso pid m.procesos)
      × (libres m'.frames ≡ libres m.frames + p.cant_paginas)
      × ((j : ℕ) → veces j p.paginas + ocup j m'.frames ≡ ocup j m.frames)
unfolding eliminar
eliminar_lem m pid {p} v e =
    let cuenta = Cuentas-buscar pid m.procesos v.cuentas e in
    let (ps, fs, r, z) =
      quitar_paginas-Quita 0 p.cant_paginas (otras m pid) p.paginas m.frames (omega (arith, cuenta))
        (λ j. veces_total-quitar pid j m.procesos e ∙ v.exacto j) in
    let uso : (j : ℕ) → otras m pid j ≡ ocup j fs =
      λ j. ground (arith, z.exacto j, ap (veces j) z.paginas) in
    (
      record m { procesos = quitar_proceso pid m.procesos; frames = fs },
      rw (e, r),
      record {
        exacto = uso;
        cuentas = Cuentas-quitar pid m.procesos v.cuentas;
        lugares = z.mismas ∙ v.lugares;
      },
      refl,
      z.quedan,
      λ j. omega (arith, uso j, veces_total-quitar pid j m.procesos e, v.exacto j),
    )
