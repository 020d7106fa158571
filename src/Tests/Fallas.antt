-- ===== src/Tests/Fallas.antt =====
-- Runs that show where the code goes wrong: the size -1 of RESIZE in the memory and in the TLB, and
-- an interface's error between WaitRecurso and the lines that make the process BLOCKED.
use tp_2024_1c_asado_criollo.Prelude.{
  ◌-◌, ◌+◌, ◌^◌, ◌≡◌, refl, true, false, [], ◌∷◌, none, pos, int_of_u32,
}
use tp_2024_1c_asado_criollo.Commons.Pcb.{Pcb, crear_pcb, exec, blocked, codigo_estado}
use tp_2024_1c_asado_criollo.Memoria.Frames.{cant_paginas_nuevo}
use tp_2024_1c_asado_criollo.Cpu.Tlb.{newpagesize}
use tp_2024_1c_asado_criollo.Kernel.Planificador.{Sistema}
use tp_2024_1c_asado_criollo.Kernel.Planificador.Desalojo.{terminar_solicitud}

-- RESIZE 4294967295: no page in the memory, one page for the TLB.
memoria_sin_paginas : cant_paginas_nuevo (int_of_u32 4294967295) 16 ≡ pos 0
unfolding cant_paginas_nuevo int_of_u32
memoria_sin_paginas = refl

tlb_con_una : newpagesize (int_of_u32 4294967295) 16 ≡ pos 1
unfolding newpagesize int_of_u32
tlb_con_una = refl

-- The process 0 waits for its interface and holds the one instance. The process 1 has just asked for
-- it, and is still EXEC.
abbrev bloqueado : Pcb
bloqueado = record (crear_pcb 0 3) { estado = codigo_estado blocked }

abbrev corriendo : Pcb
corriendo = record (crear_pcb 1 3) { estado = codigo_estado exec }

abbrev entre_medio : Sistema
entre_medio = record {
  kernel = record {
    process_list = bloqueado ∷ corriendo ∷ [];
    queue_new = [];
    queue_ready = [];
    cola_prioridad = [];
    multiprogramacion_curr = 2 ^ 31 + 2;
    multiprogramacion_max = 2 ^ 31 + 2;
  };
  recursos = record {
    recursos = record { nombre = "RA"; maxinstancias = 1; instancias_disponibles = 0 } ∷ [];
    peticiones =
        record { pid = 0; nombre_recurso = "RA"; ocupada = true }
        ∷ record { pid = 1; nombre_recurso = "RA"; ocupada = false }
        ∷ [];
  };
  bloqueados = [];
  interfaces = [];
  algoritmo_planificacion = "FIFO";
  quantum = 3;
  next_process_id = 2;
  terminar_proceso = false;
  desalojado = true;
  desaloja_proceso = 0;
}

-- The interface of the process 0 reports an error: the instance goes to the process 1, which is not
-- among the blocked ones.
despierta_antes : terminar_solicitud entre_medio 0 (2 ^ 32 - 1) ≡ none
unfolding terminar_solicitud
despierta_antes = refl
