-- ===== src/Lib.antt =====
-- Asado Criollo: an operating system in four modules that talk over sockets. kernel/ plans
-- processes, counts resources and queues requests for the interfaces; cpu/ runs one process at a
-- time, with a TLB and an MMU in front of the memory; memoria/ keeps frames, page tables and bytes;
-- entradasalida/ is the interfaces. utils/ has the buffers that they exchange and the process
-- control block.
--
-- Which file models which part:
--   Prelude, Prelude/*: Boolean tests, lists, integers and texts; a fault (a null pointer, a copy
--     out of bounds) is `none` throughout.
--   Commons/Buffer: t_buffer of utils/src/commons.c, with malloc as a parameter. Commons/Pcb: the
--     PCB, Registros and their wire format. Commons/Buffer/Stream and Commons/Pcb/Wire hold
--     their lemmas.
--   Memoria/Frames: LiberarFrame, OcuparSiguienteFrame, ResizeProceso of memoria/src/main.c.
--     Memoria/State: the globals and the searches. Memoria/Access: Leer, Escribir, buscar_pagina.
--     Memoria/Server: the requests of ServerMemoria, one function each, and the loop over them.
--   Cpu/Tlb, Cpu/Mmu: cpu/src/tlb.c and cpu/src/mmu.c. Cpu/Registros: the struct of the registers
--     as its pointers address it, since cpu/src/cpu.c writes through them at either width. Cpu/Decode:
--     parsearInstruccion over the tokens of strtok. Cpu/Execute, Cpu/Execute/Io and
--     Cpu/Execute/Cycle: executeInstruccion, an instruction a function, and EjecutarProceso.
--     Cpu/Conexion: cpu/src/conexion_memoria.c joined to the memory server.
--   Kernel/Recursos: WaitRecurso, SignalRecurso, OcuparRecurso of kernel/src/main.c. Kernel/Colas:
--     the queues of processes, the long-term planner and the choice of the short-term one.
--     Kernel/Interfaces: the interfaces, ValidarIO and the requests. Kernel/Planificador: the kernel as
--     a whole, with IniciarProceso and FinalizarProceso; Kernel/Planificador/Desalojo: the switch of
--     PlanificadorCortoPlazo, a case a function, and GestionarInterfaz. Diagrama, Invariant and the
--     other children hold the diagram of the five states and what keeps the queues in agreement with it.
--   EntradaSalida/Bitmap: the bitmap of free blocks of entradasalida/src/DialFS.c;
--     EntradaSalida/Nombres: the text of the file names, with insertAtEnd and deleteValue of
--     utils/src/commons.c; EntradaSalida/Archivos: the files. EntradaSalida/Mensajes and
--     EntradaSalida/Operaciones: the requests of the kernel and their execution, of
--     entradasalida/src/main.c and entradasalida/src/operaciones.c.
--   Tests/*: the theorems at concrete inputs; Tests/Fallas: inputs at which the code goes wrong.
--
-- State is passed explicitly: an operation takes its module's record and returns the new one. A
-- pointer into a list is the key by which the code finds the element. The addresses of the
-- memory are numbers from a base on. Requests of several clients are a sequence, in the order in
-- which the mutexes let them in.
--
-- Bounds and fuel: registers keep their widths (8 and 32 bits, written out); sizes, addresses and
-- counters elsewhere are numbers without a bound, so an overflow of int in them is not modelled. The
-- size of a RESIZE is the exception: it travels as a uint32_t and is an int in ResizeProceso and in
-- LimpiarTLB, with the division of C.
-- `Colas.admitir` runs on fuel, one more than the new processes, of which each turn takes one.
-- `Cycle.ciclo` takes the number of turns as an argument, since a program need not end.
--
-- In the kernel a function that waits for another thread is cut in two at the wait: FinalizarProceso
-- of a running process, GestionarInterfaz while the interface works, and PlanificadorCortoPlazo while
-- the CPU works, with planificador_corto_plazo as both halves in one go. What stands between two
-- waits is one step, also where no mutex is held, as between WaitRecurso and the lines that make the
-- process BLOCKED. The messages of the CPU
-- and of the interfaces are arguments. The ints of the degree of multiprogramming are counted from
-- INT_MIN on.
--
-- Not modelled: sockets, threads, logs, configuration and console input; the commands of
-- ejecutar_comando and EjecutarScript, and the flag pararPlanificacion; the start of the modules; the
-- bytes of the bitmap's file. The files of the host are parts of the state of DialFS. list_sorted,
-- list_sort, config_get_array_value, malloc, atoi and strtok belong to libraries: they are arguments,
-- with what the code relies on as hypotheses.
pub mod Prelude
pub mod Commons
pub mod Memoria
pub mod Cpu
pub mod Kernel
pub mod EntradaSalida
pub mod Tests
