-- ===== src/Kernel.antt =====
-- kernel/src/main.c: the resources, the queues of processes with their planners, the interfaces,
-- and the kernel as a whole, with the short-term planner and the console.
pub mod Recursos
pub mod Colas
pub mod Interfaces
pub mod Planificador
