-- ===== src/Tests.antt =====
-- The theorems at concrete inputs.
mod Sort
mod Memoria
mod Cpu
mod Instrucciones
mod Kernel
mod Planificador
mod Fallas
mod Archivos
mod EntradaSalida
