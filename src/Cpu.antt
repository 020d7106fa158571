-- ===== src/Cpu.antt =====
-- cpu/src: the TLB, the MMU, the decoder and the instruction cycle.
pub mod Tlb
pub mod Mmu
pub mod Registros
pub mod Decode
pub mod Execute
pub mod Conexion
