-- ===== src/Commons.antt =====
-- utils/src/commons.{h,c}: the buffers that the modules exchange, the process control block and
-- its wire format, and the names of instructions.
pub mod Buffer
pub mod Pcb
