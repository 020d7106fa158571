-- ===== src/Memoria.antt =====
-- memoria/src/main.c: physical frames, page tables, byte access and the server's operations.
pub mod Frames
pub mod State
pub mod Access
pub mod Server
