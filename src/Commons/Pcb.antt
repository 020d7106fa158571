-- ===== src/Commons/Pcb.antt =====
-- PCB and Registros of utils/src/commons.{h,c}, and their wire format.
pub mod Wire
use tp_2024_1c_asado_criollo.Prelude.{ℕ, List, Option, none, some, ◌>>=◌}
use tp_2024_1c_asado_criollo.Commons.Buffer.{
  Buffer, buffer_create, buffer_add_uint32, buffer_add_uint8, buffer_read_uint32, buffer_read_uint8,
}

pub record Registros : Type 0 where
  pub pc : ℕ
  pub ax : ℕ
  pub bx : ℕ
  pub cx : ℕ
  pub dx : ℕ
  pub eax : ℕ
  pub ebx : ℕ
  pub ecx : ℕ
  pub edx : ℕ
  pub si : ℕ
  pub di : ℕ

pub data EstadoProceso : Type 0 where
  new ready exec blocked exit : EstadoProceso

-- The value of the enumerator, which is what the PCB's field and the wire hold.
unfoldable pub codigo_estado : EstadoProceso → ℕ
codigo_estado new = 0
codigo_estado ready = 1
codigo_estado exec = 2
codigo_estado blocked = 3
codigo_estado exit = 4

pub record Pcb : Type 0 where
  pub pid : ℕ
  pub pc : ℕ
  pub quantum : ℕ
  pub estado : ℕ
  pub registros : Registros

unfoldable pub inicializar_registros : Registros
inicializar_registros = record {
  pc = 0;
  ax = 0;
  bx = 0;
  cx = 0;
  dx = 0;
  eax = 0;
  ebx = 0;
  ecx = 0;
  edx = 0;
  si = 0;
  di = 0;
}

unfoldable pub crear_pcb : ℕ → ℕ → Pcb
unfolding inicializar_registros codigo_estado
crear_pcb pid quantum = record {
  pid = pid;
  pc = 0;
  quantum = quantum;
  estado = codigo_estado new;
  registros = inicializar_registros;
}

unfoldable pub serializar_registros : Buffer → Registros → Option Buffer
serializar_registros b r = do
  b ← buffer_add_uint32 b r.pc
  b ← buffer_add_uint8 b r.ax
  b ← buffer_add_uint8 b r.bx
  b ← buffer_add_uint8 b r.cx
  b ← buffer_add_uint8 b r.dx
  b ← buffer_add_uint32 b r.eax
  b ← buffer_add_uint32 b r.ebx
  b ← buffer_add_uint32 b r.ecx
  b ← buffer_add_uint32 b r.edx
  b ← buffer_add_uint32 b r.si
  buffer_add_uint32 b r.di

unfoldable pub serializar_pcb : (ℕ → List ℕ) → Pcb → Option Buffer
serializar_pcb malloc p = do
  b ← buffer_add_uint32 (buffer_create malloc 48) p.pid
  b ← buffer_add_uint32 b p.pc
  b ← buffer_add_uint32 b p.quantum
  b ← buffer_add_uint32 b p.estado
  serializar_registros b p.registros

unfoldable pub deserializar_registros : Buffer → Option (Registros × Buffer)
deserializar_registros b = do
  (pc, b) ← buffer_read_uint32 b
  (ax, b) ← buffer_read_uint8 b
  (bx, b) ← buffer_read_uint8 b
  (cx, b) ← buffer_read_uint8 b
  (dx, b) ← buffer_read_uint8 b
  (eax, b) ← buffer_read_uint32 b
  (ebx, b) ← buffer_read_uint32 b
  (ecx, b) ← buffer_read_uint32 b
  (edx, b) ← buffer_read_uint32 b
  (si, b) ← buffer_read_uint32 b
  (di, b) ← buffer_read_uint32 b
  some (
    record {
      pc = pc;
      ax = ax;
      bx = bx;
      cx = cx;
      dx = dx;
      eax = eax;
      ebx = ebx;
      ecx = ecx;
      edx = edx;
      si = si;
      di = di;
    },
    b,
  )

unfoldable pub deserializar_pcb : Buffer → Option (Pcb × Buffer)
deserializar_pcb b = do
  (pid, b) ← buffer_read_uint32 b
  (pc, b) ← buffer_read_uint32 b
  (quantum, b) ← buffer_read_uint32 b
  (estado, b) ← buffer_read_uint32 b
  (registros, b) ← deserializar_registros b
  some (record { pid = pid; pc = pc; quantum = quantum; estado = estado; registros = registros }, b)
