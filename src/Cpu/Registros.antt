-- ===== src/Cpu/Registros.antt =====
-- Registros of utils/src/commons.h as the CPU uses it: through pointers to its fields, which
-- cpu/src/cpu.c reads and writes as uint8_t or as uint32_t whatever the field's own type is. The
-- struct is laid out in order without padding and the machine is little-endian: a word at an
-- 8-bit field runs over the fields behind it.
pub mod Layout
use tp_2024_1c_asado_criollo.Prelude.{
  ℕ, ◌+◌, ◌*◌, ◌/◌, ◌%◌, ◌^◌, Bool, true, false, String, eq_text, Option, none, some, if◌then◌else◌,
}
use tp_2024_1c_asado_criollo.Commons.Pcb.{Registros}

-- A pointer to a field.
pub data Registro : Type 0 where
  pc ax bx cx dx eax ebx ecx edx si di : Registro

-- RegisterPointer: the pointer that is set, reg8 or reg32, and is8bit.
pub record RegisterPointer : Type 0 where
  pub reg : Option Registro
  pub is8bit : Bool

-- `basura` is what is8bit holds when no name matches: the struct is not initialised.
unfoldable pub obtener_registro : Bool → String → RegisterPointer
obtener_registro basura token =
    if eq_text token "AX"
    then record { reg = some ax; is8bit = true }
    else if eq_text token "BX"
    then record { reg = some bx; is8bit = true }
    else if eq_text token "CX"
    then record { reg = some cx; is8bit = true }
    else if eq_text token "DX"
    then record { reg = some dx; is8bit = true }
    else if eq_text token "PC"
    then record { reg = some pc; is8bit = false }
    else if eq_text token "EAX"
    then record { reg = some eax; is8bit = false }
    else if eq_text token "EBX"
    then record { reg = some ebx; is8bit = false }
    else if eq_text token "ECX"
    then record { reg = some ecx; is8bit = false }
    else if eq_text token "EDX"
    then record { reg = some edx; is8bit = false }
    else if eq_text token "SI"
    then record { reg = some si; is8bit = false }
    else if eq_text token "DI"
    then record { reg = some di; is8bit = false }
    else record { reg = none; is8bit = basura }

-- *(uint8_t *)ptr.
unfoldable pub leer_byte : Registro → Registros → ℕ
leer_byte pc r = r.pc % 256
leer_byte ax r = r.ax
leer_byte bx r = r.bx
leer_byte cx r = r.cx
leer_byte dx r = r.dx
leer_byte eax r = r.eax % 256
leer_byte ebx r = r.ebx % 256
leer_byte ecx r = r.ecx % 256
leer_byte edx r = r.edx % 256
leer_byte si r = r.si % 256
leer_byte di r = r.di % 256

-- *(uint32_t *)ptr.
unfoldable pub leer_palabra : Registro → Registros → ℕ
leer_palabra pc r = r.pc
leer_palabra ax r = r.ax + 256 * r.bx + 65536 * r.cx + 16777216 * r.dx
leer_palabra bx r = r.bx + 256 * r.cx + 65536 * r.dx + 16777216 * (r.eax % 256)
leer_palabra cx r = r.cx + 256 * r.dx + 65536 * (r.eax % 65536)
leer_palabra dx r = r.dx + 256 * (r.eax % 16777216)
leer_palabra eax r = r.eax
leer_palabra ebx r = r.ebx
leer_palabra ecx r = r.ecx
leer_palabra edx r = r.edx
leer_palabra si r = r.si
leer_palabra di r = r.di

-- *(uint8_t *)ptr = v, and memcpy(ptr, &v, 1).
unfoldable pub guardar_byte : Registro → ℕ → Registros → Registros
guardar_byte pc v r = record r { pc = r.pc / 256 * 256 + v % 256 }
guardar_byte ax v r = record r { ax = v % 256 }
guardar_byte bx v r = record r { bx = v % 256 }
guardar_byte cx v r = record r { cx = v % 256 }
guardar_byte dx v r = record r { dx = v % 256 }
guardar_byte eax v r = record r { eax = r.eax / 256 * 256 + v % 256 }
guardar_byte ebx v r = record r { ebx = r.ebx / 256 * 256 + v % 256 }
guardar_byte ecx v r = record r { ecx = r.ecx / 256 * 256 + v % 256 }
guardar_byte edx v r = record r { edx = r.edx / 256 * 256 + v % 256 }
guardar_byte si v r = record r { si = r.si / 256 * 256 + v % 256 }
guardar_byte di v r = record r { di = r.di / 256 * 256 + v % 256 }

-- *(uint32_t *)ptr = v.
unfoldable pub guardar_palabra : Registro → ℕ → Registros → Registros
guardar_palabra pc v r = record r { pc = v % 2 ^ 32 }
guardar_palabra ax v r = record r {
  ax = v % 256;
  bx = v / 256 % 256;
  cx = v / 65536 % 256;
  dx = v / 16777216 % 256;
}
guardar_palabra bx v r = record r {
  bx = v % 256;
  cx = v / 256 % 256;
  dx = v / 65536 % 256;
  eax = r.eax / 256 * 256 + v / 16777216 % 256;
}
guardar_palabra cx v r = record r {
  cx = v % 256;
  dx = v / 256 % 256;
  eax = r.eax / 65536 * 65536 + v / 65536 % 65536;
}
guardar_palabra dx v r = record r {
  dx = v % 256;
  eax = r.eax / 16777216 * 16777216 + v / 256 % 16777216;
}
guardar_palabra eax v r = record r { eax = v % 2 ^ 32 }
guardar_palabra ebx v r = record r { ebx = v % 2 ^ 32 }
guardar_palabra ecx v r = record r { ecx = v % 2 ^ 32 }
guardar_palabra edx v r = record r { edx = v % 2 ^ 32 }
guardar_palabra si v r = record r { si = v % 2 ^ 32 }
guardar_palabra di v r = record r { di = v % 2 ^ 32 }
