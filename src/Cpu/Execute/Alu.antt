-- ===== src/Cpu/Execute/Alu.antt =====
-- The instructions on registers, at the level of the registers' names.
use tp_2024_1c_asado_criollo.Prelude.{
  ℕ, ◌+◌, ◌-◌, ◌%◌, ◌^◌, ◌<◌, ◌≡◌, refl, ap, true, false, String, some, arith, if◌then◌else◌, inl,
  inr, Bool-cases,
}
use tp_2024_1c_asado_criollo.Commons.Pcb.{Registros}
use tp_2024_1c_asado_criollo.Cpu.Registros.{
  Registro, pc, ax, bx, cx, dx, eax, ebx, ecx, edx, si, di, leer_byte, leer_palabra, guardar_byte,
  guardar_palabra,
}
use tp_2024_1c_asado_criollo.Cpu.Registros.Layout.{
  es_8bit, modulo, valor_de, con_valor, leer-guardar_palabra, guardar-guardar_palabra, cuatro_bytes,
  todos_cero, leer_palabra-cero,
}
use tp_2024_1c_asado_criollo.Cpu.Decode.RoundTrip.{o_set, o_sum, o_sub, o_jnz, significado}
use tp_2024_1c_asado_criollo.Cpu.Execute.{
  leer_registro, guardar_registro, ejecutar_set, ejecutar_sum, ejecutar_sub, ejecutar_jnz,
}

pub leer_registro_lem :
    (rg : Registro) (r : Registros) → leer_registro (es_8bit rg) rg r ≡ valor_de rg r
unfolding leer_registro valor_de leer_byte leer_palabra
leer_registro_lem pc r = refl
leer_registro_lem ax r = refl
leer_registro_lem bx r = refl
leer_registro_lem cx r = refl
leer_registro_lem dx r = refl
leer_registro_lem eax r = refl
leer_registro_lem ebx r = refl
leer_registro_lem ecx r = refl
leer_registro_lem edx r = refl
leer_registro_lem si r = refl
leer_registro_lem di r = refl

pub guardar_registro_lem :
    (rg : Registro) (v : ℕ) (r : Registros)
    → guardar_registro (es_8bit rg) rg v r ≡ con_valor rg (v % modulo rg) r
unfolding guardar_registro con_valor guardar_byte guardar_palabra
guardar_registro_lem pc v r = refl
guardar_registro_lem ax v r = refl
guardar_registro_lem bx v r = refl
guardar_registro_lem cx v r = refl
guardar_registro_lem dx v r = refl
guardar_registro_lem eax v r = refl
guardar_registro_lem ebx v r = refl
guardar_registro_lem ecx v r = refl
guardar_registro_lem edx v r = refl
guardar_registro_lem si v r = refl
guardar_registro_lem di v r = refl

-- SET writes the number, cut to the register's width, into that register and no other.
pub ejecutar_set_lem :
    (atoi : String → ℕ) (rg : Registro) (v : String) (r : Registros)
    → ejecutar_set (significado atoi (o_set rg v)) r ≡ some (con_valor rg (atoi v % modulo rg) r)
unfolding ejecutar_set significado
ejecutar_set_lem atoi rg v r = ap some (guardar_registro_lem rg (atoi v) r)

leer_byte_lem : (rg : Registro) (r : Registros) → es_8bit rg ≡ true → leer_byte rg r ≡ valor_de rg r
unfolding leer_registro
leer_byte_lem rg r e = rw e at (leer_registro_lem rg r)

leer_palabra_lem :
    (rg : Registro) (r : Registros) → es_8bit rg ≡ false → leer_palabra rg r ≡ valor_de rg r
unfolding leer_registro
leer_palabra_lem rg r e = rw e at (leer_registro_lem rg r)

guardar_byte_lem :
    (rg : Registro) (v : ℕ) (r : Registros)
    → es_8bit rg ≡ true
    → guardar_byte rg v r ≡ con_valor rg (v % 256) r
unfolding guardar_registro
guardar_byte_lem rg v r e = rw e at (guardar_registro_lem rg v r)

guardar_palabra_lem :
    (rg : Registro) (v : ℕ) (r : Registros)
    → es_8bit rg ≡ false
    → guardar_palabra rg v r ≡ con_valor rg (v % 2 ^ 32) r
unfolding guardar_registro
guardar_palabra_lem rg v r e = rw e at (guardar_registro_lem rg v r)

-- SUM adds the second register to the first, modulo the number of values of the first, for every
-- pair of widths, and changes no other register.
pub ejecutar_sum_lem :
    (atoi : String → ℕ) (x y : Registro) (r : Registros)
    → ejecutar_sum (significado atoi (o_sum x y)) r
      ≡ some (con_valor x ((valor_de x r + valor_de y r) % modulo x) r)
unfolding ejecutar_sum significado
ejecutar_sum_lem atoi x y r = elim (Bool-cases (es_8bit x)) [
  | inl e ↦ elim (Bool-cases (es_8bit y)) [
    | inl f ↦ rw (e, f, leer_byte_lem x r e, leer_byte_lem y r f, guardar_byte_lem x _ r e) refl
    | inr f ↦
        rw (e, f, leer_byte_lem x r e, leer_palabra_lem y r f, guardar_byte_lem x _ r e)
          (ap (λ k. some (con_valor x k r)) (omega arith))
  ]
  | inr e ↦ elim (Bool-cases (es_8bit y)) [
    | inl f ↦
        rw (e, f, leer_palabra_lem x r e, leer_byte_lem y r f, guardar_palabra_lem x _ r e) refl
    | inr f ↦
        rw (e, f, leer_palabra_lem x r e, leer_palabra_lem y r f, guardar_palabra_lem x _ r e) refl
  ]
]

-- SUB takes the word at the second register off the word at the first, modulo 2 ^ 32, whatever the
-- widths of the registers are, and changes nothing but that word: four bytes, also where the first
-- register has one. The word at the second register is below 2 ^ 32.
pub ejecutar_sub_lem :
    (atoi : String → ℕ) (x y : Registro) (r : Registros)
    → leer_palabra y r < 2 ^ 32
    → (r' : Registros) × (ejecutar_sub (significado atoi (o_sub x y)) r ≡ some r')
      × ((leer_palabra x r' + leer_palabra y r) % 2 ^ 32 ≡ leer_palabra x r % 2 ^ 32)
      × (guardar_palabra x (leer_palabra x r) r' ≡ guardar_palabra x (leer_palabra x r) r)
unfolding ejecutar_sub significado
ejecutar_sub_lem atoi x y r h =
    let v = leer_palabra x r + (2 ^ 32 - leer_palabra y r) in
    (
      guardar_palabra x v r,
      refl,
      omega (arith, leer-guardar_palabra x v r, h),
      guardar-guardar_palabra x (leer_palabra x r) v r,
    )

-- JNZ on a register of any width moves the program counter to its number, unless all that stands in
-- the four bytes from the register on is 0; then it changes nothing.
pub ejecutar_jnz_lem :
    (atoi : String → ℕ) (x : Registro) (v : String) (r : Registros)
    → ejecutar_jnz (significado atoi (o_jnz x v)) r
      ≡ some (if todos_cero (cuatro_bytes x r) then r else con_valor pc (atoi v % 2 ^ 32) r)
unfolding ejecutar_jnz significado guardar_palabra con_valor
ejecutar_jnz_lem atoi x v r =
    rw (leer_palabra-cero x r)
      (elim (Bool-cases (todos_cero (cuatro_bytes x r))) [ inl z ↦ rw z refl | inr z ↦ rw z refl ])
