-- ===== src/Cpu/Registros/Layout.antt =====
-- Reading through a register pointer what was written through it, and the registers as the
-- instructions name them: a field, with its width.
use tp_2024_1c_asado_criollo.Prelude.{
  ℕ, ◌/◌, ◌%◌, ◌^◌, ◌≡◌, refl, ap, Bool, true, false, arith, if◌then◌else◌, List, [], ◌∷◌, ◌==◌,
  ◌&&◌,
}
use tp_2024_1c_asado_criollo.Commons.Pcb.{Registros}
use tp_2024_1c_asado_criollo.Cpu.Registros.{
  Registro, pc, ax, bx, cx, dx, eax, ebx, ecx, edx, si, di, leer_palabra, guardar_palabra,
}

abbrev pub es_8bit : Registro → Bool
es_8bit ax = true
es_8bit bx = true
es_8bit cx = true
es_8bit dx = true
es_8bit _ = false

-- The number of values that the field holds.
abbrev pub modulo : Registro → ℕ
modulo rg = if es_8bit rg then 256 else 2 ^ 32

-- The field itself.
unfoldable pub valor_de : Registro → Registros → ℕ
valor_de pc r = r.pc
valor_de ax r = r.ax
valor_de bx r = r.bx
valor_de cx r = r.cx
valor_de dx r = r.dx
valor_de eax r = r.eax
valor_de ebx r = r.ebx
valor_de ecx r = r.ecx
valor_de edx r = r.edx
valor_de si r = r.si
valor_de di r = r.di

-- The struct in which only that field differs.
unfoldable pub con_valor : Registro → ℕ → Registros → Registros
con_valor pc v r = record r { pc = v }
con_valor ax v r = record r { ax = v }
con_valor bx v r = record r { bx = v }
con_valor cx v r = record r { cx = v }
con_valor dx v r = record r { dx = v }
con_valor eax v r = record r { eax = v }
con_valor ebx v r = record r { ebx = v }
con_valor ecx v r = record r { ecx = v }
con_valor edx v r = record r { edx = v }
con_valor si v r = record r { si = v }
con_valor di v r = record r { di = v }

-- A word written at any field, over the fields behind it too where the field is of 8 bits, is read
-- back modulo 2 ^ 32.
pub leer-guardar_palabra :
    (rg : Registro) (v : ℕ) (r : Registros) → leer_palabra rg (guardar_palabra rg v r) ≡ v % 2 ^ 32
unfolding leer_palabra guardar_palabra
leer-guardar_palabra pc v r = refl
leer-guardar_palabra ax v r = omega arith
leer-guardar_palabra bx v r = omega arith
leer-guardar_palabra cx v r = omega arith
leer-guardar_palabra dx v r = omega arith
leer-guardar_palabra eax v r = refl
leer-guardar_palabra ebx v r = refl
leer-guardar_palabra ecx v r = refl
leer-guardar_palabra edx v r = refl
leer-guardar_palabra si v r = refl
leer-guardar_palabra di v r = refl

-- A word written over another at the same field hides it.
pub guardar-guardar_palabra :
    (rg : Registro) (v w : ℕ) (r : Registros)
    → guardar_palabra rg v (guardar_palabra rg w r) ≡ guardar_palabra rg v r
unfolding guardar_palabra
guardar-guardar_palabra pc v w r = refl
guardar-guardar_palabra ax v w r = refl
guardar-guardar_palabra bx v w r =
    ap (λ k. record r { bx = v % 256; cx = v / 256 % 256; dx = v / 65536 % 256; eax = k })
      (omega arith)
guardar-guardar_palabra cx v w r =
    ap (λ k. record r { cx = v % 256; dx = v / 256 % 256; eax = k }) (omega arith)
guardar-guardar_palabra dx v w r = ap (λ k. record r { dx = v % 256; eax = k }) (omega arith)
guardar-guardar_palabra eax v w r = refl
guardar-guardar_palabra ebx v w r = refl
guardar-guardar_palabra ecx v w r = refl
guardar-guardar_palabra edx v w r = refl
guardar-guardar_palabra si v w r = refl
guardar-guardar_palabra di v w r = refl

-- The fields, or the parts of fields, that stand in the four bytes from a field on.
abbrev pub cuatro_bytes : Registro → Registros → List ℕ
cuatro_bytes pc r = r.pc ∷ []
cuatro_bytes ax r = r.ax ∷ r.bx ∷ r.cx ∷ r.dx ∷ []
cuatro_bytes bx r = r.bx ∷ r.cx ∷ r.dx ∷ (r.eax % 2 ^ 8) ∷ []
cuatro_bytes cx r = r.cx ∷ r.dx ∷ (r.eax % 2 ^ 16) ∷ []
cuatro_bytes dx r = r.dx ∷ (r.eax % 2 ^ 24) ∷ []
cuatro_bytes eax r = r.eax ∷ []
cuatro_bytes ebx r = r.ebx ∷ []
cuatro_bytes ecx r = r.ecx ∷ []
cuatro_bytes edx r = r.edx ∷ []
cuatro_bytes si r = r.si ∷ []
cuatro_bytes di r = r.di ∷ []

abbrev pub todos_cero : List ℕ → Bool
todos_cero [] = true
todos_cero (x ∷ xs) = (x == 0) && todos_cero xs

-- The word at a field is 0 exactly when all that it reads is 0.
pub leer_palabra-cero :
    (rg : Registro) (r : Registros) → (leer_palabra rg r == 0) ≡ todos_cero (cuatro_bytes rg r)
unfolding leer_palabra
leer_palabra-cero pc r = ground arith
leer_palabra-cero ax r = ground arith
leer_palabra-cero bx r = ground arith
leer_palabra-cero cx r = ground arith
leer_palabra-cero dx r = ground arith
leer_palabra-cero eax r = ground arith
leer_palabra-cero ebx r = ground arith
leer_palabra-cero ecx r = ground arith
leer_palabra-cero edx r = ground arith
leer_palabra-cero si r = ground arith
leer_palabra-cero di r = ground arith
