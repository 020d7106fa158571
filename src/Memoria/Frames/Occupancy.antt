-- ===== src/Memoria/Frames/Occupancy.antt =====
-- How taking and freeing a frame change the occupation of each frame.
use tp_2024_1c_asado_criollo.Prelude.{
  ℕ, zero, suc, ◌+◌, ◌≤◌, ◌<◌, ◌≡◌, refl, ap, Bool, true, false, not, List, [], ◌∷◌, map, Option,
  none, some, ◌==◌, if◌then◌else◌, arith, ◌>>=◌, length,
}
use tp_2024_1c_asado_criollo.Memoria.Frames.{Frame, liberar_frame, ocupar_desde}

abbrev pub uno_si : Bool → ℕ
uno_si true = 1
uno_si false = 0

-- 1 if frame `j` exists and is taken.
abbrev pub ocup : ℕ → List Frame → ℕ
ocup j [] = 0
ocup zero (f ∷ fs) = uno_si f.ocupado
ocup (suc j) (f ∷ fs) = ocup j fs

-- How many frames are free.
abbrev pub libres : List Frame → ℕ
libres [] = 0
libres (f ∷ fs) = uno_si (not f.ocupado) + libres fs

-- How often a page table names frame `j`.
abbrev pub veces : ℕ → List ℕ → ℕ
veces j [] = 0
veces j (n ∷ ns) = uno_si (j == n) + veces j ns

abbrev pub direcciones : List Frame → List ℕ
direcciones = map λ f. f.direccion_fisica

-- What taking a frame does: it was free and is taken, and nothing else changes.
pub record Ocupa (i : ℕ) (fs : List Frame) (n : ℕ) (fs' : List Frame) : Type 0 where
  pub desde : i ≤ n
  pub cabe : n < i + length fs
  pub uno : (j : ℕ) → ocup j fs' ≡ ocup j fs + uno_si (i + j == n)
  pub menos : libres fs' + 1 ≡ libres fs
  pub mismas : direcciones fs' ≡ direcciones fs

Ocupa-here :
    (i : ℕ) (f : Frame) (fs : List Frame)
    → f.ocupado ≡ false
    → Ocupa i (f ∷ fs) i (record f { ocupado = true } ∷ fs)
Ocupa-here i f fs e = record {
  desde = omega arith;
  cabe = omega arith;
  uno = λ j.
      elim j
        as (λ k.
          ocup k (record f { ocupado = true } ∷ fs) ≡ ocup k (f ∷ fs) + uno_si (i + k == i)) [
            | zero ↦ ground arith
            | suc k ↦ ground arith
          ];
  menos = ground arith;
  mismas = refl;
}

Ocupa-next :
    (i n : ℕ) (f : Frame) (fs fs' : List Frame)
    → f.ocupado ≡ true
    → Ocupa (i + 1) fs n fs'
    → Ocupa i (f ∷ fs) n (f ∷ fs')
Ocupa-next i n f fs fs' e r = record {
  desde = omega (arith, r.desde);
  cabe = omega (arith, r.cabe);
  uno = λ j. elim j as (λ k. ocup k (f ∷ fs') ≡ ocup k (f ∷ fs) + uno_si (i + k == n)) [
    | zero ↦ ground (arith, r.desde)
    | suc k ↦ ground (arith, r.uno k)
  ];
  menos = omega (arith, r.menos);
  mismas = ap (◌∷◌ f.direccion_fisica) r.mismas;
}

-- The two results of the search: no frame is free, or the first free one is taken.
abbrev pub OcupaO : ℕ → List Frame → Option (ℕ × List Frame) → Type 0
OcupaO i fs none = libres fs ≡ 0
OcupaO i fs (some (n, fs')) = Ocupa i fs n fs'

ocupar_desde-step :
    (i : ℕ) (f : Frame) (fs : List Frame) (b : Bool) (o : Option (ℕ × List Frame))
    → f.ocupado ≡ b
    → OcupaO (i + 1) fs o
    → OcupaO i (f ∷ fs) (
        if not b
        then some (i, record f { ocupado = true } ∷ fs)
        else (o >>= λ r. some (r.0, f ∷ r.1)))
ocupar_desde-step i f fs false o e h = Ocupa-here i f fs e
ocupar_desde-step i f fs true none e h = ground arith
ocupar_desde-step i f fs true (some (n, fs')) e h = Ocupa-next i n f fs fs' e h

pub ocupar_desde-OcupaO : (i : ℕ) (fs : List Frame) → OcupaO i fs (ocupar_desde i fs)
unfolding ocupar_desde
ocupar_desde-OcupaO i [] = refl
ocupar_desde-OcupaO i (f ∷ fs) =
    ocupar_desde-step i f fs f.ocupado (ocupar_desde (i + 1) fs) refl
      (ocupar_desde-OcupaO (i + 1) fs)

-- What freeing frame `n` does.
pub record Libera (n : ℕ) (fs fs' : List Frame) : Type 0 where
  pub uno : (j : ℕ) → ocup j fs' + uno_si (j == n) ≡ ocup j fs
  pub mas : libres fs' ≡ libres fs + 1
  pub mismas : direcciones fs' ≡ direcciones fs

Libera-here :
    (f : Frame) (fs : List Frame)
    → f.ocupado ≡ true
    → Libera 0 (f ∷ fs) (record f { ocupado = false } ∷ fs)
Libera-here f fs e = record {
  uno = λ j.
      elim j
        as (λ k. ocup k (record f { ocupado = false } ∷ fs) + uno_si (k == 0) ≡ ocup k (f ∷ fs)) [
          | zero ↦ ground arith
          | suc k ↦ ground arith
        ];
  mas = ground arith;
  mismas = refl;
}

Libera-next :
    (n : ℕ) (f : Frame) (fs fs' : List Frame) → Libera n fs fs' → Libera (suc n) (f ∷ fs) (f ∷ fs')
Libera-next n f fs fs' r = record {
  uno = λ j. elim j as (λ k. ocup k (f ∷ fs') + uno_si (k == suc n) ≡ ocup k (f ∷ fs)) [
    | zero ↦ ground arith
    | suc k ↦ ground (arith, r.uno k)
  ];
  mas = omega (arith, r.mas);
  mismas = ap (◌∷◌ f.direccion_fisica) r.mismas;
}

-- Freeing a taken frame succeeds and frees that frame alone.
pub liberar_frame-Libera :
    (n : ℕ) (fs : List Frame)
    → ocup n fs ≡ 1
    → (fs' : List Frame) × (liberar_frame fs n ≡ some fs') × Libera n fs fs'
unfolding liberar_frame
liberar_frame-Libera n [] h = absurd (omega arith)
liberar_frame-Libera zero (f ∷ fs) h =
    (record f { ocupado = false } ∷ fs, refl, Libera-here f fs (ground arith))
liberar_frame-Libera (suc n) (f ∷ fs) h =
    let (fs', e, r) = liberar_frame-Libera n fs h in (f ∷ fs', rw e, Libera-next n f fs fs' r)
