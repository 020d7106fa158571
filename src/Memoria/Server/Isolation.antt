-- ===== src/Memoria/Server/Isolation.antt =====
-- The byte access of Memoria/Access in a valid state of the memory server with several processes.
use tp_2024_1c_asado_criollo.Prelude.{
  ℕ, zero, suc, ◌+◌, ◌-◌, ◌*◌, ◌/◌, ◌≤◌, ◌<◌, ◌≡◌, ◌≢◌, refl, ap, ◌∙◌, List, [], ◌∷◌, some, ◌==◌,
  arith, length, get_elem?,
}
use tp_2024_1c_asado_criollo.Memoria.Frames.{Frame, Proceso, crear_frames}
use tp_2024_1c_asado_criollo.Memoria.Frames.Occupancy.{uno_si, ocup, veces, direcciones}
use tp_2024_1c_asado_criollo.Memoria.Frames.Loops.{ocup-le}
use tp_2024_1c_asado_criollo.Memoria.State.{
  Memoria, buscar_proceso, quitar_proceso, filtrar_pid, direccion_frame,
}
use tp_2024_1c_asado_criollo.Memoria.Access.Pages.{
  marco, IsMarco, IsTabla, Distinto, Fuera, marcos_disjuntos,
}
use tp_2024_1c_asado_criollo.Memoria.Access.Rw.{Logica}
use tp_2024_1c_asado_criollo.Memoria.Access.RoundTrip.{Guardado, leer-escribir}
use tp_2024_1c_asado_criollo.Memoria.Server.{direccion_de}
use tp_2024_1c_asado_criollo.Memoria.Server.Invariant.{IsValid, veces_total-quitar}

ocup-lt : (j : ℕ) (fs : List Frame) → 1 ≤ ocup j fs → j < length fs
ocup-lt j [] h = absurd (omega arith)
ocup-lt zero (f ∷ fs) h = omega arith
ocup-lt (suc j) (f ∷ fs) h = omega (arith, ocup-lt j fs h)

length-direcciones : (fs : List Frame) → length (direcciones fs) ≡ length fs
length-direcciones [] = refl
length-direcciones (f ∷ fs) = ap suc (length-direcciones fs)

length-crear_frames : (b t n i : ℕ) → length (crear_frames b t n i) ≡ n
unfolding crear_frames
length-crear_frames b t zero i = refl
length-crear_frames b t (suc n) i = ap suc (length-crear_frames b t n (i + 1))

direccion_frame-get :
    (fs : List Frame) (n : ℕ) → direccion_frame fs n ≡ get_elem? (direcciones fs) n
unfolding direccion_frame
direccion_frame-get [] n = refl
direccion_frame-get (f ∷ fs) zero = refl
direccion_frame-get (f ∷ fs) (suc n) = direccion_frame-get fs n

get-crear_frames :
    (b t k i n : ℕ)
    → n < k
    → get_elem? (direcciones (crear_frames b t k i)) n ≡ some ((i + n) * t + b)
unfolding crear_frames
get-crear_frames b t zero i n h = absurd (omega arith)
get-crear_frames b t (suc k) i zero h = ap (λ z. some (z * t + b)) (omega arith)
get-crear_frames b t (suc k) i (suc n) h =
    get-crear_frames b t k (i + 1) n (omega arith) ∙ ap (λ z. some (z * t + b)) (omega arith)

div-mul-le : (a t : ℕ) → a / t * t ≤ a
div-mul-le a t = grind arith

mul_mono : (a b t : ℕ) → a ≤ b → a * t ≤ b * t
mul_mono a b t h = grind arith

-- A taken frame stands where InicializarMemoria put it.
IsValid-IsMarco : {m : Memoria} (n : ℕ) → IsValid m → 1 ≤ ocup n m.frames → IsMarco m n
IsValid-IsMarco {m} n v h =
    let k = m.tamanio_memoria / m.tamanio_pagina in
    let lt : n < k = omega (
      arith,
      ocup-lt n m.frames h,
      length-direcciones m.frames,
      ap length v.lugares,
      length-direcciones (crear_frames m.base m.tamanio_pagina k 0),
      length-crear_frames m.base m.tamanio_pagina k 0,
    ) in
    record {
      esta =
          direccion_frame-get m.frames n
          ∙ ap (λ z. get_elem? z n) v.lugares
          ∙ get-crear_frames m.base m.tamanio_pagina k 0 n lt
          ∙ ap (λ z. some (z * m.tamanio_pagina + m.base)) (omega arith);
      cabe = omega (
        arith,
        mul_mono (n + 1) k m.tamanio_pagina (omega arith),
        div-mul-le m.tamanio_memoria m.tamanio_pagina,
      );
    }

Distinto-veces : (n : ℕ) (ps : List ℕ) → veces n ps ≡ 0 → Distinto n ps
Distinto-veces n [] h = tt
Distinto-veces n (k ∷ ps) h = (ground arith, Distinto-veces n ps (omega arith))

IsTabla_of_veces :
    {m : Memoria} (ps : List ℕ)
    → IsValid m
    → ((j : ℕ) → veces j ps ≤ ocup j m.frames)
    → IsTabla m ps
IsTabla_of_veces [] v h = tt
IsTabla_of_veces {m} (n ∷ ps) v h =
    let uno : uno_si (n == n) ≡ 1 = ground arith in
    (
      IsValid-IsMarco n v (omega (arith, h n, uno)),
      Distinto-veces n ps (omega (arith, h n, uno, ocup-le n m.frames)),
      IsTabla_of_veces ps v (λ j. omega (arith, h j)),
    )

-- In a valid state the page table of every process names distinct frames that lie in the memory.
pub IsValid-IsTabla :
    {m : Memoria} (pid : ℕ) {p : Proceso}
    → IsValid m
    → buscar_proceso pid m.procesos ≡ some p
    → IsTabla m p.paginas
IsValid-IsTabla {m} pid {p} v e =
    IsTabla_of_veces p.paginas v
      (λ j. omega (arith, veces_total-quitar pid j m.procesos e, v.exacto j))

veces-pagina : (k : ℕ) (ps : List ℕ) (i : ℕ) → get_elem? ps i ≡ some k → 1 ≤ veces k ps
veces-pagina k [] i e = cc
veces-pagina k (n ∷ ps) zero e = ground arith
veces-pagina k (n ∷ ps) (suc i) e = omega (arith, veces-pagina k ps i e)

Distinto-Fuera-marco :
    (m : Memoria) (k x : ℕ) (ps : List ℕ)
    → Distinto k ps
    → marco m k ≤ x
    → x < marco m k + m.tamanio_pagina
    → Fuera m ps x
Distinto-Fuera-marco m k x [] d lo hi = tt
Distinto-Fuera-marco m k x (n ∷ ps) d lo hi =
    (marcos_disjuntos m k n x d.0 lo hi, Distinto-Fuera-marco m k x ps d.1 lo hi)

-- In a valid state the address of a page with a frame is where that frame starts.
pub IsValid-direccion_de :
    {m : Memoria} (pid : ℕ) {p : Proceso} {n : ℕ}
    → IsValid m
    → buscar_proceso pid m.procesos ≡ some p
    → (i : ℕ) → get_elem? p.paginas i ≡ some n
    → direccion_de m pid i ≡ some (marco m n)
unfolding direccion_de
IsValid-direccion_de {m} pid {p} {n} v e i g =
    rw (e, g)
      (IsValid-IsMarco n v (
        omega (
          arith,
          veces_total-quitar pid n m.procesos e,
          v.exacto n,
          veces-pagina n p.paginas i g,
        ))).esta

buscar-quitar :
    (pid otro : ℕ) (ps : List Proceso)
    → pid ≢ otro
    → buscar_proceso otro (quitar_proceso pid ps) ≡ buscar_proceso otro ps
unfolding buscar_proceso quitar_proceso
buscar-quitar pid otro [] h = refl
buscar-quitar pid otro (p ∷ ps) h = ground (arith, buscar-quitar pid otro ps h)

module _ {m : Memoria} (pid otro : ℕ) {p q : Proceso} (v : IsValid m) (ne : pid ≢ otro)
    (e : buscar_proceso pid m.procesos ≡ some p) (f : buscar_proceso otro m.procesos ≡ some q) where
  -- No frame belongs to two processes.
  pub marcos_propios : (k j : ℕ) → get_elem? q.paginas j ≡ some k → Distinto k p.paginas
  marcos_propios k j g = Distinto-veces k p.paginas (
      omega (
        arith,
        veces_total-quitar pid k m.procesos e,
        v.exacto k,
        ocup-le k m.frames,
        veces_total-quitar otro k (quitar_proceso pid m.procesos)
            (buscar-quitar pid otro m.procesos ne ∙ f),
        veces-pagina k q.paginas j g,
      ))

  -- In a valid memory, Escribir by one process, at an address of one of its frames and within its
  -- pages, returns; Leer gives the value back, and every byte in the frames of any other process is
  -- as it was.
  pub escribir_aislado :
      (i n off : ℕ) (value : List ℕ)
      → get_elem? p.paginas i ≡ some n
      → off < m.tamanio_pagina
      → off + length value ≤ (length p.paginas - i) * m.tamanio_pagina
      → (c : ℕ → ℕ) × Guardado m pid (marco m n + off) p.paginas value c
        × ((j k x : ℕ)
            → get_elem? q.paginas j ≡ some k
            → marco m k ≤ x
            → x < marco m k + m.tamanio_pagina
            → c x ≡ m.bytes x)
  unfolding filtrar_pid
  escribir_aislado i n off value g o cabe =
      let l : Logica m pid p.paginas i n off = record {
        proceso = rw e;
        tabla = IsValid-IsTabla pid v e;
        pagina = g;
        desplazamiento = o;
      } in
      let (c, w) = leer-escribir m pid p.paginas i n off l value cabe in
      (
        c,
        w,
        λ j k x h lo hi.
            w.ajeno x (Distinto-Fuera-marco m k x p.paginas (marcos_propios k j h) lo hi),
      )
