-- ===== src/EntradaSalida/Archivos/Blocks.antt =====
-- CrearFile and BorrarFile of DialFS.c: which blocks they take and give back.
use native.Mathlib.Nat.{div_self, mod_self}
use tp_2024_1c_asado_criollo.Prelude.{
  ℕ, ◌+◌, ◌%◌, ◌≤◌, ◌<◌, ◌≡◌, ◌≢◌, refl, sym, ◌∙◌, true, false, List, Option, none, some, ◌==◌,
  eq_bytes, eq_bytes_iff, arith, Bool-cases, Option-cases, inl, inr, ◌⊎◌, ltb, leb,
}
use tp_2024_1c_asado_criollo.EntradaSalida.Bitmap.{
  Bitmap, is_set, asignar_espacio_bitmap, liberar_espacio_bitmap,
}
use tp_2024_1c_asado_criollo.EntradaSalida.Bitmap.Search.{
  Primero, lleno, hay, get_next_free_space-Primero,
}
use tp_2024_1c_asado_criollo.EntradaSalida.Bitmap.Ranges.{
  asignar_espacio_bitmap-Cambiado, liberar_espacio_bitmap-Cambiado,
}
use tp_2024_1c_asado_criollo.EntradaSalida.Nombres.{actualizar_archivo_nombres}
use tp_2024_1c_asado_criollo.EntradaSalida.Archivos.{
  Metadata, DialFs, Retorno, cero, menos_uno, sin_valor, poner_metadata, actualizar_metadata,
  crear_file_metadata, crear_file, cant_bloques, borrar_file,
}
use tp_2024_1c_asado_criollo.EntradaSalida.Archivos.Invariant.{
  ocupa, Separados, Ordenado, poner_metadata-get,
}

-- What a successful CrearFile has done: the first free block is the file's.
pub record Creado (fs fs' : DialFs) (f : List ℕ) : Type 0 where
  pub base : ℕ
  pub era_nuevo : fs.metadata f ≡ none
  pub era_libre : is_set fs.bitmap base ≡ false
  pub tomado : is_set fs'.bitmap base ≡ true
  pub otros_bloques : (i : ℕ) → i ≢ base → is_set fs'.bitmap i ≡ is_set fs.bitmap i
  pub suyo :
      fs'.metadata f ≡ some (record { bloque_inicial = base; tamanio_archivo = fs.block_size })
  pub otros : (n : List ℕ) → n ≢ f → fs'.metadata n ≡ fs.metadata n
  pub ordenado : Ordenado fs'

ocupa-uno :
    (bs base : ℕ) → 0 < bs → ocupa bs (record { bloque_inicial = base; tamanio_archivo = bs }) ≡ 1
unfolding cant_bloques
ocupa-uno bs base h =
    let a : (bs % bs == 0) ≡ true = ground (arith, mod_self bs) in rw (a, div_self {n = bs} h) refl

true_no_false : true ≢ false
true_no_false = λ e. absurd cc

lejos : (i base : ℕ) → (i == base) ≡ false → (i < base) ⊎ (base + 1 ≤ i)
lejos i base h = elim (Bool-cases (ltb i base)) [
  | inl z ↦ inl (ground (arith, z))
  | inr z ↦ inr (ground (arith, z, h))
]

Separados-sym : (bs : ℕ) (m m' : Metadata) → Separados bs m m' → Separados bs m' m
Separados-sym bs m m' (inl h) = inr h
Separados-sym bs m m' (inr h) = inl h

-- The file system with a new file on a free block.
Ordenado-crear :
    (fs : DialFs) (f : List ℕ) (base : ℕ)
    → Ordenado fs
    → fs.metadata f ≡ none
    → base < fs.bitmap.size
    → is_set fs.bitmap base ≡ false
    → Creado fs
        (record (crear_file_metadata fs f base) {
          bitmap = asignar_espacio_bitmap fs.bitmap base 1;
          nombres = actualizar_archivo_nombres fs.nombres f true;
        })
        f
unfolding crear_file_metadata actualizar_metadata
Ordenado-crear fs f base h e lt libre =
    let c = asignar_espacio_bitmap-Cambiado fs.bitmap base 1 h.exacto (omega (arith, lt)) in
    let m : Metadata = record { bloque_inicial = base; tamanio_archivo = fs.block_size } in
    let uno = ocupa-uno fs.block_size base h.positivo in
    let separa : (n : List ℕ) (x : Metadata)
        → fs.metadata n ≡ some x
        → Separados fs.block_size m x =
      λ n x g. elim (Bool-cases (leb (x.bloque_inicial + ocupa fs.block_size x) base)) [
        | inl z ↦ inr (ground (arith, z))
        | inr z ↦ elim (Bool-cases (ltb base x.bloque_inicial)) [
          | inl y ↦ inl (rw uno (ground (arith, y)))
          | inr y ↦ absurd (
              true_no_false
                (sym (h.tomados n x g base (ground (arith, y)) (ground (arith, z))) ∙ libre))
        ]
      ] in
    record {
      base = base;
      era_nuevo = e;
      era_libre = libre;
      tomado = c.dentro base (omega arith) (omega arith);
      otros_bloques = λ i n. c.fuera i (lejos i base (ground (arith, n)));
      suyo = rw ((eq_bytes_iff f f).1 refl) refl;
      otros = λ n ne. elim (Bool-cases (eq_bytes n f)) [
        | inl z ↦ absurd (ne ((eq_bytes_iff n f).0 z))
        | inr z ↦ rw z refl
      ];
      ordenado = record {
        exacto = c.exacto;
        positivo = h.positivo;
        dentro = λ n x g. elim (poner_metadata-get fs.metadata f n (some m) g) [
          | inl (q, r) ↦ let mx : m ≡ x = cc in rw (sym mx, uno) (omega (arith, lt, c.mismo))
          | inr (q, r) ↦ rw c.mismo (h.dentro n x r)
        ];
        tomados = λ n x g i lo hi. elim (poner_metadata-get fs.metadata f n (some m) g) [
          | inl (q, r) ↦
              let mx : m ≡ x = cc in c.dentro i (rw (sym mx) at lo) (rw (sym mx, uno) at hi)
          | inr (q, r) ↦ elim (Bool-cases (i == base)) [
            | inl z ↦ c.dentro i (ground (arith, z)) (ground (arith, z))
            | inr z ↦ c.fuera i (lejos i base z) ∙ h.tomados n x r i lo hi
          ]
        ];
        separados = λ n n' x x' ne g g'. elim (poner_metadata-get fs.metadata f n (some m) g) [
          | inl (q, r) ↦ elim (poner_metadata-get fs.metadata f n' (some m) g') [
            | inl (q', r') ↦ absurd (ne (q ∙ sym q'))
            | inr (q', r') ↦ let mx : m ≡ x = cc in rw (sym mx) (separa n' x' r')
          ]
          | inr (q, r) ↦ elim (poner_metadata-get fs.metadata f n' (some m) g') [
            | inl (q', r') ↦
                let mx : m ≡ x' = cc in rw (sym mx) (Separados-sym fs.block_size m x (separa n x r))
            | inr (q', r') ↦ h.separados n n' x x' ne r r'
          ]
        ];
      };
    }

primero_libre :
    (b : Bitmap) {o : Option ℕ}
    → Primero b 0 b.size o
    → ((o ≡ none) × ((i : ℕ) → i < b.size → is_set b i ≡ true))
      ⊎ ((k : ℕ) × (o ≡ some k) × (k < b.size) × (is_set b k ≡ false))
primero_libre b (lleno f) = inl (refl, λ i h. f i (omega arith) (omega (arith, h)))
primero_libre b (hay k lo hi g f) = inr (k, refl, omega (arith, hi), g)

-- The answers of CrearFile.
pub data Creacion (fs : DialFs) (f : List ℕ) : Retorno × DialFs → Type 0 where
  ya_existe : {m : Metadata} → fs.metadata f ≡ some m → Creacion fs f (menos_uno, fs)
  disco_lleno :
      ((i : ℕ) → i < fs.bitmap.size → is_set fs.bitmap i ≡ true) → Creacion fs f (menos_uno, fs)
  creado : {fs' : DialFs} → Creado fs fs' f → Creacion fs f (sin_valor, fs')

-- In a file system whose files share no block, CrearFile answers -1 and changes nothing when the
-- file exists or every block is taken; otherwise it ends without a value, the file has one block
-- that was free, the other files and blocks are as they were, and no two files share a block.
pub crear_file-Creacion : (fs : DialFs) (f : List ℕ) → Ordenado fs → Creacion fs f (crear_file fs f)
unfolding crear_file
crear_file-Creacion fs f h = elim (Option-cases (fs.metadata f)) [
  | inr (m, e) ↦ rw (e, crear_file) (ya_existe e)
  | inl e ↦ elim (primero_libre fs.bitmap (get_next_free_space-Primero fs.bitmap)) [
    | inl (g, l) ↦ rw (e, crear_file, g) (disco_lleno l)
    | inr (base, g, l, n) ↦ rw (e, crear_file, g) (creado (Ordenado-crear fs f base h e l n))
  ]
]

-- What BorrarFile has done: the blocks of the file are free, the others are as they were.
pub record Borrado (fs fs' : DialFs) (f : List ℕ) (m : Metadata) : Type 0 where
  pub libres :
      (i : ℕ)
      → m.bloque_inicial ≤ i
      → i < m.bloque_inicial + ocupa fs.block_size m
      → is_set fs'.bitmap i ≡ false
  pub otros_bloques :
      (i : ℕ)
      → (i < m.bloque_inicial) ⊎ (m.bloque_inicial + ocupa fs.block_size m ≤ i)
      → is_set fs'.bitmap i ≡ is_set fs.bitmap i
  pub sin_archivo : fs'.metadata f ≡ none
  pub otros : (n : List ℕ) → n ≢ f → fs'.metadata n ≡ fs.metadata n
  pub ordenado : Ordenado fs'

-- In a file system whose files share no block, BorrarFile of a file that exists, when remove
-- succeeds, returns 0: exactly the blocks of the file are freed, the other files are as they were,
-- and no two files share a block.
pub borrar_file-Borrado :
    (fs : DialFs) (f : List ℕ) {m : Metadata}
    → Ordenado fs
    → fs.metadata f ≡ some m
    → (fs' : DialFs) × (borrar_file false fs f ≡ some (cero, fs')) × Borrado fs fs' f m
unfolding borrar_file
borrar_file-Borrado fs f {m} h e =
    let n = cant_bloques fs.block_size m.tamanio_archivo in
    let c =
      liberar_espacio_bitmap-Cambiado fs.bitmap m.bloque_inicial n h.exacto (h.dentro f m e) in
    let fs' : DialFs = record fs {
      bitmap = liberar_espacio_bitmap fs.bitmap m.bloque_inicial n;
      metadata = poner_metadata fs.metadata f none;
      nombres = actualizar_archivo_nombres fs.nombres f false;
    } in
    (
      fs',
      rw e refl,
      record {
        libres = c.dentro;
        otros_bloques = c.fuera;
        sin_archivo = rw ((eq_bytes_iff f f).1 refl) refl;
        otros = λ x ne. elim (Bool-cases (eq_bytes x f)) [
          | inl z ↦ absurd (ne ((eq_bytes_iff x f).0 z))
          | inr z ↦ rw z refl
        ];
        ordenado = record {
          exacto = c.exacto;
          positivo = h.positivo;
          dentro = λ x y g. elim (poner_metadata-get fs.metadata f x none g) [
            | inl (q, r) ↦ absurd cc
            | inr (q, r) ↦ rw c.mismo (h.dentro x y r)
          ];
          tomados = λ x y g i lo hi. elim (poner_metadata-get fs.metadata f x none g) [
            | inl (q, r) ↦ absurd cc
            | inr (q, r) ↦
                c.fuera i (elim (h.separados x f y m q r e) [
                  | inl s ↦ inl (omega (arith, s, hi))
                  | inr s ↦ inr (omega (arith, s, lo))
                ])
                ∙ h.tomados x y r i lo hi
          ];
          separados = λ x x' y y' ne g g'. elim (poner_metadata-get fs.metadata f x none g) [
            | inl (q, r) ↦ absurd cc
            | inr (q, r) ↦ elim (poner_metadata-get fs.metadata f x' none g') [
              | inl (q', r') ↦ absurd cc
              | inr (q', r') ↦ h.separados x x' y y' ne r r'
            ]
          ];
        };
      },
    )
