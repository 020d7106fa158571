-- ===== src/Tests/Archivos.antt =====
-- A disk of eight blocks of four bytes with one file, and a request of the CPU.
use tp_2024_1c_asado_criollo.Prelude.{
  ℕ, zero, suc, ◌<◌, ◌≡◌, ◌≢◌, refl, sym, ◌∙◌, true, false, List, [], ◌∷◌, none, some, arith, codes,
  length, replicate, inl, inr, ◌≤◌,
}
use tp_2024_1c_asado_criollo.Cpu.Decode.{io_fs_write}
use tp_2024_1c_asado_criollo.Cpu.Execute.Io.{buffer_fs}
use tp_2024_1c_asado_criollo.EntradaSalida.Bitmap.{is_set}
use tp_2024_1c_asado_criollo.EntradaSalida.Nombres.{
  actualizar_archivo_nombres, abre, cierra, delete_value, strstr,
}
use tp_2024_1c_asado_criollo.EntradaSalida.Nombres.Sequence.{
  texto, actualizar_archivo_nombres-texto,
}
use tp_2024_1c_asado_criollo.EntradaSalida.Archivos.{
  Metadata, DialFs, cero, poner_metadata, cant_bloques, crear_file, borrar_file, fs_write, fs_read,
}
use tp_2024_1c_asado_criollo.EntradaSalida.Archivos.Invariant.{ocupa, Ordenado, poner_metadata-get}
use tp_2024_1c_asado_criollo.EntradaSalida.Archivos.RoundTrip.{fs_write-fs_read}
use tp_2024_1c_asado_criollo.EntradaSalida.Archivos.Blocks.{
  Creacion, crear_file-Creacion, Borrado, borrar_file-Borrado,
}
use tp_2024_1c_asado_criollo.EntradaSalida.Mensajes.{vivo, escribir_archivo}
use tp_2024_1c_asado_criollo.EntradaSalida.Mensajes.RoundTrip.{escribe, Entregado, entregar-Enviado}

abbrev notas : List ℕ
notas = 97 ∷ []

abbrev otra : List ℕ
otra = 98 ∷ []

abbrev de_notas : Metadata
de_notas = record { bloque_inicial = 1; tamanio_archivo = 6 }

abbrev disco : DialFs
disco = record {
  bitmap = record {
    size = 8;
    free_space = 6;
    bits = (false ∷ true ∷ true ∷ false ∷ false ∷ false ∷ false ∷ false ∷ []) ∷ [];
  };
  metadata = poner_metadata (λ n. none) notas (some de_notas);
  nombres = texto notas [];
  bloques = λ i. 0;
  block_size = 4;
}

-- The one file.
solo_notas : (n : List ℕ) (m : Metadata) → disco.metadata n ≡ some m → (n ≡ notas) × (de_notas ≡ m)
solo_notas n m e = elim (poner_metadata-get (λ n. none) notas n (some de_notas) e) [
  | inl (q, r) ↦ (q, cc)
  | inr (q, r) ↦ absurd cc
]

dos_bloques : ocupa 4 de_notas ≡ 2
unfolding cant_bloques
dos_bloques = refl

disco-Ordenado : Ordenado disco
unfolding cant_bloques is_set
disco-Ordenado = record {
  exacto = record { bytes = (refl, tt); cubre = omega arith; exacto = refl };
  positivo = omega arith;
  dentro = λ n m e. rw (sym (solo_notas n m e).1) (omega arith);
  tomados = λ n m e i lo hi.
      let q = (solo_notas n m e).1 in tomado i (rw (sym q) at lo) (rw (sym q) at hi);
  separados = λ n n' m m' ne e e'. absurd (ne ((solo_notas n m e).0 ∙ sym (solo_notas n' m' e').0));
}
  where
    tomado : (i : ℕ) → 1 ≤ i → i < 3 → is_set disco.bitmap i ≡ true
    tomado zero lo hi = absurd (omega arith)
    tomado (suc zero) lo hi = refl
    tomado (suc (suc zero)) lo hi = refl
    tomado (suc (suc (suc i))) lo hi = absurd (omega arith)

fs_write-fs_read_example :
    (fs' : DialFs) × (fs_write disco notas 2 (7 ∷ 8 ∷ 9 ∷ 10 ∷ []) 4 ≡ some (cero, fs'))
    × (fs_read fs' notas 2 4 ≡ some (7 ∷ 8 ∷ 9 ∷ 10 ∷ []))
    × ((n : List ℕ) (p t : ℕ) → n ≢ notas → fs_read fs' n p t ≡ fs_read disco n p t)
fs_write-fs_read_example =
    fs_write-fs_read disco notas (7 ∷ 8 ∷ 9 ∷ 10 ∷ []) 2 disco-Ordenado refl (omega arith)

crear_file-Creacion_example : Creacion disco otra (crear_file disco otra)
crear_file-Creacion_example = crear_file-Creacion disco otra disco-Ordenado

borrar_file-Borrado_example :
    (fs' : DialFs) × (borrar_file false disco notas ≡ some (cero, fs'))
    × Borrado disco fs' notas de_notas
borrar_file-Borrado_example = borrar_file-Borrado disco notas disco-Ordenado refl

actualizar_archivo_nombres-texto_example :
    (actualizar_archivo_nombres [] otra true ≡ texto otra [])
    × (actualizar_archivo_nombres (abre ∷ cierra ∷ []) otra true ≡ texto otra [])
    × (actualizar_archivo_nombres (texto notas (notas ∷ [])) otra true
        ≡ texto notas (notas ∷ otra ∷ []))
actualizar_archivo_nombres-texto_example =
    actualizar_archivo_nombres-texto notas otra (notas ∷ []) (λ e. absurd cc)

-- Taking "a" off "[ab,a]" leaves "[b,a]".
borra_otro :
    delete_value (abre ∷ 97 ∷ 98 ∷ 44 ∷ 97 ∷ cierra ∷ []) (97 ∷ [])
    ≡ abre ∷ 98 ∷ 44 ∷ 97 ∷ cierra ∷ []
unfolding delete_value strstr
borra_otro = refl

abbrev ceros : ℕ → List ℕ
ceros n = replicate n 0

length-ceros : (n : ℕ) → length (ceros n) ≡ n
length-ceros zero = refl
length-ceros (suc n) = omega (arith, length-ceros n)

entregar-Enviado_example :
    Entregado ceros length-ceros 3 "FS"
      (buffer_fs ceros io_fs_write "FS" "notas" 70 4 2)
      (escribir_archivo (codes "notas") 70 (vivo 4) (vivo 2))
entregar-Enviado_example =
    entregar-Enviado ceros length-ceros 3 "FS" (omega arith) (omega arith)
      (escribe "notas" 70 4 2 (omega arith) (omega arith) (omega arith) (omega arith))
