-- ===== src/Tests/EntradaSalida.antt =====
-- A bitmap of ten blocks.
use tp_2024_1c_asado_criollo.Prelude.{◌≡◌, refl, true, false, [], ◌∷◌, arith, ◌==◌, ◌&&◌, not, leb}
use tp_2024_1c_asado_criollo.EntradaSalida.Bitmap.{
  Bitmap, asignar_espacio_bitmap, liberar_espacio_bitmap, check_if_espacio_disponible,
  get_next_free_space, is_set,
}
use tp_2024_1c_asado_criollo.EntradaSalida.Bitmap.FreeSpace.{IsExacto}
use tp_2024_1c_asado_criollo.EntradaSalida.Bitmap.Search.{
  Primero, get_next_free_space-Primero, check_if_espacio_disponible_lem,
}
use tp_2024_1c_asado_criollo.EntradaSalida.Bitmap.Ranges.{
  Cambiado, asignar_espacio_bitmap-Cambiado, liberar_espacio_bitmap-Cambiado,
}

-- The blocks 1 and 8 are taken.
abbrev diez_bloques : Bitmap
diez_bloques = record {
  size = 10;
  free_space = 8;
  bits =
      (false ∷ true ∷ false ∷ false ∷ false ∷ false ∷ false ∷ false ∷ [])
      ∷ (true ∷ false ∷ false ∷ false ∷ false ∷ false ∷ false ∷ false ∷ [])
      ∷ [];
}

diez-IsExacto : IsExacto diez_bloques
diez-IsExacto = record { bytes = (refl, (refl, tt)); cubre = omega arith; exacto = refl }

asignar_espacio_bitmap-Cambiado_example :
    Cambiado diez_bloques (asignar_espacio_bitmap diez_bloques 7 3) 7 3 true
asignar_espacio_bitmap-Cambiado_example =
    asignar_espacio_bitmap-Cambiado diez_bloques 7 3 diez-IsExacto (omega arith)

liberar_espacio_bitmap-Cambiado_example :
    Cambiado diez_bloques (liberar_espacio_bitmap diez_bloques 1 0) 1 1 false
liberar_espacio_bitmap-Cambiado_example =
    liberar_espacio_bitmap-Cambiado diez_bloques 1 0 diez-IsExacto (omega arith)

-- The blocks 7 to 9 are reported as available though block 8 is taken.
disponible_de_mas : check_if_espacio_disponible diez_bloques 7 3 ≡ true
unfolding check_if_espacio_disponible is_set
disponible_de_mas = refl

get_next_free_space-Primero_example : Primero diez_bloques 0 10 (get_next_free_space diez_bloques)
get_next_free_space-Primero_example = get_next_free_space-Primero diez_bloques

check_if_espacio_disponible_lem_example :
    check_if_espacio_disponible diez_bloques 7 3
    ≡ leb 3 8 && (not (3 == 0) && not (is_set diez_bloques 7))
check_if_espacio_disponible_lem_example = check_if_espacio_disponible_lem diez_bloques 7 3
