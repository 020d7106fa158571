-- ===== src/EntradaSalida/Nombres.antt =====
-- The list of the file names as a text, "[a,b,c]": insertAtEnd and deleteValue of
-- utils/src/commons.c, and ActualizarArchivoNombres of entradasalida/src/DialFS.c. A text is the
-- list of its bytes without the NUL; a read at its end gives 0.
pub mod Sequence
use tp_2024_1c_asado_criollo.Prelude.{
  ℕ, ◌+◌, ◌-◌, Bool, true, false, ◌&&◌, List, [], ◌∷◌, ◌++◌, Option, none, some, ◌==◌, ltb,
  eq_bytes, if◌then◌else◌, length, take, drop, get_elem?,
}

-- The characters '[', ']' and ','.
abbrev pub abre : ℕ
abre = 91

abbrev pub cierra : ℕ
cierra = 93

abbrev pub coma : ℕ
coma = 44

unfoldable pub insert_at_end : List ℕ → List ℕ → List ℕ
insert_at_end str value =
    if ltb 1 (length str)
    then take (length str - 1) str ++ (coma ∷ (value ++ (cierra ∷ [])))
    else str ++ (value ++ (cierra ∷ []))

-- Whether the text begins with the value, and strstr from index `i` on.
abbrev pub empieza : List ℕ → List ℕ → Bool
empieza [] ys = true
empieza (x ∷ xs) [] = false
empieza (x ∷ xs) (y ∷ ys) = if x == y then empieza xs ys else false

unfoldable pub strstr : List ℕ → List ℕ → ℕ → Option ℕ
strstr [] value i = if empieza value [] then some i else none
strstr (c ∷ cs) value i = if empieza value (c ∷ cs) then some i else strstr cs value (i + 1)

abbrev pub caracter : List ℕ → ℕ → ℕ
caracter str i = elim (get_elem? str i) [ none ↦ 0 | some c ↦ c ]

-- memmove of the end of the text, from `hasta` on, to `desde`.
abbrev pub quitar_tramo : List ℕ → ℕ → ℕ → List ℕ
quitar_tramo str desde hasta = take desde str ++ drop hasta str

unfoldable pub delete_value : List ℕ → List ℕ → List ℕ
unfolding strstr
delete_value str value = elim (strstr str value 0) [
  | none ↦ str
  | some pos ↦
      let fin = pos + length value in
      if caracter str fin == coma
      then quitar_tramo str pos (fin + 1)
      else if ltb 1 pos && (caracter str (pos - 1) == coma)
      then quitar_tramo str (pos - 1) fin
      else quitar_tramo str pos fin
]

unfoldable pub actualizar_archivo_nombres : List ℕ → List ℕ → Bool → List ℕ
unfolding insert_at_end delete_value
actualizar_archivo_nombres archivos nombre true =
    if length archivos == 0
    then abre ∷ (nombre ++ (cierra ∷ []))
    else if eq_bytes archivos (abre ∷ cierra ∷ [])
    then abre ∷ (nombre ++ (cierra ∷ []))
    else insert_at_end archivos nombre
actualizar_archivo_nombres archivos nombre false = delete_value archivos nombre
