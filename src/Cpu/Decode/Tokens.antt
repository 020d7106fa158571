-- ===== src/Cpu/Decode/Tokens.antt =====
-- The tokens of obtenerInstruccion in cpu/src/cpu.c, beside the names of get_instruction_name in
-- utils/src/commons.c.
use tp_2024_1c_asado_criollo.Prelude.{
  ◌≡◌, refl, ◌∙◌, ◌⊎◌, inl, inr, Bool-cases, String, eq_text, eq_text_iff, if◌then◌else◌,
}
use tp_2024_1c_asado_criollo.Cpu.Decode.{
  Instruccion, set, mov_in, mov_out, sum, sub, jnz, resize, copy_string, wait, signal, io_gen_sleep,
  io_stdin_read, io_stdout_write, io_fs_create, io_fs_delete, io_fs_truncate, io_fs_write,
  io_fs_read, inst_exit, invalid_instruction, get_instruction_name, obtener_instruccion,
}

-- The token that the assembly language has for an instruction.
abbrev pub token_de : Instruccion → String
token_de inst_exit = "EXIT"
token_de set = get_instruction_name set
token_de mov_in = get_instruction_name mov_in
token_de mov_out = get_instruction_name mov_out
token_de sum = get_instruction_name sum
token_de sub = get_instruction_name sub
token_de jnz = get_instruction_name jnz
token_de resize = get_instruction_name resize
token_de copy_string = get_instruction_name copy_string
token_de wait = get_instruction_name wait
token_de signal = get_instruction_name signal
token_de io_gen_sleep = get_instruction_name io_gen_sleep
token_de io_stdin_read = get_instruction_name io_stdin_read
token_de io_stdout_write = get_instruction_name io_stdout_write
token_de io_fs_create = get_instruction_name io_fs_create
token_de io_fs_delete = get_instruction_name io_fs_delete
token_de io_fs_truncate = get_instruction_name io_fs_truncate
token_de io_fs_write = get_instruction_name io_fs_write
token_de io_fs_read = get_instruction_name io_fs_read
token_de invalid_instruction = get_instruction_name invalid_instruction

abbrev pub Reconoce : String → Instruccion → Type 0
Reconoce token i = (i ≡ invalid_instruction) ⊎ (token ≡ token_de i)

Reconoce-if :
    (token nombre : String) (i : Instruccion) {j : Instruccion}
    → nombre ≡ token_de i
    → Reconoce token j
    → Reconoce token (if eq_text token nombre then i else j)
Reconoce-if token nombre i h r = elim (Bool-cases (eq_text token nombre)) [
  | inl e ↦ rw e (inr ((eq_text_iff token nombre).0 e ∙ h))
  | inr e ↦ rw e r
]

obtener_instruccion-Reconoce : (token : String) → Reconoce token (obtener_instruccion token)
unfolding obtener_instruccion get_instruction_name
obtener_instruccion-Reconoce token = Reconoce-if token "SET" set refl (
    Reconoce-if token "MOV_IN" mov_in refl (
      Reconoce-if token "MOV_OUT" mov_out refl (
        Reconoce-if token "SUM" sum refl (
          Reconoce-if token "SUB" sub refl (
            Reconoce-if token "JNZ" jnz refl (
              Reconoce-if token "RESIZE" resize refl (
                Reconoce-if token "COPY_STRING" copy_string refl (
                  Reconoce-if token "WAIT" wait refl (
                    Reconoce-if token "SIGNAL" signal refl (
                      Reconoce-if token "IO_GEN_SLEEP" io_gen_sleep refl (
                        Reconoce-if token "IO_STDIN_READ" io_stdin_read refl (
                          Reconoce-if token "IO_STDOUT_WRITE" io_stdout_write refl (
                            Reconoce-if token "IO_FS_CREATE" io_fs_create refl (
                              Reconoce-if token "IO_FS_DELETE" io_fs_delete refl (
                                Reconoce-if token "IO_FS_TRUNCATE" io_fs_truncate refl (
                                  Reconoce-if token "IO_FS_WRITE" io_fs_write refl (
                                    Reconoce-if token "IO_FS_READ" io_fs_read refl (
                                      Reconoce-if token "EXIT" inst_exit refl
                                        (inl refl)))))))))))))))))))

obtener_instruccion-token_de : (i : Instruccion) → obtener_instruccion (token_de i) ≡ i
unfolding obtener_instruccion get_instruction_name
obtener_instruccion-token_de set = refl
obtener_instruccion-token_de mov_in = refl
obtener_instruccion-token_de mov_out = refl
obtener_instruccion-token_de sum = refl
obtener_instruccion-token_de sub = refl
obtener_instruccion-token_de jnz = refl
obtener_instruccion-token_de resize = refl
obtener_instruccion-token_de copy_string = refl
obtener_instruccion-token_de wait = refl
obtener_instruccion-token_de signal = refl
obtener_instruccion-token_de io_gen_sleep = refl
obtener_instruccion-token_de io_stdin_read = refl
obtener_instruccion-token_de io_stdout_write = refl
obtener_instruccion-token_de io_fs_create = refl
obtener_instruccion-token_de io_fs_delete = refl
obtener_instruccion-token_de io_fs_truncate = refl
obtener_instruccion-token_de io_fs_write = refl
obtener_instruccion-token_de io_fs_read = refl
obtener_instruccion-token_de inst_exit = refl
obtener_instruccion-token_de invalid_instruction = refl

-- obtenerInstruccion reads exactly the tokens that get_instruction_name has for the instructions,
-- but EXIT for INST_EXIT: each of them gives its instruction, any other text gives
-- INVALID_INSTRUCTION, and so does the name INST_EXIT.
pub obtener_instruccion-get_instruction_name :
    ((i : Instruccion) → obtener_instruccion (token_de i) ≡ i)
    × ((token : String) → Reconoce token (obtener_instruccion token))
    × (obtener_instruccion (get_instruction_name inst_exit) ≡ invalid_instruction)
unfolding obtener_instruccion get_instruction_name
obtener_instruccion-get_instruction_name =
    (obtener_instruccion-token_de, obtener_instruccion-Reconoce, refl)
