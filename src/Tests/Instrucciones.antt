-- ===== src/Tests/Instrucciones.antt =====
-- Instructions, the process control block on the wire and the buffers of the IO instructions.
use tp_2024_1c_asado_criollo.Prelude.{
  ℕ, ◌+◌, ◌%◌, ◌^◌, ◌<◌, ◌≡◌, refl, true, false, List, [], ◌∷◌, ◌++◌, none, some, arith, length, ap,
  zero, suc, if◌then◌else◌,
}
use tp_2024_1c_asado_criollo.Commons.Buffer.{Buffer, bytes_u32}
use tp_2024_1c_asado_criollo.Commons.Pcb.{Registros, Pcb, serializar_pcb, deserializar_pcb}
use tp_2024_1c_asado_criollo.Commons.Pcb.Wire.{PcbInRange, deserializar-serializar_pcb}
use tp_2024_1c_asado_criollo.Cpu.Registros.{ax, bx, eax, pc, leer_palabra, guardar_palabra}
use tp_2024_1c_asado_criollo.Cpu.Registros.Layout.{
  valor_de, con_valor, leer-guardar_palabra, cuatro_bytes, todos_cero,
}
use tp_2024_1c_asado_criollo.Cpu.Decode.{
  io_fs_write, io_fs_truncate, io_stdin_read, codigo_instruccion, parsear_instruccion,
}
use tp_2024_1c_asado_criollo.Cpu.Decode.RoundTrip.{
  o_io_fs_write, o_sum, o_sub, o_jnz, imprimir, significado, parsear_instruccion-imprimir,
}
use tp_2024_1c_asado_criollo.Cpu.Execute.{ejecutar_sum, ejecutar_sub, ejecutar_jnz}
use tp_2024_1c_asado_criollo.Cpu.Execute.Alu.{ejecutar_sum_lem, ejecutar_sub_lem, ejecutar_jnz_lem}
use tp_2024_1c_asado_criollo.Cpu.Execute.Io.{bytes_puntero, buffer_fs, buffer_std, buffer_truncate}
use tp_2024_1c_asado_criollo.Cpu.Execute.Io.Fit.{
  lleno, bytes_string, buffer_fs_lem, buffer_std_lem, buffer_truncate_lem,
}

abbrev registros : Registros
registros = record {
  pc = 7;
  ax = 200;
  bx = 100;
  cx = 3;
  dx = 0;
  eax = 4000000000;
  ebx = 500000000;
  ecx = 0;
  edx = 0;
  si = 0;
  di = 0;
}

abbrev ceros : ℕ → List ℕ
ceros zero = []
ceros (suc n) = 0 ∷ ceros n

abbrev pcb : Pcb
pcb = record { pid = 3; pc = 7; quantum = 2000; estado = 2; registros = registros }

pcb-PcbInRange : PcbInRange pcb
pcb-PcbInRange = omega arith

length-ceros : (n : ℕ) → length (ceros n) ≡ n
length-ceros zero = refl
length-ceros (suc n) = ap suc (length-ceros n)

deserializar-serializar_pcb_example :
    (b : Buffer) × (serializar_pcb ceros pcb ≡ some b)
    × (b.size ≡ 48)
    × (deserializar_pcb (record { size = 52; offset = 0; stream = b.stream ++ bytes_u32 4 })
        ≡ some (pcb, record { size = 52; offset = 48; stream = b.stream ++ bytes_u32 4 }))
deserializar-serializar_pcb_example =
    deserializar-serializar_pcb ceros pcb 52 (bytes_u32 4) (length-ceros 48) pcb-PcbInRange

leer-guardar_palabra_example :
    leer_palabra bx (guardar_palabra bx 4000000000 registros) ≡ 4000000000 % 2 ^ 32
leer-guardar_palabra_example = leer-guardar_palabra bx 4000000000 registros

parsear_instruccion-imprimir_example :
    parsear_instruccion (λ s. 0) true (imprimir (o_io_fs_write "FS" "notas.txt" ax eax pc))
    ≡ significado (λ s. 0) (o_io_fs_write "FS" "notas.txt" ax eax pc)
parsear_instruccion-imprimir_example =
    parsear_instruccion-imprimir (λ s. 0) true (o_io_fs_write "FS" "notas.txt" ax eax pc)

-- 200 + 100 in eight bits.
ejecutar_sum_lem_example :
    ejecutar_sum (significado (λ s. 0) (o_sum ax bx)) registros
    ≡ some (con_valor ax ((valor_de ax registros + valor_de bx registros) % 256) registros)
ejecutar_sum_lem_example = ejecutar_sum_lem (λ s. 0) ax bx registros

chica_bx : leer_palabra bx registros < 2 ^ 32
unfolding leer_palabra
chica_bx = omega arith

-- Two registers of 8 bits: the word of BX comes off the word of AX.
ejecutar_sub_lem_example :
    (r' : Registros) × (ejecutar_sub (significado (λ s. 0) (o_sub ax bx)) registros ≡ some r')
    × ((leer_palabra ax r' + leer_palabra bx registros) % 2 ^ 32
        ≡ leer_palabra ax registros % 2 ^ 32)
    × (guardar_palabra ax (leer_palabra ax registros) r'
        ≡ guardar_palabra ax (leer_palabra ax registros) registros)
ejecutar_sub_lem_example = ejecutar_sub_lem (λ s. 0) ax bx registros chica_bx

ejecutar_jnz_lem_example :
    ejecutar_jnz (significado (λ s. 2) (o_jnz ax "2")) registros
    ≡ some (
        if todos_cero (cuatro_bytes ax registros)
        then registros
        else con_valor pc (2 % 2 ^ 32) registros)
ejecutar_jnz_lem_example = ejecutar_jnz_lem (λ s. 2) ax "2" registros

buffer_fs_lem_example :
    buffer_fs ceros io_fs_write "FS" "notas.txt" 1016 4 0
    ≡ some (
        lleno (
          bytes_u32 (codigo_instruccion io_fs_write)
          ++ (bytes_string "FS"
              ++ (bytes_string "notas.txt"
                  ++ (bytes_puntero 1016 ++ (bytes_u32 4 ++ bytes_u32 0))))))
buffer_fs_lem_example = buffer_fs_lem ceros length-ceros io_fs_write "FS" "notas.txt" 1016 4 0

buffer_std_lem_example :
    buffer_std ceros io_stdin_read "TECLADO" 1016 4
    ≡ some (
        lleno (
          bytes_u32 (codigo_instruccion io_stdin_read)
          ++ (bytes_string "TECLADO" ++ (bytes_puntero 1016 ++ bytes_u32 4))))
buffer_std_lem_example = buffer_std_lem ceros length-ceros io_stdin_read "TECLADO" 1016 4

buffer_truncate_lem_example :
    (buffer_truncate ceros "FS" "notas.txt" false ax registros
      ≡ some (
          lleno (
            bytes_u32 (codigo_instruccion io_fs_truncate)
            ++ (bytes_string "FS"
                ++ (bytes_string "notas.txt" ++ bytes_u32 (leer_palabra ax registros))))))
    × (buffer_truncate ceros "FS" "notas.txt" true ax registros ≡ none)
buffer_truncate_lem_example = buffer_truncate_lem ceros length-ceros "FS" "notas.txt" ax registros
