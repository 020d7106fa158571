-- ===== src/Commons/Pcb/Wire.antt =====
-- The wire format of a PCB, written by serializar_pcb and read back by deserializar_pcb.
use tp_2024_1c_asado_criollo.Prelude.{
  ℕ, ◌<◌, ◌^◌, ◌%◌, ◌≡◌, refl, ◌∙◌, ap, sym, List, [], ◌∷◌, ◌++◌, Option, some, ◌>>=◌, length,
  append-nil,
}
use tp_2024_1c_asado_criollo.Commons.Buffer.{Buffer, bytes_u32, buffer_create, buffer_add_uint32}
use tp_2024_1c_asado_criollo.Commons.Buffer.Stream.{
  Puts, Gets, Puts-bind, Gets-bind, Gets-pure, buffer_add_uint32-Puts, buffer_add_uint8-Puts,
  buffer_read_uint32-Gets, buffer_read_uint8-Gets,
}
use tp_2024_1c_asado_criollo.Commons.Pcb.{
  Registros, Pcb, serializar_registros, serializar_pcb, deserializar_registros, deserializar_pcb,
}

-- Every field fits the C type that it has.
pub record RegistrosInRange (r : Registros) : Type 0 where
  pub pc : r.pc < 2 ^ 32
  pub ax : r.ax < 256
  pub bx : r.bx < 256
  pub cx : r.cx < 256
  pub dx : r.dx < 256
  pub eax : r.eax < 2 ^ 32
  pub ebx : r.ebx < 2 ^ 32
  pub ecx : r.ecx < 2 ^ 32
  pub edx : r.edx < 2 ^ 32
  pub si : r.si < 2 ^ 32
  pub di : r.di < 2 ^ 32

pub record PcbInRange (p : Pcb) : Type 0 where
  pub pid : p.pid < 2 ^ 32
  pub pc : p.pc < 2 ^ 32
  pub quantum : p.quantum < 2 ^ 32
  pub estado : p.estado < 2 ^ 32
  pub registros : RegistrosInRange p.registros

abbrev u8 : ℕ → List ℕ
u8 x = (x % 256) ∷ []

-- The bytes on the wire, field by field.
abbrev pub bytes_registros : Registros → List ℕ
bytes_registros r =
    bytes_u32 r.pc
    ++ (u8 r.ax
        ++ (u8 r.bx
            ++ (u8 r.cx
                ++ (u8 r.dx
                    ++ (bytes_u32 r.eax
                        ++ (bytes_u32 r.ebx
                            ++ (bytes_u32 r.ecx
                                ++ (bytes_u32 r.edx ++ (bytes_u32 r.si ++ bytes_u32 r.di)))))))))

abbrev pub bytes_pcb : Pcb → List ℕ
bytes_pcb p =
    bytes_u32 p.pid
    ++ (bytes_u32 p.pc
        ++ (bytes_u32 p.quantum ++ (bytes_u32 p.estado ++ bytes_registros p.registros)))

serializar_registros-Puts :
    (r : Registros) → Puts (λ b. serializar_registros b r) (bytes_registros r)
unfolding serializar_registros
serializar_registros-Puts r =
    let w = buffer_add_uint32-Puts in
    let v = buffer_add_uint8-Puts in
    Puts-bind _ _ (w r.pc) (
      Puts-bind _ _ (v r.ax) (
        Puts-bind _ _ (v r.bx) (
          Puts-bind _ _ (v r.cx) (
            Puts-bind _ _ (v r.dx) (
              Puts-bind _ _ (w r.eax) (
                Puts-bind _ _ (w r.ebx) (
                  Puts-bind _ _ (w r.ecx)
                    (Puts-bind _ _ (w r.edx) (Puts-bind _ _ (w r.si) (w r.di))))))))))

campos-Puts :
    (p : Pcb)
    → Puts
        (λ b. buffer_add_uint32 b p.pid >>= λ b. buffer_add_uint32 b p.pc >>= λ b.
          buffer_add_uint32 b p.quantum >>= λ b.
          buffer_add_uint32 b p.estado >>= λ b. serializar_registros b p.registros)
        (bytes_pcb p)
campos-Puts p =
    let w = buffer_add_uint32-Puts in
    Puts-bind _ _ (w p.pid) (
      Puts-bind _ _ (w p.pc) (
        Puts-bind _ _ (w p.quantum)
          (Puts-bind _ _ (w p.estado) (serializar_registros-Puts p.registros))))

deserializar_registros-Gets :
    (r : Registros) → RegistrosInRange r → Gets deserializar_registros (bytes_registros r) r
unfolding deserializar_registros
deserializar_registros-Gets r h =
    let w = buffer_read_uint32-Gets in
    let v = buffer_read_uint8-Gets in
    Gets-bind _ _ _ _ _ (w r.pc h.pc) (
      Gets-bind _ _ _ _ _ (v r.ax h.ax) (
        Gets-bind _ _ _ _ _ (v r.bx h.bx) (
          Gets-bind _ _ _ _ _ (v r.cx h.cx) (
            Gets-bind _ _ _ _ _ (v r.dx h.dx) (
              Gets-bind _ _ _ _ _ (w r.eax h.eax) (
                Gets-bind _ _ _ _ _ (w r.ebx h.ebx) (
                  Gets-bind _ _ _ _ _ (w r.ecx h.ecx) (
                    Gets-bind _ _ _ _ _ (w r.edx h.edx) (
                      Gets-bind _ _ _ _ _ (w r.si h.si)
                        (Gets-bind _ _ [] _ _ (w r.di h.di) (Gets-pure r)))))))))))

deserializar_pcb-Gets : (p : Pcb) → PcbInRange p → Gets deserializar_pcb (bytes_pcb p) p
unfolding deserializar_pcb
deserializar_pcb-Gets p h =
    let w = buffer_read_uint32-Gets in
    Gets-bind _ _ _ _ _ (w p.pid h.pid) (
      Gets-bind _ _ _ _ _ (w p.pc h.pc) (
        Gets-bind _ _ _ _ _ (w p.quantum h.quantum) (
          Gets-bind _ _ _ _ _ (w p.estado h.estado) (
            Gets-bind _ _ [] _ _ (deserializar_registros-Gets p.registros h.registros)
              (Gets-pure p)))))

-- A PCB serialised into a fresh buffer fills it exactly, with the bytes of its fields in order.
pub serializar_pcb_lem :
    (malloc : ℕ → List ℕ) (p : Pcb)
    → length (malloc 48) ≡ 48
    → serializar_pcb malloc p ≡ some (record { size = 48; offset = 48; stream = bytes_pcb p })
unfolding serializar_pcb buffer_create
serializar_pcb_lem malloc p e =
    ap (λ s. escribir (record { size = 48; offset = 0; stream = s })) (sym (append-nil (malloc 48)))
    ∙ (campos-Puts p).puts 48 [] (malloc 48) [] e
    ∙ refl
  where
    escribir : Buffer → Option Buffer
    escribir b = buffer_add_uint32 b p.pid >>= λ b. buffer_add_uint32 b p.pc >>= λ b.
        buffer_add_uint32 b p.quantum >>= λ b.
        buffer_add_uint32 b p.estado >>= λ b. serializar_registros b p.registros

-- Whatever follows a serialised PCB in a received buffer, DeserializarPCB returns that PCB and
-- leaves the cursor behind its 48 bytes, for a PCB whose fields fit their C types and a malloc that
-- returns 48 bytes.
pub deserializar-serializar_pcb :
    (malloc : ℕ → List ℕ) (p : Pcb) (size : ℕ) (rest : List ℕ)
    → length (malloc 48) ≡ 48
    → PcbInRange p
    → (b : Buffer) × (serializar_pcb malloc p ≡ some b)
      × (b.size ≡ 48)
      × (deserializar_pcb (record { size = size; offset = 0; stream = b.stream ++ rest })
          ≡ some (p, record { size = size; offset = 48; stream = b.stream ++ rest }))
deserializar-serializar_pcb malloc p size rest e h =
    (_, serializar_pcb_lem malloc p e, refl, (deserializar_pcb-Gets p h).gets size [] rest)
