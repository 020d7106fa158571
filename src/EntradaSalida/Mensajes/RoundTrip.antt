-- ===== src/EntradaSalida/Mensajes/RoundTrip.antt =====
-- A request on its way from executeInstruccion of the CPU through PlanificadorCortoPlazo of the
-- kernel to Interfaz of entradasalida.
use tp_2024_1c_asado_criollo.Prelude.{
  ℕ, ◌+◌, ◌<◌, ◌^◌, ◌≡◌, refl, ap, ◌∙◌, String, codes, List, [], ◌++◌, Option, none, some, ◌>>=◌,
  arith, length, length-append, append-nil,
}
use tp_2024_1c_asado_criollo.Commons.Buffer.{
  Buffer, bytes_u32, u32_of_bytes, buffer_create, buffer_read, buffer_add_uint32,
  buffer_read_uint32, buffer_read_string, deserializar_string, transmitir,
}
use tp_2024_1c_asado_criollo.Commons.Buffer.Stream.{
  at, Puts-bind, Gets, Gets-bind, Gets-map, buffer_read-Gets, buffer_add_uint32-Puts,
  buffer_read_uint32-Gets,
}
use tp_2024_1c_asado_criollo.Commons.Buffer.Append.{
  buffer_get_sobrante_lem, buffer_add_buffer_lem, transmitir_lem,
}
use tp_2024_1c_asado_criollo.Cpu.Decode.{
  Instruccion, set, mov_in, mov_out, sum, sub, jnz, resize, copy_string, wait, signal, io_gen_sleep,
  io_stdin_read, io_stdout_write, io_fs_create, io_fs_delete, io_fs_truncate, io_fs_write,
  io_fs_read, inst_exit, invalid_instruction, codigo_instruccion,
}
use tp_2024_1c_asado_criollo.Cpu.Execute.Io.{
  bytes_puntero, buffer_sleep, buffer_std, buffer_archivo, buffer_fs,
}
use tp_2024_1c_asado_criollo.Cpu.Execute.Io.Fit.{
  bytes_string, lleno, Puts-lleno, buffer_sleep_lem, buffer_std_lem, buffer_archivo_lem,
  buffer_fs_lem,
}
use tp_2024_1c_asado_criollo.Kernel.Interfaces.{crear_solicitud}
use tp_2024_1c_asado_criollo.EntradaSalida.Mensajes.{
  Local, vivo, Pedido, cerrar_bloque, leer_instruccion, dormir, leer_teclado, crear, borrar,
  leer_archivo, escribir_archivo, leer_puntero, leer_dormir, leer_stdin, leer_nombre, leer_fs,
  leer_operandos, recibir_instruccion,
}

-- The low word and the high word.
u32_of_bytes-bytes_puntero : (a : ℕ) → a < 2 ^ 64 → u32_of_bytes (bytes_puntero a) ≡ a
unfolding u32_of_bytes
u32_of_bytes-bytes_puntero a h = ground (arith, h)

leer_puntero-Gets : (a : ℕ) → a < 2 ^ 64 → Gets leer_puntero (bytes_puntero a) a
unfolding leer_puntero u32_of_bytes
leer_puntero-Gets a h = record {
  gets = λ size done rest.
      rw ((buffer_read-Gets (bytes_puntero a)).gets size done rest) (
        ap (λ x. some (x, at size (done ++ bytes_puntero a) rest))
          (u32_of_bytes-bytes_puntero a h));
}

deserializar_string-Gets :
    (s : String) → length (codes s) < 2 ^ 32 → Gets deserializar_string (bytes_string s) (codes s)
unfolding deserializar_string buffer_read_string
deserializar_string-Gets s h =
    Gets-bind (λ n b. buffer_read b n) (bytes_u32 (length (codes s))) (codes s) (length (codes s))
      (codes s) (buffer_read_uint32-Gets (length (codes s)) h) (buffer_read-Gets (codes s))

leer_dormir-Gets : (v : ℕ) → v < 2 ^ 32 → Gets leer_dormir (bytes_u32 v) (dormir v)
unfolding leer_dormir
leer_dormir-Gets v h = Gets-map dormir (bytes_u32 v) v (buffer_read_uint32-Gets v h)

leer_stdin-Gets :
    (a v : ℕ)
    → a < 2 ^ 64
    → v < 2 ^ 32
    → Gets leer_stdin (bytes_puntero a ++ bytes_u32 v) (leer_teclado a (vivo v))
unfolding leer_stdin
leer_stdin-Gets a v h k =
    Gets-bind _ (bytes_puntero a) (bytes_u32 v) a (leer_teclado a (vivo v)) (leer_puntero-Gets a h)
      (Gets-map (λ x. leer_teclado a (vivo x)) (bytes_u32 v) v (buffer_read_uint32-Gets v k))

leer_nombre-Gets :
    (f : List ℕ → Pedido) (s : String)
    → length (codes s) < 2 ^ 32
    → Gets (leer_nombre f) (bytes_string s) (f (codes s))
unfolding leer_nombre
leer_nombre-Gets f s h = Gets-map f (bytes_string s) (codes s) (deserializar_string-Gets s h)

leer_fs-Gets :
    (f : List ℕ → ℕ → Local → Local → Pedido) (s : String) (a v w : ℕ)
    → length (codes s) < 2 ^ 32
    → a < 2 ^ 64
    → v < 2 ^ 32
    → w < 2 ^ 32
    → Gets
        (leer_fs f)
        (bytes_string s ++ (bytes_puntero a ++ (bytes_u32 v ++ bytes_u32 w)))
        (f (codes s) a (vivo v) (vivo w))
unfolding leer_fs
leer_fs-Gets f s a v w hs ha hv hw =
    Gets-bind _ (bytes_string s) _ (codes s) _ (deserializar_string-Gets s hs) (
      Gets-bind _ (bytes_puntero a) _ a _ (leer_puntero-Gets a ha) (
        Gets-bind _ (bytes_u32 v) _ v _ (buffer_read_uint32-Gets v hv) (
          Gets-map (λ x. f (codes s) a (vivo v) (vivo x)) (bytes_u32 w) w
            (buffer_read_uint32-Gets w hw))))

-- What the kernel and the interface do with the CPU's message for an interface, from the operation
-- on: the kernel reads the operation and the interface's name, and makes the request; the interface
-- receives it, with `recibir`.
abbrev pub entregar :
    (ℕ → List ℕ) → (Buffer → Option (ℕ × Pedido)) → ℕ → Buffer → Option (List ℕ × ℕ × Pedido)
entregar malloc recibir pid b = buffer_read_uint32 b >>= λ (op, b₁).
    deserializar_string b₁ >>= λ (nombre, b₂). crear_solicitud malloc op pid b₂ >>= λ s.
    transmitir malloc s.instruccion >>= λ t. recibir t >>= λ (q, p). some (nombre, q, p)

-- The switch reads `p`, and EjecutarInstruccion is called with what is left of `p` behind it.
abbrev pub Entrega : (ℕ → List ℕ) → ℕ → List ℕ → Buffer → Pedido → Type 0
Entrega malloc pid nombre b p =
    (entregar malloc leer_instruccion pid b ≡ some (nombre, pid, p))
    × (entregar malloc recibir_instruccion pid b ≡ some (nombre, pid, cerrar_bloque p))

chica : (i : Instruccion) → codigo_instruccion i < 2 ^ 32
unfolding codigo_instruccion
chica set = omega arith
chica mov_in = omega arith
chica mov_out = omega arith
chica sum = omega arith
chica sub = omega arith
chica jnz = omega arith
chica resize = omega arith
chica copy_string = omega arith
chica wait = omega arith
chica signal = omega arith
chica io_gen_sleep = omega arith
chica io_stdin_read = omega arith
chica io_stdout_write = omega arith
chica io_fs_create = omega arith
chica io_fs_delete = omega arith
chica io_fs_truncate = omega arith
chica io_fs_write = omega arith
chica io_fs_read = omega arith
chica inst_exit = omega arith
chica invalid_instruction = omega arith

asociar {ℓ κ μ} :
    {A : Type ℓ} {B : Type κ} {C : Type μ} (m : Option A) (f : A → Option B) (g : B → Option C)
    → (m >>= λ x. f x >>= g) ≡ (m >>= f >>= g)
asociar none f g = refl
asociar (some x) f g = refl

module _ (malloc : ℕ → List ℕ) (bloque : (n : ℕ) → length (malloc n) ≡ n) where
  crear_solicitud_lem :
      (op pid size : ℕ) (done resto : List ℕ)
      → size ≡ length done + length resto
      → crear_solicitud malloc op pid (at size done resto)
        ≡ some (record {
          proceso = pid;
          instruccion = record {
            size = 8 + length resto;
            offset = 8;
            stream = (bytes_u32 op ++ bytes_u32 pid) ++ resto;
          };
        })
  unfolding crear_solicitud
  crear_solicitud_lem op pid size done resto h =
      let e =
        Puts-lleno malloc bloque 8 _
          (Puts-bind _ _ (buffer_add_uint32-Puts op) (buffer_add_uint32-Puts pid)) refl in
      asociar (buffer_add_uint32 (buffer_create malloc 8) op) (λ b. buffer_add_uint32 b pid) _
      ∙ rw
          (
            e,
            buffer_get_sobrante_lem malloc bloque done resto size h,
            buffer_add_buffer_lem malloc bloque (bytes_u32 op ++ bytes_u32 pid) resto 8 0,
          )
          refl

  -- What the operands' reader takes is what the interface receives.
  recibir-transmitir :
      (op pid : ℕ) (resto : List ℕ) (p : Pedido)
      → op < 2 ^ 32
      → pid < 2 ^ 32
      → Gets (leer_operandos op) resto p
      → (t : Buffer) × (transmitir malloc (record {
        size = 8 + length resto;
        offset = 8;
        stream = (bytes_u32 op ++ bytes_u32 pid) ++ resto;
      })
          ≡ some t)
        × (leer_instruccion t ≡ some (pid, p))
  unfolding leer_instruccion
  recibir-transmitir op pid resto p ho hp g =
      let todo = bytes_u32 op ++ (bytes_u32 pid ++ resto) in
      let n = length todo in
      let t = transmitir_lem malloc bloque todo (8 + length resto) 8 (omega arith) in
      let r = (buffer_read_uint32-Gets op ho).gets n [] (bytes_u32 pid ++ resto) in
      let q = (buffer_read_uint32-Gets pid hp).gets n (bytes_u32 op) resto in
      let o = rw (append-nil resto) at (g.gets n (bytes_u32 op ++ bytes_u32 pid) []) in
      (_, t, rw (r, q, o) refl)

  -- Behind the switch the variables of its blocks are gone.
  recibir-cerrar :
      (t : Buffer) {pid : ℕ} {p : Pedido}
      → leer_instruccion t ≡ some (pid, p)
      → recibir_instruccion t ≡ some (pid, cerrar_bloque p)
  unfolding recibir_instruccion
  recibir-cerrar t e = rw e refl

  -- The whole way, for a message that stands behind what the kernel has read.
  entregar_lem :
      (op pid : ℕ) (interfaz : String) (done resto : List ℕ) (p : Pedido)
      → op < 2 ^ 32
      → pid < 2 ^ 32
      → length (codes interfaz) < 2 ^ 32
      → Gets (leer_operandos op) resto p
      → let bs = bytes_u32 op ++ (bytes_string interfaz ++ resto) in
        Entrega malloc pid (codes interfaz) (at (length done + length bs) done bs) p
  entregar_lem op pid interfaz done resto p ho hp hi g =
      let bs = bytes_u32 op ++ (bytes_string interfaz ++ resto) in
      let n = length done + length bs in
      let r = (buffer_read_uint32-Gets op ho).gets n done (bytes_string interfaz ++ resto) in
      let d = (deserializar_string-Gets interfaz hi).gets n (done ++ bytes_u32 op) resto in
      let ya = (done ++ bytes_u32 op) ++ bytes_string interfaz in
      let z : n ≡ length ya + length resto = omega (
        arith,
        length-append {0} (done ++ bytes_u32 op) (bytes_string interfaz),
        length-append {0} done (bytes_u32 op),
        length-append {0} (codes interfaz) resto,
      ) in
      let c = crear_solicitud_lem op pid n ya resto z in
      let (t, f, e) = recibir-transmitir op pid resto p ho hp g in
      (rw (r, d, c, f, e) refl, rw (r, d, c, f, recibir-cerrar t e) refl)

  -- The buffers of the CPU's instructions, and the request that each stands for.
  pub data Enviado (interfaz : String) : Option Buffer → Pedido → Type 0 where
    duerme : (v : ℕ) → v < 2 ^ 32 → Enviado interfaz (buffer_sleep malloc interfaz v) (dormir v)
    teclea :
        (a v : ℕ)
        → a < 2 ^ 64
        → v < 2 ^ 32
        → Enviado interfaz (buffer_std malloc io_stdin_read interfaz a v) (leer_teclado a (vivo v))
    crea :
        (f : String)
        → length (codes f) < 2 ^ 32
        → Enviado interfaz (buffer_archivo malloc io_fs_create interfaz f) (crear (codes f))
    borra :
        (f : String)
        → length (codes f) < 2 ^ 32
        → Enviado interfaz (buffer_archivo malloc io_fs_delete interfaz f) (borrar (codes f))
    lee :
        (f : String) (a v w : ℕ)
        → length (codes f) < 2 ^ 32
        → a < 2 ^ 64
        → v < 2 ^ 32
        → w < 2 ^ 32
        → Enviado interfaz
            (buffer_fs malloc io_fs_read interfaz f a v w)
            (leer_archivo (codes f) a (vivo v) (vivo w))
    escribe :
        (f : String) (a v w : ℕ)
        → length (codes f) < 2 ^ 32
        → a < 2 ^ 64
        → v < 2 ^ 32
        → w < 2 ^ 32
        → Enviado interfaz
            (buffer_fs malloc io_fs_write interfaz f a v w)
            (escribir_archivo (codes f) a (vivo v) (vivo w))

  -- The bytes of a CPU's buffer and its delivery.
  abbrev pub Entregado : ℕ → String → Option Buffer → Pedido → Type 0
  Entregado pid interfaz o p =
      (bs : List ℕ) × (o ≡ some (lleno bs))
      × ((done : List ℕ)
          → Entrega malloc pid (codes interfaz) (at (length done + length bs) done bs) p)

  -- With a malloc that gives blocks of the size asked for, the buffer that the CPU makes for
  -- IO_GEN_SLEEP, IO_STDIN_READ, IO_FS_CREATE, IO_FS_DELETE, IO_FS_READ or IO_FS_WRITE, with
  -- operands within their widths, is full, and wherever it stands at the end of the message of the
  -- CPU the kernel reads the name of the interface out of it, and the switch of the interface reads
  -- the PID and the operands that the CPU had; EjecutarInstruccion is then called with the PID and
  -- those operands, except that its pointers to variables of the blocks of the switch are dead.
  pub entregar-Enviado :
      (pid : ℕ) (interfaz : String) {o : Option Buffer} {p : Pedido}
      → pid < 2 ^ 32
      → length (codes interfaz) < 2 ^ 32
      → Enviado interfaz o p
      → Entregado pid interfaz o p
  unfolding leer_operandos codigo_instruccion
  entregar-Enviado pid interfaz hp hi (duerme v h) = (
    _,
    buffer_sleep_lem malloc bloque interfaz v,
    λ done.
        entregar_lem (codigo_instruccion io_gen_sleep) pid interfaz done _ _ (chica io_gen_sleep) hp
          hi (leer_dormir-Gets v h),
  )
  entregar-Enviado pid interfaz hp hi (teclea a v h k) = (
    _,
    buffer_std_lem malloc bloque io_stdin_read interfaz a v,
    λ done.
        entregar_lem (codigo_instruccion io_stdin_read) pid interfaz done _ _ (chica io_stdin_read)
          hp hi (leer_stdin-Gets a v h k),
  )
  entregar-Enviado pid interfaz hp hi (crea f h) = (
    _,
    buffer_archivo_lem malloc bloque io_fs_create interfaz f,
    λ done.
        entregar_lem (codigo_instruccion io_fs_create) pid interfaz done _ _ (chica io_fs_create) hp
          hi (leer_nombre-Gets crear f h),
  )
  entregar-Enviado pid interfaz hp hi (borra f h) = (
    _,
    buffer_archivo_lem malloc bloque io_fs_delete interfaz f,
    λ done.
        entregar_lem (codigo_instruccion io_fs_delete) pid interfaz done _ _ (chica io_fs_delete) hp
          hi (leer_nombre-Gets borrar f h),
  )
  entregar-Enviado pid interfaz hp hi (lee f a v w h k l m) = (
    _,
    buffer_fs_lem malloc bloque io_fs_read interfaz f a v w,
    λ done.
        entregar_lem (codigo_instruccion io_fs_read) pid interfaz done _ _ (chica io_fs_read) hp hi
          (leer_fs-Gets leer_archivo f a v w h k l m),
  )
  entregar-Enviado pid interfaz hp hi (escribe f a v w h k l m) = (
    _,
    buffer_fs_lem malloc bloque io_fs_write interfaz f a v w,
    λ done.
        entregar_lem (codigo_instruccion io_fs_write) pid interfaz done _ _ (chica io_fs_write) hp
          hi (leer_fs-Gets escribir_archivo f a v w h k l m),
  )
