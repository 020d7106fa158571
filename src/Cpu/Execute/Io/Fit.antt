-- ===== src/Cpu/Execute/Io/Fit.antt =====
-- The sizes of the buffers of the IO instructions and what is written into them.
use tp_2024_1c_asado_criollo.Prelude.{
  ℕ, ◌+◌, ◌≡◌, refl, sym, ap, ◌∙◌, true, false, String, codes, List, [], ◌++◌, Option, none, some,
  length, ◌>>=◌, append-nil, length-append, arith, leb,
}
use tp_2024_1c_asado_criollo.Commons.Buffer.{
  Buffer, bytes_u32, buffer_create, memcpy_to, buffer_write, buffer_add_uint32, buffer_add_int,
  buffer_add_string,
}
use tp_2024_1c_asado_criollo.Commons.Buffer.Stream.{
  Puts, Puts-bind, buffer_write-Puts, buffer_add_uint32-Puts,
}
use tp_2024_1c_asado_criollo.Commons.Pcb.{Registros}
use tp_2024_1c_asado_criollo.Cpu.Registros.{Registro, leer_palabra}
use tp_2024_1c_asado_criollo.Cpu.Decode.{
  Instruccion, io_gen_sleep, io_fs_truncate, codigo_instruccion,
}
use tp_2024_1c_asado_criollo.Cpu.Execute.{leer_registro}
use tp_2024_1c_asado_criollo.Cpu.Execute.Io.{
  bytes_puntero, OperacionRecurso, codigo_operacion, buffer_sleep, buffer_std, buffer_archivo,
  buffer_truncate, buffer_fs, buffer_recurso,
}

-- A string on the wire: its length and its bytes.
abbrev pub bytes_string : String → List ℕ
bytes_string s = bytes_u32 (length (codes s)) ++ codes s

-- A buffer that is full with these bytes.
abbrev pub lleno : List ℕ → Buffer
lleno bs = record { size = length bs; offset = length bs; stream = bs }

buffer_add_int-Puts : (x : ℕ) → Puts (λ b. buffer_add_int b x) (bytes_u32 x)
unfolding buffer_add_int
buffer_add_int-Puts x = buffer_write-Puts (bytes_u32 x)

pub buffer_add_string-Puts :
    (s : String) → Puts (λ b. buffer_add_string b (codes s)) (bytes_string s)
unfolding buffer_add_string
buffer_add_string-Puts s =
    Puts-bind _ _ (buffer_write-Puts (bytes_u32 (length (codes s)))) (buffer_write-Puts (codes s))

module _ (malloc : ℕ → List ℕ) (bloque : (n : ℕ) → length (malloc n) ≡ n) where
  -- Writing into a fresh buffer of the size of what is written.
  pub Puts-lleno :
      {m : Buffer → Option Buffer} (n : ℕ) (bs : List ℕ)
      → Puts m bs
      → length bs ≡ n
      → m (buffer_create malloc n) ≡ some (lleno bs)
  unfolding buffer_create
  Puts-lleno {m} n bs h e =
      ap (λ s. m (record { size = n; offset = 0; stream = s })) (sym (append-nil (malloc n)))
      ∙ h.puts n [] (malloc n) [] (bloque n ∙ sym e)
      ∙ ap (λ k. some (record { size = k; offset = length bs; stream = bs ++ [] })) (sym e)
      ∙ ap (λ l. some (record { size = length bs; offset = length bs; stream = l })) (append-nil bs)

  -- IO_GEN_SLEEP fills its buffer exactly: the operation, the interface, the units.
  pub buffer_sleep_lem :
      (s : String) (v : ℕ)
      → buffer_sleep malloc s v
        ≡ some
            (lleno (bytes_u32 (codigo_instruccion io_gen_sleep) ++ (bytes_string s ++ bytes_u32 v)))
  unfolding buffer_sleep
  buffer_sleep_lem s v =
      Puts-lleno (length (codes s) + 12) _
        (Puts-bind _ _ (buffer_add_uint32-Puts (codigo_instruccion io_gen_sleep))
          (Puts-bind _ _ (buffer_add_string-Puts s) (buffer_add_uint32-Puts v)))
        (omega (arith, length-append {0} (codes s) (bytes_u32 v)))

  -- WAIT and SIGNAL: the operation and the resource.
  pub buffer_recurso_lem :
      (op : OperacionRecurso) (s : String)
      → buffer_recurso malloc op s
        ≡ some (lleno (bytes_u32 (codigo_operacion op) ++ bytes_string s))
  unfolding buffer_recurso
  buffer_recurso_lem op s =
      Puts-lleno (length (codes s) + 8) _
        (Puts-bind _ _ (buffer_add_uint32-Puts (codigo_operacion op)) (buffer_add_string-Puts s))
        (omega arith)

  -- IO_STDIN_READ and IO_STDOUT_WRITE fill their buffers exactly: the operation, the interface, the
  -- address and the size. malloc returns blocks of the size asked for.
  pub buffer_std_lem :
      (op : Instruccion) (s : String) (a v : ℕ)
      → buffer_std malloc op s a v
        ≡ some (
            lleno (
              bytes_u32 (codigo_instruccion op)
              ++ (bytes_string s ++ (bytes_puntero a ++ bytes_u32 v))))
  unfolding buffer_std
  buffer_std_lem op s a v =
      Puts-lleno (8 + length (codes s) + 12) _
        (Puts-bind _ _ (buffer_add_uint32-Puts (codigo_instruccion op)) (
          Puts-bind _ _ (buffer_add_string-Puts s)
            (Puts-bind _ _ (buffer_write-Puts (bytes_puntero a)) (buffer_add_uint32-Puts v))))
        (omega (arith, length-append {0} (codes s) (bytes_puntero a ++ bytes_u32 v)))

  -- IO_FS_CREATE and IO_FS_DELETE: the operation, the interface, the file.
  pub buffer_archivo_lem :
      (op : Instruccion) (s f : String)
      → buffer_archivo malloc op s f
        ≡ some (lleno (bytes_u32 (codigo_instruccion op) ++ (bytes_string s ++ bytes_string f)))
  unfolding buffer_archivo
  buffer_archivo_lem op s f =
      Puts-lleno (12 + length (codes s) + length (codes f)) _
        (Puts-bind _ _ (buffer_add_int-Puts (codigo_instruccion op))
          (Puts-bind _ _ (buffer_add_string-Puts s) (buffer_add_string-Puts f)))
        (omega (arith, length-append {0} (codes s) (bytes_string f)))

  -- IO_FS_WRITE and IO_FS_READ fill their buffers exactly: the operation, the interface, the file,
  -- the address, the size and the pointer in the file. malloc returns blocks of the size asked for.
  pub buffer_fs_lem :
      (op : Instruccion) (s f : String) (a v w : ℕ)
      → buffer_fs malloc op s f a v w
        ≡ some (
            lleno (
              bytes_u32 (codigo_instruccion op)
              ++ (bytes_string s
                  ++ (bytes_string f ++ (bytes_puntero a ++ (bytes_u32 v ++ bytes_u32 w))))))
  unfolding buffer_fs
  buffer_fs_lem op s f a v w =
      Puts-lleno (16 + length (codes s) + length (codes f) + 12) _
        (Puts-bind _ _ (buffer_add_int-Puts (codigo_instruccion op)) (
          Puts-bind _ _ (buffer_add_string-Puts s) (
            Puts-bind _ _ (buffer_add_string-Puts f) (
              Puts-bind _ _ (buffer_write-Puts (bytes_puntero a))
                (Puts-bind _ _ (buffer_add_int-Puts v) (buffer_add_int-Puts w))))))
        (omega (
          arith,
          length-append {0} (codes s)
              (bytes_string f ++ (bytes_puntero a ++ (bytes_u32 v ++ bytes_u32 w))),
          length-append {0} (codes f) (bytes_puntero a ++ (bytes_u32 v ++ bytes_u32 w)),
        ))

  sin_lugar : (bs : List ℕ) (x : ℕ) → buffer_add_uint32 (lleno bs) x ≡ none
  unfolding buffer_add_uint32 buffer_write memcpy_to
  sin_lugar bs x = let no : leb (length bs + 4) (length bs) ≡ false = ground arith in rw no refl

  -- The part of IO_FS_TRUNCATE's buffer that both widths write, and one size.
  truncate-Puts :
      (s f : String) (v : ℕ)
      → Puts
          (λ b. buffer_add_int b (codigo_instruccion io_fs_truncate) >>= λ b.
            buffer_add_string b (codes s) >>= λ b.
            buffer_add_string b (codes f) >>= λ b. buffer_add_uint32 b v)
          (bytes_u32 (codigo_instruccion io_fs_truncate)
            ++ (bytes_string s ++ (bytes_string f ++ bytes_u32 v)))
  truncate-Puts s f v = Puts-bind _ _ (buffer_add_int-Puts (codigo_instruccion io_fs_truncate)) (
      Puts-bind _ _ (buffer_add_string-Puts s)
        (Puts-bind _ _ (buffer_add_string-Puts f) (buffer_add_uint32-Puts v)))

  truncate-lleno :
      (s f : String) (v : ℕ)
      → (buffer_add_int
            (buffer_create malloc (4 + length (codes s) + length (codes f) + 12))
            (codigo_instruccion io_fs_truncate)
          >>= λ b. buffer_add_string b (codes s) >>= λ b.
              buffer_add_string b (codes f) >>= λ b. buffer_add_uint32 b v)
        ≡ some (
            lleno (
              bytes_u32 (codigo_instruccion io_fs_truncate)
              ++ (bytes_string s ++ (bytes_string f ++ bytes_u32 v))))
  truncate-lleno s f v =
      Puts-lleno (4 + length (codes s) + length (codes f) + 12) _ (truncate-Puts s f v) (
        omega (
          arith,
          length-append {0} (codes s) (bytes_string f ++ bytes_u32 v),
          length-append {0} (codes f) (bytes_u32 v),
        ))

  asociar2 :
      (m : Option Buffer) (h k : Buffer → Option Buffer)
      → (m >>= λ b. h b >>= k) ≡ ((m >>= h) >>= k)
  asociar2 none h k = refl
  asociar2 (some b) h k = refl

  asociar3 :
      (m : Option Buffer) (g h k : Buffer → Option Buffer)
      → (m >>= λ b. g b >>= λ b. h b >>= k) ≡ ((m >>= λ b. g b >>= h) >>= k)
  asociar3 none g h k = refl
  asociar3 (some b) g h k = asociar2 (g b) h k

  asociar4 :
      (m : Option Buffer) (f g h k : Buffer → Option Buffer)
      → (m >>= λ b. f b >>= λ b. g b >>= λ b. h b >>= k)
        ≡ ((m >>= λ b. f b >>= λ b. g b >>= h) >>= k)
  asociar4 none f g h k = refl
  asociar4 (some b) f g h k = asociar3 (f b) g h k

  -- IO_FS_TRUNCATE with a 32-bit register fills its buffer exactly; with an 8-bit register it
  -- writes the size twice, the second time beyond the end of its buffer. malloc returns blocks of
  -- the size asked for.
  pub buffer_truncate_lem :
      (s f : String) (rg : Registro) (r : Registros)
      → (buffer_truncate malloc s f false rg r
          ≡ some (
              lleno (
                bytes_u32 (codigo_instruccion io_fs_truncate)
                ++ (bytes_string s ++ (bytes_string f ++ bytes_u32 (leer_palabra rg r))))))
        × (buffer_truncate malloc s f true rg r ≡ none)
  unfolding buffer_truncate
  buffer_truncate_lem s f rg r =
      let op = codigo_instruccion io_fs_truncate in
      let v = leer_registro true rg r in
      let todo = bytes_u32 op ++ (bytes_string s ++ (bytes_string f ++ bytes_u32 v)) in
      (
        truncate-lleno s f (leer_palabra rg r),
        asociar4
              (buffer_add_int (buffer_create malloc (4 + length (codes s) + length (codes f) + 12))
                op)
              (λ b. buffer_add_string b (codes s)) (λ b. buffer_add_string b (codes f))
              (λ b. buffer_add_uint32 b v) (λ b. buffer_add_uint32 b (leer_palabra rg r))
            ∙ ap (λ o. o >>= λ b. buffer_add_uint32 b (leer_palabra rg r)) (truncate-lleno s f v)
            ∙ sin_lugar todo (leer_palabra rg r),
      )
