-- ===== src/Tests/Planificador.antt =====
-- A kernel with one process that is READY and one that is NEW, and a kernel that starts.
use tp_2024_1c_asado_criollo.Prelude.{
  ℕ, zero, suc, ◌+◌, ◌^◌, ◌≡◌, ◌≢◌, refl, true, false, List, [], ◌∷◌, ◌++◌, some, arith, replicate,
  ◌==◌, ◌≤◌, get_elem?, length, ◌<◌, sym, ◌&&◌, inl,
}
use tp_2024_1c_asado_criollo.Commons.Buffer.{
  Buffer, bytes_u32, buffer_read, memcpy_from, u32_of_bytes, buffer_read_uint32, buffer_read_uint8,
}
use tp_2024_1c_asado_criollo.Commons.Pcb.{
  Pcb, crear_pcb, inicializar_registros, exec, ready, new, exit, blocked, codigo_estado,
  deserializar_pcb, deserializar_registros,
}
use tp_2024_1c_asado_criollo.Kernel.Colas.{
  Kernel, elegir_proceso, elegir_de, cambiar_estado, enviar_a_ready, rotar, admitir_uno, admitir,
  planificador_largo_plazo,
}
use tp_2024_1c_asado_criollo.Kernel.Planificador.{
  Sistema, codigo_desalojo, iniciar_proceso, esta, finalizar_proceso,
}
use tp_2024_1c_asado_criollo.Kernel.Planificador.Desalojo.{
  recibir_proceso, planificador_corto_plazo,
}
use tp_2024_1c_asado_criollo.Kernel.Planificador.Diagrama.{estado_de, EnColas, cuenta, uno_si}
use tp_2024_1c_asado_criollo.Kernel.Planificador.Invariant.{estado, Sano, Camina}
use tp_2024_1c_asado_criollo.Kernel.Planificador.Esperas.{esperas}
use tp_2024_1c_asado_criollo.Kernel.Planificador.Finish.{finalizar_proceso-Camina}
use tp_2024_1c_asado_criollo.Kernel.Planificador.Turn.{
  sin_datos, EsRespuesta, Recorre, planificador_corto_plazo-Recorre,
}
use tp_2024_1c_asado_criollo.Kernel.Planificador.Run.{
  nada, sigue_con, inicia, admite_nuevos, entra_en_cpu, sale_de_cpu, Evoluciona, Corrida-Evoluciona,
}

abbrev ceros : ℕ → List ℕ
ceros n = replicate n 0

abbrev vacio : Kernel
vacio = record {
  process_list = [];
  queue_new = [];
  queue_ready = [];
  cola_prioridad = [];
  multiprogramacion_curr = 2 ^ 31;
  multiprogramacion_max = 2 ^ 31 + 2;
}

abbrev inicial : Sistema
inicial = record {
  kernel = vacio;
  recursos = record { recursos = []; peticiones = [] };
  bloqueados = [];
  interfaces = [];
  algoritmo_planificacion = "VRR";
  quantum = 3;
  next_process_id = 0;
  terminar_proceso = false;
  desalojado = false;
  desaloja_proceso = 0;
}

inicial-Sano : Sano inicial
unfolding estado_de codigo_estado
inicial-Sano = record {
  colas = record {
    listos = λ j. refl;
    nuevos = λ j e. absurd (omega (arith, e));
    solo_nuevos = λ j a b. refl;
    una_vez = λ j. omega arith;
    identidad = λ j p e. absurd cc;
  };
  conocen = refl;
  esperan = λ j. omega arith;
}

-- A process is started and admitted.
arranque : (k' : Kernel) × (planificador_largo_plazo (iniciar_proceso inicial).kernel ≡ some k')
unfolding planificador_largo_plazo admitir admitir_uno enviar_a_ready cambiar_estado rotar
    iniciar_proceso crear_pcb codigo_estado
arranque = (_, refl)

-- The process 0 is READY and 1 is NEW.
abbrev listo : Pcb
listo = record (crear_pcb 0 3) { estado = codigo_estado ready }

abbrev en_marcha : Sistema
en_marcha = record inicial {
  kernel = record vacio {
    process_list = listo ∷ crear_pcb 1 3 ∷ [];
    queue_new = 1 ∷ [];
    queue_ready = 0 ∷ [];
    multiprogramacion_curr = 2 ^ 31 + 1;
  };
  next_process_id = 2;
}

en_marcha-EnColas : EnColas en_marcha.kernel
unfolding estado_de crear_pcb codigo_estado
en_marcha-EnColas = record {
  listos = listos;
  nuevos = nuevos;
  solo_nuevos = solo;
  una_vez = una;
  identidad = id;
}
  where
    listos :
        (j : ℕ)
        → cuenta j (0 ∷ []) + cuenta j []
          ≡ uno_si (estado_de (listo ∷ crear_pcb 1 3 ∷ []) j == codigo_estado ready)
    listos zero = refl
    listos (suc zero) = refl
    listos (suc (suc j)) = ground arith

    nuevos :
        (j : ℕ)
        → estado_de (listo ∷ crear_pcb 1 3 ∷ []) j ≡ codigo_estado new
        → cuenta j (1 ∷ []) ≡ 1
    nuevos zero e = absurd (omega (arith, e))
    nuevos (suc zero) e = refl
    nuevos (suc (suc j)) e = absurd (omega (arith, e))

    solo :
        (j : ℕ)
        → estado_de (listo ∷ crear_pcb 1 3 ∷ []) j ≢ codigo_estado new
        → estado_de (listo ∷ crear_pcb 1 3 ∷ []) j ≢ codigo_estado exit
        → cuenta j (1 ∷ []) ≡ 0
    solo zero a b = refl
    solo (suc zero) a b = absurd (a refl)
    solo (suc (suc j)) a b = ground arith

    una : (j : ℕ) → cuenta j (1 ∷ []) ≤ 1
    una j = ground arith

    id : (j : ℕ) (p : Pcb) → get_elem? (listo ∷ crear_pcb 1 3 ∷ []) j ≡ some p → p.pid ≡ j
    id zero p e = let q : listo ≡ p = cc in rw (sym q) refl
    id (suc zero) p e = let q : crear_pcb 1 3 ≡ p = cc in rw (sym q) refl
    id (suc (suc j)) p e = absurd cc

en_marcha-Sano : Sano en_marcha
en_marcha-Sano = record { colas = en_marcha-EnColas; conocen = refl; esperan = λ j. omega arith }

-- The process comes back at the end of its quantum.
abbrev vuelta : List ℕ
vuelta = bytes_u32 0 ++ (bytes_u32 7 ++ (bytes_u32 3 ++ (bytes_u32 2 ++ ceros 32)))

abbrev respuesta_de_cpu : Buffer
respuesta_de_cpu = record { size = 52; offset = 0; stream = vuelta ++ bytes_u32 1 }

abbrev devuelto : Pcb
devuelto = record { pid = 0; pc = 7; quantum = 3; estado = 2; registros = inicializar_registros }

respuesta-EsRespuesta : EsRespuesta ceros 0 respuesta_de_cpu
unfolding deserializar_pcb deserializar_registros buffer_read_uint32 buffer_read_uint8 buffer_read
    memcpy_from u32_of_bytes codigo_desalojo codigo_estado inicializar_registros
respuesta-EsRespuesta = record {
  aux = devuelto;
  motivo = 1;
  b₁ = record { size = 52; offset = 48; stream = vuelta ++ bytes_u32 1 };
  b₂ = record { size = 52; offset = 52; stream = vuelta ++ bytes_u32 1 };
  leido = refl;
  leido_motivo = refl;
  mismo_pid = refl;
  sigue_exec = refl;
  mensaje = sin_datos (λ z. omega (arith, z)) (λ z. omega (arith, z));
}

-- Only the process 0 can be chosen.
elegido :
    (pid : ℕ)
    → estado en_marcha pid ≡ codigo_estado ready
    → (k : Kernel) → elegir_proceso en_marcha.kernel ≡ some (some pid, k)
    → EsRespuesta ceros pid respuesta_de_cpu
unfolding estado_de crear_pcb codigo_estado
elegido zero h k e = respuesta-EsRespuesta
elegido (suc zero) h k e = absurd (omega (arith, h))
elegido (suc (suc j)) h k e = absurd (omega (arith, h))

abbrev admitido : Sistema
admitido = record (iniciar_proceso inicial) { kernel = arranque.0 }

elegido_0 : (k' : Kernel) × (elegir_proceso admitido.kernel ≡ some (some 0, k'))
unfolding planificador_largo_plazo admitir admitir_uno enviar_a_ready cambiar_estado rotar
    iniciar_proceso crear_pcb codigo_estado arranque elegir_proceso elegir_de
elegido_0 = (_, refl)

-- The process 1 starts while the process 0 runs.
abbrev corre_0 : Sistema
corre_0 = iniciar_proceso (record admitido { kernel = elegido_0.0; desalojado = false })

fuera : (s' : Sistema) × (recibir_proceso ceros corre_0 0 3 5 respuesta_de_cpu ≡ some s')
unfolding elegido_0 recibir_proceso deserializar_pcb buffer_read_uint32 buffer_read memcpy_from
    deserializar_registros buffer_read_uint8 u32_of_bytes
fuera = (_, refl)

otro_pid : (iniciar_proceso inicial).next_process_id ≡ length elegido_0.0.process_list
unfolding elegido_0 iniciar_proceso
otro_pid = refl

ejecuta_0 : estado corre_0 0 ≡ codigo_estado exec
unfolding elegido_0 iniciar_proceso estado_de
ejecuta_0 = refl

grado_0 : 0 < corre_0.kernel.multiprogramacion_curr
unfolding elegido_0 iniciar_proceso
grado_0 = omega arith

Corrida-Evoluciona_example : Evoluciona inicial fuera.0
Corrida-Evoluciona_example = Corrida-Evoluciona {malloc = ceros} inicial-Sano (
    sigue_con
      (sigue_con
        (sigue_con (sigue_con (sigue_con nada (inicia refl)) (admite_nuevos arranque.0 arranque.1))
          (entra_en_cpu 0 elegido_0.0 elegido_0.1))
        (inicia otro_pid))
      (sale_de_cpu 0 3 5 respuesta_de_cpu ejecuta_0 grado_0 respuesta-EsRespuesta fuera.1))

planificador_corto_plazo-Recorre_example :
    (s' : Sistema) × (planificador_corto_plazo ceros respuesta_de_cpu 5 en_marcha ≡ some s')
    × Recorre en_marcha s'
planificador_corto_plazo-Recorre_example =
    planificador_corto_plazo-Recorre ceros respuesta_de_cpu 5 en_marcha en_marcha-Sano (omega arith)
      elegido

-- The process 0 runs and holds the one instance; the process 1 waits for it.
abbrev corriendo : Pcb
corriendo = record (crear_pcb 0 3) { estado = codigo_estado exec }

abbrev esperando : Pcb
esperando = record (crear_pcb 1 3) { estado = codigo_estado blocked }

abbrev con_espera : Sistema
con_espera = record inicial {
  kernel = record vacio {
    process_list = corriendo ∷ esperando ∷ [];
    multiprogramacion_curr = 2 ^ 31 + 2;
  };
  recursos = record {
    recursos = record { nombre = "RA"; maxinstancias = 1; instancias_disponibles = 0 } ∷ [];
    peticiones =
        record { pid = 0; nombre_recurso = "RA"; ocupada = true }
        ∷ record { pid = 1; nombre_recurso = "RA"; ocupada = false }
        ∷ [];
  };
  bloqueados = 1 ∷ [];
  next_process_id = 2;
}

con_espera-Sano : Sano con_espera
unfolding estado_de crear_pcb codigo_estado esta
con_espera-Sano = record {
  colas = record {
    listos = listos;
    nuevos = nuevos;
    solo_nuevos = λ j a b. refl;
    una_vez = λ j. omega arith;
    identidad = id;
  };
  conocen = refl;
  esperan = esperan;
}
  where
    listos :
        (j : ℕ)
        → cuenta j [] + cuenta j []
          ≡ uno_si (estado_de (corriendo ∷ esperando ∷ []) j == codigo_estado ready)
    listos zero = refl
    listos (suc zero) = refl
    listos (suc (suc j)) = refl

    nuevos :
        (j : ℕ) → estado_de (corriendo ∷ esperando ∷ []) j ≡ codigo_estado new → cuenta j [] ≡ 1
    nuevos zero e = absurd (omega (arith, e))
    nuevos (suc zero) e = absurd (omega (arith, e))
    nuevos (suc (suc j)) e = absurd (omega (arith, e))

    id : (j : ℕ) (p : Pcb) → get_elem? (corriendo ∷ esperando ∷ []) j ≡ some p → p.pid ≡ j
    id zero p e = let q : corriendo ≡ p = cc in rw (sym q) refl
    id (suc zero) p e = let q : esperando ≡ p = cc in rw (sym q) refl
    id (suc (suc j)) p e = absurd cc

    esperan :
        (j : ℕ)
        → esperas j con_espera.recursos.peticiones
          ≤ uno_si
              (estado_de (corriendo ∷ esperando ∷ []) j == codigo_estado blocked && esta j (1 ∷ []))
    esperan zero = omega arith
    esperan (suc zero) = omega arith
    esperan (suc (suc j)) = ground arith

corriendo-exec : estado con_espera 0 ≡ codigo_estado exec
unfolding estado_de
corriendo-exec = refl

finalizar_proceso-Camina_example :
    (s' : Sistema) × (finalizar_proceso con_espera 0 ≡ some s')
    × Camina con_espera s' 0 exit
    × (s'.kernel.multiprogramacion_curr + 1 ≡ 2 ^ 31 + 2)
finalizar_proceso-Camina_example =
    finalizar_proceso-Camina con_espera 0 con_espera-Sano (inl corriendo-exec) refl (omega arith)
