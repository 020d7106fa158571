-- ===== src/Tests/Kernel.antt =====
-- The kernel with one resource and a few processes.
use tp_2024_1c_asado_criollo.Prelude.{
  ℕ, ◌≡◌, ◌≢◌, refl, Bool, true, false, not, eq_text, [], ◌∷◌, Option, some, arith, ◌==◌, set,
  Bool-cases, inl, inr, subst,
}
use tp_2024_1c_asado_criollo.Commons.Pcb.{crear_pcb, ready, exit, codigo_estado}
use tp_2024_1c_asado_criollo.Kernel.Recursos.{
  Recurso, Recursos, buscar_recurso, wait_recurso, signal_recurso,
}
use tp_2024_1c_asado_criollo.Kernel.Recursos.Conservation.{
  Cuenta, IsConservado, wait_recurso-IsConservado,
}
use tp_2024_1c_asado_criollo.Kernel.Recursos.Release.{
  primero_que_espera, signal_recurso-IsConservado,
}
use tp_2024_1c_asado_criollo.Kernel.Colas.{
  Kernel, eliminar_proceso_de_queue, enviar_a_ready_primero, planificador_largo_plazo,
}
use tp_2024_1c_asado_criollo.Kernel.Colas.Order.{
  filtrar, eliminar_proceso_de_queue_lem, enviar_a_ready_primero_lem,
}
use tp_2024_1c_asado_criollo.Kernel.Colas.Admission.{
  Vivos, Admitido, planificador_largo_plazo-Admitido,
}

abbrev impresora : Recurso
impresora = record { nombre = "RA"; maxinstancias = 1; instancias_disponibles = 0 }

-- The process 4 holds the one instance, and 7 waits for it.
abbrev ocupada : Recursos
ocupada = record {
  recursos = impresora ∷ [];
  peticiones =
      record { pid = 4; nombre_recurso = "RA"; ocupada = true }
      ∷ record { pid = 7; nombre_recurso = "RA"; ocupada = false }
      ∷ [];
}

impresora-Cuenta : Cuenta impresora ocupada.peticiones
impresora-Cuenta = record { conserva = refl; agotado = λ h. refl }

ocupada-IsConservado : IsConservado ocupada
unfolding buscar_recurso
ocupada-IsConservado n r e = elim (Bool-cases (eq_text "RA" n)) [
  | inl f ↦ subst (λ x. Cuenta x ocupada.peticiones) (cc (rw f at e)) impresora-Cuenta
  | inr f ↦ absurd (cc (rw f at e))
]

esta : buscar_recurso "RA" ocupada.recursos ≡ some impresora
unfolding buscar_recurso
esta = refl

wait_recurso-IsConservado_example :
    (b : Bool) × (s' : Recursos) × (wait_recurso ocupada "RA" 9 ≡ some (b, s'))
    × (b ≡ (0 == 0))
    × IsConservado s'
wait_recurso-IsConservado_example =
    wait_recurso-IsConservado ocupada "RA" 9 ocupada-IsConservado esta

signal_recurso-IsConservado_example :
    (o : Option ℕ) × (s' : Recursos) × (signal_recurso ocupada "RA" 4 ≡ some (o, s'))
    × (o ≡ primero_que_espera "RA" ocupada.peticiones)
    × IsConservado s'
signal_recurso-IsConservado_example =
    signal_recurso-IsConservado ocupada "RA" 4 ocupada-IsConservado esta refl

-- Two processes are new, one more fits.
abbrev kernel : Kernel
kernel = record {
  process_list = crear_pcb 0 2 ∷ crear_pcb 1 2 ∷ crear_pcb 2 2 ∷ [];
  queue_new = 1 ∷ 2 ∷ [];
  queue_ready = 0 ∷ [];
  cola_prioridad = [];
  multiprogramacion_curr = 1;
  multiprogramacion_max = 2;
}

vivo : (pid : ℕ) → (crear_pcb pid 2).estado ≢ codigo_estado exit
unfolding crear_pcb codigo_estado
vivo pid = omega arith

vivos : Vivos kernel.process_list kernel.queue_new
vivos = ((crear_pcb 1 2, refl, vivo 1), ((crear_pcb 2 2, refl, vivo 2), tt))

planificador_largo_plazo-Admitido_example :
    (k' : Kernel) × (planificador_largo_plazo kernel ≡ some k') × Admitido kernel k'
planificador_largo_plazo-Admitido_example =
    planificador_largo_plazo-Admitido kernel vivos (omega arith)

eliminar_proceso_de_queue_lem_example :
    eliminar_proceso_de_queue (4 ∷ 7 ∷ 4 ∷ 9 ∷ []) 4
    ≡ some (filtrar (λ q. not (4 == q)) (4 ∷ 7 ∷ 4 ∷ 9 ∷ []))
eliminar_proceso_de_queue_lem_example = eliminar_proceso_de_queue_lem (4 ∷ 7 ∷ 4 ∷ 9 ∷ []) 4

enviar_a_ready_primero_lem_example :
    enviar_a_ready_primero kernel 2
    ≡ some (record kernel {
      process_list =
          set kernel.process_list 2 (record (crear_pcb 2 2) { estado = codigo_estado ready });
      queue_ready = 2 ∷ 0 ∷ [];
    })
enviar_a_ready_primero_lem_example = enviar_a_ready_primero_lem kernel 2 refl
