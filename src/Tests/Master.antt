-- ===== src/Tests/Master.antt =====
-- master/src/master.c on runs of two queries and one worker.
use tp_2025_2c_kernel_panic.Prelude.{
  ℕ, ◌+◌, ◌-◌, ◌≡◌, ◌⊎◌, refl, List, [], ◌∷◌, Option, none, some, true, false, str_eq, codes, ℤ,
  pos, ge_int, ◌≤ℤ◌, All, Esta, Saca, if◌then◌else◌,
}
use tp_2025_2c_kernel_panic.Utils.Protocolo.{query_response_end}
use tp_2025_2c_kernel_panic.Master.Estado.{
  Estado, ready, running, HacerConnect, Master, Query, inicializar_semaforos,
}
use tp_2025_2c_kernel_panic.Master.Listas.{obtener_por_id_worker, obtener_menor_prioridad}
use tp_2025_2c_kernel_panic.Master.Listas.MenorPrioridad.{
  PrimeraMenor, obtener_menor_prioridad-PrimeraMenor,
}
use tp_2025_2c_kernel_panic.Master.Planificador.{
  comenzar_desde, tomar_query, Maximo, atiende, espera, con_nulo, asignar_query,
  comenzar_a_ejecutar,
}
use tp_2025_2c_kernel_panic.Master.Planificador.Asignacion.{Orden, comenzar_a_ejecutar-Orden}
use tp_2025_2c_kernel_panic.Master.Queries.{atender_query, duerme, siguiente_timer, ronda_timer}
use tp_2025_2c_kernel_panic.Master.Queries.Envejecimiento.{
  Envejece, Baja, ronda_timer-Baja, desalojo_pedido,
}
use tp_2025_2c_kernel_panic.Master.Workers.{
  worker_id, query_end, pc_update, atender_desconexion_worker,
}
use tp_2025_2c_kernel_panic.Master.Workers.Errores.{
  Termina, aviso, aviso_archivo, cierra_cliente, LlevaId, SacaPorId, reencolada,
  atender_falla-Termina, atender_falla_archivo-Termina, query_end-Termina, pc_update-Reencola,
}
use tp_2025_2c_kernel_panic.Master.Workers.Desconexion.{
  AsignadaA, marcado, avisada, atender_desconexion_worker-Marca,
}
use tp_2025_2c_kernel_panic.Master.Atencion.{
  malformada, tamanio_lectura, atender_falla, atender_falla_archivo, id_de_worker, llega_query,
  llega_paquete, paso, Alcanza, inicio, luego,
}
use tp_2025_2c_kernel_panic.Master.Coherencia.{IsCoherente}
use tp_2025_2c_kernel_panic.Master.Coherencia.Pasos.{Alcanza-Coherente}

-- A `list_get_maximum` by a fold.
abbrev maximo : Maximo
maximo cmp [] = 0
maximo cmp (q ∷ []) = q
maximo cmp (q ∷ r ∷ qs) = cmp q (maximo cmp (r ∷ qs))

abbrev MayorDe : (ℕ → ℤ) → ℕ → List ℕ → Type 0
MayorDe clave mayor qs = Esta mayor qs × All (λ a. clave a ≤ℤ clave mayor) qs

abbrev mayor_de_dos : (ℕ → ℤ) → ℕ → ℕ → ℕ
mayor_de_dos clave a b = if ge_int (clave a) (clave b) then a else b

abbrev query_de : ℕ → ℕ → Estado → Query
query_de id prioridad estado = record {
  id = id;
  path = codes "a";
  prioridad = pos prioridad;
  socket = 10 + id;
  program_counter = 0;
  id_worker = 1;
  estado = estado;
  alive = true;
  timer_query = 0;
}

abbrev conexion : HacerConnect
conexion = record { socket_conexion = 20; id = 1 }

-- Query 0 runs on worker 1; queries 1 and 2 wait.
abbrev en_marcha : Master
en_marcha = record {
  algoritmo_planificacion = codes "PRIORIDADES";
  tiempo_aging = 5;
  cantidad_workers = pos 1;
  id_query = 3;
  sem_queries = 2;
  queries = query_de 0 4 running ∷ query_de 1 3 ready ∷ query_de 2 3 ready ∷ [];
  workers =
      record {
        id = 1;
        socket = 20;
        socket_interruption = 21;
        desconection = false;
        desconexion_worker = 0;
      }
      ∷ [];
  cola_queries = 1 ∷ 2 ∷ [];
  query_en_worker = 0 ∷ [];
  lista_workers = 0 ∷ [];
  enviados = [];
  cerrados = [];
}

obtener_menor_prioridad-PrimeraMenor_example :
    let (tomada, resto) = obtener_menor_prioridad en_marcha.queries en_marcha.cola_queries in
    ((en_marcha.cola_queries ≡ []) × (tomada ≡ none) × (resto ≡ []))
    ⊎ ((q : ℕ) × (tomada ≡ some q) × PrimeraMenor en_marcha.queries en_marcha.cola_queries q resto)
obtener_menor_prioridad-PrimeraMenor_example =
    obtener_menor_prioridad-PrimeraMenor en_marcha.queries en_marcha.cola_queries

comenzar_a_ejecutar-Orden_example :
    ((en_marcha.cola_queries ≡ [])
      × (comenzar_a_ejecutar en_marcha conexion 1 ≡ (espera, en_marcha)))
    ⊎ ((q : ℕ) × (resto : List ℕ) × Orden en_marcha q resto
        × (comenzar_a_ejecutar en_marcha conexion 1 ≡ (
          atiende,
          asignar_query
              (record en_marcha { cola_queries = resto; sem_queries = en_marcha.sem_queries - 1 })
              conexion
              1
              q,
        )))
unfolding obtener_por_id_worker
comenzar_a_ejecutar-Orden_example =
    comenzar_a_ejecutar-Orden en_marcha conexion 1 refl (0, refl, refl)

ronda_timer-Baja_example :
    let r = ronda_timer maximo en_marcha 1 in
    (Envejece en_marcha 1
      × (((desalojo_pedido maximo en_marcha 1 ≡ none) × (r ≡ none))
          ⊎ ((t : Master) × (desalojo_pedido maximo en_marcha 1 ≡ some t)
              × Baja en_marcha 1 t
              × (r ≡ some (duerme, t)))))
    ⊎ ((¬ Envejece en_marcha 1) × (r ≡ some (siguiente_timer maximo en_marcha 1, en_marcha)))
ronda_timer-Baja_example = ronda_timer-Baja maximo en_marcha 1

atender_falla-Termina_example :
    Termina en_marcha conexion 0
      (aviso malformada)
      (con_nulo (codes "X") ∷ [])
      (cierra_cliente malformada)
      (atender_falla malformada en_marcha conexion 0 (codes "X"))
atender_falla-Termina_example = atender_falla-Termina malformada en_marcha conexion 0 (codes "X")

atender_falla_archivo-Termina_example :
    Termina en_marcha conexion 0
      (aviso_archivo tamanio_lectura)
      (con_nulo (codes "a") ∷ con_nulo (codes "v") ∷ [])
      true
      (atender_falla_archivo tamanio_lectura en_marcha conexion 0 (codes "a") (codes "v"))
atender_falla_archivo-Termina_example =
    atender_falla_archivo-Termina tamanio_lectura en_marcha conexion 0 (codes "a") (codes "v")

query_end-Termina_example :
    Termina en_marcha conexion 0 query_response_end
      (con_nulo (codes "Finalizacion Hardcodeada") ∷ [])
      false
      (query_end en_marcha conexion 0)
query_end-Termina_example = query_end-Termina en_marcha conexion 0

pc_update-Reencola_example :
    ((q : ℕ) × (resto : List ℕ) × SacaPorId en_marcha 0 en_marcha.query_en_worker q resto
      × (pc_update en_marcha conexion 0 7
          ≡ comenzar_a_ejecutar (reencolada en_marcha q resto 7) conexion conexion.id))
    ⊎ (All (λ a. ¬ LlevaId en_marcha 0 a) en_marcha.query_en_worker
        × (pc_update en_marcha conexion 0 7 ≡ comenzar_a_ejecutar en_marcha conexion conexion.id))
pc_update-Reencola_example = pc_update-Reencola en_marcha conexion 0 7

atender_desconexion_worker-Marca_example :
    ((q : ℕ) × (resto : List ℕ) × Saca en_marcha.query_en_worker q resto
      × AsignadaA en_marcha 1 q
      × (atender_desconexion_worker en_marcha 0 ≡ avisada (marcado en_marcha 0) q 1)
      × ((atender_desconexion_worker en_marcha 0).query_en_worker ≡ en_marcha.query_en_worker))
    ⊎ (All (λ a. ¬ AsignadaA en_marcha 1 a) en_marcha.query_en_worker
        × (atender_desconexion_worker en_marcha 0 ≡ marcado en_marcha 0))
atender_desconexion_worker-Marca_example = atender_desconexion_worker-Marca en_marcha 0

abbrev al_inicio : Master
unfolding inicializar_semaforos
al_inicio = inicializar_semaforos (codes "FIFO") 0

abbrev sea : Option Master → Master
sea none = al_inicio
sea (some m) = m

-- A query arrives, and then a worker, which gets it.
abbrev con_una : Master
unfolding paso atender_query str_eq
con_una = sea (paso maximo al_inicio (llega_query 10 (codes "a") (pos 4)))

abbrev con_dos : Master
unfolding paso worker_id str_eq comenzar_desde tomar_query asignar_query obtener_por_id_worker
con_dos = sea (paso maximo con_una (llega_paquete conexion (id_de_worker 1)))

llega : paso maximo al_inicio (llega_query 10 (codes "a") (pos 4)) ≡ some con_una
unfolding paso inicializar_semaforos atender_query str_eq
llega = refl

se_conecta : paso maximo con_una (llega_paquete conexion (id_de_worker 1)) ≡ some con_dos
unfolding paso inicializar_semaforos atender_query str_eq worker_id comenzar_desde tomar_query
    asignar_query obtener_por_id_worker
se_conecta = refl

corrida_una : Alcanza maximo (inicializar_semaforos (codes "FIFO") 0) con_una
unfolding inicializar_semaforos
corrida_una = luego (llega_query 10 (codes "a") (pos 4)) inicio llega

corrida : Alcanza maximo (inicializar_semaforos (codes "FIFO") 0) con_dos
corrida = luego (llega_paquete conexion (id_de_worker 1)) corrida_una se_conecta

Alcanza-Coherente_example : IsCoherente con_dos
Alcanza-Coherente_example = Alcanza-Coherente maximo (codes "FIFO") 0 con_dos corrida

-- The worker has the query.
asignada : con_dos.query_en_worker ≡ 0 ∷ []
unfolding paso inicializar_semaforos atender_query str_eq worker_id comenzar_desde tomar_query
    asignar_query obtener_por_id_worker comenzar_a_ejecutar
asignada = refl
