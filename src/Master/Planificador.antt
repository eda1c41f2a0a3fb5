-- ===== src/Master/Planificador.antt =====
-- master/src/master.c: which query a worker gets, and when a running query is evicted.
pub mod Asignacion
pub mod Desalojo
use tp_2025_2c_kernel_panic.Prelude.{
  ℕ, zero, suc, ◌+◌, ℤ, pos, lt_int, ge_int, eq_size, patron, List, [], ◌∷◌, ◌++◌, Option, none,
  some, Bool, true, false, ◌&&◌, length, if◌then◌else◌, Cadena,
}
use tp_2025_2c_kernel_panic.Utils.Protocolo.{OpCode, worker_assign_query, worker_desalojo}
use tp_2025_2c_kernel_panic.Utils.Paquete.Enteros.{bytes_de_int}
use tp_2025_2c_kernel_panic.Master.Estado.{
  running, Query, Worker, HacerConnect, Envio, Master, query_en, worker_en, con_query, con_worker,
  enviar, es_fifo,
}
use tp_2025_2c_kernel_panic.Master.Listas.{
  obtener_por_id_worker, obtener_menor_prioridad, prioridad_en,
}

-- What the thread of a worker does next: it waits for a packet in `atender_Worker`, it waits on
-- `sem_queries`, or it ends.
pub data Hilo : Type 0 where
  atiende espera termina : Hilo

abbrev pub con_nulo : Cadena → List ℕ
con_nulo s = s ++ 0 ∷ []

-- `enviar_query_a_worker`, up to the wait for the next packet.
unfoldable pub enviar_query_a_worker : Master → ℕ → HacerConnect → Master
enviar_query_a_worker m q informacion =
    let query = query_en m q in
    enviar m informacion.socket_conexion worker_assign_query (
      bytes_de_int query.id
      ∷ con_nulo query.path
      ∷ bytes_de_int (patron query.prioridad)
      ∷ bytes_de_int query.program_counter
      ∷ [])

-- The end of `comenzar_a_ejecutar`, with the query that was taken.
unfoldable pub asignar_query : Master → HacerConnect → ℕ → ℕ → Master
unfolding enviar_query_a_worker
asignar_query m informacion id_worker q =
    let query = query_en m q in
    let t = con_query m q (record query { estado = running; id_worker = id_worker }) in
    enviar_query_a_worker (record t { query_en_worker = t.query_en_worker ++ q ∷ [] }) q informacion

-- The choice from the queue: its first element, or one of the lowest priority number.
unfoldable pub primera : List ℕ → Option ℕ × List ℕ
primera [] = (none, [])
primera (q ∷ qs) = (some q, qs)

unfoldable pub tomar_query : Master → Option ℕ × Master
unfolding primera
tomar_query m =
    let (q, resto) =
      if es_fifo m
      then primera m.cola_queries
      else obtener_menor_prioridad m.queries m.cola_queries in
    (q, record m { cola_queries = resto })

-- The loop of `comenzar_a_ejecutar`: each round takes one from the semaphore, so its value counts
-- the rounds. A worker that is gone gives its unit back.
unfoldable pub comenzar_desde : ℕ → Master → HacerConnect → ℕ → Hilo × Master
comenzar_desde zero m informacion id_worker = (espera, record m { sem_queries = 0 })
comenzar_desde (suc n) m informacion id_worker =
    let s = record m { sem_queries = n } in
    let (tomada, t) = tomar_query s in
    elim (obtener_por_id_worker m.workers m.lista_workers informacion.id) [
      | none ↦ (termina, record m { sem_queries = suc n })
      | some w ↦
          let worker = worker_en m w in
          elim worker.desconection [
            | true ↦ (
              termina,
              con_worker (record m { sem_queries = suc n }) w
                  (record worker { desconexion_worker = worker.desconexion_worker + 1 }),
            )
            | false ↦ elim tomada [
              | none ↦ comenzar_desde n t informacion id_worker
              | some q ↦ (atiende, asignar_query t informacion id_worker q)
            ]
          ]
    ]

-- `comenzar_a_ejecutar`
unfoldable pub comenzar_a_ejecutar : Master → HacerConnect → ℕ → Hilo × Master
unfolding comenzar_desde
comenzar_a_ejecutar m informacion id_worker = comenzar_desde m.sem_queries m informacion id_worker

-- `realizar_desalojo`: the packet goes to the interruption socket of the worker. `none` is the
-- access through NULL when no worker of the list has the id.
unfoldable pub realizar_desalojo : Master → ℕ → OpCode → Option Master
realizar_desalojo m id_worker cod_op =
    elim (obtener_por_id_worker m.workers m.lista_workers id_worker) [
      | none ↦ none
      | some w ↦ some (enviar m (worker_en m w).socket_interruption cod_op (bytes_de_int 5 ∷ []))
    ]

-- `_max_prioridad`
abbrev pub max_prioridad : List Query → ℕ → ℕ → ℕ
max_prioridad queries a b =
    if ge_int (prioridad_en queries a) (prioridad_en queries b) then a else b

-- `list_get_maximum` of so-commons: the greatest element of the list by the comparator. It is a
-- parameter.
abbrev pub Maximo : Type 0
Maximo = (ℕ → ℕ → ℕ) → List ℕ → ℕ

module _ (list_get_maximum : Maximo) where
  -- `chequeador_desalojo` on the list of the queries that the workers run.
  unfoldable pub chequear_lista : Master → ℤ → List ℕ → Option Master
  unfolding realizar_desalojo
  chequear_lista m prioridad [] = some m
  chequear_lista m prioridad (q ∷ qs) =
      let mayor = query_en m (list_get_maximum (max_prioridad m.queries) (q ∷ qs)) in
      if eq_size (length (q ∷ qs)) m.cantidad_workers && lt_int prioridad mayor.prioridad
      then realizar_desalojo m mayor.id_worker worker_desalojo
      else some m

  -- `chequeador_desalojo`
  unfoldable pub chequeador_desalojo : Master → ℤ → Option Master
  unfolding chequear_lista
  chequeador_desalojo m prioridad = chequear_lista m prioridad m.query_en_worker
