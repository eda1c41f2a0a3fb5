-- ===== src/Master/Workers.antt =====
-- master/src/master.c: the threads that attend a worker: its packets, its connections, its end.
pub mod Errores
pub mod Desconexion
use tp_2025_2c_kernel_panic.Prelude.{
  ℕ, zero, suc, ◌+◌, ℤ, pos, decrement, increment, List, [], ◌∷◌, ◌++◌, Option, none, some, Bool,
  true, false, length, if◌then◌else◌, Cadena, codes,
}
use tp_2025_2c_kernel_panic.Utils.Protocolo.{
  OpCode, query_response_read, query_response_end, query_response_error_worker_desconectado,
  query_response_error_error_en_instruccion, query_response_error_modificar_commit,
  query_response_error_tamanio_escritura_excedido, query_response_error_tamanio_lectura_excedido,
  query_error_create, query_error_truncate, query_error_write_en_storage,
  query_error_read_en_storage, query_error_tag, query_error_commit, query_error_delete,
  query_error_flush, retener_worker,
}
use tp_2025_2c_kernel_panic.Utils.Paquete.Enteros.{bytes_de_int}
use tp_2025_2c_kernel_panic.Master.Estado.{
  ready, exit, Query, Worker, HacerConnect, Master, query_en, worker_en, con_query, con_worker,
  enviar, es_prioridades,
}
use tp_2025_2c_kernel_panic.Master.Listas.{
  obtener_por_id, eliminar_por_id, obtener_por_id_worker, obtener_query_por_id_worker,
  eliminar_worker_por_id,
}
use tp_2025_2c_kernel_panic.Master.Planificador.{
  Hilo, termina, atiende, con_nulo, comenzar_a_ejecutar,
}
use tp_2025_2c_kernel_panic.Master.Queries.{post_queries}

-- A query that leaves `query_en_worker` for its packet: its place, and the globals without it.
unfoldable pub eliminar_en_worker : Master → ℕ → Option ℕ × Master
eliminar_en_worker m id =
    let (q, resto) = eliminar_por_id m.queries m.query_en_worker id in
    (q, record m { query_en_worker = resto })

abbrev pub con_estado_exit : Master → ℕ → Master
con_estado_exit m q = let query = query_en m q in con_query m q (record query { estado = exit })

abbrev pub cerrar : Master → ℕ → Master
cerrar m socket = record m { cerrados = m.cerrados ++ socket ∷ [] }

-- `query_completado_con_exito`
unfoldable pub query_completado_con_exito : Master → ℕ → Master
query_completado_con_exito m q =
    enviar (con_estado_exit m q) (query_en m q).socket query_response_end
      (con_nulo (codes "Finalizacion Hardcodeada") ∷ [])

-- `case WORKER_QUERY_END`
unfoldable pub query_end : Master → HacerConnect → ℕ → Hilo × Master
unfolding eliminar_en_worker query_completado_con_exito
query_end m informacion id =
    let (hallada, s) = eliminar_en_worker m id in
    elim hallada [
      | none ↦ (termina, s)
      | some q ↦
          comenzar_a_ejecutar (query_completado_con_exito s q) informacion (query_en s q).id_worker
    ]

-- `case WORKER_READ_RESULT` with `enviar_read_a_query`; the thread goes on with `atender_Worker`.
-- `none` is the access through NULL when no running query has the id.
unfoldable pub read_result :
    Master → HacerConnect → ℕ → Cadena → Cadena → Cadena → ℕ → Option (Hilo × Master)
read_result m informacion id contenido file tag pc =
    elim (obtener_por_id m.queries m.query_en_worker id) [
      | none ↦ none
      | some q ↦
          let query = query_en m q in
          some (
            atiende,
            enviar (con_query m q (record query { program_counter = pc })) query.socket
                query_response_read (con_nulo file ∷ con_nulo tag ∷ con_nulo contenido ∷ []),
          )
    ]

-- The query of a `WORKER_PC_UPDATE`, back at the end of the queue.
unfoldable pub reencolar : Master → ℕ → ℕ → Master
reencolar m q pc =
    let query = query_en m q in
    let t = con_query m q (record query {
      estado = ready;
      program_counter = pc;
      timer_query = if es_prioridades m then query.timer_query + 1 else query.timer_query;
    }) in
    post_queries (record t { cola_queries = t.cola_queries ++ q ∷ [] })

-- `case WORKER_PC_UPDATE`
unfoldable pub pc_update : Master → HacerConnect → ℕ → ℕ → Hilo × Master
unfolding eliminar_en_worker reencolar
pc_update m informacion id pc =
    let (hallada, s) = eliminar_en_worker m id in
    comenzar_a_ejecutar (elim hallada [ none ↦ s | some q ↦ reencolar s q pc ]) informacion
      informacion.id

-- `case WORKER_QUERY_DESCONECTADO`; `none` is the access through NULL.
unfoldable pub query_desconectado : Master → HacerConnect → ℕ → Option (Hilo × Master)
unfolding eliminar_en_worker
query_desconectado m informacion id =
    let (hallada, s) = eliminar_en_worker m id in
    elim hallada [
      | none ↦ none
      | some q ↦ some (comenzar_a_ejecutar (con_estado_exit s q) informacion informacion.id)
    ]

-- The new worker of `case WORKER_ID`.
unfoldable pub registrar_worker : Master → HacerConnect → ℕ → Master
registrar_worker m informacion id_worker =
    let nuevo : Worker = record {
      id = id_worker;
      socket = informacion.socket_conexion;
      socket_interruption = 0;
      desconection = false;
      desconexion_worker = 0;
    } in
    enviar
      (record m {
        cantidad_workers = increment m.cantidad_workers;
        workers = m.workers ++ nuevo ∷ [];
        lista_workers = m.lista_workers ++ length m.workers ∷ [];
      })
      informacion.socket_conexion retener_worker (bytes_de_int 2 ∷ [])

-- `case WORKER_ID`
unfoldable pub worker_id : Master → HacerConnect → ℕ → Hilo × Master
unfolding registrar_worker
worker_id m informacion id_worker =
    comenzar_a_ejecutar (registrar_worker m informacion id_worker)
      (record informacion { id = id_worker }) id_worker

-- `atender_Worker` when `recibir_paquete` returns NULL: the thread tells the watcher and ends.
-- `none` is the access through NULL when the worker is in no list.
unfoldable pub paquete_nulo : Master → HacerConnect → Option Master
paquete_nulo m informacion = elim (obtener_por_id_worker m.workers m.lista_workers informacion.id) [
  | none ↦ none
  | some w ↦
      let worker = worker_en m w in
      some (con_worker m w (record worker { desconexion_worker = worker.desconexion_worker + 1 }))
]

-- `atender_worker_interrupt`: the second connection of a worker. `none` is the access through NULL.
unfoldable pub atender_worker_interrupt : Master → HacerConnect → ℕ → Option Master
atender_worker_interrupt m informacion id =
    elim (obtener_por_id_worker m.workers m.lista_workers id) [
      | none ↦ none
      | some w ↦
          let worker = worker_en m w in
          some
            (con_worker m w (record worker { socket_interruption = informacion.socket_conexion }))
    ]

-- `atender_desconexion_worker` when `recv` returned 0, up to its wait: the worker is marked, both
-- sockets are closed, and the first query of the list that names the worker is in EXIT and its client
-- is told. The query stays in `query_en_worker`.
unfoldable pub atender_desconexion_worker : Master → ℕ → Master
atender_desconexion_worker m w =
    let worker = worker_en m w in
    let marcado = con_worker m w (record worker { desconection = true }) in
    let s = record marcado {
      cerrados = marcado.cerrados ++ worker.socket_interruption ∷ worker.socket ∷ [];
      cantidad_workers = decrement marcado.cantidad_workers;
    } in
    elim (obtener_query_por_id_worker s.queries s.query_en_worker worker.id) [
      | none ↦ s
      | some q ↦
          enviar (con_estado_exit s q) (query_en s q).socket
            query_response_error_worker_desconectado (bytes_de_int worker.id ∷ [])
    ]

-- The end of `atender_desconexion_worker`, behind `sem_wait`; `none` while the semaphore is 0.
unfoldable pub quitar_worker : Master → ℕ → Option Master
quitar_worker m w = elim (worker_en m w).desconexion_worker [
  | zero ↦ none
  | suc n ↦
      let worker = worker_en m w in
      let t = con_worker m w (record worker { desconexion_worker = n }) in
      some (record t { lista_workers = eliminar_worker_por_id t.workers t.lista_workers worker.id })
]
