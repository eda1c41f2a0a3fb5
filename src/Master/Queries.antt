-- ===== src/Master/Queries.antt =====
-- master/src/master.c: the threads that attend a query: its arrival, its aging, its end.
pub mod Envejecimiento
use tp_2025_2c_kernel_panic.Prelude.{
  ℕ, zero, suc, ◌+◌, ◌-◌, ℤ, pos, lt_int, decrement, List, [], ◌∷◌, ◌++◌, Option, none, some, Bool,
  true, false, not, ◌&&◌, ◌||◌, length, if◌then◌else◌, Cadena, ◌==◌,
}
use tp_2025_2c_kernel_panic.Utils.Protocolo.{worker_query_desconectado}
use tp_2025_2c_kernel_panic.Master.Estado.{
  Estado, ready, running, exit, Query, HacerConnect, Master, query_en, con_query, es_prioridades,
}
use tp_2025_2c_kernel_panic.Master.Listas.{eliminar_por_id}
use tp_2025_2c_kernel_panic.Master.Planificador.{Maximo, chequeador_desalojo, realizar_desalojo}

abbrev pub es_ready : Estado → Bool
es_ready ready = true
es_ready running = false
es_ready exit = false

-- `asignar_id_query`
unfoldable pub asignar_id_query : Master → ℕ × Master
asignar_id_query m = (m.id_query, record m { id_query = m.id_query + 1 })

-- `sem_post(&sem_queries)`
abbrev pub post_queries : Master → Master
post_queries m = record m { sem_queries = m.sem_queries + 1 }

-- The new query of `atender_Query`, at the end of the heap and of the queue.
unfoldable pub encolar_nueva : Master → ℕ → Cadena → ℤ → Master
unfolding asignar_id_query
encolar_nueva m socket path prioridad =
    let (id, t) = asignar_id_query m in
    let nueva : Query = record {
      id = id;
      path = path;
      prioridad = prioridad;
      socket = socket;
      program_counter = 0;
      id_worker = 0;
      estado = ready;
      alive = true;
      timer_query = 0;
    } in
    record t {
      queries = t.queries ++ nueva ∷ [];
      cola_queries = t.cola_queries ++ length t.queries ∷ [];
    }

-- What the aging thread does after a round: it ends, it waits on the query's semaphore, or it
-- sleeps again.
pub data Timer : Type 0 where
  fin duerme espera_timer : Timer

module _ (list_get_maximum : Maximo) where
  -- `atender_Query`, with the path and the priority of the packet; the `id_worker` of a new query
  -- is not written before it is assigned.
  unfoldable pub atender_query : Master → ℕ → Cadena → ℤ → Option Master
  unfolding encolar_nueva
  atender_query m socket path prioridad =
      let t = encolar_nueva m socket path prioridad in
      elim (if es_prioridades t then chequeador_desalojo list_get_maximum t prioridad else some t) [
        | none ↦ none
        | some u ↦ some (post_queries u)
      ]

  -- Whether a round of the aging thread lowers the priority of the query.
  abbrev pub envejece : Master → ℕ → Bool
  envejece m q =
      let query = query_en m q in
      query.alive
      && es_ready query.estado
      && lt_int (pos 0) query.prioridad
      && not (m.tiempo_aging == 0)

  -- The end of a round: the test of `alive`, and the wait of a query that is not ready.
  abbrev pub siguiente_timer : Master → ℕ → Timer
  siguiente_timer m q =
      let query = query_en m q in
      if not query.alive
      then fin
      else if not (es_ready query.estado) || (m.tiempo_aging == 0)
      then espera_timer
      else duerme

  -- One round of `atender_timer_query`, after its sleep.
  unfoldable pub ronda_timer : Master → ℕ → Option (Timer × Master)
  ronda_timer m q =
      let query = query_en m q in
      let menos = decrement query.prioridad in
      if envejece m q
      then elim (chequeador_desalojo list_get_maximum
          (con_query m q (record query { prioridad = menos })) menos) [
            | none ↦ none
            | some t ↦ some (siguiente_timer t q, t)
          ]
      else some (siguiente_timer m q, m)

-- `atender_desconexion_query` when the `recv` of the query's socket returned 0: a running query is
-- evicted from its worker, a waiting one leaves the queue. `sem_trywait` takes a unit if there is one.
unfoldable pub sacar_de_cola : Master → ℕ → Master
sacar_de_cola m q =
    let (_, resto) = eliminar_por_id m.queries m.cola_queries (query_en m q).id in
    record m { cola_queries = resto; sem_queries = m.sem_queries - 1 }

-- The writes that follow: the query is in EXIT, and its timer wakes up.
unfoldable pub terminar_query : Master → ℕ → Master
terminar_query m q =
    let query = query_en m q in
    con_query m q (record query {
      estado = exit;
      timer_query = if es_prioridades m then query.timer_query + 1 else query.timer_query;
    })

unfoldable pub atender_desconexion_query : Master → ℕ → Option Master
unfolding sacar_de_cola terminar_query
atender_desconexion_query m q =
    let query = query_en m q in
    let cerrada = con_query m q (record query { alive = false }) in
    let t = record cerrada { cerrados = cerrada.cerrados ++ query.socket ∷ [] } in
    elim query.estado [
      | running ↦ elim (realizar_desalojo t query.id_worker worker_query_desconectado) [
        | none ↦ none
        | some u ↦ some (terminar_query u q)
      ]
      | ready ↦ some (terminar_query (sacar_de_cola t q) q)
      | exit ↦ some (terminar_query t q)
    ]
