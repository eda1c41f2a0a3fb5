-- ===== src/Master/Atencion.antt =====
-- master/src/master.c: one step of the master, whichever thread makes it. `atender_Worker` takes the
-- packets apart; the events are the points at which the threads wait for each other or for a socket.
use tp_2025_2c_kernel_panic.Prelude.{ℕ, ℤ, Option, none, some, Cadena, ◌≡◌}
use tp_2025_2c_kernel_panic.Master.Estado.{HacerConnect, Master}
use tp_2025_2c_kernel_panic.Master.Planificador.{Maximo, Hilo, termina, comenzar_a_ejecutar}
use tp_2025_2c_kernel_panic.Master.Queries.{atender_query, ronda_timer, atender_desconexion_query}
use tp_2025_2c_kernel_panic.Master.Workers.{
  query_end, read_result, pc_update, query_desconectado, worker_id, paquete_nulo,
  atender_worker_interrupt, atender_desconexion_worker, quitar_worker,
}
use tp_2025_2c_kernel_panic.Master.Fallas.{
  error_instruccion_malformada, error_modificar_commit, error_tamanio_escritura,
  error_tamanio_lectura, error_create, error_truncate, error_write_en_storage,
  error_read_en_storage, error_tag, error_commit, error_delete, error_flush,
}

-- The failures of a query that a worker reports with the text of the instruction.
pub data Falla : Type 0 where
  malformada create truncate write_en_storage read_en_storage tag commit delete : Falla

-- Those that it reports with the file and the tag.
pub data FallaArchivo : Type 0 where
  modificar_commit tamanio_escritura tamanio_lectura : FallaArchivo

-- The packets of a worker, with the values that the cases of the `switch` read.
pub data PaqueteWorker : Type 0 where
  id_de_worker : ℕ → PaqueteWorker
  lectura : ℕ → Cadena → Cadena → Cadena → ℕ → PaqueteWorker
  fin_de_query : ℕ → PaqueteWorker
  falla : Falla → ℕ → Cadena → PaqueteWorker
  falla_archivo : FallaArchivo → ℕ → Cadena → Cadena → PaqueteWorker
  falla_flush : ℕ → PaqueteWorker
  nuevo_pc : ℕ → ℕ → PaqueteWorker
  desconectada : ℕ → PaqueteWorker
  desconocido : PaqueteWorker

unfoldable pub atender_falla : Falla → Master → HacerConnect → ℕ → Cadena → Hilo × Master
atender_falla malformada = error_instruccion_malformada
atender_falla create = error_create
atender_falla truncate = error_truncate
atender_falla write_en_storage = error_write_en_storage
atender_falla read_en_storage = error_read_en_storage
atender_falla tag = error_tag
atender_falla commit = error_commit
atender_falla delete = error_delete

unfoldable pub atender_falla_archivo :
    FallaArchivo → Master → HacerConnect → ℕ → Cadena → Cadena → Hilo × Master
atender_falla_archivo modificar_commit = error_modificar_commit
atender_falla_archivo tamanio_escritura = error_tamanio_escritura
atender_falla_archivo tamanio_lectura = error_tamanio_lectura

-- `atender_Worker` for the packet that `recibir_paquete` returned. An unknown code ends the thread.
unfoldable pub atender_worker : Master → HacerConnect → PaqueteWorker → Option (Hilo × Master)
unfolding atender_falla atender_falla_archivo
atender_worker m i (id_de_worker w) = some (worker_id m i w)
atender_worker m i (lectura id contenido file t pc) = read_result m i id contenido file t pc
atender_worker m i (fin_de_query id) = some (query_end m i id)
atender_worker m i (falla f id instruccion) = some (atender_falla f m i id instruccion)
atender_worker m i (falla_archivo f id file t) = some (atender_falla_archivo f m i id file t)
atender_worker m i (falla_flush id) = some (error_flush m i id)
atender_worker m i (nuevo_pc id pc) = some (pc_update m i id pc)
atender_worker m i (desconectada id) = query_desconectado m i id
atender_worker m i desconocido = some (termina, m)

-- What wakes a thread: a client or a worker that connects, sends or goes, a timer that runs out,
-- a semaphore.
pub data Evento : Type 0 where
  llega_query : ℕ → Cadena → ℤ → Evento
  vence_timer : ℕ → Evento
  se_va_query : ℕ → Evento
  llega_paquete : HacerConnect → PaqueteWorker → Evento
  se_corta : HacerConnect → Evento
  sigue_esperando : HacerConnect → ℕ → Evento
  conecta_interrupcion : HacerConnect → ℕ → Evento
  se_va_worker : ℕ → Evento
  se_quita_worker : ℕ → Evento

abbrev pub estado_de {ℓ} : {A : Type ℓ} → Option (A × Master) → Option Master
estado_de none = none
estado_de (some (a, m)) = some m

module _ (list_get_maximum : Maximo) where
  -- `none`: the thread reads through NULL, or it still waits.
  unfoldable pub paso : Master → Evento → Option Master
  unfolding atender_worker
  paso m (llega_query socket path prioridad) =
      atender_query list_get_maximum m socket path prioridad
  paso m (vence_timer q) = estado_de (ronda_timer list_get_maximum m q)
  paso m (se_va_query q) = atender_desconexion_query m q
  paso m (llega_paquete i p) = estado_de (atender_worker m i p)
  paso m (se_corta i) = paquete_nulo m i
  paso m (sigue_esperando i w) = some (comenzar_a_ejecutar m i w).1
  paso m (conecta_interrupcion i id) = atender_worker_interrupt m i id
  paso m (se_va_worker w) = some (atender_desconexion_worker m w)
  paso m (se_quita_worker w) = quitar_worker m w

  -- The states that a run of the master reaches from `m`.
  pub data Alcanza (m : Master) : Master → Type 0 where
    inicio : Alcanza m m
    luego : {t u : Master} (e : Evento) → Alcanza m t → paso t e ≡ some u → Alcanza m u
