-- ===== src/Master/Fallas.antt =====
-- master/src/master.c: the cases of `atender_Worker` for a query that fails on its worker.
use tp_2025_2c_kernel_panic.Prelude.{
  ℕ, List, [], ◌∷◌, none, some, Bool, true, false, if◌then◌else◌, Cadena, codes,
}
use tp_2025_2c_kernel_panic.Utils.Protocolo.{
  OpCode, query_response_error_error_en_instruccion, query_response_error_modificar_commit,
  query_response_error_tamanio_escritura_excedido, query_response_error_tamanio_lectura_excedido,
  query_error_create, query_error_truncate, query_error_write_en_storage,
  query_error_read_en_storage, query_error_tag, query_error_commit, query_error_delete,
  query_error_flush,
}
use tp_2025_2c_kernel_panic.Master.Estado.{HacerConnect, Master, query_en, enviar}
use tp_2025_2c_kernel_panic.Master.Planificador.{Hilo, termina, con_nulo, comenzar_a_ejecutar}
use tp_2025_2c_kernel_panic.Master.Workers.{eliminar_en_worker, con_estado_exit, cerrar}

abbrev pub nulos : List Cadena → List (List ℕ)
nulos [] = []
nulos (c ∷ cs) = con_nulo c ∷ nulos cs

-- The cases of `atender_Worker` for a query that fails on its worker: the query leaves the list
-- and is in EXIT, its client gets the code and the texts, its socket is closed in some of them,
-- and the worker gets another query. When the list has no such query the thread of the worker ends.
unfoldable pub finalizar_con_error :
    Master → HacerConnect → ℕ → OpCode → List Cadena → Bool → Hilo × Master
unfolding eliminar_en_worker
finalizar_con_error m informacion id codigo textos cierra =
    let (hallada, s) = eliminar_en_worker m id in
    elim hallada [
      | none ↦ (termina, s)
      | some q ↦
          let query = query_en s q in
          let t = enviar (con_estado_exit s q) query.socket codigo (nulos textos) in
          comenzar_a_ejecutar (if cierra then cerrar t query.socket else t) informacion
            query.id_worker
    ]

-- `case WORKER_ERROR_INSTRUCCION_MALFORMADA`
unfoldable pub error_instruccion_malformada : Master → HacerConnect → ℕ → Cadena → Hilo × Master
error_instruccion_malformada m informacion id instruccion =
    finalizar_con_error m informacion id query_response_error_error_en_instruccion
      (instruccion ∷ []) true

-- `case WORKER_ERROR_MODIFICAR_COMMIT`
unfoldable pub error_modificar_commit : Master → HacerConnect → ℕ → Cadena → Cadena → Hilo × Master
error_modificar_commit m informacion id file tag =
    finalizar_con_error m informacion id query_response_error_modificar_commit (file ∷ tag ∷ [])
      true

-- `case WORKER_ERROR_TAMANIO_ESCRITURA_EXCEDIDO`
unfoldable pub error_tamanio_escritura : Master → HacerConnect → ℕ → Cadena → Cadena → Hilo × Master
error_tamanio_escritura m informacion id file tag =
    finalizar_con_error m informacion id query_response_error_tamanio_escritura_excedido
      (file ∷ tag ∷ []) true

-- `case WORKER_ERROR_TAMANIO_LECTURA_EXCEDIDO`
unfoldable pub error_tamanio_lectura : Master → HacerConnect → ℕ → Cadena → Cadena → Hilo × Master
error_tamanio_lectura m informacion id file tag =
    finalizar_con_error m informacion id query_response_error_tamanio_lectura_excedido
      (file ∷ tag ∷ []) true

-- `case WORKER_ERROR_CREATE`
unfoldable pub error_create : Master → HacerConnect → ℕ → Cadena → Hilo × Master
error_create m informacion id instruccion =
    finalizar_con_error m informacion id query_error_create (instruccion ∷ []) false

-- `case WORKER_ERROR_TRUNCATE`
unfoldable pub error_truncate : Master → HacerConnect → ℕ → Cadena → Hilo × Master
error_truncate m informacion id instruccion =
    finalizar_con_error m informacion id query_error_truncate (instruccion ∷ []) false

-- `case WORKER_ERROR_WRITE_EN_STORAGE`
unfoldable pub error_write_en_storage : Master → HacerConnect → ℕ → Cadena → Hilo × Master
error_write_en_storage m informacion id instruccion =
    finalizar_con_error m informacion id query_error_write_en_storage (instruccion ∷ []) false

-- `case WORKER_ERROR_READ_EN_STORAGE`
unfoldable pub error_read_en_storage : Master → HacerConnect → ℕ → Cadena → Hilo × Master
error_read_en_storage m informacion id instruccion =
    finalizar_con_error m informacion id query_error_read_en_storage (instruccion ∷ []) false

-- `case WORKER_ERROR_TAG`
unfoldable pub error_tag : Master → HacerConnect → ℕ → Cadena → Hilo × Master
error_tag m informacion id instruccion =
    finalizar_con_error m informacion id query_error_tag (instruccion ∷ []) false

-- `case WORKER_ERROR_COMMIT`
unfoldable pub error_commit : Master → HacerConnect → ℕ → Cadena → Hilo × Master
error_commit m informacion id instruccion =
    finalizar_con_error m informacion id query_error_commit (instruccion ∷ []) false

-- `case WORKER_ERROR_DELETE`
unfoldable pub error_delete : Master → HacerConnect → ℕ → Cadena → Hilo × Master
error_delete m informacion id instruccion =
    finalizar_con_error m informacion id query_error_delete (instruccion ∷ []) false

-- `case WORKER_ERROR_FLUSH`: the text of the packet is not used.
unfoldable pub error_flush : Master → HacerConnect → ℕ → Hilo × Master
error_flush m informacion id =
    finalizar_con_error m informacion id query_error_flush (codes "Error flush" ∷ []) false
