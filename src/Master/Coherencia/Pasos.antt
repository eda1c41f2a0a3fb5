-- ===== src/Master/Coherencia/Pasos.antt =====
-- master/src/master.c: every step of the master keeps the queue and the list coherent.
use tp_2025_2c_kernel_panic.Prelude.{
  ℕ, zero, suc, ◌≡◌, inl, inr, refl, subst, Option, none, some, Option-cases, Saca-All, Cadena,
  arith,
}
use tp_2025_2c_kernel_panic.Master.Estado.{HacerConnect, Master, inicializar_semaforos, worker_en}
use tp_2025_2c_kernel_panic.Master.Listas.{
  obtener_por_id_worker, obtener_query_por_id_worker, coincide_id_worker,
}
use tp_2025_2c_kernel_panic.Master.Listas.Busqueda.{list_find-Encuentra}
use tp_2025_2c_kernel_panic.Master.Planificador.{Maximo}
use tp_2025_2c_kernel_panic.Master.Workers.{
  paquete_nulo, atender_worker_interrupt, atender_desconexion_worker, quitar_worker,
}
use tp_2025_2c_kernel_panic.Master.Fallas.{
  error_instruccion_malformada, error_modificar_commit, error_tamanio_escritura,
  error_tamanio_lectura, error_create, error_truncate, error_write_en_storage,
  error_read_en_storage, error_tag, error_commit, error_delete, error_flush,
}
use tp_2025_2c_kernel_panic.Master.Atencion.{
  Falla, malformada, create, truncate, write_en_storage, read_en_storage, tag, commit, delete,
  FallaArchivo, modificar_commit, tamanio_escritura, tamanio_lectura, PaqueteWorker, id_de_worker,
  lectura, fin_de_query, falla, falla_archivo, falla_flush, nuevo_pc, desconectada, desconocido,
  atender_falla, atender_falla_archivo, atender_worker, Evento, llega_query, vence_timer,
  se_va_query, llega_paquete, se_corta, sigue_esperando, conecta_interrupcion, se_va_worker,
  se_quita_worker, estado_de, paso, Alcanza, inicio, luego,
}
use tp_2025_2c_kernel_panic.Master.Coherencia.{NoLista, IsCoherente}
use tp_2025_2c_kernel_panic.Master.Coherencia.Asignacion.{comenzar_a_ejecutar-Coherente}
use tp_2025_2c_kernel_panic.Master.Coherencia.Manejadores.{
  SiHay, con_estado_exit-Coherente, finalizar_con_error-Coherente, query_end-Coherente,
  pc_update-Coherente, worker_id-Coherente, read_result-Coherente, query_desconectado-Coherente,
}
use tp_2025_2c_kernel_panic.Master.Coherencia.Queries.{
  atender_query-Coherente, ronda_timer-Coherente, atender_desconexion_query-Coherente,
}

paquete_nulo-Coherente :
    (m : Master) (i : HacerConnect) → IsCoherente m → SiHay IsCoherente (paquete_nulo m i)
unfolding paquete_nulo
paquete_nulo-Coherente m i c =
    elim (Option-cases (obtener_por_id_worker m.workers m.lista_workers i.id)) [
      | inl e ↦ rw (e, paquete_nulo) tt
      | inr (w, e) ↦ rw (e, paquete_nulo) c
    ]

atender_worker_interrupt-Coherente :
    (m : Master) (i : HacerConnect) (id : ℕ)
    → IsCoherente m
    → SiHay IsCoherente (atender_worker_interrupt m i id)
unfolding atender_worker_interrupt
atender_worker_interrupt-Coherente m i id c =
    elim (Option-cases (obtener_por_id_worker m.workers m.lista_workers id)) [
      | inl e ↦ rw (e, atender_worker_interrupt) tt
      | inr (w, e) ↦ rw (e, atender_worker_interrupt) c
    ]

-- The query of the worker was in the list, so it was not in READY.
atender_desconexion_worker-Coherente :
    (m : Master) (w : ℕ) → IsCoherente m → IsCoherente (atender_desconexion_worker m w)
unfolding atender_desconexion_worker obtener_query_por_id_worker
atender_desconexion_worker-Coherente m w c =
    elim (list_find-Encuentra (coincide_id_worker m.queries (worker_en m w).id) m.query_en_worker) [
      | inl (e, _, _) ↦ rw (e, atender_desconexion_worker) c
      | inr (q, e, _, s) ↦
          let (ya, _) = Saca-All (NoLista m.queries) m.query_en_worker q _ s c.no_listas in
          rw (e, atender_desconexion_worker) (con_estado_exit-Coherente m q c ya)
    ]

quitar_worker-avisado :
    (m : Master) (w n : ℕ)
    → (worker_en m w).desconexion_worker ≡ n
    → IsCoherente m
    → SiHay IsCoherente (quitar_worker m w)
unfolding quitar_worker
quitar_worker-avisado m w zero e c = rw (e, quitar_worker) tt
quitar_worker-avisado m w (suc n) e c = rw (e, quitar_worker) c

quitar_worker-Coherente :
    (m : Master) (w : ℕ) → IsCoherente m → SiHay IsCoherente (quitar_worker m w)
quitar_worker-Coherente m w c = quitar_worker-avisado m w (worker_en m w).desconexion_worker refl c

atender_falla-Coherente :
    (f : Falla) (m : Master) (i : HacerConnect) (id : ℕ) (t : Cadena)
    → IsCoherente m
    → IsCoherente (atender_falla f m i id t).1
unfolding atender_falla error_instruccion_malformada error_create error_truncate
    error_write_en_storage error_read_en_storage error_tag error_commit error_delete
atender_falla-Coherente malformada m i id t c = finalizar_con_error-Coherente m i id _ _ _ c
atender_falla-Coherente create m i id t c = finalizar_con_error-Coherente m i id _ _ _ c
atender_falla-Coherente truncate m i id t c = finalizar_con_error-Coherente m i id _ _ _ c
atender_falla-Coherente write_en_storage m i id t c = finalizar_con_error-Coherente m i id _ _ _ c
atender_falla-Coherente read_en_storage m i id t c = finalizar_con_error-Coherente m i id _ _ _ c
atender_falla-Coherente tag m i id t c = finalizar_con_error-Coherente m i id _ _ _ c
atender_falla-Coherente commit m i id t c = finalizar_con_error-Coherente m i id _ _ _ c
atender_falla-Coherente delete m i id t c = finalizar_con_error-Coherente m i id _ _ _ c

atender_falla_archivo-Coherente :
    (f : FallaArchivo) (m : Master) (i : HacerConnect) (id : ℕ) (a b : Cadena)
    → IsCoherente m
    → IsCoherente (atender_falla_archivo f m i id a b).1
unfolding atender_falla_archivo error_modificar_commit error_tamanio_escritura error_tamanio_lectura
atender_falla_archivo-Coherente modificar_commit m i id a b c =
    finalizar_con_error-Coherente m i id _ _ _ c
atender_falla_archivo-Coherente tamanio_escritura m i id a b c =
    finalizar_con_error-Coherente m i id _ _ _ c
atender_falla_archivo-Coherente tamanio_lectura m i id a b c =
    finalizar_con_error-Coherente m i id _ _ _ c

atender_worker-Coherente :
    (m : Master) (i : HacerConnect) (p : PaqueteWorker)
    → IsCoherente m
    → SiHay (λ r. IsCoherente r.1) (atender_worker m i p)
unfolding atender_worker error_flush
atender_worker-Coherente m i (id_de_worker w) c = worker_id-Coherente m i w c
atender_worker-Coherente m i (lectura id contenido file t pc) c =
    read_result-Coherente m i id contenido file t pc c
atender_worker-Coherente m i (fin_de_query id) c = query_end-Coherente m i id c
atender_worker-Coherente m i (falla f id t) c = atender_falla-Coherente f m i id t c
atender_worker-Coherente m i (falla_archivo f id a b) c =
    atender_falla_archivo-Coherente f m i id a b c
atender_worker-Coherente m i (falla_flush id) c = finalizar_con_error-Coherente m i id _ _ _ c
atender_worker-Coherente m i (nuevo_pc id pc) c = pc_update-Coherente m i id pc c
atender_worker-Coherente m i (desconectada id) c = query_desconectado-Coherente m i id c
atender_worker-Coherente m i desconocido c = c

SiHay-estado_de :
    {A : Type 0} (r : Option (A × Master))
    → SiHay (λ x. IsCoherente x.1) r
    → SiHay IsCoherente (estado_de r)
SiHay-estado_de none h = tt
SiHay-estado_de (some x) h = h

SiHay-some : (r : Option Master) (u : Master) → r ≡ some u → SiHay IsCoherente r → IsCoherente u
SiHay-some none u e h = cc
SiHay-some (some t) u e h = let f : t ≡ u = cc in subst IsCoherente f h

inicio-Coherente :
    (algoritmo_planificacion : Cadena) (tiempo_aging : ℕ)
    → IsCoherente (inicializar_semaforos algoritmo_planificacion tiempo_aging)
unfolding inicializar_semaforos
inicio-Coherente algoritmo_planificacion tiempo_aging = record {
  ids = λ a h. absurd (omega arith);
  siguiente = refl;
  listas = tt;
  completa = λ a h. absurd (omega arith);
  no_listas = tt;
  cola_distinta = tt;
  en_worker_distinta = tt;
  semaforo = refl;
}

module _ (list_get_maximum : Maximo) where
  paso-SiHay :
      (m : Master) (e : Evento) → IsCoherente m → SiHay IsCoherente (paso list_get_maximum m e)
  unfolding paso
  paso-SiHay m (llega_query socket path prioridad) c =
      atender_query-Coherente list_get_maximum m socket path prioridad c
  paso-SiHay m (vence_timer q) c = SiHay-estado_de _ (ronda_timer-Coherente list_get_maximum m q c)
  paso-SiHay m (se_va_query q) c = atender_desconexion_query-Coherente m q c
  paso-SiHay m (llega_paquete i p) c = SiHay-estado_de _ (atender_worker-Coherente m i p c)
  paso-SiHay m (se_corta i) c = paquete_nulo-Coherente m i c
  paso-SiHay m (sigue_esperando i w) c = comenzar_a_ejecutar-Coherente m i w c
  paso-SiHay m (conecta_interrupcion i id) c = atender_worker_interrupt-Coherente m i id c
  paso-SiHay m (se_va_worker w) c = atender_desconexion_worker-Coherente m w c
  paso-SiHay m (se_quita_worker w) c = quitar_worker-Coherente m w c

  -- From a coherent state, every event that a thread handles leads to a coherent state: the queue
  -- holds exactly the queries in READY, each once, and the semaphore counts them; the list of the
  -- workers holds other queries only, each once; the ids are the positions in the heap.
  pub paso-Coherente :
      (m u : Master) (e : Evento)
      → IsCoherente m
      → paso list_get_maximum m e ≡ some u
      → IsCoherente u
  paso-Coherente m u e c p = SiHay-some _ u p (paso-SiHay m e c)

  Alcanza-IsCoherente :
      (m u : Master) → IsCoherente m → Alcanza list_get_maximum m u → IsCoherente u
  Alcanza-IsCoherente m u c inicio = c
  Alcanza-IsCoherente m u c (luego {t} e a p) = paso-Coherente t u e (Alcanza-IsCoherente m t c a) p

  -- Every state that a run of the master reaches from its start, with each handler run as one step, is
  -- coherent, whatever the order of the events, the algorithm and the period of the aging: the queue
  -- holds exactly the queries in READY, each once, and the semaphore counts it; the list of the workers
  -- holds other queries only, each once; the ids are the positions in the heap.
  pub Alcanza-Coherente :
      (algoritmo_planificacion : Cadena) (tiempo_aging : ℕ) (u : Master)
      → Alcanza list_get_maximum (inicializar_semaforos algoritmo_planificacion tiempo_aging) u
      → IsCoherente u
  Alcanza-Coherente algoritmo_planificacion tiempo_aging u a =
      Alcanza-IsCoherente _ u (inicio-Coherente algoritmo_planificacion tiempo_aging) a
