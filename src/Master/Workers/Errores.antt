-- ===== src/Master/Workers/Errores.antt =====
-- master/src/master.c, `atender_Worker`: what becomes of the query that a packet names.
use tp_2025_2c_kernel_panic.Prelude.{
  ℕ, ◌+◌, ◌≡◌, ◌⊎◌, inl, inr, refl, ap, List, [], ◌∷◌, ◌++◌, none, some, Bool, true, false, Cadena,
  codes, All, All-map, set, get_or, ==_iff, if◌then◌else◌,
}
use tp_2025_2c_kernel_panic.Utils.Protocolo.{
  OpCode, query_response_end, query_response_error_error_en_instruccion,
  query_response_error_modificar_commit, query_response_error_tamanio_escritura_excedido,
  query_response_error_tamanio_lectura_excedido, query_error_create, query_error_truncate,
  query_error_write_en_storage, query_error_read_en_storage, query_error_tag, query_error_commit,
  query_error_delete,
}
use tp_2025_2c_kernel_panic.Master.Estado.{
  ready, exit, HacerConnect, Master, query_en, query_vacia, es_prioridades,
}
use tp_2025_2c_kernel_panic.Master.Listas.{eliminar_por_id, coincide_id}
use tp_2025_2c_kernel_panic.Master.Listas.Busqueda.{list_find-SacaPrimera}
use tp_2025_2c_kernel_panic.Master.Planificador.{Hilo, termina, con_nulo, comenzar_a_ejecutar}
use tp_2025_2c_kernel_panic.Master.Workers.{
  eliminar_en_worker, query_completado_con_exito, query_end, reencolar, pc_update,
}
use tp_2025_2c_kernel_panic.Master.Fallas.{
  nulos, finalizar_con_error, error_instruccion_malformada, error_modificar_commit,
  error_tamanio_escritura, error_tamanio_lectura, error_create, error_truncate,
  error_write_en_storage, error_read_en_storage, error_tag, error_commit, error_delete,
}
use tp_2025_2c_kernel_panic.Master.Atencion.{
  Falla, malformada, create, truncate, write_en_storage, read_en_storage, tag, commit, delete,
  FallaArchivo, modificar_commit, tamanio_escritura, tamanio_lectura, atender_falla,
  atender_falla_archivo,
}

abbrev pub LlevaId : Master → ℕ → ℕ → Type 0
LlevaId m id a = (get_or m.queries a query_vacia).id ≡ id

-- The master without the query in the list of the workers, the query in EXIT, its client told, and
-- its socket closed if asked.
abbrev pub terminada : Master → ℕ → List ℕ → OpCode → List (List ℕ) → Bool → Master
terminada m q resto codigo valores cierra = record m {
  queries = set m.queries q (record (query_en m q) { estado = exit });
  query_en_worker = resto;
  enviados =
      m.enviados
      ++ record { socket = (query_en m q).socket; codigo = codigo; valores = valores } ∷ [];
  cerrados = if cierra then m.cerrados ++ (query_en m q).socket ∷ [] else m.cerrados;
}

-- One list is the other without a query, the first that has the id.
abbrev pub SacaPorId : Master → ℕ → List ℕ → ℕ → List ℕ → Type 0
SacaPorId m id xs q ys =
    (antes : List ℕ) × (tras : List ℕ) × All (λ a. ¬ LlevaId m id a) antes
    × LlevaId m id q
    × (xs ≡ antes ++ q ∷ tras)
    × (ys ≡ antes ++ tras)

-- The first query of the list with the id ends, and the worker that ran it gets the next one; or no query of
-- the list has the id, nothing changes and the thread of the worker ends.
abbrev pub Termina :
    Master → HacerConnect → ℕ → OpCode → List (List ℕ) → Bool → Hilo × Master → Type 0
Termina m i id codigo valores cierra r =
    ((q : ℕ) × (resto : List ℕ) × SacaPorId m id m.query_en_worker q resto
      × (r
          ≡ comenzar_a_ejecutar (terminada m q resto codigo valores cierra) i
              (query_en m q).id_worker))
    ⊎ (All (λ a. ¬ LlevaId m id a) m.query_en_worker × (r ≡ (termina, m)))

con_lista : Master → List ℕ → Master
con_lista m lista = record m { query_en_worker = lista }

abbrev sin_hallada : Master → ℕ → List ℕ
sin_hallada m id = (eliminar_en_worker m id).1.query_en_worker

ninguna :
    (m : Master) (id : ℕ) (xs : List ℕ)
    → All (λ a. coincide_id m.queries id a ≡ false) xs
    → All (λ a. ¬ LlevaId m id a) xs
ninguna m id xs h =
    All-map (λ a. coincide_id m.queries id a ≡ false) (λ a. ¬ LlevaId m id a)
      (λ a k p. let z = (==_iff _ _).1 p in cc) xs h

eliminar_en_worker-Encuentra :
    (m : Master) (id : ℕ)
    → ((q : ℕ) × SacaPorId m id m.query_en_worker q (sin_hallada m id)
        × ((eliminar_en_worker m id).0 ≡ some q))
      ⊎ (All (λ a. ¬ LlevaId m id a) m.query_en_worker
          × ((eliminar_en_worker m id).0 ≡ none)
          × ((eliminar_en_worker m id).1 ≡ m))
unfolding eliminar_en_worker eliminar_por_id con_lista
eliminar_en_worker-Encuentra m id =
    elim (list_find-SacaPrimera (coincide_id m.queries id) m.query_en_worker) [
      | inl (e, f, h) ↦ inr (ninguna m id m.query_en_worker h, e, ap (con_lista m) f)
      | inr (q, e, (a, b, h, p, f, g)) ↦
          inl (q, (a, b, ninguna m id a h, (==_iff _ _).0 p, f, g), e)
    ]

cierre :
    (b : Bool) (t : Master) (socket : ℕ)
    → (if b then record t { cerrados = t.cerrados ++ socket ∷ [] } else t)
      ≡ record t { cerrados = if b then t.cerrados ++ socket ∷ [] else t.cerrados }
cierre true t socket = refl
cierre false t socket = refl

finalizar_con_error-Termina :
    (m : Master) (i : HacerConnect) (id : ℕ) (codigo : OpCode) (textos : List Cadena)
    (cierra : Bool)
    → Termina m i id codigo (nulos textos) cierra (finalizar_con_error m i id codigo textos cierra)
unfolding finalizar_con_error eliminar_en_worker
finalizar_con_error-Termina m i id codigo textos cierra = elim (eliminar_en_worker-Encuentra m id) [
  | inr (h, e, f) ↦ inr (h, rw (e, finalizar_con_error) (ap (λ t. (termina, t)) f))
  | inl (q, s, e) ↦ inl (
    q,
    _,
    s,
    rw (e, finalizar_con_error)
        (ap (λ t. comenzar_a_ejecutar t i (query_en m q).id_worker) (cierre cierra _ _)),
  )
]

-- What the client is told of each failure.
abbrev pub aviso : Falla → OpCode
aviso malformada = query_response_error_error_en_instruccion
aviso create = query_error_create
aviso truncate = query_error_truncate
aviso write_en_storage = query_error_write_en_storage
aviso read_en_storage = query_error_read_en_storage
aviso tag = query_error_tag
aviso commit = query_error_commit
aviso delete = query_error_delete

abbrev pub cierra_cliente : Falla → Bool
cierra_cliente malformada = true
cierra_cliente create = false
cierra_cliente truncate = false
cierra_cliente write_en_storage = false
cierra_cliente read_en_storage = false
cierra_cliente tag = false
cierra_cliente commit = false
cierra_cliente delete = false

abbrev pub aviso_archivo : FallaArchivo → OpCode
aviso_archivo modificar_commit = query_response_error_modificar_commit
aviso_archivo tamanio_escritura = query_response_error_tamanio_escritura_excedido
aviso_archivo tamanio_lectura = query_response_error_tamanio_lectura_excedido

-- For each failure that a worker reports with an instruction: if a query of the list of the workers
-- has the id, the first such query leaves the list and goes to EXIT, its client gets the code of the
-- failure with the instruction, only a malformed instruction closes the client's socket, and the
-- thread goes on with `comenzar_a_ejecutar` for the worker that ran it. Otherwise nothing changes and
-- the thread ends.
pub atender_falla-Termina :
    (f : Falla) (m : Master) (i : HacerConnect) (id : ℕ) (instruccion : Cadena)
    → Termina m i id
        (aviso f)
        (con_nulo instruccion ∷ [])
        (cierra_cliente f)
        (atender_falla f m i id instruccion)
unfolding atender_falla error_instruccion_malformada error_create error_truncate
    error_write_en_storage error_read_en_storage error_tag error_commit error_delete
atender_falla-Termina malformada m i id t = finalizar_con_error-Termina m i id _ _ _
atender_falla-Termina create m i id t = finalizar_con_error-Termina m i id _ _ _
atender_falla-Termina truncate m i id t = finalizar_con_error-Termina m i id _ _ _
atender_falla-Termina write_en_storage m i id t = finalizar_con_error-Termina m i id _ _ _
atender_falla-Termina read_en_storage m i id t = finalizar_con_error-Termina m i id _ _ _
atender_falla-Termina tag m i id t = finalizar_con_error-Termina m i id _ _ _
atender_falla-Termina commit m i id t = finalizar_con_error-Termina m i id _ _ _
atender_falla-Termina delete m i id t = finalizar_con_error-Termina m i id _ _ _

-- For each failure that a worker reports with a file and a tag: if a query of the list of the workers
-- has the id, the first such query leaves the list and goes to EXIT, its client gets the code of the
-- failure with the file and the tag and is closed, and the thread goes on with `comenzar_a_ejecutar`
-- for the worker that ran it. Otherwise nothing changes and the thread ends.
pub atender_falla_archivo-Termina :
    (f : FallaArchivo) (m : Master) (i : HacerConnect) (id : ℕ) (file t : Cadena)
    → Termina m i id
        (aviso_archivo f)
        (con_nulo file ∷ con_nulo t ∷ [])
        true
        (atender_falla_archivo f m i id file t)
unfolding atender_falla_archivo error_modificar_commit error_tamanio_escritura error_tamanio_lectura
atender_falla_archivo-Termina modificar_commit m i id file t =
    finalizar_con_error-Termina m i id _ _ _
atender_falla_archivo-Termina tamanio_escritura m i id file t =
    finalizar_con_error-Termina m i id _ _ _
atender_falla_archivo-Termina tamanio_lectura m i id file t =
    finalizar_con_error-Termina m i id _ _ _

-- At a WORKER_QUERY_END, if a query of the list of the workers has the id, the first such query leaves
-- the list and goes to EXIT, its client gets the end of the query and stays open, and the thread goes
-- on with `comenzar_a_ejecutar` for the worker that ran it. Otherwise nothing changes and the thread ends.
pub query_end-Termina :
    (m : Master) (i : HacerConnect) (id : ℕ)
    → Termina m i id query_response_end
        (con_nulo (codes "Finalizacion Hardcodeada") ∷ [])
        false
        (query_end m i id)
unfolding query_end query_completado_con_exito eliminar_en_worker
query_end-Termina m i id = elim (eliminar_en_worker-Encuentra m id) [
  | inr (h, e, f) ↦ inr (h, rw (e, query_end) (ap (λ t. (termina, t)) f))
  | inl (q, s, e) ↦ inl (q, _, s, rw (e, query_end) refl)
]

-- The master with the query out of the list of the workers and in READY at the end of the queue, at
-- the program counter, and one more unit on the semaphore of the queue.
abbrev pub reencolada : Master → ℕ → List ℕ → ℕ → Master
reencolada m q resto pc = record m {
  queries = set m.queries q (record (query_en m q) {
    estado = ready;
    program_counter = pc;
    timer_query =
        if es_prioridades m then (query_en m q).timer_query + 1 else (query_en m q).timer_query;
  });
  cola_queries = m.cola_queries ++ q ∷ [];
  query_en_worker = resto;
  sem_queries = m.sem_queries + 1;
}

-- At a WORKER_PC_UPDATE, if a query of the list of the workers has the id, the first such query leaves
-- the list and waits in READY at the end of the queue with the program counter of the packet, its
-- aging woken up under PRIORIDADES; otherwise nothing changes. In both cases the worker of the
-- connection goes on with `comenzar_a_ejecutar`.
pub pc_update-Reencola :
    (m : Master) (i : HacerConnect) (id pc : ℕ)
    → ((q : ℕ) × (resto : List ℕ) × SacaPorId m id m.query_en_worker q resto
        × (pc_update m i id pc ≡ comenzar_a_ejecutar (reencolada m q resto pc) i i.id))
      ⊎ (All (λ a. ¬ LlevaId m id a) m.query_en_worker
          × (pc_update m i id pc ≡ comenzar_a_ejecutar m i i.id))
unfolding pc_update reencolar eliminar_en_worker
pc_update-Reencola m i id pc = elim (eliminar_en_worker-Encuentra m id) [
  | inr (h, e, f) ↦ inr (h, rw (e, pc_update) (ap (λ t. comenzar_a_ejecutar t i i.id) f))
  | inl (q, s, e) ↦ inl (q, _, s, rw (e, pc_update) refl)
]
