-- ===== src/Master/Workers/Desconexion.antt =====
-- master/src/master.c, `atender_desconexion_worker`: what becomes of a worker that goes, and of its query.
use tp_2025_2c_kernel_panic.Prelude.{
  ℕ, ◌≡◌, ◌⊎◌, inl, inr, refl, List, [], ◌∷◌, ◌++◌, true, false, decrement, Saca, All, All-map, set,
  get_or, ==_iff,
}
use tp_2025_2c_kernel_panic.Utils.Protocolo.{query_response_error_worker_desconectado}
use tp_2025_2c_kernel_panic.Utils.Paquete.Enteros.{bytes_de_int}
use tp_2025_2c_kernel_panic.Master.Estado.{exit, Master, query_en, query_vacia, worker_en}
use tp_2025_2c_kernel_panic.Master.Listas.{obtener_query_por_id_worker, coincide_id_worker}
use tp_2025_2c_kernel_panic.Master.Listas.Busqueda.{list_find-Encuentra}
use tp_2025_2c_kernel_panic.Master.Workers.{atender_desconexion_worker}

-- The query was assigned to a worker with the id.
abbrev pub AsignadaA : Master → ℕ → ℕ → Type 0
AsignadaA m id a = (get_or m.queries a query_vacia).id_worker ≡ id

-- The worker marked as gone, one worker less, and its two sockets closed.
abbrev pub marcado : Master → ℕ → Master
marcado m w = record m {
  workers = set m.workers w (record (worker_en m w) { desconection = true });
  cantidad_workers = decrement m.cantidad_workers;
  cerrados = m.cerrados ++ (worker_en m w).socket_interruption ∷ (worker_en m w).socket ∷ [];
}

-- The query in EXIT and its client told of the worker.
abbrev pub avisada : Master → ℕ → ℕ → Master
avisada m q id_worker = record m {
  queries = set m.queries q (record (query_en m q) { estado = exit });
  enviados =
      m.enviados
      ++ record {
        socket = (query_en m q).socket;
        codigo = query_response_error_worker_desconectado;
        valores = bytes_de_int id_worker ∷ [];
      }
        ∷ [];
}

-- When a worker goes, it is marked, it does not count any more and its two sockets are closed. If a
-- query of the list of the workers is assigned to its id, one such query goes to EXIT and its client is
-- told; the list itself is not changed, so the query that ended stays in it. If there is none, nothing
-- else happens.
pub atender_desconexion_worker-Marca :
    (m : Master) (w : ℕ)
    → let id = (worker_en m w).id in
      ((q : ℕ) × (resto : List ℕ) × Saca m.query_en_worker q resto
        × AsignadaA m id q
        × (atender_desconexion_worker m w ≡ avisada (marcado m w) q id)
        × ((atender_desconexion_worker m w).query_en_worker ≡ m.query_en_worker))
      ⊎ (All (λ a. ¬ AsignadaA m id a) m.query_en_worker
          × (atender_desconexion_worker m w ≡ marcado m w))
unfolding atender_desconexion_worker obtener_query_por_id_worker
atender_desconexion_worker-Marca m w =
    let id = (worker_en m w).id in
    elim (list_find-Encuentra (coincide_id_worker m.queries id) m.query_en_worker) [
      | inl (e, _, h) ↦ inr (
        All-map (λ a. coincide_id_worker m.queries id a ≡ false) (λ a. ¬ AsignadaA m id a)
            (λ a k p. let z = (==_iff _ _).1 p in cc) m.query_en_worker h,
        rw (e, atender_desconexion_worker) refl,
      )
      | inr (q, e, p, s) ↦ inl (
        q,
        _,
        s,
        (==_iff _ _).0 p,
        rw (e, atender_desconexion_worker) refl,
        rw (e, atender_desconexion_worker) refl,
      )
    ]
