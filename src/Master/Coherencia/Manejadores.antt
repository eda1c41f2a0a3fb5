-- ===== src/Master/Coherencia/Manejadores.antt =====
-- master/src/master.c: the handlers of a worker's packets keep the queue and the list coherent.
use tp_2025_2c_kernel_panic.Prelude.{
  ℕ, ◌≡◌, ◌≢◌, ◌⊎◌, inl, inr, refl, sym, subst, List, Option, none, some, Bool, true, false,
  Option-cases, Cadena, All, ==_iff, if◌then◌else◌,
}
use tp_2025_2c_kernel_panic.Utils.Protocolo.{OpCode}
use tp_2025_2c_kernel_panic.Master.Estado.{ready, exit, HacerConnect, Master}
use tp_2025_2c_kernel_panic.Master.Listas.{eliminar_por_id, obtener_por_id, coincide_id}
use tp_2025_2c_kernel_panic.Master.Listas.Busqueda.{list_find-Encuentra}
use tp_2025_2c_kernel_panic.Master.Workers.{
  eliminar_en_worker, cerrar, con_estado_exit, query_completado_con_exito, query_end, read_result,
  reencolar, pc_update, query_desconectado, registrar_worker, worker_id,
}
use tp_2025_2c_kernel_panic.Master.Fallas.{finalizar_con_error}
use tp_2025_2c_kernel_panic.Master.Coherencia.{id_en, NoLista, IsCoherente, escribir_query}
use tp_2025_2c_kernel_panic.Master.Coherencia.Movimientos.{sale_de_worker, entra_en_cola}
use tp_2025_2c_kernel_panic.Master.Coherencia.Asignacion.{comenzar_a_ejecutar-Coherente}

pub exit≢ready : exit ≢ ready
exit≢ready e = cc

-- The query leaves the list, or the list stays as it was.
abbrev pub Eliminado : Master → ℕ → Option ℕ × Master → Type 0
Eliminado m id (hallada, s) =
    ((hallada ≡ none) × IsCoherente s)
    ⊎ ((q : ℕ) × (hallada ≡ some q)
        × (id_en m.queries q ≡ id)
        × IsCoherente s
        × NoLista s.queries q
        × All (λ a. a ≢ q) s.query_en_worker)

con_lista : Master → List ℕ → Master
con_lista m lista = record m { query_en_worker = lista }

pub eliminar_en_worker-Eliminado :
    (m : Master) (id : ℕ) → IsCoherente m → Eliminado m id (eliminar_en_worker m id)
unfolding eliminar_en_worker eliminar_por_id con_lista
eliminar_en_worker-Eliminado m id c =
    elim (list_find-Encuentra (coincide_id m.queries id) m.query_en_worker) [
      | inl (e, f, _) ↦ inl (e, subst (λ l. IsCoherente (con_lista m l)) (sym f) c)
      | inr (q, e, p, s) ↦
          let (fuera, ya, ajena) = sale_de_worker q _ s c in
          inr (q, e, (==_iff _ _).0 p, fuera, ya, ajena)
    ]

pub con_estado_exit-Coherente :
    (m : Master) (q : ℕ) → IsCoherente m → NoLista m.queries q → IsCoherente (con_estado_exit m q)
con_estado_exit-Coherente m q c ya =
    escribir_query q _ refl ((λ e. absurd (exit≢ready e)), (λ e. absurd (ya.1 e))) c

cerrar-Coherente :
    (b : Bool) (m : Master) (socket : ℕ)
    → IsCoherente m
    → IsCoherente (if b then cerrar m socket else m)
cerrar-Coherente true m socket c = c
cerrar-Coherente false m socket c = c

pub finalizar_con_error-Coherente :
    (m : Master) (i : HacerConnect) (id : ℕ) (codigo : OpCode) (textos : List Cadena)
    (cierra : Bool)
    → IsCoherente m
    → IsCoherente (finalizar_con_error m i id codigo textos cierra).1
unfolding finalizar_con_error
finalizar_con_error-Coherente m i id codigo textos cierra c =
    elim (eliminar_en_worker-Eliminado m id c) [
      | inl (e, s) ↦ rw (e, finalizar_con_error) s
      | inr (q, e, _, s, ya, _) ↦
          rw (e, finalizar_con_error)
            (comenzar_a_ejecutar-Coherente _ i _ (
              cerrar-Coherente cierra _ _
                (con_estado_exit-Coherente (eliminar_en_worker m id).1 q s ya)))
    ]

pub query_end-Coherente :
    (m : Master) (i : HacerConnect) (id : ℕ) → IsCoherente m → IsCoherente (query_end m i id).1
unfolding query_end query_completado_con_exito
query_end-Coherente m i id c = elim (eliminar_en_worker-Eliminado m id c) [
  | inl (e, s) ↦ rw (e, query_end) s
  | inr (q, e, _, s, ya, _) ↦
      rw (e, query_end)
        (comenzar_a_ejecutar-Coherente _ i _
          (con_estado_exit-Coherente (eliminar_en_worker m id).1 q s ya))
]

-- The requeued query was in the list of the workers, and is in READY at the end of the queue.
pub reencolar-Coherente :
    (m : Master) (q pc : ℕ)
    → IsCoherente m
    → NoLista m.queries q
    → All (λ a. a ≢ q) m.query_en_worker
    → IsCoherente (reencolar m q pc)
unfolding reencolar
reencolar-Coherente m q pc c ya ajena = entra_en_cola q _ ya ajena refl refl c

pub pc_update-Coherente :
    (m : Master) (i : HacerConnect) (id pc : ℕ)
    → IsCoherente m
    → IsCoherente (pc_update m i id pc).1
unfolding pc_update
pc_update-Coherente m i id pc c = elim (eliminar_en_worker-Eliminado m id c) [
  | inl (e, s) ↦ rw (e, pc_update) (comenzar_a_ejecutar-Coherente _ i i.id s)
  | inr (q, e, _, s, ya, ajena) ↦
      rw (e, pc_update)
        (comenzar_a_ejecutar-Coherente _ i i.id
          (reencolar-Coherente (eliminar_en_worker m id).1 q pc s ya ajena))
]

pub worker_id-Coherente :
    (m : Master) (i : HacerConnect) (w : ℕ) → IsCoherente m → IsCoherente (worker_id m i w).1
unfolding worker_id registrar_worker
worker_id-Coherente m i w c = comenzar_a_ejecutar-Coherente _ _ w c

-- A handler that may read through NULL: what holds of the state if it does not.
abbrev pub SiHay {ℓ} : {A : Type 0} → (A → Type ℓ) → Option A → Type ℓ
SiHay P none = Unit
SiHay P (some a) = P a

pub read_result-Coherente :
    (m : Master) (i : HacerConnect) (id : ℕ) (contenido file tag : Cadena) (pc : ℕ)
    → IsCoherente m
    → SiHay (λ r. IsCoherente r.1) (read_result m i id contenido file tag pc)
unfolding read_result
read_result-Coherente m i id contenido file tag pc c =
    elim (Option-cases (obtener_por_id m.queries m.query_en_worker id)) [
      | inl e ↦ rw (e, read_result) tt
      | inr (q, e) ↦ rw (e, read_result) (escribir_query q _ refl ((λ h. h), (λ h. h)) c)
    ]

pub query_desconectado-Coherente :
    (m : Master) (i : HacerConnect) (id : ℕ)
    → IsCoherente m
    → SiHay (λ r. IsCoherente r.1) (query_desconectado m i id)
unfolding query_desconectado
query_desconectado-Coherente m i id c = elim (eliminar_en_worker-Eliminado m id c) [
  | inl (e, s) ↦ rw (e, query_desconectado) tt
  | inr (q, e, _, s, ya, _) ↦
      rw (e, query_desconectado)
        (comenzar_a_ejecutar-Coherente _ i i.id
          (con_estado_exit-Coherente (eliminar_en_worker m id).1 q s ya))
]
