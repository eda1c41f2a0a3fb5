-- ===== src/Master/Planificador/Desalojo.antt =====
-- master/src/master.c, `chequeador_desalojo` and `realizar_desalojo`: when a running query is
-- evicted, and which.
use tp_2025_2c_kernel_panic.Prelude.{
  ℕ, ◌≡◌, ◌⊎◌, inl, inr, refl, List, [], ◌∷◌, Option, none, some, ◌&&◌, ℤ, ◌<ℤ◌, ◌≤ℤ◌, lt_int,
  ge_int, eq_size, length, All, Esta, Bool-cases, Option-cases, if◌then◌else◌, pos,
}
use tp_2025_2c_kernel_panic.Utils.Protocolo.{OpCode, worker_desalojo}
use tp_2025_2c_kernel_panic.Master.Estado.{Envio, Master, query_en}
use tp_2025_2c_kernel_panic.Master.Listas.{prioridad_en, obtener_por_id_worker}
use tp_2025_2c_kernel_panic.Master.Planificador.{
  Maximo, max_prioridad, realizar_desalojo, chequear_lista, chequeador_desalojo,
}

-- A result that differs from the state in what was sent only, or none.
abbrev pub SoloEnvia : Master → Option Master → Type 0
SoloEnvia m none = Unit
SoloEnvia m (some u) = (e : List Envio) × (u ≡ record m { enviados = e })

pub realizar_desalojo-SoloEnvia :
    (m : Master) (id_worker : ℕ) (cod_op : OpCode)
    → SoloEnvia m (realizar_desalojo m id_worker cod_op)
unfolding realizar_desalojo
realizar_desalojo-SoloEnvia m id_worker cod_op =
    elim (Option-cases (obtener_por_id_worker m.workers m.lista_workers id_worker)) [
      | inl e ↦ rw (e, realizar_desalojo) tt
      | inr (w, e) ↦ rw (e, realizar_desalojo) (_, refl)
    ]

module _ (list_get_maximum : Maximo) where
  chequear_lista-SoloEnvia :
      (m : Master) (prioridad : ℤ) (lista : List ℕ)
      → SoloEnvia m (chequear_lista list_get_maximum m prioridad lista)
  unfolding chequear_lista
  chequear_lista-SoloEnvia m prioridad [] = (m.enviados, refl)
  chequear_lista-SoloEnvia m prioridad (q ∷ qs) =
      let mayor = query_en m (list_get_maximum (max_prioridad m.queries) (q ∷ qs)) in
      elim (Bool-cases
        (eq_size (length (q ∷ qs)) m.cantidad_workers && lt_int prioridad mayor.prioridad)) [
          | inl b ↦ rw b (realizar_desalojo-SoloEnvia m mayor.id_worker worker_desalojo)
          | inr b ↦ rw b (m.enviados, refl)
        ]

  pub chequeador_desalojo-SoloEnvia :
      (m : Master) (prioridad : ℤ) → SoloEnvia m (chequeador_desalojo list_get_maximum m prioridad)
  unfolding chequeador_desalojo
  chequeador_desalojo-SoloEnvia m prioridad = chequear_lista-SoloEnvia m prioridad m.query_en_worker

  -- What the documentation of `list_get_maximum` promises, for a comparator that answers the one of
  -- the greater key: an element of the list that no other exceeds.
  abbrev pub DaElMayor : Type 0
  DaElMayor =
      (clave : ℕ → ℤ) (q : ℕ) (qs : List ℕ)
      → let mayor =
          list_get_maximum (λ a b. if ge_int (clave a) (clave b) then a else b) (q ∷ qs) in
        Esta mayor (q ∷ qs) × All (λ a. clave a ≤ℤ clave mayor) (q ∷ qs)

  module _ (da_el_mayor : DaElMayor) where
    -- The running query of the greatest priority number, if any query runs.
    abbrev pub Peor : Master → ℕ → Type 0
    Peor m q =
        Esta q m.query_en_worker
        × All (λ a. prioridad_en m.queries a ≤ℤ prioridad_en m.queries q) m.query_en_worker

    -- Every worker runs a query, and a query of the priority number goes before `q`.
    abbrev pub Conviene : Master → ℤ → ℕ → Type 0
    Conviene m prioridad q =
        (m.cantidad_workers ≡ pos (length m.query_en_worker))
        × (prioridad <ℤ prioridad_en m.queries q)

    abbrev DecideEn : Master → ℤ → List ℕ → Option Master → Type 0
    DecideEn m prioridad lista r =
        ((lista ≡ []) × (r ≡ some m))
        ⊎ ((q : ℕ) × Esta q lista
            × All (λ a. prioridad_en m.queries a ≤ℤ prioridad_en m.queries q) lista
            × ((m.cantidad_workers ≡ pos (length lista))
                  × (prioridad <ℤ prioridad_en m.queries q)
                  × (r ≡ realizar_desalojo m (query_en m q).id_worker worker_desalojo)
                ⊎ ((¬ (
                      (m.cantidad_workers ≡ pos (length lista))
                      × (prioridad <ℤ prioridad_en m.queries q)))
                    × (r ≡ some m))))
