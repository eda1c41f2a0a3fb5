-- ===== src/Master/Listas.antt =====
-- master/src/master.c: the searches in the lists of queries and of workers.
pub mod Busqueda
pub mod MenorPrioridad
use tp_2025_2c_kernel_panic.Prelude.{
  ℕ, suc, ◌+◌, ℤ, lt_int, List, [], ◌∷◌, Option, none, some, Bool, get_or, get_elem?, remove_at,
  if◌then◌else◌, ◌==◌,
}
use tp_2025_2c_kernel_panic.Master.Estado.{Query, Worker, query_vacia, worker_vacio}

-- `list_find`: the first element that passes.
unfoldable pub list_find : (ℕ → Bool) → List ℕ → Option ℕ
list_find prueba [] = none
list_find prueba (q ∷ qs) = if prueba q then some q else list_find prueba qs

-- What `list_remove_by_condition` leaves: the list without that element.
unfoldable pub list_remove_by_condition : (ℕ → Bool) → List ℕ → List ℕ
list_remove_by_condition prueba [] = []
list_remove_by_condition prueba (q ∷ qs) =
    if prueba q then qs else q ∷ list_remove_by_condition prueba qs

abbrev pub coincide_id : List Query → ℕ → ℕ → Bool
coincide_id queries id q = (get_or queries q query_vacia).id == id

abbrev pub coincide_id_worker : List Query → ℕ → ℕ → Bool
coincide_id_worker queries id q = (get_or queries q query_vacia).id_worker == id

abbrev pub coincide_worker : List Worker → ℕ → ℕ → Bool
coincide_worker workers id w = (get_or workers w worker_vacio).id == id

-- `obtener_por_id`
unfoldable pub obtener_por_id : List Query → List ℕ → ℕ → Option ℕ
unfolding list_find
obtener_por_id queries lista id = list_find (coincide_id queries id) lista

-- `eliminar_por_id`: what it returns, and the list.
unfoldable pub eliminar_por_id : List Query → List ℕ → ℕ → Option ℕ × List ℕ
unfolding list_find list_remove_by_condition
eliminar_por_id queries lista id = (
  list_find (coincide_id queries id) lista,
  list_remove_by_condition (coincide_id queries id) lista,
)

-- `obtener_query_por_id_worker`
unfoldable pub obtener_query_por_id_worker : List Query → List ℕ → ℕ → Option ℕ
unfolding list_find
obtener_query_por_id_worker queries lista id = list_find (coincide_id_worker queries id) lista

-- `obtener_por_id_worker`
unfoldable pub obtener_por_id_worker : List Worker → List ℕ → ℕ → Option ℕ
unfolding list_find
obtener_por_id_worker workers lista id = list_find (coincide_worker workers id) lista

-- `eliminar_worker_por_id`
unfoldable pub eliminar_worker_por_id : List Worker → List ℕ → ℕ → List ℕ
unfolding list_remove_by_condition
eliminar_worker_por_id workers lista id =
    list_remove_by_condition (coincide_worker workers id) lista

abbrev pub prioridad_en : List Query → ℕ → ℤ
prioridad_en queries q = (get_or queries q query_vacia).prioridad

-- The loop of `obtener_menor_prioridad` over the elements from position `i` on, with the best
-- one so far and its position.
unfoldable pub menor_desde : List Query → ℕ → List ℕ → ℕ → ℕ → ℕ × ℕ
menor_desde queries i [] min_query min_index = (min_query, min_index)
menor_desde queries i (actual ∷ resto) min_query min_index =
    let mejora = lt_int (prioridad_en queries actual) (prioridad_en queries min_query) in
    menor_desde queries (suc i) resto (if mejora then actual else min_query)
      (if mejora then i else min_index)

-- `obtener_menor_prioridad`: the element that `list_remove` takes out, and the list.
unfoldable pub obtener_menor_prioridad : List Query → List ℕ → Option ℕ × List ℕ
unfolding menor_desde
obtener_menor_prioridad queries [] = (none, [])
obtener_menor_prioridad queries (q ∷ qs) =
    let (_, min_index) = menor_desde queries 1 qs q 0 in
    (get_elem? (q ∷ qs) min_index, remove_at (q ∷ qs) min_index)
