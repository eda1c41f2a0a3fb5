-- ===== src/Master/Coherencia/Asignacion.antt =====
-- master/src/master.c, `comenzar_a_ejecutar`: what holds of the lists when a worker gets a query.
use tp_2025_2c_kernel_panic.Prelude.{
  ℕ, zero, suc, ◌-◌, ◌≡◌, ◌≢◌, inl, inr, refl, sym, ap, ◌∙◌, subst, List, none, some, true,
  Bool-cases, Option-cases, Saca, length-set, get_or-set_self, arith,
}
use tp_2025_2c_kernel_panic.Master.Estado.{
  ready, running, HacerConnect, Master, Query, query_en, query_vacia, worker_en,
}
use tp_2025_2c_kernel_panic.Master.Listas.{obtener_por_id_worker}
use tp_2025_2c_kernel_panic.Master.Planificador.{
  asignar_query, enviar_query_a_worker, comenzar_desde, comenzar_a_ejecutar,
}
use tp_2025_2c_kernel_panic.Master.Planificador.Asignacion.{Orden-Saca, comenzar_a_ejecutar-Orden}
use tp_2025_2c_kernel_panic.Master.Coherencia.{IsCoherente}
use tp_2025_2c_kernel_panic.Master.Coherencia.Movimientos.{sale_de_cola, entra_en_worker}

pub running≢ready : running ≢ ready
running≢ready e = cc

pub asignar_query-Coherente :
    (m : Master) (informacion : HacerConnect) (id_worker q : ℕ) (resto : List ℕ)
    → IsCoherente m
    → Saca m.cola_queries q resto
    → IsCoherente (
        asignar_query
          (record m { cola_queries = resto; sem_queries = m.sem_queries - 1 })
          informacion
          id_worker
          q)
unfolding asignar_query enviar_query_a_worker
asignar_query-Coherente m informacion id_worker q resto c s =
    let query = query_en m q in
    let nueva = record query { estado = running; id_worker = id_worker } in
    let (fuera, dentro, ajena) = sale_de_cola q nueva resto s refl running≢ready c in
    entra_en_worker q
      (
        omega (arith, dentro, length-set m.queries q nueva),
        λ e. running≢ready (
            ap (λ (x : Query). x.estado)
              (sym (get_or-set_self m.queries q nueva query_vacia dentro))
            ∙ e),
      )
      ajena fuera

con_sem : Master → ℕ → Master
con_sem m n = record m { sem_queries = n }

module _ (m : Master) (informacion : HacerConnect) (id_worker : ℕ) (c : IsCoherente m) where
  sin_worker :
      (n : ℕ)
      → m.sem_queries ≡ n
      → obtener_por_id_worker m.workers m.lista_workers informacion.id ≡ none
      → IsCoherente (comenzar_desde n m informacion id_worker).1
  unfolding comenzar_desde con_sem
  sin_worker zero e f = subst (λ k. IsCoherente (con_sem m k)) e c
  sin_worker (suc n) e f = rw (f, comenzar_desde) (subst (λ k. IsCoherente (con_sem m k)) e c)

  worker_ido :
      (n w : ℕ)
      → m.sem_queries ≡ n
      → obtener_por_id_worker m.workers m.lista_workers informacion.id ≡ some w
      → (worker_en m w).desconection ≡ true
      → IsCoherente (comenzar_desde n m informacion id_worker).1
  unfolding comenzar_desde con_sem
  worker_ido zero w e f g = subst (λ k. IsCoherente (con_sem m k)) e c
  worker_ido (suc n) w e f g =
      rw (f, g, comenzar_desde) (subst (λ k. IsCoherente (con_sem m k)) e c)

  -- Whatever `comenzar_a_ejecutar` does, wait, end or assign, the queue and the list stay coherent.
  pub comenzar_a_ejecutar-Coherente : IsCoherente (comenzar_a_ejecutar m informacion id_worker).1
  unfolding comenzar_a_ejecutar
  comenzar_a_ejecutar-Coherente =
      elim (Option-cases (obtener_por_id_worker m.workers m.lista_workers informacion.id)) [
        | inl f ↦ sin_worker m.sem_queries refl f
        | inr (w, f) ↦ elim (Bool-cases (worker_en m w).desconection) [
          | inl g ↦ worker_ido m.sem_queries w refl f g
          | inr g ↦ elim (comenzar_a_ejecutar-Orden m informacion id_worker c.semaforo (w, f, g)) [
            | inl (_, h) ↦ subst (λ r. IsCoherente r.1) (sym h) c
            | inr (q, resto, o, h) ↦
                subst (λ r. IsCoherente r.1) (sym h)
                  (asignar_query-Coherente m informacion id_worker q resto c
                    (Orden-Saca m q resto o))
          ]
        ]
      ]
