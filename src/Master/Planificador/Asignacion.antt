-- ===== src/Master/Planificador/Asignacion.antt =====
-- master/src/master.c, `comenzar_a_ejecutar`: which query a worker gets, and when it waits.
use tp_2025_2c_kernel_panic.Prelude.{
  ℕ, zero, suc, ◌-◌, ◌≡◌, ◌⊎◌, inl, inr, refl, sym, ap, ◌∙◌, List, [], ◌∷◌, Option, none, some,
  true, false, Bool-cases, Saca, length, arith, subst,
}
use tp_2025_2c_kernel_panic.Master.Estado.{HacerConnect, Master, worker_en, es_fifo}
use tp_2025_2c_kernel_panic.Master.Listas.{obtener_menor_prioridad, obtener_por_id_worker}
use tp_2025_2c_kernel_panic.Master.Listas.MenorPrioridad.{
  PrimeraMenor, obtener_menor_prioridad-PrimeraMenor,
}
use tp_2025_2c_kernel_panic.Master.Planificador.{
  Hilo, atiende, espera, primera, tomar_query, asignar_query, comenzar_desde, comenzar_a_ejecutar,
}

-- The order of the algorithm: under FIFO the query is the first of the queue, and otherwise the
-- first of those with the least priority number.
abbrev pub Orden : Master → ℕ → List ℕ → Type 0
Orden m q resto =
    ((es_fifo m ≡ true) × (m.cola_queries ≡ q ∷ resto))
    ⊎ ((es_fifo m ≡ false) × PrimeraMenor m.queries m.cola_queries q resto)

pub Orden-Saca :
    (m : Master) (q : ℕ) (resto : List ℕ) → Orden m q resto → Saca m.cola_queries q resto
Orden-Saca m q resto (inl (e, f)) = ([], resto, f, refl)
Orden-Saca m q resto (inr (e, (a, b, f, g, ha, hb))) = (a, b, f, g)

abbrev Toma : Master → Option ℕ × Master → Type 0
Toma m r =
    ((m.cola_queries ≡ []) × (r ≡ (none, m)))
    ⊎ ((q : ℕ) × (resto : List ℕ) × Orden m q resto
        × (r ≡ (some q, record m { cola_queries = resto })))

con_cola : Master → List ℕ → Master
con_cola m cola = record m { cola_queries = cola }

Toma-primera :
    (m : Master) (cola : List ℕ)
    → es_fifo m ≡ true
    → m.cola_queries ≡ cola
    → Toma m ((primera cola).0, record m { cola_queries = (primera cola).1 })
unfolding primera con_cola
Toma-primera m [] f e = inl (e, ap (λ c. (none, con_cola m c)) (sym e))
Toma-primera m (q ∷ qs) f e = inr (q, qs, inl (f, e), refl)

Toma-menor :
    (m : Master)
    → es_fifo m ≡ false
    → let r = obtener_menor_prioridad m.queries m.cola_queries in
      Toma m (r.0, record m { cola_queries = r.1 })
unfolding con_cola
Toma-menor m f = elim (obtener_menor_prioridad-PrimeraMenor m.queries m.cola_queries) [
  | inl (e, g, h) ↦ inl (e, λ i. (g i, con_cola m ((h ∙ sym e) i)))
  | inr (q, g, s) ↦ inr (
    q,
    _,
    inr (f, s),
    λ i. (g i, con_cola m (obtener_menor_prioridad m.queries m.cola_queries).1),
  )
]

tomar_query-fifo :
    (m : Master)
    → es_fifo m ≡ true
    → tomar_query m
      ≡ ((primera m.cola_queries).0, record m { cola_queries = (primera m.cola_queries).1 })
unfolding tomar_query
tomar_query-fifo m f = rw (f, tomar_query)

tomar_query-menor :
    (m : Master)
    → es_fifo m ≡ false
    → let r = obtener_menor_prioridad m.queries m.cola_queries in
      tomar_query m ≡ (r.0, record m { cola_queries = r.1 })
unfolding tomar_query
tomar_query-menor m f = rw (f, tomar_query)

pub tomar_query-Toma : (m : Master) → Toma m (tomar_query m)
tomar_query-Toma m = elim (Bool-cases (es_fifo m)) [
  | inl f ↦ subst (Toma m) (sym (tomar_query-fifo m f)) (Toma-primera m m.cola_queries f refl)
  | inr f ↦ subst (Toma m) (sym (tomar_query-menor m f)) (Toma-menor m f)
]

-- The worker of the connection is in the list and was not marked as gone.
abbrev pub Vivo : Master → HacerConnect → Type 0
Vivo m informacion =
    (w : ℕ) × (obtener_por_id_worker m.workers m.lista_workers informacion.id ≡ some w)
    × ((worker_en m w).desconection ≡ false)

con_sem : Master → ℕ → Master
con_sem m n = record m { sem_queries = n }

comenzar_desde-Vivo :
    (n : ℕ) (m : Master) (informacion : HacerConnect) (id_worker : ℕ)
    → Vivo m informacion
    → let s = record m { sem_queries = n } in
      (q : ℕ) (resto : List ℕ)
      → Orden m q resto
      → tomar_query s ≡ (some q, record s { cola_queries = resto })
      → comenzar_desde (suc n) m informacion id_worker
        ≡ (atiende, asignar_query (record s { cola_queries = resto }) informacion id_worker q)
unfolding comenzar_desde
comenzar_desde-Vivo n m informacion id_worker (w, e, f) q resto o t =
    rw (e, f, t, comenzar_desde)
      (ap (λ (r : Option ℕ × Master). (atiende, asignar_query r.1 informacion id_worker q)) t)

nil_of_length : (xs : List ℕ) → length xs ≡ 0 → xs ≡ []
nil_of_length [] h = refl
nil_of_length (x ∷ xs) h = absurd (omega arith)

con_query_tomada : Master → List ℕ → ℕ → Master
con_query_tomada m resto k = record m { cola_queries = resto; sem_queries = k }

-- When the semaphore counts the queue, `comenzar_a_ejecutar` for a worker that is there waits exactly
-- when the queue is empty, and then changes nothing. Otherwise it takes one unit of the semaphore
-- and one query, the first of the queue under FIFO and else the first of those with the least
-- priority number, and assigns it to the worker.
pub comenzar_a_ejecutar-Orden :
    (m : Master) (informacion : HacerConnect) (id_worker : ℕ)
    → m.sem_queries ≡ length m.cola_queries
    → Vivo m informacion
    → ((m.cola_queries ≡ []) × (comenzar_a_ejecutar m informacion id_worker ≡ (espera, m)))
      ⊎ ((q : ℕ) × (resto : List ℕ) × Orden m q resto
          × (comenzar_a_ejecutar m informacion id_worker ≡ (
            atiende,
            asignar_query
                (record m { cola_queries = resto; sem_queries = m.sem_queries - 1 })
                informacion
                id_worker
                q,
          )))
unfolding comenzar_a_ejecutar comenzar_desde con_sem con_query_tomada
comenzar_a_ejecutar-Orden m informacion id_worker sem vivo = go m.sem_queries refl
  where
    desde : ℕ → Hilo × Master
    desde k = comenzar_desde k m informacion id_worker

    asignada : List ℕ → ℕ → ℕ → Hilo × Master
    asignada resto q k =
        (atiende, asignar_query (con_query_tomada m resto k) informacion id_worker q)

    go :
        (n : ℕ)
        → m.sem_queries ≡ n
        → ((m.cola_queries ≡ []) × (comenzar_a_ejecutar m informacion id_worker ≡ (espera, m)))
          ⊎ ((q : ℕ) × (resto : List ℕ) × Orden m q resto
              × (comenzar_a_ejecutar m informacion id_worker
                  ≡ asignada resto q (m.sem_queries - 1)))
    go zero e = inl (
      nil_of_length m.cola_queries (sym sem ∙ e),
      ap desde e ∙ ap (λ k. (espera, con_sem m k)) (sym e),
    )
    go (suc n) e = elim (tomar_query-Toma (record m { sem_queries = n })) [
      | inl (f, _) ↦ absurd (omega (arith, ap length f, sem, e))
      | inr (q, resto, o, t) ↦ inr (
        q,
        resto,
        o,
        ap desde e
            ∙ (comenzar_desde-Vivo n m informacion id_worker vivo q resto o t
                ∙ ap (asignada resto q) (let k : n ≡ m.sem_queries - 1 = omega (arith, e) in k)),
      )
    ]
