-- ===== src/Master/Queries/Envejecimiento.antt =====
-- master/src/master.c, `atender_timer_query`: what a round of the aging does to the priority.
use tp_2025_2c_kernel_panic.Prelude.{
  ℕ, zero, suc, ◌<◌, ◌≡◌, ◌≢◌, ◌⊎◌, inl, inr, refl, sym, ap, ◌∙◌, List, [], ◌∷◌, Option, none, some,
  true, false, Bool-cases, ℤ, pos, negsuc, ◌<ℤ◌, ◌≤ℤ◌, lt_int, decrement, increment, length, set,
  get_or, get_or-set_self, arith, ◌==◌,
}
use tp_2025_2c_kernel_panic.Master.Estado.{
  Estado, ready, running, exit, Query, Master, Envio, query_en, query_vacia, con_query,
}
use tp_2025_2c_kernel_panic.Master.Planificador.{Maximo, chequeador_desalojo}
use tp_2025_2c_kernel_panic.Master.Planificador.Desalojo.{SoloEnvia, chequeador_desalojo-SoloEnvia}
use tp_2025_2c_kernel_panic.Master.Queries.{
  Timer, duerme, es_ready, envejece, siguiente_timer, ronda_timer,
}

-- The query is alive, waits in READY, has a priority number that can still go down, and the aging is on.
abbrev pub Envejece : Master → ℕ → Type 0
Envejece m q =
    ((query_en m q).alive ≡ true)
    × ((query_en m q).estado ≡ ready)
    × (pos 0 <ℤ (query_en m q).prioridad)
    × (m.tiempo_aging ≢ 0)

-- The master after a round that lowers the priority: only the priority of the query, by one and to 0 at
-- least, and the packets sent may differ.
abbrev pub Baja : Master → ℕ → Master → Type 0
Baja m q t =
    (p : ℤ) × (e : List Envio) × (increment p ≡ (query_en m q).prioridad)
    × (pos 0 ≤ℤ p)
    × (t ≡ record m {
      queries = set m.queries q (record (query_en m q) { prioridad = p });
      enviados = e;
    })

es_ready-true : (s : Estado) → es_ready s ≡ true → s ≡ ready
es_ready-true ready h = refl
es_ready-true running h = cc
es_ready-true exit h = cc

es_ready-ready : (s : Estado) → s ≡ ready → es_ready s ≡ true
es_ready-ready s e = ap es_ready e

vivo-dentro :
    (queries : List Query) (q : ℕ)
    → (get_or queries q query_vacia).alive ≡ true
    → q < length queries
vivo-dentro [] q h = cc
vivo-dentro (x ∷ xs) zero h = omega arith
vivo-dentro (x ∷ xs) (suc q) h = omega (arith, vivo-dentro xs q h)

decrement-positivo : (p : ℤ) → pos 0 <ℤ p → (increment (decrement p) ≡ p) × (pos 0 ≤ℤ decrement p)
decrement-positivo (pos zero) h = absurd (omega arith)
decrement-positivo (pos (suc n)) h = (refl, omega arith)
decrement-positivo (negsuc n) h = absurd (omega arith)

module _ (list_get_maximum : Maximo) where
  envejece-Envejece :
      (m : Master) (q : ℕ)
      → ((envejece list_get_maximum m q ≡ true) × Envejece m q)
        ⊎ ((envejece list_get_maximum m q ≡ false) × (¬ Envejece m q))
  envejece-Envejece m q = elim (Bool-cases (query_en m q).alive) [
    | inr a ↦ inr (rw a refl, λ h. let z = h.0 in cc)
    | inl a ↦ elim (Bool-cases (es_ready (query_en m q).estado)) [
      | inr b ↦ inr (rw (a, b) refl, λ h. let z = es_ready-ready _ h.1 in cc)
      | inl b ↦ elim (Bool-cases (lt_int (pos 0) (query_en m q).prioridad)) [
        | inr c ↦ inr (rw (a, b, c) refl, λ h. let z = h.2 in ground arith)
        | inl c ↦ elim (Bool-cases (m.tiempo_aging == 0)) [
          | inl d ↦ inr (rw (a, b, c, d) refl, λ h. let z = h.3 in ground arith)
          | inr d ↦ inl (rw (a, b, c, d) refl, (a, es_ready-true _ b, ground arith, ground arith))
        ]
      ]
    ]
  ]

  siguiente-duerme :
      (t : Master) (q : ℕ)
      → (query_en t q).alive ≡ true
      → (query_en t q).estado ≡ ready
      → t.tiempo_aging ≢ 0
      → siguiente_timer list_get_maximum t q ≡ duerme
  siguiente-duerme t q a b c =
      let d : (t.tiempo_aging == 0) ≡ false = ground arith in rw (a, b, d) refl

  baja :
      (m : Master) (q : ℕ) (r : Option Master)
      → Envejece m q
      → let p = decrement (query_en m q).prioridad in
        SoloEnvia (con_query m q (record (query_en m q) { prioridad = p })) r
        → let s : Option (Timer × Master) = elim r [
          | none ↦ none
          | some t ↦ some (siguiente_timer list_get_maximum t q, t)
        ] in
          ((r ≡ none) × (s ≡ none))
          ⊎ ((t : Master) × (r ≡ some t) × Baja m q t × (s ≡ some (duerme, t)))
  baja m q none h e = inl (refl, refl)
  baja m q (some t) h (e, f) =
      let query = query_en m q in
      let p = decrement query.prioridad in
      let (mas, positivo) = decrement-positivo query.prioridad h.2 in
      let nueva : query_en t q ≡ record query { prioridad = p } =
        ap (λ (x : Master). query_en x q) f
        ∙ get_or-set_self m.queries q _ query_vacia (vivo-dentro m.queries q h.0) in
      inr (
        t,
        refl,
        (p, e, mas, positivo, f),
        ap (λ k. some (k, t))
            (siguiente-duerme t q (ap (λ (x : Query). x.alive) nueva ∙ h.0)
              (ap (λ (x : Query). x.estado) nueva ∙ h.1)
              (λ z. h.3 (ap (λ (x : Master). x.tiempo_aging) (sym f) ∙ z))),
      )

  -- What `chequeador_desalojo` answers when it is asked with the priority number lowered by one.
  abbrev pub desalojo_pedido : Master → ℕ → Option Master
  desalojo_pedido m q =
      let p = decrement (query_en m q).prioridad in
      chequeador_desalojo list_get_maximum (con_query m q (record (query_en m q) { prioridad = p }))
        p

  -- A round of the aging thread acts exactly on a query that is alive, in READY and above 0, with the
  -- aging on. It goes through NULL exactly when the `chequeador_desalojo` that it calls with the
  -- lowered number does. Else it lowers the priority number by one, never below 0, changes nothing
  -- else but the packets sent, and the thread sleeps again. In every other case it changes nothing.
  pub ronda_timer-Baja :
      (m : Master) (q : ℕ)
      → let r = ronda_timer list_get_maximum m q in
        (Envejece m q
          × (((desalojo_pedido m q ≡ none) × (r ≡ none))
              ⊎ ((t : Master) × (desalojo_pedido m q ≡ some t)
                  × Baja m q t
                  × (r ≡ some (duerme, t)))))
        ⊎ ((¬ Envejece m q) × (r ≡ some (siguiente_timer list_get_maximum m q, m)))
  unfolding ronda_timer
  ronda_timer-Baja m q = elim (envejece-Envejece m q) [
    | inr (b, h) ↦ inr (h, rw b refl)
    | inl (b, h) ↦
        let query = query_en m q in
        let p = decrement query.prioridad in
        let u = con_query m q (record query { prioridad = p }) in
        inl (h, rw b (baja m q _ h (chequeador_desalojo-SoloEnvia list_get_maximum u p)))
  ]
