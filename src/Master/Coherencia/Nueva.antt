-- ===== src/Master/Coherencia/Nueva.antt =====
-- master/src/master.c: a new query joins the queue.
use tp_2025_2c_kernel_panic.Prelude.{
  ℕ, ◌+◌, ◌<◌, All-map, dec_lt, ◌≢◌, ◌≡◌, ◌⊎◌, inl, inr, sym, ap, ◌∙◌, List, [], ◌∷◌, ◌++◌, All,
  All-append, Distintos-snoc, Esta-append_left, Esta-append_right, get_or, get_or-append_left,
  get_or-append_length, length-append, length, arith, subst,
}
use tp_2025_2c_kernel_panic.Master.Estado.{Estado, ready, Query, query_vacia}
use tp_2025_2c_kernel_panic.Master.Coherencia.{estado_en, Lista, Coherente, EsLista, NoEsLista}

module _ (queries : List Query) (e : Query) where
  al_final :
      (a : ℕ)
      → a < length (queries ++ e ∷ [])
      → ((a < length queries)
          × (get_or (queries ++ e ∷ []) a query_vacia ≡ get_or queries a query_vacia))
        ⊎ ((a ≡ length queries) × (get_or (queries ++ e ∷ []) a query_vacia ≡ e))
  al_final a h = elim (dec_lt a (length queries)) [
    | yes p ↦ inl (p, get_or-append_left queries e a query_vacia p)
    | no p ↦
        let f : a ≡ length queries = omega (arith, length-append queries (e ∷ [])) in
        inr (f, rw f (get_or-append_length queries e query_vacia))
  ]

  All-EnEstado-append :
      (P : Estado → Type 0) (xs : List ℕ)
      → All (λ a. (a < length queries) × P (estado_en queries a)) xs
      → All (λ a. (a < length (queries ++ e ∷ [])) × P (estado_en (queries ++ e ∷ []) a)) xs
  All-EnEstado-append P xs h =
      All-map (λ a. (a < length queries) × P (estado_en queries a))
        (λ a. (a < length (queries ++ e ∷ [])) × P (estado_en (queries ++ e ∷ []) a))
        (λ a (k, p). (
          omega (arith, length-append queries (e ∷ [])),
          subst P
              (ap (λ (x : Query). x.estado) (sym (get_or-append_left queries e a query_vacia k))) p,
        ))
        xs h

-- A new query, with the next id, joins the heap and the queue.
pub entra_nueva :
    {queries : List Query} {cola en_worker : List ℕ} {sem id_query : ℕ} (e : Query)
    → e.id ≡ id_query
    → e.estado ≡ ready
    → Coherente queries cola en_worker sem id_query
    → Coherente (queries ++ e ∷ []) (cola ++ length queries ∷ []) en_worker (sem + 1) (id_query + 1)
entra_nueva {queries} {cola} {en_worker} e mismo nueva c = record {
  ids = λ a h. elim (al_final queries e a h) [
    | inl (k, f) ↦ ap (λ (x : Query). x.id) f ∙ c.ids a k
    | inr (k, f) ↦ ap (λ (x : Query). x.id) f ∙ (mismo ∙ (c.siguiente ∙ sym k))
  ];
  siguiente = omega (arith, c.siguiente, length-append queries (e ∷ []));
  listas =
      All-append (Lista (queries ++ e ∷ [])) cola (length queries ∷ [])
        (All-EnEstado-append queries e EsLista cola c.listas)
        (
          (
            omega (arith, length-append queries (e ∷ [])),
            ap (λ (x : Query). x.estado) (get_or-append_length queries e query_vacia) ∙ nueva,
          ),
          tt,
        );
  completa = λ a h k. elim (al_final queries e a h) [
    | inl (l, f) ↦
        Esta-append_left a cola (length queries ∷ [])
          (c.completa a l (ap (λ (x : Query). x.estado) (sym f) ∙ k))
    | inr (l, f) ↦ Esta-append_right a cola (length queries ∷ []) (inl l)
  ];
  no_listas = All-EnEstado-append queries e NoEsLista en_worker c.no_listas;
  cola_distinta =
      Distintos-snoc cola (length queries) c.cola_distinta (
        All-map (Lista queries) (λ a. a ≢ length queries) (λ a k. omega (arith, k.0)) cola
          c.listas);
  en_worker_distinta = c.en_worker_distinta;
  semaforo = omega (arith, c.semaforo, length-append cola (length queries ∷ []));
}
