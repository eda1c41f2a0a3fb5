-- ===== src/Master/Coherencia/Movimientos.antt =====
-- master/src/master.c: a query that changes its list, and what holds of the lists afterwards.
use tp_2025_2c_kernel_panic.Prelude.{
  ℕ, ◌+◌, ◌-◌, ◌<◌, All-map, ◌≢◌, ◌≡◌, inl, inr, refl, sym, ap, ◌∙◌, List, [], ◌∷◌, ◌++◌, All,
  All-append, Distintos-snoc, Saca, Saca-All, Saca-Distintos, Saca-length, Saca-Esta, Esta-All,
  Esta-append_left, Esta-append_right, get_or-set_self, length-set, length-append, length, set,
  arith,
}
use tp_2025_2c_kernel_panic.Master.Estado.{ready, Query, query_vacia}
use tp_2025_2c_kernel_panic.Master.Coherencia.{
  id_en, Lista, NoLista, Coherente, tras_set, ids-set, EsLista, NoEsLista, completa-set,
  All-EnEstado-set,
}

module _ {queries : List Query} {cola en_worker : List ℕ} {sem id_query : ℕ} where
  -- A query leaves the queue, and is not in READY any more.
  pub sale_de_cola :
      (q : ℕ) (e : Query) (resto : List ℕ)
      → Saca cola q resto
      → e.id ≡ id_en queries q
      → e.estado ≢ ready
      → Coherente queries cola en_worker sem id_query
      → Coherente (set queries q e) resto en_worker (sem - 1) id_query
        × (q < length queries)
        × All (λ a. a ≢ q) en_worker
  sale_de_cola q e resto s mismo nueva c =
      let (lista, otras) = Saca-All (Lista queries) cola q resto s c.listas in
      let (ne, distinta) = Saca-Distintos cola q resto s c.cola_distinta in
      let ajena =
        All-map (NoLista queries) (λ a. a ≢ q) (λ a k p. k.1 (rw p lista.1)) en_worker
          c.no_listas in
      (
        record {
          ids = ids-set queries q e c.ids mismo;
          siguiente = c.siguiente ∙ sym (length-set queries q e);
          listas =
              All-EnEstado-set EsLista queries q e resto
                (λ a k p. absurd (Esta-All (λ b. b ≢ q) a resto ne k p)) otras;
          completa = λ a h k.
              let h' : a < length queries = omega (arith, length-set queries q e) in
              elim (tras_set queries q e a h') [
                | inl (p, f) ↦ absurd (nueva (ap (λ (x : Query). x.estado) (sym f) ∙ k))
                | inr (p, f) ↦
                    elim (Saca-Esta a cola q resto s
                      (c.completa a h' (ap (λ (x : Query). x.estado) (sym f) ∙ k))) [
                        | inl p' ↦ absurd (p p')
                        | inr m ↦ m
                      ]
              ];
          no_listas = All-EnEstado-set NoEsLista queries q e en_worker (λ a k p. nueva) c.no_listas;
          cola_distinta = distinta;
          en_worker_distinta = c.en_worker_distinta;
          semaforo = omega (arith, c.semaforo, Saca-length cola q resto s);
        },
        lista.0,
        ajena,
      )

  -- A query that is not in READY joins the list of the workers.
  pub entra_en_worker :
      (q : ℕ)
      → NoLista queries q
      → All (λ a. a ≢ q) en_worker
      → Coherente queries cola en_worker sem id_query
      → Coherente queries cola (en_worker ++ q ∷ []) sem id_query
  entra_en_worker q ya ajena c = record {
    ids = c.ids;
    siguiente = c.siguiente;
    listas = c.listas;
    completa = c.completa;
    no_listas = All-append (NoLista queries) en_worker (q ∷ []) c.no_listas (ya, tt);
    cola_distinta = c.cola_distinta;
    en_worker_distinta = Distintos-snoc en_worker q c.en_worker_distinta ajena;
    semaforo = c.semaforo;
  }

  -- A query leaves the list of the workers: it was not in READY, and is not in the list any more.
  pub sale_de_worker :
      (q : ℕ) (resto : List ℕ)
      → Saca en_worker q resto
      → Coherente queries cola en_worker sem id_query
      → Coherente queries cola resto sem id_query × NoLista queries q × All (λ a. a ≢ q) resto
  sale_de_worker q resto s c =
      let (ya, otras) = Saca-All (NoLista queries) en_worker q resto s c.no_listas in
      let (ne, distinta) = Saca-Distintos en_worker q resto s c.en_worker_distinta in
      (
        record {
          ids = c.ids;
          siguiente = c.siguiente;
          listas = c.listas;
          completa = c.completa;
          no_listas = otras;
          cola_distinta = c.cola_distinta;
          en_worker_distinta = distinta;
          semaforo = c.semaforo;
        },
        ya,
        ne,
      )

  -- A query that was not in READY joins the queue, in READY.
  pub entra_en_cola :
      (q : ℕ) (e : Query)
      → NoLista queries q
      → All (λ a. a ≢ q) en_worker
      → e.id ≡ id_en queries q
      → e.estado ≡ ready
      → Coherente queries cola en_worker sem id_query
      → Coherente (set queries q e) (cola ++ q ∷ []) en_worker (sem + 1) id_query
  entra_en_cola q e ya ajena mismo nueva c = record {
    ids = ids-set queries q e c.ids mismo;
    siguiente = c.siguiente ∙ sym (length-set queries q e);
    listas =
        All-append (Lista (set queries q e)) cola (q ∷ [])
          (All-EnEstado-set EsLista queries q e cola (λ a k p. nueva) c.listas)
          (
            (
              omega (arith, ya.0, length-set queries q e),
              ap (λ (x : Query). x.estado) (get_or-set_self queries q e query_vacia ya.0) ∙ nueva,
            ),
            tt,
          );
    completa =
        completa-set queries q e (cola ++ q ∷ [])
          (λ a h k. Esta-append_left a cola (q ∷ []) (c.completa a h k))
          (λ h k. Esta-append_right q cola (q ∷ []) (inl refl));
    no_listas =
        All-EnEstado-set NoEsLista queries q e en_worker
          (λ a k p. absurd (Esta-All (λ b. b ≢ q) a en_worker ajena k p)) c.no_listas;
    cola_distinta =
        Distintos-snoc cola q c.cola_distinta
          (All-map (Lista queries) (λ a. a ≢ q) (λ a k p. ya.1 (rw p at k.1)) cola c.listas);
    en_worker_distinta = c.en_worker_distinta;
    semaforo = omega (arith, c.semaforo, length-append cola (q ∷ []));
  }
