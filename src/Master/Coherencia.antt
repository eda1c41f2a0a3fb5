-- ===== src/Master/Coherencia.antt =====
-- master/src/master.c: what holds of the queries and the two lists between two handlers, and the
-- moves that keep it.
pub mod Movimientos
pub mod Nueva
pub mod Asignacion
pub mod Manejadores
pub mod Queries
pub mod Pasos
use tp_2025_2c_kernel_panic.Prelude.{
  ℕ, zero, suc, ◌+◌, ◌-◌, ◌<◌, ◌≤◌, All-map, dec_lt, ◌≢◌, ◌≡◌, ◌↔◌, ◌⊎◌, inl, inr, refl, sym, ap,
  ◌∙◌, List, [], ◌∷◌, ◌++◌, All, All-append, Distintos, Distintos-snoc, Saca, Saca-All,
  Saca-Distintos, Saca-length, Saca-Esta, Esta, Esta-All, Esta-append_left, Esta-append_right,
  get_or, get_or-set_self, get_or-set_ne, length-set, length-append, length, set, arith, ℕ_discrete,
  subst,
}
use tp_2025_2c_kernel_panic.Master.Estado.{Estado, ready, running, exit, Query, query_vacia, Master}

abbrev pub estado_en : List Query → ℕ → Estado
estado_en queries a = (get_or queries a query_vacia).estado

abbrev pub id_en : List Query → ℕ → ℕ
id_en queries a = (get_or queries a query_vacia).id

abbrev pub Lista : List Query → ℕ → Type 0
Lista queries a = (a < length queries) × (estado_en queries a ≡ ready)

abbrev pub NoLista : List Query → ℕ → Type 0
NoLista queries a = (a < length queries) × (estado_en queries a ≢ ready)

-- The queue holds exactly the queries in READY, none twice; the list of the workers holds none of
-- them, and none twice; the semaphore counts the queue; ids are handed out in order.
pub record Coherente (queries : List Query) (cola en_worker : List ℕ) (sem id_query : ℕ)
    : Type 0 where
  pub ids : (a : ℕ) → a < length queries → id_en queries a ≡ a
  pub siguiente : id_query ≡ length queries
  pub listas : All (Lista queries) cola
  pub completa : (a : ℕ) → a < length queries → estado_en queries a ≡ ready → Esta a cola
  pub no_listas : All (NoLista queries) en_worker
  pub cola_distinta : Distintos cola
  pub en_worker_distinta : Distintos en_worker
  pub semaforo : sem ≡ length cola

-- After a write, a place holds what was written or what it held.
tras_set :
    (queries : List Query) (q : ℕ) (e : Query) (a : ℕ)
    → a < length queries
    → ((a ≡ q) × (get_or (set queries q e) a query_vacia ≡ e))
      ⊎ ((a ≢ q) × (get_or (set queries q e) a query_vacia ≡ get_or queries a query_vacia))
tras_set queries q e a h = elim (ℕ_discrete a q) [
  | yes p ↦ inl (p, rw p (get_or-set_self queries q e query_vacia (rw p at h)))
  | no p ↦ inr (p, get_or-set_ne queries q a e query_vacia (λ x. p (sym x)))
]

ids-set :
    (queries : List Query) (q : ℕ) (e : Query)
    → ((a : ℕ) → a < length queries → id_en queries a ≡ a)
    → e.id ≡ id_en queries q
    → (a : ℕ) → a < length (set queries q e)
    → id_en (set queries q e) a ≡ a
ids-set queries q e ids mismo a h =
    let h' : a < length queries = omega (arith, length-set queries q e) in
    elim (tras_set queries q e a h') [
      | inl (p, k) ↦ ap (λ (x : Query). x.id) k ∙ (mismo ∙ (ap (id_en queries) (sym p) ∙ ids a h'))
      | inr (p, k) ↦ ap (λ (x : Query). x.id) k ∙ ids a h'
    ]

-- What is said of the state of a place that is not written stays.
module _ {ℓ} (P : Estado → Type ℓ) (queries : List Query) (q : ℕ) (e : Query) where
  abbrev EnEstado : List Query → ℕ → Type ℓ
  EnEstado qs a = (a < length qs) × P (estado_en qs a)

  EnEstado-set : (a : ℕ) → (a ≡ q → P e.estado) → EnEstado queries a → EnEstado (set queries q e) a
  EnEstado-set a nuevo (h, k) = (
    omega (arith, length-set queries q e),
    elim (tras_set queries q e a h) [
      | inl (p, f) ↦ subst P (ap (λ (x : Query). x.estado) (sym f)) (nuevo p)
      | inr (p, f) ↦ subst P (ap (λ (x : Query). x.estado) (sym f)) k
    ],
  )

  All-EnEstado-set :
      (xs : List ℕ)
      → ((a : ℕ) → Esta a xs → a ≡ q → P e.estado)
      → All (EnEstado queries) xs
      → All (EnEstado (set queries q e)) xs
  All-EnEstado-set [] nuevo h = tt
  All-EnEstado-set (x ∷ xs) nuevo h =
      (EnEstado-set x (nuevo x (inl refl)) h.0, All-EnEstado-set xs (λ a k. nuevo a (inr k)) h.1)

abbrev EsLista : Estado → Type 0
EsLista s = s ≡ ready

abbrev NoEsLista : Estado → Type 0
NoEsLista s = s ≢ ready

completa-set :
    (queries : List Query) (q : ℕ) (e : Query) (cola : List ℕ)
    → ((a : ℕ) → a < length queries → estado_en queries a ≡ ready → Esta a cola)
    → (q < length queries → e.estado ≡ ready → Esta q cola)
    → (a : ℕ) → a < length (set queries q e)
    → estado_en (set queries q e) a ≡ ready
    → Esta a cola
completa-set queries q e cola completa nueva a h k =
    let h' : a < length queries = omega (arith, length-set queries q e) in
    elim (tras_set queries q e a h') [
      | inl (p, f) ↦
          let k' : e.estado ≡ ready = ap (λ (x : Query). x.estado) (sym f) ∙ k in
          rw p (nueva (rw p at h') k')
      | inr (p, f) ↦ completa a h' (ap (λ (x : Query). x.estado) (sym f) ∙ k)
    ]

module _ {queries : List Query} {cola en_worker : List ℕ} {sem id_query : ℕ} where
  -- A write that changes neither the id nor whether the query is in READY.
  pub escribir_query :
      (q : ℕ) (e : Query)
      → e.id ≡ id_en queries q
      → (e.estado ≡ ready) ↔ (estado_en queries q ≡ ready)
      → Coherente queries cola en_worker sem id_query
      → Coherente (set queries q e) cola en_worker sem id_query
  escribir_query q e mismo igual c = record {
    ids = ids-set queries q e c.ids mismo;
    siguiente = c.siguiente ∙ sym (length-set queries q e);
    listas =
        All-EnEstado-set EsLista queries q e cola
          (λ a k p. igual.1 (rw p at (Esta-All (Lista queries) a cola c.listas k).1)) c.listas;
    completa = completa-set queries q e cola c.completa (λ h k. c.completa q h (igual.0 k));
    no_listas =
        All-EnEstado-set NoEsLista queries q e en_worker
          (λ a k p f. (Esta-All (NoLista queries) a en_worker c.no_listas k).1 (rw p (igual.0 f)))
          c.no_listas;
    cola_distinta = c.cola_distinta;
    en_worker_distinta = c.en_worker_distinta;
    semaforo = c.semaforo;
  }

abbrev pub IsCoherente : Master → Type 0
IsCoherente m = Coherente m.queries m.cola_queries m.query_en_worker m.sem_queries m.id_query
