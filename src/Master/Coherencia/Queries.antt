-- ===== src/Master/Coherencia/Queries.antt =====
-- master/src/master.c: the threads of a query keep the queue and the list coherent.
use tp_2025_2c_kernel_panic.Prelude.{
  ℕ, zero, suc, ◌<◌, ◌≡◌, ◌≢◌, ◌⊎◌, inl, inr, refl, sym, ◌∙◌, subst, List, [], ◌∷◌, ◌++◌, Option,
  none, some, Bool, true, false, Bool-cases, Saca-All, Cadena, ℤ, decrement, Esta-All, set, length,
  ==_iff, arith, if◌then◌else◌,
}
use tp_2025_2c_kernel_panic.Utils.Protocolo.{worker_query_desconectado}
use tp_2025_2c_kernel_panic.Master.Estado.{
  Estado, ready, running, exit, Master, Query, query_en, con_query, es_prioridades,
}
use tp_2025_2c_kernel_panic.Master.Listas.{eliminar_por_id, coincide_id}
use tp_2025_2c_kernel_panic.Master.Listas.Busqueda.{list_find-Encuentra}
use tp_2025_2c_kernel_panic.Master.Planificador.{Maximo}
use tp_2025_2c_kernel_panic.Master.Planificador.Desalojo.{
  SoloEnvia, chequeador_desalojo-SoloEnvia, realizar_desalojo-SoloEnvia,
}
use tp_2025_2c_kernel_panic.Master.Queries.{
  asignar_id_query, encolar_nueva, atender_query, post_queries, envejece, siguiente_timer,
  ronda_timer, sacar_de_cola, terminar_query, atender_desconexion_query,
}
use tp_2025_2c_kernel_panic.Master.Coherencia.{estado_en, id_en, Lista, IsCoherente, escribir_query}
use tp_2025_2c_kernel_panic.Master.Coherencia.Asignacion.{running≢ready}
use tp_2025_2c_kernel_panic.Master.Coherencia.Movimientos.{sale_de_cola}
use tp_2025_2c_kernel_panic.Master.Coherencia.Nueva.{entra_nueva}
use tp_2025_2c_kernel_panic.Master.Coherencia.Manejadores.{SiHay, exit≢ready}

estado_en-set :
    (queries : List Query) (q : ℕ) (e : Query)
    → e.estado ≡ estado_en queries q
    → estado_en (set queries q e) q ≡ estado_en queries q
estado_en-set [] q e h = refl
estado_en-set (x ∷ xs) zero e h = h
estado_en-set (x ∷ xs) (suc q) e h = estado_en-set xs q e h

ready-dentro : (queries : List Query) (q : ℕ) → estado_en queries q ≡ ready → q < length queries
ready-dentro [] q h = absurd (exit≢ready h)
ready-dentro (x ∷ xs) zero h = omega arith
ready-dentro (x ∷ xs) (suc q) h = omega (arith, ready-dentro xs q h)

Estado-cases : (s : Estado) → (s ≡ ready) ⊎ (s ≡ running) ⊎ (s ≡ exit)
Estado-cases ready = inl refl
Estado-cases running = inr (inl refl)
Estado-cases exit = inr (inr refl)

SoloEnvia-post :
    (t : Master) (r : Option Master)
    → SoloEnvia t r
    → IsCoherente (post_queries t)
    → SiHay IsCoherente (elim r [ none ↦ none | some u ↦ some (post_queries u) ])
SoloEnvia-post t none h c = tt
SoloEnvia-post t (some u) (e, f) c = subst (λ x. IsCoherente (post_queries x)) (sym f) c

chequeo-SoloEnvia :
    (b : Bool) (t : Master) (r : Option Master)
    → SoloEnvia t r
    → SoloEnvia t (if b then r else some t)
chequeo-SoloEnvia true t r h = h
chequeo-SoloEnvia false t r h = (t.enviados, refl)

SoloEnvia-Coherente :
    {A : Type 0} (t : Master) (r : Option Master) (f : Master → A)
    → SoloEnvia t r
    → IsCoherente t
    → SiHay {A = A × Master}
        (λ x. IsCoherente x.1)
        (elim r [ none ↦ none | some u ↦ some (f u, u) ])
SoloEnvia-Coherente t none f h c = tt
SoloEnvia-Coherente t (some u) f (e, p) c = subst IsCoherente (sym p) c

module _ (list_get_maximum : Maximo) where
  pub atender_query-Coherente :
      (m : Master) (socket : ℕ) (path : Cadena) (prioridad : ℤ)
      → IsCoherente m
      → SiHay IsCoherente (atender_query list_get_maximum m socket path prioridad)
  unfolding atender_query encolar_nueva asignar_id_query
  atender_query-Coherente m socket path prioridad c =
      let t = encolar_nueva m socket path prioridad in
      SoloEnvia-post t _
        (chequeo-SoloEnvia (es_prioridades t) t _
          (chequeador_desalojo-SoloEnvia list_get_maximum t prioridad))
        (entra_nueva _ refl refl c)

  -- The write of the new priority changes neither the id nor the state.
  pub ronda_timer-Coherente :
      (m : Master) (q : ℕ)
      → IsCoherente m
      → SiHay (λ r. IsCoherente r.1) (ronda_timer list_get_maximum m q)
  unfolding ronda_timer
  ronda_timer-Coherente m q c =
      let query = query_en m q in
      let u = con_query m q (record query { prioridad = decrement query.prioridad }) in
      elim (Bool-cases (envejece list_get_maximum m q)) [
        | inl b ↦ rw b (
            SoloEnvia-Coherente u _ (λ t. siguiente_timer list_get_maximum t q)
              (chequeador_desalojo-SoloEnvia list_get_maximum _ _)
              (escribir_query q _ refl ((λ h. h), (λ h. h)) c))
        | inr b ↦ rw b c
      ]

terminar_query-Coherente :
    (m : Master) (q : ℕ)
    → IsCoherente m
    → estado_en m.queries q ≢ ready
    → IsCoherente (terminar_query m q)
unfolding terminar_query
terminar_query-Coherente m q c ya =
    escribir_query q _ refl ((λ e. absurd (exit≢ready e)), (λ e. absurd (ya e))) c

-- The query that leaves the queue for its id is the one that waits.
sacar_de_cola-Coherente :
    (m : Master) (q : ℕ)
    → IsCoherente m
    → estado_en m.queries q ≡ ready
    → IsCoherente (terminar_query (sacar_de_cola m q) q)
unfolding terminar_query sacar_de_cola eliminar_por_id
sacar_de_cola-Coherente m q c espera =
    let h = ready-dentro m.queries q espera in
    let esta = c.completa q h espera in
    elim (list_find-Encuentra (coincide_id m.queries (id_en m.queries q)) m.cola_queries) [
      | inl (_, _, ninguna) ↦
          let f =
            Esta-All (λ a. coincide_id m.queries (id_en m.queries q) a ≡ false) q m.cola_queries
              ninguna esta in
          let g : coincide_id m.queries (id_en m.queries q) q ≡ true = (==_iff _ _).1 refl in
          absurd cc
      | inr (p, _, pasa, s) ↦
          let (lista, _) = Saca-All (Lista m.queries) m.cola_queries p _ s c.listas in
          let igual : p ≡ q = sym (c.ids p lista.0) ∙ ((==_iff _ _).0 pasa ∙ c.ids q h) in
          (sale_de_cola q _ _ (rw igual at s) refl exit≢ready c).0
    ]

desalojada :
    (t : Master) (q : ℕ) (r : Option Master)
    → SoloEnvia t r
    → IsCoherente t
    → estado_en t.queries q ≢ ready
    → SiHay IsCoherente (elim r [ none ↦ none | some u ↦ some (terminar_query u q) ])
desalojada t q none h c ya = tt
desalojada t q (some u) (e, p) c ya =
    subst (λ x. IsCoherente (terminar_query x q)) (sym p)
      (terminar_query-Coherente (record t { enviados = e }) q c ya)

pub atender_desconexion_query-Coherente :
    (m : Master) (q : ℕ) → IsCoherente m → SiHay IsCoherente (atender_desconexion_query m q)
unfolding atender_desconexion_query
atender_desconexion_query-Coherente m q c =
    let query = query_en m q in
    let cerrada = con_query m q (record query { alive = false }) in
    let t = record cerrada { cerrados = cerrada.cerrados ++ query.socket ∷ [] } in
    let ct : IsCoherente t = escribir_query q _ refl ((λ h. h), (λ h. h)) c in
    let igual : estado_en t.queries q ≡ estado_en m.queries q = estado_en-set m.queries q _ refl in
    elim (Estado-cases query.estado) [
      | inl e ↦ rw (e, atender_desconexion_query) (sacar_de_cola-Coherente t q ct (igual ∙ e))
      | inr (inl e) ↦
          rw (e, atender_desconexion_query)
            (desalojada t q _
              (realizar_desalojo-SoloEnvia t query.id_worker worker_query_desconectado) ct
              (λ f. running≢ready (sym e ∙ (sym igual ∙ f))))
      | inr (inr e) ↦
          rw (e, atender_desconexion_query)
            (terminar_query-Coherente t q ct (λ f. exit≢ready (sym e ∙ (sym igual ∙ f))))
    ]
