-- ===== src/Master/Listas/MenorPrioridad.antt =====
-- master/src/master.c, `obtener_menor_prioridad`: which query leaves the queue.
use mathlib.Core.List.{append-nil, append_assoc}
use tp_2025_2c_kernel_panic.Prelude.{
  ◌⊎◌, ℕ, zero, suc, ℤ, ◌<ℤ◌, ◌≤ℤ◌, lt_int, List, [], ◌∷◌, ◌++◌, none, some, ◌≡◌, refl, ap, ◌∙◌,
  inl, inr, Bool-cases, All, All-append, All-map, arith, length, get_elem?, remove_at,
  if◌then◌else◌, length-append,
}
use tp_2025_2c_kernel_panic.Master.Estado.{Query}
use tp_2025_2c_kernel_panic.Master.Listas.{prioridad_en, menor_desde, obtener_menor_prioridad}

-- The list splits at the query: those before it have a greater number, those behind it no smaller
-- one.
abbrev pub PrimeraMenor : List Query → List ℕ → ℕ → List ℕ → Type 0
PrimeraMenor queries lista q resto =
    (antes : List ℕ) × (tras : List ℕ) × (lista ≡ antes ++ q ∷ tras)
    × (resto ≡ antes ++ tras)
    × All (λ x. prioridad_en queries q <ℤ prioridad_en queries x) antes
    × All (λ x. prioridad_en queries q ≤ℤ prioridad_en queries x) tras

get_elem?-length : (a b : List ℕ) (q n : ℕ) → n ≡ length a → get_elem? (a ++ q ∷ b) n ≡ some q
get_elem?-length [] b q zero e = refl
get_elem?-length [] b q (suc n) e = absurd (omega arith)
get_elem?-length (x ∷ a) b q zero e = absurd (omega arith)
get_elem?-length (x ∷ a) b q (suc n) e = get_elem?-length a b q n (omega arith)

remove_at-length : (a b : List ℕ) (q n : ℕ) → n ≡ length a → remove_at (a ++ q ∷ b) n ≡ a ++ b
remove_at-length [] b q zero e = refl
remove_at-length [] b q (suc n) e = absurd (omega arith)
remove_at-length (x ∷ a) b q zero e = absurd (omega arith)
remove_at-length (x ∷ a) b q (suc n) e = ap (◌∷◌ x) (remove_at-length a b q n (omega arith))

module _ (queries : List Query) where
  abbrev prio : ℕ → ℤ
  prio = prioridad_en queries

  -- What the loop has seen of the list: it splits at the best one so far.
  abbrev Vista : List ℕ → ℕ → ℕ → Type 0
  Vista vistas q i =
      (antes : List ℕ) × (tras : List ℕ) × (vistas ≡ antes ++ q ∷ tras)
      × (i ≡ length antes)
      × All (λ x. prio q <ℤ prio x) antes
      × All (λ x. prio q ≤ℤ prio x) tras

  Vista-snoc :
      (vistas : List ℕ) (q i x n : ℕ)
      → n ≡ length vistas
      → Vista vistas q i
      → let mejora = lt_int (prio x) (prio q) in
        Vista (vistas ++ x ∷ []) (if mejora then x else q) (if mejora then n else i)
  Vista-snoc vistas q i x n e (a, b, f, g, ha, hb) = elim (Bool-cases (lt_int (prio x) (prio q))) [
    | inl mejora ↦ rw mejora (vistas, [], refl, e, rw f (todas (ground arith)), tt)
    | inr igual ↦ rw igual (
      a,
      b ++ x ∷ [],
      rw f (append_assoc a (q ∷ b) (x ∷ [])),
      g,
      ha,
      All-append (λ y. prio q ≤ℤ prio y) b (x ∷ []) hb (ground arith, tt),
    )
  ]
    where
      todas : prio x <ℤ prio q → All (λ y. prio x <ℤ prio y) (a ++ q ∷ b)
      todas h =
          All-append (λ y. prio x <ℤ prio y) a (q ∷ b)
            (All-map (λ y. prio q <ℤ prio y) (λ y. prio x <ℤ prio y) (λ y k. omega arith) a ha)
            (h, All-map (λ y. prio q ≤ℤ prio y) (λ y. prio x <ℤ prio y) (λ y k. omega arith) b hb)

  menor_desde-Vista :
      (resto vistas : List ℕ) (q i n : ℕ)
      → n ≡ length vistas
      → Vista vistas q i
      → let (min_query, min_index) = menor_desde queries n resto q i in
        Vista (vistas ++ resto) min_query min_index
  unfolding menor_desde
  menor_desde-Vista [] vistas q i n e v = rw append-nil v
  menor_desde-Vista (x ∷ resto) vistas q i n e v = rw (← append_assoc vistas (x ∷ []) resto) (
      menor_desde-Vista resto (vistas ++ x ∷ []) _ _ (suc n)
        (omega (arith, length-append vistas (x ∷ []))) (Vista-snoc vistas q i x n e v))

  -- From an empty queue `obtener_menor_prioridad` takes nothing. From any other it takes out
  -- exactly one query, one of the least priority number, and among those the one that came first;
  -- the others keep their order.
  pub obtener_menor_prioridad-PrimeraMenor :
      (lista : List ℕ)
      → let (tomada, resto) = obtener_menor_prioridad queries lista in
        ((lista ≡ []) × (tomada ≡ none) × (resto ≡ []))
        ⊎ ((q : ℕ) × (tomada ≡ some q) × PrimeraMenor queries lista q resto)
  unfolding obtener_menor_prioridad
  obtener_menor_prioridad-PrimeraMenor [] = inl (refl, refl, refl)
  obtener_menor_prioridad-PrimeraMenor (q ∷ qs) =
      let (m, i) = menor_desde queries 1 qs q 0 in
      let (a, b, f, g, ha, hb) =
        menor_desde-Vista qs (q ∷ []) q 0 1 refl ([], [], refl, refl, tt, tt) in
      inr (
        m,
        ap (λ l. get_elem? l i) f ∙ get_elem?-length a b m i g,
        (a, b, f, ap (λ l. remove_at l i) f ∙ remove_at-length a b m i g, ha, hb),
      )
