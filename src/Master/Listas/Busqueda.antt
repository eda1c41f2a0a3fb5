-- ===== src/Master/Listas/Busqueda.antt =====
-- master/src/master.c: what the searches by id find and take out.
use tp_2025_2c_kernel_panic.Prelude.{
  ℕ, List, [], ◌∷◌, ◌++◌, Option, none, some, Bool, true, false, ◌≡◌, refl, ap, ◌⊎◌, inl, inr,
  Bool-cases, All, Saca,
}
use tp_2025_2c_kernel_panic.Master.Listas.{list_find, list_remove_by_condition}

-- Nothing passes and nothing is taken out, or the first element that passes is.
abbrev pub Encuentra : (ℕ → Bool) → List ℕ → Option ℕ → List ℕ → Type 0
Encuentra prueba xs r ys =
    ((r ≡ none) × (ys ≡ xs) × All (λ q. prueba q ≡ false) xs)
    ⊎ ((q : ℕ) × (r ≡ some q) × (prueba q ≡ true) × Saca xs q ys)

-- One list is the other without an element, the first that passes.
abbrev pub SacaPrimera : (ℕ → Bool) → List ℕ → ℕ → List ℕ → Type 0
SacaPrimera prueba xs q ys =
    (antes : List ℕ) × (tras : List ℕ) × All (λ a. prueba a ≡ false) antes
    × (prueba q ≡ true)
    × (xs ≡ antes ++ q ∷ tras)
    × (ys ≡ antes ++ tras)

pub list_find-SacaPrimera :
    (prueba : ℕ → Bool) (xs : List ℕ)
    → ((list_find prueba xs ≡ none)
        × (list_remove_by_condition prueba xs ≡ xs)
        × All (λ q. prueba q ≡ false) xs)
      ⊎ ((q : ℕ) × (list_find prueba xs ≡ some q)
          × SacaPrimera prueba xs q (list_remove_by_condition prueba xs))
unfolding list_find list_remove_by_condition
list_find-SacaPrimera prueba [] = inl (refl, refl, tt)
list_find-SacaPrimera prueba (x ∷ xs) = elim (Bool-cases (prueba x)) [
  | inl pasa ↦ inr (x, rw pasa refl, ([], xs, tt, pasa, refl, rw pasa refl))
  | inr no_pasa ↦ elim (list_find-SacaPrimera prueba xs) [
    | inl (e, f, h) ↦ inl (rw no_pasa e, rw no_pasa (ap (◌∷◌ x) f), (no_pasa, h))
    | inr (q, e, (a, b, h, p, f, g)) ↦
        inr (q, rw no_pasa e, (x ∷ a, b, (no_pasa, h), p, ap (◌∷◌ x) f, rw no_pasa (ap (◌∷◌ x) g)))
  ]
]

pub list_find-Encuentra :
    (prueba : ℕ → Bool) (xs : List ℕ)
    → Encuentra prueba xs (list_find prueba xs) (list_remove_by_condition prueba xs)
list_find-Encuentra prueba xs = elim (list_find-SacaPrimera prueba xs) [
  | inl h ↦ inl h
  | inr (q, e, (a, b, h, p, f, g)) ↦ inr (q, e, p, (a, b, f, g))
]
