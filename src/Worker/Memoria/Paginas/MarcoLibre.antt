-- ===== src/Worker/Memoria/Paginas/MarcoLibre.antt =====
-- worker/src/memoria.c, `encontrar_marco_libre`.
use tp_2025_2c_kernel_panic.Prelude.{
  ℕ, zero, suc, ◌+◌, ◌<◌, ◌≡◌, ◌⊎◌, inl, inr, refl, List, [], ◌∷◌, Option, none, some, Bool, true,
  false, Bool-cases, length, get_or, arith, ap,
}
use tp_2025_2c_kernel_panic.Worker.Memoria.Estado.{Marco, MemoriaInterna, marco_vacio}
use tp_2025_2c_kernel_panic.Worker.Memoria.Paginas.{libre_desde, encontrar_marco_libre}

abbrev pub libre_en : List Marco → ℕ → Bool
libre_en marcos i = (get_or marcos i marco_vacio).libre

-- The first free place, counted from `i`, or none.
abbrev pub PrimerLibre : ℕ → List Marco → Option ℕ → Type 0
PrimerLibre i marcos r =
    ((r ≡ none) × ((j : ℕ) → j < length marcos → libre_en marcos j ≡ false))
    ⊎ ((k : ℕ) × (r ≡ some (i + k))
        × (k < length marcos)
        × (libre_en marcos k ≡ true)
        × ((j : ℕ) → j < k → libre_en marcos j ≡ false))

ocupados-suc :
    (m : Marco) (ms : List Marco) (n : ℕ)
    → m.libre ≡ false
    → ((j : ℕ) → j < n → libre_en ms j ≡ false)
    → (j : ℕ) → j < suc n
    → libre_en (m ∷ ms) j ≡ false
ocupados-suc m ms n b h zero hj = b
ocupados-suc m ms n b h (suc j) hj = h j (omega arith)

libre_desde-PrimerLibre :
    (marcos : List Marco) (i : ℕ) → PrimerLibre i marcos (libre_desde i marcos)
unfolding libre_desde
libre_desde-PrimerLibre [] i = inl (refl, λ j h. absurd (omega arith))
libre_desde-PrimerLibre (m ∷ ms) i = elim (Bool-cases m.libre) [
  | inl b ↦ inr (
    zero,
    rw b (ap some (let e : i ≡ i + 0 = omega arith in e)),
    omega arith,
    b,
    λ j h. absurd (omega arith),
  )
  | inr b ↦ elim (libre_desde-PrimerLibre ms (suc i)) [
    | inl (e, h) ↦ inl (rw b e, ocupados-suc m ms (length ms) b h)
    | inr (k, e, hk, l, h) ↦ inr (
      suc k,
      rw (b, e) (ap some (let f : suc i + k ≡ i + suc k = omega arith in f)),
      omega arith,
      l,
      ocupados-suc m ms k b h,
    )
  ]
]

-- `encontrar_marco_libre` answers the free frame of the smallest number, and -1 exactly when every frame is
-- taken.
pub encontrar_marco_libre-PrimerLibre :
    (mem : MemoriaInterna) → PrimerLibre 0 mem.marcos (encontrar_marco_libre mem)
unfolding encontrar_marco_libre
encontrar_marco_libre-PrimerLibre mem = libre_desde-PrimerLibre mem.marcos 0
