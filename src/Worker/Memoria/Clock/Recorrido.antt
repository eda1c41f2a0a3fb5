-- ===== src/Worker/Memoria/Clock/Recorrido.antt =====
-- worker/src/memoria.c, `aplicar_clock_m`: what a round over the frames from the pointer on finds.
use native.Mathlib.Nat.{mod-eq_of_lt, mod-eq-sub-mod, mod-lt}
use tp_2025_2c_kernel_panic.Prelude.{
  ℕ, zero, suc, ◌+◌, ◌-◌, ◌%◌, ◌<◌, ◌≤◌, ◌≡◌, ◌≢◌, ◌⊎◌, inl, inr, refl, List, [], ◌∷◌, Option, none,
  some, Bool, true, false, get_or, set, Bool-cases, arith, dec_lt,
}
use tp_2025_2c_kernel_panic.Worker.Memoria.Clock.{buscar_circular}

-- The `i`-th frame of a round.
abbrev pub idx : ℕ → ℕ → ℕ → ℕ
idx inicio cantidad i = (inicio + i) % cantidad

-- What the round finds is the first frame that passes the test, and -1 if none does.
abbrev pub Halla : (ℕ → Bool) → (ℕ → ℕ) → ℕ → ℕ → Option ℕ → Type 0
Halla prueba f i n r =
    ((r ≡ none) × ((j : ℕ) → i ≤ j → j < i + n → prueba (f j) ≡ false))
    ⊎ ((k : ℕ) × (i ≤ k)
        × (k < i + n)
        × (r ≡ some (f k))
        × (prueba (f k) ≡ true)
        × ((j : ℕ) → i ≤ j → j < k → prueba (f j) ≡ false))

module _ (prueba : ℕ → Bool) (inicio cantidad : ℕ) where
  buscar_circular-sigue :
      (i n : ℕ) (r : Option ℕ)
      → prueba (idx inicio cantidad i) ≡ false
      → Halla prueba (idx inicio cantidad) (suc i) n r
      → Halla prueba (idx inicio cantidad) i (suc n) r
  buscar_circular-sigue i n r no_pasa (inl (e, h)) = inl (
    e,
    λ j a b. elim (dec_lt i j) [
      | yes p ↦ h j p (omega arith)
      | no p ↦ let q : j ≡ i = omega arith in rw q no_pasa
    ],
  )
  buscar_circular-sigue i n r no_pasa (inr (k, a, b, e, pasa, h)) = inr (
    k,
    omega arith,
    omega arith,
    e,
    pasa,
    λ j c d. elim (dec_lt i j) [
      | yes p ↦ h j p d
      | no p ↦ let q : j ≡ i = omega arith in rw q no_pasa
    ],
  )

  pub buscar_circular-Halla :
      (n i : ℕ)
      → Halla prueba (idx inicio cantidad) i n (buscar_circular n i inicio cantidad prueba)
  unfolding buscar_circular
  buscar_circular-Halla zero i = inl (refl, λ j a b. absurd (omega arith))
  buscar_circular-Halla (suc n) i = elim (Bool-cases (prueba (idx inicio cantidad i))) [
    | inl pasa ↦ inr (i, omega arith, omega arith, rw pasa, pasa, λ j a b. absurd (omega arith))
    | inr no_pasa ↦
        rw no_pasa (buscar_circular-sigue i n _ no_pasa (buscar_circular-Halla n (suc i)))
  ]

idx_cases :
    (s c i : ℕ)
    → s < c
    → i < c
    → (idx s c i ≡ s + i) × (s + i < c) ⊎ (idx s c i + c ≡ s + i) × (c ≤ s + i)
idx_cases s c i hs hi = elim (dec_lt (s + i) c) [
  | yes p ↦ inl (mod-eq_of_lt p, p)
  | no p ↦ inr (
    omega (
      arith,
      mod-eq-sub-mod {n = s + i} {m = c} (omega arith),
      mod-eq_of_lt {n = s + i - c} {m = c} (omega arith),
    ),
    omega arith,
  )
]

-- A round of at most `cantidad` steps meets no frame twice, and every frame is met.
pub idx_injective : (s c i j : ℕ) → s < c → i < c → j < c → i ≢ j → idx s c i ≢ idx s c j
idx_injective s c i j hs hi hj ne e = omega (arith, idx_cases s c i hs hi, idx_cases s c j hs hj)

pub idx-lt : (s c i : ℕ) → 0 < c → idx s c i < c
idx-lt s c i h = mod-lt (s + i) h

pub get_or-set_default {ℓ} :
    {A : Type ℓ} (xs : List A) (i : ℕ) (d : A) → get_or (set xs i d) i d ≡ d
get_or-set_default [] i d = refl
get_or-set_default (x ∷ xs) zero d = refl
get_or-set_default (x ∷ xs) (suc i) d = get_or-set_default xs i d
