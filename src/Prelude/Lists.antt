-- ===== src/Prelude/Lists.antt =====
-- Lists measured and indexed by native numbers, under the library's names: the `t_list` of
-- so-commons, the arrays and the byte buffers of the program.
use Prim.Native.Nat.{ℕ, zero, suc, ◌+◌, ◌-◌, ◌<◌, min}
use mathlib.Core.Path.{◌≡◌, refl, ap, sym, subst}
use mathlib.Core.Logic.{◌≢◌, ◌⊎◌, inl, inr}
use mathlib.Core.List.{List, [], ◌∷◌, ◌++◌}
use mathlib.Core.Option.{Option, none, some}
use native.Mathlib.Omega.{arith}

module _ {ℓ} {A : Type ℓ} where
  abbrev pub length : List A → ℕ
  length [] = 0
  length (x ∷ xs) = suc (length xs)

  abbrev pub get_elem? : List A → ℕ → Option A
  get_elem? [] i = none
  get_elem? (x ∷ xs) zero = some x
  get_elem? (x ∷ xs) (suc i) = get_elem? xs i

  abbrev pub get_or : List A → ℕ → A → A
  get_or [] i d = d
  get_or (x ∷ xs) zero d = x
  get_or (x ∷ xs) (suc i) d = get_or xs i d

  abbrev pub set : List A → ℕ → A → List A
  set [] i v = []
  set (x ∷ xs) zero v = v ∷ xs
  set (x ∷ xs) (suc i) v = x ∷ set xs i v

  abbrev pub take : ℕ → List A → List A
  take zero xs = []
  take (suc n) [] = []
  take (suc n) (x ∷ xs) = x ∷ take n xs

  abbrev pub drop : ℕ → List A → List A
  drop zero xs = xs
  drop (suc n) [] = []
  drop (suc n) (x ∷ xs) = drop n xs

  abbrev pub replicate : ℕ → A → List A
  replicate zero a = []
  replicate (suc n) a = a ∷ replicate n a

  -- `list_remove(l, i)`: the list without the element at `i`.
  abbrev pub remove_at : List A → ℕ → List A
  remove_at [] i = []
  remove_at (x ∷ xs) zero = xs
  remove_at (x ∷ xs) (suc i) = x ∷ remove_at xs i

  abbrev pub All {κ} : (A → Type κ) → List A → Type κ
  All P [] = Unit
  All P (x ∷ xs) = P x × All P xs

module _ {ℓ} {A : Type ℓ} where
  pub length-append : (xs ys : List A) → length (xs ++ ys) ≡ length xs + length ys
  length-append [] ys = omega arith
  length-append (x ∷ xs) ys = omega (arith, length-append xs ys)

  pub length-set : (xs : List A) (i : ℕ) (v : A) → length (set xs i v) ≡ length xs
  length-set [] i v = refl
  length-set (x ∷ xs) zero v = refl
  length-set (x ∷ xs) (suc i) v = ap suc (length-set xs i v)

  pub length-replicate : (n : ℕ) (a : A) → length (replicate n a) ≡ n
  length-replicate zero a = refl
  length-replicate (suc n) a = ap suc (length-replicate n a)

  pub length-take : (n : ℕ) (xs : List A) → length (take n xs) ≡ min n (length xs)
  length-take zero xs = omega arith
  length-take (suc n) [] = omega arith
  length-take (suc n) (x ∷ xs) = omega (arith, length-take n xs)

  pub length-drop : (n : ℕ) (xs : List A) → length (drop n xs) ≡ length xs - n
  length-drop zero xs = omega arith
  length-drop (suc n) [] = omega arith
  length-drop (suc n) (x ∷ xs) = omega (arith, length-drop n xs)

  pub get_or-set_self :
      (xs : List A) (i : ℕ) (v d : A) → i < length xs → get_or (set xs i v) i d ≡ v
  get_or-set_self [] i v d h = absurd (omega arith)
  get_or-set_self (x ∷ xs) zero v d h = refl
  get_or-set_self (x ∷ xs) (suc i) v d h = get_or-set_self xs i v d (omega arith)

  pub get_or-set_ne :
      (xs : List A) (i j : ℕ) (v d : A) → i ≢ j → get_or (set xs i v) j d ≡ get_or xs j d
  get_or-set_ne [] i j v d h = refl
  get_or-set_ne (x ∷ xs) zero zero v d h = absurd (h refl)
  get_or-set_ne (x ∷ xs) zero (suc j) v d h = refl
  get_or-set_ne (x ∷ xs) (suc i) zero v d h = refl
  get_or-set_ne (x ∷ xs) (suc i) (suc j) v d h = get_or-set_ne xs i j v d (λ e. h (ap suc e))

  pub get_or-append_left :
      (xs : List A) (e : A) (i : ℕ) (d : A)
      → i < length xs
      → get_or (xs ++ e ∷ []) i d ≡ get_or xs i d
  get_or-append_left [] e i d h = absurd (omega arith)
  get_or-append_left (x ∷ xs) e zero d h = refl
  get_or-append_left (x ∷ xs) e (suc i) d h = get_or-append_left xs e i d (omega arith)

  pub get_or-append_length : (xs : List A) (e d : A) → get_or (xs ++ e ∷ []) (length xs) d ≡ e
  get_or-append_length [] e d = refl
  get_or-append_length (x ∷ xs) e d = get_or-append_length xs e d

  -- `take` and `drop` split a concatenation where the first part ends.
  pub take-append : (xs ys : List A) (n : ℕ) → n ≡ length xs → take n (xs ++ ys) ≡ xs
  take-append [] ys zero h = refl
  take-append [] ys (suc n) h = absurd (omega arith)
  take-append (x ∷ xs) ys zero h = absurd (omega arith)
  take-append (x ∷ xs) ys (suc n) h = ap (◌∷◌ x) (take-append xs ys n (omega arith))

  pub take-length : (xs : List A) (n : ℕ) → n ≡ length xs → take n xs ≡ xs
  take-length [] zero h = refl
  take-length [] (suc n) h = refl
  take-length (x ∷ xs) zero h = absurd (omega arith)
  take-length (x ∷ xs) (suc n) h = ap (◌∷◌ x) (take-length xs n (omega arith))

  pub drop-append : (xs ys : List A) (n : ℕ) → n ≡ length xs → drop n (xs ++ ys) ≡ ys
  drop-append [] ys zero h = refl
  drop-append [] ys (suc n) h = absurd (omega arith)
  drop-append (x ∷ xs) ys zero h = absurd (omega arith)
  drop-append (x ∷ xs) ys (suc n) h = drop-append xs ys n (omega arith)

  pub All-append {κ} : (P : A → Type κ) (xs ys : List A) → All P xs → All P ys → All P (xs ++ ys)
  All-append P [] ys hx hy = hy
  All-append P (x ∷ xs) ys hx hy = (hx.0, All-append P xs ys hx.1 hy)

  pub All-map {κ μ} :
      (P : A → Type κ) (Q : A → Type μ)
      → ((a : A) → P a → Q a)
      → (xs : List A) → All P xs
      → All Q xs
  All-map P Q f [] h = tt
  All-map P Q f (x ∷ xs) h = (f x h.0, All-map P Q f xs h.1)

-- No element twice.
abbrev pub Distintos : List ℕ → Type 0
Distintos [] = Unit
Distintos (x ∷ xs) = All (λ y. y ≢ x) xs × Distintos xs

-- The second list is the first without one occurrence of the element.
abbrev pub Saca : List ℕ → ℕ → List ℕ → Type 0
Saca xs q ys = (antes : List ℕ) × (tras : List ℕ) × (xs ≡ antes ++ q ∷ tras) × (ys ≡ antes ++ tras)

pub Saca-cons : (x q : ℕ) (xs ys : List ℕ) → Saca xs q ys → Saca (x ∷ xs) q (x ∷ ys)
Saca-cons x q xs ys (a, b, e, f) = (x ∷ a, b, ap (◌∷◌ x) e, ap (◌∷◌ x) f)

pub Saca-length : (xs : List ℕ) (q : ℕ) (ys : List ℕ) → Saca xs q ys → length xs ≡ suc (length ys)
Saca-length xs q ys (a, b, e, f) =
    rw (e, f) (omega (arith, length-append a (q ∷ b), length-append a b))

module _ {ℓ} (P : ℕ → Type ℓ) where
  All-medio : (a b : List ℕ) (q : ℕ) → All P (a ++ q ∷ b) → P q × All P (a ++ b)
  All-medio [] b q h = h
  All-medio (x ∷ a) b q h = let (pq, resto) = All-medio a b q h.1 in (pq, (h.0, resto))

  pub Saca-All : (xs : List ℕ) (q : ℕ) (ys : List ℕ) → Saca xs q ys → All P xs → P q × All P ys
  Saca-All xs q ys (a, b, e, f) h = rw f (All-medio a b q (rw e at h))

Distintos-medio :
    (a b : List ℕ) (q : ℕ) → Distintos (a ++ q ∷ b) → All (λ y. y ≢ q) (a ++ b) × Distintos (a ++ b)
Distintos-medio [] b q h = h
Distintos-medio (x ∷ a) b q h =
    let (ne, resto) = Distintos-medio a b q h.1 in
    let (q_ne, otros) = All-medio (λ y. y ≢ x) a b q h.0 in
    (((λ e. q_ne (sym e)), ne), (otros, resto))

pub Saca-Distintos :
    (xs : List ℕ) (q : ℕ) (ys : List ℕ)
    → Saca xs q ys
    → Distintos xs
    → All (λ y. y ≢ q) ys × Distintos ys
Saca-Distintos xs q ys (a, b, e, f) h = rw f (Distintos-medio a b q (rw e at h))

pub Distintos-snoc :
    (xs : List ℕ) (q : ℕ) → Distintos xs → All (λ y. y ≢ q) xs → Distintos (xs ++ q ∷ [])
Distintos-snoc [] q d ne = (tt, tt)
Distintos-snoc (x ∷ xs) q d ne = (
  All-append (λ y. y ≢ x) xs (q ∷ []) d.0 ((λ e. ne.0 (sym e)), tt),
  Distintos-snoc xs q d.1 ne.1,
)

abbrev pub Esta : ℕ → List ℕ → Type 0
Esta a [] = ⊥
Esta a (x ∷ xs) = (a ≡ x) ⊎ Esta a xs

pub Esta-append_left : (a : ℕ) (xs ys : List ℕ) → Esta a xs → Esta a (xs ++ ys)
Esta-append_left a [] ys h = absurd h
Esta-append_left a (x ∷ xs) ys (inl e) = inl e
Esta-append_left a (x ∷ xs) ys (inr h) = inr (Esta-append_left a xs ys h)

pub Esta-append_right : (a : ℕ) (xs ys : List ℕ) → Esta a ys → Esta a (xs ++ ys)
Esta-append_right a [] ys h = h
Esta-append_right a (x ∷ xs) ys h = inr (Esta-append_right a xs ys h)

Esta-medio : (a q : ℕ) (xs ys : List ℕ) → Esta a (xs ++ q ∷ ys) → (a ≡ q) ⊎ Esta a (xs ++ ys)
Esta-medio a q [] ys h = h
Esta-medio a q (x ∷ xs) ys (inl e) = inr (inl e)
Esta-medio a q (x ∷ xs) ys (inr h) = elim (Esta-medio a q xs ys h) [
  | inl e ↦ inl e
  | inr k ↦ inr (inr k)
]

pub Saca-Esta :
    (a : ℕ) (xs : List ℕ) (q : ℕ) (ys : List ℕ) → Saca xs q ys → Esta a xs → (a ≡ q) ⊎ Esta a ys
Saca-Esta a xs q ys (b, c, e, f) h = rw f (Esta-medio a q b c (rw e at h))

module _ {ℓ} (P : ℕ → Type ℓ) where
  pub Esta-All : (a : ℕ) (xs : List ℕ) → All P xs → Esta a xs → P a
  Esta-All a [] h k = absurd k
  Esta-All a (x ∷ xs) h (inl e) = subst P (sym e) h.0
  Esta-All a (x ∷ xs) h (inr k) = Esta-All a xs h.1 k
