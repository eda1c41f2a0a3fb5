-- ===== src/Worker/Memoria/Bien/Diccionario.antt =====
-- The dictionary of the page tables, as worker/src/memoria.c uses it.
use tp_2025_2c_kernel_panic.Prelude.{
  ◌≡◌, ◌≢◌, inl, inr, sym, subst, List, [], ◌∷◌, none, some, false, Bool-cases, All, Cadena, str_eq,
  str_eq_iff,
}
use tp_2025_2c_kernel_panic.Worker.Memoria.Estado.{
  dictionary_get, dictionary_put, dictionary_remove,
}

str_eq-false : (a b : Cadena) → str_eq a b ≡ false → a ≢ b
str_eq-false a b h e = let z = (str_eq_iff a b).1 e in cc

module _ {V : Type 0} where
  -- No key twice.
  abbrev pub Claves : List (Cadena × V) → Type 0
  Claves [] = Unit
  Claves (e ∷ d) = All (λ (f : Cadena × V). f.0 ≢ e.0) d × Claves d

  module _ (R : Cadena × V → Type 0) where
    pub dictionary_get-All :
        (d : List (Cadena × V)) (clave : Cadena) (v : V)
        → All R d
        → dictionary_get d clave ≡ some v
        → R (clave, v)
    unfolding dictionary_get
    dictionary_get-All [] clave v h e = cc
    dictionary_get-All ((k, w) ∷ d) clave v h e = elim (Bool-cases (str_eq k clave)) [
      | inl b ↦
          let mismo : k ≡ clave = (str_eq_iff k clave).0 b in
          let f : some w ≡ some v = rw b at e in
          let g : w ≡ v = cc in subst R (λ i. (mismo i, g i)) h.0
      | inr b ↦ dictionary_get-All d clave v h.1 (rw b at e)
    ]

  pub dictionary_get-none :
      (d : List (Cadena × V)) (clave : Cadena)
      → dictionary_get d clave ≡ none
      → All (λ (f : Cadena × V). f.0 ≢ clave) d
  unfolding dictionary_get
  dictionary_get-none [] clave e = tt
  dictionary_get-none ((k, w) ∷ d) clave e = elim (Bool-cases (str_eq k clave)) [
    | inl b ↦ let f : some w ≡ none = rw b at e in cc
    | inr b ↦ (str_eq-false k clave b, dictionary_get-none d clave (rw b at e))
  ]

  module _ (R S : Cadena × V → Type 0) (clave : Cadena)
      (otra : (f : Cadena × V) → f.0 ≢ clave → R f → S f) where
    pub All-otras :
        (d : List (Cadena × V)) → All (λ (f : Cadena × V). f.0 ≢ clave) d → All R d → All S d
    All-otras [] ne h = tt
    All-otras (f ∷ d) ne h = (otra f ne.0 h.0, All-otras d ne.1 h.1)

    pub dictionary_remove-All :
        (d : List (Cadena × V)) → Claves d → All R d → All S (dictionary_remove d clave)
    unfolding dictionary_remove
    dictionary_remove-All [] c h = tt
    dictionary_remove-All ((k, w) ∷ d) c h = elim (Bool-cases (str_eq k clave)) [
      | inl b ↦
          let mismo : k ≡ clave = (str_eq_iff k clave).0 b in
          rw b (All-otras d (subst (λ x. All (λ (f : Cadena × V). f.0 ≢ x) d) mismo c.0) h.1)
      | inr b ↦ rw b (otra (k, w) (str_eq-false k clave b) h.0, dictionary_remove-All d c.1 h.1)
    ]

    pub dictionary_put-All :
        (d : List (Cadena × V)) (v : V)
        → S (clave, v)
        → Claves d
        → All R d
        → All S (dictionary_put d clave v)
    unfolding dictionary_put
    dictionary_put-All [] v s c h = (s, tt)
    dictionary_put-All ((k, w) ∷ d) v s c h = elim (Bool-cases (str_eq k clave)) [
      | inl b ↦
          let mismo : k ≡ clave = (str_eq_iff k clave).0 b in
          rw b (
            subst (λ x. S (x, v)) (sym mismo) s,
            All-otras d (subst (λ x. All (λ (f : Cadena × V). f.0 ≢ x) d) mismo c.0) h.1,
          )
      | inr b ↦ rw b (otra (k, w) (str_eq-false k clave b) h.0, dictionary_put-All d v s c.1 h.1)
    ]

  -- A key that is not there is not there after a removal, and after a put of another key.
  remove-ajena :
      (d : List (Cadena × V)) (clave k : Cadena)
      → All (λ (f : Cadena × V). f.0 ≢ k) d
      → All (λ (f : Cadena × V). f.0 ≢ k) (dictionary_remove d clave)
  unfolding dictionary_remove
  remove-ajena [] clave k h = tt
  remove-ajena ((j, w) ∷ d) clave k h = elim (Bool-cases (str_eq j clave)) [
    | inl b ↦ rw b h.1
    | inr b ↦ rw b (h.0, remove-ajena d clave k h.1)
  ]

  put-ajena :
      (d : List (Cadena × V)) (clave k : Cadena) (v : V)
      → clave ≢ k
      → All (λ (f : Cadena × V). f.0 ≢ k) d
      → All (λ (f : Cadena × V). f.0 ≢ k) (dictionary_put d clave v)
  unfolding dictionary_put
  put-ajena [] clave k v ne h = (ne, tt)
  put-ajena ((j, w) ∷ d) clave k v ne h = elim (Bool-cases (str_eq j clave)) [
    | inl b ↦ rw b h
    | inr b ↦ rw b (h.0, put-ajena d clave k v ne h.1)
  ]

  pub dictionary_remove-Claves :
      (d : List (Cadena × V)) (clave : Cadena) → Claves d → Claves (dictionary_remove d clave)
  unfolding dictionary_remove
  dictionary_remove-Claves [] clave c = tt
  dictionary_remove-Claves ((k, w) ∷ d) clave c = elim (Bool-cases (str_eq k clave)) [
    | inl b ↦ rw b c.1
    | inr b ↦ rw b (remove-ajena d clave k c.0, dictionary_remove-Claves d clave c.1)
  ]

  pub dictionary_put-Claves :
      (d : List (Cadena × V)) (clave : Cadena) (v : V)
      → Claves d
      → Claves (dictionary_put d clave v)
  unfolding dictionary_put
  dictionary_put-Claves [] clave v c = (tt, tt)
  dictionary_put-Claves ((k, w) ∷ d) clave v c = elim (Bool-cases (str_eq k clave)) [
    | inl b ↦ rw b c
    | inr b ↦ rw b (
      put-ajena d clave k v (λ e. str_eq-false k clave b (sym e)) c.0,
      dictionary_put-Claves d clave v c.1,
    )
  ]
