-- ===== src/Prelude/Diccionario.antt =====
-- The `t_dictionary` of so-commons, as the list of its entries.
use mathlib.Core.Path.{◌≡◌, refl}
use mathlib.Core.Logic.{inl, inr}
use mathlib.Core.Bool.{true}
use mathlib.Core.List.{List, [], ◌∷◌}
use mathlib.Core.Option.{Option, none, some}
use tp_2025_2c_kernel_panic.Prelude.Tests.{if◌then◌else◌, Bool-cases}
use tp_2025_2c_kernel_panic.Prelude.Cadenas.{Cadena, str_eq, str_eq_iff, str_eq_refl}

-- `dictionary_get`, `dictionary_put` and `dictionary_remove`
module _ {V : Type 0} where
  unfoldable pub dictionary_get : List (Cadena × V) → Cadena → Option V
  dictionary_get [] clave = none
  dictionary_get ((k, v) ∷ d) clave = if str_eq k clave then some v else dictionary_get d clave

  unfoldable pub dictionary_put : List (Cadena × V) → Cadena → V → List (Cadena × V)
  dictionary_put [] clave w = (clave, w) ∷ []
  dictionary_put ((k, v) ∷ d) clave w =
      if str_eq k clave then (k, w) ∷ d else (k, v) ∷ dictionary_put d clave w

  unfoldable pub dictionary_remove : List (Cadena × V) → Cadena → List (Cadena × V)
  dictionary_remove [] clave = []
  dictionary_remove ((k, v) ∷ d) clave =
      if str_eq k clave then d else (k, v) ∷ dictionary_remove d clave

module _ {V : Type 0} where
  -- What is found after an entry is put.
  pub get-put :
      (d : List (Cadena × V)) (clave k : Cadena) (v : V)
      → dictionary_get (dictionary_put d clave v) k
        ≡ (if str_eq clave k then some v else dictionary_get d k)
  unfolding dictionary_get dictionary_put
  get-put [] clave k v = refl
  get-put ((j, w) ∷ d) clave k v = elim (Bool-cases (str_eq j clave)) [
    | inl b ↦
        let mismo : j ≡ clave = (str_eq_iff j clave).0 b in
        rw (b, mismo) (elim (Bool-cases (str_eq clave k)) [ inl c ↦ rw c refl | inr c ↦ rw c refl ])
    | inr b ↦
        rw (b, get-put d clave k v)
          (elim (Bool-cases (str_eq j k)) [
            | inl c ↦
                let e : j ≡ k = (str_eq_iff j k).0 c in
                rw c (elim (Bool-cases (str_eq clave k)) [
                  | inl f ↦
                      let g : clave ≡ k = (str_eq_iff clave k).0 f in
                      let h : str_eq j clave ≡ true = rw (e, g) (str_eq_refl k) in absurd cc
                  | inr f ↦ rw f refl
                ])
            | inr c ↦ rw c refl
          ])
  ]
