-- ===== src/Tests/Bloques.antt =====
-- storage/src/operaciones.c: the texts of BLOCKS, with a reader that splits them at the commas.
use tp_2025_2c_kernel_panic.Prelude.{
  ◌<◌, All-map, ℕ, ◌≡◌, ◌≢◌, refl, inl, inr, sym, ◌∙◌, ap, List, [], ◌∷◌, ◌++◌, map, Option, none,
  some, false, Cadena, ==_iff, ◌==◌, if◌then◌else◌, All, Bool-cases,
}
use tp_2025_2c_kernel_panic.Prelude.Decimal.{string_itoa}
use tp_2025_2c_kernel_panic.Storage.Bloques.{
  Parte, serializar_bloques, serializar_bloques_array, leer_bloques_actuales, IsLector, separados,
}
use tp_2025_2c_kernel_panic.Storage.Bloques.Lectura.{
  serializar_bloques-serializar_bloques_array, leer_bloques_actuales-serializar_bloques,
}

-- Splits a text at its commas.
abbrev partir : Cadena → Cadena → List Cadena
partir acumulado [] = acumulado ∷ []
partir acumulado (c ∷ cs) =
    let junto = partir (acumulado ++ c ∷ []) cs in
    let aparte = acumulado ∷ partir [] cs in if c == b',' then aparte else junto

abbrev sin_ultimo : Cadena → Cadena
sin_ultimo [] = []
sin_ultimo (c ∷ []) = []
sin_ultimo (c ∷ d ∷ cs) = c ∷ sin_ultimo (d ∷ cs)

abbrev leer_array : Cadena → Option (List Cadena)
leer_array [] = none
leer_array (c ∷ cs) = some (partir [] (sin_ultimo cs))

sin_ultimo-append : (cs : Cadena) (z : ℕ) → sin_ultimo (cs ++ z ∷ []) ≡ cs
sin_ultimo-append [] z = refl
sin_ultimo-append (c ∷ []) z = refl
sin_ultimo-append (c ∷ d ∷ cs) z = ap (◌∷◌ c) (sin_ultimo-append (d ∷ cs) z)

append_assoc : (xs ys zs : Cadena) → (xs ++ ys) ++ zs ≡ xs ++ (ys ++ zs)
append_assoc [] ys zs = refl
append_assoc (x ∷ xs) ys zs = ap (◌∷◌ x) (append_assoc xs ys zs)

append_nil : (xs : Cadena) → xs ++ [] ≡ xs
append_nil [] = refl
append_nil (x ∷ xs) = ap (◌∷◌ x) (append_nil xs)

no_es : (x : ℕ) → x ≢ b',' → (x == b',') ≡ false
no_es x h = elim (Bool-cases (x == b',')) [ inl b ↦ absurd (h ((==_iff x b',').0 b)) | inr b ↦ b ]

partir-fin : (a c : Cadena) → All (λ x. x ≢ b',') c → partir a c ≡ (a ++ c) ∷ []
partir-fin a [] h = ap (λ x. x ∷ []) (sym (append_nil a))
partir-fin a (x ∷ c) h =
    let no : (x == b',') ≡ false = no_es x h.0 in
    rw no (partir-fin (a ++ x ∷ []) c h.1 ∙ ap (λ y. y ∷ []) (append_assoc a (x ∷ []) c))

partir-coma :
    (a c r : Cadena) → All (λ x. x ≢ b',') c → partir a (c ++ (b',' ∷ r)) ≡ (a ++ c) ∷ partir [] r
partir-coma a [] r h = ap (λ x. x ∷ partir [] r) (sym (append_nil a))
partir-coma a (x ∷ c) r h =
    let no : (x == b',') ≡ false = no_es x h.0 in
    rw no
      (partir-coma (a ++ x ∷ []) c r h.1 ∙ ap (λ y. y ∷ partir [] r) (append_assoc a (x ∷ []) c))

sin_coma : (c : Cadena) → Parte c → All (λ x. x ≢ b',') c
sin_coma c h = All-map (λ (x : ℕ). (x ≢ b',') × (b' ' < x)) (λ x. x ≢ b',') (λ x k. k.0) c h.1

partir-separados :
    (c : Cadena) (cs : List Cadena) → All Parte (c ∷ cs) → partir [] (separados (c ∷ cs)) ≡ c ∷ cs
unfolding separados
partir-separados c [] h = partir-fin [] c (sin_coma c h.0)
partir-separados c (d ∷ cs) h =
    partir-coma [] c (separados (d ∷ cs)) (sin_coma c h.0) ∙ ap (◌∷◌ c) (partir-separados d cs h.1)

leer_array-IsLector : IsLector leer_array
unfolding serializar_bloques_array
leer_array-IsLector = record {
  vacia = inr refl;
  llena = λ c cs h.
      ap (λ x. some (partir [] x)) (sin_ultimo-append (separados (c ∷ cs)) b']')
      ∙ ap some (partir-separados c cs h);
}

leer_bloques_actuales-serializar_bloques_example :
    leer_bloques_actuales (leer_array (serializar_bloques (0 ∷ 12 ∷ 305 ∷ []))) ≡ 0 ∷ 12 ∷ 305 ∷ []
leer_bloques_actuales-serializar_bloques_example =
    leer_bloques_actuales-serializar_bloques leer_array leer_array-IsLector (0 ∷ 12 ∷ 305 ∷ [])

serializar_bloques-serializar_bloques_array_example :
    serializar_bloques (0 ∷ 12 ∷ 305 ∷ [])
    ≡ serializar_bloques_array (map string_itoa (0 ∷ 12 ∷ 305 ∷ []))
serializar_bloques-serializar_bloques_array_example =
    serializar_bloques-serializar_bloques_array (0 ∷ 12 ∷ 305 ∷ [])
