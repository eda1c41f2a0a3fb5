-- ===== src/Storage/Bloques/Lectura.antt =====
-- storage/src/operaciones.c: what is read back of the texts that are written for BLOCKS.
use tp_2025_2c_kernel_panic.Prelude.{
  ◌<◌, ℕ, ◌≡◌, ◌≢◌, refl, sym, ◌∙◌, ap, inl, inr, List, [], ◌∷◌, ◌++◌, map, Option, Cadena, All,
  All-map, arith,
}
use tp_2025_2c_kernel_panic.Prelude.Decimal.{
  Digito, digitos, digitos-Digito, digitos-cons, string_itoa, atoi_digitos,
  atoi_digitos-string_itoa,
}
use tp_2025_2c_kernel_panic.Storage.Bloques.{
  Parte, separados, serializar_numeros, serializar_bloques, serializar_bloques_array, hasta_vacio,
  leer_bloques_actuales, IsLector,
}

separados-map :
    (n : ℕ) (ns : List ℕ) → separados (map string_itoa (n ∷ ns)) ≡ serializar_numeros (n ∷ ns)
unfolding separados serializar_numeros
separados-map n [] = refl
separados-map n (m ∷ ns) = ap (λ x. string_itoa n ++ (b',' ∷ x)) (separados-map m ns)

-- The two serializations agree: that of the numbers, and that of the array of their texts.
pub serializar_bloques-serializar_bloques_array :
    (ns : List ℕ) → serializar_bloques ns ≡ serializar_bloques_array (map string_itoa ns)
unfolding serializar_bloques serializar_bloques_array
serializar_bloques-serializar_bloques_array [] = refl
serializar_bloques-serializar_bloques_array (n ∷ ns) =
    ap (λ x. b'[' ∷ (x ++ b']' ∷ [])) (sym (separados-map n ns))

string_itoa-Parte : (ns : List ℕ) → All Parte (map string_itoa ns)
unfolding string_itoa
string_itoa-Parte [] = tt
string_itoa-Parte (n ∷ ns) = (
  (
    (λ e. let (c, cs, f) = digitos-cons n n in cc),
    All-map Digito (λ x. (x ≢ b',') × (b' ' < x))
        (λ c h. ((λ e. omega (arith, h.0, e)), omega (arith, h.0))) (digitos n n)
        (digitos-Digito n n (omega arith)),
  ),
  string_itoa-Parte ns,
)

hasta_vacio-map : (ns : List ℕ) → hasta_vacio (map string_itoa ns) ≡ ns
unfolding hasta_vacio string_itoa
hasta_vacio-map [] = refl
hasta_vacio-map (n ∷ ns) =
    let (c, cs, e) = digitos-cons n n in
    let numero : atoi_digitos (c ∷ cs) ≡ n = ap atoi_digitos (sym e) ∙ atoi_digitos-string_itoa n in
    let resto = hasta_vacio-map ns in
    ap (λ x. hasta_vacio (x ∷ map string_itoa ns)) e ∙ (λ i. numero i ∷ resto i)

-- The list of blocks that `serializar_bloques` writes is the one that `leer_bloques_actuales` reads, for a
-- `config_get_array_value` that splits a text in brackets at its commas, when its parts are not empty and
-- have no comma, space or control character.
pub leer_bloques_actuales-serializar_bloques :
    (config_get_array_value : Cadena → Option (List Cadena))
    → IsLector config_get_array_value
    → (ns : List ℕ) → leer_bloques_actuales (config_get_array_value (serializar_bloques ns)) ≡ ns
unfolding leer_bloques_actuales
leer_bloques_actuales-serializar_bloques f h [] = elim h.vacia [
  | inl e ↦ rw (serializar_bloques-serializar_bloques_array [], e) refl
  | inr e ↦ rw (serializar_bloques-serializar_bloques_array [], e) refl
]
leer_bloques_actuales-serializar_bloques f h (n ∷ ns) =
    rw
      (
        serializar_bloques-serializar_bloques_array (n ∷ ns),
        h.llena (string_itoa n) (map string_itoa ns) (string_itoa-Parte (n ∷ ns)),
      )
      (hasta_vacio-map (n ∷ ns))
