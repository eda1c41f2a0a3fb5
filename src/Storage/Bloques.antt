-- ===== src/Storage/Bloques.antt =====
-- storage/src/operaciones.c: the texts of the key BLOCKS of a metadata.config. What so-commons reads back
-- from them is a parameter.
pub mod Lectura
use tp_2025_2c_kernel_panic.Prelude.{
  ℕ, zero, suc, ◌+◌, ◌-◌, ◌*◌, ◌/◌, ◌%◌, ◌≤◌, ◌<◌, ◌≡◌, ◌≢◌, refl, sym, ◌∙◌, ap, inl, inr, ◌⊎◌,
  List, [], ◌∷◌, ◌++◌, map, Option, none, some, Bool, true, false, ◌&&◌, Cadena, if◌then◌else◌,
  Bool-cases, ltb, leb, ◌==◌, All, arith,
}
use tp_2025_2c_kernel_panic.Prelude.Decimal.{string_itoa, atoi_digitos}

-- The loop of `serializar_bloques`, with a comma after each block but the last.
unfoldable pub separados : List Cadena → Cadena
separados [] = []
separados (c ∷ []) = c
separados (c ∷ d ∷ cs) = c ++ (b',' ∷ separados (d ∷ cs))

unfoldable pub serializar_numeros : List ℕ → Cadena
serializar_numeros [] = []
serializar_numeros (n ∷ []) = string_itoa n
serializar_numeros (n ∷ m ∷ ns) = string_itoa n ++ (b',' ∷ serializar_numeros (m ∷ ns))

unfoldable pub serializar_bloques : List ℕ → Cadena
unfolding serializar_numeros
serializar_bloques ns = b'[' ∷ (serializar_numeros ns ++ b']' ∷ [])

-- `serializar_bloques_array`, on the texts of the blocks.
unfoldable pub serializar_bloques_array : List Cadena → Cadena
unfolding separados
serializar_bloques_array [] = b'[' ∷ b']' ∷ []
serializar_bloques_array (c ∷ cs) = b'[' ∷ (separados (c ∷ cs) ++ b']' ∷ [])

-- The texts up to the first empty one, as numbers.
unfoldable pub hasta_vacio : List Cadena → List ℕ
unfolding atoi_digitos
hasta_vacio [] = []
hasta_vacio ([] ∷ cs) = []
hasta_vacio ((x ∷ xs) ∷ cs) = atoi_digitos (x ∷ xs) ∷ hasta_vacio cs

-- `get_array_length`: the array of so-commons ends at a NULL.
unfoldable pub get_array_length : Option (List Cadena) → ℕ
get_array_length none = 0
get_array_length (some []) = 0
get_array_length (some (c ∷ cs)) = suc (get_array_length (some cs))

-- `leer_bloques_actuales`, on what `config_get_array_value` answers: `none` is NULL.
unfoldable pub leer_bloques_actuales : Option (List Cadena) → List ℕ
unfolding hasta_vacio
leer_bloques_actuales none = []
leer_bloques_actuales (some cs) = hasta_vacio cs

-- `extraer_numero_bloque`, of "blockXXXX": -1 for a text of fewer than five characters.
unfoldable pub extraer_numero_bloque : Cadena → Option ℕ
unfolding atoi_digitos
extraer_numero_bloque (a ∷ b ∷ c ∷ d ∷ e ∷ cs) = some (atoi_digitos cs)
extraer_numero_bloque cs = none

-- What is relied on of `config_get_array_value`: it splits a text in brackets at its commas, when each part
-- has a character and none of them is a comma, a space or a control character, since spaces around a part
-- are cut. An empty list is read as no text, or as one that is empty.
abbrev pub Parte : Cadena → Type 0
Parte c = (c ≢ []) × All (λ x. (x ≢ b',') × (b' ' < x)) c

pub record IsLector (config_get_array_value : Cadena → Option (List Cadena)) : Type 0 where
  pub vacia :
      (config_get_array_value (serializar_bloques_array []) ≡ some [])
      ⊎ (config_get_array_value (serializar_bloques_array []) ≡ some ([] ∷ []))
  pub llena :
      (c : Cadena) (cs : List Cadena)
      → All Parte (c ∷ cs)
      → config_get_array_value (serializar_bloques_array (c ∷ cs)) ≡ some (c ∷ cs)
