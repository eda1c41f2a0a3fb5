-- ===== src/Worker/Interprete/Decode.antt =====
-- worker/src/query_interpreter.c: `decode`, the parsing of one instruction. `string_trim`,
-- `string_n_split` and `string_equals_ignore_case` are the library's, parameters; an array of texts is
-- the list of those before its NULL.
pub mod Escritas
pub mod Errores
pub mod IdaYVuelta
pub mod Partes
use tp_2025_2c_kernel_panic.Prelude.{
  ℕ, zero, suc, ◌+◌, ◌-◌, ◌*◌, List, [], ◌∷◌, Option, none, some, Bool, true, false, not, ◌&&◌,
  ◌||◌, Cadena, codes, if◌then◌else◌, ◌==◌, leb, ℤ, pos, negsuc, get_elem?,
}
use tp_2025_2c_kernel_panic.Prelude.Decimal.{atoi_digitos}

infixl 5 ◌>>=◌
abbrev pub ◌>>=◌ : {A B : Type 0} → Option A → (A → Option B) → Option B
none >>= f = none
some a >>= f = f a

-- Which function `execute` calls.
pub data Ejecuta : Type 0 where
  execute_create : Ejecuta
  execute_truncate : Ejecuta
  execute_write : Ejecuta
  execute_read : Ejecuta
  execute_tag : Ejecuta
  execute_commit : Ejecuta
  execute_flush : Ejecuta
  execute_delete : Ejecuta

-- `t_instr_param` less `nomb_instr`, which nothing sets. The texts are `none` for NULL.
pub record InstrParam : Type 0 where
  pub nombre_file : Option Cadena
  pub tag : Option Cadena
  pub tamanio : ℤ
  pub direccion_base : ℤ
  pub contenido : Option Cadena
  pub nombre_file_org : Option Cadena
  pub tag_origen : Option Cadena
  pub nombre_file_destino : Option Cadena
  pub tag_destino : Option Cadena

-- `t_decode`: `none` for a field that was not set after the `malloc`.
pub record Decodificada : Type 0 where
  pub fin : Option Bool
  pub parametros : InstrParam
  pub ejecuta_instruccion : Option Ejecuta
  pub instruccion_malformada : Bool

-- `calloc`
abbrev pub sin_parametros : InstrParam
sin_parametros = record {
  nombre_file = none;
  tag = none;
  tamanio = pos 0;
  direccion_base = pos 0;
  contenido = none;
  nombre_file_org = none;
  tag_origen = none;
  nombre_file_destino = none;
  tag_destino = none;
}

abbrev pub decodificada : InstrParam → Ejecuta → Decodificada
decodificada p e = record {
  fin = some false;
  parametros = p;
  ejecuta_instruccion = some e;
  instruccion_malformada = false;
}

abbrev pub con_file_tag : InstrParam → Cadena × Cadena → InstrParam
con_file_tag p (f, t) = record p { nombre_file = some f; tag = some t }

-- The `return` of a known instruction that has no parameters.
abbrev pub incompleta : Decodificada
incompleta = record {
  fin = none;
  parametros = sin_parametros;
  ejecuta_instruccion = none;
  instruccion_malformada = true;
}

-- `isspace`
unfoldable pub es_espacio : ℕ → Bool
es_espacio c = c == 32 || (leb 9 c && leb c 13)

unfoldable pub menos : ℕ → ℤ
menos zero = pos 0
menos (suc n) = negsuc n

-- `atoi` of C. A number that an `int` does not hold is not cut.
unfoldable pub atoi : Cadena → ℤ
unfolding es_espacio atoi_digitos menos
atoi [] = pos 0
atoi (c ∷ cs) =
    let resto = atoi cs in
    if es_espacio c
    then resto
    else if c == b'-'
    then menos (atoi_digitos cs)
    else if c == b'+'
    then pos (atoi_digitos cs)
    else pos (atoi_digitos (c ∷ cs))

-- `strchr` and the cut at the comment: `none` when there is none.
unfoldable pub hasta_comentario : Cadena → Option Cadena
hasta_comentario [] = none
hasta_comentario (c ∷ cs) =
    let resto = hasta_comentario cs in
    if c == b'#' then some [] else elim resto [ none ↦ none | some r ↦ some (c ∷ r) ]

module _ (string_trim : Cadena → Cadena) (string_n_split : Cadena → ℕ → Cadena → List Cadena)
    (string_equals_ignore_case : Cadena → Cadena → Bool) where
  -- The instruction without the comment that follows it.
  unfoldable pub sin_comentario : Cadena → Cadena
  unfolding hasta_comentario
  sin_comentario i = elim (hasta_comentario i) [ none ↦ i | some antes ↦ string_trim antes ]

  unfoldable pub aux_separar_file_tag : Cadena → List Cadena
  aux_separar_file_tag cadena = string_n_split cadena 2 (codes ":")

  -- The copies of the two parts; `none` when one is NULL.
  unfoldable pub duplicar_file_tag : Cadena → Option (Cadena × Cadena)
  unfolding aux_separar_file_tag
  duplicar_file_tag cadena =
      let file_tag = aux_separar_file_tag cadena in
      get_elem? file_tag 0 >>= λ file. get_elem? file_tag 1 >>= λ tag. some (file, tag)

  -- CREATE, COMMIT, FLUSH and DELETE.
  unfoldable pub decode_file_tag : Ejecuta → Cadena → Option Decodificada
  unfolding duplicar_file_tag
  decode_file_tag e resto =
      duplicar_file_tag resto >>= λ f. some (decodificada (con_file_tag sin_parametros f) e)

  unfoldable pub decode_truncate : Cadena → Option Decodificada
  unfolding duplicar_file_tag atoi
  decode_truncate resto =
      let partes = string_n_split resto 2 (codes " ") in
      get_elem? partes 1 >>= λ tam. get_elem? partes 0 >>= λ nombre.
      duplicar_file_tag nombre >>= λ f. some (
        decodificada (con_file_tag (record sin_parametros { tamanio = atoi tam }) f)
          execute_truncate)

  unfoldable pub decode_write : Cadena → Option Decodificada
  unfolding duplicar_file_tag atoi
  decode_write resto =
      let partes = string_n_split resto 3 (codes " ") in
      get_elem? partes 1 >>= λ base. get_elem? partes 2 >>= λ texto.
      get_elem? partes 0 >>= λ nombre. duplicar_file_tag nombre >>= λ f. some (
        decodificada
          (con_file_tag
            (record sin_parametros { direccion_base = atoi base; contenido = some texto }) f)
          execute_write)

  unfoldable pub decode_read : Cadena → Option Decodificada
  unfolding duplicar_file_tag atoi
  decode_read resto =
      let partes = string_n_split resto 3 (codes " ") in
      get_elem? partes 1 >>= λ base. get_elem? partes 2 >>= λ tam. get_elem? partes 0 >>= λ nombre.
      duplicar_file_tag nombre >>= λ f. some (
        decodificada
          (con_file_tag (record sin_parametros { direccion_base = atoi base; tamanio = atoi tam })
            f)
          execute_read)

  unfoldable pub decode_tag : Cadena → Option Decodificada
  unfolding duplicar_file_tag
  decode_tag resto =
      let partes = string_n_split resto 2 (codes " ") in
      get_elem? partes 0 >>= λ origen. get_elem? partes 1 >>= λ destino.
      duplicar_file_tag origen >>= λ o. duplicar_file_tag destino >>= λ d. some (
        decodificada
          (record sin_parametros {
            nombre_file_org = some o.0;
            tag_origen = some o.1;
            nombre_file_destino = some d.0;
            tag_destino = some d.1;
          })
          execute_tag)

  -- A known instruction, on what follows its name.
  unfoldable pub con_resto : Option Cadena → (Cadena → Option Decodificada) → Option Decodificada
  con_resto none f = some incompleta
  con_resto (some resto) f = f resto

  -- The comparisons with the names, in their order, on the name and on what follows it.
  unfoldable pub decode_nombre : Cadena → Option Cadena → Option Decodificada
  unfolding decode_file_tag decode_truncate decode_write decode_read decode_tag con_resto
  decode_nombre nombre resto =
      if string_equals_ignore_case nombre (codes "CREATE")
      then resto >>= decode_file_tag execute_create
      else if string_equals_ignore_case nombre (codes "TRUNCATE")
      then con_resto resto decode_truncate
      else if string_equals_ignore_case nombre (codes "WRITE")
      then con_resto resto decode_write
      else if string_equals_ignore_case nombre (codes "READ")
      then con_resto resto decode_read
      else if string_equals_ignore_case nombre (codes "TAG")
      then con_resto resto decode_tag
      else if string_equals_ignore_case nombre (codes "COMMIT")
      then con_resto resto (decode_file_tag execute_commit)
      else if string_equals_ignore_case nombre (codes "FLUSH")
      then con_resto resto (decode_file_tag execute_flush)
      else if string_equals_ignore_case nombre (codes "DELETE")
      then con_resto resto (decode_file_tag execute_delete)
      else if string_equals_ignore_case nombre (codes "END")
      then some (record incompleta { fin = some true; instruccion_malformada = false })
      else some (record incompleta { fin = some false })

  -- `none` is an access through NULL, that of the instruction included.
  unfoldable pub decode : Option Cadena → Option Decodificada
  unfolding sin_comentario decode_nombre
  decode instruccion = instruccion >>= λ i.
      let parametros = string_n_split (sin_comentario i) 2 (codes " ") in
      get_elem? parametros 0 >>= λ nombre. decode_nombre nombre (get_elem? parametros 1)
