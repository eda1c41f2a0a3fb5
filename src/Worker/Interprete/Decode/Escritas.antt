-- ===== src/Worker/Interprete/Decode/Escritas.antt =====
-- worker/src/query_interpreter.c: the instructions of a query as they are written, and what `decode`
-- makes of them.
use tp_2025_2c_kernel_panic.Prelude.{
  ℕ, suc, ◌+◌, ◌≡◌, ◌≢◌, List, [], ◌∷◌, ◌++◌, map, some, Bool, true, false, ◌&&◌, not, Cadena,
  codes, str_eq, if◌then◌else◌, ◌==◌, leb, pos, arith,
}
use tp_2025_2c_kernel_panic.Prelude.Decimal.{string_itoa}
use tp_2025_2c_kernel_panic.Worker.Interprete.Decode.{
  execute_create, execute_truncate, execute_write, execute_read, execute_tag, execute_commit,
  execute_flush, execute_delete, Decodificada, sin_parametros, decodificada, con_file_tag,
  incompleta,
}

-- A text without a character.
unfoldable pub sin : ℕ → Cadena → Bool
sin s [] = true
sin s (c ∷ cs) = not (c == s) && sin s cs

pub sin-append : (s : ℕ) (a b : Cadena) → sin s a ≡ true → sin s b ≡ true → sin s (a ++ b) ≡ true
unfolding sin
sin-append s [] b h k = k
sin-append s (c ∷ a) b h k = ground (arith, sin-append s a b)

-- `tolower`
unfoldable pub minuscula : ℕ → ℕ
minuscula c = if leb b'A' c && leb c b'Z' then c + 32 else c

unfoldable pub iguales_sin_caso : Cadena → Cadena → Bool
unfolding str_eq minuscula
iguales_sin_caso a b = str_eq (map minuscula a) (map minuscula b)

-- What is documented of `string_n_split`, with a separator of one character and no empty part.
pub record IsSplit (string_n_split : Cadena → ℕ → Cadena → List Cadena) : Type 0 where
  pub corta :
      (a b : Cadena) (s n : ℕ)
      → a ≢ []
      → b ≢ []
      → sin s a ≡ true
      → string_n_split (a ++ s ∷ b) (suc (suc n)) (s ∷ []) ≡ a ∷ string_n_split b (suc n) (s ∷ [])
  pub ultima : (b : Cadena) (s : ℕ) → b ≢ [] → string_n_split b 1 (s ∷ []) ≡ b ∷ []
  pub sola :
      (a : Cadena) (s n : ℕ) → a ≢ [] → sin s a ≡ true → string_n_split a (suc n) (s ∷ []) ≡ a ∷ []

-- The instructions of a query, on a file and a tag; the numbers are not negative.
pub data Instruccion : Type 0 where
  crear : Cadena → Cadena → Instruccion
  truncar : Cadena → Cadena → ℕ → Instruccion
  escribir : Cadena → Cadena → ℕ → Cadena → Instruccion
  leer : Cadena → Cadena → ℕ → ℕ → Instruccion
  etiquetar : Cadena → Cadena → Cadena → Cadena → Instruccion
  commitear : Cadena → Cadena → Instruccion
  volcar : Cadena → Cadena → Instruccion
  borrar : Cadena → Cadena → Instruccion
  terminar : Instruccion

abbrev pub file_tag : Cadena → Cadena → Cadena
file_tag f t = f ++ b':' ∷ t

-- An instruction as it is written in the file of a query: its name, what follows it.
abbrev nombre_de : Instruccion → Cadena
nombre_de (crear f t) = codes "CREATE"
nombre_de (truncar f t n) = codes "TRUNCATE"
nombre_de (escribir f t b c) = codes "WRITE"
nombre_de (leer f t b n) = codes "READ"
nombre_de (etiquetar f t g u) = codes "TAG"
nombre_de (commitear f t) = codes "COMMIT"
nombre_de (volcar f t) = codes "FLUSH"
nombre_de (borrar f t) = codes "DELETE"
nombre_de terminar = codes "END"

abbrev pub resto_de : Instruccion → Cadena
resto_de (crear f t) = file_tag f t
resto_de (truncar f t n) = file_tag f t ++ b' ' ∷ string_itoa n
resto_de (escribir f t b c) = file_tag f t ++ b' ' ∷ (string_itoa b ++ b' ' ∷ c)
resto_de (leer f t b n) = file_tag f t ++ b' ' ∷ (string_itoa b ++ b' ' ∷ string_itoa n)
resto_de (etiquetar f t g u) = file_tag f t ++ b' ' ∷ file_tag g u
resto_de (commitear f t) = file_tag f t
resto_de (volcar f t) = file_tag f t
resto_de (borrar f t) = file_tag f t
resto_de terminar = []

abbrev pub escrita : Instruccion → Cadena
escrita terminar = codes "END"
escrita i = nombre_de i ++ b' ' ∷ resto_de i

-- The parameters that an instruction has, and the function that runs it.
abbrev pub decodifica : Instruccion → Decodificada
decodifica (crear f t) = decodificada (con_file_tag sin_parametros (f, t)) execute_create
decodifica (truncar f t n) =
    decodificada (con_file_tag (record sin_parametros { tamanio = pos n }) (f, t)) execute_truncate
decodifica (escribir f t b c) =
    decodificada
      (con_file_tag (record sin_parametros { direccion_base = pos b; contenido = some c }) (f, t))
      execute_write
decodifica (leer f t b n) =
    decodificada
      (con_file_tag (record sin_parametros { direccion_base = pos b; tamanio = pos n }) (f, t))
      execute_read
decodifica (etiquetar f t g u) =
    decodificada
      (record sin_parametros {
        nombre_file_org = some f;
        tag_origen = some t;
        nombre_file_destino = some g;
        tag_destino = some u;
      })
      execute_tag
decodifica (commitear f t) = decodificada (con_file_tag sin_parametros (f, t)) execute_commit
decodifica (volcar f t) = decodificada (con_file_tag sin_parametros (f, t)) execute_flush
decodifica (borrar f t) = decodificada (con_file_tag sin_parametros (f, t)) execute_delete
decodifica terminar = record incompleta { fin = some true; instruccion_malformada = false }

-- A text with none of the characters that the code cuts at.
abbrev pub Nombre : Cadena → Type 0
Nombre x = (x ≢ []) × (sin b' ' x ≡ true) × (sin b':' x ≡ true) × (sin b'#' x ≡ true)

-- The names have none of these characters; what is written has no `#`.
abbrev pub Legible : Instruccion → Type 0
Legible (escribir f t b c) = (Nombre f × Nombre t) × (c ≢ []) × (sin b'#' c ≡ true)
Legible (etiquetar f t g u) = (Nombre f × Nombre t) × (Nombre g × Nombre u)
Legible (crear f t) = Nombre f × Nombre t
Legible (truncar f t n) = Nombre f × Nombre t
Legible (leer f t b n) = Nombre f × Nombre t
Legible (commitear f t) = Nombre f × Nombre t
Legible (volcar f t) = Nombre f × Nombre t
Legible (borrar f t) = Nombre f × Nombre t
Legible terminar = Unit
