-- ===== src/Worker/Interprete/Decode/IdaYVuelta.antt =====
-- worker/src/query_interpreter.c: `decode` gives back an instruction that is written in order.
use tp_2025_2c_kernel_panic.Prelude.{
  ℕ, ◌≡◌, ◌≢◌, refl, ◌∙◌, List, [], ◌∷◌, ◌++◌, some, Bool, true, Cadena, codes, str_eq, arith,
}
use tp_2025_2c_kernel_panic.Prelude.Decimal.{string_itoa}
use tp_2025_2c_kernel_panic.Worker.Interprete.Decode.{
  execute_create, execute_commit, execute_flush, execute_delete, con_resto, decode_nombre, decode,
}
use tp_2025_2c_kernel_panic.Worker.Interprete.Decode.Escritas.{
  sin, sin-append, minuscula, iguales_sin_caso, IsSplit, Nombre, Legible, file_tag, Instruccion,
  crear, truncar, escribir, leer, etiquetar, commitear, volcar, borrar, terminar, resto_de, escrita,
  decodifica,
}
use tp_2025_2c_kernel_panic.Worker.Interprete.Decode.Partes.{
  lleno, string_itoa-sin, file_tag-sin, sin_comentario_igual, en_dos, decode_file_tag-file_tag,
  decode_truncate-truncar, decode_write-escribir, decode_read-leer, decode_tag-etiquetar,
}

-- No `#` in the names.
nombres : (f t : Cadena) → Nombre f → Nombre t → sin b'#' (file_tag f t) ≡ true
nombres f t (k, l, m, o) (p, q, r, s) = file_tag-sin b'#' f t o refl s

-- No `#` in two parts with a space between.
con_espacio :
    (a b : Cadena) → sin b'#' a ≡ true → sin b'#' b ≡ true → sin b'#' (a ++ b' ' ∷ b) ≡ true
unfolding sin
con_espacio a b h k = sin-append b'#' a (b' ' ∷ b) h k

numero : (n : ℕ) → sin b'#' (string_itoa n) ≡ true
numero n = string_itoa-sin b'#' n (omega arith)

module _ (string_trim : Cadena → Cadena) (string_n_split : Cadena → ℕ → Cadena → List Cadena)
    (hs : IsSplit string_n_split) where
  -- The name and what follows it are taken apart at the first space.
  decode-nombre :
      (nombre resto : Cadena)
      → nombre ≢ []
      → resto ≢ []
      → sin b' ' nombre ≡ true
      → sin b'#' nombre ≡ true
      → sin b'#' resto ≡ true
      → decode string_trim string_n_split iguales_sin_caso (some (nombre ++ b' ' ∷ resto))
        ≡ decode_nombre string_trim string_n_split iguales_sin_caso nombre (some resto)
  unfolding decode
  decode-nombre nombre resto h k l m o =
      rw
        (
          sin_comentario_igual string_trim string_n_split iguales_sin_caso (nombre ++ b' ' ∷ resto)
              (con_espacio nombre resto m o),
          decode,
          en_dos string_trim string_n_split iguales_sin_caso hs nombre resto b' ' h k l,
        )
        refl

  sin_caso-escrita :
      (i : Instruccion)
      → Legible i
      → decode string_trim string_n_split iguales_sin_caso (some (escrita i)) ≡ some (decodifica i)
  unfolding decode decode_nombre con_resto iguales_sin_caso str_eq minuscula sin
  sin_caso-escrita (crear f t) (k, l) =
      decode-nombre (codes "CREATE") (file_tag f t) (λ e. cc) (lleno f t b':') refl refl
        (nombres f t k l)
      ∙ decode_file_tag-file_tag string_trim string_n_split iguales_sin_caso hs execute_create f t k
          l
  sin_caso-escrita (truncar f t n) (k, l) =
      decode-nombre (codes "TRUNCATE") (resto_de (truncar f t n)) (λ e. cc)
        (lleno (file_tag f t) (string_itoa n) b' ') refl refl
        (con_espacio (file_tag f t) (string_itoa n) (nombres f t k l) (numero n))
      ∙ decode_truncate-truncar string_trim string_n_split iguales_sin_caso hs f t n k l
  sin_caso-escrita (escribir f t b c) ((k, l), m, o) =
      decode-nombre (codes "WRITE") (resto_de (escribir f t b c)) (λ e. cc)
        (lleno (file_tag f t) (string_itoa b ++ b' ' ∷ c) b' ') refl refl
        (con_espacio (file_tag f t) (string_itoa b ++ b' ' ∷ c) (nombres f t k l)
          (con_espacio (string_itoa b) c (numero b) o))
      ∙ decode_write-escribir string_trim string_n_split iguales_sin_caso hs f t b c k l m
  sin_caso-escrita (leer f t b n) (k, l) =
      decode-nombre (codes "READ") (resto_de (leer f t b n)) (λ e. cc)
        (lleno (file_tag f t) (string_itoa b ++ b' ' ∷ string_itoa n) b' ') refl refl
        (con_espacio (file_tag f t) (string_itoa b ++ b' ' ∷ string_itoa n) (nombres f t k l)
          (con_espacio (string_itoa b) (string_itoa n) (numero b) (numero n)))
      ∙ decode_read-leer string_trim string_n_split iguales_sin_caso hs f t b n k l
  sin_caso-escrita (etiquetar f t g u) ((k, l), (m, o)) =
      decode-nombre (codes "TAG") (resto_de (etiquetar f t g u)) (λ e. cc)
        (lleno (file_tag f t) (file_tag g u) b' ') refl refl
        (con_espacio (file_tag f t) (file_tag g u) (nombres f t k l) (nombres g u m o))
      ∙ decode_tag-etiquetar string_trim string_n_split iguales_sin_caso hs f t g u k l m o
  sin_caso-escrita (commitear f t) (k, l) =
      decode-nombre (codes "COMMIT") (file_tag f t) (λ e. cc) (lleno f t b':') refl refl
        (nombres f t k l)
      ∙ decode_file_tag-file_tag string_trim string_n_split iguales_sin_caso hs execute_commit f t k
          l
  sin_caso-escrita (volcar f t) (k, l) =
      decode-nombre (codes "FLUSH") (file_tag f t) (λ e. cc) (lleno f t b':') refl refl
        (nombres f t k l)
      ∙ decode_file_tag-file_tag string_trim string_n_split iguales_sin_caso hs execute_flush f t k
          l
  sin_caso-escrita (borrar f t) (k, l) =
      decode-nombre (codes "DELETE") (file_tag f t) (λ e. cc) (lleno f t b':') refl refl
        (nombres f t k l)
      ∙ decode_file_tag-file_tag string_trim string_n_split iguales_sin_caso hs execute_delete f t k
          l
  sin_caso-escrita terminar h =
      rw
        (
          sin_comentario_igual string_trim string_n_split iguales_sin_caso (codes "END") refl,
          decode,
          hs.sola (codes "END") b' ' 1 (λ e. cc) refl,
        )
        refl

  -- For a `string_n_split` that cuts at a separator and a `string_equals_ignore_case` that compares
  -- without the case: `decode` of an instruction as it is written gives the function that runs it and
  -- all of its parameters, when its names are not empty and have no space, `:` nor `#`, what is written is
  -- not empty and has no `#`, and its numbers are not negative.
  pub decode-escrita :
      (string_equals_ignore_case : Cadena → Cadena → Bool)
      → string_equals_ignore_case ≡ iguales_sin_caso
      → (i : Instruccion) → Legible i
      → decode string_trim string_n_split string_equals_ignore_case (some (escrita i))
        ≡ some (decodifica i)
  decode-escrita string_equals_ignore_case h i l = rw h (sin_caso-escrita i l)
