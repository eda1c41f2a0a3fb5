-- ===== src/Worker/Interprete/Decode/Partes.antt =====
-- worker/src/query_interpreter.c: how `decode` takes apart an instruction that is written in order.
use tp_2025_2c_kernel_panic.Prelude.{
  ℕ, ◌<◌, ◌≡◌, ◌≢◌, refl, ◌∙◌, ap, List, [], ◌∷◌, ◌++◌, none, some, Bool, true, false, Cadena, ◌==◌,
  pos, All, arith,
}
use tp_2025_2c_kernel_panic.Prelude.Decimal.{
  Digito, digitos-Digito, string_itoa, digitos-cons, atoi_digitos, atoi_digitos-string_itoa,
}
use tp_2025_2c_kernel_panic.Worker.Interprete.Decode.{
  Ejecuta, sin_parametros, decodificada, con_file_tag, es_espacio, atoi, hasta_comentario,
  sin_comentario, aux_separar_file_tag, duplicar_file_tag, decode_file_tag, decode_truncate,
  decode_write, decode_read, decode_tag,
}
use tp_2025_2c_kernel_panic.Worker.Interprete.Decode.Escritas.{
  sin, sin-append, IsSplit, file_tag, Nombre, decodifica, truncar, escribir, leer, etiquetar,
  resto_de,
}

pub lleno : (a b : Cadena) (c : ℕ) → a ++ c ∷ b ≢ []
lleno [] b c h = cc
lleno (x ∷ a) b c h = cc

Digito-sin : (s : ℕ) (cs : Cadena) → s < b'0' → All Digito cs → sin s cs ≡ true
unfolding sin
Digito-sin s [] h k = refl
Digito-sin s (c ∷ cs) h k =
    let otro : (c == s) ≡ false = ground (arith, h, k.0) in rw otro (Digito-sin s cs h k.1)

pub string_itoa-sin : (s n : ℕ) → s < b'0' → sin s (string_itoa n) ≡ true
unfolding string_itoa
string_itoa-sin s n h = Digito-sin s _ h (digitos-Digito n n (omega arith))

string_itoa_lleno : (n : ℕ) → string_itoa n ≢ []
unfolding string_itoa
string_itoa_lleno n h = let (c, cs, e) = digitos-cons n n in cc

atoi-Digito : (c : ℕ) (cs : Cadena) → Digito c → atoi (c ∷ cs) ≡ pos (atoi_digitos (c ∷ cs))
unfolding atoi es_espacio
atoi-Digito c cs h = ground (arith, h.0, h.1)

atoi-string_itoa : (n : ℕ) → atoi (string_itoa n) ≡ pos n
unfolding string_itoa
atoi-string_itoa n =
    let (c, cs, e) = digitos-cons n n in
    let d : All Digito (c ∷ cs) = rw e at (digitos-Digito n n (omega arith)) in
    let v : atoi_digitos (c ∷ cs) ≡ n = rw e at (atoi_digitos-string_itoa n) in
    rw e (atoi-Digito c cs d.0 ∙ ap pos v)

pub file_tag-sin :
    (s : ℕ) (f t : Cadena)
    → sin s f ≡ true
    → (b':' == s) ≡ false
    → sin s t ≡ true
    → sin s (file_tag f t) ≡ true
unfolding sin
file_tag-sin s f t h k l = sin-append s f (b':' ∷ t) h (rw k l)

hasta_comentario-sin : (i : Cadena) → sin b'#' i ≡ true → hasta_comentario i ≡ none
unfolding hasta_comentario sin
hasta_comentario-sin [] h = refl
hasta_comentario-sin (c ∷ cs) h = ground (arith, hasta_comentario-sin cs)

module _ (string_trim : Cadena → Cadena) (string_n_split : Cadena → ℕ → Cadena → List Cadena)
    (string_equals_ignore_case : Cadena → Cadena → Bool) where
  pub sin_comentario_igual :
      (i : Cadena)
      → sin b'#' i ≡ true
      → sin_comentario string_trim string_n_split string_equals_ignore_case i ≡ i
  unfolding sin_comentario
  sin_comentario_igual i h = rw (hasta_comentario-sin i h, sin_comentario) refl

module _ (string_trim : Cadena → Cadena) (string_n_split : Cadena → ℕ → Cadena → List Cadena)
    (string_equals_ignore_case : Cadena → Cadena → Bool) (h : IsSplit string_n_split) where
  pub en_dos :
      (a b : Cadena) (s : ℕ)
      → a ≢ []
      → b ≢ []
      → sin s a ≡ true
      → string_n_split (a ++ s ∷ b) 2 (s ∷ []) ≡ a ∷ b ∷ []
  en_dos a b s k l m = h.corta a b s 0 k l m ∙ ap (◌∷◌ a) (h.ultima b s l)

  en_tres :
      (a b c : Cadena) (s : ℕ)
      → a ≢ []
      → b ≢ []
      → c ≢ []
      → sin s a ≡ true
      → sin s b ≡ true
      → string_n_split (a ++ s ∷ (b ++ s ∷ c)) 3 (s ∷ []) ≡ a ∷ b ∷ c ∷ []
  en_tres a b c s k l m o p =
      h.corta a (b ++ s ∷ c) s 1 k (lleno b c s) o ∙ ap (◌∷◌ a) (en_dos b c s l m p)

  duplicar_file_tag-file_tag :
      (f t : Cadena)
      → Nombre f
      → Nombre t
      → duplicar_file_tag string_trim string_n_split string_equals_ignore_case (file_tag f t)
        ≡ some (f, t)
  unfolding duplicar_file_tag aux_separar_file_tag
  duplicar_file_tag-file_tag f t (k, l, m, o) n = rw (en_dos f t b':' k n.0 m) refl

  pub decode_file_tag-file_tag :
      (e : Ejecuta) (f t : Cadena)
      → Nombre f
      → Nombre t
      → decode_file_tag string_trim string_n_split string_equals_ignore_case e (file_tag f t)
        ≡ some (decodificada (con_file_tag sin_parametros (f, t)) e)
  unfolding decode_file_tag
  decode_file_tag-file_tag e f t k l = rw (duplicar_file_tag-file_tag f t k l) refl

  -- The names, before a space.
  junto : (f t : Cadena) → Nombre f → Nombre t → sin b' ' (file_tag f t) ≡ true
  junto f t (k, l, m, o) (p, q, r, s) = file_tag-sin b' ' f t l refl q

  pub decode_truncate-truncar :
      (f t : Cadena) (n : ℕ)
      → Nombre f
      → Nombre t
      → decode_truncate string_trim string_n_split string_equals_ignore_case
          (resto_de (truncar f t n))
        ≡ some (decodifica (truncar f t n))
  unfolding decode_truncate
  decode_truncate-truncar f t n k l =
      rw
        (
          en_dos (file_tag f t) (string_itoa n) b' ' (lleno f t b':') (string_itoa_lleno n)
              (junto f t k l),
          duplicar_file_tag-file_tag f t k l,
          atoi-string_itoa n,
        )
        refl

  pub decode_write-escribir :
      (f t : Cadena) (b : ℕ) (c : Cadena)
      → Nombre f
      → Nombre t
      → c ≢ []
      → decode_write string_trim string_n_split string_equals_ignore_case
          (resto_de (escribir f t b c))
        ≡ some (decodifica (escribir f t b c))
  unfolding decode_write
  decode_write-escribir f t b c k l m =
      rw
        (
          en_tres (file_tag f t) (string_itoa b) c b' ' (lleno f t b':') (string_itoa_lleno b) m
              (junto f t k l) (string_itoa-sin b' ' b (omega arith)),
          duplicar_file_tag-file_tag f t k l,
          atoi-string_itoa b,
        )
        refl

  pub decode_read-leer :
      (f t : Cadena) (b n : ℕ)
      → Nombre f
      → Nombre t
      → decode_read string_trim string_n_split string_equals_ignore_case (resto_de (leer f t b n))
        ≡ some (decodifica (leer f t b n))
  unfolding decode_read
  decode_read-leer f t b n k l =
      rw
        (
          en_tres (file_tag f t) (string_itoa b) (string_itoa n) b' ' (lleno f t b':')
              (string_itoa_lleno b) (string_itoa_lleno n) (junto f t k l)
              (string_itoa-sin b' ' b (omega arith)),
          duplicar_file_tag-file_tag f t k l,
          atoi-string_itoa b,
          atoi-string_itoa n,
        )
        refl

  pub decode_tag-etiquetar :
      (f t g u : Cadena)
      → Nombre f
      → Nombre t
      → Nombre g
      → Nombre u
      → decode_tag string_trim string_n_split string_equals_ignore_case
          (resto_de (etiquetar f t g u))
        ≡ some (decodifica (etiquetar f t g u))
  unfolding decode_tag
  decode_tag-etiquetar f t g u k l m o =
      rw
        (
          en_dos (file_tag f t) (file_tag g u) b' ' (lleno f t b':') (lleno g u b':')
              (junto f t k l),
          duplicar_file_tag-file_tag f t k l,
          duplicar_file_tag-file_tag g u m o,
        )
        refl
