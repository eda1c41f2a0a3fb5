-- ===== src/Worker/Interprete/Decode/Errores.antt =====
-- worker/src/query_interpreter.c: `decode` of a line that is one word.
use tp_2025_2c_kernel_panic.Prelude.{
  ◌||◌, ℕ, ◌≡◌, ◌≢◌, refl, inl, inr, ◌⊎◌, List, [], Option, none, some, Bool, true, false, Cadena,
  codes, if◌then◌else◌,
}
use tp_2025_2c_kernel_panic.Worker.Interprete.Decode.{
  Decodificada, incompleta, con_resto, decode_nombre, decode,
}
use tp_2025_2c_kernel_panic.Worker.Interprete.Decode.Escritas.{sin, IsSplit}
use tp_2025_2c_kernel_panic.Worker.Interprete.Decode.Partes.{sin_comentario_igual}

-- What is said of a line of one word: it is a CREATE and the code goes through NULL; or it is an END and `fin`
-- is set; or it is malformed, and then `fin` is left as `malloc` gave it when the word is one of the
-- seven other names, and is false when it is none. No function is called.
abbrev pub Rechaza : Bool → Bool → Bool → Option Decodificada → Type 0
Rechaza es_create es_end conocida o =
    ((es_create ≡ true) × (o ≡ none))
    ⊎ ((d : Decodificada) × (o ≡ some d)
        × (d.ejecuta_instruccion ≡ none)
        × (((conocida ≡ true) × (d.instruccion_malformada ≡ true) × (d.fin ≡ none))
            ⊎ ((conocida ≡ false)
                × (((es_end ≡ true) × (d.instruccion_malformada ≡ false) × (d.fin ≡ some true))
                    ⊎ ((es_end ≡ false)
                        × (d.instruccion_malformada ≡ true)
                        × (d.fin ≡ some false))))))

incompleta-Rechaza : (b c : Bool) → Rechaza b c true (some incompleta)
incompleta-Rechaza b c = inr (incompleta, refl, refl, inl (refl, refl, refl))

-- The comparisons of `decode_nombre` in their order, when nothing follows the name.
cascada :
    (c t w r g m f d e : Bool)
    → Rechaza c e (t || (w || (r || (g || (m || (f || d)))))) (
        if c
        then none
        else if t
        then some incompleta
        else if w
        then some incompleta
        else if r
        then some incompleta
        else if g
        then some incompleta
        else if m
        then some incompleta
        else if f
        then some incompleta
        else if d
        then some incompleta
        else if e
        then some (record incompleta { fin = some true; instruccion_malformada = false })
        else some (record incompleta { fin = some false }))
cascada true t w r g m f d e = inl (refl, refl)
cascada false true w r g m f d e = incompleta-Rechaza false e
cascada false false true r g m f d e = incompleta-Rechaza false e
cascada false false false true g m f d e = incompleta-Rechaza false e
cascada false false false false true m f d e = incompleta-Rechaza false e
cascada false false false false false true f d e = incompleta-Rechaza false e
cascada false false false false false false true d e = incompleta-Rechaza false e
cascada false false false false false false false true e = incompleta-Rechaza false e
cascada false false false false false false false false true =
    inr (_, refl, refl, inr (refl, inl (refl, refl, refl)))
cascada false false false false false false false false false =
    inr (_, refl, refl, inr (refl, inr (refl, refl, refl)))

module _ (string_trim : Cadena → Cadena) (string_n_split : Cadena → ℕ → Cadena → List Cadena)
    (string_equals_ignore_case : Cadena → Cadena → Bool) where
  -- The word is TRUNCATE, WRITE, READ, TAG, COMMIT, FLUSH or DELETE.
  abbrev pub es_conocida : Cadena → Bool
  es_conocida w =
      let es = string_equals_ignore_case w in
      es (codes "TRUNCATE")
      || (es (codes "WRITE")
          || (es (codes "READ")
              || (es (codes "TAG")
                  || (es (codes "COMMIT") || (es (codes "FLUSH") || es (codes "DELETE"))))))

  decode_nombre-Rechaza :
      (w : Cadena)
      → Rechaza
          (string_equals_ignore_case w (codes "CREATE"))
          (string_equals_ignore_case w (codes "END"))
          (es_conocida w)
          (decode_nombre string_trim string_n_split string_equals_ignore_case w none)
  unfolding decode_nombre con_resto
  decode_nombre-Rechaza w =
      let es = string_equals_ignore_case w in
      cascada (es (codes "CREATE")) (es (codes "TRUNCATE")) (es (codes "WRITE")) (es (codes "READ"))
        (es (codes "TAG")) (es (codes "COMMIT")) (es (codes "FLUSH")) (es (codes "DELETE"))
        (es (codes "END"))

  -- For a `string_n_split` that cuts at a separator, of a line that is one word without `#`: either it is
  -- a CREATE and `decode` goes through NULL; or it is one of the other seven names with parameters, it is
  -- malformed, and `fin` is left as `malloc` gave it; or it is none of these, and then an END has `fin`
  -- set and is not malformed, and any other word is malformed with `fin` false. In no case there is a
  -- function to run.
  pub decode-Rechaza :
      (w : Cadena)
      → IsSplit string_n_split
      → w ≢ []
      → sin b' ' w ≡ true
      → sin b'#' w ≡ true
      → Rechaza
          (string_equals_ignore_case w (codes "CREATE"))
          (string_equals_ignore_case w (codes "END"))
          (es_conocida w)
          (decode string_trim string_n_split string_equals_ignore_case (some w))
  unfolding decode
  decode-Rechaza w hs h k l =
      rw
        (
          sin_comentario_igual string_trim string_n_split string_equals_ignore_case w l,
          decode,
          hs.sola w b' ' 1 h k,
        )
        (decode_nombre-Rechaza w)
