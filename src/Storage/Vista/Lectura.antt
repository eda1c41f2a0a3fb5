-- ===== src/Storage/Vista/Lectura.antt =====
-- storage/src/operaciones.c: reading a block, and reading it after it was written.
use tp_2025_2c_kernel_panic.Prelude.{
  hasta_nulo, ℕ, ◌≡◌, refl, sym, ◌∙◌, ap, inl, inr, List, Option, none, some, true, false, ◌||◌,
  Cadena, str_eq_refl, Bool-cases, Option-cases, ==_refl, ℤ, pos_part, ◌⊎◌,
}
use tp_2025_2c_kernel_panic.Storage.Disco.{
  Storage, Metadata, Directorio, ruta, es_protegido, enlace, config_de, verificar_si_commited,
}
use tp_2025_2c_kernel_panic.Storage.Archivos.{es_vacia}
use tp_2025_2c_kernel_panic.Storage.Escritura.{
  indice_valido, rellenar, escribir_bloque, leer_bloque, leer_rellenado,
}
use tp_2025_2c_kernel_panic.Storage.Sano.{IsSano}
use tp_2025_2c_kernel_panic.Storage.Vista.{vista}
use tp_2025_2c_kernel_panic.Storage.Vista.Metadatos.{
  config_de-partes, config_de-hecha, indice_valido-igual,
}
use tp_2025_2c_kernel_panic.Storage.Vista.Resultado.{
  escribir_bloque-ResultadoEscritura, indice_valido-pos,
}

-- What a reader is answered for a content.
abbrev pub leida : ℕ → Option (List ℕ) → Option (List ℕ)
leida tamanio none = none
leida tamanio (some c) = some (leer_rellenado tamanio c)

-- A read of a File:Tag whose metadata is `m`.
leer_bloque-leida :
    (s : Storage) (file t : Cadena) (numero : ℤ) (d : Directorio) (m : Metadata)
    → config_de s (ruta file t) ≡ some (d, m)
    → (indice_valido s m numero ≡ none × leer_bloque s (some (file, t, numero)) ≡ none)
      ⊎ ((i : ℕ) × (indice_valido s m numero ≡ some i)
          × (leer_bloque s (some (file, t, numero))
              ≡ leida s.tamanio_bloque (vista s (ruta file t) i)))
unfolding leer_bloque vista
leer_bloque-leida s file t numero d m e = elim (Option-cases (indice_valido s m numero)) [
  | inl k ↦ inl (k, (rw (e, leer_bloque, k) refl))
  | inr (i, k) ↦ inr (
    i,
    k,
    (rw (e, leer_bloque, k)
        (elim (Option-cases (enlace s (ruta file t) i)) [
          | inl l ↦ rw (l, vista) refl
          | inr (n, l) ↦
              rw (l, vista)
                (elim (Option-cases (s.fisicos n)) [ inl f ↦ rw f refl | inr (c, f) ↦ rw f refl ])
        ])),
  )
]

-- A write that succeeds found the metadata and a valid index.
escribir_bloque-valida :
    (s : Storage) (file t : Cadena) (numero : ℤ) (contenido : List ℕ)
    → (escribir_bloque s (some ((file, t), numero, contenido))).0 ≡ true
    → (d : Directorio) × (m : Metadata) × (i : ℕ) × (config_de s (ruta file t) ≡ some (d, m))
      × (indice_valido s m numero ≡ some i)
unfolding escribir_bloque
escribir_bloque-valida s file t numero contenido h = elim (Bool-cases (es_protegido file t)) [
  | inl b ↦ let x : false ≡ true = rw (b, escribir_bloque) at h in absurd cc
  | inr b ↦ elim (Bool-cases (verificar_si_commited s (ruta file t))) [
    | inl c ↦ let x : false ≡ true = rw (b, c, escribir_bloque) at h in absurd cc
    | inr c ↦ elim (Bool-cases (es_vacia file || es_vacia t)) [
      | inl v ↦ let x : false ≡ true = rw (b, c, v, escribir_bloque) at h in absurd cc
      | inr v ↦ elim (Option-cases (config_de s (ruta file t))) [
        | inl e ↦ let x : false ≡ true = rw (b, c, v, e, escribir_bloque) at h in absurd cc
        | inr ((d, m), e) ↦ elim (Option-cases (indice_valido s m numero)) [
          | inl k ↦ let x : false ≡ true = rw (b, c, v, e, k, escribir_bloque) at h in absurd cc
          | inr (i, k) ↦ (d, m, i, e, k)
        ]
      ]
    ]
  ]
]

-- A read of a block that has just been written answers what was written up to its first NUL, cut or filled with zeros to
-- the size of a block: on a file system in order, `leer_bloque` after an `escribir_bloque` that answered
-- true, with the same File:Tag and block number.
pub leer_bloque-escribir_bloque :
    (s : Storage) (file t : Cadena) (numero : ℤ) (contenido : List ℕ)
    → IsSano s
    → (escribir_bloque s (some ((file, t), numero, contenido))).0 ≡ true
    → leer_bloque
        (escribir_bloque s (some ((file, t), numero, contenido))).1
        (some (file, t, numero))
      ≡ some (leer_rellenado s.tamanio_bloque (rellenar s.tamanio_bloque (hasta_nulo contenido)))
leer_bloque-escribir_bloque s file t numero contenido h e =
    let r = ruta file t in
    let u = (escribir_bloque s (some ((file, t), numero, contenido))).1 in
    let (i, num, (muestra, _, (bloque, forma))) =
      (escribir_bloque-ResultadoEscritura s file t numero contenido h).0 e in
    let (d, m, j, config, valido) = escribir_bloque-valida s file t numero contenido e in
    let (g, l) = config_de-partes s r d m config in
    let (k, (d2, g2, l2), tam, largo) = forma m (d, g, l) in
    let igual = indice_valido-igual s u m k numero bloque tam largo in
    let mismo : j ≡ i = ap pos_part (sym (indice_valido-pos s m numero j valido).0 ∙ num) in
    elim (leer_bloque-leida u file t numero d2 k (config_de-hecha u r d2 k g2 l2)) [
      | inl (nada, _) ↦
          let x : Path (Option ℕ) none (some j) = sym nada ∙ igual ∙ valido in absurd cc
      | inr (q, hay, leido) ↦
          let x : Path (Option ℕ) (some q) (some i) = sym hay ∙ igual ∙ valido ∙ ap some mismo in
          let y : q ≡ i = cc in
          let z : vista u r q ≡ some (rellenar s.tamanio_bloque (hasta_nulo contenido)) =
            muestra r q ∙ rw (str_eq_refl r, y, ==_refl i) refl in
          leido ∙ (λ w. leida (bloque w) (z w))
    ]
