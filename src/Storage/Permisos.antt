-- ===== src/Storage/Permisos.antt =====
-- storage/src/operaciones.c: the File:Tags that may not be changed, the committed ones and
-- initial_file:BASE.
use tp_2025_2c_kernel_panic.Prelude.{
  ℕ, ◌≡◌, refl, ◌∙◌, inl, inr, ◌⊎◌, List, some, true, false, Cadena, str_eq_refl, Bool-cases,
  Option-cases, ℤ,
}
use tp_2025_2c_kernel_panic.Prelude.Diccionario.{dictionary_get, get-put}
use tp_2025_2c_kernel_panic.Storage.Disco.{
  commited, Storage, Metadata, Directorio, ruta, es_protegido, es_commited, config_de, guardar,
  persistir_bitmap, verificar_si_commited,
}
use tp_2025_2c_kernel_panic.Storage.Archivos.{truncar_file}
use tp_2025_2c_kernel_panic.Storage.Escritura.{escribir_bloque}
use tp_2025_2c_kernel_panic.Storage.Flush.{flush_archivo}
use tp_2025_2c_kernel_panic.Storage.Commit.{evitar_duplicidad, realizar_commit}
use tp_2025_2c_kernel_panic.Storage.Vista.Metadatos.{config_de-partes, config_de-hecha}

-- Truncating, writing and flushing the File:Tag fail and change nothing.
abbrev pub Intocable : Storage → Cadena → Cadena → Type 0
Intocable s file t =
    ((n : ℕ) → truncar_file s (some (file, t, n)) ≡ (false, s))
    × ((numero : ℤ) (c : List ℕ) → escribir_bloque s (some ((file, t), numero, c)) ≡ (false, s))
    × ((n : ℕ) (ps : List (ℤ × List ℕ)) → flush_archivo s (some ((file, t), n, ps)) ≡ (false, s))

verificar_si_commited-Intocable :
    (s : Storage) (file t : Cadena)
    → (es_protegido file t ≡ true) ⊎ (verificar_si_commited s (ruta file t) ≡ true)
    → Intocable s file t
unfolding truncar_file escribir_bloque flush_archivo
verificar_si_commited-Intocable s file t h = elim (Bool-cases (es_protegido file t)) [
  | inl b ↦ ((λ n. rw b refl), (λ n c. rw b refl), (λ n ps. rw b refl))
  | inr b ↦ elim h [
    | inl x ↦ absurd cc
    | inr c ↦ ((λ n. rw (b, c) refl), (λ n x. rw (b, c) refl), (λ n ps. rw (b, c) refl))
  ]
]

-- The estado that was saved is the one that is read.
guardar-commited :
    (s : Storage) (r : Cadena) (d : Directorio) (m k : Metadata)
    → config_de s r ≡ some (d, m)
    → es_commited k.estado ≡ true
    → verificar_si_commited (persistir_bitmap (guardar s r k)) r ≡ true
unfolding verificar_si_commited persistir_bitmap guardar
guardar-commited s r d m k e c =
    let (g, l) = config_de-partes s r d m e in
    let nuevo : Directorio = record d { metadata = some k } in
    let t = persistir_bitmap (guardar s r k) in
    let hay : dictionary_get t.tags r ≡ some nuevo =
      rw (g, guardar) (get-put s.tags r r nuevo ∙ rw (str_eq_refl r) refl) in
    rw (config_de-hecha t r nuevo k hay refl, verificar_si_commited) c

-- After a commit that answers true, the File:Tag cannot be truncated, written nor flushed any more.
pub realizar_commit-Intocable :
    (crypto_md5 : List ℕ → Cadena) (s : Storage) (file t : Cadena)
    → (realizar_commit crypto_md5 s (some (file, t))).0 ≡ true
    → Intocable (realizar_commit crypto_md5 s (some (file, t))).1 file t
unfolding realizar_commit verificar_si_commited
realizar_commit-Intocable crypto_md5 s file t h =
    verificar_si_commited-Intocable (realizar_commit crypto_md5 s (some (file, t))).1 file t (
      inr (elim (Bool-cases (es_protegido file t)) [
        | inl b ↦ let x : false ≡ true = rw (b, realizar_commit) at h in absurd cc
        | inr b ↦ elim (Option-cases (config_de s (ruta file t))) [
          | inl e ↦ let x : false ≡ true = rw (b, e, realizar_commit) at h in absurd cc
          | inr ((d, m), e) ↦ elim (Bool-cases (es_commited m.estado)) [
            | inl c ↦ rw (b, e, c, realizar_commit) (rw (e, verificar_si_commited) c)
            | inr c ↦
                let u = evitar_duplicidad crypto_md5 s (ruta file t) in
                elim (Option-cases (config_de u (ruta file t))) [
                  | inl g ↦
                      let x : false ≡ true = rw (b, e, c, g, realizar_commit) at h in absurd cc
                  | inr ((f, k), g) ↦
                      rw (b, e, c, g, realizar_commit)
                        (guardar-commited u (ruta file t) f k (record k { estado = commited }) g
                          refl)
                ]
          ]
        ]
      ]))
