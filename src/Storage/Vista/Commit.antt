-- ===== src/Storage/Vista/Commit.antt =====
-- storage/src/operaciones.c: what a commit does to the contents of the files, when the index of hashes
-- says the truth.
use tp_2025_2c_kernel_panic.Prelude.{
  ℕ, ◌≡◌, refl, sym, ◌∙◌, ap, subst, inl, inr, List, [], some, false, Cadena, take, get_elem?,
  Bool-cases, Option-cases, arith,
}
use tp_2025_2c_kernel_panic.Prelude.Diccionario.{dictionary_get}
use tp_2025_2c_kernel_panic.Storage.Disco.{
  Storage, Metadata, Directorio, ruta, es_protegido, es_commited, config_de, enlace, guardar,
  persistir_bitmap,
}
use tp_2025_2c_kernel_panic.Storage.Commit.{Dedup, dedup_desde, evitar_duplicidad, realizar_commit}
use tp_2025_2c_kernel_panic.Storage.Sano.Mover.{guardar-campos, guardar-enlace}
use tp_2025_2c_kernel_panic.Storage.Vista.{vista, Muestra}
use tp_2025_2c_kernel_panic.Storage.Vista.Escritura.{vista-mismos}
use tp_2025_2c_kernel_panic.Storage.Vista.Dedup.{IndiceFiel, Distingue, dedup_desde-Sigue}

module _ (crypto_md5 : List ℕ → Cadena) where
  guardar-indice :
      (s : Storage) (r : Cadena) (m : Metadata) → (guardar s r m).hash_index ≡ s.hash_index
  unfolding guardar
  guardar-indice s r m = elim (Option-cases (dictionary_get s.tags r)) [
    | inl e ↦ rw (e, guardar) refl
    | inr (d, e) ↦ rw (e, guardar) refl
  ]

  -- The contents and the index after a change of the metadata.
  abbrev pub Igual : Storage → Storage → Type 0
  Igual s u = Muestra u (vista s) × IndiceFiel crypto_md5 u

  guardar-Igual : (s u : Storage) (r : Cadena) (m : Metadata) → Igual s u → Igual s (guardar u r m)
  guardar-Igual s u r m (v, fiel) =
      let (a, b, c) = guardar-campos u r m in
      (
        (λ k j.
            vista-mismos u (guardar u r m) k j (guardar-enlace u r m k j) (λ n e. ap (λ w. w n) a)
            ∙ v k j),
        (λ h n p.
            let (o, x, y) =
              fiel h n (ap (λ w. dictionary_get w h) (sym (guardar-indice u r m)) ∙ p) in
            (o, ap (λ w. w n) a ∙ x, ap (λ w. crypto_md5 (take w o)) c ∙ y)),
      )

  persistir-Igual : (s u : Storage) → Igual s u → Igual s (persistir_bitmap u)
  unfolding persistir_bitmap enlace
  persistir-Igual s u (v, fiel) =
      ((λ k j. vista-mismos u (persistir_bitmap u) k j refl (λ n e. refl) ∙ v k j), fiel)

  -- The blocks of the metadata are those that the logical blocks are linked to.
  abbrev pub Alineado : Storage → Cadena → Type 0
  Alineado s r =
      (d : Directorio) (m : Metadata)
      → config_de s r ≡ some (d, m)
      → (j n : ℕ) → get_elem? m.blocks j ≡ some n
      → enlace s r j ≡ some n

  evitar_duplicidad-Igual :
      (s : Storage) (r : Cadena)
      → Distingue crypto_md5 s
      → IndiceFiel crypto_md5 s
      → Alineado s r
      → Igual s (evitar_duplicidad crypto_md5 s r)
  unfolding evitar_duplicidad
  evitar_duplicidad-Igual s r distingue fiel al = elim (Option-cases (config_de s r)) [
    | inl e ↦ rw (e, evitar_duplicidad) ((λ k j. refl), fiel)
    | inr ((d, m), e) ↦
        let inicial : Dedup = record { fs = s; nuevos = []; se_modifico = false } in
        let w = dedup_desde crypto_md5 0 inicial r m.blocks in
        let (_, (_, _, f, v, _)) =
          dedup_desde-Sigue crypto_md5 s r distingue m.blocks 0 inicial
            (λ j n g. subst (λ x. enlace s r x ≡ some n) (omega arith) (al d m e j n g))
            (refl, refl, fiel, (λ k j. refl), (λ j h. refl)) in
        rw (e, evitar_duplicidad)
          (elim (Bool-cases w.se_modifico) [
            | inl b ↦ rw b (guardar-Igual s w.fs r _ (v, f))
            | inr b ↦ rw b (v, f)
          ])
  ]

  -- A commit changes the content of no logical block of any File:Tag, and the index of hashes stays true,
  -- if before it the index is true, physical blocks of the same hash have the same content, and the blocks of
  -- the metadata are those that the logical blocks are linked to.
  pub realizar_commit-Igual :
      (s : Storage) (file t : Cadena)
      → Distingue crypto_md5 s
      → IndiceFiel crypto_md5 s
      → Alineado s (ruta file t)
      → Igual s (realizar_commit crypto_md5 s (some (file, t))).1
  unfolding realizar_commit
  realizar_commit-Igual s file t distingue fiel al =
      let nada : Igual s s = ((λ k j. refl), fiel) in
      elim (Bool-cases (es_protegido file t)) [
        | inl b ↦ rw b nada
        | inr b ↦ rw b (elim (Option-cases (config_de s (ruta file t))) [
          | inl e ↦ rw e nada
          | inr ((d, m), e) ↦
              let u = evitar_duplicidad crypto_md5 s (ruta file t) in
              let x = evitar_duplicidad-Igual s (ruta file t) distingue fiel al in
              rw e (elim (Bool-cases (es_commited m.estado)) [
                | inl c ↦ rw c nada
                | inr c ↦ rw c (elim (Option-cases (config_de u (ruta file t))) [
                  | inl g ↦ rw g x
                  | inr ((f, k), g) ↦
                      rw g (persistir-Igual s _ (guardar-Igual s u (ruta file t) _ x))
                ])
              ])
        ])
      ]
