-- ===== src/Storage/Vista/Borrado.antt =====
-- storage/src/operaciones.c: what `eliminar_file_tag` does to the contents of the files.
use tp_2025_2c_kernel_panic.Prelude.{
  ℕ, zero, suc, ◌/◌, ◌≤◌, ◌≡◌, refl, ◌∙◌, ap, inl, inr, ◌⊎◌, List, [], ◌∷◌, Option, none, some,
  true, false, ◌&&◌, Cadena, str_eq, str_eq_refl, length, if◌then◌else◌, Bool-cases, Option-cases,
  ◌==◌, ==_iff, ltb, leb, arith,
}
use tp_2025_2c_kernel_panic.Prelude.Diccionario.{dictionary_get}
use tp_2025_2c_kernel_panic.Storage.Disco.{
  Storage, ruta, es_protegido, config_de, enlace, poner_enlace, nlink, desocupar, poner_fisico,
  cambiar, test_bit, persistir_bitmap,
}
use tp_2025_2c_kernel_panic.Storage.Archivos.{
  quitar_enlaces, liberar_fisico, liberar_fisicos, rm_rf, eliminar_file_tag,
}
use tp_2025_2c_kernel_panic.Storage.Sano.Enlaces.{
  enlace-poner_enlace, enlace-sin_ruta, get-sin_ruta, nlink-suelto,
}
use tp_2025_2c_kernel_panic.Storage.Sano.Mover.{poner_enlace-campos, desenlazar-hecho}
use tp_2025_2c_kernel_panic.Storage.Vista.{vista, Muestra, con_archivo}
use tp_2025_2c_kernel_panic.Storage.Vista.Escritura.{vista-sin_enlace, vista-mismos}
use tp_2025_2c_kernel_panic.Storage.Vista.Reenlace.{desenlazar-nada}

-- The other paths show the same.
abbrev Afuera : Storage → Cadena → Storage → Type 0
Afuera s r u = (k : Cadena) (j : ℕ) → str_eq r k ≡ false → vista u k j ≡ vista s k j

poner_enlace-Afuera :
    (s : Storage) (r : Cadena) (i : ℕ) (v : Option ℕ) → Afuera s r (poner_enlace s r i v)
unfolding poner_enlace
poner_enlace-Afuera s r i v k j b = elim (Option-cases (dictionary_get s.tags r)) [
  | inl e ↦ rw (e, poner_enlace) refl
  | inr (d, e) ↦
      vista-mismos s (poner_enlace s r i v) k j (enlace-poner_enlace s r d i v k j e ∙ rw b refl)
        (λ n f. ap (λ w. w n) (poner_enlace-campos s r i v).0)
]

quitar_enlaces-Afuera : (n : ℕ) (r : Cadena) (s : Storage) → Afuera s r (quitar_enlaces n r s)
unfolding quitar_enlaces
quitar_enlaces-Afuera zero r s k j b = refl
quitar_enlaces-Afuera (suc n) r s k j b =
    let t = quitar_enlaces n r s in
    let uno = quitar_enlaces-Afuera n r s k j b in
    elim (Option-cases (enlace t r n)) [
      | inl e ↦ rw (desenlazar-nada t r n e, quitar_enlaces) uno
      | inr (m, e) ↦
          rw (desenlazar-hecho t r n m e, quitar_enlaces)
            (poner_enlace-Afuera t r n none k j b ∙ uno)
    ]

-- A physical block goes only when nothing is linked to it.
liberar_fisico-Muestra : (s : Storage) (n : ℕ) → Muestra (liberar_fisico s n) (vista s)
unfolding liberar_fisico desocupar poner_fisico enlace cambiar
liberar_fisico-Muestra s n k j = elim (Option-cases (s.fisicos n)) [
  | inl e ↦
      rw (e, liberar_fisico)
        (elim (Bool-cases (ltb n (length s.bitmap / 8) && test_bit s n)) [
          | inl b ↦ rw b (vista-mismos s (desocupar s n) k j refl (λ m f. refl))
          | inr b ↦ rw b refl
        ])
  | inr (c, e) ↦
      rw (e, liberar_fisico)
        (elim (Bool-cases (leb (nlink s n) 1)) [
          | inl b ↦
              let uno : nlink s n ≤ 1 = ground arith in
              let suelto = nlink-suelto s n c e uno in
              rw b (
                vista-mismos s (desocupar (poner_fisico s n none) n) k j refl (λ m f.
                  elim (Bool-cases (m == n)) [
                    | inl g ↦
                        let x : m ≡ n = (==_iff m n).0 g in absurd (suelto k j (f ∙ ap some x))
                    | inr g ↦ rw g refl
                  ]))
          | inr b ↦ rw b refl
        ])
]

liberar_fisicos-Muestra : (ns : List ℕ) (s : Storage) → Muestra (liberar_fisicos ns s) (vista s)
unfolding liberar_fisicos
liberar_fisicos-Muestra [] s k j = refl
liberar_fisicos-Muestra (n ∷ ns) s k j =
    liberar_fisicos-Muestra ns (liberar_fisico s n) k j ∙ liberar_fisico-Muestra s n k j

rm_rf-vista :
    (s : Storage) (r k : Cadena) (j : ℕ)
    → vista (rm_rf r s) k j ≡ (if str_eq r k then none else vista s k j)
unfolding rm_rf
rm_rf-vista s r k j = elim (Bool-cases (str_eq r k)) [
  | inl b ↦ rw b (vista-sin_enlace (rm_rf r s) k j (enlace-sin_ruta s r k j ∙ rw b refl))
  | inr b ↦
      rw b (vista-mismos s (rm_rf r s) k j (enlace-sin_ruta s r k j ∙ rw b refl) (λ n e. refl))
]

persistir_bitmap-vista : (s : Storage) → Muestra (persistir_bitmap s) (vista s)
unfolding persistir_bitmap enlace
persistir_bitmap-vista s k j = vista-mismos s (persistir_bitmap s) k j refl (λ n e. refl)

-- Either `eliminar_file_tag` answers true, the File:Tag is gone, and the contents of the others are what they
-- were; or it answers false, the File:Tag is the protected one or has no metadata, and nothing changed.
pub eliminar_file_tag-Muestra :
    (s : Storage) (file t : Cadena)
    → let x = eliminar_file_tag s (some (file, t)) in
      let r = ruta file t in
      ((x.0 ≡ true)
        × (dictionary_get x.1.tags r ≡ none)
        × Muestra x.1 (con_archivo (vista s) r (λ j. none)))
      ⊎ ((x.0 ≡ false) × ((es_protegido file t ≡ true) ⊎ (config_de s r ≡ none)) × (x.1 ≡ s))
unfolding eliminar_file_tag persistir_bitmap rm_rf
eliminar_file_tag-Muestra s file t = elim (Bool-cases (es_protegido file t)) [
  | inl b ↦ rw b (inr (refl, inl refl, refl))
  | inr b ↦ rw b (elim (Option-cases (config_de s (ruta file t))) [
    | inl e ↦ rw e (inr (refl, inr refl, refl))
    | inr ((d, m), e) ↦
        let r = ruta file t in
        let t1 = quitar_enlaces (length m.blocks) r s in
        let t2 = persistir_bitmap (liberar_fisicos m.blocks t1) in
        rw e (
          inl (
            refl,
            get-sin_ruta r r t2.tags ∙ rw (str_eq_refl r) refl,
            (λ k j. rm_rf-vista t2 r k j ∙ elim (Bool-cases (str_eq r k)) [
              | inl f ↦ rw f refl
              | inr f ↦ rw f (
                  persistir_bitmap-vista (liberar_fisicos m.blocks t1) k j
                  ∙ liberar_fisicos-Muestra m.blocks t1 k j
                  ∙ quitar_enlaces-Afuera (length m.blocks) r s k j f)
            ]),
          ))
  ])
]
