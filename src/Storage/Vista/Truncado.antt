-- ===== src/Storage/Vista/Truncado.antt =====
-- storage/src/operaciones.c: what `truncar_file` does to the contents of the files.
use tp_2025_2c_kernel_panic.Prelude.{
  ℕ, ◌+◌, ◌-◌, ◌≡◌, refl, sym, ◌∙◌, ap, inl, inr, List, Option, none, some, true, false, ◌&&◌,
  Cadena, str_eq, str_eq_refl, if◌then◌else◌, Bool-cases, Option-cases, ltb, leb, arith,
}
use tp_2025_2c_kernel_panic.Prelude.Diccionario.{dictionary_get, get-put}
use tp_2025_2c_kernel_panic.Storage.Disco.{
  Storage, Metadata, Directorio, ruta, es_protegido, bloques_de, config_de, enlace, guardar,
  verificar_si_commited,
}
use tp_2025_2c_kernel_panic.Storage.Archivos.{
  agrandar, achicar, rehacer, truncar_abierto, truncar_file,
}
use tp_2025_2c_kernel_panic.Storage.Sano.Mover.{guardar-campos, guardar-enlace}
use tp_2025_2c_kernel_panic.Storage.Vista.{vista, Muestra, con_archivo, redimensionado}
use tp_2025_2c_kernel_panic.Storage.Vista.Escritura.{vista-de, vista-sin_enlace, vista-mismos}
use tp_2025_2c_kernel_panic.Storage.Vista.Metadatos.{Tiene, config_de-partes}
use tp_2025_2c_kernel_panic.Storage.Vista.Reenlace.{
  Hay, Reenlaza, Reenlaza-luego, Reenlaza-igual, Reenlaza-en, agrandar-Reenlaza, achicar-Reenlaza,
}

-- What the new links of a path show.
abbrev ver : Storage → Option ℕ → Option (List ℕ)
ver s none = none
ver s (some n) = s.fisicos n

vista-ver : (s : Storage) (r : Cadena) (j : ℕ) → vista s r j ≡ ver s (enlace s r j)
vista-ver s r j = elim (Option-cases (enlace s r j)) [
  | inl e ↦ rw e (vista-sin_enlace s r j e)
  | inr (n, e) ↦ rw e (vista-de s r j n e)
]

Reenlaza-Muestra :
    (s u : Storage) (r : Cadena) (f : ℕ → Option ℕ)
    → Reenlaza s r f u
    → Muestra u (con_archivo (vista s) r (λ j. ver s (f j)))
Reenlaza-Muestra s u r f (x, y, z) k j = elim (Bool-cases (str_eq r k)) [
  | inl b ↦
      let e : enlace u k j ≡ f j = z k j ∙ rw b refl in
      vista-ver u k j
      ∙ ap (ver u) e
      ∙ (rw b
          (elim (Option-cases (f j)) [ inl g ↦ rw g refl | inr (n, g) ↦ rw g (ap (λ w. w n) x) ]))
  | inr b ↦
      let e : enlace u k j ≡ enlace s k j = z k j ∙ rw b refl in
      vista-mismos s u k j e (λ n g. ap (λ w. w n) x) ∙ rw b refl
]

-- The links after both loops.
final :
    (v n j : ℕ) (x y : Option ℕ)
    → y ≡ (if leb v j && ltb j (v + (n - v)) then some 0 else x)
    → (if leb n j && ltb j (n + (v - n)) then none else y)
      ≡ (if leb v j && ltb j n then some 0 else (if leb n j && ltb j v then none else x))
final v n j x y e = rw e (ground arith)

ver-redimensionado :
    (s : Storage) (r : Cadena) (v n j : ℕ)
    → ver s
        (if leb v j && ltb j n then some 0 else (if leb n j && ltb j v then none else enlace s r j))
      ≡ redimensionado (s.fisicos 0) v n (vista s r) j
ver-redimensionado s r v n j = elim (Bool-cases (leb v j && ltb j n)) [
  | inl b ↦ rw b refl
  | inr b ↦ rw b (elim (Bool-cases (leb n j && ltb j v)) [
    | inl c ↦ rw c refl
    | inr c ↦ rw c (sym (vista-ver s r j))
  ])
]

Reenlaza-guardar :
    (s u : Storage) (r : Cadena) (f : ℕ → Option ℕ) (m : Metadata)
    → Reenlaza s r f u
    → Reenlaza s r f (guardar u r m) × Tiene (guardar u r m) r m
unfolding guardar
Reenlaza-guardar s u r f m (x, (d, y), z) =
    let nuevo = record d { metadata = some m } in
    let hay : dictionary_get (guardar u r m).tags r ≡ some nuevo =
      rw (y, guardar) (get-put u.tags r r nuevo ∙ rw (str_eq_refl r) refl) in
    (
      ((guardar-campos u r m).0 ∙ x, (nuevo, hay), (λ k j. guardar-enlace u r m k j ∙ z k j)),
      (nuevo, hay, refl),
    )

truncar_abierto-Muestra :
    (s : Storage) (r : Cadena) (m : Metadata) (n : ℕ)
    → Hay s r
    → (truncar_abierto s r m n).0 ≡ true
    → let viejos = bloques_de s m.tamanio in
      let nuevos = bloques_de s n in
      Muestra
        (truncar_abierto s r m n).1
        (con_archivo (vista s) r (redimensionado (s.fisicos 0) viejos nuevos (vista s r)))
      × Tiene
          (truncar_abierto s r m n).1
          r
          (record m { tamanio = n; blocks = rehacer nuevos m.blocks })
unfolding truncar_abierto
truncar_abierto-Muestra s r m n h e =
    let viejos = bloques_de s m.tamanio in
    let nuevos = bloques_de s n in
    let x = agrandar (nuevos - viejos) viejos r s in
    let k : Metadata = record m { tamanio = n; blocks = rehacer nuevos m.blocks } in
    elim (Bool-cases x.0) [
      | inr b ↦ let y : false ≡ true = rw (b, truncar_abierto) at e in absurd cc
      | inl b ↦
          let uno = agrandar-Reenlaza (nuevos - viejos) viejos r s h b in
          let u = achicar (viejos - nuevos) nuevos r m.blocks x.1 in
          let dos = achicar-Reenlaza (viejos - nuevos) nuevos r m.blocks x.1 uno.1 in
          let f : ℕ → Option ℕ = λ j.
            if leb viejos j && ltb j nuevos
            then some 0
            else (if leb nuevos j && ltb j viejos then none else enlace s r j) in
          let todo =
            Reenlaza-igual s u r _ f
              (λ j.
                final viejos nuevos j (enlace s r j) (enlace x.1 r j) (Reenlaza-en s x.1 r _ j uno))
              (Reenlaza-luego s x.1 u r _ _ uno dos) in
          let (guardado, tiene) = Reenlaza-guardar s u r f k todo in
          rw (b, truncar_abierto)
            (
              (λ q j.
                  Reenlaza-Muestra s (guardar u r k) r f guardado q j
                  ∙ ap (λ w. if str_eq r q then w else vista s q j)
                      (ver-redimensionado s r viejos nuevos j)),
              tiene,
            )
    ]

-- When `truncar_file` answers true, the metadata of the File:Tag has the new size and a list of the blocks
-- for it; of its logical blocks those that it gains show the content of block 0, those that it loses are
-- gone, and the others show what they showed, as do those of the other File:Tags.
pub truncar_file-Muestra :
    (s : Storage) (file t : Cadena) (n : ℕ)
    → (truncar_file s (some (file, t, n))).0 ≡ true
    → let u = (truncar_file s (some (file, t, n))).1 in
      let r = ruta file t in
      (d : Directorio) × (m : Metadata) × (config_de s r ≡ some (d, m))
      × Muestra u (
          con_archivo
            (vista s)
            r
            (redimensionado (s.fisicos 0) (bloques_de s m.tamanio) (bloques_de s n) (vista s r)))
      × Tiene u r (record m { tamanio = n; blocks = rehacer (bloques_de s n) m.blocks })
unfolding truncar_file
truncar_file-Muestra s file t n h = elim (Bool-cases (es_protegido file t)) [
  | inl b ↦ let x : false ≡ true = rw (b, truncar_file) at h in absurd cc
  | inr b ↦ elim (Bool-cases (verificar_si_commited s (ruta file t))) [
    | inl c ↦ let x : false ≡ true = rw (b, c, truncar_file) at h in absurd cc
    | inr c ↦ elim (Option-cases (config_de s (ruta file t))) [
      | inl e ↦ let x : false ≡ true = rw (b, c, e, truncar_file) at h in absurd cc
      | inr ((d, m), e) ↦
          let (g, l) = config_de-partes s (ruta file t) d m e in
          let (ms, ti) =
            truncar_abierto-Muestra s (ruta file t) m n (d, g) (rw (b, c, e, truncar_file) at h) in
          (d, m, e, rw (b, c, e, truncar_file) ms, rw (b, c, e, truncar_file) ti)
    ]
  ]
]
