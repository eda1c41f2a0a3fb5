-- ===== src/Storage/Vista/Archivos.antt =====
-- storage/src/operaciones.c: what creating, tagging and truncating do to the contents of the files.
use tp_2025_2c_kernel_panic.Prelude.{
  Bool, subst, [], str_eq_refl, ℕ, ◌≡◌, refl, sym, ◌∙◌, inl, inr, List, Option, none, some, true,
  false, ◌||◌, Cadena, str_eq, str_eq_iff, get_or, ◌⊎◌, Bool-cases, Option-cases,
}
use tp_2025_2c_kernel_panic.Prelude.Diccionario.{get-put, dictionary_get}
use tp_2025_2c_kernel_panic.Storage.Disco.{
  Metadata, work_in_progress, config_de, Storage, Directorio, ruta, enlace,
}
use tp_2025_2c_kernel_panic.Storage.Archivos.{es_vacia, poner_directorio, crear_file}
use tp_2025_2c_kernel_panic.Storage.Sano.Enlaces.{enlace-directorio}
use tp_2025_2c_kernel_panic.Storage.Vista.{vista, Muestra, con_archivo}
use tp_2025_2c_kernel_panic.Storage.Vista.Metadatos.{config_de-hecha, config_de-partes}
use tp_2025_2c_kernel_panic.Storage.Vista.Escritura.{vista-de, vista-sin_enlace, vista-mismos}

enlace-sin_directorio :
    (s : Storage) (r : Cadena) (j : ℕ) → dictionary_get s.tags r ≡ none → enlace s r j ≡ none
unfolding enlace
enlace-sin_directorio s r j e = rw (e, enlace) refl

-- A new directory shows its own links, and nothing else changed.
poner_directorio-Muestra :
    (s : Storage) (r : Cadena) (d : Directorio) (f : ℕ → Option (List ℕ))
    → ((j : ℕ)
        → (get_or d.logicos j none ≡ none) × (f j ≡ none)
          ⊎ ((n : ℕ) × (get_or d.logicos j none ≡ some n) × (f j ≡ s.fisicos n)))
    → Muestra (poner_directorio s r d) (con_archivo (vista s) r f)
unfolding poner_directorio
poner_directorio-Muestra s r d f mismo k j =
    let u = poner_directorio s r d in
    let e = enlace-directorio s r d k j in
    elim (Bool-cases (str_eq r k)) [
      | inl b ↦
          let g : enlace u k j ≡ get_or d.logicos j none = rw b at e in
          rw b (elim (mismo j) [
            | inl (x, y) ↦ vista-sin_enlace u k j (g ∙ x) ∙ sym y
            | inr (n, x, y) ↦ vista-de u k j n (g ∙ x) ∙ sym y
          ])
      | inr b ↦
          let g : enlace u k j ≡ enlace s k j = rw b at e in
          rw b (vista-mismos s u k j g (λ n x. refl))
    ]

-- A new directory without links changes no content.
poner_vacio-Muestra :
    (s : Storage) (r : Cadena) (d : Directorio)
    → dictionary_get s.tags r ≡ none
    → ((j : ℕ) → get_or d.logicos j none ≡ none)
    → Muestra (poner_directorio s r d) (vista s)
poner_vacio-Muestra s r d e vacio k j =
    poner_directorio-Muestra s r d (vista s r)
      (λ i. inl (vacio i, vista-sin_enlace s r i (enlace-sin_directorio s r i e))) k j
    ∙ elim (Bool-cases (str_eq r k)) [
      | inl b ↦ let f : r ≡ k = (str_eq_iff r k).0 b in rw (b, f) refl
      | inr b ↦ rw b refl
    ]

-- What is kept for a File:Tag that was just created.
abbrev pub metadata_inicial : Metadata
metadata_inicial = record { tamanio = 0; estado = work_in_progress; blocks = [] }

-- The state has a new, empty File:Tag at the path, the other paths have what they had, and so have the
-- logical blocks.
abbrev pub Creado : Storage → Cadena → Storage → Type 0
Creado s r u =
    ((d : Directorio) × (config_de u r ≡ some (d, metadata_inicial)) × (d.logicos ≡ []))
    × ((k : Cadena) → str_eq r k ≡ false → dictionary_get u.tags k ≡ dictionary_get s.tags k)
    × Muestra u (vista s)

poner_directorio-Creado :
    (s : Storage) (r : Cadena)
    → dictionary_get s.tags r ≡ none
    → Creado s r (poner_directorio s r (record { metadata = some metadata_inicial; logicos = [] }))
unfolding poner_directorio
poner_directorio-Creado s r e =
    let nuevo : Directorio = record { metadata = some metadata_inicial; logicos = [] } in
    let u = poner_directorio s r nuevo in
    let hay : dictionary_get u.tags r ≡ some nuevo =
      get-put s.tags r r nuevo ∙ rw (str_eq_refl r) refl in
    (
      (nuevo, config_de-hecha u r nuevo metadata_inicial hay refl, refl),
      (λ k b. get-put s.tags r k nuevo ∙ rw b refl),
      poner_vacio-Muestra s r nuevo e (λ j. refl),
    )

-- A second creation of the same File:Tag fails.
crear_file-repetido :
    (s : Storage) (file t : Cadena) (d : Directorio)
    → dictionary_get s.tags (ruta file t) ≡ some d
    → crear_file s (some (file, t)) ≡ (false, s)
unfolding crear_file
crear_file-repetido s file t d e = elim (Bool-cases (es_vacia file || es_vacia t)) [
  | inl b ↦ rw b refl
  | inr b ↦ rw (b, e) refl
]

-- What a creation answers and leaves.
abbrev pub Creacion : Storage → Cadena → Cadena → Bool × Storage → Type 0
Creacion s file t x =
    ((x.0 ≡ true)
      × ((es_vacia file || es_vacia t) ≡ false)
      × (dictionary_get s.tags (ruta file t) ≡ none)
      × Creado s (ruta file t) x.1
      × (crear_file x.1 (some (file, t)) ≡ (false, x.1)))
    ⊎ ((x.0 ≡ false)
        × (((es_vacia file || es_vacia t) ≡ true)
            ⊎ ((d : Directorio) × (dictionary_get s.tags (ruta file t) ≡ some d)))
        × (x.1 ≡ s))

crear_file-hecho :
    (s : Storage) (file t : Cadena)
    → (es_vacia file || es_vacia t) ≡ false
    → dictionary_get s.tags (ruta file t) ≡ none
    → crear_file s (some (file, t)) ≡ (
      true,
      poner_directorio s (ruta file t) (record { metadata = some metadata_inicial; logicos = [] }),
    )
unfolding crear_file
crear_file-hecho s file t b e = rw (b, e) refl

crear_file-vacio :
    (s : Storage) (file t : Cadena)
    → (es_vacia file || es_vacia t) ≡ true
    → crear_file s (some (file, t)) ≡ (false, s)
unfolding crear_file
crear_file-vacio s file t b = rw b refl

-- Either `crear_file` answers true, neither name is empty and there was no such File:Tag: now there is one,
-- in WORK_IN_PROGRESS, of size 0 and without blocks, no other File:Tag and no content changed, and to
-- create it again answers false and changes nothing. Or it answers false, a name is empty or there is
-- such a File:Tag, and nothing changed.
pub crear_file-Creacion :
    (s : Storage) (file t : Cadena) → Creacion s file t (crear_file s (some (file, t)))
crear_file-Creacion s file t = elim (Bool-cases (es_vacia file || es_vacia t)) [
  | inl b ↦ subst (Creacion s file t) (sym (crear_file-vacio s file t b)) (inr (refl, inl b, refl))
  | inr b ↦ elim (Option-cases (dictionary_get s.tags (ruta file t))) [
    | inl e ↦
        let creado = poner_directorio-Creado s (ruta file t) e in
        let (d, config, vacio) = creado.0 in
        let hay = (config_de-partes _ (ruta file t) d metadata_inicial config).0 in
        subst (Creacion s file t) (sym (crear_file-hecho s file t b e))
          (inl (refl, b, e, creado, crear_file-repetido _ file t d hay))
    | inr (d, e) ↦
        subst (Creacion s file t) (sym (crear_file-repetido s file t d e))
          (inr (refl, inr (d, e), refl))
  ]
]
