-- ===== src/Storage/Vista/Metadatos.antt =====
-- storage/src/operaciones.c: what the writing of a block leaves of the metadata.
use mathlib.Core.Option.{some-injective}
use tp_2025_2c_kernel_panic.Prelude.{
  ℕ, ◌+◌, ◌-◌, ◌/◌, ◌≡◌, refl, sym, ◌∙◌, ap, subst, inl, inr, List, Option, none, some, Cadena,
  str_eq_refl, set, length, length-set, if◌then◌else◌, Bool-cases, Option-cases, ltb, ℤ,
}
use tp_2025_2c_kernel_panic.Prelude.Diccionario.{dictionary_get, get-put}
use tp_2025_2c_kernel_panic.Storage.Disco.{
  Storage, Metadata, Directorio, bloques_de, dentro_de, poner_enlace, poner_en, config_de, guardar,
  poner_fisico, ocupar,
}
use tp_2025_2c_kernel_panic.Storage.Escritura.{indice_valido, cambiar_bloque}
use tp_2025_2c_kernel_panic.Storage.Sano.Mover.{
  copiado, movido, guardar-campos, poner_enlace-campos,
}
use tp_2025_2c_kernel_panic.Storage.Vista.Escritura.{escrito}

-- The directory and the metadata that `config_de` finds.
pub config_de-partes :
    (s : Storage) (r : Cadena) (d : Directorio) (m : Metadata)
    → config_de s r ≡ some (d, m)
    → (dictionary_get s.tags r ≡ some d) × (d.metadata ≡ some m)
unfolding config_de
config_de-partes s r d m e = elim (Option-cases (dictionary_get s.tags r)) [
  | inl g ↦
      let x : Path (Option (Directorio × Metadata)) none (some (d, m)) = rw (g, config_de) at e in
      absurd cc
  | inr (f, g) ↦ elim (Option-cases f.metadata) [
    | inl k ↦
        let x : Path (Option (Directorio × Metadata)) none (some (d, m)) =
          rw (g, config_de, k) at e in
        absurd cc
    | inr (k, l) ↦
        let x : Path (Option (Directorio × Metadata)) (some (f, k)) (some (d, m)) =
          rw (g, config_de, l) at e in
        let y : Path (Directorio × Metadata) (f, k) (d, m) = some-injective (f, k) (d, m) x in
        let z : f ≡ d = ap (λ (p : Directorio × Metadata). p.0) y in
        (
          g ∙ ap some z,
          sym (ap (λ (w : Directorio). w.metadata) z)
              ∙ l
              ∙ ap (λ (p : Directorio × Metadata). some p.1) y,
        )
  ]
]

pub config_de-hecha :
    (s : Storage) (r : Cadena) (d : Directorio) (m : Metadata)
    → dictionary_get s.tags r ≡ some d
    → d.metadata ≡ some m
    → config_de s r ≡ some (d, m)
unfolding config_de
config_de-hecha s r d m g l =
    rw (g, config_de)
      (subst
        (λ x.
          Path (Option (Directorio × Metadata))
            (elim x as (λ _. Option (Directorio × Metadata)) [ none ↦ none | some k ↦ some (d, k) ])
            (some (d, m)))
        (sym l) refl)

-- A directory of the path with this metadata.
abbrev pub Tiene : Storage → Cadena → Metadata → Type 0
Tiene s r m = (d : Directorio) × (dictionary_get s.tags r ≡ some d) × (d.metadata ≡ some m)

-- A change of the links keeps the metadata.
poner_enlace-Tiene :
    (s : Storage) (r : Cadena) (i : ℕ) (v : Option ℕ) (m : Metadata)
    → Tiene s r m
    → Tiene (poner_enlace s r i v) r m
unfolding poner_enlace
poner_enlace-Tiene s r i v m (d, g, l) =
    let nuevo = record d { logicos = poner_en d.logicos i v } in
    rw (g, poner_enlace) (nuevo, get-put s.tags r r nuevo ∙ rw (str_eq_refl r) refl, l)

-- The change of a block keeps the size and the number of blocks.
cambiar_bloque-Tiene :
    (s : Storage) (r : Cadena) (i n : ℕ) (m : Metadata)
    → Tiene s r m
    → (k : Metadata) × Tiene (cambiar_bloque s r i n) r k
      × (k.tamanio ≡ m.tamanio)
      × (length k.blocks ≡ length m.blocks)
unfolding cambiar_bloque guardar
cambiar_bloque-Tiene s r i n m (d, g, l) =
    let k = record m { blocks = set m.blocks i n } in
    let nuevo = record d { metadata = some k } in
    elim (Bool-cases (ltb i (length m.blocks))) [
      | inl b ↦
          rw (config_de-hecha s r d m g l, cambiar_bloque, b, g, guardar)
            (
              k,
              (nuevo, get-put s.tags r r nuevo ∙ rw (str_eq_refl r) refl, refl),
              refl,
              length-set m.blocks i n,
            )
      | inr b ↦ rw (config_de-hecha s r d m g l, cambiar_bloque, b) (m, (d, g, l), refl, refl)
    ]

cambiar_bloque-tamanio :
    (s : Storage) (r : Cadena) (i n : ℕ)
    → (cambiar_bloque s r i n).tamanio_bloque ≡ s.tamanio_bloque
unfolding cambiar_bloque
cambiar_bloque-tamanio s r i n = elim (Option-cases (config_de s r)) [
  | inl e ↦ rw (e, cambiar_bloque) refl
  | inr ((d, m), e) ↦
      rw (e, cambiar_bloque)
        (elim (Bool-cases (ltb i (length m.blocks))) [
          | inl b ↦ rw b (guardar-campos s r _).2
          | inr b ↦ rw b refl
        ])
]

-- The same index is valid for a metadata of the same size and number of blocks.
pub indice_valido-igual :
    (s t : Storage) (m k : Metadata) (numero : ℤ)
    → t.tamanio_bloque ≡ s.tamanio_bloque
    → k.tamanio ≡ m.tamanio
    → length k.blocks ≡ length m.blocks
    → indice_valido t k numero ≡ indice_valido s m numero
unfolding indice_valido bloques_de
indice_valido-igual s t m k numero a b c = λ j. indice (a j) (b j) (c j)
  where
    indice : ℕ → ℕ → ℕ → Option ℕ
    indice bloque tamanio largo = elim (dentro_de numero ((tamanio + bloque - 1) / bloque)) [
      | none ↦ none
      | some i ↦ if ltb i largo then some i else none
    ]

-- The block size, and of a File:Tag the size and the number of its blocks, are the same in both states.
abbrev pub MismaForma : Storage → Storage → Cadena → Type 0
MismaForma s u r =
    (u.tamanio_bloque ≡ s.tamanio_bloque)
    × ((m : Metadata)
        → Tiene s r m
        → (k : Metadata) × Tiene u r k
          × (k.tamanio ≡ m.tamanio)
          × (length k.blocks ≡ length m.blocks))

pub escrito-MismaForma :
    (s : Storage) (r : Cadena) (i actual nuevo : ℕ) (contenido c : List ℕ)
    → MismaForma s (escrito s r i actual nuevo contenido c) r
unfolding poner_fisico ocupar
escrito-MismaForma s r i actual nuevo contenido c =
    let p = copiado s r i actual nuevo c in
    let q = poner_enlace p r i none in
    let w = movido s r i actual nuevo c in
    (
      cambiar_bloque-tamanio w r i nuevo
          ∙ (poner_enlace-campos q r i (some nuevo)).2
          ∙ (poner_enlace-campos p r i none).2,
      (λ m k.
          cambiar_bloque-Tiene w r i nuevo m
            (poner_enlace-Tiene q r i (some nuevo) m (poner_enlace-Tiene p r i none m k))),
    )
