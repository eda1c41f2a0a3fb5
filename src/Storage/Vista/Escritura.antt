-- ===== src/Storage/Vista/Escritura.antt =====
-- storage/src/operaciones.c: what writing a block does to the contents of the files.
use tp_2025_2c_kernel_panic.Prelude.{
  ℕ, zero, suc, ◌-◌, ◌≤◌, ◌≡◌, ◌≢◌, refl, sym, ◌∙◌, ap, inl, inr, List, [], ◌∷◌, ◌++◌, Option, none,
  some, true, false, ◌&&◌, Cadena, str_eq, str_eq_refl, take, drop, length, length-append,
  length-replicate, length-take, replicate, set, if◌then◌else◌, Bool-cases, Option-cases, ◌==◌,
  ==_refl, ==_iff, ltb, arith,
}
use tp_2025_2c_kernel_panic.Prelude.Diccionario.{dictionary_get, get-put}
use tp_2025_2c_kernel_panic.Storage.Disco.{
  poner_en, Storage, Directorio, enlace, poner_enlace, config_de, nlink, poner_fisico, ocupar,
  cambiar, test_bit, bloque_libre,
}
use tp_2025_2c_kernel_panic.Storage.Escritura.{
  cambiar_bloque, sobrescribir, rellenar, escribir_fisico, escribir_en,
}
use tp_2025_2c_kernel_panic.Storage.Sano.{IsSano}
use tp_2025_2c_kernel_panic.Storage.Sano.Enlaces.{enlace-poner_enlace, enlace-enlaces}
use tp_2025_2c_kernel_panic.Storage.Sano.Mover.{
  poner_enlace-campos, guardar-campos, guardar-enlace, copiado, movido, mover_enlace-movido,
  enlace-directorio_de,
}
use tp_2025_2c_kernel_panic.Storage.Vista.{vista, Muestra, con_bloque}

module _ {A : Type 0} where
  drop-todo : (n : ℕ) (xs : List A) → length xs ≤ n → drop n xs ≡ []
  drop-todo zero [] h = refl
  drop-todo zero (x ∷ xs) h = absurd (omega arith)
  drop-todo (suc n) [] h = refl
  drop-todo (suc n) (x ∷ xs) h = drop-todo n xs (omega arith)

  append-nil : (xs : List A) → xs ++ [] ≡ xs
  append-nil [] = refl
  append-nil (x ∷ xs) = ap (◌∷◌ x) (append-nil xs)

-- What is written covers the block that it is written over.
sobrescribir-rellenar :
    (n : ℕ) (c viejo : List ℕ) → sobrescribir (rellenar n c) (take n viejo) ≡ rellenar n c
unfolding sobrescribir rellenar
sobrescribir-rellenar n c viejo =
    let ceros = replicate (n - length c) 0 in
    let largo = length-append c ceros in
    let cuantos = length-replicate {A = ℕ} (n - length c) 0 in
    let corto = length-take n viejo in
    rw (drop-todo (length (c ++ ceros)) (take n viejo) (omega (arith, largo, cuantos, corto)))
      (append-nil (c ++ ceros))

pub vista-de :
    (s : Storage) (r : Cadena) (i n : ℕ) → enlace s r i ≡ some n → vista s r i ≡ s.fisicos n
unfolding vista
vista-de s r i n e = rw (e, vista) refl

pub vista-sin_enlace : (s : Storage) (r : Cadena) (i : ℕ) → enlace s r i ≡ none → vista s r i ≡ none
unfolding vista
vista-sin_enlace s r i e = rw (e, vista) refl

-- Two states with the same links show the same where the blocks of the links are the same.
pub vista-mismos :
    (s t : Storage) (r : Cadena) (i : ℕ)
    → enlace t r i ≡ enlace s r i
    → ((n : ℕ) → enlace s r i ≡ some n → t.fisicos n ≡ s.fisicos n)
    → vista t r i ≡ vista s r i
vista-mismos s t r i e f = elim (Option-cases (enlace s r i)) [
  | inl k ↦ vista-sin_enlace t r i (e ∙ k) ∙ sym (vista-sin_enlace s r i k)
  | inr (n, k) ↦ vista-de t r i n (e ∙ k) ∙ f n k ∙ sym (vista-de s r i n k)
]

-- A block with a link has at least two names.
pub nlink-dos :
    (s : Storage) (r : Cadena) (i n : ℕ) → IsSano s → enlace s r i ≡ some n → 2 ≤ nlink s n
unfolding nlink
nlink-dos s r i n h e =
    rw ((h.bueno n (r, i, e)).1.1, nlink) (omega (arith, enlace-enlaces s r i n e))

cambiar_bloque-campos :
    (s : Storage) (r : Cadena) (i n : ℕ)
    → let t = cambiar_bloque s r i n in
      (t.fisicos ≡ s.fisicos)
      × (t.bitmap ≡ s.bitmap)
      × ((k : Cadena) (j : ℕ) → enlace t k j ≡ enlace s k j)
unfolding cambiar_bloque
cambiar_bloque-campos s r i n = elim (Option-cases (config_de s r)) [
  | inl e ↦ rw (e, cambiar_bloque) (refl, refl, (λ k j. refl))
  | inr ((d, m), e) ↦
      rw (e, cambiar_bloque)
        (elim (Bool-cases (ltb i (length m.blocks))) [
          | inl b ↦ let (x, y, z) = guardar-campos s r _ in rw b (x, y, guardar-enlace s r _)
          | inr b ↦ rw b (refl, refl, (λ k j. refl))
        ])
]

pub poner_enlace-directorio :
    (s : Storage) (r : Cadena) (i : ℕ) (v : Option ℕ) (d : Directorio)
    → dictionary_get s.tags r ≡ some d
    → (e : Directorio) × (dictionary_get (poner_enlace s r i v).tags r ≡ some e)
unfolding poner_enlace
poner_enlace-directorio s r i v d e =
    let f = record d { logicos = poner_en d.logicos i v } in
    rw (e, poner_enlace) (f, get-put s.tags r r f ∙ rw (str_eq_refl r) refl)

module _ (s : Storage) (r : Cadena) (i actual nuevo : ℕ) (contenido : List ℕ) where
  -- The state after the copy, the change of the metadata and the write.
  abbrev pub escrito : List ℕ → Storage
  escrito c =
      poner_fisico (cambiar_bloque (movido s r i actual nuevo c) r i nuevo) nuevo
        (some (rellenar s.tamanio_bloque contenido))

  copiado-otro :
      (c : List ℕ) (m : ℕ) → m ≢ nuevo → (copiado s r i actual nuevo c).fisicos m ≡ s.fisicos m
  unfolding poner_fisico ocupar cambiar
  copiado-otro c m ne = elim (Bool-cases (m == nuevo)) [
    | inl b ↦ absurd (ne ((==_iff m nuevo).0 b))
    | inr b ↦ rw b refl
  ]

  copiado-nuevo :
      (c : List ℕ) → (copiado s r i actual nuevo c).fisicos nuevo ≡ some (take s.tamanio_bloque c)
  unfolding poner_fisico ocupar cambiar
  copiado-nuevo c = rw (==_refl nuevo) refl

  -- The physical blocks after the copy and the change of the metadata.
  cambiado-fisicos :
      (c : List ℕ)
      → (cambiar_bloque (movido s r i actual nuevo c) r i nuevo).fisicos
        ≡ (copiado s r i actual nuevo c).fisicos
  cambiado-fisicos c =
      let p = copiado s r i actual nuevo c in
      let q = poner_enlace p r i none in
      (cambiar_bloque-campos (movido s r i actual nuevo c) r i nuevo).0
      ∙ (poner_enlace-campos q r i (some nuevo)).0
      ∙ (poner_enlace-campos p r i none).0

  escrito-otro : (c : List ℕ) (m : ℕ) → m ≢ nuevo → (escrito c).fisicos m ≡ s.fisicos m
  unfolding poner_fisico cambiar
  escrito-otro c m ne = elim (Bool-cases (m == nuevo)) [
    | inl b ↦ absurd (ne ((==_iff m nuevo).0 b))
    | inr b ↦ rw b (ap (λ x. x m) (cambiado-fisicos c) ∙ copiado-otro c m ne)
  ]

  pub escrito-bitmap : (c : List ℕ) → (escrito c).bitmap ≡ set s.bitmap nuevo true
  unfolding poner_fisico ocupar
  escrito-bitmap c =
      let p = copiado s r i actual nuevo c in
      let q = poner_enlace p r i none in
      (cambiar_bloque-campos (movido s r i actual nuevo c) r i nuevo).1
      ∙ (poner_enlace-campos q r i (some nuevo)).1
      ∙ (poner_enlace-campos p r i none).1

  pub escribir_en-escrito :
      (n : ℕ) (c : List ℕ)
      → IsSano s
      → enlace s r i ≡ some n
      → s.fisicos actual ≡ some c
      → bloque_libre s ≡ some nuevo
      → escribir_en s r i actual contenido ≡ (true, escrito c)
  unfolding escribir_en escribir_fisico
  escribir_en-escrito n c h e f b =
      let dos = nlink-dos s r i n h e in
      let no : (nlink s n == 1) ≡ false = ground (arith, dos) in
      let g = cambiar_bloque (movido s r i actual nuevo c) r i nuevo in
      let k : g.fisicos nuevo ≡ some (take s.tamanio_bloque c) =
        ap (λ x. x nuevo) (cambiado-fisicos c) ∙ copiado-nuevo c in
      rw
        (
          e,
          escribir_en,
          no,
          b,
          mover_enlace-movido s r i actual nuevo n c e f,
          k,
          escribir_fisico,
          sobrescribir-rellenar s.tamanio_bloque contenido c,
        )
        refl

  -- The links after it.
  escrito-enlace :
      (n : ℕ) (c : List ℕ)
      → enlace s r i ≡ some n
      → (k : Cadena) (j : ℕ)
      → enlace (escrito c) k j ≡ (if str_eq r k && j == i then some nuevo else enlace s k j)
  unfolding poner_fisico ocupar enlace
  escrito-enlace n c e k j =
      let p = copiado s r i actual nuevo c in
      let q = poner_enlace p r i none in
      let (d, g) = enlace-directorio_de s r i n e in
      let (x, y) = poner_enlace-directorio p r i none d g in
      let uno = enlace-poner_enlace p r d i none k j g in
      let dos = enlace-poner_enlace q r x i (some nuevo) k j y in
      (cambiar_bloque-campos (movido s r i actual nuevo c) r i nuevo).2 k j
      ∙ dos
      ∙ (elim (Bool-cases (str_eq r k)) [
        | inl b ↦ rw (uno, b) (elim (Bool-cases (j == i)) [ inl f ↦ rw f refl | inr f ↦ rw f refl ])
        | inr b ↦ rw (uno, b) refl
      ])

  pub escrito-Muestra :
      (n : ℕ) (c : List ℕ)
      → IsSano s
      → enlace s r i ≡ some n
      → nuevo ≢ 0
      → test_bit s nuevo ≡ false
      → Muestra (escrito c) (con_bloque (vista s) r i (some (rellenar s.tamanio_bloque contenido)))
  unfolding poner_fisico cambiar
  escrito-Muestra n c h e ne libre k j =
      let enl = escrito-enlace n c e k j in
      elim (Bool-cases (str_eq r k && j == i)) [
        | inl b ↦
            let f : enlace (escrito c) k j ≡ some nuevo = rw b at enl in
            rw (b, vista-de (escrito c) k j nuevo f, ==_refl nuevo) refl
        | inr b ↦
            let f : enlace (escrito c) k j ≡ enlace s k j = rw b at enl in
            rw b (
              vista-mismos s (escrito c) k j f (λ m x.
                let ajeno : m ≢ nuevo = λ z.
                  let y : enlace s k j ≡ some nuevo = x ∙ ap some z in
                  let w = (h.bueno nuevo (k, j, y)).0 ne in cc in
                escrito-otro c m ajeno))
      ]
