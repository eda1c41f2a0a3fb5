-- ===== src/Storage/Vista/Dedup.antt =====
-- storage/src/operaciones.c: what the loop of `evitar_duplicidad` does to the contents and the index of hashes.
use tp_2025_2c_kernel_panic.Prelude.{
  ℕ, suc, ◌+◌, ◌≤◌, ◌≡◌, refl, sym, ◌∙◌, ap, subst, inl, inr, List, [], ◌∷◌, Option, none, some,
  true, false, ◌&&◌, Cadena, str_eq, str_eq_iff, str_eq_refl, take, get_elem?, if◌then◌else◌,
  Bool-cases, Option-cases, ◌==◌, ==_iff, ltb, arith,
}
use tp_2025_2c_kernel_panic.Prelude.Diccionario.{dictionary_get, dictionary_put, get-put}
use tp_2025_2c_kernel_panic.Storage.Disco.{
  Storage, enlace, poner_enlace, desocupar, test_bit, cantidad_bloques, persistir_bitmap,
}
use tp_2025_2c_kernel_panic.Storage.Commit.{
  Dedup, conservar, soltar_bit, reasignar, calcular_md5_por_bloque, dedup_bloque, dedup_desde,
}
use tp_2025_2c_kernel_panic.Storage.Sano.Enlaces.{enlace-poner_enlace}
use tp_2025_2c_kernel_panic.Storage.Sano.Mover.{
  poner_enlace-campos, desenlazar-hecho, enlazar-hecho, enlace-directorio_de, enlace-quitado,
}
use tp_2025_2c_kernel_panic.Storage.Vista.{vista}
use tp_2025_2c_kernel_panic.Storage.Vista.Escritura.{
  vista-de, vista-mismos, poner_enlace-directorio,
}

poner_enlace-indice :
    (s : Storage) (r : Cadena) (i : ℕ) (v : Option ℕ)
    → (poner_enlace s r i v).hash_index ≡ s.hash_index
unfolding poner_enlace
poner_enlace-indice s r i v = elim (Option-cases (dictionary_get s.tags r)) [
  | inl e ↦ rw (e, poner_enlace) refl
  | inr (d, e) ↦ rw (e, poner_enlace) refl
]

-- Putting a link back in the place of one that is taken away.
reenlace :
    (s : Storage) (r : Cadena) (i n m : ℕ) (k : Cadena) (j : ℕ)
    → enlace s r i ≡ some n
    → enlace (poner_enlace (poner_enlace s r i none) r i (some m)) k j
      ≡ (if str_eq r k && j == i then some m else enlace s k j)
reenlace s r i n m k j e =
    let q = poner_enlace s r i none in
    let (d, g) = enlace-directorio_de s r i n e in
    let (x, y) = poner_enlace-directorio s r i none d g in
    let uno = enlace-poner_enlace s r d i none k j g in
    enlace-poner_enlace q r x i (some m) k j y ∙ elim (Bool-cases (str_eq r k)) [
      | inl b ↦ rw (uno, b) (elim (Bool-cases (j == i)) [ inl f ↦ rw f refl | inr f ↦ rw f refl ])
      | inr b ↦ rw (uno, b) refl
    ]

mismo_lugar : (r k : Cadena) (j i : ℕ) → (str_eq r k && j == i) ≡ true → (r ≡ k) × (j ≡ i)
mismo_lugar r k j i h = elim (Bool-cases (str_eq r k)) [
  | inl b ↦ let x : (j == i) ≡ true = rw b at h in ((str_eq_iff r k).0 b, (==_iff j i).0 x)
  | inr b ↦ let x : false ≡ true = rw b at h in absurd cc
]

module _ (crypto_md5 : List ℕ → Cadena) where
  -- Each hash of the index is that of the content of its block.
  abbrev pub IndiceFiel : Storage → Type 0
  IndiceFiel s =
      (hash : Cadena) (n : ℕ)
      → dictionary_get s.hash_index hash ≡ some n
      → (c : List ℕ) × (s.fisicos n ≡ some c) × (crypto_md5 (take s.tamanio_bloque c) ≡ hash)

  -- Physical blocks of the same hash have the same content.
  abbrev pub Distingue : Storage → Type 0
  Distingue s =
      (n m : ℕ) (c d : List ℕ)
      → s.fisicos n ≡ some c
      → s.fisicos m ≡ some d
      → crypto_md5 (take s.tamanio_bloque c) ≡ crypto_md5 (take s.tamanio_bloque d)
      → c ≡ d

  module _ (s : Storage) (r : Cadena) (distingue : Distingue s) where
    -- The state of the loop before logical block `i`.
    abbrev Sigue : ℕ → Storage → Type 0
    Sigue i u =
        (u.fisicos ≡ s.fisicos)
        × (u.tamanio_bloque ≡ s.tamanio_bloque)
        × IndiceFiel u
        × ((k : Cadena) (j : ℕ) → vista u k j ≡ vista s k j)
        × ((j : ℕ) → i ≤ j → enlace u r j ≡ enlace s r j)

    despues : (i : ℕ) (u : Storage) → Sigue i u → Sigue (suc i) u
    despues i u (a, b, c, d, e) = (a, b, c, d, (λ j h. e j (omega (arith, h))))

    -- A new hash in the index.
    anotar-Sigue :
        (i : ℕ) (u : Storage) (n : ℕ) (c : List ℕ)
        → u.fisicos n ≡ some c
        → Sigue i u
        → Sigue i (record u {
          hash_index = dictionary_put u.hash_index (crypto_md5 (take u.tamanio_bloque c)) n;
        })
    unfolding enlace
    anotar-Sigue i u n c f (a, b, fiel, d, e) =
        let hash = crypto_md5 (take u.tamanio_bloque c) in
        let t = record u { hash_index = dictionary_put u.hash_index hash n } in
        (
          a,
          b,
          (λ h m g.
              let x = sym (get-put u.hash_index hash h n) ∙ g in
              elim (Bool-cases (str_eq hash h)) [
                | inl y ↦
                    let z : some n ≡ some m = rw y at x in
                    let w : n ≡ m = cc in
                    (c, subst (λ q. u.fisicos q ≡ some c) w f, (str_eq_iff hash h).0 y)
                | inr y ↦ fiel h m (rw y at x)
              ]),
          (λ k j. vista-mismos u t k j refl (λ q g. refl) ∙ d k j),
          e,
        )

    soltar_bit-campos :
        (u : Storage) (n : ℕ)
        → ((soltar_bit u n).fisicos ≡ u.fisicos)
          × ((soltar_bit u n).tamanio_bloque ≡ u.tamanio_bloque)
          × ((soltar_bit u n).hash_index ≡ u.hash_index)
          × ((k : Cadena) (j : ℕ) → enlace (soltar_bit u n) k j ≡ enlace u k j)
    unfolding soltar_bit desocupar persistir_bitmap enlace
    soltar_bit-campos u n = elim (Bool-cases (ltb n (cantidad_bloques u) && test_bit u n)) [
      | inl b ↦ rw b (refl, refl, refl, (λ k j. refl))
      | inr b ↦ rw b (refl, refl, refl, (λ k j. refl))
    ]

    -- A link that goes to a block of the same content.
    reasignar-Sigue :
        (i : ℕ) (e : Dedup) (actual existente : ℕ) (c d : List ℕ)
        → enlace s r i ≡ some actual
        → s.fisicos actual ≡ some c
        → s.fisicos existente ≡ some d
        → c ≡ d
        → Sigue i e.fs
        → Sigue (suc i) (reasignar e r i actual existente).fs
    unfolding reasignar
    reasignar-Sigue i e actual existente c d l f g igual (a, b, fiel, v, al) =
        let u = e.fs in
        let le : enlace u r i ≡ some actual = al i (omega arith) ∙ l in
        let q = poner_enlace u r i none in
        let t = poner_enlace q r i (some existente) in
        let fq : q.fisicos existente ≡ some d =
          ap (λ w. w existente) ((poner_enlace-campos u r i none).0 ∙ a) ∙ g in
        let (x, y, z, w) = soltar_bit-campos t actual in
        let ft =
          x ∙ (poner_enlace-campos q r i (some existente)).0 ∙ (poner_enlace-campos u r i none).0 in
        let tb =
          y ∙ (poner_enlace-campos q r i (some existente)).2 ∙ (poner_enlace-campos u r i none).2 in
        let ix = z ∙ poner_enlace-indice q r i (some existente) ∙ poner_enlace-indice u r i none in
        let en = λ (k : Cadena) (j : ℕ). w k j ∙ reenlace u r i actual existente k j le in
        let hecho : (reasignar e r i actual existente).fs ≡ soltar_bit t actual =
          rw
            (
              desenlazar-hecho u r i actual le,
              reasignar,
              enlazar-hecho q r i existente d fq (enlace-quitado u r i actual le),
            )
            refl in
        subst (Sigue (suc i)) (sym hecho) (
          ft ∙ a,
          tb ∙ b,
          (λ h m p.
              let (o, o1, o2) = fiel h m (ap (λ k. dictionary_get k h) (sym ix) ∙ p) in
              (o, ap (λ k. k m) ft ∙ o1, ap (λ k. crypto_md5 (take k o)) tb ∙ o2)),
          (λ k j. elim (Bool-cases (str_eq r k && j == i)) [
            | inl h ↦
                let (kr, ji) = mismo_lugar r k j i h in
                let antes : enlace s k j ≡ some actual =
                  subst (λ q. enlace s q j ≡ some actual) kr
                    (subst (λ q. enlace s r q ≡ some actual) (sym ji) l) in
                vista-de (soltar_bit t actual) k j existente (en k j ∙ rw h refl)
                ∙ ap (λ o. o existente) (ft ∙ a)
                ∙ g
                ∙ ap some (sym igual)
                ∙ sym f
                ∙ sym (vista-de s k j actual antes)
            | inr h ↦
                vista-mismos u (soltar_bit t actual) k j (en k j ∙ rw h refl)
                  (λ p o. ap (λ k. k p) ft)
                ∙ v k j
          ]),
          (λ j h.
              let no : (j == i) ≡ false = ground (arith, h) in
              en r j ∙ rw (str_eq_refl r, no) (al j (omega (arith, h)))),
        )

    dedup_bloque-Sigue :
        (i : ℕ) (e : Dedup) (actual : ℕ)
        → enlace s r i ≡ some actual
        → Sigue i e.fs
        → Sigue (suc i) (dedup_bloque crypto_md5 e r i actual).fs
    unfolding dedup_bloque conservar calcular_md5_por_bloque
    dedup_bloque-Sigue i e actual l h =
        let u = e.fs in
        let (a, b, fiel, v, al) = h in
        elim (Option-cases (u.fisicos actual)) [
          | inl f ↦
              let q : calcular_md5_por_bloque crypto_md5 u actual ≡ none =
                rw (f, calcular_md5_por_bloque) refl in
              rw (q, dedup_bloque) (despues i u h)
          | inr (c, f) ↦
              let hash = crypto_md5 (take u.tamanio_bloque c) in
              let q : calcular_md5_por_bloque crypto_md5 u actual ≡ some hash =
                rw (f, calcular_md5_por_bloque) refl in
              rw (q, dedup_bloque)
                (elim (Option-cases (dictionary_get u.hash_index hash)) [
                  | inl g ↦ rw g (despues i _ (anotar-Sigue i u actual c f h))
                  | inr (existente, g) ↦ rw g (elim (Bool-cases (existente == actual)) [
                    | inl k ↦ rw k (despues i u h)
                    | inr k ↦
                        let (d, x, y) = fiel hash existente g in
                        let fc : s.fisicos actual ≡ some c = ap (λ w. w actual) (sym a) ∙ f in
                        let fd : s.fisicos existente ≡ some d = ap (λ w. w existente) (sym a) ∙ x in
                        let md =
                          ap (λ w. crypto_md5 (take w c)) (sym b)
                          ∙ sym y
                          ∙ ap (λ w. crypto_md5 (take w d)) b in
                        rw k (
                          reasignar-Sigue i e actual existente c d l fc fd
                            (distingue actual existente c d fc fd md) h)
                  ])
                ])
        ]

    pub dedup_desde-Sigue :
        (ns : List ℕ) (i : ℕ) (e : Dedup)
        → ((j n : ℕ) → get_elem? ns j ≡ some n → enlace s r (i + j) ≡ some n)
        → Sigue i e.fs
        → (k : ℕ) × Sigue k (dedup_desde crypto_md5 i e r ns).fs
    unfolding dedup_desde
    dedup_desde-Sigue [] i e l h = (i, h)
    dedup_desde-Sigue (n ∷ ns) i e l h =
        dedup_desde-Sigue ns (suc i) (dedup_bloque crypto_md5 e r i n)
          (λ j m g. subst (λ w. enlace s r w ≡ some m) (omega arith) (l (suc j) m g))
          (dedup_bloque-Sigue i e n (subst (λ w. enlace s r w ≡ some n) (omega arith) (l 0 n refl))
            h)
