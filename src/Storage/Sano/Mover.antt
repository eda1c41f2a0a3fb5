-- ===== src/Storage/Sano/Mover.antt =====
-- storage/src/operaciones.c: the free block, and the copy of a block on a write.
use tp_2025_2c_kernel_panic.Prelude.{
  ℕ, zero, suc, ◌+◌, ◌-◌, ◌≤◌, ◌<◌, ◌≡◌, ◌≢◌, refl, sym, ◌∙◌, ap, subst, inl, inr, List, [], Option,
  none, some, true, false, Cadena, str_eq, str_eq_refl, str_eq_iff, get_or, get_or-set_self, take,
  if◌then◌else◌, Bool-cases, Option-cases, ==_refl, arith,
}
use tp_2025_2c_kernel_panic.Prelude.Diccionario.{dictionary_get}
use tp_2025_2c_kernel_panic.Storage.Disco.{
  Directorio, Storage, Metadata, enlace, poner_enlace, enlazar, desenlazar, guardar, cambiar,
  test_bit, ocupar, desocupar, poner_fisico, cantidad_bloques, bloque_libre_desde, bloque_libre,
}
use tp_2025_2c_kernel_panic.Storage.Escritura.{mover_enlace}
use tp_2025_2c_kernel_panic.Storage.Sano.{IsSano, Bueno}
use tp_2025_2c_kernel_panic.Storage.Sano.Enlaces.{enlace-poner_enlace, enlace-directorio, enlace-de}
use tp_2025_2c_kernel_panic.Storage.Sano.Pasos.{
  poner_enlace-IsSano, ocupar-IsSano, desocupar-IsSano, poner_fisico-IsSano,
}

bloque_libre_desde-Libre :
    (k i : ℕ) (s : Storage) (n : ℕ)
    → bloque_libre_desde k i s ≡ some n
    → (i ≤ n) × (n < i + k) × (test_bit s n ≡ false)
unfolding bloque_libre_desde
bloque_libre_desde-Libre zero i s n h = absurd cc
bloque_libre_desde-Libre (suc k) i s n h = elim (Bool-cases (test_bit s i)) [
  | inl b ↦
      let (a, b, c) = bloque_libre_desde-Libre k (suc i) s n (rw (b, bloque_libre_desde) at h) in
      (omega (arith, a), omega (arith, b), c)
  | inr b ↦
      let e : some i ≡ some n = rw (b, bloque_libre_desde) at h in
      let f : i ≡ n = cc in
      (omega (arith, f), omega (arith, f), subst (λ x. test_bit s x ≡ false) f b)
]

-- The block that is found is free, is not block 0, and is one of the file system.
pub bloque_libre-Libre :
    (s : Storage) (n : ℕ)
    → bloque_libre s ≡ some n
    → (n ≢ 0) × (n < cantidad_bloques s) × (test_bit s n ≡ false)
unfolding bloque_libre
bloque_libre-Libre s n h =
    let (a, b, c) = bloque_libre_desde-Libre (cantidad_bloques s - 1) 1 s n h in
    ((λ e. omega (arith, a, e)), omega (arith, a, b), c)

-- The rest of the state when a link or a metadata is replaced.
pub poner_enlace-campos :
    (s : Storage) (r : Cadena) (i : ℕ) (v : Option ℕ)
    → let t = poner_enlace s r i v in
      (t.fisicos ≡ s.fisicos) × (t.bitmap ≡ s.bitmap) × (t.tamanio_bloque ≡ s.tamanio_bloque)
unfolding poner_enlace
poner_enlace-campos s r i v = elim (Option-cases (dictionary_get s.tags r)) [
  | inl e ↦ rw (e, poner_enlace) (refl, refl, refl)
  | inr (d, e) ↦ rw (e, poner_enlace) (refl, refl, refl)
]

pub guardar-campos :
    (s : Storage) (r : Cadena) (m : Metadata)
    → let t = guardar s r m in
      (t.fisicos ≡ s.fisicos) × (t.bitmap ≡ s.bitmap) × (t.tamanio_bloque ≡ s.tamanio_bloque)
unfolding guardar
guardar-campos s r m = elim (Option-cases (dictionary_get s.tags r)) [
  | inl e ↦ rw (e, guardar) (refl, refl, refl)
  | inr (d, e) ↦ rw (e, guardar) (refl, refl, refl)
]

pub guardar-enlace :
    (s : Storage) (r : Cadena) (m : Metadata) (k : Cadena) (j : ℕ)
    → enlace (guardar s r m) k j ≡ enlace s k j
unfolding guardar
guardar-enlace s r m k j = elim (Option-cases (dictionary_get s.tags r)) [
  | inl e ↦ rw (e, guardar) refl
  | inr (d, e) ↦
      rw (e, guardar) (enlace-directorio s r (record d { metadata = some m }) k j ∙ mismo d e)
]
  where
    mismo :
        (d : Directorio)
        → dictionary_get s.tags r ≡ some d
        → (if str_eq r k then get_or d.logicos j none else enlace s k j) ≡ enlace s k j
    mismo d e = elim (Bool-cases (str_eq r k)) [
      | inl b ↦
          let f : r ≡ k = (str_eq_iff r k).0 b in
          rw b (subst (λ x. get_or d.logicos j none ≡ enlace s x j) f (sym (enlace-de s r d j e)))
      | inr b ↦ rw b refl
    ]

pub desenlazar-hecho :
    (s : Storage) (r : Cadena) (i n : ℕ)
    → enlace s r i ≡ some n
    → desenlazar s r i ≡ some (poner_enlace s r i none)
unfolding desenlazar
desenlazar-hecho s r i n e = rw (e, desenlazar) refl

pub enlazar-hecho :
    (s : Storage) (r : Cadena) (i n : ℕ) (c : List ℕ)
    → s.fisicos n ≡ some c
    → enlace s r i ≡ none
    → enlazar s r i n ≡ some (poner_enlace s r i (some n))
unfolding enlazar
enlazar-hecho s r i n c f e = rw (f, e, enlazar) refl

-- A logical block that is linked has a directory.
pub enlace-directorio_de :
    (s : Storage) (r : Cadena) (i n : ℕ)
    → enlace s r i ≡ some n
    → (d : Directorio) × (dictionary_get s.tags r ≡ some d)
unfolding enlace
enlace-directorio_de s r i n h = elim (Option-cases (dictionary_get s.tags r)) [
  | inl e ↦ let f : none ≡ some n = rw (e, enlace) at h in absurd cc
  | inr (d, e) ↦ (d, e)
]

pub enlace-quitado :
    (s : Storage) (r : Cadena) (i n : ℕ)
    → enlace s r i ≡ some n
    → enlace (poner_enlace s r i none) r i ≡ none
enlace-quitado s r i n e =
    let (d, g) = enlace-directorio_de s r i n e in
    enlace-poner_enlace s r d i none r i g ∙ rw (str_eq_refl r, ==_refl i) refl

module _ (s : Storage) (r : Cadena) (i actual nuevo : ℕ) where
  -- The state once the copy is made and the logical block is linked to it.
  abbrev pub copiado : List ℕ → Storage
  copiado c = poner_fisico (ocupar s nuevo) nuevo (some (take s.tamanio_bloque c))

  abbrev pub movido : List ℕ → Storage
  movido c = poner_enlace (poner_enlace (copiado c) r i none) r i (some nuevo)

  copiado-enlace : (c : List ℕ) (k : Cadena) (j : ℕ) → enlace (copiado c) k j ≡ enlace s k j
  unfolding poner_fisico ocupar enlace
  copiado-enlace c k j = refl

  copiado-fisicos : (c : List ℕ) → (copiado c).fisicos nuevo ≡ some (take s.tamanio_bloque c)
  unfolding poner_fisico ocupar cambiar
  copiado-fisicos c = rw (==_refl nuevo) refl

  pub mover_enlace-movido :
      (n : ℕ) (c : List ℕ)
      → enlace s r i ≡ some n
      → s.fisicos actual ≡ some c
      → mover_enlace s r i actual nuevo ≡ (some (movido c), movido c)
  unfolding mover_enlace
  mover_enlace-movido n c e f =
      let g : enlace (copiado c) r i ≡ some n = copiado-enlace c r i ∙ e in
      let suelto = poner_enlace (copiado c) r i none in
      let h : suelto.fisicos nuevo ≡ some (take s.tamanio_bloque c) =
        ap (λ x. x nuevo) (poner_enlace-campos (copiado c) r i none).0 ∙ copiado-fisicos c in
      rw
        (
          f,
          mover_enlace,
          desenlazar-hecho (copiado c) r i n g,
          enlazar-hecho suelto r i nuevo (take s.tamanio_bloque c) h
              (enlace-quitado (copiado c) r i n g),
        )
        refl

  pub mover_enlace-sin_origen :
      s.fisicos actual ≡ none
      → mover_enlace s r i actual nuevo
        ≡ (none, desocupar (poner_fisico (ocupar s nuevo) nuevo (some [])) nuevo)
  unfolding mover_enlace
  mover_enlace-sin_origen f = rw (f, mover_enlace) refl

  module _ (h : IsSano s) (libre : nuevo ≢ 0) (cabe : nuevo < cantidad_bloques s)
      (desocupado : test_bit s nuevo ≡ false) where
    copiado-IsSano : (c : List ℕ) → IsSano (copiado c)
    copiado-IsSano c = poner_fisico-IsSano _ (ocupar-IsSano s h nuevo) nuevo _

    sin_enlace : (k : Cadena) (j : ℕ) → enlace s k j ≢ some nuevo
    sin_enlace k j e = let x = (h.bueno nuevo (k, j, e)).0 libre in absurd cc

    pub movido-IsSano : (c : List ℕ) → IsSano (movido c)
    unfolding poner_fisico ocupar test_bit
    movido-IsSano c =
        let suelto = poner_enlace (copiado c) r i none in
        let campos = poner_enlace-campos (copiado c) r i none in
        poner_enlace-IsSano suelto
          (poner_enlace-IsSano (copiado c) (copiado-IsSano c) r i none (λ n x. absurd cc)) r i
          (some nuevo)
          (λ n x.
            let y : nuevo ≡ n = cc in
            subst (Bueno suelto) y (
              (λ ne.
                  ap (λ z. get_or z nuevo false) campos.1
                  ∙ get_or-set_self s.bitmap nuevo true false (omega (arith, cabe, h.cabe))),
              (take s.tamanio_bloque c, ap (λ z. z nuevo) campos.0 ∙ copiado-fisicos c),
            ))

    sin_origen-IsSano : IsSano (desocupar (poner_fisico (ocupar s nuevo) nuevo (some [])) nuevo)
    unfolding poner_fisico ocupar enlace
    sin_origen-IsSano =
        desocupar-IsSano _ (poner_fisico-IsSano _ (ocupar-IsSano s h nuevo) nuevo []) nuevo
          sin_enlace

    -- What a copy leaves is in order, whether it is made or not.
    pub mover_enlace-IsSano :
        (n : ℕ)
        → enlace s r i ≡ some n
        → let m = mover_enlace s r i actual nuevo in
          IsSano m.1 × ((t : Storage) → m.0 ≡ some t → IsSano t)
    mover_enlace-IsSano n e = elim (Option-cases (s.fisicos actual)) [
      | inl f ↦ rw (mover_enlace-sin_origen f) (sin_origen-IsSano, (λ t x. absurd cc))
      | inr (c, f) ↦
          rw (mover_enlace-movido n c e f) (
            movido-IsSano c,
            (λ t x. let y : movido c ≡ t = cc in subst IsSano y (movido-IsSano c)),
          )
    ]
