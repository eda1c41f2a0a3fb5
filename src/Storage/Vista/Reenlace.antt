-- ===== src/Storage/Vista/Reenlace.antt =====
-- storage/src/operaciones.c: what the loops of `truncar_file` do to the links of a path.
use tp_2025_2c_kernel_panic.Prelude.{
  ℕ, zero, suc, ◌+◌, ◌≡◌, refl, ◌∙◌, ap, subst, inl, inr, List, Option, none, some, true, false,
  ◌&&◌, Cadena, str_eq, str_eq_iff, str_eq_refl, get_or, if◌then◌else◌, Bool-cases, Option-cases,
  ◌==◌, ==_iff, ltb, leb, arith,
}
use tp_2025_2c_kernel_panic.Prelude.Diccionario.{dictionary_get}
use tp_2025_2c_kernel_panic.Storage.Disco.{
  Storage, Directorio, enlace, poner_enlace, enlazar, desenlazar, nlink, marcar_bloque_libre,
  desocupar, cantidad_bloques, test_bit,
}
use tp_2025_2c_kernel_panic.Storage.Archivos.{agrandar, liberar_si_suelto, quitar_bloque, achicar}
use tp_2025_2c_kernel_panic.Storage.Sano.Enlaces.{enlace-poner_enlace}
use tp_2025_2c_kernel_panic.Storage.Sano.Mover.{poner_enlace-campos, desenlazar-hecho}
use tp_2025_2c_kernel_panic.Storage.Vista.Escritura.{poner_enlace-directorio}

-- The File:Tag has a directory.
abbrev pub Hay : Storage → Cadena → Type 0
Hay s r = (d : Directorio) × (dictionary_get s.tags r ≡ some d)

-- From one state to the other the links of a path become those of `f`; the physical blocks and the other
-- links stay.
abbrev pub Reenlaza : Storage → Cadena → (ℕ → Option ℕ) → Storage → Type 0
Reenlaza s r f u =
    (u.fisicos ≡ s.fisicos)
    × Hay u r
    × ((k : Cadena) (j : ℕ) → enlace u k j ≡ (if str_eq r k then f j else enlace s k j))

poner_enlace-Reenlaza :
    (s : Storage) (r : Cadena) (i : ℕ) (v : Option ℕ)
    → Hay s r
    → Reenlaza s r (λ j. if j == i then v else enlace s r j) (poner_enlace s r i v)
poner_enlace-Reenlaza s r i v (d, e) = (
  (poner_enlace-campos s r i v).0,
  poner_enlace-directorio s r i v d e,
  (λ k j. enlace-poner_enlace s r d i v k j e ∙ elim (Bool-cases (str_eq r k)) [
    | inl b ↦ let f : r ≡ k = (str_eq_iff r k).0 b in rw (b, f) refl
    | inr b ↦ rw b refl
  ]),
)

Reenlaza-refl : (s : Storage) (r : Cadena) → Hay s r → Reenlaza s r (enlace s r) s
Reenlaza-refl s r h = (
  refl,
  h,
  (λ k j. elim (Bool-cases (str_eq r k)) [
    | inl b ↦ let f : r ≡ k = (str_eq_iff r k).0 b in rw (b, f) refl
    | inr b ↦ rw b refl
  ]),
)

pub Reenlaza-luego :
    (s t u : Storage) (r : Cadena) (f g : ℕ → Option ℕ)
    → Reenlaza s r f t
    → Reenlaza t r g u
    → Reenlaza s r g u
Reenlaza-luego s t u r f g (a, b, c) (x, y, z) = (
  x ∙ a,
  y,
  (λ k j.
      z k j
      ∙ elim (Bool-cases (str_eq r k)) [ inl e ↦ rw e refl | inr e ↦ rw (e, c k j) (rw e refl) ]),
)

pub Reenlaza-igual :
    (s u : Storage) (r : Cadena) (f g : ℕ → Option ℕ)
    → ((j : ℕ) → f j ≡ g j)
    → Reenlaza s r f u
    → Reenlaza s r g u
Reenlaza-igual s u r f g e (x, y, z) =
    (x, y, (λ k j. z k j ∙ ap (λ w. if str_eq r k then w else enlace s k j) (e j)))

pub Reenlaza-en :
    (s u : Storage) (r : Cadena) (f : ℕ → Option ℕ) (j : ℕ) → Reenlaza s r f u → enlace u r j ≡ f j
Reenlaza-en s u r f j (x, y, z) = z r j ∙ rw (str_eq_refl r) refl

enlazar-partes :
    (s : Storage) (r : Cadena) (i n : ℕ) (t : Storage)
    → enlazar s r i n ≡ some t
    → poner_enlace s r i (some n) ≡ t
unfolding enlazar
enlazar-partes s r i n t e = elim (Option-cases (s.fisicos n)) [
  | inl f ↦ let x : none ≡ some t = rw (f, enlazar) at e in absurd cc
  | inr (c, f) ↦ elim (Option-cases (enlace s r i)) [
    | inl k ↦ let x : some (poner_enlace s r i (some n)) ≡ some t = rw (f, k, enlazar) at e in cc
    | inr (m, k) ↦ let x : none ≡ some t = rw (f, k, enlazar) at e in absurd cc
  ]
]

-- Growing: the new logical blocks are linked to block 0.
crece :
    (i n j : ℕ) (x y : Option ℕ)
    → y ≡ (if j == i then some 0 else x)
    → (if leb (suc i) j && ltb j (suc i + n) then some 0 else y)
      ≡ (if leb i j && ltb j (i + suc n) then some 0 else x)
crece i n j x y e = rw e (ground arith)

nada : (i j : ℕ) (x y : Option ℕ) → x ≡ (if leb i j && ltb j (i + 0) then y else x)
nada i j x y = ground arith

pub agrandar-Reenlaza :
    (n i : ℕ) (r : Cadena) (s : Storage)
    → Hay s r
    → (agrandar n i r s).0 ≡ true
    → Reenlaza s r
        (λ j. if leb i j && ltb j (i + n) then some 0 else enlace s r j)
        (agrandar n i r s).1
unfolding agrandar
agrandar-Reenlaza zero i r s h e =
    Reenlaza-igual s s r (enlace s r) _ (λ j. nada i j (enlace s r j) (some 0))
      (Reenlaza-refl s r h)
agrandar-Reenlaza (suc n) i r s h e = elim (Option-cases (enlazar s r i 0)) [
  | inl k ↦ let x : false ≡ true = rw (k, agrandar) at e in absurd cc
  | inr (t, k) ↦
      let uno : Reenlaza s r (λ j. if j == i then some 0 else enlace s r j) t =
        subst (Reenlaza s r (λ j. if j == i then some 0 else enlace s r j))
          (enlazar-partes s r i 0 t k) (poner_enlace-Reenlaza s r i (some 0) h) in
      let e2 : (agrandar n (suc i) r t).0 ≡ true = rw (k, agrandar) at e in
      let dos = agrandar-Reenlaza n (suc i) r t uno.1 e2 in
      rw (k, agrandar)
        (Reenlaza-igual s _ r _ _
          (λ j. crece i n j (enlace s r j) (enlace t r j) (Reenlaza-en s t r _ j uno))
          (Reenlaza-luego s t _ r _ _ uno dos))
]

-- Marking a block as free changes neither the links nor the contents.
liberar_si_suelto-campos :
    (s : Storage) (n : ℕ)
    → ((liberar_si_suelto s n).fisicos ≡ s.fisicos) × ((liberar_si_suelto s n).tags ≡ s.tags)
unfolding liberar_si_suelto marcar_bloque_libre desocupar
liberar_si_suelto-campos s n = elim (Option-cases (s.fisicos n)) [
  | inl e ↦ rw (e, liberar_si_suelto) (refl, refl)
  | inr (c, e) ↦
      rw (e, liberar_si_suelto)
        (elim (Bool-cases (nlink s n == 1)) [
          | inl b ↦ rw b (elim (Bool-cases (leb (cantidad_bloques s) n)) [
            | inl f ↦ rw (f, marcar_bloque_libre) (refl, refl)
            | inr f ↦
                rw (f, marcar_bloque_libre)
                  (elim (Bool-cases (test_bit s n)) [
                    | inl g ↦ rw g (refl, refl)
                    | inr g ↦ rw g (refl, refl)
                  ])
          ])
          | inr b ↦ rw b (refl, refl)
        ])
]

Reenlaza-libre :
    (s t : Storage) (r : Cadena) (f : ℕ → Option ℕ) (n : ℕ)
    → Reenlaza s r f t
    → Reenlaza s r f (liberar_si_suelto t n)
unfolding enlace
Reenlaza-libre s t r f n (x, (d, y), z) =
    let (fis, ts) = liberar_si_suelto-campos t n in
    (
      fis ∙ x,
      (d, ap (λ w. dictionary_get w r) ts ∙ y),
      (λ k j. ap (λ w. enlace (record t { tags = w }) k j) ts ∙ z k j),
    )

pub desenlazar-nada :
    (s : Storage) (r : Cadena) (i : ℕ) → enlace s r i ≡ none → desenlazar s r i ≡ none
unfolding desenlazar
desenlazar-nada s r i e = rw (e, desenlazar) refl

ya_estaba : (i j : ℕ) (f : ℕ → Option ℕ) → f i ≡ none → f j ≡ (if j == i then none else f j)
ya_estaba i j f e = elim (Bool-cases (j == i)) [
  | inl b ↦ let g : j ≡ i = (==_iff j i).0 b in rw (b, g) e
  | inr b ↦ rw b refl
]

quitar_bloque-Reenlaza :
    (r : Cadena) (bs : List ℕ) (i : ℕ) (s : Storage)
    → Hay s r
    → Reenlaza s r (λ j. if j == i then none else enlace s r j) (quitar_bloque r bs i s)
unfolding quitar_bloque
quitar_bloque-Reenlaza r bs i s h = elim (Option-cases (enlace s r i)) [
  | inl e ↦ rw (desenlazar-nada s r i e) (
      Reenlaza-libre s s r _ (get_or bs i 0) (
        Reenlaza-igual s s r (enlace s r) _ (λ j. ya_estaba i j (enlace s r) e)
          (Reenlaza-refl s r h)))
  | inr (n, e) ↦
      rw (desenlazar-hecho s r i n e)
        (Reenlaza-libre s _ r _ (get_or bs i 0) (poner_enlace-Reenlaza s r i none h))
]

-- Shrinking: the logical blocks are gone.
mengua :
    (d n j : ℕ) (x y : Option ℕ)
    → y ≡ (if j == (d + n) then none else x)
    → (if leb d j && ltb j (d + n) then none else y)
      ≡ (if leb d j && ltb j (d + suc n) then none else x)
mengua d n j x y e = rw e (ground arith)

pub achicar-Reenlaza :
    (n desde : ℕ) (r : Cadena) (bs : List ℕ) (s : Storage)
    → Hay s r
    → Reenlaza s r
        (λ j. if leb desde j && ltb j (desde + n) then none else enlace s r j)
        (achicar n desde r bs s)
unfolding achicar
achicar-Reenlaza zero desde r bs s h =
    Reenlaza-igual s s r (enlace s r) _ (λ j. nada desde j (enlace s r j) none)
      (Reenlaza-refl s r h)
achicar-Reenlaza (suc n) desde r bs s h =
    let t = quitar_bloque r bs (desde + n) s in
    let uno = quitar_bloque-Reenlaza r bs (desde + n) s h in
    let dos = achicar-Reenlaza n desde r bs t uno.1 in
    Reenlaza-igual s _ r _ _
      (λ j. mengua desde n j (enlace s r j) (enlace t r j) (Reenlaza-en s t r _ j uno))
      (Reenlaza-luego s t _ r _ _ uno dos)
