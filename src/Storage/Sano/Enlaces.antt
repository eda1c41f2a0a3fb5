-- ===== src/Storage/Sano/Enlaces.antt =====
-- storage/src/operaciones.c: what `link` and `unlink` do to the links, and what the number of links says.
use tp_2025_2c_kernel_panic.Prelude.{
  ℕ, zero, suc, ◌+◌, ◌≤◌, ◌≡◌, ◌≢◌, refl, sym, ◌∙◌, ap, subst, inl, inr, ◌⊎◌, List, [], ◌∷◌, Option,
  none, some, true, Cadena, str_eq, str_eq_iff, str_eq_refl, get_or, if◌then◌else◌, Bool-cases,
  Option-cases, ◌==◌, ==_refl, ==_iff, ==_ne, arith,
}
use tp_2025_2c_kernel_panic.Prelude.Diccionario.{dictionary_get, dictionary_put, get-put}
use tp_2025_2c_kernel_panic.Storage.Archivos.{sin_ruta}
use tp_2025_2c_kernel_panic.Storage.Disco.{
  Directorio, Storage, enlace, poner_enlace, poner_en, veces, enlaces, nlink,
}

poner_en_self : (xs : List (Option ℕ)) (i : ℕ) (v : Option ℕ) → get_or (poner_en xs i v) i none ≡ v
unfolding poner_en
poner_en_self [] zero v = refl
poner_en_self [] (suc i) v = poner_en_self [] i v
poner_en_self (x ∷ xs) zero v = refl
poner_en_self (x ∷ xs) (suc i) v = poner_en_self xs i v

poner_en-ne :
    (xs : List (Option ℕ)) (i j : ℕ) (v : Option ℕ)
    → i ≢ j
    → get_or (poner_en xs i v) j none ≡ get_or xs j none
unfolding poner_en
poner_en-ne [] zero zero v h = absurd (h refl)
poner_en-ne [] zero (suc j) v h = refl
poner_en-ne [] (suc i) zero v h = refl
poner_en-ne [] (suc i) (suc j) v h = poner_en-ne [] i j v (λ e. h (ap suc e))
poner_en-ne (x ∷ xs) zero zero v h = absurd (h refl)
poner_en-ne (x ∷ xs) zero (suc j) v h = refl
poner_en-ne (x ∷ xs) (suc i) zero v h = refl
poner_en-ne (x ∷ xs) (suc i) (suc j) v h = poner_en-ne xs i j v (λ e. h (ap suc e))

-- A directory that is put: its own entries at its path, the others elsewhere.
module _ (s : Storage) (r : Cadena) (d : Directorio) where
  abbrev pub con_directorio : Storage
  con_directorio = record s { tags = dictionary_put s.tags r d }

  pub enlace-directorio :
      (k : Cadena) (j : ℕ)
      → enlace con_directorio k j ≡ (if str_eq r k then get_or d.logicos j none else enlace s k j)
  unfolding enlace
  enlace-directorio k j = elim (Bool-cases (str_eq r k)) [
    | inl b ↦ rw (get-put s.tags r k d, b, enlace) refl
    | inr b ↦ rw (get-put s.tags r k d, b, enlace) refl
  ]

pub enlace-de :
    (s : Storage) (r : Cadena) (d : Directorio) (j : ℕ)
    → dictionary_get s.tags r ≡ some d
    → enlace s r j ≡ get_or d.logicos j none
unfolding enlace
enlace-de s r d j e = rw (e, enlace) refl

-- The entry that is replaced, when its directory exists.
pub enlace-poner_enlace :
    (s : Storage) (r : Cadena) (d : Directorio) (i : ℕ) (v : Option ℕ) (k : Cadena) (j : ℕ)
    → dictionary_get s.tags r ≡ some d
    → enlace (poner_enlace s r i v) k j
      ≡ (if str_eq r k then (if j == i then v else enlace s k j) else enlace s k j)
unfolding poner_enlace
enlace-poner_enlace s r d i v k j e =
    rw (e, poner_enlace)
      (rw (enlace-directorio s r (record d { logicos = poner_en d.logicos i v }) k j)
        (elim (Bool-cases (str_eq r k)) [
          | inl b ↦ rw b (elim (Bool-cases (j == i)) [
            | inl c ↦ let f : j ≡ i = (==_iff j i).0 c in rw (c, f) (poner_en_self d.logicos i v)
            | inr c ↦
                let mismo : r ≡ k = (str_eq_iff r k).0 b in
                let f : enlace s k j ≡ get_or d.logicos j none =
                  subst (λ x. enlace s x j ≡ get_or d.logicos j none) mismo (enlace-de s r d j e) in
                rw (c, f) (poner_en-ne d.logicos i j v (λ g. ==_ne j i c (sym g)))
          ])
          | inr b ↦ rw b refl
        ]))

-- A link after an entry is replaced: it is the new one, or it was there.
enlace-nuevo :
    (s : Storage) (r : Cadena) (i : ℕ) (v : Option ℕ) (k : Cadena) (j n : ℕ)
    → enlace (poner_enlace s r i v) k j ≡ some n
    → (v ≡ some n) ⊎ (enlace s k j ≡ some n)
unfolding poner_enlace
enlace-nuevo s r i v k j n h = elim (Option-cases (dictionary_get s.tags r)) [
  | inl e ↦ inr (rw (e, poner_enlace) at h)
  | inr (d, e) ↦
      let f = sym (enlace-poner_enlace s r d i v k j e) ∙ h in
      elim (Bool-cases (str_eq r k)) [
        | inl b ↦ elim (Bool-cases (j == i)) [
          | inl c ↦ inl (rw (b, c) at f)
          | inr c ↦ inr (rw (b, c) at f)
        ]
        | inr b ↦ inr (rw b at f)
      ]
]

-- What a link counts for.
veces-uno : (n : ℕ) (xs : List (Option ℕ)) (i : ℕ) → get_or xs i none ≡ some n → 1 ≤ veces n xs
unfolding veces
veces-uno n [] i h = absurd cc
veces-uno n (none ∷ xs) zero h = absurd cc
veces-uno n (some m ∷ xs) zero h = let e : m ≡ n = cc in rw (e, veces, ==_refl n) (omega arith)
veces-uno n (none ∷ xs) (suc i) h = veces-uno n xs i h
veces-uno n (some m ∷ xs) (suc i) h = omega (arith, veces-uno n xs i h)

enlaces-uno :
    (n : ℕ) (ts : List (Cadena × Directorio)) (r : Cadena) (d : Directorio) (i : ℕ)
    → dictionary_get ts r ≡ some d
    → get_or d.logicos i none ≡ some n
    → 1 ≤ enlaces n ts
unfolding enlaces dictionary_get
enlaces-uno n [] r d i e h = absurd cc
enlaces-uno n ((k, x) ∷ ts) r d i e h = elim (Bool-cases (str_eq k r)) [
  | inl b ↦
      let f : some x ≡ some d = rw b at e in
      let g : x ≡ d = cc in
      omega
        (arith, veces-uno n x.logicos i (subst (λ z. get_or z.logicos i none ≡ some n) (sym g) h))
  | inr b ↦ omega (arith, enlaces-uno n ts r d i (rw b at e) h)
]

pub enlace-enlaces :
    (s : Storage) (r : Cadena) (i n : ℕ) → enlace s r i ≡ some n → 1 ≤ enlaces n s.tags
unfolding enlace
enlace-enlaces s r i n h = elim (Option-cases (dictionary_get s.tags r)) [
  | inl e ↦ let f : none ≡ some n = rw (e, enlace) at h in absurd cc
  | inr (d, e) ↦ enlaces-uno n s.tags r d i e (rw (e, enlace) at h)
]

-- A physical block that exists and has at most one name has no link.
pub nlink-suelto :
    (s : Storage) (n : ℕ) (c : List ℕ)
    → s.fisicos n ≡ some c
    → nlink s n ≤ 1
    → (r : Cadena) (i : ℕ) → enlace s r i ≢ some n
unfolding nlink
nlink-suelto s n c e h r i k =
    let f : 1 + enlaces n s.tags ≤ 1 = rw (e, nlink) at h in
    let g = enlace-enlaces s r i n k in omega (arith, f, g)

pub poner_en-nuevo :
    (xs : List (Option ℕ)) (i : ℕ) (v : Option ℕ) (j n : ℕ)
    → get_or (poner_en xs i v) j none ≡ some n
    → (v ≡ some n) ⊎ (get_or xs j none ≡ some n)
poner_en-nuevo xs i v j n h = elim (Bool-cases (j == i)) [
  | inl c ↦ let f : j ≡ i = (==_iff j i).0 c in inl (sym (poner_en_self xs i v) ∙ (rw f at h))
  | inr c ↦ inr (sym (poner_en-ne xs i j v (λ g. ==_ne j i c (sym g))) ∙ h)
]

pub get-sin_ruta :
    (r k : Cadena) (ts : List (Cadena × Directorio))
    → dictionary_get (sin_ruta r ts) k ≡ (if str_eq r k then none else dictionary_get ts k)
unfolding dictionary_get sin_ruta
get-sin_ruta r k [] = elim (Bool-cases (str_eq r k)) [ inl b ↦ rw b refl | inr b ↦ rw b refl ]
get-sin_ruta r k ((j, d) ∷ ts) = elim (Bool-cases (str_eq j r)) [
  | inl b ↦
      let mismo : j ≡ r = (str_eq_iff j r).0 b in
      rw (b, get-sin_ruta r k ts, mismo)
        (elim (Bool-cases (str_eq r k)) [ inl c ↦ rw c refl | inr c ↦ rw c refl ])
  | inr b ↦
      rw (b, get-sin_ruta r k ts)
        (elim (Bool-cases (str_eq j k)) [
          | inl c ↦
              let e : j ≡ k = (str_eq_iff j k).0 c in
              rw c (elim (Bool-cases (str_eq r k)) [
                | inl f ↦
                    let g : r ≡ k = (str_eq_iff r k).0 f in
                    let h : str_eq j r ≡ true = rw (e, g) (str_eq_refl k) in absurd cc
                | inr f ↦ rw f refl
              ])
          | inr c ↦ rw c refl
        ])
]

-- A directory that goes takes its links with it.
pub enlace-sin_ruta :
    (s : Storage) (r k : Cadena) (j : ℕ)
    → enlace (record s { tags = sin_ruta r s.tags }) k j
      ≡ (if str_eq r k then none else enlace s k j)
unfolding enlace
enlace-sin_ruta s r k j = elim (Bool-cases (str_eq r k)) [
  | inl b ↦ rw (get-sin_ruta r k s.tags, b, enlace) refl
  | inr b ↦ rw (get-sin_ruta r k s.tags, b, enlace) refl
]
