-- ===== src/Worker/Memoria/Acceso/Copia.antt =====
-- worker/src/memoria.c, the `memcpy` of `acceder_memoria`: what a write leaves in the arena.
use native.Mathlib.Nat.{mul-le-mul_right}
use tp_2025_2c_kernel_panic.Prelude.{
  ℕ, zero, suc, ◌+◌, ◌*◌, ◌<◌, ◌≤◌, ◌≡◌, ◌≢◌, ◌⊎◌, inl, inr, refl, sym, ap, ◌∙◌, List, [], ◌∷◌,
  length, length-set, length-take, length-drop, get_or, set, get_or-set_self, get_or-set_ne, take,
  drop, arith, dec_lt,
}
use tp_2025_2c_kernel_panic.Worker.Memoria.Estado.{
  MemoriaInterna, entrada_en, leer_bytes, escribir_bytes,
}
use tp_2025_2c_kernel_panic.Worker.Memoria.Acceso.{lectura, escritura, copiar}

-- A read that does not reach the written place.
leer_bytes-set :
    (arena : List ℕ) (d b j n : ℕ)
    → (d < j) ⊎ (j + n ≤ d)
    → leer_bytes (set arena d b) j n ≡ leer_bytes arena j n
leer_bytes-set [] d b j n h = refl
leer_bytes-set (x ∷ xs) zero b zero zero h = refl
leer_bytes-set (x ∷ xs) zero b zero (suc n) (inl h) = absurd (omega arith)
leer_bytes-set (x ∷ xs) zero b zero (suc n) (inr h) = absurd (omega arith)
leer_bytes-set (x ∷ xs) zero b (suc j) n h = refl
leer_bytes-set (x ∷ xs) (suc d) b zero zero h = refl
leer_bytes-set (x ∷ xs) (suc d) b zero (suc n) (inl h) = absurd (omega arith)
leer_bytes-set (x ∷ xs) (suc d) b zero (suc n) (inr h) =
    ap (◌∷◌ x) (leer_bytes-set xs d b zero n (inr (omega arith)))
leer_bytes-set (x ∷ xs) (suc d) b (suc j) n (inl h) = leer_bytes-set xs d b j n (inl (omega arith))
leer_bytes-set (x ∷ xs) (suc d) b (suc j) n (inr h) = leer_bytes-set xs d b j n (inr (omega arith))

pub length-escribir_bytes :
    (arena : List ℕ) (d : ℕ) (bs : List ℕ) → length (escribir_bytes arena d bs) ≡ length arena
unfolding escribir_bytes
length-escribir_bytes arena d [] = refl
length-escribir_bytes arena d (b ∷ bs) =
    length-escribir_bytes (set arena d b) (suc d) bs ∙ length-set arena d b

leer_bytes-escribir_lejos :
    (arena : List ℕ) (d : ℕ) (bs : List ℕ) (j n : ℕ)
    → (d + length bs ≤ j) ⊎ (j + n ≤ d)
    → leer_bytes (escribir_bytes arena d bs) j n ≡ leer_bytes arena j n
unfolding escribir_bytes
leer_bytes-escribir_lejos arena d [] j n h = refl
leer_bytes-escribir_lejos arena d (b ∷ bs) j n (inl h) =
    leer_bytes-escribir_lejos (set arena d b) (suc d) bs j n (inl (omega arith))
    ∙ leer_bytes-set arena d b j n (inl (omega arith))
leer_bytes-escribir_lejos arena d (b ∷ bs) j n (inr h) =
    leer_bytes-escribir_lejos (set arena d b) (suc d) bs j n (inr (omega arith))
    ∙ leer_bytes-set arena d b j n (inr h)

leer_bytes-suc :
    (arena : List ℕ) (d n : ℕ)
    → d < length arena
    → leer_bytes arena d (suc n) ≡ get_or arena d 0 ∷ leer_bytes arena (suc d) n
leer_bytes-suc [] d n h = absurd (omega arith)
leer_bytes-suc (x ∷ xs) zero n h = refl
leer_bytes-suc (x ∷ xs) (suc d) n h = leer_bytes-suc xs d n (omega arith)

get_or-escribir_bytes :
    (arena : List ℕ) (d : ℕ) (bs : List ℕ) (j : ℕ)
    → j < d
    → get_or (escribir_bytes arena d bs) j 0 ≡ get_or arena j 0
unfolding escribir_bytes
get_or-escribir_bytes arena d [] j h = refl
get_or-escribir_bytes arena d (b ∷ bs) j h =
    get_or-escribir_bytes (set arena d b) (suc d) bs j (omega arith)
    ∙ get_or-set_ne arena d j b 0 (λ e. omega arith)

leer_bytes-escribir_bytes :
    (arena : List ℕ) (d : ℕ) (bs : List ℕ)
    → d + length bs ≤ length arena
    → leer_bytes (escribir_bytes arena d bs) d (length bs) ≡ bs
unfolding escribir_bytes
leer_bytes-escribir_bytes arena d [] h = refl
leer_bytes-escribir_bytes arena d (b ∷ bs) h =
    let nueva = set arena d b in
    leer_bytes-suc (escribir_bytes nueva (suc d) bs) d (length bs)
      (omega (arith, h, length-escribir_bytes nueva (suc d) bs, length-set arena d b))
    ∙ (λ i.
        (get_or-escribir_bytes nueva (suc d) bs d (omega arith)
            ∙ get_or-set_self arena d b 0 (omega arith))
          i
        ∷ leer_bytes-escribir_bytes nueva (suc d) bs (omega (arith, h, length-set arena d b)) i)

-- Both ranges are pages, at most, of frames that differ.
marcos_disjuntos :
    (a b t d n j k : ℕ)
    → a ≢ b
    → d + n ≤ t
    → j + k ≤ t
    → ((a * t + d) + n ≤ b * t + j) ⊎ ((b * t + j) + k ≤ a * t + d)
marcos_disjuntos a b t d n j k ne h l = elim (dec_lt a b) [
  | yes p ↦ let z : suc a * t ≤ b * t = mul-le-mul_right t p in inl (omega arith)
  | no p ↦
      let z : suc b * t ≤ a * t = mul-le-mul_right t (let q : suc b ≤ a = omega arith in q) in
      inr (omega arith)
]

-- The place of the access is in the arena, and the content has the bytes.
abbrev pub Cabe : MemoriaInterna → List ℕ → ℕ → ℕ → ℕ → ℕ → Type 0
Cabe mem contenido p despl n procesados =
    ((entrada_en mem p).marco * mem.tamanio_pagina + despl + n ≤ length mem.memory_arena)
    × (procesados + n ≤ length contenido)

largo_trozo :
    (contenido : List ℕ) (n procesados : ℕ)
    → procesados + n ≤ length contenido
    → length (take n (drop procesados contenido)) ≡ n
largo_trozo contenido n procesados h =
    omega (arith, length-take n (drop procesados contenido), length-drop procesados contenido)

-- A round that reads `n` bytes of a page after a round that wrote `n` bytes at the same place gets the
-- bytes of the content from `procesados` on, if the place is in the arena and the content has them.
pub copiar-copiar :
    (mem : MemoriaInterna) (contenido : List ℕ) (p despl n procesados leidos : ℕ)
    → Cabe mem contenido p despl n procesados
    → (copiar (copiar mem (escritura contenido) p despl n procesados).1 lectura p despl n leidos).0
      ≡ take n (drop procesados contenido)
unfolding copiar
copiar-copiar mem contenido p despl n procesados leidos (dentro, hay) =
    let trozo = take n (drop procesados contenido) in
    let base = (entrada_en mem p).marco * mem.tamanio_pagina + despl in
    let largo = largo_trozo contenido n procesados hay in
    ap (λ k. leer_bytes (escribir_bytes mem.memory_arena base trozo) base k) (sym largo)
    ∙ leer_bytes-escribir_bytes mem.memory_arena base trozo (omega (arith, largo, dentro))

-- A write into one page does not change what a read of another page gets, if they are in different frames
-- and both stay within a page.
pub copiar-copiar_ajena :
    (mem : MemoriaInterna) (contenido : List ℕ) (p q despl n procesados despl' n' leidos : ℕ)
    → (entrada_en mem p).marco ≢ (entrada_en mem q).marco
    → despl + n ≤ mem.tamanio_pagina
    → despl' + n' ≤ mem.tamanio_pagina
    → (copiar
        (copiar mem (escritura contenido) p despl n procesados).1
        lectura
        q
        despl'
        n'
        leidos).0
      ≡ (copiar mem lectura q despl' n' leidos).0
unfolding copiar
copiar-copiar_ajena mem contenido p q despl n procesados despl' n' leidos ne h l =
    let trozo = take n (drop procesados contenido) in
    let corto : length trozo ≤ n = omega (arith, length-take n (drop procesados contenido)) in
    let t = mem.tamanio_pagina in
    leer_bytes-escribir_lejos mem.memory_arena ((entrada_en mem p).marco * t + despl) trozo
      ((entrada_en mem q).marco * t + despl') n'
      (elim (marcos_disjuntos (entrada_en mem p).marco (entrada_en mem q).marco t despl n despl' n'
        ne h l) [ inl k ↦ inl (omega (arith, k, corto)) | inr k ↦ inr k ])
