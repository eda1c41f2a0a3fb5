-- ===== src/Worker/Memoria/Clock/Victima.antt =====
-- worker/src/memoria.c, `aplicar_clock_m`: which frame the four rounds choose.
use tp_2025_2c_kernel_panic.Prelude.{
  ℕ, zero, suc, ◌+◌, ◌<◌, ◌≤◌, ◌≡◌, ◌≢◌, ◌⊎◌, inl, inr, refl, List, Option, none, some, Bool, true,
  false, not, ◌&&◌, get_or, set, ltb, if◌then◌else◌, Bool-cases, arith, dec_lt, ℕ_discrete,
  get_or-set_ne, sym,
}
use tp_2025_2c_kernel_panic.Worker.Memoria.Estado.{ClockM}
use tp_2025_2c_kernel_panic.Worker.Memoria.Clock.{
  buscar_circular, segunda_vuelta, elegir_victima, ultimas_vueltas, tras_segunda, ni_uno_ni_otro,
}
use tp_2025_2c_kernel_panic.Worker.Memoria.Clock.Recorrido.{
  idx, buscar_circular-Halla, idx_injective, get_or-set_default,
}

-- Neither bit, only the modified bit, only the reference bit, both.
abbrev pub clase : Bool → Bool → ℕ
clase false false = 0
clase false true = 1
clase true false = 2
clase true true = 3

module _ (r₀ m : List Bool) (inicio cantidad : ℕ) (dentro : inicio < cantidad) where
  abbrev f : ℕ → ℕ
  f = idx inicio cantidad

  -- The bits after the frames before `i` were cleared.
  abbrev Limpia : List Bool → ℕ → Type 0
  Limpia r i =
      (j : ℕ)
      → j < cantidad
      → get_or r (f j) false ≡ (if ltb j i then false else get_or r₀ (f j) false)

  abbrev solo_modificado : ℕ → Bool
  solo_modificado x = not (get_or r₀ x false) && get_or m x false

  -- What the second round finds, and the bits that it leaves: those of the frames that it passed
  -- are cleared.
  abbrev Segunda : ℕ → ℕ → Option ℕ × List Bool → Type 0
  Segunda i n (v, r) =
      ((v ≡ none)
        × ((j : ℕ) → i ≤ j → j < i + n → solo_modificado (f j) ≡ false)
        × Limpia r (i + n))
      ⊎ ((k : ℕ) × (i ≤ k)
          × (k < i + n)
          × (v ≡ some (f k))
          × (solo_modificado (f k) ≡ true)
          × ((j : ℕ) → i ≤ j → j < k → solo_modificado (f j) ≡ false)
          × Limpia r k)

  Limpia-suc :
      (r : List Bool) (i : ℕ) → i < cantidad → Limpia r i → Limpia (set r (f i) false) (suc i)
  Limpia-suc r i hi l j hj = elim (ℕ_discrete j i) [
    | yes e ↦ rw (e, get_or-set_default) (ground arith)
    | no ne ↦
        rw
          (get_or-set_ne r (f i) (f j) false false
            (idx_injective inicio cantidad i j dentro hi hj (λ e. ne (sym e))))
          (ground (arith, l j hj))
  ]

  Segunda-sigue :
      (i n : ℕ) (res : Option ℕ × List Bool)
      → solo_modificado (f i) ≡ false
      → Segunda (suc i) n res
      → Segunda i (suc n) res
  Segunda-sigue i n (v, r) no_pasa (inl (e, h, l)) = inl (
    e,
    λ j a b. elim (dec_lt i j) [
      | yes p ↦ h j p (omega arith)
      | no p ↦ let q : j ≡ i = omega arith in rw q no_pasa
    ],
    let q : suc i + n ≡ i + suc n = omega arith in rw (← q) l,
  )
  Segunda-sigue i n (v, r) no_pasa (inr (k, a, b, e, pasa, h, l)) = inr (
    k,
    omega arith,
    omega arith,
    e,
    pasa,
    λ j c d. elim (dec_lt i j) [
      | yes p ↦ h j p d
      | no p ↦ let q : j ≡ i = omega arith in rw q no_pasa
    ],
    l,
  )

  actual :
      (r : List Bool) (i : ℕ)
      → i < cantidad
      → Limpia r i
      → (not (get_or r (f i) false) && get_or m (f i) false) ≡ solo_modificado (f i)
  actual r i hi l = ground (arith, l i hi)

  segunda_vuelta-Segunda :
      (n i : ℕ) (r : List Bool)
      → i + n ≤ cantidad
      → Limpia r i
      → Segunda i n (segunda_vuelta n i inicio cantidad r m)
  unfolding segunda_vuelta
  segunda_vuelta-Segunda zero i r hn l =
      inl (refl, λ j a b. absurd (omega arith), let q : i ≡ i + 0 = omega arith in rw (← q) l)
  segunda_vuelta-Segunda (suc n) i r hn l = elim (Bool-cases (solo_modificado (f i))) [
    | inl pasa ↦
        rw (actual r i (omega arith) l, pasa)
          (inr (i, omega arith, omega arith, refl, pasa, λ j a b. absurd (omega arith), l))
    | inr no_pasa ↦
        rw (actual r i (omega arith) l, no_pasa)
          (Segunda-sigue i n _ no_pasa (
            segunda_vuelta-Segunda n (suc i) (set r (f i) false) (omega arith)
              (Limpia-suc r i (omega arith) l)))
  ]

abbrev pub clase_en : ClockM → ℕ → ℕ
clase_en c j =
    let x = idx c.puntero c.cantidad_marcos j in
    clase (get_or c.bits_referencia x false) (get_or c.bits_modificados x false)

-- The frame at step `k` of the round is of the lowest class that occurs, and the first of it.
abbrev pub PrimeroDeMenorClase : ClockM → ℕ → Type 0
PrimeroDeMenorClase c k =
    ((j : ℕ) → j < k → clase_en c k < clase_en c j)
    × ((j : ℕ) → j < c.cantidad_marcos → clase_en c k ≤ clase_en c j)

module _ (a b : Bool) where
  clase-zero : (not a && not b) ≡ true → clase a b ≡ 0
  clase-zero h = ground arith

  clase-pos : (not a && not b) ≡ false → 0 < clase a b
  clase-pos h = ground arith

  clase-one : (not a && b) ≡ true → clase a b ≡ 1
  clase-one h = ground arith

  clase-ge_two : (not a && not b) ≡ false → (not a && b) ≡ false → 2 ≤ clase a b
  clase-ge_two h k = ground arith

  clase-two : 2 ≤ clase a b → (not false && not b) ≡ true → clase a b ≡ 2
  clase-two h k = ground arith

  clase-three : 2 ≤ clase a b → (not false && not b) ≡ false → clase a b ≡ 3
  clase-three h k = ground arith

abbrev pub Elige : ClockM → Option ℕ → Type 0
Elige c v =
    (k : ℕ) × (k < c.cantidad_marcos)
    × (v ≡ some (idx c.puntero c.cantidad_marcos k))
    × PrimeroDeMenorClase c k

-- The facts about the rounds 3 and 4, where all the reference bits are cleared.
module _ (c : ClockM) (r : List Bool) (dentro : c.puntero < c.cantidad_marcos)
    (limpio : (j : ℕ)
      → j < c.cantidad_marcos
      → get_or r (idx c.puntero c.cantidad_marcos j) false ≡ false)
    (altas : (j : ℕ) → j < c.cantidad_marcos → 2 ≤ clase_en c j) where
  abbrev n : ℕ
  n = c.cantidad_marcos

  abbrev marco_de : ℕ → ℕ
  marco_de = idx c.puntero n

  tercera_pasa :
      (j : ℕ) → j < n → ni_uno_ni_otro r c.bits_modificados (marco_de j) ≡ true → clase_en c j ≡ 2
  tercera_pasa j h p = clase-two _ _ (altas j h) (rw (limpio j h) at p)

  tercera_falla :
      (j : ℕ) → j < n → ni_uno_ni_otro r c.bits_modificados (marco_de j) ≡ false → clase_en c j ≡ 3
  tercera_falla j h p = clase-three _ _ (altas j h) (rw (limpio j h) at p)

  cuarta_pasa : (j : ℕ) → j < n → not (get_or r (marco_de j) false) ≢ false
  cuarta_pasa j h p = ground (arith, limpio j h)

  cuarta_Elige :
      ((j : ℕ) → j < n → clase_en c j ≡ 3)
      → Elige c (buscar_circular n 0 c.puntero n (λ x. not (get_or r x false)))
  cuarta_Elige tres = elim (buscar_circular-Halla (λ x. not (get_or r x false)) c.puntero n n 0) [
    | inl (e, h) ↦ absurd (cuarta_pasa 0 (omega arith) (h 0 (omega arith) (omega arith)))
    | inr (k, _, hk, e, pasa, h) ↦ (
      k,
      omega arith,
      e,
      (
        λ j hj. absurd (cuarta_pasa j (omega arith) (h j (omega arith) hj)),
        λ j hj. omega (arith, tres k (omega arith), tres j hj),
      ),
    )
  ]

  ultimas_vueltas-Elige : Elige c (ultimas_vueltas c r)
  unfolding ultimas_vueltas
  ultimas_vueltas-Elige =
      elim (buscar_circular-Halla (ni_uno_ni_otro r c.bits_modificados) c.puntero n n 0) [
        | inl (e, h) ↦
            rw (e, ultimas_vueltas)
              (cuarta_Elige (λ j hj. tercera_falla j hj (h j (omega arith) (omega arith))))
        | inr (k, _, hk, e, pasa, h) ↦ (
          k,
          omega arith,
          rw (e, ultimas_vueltas),
          (
            λ j hj. omega (
              arith,
              tercera_pasa k (omega arith) pasa,
              tercera_falla j (omega arith) (h j (omega arith) hj),
            ),
            λ j hj. omega (arith, tercera_pasa k (omega arith) pasa, altas j hj),
          ),
        )
      ]

-- The rounds from the second on, when no frame is of class 0.
tras_segunda-Elige :
    (c : ClockM) (dentro : c.puntero < c.cantidad_marcos)
    → ((j : ℕ)
        → j < c.cantidad_marcos
        → ni_uno_ni_otro c.bits_referencia c.bits_modificados (idx c.puntero c.cantidad_marcos j)
          ≡ false)
    → Elige c (tras_segunda c).0
unfolding tras_segunda
tras_segunda-Elige c dentro sin_cero =
    elim (segunda_vuelta-Segunda c.bits_referencia c.bits_modificados c.puntero n dentro n 0
      c.bits_referencia (omega arith) (λ j hj. ground arith)) [
        | inl (e, h, l) ↦
            rw (e, tras_segunda)
              (ultimas_vueltas-Elige c
                (segunda_vuelta n 0 c.puntero n c.bits_referencia c.bits_modificados).1 dentro
                (λ j hj. rw (l j hj) (ground arith))
                (λ j hj. clase-ge_two _ _ (sin_cero j hj) (h j (omega arith) (omega arith))))
        | inr (k, _, hk, e, pasa, h, l) ↦ (
          k,
          omega arith,
          rw (e, tras_segunda),
          (
            λ j hj. omega (
              arith,
              clase-one (r (f k)) (m (f k)) pasa,
              clase-ge_two (r (f j)) (m (f j)) (sin_cero j (omega arith)) (h j (omega arith) hj),
            ),
            λ j hj. omega (
              arith,
              clase-one (r (f k)) (m (f k)) pasa,
              clase-pos (r (f j)) (m (f j)) (sin_cero j hj),
            ),
          ),
        )
      ]
  where
    n : ℕ
    n = c.cantidad_marcos

    f : ℕ → ℕ
    f = idx c.puntero c.cantidad_marcos

    r : ℕ → Bool
    r x = get_or c.bits_referencia x false

    m : ℕ → Bool
    m x = get_or c.bits_modificados x false

-- On a clock whose pointer is a frame, `aplicar_clock_m` always finds a victim: `victima` is not -1
-- when `marcos[victima]` is read. It is the first frame, in the round from the pointer on, of the
-- lowest class that occurs, where the classes are, from the lowest: neither referenced nor modified,
-- modified only, referenced only, both.
pub elegir_victima-Elige :
    (c : ClockM) → c.puntero < c.cantidad_marcos → Elige c (elegir_victima c).0
unfolding elegir_victima
elegir_victima-Elige c dentro =
    elim (buscar_circular-Halla (ni_uno_ni_otro c.bits_referencia c.bits_modificados) c.puntero
      c.cantidad_marcos c.cantidad_marcos 0) [
        | inl (e, h) ↦
            rw (e, elegir_victima)
              (tras_segunda-Elige c dentro (λ j hj. h j (omega arith) (omega arith)))
        | inr (k, _, hk, e, pasa, h) ↦ (
          k,
          omega arith,
          rw (e, elegir_victima),
          (
            λ j hj. omega (arith, clase-zero _ _ pasa, clase-pos _ _ (h j (omega arith) hj)),
            λ j hj. omega (arith, clase-zero _ _ pasa),
          ),
        )
      ]
