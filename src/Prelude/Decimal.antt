-- ===== src/Prelude/Decimal.antt =====
-- Numbers as decimal texts: the "%d" of `printf`, `string_itoa` of so-commons, and `atoi` of a text of digits.
use tp_2025_2c_kernel_panic.Prelude.{
  ℕ, zero, suc, ◌+◌, ◌-◌, ◌*◌, ◌/◌, ◌%◌, ◌≤◌, ◌<◌, ◌≡◌, refl, inl, inr, [], ◌∷◌, ◌++◌, true, ◌&&◌,
  Cadena, if◌then◌else◌, Bool-cases, ltb, leb, All, All-append, arith,
}

-- "%d" and `string_itoa` of a number that is not negative: its decimal digits, with as much fuel as the
-- number.
unfoldable pub digitos : ℕ → ℕ → Cadena
digitos zero n = (b'0' + n % 10) ∷ []
digitos (suc fuel) n =
    let resto = digitos fuel (n / 10) in
    if ltb n 10 then (b'0' + n) ∷ [] else resto ++ (b'0' + n % 10) ∷ []

unfoldable pub string_itoa : ℕ → Cadena
unfolding digitos
string_itoa n = digitos n n

-- `atoi` of a text of digits, up to the first character that is none.
unfoldable pub atoi_desde : ℕ → Cadena → ℕ
atoi_desde n [] = n
atoi_desde n (c ∷ cs) =
    let resto = atoi_desde (n * 10 + (c - b'0')) cs in if leb b'0' c && leb c b'9' then resto else n

unfoldable pub atoi_digitos : Cadena → ℕ
unfolding atoi_desde
atoi_digitos = atoi_desde 0

-- The characters from '0' to '9'.
abbrev pub Digito : ℕ → Type 0
Digito c = (b'0' ≤ c) × (c ≤ b'9')

Digito-prueba : (c : ℕ) → Digito c → (leb b'0' c && leb c b'9') ≡ true
Digito-prueba c h = ground (arith, h.0, h.1)

atoi_desde-append :
    (cs : Cadena) (a d : ℕ)
    → All Digito cs
    → Digito d
    → atoi_desde a (cs ++ d ∷ []) ≡ atoi_desde a cs * 10 + (d - b'0')
unfolding atoi_desde
atoi_desde-append [] a d h e = rw (Digito-prueba d e) refl
atoi_desde-append (c ∷ cs) a d h e =
    rw (Digito-prueba c h.0) (atoi_desde-append cs (a * 10 + (c - b'0')) d h.1 e)

pub digitos-Digito : (fuel n : ℕ) → n ≤ fuel → All Digito (digitos fuel n)
unfolding digitos
digitos-Digito zero n h = ((omega arith, omega arith), tt)
digitos-Digito (suc fuel) n h = elim (Bool-cases (ltb n 10)) [
  | inl b ↦ let x : n < 10 = ground arith in rw b ((omega arith, omega (arith, x)), tt)
  | inr b ↦ rw b (
      All-append Digito (digitos fuel (n / 10)) _ (digitos-Digito fuel (n / 10) (omega (arith, h)))
        ((omega arith, omega arith), tt))
]

atoi_desde-digitos : (fuel n : ℕ) → n ≤ fuel → atoi_desde 0 (digitos fuel n) ≡ n
unfolding digitos atoi_desde
atoi_desde-digitos zero n h =
    rw (Digito-prueba (b'0' + n % 10) (omega arith, omega arith)) (omega (arith, h))
atoi_desde-digitos (suc fuel) n h = elim (Bool-cases (ltb n 10)) [
  | inl b ↦
      let x : n < 10 = ground arith in
      rw (b, Digito-prueba (b'0' + n) (omega arith, omega (arith, x))) (omega arith)
  | inr b ↦
      let menor : n / 10 ≤ fuel = omega (arith, h) in
      rw
        (
          b,
          atoi_desde-append (digitos fuel (n / 10)) 0 (b'0' + n % 10)
              (digitos-Digito fuel (n / 10) menor) (omega arith, omega arith),
          atoi_desde-digitos fuel (n / 10) menor,
        )
        (omega arith)
]

pub digitos-cons : (fuel n : ℕ) → (c : ℕ) × (cs : Cadena) × (digitos fuel n ≡ c ∷ cs)
unfolding digitos
digitos-cons zero n = (b'0' + n % 10, [], refl)
digitos-cons (suc fuel) n = elim (Bool-cases (ltb n 10)) [
  | inl b ↦ rw b (b'0' + n, [], refl)
  | inr b ↦
      let (c, cs, e) = digitos-cons fuel (n / 10) in rw (b, e) (c, cs ++ (b'0' + n % 10) ∷ [], refl)
]

-- `atoi` of a printed number is the number.
pub atoi_digitos-string_itoa : (n : ℕ) → atoi_digitos (string_itoa n) ≡ n
unfolding atoi_digitos string_itoa
atoi_digitos-string_itoa n = atoi_desde-digitos n n (omega arith)
