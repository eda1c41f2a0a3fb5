-- ===== src/Prelude/Cadenas.antt =====
-- C strings as the list of their bytes, without the final NUL.
use Prim.Native.Nat.{ℕ}
use Prim.Native.Char.{code}
use Prim.Native.String.{String}
use mathlib.Core.Path.{◌≡◌, refl}
use mathlib.Core.Logic.{◌↔◌}
use mathlib.Core.Bool.{Bool, true, false, ◌&&◌}
use mathlib.Core.List.{List, [], ◌∷◌}
use native.Mathlib.Omega.{arith}
use tp_2025_2c_kernel_panic.Prelude.Tests.{◌==◌, if◌then◌else◌}

abbrev pub Cadena : Type 0
Cadena = List ℕ

-- The bytes of an ASCII text.
abbrev pub codes : String → Cadena
codes String.[] = []
codes (String.◌∷◌ c s) = code c ∷ codes s

-- What a C string is of the bytes of a datum: those before the first NUL. Its length is `strlen`.
unfoldable pub hasta_nulo : List ℕ → Cadena
hasta_nulo [] = []
hasta_nulo (c ∷ cs) = if c == 0 then [] else c ∷ hasta_nulo cs

-- `strcmp(a, b) == 0`
unfoldable pub str_eq : Cadena → Cadena → Bool
str_eq [] [] = true
str_eq [] (b ∷ bs) = false
str_eq (a ∷ as') [] = false
str_eq (a ∷ as') (b ∷ bs) = a == b && str_eq as' bs

pub str_eq_refl : (a : Cadena) → str_eq a a ≡ true
unfolding str_eq
str_eq_refl [] = refl
str_eq_refl (a ∷ as') = ground (arith, str_eq_refl as')

eq_of_str_eq : (a b : Cadena) → str_eq a b ≡ true → a ≡ b
unfolding str_eq
eq_of_str_eq [] [] h = refl
eq_of_str_eq [] (b ∷ bs) h = cc
eq_of_str_eq (a ∷ as') [] h = cc
eq_of_str_eq (a ∷ as') (b ∷ bs) h = ground (arith, eq_of_str_eq as' bs)

pub str_eq_iff : (a b : Cadena) → (str_eq a b ≡ true) ↔ (a ≡ b)
str_eq_iff a b = (eq_of_str_eq a b, λ e. rw e (str_eq_refl b))
