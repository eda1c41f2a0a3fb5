-- ===== src/Utils/Paquete/Enteros.antt =====
-- The four bytes of an `int`, as `memcpy` moves them on a little-endian machine.
use tp_2025_2c_kernel_panic.Prelude.{
  ℕ, ◌+◌, ◌*◌, ◌/◌, ◌%◌, ◌^◌, ◌<◌, ◌≡◌, refl, List, [], ◌∷◌, Bool, get_or, length, leb, arith,
}

unfoldable pub bytes_de_int : ℕ → List ℕ
bytes_de_int n = n % 256 ∷ (n / 256) % 256 ∷ (n / 65536) % 256 ∷ (n / 16777216) % 256 ∷ []

-- The bit pattern as a number below 2 ^ 32.
unfoldable pub int_de_bytes : List ℕ → ℕ
int_de_bytes bytes =
    get_or bytes 0 0
    + 256 * get_or bytes 1 0
    + 65536 * get_or bytes 2 0
    + 16777216 * get_or bytes 3 0

-- The sign bit.
unfoldable pub es_negativo : ℕ → Bool
es_negativo n = leb 2147483648 n

pub length-bytes_de_int : (n : ℕ) → length (bytes_de_int n) ≡ 4
unfolding bytes_de_int
length-bytes_de_int n = refl

pub int_de_bytes-bytes_de_int : (n : ℕ) → n < 2 ^ 32 → int_de_bytes (bytes_de_int n) ≡ n
unfolding bytes_de_int int_de_bytes
int_de_bytes-bytes_de_int n h = omega arith
