-- ===== src/Storage/Sano.antt =====
-- storage/src/operaciones.c: the file system in order, as far as its links, its physical blocks and its
-- bitmap go.
pub mod Enlaces
pub mod Pasos
pub mod Archivos
pub mod Mover
pub mod Escritura
pub mod Servidor
use tp_2025_2c_kernel_panic.Prelude.{
  ℕ, ◌≤◌, ◌≡◌, ◌≢◌, List, Option, some, Bool, true, Cadena, length,
}
use tp_2025_2c_kernel_panic.Storage.Disco.{Storage, cantidad_bloques, test_bit, enlace}

-- Some logical block is linked to the physical one.
abbrev pub Ligado : Storage → ℕ → Type 0
Ligado s n = (r : Cadena) × (i : ℕ) × (enlace s r i ≡ some n)

-- The block exists, and but for block 0 its bit is set.
abbrev pub Bueno : Storage → ℕ → Type 0
Bueno s n = (n ≢ 0 → test_bit s n ≡ true) × ((c : List ℕ) × (s.fisicos n ≡ some c))

-- Each physical block with a link is good, and the bitmap has a bit for each block.
pub record IsSano (s : Storage) : Type 0 where
  pub bueno : (n : ℕ) → Ligado s n → Bueno s n
  pub cabe : cantidad_bloques s ≤ length s.bitmap
