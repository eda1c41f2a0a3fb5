-- ===== src/Storage/Vista.antt =====
-- storage/src/operaciones.c: the file system as its clients see it, the content of each logical block of
-- each File:Tag, whatever physical block holds it; and what the operations are for such contents.
pub mod Escritura
pub mod Metadatos
pub mod Resultado
pub mod Lectura
pub mod Archivos
pub mod Reenlace
pub mod Truncado
pub mod Borrado
pub mod Dedup
pub mod Commit
use mathlib.Core.Option
use tp_2025_2c_kernel_panic.Prelude.{
  ℕ, ◌≡◌, List, Option, none, some, Bool, ◌&&◌, Cadena, str_eq, if◌then◌else◌, ◌==◌, ltb, leb,
}
use tp_2025_2c_kernel_panic.Storage.Disco.{Storage, enlace}

-- By path and number of logical block.
abbrev pub Contenidos : Type 0
Contenidos = Cadena → ℕ → Option (List ℕ)

-- The abstraction of a state.
unfoldable pub vista : Storage → Contenidos
vista s r i = elim (enlace s r i) [ none ↦ none | some n ↦ s.fisicos n ]

-- A state whose contents are these.
abbrev pub Muestra : Storage → Contenidos → Type 0
Muestra s v = (r : Cadena) (i : ℕ) → vista s r i ≡ v r i

-- One block is replaced.
abbrev pub con_bloque : Contenidos → Cadena → ℕ → Option (List ℕ) → Contenidos
con_bloque v r i c k j = if str_eq r k && j == i then c else v k j

-- The blocks of a path are replaced.
abbrev pub con_archivo : Contenidos → Cadena → (ℕ → Option (List ℕ)) → Contenidos
con_archivo v r f k j = if str_eq r k then f j else v k j

-- The blocks of a file whose number of blocks changes: those it loses are gone, those it gains have the
-- content of block 0.
abbrev pub redimensionado : Option (List ℕ) → ℕ → ℕ → (ℕ → Option (List ℕ)) → ℕ → Option (List ℕ)
redimensionado inicial viejos nuevos f j =
    if leb viejos j && ltb j nuevos
    then inicial
    else (if leb nuevos j && ltb j viejos then none else f j)
