-- ===== src/Storage/Disco.antt =====
-- storage/src/storage.h: `t_storage`, and the part of the file system that the operations reach.
-- A physical block is named by its number, and so is its inode: a physical name goes only when no
-- logical block is linked to it, so that each link leads to the block of its number. The numbers
-- are written into the paths with `%04d` and `%06d`. `BLOCKS` is the list of its numbers here:
-- the texts that the code writes for it, and what it reads back, are in Storage/Bloques.antt.
use tp_2025_2c_kernel_panic.Prelude.{
  ℕ, zero, suc, ◌+◌, ◌-◌, ◌/◌, List, [], ◌∷◌, ◌++◌, Option, none, some, Bool, true, false, ◌&&◌,
  Cadena, codes, get_or, set, if◌then◌else◌, ◌==◌, ltb, leb, ℤ, pos, negsuc,
}
use tp_2025_2c_kernel_panic.Prelude.Diccionario.{dictionary_get, dictionary_put}

-- The two values that are written for `ESTADO`.
pub data EstadoTag : Type 0 where
  work_in_progress commited : EstadoTag

-- The three keys of a metadata.config.
pub record Metadata : Type 0 where
  pub tamanio : ℕ
  pub estado : EstadoTag
  pub blocks : List ℕ

-- The directory of a File:Tag: its metadata.config, and the entries of logical_blocks, each with
-- the physical block that it is a hard link to.
pub record Directorio : Type 0 where
  pub metadata : Option Metadata
  pub logicos : List (Option ℕ)

-- `bitmap_en_disco` is bitmap.bin; `fisicos` is physical_blocks, the contents by number; `tags` are
-- the directories below files, by path; `hash_index` is blocks_hash_index.config.
pub record Storage : Type 0 where
  pub tamanio_bloque : ℕ
  pub tamanio_filesystem : ℕ
  pub bitmap : List Bool
  pub bitmap_en_disco : List Bool
  pub fisicos : ℕ → Option (List ℕ)
  pub tags : List (Cadena × Directorio)
  pub hash_index : List (Cadena × ℕ)
  pub cantidad_workers : ℤ

-- "files/%s/%s", below "files/".
unfoldable pub ruta : Cadena → Cadena → Cadena
ruta file t = file ++ (b'/' ∷ t)

-- `string_equals_ignore_case`
unfoldable pub minuscula : ℕ → ℕ
minuscula c = if leb b'A' c && leb c b'Z' then c + 32 else c

unfoldable pub igual_sin_caja : Cadena → Cadena → Bool
igual_sin_caja [] [] = true
igual_sin_caja [] (b ∷ bs) = false
igual_sin_caja (a ∷ as') [] = false
igual_sin_caja (a ∷ as') (b ∷ bs) = minuscula a == minuscula b && igual_sin_caja as' bs

-- The test for `initial_file:BASE`.
unfoldable pub es_protegido : Cadena → Cadena → Bool
unfolding igual_sin_caja minuscula
es_protegido file t = igual_sin_caja file (codes "initial_file") && igual_sin_caja t (codes "BASE")

unfoldable pub cantidad_bloques : Storage → ℕ
cantidad_bloques s = s.tamanio_filesystem / s.tamanio_bloque

-- The blocks that a size takes: the division rounded up.
unfoldable pub bloques_de : Storage → ℕ → ℕ
bloques_de s tamanio = (tamanio + s.tamanio_bloque - 1) / s.tamanio_bloque

-- The index of a logical block, when it is at least 0 and below the number of blocks.
unfoldable pub dentro_de : ℤ → ℕ → Option ℕ
dentro_de (pos n) total = if ltb n total then some n else none
dentro_de (negsuc n) total = none

-- A map with one value replaced.
unfoldable pub cambiar {ℓ} : {A : Type ℓ} → (ℕ → A) → ℕ → A → ℕ → A
cambiar f n v m = if m == n then v else f m

-- A list of entries with one replaced; the places up to it are filled with NULL.
unfoldable pub poner_en : List (Option ℕ) → ℕ → Option ℕ → List (Option ℕ)
poner_en [] zero v = v ∷ []
poner_en [] (suc i) v = none ∷ poner_en [] i v
poner_en (x ∷ xs) zero v = v ∷ xs
poner_en (x ∷ xs) (suc i) v = x ∷ poner_en xs i v

-- `bitarray_test_bit`, `bitarray_set_bit` and `bitarray_clean_bit`
unfoldable pub test_bit : Storage → ℕ → Bool
test_bit s n = get_or s.bitmap n false

unfoldable pub ocupar : Storage → ℕ → Storage
ocupar s n = record s { bitmap = set s.bitmap n true }

unfoldable pub desocupar : Storage → ℕ → Storage
desocupar s n = record s { bitmap = set s.bitmap n false }

-- Writing a physical block: `fopen` with "wb" and `fwrite`, or `unlink` for `none`.
unfoldable pub poner_fisico : Storage → ℕ → Option (List ℕ) → Storage
poner_fisico s n c = record s { fisicos = cambiar s.fisicos n c }

-- `config_create` of a metadata.config, with the directory that it stands in; `none` is NULL.
unfoldable pub config_de : Storage → Cadena → Option (Directorio × Metadata)
config_de s r = elim (dictionary_get s.tags r) [
  | none ↦ none
  | some d ↦ elim d.metadata [ none ↦ none | some m ↦ some (d, m) ]
]

-- The physical block that a logical block is linked to; `none` is a missing file.
unfoldable pub enlace : Storage → Cadena → ℕ → Option ℕ
enlace s r i = elim (dictionary_get s.tags r) [ none ↦ none | some d ↦ get_or d.logicos i none ]

-- `config_set_value` and `config_save` of a metadata.config.
unfoldable pub guardar : Storage → Cadena → Metadata → Storage
guardar s r m = elim (dictionary_get s.tags r) [
  | none ↦ s
  | some d ↦ record s { tags = dictionary_put s.tags r (record d { metadata = some m }) }
]

-- The entry of a logical block, replaced.
unfoldable pub poner_enlace : Storage → Cadena → ℕ → Option ℕ → Storage
unfolding poner_en
poner_enlace s r i v = elim (dictionary_get s.tags r) [
  | none ↦ s
  | some d ↦ record s {
    tags = dictionary_put s.tags r (record d { logicos = poner_en d.logicos i v });
  }
]

-- `link` of a physical block to a logical one: `none` when there is no such physical block, or
-- when the logical one exists.
unfoldable pub enlazar : Storage → Cadena → ℕ → ℕ → Option Storage
enlazar s r i n = elim (s.fisicos n) [
  | none ↦ none
  | some c ↦ elim (enlace s r i) [ some m ↦ none | none ↦ some (poner_enlace s r i (some n)) ]
]

-- `unlink` of a logical block: `none` when it does not exist.
unfoldable pub desenlazar : Storage → Cadena → ℕ → Option Storage
desenlazar s r i = elim (enlace s r i) [ none ↦ none | some n ↦ some (poner_enlace s r i none) ]

-- The logical blocks that are linked to a physical one.
unfoldable pub veces : ℕ → List (Option ℕ) → ℕ
veces n [] = 0
veces n (none ∷ xs) = veces n xs
veces n (some m ∷ xs) = (if m == n then 1 else 0) + veces n xs

unfoldable pub enlaces : ℕ → List (Cadena × Directorio) → ℕ
unfolding veces
enlaces n [] = 0
enlaces n ((r, d) ∷ ts) = veces n d.logicos + enlaces n ts

-- `st_nlink`: the name in physical_blocks and the logical blocks.
unfoldable pub nlink : Storage → ℕ → ℕ
unfolding enlaces
nlink s n = (elim (s.fisicos n) [ none ↦ 0 | some c ↦ 1 ]) + enlaces n s.tags

-- `marcar_bloque_libre`
unfoldable pub marcar_bloque_libre : Storage → ℕ → Storage
unfolding test_bit desocupar cantidad_bloques
marcar_bloque_libre s numero_bloque =
    if leb (cantidad_bloques s) numero_bloque
    then s
    else (if test_bit s numero_bloque then desocupar s numero_bloque else s)

-- `persistir_bitmap`
unfoldable pub persistir_bitmap : Storage → Storage
persistir_bitmap s = record s { bitmap_en_disco = s.bitmap }

-- `verificar_si_commited`
unfoldable pub es_commited : EstadoTag → Bool
es_commited work_in_progress = false
es_commited commited = true

unfoldable pub verificar_si_commited : Storage → Cadena → Bool
unfolding config_de es_commited
verificar_si_commited s r = elim (config_de s r) [
  | none ↦ false
  | some (d, m) ↦ es_commited m.estado
]

-- The search for a free block, over the `n` blocks from `i` on; `none` is -1.
unfoldable pub bloque_libre_desde : ℕ → ℕ → Storage → Option ℕ
unfolding test_bit
bloque_libre_desde zero i s = none
bloque_libre_desde (suc n) i s =
    let resto = bloque_libre_desde n (suc i) s in if test_bit s i then resto else some i

-- It starts at block 1.
unfoldable pub bloque_libre : Storage → Option ℕ
unfolding bloque_libre_desde cantidad_bloques
bloque_libre s = bloque_libre_desde (cantidad_bloques s - 1) 1 s
