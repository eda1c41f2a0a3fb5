-- ===== src/Storage/Inicio.antt =====
-- storage/src/storage.c: formatting the file system.
use tp_2025_2c_kernel_panic.Prelude.{
  ℕ, ◌+◌, ◌*◌, ◌/◌, ◌%◌, [], ◌∷◌, none, some, false, codes, replicate, if◌then◌else◌, ◌==◌, ltb,
}
use tp_2025_2c_kernel_panic.Storage.Disco.{
  commited, Storage, ruta, cantidad_bloques, ocupar, persistir_bitmap, poner_fisico, cambiar,
}

-- The bits of `recrear_bmap`: as many bytes as the blocks take, all 0 but block 0.
unfoldable pub recrear_bmap : Storage → ℕ → Storage
unfolding ocupar persistir_bitmap
recrear_bmap s cantidad =
    let bytes_necesarios = cantidad / 8 + (if cantidad % 8 == 0 then 0 else 1) in
    persistir_bitmap (ocupar (record s { bitmap = replicate (bytes_necesarios * 8) false }) 0)

-- `crear_initial_file`: block 0, full of the character '0', and the File:Tag that is linked to it.
unfoldable pub crear_initial_file : Storage → Storage
unfolding poner_fisico cambiar ruta
crear_initial_file s = record t {
  tags =
      (
        ruta (codes "initial_file") (codes "BASE"),
        record {
          metadata = some (record { tamanio = 0; estado = commited; blocks = 0 ∷ [] });
          logicos = some 0 ∷ [];
        },
      )
      ∷ t.tags;
}
  where
    t : Storage
    t = poner_fisico s 0 (some (replicate s.tamanio_bloque b'0'))

-- `formatear_fs`: what there was goes, and all the physical blocks are there, full of 0.
unfoldable pub formatear_fs : Storage → Storage
unfolding recrear_bmap crear_initial_file cantidad_bloques
formatear_fs s =
    let n = cantidad_bloques s in
    let vacio = recrear_bmap (record s { tags = []; hash_index = [] }) n in
    crear_initial_file (record vacio {
      fisicos = λ i. if ltb i n then some (replicate s.tamanio_bloque 0) else none;
    })
