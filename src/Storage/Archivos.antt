-- ===== src/Storage/Archivos.antt =====
-- storage/src/operaciones.c: creating, truncating, tagging and deleting a File:Tag. `none` for the
-- arguments is a packet with fewer values than the operation needs; the result is the Boolean of
-- the code and the state that it leaves.
use tp_2025_2c_kernel_panic.Prelude.{
  ℕ, zero, suc, ◌+◌, ◌-◌, ◌/◌, List, [], ◌∷◌, ◌++◌, Option, none, some, Bool, true, false, ◌&&◌,
  ◌||◌, Cadena, str_eq, get_or, take, length, replicate, if◌then◌else◌, ◌==◌, ltb, leb,
}
use tp_2025_2c_kernel_panic.Prelude.Diccionario.{dictionary_get, dictionary_put}
use tp_2025_2c_kernel_panic.Storage.Disco.{
  work_in_progress, Metadata, Directorio, Storage, ruta, es_protegido, bloques_de, test_bit,
  desocupar, poner_fisico, config_de, guardar, enlazar, desenlazar, nlink, marcar_bloque_libre,
  persistir_bitmap, verificar_si_commited,
}

-- A new directory in the place of a path.
unfoldable pub poner_directorio : Storage → Cadena → Directorio → Storage
poner_directorio s r d = record s { tags = dictionary_put s.tags r d }

-- `strlen(c) == 0`
unfoldable pub es_vacia : Cadena → Bool
es_vacia [] = true
es_vacia (c ∷ cs) = false

unfoldable pub crear_file : Storage → Option (Cadena × Cadena) → Bool × Storage
unfolding es_vacia poner_directorio
crear_file s none = (false, s)
crear_file s (some (nombre_file, tag_inicial)) =
    if es_vacia nombre_file || es_vacia tag_inicial
    then (false, s)
    else elim (dictionary_get s.tags (ruta nombre_file tag_inicial)) [
      | some d ↦ (false, s)
      | none ↦ (
        true,
        poner_directorio s (ruta nombre_file tag_inicial) (record {
          metadata = some (record { tamanio = 0; estado = work_in_progress; blocks = [] });
          logicos = [];
        }),
      )
    ]

-- The loop of `truncar_file` that grows a file: logical blocks from `i` on, linked to block 0.
unfoldable pub agrandar : ℕ → ℕ → Cadena → Storage → Bool × Storage
agrandar zero i r s = (true, s)
agrandar (suc n) i r s = elim (enlazar s r i 0) [
  | none ↦ (false, s)
  | some t ↦ agrandar n (suc i) r t
]

-- A physical block that only its own name is linked to is marked as free.
unfoldable pub liberar_si_suelto : Storage → ℕ → Storage
liberar_si_suelto s n = elim (s.fisicos n) [
  | none ↦ s
  | some c ↦ if nlink s n == 1 then marcar_bloque_libre s n else s
]

-- One turn of the loop that shrinks a file. An `unlink` of a block that exists does not fail.
unfoldable pub quitar_bloque : Cadena → List ℕ → ℕ → Storage → Storage
unfolding liberar_si_suelto
quitar_bloque r blocks i s =
    liberar_si_suelto (elim (desenlazar s r i) [ none ↦ s | some t ↦ t ]) (get_or blocks i 0)

-- The `n` logical blocks from `desde` on, from the last one down.
unfoldable pub achicar : ℕ → ℕ → Cadena → List ℕ → Storage → Storage
unfolding quitar_bloque
achicar zero desde r blocks s = s
achicar (suc n) desde r blocks s = achicar n desde r blocks (quitar_bloque r blocks (desde + n) s)

-- The list of the physical blocks for the new size.
unfoldable pub rehacer : ℕ → List ℕ → List ℕ
rehacer nuevos blocks = take nuevos blocks ++ replicate (nuevos - length blocks) 0

-- `truncar_file` once the metadata is open.
unfoldable pub truncar_abierto : Storage → Cadena → Metadata → ℕ → Bool × Storage
unfolding bloques_de achicar rehacer agrandar
truncar_abierto s r m nuevo_tamanio =
    let bloques_actuales = bloques_de s m.tamanio in
    let bloques_nuevos = bloques_de s nuevo_tamanio in
    let (listo, t) = agrandar (bloques_nuevos - bloques_actuales) bloques_actuales r s in
    let u = achicar (bloques_actuales - bloques_nuevos) bloques_nuevos r m.blocks t in
    if listo
    then (
      true,
      guardar u r (record m { tamanio = nuevo_tamanio; blocks = rehacer bloques_nuevos m.blocks }),
    )
    else (false, t)

unfoldable pub truncar_file : Storage → Option (Cadena × Cadena × ℕ) → Bool × Storage
unfolding truncar_abierto
truncar_file s none = (false, s)
truncar_file s (some (nombre_file, t, nuevo_tamanio)) =
    if es_protegido nombre_file t
    then (false, s)
    else if verificar_si_commited s (ruta nombre_file t)
    then (false, s)
    else elim (config_de s (ruta nombre_file t)) [
      | none ↦ (false, s)
      | some (d, m) ↦ truncar_abierto s (ruta nombre_file t) m nuevo_tamanio
    ]

-- `tag_file` once both paths are checked. The directories are created before the metadata of the
-- origin is opened; each link is made in an empty directory, so that none of them fails.
unfoldable pub copiar_tag : Storage → Directorio → Cadena → Bool × Storage
unfolding poner_directorio
copiar_tag s d destino = elim d.metadata [
  | none ↦ (false, poner_directorio s destino (record { metadata = none; logicos = [] }))
  | some m ↦ (
    true,
    poner_directorio s destino
        (record { metadata = some (record m { estado = work_in_progress }); logicos = d.logicos }),
  )
]

-- The arguments are the file and the tag of the origin, then those of the destination.
unfoldable pub tag_file : Storage → Option ((Cadena × Cadena) × (Cadena × Cadena)) → Bool × Storage
unfolding copiar_tag
tag_file s none = (false, s)
tag_file s (some (origen, destino)) =
    if es_protegido origen.0 origen.1
    then (false, s)
    else elim (dictionary_get s.tags (ruta origen.0 origen.1)) [
      | none ↦ (false, s)
      | some d ↦ elim (dictionary_get s.tags (ruta destino.0 destino.1)) [
        | some e ↦ (false, s)
        | none ↦ copiar_tag s d (ruta destino.0 destino.1)
      ]
    ]

-- The first loop of `eliminar_file_tag`: the logical blocks below `n` are unlinked.
unfoldable pub quitar_enlaces : ℕ → Cadena → Storage → Storage
quitar_enlaces zero r s = s
quitar_enlaces (suc n) r s =
    let t = quitar_enlaces n r s in elim (desenlazar t r n) [ none ↦ t | some u ↦ u ]

-- One turn of the second: the physical block goes if nothing else is linked to it. The bits of a
-- missing block are compared with `bitmap->size`, which counts bytes.
unfoldable pub liberar_fisico : Storage → ℕ → Storage
liberar_fisico s n = elim (s.fisicos n) [
  | some c ↦ if leb (nlink s n) 1 then desocupar (poner_fisico s n none) n else s
  | none ↦ if ltb n (length s.bitmap / 8) && test_bit s n then desocupar s n else s
]

unfoldable pub liberar_fisicos : List ℕ → Storage → Storage
unfolding liberar_fisico
liberar_fisicos [] s = s
liberar_fisicos (n ∷ ns) s = liberar_fisicos ns (liberar_fisico s n)

-- `rm_rf` of the directory of a File:Tag.
unfoldable pub sin_ruta : Cadena → List (Cadena × Directorio) → List (Cadena × Directorio)
sin_ruta r [] = []
sin_ruta r ((k, d) ∷ ts) = let resto = sin_ruta r ts in if str_eq k r then resto else (k, d) ∷ resto

unfoldable pub rm_rf : Cadena → Storage → Storage
unfolding sin_ruta
rm_rf r s = record s { tags = sin_ruta r s.tags }

unfoldable pub eliminar_file_tag : Storage → Option (Cadena × Cadena) → Bool × Storage
unfolding rm_rf liberar_fisicos quitar_enlaces
eliminar_file_tag s none = (false, s)
eliminar_file_tag s (some (file, t)) =
    if es_protegido file t then (false, s) else elim (config_de s (ruta file t)) [
      | none ↦ (false, s)
      | some (d, m) ↦
          let sin_enlaces = quitar_enlaces (length m.blocks) (ruta file t) s in
          let liberado = persistir_bitmap (liberar_fisicos m.blocks sin_enlaces) in
          (true, rm_rf (ruta file t) liberado)
    ]
