-- ===== src/Storage/Flush.antt =====
-- storage/src/operaciones.c: the pages that a worker sends to be kept.
use tp_2025_2c_kernel_panic.Prelude.{
  ℕ, zero, suc, List, [], ◌∷◌, ◌++◌, Option, none, some, Bool, true, false, ◌&&◌, Cadena, get_or,
  set, take, if◌then◌else◌, ◌==◌, ℤ,
}
use tp_2025_2c_kernel_panic.Storage.Disco.{
  Metadata, Storage, ruta, es_protegido, config_de, enlace, guardar, nlink, persistir_bitmap,
  verificar_si_commited, bloque_libre,
}
use tp_2025_2c_kernel_panic.Storage.Escritura.{indice_valido, mover_enlace, escribir_fisico}

-- `t_escritura_pendiente`: the new physical block is there when the metadata has to be changed.
pub record EscrituraPendiente : Type 0 where
  pub bloque_fisico_final : ℕ
  pub contenido : List ℕ
  pub numero_bloque : ℕ
  pub nuevo_valor_bloque : Option ℕ

-- The state of the first loop: the file system, `escrituras_pendientes` and `todas_exitosas`.
pub record Preparado : Type 0 where
  pub fs : Storage
  pub pendientes : List EscrituraPendiente
  pub todas_exitosas : Bool

-- One turn of the loop, on a page.
unfoldable pub preparar : Cadena → Metadata → Preparado → ℤ × List ℕ → Preparado
unfolding indice_valido nlink bloque_libre mover_enlace
preparar r m e (numero, contenido) =
    let s = e.fs in
    elim (indice_valido s m numero) [
      | none ↦ record e { todas_exitosas = false }
      | some i ↦
          let actual = get_or m.blocks i 0 in
          let pendiente = λ (final : ℕ) (nuevo : Option ℕ).
            e.pendientes
            ++ record {
              bloque_fisico_final = final;
              contenido = contenido;
              numero_bloque = i;
              nuevo_valor_bloque = nuevo;
            }
              ∷ [] in
          elim (enlace s r i) [
            | none ↦ record e { todas_exitosas = false }
            | some n ↦
                if nlink s n == 1
                then record e { pendientes = pendiente actual none }
                else elim (bloque_libre s) [
                  | none ↦ record e { todas_exitosas = false }
                  | some nuevo ↦
                      let (movido, resto) = mover_enlace s r i actual nuevo in
                      elim movido [
                        | none ↦ record e { fs = resto; todas_exitosas = false }
                        | some t ↦ record e { fs = t; pendientes = pendiente nuevo (some nuevo) }
                      ]
                ]
          ]
    ]

-- The loop over `cantidad_paginas` pages; it stops when the packet has no more.
unfoldable pub preparar_paginas : Cadena → Metadata → ℕ → List (ℤ × List ℕ) → Preparado → Preparado
unfolding preparar
preparar_paginas r m zero paginas e = e
preparar_paginas r m (suc n) [] e = record e { todas_exitosas = false }
preparar_paginas r m (suc n) (p ∷ ps) e = preparar_paginas r m n ps (preparar r m e p)

-- The list of blocks after the pending writes, and `se_modifico_metadata`.
unfoldable pub bloques_nuevos : List EscrituraPendiente → List ℕ × Bool → List ℕ × Bool
bloques_nuevos [] b = b
bloques_nuevos (w ∷ ws) b =
    bloques_nuevos ws
      (elim w.nuevo_valor_bloque [ none ↦ b | some n ↦ (set b.0 w.numero_bloque n, true) ])

-- The metadata is kept only if no page failed.
unfoldable pub guardar_bloques : Cadena → Metadata → Preparado → Storage
unfolding bloques_nuevos
guardar_bloques r m e =
    let (blocks, se_modifico) = bloques_nuevos e.pendientes (m.blocks, false) in
    if e.todas_exitosas && se_modifico then guardar e.fs r (record m { blocks = blocks }) else e.fs

-- The pending writes are made in any case. The code takes the bytes of a block from each page, and a page has
-- that many; what it would read past a shorter one is not modelled.
unfoldable pub escribir_pendientes : List EscrituraPendiente → Bool × Storage → Bool × Storage
unfolding escribir_fisico
escribir_pendientes [] e = e
escribir_pendientes (w ∷ ws) (exito, s) =
    let (escrito, t) =
      escribir_fisico s w.bloque_fisico_final (take s.tamanio_bloque w.contenido) in
    escribir_pendientes ws (exito && escrito, t)

unfoldable pub flush_abierto : Storage → Cadena → Metadata → ℕ → List (ℤ × List ℕ) → Bool × Storage
unfolding preparar_paginas guardar_bloques escribir_pendientes
flush_abierto s r m cantidad paginas =
    let e =
      preparar_paginas r m cantidad paginas
        (record { fs = s; pendientes = []; todas_exitosas = true }) in
    let (exito, t) = escribir_pendientes e.pendientes (e.todas_exitosas, guardar_bloques r m e) in
    if exito then (true, persistir_bitmap t) else (false, t)

-- The arguments are the File:Tag, the number of pages that stands at the end of the packet, and the pages.
unfoldable pub flush_archivo :
    Storage → Option ((Cadena × Cadena) × ℕ × List (ℤ × List ℕ)) → Bool × Storage
unfolding flush_abierto
flush_archivo s none = (false, s)
flush_archivo s (some ((file, t), cantidad, paginas)) =
    if es_protegido file t
    then (false, s)
    else if verificar_si_commited s (ruta file t)
    then (false, s)
    else elim (config_de s (ruta file t)) [
      | none ↦ (false, s)
      | some (d, m) ↦ flush_abierto s (ruta file t) m cantidad paginas
    ]
