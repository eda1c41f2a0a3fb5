-- ===== src/Storage/Escritura.antt =====
-- storage/src/operaciones.c: reading and writing one logical block.
use tp_2025_2c_kernel_panic.Prelude.{
  hasta_nulo, ℕ, ◌-◌, List, [], ◌++◌, Option, none, some, Bool, true, false, ◌||◌, Cadena, get_or,
  set, take, drop, length, replicate, if◌then◌else◌, ◌==◌, ltb, ℤ,
}
use tp_2025_2c_kernel_panic.Storage.Disco.{
  Metadata, Storage, ruta, es_protegido, bloques_de, dentro_de, ocupar, desocupar, poner_fisico,
  config_de, enlace, guardar, enlazar, desenlazar, nlink, verificar_si_commited, bloque_libre,
}
use tp_2025_2c_kernel_panic.Storage.Archivos.{es_vacia}

-- `fread` of a block into a buffer that is filled with zeros up to the size of a block.
unfoldable pub leer_rellenado : ℕ → List ℕ → List ℕ
leer_rellenado tamanio c = take tamanio c ++ replicate (tamanio - length c) 0

-- The number of a logical block, when the size of the file and the list of its blocks reach it.
unfoldable pub indice_valido : Storage → Metadata → ℤ → Option ℕ
unfolding dentro_de bloques_de
indice_valido s m bloque_logico = elim (dentro_de bloque_logico (bloques_de s m.tamanio)) [
  | none ↦ none
  | some i ↦ if ltb i (length m.blocks) then some i else none
]

-- `leer_bloque`: the bytes that it leaves in `contenido`.
unfoldable pub leer_bloque : Storage → Option (Cadena × Cadena × ℤ) → Option (List ℕ)
unfolding leer_rellenado
leer_bloque s none = none
leer_bloque s (some (nombre_file, t, bloque_logico)) = elim (config_de s (ruta nombre_file t)) [
  | none ↦ none
  | some (d, m) ↦ elim (indice_valido s m bloque_logico) [
    | none ↦ none
    | some i ↦ elim (enlace s (ruta nombre_file t) i) [
      | none ↦ none
      | some n ↦ elim (s.fisicos n) [
        | none ↦ none
        | some c ↦ some (leer_rellenado s.tamanio_bloque c)
      ]
    ]
  ]
]

-- `fseek` to 0 and `fwrite` on a file that was opened with "r+b".
unfoldable pub sobrescribir : List ℕ → List ℕ → List ℕ
sobrescribir nuevo viejo = nuevo ++ drop (length nuevo) viejo

-- What is written for a content: the bytes, and zeros up to the end of the block.
unfoldable pub rellenar : ℕ → List ℕ → List ℕ
rellenar tamanio contenido = contenido ++ replicate (tamanio - length contenido) 0

-- The end of a write, on a physical block: `none` for a block that cannot be opened.
unfoldable pub escribir_fisico : Storage → ℕ → List ℕ → Bool × Storage
unfolding sobrescribir
escribir_fisico s n bytes = elim (s.fisicos n) [
  | none ↦ (false, s)
  | some c ↦ (true, poner_fisico s n (some (sobrescribir bytes c)))
]

-- The metadata, with one of its physical blocks replaced. It was opened at the start of the write and
-- nothing between removes it, so that the result of a metadata that no longer opens is not modelled.
unfoldable pub cambiar_bloque : Storage → Cadena → ℕ → ℕ → Storage
unfolding guardar
cambiar_bloque s r i n = elim (config_de s r) [
  | none ↦ s
  | some (d, m) ↦
      if ltb i (length m.blocks) then guardar s r (record m { blocks = set m.blocks i n }) else s
]

-- The copy of a block into the one reserved for it, and the change of the link. `none` in the place of
-- the block says that it failed: the reserved one is free again. The block is copied whole.
unfoldable pub mover_enlace : Storage → Cadena → ℕ → ℕ → ℕ → Option Storage × Storage
unfolding ocupar desocupar poner_fisico desenlazar enlazar
mover_enlace s r i actual nuevo =
    let reservado = ocupar s nuevo in
    elim (s.fisicos actual) [
      | none ↦ (none, desocupar (poner_fisico reservado nuevo (some [])) nuevo)
      | some c ↦
          let copiado = poner_fisico reservado nuevo (some (take s.tamanio_bloque c)) in
          elim (desenlazar copiado r i) [
            | none ↦ (none, desocupar copiado nuevo)
            | some suelto ↦ elim (enlazar suelto r i nuevo) [
              | some t ↦ (some t, t)
              | none ↦ (
                none,
                elim (enlazar (desocupar suelto nuevo) r i actual) [
                  | none ↦ desocupar suelto nuevo
                  | some t ↦ t
                ],
              )
            ]
          ]
    ]

-- `escribir_bloque` once the index is valid: a block that is not linked to once gets a new one.
unfoldable pub escribir_en : Storage → Cadena → ℕ → ℕ → List ℕ → Bool × Storage
unfolding nlink bloque_libre mover_enlace cambiar_bloque escribir_fisico rellenar
escribir_en s r i actual contenido = elim (enlace s r i) [
  | none ↦ (false, s)
  | some n ↦
      if nlink s n == 1
      then escribir_fisico s actual (rellenar s.tamanio_bloque contenido)
      else elim (bloque_libre s) [
        | none ↦ (false, s)
        | some nuevo ↦
            let (movido, resto) = mover_enlace s r i actual nuevo in
            elim movido [
              | none ↦ (false, resto)
              | some t ↦
                  escribir_fisico (cambiar_bloque t r i nuevo) nuevo
                    (rellenar s.tamanio_bloque contenido)
            ]
      ]
]

-- The content is what the packet has, up to its first NUL: `strlen` says how much of it is written.
unfoldable pub escribir_bloque : Storage → Option ((Cadena × Cadena) × ℤ × List ℕ) → Bool × Storage
unfolding escribir_en indice_valido hasta_nulo
escribir_bloque s none = (false, s)
escribir_bloque s (some ((nombre_file, t), bloque_logico, contenido)) =
    if es_protegido nombre_file t
    then (false, s)
    else if verificar_si_commited s (ruta nombre_file t)
    then (false, s)
    else if es_vacia nombre_file || es_vacia t
    then (false, s)
    else elim (config_de s (ruta nombre_file t)) [
      | none ↦ (false, s)
      | some (d, m) ↦ elim (indice_valido s m bloque_logico) [
        | none ↦ (false, s)
        | some i ↦ escribir_en s (ruta nombre_file t) i (get_or m.blocks i 0) (hasta_nulo contenido)
      ]
    ]
