-- ===== src/Storage/Sano/Escritura.antt =====
-- storage/src/operaciones.c: writing a block and flushing pages keep the file system in order.
use tp_2025_2c_kernel_panic.Prelude.{
  hasta_nulo, ℕ, zero, suc, ◌≡◌, inl, inr, List, [], ◌∷◌, Option, none, some, Bool, true, false,
  ◌&&◌, ◌||◌, Cadena, get_or, take, length, Bool-cases, Option-cases, ◌==◌, ltb, ℤ,
}
use tp_2025_2c_kernel_panic.Storage.Disco.{
  Storage, Metadata, ruta, es_protegido, config_de, enlace, nlink, verificar_si_commited,
  bloque_libre,
}
use tp_2025_2c_kernel_panic.Storage.Archivos.{es_vacia}
use tp_2025_2c_kernel_panic.Storage.Escritura.{
  indice_valido, mover_enlace, cambiar_bloque, escribir_fisico, escribir_en, escribir_bloque,
}
use tp_2025_2c_kernel_panic.Storage.Flush.{
  EscrituraPendiente, Preparado, preparar, preparar_paginas, bloques_nuevos, guardar_bloques,
  escribir_pendientes, flush_abierto, flush_archivo,
}
use tp_2025_2c_kernel_panic.Storage.Sano.{IsSano}
use tp_2025_2c_kernel_panic.Storage.Sano.Pasos.{
  guardar-IsSano, poner_fisico-IsSano, persistir_bitmap-IsSano,
}
use tp_2025_2c_kernel_panic.Storage.Sano.Mover.{bloque_libre-Libre, mover_enlace-IsSano}

escribir_fisico-IsSano :
    (s : Storage) (n : ℕ) (bytes : List ℕ) → IsSano s → IsSano (escribir_fisico s n bytes).1
unfolding escribir_fisico
escribir_fisico-IsSano s n bytes h = elim (Option-cases (s.fisicos n)) [
  | inl e ↦ rw (e, escribir_fisico) h
  | inr (c, e) ↦ rw (e, escribir_fisico) (poner_fisico-IsSano s h n _)
]

cambiar_bloque-IsSano :
    (s : Storage) (r : Cadena) (i n : ℕ) → IsSano s → IsSano (cambiar_bloque s r i n)
unfolding cambiar_bloque
cambiar_bloque-IsSano s r i n h = elim (Option-cases (config_de s r)) [
  | inl e ↦ rw (e, cambiar_bloque) h
  | inr ((d, m), e) ↦
      rw (e, cambiar_bloque)
        (elim (Bool-cases (ltb i (length m.blocks))) [
          | inl b ↦ rw b (guardar-IsSano s h r _)
          | inr b ↦ rw b h
        ])
]

-- The copy into a block that was found free.
movido-IsSano :
    (s : Storage) (r : Cadena) (i actual nuevo n : ℕ)
    → IsSano s
    → bloque_libre s ≡ some nuevo
    → enlace s r i ≡ some n
    → let m = mover_enlace s r i actual nuevo in
      IsSano m.1 × ((t : Storage) → m.0 ≡ some t → IsSano t)
movido-IsSano s r i actual nuevo n h b e =
    let (ne, cabe, libre) = bloque_libre-Libre s nuevo b in
    mover_enlace-IsSano s r i actual nuevo h ne cabe libre n e

escribir_en-IsSano :
    (s : Storage) (r : Cadena) (i actual : ℕ) (contenido : List ℕ)
    → IsSano s
    → IsSano (escribir_en s r i actual contenido).1
unfolding escribir_en
escribir_en-IsSano s r i actual contenido h = elim (Option-cases (enlace s r i)) [
  | inl e ↦ rw (e, escribir_en) h
  | inr (n, e) ↦
      rw (e, escribir_en)
        (elim (Bool-cases (nlink s n == 1)) [
          | inl b ↦ rw b (escribir_fisico-IsSano s actual _ h)
          | inr b ↦ rw b (elim (Option-cases (bloque_libre s)) [
            | inl k ↦ rw k h
            | inr (nuevo, k) ↦
                let (resto, movido) = movido-IsSano s r i actual nuevo n h k e in
                rw k (elim (Option-cases (mover_enlace s r i actual nuevo).0) [
                  | inl m ↦ rw m resto
                  | inr (t, m) ↦ rw m (
                      escribir_fisico-IsSano _ nuevo _
                        (cambiar_bloque-IsSano t r i nuevo (movido t m)))
                ])
          ])
        ])
]

pub escribir_bloque-IsSano :
    (s : Storage) (p : Option ((Cadena × Cadena) × ℤ × List ℕ))
    → IsSano s
    → IsSano (escribir_bloque s p).1
unfolding escribir_bloque
escribir_bloque-IsSano s none h = h
escribir_bloque-IsSano s (some ((f, t), num, contenido)) h = elim (Bool-cases (es_protegido f t)) [
  | inl b ↦ rw b h
  | inr b ↦ rw b (elim (Bool-cases (verificar_si_commited s (ruta f t))) [
    | inl c ↦ rw c h
    | inr c ↦ rw c (elim (Bool-cases (es_vacia f || es_vacia t)) [
      | inl v ↦ rw v h
      | inr v ↦ rw v (elim (Option-cases (config_de s (ruta f t))) [
        | inl e ↦ rw e h
        | inr ((d, m), e) ↦ rw e (elim (Option-cases (indice_valido s m num)) [
          | inl k ↦ rw k h
          | inr (i, k) ↦
              rw k
                (escribir_en-IsSano s (ruta f t) i (get_or m.blocks i 0) (hasta_nulo contenido) h)
        ])
      ])
    ])
  ])
]

preparar-IsSano :
    (r : Cadena) (m : Metadata) (e : Preparado) (p : ℤ × List ℕ)
    → IsSano e.fs
    → IsSano (preparar r m e p).fs
unfolding preparar
preparar-IsSano r m e (num, contenido) h = elim (Option-cases (indice_valido e.fs m num)) [
  | inl k ↦ rw (k, preparar) h
  | inr (i, k) ↦
      rw (k, preparar)
        (elim (Option-cases (enlace e.fs r i)) [
          | inl l ↦ rw l h
          | inr (n, l) ↦ rw l (elim (Bool-cases (nlink e.fs n == 1)) [
            | inl b ↦ rw b h
            | inr b ↦ rw b (elim (Option-cases (bloque_libre e.fs)) [
              | inl q ↦ rw q h
              | inr (nuevo, q) ↦
                  let actual = get_or m.blocks i 0 in
                  let (resto, movido) = movido-IsSano e.fs r i actual nuevo n h q l in
                  rw q (elim (Option-cases (mover_enlace e.fs r i actual nuevo).0) [
                    | inl x ↦ rw x resto
                    | inr (t, x) ↦ rw x (movido t x)
                  ])
            ])
          ])
        ])
]

preparar_paginas-IsSano :
    (r : Cadena) (m : Metadata) (n : ℕ) (ps : List (ℤ × List ℕ)) (e : Preparado)
    → IsSano e.fs
    → IsSano (preparar_paginas r m n ps e).fs
unfolding preparar_paginas
preparar_paginas-IsSano r m zero ps e h = h
preparar_paginas-IsSano r m (suc n) [] e h = h
preparar_paginas-IsSano r m (suc n) (p ∷ ps) e h =
    preparar_paginas-IsSano r m n ps (preparar r m e p) (preparar-IsSano r m e p h)

guardar_bloques-IsSano :
    (r : Cadena) (m : Metadata) (e : Preparado) → IsSano e.fs → IsSano (guardar_bloques r m e)
unfolding guardar_bloques
guardar_bloques-IsSano r m e h =
    elim (Bool-cases (e.todas_exitosas && (bloques_nuevos e.pendientes (m.blocks, false)).1)) [
      | inl b ↦ rw b (guardar-IsSano e.fs h r _)
      | inr b ↦ rw b h
    ]

escribir_pendientes-IsSano :
    (ws : List EscrituraPendiente) (b : Bool) (s : Storage)
    → IsSano s
    → IsSano (escribir_pendientes ws (b, s)).1
unfolding escribir_pendientes
escribir_pendientes-IsSano [] b s h = h
escribir_pendientes-IsSano (w ∷ ws) b s h =
    escribir_pendientes-IsSano ws _ _
      (escribir_fisico-IsSano s w.bloque_fisico_final (take s.tamanio_bloque w.contenido) h)

flush_abierto-IsSano :
    (s : Storage) (r : Cadena) (m : Metadata) (n : ℕ) (ps : List (ℤ × List ℕ))
    → IsSano s
    → IsSano (flush_abierto s r m n ps).1
unfolding flush_abierto
flush_abierto-IsSano s r m n ps h =
    let inicial : Preparado = record { fs = s; pendientes = []; todas_exitosas = true } in
    let e = preparar_paginas r m n ps inicial in
    let k =
      escribir_pendientes-IsSano e.pendientes e.todas_exitosas (guardar_bloques r m e)
        (guardar_bloques-IsSano r m e (preparar_paginas-IsSano r m n ps inicial h)) in
    elim (Bool-cases
      (escribir_pendientes e.pendientes (e.todas_exitosas, guardar_bloques r m e)).0) [
        | inl b ↦ rw b (persistir_bitmap-IsSano _ k)
        | inr b ↦ rw b k
      ]

pub flush_archivo-IsSano :
    (s : Storage) (p : Option ((Cadena × Cadena) × ℕ × List (ℤ × List ℕ)))
    → IsSano s
    → IsSano (flush_archivo s p).1
unfolding flush_archivo
flush_archivo-IsSano s none h = h
flush_archivo-IsSano s (some ((f, t), n, ps)) h = elim (Bool-cases (es_protegido f t)) [
  | inl b ↦ rw b h
  | inr b ↦ rw b (elim (Bool-cases (verificar_si_commited s (ruta f t))) [
    | inl c ↦ rw c h
    | inr c ↦ rw c (elim (Option-cases (config_de s (ruta f t))) [
      | inl e ↦ rw e h
      | inr ((d, m), e) ↦ rw e (flush_abierto-IsSano s (ruta f t) m n ps h)
    ])
  ])
]
