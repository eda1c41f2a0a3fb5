-- ===== src/Storage/Sano/Archivos.antt =====
-- storage/src/operaciones.c: creating, truncating, tagging and deleting keep the file system in order.
use tp_2025_2c_kernel_panic.Prelude.{
  ℕ, zero, suc, ◌+◌, ◌-◌, ◌/◌, ◌≤◌, ◌≡◌, ◌≢◌, refl, sym, ◌∙◌, inl, inr, List, [], ◌∷◌, Option, none,
  some, ◌&&◌, ◌||◌, Cadena, get_or, length, Bool-cases, Option-cases, ◌==◌, ==_iff, leb, ltb, arith,
}
use tp_2025_2c_kernel_panic.Prelude.Diccionario.{dictionary_get}
use tp_2025_2c_kernel_panic.Storage.Disco.{
  Directorio, Storage, Metadata, ruta, es_protegido, bloques_de, config_de, enlace, enlazar,
  desenlazar, nlink, test_bit, poner_fisico, verificar_si_commited,
}
use tp_2025_2c_kernel_panic.Storage.Archivos.{
  es_vacia, poner_directorio, crear_file, agrandar, liberar_si_suelto, quitar_bloque, achicar,
  truncar_abierto, truncar_file, copiar_tag, tag_file, quitar_enlaces, liberar_fisico,
  liberar_fisicos, eliminar_file_tag,
}
use tp_2025_2c_kernel_panic.Storage.Sano.{IsSano}
use tp_2025_2c_kernel_panic.Storage.Sano.Enlaces.{nlink-suelto}
use tp_2025_2c_kernel_panic.Storage.Sano.Pasos.{
  con_directorio-IsSano, buenos_de, guardar-IsSano, enlazar-IsSano, desenlazar-IsSano,
  desocupar-IsSano, borrar_fisico-IsSano, persistir_bitmap-IsSano, rm_rf-IsSano,
  marcar_bloque_libre-IsSano,
}

pub crear_file-IsSano :
    (s : Storage) (p : Option (Cadena × Cadena)) → IsSano s → IsSano (crear_file s p).1
unfolding crear_file poner_directorio
crear_file-IsSano s none h = h
crear_file-IsSano s (some (f, t)) h = elim (Bool-cases (es_vacia f || es_vacia t)) [
  | inl b ↦ rw b h
  | inr b ↦ rw b (elim (Option-cases (dictionary_get s.tags (ruta f t))) [
    | inl e ↦ rw e (con_directorio-IsSano s h (ruta f t) _ (λ j n g. absurd cc))
    | inr (d, e) ↦ rw e h
  ])
]

agrandar-IsSano : (n i : ℕ) (r : Cadena) (s : Storage) → IsSano s → IsSano (agrandar n i r s).1
unfolding agrandar
agrandar-IsSano zero i r s h = h
agrandar-IsSano (suc n) i r s h = elim (Option-cases (enlazar s r i 0)) [
  | inl e ↦ rw (e, agrandar) h
  | inr (t, e) ↦
      rw (e, agrandar)
        (agrandar-IsSano n (suc i) r t (enlazar-IsSano s h r i 0 t (λ ne. absurd (ne refl)) e))
]

liberar_si_suelto-IsSano : (s : Storage) (n : ℕ) → IsSano s → IsSano (liberar_si_suelto s n)
unfolding liberar_si_suelto
liberar_si_suelto-IsSano s n h = elim (Option-cases (s.fisicos n)) [
  | inl e ↦ rw (e, liberar_si_suelto) h
  | inr (c, e) ↦
      rw (e, liberar_si_suelto)
        (elim (Bool-cases (nlink s n == 1)) [
          | inl b ↦
              let uno : nlink s n ≡ 1 = (==_iff (nlink s n) 1).0 b in
              rw b (marcar_bloque_libre-IsSano s h n (nlink-suelto s n c e (omega (arith, uno))))
          | inr b ↦ rw b h
        ])
]

-- An `unlink` that may find nothing.
soltar-IsSano :
    (s : Storage) (r : Cadena) (i : ℕ)
    → IsSano s
    → IsSano (elim (desenlazar s r i) as (λ _. Storage) [ none ↦ s | some t ↦ t ])
soltar-IsSano s r i h = elim (Option-cases (desenlazar s r i)) [
  | inl e ↦ rw e h
  | inr (t, e) ↦ rw e (desenlazar-IsSano s h r i t e)
]

achicar-IsSano :
    (n desde : ℕ) (r : Cadena) (bs : List ℕ) (s : Storage)
    → IsSano s
    → IsSano (achicar n desde r bs s)
unfolding achicar quitar_bloque
achicar-IsSano zero desde r bs s h = h
achicar-IsSano (suc n) desde r bs s h =
    achicar-IsSano n desde r bs _
      (liberar_si_suelto-IsSano _ (get_or bs (desde + n) 0) (soltar-IsSano s r (desde + n) h))

truncar_abierto-IsSano :
    (s : Storage) (r : Cadena) (m : Metadata) (n : ℕ)
    → IsSano s
    → IsSano (truncar_abierto s r m n).1
unfolding truncar_abierto
truncar_abierto-IsSano s r m n h =
    let viejos = bloques_de s m.tamanio in
    let nuevos = bloques_de s n in
    let k = agrandar-IsSano (nuevos - viejos) viejos r s h in
    elim (Bool-cases (agrandar (nuevos - viejos) viejos r s).0) [
      | inl b ↦ rw b (guardar-IsSano _ (achicar-IsSano (viejos - nuevos) nuevos r m.blocks _ k) r _)
      | inr b ↦ rw b k
    ]

pub truncar_file-IsSano :
    (s : Storage) (p : Option (Cadena × Cadena × ℕ)) → IsSano s → IsSano (truncar_file s p).1
unfolding truncar_file
truncar_file-IsSano s none h = h
truncar_file-IsSano s (some (f, t, n)) h = elim (Bool-cases (es_protegido f t)) [
  | inl b ↦ rw b h
  | inr b ↦ rw b (elim (Bool-cases (verificar_si_commited s (ruta f t))) [
    | inl c ↦ rw c h
    | inr c ↦ rw c (elim (Option-cases (config_de s (ruta f t))) [
      | inl e ↦ rw e h
      | inr ((d, m), e) ↦ rw e (truncar_abierto-IsSano s (ruta f t) m n h)
    ])
  ])
]

copiar_tag-IsSano :
    (s : Storage) (r destino : Cadena) (d : Directorio)
    → IsSano s
    → dictionary_get s.tags r ≡ some d
    → IsSano (copiar_tag s d destino).1
unfolding copiar_tag poner_directorio
copiar_tag-IsSano s r destino d h e = elim (Option-cases d.metadata) [
  | inl m ↦ rw m (con_directorio-IsSano s h destino _ (λ j n g. absurd cc))
  | inr (k, m) ↦ rw m (con_directorio-IsSano s h destino _ (buenos_de s h r d e))
]

pub tag_file-IsSano :
    (s : Storage) (p : Option ((Cadena × Cadena) × (Cadena × Cadena)))
    → IsSano s
    → IsSano (tag_file s p).1
unfolding tag_file
tag_file-IsSano s none h = h
tag_file-IsSano s (some ((fo, to), (fd, td))) h = elim (Bool-cases (es_protegido fo to)) [
  | inl b ↦ rw b h
  | inr b ↦ rw b (elim (Option-cases (dictionary_get s.tags (ruta fo to))) [
    | inl e ↦ rw e h
    | inr (d, e) ↦ rw e (elim (Option-cases (dictionary_get s.tags (ruta fd td))) [
      | inl g ↦ rw g (copiar_tag-IsSano s (ruta fo to) (ruta fd td) d h e)
      | inr (x, g) ↦ rw g h
    ])
  ])
]

quitar_enlaces-IsSano :
    (n : ℕ) (r : Cadena) (s : Storage) → IsSano s → IsSano (quitar_enlaces n r s)
unfolding quitar_enlaces
quitar_enlaces-IsSano zero r s h = h
quitar_enlaces-IsSano (suc n) r s h = soltar-IsSano _ r n (quitar_enlaces-IsSano n r s h)

suelto-poner_fisico :
    (s : Storage) (n : ℕ)
    → ((r : Cadena) (i : ℕ) → enlace s r i ≢ some n)
    → (r : Cadena) (i : ℕ) → enlace (poner_fisico s n none) r i ≢ some n
unfolding poner_fisico enlace
suelto-poner_fisico s n f = f

liberar_fisico-IsSano : (s : Storage) (n : ℕ) → IsSano s → IsSano (liberar_fisico s n)
unfolding liberar_fisico
liberar_fisico-IsSano s n h = elim (Option-cases (s.fisicos n)) [
  | inl e ↦
      rw (e, liberar_fisico)
        (elim (Bool-cases (ltb n (length s.bitmap / 8) && test_bit s n)) [
          | inl b ↦ rw b (
              desocupar-IsSano s h n (λ r i k.
                let g : none ≡ some (h.bueno n (r, i, k)).1.0 = sym e ∙ (h.bueno n (r, i, k)).1.1 in
                cc))
          | inr b ↦ rw b h
        ])
  | inr (c, e) ↦
      rw (e, liberar_fisico)
        (elim (Bool-cases (leb (nlink s n) 1)) [
          | inl b ↦
              let uno : nlink s n ≤ 1 = ground arith in
              let suelto = nlink-suelto s n c e uno in
              rw b (
                desocupar-IsSano _ (borrar_fisico-IsSano s h n suelto) n
                  (suelto-poner_fisico s n suelto))
          | inr b ↦ rw b h
        ])
]

liberar_fisicos-IsSano : (ns : List ℕ) (s : Storage) → IsSano s → IsSano (liberar_fisicos ns s)
unfolding liberar_fisicos
liberar_fisicos-IsSano [] s h = h
liberar_fisicos-IsSano (n ∷ ns) s h = liberar_fisicos-IsSano ns _ (liberar_fisico-IsSano s n h)

pub eliminar_file_tag-IsSano :
    (s : Storage) (p : Option (Cadena × Cadena)) → IsSano s → IsSano (eliminar_file_tag s p).1
unfolding eliminar_file_tag
eliminar_file_tag-IsSano s none h = h
eliminar_file_tag-IsSano s (some (f, t)) h = elim (Bool-cases (es_protegido f t)) [
  | inl b ↦ rw b h
  | inr b ↦ rw b (elim (Option-cases (config_de s (ruta f t))) [
    | inl e ↦ rw e h
    | inr ((d, m), e) ↦ rw e (
        rm_rf-IsSano _
          (persistir_bitmap-IsSano _ (
            liberar_fisicos-IsSano m.blocks _
              (quitar_enlaces-IsSano (length m.blocks) (ruta f t) s h)))
          (ruta f t))
  ])
]
