-- ===== src/Tests/Storage.antt =====
-- storage/src/operaciones.c on a file system of four blocks of two bytes, where "f":"a" has the size 3,
-- its first block written, and "f":"b" is a tag of it.
use mathlib.Core.Option.{some-injective}
use tp_2025_2c_kernel_panic.Prelude.{
  hasta_nulo, Bool-cases, str_eq_iff, sym, ◌∙◌, ap, ◌%◌, get_elem?, get_or, inl, Bool-cases, ℕ,
  zero, suc, ◌≡◌, refl, inl, inr, ◌⊎◌, List, [], ◌∷◌, Option, none, some, true, false, Cadena,
  codes, set, take, pos, str_eq,
}
use tp_2025_2c_kernel_panic.Prelude.Diccionario.{dictionary_get, dictionary_put}
use tp_2025_2c_kernel_panic.Storage.Disco.{
  work_in_progress, Metadata, Directorio, Storage, ruta, es_protegido, config_de, enlace, test_bit,
  bloques_de, guardar, enlazar, desenlazar, poner_enlace, poner_en, nlink, enlaces, veces,
  poner_fisico, cambiar, ocupar, desocupar, persistir_bitmap, verificar_si_commited, es_commited,
  bloque_libre, bloque_libre_desde, cantidad_bloques, dentro_de, igual_sin_caja, minuscula,
}
use tp_2025_2c_kernel_panic.Storage.Inicio.{recrear_bmap, crear_initial_file, formatear_fs}
use tp_2025_2c_kernel_panic.Storage.Archivos.{
  crear_file, truncar_file, truncar_abierto, agrandar, achicar, rehacer, tag_file, copiar_tag,
  poner_directorio, es_vacia,
}
use tp_2025_2c_kernel_panic.Storage.Escritura.{
  escribir_bloque, escribir_en, escribir_fisico, indice_valido, mover_enlace, cambiar_bloque,
  sobrescribir, rellenar, leer_bloque, leer_rellenado,
}
use tp_2025_2c_kernel_panic.Storage.Commit.{
  realizar_commit, evitar_duplicidad, dedup_desde, dedup_bloque, conservar, calcular_md5_por_bloque,
  reasignar, soltar_bit,
}
use tp_2025_2c_kernel_panic.Storage.Servidor.{
  Pedido, create_file, truncate, write_block, tag, delete, rutina_operaciones,
}
use tp_2025_2c_kernel_panic.Storage.Archivos.{
  quitar_enlaces, liberar_fisicos, liberar_fisico, rm_rf, sin_ruta, eliminar_file_tag,
}
use tp_2025_2c_kernel_panic.Storage.Servidor.{atender}
use tp_2025_2c_kernel_panic.Storage.Permisos.{Intocable, realizar_commit-Intocable}
use tp_2025_2c_kernel_panic.Storage.Sano.{IsSano}
use tp_2025_2c_kernel_panic.Storage.Sano.Archivos.{crear_file-IsSano, truncar_file-IsSano}
use tp_2025_2c_kernel_panic.Storage.Sano.Servidor.{
  atender-IsSano, formatear_fs-IsSano, rutina_operaciones-IsSano,
}
use tp_2025_2c_kernel_panic.Storage.Vista.{vista, Muestra, con_bloque, con_archivo, redimensionado}
use tp_2025_2c_kernel_panic.Storage.Vista.Metadatos.{Tiene, config_de-partes}
use tp_2025_2c_kernel_panic.Storage.Vista.Resultado.{escribir_bloque-Escrita}
use tp_2025_2c_kernel_panic.Storage.Vista.Lectura.{leer_bloque-escribir_bloque}
use tp_2025_2c_kernel_panic.Storage.Vista.Truncado.{truncar_file-Muestra}
use tp_2025_2c_kernel_panic.Storage.Vista.Archivos.{Creacion, crear_file-Creacion}
use tp_2025_2c_kernel_panic.Storage.Vista.Borrado.{eliminar_file_tag-Muestra}
use tp_2025_2c_kernel_panic.Storage.Vista.Dedup.{IndiceFiel, Distingue}
use tp_2025_2c_kernel_panic.Storage.Vista.Commit.{Alineado, Igual, realizar_commit-Igual}

abbrev vacio : Storage
vacio = record {
  tamanio_bloque = 2;
  tamanio_filesystem = 8;
  bitmap = [];
  bitmap_en_disco = [];
  fisicos = λ i. none;
  tags = [];
  hash_index = [];
  cantidad_workers = pos 1;
}

-- Formatted, with "f":"a" created, truncated and written.
abbrev f_creado : Storage
f_creado = (crear_file (formatear_fs vacio) (some (codes "f", codes "a"))).1

abbrev f_truncado : Storage
f_truncado = (truncar_file f_creado (some (codes "f", codes "a", 3))).1

abbrev f_escrito : Storage
f_escrito = (escribir_bloque f_truncado (some ((codes "f", codes "a"), pos 0, codes "x"))).1

-- It reads what was written.
lee_lo_escrito : leer_bloque f_escrito (some (codes "f", codes "a", pos 0)) ≡ some (b'x' ∷ 0 ∷ [])
unfolding formatear_fs recrear_bmap crear_initial_file crear_file truncar_file truncar_abierto
    agrandar achicar rehacer escribir_bloque escribir_en escribir_fisico indice_valido mover_enlace
    cambiar_bloque sobrescribir rellenar leer_bloque leer_rellenado poner_directorio es_vacia ruta
    es_protegido config_de enlace test_bit bloques_de guardar enlazar desenlazar poner_enlace
    poner_en nlink enlaces veces poner_fisico cambiar ocupar desocupar persistir_bitmap
    verificar_si_commited es_commited bloque_libre bloque_libre_desde cantidad_bloques dentro_de
    igual_sin_caja minuscula dictionary_get dictionary_put str_eq
lee_lo_escrito = refl

f_truncado-IsSano : IsSano f_truncado
f_truncado-IsSano = truncar_file-IsSano f_creado (some (codes "f", codes "a", 3)) (
    crear_file-IsSano (formatear_fs vacio) (some (codes "f", codes "a"))
      (formatear_fs-IsSano vacio))

-- The file and the tag of the tests.
abbrev fa : Cadena × Cadena
fa = (codes "f", codes "a")

abbrev fb : Cadena × Cadena
fb = (codes "f", codes "b")

-- A hash that tells all contents apart.
abbrev sin_colisiones : List ℕ → Cadena
sin_colisiones c = c

abbrev pedidos : List Pedido
pedidos =
    create_file (some fa)
    ∷ truncate (some (codes "f", codes "a", 3))
    ∷ write_block (some (fa, pos 0, codes "x"))
    ∷ tag (some (fa, fb))
    ∷ write_block (some (fb, pos 0, codes "yz"))
    ∷ delete (some fa)
    ∷ []

rutina_operaciones-IsSano_example :
    IsSano (rutina_operaciones sin_colisiones (formatear_fs vacio) (some pedidos)).1
rutina_operaciones-IsSano_example =
    rutina_operaciones-IsSano sin_colisiones vacio pedidos (tt, (tt, (tt, (tt, (tt, (tt, tt))))))

atender-IsSano_example :
    IsSano (atender sin_colisiones f_truncado (write_block (some (fa, pos 0, codes "x")))).1
atender-IsSano_example =
    atender-IsSano sin_colisiones f_truncado (write_block (some (fa, pos 0, codes "x"))) tt
      f_truncado-IsSano

-- Of these bytes only the first is written.
abbrev x_y : List ℕ
x_y = b'x' ∷ 0 ∷ b'y' ∷ []

escribir_bloque-Escrita_example :
    let x = escribir_bloque f_truncado (some (fa, pos 0, x_y)) in
    let v = vista f_truncado in
    ((x.0 ≡ true)
      × ((i : ℕ) × (nuevo : ℕ) × (pos 0 ≡ pos i)
          × Muestra x.1
              (con_bloque v (ruta (codes "f") (codes "a")) i (some (rellenar 2 (codes "x"))))
          × (test_bit f_truncado nuevo ≡ false)
          × (x.1.bitmap ≡ set f_truncado.bitmap nuevo true)))
    ⊎ ((x.0 ≡ false) × Muestra x.1 v)
unfolding formatear_fs recrear_bmap crear_initial_file crear_file truncar_file truncar_abierto
    agrandar achicar rehacer escribir_bloque escribir_en escribir_fisico indice_valido mover_enlace
    cambiar_bloque sobrescribir rellenar leer_bloque leer_rellenado poner_directorio es_vacia ruta
    es_protegido config_de enlace test_bit bloques_de guardar enlazar desenlazar poner_enlace
    poner_en nlink enlaces veces poner_fisico cambiar ocupar desocupar persistir_bitmap
    verificar_si_commited es_commited bloque_libre bloque_libre_desde cantidad_bloques dentro_de
    igual_sin_caja minuscula dictionary_get dictionary_put str_eq hasta_nulo
escribir_bloque-Escrita_example =
    escribir_bloque-Escrita f_truncado (codes "f") (codes "a") (pos 0) x_y f_truncado-IsSano

leer_bloque-escribir_bloque_example :
    leer_bloque
      (escribir_bloque f_truncado (some (fa, pos 0, x_y))).1
      (some (codes "f", codes "a", pos 0))
    ≡ some (b'x' ∷ 0 ∷ [])
unfolding formatear_fs recrear_bmap crear_initial_file crear_file truncar_file truncar_abierto
    agrandar achicar rehacer escribir_bloque escribir_en escribir_fisico indice_valido mover_enlace
    cambiar_bloque sobrescribir rellenar leer_bloque leer_rellenado poner_directorio es_vacia ruta
    es_protegido config_de enlace test_bit bloques_de guardar enlazar desenlazar poner_enlace
    poner_en nlink enlaces veces poner_fisico cambiar ocupar desocupar persistir_bitmap
    verificar_si_commited es_commited bloque_libre bloque_libre_desde cantidad_bloques dentro_de
    igual_sin_caja minuscula dictionary_get dictionary_put str_eq hasta_nulo
leer_bloque-escribir_bloque_example =
    leer_bloque-escribir_bloque f_truncado (codes "f") (codes "a") (pos 0) (x_y) f_truncado-IsSano
      refl

truncar_file-Muestra_example :
    let u = (truncar_file f_creado (some (codes "f", codes "a", 3))).1 in
    let r = ruta (codes "f") (codes "a") in
    (d : Directorio) × (m : Metadata) × (config_de f_creado r ≡ some (d, m))
    × Muestra u (
        con_archivo (vista f_creado) r (
          redimensionado
            (f_creado.fisicos 0)
            (bloques_de f_creado m.tamanio)
            (bloques_de f_creado 3)
            (vista f_creado r)))
    × Tiene u r (record m { tamanio = 3; blocks = rehacer (bloques_de f_creado 3) m.blocks })
unfolding formatear_fs recrear_bmap crear_initial_file crear_file truncar_file truncar_abierto
    agrandar achicar rehacer escribir_bloque escribir_en escribir_fisico indice_valido mover_enlace
    cambiar_bloque sobrescribir rellenar leer_bloque leer_rellenado poner_directorio es_vacia ruta
    es_protegido config_de enlace test_bit bloques_de guardar enlazar desenlazar poner_enlace
    poner_en nlink enlaces veces poner_fisico cambiar ocupar desocupar persistir_bitmap
    verificar_si_commited es_commited bloque_libre bloque_libre_desde cantidad_bloques dentro_de
    igual_sin_caja minuscula dictionary_get dictionary_put str_eq
truncar_file-Muestra_example = truncar_file-Muestra f_creado (codes "f") (codes "a") 3 refl

crear_file-Creacion_example :
    Creacion f_creado (codes "f") (codes "b") (crear_file f_creado (some fb))
crear_file-Creacion_example = crear_file-Creacion f_creado (codes "f") (codes "b")

eliminar_file_tag-Muestra_example :
    let x = eliminar_file_tag f_escrito (some fa) in
    let r = ruta (codes "f") (codes "a") in
    ((x.0 ≡ true)
      × (dictionary_get x.1.tags r ≡ none)
      × Muestra x.1 (con_archivo (vista f_escrito) r (λ j. none)))
    ⊎ ((x.0 ≡ false)
        × ((es_protegido (codes "f") (codes "a") ≡ true) ⊎ (config_de f_escrito r ≡ none))
        × (x.1 ≡ f_escrito))
eliminar_file_tag-Muestra_example = eliminar_file_tag-Muestra f_escrito (codes "f") (codes "a")

realizar_commit-Intocable_example :
    Intocable (realizar_commit sin_colisiones f_escrito (some fa)).1 (codes "f") (codes "a")
unfolding formatear_fs recrear_bmap crear_initial_file crear_file truncar_file truncar_abierto
    agrandar achicar rehacer escribir_bloque escribir_en escribir_fisico indice_valido mover_enlace
    cambiar_bloque sobrescribir rellenar leer_bloque leer_rellenado poner_directorio es_vacia ruta
    es_protegido config_de enlace test_bit bloques_de guardar enlazar desenlazar poner_enlace
    poner_en nlink enlaces veces poner_fisico cambiar ocupar desocupar persistir_bitmap
    verificar_si_commited es_commited bloque_libre bloque_libre_desde cantidad_bloques dentro_de
    igual_sin_caja minuscula dictionary_get dictionary_put str_eq realizar_commit evitar_duplicidad
    dedup_desde dedup_bloque conservar calcular_md5_por_bloque reasignar soltar_bit tag_file
    copiar_tag quitar_enlaces liberar_fisicos liberar_fisico rm_rf sin_ruta eliminar_file_tag
realizar_commit-Intocable_example =
    realizar_commit-Intocable sin_colisiones f_escrito (codes "f") (codes "a") refl

abbrev metadata_de_tres : Metadata
metadata_de_tres = record { tamanio = 2; estado = work_in_progress; blocks = 3 ∷ [] }

abbrev directorio_de_tres : Directorio
directorio_de_tres = record { metadata = some metadata_de_tres; logicos = some 3 ∷ [] }

-- Blocks 1 and 3 have the same content, block 1 is in the index, and the only block of "f":"a" is 3.
abbrev repetido : Storage
repetido = record {
  tamanio_bloque = 2;
  tamanio_filesystem = 8;
  bitmap = true ∷ true ∷ false ∷ true ∷ [];
  bitmap_en_disco = true ∷ true ∷ false ∷ true ∷ [];
  fisicos = λ n. some (n % 2 ∷ 0 ∷ []);
  tags = (ruta (codes "f") (codes "a"), directorio_de_tres) ∷ [];
  hash_index = (1 ∷ 0 ∷ [], 1) ∷ [];
  cantidad_workers = pos 1;
}

-- The commit moves the logical block to block 1 and frees block 3.
se_reasigna :
    let u = (realizar_commit sin_colisiones repetido (some fa)).1 in
    (enlace u (ruta (codes "f") (codes "a")) 0 ≡ some 1)
    × (u.bitmap_en_disco ≡ true ∷ true ∷ false ∷ false ∷ [])
unfolding formatear_fs recrear_bmap crear_initial_file crear_file truncar_file truncar_abierto
    agrandar achicar rehacer escribir_bloque escribir_en escribir_fisico indice_valido mover_enlace
    cambiar_bloque sobrescribir rellenar leer_bloque leer_rellenado poner_directorio es_vacia ruta
    es_protegido config_de enlace test_bit bloques_de guardar enlazar desenlazar poner_enlace
    poner_en nlink enlaces veces poner_fisico cambiar ocupar desocupar persistir_bitmap
    verificar_si_commited es_commited bloque_libre bloque_libre_desde cantidad_bloques dentro_de
    igual_sin_caja minuscula dictionary_get dictionary_put str_eq realizar_commit evitar_duplicidad
    dedup_desde dedup_bloque conservar calcular_md5_por_bloque reasignar soltar_bit tag_file
    copiar_tag quitar_enlaces liberar_fisicos liberar_fisico rm_rf sin_ruta eliminar_file_tag
se_reasigna = (refl, refl)

repetido-IndiceFiel : IndiceFiel sin_colisiones repetido
unfolding dictionary_get
repetido-IndiceFiel hash n e = elim (Bool-cases (str_eq (1 ∷ 0 ∷ []) hash)) [
  | inl b ↦
      let f : some 1 ≡ some n = rw (b, dictionary_get) at e in
      let g : 1 ≡ n = cc in (1 ∷ 0 ∷ [], (rw⁻¹ g refl), (str_eq_iff (1 ∷ 0 ∷ []) hash).0 b)
  | inr b ↦ let f : none ≡ some n = rw (b, dictionary_get) at e in absurd cc
]

repetido-Distingue : Distingue sin_colisiones repetido
repetido-Distingue n m c d e f h =
    let x : n % 2 ∷ 0 ∷ [] ≡ c = some-injective (n % 2 ∷ 0 ∷ []) c e in
    let y : m % 2 ∷ 0 ∷ [] ≡ d = some-injective (m % 2 ∷ 0 ∷ []) d f in
    sym x ∙ ap (take 2) x ∙ h ∙ ap (take 2) (sym y) ∙ y

el_tres : (j : ℕ) → get_or {A = Option ℕ} (some 3 ∷ []) j none ≡ get_elem? {A = ℕ} (3 ∷ []) j
el_tres zero = refl
el_tres (suc j) = refl

repetido-Alineado : Alineado sin_colisiones repetido (ruta (codes "f") (codes "a"))
unfolding formatear_fs recrear_bmap crear_initial_file crear_file truncar_file truncar_abierto
    agrandar achicar rehacer escribir_bloque escribir_en escribir_fisico indice_valido mover_enlace
    cambiar_bloque sobrescribir rellenar leer_bloque leer_rellenado poner_directorio es_vacia ruta
    es_protegido config_de enlace test_bit bloques_de guardar enlazar desenlazar poner_enlace
    poner_en nlink enlaces veces poner_fisico cambiar ocupar desocupar persistir_bitmap
    verificar_si_commited es_commited bloque_libre bloque_libre_desde cantidad_bloques dentro_de
    igual_sin_caja minuscula dictionary_get dictionary_put str_eq
repetido-Alineado d m e j n g =
    let (h, l) = config_de-partes repetido (ruta (codes "f") (codes "a")) d m e in
    let x : directorio_de_tres ≡ d = some-injective directorio_de_tres d h in
    let y : metadata_de_tres ≡ m =
      some-injective metadata_de_tres m (ap (λ (w : Directorio). w.metadata) x ∙ l) in
    el_tres j ∙ ap (λ (w : Metadata). get_elem? w.blocks j) y ∙ g

realizar_commit-Igual_example :
    Igual sin_colisiones repetido (realizar_commit sin_colisiones repetido (some fa)).1
realizar_commit-Igual_example =
    realizar_commit-Igual sin_colisiones repetido (codes "f") (codes "a") repetido-Distingue
      repetido-IndiceFiel repetido-Alineado

-- "g":"a" has block 3, whose content is that of block 1 in the index, and "g":"b" is a tag of it.
abbrev dos_iguales : Storage
dos_iguales = record repetido {
  tags =
      (ruta (codes "g") (codes "a"), directorio_de_tres)
      ∷ (ruta (codes "g") (codes "b"), directorio_de_tres)
      ∷ [];
}

-- The commit of "g":"a" frees block 3, which "g":"b" is still linked to.
se_libera_con_enlace :
    let u = (realizar_commit sin_colisiones dos_iguales (some (codes "g", codes "a"))).1 in
    (enlace u (ruta (codes "g") (codes "b")) 0 ≡ some 3) × (test_bit u 3 ≡ false)
unfolding formatear_fs recrear_bmap crear_initial_file crear_file truncar_file truncar_abierto
    agrandar achicar rehacer escribir_bloque escribir_en escribir_fisico indice_valido mover_enlace
    cambiar_bloque sobrescribir rellenar leer_bloque leer_rellenado poner_directorio es_vacia ruta
    es_protegido config_de enlace test_bit bloques_de guardar enlazar desenlazar poner_enlace
    poner_en nlink enlaces veces poner_fisico cambiar ocupar desocupar persistir_bitmap
    verificar_si_commited es_commited bloque_libre bloque_libre_desde cantidad_bloques dentro_de
    igual_sin_caja minuscula dictionary_get dictionary_put str_eq realizar_commit evitar_duplicidad
    dedup_desde dedup_bloque conservar calcular_md5_por_bloque reasignar soltar_bit tag_file
    copiar_tag
se_libera_con_enlace = (refl, refl)
