-- ===== src/Storage/Sano/Servidor.antt =====
-- storage/src/servidorMultihilo.c and storage/src/storage.c: a storage that was formatted is in order, and
-- stays so while no commit is asked for.
use tp_2025_2c_kernel_panic.Prelude.{
  ℕ, zero, suc, ◌+◌, ◌*◌, ◌/◌, ◌%◌, ◌≤◌, ◌≡◌, refl, sym, ◌∙◌, subst, inl, inr, List, [], ◌∷◌, none,
  some, true, false, Cadena, str_eq, codes, get_or, length-set, length-replicate, replicate,
  if◌then◌else◌, Bool-cases, decrement, ◌==◌, ==_iff, All, arith,
}
use tp_2025_2c_kernel_panic.Prelude.Diccionario.{dictionary_get}
use tp_2025_2c_kernel_panic.Storage.Disco.{
  Storage, ruta, enlace, ocupar, persistir_bitmap, poner_fisico, cambiar, cantidad_bloques,
}
use tp_2025_2c_kernel_panic.Storage.Inicio.{recrear_bmap, crear_initial_file, formatear_fs}
use tp_2025_2c_kernel_panic.Storage.Servidor.{
  Pedido, get_block_size, create_file, truncate, tag, commit, flush, read_block, write_block,
  delete, desconocida, responder, atender, atender_todos, rutina_operaciones,
}
use tp_2025_2c_kernel_panic.Storage.Sano.{IsSano}
use tp_2025_2c_kernel_panic.Storage.Sano.Archivos.{
  crear_file-IsSano, truncar_file-IsSano, tag_file-IsSano, eliminar_file_tag-IsSano,
}
use tp_2025_2c_kernel_panic.Storage.Sano.Escritura.{escribir_bloque-IsSano, flush_archivo-IsSano}

-- Any request but a commit.
abbrev pub SinCommit : Pedido → Type 0
SinCommit get_block_size = Unit
SinCommit (create_file p) = Unit
SinCommit (truncate p) = Unit
SinCommit (tag p) = Unit
SinCommit (commit p) = ⊥
SinCommit (flush p) = Unit
SinCommit (read_block p) = Unit
SinCommit (write_block p) = Unit
SinCommit (delete p) = Unit
SinCommit desconocida = Unit

module _ (crypto_md5 : List ℕ → Cadena) where
  -- Every request but a commit keeps the file system in order, whether it succeeds or fails: each
  -- physical block that some logical block is linked to exists, and its bit is set (but for block 0).
  pub atender-IsSano :
      (s : Storage) (p : Pedido) → SinCommit p → IsSano s → IsSano (atender crypto_md5 s p).1
  unfolding atender responder
  atender-IsSano s get_block_size u h = h
  atender-IsSano s (create_file p) u h = crear_file-IsSano s p h
  atender-IsSano s (truncate p) u h = truncar_file-IsSano s p h
  atender-IsSano s (tag p) u h = tag_file-IsSano s p h
  atender-IsSano s (commit p) u h = absurd u
  atender-IsSano s (flush p) u h = flush_archivo-IsSano s p h
  atender-IsSano s (read_block p) u h = h
  atender-IsSano s (write_block p) u h = escribir_bloque-IsSano s p h
  atender-IsSano s (delete p) u h = eliminar_file_tag-IsSano s p h
  atender-IsSano s desconocida u h = h

  atender_todos-IsSano :
      (ps : List Pedido) (s : Storage)
      → All SinCommit ps
      → IsSano s
      → IsSano (atender_todos crypto_md5 s ps).1
  unfolding atender_todos
  atender_todos-IsSano [] s u h = h
  atender_todos-IsSano (p ∷ ps) s u h = atender_todos-IsSano ps _ u.1 (atender-IsSano s p u.0 h)

-- The bits of the bitmap reach the last block.
bits-alcanzan : (n : ℕ) → n ≤ (n / 8 + (if n % 8 == 0 then 0 else 1)) * 8
bits-alcanzan n = elim (Bool-cases (n % 8 == 0)) [
  | inl b ↦ let e : n % 8 ≡ 0 = (==_iff (n % 8) 0).0 b in rw b (omega (arith, e))
  | inr b ↦ rw b (omega arith)
]

-- The only link is that of initial_file:BASE.
inicial-enlace : (i n : ℕ) (r : Cadena) (s : Storage) → enlace (formatear_fs s) r i ≡ some n → n ≡ 0
unfolding formatear_fs recrear_bmap crear_initial_file ocupar persistir_bitmap poner_fisico enlace
    dictionary_get
inicial-enlace i n r s e =
    elim (Bool-cases (str_eq (ruta (codes "initial_file") (codes "BASE")) r)) [
      | inl b ↦ primero i n (rw (b, enlace, dictionary_get) at e)
      | inr b ↦ let f : none ≡ some n = rw (b, enlace, dictionary_get) at e in absurd cc
    ]
  where
    primero : (i n : ℕ) → get_or (some 0 ∷ []) i none ≡ some n → n ≡ 0
    primero zero n e = cc
    primero (suc i) n e = absurd cc

-- A storage that was just formatted is in order.
pub formatear_fs-IsSano : (s : Storage) → IsSano (formatear_fs s)
unfolding formatear_fs recrear_bmap crear_initial_file ocupar persistir_bitmap poner_fisico cambiar
    cantidad_bloques
formatear_fs-IsSano s = record {
  bueno = λ n (r, i, e).
      let cero : n ≡ 0 = inicial-enlace i n r s e in
      ((λ ne. absurd (ne cero)), (replicate s.tamanio_bloque b'0', (rw cero refl)));
  cabe =
      let n = cantidad_bloques s in
      let bits = (n / 8 + (if n % 8 == 0 then 0 else 1)) * 8 in
      subst (λ x. n ≤ x)
        (sym (length-set (replicate bits false) 0 true ∙ length-replicate bits false))
        (bits-alcanzan n);
}

-- From the format on, whatever requests without a commit a worker sends, the file system is in order: each
-- physical block that some logical block is linked to exists, and its bit is set (but for block 0).
pub rutina_operaciones-IsSano :
    (crypto_md5 : List ℕ → Cadena) (s : Storage) (ps : List Pedido)
    → All SinCommit ps
    → IsSano (rutina_operaciones crypto_md5 (formatear_fs s) (some ps)).1
unfolding rutina_operaciones enlace
rutina_operaciones-IsSano crypto_md5 s ps u =
    menos_un_worker _
      (atender_todos-IsSano crypto_md5 ps (formatear_fs s) u (formatear_fs-IsSano s))
  where
    menos_un_worker :
        (t : Storage)
        → IsSano t
        → IsSano (record t { cantidad_workers = decrement t.cantidad_workers })
    menos_un_worker t h = record { bueno = h.bueno; cabe = h.cabe }
