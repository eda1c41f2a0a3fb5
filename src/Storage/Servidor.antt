-- ===== src/Storage/Servidor.antt =====
-- storage/src/servidorMultihilo.c: the operations that a worker asks for, and what it is answered.
use tp_2025_2c_kernel_panic.Prelude.{
  ℕ, List, [], ◌∷◌, Option, none, some, Bool, Cadena, if◌then◌else◌, ℤ, increment, decrement,
}
use tp_2025_2c_kernel_panic.Utils.Protocolo.{
  OpCode, storage_send_block_size, storage_send_ok_create_file, storage_send_error_create_file,
  storage_send_ok_truncate, storage_send_error_truncate, storage_send_ok_tag,
  storage_send_error_tag, storage_send_ok_commit, storage_send_error_commit, storage_send_ok_flush,
  storage_send_error_flush, storage_send_ok_read_block, storage_send_error_read_block,
  storage_send_ok_write_block, storage_send_error_write_block, storage_send_ok_delete,
  storage_send_error_delete,
}
use tp_2025_2c_kernel_panic.Utils.Paquete.Enteros.{bytes_de_int}
use tp_2025_2c_kernel_panic.Storage.Disco.{Storage}
use tp_2025_2c_kernel_panic.Storage.Archivos.{crear_file, truncar_file, tag_file, eliminar_file_tag}
use tp_2025_2c_kernel_panic.Storage.Escritura.{leer_bloque, escribir_bloque}
use tp_2025_2c_kernel_panic.Storage.Commit.{realizar_commit}
use tp_2025_2c_kernel_panic.Storage.Flush.{flush_archivo}

-- A packet from a worker: its operation, with the values that the operation reads.
pub data Pedido : Type 0 where
  get_block_size : Pedido
  create_file : Option (Cadena × Cadena) → Pedido
  truncate : Option (Cadena × Cadena × ℕ) → Pedido
  tag : Option ((Cadena × Cadena) × (Cadena × Cadena)) → Pedido
  commit : Option (Cadena × Cadena) → Pedido
  flush : Option ((Cadena × Cadena) × ℕ × List (ℤ × List ℕ)) → Pedido
  read_block : Option (Cadena × Cadena × ℤ) → Pedido
  write_block : Option ((Cadena × Cadena) × ℤ × List ℕ) → Pedido
  delete : Option (Cadena × Cadena) → Pedido
  desconocida : Pedido

-- A packet to the worker.
abbrev pub Respuesta : Type 0
Respuesta = OpCode × List (List ℕ)

-- The answer to an operation of which only the Boolean is sent.
unfoldable pub responder : OpCode → OpCode → Bool × Storage → Option Respuesta × Storage
responder ok error (b, s) = (some (if b then ok else error, []), s)

unfoldable pub responder_lectura : Option (List ℕ) → Respuesta
responder_lectura none = (storage_send_error_read_block, [])
responder_lectura (some contenido) = (storage_send_ok_read_block, contenido ∷ [])

module _ (crypto_md5 : List ℕ → Cadena) where
  -- The `switch` of `rutina_operaciones`; an unknown operation is not answered.
  unfoldable pub atender : Storage → Pedido → Option Respuesta × Storage
  unfolding responder responder_lectura crear_file truncar_file tag_file realizar_commit
      flush_archivo leer_bloque escribir_bloque eliminar_file_tag
  atender s get_block_size = (some (storage_send_block_size, bytes_de_int s.tamanio_bloque ∷ []), s)
  atender s (create_file p) =
      responder storage_send_ok_create_file storage_send_error_create_file (crear_file s p)
  atender s (truncate p) =
      responder storage_send_ok_truncate storage_send_error_truncate (truncar_file s p)
  atender s (tag p) = responder storage_send_ok_tag storage_send_error_tag (tag_file s p)
  atender s (commit p) =
      responder storage_send_ok_commit storage_send_error_commit (realizar_commit crypto_md5 s p)
  atender s (flush p) = responder storage_send_ok_flush storage_send_error_flush (flush_archivo s p)
  atender s (read_block p) = (some (responder_lectura (leer_bloque s p)), s)
  atender s (write_block p) =
      responder storage_send_ok_write_block storage_send_error_write_block (escribir_bloque s p)
  atender s (delete p) =
      responder storage_send_ok_delete storage_send_error_delete (eliminar_file_tag s p)
  atender s desconocida = (none, s)

  -- The loop of `rutina_operaciones`, over the packets until the worker disconnects.
  unfoldable pub atender_todos : Storage → List Pedido → List (Option Respuesta) × Storage
  unfolding atender
  atender_todos s [] = ([], s)
  atender_todos s (p ∷ ps) =
      let (r, t) = atender s p in let (rs, u) = atender_todos t ps in (r ∷ rs, u)

  -- `rutina_operaciones` on a connection: the handshake, which may be anything but must come
  -- (`none` is NULL), the packets, and the worker less at the end.
  unfoldable pub rutina_operaciones :
      Storage → Option (List Pedido) → List (Option Respuesta) × Storage
  unfolding atender_todos
  rutina_operaciones s none = ([], record s { cantidad_workers = decrement s.cantidad_workers })
  rutina_operaciones s (some pedidos) =
      let (rs, t) = atender_todos s pedidos in
      (rs, record t { cantidad_workers = decrement t.cantidad_workers })

-- What `rutina_recepcion` counts for a worker that sent its id.
unfoldable pub contar_worker : Storage → Storage
contar_worker s = record s { cantidad_workers = increment s.cantidad_workers }
