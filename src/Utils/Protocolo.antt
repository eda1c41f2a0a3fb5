-- ===== src/Utils/Protocolo.antt =====
-- utils/include/protocolo.h: the operation codes, and the numbers that the enum gives them.
use tp_2025_2c_kernel_panic.Prelude.{ℕ, ◌≡◌, refl, List, [], ◌∷◌, some, get_elem?}

pub data OpCode : Type 0 where
  qc_handshake worker_handshake worker_interruption_handshake storage_handshake query_request :
      OpCode
  query_response_read query_response_end query_response_error_archivo_no_encontrado : OpCode
  query_response_error_archivo_query_no_encontrado query_response_error_worker_desconectado : OpCode
  query_response_error_error_en_instruccion query_response_error_modificar_commit : OpCode
  query_response_error_tamanio_escritura_excedido query_response_error_tamanio_lectura_excedido :
      OpCode
  query_error_create query_error_truncate query_error_write_en_storage : OpCode
  query_error_read_en_storage query_error_tag query_error_commit query_error_delete : OpCode
  query_error_flush worker_assign_query worker_desalojo retener_worker : OpCode
  worker_query_desconectado worker_id worker_pc_update worker_read_result worker_query_end : OpCode
  worker_id_interrupt worker_error_instruccion_malformada worker_error_modificar_commit : OpCode
  worker_error_tamanio_escritura_excedido worker_error_tamanio_lectura_excedido : OpCode
  worker_error_direccion_invalida worker_error_query_no_encontrada worker_error_create : OpCode
  worker_error_truncate worker_error_write_en_storage worker_error_read_en_storage : OpCode
  worker_error_tag worker_error_commit worker_error_delete worker_error_flush : OpCode
  storage_get_block_size storage_create_file storage_read_block storage_write_block : OpCode
  storage_response storage_send_block_size storage_truncate storage_tag storage_commit : OpCode
  storage_flush storage_delete storage_send_ok_get_block_size storage_send_ok_create_file : OpCode
  storage_send_ok_read_block storage_send_ok_write_block storage_send_ok_truncate : OpCode
  storage_send_ok_tag storage_send_ok_commit storage_send_ok_delete storage_send_ok_flush : OpCode
  storage_send_error_get_block_size storage_send_error_create_file : OpCode
  storage_send_error_read_block storage_send_error_write_block storage_send_error_truncate : OpCode
  storage_send_error_tag storage_send_error_commit storage_send_error_delete : OpCode
  storage_send_error_flush : OpCode

-- The value of each enumerator: they are numbered from 0 in the order of the declaration.
unfoldable pub codigo : OpCode → ℕ
codigo qc_handshake = 0
codigo worker_handshake = 1
codigo worker_interruption_handshake = 2
codigo storage_handshake = 3
codigo query_request = 4
codigo query_response_read = 5
codigo query_response_end = 6
codigo query_response_error_archivo_no_encontrado = 7
codigo query_response_error_archivo_query_no_encontrado = 8
codigo query_response_error_worker_desconectado = 9
codigo query_response_error_error_en_instruccion = 10
codigo query_response_error_modificar_commit = 11
codigo query_response_error_tamanio_escritura_excedido = 12
codigo query_response_error_tamanio_lectura_excedido = 13
codigo query_error_create = 14
codigo query_error_truncate = 15
codigo query_error_write_en_storage = 16
codigo query_error_read_en_storage = 17
codigo query_error_tag = 18
codigo query_error_commit = 19
codigo query_error_delete = 20
codigo query_error_flush = 21
codigo worker_assign_query = 22
codigo worker_desalojo = 23
codigo retener_worker = 24
codigo worker_query_desconectado = 25
codigo worker_id = 26
codigo worker_pc_update = 27
codigo worker_read_result = 28
codigo worker_query_end = 29
codigo worker_id_interrupt = 30
codigo worker_error_instruccion_malformada = 31
codigo worker_error_modificar_commit = 32
codigo worker_error_tamanio_escritura_excedido = 33
codigo worker_error_tamanio_lectura_excedido = 34
codigo worker_error_direccion_invalida = 35
codigo worker_error_query_no_encontrada = 36
codigo worker_error_create = 37
codigo worker_error_truncate = 38
codigo worker_error_write_en_storage = 39
codigo worker_error_read_en_storage = 40
codigo worker_error_tag = 41
codigo worker_error_commit = 42
codigo worker_error_delete = 43
codigo worker_error_flush = 44
codigo storage_get_block_size = 45
codigo storage_create_file = 46
codigo storage_read_block = 47
codigo storage_write_block = 48
codigo storage_response = 49
codigo storage_send_block_size = 50
codigo storage_truncate = 51
codigo storage_tag = 52
codigo storage_commit = 53
codigo storage_flush = 54
codigo storage_delete = 55
codigo storage_send_ok_get_block_size = 56
codigo storage_send_ok_create_file = 57
codigo storage_send_ok_read_block = 58
codigo storage_send_ok_write_block = 59
codigo storage_send_ok_truncate = 60
codigo storage_send_ok_tag = 61
codigo storage_send_ok_commit = 62
codigo storage_send_ok_delete = 63
codigo storage_send_ok_flush = 64
codigo storage_send_error_get_block_size = 65
codigo storage_send_error_create_file = 66
codigo storage_send_error_read_block = 67
codigo storage_send_error_write_block = 68
codigo storage_send_error_truncate = 69
codigo storage_send_error_tag = 70
codigo storage_send_error_commit = 71
codigo storage_send_error_delete = 72
codigo storage_send_error_flush = 73

-- The enumerators in order.
abbrev pub op_codes : List OpCode
op_codes =
    qc_handshake ∷ worker_handshake ∷ worker_interruption_handshake ∷ storage_handshake
    ∷ query_request ∷ query_response_read ∷ query_response_end
    ∷ query_response_error_archivo_no_encontrado ∷ query_response_error_archivo_query_no_encontrado
    ∷ query_response_error_worker_desconectado ∷ query_response_error_error_en_instruccion
    ∷ query_response_error_modificar_commit ∷ query_response_error_tamanio_escritura_excedido
    ∷ query_response_error_tamanio_lectura_excedido ∷ query_error_create ∷ query_error_truncate
    ∷ query_error_write_en_storage ∷ query_error_read_en_storage ∷ query_error_tag
    ∷ query_error_commit ∷ query_error_delete ∷ query_error_flush ∷ worker_assign_query
    ∷ worker_desalojo ∷ retener_worker ∷ worker_query_desconectado ∷ worker_id ∷ worker_pc_update
    ∷ worker_read_result ∷ worker_query_end ∷ worker_id_interrupt
    ∷ worker_error_instruccion_malformada ∷ worker_error_modificar_commit
    ∷ worker_error_tamanio_escritura_excedido ∷ worker_error_tamanio_lectura_excedido
    ∷ worker_error_direccion_invalida ∷ worker_error_query_no_encontrada ∷ worker_error_create
    ∷ worker_error_truncate ∷ worker_error_write_en_storage ∷ worker_error_read_en_storage
    ∷ worker_error_tag ∷ worker_error_commit ∷ worker_error_delete ∷ worker_error_flush
    ∷ storage_get_block_size ∷ storage_create_file ∷ storage_read_block ∷ storage_write_block
    ∷ storage_response ∷ storage_send_block_size ∷ storage_truncate ∷ storage_tag ∷ storage_commit
    ∷ storage_flush ∷ storage_delete ∷ storage_send_ok_get_block_size ∷ storage_send_ok_create_file
    ∷ storage_send_ok_read_block ∷ storage_send_ok_write_block ∷ storage_send_ok_truncate
    ∷ storage_send_ok_tag ∷ storage_send_ok_commit ∷ storage_send_ok_delete ∷ storage_send_ok_flush
    ∷ storage_send_error_get_block_size ∷ storage_send_error_create_file
    ∷ storage_send_error_read_block ∷ storage_send_error_write_block ∷ storage_send_error_truncate
    ∷ storage_send_error_tag ∷ storage_send_error_commit ∷ storage_send_error_delete
    ∷ storage_send_error_flush ∷ []

-- The number of a code is its place in the enum.
pub get_elem?-codigo : (c : OpCode) → get_elem? op_codes (codigo c) ≡ some c
unfolding codigo
get_elem?-codigo qc_handshake = refl
get_elem?-codigo _ = refl
