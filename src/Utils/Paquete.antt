-- ===== src/Utils/Paquete.antt =====
-- utils/src/paquete.c: building, serialising and receiving packets.
pub mod Enteros
pub mod IdaYVuelta
pub mod Cortado
use tp_2025_2c_kernel_panic.Prelude.{
  ℕ, zero, suc, ◌+◌, ◌-◌, ◌*◌, ◌/◌, ◌%◌, ◌^◌, List, [], ◌∷◌, ◌++◌, Option, none, some, Bool, true,
  false, length, take, drop, ltb, leb, ◌==◌, if◌then◌else◌, ◌||◌, ℤ, pos, negsuc, pos_part,
}
use Enteros.{bytes_de_int, int_de_bytes, es_negativo}

-- `t_buffer`: `stream` holds `size` bytes.
pub record Buffer : Type 0 where
  pub size : ℕ
  pub stream : List ℕ

-- `t_paquete`
pub record Paquete : Type 0 where
  pub codigo_operacion : ℕ
  pub buffer : Buffer

unfoldable pub crear_buffer : Buffer
crear_buffer = record { size = 0; stream = [] }

unfoldable pub crear_paquete : ℕ → Buffer → Paquete
crear_paquete code buffer = record { codigo_operacion = code; buffer = buffer }

-- The stream grows by the size of the datum and the datum. The `int` additions wrap.
unfoldable pub agregar_a_paquete : Paquete → List ℕ → Paquete
agregar_a_paquete packet stream = record packet {
  buffer = record {
    size = (packet.buffer.size + length stream + 4) % 2 ^ 32;
    stream = packet.buffer.stream ++ (bytes_de_int (length stream) ++ stream);
  };
}

-- The code, the size and the stream. `memcpy` copies `size` bytes of it.
unfoldable pub bytes_de_paquete : Paquete → List ℕ
bytes_de_paquete paquete =
    bytes_de_int paquete.codigo_operacion
    ++ (bytes_de_int paquete.buffer.size ++ take paquete.buffer.size paquete.buffer.stream)

-- `serializar_paquete` into a buffer of `bytes`; `none` is NULL. `malloc` says of which sizes a buffer is given.
unfoldable pub serializar_paquete : (ℕ → Bool) → Paquete → ℕ → Option (List ℕ)
unfolding bytes_de_paquete
serializar_paquete malloc paquete bytes =
    if malloc bytes then some (bytes_de_paquete paquete) else none

-- What a receive does: it delivers the code and the values and leaves the rest of the
-- bytes, it returns NULL, or it reads bytes that are not there (undefined in C).
pub data Recepcion : Type 0 where
  recibido : ℕ → List (List ℕ) → List ℕ → Recepcion
  nulo : Recepcion
  indefinido : Recepcion

-- The loop `while (desplazamiento < size)`, over the bytes that are left of the buffer. The fuel
-- is the number of rounds.
unfoldable pub separar_valores : ℕ → List ℕ → Option (List (List ℕ))
separar_valores fuel [] = some []
separar_valores zero (b ∷ bs) = none
separar_valores (suc fuel) (b ∷ bs) =
    let tamanio = int_de_bytes (take 4 (b ∷ bs)) in
    let resto = drop 4 (b ∷ bs) in
    let siguientes = separar_valores fuel (drop tamanio resto) in
    if ltb (length (b ∷ bs)) 4
    then none
    else if es_negativo tamanio
    then none
    else if ltb (length resto) tamanio
    then none
    else elim siguientes [ none ↦ none | some valores ↦ some (take tamanio resto ∷ valores) ]

-- What `recibir_buffer` leaves: the size and the buffer with the bytes that follow, `*size = -1`,
-- or a size read from an `int` that was filled in part only.
pub data Lectura : Type 0 where
  leido : ℕ → List ℕ → List ℕ → Lectura
  fallo : Lectura
  parcial : Lectura

-- `recibir_buffer`, on the bytes that arrive until the peer closes.
unfoldable pub recibir_buffer : List ℕ → Lectura
recibir_buffer bytes =
    let size = int_de_bytes (take 4 bytes) in
    let resto = drop 4 bytes in
    if length bytes == 0
    then fallo
    else if ltb (length bytes) 4
    then parcial
    else if es_negativo size || (size == 0)
    then leido size [] resto
    else if ltb (length resto) size
    then fallo
    else leido size (take size resto) (drop size resto)

-- The `if` and the loop that follow in `recibir_paquete`. A round takes four bytes at least, so
-- `size` rounds are enough.
unfoldable pub valores_de : ℕ → Lectura → Recepcion
valores_de cod_op fallo = nulo
valores_de cod_op parcial = indefinido
valores_de cod_op (leido size buffer resto) =
    if es_negativo size then nulo else elim (separar_valores size buffer) [
      | none ↦ indefinido
      | some valores ↦ recibido cod_op valores resto
    ]

-- `recibir_paquete`: with no byte at all `recv` returns 0; with one to three the code is read
-- from an `int` that was not filled.
unfoldable pub recibir_paquete : List ℕ → Recepcion
unfolding valores_de recibir_buffer
recibir_paquete bytes =
    if length bytes == 0
    then nulo
    else if ltb (length bytes) 4
    then indefinido
    else valores_de (int_de_bytes (take 4 bytes)) (recibir_buffer (drop 4 bytes))

-- What `malloc` is asked for: the `int` sum of the size and the 8 bytes of the header, as a `size_t`.
unfoldable pub bytes_a_enviar : ℕ → ℕ
bytes_a_enviar size =
    let bytes = (size + 8) % 2 ^ 32 in
    if es_negativo bytes then bytes + (2 ^ 64 - 2 ^ 32) else bytes

-- `enviar_paquete`, given what `send` returns: the result, and the buffer handed to `send`.
unfoldable pub enviar_paquete : (ℕ → Bool) → Paquete → ℤ → ℤ × Option (List ℕ)
unfolding bytes_a_enviar serializar_paquete
enviar_paquete malloc paquete resultado = (
  if leb (pos_part resultado) 0 then negsuc 0 else pos 0,
  serializar_paquete malloc paquete (bytes_a_enviar paquete.buffer.size),
)
