-- ===== src/Worker/Memoria/Reemplazo.antt =====
-- worker/src/memoria.c: evicting a page, asking the storage for a block, and loading a page.
use mathlib.Core.Option
use tp_2025_2c_kernel_panic.Prelude.{
  zero, suc, ◌-◌, ℕ, ◌+◌, ◌*◌, ◌%◌, List, [], ◌∷◌, ◌++◌, Option, none, some, Bool, true, false,
  get_or, set, take, if◌then◌else◌, Cadena, ◌==◌, pos_part, leb, length,
}
use tp_2025_2c_kernel_panic.Utils.Protocolo.{codigo, storage_read_block, storage_send_ok_read_block}
use tp_2025_2c_kernel_panic.Utils.Paquete.Enteros.{bytes_de_int, int_de_bytes}
use tp_2025_2c_kernel_panic.Worker.Memoria.Estado.{
  EntradaPagina, Marco, ClockM, MemoriaInterna, Mensaje, Sistema, marco_vacio, entrada_en,
  clave_file_tag, dictionary_get, dictionary_put, dictionary_remove, escribir_bytes,
}
use tp_2025_2c_kernel_panic.Worker.Memoria.Clock.{marco_libre_desde, elegir_victima}
use tp_2025_2c_kernel_panic.Worker.Memoria.Paginas.{
  es_lru, quitar, tabla_de, encontrar_marco_libre, con_nulo, flush_paginas_modificadas,
}

-- The end of a replacement: the entry leaves its table, the table goes if it is empty, and the
-- frame is free.
unfoldable pub desalojar : MemoriaInterna → ℕ → ℕ → MemoriaInterna
unfolding quitar
desalojar mem victima marco = record mem {
  tablas_paginas = elim (dictionary_get mem.tablas_paginas clave) [
    | none ↦ mem.tablas_paginas
    | some tabla ↦ elim (quitar victima tabla) [
      | [] ↦ dictionary_remove mem.tablas_paginas clave
      | q ∷ qs ↦ dictionary_put mem.tablas_paginas clave (q ∷ qs)
    ]
  ];
  marcos = set mem.marcos marco (record m { libre = true; entrada_pagina = none });
}
  where
    clave : Cadena
    clave = clave_file_tag (entrada_en mem victima).file (entrada_en mem victima).tag

    m : Marco
    m = get_or mem.marcos marco marco_vacio

-- Bytes from the `k`-th on of what lies behind.
unfoldable pub bytes_detras : (ℕ → ℕ) → ℕ → ℕ → List ℕ
bytes_detras detras k zero = []
bytes_detras detras k (suc n) = detras k ∷ bytes_detras detras (suc k) n

-- What `memcpy` of `n` bytes reads from where a payload starts.
unfoldable pub memcpy_desde : (ℕ → ℕ) → ℕ → List ℕ → List ℕ
unfolding bytes_detras
memcpy_desde detras n contenido = take n contenido ++ bytes_detras detras 0 (n - length contenido)

-- The other end of the storage socket: a packet in, the values of the response (`none` is NULL)
-- out. `atender` is the storage process.
module _ {R : Type 0} (atender : R → Mensaje → Option (List (List ℕ)) × R) where
  -- The flush of a victim that was modified. The response is read and thrown away.
  unfoldable pub flush_por_swap : Sistema R → ℕ → ℕ → Sistema R
  flush_por_swap s query_id victima =
      let e = entrada_en s.mem victima in
      let (mensaje, m) = flush_paginas_modificadas s.mem query_id e.file e.tag in
      if e.modificada then record s { mem = m; remoto = (atender s.remoto mensaje).1 } else s

  -- `aplicar_lru`: with an empty list it answers frame 0 and frees nothing.
  unfoldable pub aplicar_lru : Sistema R → ℕ → ℕ × Sistema R
  aplicar_lru s query_id = elim s.mem.lru_list [
    | [] ↦ (0, s)
    | victima ∷ resto ↦
        let marco_victima = (entrada_en s.mem victima).marco in
        let mem = s.mem in
        let t =
          flush_por_swap (record s { mem = record mem { lru_list = resto } }) query_id victima in
        (marco_victima, record t { mem = desalojar t.mem victima marco_victima })
  ]

  -- The end of `aplicar_clock_m`, at the frame that was chosen: the entry of the frame is flushed
  -- and evicted, and both bits of the frame are reset. `none` for an entry is a NULL that the code
  -- would read; here nothing happens then.
  unfoldable pub desalojar_clock : Sistema R → ℕ → ℕ → Sistema R
  desalojar_clock s query_id marco = elim (get_or s.mem.marcos marco marco_vacio).entrada_pagina [
    | none ↦ s
    | some victima ↦
        let t = flush_por_swap s query_id victima in
        let mem = desalojar t.mem victima marco in
        let clock = mem.clock in
        record t {
          mem = record mem {
            clock = record clock {
              bits_referencia = set clock.bits_referencia marco false;
              bits_modificados = set clock.bits_modificados marco false;
            };
          };
        }
  ]

  -- `aplicar_clock_m`. The pointer moves behind the frame that is answered. `none` is an access to
  -- `marcos[-1]`.
  unfoldable pub aplicar_clock_m : Sistema R → ℕ → Option ℕ × Sistema R
  aplicar_clock_m s query_id =
      let mem = s.mem in
      let clock = mem.clock in
      let (victima, r) = elegir_victima clock in
      elim (marco_libre_desde clock mem.marcos) [
        | some idx ↦ (
          some idx,
          record s {
            mem = record mem {
              clock = record clock { puntero = (idx + 1) % clock.cantidad_marcos };
            };
          },
        )
        | none ↦ elim victima [
          | none ↦ (none, s)
          | some v ↦
              let c = record clock {
                puntero = (v + 1) % clock.cantidad_marcos;
                bits_referencia = r;
              } in
              (some v, desalojar_clock (record s { mem = record mem { clock = c } }) query_id v)
        ]
      ]

  -- What `pedir_bloque_storage` makes of the response: true for 0, false for -2. Of the block it
  -- copies the bytes of a page, past the end of a payload that is shorter.
  unfoldable pub recibir_bloque : Sistema R → Option (List (List ℕ)) → Bool × Sistema R
  unfolding memcpy_desde
  recibir_bloque s none = (false, s)
  recibir_bloque s (some []) = (false, s)
  recibir_bloque s (some (c ∷ [])) = (false, s)
  recibir_bloque s (some (c ∷ contenido ∷ resto)) =
      let mem = s.mem in
      if int_de_bytes c == codigo storage_send_ok_read_block
      then (
        true,
        record s {
          mem = record mem {
            tmp_bloque = some (memcpy_desde s.detras mem.tamanio_pagina contenido);
          };
        },
      )
      else (false, s)

  -- `pedir_bloque_storage`
  unfoldable pub pedir_bloque_storage : Sistema R → ℕ → Cadena → Cadena → ℕ → Bool × Sistema R
  unfolding recibir_bloque
  pedir_bloque_storage s query_id file tag num_pagina =
      let pedido : Mensaje = record {
        codigo = storage_read_block;
        valores =
            bytes_de_int query_id ∷ con_nulo file ∷ con_nulo tag ∷ bytes_de_int num_pagina ∷ [];
      } in
      let (respuesta, remoto) = atender s.remoto pedido in
      if leb (pos_part s.mem.socket_storage) 0
      then (false, s)
      else recibir_bloque (record s { remoto = remoto }) respuesta

  -- The part of `cargar_pagina` behind the load: the block goes to the frame, and a new entry to
  -- the frame, to the table and to the structure of the algorithm.
  unfoldable pub registrar : Sistema R → Cadena → Cadena → ℕ → ℕ → Sistema R
  unfolding es_lru
  registrar s file tag num_pagina marco = record s {
    mem = record mem {
      memory_arena =
          escribir_bytes mem.memory_arena (marco * mem.tamanio_pagina)
            (Option.get_or mem.tmp_bloque []);
      tmp_bloque = none;
      entradas = mem.entradas ++ nueva ∷ [];
      marcos = set mem.marcos marco (record m { libre = false; entrada_pagina = some p });
      tablas_paginas = dictionary_put mem.tablas_paginas clave (tabla_de mem file tag ++ p ∷ []);
      lru_list = if es_lru mem.algoritmo_reemplazo then mem.lru_list ++ p ∷ [] else mem.lru_list;
      clock = if es_lru mem.algoritmo_reemplazo then mem.clock else record c {
        bits_referencia = set c.bits_referencia marco true;
        bits_modificados = set c.bits_modificados marco false;
      };
    };
  }
    where
      mem : MemoriaInterna
      mem = s.mem

      p : ℕ
      p = length mem.entradas

      m : Marco
      m = get_or mem.marcos marco marco_vacio

      c : ClockM
      c = mem.clock

      clave : Cadena
      clave = clave_file_tag file tag

      nueva : EntradaPagina
      nueva = record {
        file = file;
        tag = tag;
        numero_pagina = num_pagina;
        marco = marco;
        modificada = false;
        ultimo_acceso = s.reloj;
        bit_referencia = true;
      }

  -- The frame that `cargar_pagina` uses: a free one, or that of a victim.
  unfoldable pub conseguir_marco : Sistema R → ℕ → Option ℕ × Sistema R
  unfolding encontrar_marco_libre es_lru
  conseguir_marco s query_id = elim (encontrar_marco_libre s.mem) [
    | some marco ↦ (some marco, s)
    | none ↦
        let (v, t) = aplicar_lru s query_id in
        if es_lru s.mem.algoritmo_reemplazo then (some v, t) else aplicar_clock_m s query_id
  ]

  -- `cargar_pagina`: the frame, or `none` for -1. The block is asked for after the eviction and
  -- before the page is registered.
  unfoldable pub cargar_pagina : Sistema R → ℕ → Cadena → Cadena → ℕ → Option ℕ × Sistema R
  unfolding conseguir_marco pedir_bloque_storage registrar
  cargar_pagina s query_id file tag num_pagina =
      let (marco, t) = conseguir_marco s query_id in
      let (llego, u) = pedir_bloque_storage t query_id file tag num_pagina in
      elim marco [
        | none ↦ (none, t)
        | some m ↦ if llego then (some m, registrar u file tag num_pagina m) else (none, u)
      ]
