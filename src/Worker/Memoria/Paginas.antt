-- ===== src/Worker/Memoria/Paginas.antt =====
-- worker/src/memoria.c: looking pages up, and flushing the modified ones.
pub mod MarcoLibre
pub mod Flush
use mathlib.Core.Option
use tp_2025_2c_kernel_panic.Prelude.{
  ℕ, zero, suc, ◌+◌, ◌*◌, ◌%◌, List, [], ◌∷◌, ◌++◌, Option, none, some, Bool, true, false, not,
  ◌&&◌, get_or, get_elem?, set, take, if◌then◌else◌, Cadena, ◌==◌, ℤ, pos_part, leb, length,
}
use tp_2025_2c_kernel_panic.Utils.Protocolo.{
  OpCode, codigo, storage_read_block, storage_send_ok_read_block, storage_flush,
}
use tp_2025_2c_kernel_panic.Utils.Paquete.Enteros.{bytes_de_int, int_de_bytes}
use tp_2025_2c_kernel_panic.Worker.Memoria.Estado.{
  AlgoritmoReemplazo, lru, clock_m, EntradaPagina, Marco, ClockM, MemoriaInterna, Mensaje, Sistema,
  entrada_vacia, marco_vacio, entrada_en, clave_file_tag, dictionary_get, dictionary_put,
  dictionary_remove, leer_bytes, escribir_bytes,
}
use tp_2025_2c_kernel_panic.Worker.Memoria.Clock.{marco_libre_desde, elegir_victima}

-- `list_find(tabla, es_pagina)`: the first address whose entry has the page number.
unfoldable pub buscar_numero : List EntradaPagina → ℕ → List ℕ → Option ℕ
buscar_numero entradas num_pagina [] = none
buscar_numero entradas num_pagina (p ∷ ps) =
    if (get_or entradas p entrada_vacia).numero_pagina == num_pagina
    then some p
    else buscar_numero entradas num_pagina ps

-- `list_remove_element` and the `list_remove_by_condition` of `misma_entrada`: the list without
-- the first occurrence of the address.
unfoldable pub quitar : ℕ → List ℕ → List ℕ
quitar p [] = []
quitar p (q ∷ qs) = if q == p then qs else q ∷ quitar p qs

unfoldable pub es_lru : AlgoritmoReemplazo → Bool
es_lru lru = true
es_lru clock_m = false

-- What `buscar_pagina` writes into the entry that it found, and into the LRU list.
unfoldable pub tocar : ℕ → MemoriaInterna → ℕ → MemoriaInterna
unfolding es_lru quitar
tocar reloj mem p = record mem {
  entradas = set mem.entradas p (record e { ultimo_acceso = reloj; bit_referencia = true });
  lru_list =
      if es_lru mem.algoritmo_reemplazo then quitar p mem.lru_list ++ p ∷ [] else mem.lru_list;
}
  where
    e : EntradaPagina
    e = entrada_en mem p

-- The table of "file:tag", empty when there is none: the callers that find no table do what they do
-- on an empty one.
unfoldable pub tabla_de : MemoriaInterna → Cadena → Cadena → List ℕ
tabla_de mem file tag = elim (dictionary_get mem.tablas_paginas (clave_file_tag file tag)) [
  | none ↦ []
  | some tabla ↦ tabla
]

-- `buscar_pagina`: the address of the entry, or NULL.
unfoldable pub buscar_pagina : ℕ → MemoriaInterna → Cadena → Cadena → ℕ → Option ℕ × MemoriaInterna
buscar_pagina reloj mem file tag num_pagina =
    elim (buscar_numero mem.entradas num_pagina (tabla_de mem file tag)) [
      | none ↦ (none, mem)
      | some p ↦ (some p, tocar reloj mem p)
    ]

-- The loop of `encontrar_marco_libre` from frame `i` on; `none` is -1.
unfoldable pub libre_desde : ℕ → List Marco → Option ℕ
libre_desde i [] = none
libre_desde i (m ∷ ms) = if m.libre then some i else libre_desde (suc i) ms

unfoldable pub encontrar_marco_libre : MemoriaInterna → Option ℕ
unfolding libre_desde
encontrar_marco_libre mem = libre_desde 0 mem.marcos

-- The reset of a flushed page.
unfoldable pub limpiar : MemoriaInterna → ℕ → MemoriaInterna
unfolding es_lru
limpiar mem p = record mem {
  entradas = set mem.entradas p (record e { modificada = false });
  clock =
      if es_lru mem.algoritmo_reemplazo
      then mem.clock
      else record c { bits_modificados = set c.bits_modificados e.marco false };
}
  where
    e : EntradaPagina
    e = entrada_en mem p

    c : ClockM
    c = mem.clock

-- The loop of `flush_paginas_modificadas`: the values added to the packet, the count, and the
-- memory with the pages reset.
unfoldable pub flush_tabla : MemoriaInterna → List ℕ → List (List ℕ) × ℕ × MemoriaInterna
flush_tabla mem [] = ([], 0, mem)
flush_tabla mem (p ∷ ps) =
    let e = entrada_en mem p in
    let contenido = leer_bytes mem.memory_arena (e.marco * mem.tamanio_pagina) mem.tamanio_pagina in
    let (valores, cantidad, m) = flush_tabla (if e.modificada then limpiar mem p else mem) ps in
    if e.modificada
    then (bytes_de_int e.numero_pagina ∷ contenido ∷ valores, suc cantidad, m)
    else (valores, cantidad, m)

-- A string in a packet goes with its NUL.
abbrev pub con_nulo : Cadena → List ℕ
con_nulo s = s ++ 0 ∷ []

-- `flush_paginas_modificadas`: the packet for the storage, and the memory.
unfoldable pub flush_paginas_modificadas :
    MemoriaInterna → ℕ → Cadena → Cadena → Mensaje × MemoriaInterna
unfolding tabla_de
flush_paginas_modificadas mem query_id file tag =
    let (paginas, cantidad, m) = flush_tabla mem (tabla_de mem file tag) in
    (
      record {
        codigo = storage_flush;
        valores =
            bytes_de_int query_id
            ∷ con_nulo file
            ∷ con_nulo tag
            ∷ (paginas ++ bytes_de_int cantidad ∷ []);
      },
      m,
    )
