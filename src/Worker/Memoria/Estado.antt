-- ===== src/Worker/Memoria/Estado.antt =====
-- worker/include/memoria.h and worker/include/tipos.h: the state of the internal memory.
-- A page entry is reached from its frame, from its table and from the LRU list: the three hold
-- its address in `entradas`, which grows by a place for each `malloc`. Nothing reads `libre`d
-- places: `free` has no effect here.
use tp_2025_2c_kernel_panic.Prelude.{
  ℕ, zero, suc, pos, List, [], ◌∷◌, ◌++◌, Option, none, Bool, true, false, Cadena, get_or, set,
  take, drop, str_eq, if◌then◌else◌, ℤ, codes, replicate, ◌/◌,
}
use tp_2025_2c_kernel_panic.Utils.Protocolo.{OpCode}
unfoldable pub use tp_2025_2c_kernel_panic.Prelude.Diccionario.{
  dictionary_get, dictionary_put, dictionary_remove,
}

pub data AlgoritmoReemplazo : Type 0 where
  lru clock_m : AlgoritmoReemplazo

-- `t_entrada_pagina`
pub record EntradaPagina : Type 0 where
  pub file : Cadena
  pub tag : Cadena
  pub numero_pagina : ℕ
  pub marco : ℕ
  pub modificada : Bool
  pub ultimo_acceso : ℕ
  pub bit_referencia : Bool

-- `t_marco`; `entrada_pagina` is an address, or NULL.
pub record Marco : Type 0 where
  pub numero_marco : ℕ
  pub libre : Bool
  pub entrada_pagina : Option ℕ

-- `t_clock_m`; its `marcos` are those of the memory.
pub record ClockM : Type 0 where
  pub puntero : ℕ
  pub cantidad_marcos : ℕ
  pub bits_referencia : List Bool
  pub bits_modificados : List Bool

-- `t_memoria_interna`. `entradas` is the heap of the entries; `tablas_paginas` is the dictionary
-- from "file:tag" to a list of addresses.
pub record MemoriaInterna : Type 0 where
  pub tamanio_memoria : ℕ
  pub tamanio_pagina : ℕ
  pub cantidad_marcos : ℕ
  pub algoritmo_reemplazo : AlgoritmoReemplazo
  pub memory_arena : List ℕ
  pub marcos : List Marco
  pub lru_list : List ℕ
  pub clock : ClockM
  pub tablas_paginas : List (Cadena × List ℕ)
  pub entradas : List EntradaPagina
  pub socket_storage : ℤ
  pub tmp_bloque : Option (List ℕ)

-- A packet between the worker and the storage: its code and its values as bytes.
pub record Mensaje : Type 0 where
  pub codigo : OpCode
  pub valores : List (List ℕ)

-- The memory beside what it reaches: the storage at the other end of the socket, the clock of
-- `time(NULL)`, the flag of `storage_error`, the packets sent to the master, and the bytes that lie in the
-- process behind what a packet brought, which nothing says anything of.
pub record Sistema (R : Type 0) : Type 0 where
  pub mem : MemoriaInterna
  pub remoto : R
  pub reloj : ℕ
  pub error_storage : Bool
  pub al_master : List Mensaje
  pub detras : ℕ → ℕ

-- What `malloc` leaves in an entry is written before it is read.
abbrev pub entrada_vacia : EntradaPagina
entrada_vacia = record {
  file = [];
  tag = [];
  numero_pagina = 0;
  marco = 0;
  modificada = false;
  ultimo_acceso = 0;
  bit_referencia = false;
}

abbrev pub marco_vacio : Marco
marco_vacio = record { numero_marco = 0; libre = false; entrada_pagina = none }

abbrev pub entrada_en : MemoriaInterna → ℕ → EntradaPagina
entrada_en mem p = get_or mem.entradas p entrada_vacia

-- `clave_file_tag`
unfoldable pub clave_file_tag : Cadena → Cadena → Cadena
clave_file_tag file tag = file ++ (b':' ∷ tag)

-- The bytes `[desde, desde + n)` of the arena.
abbrev pub leer_bytes : List ℕ → ℕ → ℕ → List ℕ
leer_bytes arena desde n = take n (drop desde arena)

-- `memcpy` of the bytes into the arena, from `desde` on.
unfoldable pub escribir_bytes : List ℕ → ℕ → List ℕ → List ℕ
escribir_bytes arena desde [] = arena
escribir_bytes arena desde (b ∷ bs) = escribir_bytes (set arena desde b) (suc desde) bs

-- `crear_clock_m`
unfoldable pub crear_clock_m : ℕ → ClockM
crear_clock_m cantidad_marcos = record {
  puntero = 0;
  cantidad_marcos = cantidad_marcos;
  bits_referencia = replicate cantidad_marcos false;
  bits_modificados = replicate cantidad_marcos false;
}

-- The loop of `crear_memoria` over the frames, from frame `i` on.
unfoldable pub crear_marcos : ℕ → ℕ → List Marco
crear_marcos zero i = []
crear_marcos (suc n) i =
    record { numero_marco = i; libre = true; entrada_pagina = none } ∷ crear_marcos n (suc i)

-- `crear_memoria`. The clock exists under both algorithms here; under LRU nothing reads it.
-- The socket is set later by the worker's `main`.
unfoldable pub crear_memoria : ℕ → Cadena → ℕ → MemoriaInterna
crear_memoria tam_memoria algoritmo_str block_size = record {
  tamanio_memoria = tam_memoria;
  tamanio_pagina = block_size;
  cantidad_marcos = tam_memoria / block_size;
  algoritmo_reemplazo = if str_eq algoritmo_str (codes "LRU") then lru else clock_m;
  memory_arena = replicate tam_memoria 0;
  marcos = crear_marcos (tam_memoria / block_size) 0;
  lru_list = [];
  clock = crear_clock_m (tam_memoria / block_size);
  tablas_paginas = [];
  entradas = [];
  socket_storage = pos 0;
  tmp_bloque = none;
}
