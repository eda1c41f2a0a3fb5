-- ===== src/Worker/Memoria/Bien/Inicio.antt =====
-- worker/src/memoria.c: `crear_memoria` makes a memory in order, and a flush keeps it so.
use tp_2025_2c_kernel_panic.Prelude.{
  ℕ, zero, suc, ◌/◌, ◌<◌, ◌≡◌, refl, sym, ap, ◌∙◌, [], ◌∷◌, ◌++◌, true, Cadena, All-map, length,
  arith,
}
use tp_2025_2c_kernel_panic.Utils.Protocolo.{storage_flush}
use tp_2025_2c_kernel_panic.Utils.Paquete.Enteros.{bytes_de_int}
use tp_2025_2c_kernel_panic.Worker.Memoria.Estado.{
  MemoriaInterna, clave_file_tag, crear_memoria, crear_marcos, crear_clock_m,
}
use tp_2025_2c_kernel_panic.Worker.Memoria.Paginas.{tabla_de, con_nulo, flush_paginas_modificadas}
use tp_2025_2c_kernel_panic.Worker.Memoria.Paginas.Flush.{
  Limpio, modificadas, en_paquete, flush_paginas_modificadas-Limpio,
}
use tp_2025_2c_kernel_panic.Worker.Memoria.Bien.{IsBien, Viva, clave_de, libre_de}
use tp_2025_2c_kernel_panic.Worker.Memoria.Bien.Sigue.{Sigue-IsBien, flush_tabla-Sigue}
use tp_2025_2c_kernel_panic.Worker.Memoria.Bien.Acceso.{tabla_de-Bien}

length-crear_marcos : (n i : ℕ) → length (crear_marcos n i) ≡ n
unfolding crear_marcos
length-crear_marcos zero i = refl
length-crear_marcos (suc n) i = ap suc (length-crear_marcos n (suc i))

libre-crear_marcos :
    (n i j : ℕ) → j < length (crear_marcos n i) → libre_de (crear_marcos n i) j ≡ true
unfolding crear_marcos
libre-crear_marcos zero i j h = absurd (omega arith)
libre-crear_marcos (suc n) i zero h = refl
libre-crear_marcos (suc n) i (suc j) h = libre-crear_marcos n (suc i) j (omega arith)

-- A memory of at least one page is in order when it is created.
pub crear_memoria-IsBien :
    (tam_memoria : ℕ) (algoritmo_str : Cadena) (block_size : ℕ)
    → 0 < tam_memoria / block_size
    → IsBien (crear_memoria tam_memoria algoritmo_str block_size)
unfolding crear_memoria crear_clock_m
crear_memoria-IsBien tam_memoria algoritmo_str block_size h =
    let n = tam_memoria / block_size in
    (
      record {
        ocupados = λ i k l. let e = sym l ∙ libre-crear_marcos n 0 i k in absurd cc;
        lru_viva = tt;
        lru_distinta = tt;
        sin_lru = λ e. refl;
        tablas_bien = tt;
        claves = tt;
      },
      sym (length-crear_marcos n 0),
      h,
    )

-- On a memory in order, the packet of `flush_paginas_modificadas` holds the id, the file and the tag,
-- then the number and the content of each modified page of the file, in the order of its table, then
-- their count. Afterwards no page of the file is modified, nothing else of the pages, the frames and the
-- arena changed, and the memory is in order.
pub flush_paginas_modificadas-IsBien :
    (mem : MemoriaInterna) (query_id : ℕ) (file t : Cadena)
    → IsBien mem
    → let (mensaje, u) = flush_paginas_modificadas mem query_id file t in
      let paginas = modificadas mem (tabla_de mem file t) in
      (mensaje ≡ record {
        codigo = storage_flush;
        valores =
            bytes_de_int query_id
            ∷ con_nulo file
            ∷ con_nulo t
            ∷ (en_paquete mem paginas ++ bytes_de_int (length paginas) ∷ []);
      })
      × Limpio mem (tabla_de mem file t) u
      × IsBien u
unfolding flush_paginas_modificadas
flush_paginas_modificadas-IsBien mem query_id file t c =
    let (vivas, distintas) = tabla_de-Bien mem file t c in
    let dentro =
      All-map
        (λ p. Viva mem.entradas mem.marcos p × (clave_de mem.entradas p ≡ clave_file_tag file t))
        (λ p. p < length mem.entradas) (λ p w. w.0.0) (tabla_de mem file t) vivas in
    let (mensaje, limpio) =
      flush_paginas_modificadas-Limpio mem query_id file t (dentro, distintas) in
    (
      mensaje,
      limpio,
      Sigue-IsBien mem (flush_paginas_modificadas mem query_id file t).1
          (flush_tabla-Sigue mem (tabla_de mem file t)) c,
    )
