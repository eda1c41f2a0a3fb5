-- ===== src/Tests/Memoria.antt =====
-- worker/src/memoria.c on a memory of two frames of four bytes.
use tp_2025_2c_kernel_panic.Prelude.{
  leb, ◌||◌, ℕ, zero, suc, ◌<◌, inl, inr, Esta, ◌⊎◌, ◌≡◌, ◌≢◌, refl, List, [], ◌∷◌, ◌++◌, Option,
  none, some, Bool, true, false, codes, str_eq, pos, take, drop, length, arith,
}
use tp_2025_2c_kernel_panic.Utils.Protocolo.{codigo, storage_flush, storage_send_ok_read_block}
use tp_2025_2c_kernel_panic.Utils.Paquete.Enteros.{bytes_de_int}
use tp_2025_2c_kernel_panic.Worker.Memoria.Estado.{
  lru, EntradaPagina, ClockM, MemoriaInterna, Mensaje, Sistema, clave_file_tag, dictionary_get,
  crear_memoria, crear_marcos,
}
use tp_2025_2c_kernel_panic.Worker.Memoria.Clock.{buscar_circular, segunda_vuelta, elegir_victima}
use tp_2025_2c_kernel_panic.Worker.Memoria.Clock.Victima.{Elige, elegir_victima-Elige}
use tp_2025_2c_kernel_panic.Worker.Memoria.Paginas.{
  es_lru, quitar, buscar_numero, tocar, buscar_pagina, tabla_de, con_nulo,
  flush_paginas_modificadas, encontrar_marco_libre,
}
use tp_2025_2c_kernel_panic.Worker.Memoria.Reemplazo.{conseguir_marco}
use tp_2025_2c_kernel_panic.Worker.Memoria.Paginas.MarcoLibre.{
  PrimerLibre, encontrar_marco_libre-PrimerLibre,
}
use tp_2025_2c_kernel_panic.Worker.Memoria.Paginas.Flush.{Limpio, modificadas, en_paquete}
use tp_2025_2c_kernel_panic.Worker.Memoria.Bien.{IsBien, Viva, marco_de}
use tp_2025_2c_kernel_panic.Worker.Memoria.Bien.Lru.{AlFinal, buscar_pagina-AlFinal}
use tp_2025_2c_kernel_panic.Worker.Memoria.Acceso.Fallos.{Avisado, acceder_memoria-Avisado}
use tp_2025_2c_kernel_panic.Worker.Memoria.Bien.Largo.{Leida, acceder_memoria-Leida}
use tp_2025_2c_kernel_panic.Worker.Memoria.Bien.Inicio.{
  crear_memoria-IsBien, flush_paginas_modificadas-IsBien,
}
use tp_2025_2c_kernel_panic.Worker.Memoria.Bien.Carga.{Conseguido, conseguir_marco-Conseguido}
use tp_2025_2c_kernel_panic.Worker.Memoria.Bien.Acceso.{acceder_memoria-IsBien}
use tp_2025_2c_kernel_panic.Worker.Memoria.Acceso.{
  lectura, escritura, copiar, fallo, sin_vueltas, acceder_memoria,
}
use tp_2025_2c_kernel_panic.Worker.Memoria.Acceso.Trozos.{acceder_memoria-sin_vueltas}
use tp_2025_2c_kernel_panic.Worker.Memoria.Acceso.Copia.{copiar-copiar, copiar-copiar_ajena}

abbrev reloj_de_tres : ClockM
reloj_de_tres = record {
  puntero = 1;
  cantidad_marcos = 3;
  bits_referencia = true ∷ true ∷ false ∷ [];
  bits_modificados = false ∷ false ∷ true ∷ [];
}

elegir_victima-Elige_example : Elige reloj_de_tres (elegir_victima reloj_de_tres).0
elegir_victima-Elige_example = elegir_victima-Elige reloj_de_tres (omega arith)

-- The victim is frame 2: it is modified only.
elige_dos : (elegir_victima reloj_de_tres).0 ≡ some 2
unfolding elegir_victima buscar_circular segunda_vuelta
elige_dos = refl

abbrev pagina_de : ℕ → Bool → EntradaPagina
pagina_de n modificada = record {
  file = codes "a";
  tag = codes "v";
  numero_pagina = n;
  marco = n;
  modificada = modificada;
  ultimo_acceso = 0;
  bit_referencia = true;
}

abbrev memoria_de_dos : MemoriaInterna
memoria_de_dos = record {
  tamanio_memoria = 8;
  tamanio_pagina = 4;
  cantidad_marcos = 2;
  algoritmo_reemplazo = lru;
  memory_arena = 1 ∷ 2 ∷ 3 ∷ 4 ∷ 5 ∷ 6 ∷ 7 ∷ 8 ∷ [];
  marcos =
      record { numero_marco = 0; libre = false; entrada_pagina = some 0 }
      ∷ record { numero_marco = 1; libre = false; entrada_pagina = some 1 }
      ∷ [];
  lru_list = 0 ∷ 1 ∷ [];
  clock = record {
    puntero = 0;
    cantidad_marcos = 2;
    bits_referencia = true ∷ true ∷ [];
    bits_modificados = false ∷ true ∷ [];
  };
  tablas_paginas = (codes "a:v", 0 ∷ 1 ∷ []) ∷ [];
  entradas = pagina_de 0 false ∷ pagina_de 1 true ∷ [];
  socket_storage = pos 5;
  tmp_bloque = none;
}

encontrar_marco_libre-PrimerLibre_example :
    PrimerLibre 0 memoria_de_dos.marcos (encontrar_marco_libre memoria_de_dos)
encontrar_marco_libre-PrimerLibre_example = encontrar_marco_libre-PrimerLibre memoria_de_dos

-- A storage that does not answer.
abbrev mudo : Unit {0} → Mensaje → Option (List (List ℕ)) × Unit {0}
mudo r mensaje = (none, tt)

abbrev sistema_de_dos : Sistema (Unit {0})
sistema_de_dos = record {
  mem = memoria_de_dos;
  remoto = tt;
  reloj = 9;
  error_storage = false;
  al_master = [];
  detras = λ k. 0;
}

-- Buffers of up to 100 bytes.
abbrev hay_lugar : ℕ → Bool
hay_lugar n = leb n 100

acceder_memoria-sin_vueltas_example :
    (acceder_memoria mudo hay_lugar sistema_de_dos 3 (codes "a") (codes "v") 2 4 lectura).0
    ≢ sin_vueltas
acceder_memoria-sin_vueltas_example =
    acceder_memoria-sin_vueltas mudo hay_lugar sistema_de_dos 3 (codes "a") (codes "v") 2 4 lectura

copiar-copiar_example :
    (copiar (copiar memoria_de_dos (escritura (9 ∷ 8 ∷ [])) 1 2 2 0).1 lectura 1 2 2 0).0
    ≡ take 2 (drop 0 (9 ∷ 8 ∷ []))
copiar-copiar_example =
    copiar-copiar memoria_de_dos (9 ∷ 8 ∷ []) 1 2 2 0 0 (omega arith, omega arith)

copiar-copiar_ajena_example :
    (copiar (copiar memoria_de_dos (escritura (9 ∷ 8 ∷ [])) 1 2 2 0).1 lectura 0 0 4 0).0
    ≡ (copiar memoria_de_dos lectura 0 0 4 0).0
copiar-copiar_ajena_example =
    copiar-copiar_ajena memoria_de_dos (9 ∷ 8 ∷ []) 1 0 2 2 0 0 4 0 (λ e. omega arith) (omega arith)
      (omega arith)

-- A memory of two frames, and a storage of one block.
creada-IsBien : IsBien (crear_memoria 8 (codes "LRU") 4)
creada-IsBien = crear_memoria-IsBien 8 (codes "LRU") 4 (omega arith)

crear_memoria-IsBien_example : IsBien (crear_memoria 8 (codes "LRU") 4)
crear_memoria-IsBien_example = crear_memoria-IsBien 8 (codes "LRU") 4 (omega arith)

abbrev bloques : Unit {0} → Mensaje → Option (List (List ℕ)) × Unit {0}
bloques r mensaje =
    (some (bytes_de_int (codigo storage_send_ok_read_block) ∷ (7 ∷ 7 ∷ 7 ∷ 7 ∷ []) ∷ []), tt)

abbrev recien : Sistema (Unit {0})
recien = record {
  mem = crear_memoria 8 (codes "LRU") 4;
  remoto = tt;
  reloj = 9;
  error_storage = false;
  al_master = [];
  detras = λ k. 0;
}

abbrev escrita : MemoriaInterna
escrita =
    (acceder_memoria bloques hay_lugar recien 3 (codes "a") (codes "v") 2 4
      (escritura (9 ∷ 8 ∷ 7 ∷ 6 ∷ []))).1.mem

escrita-IsBien : IsBien escrita
escrita-IsBien =
    acceder_memoria-IsBien bloques hay_lugar recien 3 (codes "a") (codes "v") 2 4
      (escritura (9 ∷ 8 ∷ 7 ∷ 6 ∷ [])) creada-IsBien

acceder_memoria-IsBien_example :
    IsBien
      (acceder_memoria bloques hay_lugar recien 3
        (codes "a")
        (codes "v")
        2
        4
        (escritura (9 ∷ 8 ∷ 7 ∷ 6 ∷ []))).1.mem
acceder_memoria-IsBien_example =
    acceder_memoria-IsBien bloques hay_lugar recien 3 (codes "a") (codes "v") 2 4
      (escritura (9 ∷ 8 ∷ 7 ∷ 6 ∷ [])) creada-IsBien

conseguir_marco-Conseguido_example :
    Conseguido bloques (conseguir_marco bloques (record recien { mem = escrita }) 3)
conseguir_marco-Conseguido_example =
    conseguir_marco-Conseguido bloques (record recien { mem = escrita }) 3 escrita-IsBien

flush_paginas_modificadas-IsBien_example :
    let (mensaje, u) = flush_paginas_modificadas escrita 3 (codes "a") (codes "v") in
    let paginas = modificadas escrita (tabla_de escrita (codes "a") (codes "v")) in
    (mensaje ≡ record {
      codigo = storage_flush;
      valores =
          bytes_de_int 3
          ∷ con_nulo (codes "a")
          ∷ con_nulo (codes "v")
          ∷ (en_paquete escrita paginas ++ bytes_de_int (length paginas) ∷ []);
    })
    × Limpio escrita (tabla_de escrita (codes "a") (codes "v")) u
    × IsBien u
flush_paginas_modificadas-IsBien_example =
    flush_paginas_modificadas-IsBien escrita 3 (codes "a") (codes "v") escrita-IsBien

acceder_memoria-Leida_example :
    Leida 6 (acceder_memoria bloques hay_lugar recien 3 (codes "a") (codes "v") 1 6 lectura).0
unfolding crear_memoria crear_marcos
acceder_memoria-Leida_example =
    acceder_memoria-Leida bloques hay_lugar recien 3 (codes "a") (codes "v") 1 6 creada-IsBien
      (omega arith) (omega arith)

acceder_memoria-Avisado_example :
    let r = acceder_memoria mudo hay_lugar sistema_de_dos 3 (codes "a") (codes "w") 2 4 lectura in
    ((false ≡ false) × (hay_lugar 4 ≡ false) × (r ≡ (fallo, sistema_de_dos)))
    ⊎ ((false || hay_lugar 4) ≡ true)
      × ((r.0 ≢ fallo) ⊎ Avisado mudo 3 (codes "a") (codes "w") false r.1)
acceder_memoria-Avisado_example =
    acceder_memoria-Avisado mudo hay_lugar sistema_de_dos 3 (codes "a") (codes "w") 2 4 lectura
      (λ e. omega arith)

primera_cargada : Viva memoria_de_dos.entradas memoria_de_dos.marcos 0
primera_cargada = (omega arith, omega arith, refl, refl)

segunda_cargada : Viva memoria_de_dos.entradas memoria_de_dos.marcos 1
segunda_cargada = (omega arith, omega arith, refl, refl)

ocupados_de_dos :
    (i : ℕ)
    → i < 2
    → (p : ℕ) × Viva memoria_de_dos.entradas memoria_de_dos.marcos p
      × (marco_de memoria_de_dos.entradas p ≡ i)
      × Esta p memoria_de_dos.lru_list
ocupados_de_dos zero h = (0, primera_cargada, refl, inl refl)
ocupados_de_dos (suc zero) h = (1, segunda_cargada, refl, inr (inl refl))
ocupados_de_dos (suc (suc i)) h = absurd (omega arith)

memoria_de_dos-IsBien : IsBien memoria_de_dos
unfolding clave_file_tag es_lru
memoria_de_dos-IsBien = (
  record {
    ocupados = λ i h l. let (p, v, e, k) = ocupados_de_dos i h in (p, v, e, λ z. k);
    lru_viva = (primera_cargada, (segunda_cargada, tt));
    lru_distinta = (((λ e. omega arith), tt), (tt, tt));
    sin_lru = λ e. cc;
    tablas_bien = (
      (
        ((primera_cargada, refl), ((segunda_cargada, refl), tt)),
        (((λ e. omega arith), tt), (tt, tt)),
      ),
      tt,
    );
    claves = (tt, tt);
  },
  refl,
  omega arith,
)

buscar_pagina-AlFinal_example :
    AlFinal 9 memoria_de_dos
      (codes "a")
      (codes "v")
      0
      (buscar_pagina 9 memoria_de_dos (codes "a") (codes "v") 0)
unfolding es_lru
buscar_pagina-AlFinal_example =
    buscar_pagina-AlFinal 9 memoria_de_dos (codes "a") (codes "v") 0 memoria_de_dos-IsBien refl

-- Page 0 is found, and goes behind page 1.
va_al_final : (buscar_pagina 9 memoria_de_dos (codes "a") (codes "v") 0).1.lru_list ≡ 1 ∷ 0 ∷ []
unfolding buscar_pagina buscar_numero tabla_de clave_file_tag dictionary_get str_eq tocar quitar
    es_lru
va_al_final = refl
