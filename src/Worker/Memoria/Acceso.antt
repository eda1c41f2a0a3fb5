-- ===== src/Worker/Memoria/Acceso.antt =====
-- worker/src/memoria.c, `acceder_memoria`: reads and writes that may span pages.
pub mod Trozos
pub mod Copia
pub mod Fallos
use tp_2025_2c_kernel_panic.Prelude.{
  not, ℕ, zero, suc, ◌+◌, ◌-◌, ◌*◌, ◌/◌, ◌%◌, List, [], ◌∷◌, ◌++◌, Option, none, some, Bool, true,
  false, ◌||◌, set, take, drop, if◌then◌else◌, Cadena, ◌==◌, ltb, leb, length,
}
use tp_2025_2c_kernel_panic.Utils.Protocolo.{
  OpCode, worker_error_tamanio_escritura_excedido, worker_error_tamanio_lectura_excedido,
}
use tp_2025_2c_kernel_panic.Utils.Paquete.Enteros.{bytes_de_int}
use tp_2025_2c_kernel_panic.Worker.Memoria.Estado.{
  EntradaPagina, ClockM, MemoriaInterna, Mensaje, Sistema, entrada_en, leer_bytes, escribir_bytes,
}
use tp_2025_2c_kernel_panic.Worker.Memoria.Paginas.{es_lru, buscar_pagina, con_nulo}
use tp_2025_2c_kernel_panic.Worker.Memoria.Reemplazo.{cargar_pagina}

-- What the interpreter asks for: a read, or a write of the bytes of `memoria_contexto->contenido`.
pub data Acceso : Type 0 where
  lectura : Acceso
  escritura : List ℕ → Acceso

-- What `acceder_memoria` returns: the buffer of a read, `(void*)1`, or NULL. The last is a
-- loop that ran out of rounds.
pub data Resultado : Type 0 where
  leido : List ℕ → Resultado
  escrito : Resultado
  fallo : Resultado
  sin_vueltas : Resultado

-- What a round gets for its page: the entry, a load that failed, or an entry that is not found
-- although the load answered a frame.
pub data Pagina : Type 0 where
  hallada : ℕ → Pagina
  sin_cargar : Pagina
  perdida : Pagina

abbrev pub hallada_o_perdida : Option ℕ → Pagina
hallada_o_perdida none = perdida
hallada_o_perdida (some p) = hallada p

-- The bytes of the next page that the access takes.
unfoldable pub bytes_en_pagina : ℕ → ℕ → ℕ → ℕ
bytes_en_pagina tamanio_pagina despl restantes =
    if ltb tamanio_pagina (despl + restantes) then tamanio_pagina - despl else restantes

-- The marks on the page before it is used.
unfoldable pub marcar : MemoriaInterna → ℕ → Bool → MemoriaInterna
unfolding es_lru
marcar mem p es_escritura = record mem {
  clock = if es_lru mem.algoritmo_reemplazo then mem.clock else record c {
    bits_referencia = set c.bits_referencia e.marco true;
    bits_modificados =
        if es_escritura then set c.bits_modificados e.marco true else c.bits_modificados;
  };
  entradas =
      if es_escritura then set mem.entradas p (record e { modificada = true }) else mem.entradas;
}
  where
    e : EntradaPagina
    e = entrada_en mem p

    c : ClockM
    c = mem.clock

-- The `memcpy` of one round, at `procesados` bytes of the access: the bytes read, and the memory.
unfoldable pub copiar : MemoriaInterna → Acceso → ℕ → ℕ → ℕ → ℕ → List ℕ × MemoriaInterna
copiar mem lectura p despl n procesados =
    (leer_bytes mem.memory_arena ((entrada_en mem p).marco * mem.tamanio_pagina + despl) n, mem)
copiar mem (escritura contenido) p despl n procesados = (
  [],
  record mem {
    memory_arena =
        escribir_bytes mem.memory_arena ((entrada_en mem p).marco * mem.tamanio_pagina + despl)
          (take n (drop procesados contenido));
  },
)

abbrev pub es_escritura : Acceso → Bool
es_escritura lectura = false
es_escritura (escritura contenido) = true

module _ {R : Type 0} (atender : R → Mensaje → Option (List (List ℕ)) × R) where
  -- The entry of the page: found, or loaded and then found.
  unfoldable pub obtener_pagina : Sistema R → ℕ → Cadena → Cadena → ℕ → Pagina × Sistema R
  obtener_pagina s query_id file tag pagina =
      let (primera, mem) = buscar_pagina s.reloj s.mem file tag pagina in
      elim primera [
        | some p ↦ (hallada p, record s { mem = mem })
        | none ↦
            let (marco, t) =
              cargar_pagina atender (record s { mem = mem }) query_id file tag pagina in
            let (segunda, mem') = buscar_pagina t.reloj t.mem file tag pagina in
            elim marco [
              | none ↦ (sin_cargar, t)
              | some m ↦ (hallada_o_perdida segunda, record t { mem = mem' })
            ]
      ]

  -- The error branch of the loop: the packet to the master, and the flag that ends the
  -- interpreter's cycle.
  unfoldable pub avisar_error : Sistema R → ℕ → Cadena → Cadena → Bool → Sistema R
  avisar_error s query_id file tag escribe = record s {
    error_storage = true;
    al_master =
        s.al_master
        ++ record {
          codigo =
              if escribe
              then worker_error_tamanio_escritura_excedido
              else worker_error_tamanio_lectura_excedido;
          valores = bytes_de_int query_id ∷ con_nulo file ∷ con_nulo tag ∷ [];
        }
          ∷ [];
  }

  -- One round on the page that was found.
  unfoldable pub usar_pagina : Sistema R → Acceso → ℕ → ℕ → ℕ → ℕ → List ℕ × Sistema R
  unfolding marcar copiar
  usar_pagina s acceso p despl n procesados =
      let (bytes, mem) =
        copiar (marcar s.mem p (es_escritura acceso)) acceso p despl n procesados in
      (bytes, record s { mem = mem })

  abbrev pub terminar : Acceso → List ℕ → Resultado
  terminar lectura buffer = leido buffer
  terminar (escritura contenido) buffer = escrito

  -- The `while` of `acceder_memoria`; the first argument counts the rounds.
  unfoldable pub acceder_desde :
      ℕ
      → Sistema R
      → ℕ
      → Cadena
      → Cadena
      → Acceso
      → ℕ
      → ℕ
      → ℕ
      → ℕ
      → ℕ
      → List ℕ
      → Resultado × Sistema R
  acceder_desde zero s query_id file tag acceso pagina final despl restantes procesados buffer =
      if (restantes == 0) || ltb final pagina then (terminar acceso buffer, s) else (sin_vueltas, s)
  acceder_desde (suc n) s query_id file tag acceso pagina final despl restantes procesados buffer =
      let k = bytes_en_pagina s.mem.tamanio_pagina despl restantes in
      let (obtenida, t) = obtener_pagina s query_id file tag pagina in
      elim ((restantes == 0) || ltb final pagina) [
        | true ↦ (terminar acceso buffer, s)
        | false ↦ elim obtenida [
          | sin_cargar ↦ (fallo, avisar_error t query_id file tag (es_escritura acceso))
          | perdida ↦ (fallo, t)
          | hallada p ↦
              let (bytes, u) = usar_pagina t acceso p despl k procesados in
              acceder_desde n u query_id file tag acceso (suc pagina) final 0 (restantes - k)
                (procesados + k) (buffer ++ bytes)
        ]
      ]

  -- `acceder_memoria`, at an offset that is not negative. `malloc` says of which sizes a buffer is given; a
  -- read needs one of its whole size, and when there is none it returns NULL at once.
  unfoldable pub acceder_memoria :
      (ℕ → Bool) → Sistema R → ℕ → Cadena → Cadena → ℕ → ℕ → Acceso → Resultado × Sistema R
  acceder_memoria malloc s query_id file tag offset tam acceso =
      let t = s.mem.tamanio_pagina in
      if (tam == 0) || not (es_escritura acceso || malloc tam)
      then (fallo, s)
      else acceder_desde (suc ((offset + tam - 1) / t - offset / t)) s query_id file tag acceso
          (offset / t) ((offset + tam - 1) / t) (offset % t) tam 0 []
