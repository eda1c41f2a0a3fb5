-- ===== src/Worker/Memoria/Bien/Acceso.antt =====
-- worker/src/memoria.c: `acceder_memoria` keeps the memory in order.
use tp_2025_2c_kernel_panic.Prelude.{
  not, ◌||◌, Bool, ℕ, zero, suc, ◌≡◌, inl, inr, refl, List, [], ◌∷◌, ◌++◌, Option, none, some, Bool,
  true, false, Bool-cases, Option-cases, Cadena, Esta, Esta-All, get_or, set, if◌then◌else◌, ◌==◌,
  ◌||◌, ltb,
}
use tp_2025_2c_kernel_panic.Worker.Memoria.Estado.{
  EntradaPagina, MemoriaInterna, Mensaje, Sistema, entrada_vacia, entrada_en, clave_file_tag,
  dictionary_get,
}
use tp_2025_2c_kernel_panic.Worker.Memoria.Paginas.{
  es_lru, buscar_numero, quitar, tocar, tabla_de, buscar_pagina,
}
use tp_2025_2c_kernel_panic.Worker.Memoria.Reemplazo.{cargar_pagina}
use tp_2025_2c_kernel_panic.Worker.Memoria.Acceso.{
  es_escritura, Acceso, marcar, copiar, es_escritura, obtener_pagina, usar_pagina, avisar_error,
  acceder_desde, acceder_memoria,
}
use tp_2025_2c_kernel_panic.Worker.Memoria.Acceso.Trozos.{Pagina-cases}
use tp_2025_2c_kernel_panic.Worker.Memoria.Bien.{Bien, IsBien, Viva, TablaBien, clave_de}
use tp_2025_2c_kernel_panic.Worker.Memoria.Bien.Diccionario.{dictionary_get-All}
use tp_2025_2c_kernel_panic.Worker.Memoria.Bien.Movimientos.{cambia_entradas, al_final_de_lru}
use tp_2025_2c_kernel_panic.Worker.Memoria.Bien.Sigue.{
  Sigue-IsBien, Mismas-set, marcar-Sigue, copiar-Sigue,
}
use tp_2025_2c_kernel_panic.Worker.Memoria.Bien.Carga.{cargar_pagina-IsBien}

-- The entry that is found stands in the table.
pub buscar_numero-Esta :
    (entradas : List EntradaPagina) (n : ℕ) (tabla : List ℕ) (p : ℕ)
    → buscar_numero entradas n tabla ≡ some p
    → Esta p tabla
unfolding buscar_numero
buscar_numero-Esta entradas n [] p e = cc
buscar_numero-Esta entradas n (q ∷ qs) p e =
    elim (Bool-cases ((get_or entradas q entrada_vacia).numero_pagina == n)) [
      | inl b ↦ let f : some q ≡ some p = rw b at e in let g : p ≡ q = cc in inl g
      | inr b ↦ inr (buscar_numero-Esta entradas n qs p (rw b at e))
    ]

pub tabla_de-Bien :
    (mem : MemoriaInterna) (file t : Cadena)
    → IsBien mem
    → TablaBien mem.entradas mem.marcos (clave_file_tag file t, tabla_de mem file t)
unfolding tabla_de
tabla_de-Bien mem file t c = segun (dictionary_get mem.tablas_paginas (clave_file_tag file t)) refl
  where
    segun :
        (r : Option (List ℕ))
        → dictionary_get mem.tablas_paginas (clave_file_tag file t) ≡ r
        → TablaBien mem.entradas mem.marcos
            (clave_file_tag file t, elim r [ none ↦ [] | some tabla ↦ tabla ])
    segun none e = (tt, tt)
    segun (some l) e =
        dictionary_get-All (TablaBien mem.entradas mem.marcos) mem.tablas_paginas
          (clave_file_tag file t) l c.0.tablas_bien e

tocar-IsBien :
    (reloj : ℕ) (mem : MemoriaInterna) (p : ℕ)
    → IsBien mem
    → Viva mem.entradas mem.marcos p
    → IsBien (tocar reloj mem p)
unfolding tocar
tocar-IsBien reloj mem p c v = (segun (es_lru mem.algoritmo_reemplazo) c.0, c.1, c.2)
  where
    tocadas : List EntradaPagina
    tocadas =
        set mem.entradas p
          (record (entrada_en mem p) { ultimo_acceso = reloj; bit_referencia = true })

    segun :
        (b : Bool)
        → Bien mem.entradas mem.marcos mem.lru_list mem.tablas_paginas b
        → Bien tocadas mem.marcos
            (if b then quitar p mem.lru_list ++ p ∷ [] else mem.lru_list)
            mem.tablas_paginas
            b
    segun true d =
        cambia_entradas mem.entradas tocadas (Mismas-set mem.entradas p _ refl refl) mem.marcos
          (al_final_de_lru p v d)
    segun false d =
        cambia_entradas mem.entradas tocadas (Mismas-set mem.entradas p _ refl refl) mem.marcos d

pub buscar_pagina-IsBien :
    (reloj : ℕ) (mem : MemoriaInterna) (file t : Cadena) (n : ℕ)
    → IsBien mem
    → IsBien (buscar_pagina reloj mem file t n).1
unfolding buscar_pagina
buscar_pagina-IsBien reloj mem file t n c =
    elim (Option-cases (buscar_numero mem.entradas n (tabla_de mem file t))) [
      | inl e ↦ rw (e, buscar_pagina) c
      | inr (p, e) ↦
          let esta = buscar_numero-Esta mem.entradas n (tabla_de mem file t) p e in
          let viva =
            Esta-All
              (λ q.
                Viva mem.entradas mem.marcos q × (clave_de mem.entradas q ≡ clave_file_tag file t))
              p (tabla_de mem file t) (tabla_de-Bien mem file t c).0 esta in
          rw (e, buscar_pagina) (tocar-IsBien reloj mem p c viva.0)
    ]

module _ {R : Type 0} (atender : R → Mensaje → Option (List (List ℕ)) × R) where
  pub obtener_pagina-IsBien :
      (s : Sistema R) (query_id : ℕ) (file t : Cadena) (pagina : ℕ)
      → IsBien s.mem
      → IsBien (obtener_pagina atender s query_id file t pagina).1.mem
  unfolding obtener_pagina
  obtener_pagina-IsBien s query_id file t pagina c =
      let r = buscar_pagina s.reloj s.mem file t pagina in
      let c' = buscar_pagina-IsBien s.reloj s.mem file t pagina c in
      let v = record s { mem = r.1 } in
      let u = cargar_pagina atender v query_id file t pagina in
      let d = cargar_pagina-IsBien atender v query_id file t pagina c' in
      elim (Option-cases r.0) [
        | inr (p, e) ↦ rw (e, obtener_pagina) c'
        | inl e ↦ elim (Option-cases u.0) [
          | inl f ↦ rw (e, f, obtener_pagina) d
          | inr (w, f) ↦
              rw (e, f, obtener_pagina) (buscar_pagina-IsBien u.1.reloj u.1.mem file t pagina d)
        ]
      ]

  pub usar_pagina-IsBien :
      (s : Sistema R) (acceso : Acceso) (p despl n procesados : ℕ)
      → IsBien s.mem
      → IsBien (usar_pagina atender s acceso p despl n procesados).1.mem
  unfolding usar_pagina
  usar_pagina-IsBien s acceso p despl n procesados c =
      let m = marcar s.mem p (es_escritura acceso) in
      Sigue-IsBien m (copiar m acceso p despl n procesados).1
        (copiar-Sigue m acceso p despl n procesados)
        (Sigue-IsBien s.mem m (marcar-Sigue s.mem p (es_escritura acceso)) c)

  acceder_desde-IsBien :
      (n : ℕ) (s : Sistema R) (query_id : ℕ) (file t : Cadena) (acceso : Acceso)
      (pagina final despl restantes procesados : ℕ) (buffer : List ℕ)
      → IsBien s.mem
      → IsBien
          (acceder_desde atender n s query_id file t acceso pagina final despl restantes procesados
            buffer).1.mem
  unfolding acceder_desde avisar_error
  acceder_desde-IsBien zero s query_id file t acceso pagina final despl restantes procesados buffer
        c =
      elim (Bool-cases ((restantes == 0) || ltb final pagina)) [
        | inl b ↦ rw (b, acceder_desde) c
        | inr b ↦ rw (b, acceder_desde) c
      ]
  acceder_desde-IsBien (suc n) s query_id file t acceso pagina final despl restantes procesados
        buffer c =
      let d = obtener_pagina-IsBien s query_id file t pagina c in
      elim (Bool-cases ((restantes == 0) || ltb final pagina)) [
        | inl b ↦ rw (b, acceder_desde) c
        | inr b ↦ elim (Pagina-cases (obtener_pagina atender s query_id file t pagina).0) [
          | inl e ↦ rw (b, e, acceder_desde) d
          | inr (inl e) ↦ rw (b, e, acceder_desde) d
          | inr (inr (p, e)) ↦
              rw (b, e, acceder_desde)
                (acceder_desde-IsBien n _ query_id file t acceso (suc pagina) final 0 _ _ _ (
                  usar_pagina-IsBien (obtener_pagina atender s query_id file t pagina).1 acceso p
                    despl _ procesados d))
        ]
      ]

  -- An access to a memory in order, whether it reads or writes, ends well or fails, and whatever the
  -- storage answers, leaves a memory in order: each frame that is taken holds a loaded entry that names the
  -- frame back, and under LRU stands in the list; the list and the tables hold loaded entries only, each
  -- once, a table those of its own file and tag; the pointer of the clock is on a frame.
  pub acceder_memoria-IsBien :
      (malloc : ℕ → Bool) (s : Sistema R) (query_id : ℕ) (file t : Cadena) (offset tam : ℕ)
      (acceso : Acceso)
      → IsBien s.mem
      → IsBien (acceder_memoria atender malloc s query_id file t offset tam acceso).1.mem
  unfolding acceder_memoria
  acceder_memoria-IsBien malloc s query_id file t offset tam acceso c =
      elim (Bool-cases ((tam == 0) || not (es_escritura acceso || malloc tam))) [
        | inl b ↦ rw (b, acceder_memoria) c
        | inr b ↦
            rw (b, acceder_memoria)
              (acceder_desde-IsBien _ s query_id file t acceso _ _ _ tam 0 [] c)
      ]
