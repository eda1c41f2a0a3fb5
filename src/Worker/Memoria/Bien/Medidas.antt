-- ===== src/Worker/Memoria/Bien/Medidas.antt =====
-- worker/src/memoria.c: the sizes of the memory, which no operation changes.
use tp_2025_2c_kernel_panic.Prelude.{
  ℕ, ◌≡◌, inl, inr, refl, ◌∙◌, List, [], ◌∷◌, Option, none, some, Bool, Bool-cases, Option-cases,
  Cadena, get_or, length, length-set, ◌==◌, leb, pos_part,
}
use tp_2025_2c_kernel_panic.Utils.Protocolo.{codigo, storage_send_ok_read_block}
use tp_2025_2c_kernel_panic.Utils.Paquete.Enteros.{int_de_bytes}
use tp_2025_2c_kernel_panic.Worker.Memoria.Estado.{
  MemoriaInterna, Mensaje, Sistema, entrada_en, marco_vacio,
}
use tp_2025_2c_kernel_panic.Worker.Memoria.Clock.{marco_libre_desde, elegir_victima}
use tp_2025_2c_kernel_panic.Worker.Memoria.Paginas.{
  es_lru, buscar_numero, tabla_de, tocar, buscar_pagina, encontrar_marco_libre, limpiar,
  flush_tabla, flush_paginas_modificadas,
}
use tp_2025_2c_kernel_panic.Worker.Memoria.Reemplazo.{
  flush_por_swap, desalojar, aplicar_lru, desalojar_clock, aplicar_clock_m, conseguir_marco,
  recibir_bloque, pedir_bloque_storage, registrar, cargar_pagina,
}
use tp_2025_2c_kernel_panic.Worker.Memoria.Acceso.{
  Acceso, lectura, escritura, marcar, copiar, usar_pagina, obtener_pagina,
}
use tp_2025_2c_kernel_panic.Worker.Memoria.Acceso.Copia.{length-escribir_bytes}
use tp_2025_2c_kernel_panic.Worker.Memoria.Bien.Sigue.{en_ambas}

abbrev pub Mide : MemoriaInterna → MemoriaInterna → Type 0
Mide m t =
    (t.tamanio_pagina ≡ m.tamanio_pagina)
    × (length t.memory_arena ≡ length m.memory_arena)
    × (length t.marcos ≡ length m.marcos)

Mide-trans : (a b c : MemoriaInterna) → Mide a b → Mide b c → Mide a c
Mide-trans a b c (h, k, l) (h', k', l') = (h' ∙ h, k' ∙ k, l' ∙ l)

flush_tabla-Mide : (mem : MemoriaInterna) (tabla : List ℕ) → Mide mem (flush_tabla mem tabla).2
unfolding flush_tabla limpiar
flush_tabla-Mide mem [] = (refl, refl, refl)
flush_tabla-Mide mem (p ∷ ps) = elim (Bool-cases (entrada_en mem p).modificada) [
  | inl b ↦ rw b (flush_tabla-Mide (limpiar mem p) ps)
  | inr b ↦ rw b (flush_tabla-Mide mem ps)
]

desalojar-Mide : (mem : MemoriaInterna) (p i : ℕ) → Mide mem (desalojar mem p i)
unfolding desalojar
desalojar-Mide mem p i = (refl, refl, length-set mem.marcos i _)

buscar_pagina-Mide :
    (reloj : ℕ) (mem : MemoriaInterna) (file t : Cadena) (n : ℕ)
    → Mide mem (buscar_pagina reloj mem file t n).1
unfolding buscar_pagina tocar
buscar_pagina-Mide reloj mem file t n =
    elim (Option-cases (buscar_numero mem.entradas n (tabla_de mem file t))) [
      | inl e ↦ rw (e, buscar_pagina) (refl, refl, refl)
      | inr (p, e) ↦ rw (e, buscar_pagina) (refl, refl, refl)
    ]

module _ {R : Type 0} (atender : R → Mensaje → Option (List (List ℕ)) × R) where
  flush_por_swap-Mide :
      (s : Sistema R) (query_id p : ℕ) → Mide s.mem (flush_por_swap atender s query_id p).mem
  unfolding flush_por_swap flush_paginas_modificadas
  flush_por_swap-Mide s query_id p = elim (Bool-cases (entrada_en s.mem p).modificada) [
    | inl b ↦ rw b (flush_tabla-Mide s.mem _)
    | inr b ↦ rw b (refl, refl, refl)
  ]

  aplicar_lru-Mide :
      (s : Sistema R) (query_id : ℕ) → Mide s.mem (aplicar_lru atender s query_id).1.mem
  unfolding aplicar_lru
  aplicar_lru-Mide s query_id = segun s.mem.lru_list refl
    where
      segun : (l : List ℕ) → s.mem.lru_list ≡ l → Mide s.mem (aplicar_lru atender s query_id).1.mem
      segun [] e = rw (e, aplicar_lru) (refl, refl, refl)
      segun (p ∷ ps) e =
          let mem = s.mem in
          let u =
            (flush_por_swap atender (record s { mem = record mem { lru_list = ps } }) query_id
              p).mem in
          rw (e, aplicar_lru)
            (Mide-trans mem u (desalojar u p (entrada_en mem p).marco)
              (flush_por_swap-Mide (record s { mem = record mem { lru_list = ps } }) query_id p)
              (desalojar-Mide u p (entrada_en mem p).marco))

  desalojar_clock-Mide :
      (s : Sistema R) (query_id v : ℕ) → Mide s.mem (desalojar_clock atender s query_id v).mem
  unfolding desalojar_clock
  desalojar_clock-Mide s query_id v =
      elim (Option-cases (get_or s.mem.marcos v marco_vacio).entrada_pagina) [
        | inl e ↦ rw (e, desalojar_clock) (refl, refl, refl)
        | inr (p, e) ↦
            let u = (flush_por_swap atender s query_id p).mem in
            rw (e, desalojar_clock)
              (Mide-trans s.mem u (desalojar u p v) (flush_por_swap-Mide s query_id p)
                (desalojar-Mide u p v))
      ]

  aplicar_clock_m-Mide :
      (s : Sistema R) (query_id : ℕ) → Mide s.mem (aplicar_clock_m atender s query_id).1.mem
  unfolding aplicar_clock_m
  aplicar_clock_m-Mide s query_id =
      elim (Option-cases (marco_libre_desde s.mem.clock s.mem.marcos)) [
        | inr (i, e) ↦ rw (e, aplicar_clock_m) (refl, refl, refl)
        | inl e ↦ elim (Option-cases (elegir_victima s.mem.clock).0) [
          | inl f ↦ rw (e, f, aplicar_clock_m) (refl, refl, refl)
          | inr (v, f) ↦ rw (e, f, aplicar_clock_m) (desalojar_clock-Mide _ query_id v)
        ]
      ]

  conseguir_marco-Mide :
      (s : Sistema R) (query_id : ℕ) → Mide s.mem (conseguir_marco atender s query_id).1.mem
  unfolding conseguir_marco
  conseguir_marco-Mide s query_id = elim (Option-cases (encontrar_marco_libre s.mem)) [
    | inr (i, e) ↦ rw (e, conseguir_marco) (refl, refl, refl)
    | inl e ↦ elim (Bool-cases (es_lru s.mem.algoritmo_reemplazo)) [
      | inl b ↦ rw (e, b, conseguir_marco) (aplicar_lru-Mide s query_id)
      | inr b ↦ rw (e, b, conseguir_marco) (aplicar_clock_m-Mide s query_id)
    ]
  ]

  recibir_bloque-Mide :
      (s : Sistema R) (r : Option (List (List ℕ))) → Mide s.mem (recibir_bloque atender s r).1.mem
  unfolding recibir_bloque
  recibir_bloque-Mide s none = (refl, refl, refl)
  recibir_bloque-Mide s (some []) = (refl, refl, refl)
  recibir_bloque-Mide s (some (c ∷ [])) = (refl, refl, refl)
  recibir_bloque-Mide s (some (c ∷ contenido ∷ resto)) =
      en_ambas (int_de_bytes c == codigo storage_send_ok_read_block)
        (λ (r : Bool × Sistema R). Mide s.mem r.1.mem) _ _ (refl, refl, refl) (refl, refl, refl)

  pedir_bloque_storage-Mide :
      (s : Sistema R) (query_id : ℕ) (file t : Cadena) (n : ℕ)
      → Mide s.mem (pedir_bloque_storage atender s query_id file t n).1.mem
  unfolding pedir_bloque_storage
  pedir_bloque_storage-Mide s query_id file t n =
      en_ambas (leb (pos_part s.mem.socket_storage) 0)
        (λ (r : Bool × Sistema R). Mide s.mem r.1.mem) _ _ (refl, refl, refl)
        (recibir_bloque-Mide _ _)

  registrar-Mide :
      (s : Sistema R) (file t : Cadena) (n i : ℕ) → Mide s.mem (registrar atender s file t n i).mem
  unfolding registrar
  registrar-Mide s file t n i =
      (refl, length-escribir_bytes s.mem.memory_arena _ _, length-set s.mem.marcos i _)

  cargar_pagina-Mide :
      (s : Sistema R) (query_id : ℕ) (file t : Cadena) (n : ℕ)
      → Mide s.mem (cargar_pagina atender s query_id file t n).1.mem
  unfolding cargar_pagina
  cargar_pagina-Mide s query_id file t n =
      let w = (conseguir_marco atender s query_id).1 in
      let u = (pedir_bloque_storage atender w query_id file t n).1 in
      let hasta_u =
        Mide-trans s.mem w.mem u.mem (conseguir_marco-Mide s query_id)
          (pedir_bloque_storage-Mide w query_id file t n) in
      elim (Option-cases (conseguir_marco atender s query_id).0) [
        | inl e ↦ rw (e, cargar_pagina) (conseguir_marco-Mide s query_id)
        | inr (v, e) ↦
            rw (e, cargar_pagina)
              (en_ambas (pedir_bloque_storage atender w query_id file t n).0
                (λ (r : Option ℕ × Sistema R). Mide s.mem r.1.mem) _ _
                (Mide-trans s.mem u.mem (registrar atender u file t n v).mem hasta_u
                  (registrar-Mide u file t n v))
                hasta_u)
      ]

  pub obtener_pagina-Mide :
      (s : Sistema R) (query_id : ℕ) (file t : Cadena) (n : ℕ)
      → Mide s.mem (obtener_pagina atender s query_id file t n).1.mem
  unfolding obtener_pagina
  obtener_pagina-Mide s query_id file t n =
      let r = buscar_pagina s.reloj s.mem file t n in
      let c = buscar_pagina-Mide s.reloj s.mem file t n in
      let v = record s { mem = r.1 } in
      let u = cargar_pagina atender v query_id file t n in
      let d = Mide-trans s.mem r.1 u.1.mem c (cargar_pagina-Mide v query_id file t n) in
      elim (Option-cases r.0) [
        | inr (p, e) ↦ rw (e, obtener_pagina) c
        | inl e ↦ elim (Option-cases u.0) [
          | inl f ↦ rw (e, f, obtener_pagina) d
          | inr (w, f) ↦
              rw (e, f, obtener_pagina)
                (Mide-trans s.mem u.1.mem (buscar_pagina u.1.reloj u.1.mem file t n).1 d
                  (buscar_pagina-Mide u.1.reloj u.1.mem file t n))
        ]
      ]

  pub usar_pagina-Mide :
      (s : Sistema R) (acceso : Acceso) (p despl n procesados : ℕ)
      → Mide s.mem (usar_pagina atender s acceso p despl n procesados).1.mem
  unfolding usar_pagina marcar copiar
  usar_pagina-Mide s lectura p despl n procesados = (refl, refl, refl)
  usar_pagina-Mide s (escritura c) p despl n procesados =
      (refl, length-escribir_bytes s.mem.memory_arena _ _, refl)
