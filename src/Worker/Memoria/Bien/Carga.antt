-- ===== src/Worker/Memoria/Bien/Carga.antt =====
-- worker/src/memoria.c: `cargar_pagina` always gets a frame, and keeps the memory in order.
use native.Mathlib.Nat.{mod-lt}
use tp_2025_2c_kernel_panic.Prelude.{
  ℕ, ◌+◌, ◌<◌, ◌≡◌, inl, inr, refl, sym, ap, ◌∙◌, subst, List, Option, some, true, false,
  Bool-cases, Cadena, get_or, length, length-set, arith,
}
use tp_2025_2c_kernel_panic.Worker.Memoria.Estado.{MemoriaInterna, Mensaje, Sistema, marco_vacio}
use tp_2025_2c_kernel_panic.Worker.Memoria.Clock.{marco_libre_desde}
use tp_2025_2c_kernel_panic.Worker.Memoria.Clock.Recorrido.{idx, buscar_circular-Halla}
use tp_2025_2c_kernel_panic.Worker.Memoria.Clock.Victima.{elegir_victima-Elige}
use tp_2025_2c_kernel_panic.Worker.Memoria.Paginas.{es_lru, tabla_de}
use tp_2025_2c_kernel_panic.Worker.Memoria.Reemplazo.{
  aplicar_lru, aplicar_clock_m, conseguir_marco, pedir_bloque_storage, registrar, cargar_pagina,
}
use tp_2025_2c_kernel_panic.Worker.Memoria.Paginas.MarcoLibre.{encontrar_marco_libre-PrimerLibre}
use tp_2025_2c_kernel_panic.Worker.Memoria.Bien.{Partes, partes, IsBien, libre_de}
use tp_2025_2c_kernel_panic.Worker.Memoria.Bien.Entrada.{entra_en_marco}
use tp_2025_2c_kernel_panic.Worker.Memoria.Bien.Sigue.{
  Sigue, Sigue-IsBien, reloj_si, en_ambas, pedir_bloque_storage-Sigue,
}
use tp_2025_2c_kernel_panic.Worker.Memoria.Bien.Desalojo.{
  Libre, Ganado, aplicar_lru-Ganado, desalojar_clock-Ganado,
}

idx_dentro :
    (mem : MemoriaInterna) (k : ℕ)
    → IsBien mem
    → idx mem.clock.puntero mem.clock.cantidad_marcos k < length mem.marcos
idx_dentro mem k c =
    subst (λ n. idx mem.clock.puntero mem.clock.cantidad_marcos k < n) c.1
      (mod-lt (mem.clock.puntero + k) {m = mem.clock.cantidad_marcos} (omega (arith, c.2)))

module _ {R : Type 0} (atender : R → Mensaje → Option (List (List ℕ)) × R) where
  -- The answer is a frame, and it is free.
  abbrev pub Conseguido : Option ℕ × Sistema R → Type 0
  Conseguido (r, t) = (v : ℕ) × (r ≡ some v) × Ganado atender v t

  aplicar_clock_m-Conseguido :
      (s : Sistema R) (query_id : ℕ)
      → IsBien s.mem
      → es_lru s.mem.algoritmo_reemplazo ≡ false
      → Conseguido (aplicar_clock_m atender s query_id)
  unfolding aplicar_clock_m marco_libre_desde
  aplicar_clock_m-Conseguido s query_id c e =
      let reloj = s.mem.clock in
      let n = reloj.cantidad_marcos in
      let positivo : 0 < n = omega (arith, c.2) in
      elim (buscar_circular-Halla (λ i. (get_or s.mem.marcos i marco_vacio).libre) reloj.puntero n n
        0) [
          | inr (k, _, hk, f, pasa, h) ↦ (
            idx reloj.puntero n k,
            rw (f, aplicar_clock_m) refl,
            rw (f, aplicar_clock_m)
                (
                  (c.0, c.1, mod-lt (idx reloj.puntero n k + 1) {m = n} positivo),
                  (idx_dentro s.mem k c, pasa),
                ),
          )
          | inl (f, ocupados) ↦
              let (k, hk, g, _) = elegir_victima-Elige reloj c.2 in
              (
                idx reloj.puntero n k,
                rw (f, g, aplicar_clock_m) refl,
                rw (f, g, aplicar_clock_m)
                    (desalojar_clock-Ganado atender _ query_id (idx reloj.puntero n k)
                      (c.0, c.1, mod-lt (idx reloj.puntero n k + 1) {m = n} positivo) e
                      (idx_dentro s.mem k c) (ocupados k (omega arith) (omega arith))),
              )
        ]

  -- On a memory in order `cargar_pagina` always has a frame to load into that exists and is free: a free
  -- one, or the one of a victim under LRU or CLOCK-M. The memory is in order then.
  pub conseguir_marco-Conseguido :
      (s : Sistema R) (query_id : ℕ)
      → IsBien s.mem
      → Conseguido (conseguir_marco atender s query_id)
  unfolding conseguir_marco
  conseguir_marco-Conseguido s query_id c = elim (encontrar_marco_libre-PrimerLibre s.mem) [
    | inr (k, e, hk, l, _) ↦
        let z : 0 + k ≡ k = omega arith in
        let f = e ∙ ap some z in
        (k, rw (f, conseguir_marco) refl, rw (f, conseguir_marco) (c, (hk, l)))
    | inl (e, llenos) ↦ elim (Bool-cases (es_lru s.mem.algoritmo_reemplazo)) [
      | inl b ↦ (
        (aplicar_lru atender s query_id).0,
        rw (e, b, conseguir_marco) refl,
        rw (e, b, conseguir_marco) (aplicar_lru-Ganado atender s query_id c b llenos),
      )
      | inr b ↦ rw (e, b, conseguir_marco) (aplicar_clock_m-Conseguido s query_id c b)
    ]
  ]

  registrar-IsBien :
      (s : Sistema R) (file t : Cadena) (num_pagina marco : ℕ)
      → IsBien s.mem
      → Libre s.mem marco
      → IsBien (registrar atender s file t num_pagina marco).mem
  unfolding registrar tabla_de
  registrar-IsBien s file t num_pagina marco c (dentro, l) =
      let mem = s.mem in
      let r = reloj_si (es_lru mem.algoritmo_reemplazo) _ mem.clock refl refl in
      let largo = length-set mem.marcos marco _ in
      (
        entra_en_marco mem.entradas mem.marcos _ dentro l (es_lru mem.algoritmo_reemplazo) c.0,
        r.0 ∙ (c.1 ∙ sym largo),
        subst (λ k. k < (partes (registrar atender s file t num_pagina marco).mem).4) (sym r.1)
            (subst (λ k. mem.clock.puntero < k) (sym r.0) c.2),
      )

  Libre-Sigue : (m t : MemoriaInterna) (i : ℕ) → Sigue m t → Libre m i → Libre t i
  Libre-Sigue m t i (_, e) l =
      subst (λ (x : Partes). (i < length x.0) × (libre_de x.0 i ≡ true)) (sym e) l

  pub cargar_pagina-IsBien :
      (s : Sistema R) (query_id : ℕ) (file t : Cadena) (num_pagina : ℕ)
      → IsBien s.mem
      → IsBien (cargar_pagina atender s query_id file t num_pagina).1.mem
  unfolding cargar_pagina
  cargar_pagina-IsBien s query_id file t num_pagina c =
      let (v, e, (bien, libre)) = conseguir_marco-Conseguido s query_id c in
      let w = (conseguir_marco atender s query_id).1 in
      let sigue = pedir_bloque_storage-Sigue atender w query_id file t num_pagina in
      let u = (pedir_bloque_storage atender w query_id file t num_pagina).1 in
      let bien' = Sigue-IsBien w.mem u.mem sigue bien in
      rw (e, cargar_pagina)
        (en_ambas (pedir_bloque_storage atender w query_id file t num_pagina).0
          (λ (r : Option ℕ × Sistema R). IsBien r.1.mem) _ _
          (registrar-IsBien u file t num_pagina v bien' (Libre-Sigue w.mem u.mem v sigue libre))
          bien')
