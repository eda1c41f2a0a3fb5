-- ===== src/Worker/Memoria/Bien/Desalojo.antt =====
-- worker/src/memoria.c: `aplicar_lru` and `aplicar_clock_m` leave a free frame, and all else in order.
use tp_2025_2c_kernel_panic.Prelude.{
  ℕ, ◌<◌, ◌≡◌, ◌≢◌, inl, inr, refl, sym, ap, ◌∙◌, subst, List, [], ◌∷◌, Option, some, true, false,
  All, All-map, Distintos, Esta, get_or-set_self, length, length-set, arith,
}
use tp_2025_2c_kernel_panic.Worker.Memoria.Estado.{
  EntradaPagina, Marco, MemoriaInterna, Mensaje, Sistema, marco_vacio,
}
use tp_2025_2c_kernel_panic.Worker.Memoria.Paginas.{es_lru}
use tp_2025_2c_kernel_panic.Worker.Memoria.Reemplazo.{
  desalojar, flush_por_swap, aplicar_lru, desalojar_clock,
}
use tp_2025_2c_kernel_panic.Worker.Memoria.Bien.{
  Partes, partes, Bien, IsBien, Viva, marco_de, libre_de, entrada_de,
}
use tp_2025_2c_kernel_panic.Worker.Memoria.Bien.Movimientos.{Viva-Mismas, cambia_entradas}
use tp_2025_2c_kernel_panic.Worker.Memoria.Bien.Marcos.{sale_de_marco, sin_marco}
use tp_2025_2c_kernel_panic.Worker.Memoria.Bien.Sigue.{Sigue, flush_por_swap-Sigue}

-- A free frame.
abbrev pub Libre : MemoriaInterna → ℕ → Type 0
Libre mem i = (i < length mem.marcos) × (libre_de mem.marcos i ≡ true)

-- The invariant with another LRU list.
abbrev ConLru : List EntradaPagina → List ℕ → Partes → Type 0
ConLru entradas l (marcos, _, tablas, con_lru, cantidad, puntero) =
    Bien entradas marcos l tablas con_lru × (cantidad ≡ length marcos) × (puntero < cantidad)

-- What the eviction of `p` needs of a memory whose LRU list was `antes` before `p` left it.
abbrev Listo : List EntradaPagina → List ℕ → ℕ → Partes → Type 0
Listo entradas antes p x =
    ConLru entradas antes x
    × Viva entradas x.0 p
    × All (λ q. q ≢ p) x.1
    × ((q : ℕ) → q ≢ p → Esta q antes → Esta q x.1)
    × All (Viva entradas x.0) x.1
    × Distintos x.1
    × (x.3 ≡ false → x.1 ≡ [])

desalojar-IsBien :
    (m : MemoriaInterna) (p : ℕ) (antes : List ℕ)
    → Listo m.entradas antes p (partes m)
    → let t = desalojar m p (marco_de m.entradas p) in IsBien t × Libre t (marco_de m.entradas p)
unfolding desalojar
desalojar-IsBien m p antes ((b, c, d), v, ne, sub, vivas, distinta, vacia) =
    let i = marco_de m.entradas p in
    let largo : length (sin_marco m.marcos i) ≡ length m.marcos = length-set m.marcos i _ in
    (
      (
        sale_de_marco m.entradas m.marcos p v m.lru_list ne sub vivas distinta vacia b,
        c ∙ sym largo,
        d,
      ),
      (
        omega (arith, v.1, largo),
        ap (λ (x : Marco). x.libre) (get_or-set_self m.marcos i _ marco_vacio v.1),
      ),
    )

-- The flush in between changes none of it.
pub tras_flush :
    (m u : MemoriaInterna) (p : ℕ) (antes : List ℕ)
    → Sigue m u
    → Listo m.entradas antes p (partes m)
    → let t = desalojar u p (marco_de m.entradas p) in IsBien t × Libre t (marco_de m.entradas p)
tras_flush m u p antes (mismas, e) ((b, c, d), v, ne, sub, vivas, distinta, vacia) =
    let viva = Viva-Mismas m.entradas u.entradas mismas m.marcos in
    let listo : Listo u.entradas antes p (partes m) = (
      (cambia_entradas m.entradas u.entradas mismas m.marcos b, c, d),
      viva p v,
      ne,
      sub,
      All-map (Viva m.entradas m.marcos) (Viva u.entradas m.marcos) viva m.lru_list vivas,
      distinta,
      vacia,
    ) in
    subst (λ i. IsBien (desalojar u p i) × Libre (desalojar u p i) i) (mismas.1 p)
      (desalojar-IsBien u p antes (subst (Listo u.entradas antes p) (sym e) listo))

module _ {R : Type 0} (atender : R → Mensaje → Option (List (List ℕ)) × R) where
  -- A frame that was won.
  abbrev pub Ganado : ℕ → Sistema R → Type 0
  Ganado v t = IsBien t.mem × Libre t.mem v

  lru_con_victima :
      (s : Sistema R) (query_id victima : ℕ) (resto : List ℕ)
      → IsBien s.mem
      → s.mem.lru_list ≡ victima ∷ resto
      → es_lru s.mem.algoritmo_reemplazo ≡ true
      → let r = aplicar_lru atender s query_id in Ganado r.0 r.1
  unfolding aplicar_lru
  lru_con_victima s query_id victima resto c e f =
      rw (e, aplicar_lru)
        (tras_flush (record mem { lru_list = resto }) _ victima (victima ∷ resto)
          (flush_por_swap-Sigue atender (record s { mem = record mem { lru_list = resto } })
            query_id victima)
          (
            (b, c.1, c.2),
            vivas.0,
            distinta.0,
            (λ q ne h. elim h [ inl k ↦ absurd (ne k) | inr k ↦ k ]),
            vivas.1,
            distinta.1,
            (λ g. cc),
          ))
    where
      mem : MemoriaInterna
      mem = s.mem

      b :
          Bien mem.entradas mem.marcos
            (victima ∷ resto)
            mem.tablas_paginas
            (es_lru mem.algoritmo_reemplazo)
      b =
          subst
            (λ l.
              Bien mem.entradas mem.marcos l mem.tablas_paginas (es_lru mem.algoritmo_reemplazo))
            e c.0

      vivas : Viva mem.entradas mem.marcos victima × All (Viva mem.entradas mem.marcos) resto
      vivas = b.lru_viva

      distinta : All (λ q. q ≢ victima) resto × Distintos resto
      distinta = b.lru_distinta

  pub aplicar_lru-Ganado :
      (s : Sistema R) (query_id : ℕ)
      → IsBien s.mem
      → es_lru s.mem.algoritmo_reemplazo ≡ true
      → ((i : ℕ) → i < length s.mem.marcos → libre_de s.mem.marcos i ≡ false)
      → let r = aplicar_lru atender s query_id in Ganado r.0 r.1
  aplicar_lru-Ganado s query_id c e llenos = segun s.mem.lru_list refl
    where
      segun :
          (l : List ℕ)
          → s.mem.lru_list ≡ l
          → let r = aplicar_lru atender s query_id in Ganado r.0 r.1
      segun [] f =
          let primero : 0 < length s.mem.marcos = omega (arith, c.1, c.2) in
          let (p, _, _, h) = c.0.ocupados 0 primero (llenos 0 primero) in
          absurd (subst (λ l. Esta p l) f (h e))
      segun (victima ∷ resto) f = lru_con_victima s query_id victima resto c f e

  sin_entrada_de :
      (s : Sistema R) (query_id v p : ℕ)
      → IsBien s.mem
      → es_lru s.mem.algoritmo_reemplazo ≡ false
      → Viva s.mem.entradas s.mem.marcos p
      → marco_de s.mem.entradas p ≡ v
      → Ganado v (desalojar_clock atender s query_id v)
  unfolding desalojar_clock
  sin_entrada_de s query_id v p c e w f =
      let g : entrada_de s.mem.marcos v ≡ some p = ap (entrada_de s.mem.marcos) (sym f) ∙ w.3 in
      let vacia = c.0.sin_lru e in
      rw (g, desalojar_clock)
        (subst
          (λ i.
            let t = desalojar (flush_por_swap atender s query_id p).mem p i in IsBien t × Libre t i)
          f
          (tras_flush s.mem (flush_por_swap atender s query_id p).mem p s.mem.lru_list
            (flush_por_swap-Sigue atender s query_id p)
            (
              (c.0, c.1, c.2),
              w,
              subst (λ l. All (λ q. q ≢ p) l) (sym vacia) tt,
              (λ q ne h. h),
              c.0.lru_viva,
              c.0.lru_distinta,
              c.0.sin_lru,
            )))

  pub desalojar_clock-Ganado :
      (s : Sistema R) (query_id v : ℕ)
      → IsBien s.mem
      → es_lru s.mem.algoritmo_reemplazo ≡ false
      → v < length s.mem.marcos
      → libre_de s.mem.marcos v ≡ false
      → Ganado v (desalojar_clock atender s query_id v)
  desalojar_clock-Ganado s query_id v c e h l =
      let (p, w, f, _) = c.0.ocupados v h l in sin_entrada_de s query_id v p c e w f
