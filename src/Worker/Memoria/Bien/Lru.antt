-- ===== src/Worker/Memoria/Bien/Lru.antt =====
-- worker/src/memoria.c, `buscar_pagina` and `aplicar_lru`: the order of the LRU list.
use tp_2025_2c_kernel_panic.Prelude.{
  All, set, get_or, Bool-cases, ==_iff, ==_ne, ◌==◌, ℕ, ◌≡◌, ◌≢◌, ◌⊎◌, inl, inr, refl, sym, ap, ◌∙◌,
  subst, List, [], ◌∷◌, ◌++◌, Option, none, some, true, Cadena, Esta, Esta-All, Saca,
}
use tp_2025_2c_kernel_panic.Worker.Memoria.Estado.{entrada_vacia, MemoriaInterna, clave_file_tag}
use tp_2025_2c_kernel_panic.Worker.Memoria.Paginas.{
  es_lru, quitar, buscar_numero, tabla_de, tocar, buscar_pagina,
}
use tp_2025_2c_kernel_panic.Worker.Memoria.Bien.{
  IsBien, Viva, clave_de, marco_de, entrada_de, quitar-Saca,
}
use tp_2025_2c_kernel_panic.Worker.Memoria.Bien.Acceso.{tabla_de-Bien, buscar_numero-Esta}

-- A loaded entry stands in the LRU list.
Viva-Esta :
    (mem : MemoriaInterna) (p : ℕ)
    → IsBien mem
    → es_lru mem.algoritmo_reemplazo ≡ true
    → Viva mem.entradas mem.marcos p
    → Esta p mem.lru_list
Viva-Esta mem p c e v =
    let (q, w, f, g) = c.0.ocupados (marco_de mem.entradas p) v.1 v.2 in
    let h : some q ≡ some p = sym w.3 ∙ (ap (entrada_de mem.marcos) f ∙ v.3) in
    let k : q ≡ p = cc in subst (λ x. Esta x mem.lru_list) k (g e)

sale :
    (mem : MemoriaInterna) (p : ℕ)
    → Esta p mem.lru_list
    → Saca mem.lru_list p (quitar p mem.lru_list)
sale mem p h = elim (quitar-Saca p mem.lru_list) [
  | inl (e, ne) ↦ absurd (Esta-All (λ q. q ≢ p) p mem.lru_list ne h refl)
  | inr s ↦ s
]

abbrev pub EsPagina : MemoriaInterna → ℕ → ℕ → Type 0
EsPagina mem n p = (get_or mem.entradas p entrada_vacia).numero_pagina ≡ n

-- The first entry of a table with a page number, or none has it.
buscar_numero_lem :
    (mem : MemoriaInterna) (n : ℕ) (tabla : List ℕ)
    → ((buscar_numero mem.entradas n tabla ≡ none) × All (λ p. ¬ EsPagina mem n p) tabla)
      ⊎ ((p : ℕ) × (antes : List ℕ) × (tras : List ℕ) × (buscar_numero mem.entradas n tabla
            ≡ some p)
          × (tabla ≡ antes ++ p ∷ tras)
          × All (λ q. ¬ EsPagina mem n q) antes
          × EsPagina mem n p)
unfolding buscar_numero
buscar_numero_lem mem n [] = inl (refl, tt)
buscar_numero_lem mem n (p ∷ ps) =
    let numero = (get_or mem.entradas p entrada_vacia).numero_pagina in
    elim (Bool-cases (numero == n)) [
      | inl b ↦ inr (p, [], ps, rw b refl, refl, tt, (==_iff numero n).0 b)
      | inr b ↦ elim (buscar_numero_lem mem n ps) [
        | inl (e, h) ↦ inl (rw b e, (==_ne numero n b, h))
        | inr (q, a, c, e, f, h, k) ↦
            inr (q, p ∷ a, c, rw b e, ap (◌∷◌ p) f, (==_ne numero n b, h), k)
      ]
    ]

-- No entry of the table of the file has the page number, nothing is found and nothing changed; or the first
-- entry of the table that has it is found. Then its last access and its reference bit are written,
-- it moved from its place to the end of the LRU list, where the others keep their order, and nothing
-- else changed.
abbrev pub AlFinal : ℕ → MemoriaInterna → Cadena → Cadena → ℕ → Option ℕ × MemoriaInterna → Type 0
AlFinal reloj mem file t n (r, u) =
    ((r ≡ none) × All (λ p. ¬ EsPagina mem n p) (tabla_de mem file t) × (u ≡ mem))
    ⊎ ((p : ℕ) × (resto : List ℕ) × (antes : List ℕ) × (tras : List ℕ) × (r ≡ some p)
        × (tabla_de mem file t ≡ antes ++ p ∷ tras)
        × All (λ q. ¬ EsPagina mem n q) antes
        × EsPagina mem n p
        × Saca mem.lru_list p resto
        × (u ≡ record mem {
          entradas = set mem.entradas p (record (get_or mem.entradas p entrada_vacia) {
            ultimo_acceso = reloj;
            bit_referencia = true;
          });
          lru_list = resto ++ p ∷ [];
        }))

tocar_lru :
    (reloj : ℕ) (mem : MemoriaInterna) (p : ℕ)
    → es_lru mem.algoritmo_reemplazo ≡ true
    → tocar reloj mem p ≡ record mem {
      entradas = set mem.entradas p (record (get_or mem.entradas p entrada_vacia) {
        ultimo_acceso = reloj;
        bit_referencia = true;
      });
      lru_list = quitar p mem.lru_list ++ p ∷ [];
    }
unfolding tocar
tocar_lru reloj mem p e = rw (e, tocar) refl

-- On a memory in order under LRU, `buscar_pagina` finds nothing and changes nothing when no entry of the table
-- of the file has the page number. Otherwise it finds the first entry of the table that has it, writes
-- its last access and its reference bit, and moves it from its place to the end of the LRU list, where
-- the others keep their order; nothing else changes.
pub buscar_pagina-AlFinal :
    (reloj : ℕ) (mem : MemoriaInterna) (file t : Cadena) (n : ℕ)
    → IsBien mem
    → es_lru mem.algoritmo_reemplazo ≡ true
    → AlFinal reloj mem file t n (buscar_pagina reloj mem file t n)
unfolding buscar_pagina
buscar_pagina-AlFinal reloj mem file t n c e =
    elim (buscar_numero_lem mem n (tabla_de mem file t)) [
      | inl (f, h) ↦ inl (rw (f, buscar_pagina) refl, h, rw (f, buscar_pagina) refl)
      | inr (p, a, b, f, g, h, k) ↦
          let esta = buscar_numero-Esta mem.entradas n (tabla_de mem file t) p f in
          let viva =
            Esta-All
              (λ q.
                Viva mem.entradas mem.marcos q × (clave_de mem.entradas q ≡ clave_file_tag file t))
              p (tabla_de mem file t) (tabla_de-Bien mem file t c).0 esta in
          inr (
            p,
            quitar p mem.lru_list,
            a,
            b,
            rw (f, buscar_pagina) refl,
            g,
            h,
            k,
            sale mem p (Viva-Esta mem p c e viva.0),
            rw (f, buscar_pagina) (tocar_lru reloj mem p e),
          )
    ]
