-- ===== src/Worker/Memoria/Paginas/Flush.antt =====
-- worker/src/memoria.c, `flush_paginas_modificadas`: what goes to the storage, and what is left.
use tp_2025_2c_kernel_panic.Prelude.{
  ℕ, suc, ◌*◌, ◌<◌, ◌≡◌, ◌≢◌, inl, inr, refl, sym, ap, ◌∙◌, List, [], ◌∷◌, ◌++◌, true, false,
  Bool-cases, length, length-set, get_or-set_self, get_or-set_ne, All, All-map, Esta, Esta-All,
  Distintos, Cadena, if◌then◌else◌, arith,
}
use tp_2025_2c_kernel_panic.Utils.Protocolo.{storage_flush}
use tp_2025_2c_kernel_panic.Utils.Paquete.Enteros.{bytes_de_int}
use tp_2025_2c_kernel_panic.Worker.Memoria.Estado.{
  EntradaPagina, MemoriaInterna, entrada_vacia, entrada_en, leer_bytes,
}
use tp_2025_2c_kernel_panic.Worker.Memoria.Paginas.{
  limpiar, flush_tabla, tabla_de, con_nulo, flush_paginas_modificadas,
}

abbrev pub contenido_de : MemoriaInterna → ℕ → List ℕ
contenido_de mem p =
    leer_bytes mem.memory_arena ((entrada_en mem p).marco * mem.tamanio_pagina) mem.tamanio_pagina

-- The modified pages of the table, in its order.
unfoldable pub modificadas : MemoriaInterna → List ℕ → List ℕ
modificadas mem [] = []
modificadas mem (p ∷ ps) =
    let resto = modificadas mem ps in if (entrada_en mem p).modificada then p ∷ resto else resto

-- The number and the content of each page.
unfoldable pub en_paquete : MemoriaInterna → List ℕ → List (List ℕ)
en_paquete mem [] = []
en_paquete mem (p ∷ ps) =
    bytes_de_int (entrada_en mem p).numero_pagina ∷ contenido_de mem p ∷ en_paquete mem ps

-- The entries of the table are unmodified, with all else as before; the other entries, the arena and the
-- tables are as before.
pub record Limpio (mem : MemoriaInterna) (tabla : List ℕ) (t : MemoriaInterna) : Type 0 where
  pub limpias :
      (p : ℕ) → Esta p tabla → entrada_en t p ≡ record (entrada_en mem p) { modificada = false }
  pub ajenas : (p : ℕ) → ¬ Esta p tabla → entrada_en t p ≡ entrada_en mem p
  pub arena : t.memory_arena ≡ mem.memory_arena
  pub tablas : t.tablas_paginas ≡ mem.tablas_paginas
  pub marcos : t.marcos ≡ mem.marcos
  pub pagina : t.tamanio_pagina ≡ mem.tamanio_pagina

-- Two memories that agree on the pages of the table send the same.
module _ (m n : MemoriaInterna) (arena : m.memory_arena ≡ n.memory_arena)
    (pagina : m.tamanio_pagina ≡ n.tamanio_pagina) where
  contenido_de-igual :
      (p : ℕ) → entrada_en m p ≡ entrada_en n p → contenido_de m p ≡ contenido_de n p
  contenido_de-igual p e i = leer_bytes (arena i) ((e i).marco * pagina i) (pagina i)

  en_paquete-igual :
      (ps : List ℕ)
      → ((q : ℕ) → Esta q ps → entrada_en m q ≡ entrada_en n q)
      → (en_paquete m (modificadas m ps) ≡ en_paquete n (modificadas n ps))
        × (modificadas m ps ≡ modificadas n ps)
  unfolding en_paquete modificadas
  en_paquete-igual [] h = (refl, refl)
  en_paquete-igual (p ∷ ps) h =
      let e = h p (inl refl) in
      let (mismos, mismas) = en_paquete-igual ps (λ q k. h q (inr k)) in
      elim (Bool-cases (entrada_en n p).modificada) [
        | inl b ↦
            let c : (entrada_en m p).modificada ≡ true =
              ap (λ (x : EntradaPagina). x.modificada) e ∙ b in
            (
              rw (b, c)
                  (λ i. bytes_de_int (e i).numero_pagina ∷ contenido_de-igual p e i ∷ mismos i),
              rw (b, c) (ap (◌∷◌ p) mismas),
            )
        | inr b ↦
            let c : (entrada_en m p).modificada ≡ false =
              ap (λ (x : EntradaPagina). x.modificada) e ∙ b in
            (rw (b, c) mismos, rw (b, c) mismas)
      ]

-- What a page of the list becomes when the pages behind it are flushed.
module _ (mem : MemoriaInterna) (p : ℕ) (ps : List ℕ) (ajena : All (λ q. q ≢ p) ps) where
  fuera : ¬ Esta p ps
  fuera k = Esta-All (λ q. q ≢ p) p ps ajena k refl

  Limpio-sigue :
      (t : MemoriaInterna)
      → (entrada_en mem p).modificada ≡ false
      → Limpio mem ps t
      → Limpio mem (p ∷ ps) t
  Limpio-sigue t b l = record {
    limpias = λ q k. elim k [
      | inl e ↦ rw e (l.ajenas p fuera ∙ (λ i. record (entrada_en mem p) { modificada = b i }))
      | inr h ↦ l.limpias q h
    ];
    ajenas = λ q k. l.ajenas q (λ h. k (inr h));
    arena = l.arena;
    tablas = l.tablas;
    marcos = l.marcos;
    pagina = l.pagina;
  }

  igual_fuera : (q : ℕ) → q ≢ p → entrada_en (limpiar mem p) q ≡ entrada_en mem q
  unfolding limpiar
  igual_fuera q ne = get_or-set_ne mem.entradas p q _ entrada_vacia (λ e. ne (sym e))

  Limpio-limpiar :
      (t : MemoriaInterna)
      → p < length mem.entradas
      → Limpio (limpiar mem p) ps t
      → Limpio mem (p ∷ ps) t
  unfolding limpiar
  Limpio-limpiar t dentro l = record {
    limpias = λ q k. elim k [
      | inl e ↦ rw e (l.ajenas p fuera ∙ get_or-set_self mem.entradas p _ entrada_vacia dentro)
      | inr h ↦
          l.limpias q h
          ∙ ap (λ (x : EntradaPagina). record x { modificada = false })
              (igual_fuera q (Esta-All (λ a. a ≢ p) q ps ajena h))
    ];
    ajenas = λ q k. l.ajenas q (λ h. k (inr h)) ∙ igual_fuera q (λ e. k (inl e));
    arena = l.arena;
    tablas = l.tablas;
    marcos = l.marcos;
    pagina = l.pagina;
  }

-- The addresses of a table are entries, and none stands in it twice.
abbrev pub Tabla : MemoriaInterna → List ℕ → Type 0
Tabla mem tabla = All (λ p. p < length mem.entradas) tabla × Distintos tabla

abbrev pub Enviadas : MemoriaInterna → List ℕ → List (List ℕ) × ℕ × MemoriaInterna → Type 0
Enviadas mem tabla r =
    (r.0 ≡ en_paquete mem (modificadas mem tabla))
    × (r.1 ≡ length (modificadas mem tabla))
    × Limpio mem tabla r.2

flush_tabla-Enviadas :
    (mem : MemoriaInterna) (tabla : List ℕ)
    → Tabla mem tabla
    → Enviadas mem tabla (flush_tabla mem tabla)
unfolding flush_tabla modificadas en_paquete limpiar
flush_tabla-Enviadas mem [] h = (
  refl,
  refl,
  record {
    limpias = λ p k. absurd k;
    ajenas = λ p k. refl;
    arena = refl;
    tablas = refl;
    marcos = refl;
    pagina = refl;
  },
)
flush_tabla-Enviadas mem (p ∷ ps) ((dentro, otras), (ajena, distintas)) =
    elim (Bool-cases (entrada_en mem p).modificada) [
      | inl b ↦
          let mas : All (λ q. q < length (limpiar mem p).entradas) ps =
            All-map (λ q. q < length mem.entradas) (λ q. q < length (limpiar mem p).entradas)
              (λ q k. omega (
                arith,
                length-set mem.entradas p (record (entrada_en mem p) { modificada = false }),
              ))
              ps otras in
          let (valores, cantidad, l) = flush_tabla-Enviadas (limpiar mem p) ps (mas, distintas) in
          let (mismos, mismas) =
            en_paquete-igual (limpiar mem p) mem refl refl ps
              (λ q k. igual_fuera mem p ps ajena q (Esta-All (λ a. a ≢ p) q ps ajena k)) in
          (
            rw b (
                ap (λ vs. bytes_de_int (entrada_en mem p).numero_pagina ∷ contenido_de mem p ∷ vs)
                  (valores ∙ mismos)),
            rw b (ap suc (cantidad ∙ ap length mismas)),
            rw b (Limpio-limpiar mem p ps ajena _ dentro l),
          )
      | inr b ↦
          let (valores, cantidad, l) = flush_tabla-Enviadas mem ps (otras, distintas) in
          (rw b valores, rw b cantidad, rw b (Limpio-sigue mem p ps ajena _ b l))
    ]

-- The packet of `flush_paginas_modificadas` holds the id, the file and the tag, then the number and the
-- content of each modified page of the file, in the order of its table, then their count. Afterwards
-- no page of the file is modified, and nothing else of the pages, the frames and the arena changed.
pub flush_paginas_modificadas-Limpio :
    (mem : MemoriaInterna) (query_id : ℕ) (file tag : Cadena)
    → Tabla mem (tabla_de mem file tag)
    → let (mensaje, t) = flush_paginas_modificadas mem query_id file tag in
      let paginas = modificadas mem (tabla_de mem file tag) in
      (mensaje ≡ record {
        codigo = storage_flush;
        valores =
            bytes_de_int query_id
            ∷ con_nulo file
            ∷ con_nulo tag
            ∷ (en_paquete mem paginas ++ bytes_de_int (length paginas) ∷ []);
      })
      × Limpio mem (tabla_de mem file tag) t
unfolding flush_paginas_modificadas
flush_paginas_modificadas-Limpio mem query_id file tag h =
    let (valores, cantidad, l) = flush_tabla-Enviadas mem (tabla_de mem file tag) h in
    (
      λ i. record {
        codigo = storage_flush;
        valores =
            bytes_de_int query_id
            ∷ con_nulo file
            ∷ con_nulo tag
            ∷ (valores i ++ bytes_de_int (cantidad i) ∷ []);
      },
      l,
    )
