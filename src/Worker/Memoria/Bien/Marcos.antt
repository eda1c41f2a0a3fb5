-- ===== src/Worker/Memoria/Bien/Marcos.antt =====
-- worker/src/memoria.c: a page that leaves its frame, and one that enters a free frame.
use tp_2025_2c_kernel_panic.Prelude.{
  ℕ, ◌<◌, ◌≡◌, ◌≢◌, inl, inr, refl, sym, ap, ◌∙◌, subst, List, [], ◌∷◌, Option, none, some, Bool,
  true, false, Cadena, All, All-map, Distintos, Esta, Saca-All, Saca-Distintos, get_or,
  get_or-set_self, get_or-set_ne, set, length, length-set, arith, ℕ_discrete,
}
use tp_2025_2c_kernel_panic.Worker.Memoria.Estado.{
  EntradaPagina, Marco, marco_vacio, dictionary_get, dictionary_put, dictionary_remove,
}
use tp_2025_2c_kernel_panic.Worker.Memoria.Paginas.{quitar}
use tp_2025_2c_kernel_panic.Worker.Memoria.Bien.{
  libre_de, entrada_de, marco_de, clave_de, Viva, TablaBien, Bien, quitar-Saca,
}
use tp_2025_2c_kernel_panic.Worker.Memoria.Bien.Diccionario.{
  Claves, dictionary_get-All, dictionary_get-none, All-otras, dictionary_remove-All,
  dictionary_put-All, dictionary_remove-Claves, dictionary_put-Claves,
}

abbrev liberado : Marco → Marco
liberado m = record m { libre = true; entrada_pagina = none }

abbrev pub sin_marco : List Marco → ℕ → List Marco
sin_marco marcos i = set marcos i (liberado (get_or marcos i marco_vacio))

-- The tables without an entry: its table goes when it is left empty.
abbrev pub sin_entrada : List (Cadena × List ℕ) → Cadena → ℕ → List (Cadena × List ℕ)
sin_entrada tablas clave victima = elim (dictionary_get tablas clave) [
  | none ↦ tablas
  | some tabla ↦ elim (quitar victima tabla) [
    | [] ↦ dictionary_remove tablas clave
    | q ∷ qs ↦ dictionary_put tablas clave (q ∷ qs)
  ]
]

module _ (entradas : List EntradaPagina) (marcos : List Marco) (p : ℕ)
    (v : Viva entradas marcos p) where
  abbrev i : ℕ
  i = marco_de entradas p

  abbrev quedan : List Marco
  quedan = sin_marco marcos i

  otro_marco : (q : ℕ) → Viva entradas marcos q → q ≢ p → marco_de entradas q ≢ i
  otro_marco q w ne e =
      let f : some q ≡ some p = sym w.3 ∙ (ap (entrada_de marcos) e ∙ v.3) in
      let g : q ≡ p = cc in ne g

  Viva-sin_marco : (q : ℕ) → Viva entradas marcos q → q ≢ p → Viva entradas quedan q
  Viva-sin_marco q w ne =
      let igual =
        get_or-set_ne marcos i (marco_de entradas q) (liberado (get_or marcos i marco_vacio))
          marco_vacio (λ e. otro_marco q w ne (sym e)) in
      (
        w.0,
        omega (arith, w.1, length-set marcos i (liberado (get_or marcos i marco_vacio))),
        ap (λ (m : Marco). m.libre) igual ∙ w.2,
        ap (λ (m : Marco). m.entrada_pagina) igual ∙ w.3,
      )

  Tabla-sin_marco :
      (k : Cadena) (t : List ℕ)
      → All (λ q. Viva entradas marcos q × (clave_de entradas q ≡ k)) t
      → All (λ q. q ≢ p) t
      → All (λ q. Viva entradas quedan q × (clave_de entradas q ≡ k)) t
  Tabla-sin_marco k [] h ne = tt
  Tabla-sin_marco k (q ∷ t) h ne =
      ((Viva-sin_marco q h.0.0 ne.0, h.0.1), Tabla-sin_marco k t h.1 ne.1)

  ajena_de_clave :
      (k : Cadena) (t : List ℕ)
      → k ≢ clave_de entradas p
      → All (λ q. Viva entradas marcos q × (clave_de entradas q ≡ k)) t
      → All (λ q. q ≢ p) t
  ajena_de_clave k t ne h =
      All-map (λ q. Viva entradas marcos q × (clave_de entradas q ≡ k)) (λ q. q ≢ p)
        (λ q w e. ne (sym w.1 ∙ ap (clave_de entradas) e)) t h

  otra_tabla :
      (f : Cadena × List ℕ)
      → f.0 ≢ clave_de entradas p
      → TablaBien entradas marcos f
      → TablaBien entradas quedan f
  otra_tabla f ne (h, d) = (Tabla-sin_marco f.0 f.1 h (ajena_de_clave f.0 f.1 ne h), d)

  su_tabla :
      (k : Cadena) (t : List ℕ)
      → TablaBien entradas marcos (k, t)
      → TablaBien entradas quedan (k, quitar p t)
  su_tabla k t (h, d) = elim (quitar-Saca p t) [
    | inl (e, ne) ↦
        subst (λ l. TablaBien entradas quedan (k, l)) (sym e) (Tabla-sin_marco k t h ne, d)
    | inr s ↦
        let (ne, d') = Saca-Distintos t p _ s d in
        let (_, h') =
          Saca-All (λ q. Viva entradas marcos q × (clave_de entradas q ≡ k)) t p _ s h in
        (Tabla-sin_marco k (quitar p t) h' ne, d')
  ]

  abbrev Quedan : List (Cadena × List ℕ) → Type 0
  Quedan d = All (TablaBien entradas quedan) d × Claves d

  sin_entrada-Quedan :
      (tablas : List (Cadena × List ℕ))
      → All (TablaBien entradas marcos) tablas
      → Claves tablas
      → Quedan (sin_entrada tablas (clave_de entradas p) p)
  sin_entrada-Quedan tablas h c = segun (dictionary_get tablas (clave_de entradas p)) refl
    where
      resto :
          (l : List ℕ)
          → TablaBien entradas quedan (clave_de entradas p, l)
          → Quedan (elim l [
            | [] ↦ dictionary_remove tablas (clave_de entradas p)
            | q ∷ qs ↦ dictionary_put tablas (clave_de entradas p) (q ∷ qs)
          ])
      resto [] w = (
        dictionary_remove-All (TablaBien entradas marcos) (TablaBien entradas quedan)
            (clave_de entradas p) otra_tabla tablas c h,
        dictionary_remove-Claves tablas (clave_de entradas p) c,
      )
      resto (q ∷ qs) w = (
        dictionary_put-All (TablaBien entradas marcos) (TablaBien entradas quedan)
            (clave_de entradas p) otra_tabla tablas (q ∷ qs) w c h,
        dictionary_put-Claves tablas (clave_de entradas p) (q ∷ qs) c,
      )

      segun :
          (r : Option (List ℕ))
          → dictionary_get tablas (clave_de entradas p) ≡ r
          → Quedan (elim r [
            | none ↦ tablas
            | some tabla ↦ elim (quitar p tabla) [
              | [] ↦ dictionary_remove tablas (clave_de entradas p)
              | q ∷ qs ↦ dictionary_put tablas (clave_de entradas p) (q ∷ qs)
            ]
          ])
      segun none e = (
        All-otras (TablaBien entradas marcos) (TablaBien entradas quedan) (clave_de entradas p)
            otra_tabla tablas (dictionary_get-none tablas (clave_de entradas p) e) h,
        c,
      )
      segun (some t) e = resto (quitar p t) (
          su_tabla (clave_de entradas p) t
            (dictionary_get-All (TablaBien entradas marcos) tablas (clave_de entradas p) t h e))

  -- The entry leaves its frame, its table and the LRU list.
  pub sale_de_marco :
      {lru_list : List ℕ} {tablas : List (Cadena × List ℕ)} {con_lru : Bool} (resto : List ℕ)
      → All (λ q. q ≢ p) resto
      → ((q : ℕ) → q ≢ p → Esta q lru_list → Esta q resto)
      → All (Viva entradas marcos) resto
      → Distintos resto
      → (con_lru ≡ false → resto ≡ [])
      → Bien entradas marcos lru_list tablas con_lru
      → Bien entradas quedan resto (sin_entrada tablas (clave_de entradas p) p) con_lru
  sale_de_marco {tablas = tablas} resto ne sub vivas distinta vacia c = record {
    ocupados = λ j h l.
        let h' : j < length marcos =
          omega (arith, h, length-set marcos i (liberado (get_or marcos i marco_vacio))) in
        elim (ℕ_discrete j i) [
          | yes e ↦
              let f =
                get_or-set_self marcos i (liberado (get_or marcos i marco_vacio)) marco_vacio v.1 in
              let g : libre_de quedan j ≡ true =
                ap (libre_de quedan) e ∙ ap (λ (m : Marco). m.libre) f in
              absurd cc
          | no d ↦
              let igual =
                get_or-set_ne marcos i j (liberado (get_or marcos i marco_vacio)) marco_vacio
                  (λ e. d (sym e)) in
              let (q, w, e, f) = c.ocupados j h' (ap (λ (m : Marco). m.libre) (sym igual) ∙ l) in
              let otra : q ≢ p = λ z. d (sym e ∙ ap (marco_de entradas) z) in
              (q, Viva-sin_marco q w otra, e, λ g. sub q otra (f g))
        ];
    lru_viva = Lru-sin_marco resto vivas ne;
    lru_distinta = distinta;
    sin_lru = vacia;
    tablas_bien = (sin_entrada-Quedan tablas c.tablas_bien c.claves).0;
    claves = (sin_entrada-Quedan tablas c.tablas_bien c.claves).1;
  }
    where
      Lru-sin_marco :
          (xs : List ℕ)
          → All (Viva entradas marcos) xs
          → All (λ q. q ≢ p) xs
          → All (Viva entradas quedan) xs
      Lru-sin_marco [] h ne = tt
      Lru-sin_marco (q ∷ xs) h ne = (Viva-sin_marco q h.0 ne.0, Lru-sin_marco xs h.1 ne.1)
