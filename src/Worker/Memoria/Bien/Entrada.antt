-- ===== src/Worker/Memoria/Bien/Entrada.antt =====
-- worker/src/memoria.c: a page that enters a free frame.
use tp_2025_2c_kernel_panic.Prelude.{
  ℕ, ◌<◌, ◌≡◌, ◌≢◌, inl, refl, sym, ap, ◌∙◌, subst, List, [], ◌∷◌, ◌++◌, Option, none, some, Bool,
  true, false, Cadena, All, All-map, All-append, Distintos, Distintos-snoc, Esta, Esta-append_left,
  Esta-append_right, get_or, get_or-set_self, get_or-set_ne, get_or-append_left,
  get_or-append_length, set, length, length-set, length-append, arith, if◌then◌else◌, ℕ_discrete,
}
use tp_2025_2c_kernel_panic.Worker.Memoria.Estado.{
  EntradaPagina, Marco, entrada_vacia, marco_vacio, clave_file_tag, dictionary_get, dictionary_put,
}
use tp_2025_2c_kernel_panic.Worker.Memoria.Bien.{
  libre_de, entrada_de, marco_de, clave_de, Viva, TablaBien, Bien,
}
use tp_2025_2c_kernel_panic.Worker.Memoria.Bien.Diccionario.{
  dictionary_get-All, dictionary_put-All, dictionary_put-Claves,
}

abbrev pub ocupado : List Marco → ℕ → ℕ → List Marco
ocupado marcos i p =
    set marcos i (record (get_or marcos i marco_vacio) { libre = false; entrada_pagina = some p })

module _ (entradas : List EntradaPagina) (marcos : List Marco) (nueva : EntradaPagina)
    (dentro : nueva.marco < length marcos) (libre : libre_de marcos nueva.marco ≡ true) where
  abbrev i : ℕ
  i = nueva.marco

  abbrev p : ℕ
  p = length entradas

  abbrev clave : Cadena
  clave = clave_file_tag nueva.file nueva.tag

  abbrev con_nueva : List EntradaPagina
  con_nueva = entradas ++ nueva ∷ []

  abbrev con_marco : List Marco
  con_marco = ocupado marcos i p

  en_i :
      get_or con_marco i marco_vacio
      ≡ record (get_or marcos i marco_vacio) { libre = false; entrada_pagina = some p }
  en_i = get_or-set_self marcos i _ marco_vacio dentro

  en_otro : (j : ℕ) → j ≢ i → get_or con_marco j marco_vacio ≡ get_or marcos j marco_vacio
  en_otro j ne = get_or-set_ne marcos i j _ marco_vacio (λ e. ne (sym e))

  largo : length con_marco ≡ length marcos
  largo =
      length-set marcos i
        (record (get_or marcos i marco_vacio) { libre = false; entrada_pagina = some p })

  vieja :
      (q : ℕ)
      → q < length entradas
      → get_or con_nueva q entrada_vacia ≡ get_or entradas q entrada_vacia
  vieja q h = get_or-append_left entradas nueva q entrada_vacia h

  marco_vieja : (q : ℕ) → q < length entradas → marco_de con_nueva q ≡ marco_de entradas q
  marco_vieja q h = ap (λ (x : EntradaPagina). x.marco) (vieja q h)

  clave_vieja : (q : ℕ) → q < length entradas → clave_de con_nueva q ≡ clave_de entradas q
  clave_vieja q h = ap (λ (x : EntradaPagina). clave_file_tag x.file x.tag) (vieja q h)

  de_nueva : get_or con_nueva p entrada_vacia ≡ nueva
  de_nueva = get_or-append_length entradas nueva entrada_vacia

  marco_nueva : marco_de con_nueva p ≡ i
  marco_nueva = ap (λ (x : EntradaPagina). x.marco) de_nueva

  marco_ajeno : (q : ℕ) → Viva entradas marcos q → marco_de entradas q ≢ i
  marco_ajeno q w e = let f = sym w.2 ∙ (ap (libre_de marcos) e ∙ libre) in cc

  Viva-vieja : (q : ℕ) → Viva entradas marcos q → Viva con_nueva con_marco q
  Viva-vieja q w =
      let m = marco_vieja q w.0 in
      let e = en_otro (marco_de entradas q) (marco_ajeno q w) in
      (
        omega (arith, w.0, length-append entradas (nueva ∷ [])),
        subst (λ k. k < length con_marco) (sym m) (omega (arith, w.1, largo)),
        subst (λ k. libre_de con_marco k ≡ false) (sym m) (ap (λ (x : Marco). x.libre) e ∙ w.2),
        subst (λ k. entrada_de con_marco k ≡ some q) (sym m)
            (ap (λ (x : Marco). x.entrada_pagina) e ∙ w.3),
      )

  Viva-nueva : Viva con_nueva con_marco p
  Viva-nueva = (
    omega (arith, length-append entradas (nueva ∷ [])),
    subst (λ k. k < length con_marco) (sym marco_nueva) (omega (arith, dentro, largo)),
    subst (λ k. libre_de con_marco k ≡ false) (sym marco_nueva) (ap (λ (x : Marco). x.libre) en_i),
    subst (λ k. entrada_de con_marco k ≡ some p) (sym marco_nueva)
        (ap (λ (x : Marco). x.entrada_pagina) en_i),
  )

  Tabla-vieja :
      (f : Cadena × List ℕ) → TablaBien entradas marcos f → TablaBien con_nueva con_marco f
  Tabla-vieja f (h, d) = (
    All-map (λ q. Viva entradas marcos q × (clave_de entradas q ≡ f.0))
        (λ q. Viva con_nueva con_marco q × (clave_de con_nueva q ≡ f.0))
        (λ q (w, e). (Viva-vieja q w, clave_vieja q w.0 ∙ e)) f.1 h,
    d,
  )

  Tabla-snoc :
      (t : List ℕ)
      → TablaBien entradas marcos (clave, t)
      → TablaBien con_nueva con_marco (clave, t ++ p ∷ [])
  Tabla-snoc t (h, d) = (
    All-append (λ q. Viva con_nueva con_marco q × (clave_de con_nueva q ≡ clave)) t (p ∷ [])
        (Tabla-vieja (clave, t) (h, d)).0
        ((Viva-nueva, ap (λ (x : EntradaPagina). clave_file_tag x.file x.tag) de_nueva), tt),
    Distintos-snoc t p d (
        All-map (λ q. Viva entradas marcos q × (clave_de entradas q ≡ clave)) (λ q. q ≢ p)
          (λ q w e. omega (arith, w.0.0, e)) t h),
  )

  abbrev su_tabla : List (Cadena × List ℕ) → List ℕ
  su_tabla tablas = elim (dictionary_get tablas clave) [ none ↦ [] | some tabla ↦ tabla ]

  su_tabla-Bien :
      (tablas : List (Cadena × List ℕ))
      → All (TablaBien entradas marcos) tablas
      → (r : Option (List ℕ)) → dictionary_get tablas clave ≡ r
      → TablaBien entradas marcos (clave, elim r [ none ↦ [] | some tabla ↦ tabla ])
  su_tabla-Bien tablas h none e = (tt, tt)
  su_tabla-Bien tablas h (some t) e =
      dictionary_get-All (TablaBien entradas marcos) tablas clave t h e

  -- The new entry takes the frame, and goes to the end of its table and, under LRU, of the list.
  pub entra_en_marco :
      {lru_list : List ℕ} {tablas : List (Cadena × List ℕ)} (con_lru : Bool)
      → Bien entradas marcos lru_list tablas con_lru
      → Bien con_nueva con_marco
          (if con_lru then lru_list ++ p ∷ [] else lru_list)
          (dictionary_put tablas clave (su_tabla tablas ++ p ∷ []))
          con_lru
  entra_en_marco {lru_list} {tablas} con_lru c = record {
    ocupados = λ j h l. elim (ℕ_discrete j i) [
      | yes e ↦ (p, Viva-nueva, marco_nueva ∙ sym e, en_lista con_lru)
      | no d ↦
          let (q, w, e, f) =
            c.ocupados j (omega (arith, h, largo))
              (ap (λ (m : Marco). m.libre) (sym (en_otro j d)) ∙ l) in
          (q, Viva-vieja q w, marco_vieja q w.0 ∙ e, λ g. sigue con_lru q (f g))
    ];
    lru_viva = viva con_lru;
    lru_distinta = distinta con_lru;
    sin_lru = vacia con_lru c.sin_lru;
    tablas_bien =
        dictionary_put-All (TablaBien entradas marcos) (TablaBien con_nueva con_marco) clave
          (λ f ne. Tabla-vieja f) tablas (su_tabla tablas ++ p ∷ [])
          (Tabla-snoc (su_tabla tablas)
            (su_tabla-Bien tablas c.tablas_bien (dictionary_get tablas clave) refl))
          c.claves c.tablas_bien;
    claves = dictionary_put-Claves tablas clave (su_tabla tablas ++ p ∷ []) c.claves;
  }
    where
      en_lista : (b : Bool) → b ≡ true → Esta p (if b then lru_list ++ p ∷ [] else lru_list)
      en_lista true e = Esta-append_right p lru_list (p ∷ []) (inl refl)
      en_lista false e = cc

      sigue :
          (b : Bool) (q : ℕ) → Esta q lru_list → Esta q (if b then lru_list ++ p ∷ [] else lru_list)
      sigue true q h = Esta-append_left q lru_list (p ∷ []) h
      sigue false q h = h

      vivas : All (Viva con_nueva con_marco) lru_list
      vivas =
          All-map (Viva entradas marcos) (Viva con_nueva con_marco) Viva-vieja lru_list c.lru_viva

      viva :
          (b : Bool) → All (Viva con_nueva con_marco) (if b then lru_list ++ p ∷ [] else lru_list)
      viva true = All-append (Viva con_nueva con_marco) lru_list (p ∷ []) vivas (Viva-nueva, tt)
      viva false = vivas

      distinta : (b : Bool) → Distintos (if b then lru_list ++ p ∷ [] else lru_list)
      distinta true = Distintos-snoc lru_list p c.lru_distinta (
          All-map (Viva entradas marcos) (λ q. q ≢ p) (λ q w e. omega (arith, w.0, e)) lru_list
            c.lru_viva)
      distinta false = c.lru_distinta

      vacia :
          (b : Bool)
          → (b ≡ false → lru_list ≡ [])
          → b ≡ false
          → (if b then lru_list ++ p ∷ [] else lru_list) ≡ []
      vacia true f e = cc
      vacia false f e = f e
