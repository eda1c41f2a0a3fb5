-- ===== src/Worker/Memoria/Bien/Movimientos.antt =====
-- worker/src/memoria.c: the moves of a page between the frames, the tables and the LRU list.
use tp_2025_2c_kernel_panic.Prelude.{
  ℕ, ◌<◌, ◌≡◌, ◌≢◌, ◌⊎◌, inl, inr, sym, ◌∙◌, subst, List, [], ◌∷◌, ◌++◌, some, Bool, true, false,
  Cadena, All, All-map, All-append, Distintos, Distintos-snoc, Esta, Esta-append_left,
  Esta-append_right, Saca-All, Saca-Distintos, Saca-Esta, length, arith,
}
use tp_2025_2c_kernel_panic.Worker.Memoria.Estado.{EntradaPagina, Marco}
use tp_2025_2c_kernel_panic.Worker.Memoria.Paginas.{quitar}
use tp_2025_2c_kernel_panic.Worker.Memoria.Bien.{
  libre_de, entrada_de, marco_de, clave_de, Viva, TablaBien, Bien, quitar-Saca,
}

-- The entries keep their frame, their file and their tag.
abbrev pub Mismas : List EntradaPagina → List EntradaPagina → Type 0
Mismas a b =
    (length b ≡ length a)
    × ((p : ℕ) → marco_de b p ≡ marco_de a p)
    × ((p : ℕ) → clave_de b p ≡ clave_de a p)

module _ (a b : List EntradaPagina) (m : Mismas a b) (marcos : List Marco) where
  pub Viva-Mismas : (p : ℕ) → Viva a marcos p → Viva b marcos p
  Viva-Mismas p h = (
    omega (arith, m.0, h.0),
    subst (λ k. k < length marcos) (sym (m.1 p)) h.1,
    subst (λ k. libre_de marcos k ≡ false) (sym (m.1 p)) h.2,
    subst (λ k. entrada_de marcos k ≡ some p) (sym (m.1 p)) h.3,
  )

  TablaBien-Mismas :
      (d : List (Cadena × List ℕ)) → All (TablaBien a marcos) d → All (TablaBien b marcos) d
  TablaBien-Mismas d h =
      All-map (TablaBien a marcos) (TablaBien b marcos)
        (λ f (t, u). (
          All-map (λ p. Viva a marcos p × (clave_de a p ≡ f.0))
              (λ p. Viva b marcos p × (clave_de b p ≡ f.0))
              (λ p (v, e). (Viva-Mismas p v, m.2 p ∙ e)) f.1 t,
          u,
        ))
        d h

  -- A write into an entry that leaves its frame, file and tag.
  pub cambia_entradas :
      {lru_list : List ℕ} {tablas : List (Cadena × List ℕ)} {con_lru : Bool}
      → Bien a marcos lru_list tablas con_lru
      → Bien b marcos lru_list tablas con_lru
  cambia_entradas {lru_list} {tablas} c = record {
    ocupados = λ i h l. let (p, v, e, f) = c.ocupados i h l in (p, Viva-Mismas p v, m.1 p ∙ e, f);
    lru_viva = All-map (Viva a marcos) (Viva b marcos) Viva-Mismas lru_list c.lru_viva;
    lru_distinta = c.lru_distinta;
    sin_lru = c.sin_lru;
    tablas_bien = TablaBien-Mismas tablas c.tablas_bien;
    claves = c.claves;
  }

module _ {entradas : List EntradaPagina} {marcos : List Marco} {lru_list : List ℕ}
    {tablas : List (Cadena × List ℕ)} where
  -- A loaded entry goes to the end of the LRU list.
  pub al_final_de_lru :
      (p : ℕ)
      → Viva entradas marcos p
      → Bien entradas marcos lru_list tablas true
      → Bien entradas marcos (quitar p lru_list ++ p ∷ []) tablas true
  al_final_de_lru p v c = record {
    ocupados = λ i h l.
        let (q, w, e, f) = c.ocupados i h l in
        (
          q,
          w,
          e,
          λ g. elim (ubicacion q (f g)) [
            | inl k ↦ Esta-append_right q (quitar p lru_list) (p ∷ []) (inl k)
            | inr k ↦ Esta-append_left q (quitar p lru_list) (p ∷ []) k
          ],
        );
    lru_viva = All-append (Viva entradas marcos) (quitar p lru_list) (p ∷ []) vivas (v, tt);
    lru_distinta = Distintos-snoc (quitar p lru_list) p distintas.1 distintas.0;
    sin_lru = λ g. cc;
    tablas_bien = c.tablas_bien;
    claves = c.claves;
  }
    where
      vivas : All (Viva entradas marcos) (quitar p lru_list)
      vivas = elim (quitar-Saca p lru_list) [
        | inl (e, _) ↦ subst (λ l. All (Viva entradas marcos) l) (sym e) c.lru_viva
        | inr s ↦ (Saca-All (Viva entradas marcos) lru_list p _ s c.lru_viva).1
      ]

      distintas : All (λ q. q ≢ p) (quitar p lru_list) × Distintos (quitar p lru_list)
      distintas = elim (quitar-Saca p lru_list) [
        | inl (e, h) ↦ subst (λ l. All (λ q. q ≢ p) l × Distintos l) (sym e) (h, c.lru_distinta)
        | inr s ↦ Saca-Distintos lru_list p _ s c.lru_distinta
      ]

      ubicacion : (q : ℕ) → Esta q lru_list → (q ≡ p) ⊎ Esta q (quitar p lru_list)
      ubicacion q h = elim (quitar-Saca p lru_list) [
        | inl (e, _) ↦ inr (subst (λ l. Esta q l) (sym e) h)
        | inr s ↦ Saca-Esta q lru_list p _ s h
      ]
