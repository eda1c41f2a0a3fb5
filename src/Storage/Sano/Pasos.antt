-- ===== src/Storage/Sano/Pasos.antt =====
-- storage/src/operaciones.c: the steps of which the operations are made keep the file system in order.
use tp_2025_2c_kernel_panic.Prelude.{
  ℕ, zero, suc, ◌≤◌, ◌≡◌, ◌≢◌, refl, sym, ◌∙◌, subst, inl, inr, List, [], ◌∷◌, Option, none, some,
  Bool, true, false, Cadena, str_eq, get_or, get_or-set_ne, set, length-set, Bool-cases,
  Option-cases, ◌==◌, ==_iff, leb,
}
use tp_2025_2c_kernel_panic.Prelude.Diccionario.{dictionary_get}
use tp_2025_2c_kernel_panic.Storage.Disco.{
  Directorio, Storage, Metadata, enlace, poner_enlace, poner_en, enlazar, desenlazar, guardar,
  cambiar, test_bit, ocupar, desocupar, poner_fisico, cantidad_bloques, marcar_bloque_libre,
  persistir_bitmap,
}
use tp_2025_2c_kernel_panic.Storage.Archivos.{rm_rf}
use tp_2025_2c_kernel_panic.Storage.Sano.{IsSano, Ligado, Bueno}
use tp_2025_2c_kernel_panic.Storage.Sano.Enlaces.{
  con_directorio, enlace-directorio, enlace-de, poner_en-nuevo, enlace-sin_ruta,
}

module _ (s : Storage) (h : IsSano s) where
  pub con_directorio-IsSano :
      (r : Cadena) (d : Directorio)
      → ((j n : ℕ) → get_or d.logicos j none ≡ some n → Bueno s n)
      → IsSano (con_directorio s r d)
  unfolding test_bit cantidad_bloques
  con_directorio-IsSano r d buenos = record {
    bueno = λ n (k, j, e).
        let f = sym (enlace-directorio s r d k j) ∙ e in
        elim (Bool-cases (str_eq r k)) [
          | inl b ↦ buenos j n (rw b at f)
          | inr b ↦ h.bueno n (k, j, (rw b at f))
        ];
    cabe = h.cabe;
  }

  pub buenos_de :
      (r : Cadena) (d : Directorio)
      → dictionary_get s.tags r ≡ some d
      → (j n : ℕ) → get_or d.logicos j none ≡ some n
      → Bueno s n
  buenos_de r d e j n g = h.bueno n (r, j, enlace-de s r d j e ∙ g)

  pub poner_enlace-IsSano :
      (r : Cadena) (i : ℕ) (v : Option ℕ)
      → ((n : ℕ) → v ≡ some n → Bueno s n)
      → IsSano (poner_enlace s r i v)
  unfolding poner_enlace
  poner_enlace-IsSano r i v nuevo = elim (Option-cases (dictionary_get s.tags r)) [
    | inl e ↦ rw (e, poner_enlace) h
    | inr (d, e) ↦
        rw (e, poner_enlace)
          (con_directorio-IsSano r (record d { logicos = poner_en d.logicos i v })
            (λ j n g. elim (poner_en-nuevo d.logicos i v j n g) [
              | inl k ↦ nuevo n k
              | inr k ↦ buenos_de r d e j n k
            ]))
  ]

  pub guardar-IsSano : (r : Cadena) (m : Metadata) → IsSano (guardar s r m)
  unfolding guardar
  guardar-IsSano r m = elim (Option-cases (dictionary_get s.tags r)) [
    | inl e ↦ rw (e, guardar) h
    | inr (d, e) ↦
        rw (e, guardar) (con_directorio-IsSano r (record d { metadata = some m }) (buenos_de r d e))
  ]

  pub enlazar-IsSano :
      (r : Cadena) (i n : ℕ) (t : Storage)
      → (n ≢ 0 → test_bit s n ≡ true)
      → enlazar s r i n ≡ some t
      → IsSano t
  unfolding enlazar
  enlazar-IsSano r i n t marcado e = elim (Option-cases (s.fisicos n)) [
    | inl f ↦ let g : none ≡ some t = rw (f, enlazar) at e in absurd cc
    | inr (c, f) ↦ elim (Option-cases (enlace s r i)) [
      | inl k ↦
          let g : some (poner_enlace s r i (some n)) ≡ some t = rw (f, k, enlazar) at e in
          let g2 : poner_enlace s r i (some n) ≡ t = cc in
          subst IsSano g2 (
            poner_enlace-IsSano r i (some n)
              (λ m x. let y : n ≡ m = cc in subst (Bueno s) y (marcado, (c, f))))
      | inr (m, k) ↦ let g : none ≡ some t = rw (f, k, enlazar) at e in absurd cc
    ]
  ]

  pub desenlazar-IsSano : (r : Cadena) (i : ℕ) (t : Storage) → desenlazar s r i ≡ some t → IsSano t
  unfolding desenlazar
  desenlazar-IsSano r i t e = elim (Option-cases (enlace s r i)) [
    | inl k ↦ let g : none ≡ some t = rw (k, desenlazar) at e in absurd cc
    | inr (m, k) ↦
        let g : some (poner_enlace s r i none) ≡ some t = rw (k, desenlazar) at e in
        let g2 : poner_enlace s r i none ≡ t = cc in
        subst IsSano g2 (poner_enlace-IsSano r i none (λ n x. absurd cc))
  ]

  -- A bit that is set breaks nothing, nor does one that is cleared for a block without links.
  pub ocupar-IsSano : (n : ℕ) → IsSano (ocupar s n)
  unfolding ocupar test_bit cantidad_bloques enlace
  ocupar-IsSano n = record {
    bueno = λ m k. ((λ ne. sigue s.bitmap n m ((h.bueno m k).0 ne)), (h.bueno m k).1);
    cabe = subst (λ x. cantidad_bloques s ≤ x) (sym (length-set s.bitmap n true)) h.cabe;
  }
    where
      sigue :
          (xs : List Bool) (n m : ℕ)
          → get_or xs m false ≡ true
          → get_or (set xs n true) m false ≡ true
      sigue [] n m e = e
      sigue (x ∷ xs) zero zero e = refl
      sigue (x ∷ xs) zero (suc m) e = e
      sigue (x ∷ xs) (suc n) zero e = e
      sigue (x ∷ xs) (suc n) (suc m) e = sigue xs n m e

  module _ (n : ℕ) (suelto : (r : Cadena) (i : ℕ) → enlace s r i ≢ some n) where
    ajeno : (m : ℕ) → Ligado s m → n ≢ m
    ajeno m (r, i, e) x = suelto r i (subst (λ y. enlace s r i ≡ some y) (sym x) e)

    pub desocupar-IsSano : IsSano (desocupar s n)
    unfolding desocupar test_bit cantidad_bloques enlace
    desocupar-IsSano = record {
      bueno = λ m k. (
        (λ ne. get_or-set_ne s.bitmap n m false false (ajeno m k) ∙ (h.bueno m k).0 ne),
        (h.bueno m k).1,
      );
      cabe = subst (λ x. cantidad_bloques s ≤ x) (sym (length-set s.bitmap n false)) h.cabe;
    }

    pub borrar_fisico-IsSano : IsSano (poner_fisico s n none)
    unfolding poner_fisico cambiar test_bit cantidad_bloques enlace
    borrar_fisico-IsSano = record {
      bueno = λ m k. elim (Bool-cases (m == n)) [
        | inl b ↦ absurd (ajeno m k (sym ((==_iff m n).0 b)))
        | inr b ↦ ((h.bueno m k).0, ((h.bueno m k).1.0, (rw b (h.bueno m k).1.1)))
      ];
      cabe = h.cabe;
    }

  pub poner_fisico-IsSano : (n : ℕ) (c : List ℕ) → IsSano (poner_fisico s n (some c))
  unfolding poner_fisico cambiar test_bit cantidad_bloques enlace
  poner_fisico-IsSano n c = record {
    bueno = λ m k. elim (Bool-cases (m == n)) [
      | inl b ↦ ((h.bueno m k).0, (c, (rw b refl)))
      | inr b ↦ ((h.bueno m k).0, ((h.bueno m k).1.0, (rw b (h.bueno m k).1.1)))
    ];
    cabe = h.cabe;
  }

  pub persistir_bitmap-IsSano : IsSano (persistir_bitmap s)
  unfolding persistir_bitmap test_bit cantidad_bloques enlace
  persistir_bitmap-IsSano = record { bueno = h.bueno; cabe = h.cabe }

  pub rm_rf-IsSano : (r : Cadena) → IsSano (rm_rf r s)
  unfolding rm_rf test_bit cantidad_bloques
  rm_rf-IsSano r = record {
    bueno = λ n (k, j, e).
        let f = sym (enlace-sin_ruta s r k j) ∙ e in
        elim (Bool-cases (str_eq r k)) [
          | inl b ↦ let g : none ≡ some n = rw b at f in absurd cc
          | inr b ↦ h.bueno n (k, j, (rw b at f))
        ];
    cabe = h.cabe;
  }

  pub marcar_bloque_libre-IsSano :
      (n : ℕ) → ((r : Cadena) (i : ℕ) → enlace s r i ≢ some n) → IsSano (marcar_bloque_libre s n)
  unfolding marcar_bloque_libre
  marcar_bloque_libre-IsSano n suelto = elim (Bool-cases (leb (cantidad_bloques s) n)) [
    | inl b ↦ rw b h
    | inr b ↦ rw b (elim (Bool-cases (test_bit s n)) [
      | inl c ↦ rw c (desocupar-IsSano n suelto)
      | inr c ↦ rw c h
    ])
  ]
