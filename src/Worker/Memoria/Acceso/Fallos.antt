-- ===== src/Worker/Memoria/Acceso/Fallos.antt =====
-- worker/src/memoria.c, `acceder_memoria`: which accesses that fail tell the master.
use tp_2025_2c_kernel_panic.Prelude.{
  ℕ, zero, suc, ◌≡◌, ◌≢◌, ◌⊎◌, inl, inr, refl, sym, ap, ◌∙◌, subst, List, [], ◌∷◌, ◌++◌, Option,
  none, some, Bool, true, false, Bool-cases, Option-cases, Cadena, str_eq, str_eq_iff, Esta,
  Esta-append_right, get_or, get_or-append_length, ==_iff, ◌==◌, ◌||◌, ltb, arith, if◌then◌else◌,
  length,
}
use tp_2025_2c_kernel_panic.Utils.Protocolo.{
  worker_error_tamanio_escritura_excedido, worker_error_tamanio_lectura_excedido,
}
use tp_2025_2c_kernel_panic.Utils.Paquete.Enteros.{bytes_de_int}
use tp_2025_2c_kernel_panic.Worker.Memoria.Estado.{
  EntradaPagina, MemoriaInterna, Mensaje, Sistema, entrada_vacia, clave_file_tag, dictionary_get,
  dictionary_put,
}
use tp_2025_2c_kernel_panic.Worker.Memoria.Paginas.{
  buscar_numero, tabla_de, buscar_pagina, con_nulo,
}
use tp_2025_2c_kernel_panic.Worker.Memoria.Reemplazo.{
  conseguir_marco, pedir_bloque_storage, registrar, cargar_pagina,
}
use tp_2025_2c_kernel_panic.Worker.Memoria.Acceso.{
  Acceso, lectura, escritura, es_escritura, Resultado, leido, escrito, fallo, sin_vueltas, hallada,
  perdida, sin_cargar, obtener_pagina, avisar_error, terminar, acceder_desde, acceder_memoria,
}
use tp_2025_2c_kernel_panic.Worker.Memoria.Acceso.Trozos.{Pagina-cases}

dictionary_get-put :
    {V : Type 0} (d : List (Cadena × V)) (clave : Cadena) (v : V)
    → dictionary_get (dictionary_put d clave v) clave ≡ some v
unfolding dictionary_get dictionary_put
dictionary_get-put [] clave v = let b = (str_eq_iff clave clave).1 refl in rw b refl
dictionary_get-put ((k, w) ∷ d) clave v = elim (Bool-cases (str_eq k clave)) [
  | inl b ↦ rw (b, b) refl
  | inr b ↦ rw (b, b) (dictionary_get-put d clave v)
]

-- A page whose number stands in the table is found.
buscar_numero-hay :
    (entradas : List EntradaPagina) (n : ℕ) (tabla : List ℕ) (p : ℕ)
    → Esta p tabla
    → (get_or entradas p entrada_vacia).numero_pagina ≡ n
    → buscar_numero entradas n tabla ≢ none
unfolding buscar_numero
buscar_numero-hay entradas n [] p h e f = absurd h
buscar_numero-hay entradas n (q ∷ qs) p h e f =
    elim (Bool-cases ((get_or entradas q entrada_vacia).numero_pagina == n)) [
      | inl b ↦ let g : some q ≡ none = rw b at f in cc
      | inr b ↦ elim h [
        | inl k ↦
            let z =
              (==_iff ((get_or entradas q entrada_vacia).numero_pagina) n).1
                (ap (λ x. (get_or entradas x entrada_vacia).numero_pagina) (sym k) ∙ e) in
            cc
        | inr k ↦ buscar_numero-hay entradas n qs p k e (rw b at f)
      ]
    ]

ninguno : (a b : Bool) → (a || b) ≡ false → (a ≡ false) × (b ≡ false)
ninguno true b h = cc
ninguno false b h = (refl, h)

fallo_o_no : (r : Resultado) → (r ≢ fallo) ⊎ (r ≡ fallo)
fallo_o_no (leido bytes) = inl (λ e. cc)
fallo_o_no escrito = inl (λ e. cc)
fallo_o_no sin_vueltas = inl (λ e. cc)
fallo_o_no fallo = inr refl

module _ {R : Type 0} (atender : R → Mensaje → Option (List (List ℕ)) × R) where
  registrar-hay :
      (s : Sistema R) (file t : Cadena) (n i : ℕ)
      → let m = (registrar atender s file t n i).mem in
        buscar_numero m.entradas n (tabla_de m file t) ≢ none
  unfolding registrar tabla_de
  registrar-hay s file t n i =
      let mem = s.mem in
      let p = length mem.entradas in
      let m = (registrar atender s file t n i).mem in
      let vieja = tabla_de mem file t in
      let nueva : tabla_de m file t ≡ vieja ++ p ∷ [] =
        ap (λ (r : Option (List ℕ)). elim r as (λ _. List ℕ) [ none ↦ [] | some tabla ↦ tabla ])
          (dictionary_get-put mem.tablas_paginas (clave_file_tag file t) (vieja ++ p ∷ [])) in
      subst (λ l. buscar_numero m.entradas n l ≢ none) (sym nueva)
        (buscar_numero-hay m.entradas n (vieja ++ p ∷ []) p
          (Esta-append_right p vieja (p ∷ []) (inl refl))
          (ap (λ (x : EntradaPagina). x.numero_pagina)
            (get_or-append_length mem.entradas _ entrada_vacia)))

  -- A load that answers a frame leaves the page in its table.
  cargar_pagina-hay :
      (s : Sistema R) (query_id : ℕ) (file t : Cadena) (n w : ℕ)
      → (cargar_pagina atender s query_id file t n).0 ≡ some w
      → let m = (cargar_pagina atender s query_id file t n).1.mem in
        buscar_numero m.entradas n (tabla_de m file t) ≢ none
  unfolding cargar_pagina
  cargar_pagina-hay s query_id file t n w e =
      let v = (conseguir_marco atender s query_id).1 in
      elim (Option-cases (conseguir_marco atender s query_id).0) [
        | inl f ↦ let g : none ≡ some w = rw (f, cargar_pagina) at e in cc
        | inr (i, f) ↦ elim (Bool-cases (pedir_bloque_storage atender v query_id file t n).0) [
          | inl b ↦
              rw (f, b, cargar_pagina)
                (registrar-hay (pedir_bloque_storage atender v query_id file t n).1 file t n i)
          | inr b ↦ let g : none ≡ some w = rw (f, b, cargar_pagina) at e in cc
        ]
      ]

  buscar_pagina-hay :
      (reloj : ℕ) (mem : MemoriaInterna) (file t : Cadena) (n : ℕ)
      → buscar_numero mem.entradas n (tabla_de mem file t) ≢ none
      → (buscar_pagina reloj mem file t n).0 ≢ none
  unfolding buscar_pagina
  buscar_pagina-hay reloj mem file t n h e =
      elim (Option-cases (buscar_numero mem.entradas n (tabla_de mem file t))) [
        | inl f ↦ h f
        | inr (p, f) ↦ let g : some p ≡ none = rw (f, buscar_pagina) at e in cc
      ]

  -- A page that was just loaded is always found.
  obtener_pagina-perdida :
      (s : Sistema R) (query_id : ℕ) (file t : Cadena) (n : ℕ)
      → (obtener_pagina atender s query_id file t n).0 ≢ perdida
  unfolding obtener_pagina
  obtener_pagina-perdida s query_id file t n h =
      let r = buscar_pagina s.reloj s.mem file t n in
      let v = record s { mem = r.1 } in
      let u = cargar_pagina atender v query_id file t n in
      elim (Option-cases r.0) [
        | inr (q, e) ↦ let g : hallada q ≡ perdida = rw (e, obtener_pagina) at h in cc
        | inl e ↦ elim (Option-cases u.0) [
          | inl f ↦ let g : sin_cargar ≡ perdida = rw (e, f, obtener_pagina) at h in cc
          | inr (w, f) ↦ elim (Option-cases (buscar_pagina u.1.reloj u.1.mem file t n).0) [
            | inl z ↦
                buscar_pagina-hay u.1.reloj u.1.mem file t n
                  (cargar_pagina-hay v query_id file t n w f) z
            | inr (q, z) ↦ let g : hallada q ≡ perdida = rw (e, f, z, obtener_pagina) at h in cc
          ]
        ]
      ]

  -- The flag of the error is up, and the last packet to the master names the query, the file and the tag.
  abbrev pub Avisado : ℕ → Cadena → Cadena → Bool → Sistema R → Type 0
  Avisado query_id file t escribe u =
      (u.error_storage ≡ true)
      × ((antes : List Mensaje) × (u.al_master
            ≡ antes
              ++ record {
                codigo =
                    if escribe
                    then worker_error_tamanio_escritura_excedido
                    else worker_error_tamanio_lectura_excedido;
                valores = bytes_de_int query_id ∷ con_nulo file ∷ con_nulo t ∷ [];
              }
                ∷ []))

  terminar-fallo : (acceso : Acceso) (buffer : List ℕ) → terminar atender acceso buffer ≢ fallo
  terminar-fallo lectura buffer e = cc
  terminar-fallo (escritura c) buffer e = cc

  acceder_desde-Avisado :
      (n : ℕ) (s : Sistema R) (query_id : ℕ) (file t : Cadena) (acceso : Acceso)
      (pagina final despl restantes procesados : ℕ) (buffer : List ℕ)
      → let r =
          acceder_desde atender n s query_id file t acceso pagina final despl restantes procesados
            buffer in
        r.0 ≡ fallo → Avisado query_id file t (es_escritura acceso) r.1
  unfolding acceder_desde avisar_error
  acceder_desde-Avisado zero s query_id file t acceso pagina final despl restantes procesados buffer
        h =
      elim (Bool-cases ((restantes == 0) || ltb final pagina)) [
        | inl b ↦ absurd (terminar-fallo acceso buffer (rw (b, acceder_desde) at h))
        | inr b ↦ let g : sin_vueltas ≡ fallo = rw (b, acceder_desde) at h in cc
      ]
  acceder_desde-Avisado (suc n) s query_id file t acceso pagina final despl restantes procesados
        buffer h =
      elim (Bool-cases ((restantes == 0) || ltb final pagina)) [
        | inl b ↦ absurd (terminar-fallo acceso buffer (rw (b, acceder_desde) at h))
        | inr b ↦ elim (Pagina-cases (obtener_pagina atender s query_id file t pagina).0) [
          | inl e ↦ rw (b, e, acceder_desde) (refl, (_, refl))
          | inr (inl e) ↦ absurd (obtener_pagina-perdida s query_id file t pagina e)
          | inr (inr (p, e)) ↦
              rw (b, e, acceder_desde)
                (acceder_desde-Avisado n _ query_id file t acceso (suc pagina) final 0 _ _ _
                  (rw (b, e, acceder_desde) at h))
        ]
      ]

  -- A read of at least one byte for whose buffer `malloc` gives nothing returns NULL, changes nothing and
  -- tells nobody. Any other access of at least one byte that returns NULL has told the master: the flag of
  -- the error is up, and the last packet to the master is the one of a write, or of a read, with the
  -- query, the file and the tag.
  pub acceder_memoria-Avisado :
      (malloc : ℕ → Bool) (s : Sistema R) (query_id : ℕ) (file t : Cadena) (offset tam : ℕ)
      (acceso : Acceso)
      → tam ≢ 0
      → let r = acceder_memoria atender malloc s query_id file t offset tam acceso in
        ((es_escritura acceso ≡ false) × (malloc tam ≡ false) × (r ≡ (fallo, s)))
        ⊎ ((es_escritura acceso || malloc tam) ≡ true)
          × ((r.0 ≢ fallo) ⊎ Avisado query_id file t (es_escritura acceso) r.1)
  unfolding acceder_memoria
  acceder_memoria-Avisado malloc s query_id file t offset tam acceso ne =
      let b : (tam == 0) ≡ false = ground arith in
      elim (Bool-cases (es_escritura acceso || malloc tam)) [
        | inr k ↦
            let (escribe, nada) = ninguno (es_escritura acceso) (malloc tam) k in
            inl (escribe, nada, rw (b, k, acceder_memoria) refl)
        | inl k ↦ inr (
          k,
          elim (fallo_o_no (acceder_memoria atender malloc s query_id file t offset tam acceso).0) [
            | inl h ↦ inl h
            | inr h ↦ inr (
                rw (b, k, acceder_memoria)
                  (acceder_desde-Avisado _ s query_id file t acceso _ _ _ tam 0 []
                    (rw (b, k, acceder_memoria) at h)))
          ],
        )
      ]
