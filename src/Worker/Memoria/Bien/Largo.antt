-- ===== src/Worker/Memoria/Bien/Largo.antt =====
-- worker/src/memoria.c: a read of `acceder_memoria` that ends well gives all the bytes that were asked for.
use native.Mathlib.Nat.{mul-le-mul_right, mod-lt, div-add-mod'}
use tp_2025_2c_kernel_panic.Prelude.{
  not, ◌||◌, Bool, ℕ, zero, suc, ◌+◌, ◌-◌, ◌*◌, ◌/◌, ◌%◌, ◌<◌, ◌≤◌, ◌≡◌, ◌⊎◌, inl, inr, refl, sym,
  ap, ◌∙◌, subst, List, [], ◌++◌, Option, none, some, true, Bool-cases, Option-cases, Cadena,
  Esta-All, length, length-append, length-take, length-drop, drop, arith, ◌==◌, ◌||◌, ltb, dec_lt,
}
use tp_2025_2c_kernel_panic.Worker.Memoria.Estado.{MemoriaInterna, Mensaje, Sistema, clave_file_tag}
use tp_2025_2c_kernel_panic.Worker.Memoria.Paginas.{buscar_numero, tabla_de, tocar, buscar_pagina}
use tp_2025_2c_kernel_panic.Worker.Memoria.Reemplazo.{cargar_pagina}
use tp_2025_2c_kernel_panic.Worker.Memoria.Acceso.{
  lectura, Resultado, leido, fallo, hallada, sin_cargar, perdida, marcar, copiar, bytes_en_pagina,
  obtener_pagina, usar_pagina, acceder_desde, acceder_memoria,
}
use tp_2025_2c_kernel_panic.Worker.Memoria.Acceso.Trozos.{Pagina-cases}
use tp_2025_2c_kernel_panic.Worker.Memoria.Bien.{IsBien, Viva, clave_de, marco_de}
use tp_2025_2c_kernel_panic.Worker.Memoria.Bien.Movimientos.{Viva-Mismas}
use tp_2025_2c_kernel_panic.Worker.Memoria.Bien.Sigue.{Mismas-set}
use tp_2025_2c_kernel_panic.Worker.Memoria.Bien.Carga.{cargar_pagina-IsBien}
use tp_2025_2c_kernel_panic.Worker.Memoria.Bien.Medidas.{
  Mide, obtener_pagina-Mide, usar_pagina-Mide,
}
use tp_2025_2c_kernel_panic.Worker.Memoria.Bien.Acceso.{
  tabla_de-Bien, buscar_numero-Esta, buscar_pagina-IsBien, obtener_pagina-IsBien,
  usar_pagina-IsBien,
}

VivaEn : MemoriaInterna → ℕ → Type 0
VivaEn mem p = Viva mem.entradas mem.marcos p

buscar_pagina-Viva :
    (reloj : ℕ) (mem : MemoriaInterna) (file t : Cadena) (n p : ℕ)
    → IsBien mem
    → (buscar_pagina reloj mem file t n).0 ≡ some p
    → VivaEn (buscar_pagina reloj mem file t n).1 p
unfolding buscar_pagina tocar VivaEn
buscar_pagina-Viva reloj mem file t n p c e =
    elim (Option-cases (buscar_numero mem.entradas n (tabla_de mem file t))) [
      | inl f ↦ let g : none ≡ some p = rw (f, buscar_pagina) at e in cc
      | inr (q, f) ↦
          let g : some q ≡ some p = rw (f, buscar_pagina) at e in
          let h : q ≡ p = cc in
          let esta = buscar_numero-Esta mem.entradas n (tabla_de mem file t) q f in
          let viva =
            Esta-All
              (λ q.
                Viva mem.entradas mem.marcos q × (clave_de mem.entradas q ≡ clave_file_tag file t))
              q (tabla_de mem file t) (tabla_de-Bien mem file t c).0 esta in
          rw (f, buscar_pagina)
            (subst (λ k. VivaEn (tocar reloj mem q) k) h
              (Viva-Mismas mem.entradas _ (Mismas-set mem.entradas q _ refl refl) mem.marcos q
                viva.0))
    ]

-- The size of a page, and an arena that holds all the frames.
abbrev pub Cabida : ℕ → MemoriaInterna → Type 0
Cabida tp mem = (mem.tamanio_pagina ≡ tp) × (length mem.marcos * tp ≤ length mem.memory_arena)

Cabida-Mide : (tp : ℕ) (m t : MemoriaInterna) → Mide m t → Cabida tp m → Cabida tp t
Cabida-Mide tp m t (h, k, l) (e, c) = (
  h ∙ e,
  subst (λ n. n * tp ≤ length t.memory_arena) (sym l)
      (subst (λ n. length m.marcos * tp ≤ n) (sym k) c),
)

module _ {R : Type 0} (atender : R → Mensaje → Option (List (List ℕ)) × R) where
  obtener_pagina-Viva :
      (s : Sistema R) (query_id : ℕ) (file t : Cadena) (n p : ℕ)
      → IsBien s.mem
      → (obtener_pagina atender s query_id file t n).0 ≡ hallada p
      → VivaEn (obtener_pagina atender s query_id file t n).1.mem p
  unfolding obtener_pagina
  obtener_pagina-Viva s query_id file t n p c h =
      let r = buscar_pagina s.reloj s.mem file t n in
      let c' = buscar_pagina-IsBien s.reloj s.mem file t n c in
      let v = record s { mem = r.1 } in
      let u = cargar_pagina atender v query_id file t n in
      let d = cargar_pagina-IsBien atender v query_id file t n c' in
      elim (Option-cases r.0) [
        | inr (q, e) ↦
            let g : hallada q ≡ hallada p = rw (e, obtener_pagina) at h in
            let k : q ≡ p = cc in
            rw (e, obtener_pagina) (buscar_pagina-Viva s.reloj s.mem file t n p c (e ∙ ap some k))
        | inl e ↦ elim (Option-cases u.0) [
          | inl f ↦ let g : sin_cargar ≡ hallada p = rw (e, f, obtener_pagina) at h in cc
          | inr (w, f) ↦ elim (Option-cases (buscar_pagina u.1.reloj u.1.mem file t n).0) [
            | inl z ↦ let g : perdida ≡ hallada p = rw (e, f, z, obtener_pagina) at h in cc
            | inr (q, z) ↦
                let g : hallada q ≡ hallada p = rw (e, f, z, obtener_pagina) at h in
                let k : q ≡ p = cc in
                rw (e, f, obtener_pagina)
                  (buscar_pagina-Viva u.1.reloj u.1.mem file t n p d (z ∙ ap some k))
          ]
        ]
      ]

  -- A round that reads a loaded page stays in the arena.
  largo_vuelta :
      (tp : ℕ) (s : Sistema R) (p despl n procesados : ℕ)
      → Cabida tp s.mem
      → VivaEn s.mem p
      → despl + n ≤ tp
      → length (usar_pagina atender s lectura p despl n procesados).0 ≡ n
  unfolding usar_pagina marcar copiar VivaEn
  largo_vuelta tp s p despl n procesados (e, c) v h =
      let m = marco_de s.mem.entradas p in
      let arena = s.mem.memory_arena in
      let base = m * s.mem.tamanio_pagina + despl in
      let z : suc m * tp ≤ length s.mem.marcos * tp = mul-le-mul_right tp (omega (arith, v.1)) in
      let igual : m * s.mem.tamanio_pagina ≡ m * tp = ap (λ k. m * k) e in
      let en_arena : base + n ≤ length arena = omega (arith, z, c, igual, h) in
      omega (arith, length-take n (drop base arena), length-drop base arena, en_arena)

trozo :
    (tp despl restantes : ℕ)
    → despl ≤ tp
    → let k = bytes_en_pagina tp despl restantes in
      ((k ≡ restantes) × (despl + restantes ≤ tp)) ⊎ ((despl + k ≡ tp) × (k ≤ restantes))
unfolding bytes_en_pagina
trozo tp despl restantes h = elim (Bool-cases (ltb tp (despl + restantes))) [
  | inl b ↦ inr (rw b (omega arith), rw b (ground arith))
  | inr b ↦ inl (rw b refl, ground arith)
]

trozo_cabe :
    (tp despl restantes : ℕ)
    → despl ≤ tp
    → (despl + bytes_en_pagina tp despl restantes ≤ tp)
      × (bytes_en_pagina tp despl restantes ≤ restantes)
trozo_cabe tp despl restantes h = elim (trozo tp despl restantes h) [
  | inl (e, k) ↦ (omega (arith, e, k), omega (arith, e))
  | inr (e, k) ↦ (omega (arith, e), k)
]

trozo_sigue :
    (tp pagina final despl restantes : ℕ)
    → despl ≤ tp
    → pagina ≤ final
    → pagina * tp + (despl + restantes) ≤ suc final * tp
    → suc pagina * tp + (0 + (restantes - bytes_en_pagina tp despl restantes)) ≤ suc final * tp
trozo_sigue tp pagina final despl restantes h hp c =
    let z : suc pagina * tp ≤ suc final * tp = mul-le-mul_right tp (omega (arith, hp)) in
    elim (trozo tp despl restantes h) [
      | inl (e, k) ↦ omega (arith, e, z)
      | inr (e, k) ↦ omega (arith, e, k, c)
    ]

sin_restantes :
    (tp pagina final despl restantes : ℕ)
    → pagina * tp + (despl + restantes) ≤ suc final * tp
    → ((restantes == 0) || ltb final pagina) ≡ true
    → restantes ≡ 0
sin_restantes tp pagina final despl restantes c b = elim (dec_lt final pagina) [
  | yes p ↦ let z : suc final * tp ≤ pagina * tp = mul-le-mul_right tp p in omega (arith, z, c)
  | no p ↦ ground arith
]

-- NULL, or a buffer of that many bytes.
abbrev pub Leida : ℕ → Resultado → Type 0
Leida total r = (r ≡ fallo) ⊎ ((bytes : List ℕ) × (r ≡ leido bytes) × (length bytes ≡ total))

Leida-igual : (m n : ℕ) (r : Resultado) → m ≡ n → Leida m r → Leida n r
Leida-igual m n r e h = subst (λ k. Leida k r) e h

module _ {R : Type 0} (atender : R → Mensaje → Option (List (List ℕ)) × R) (tp : ℕ) where
  acceder_desde-Leida :
      (n : ℕ) (s : Sistema R) (query_id : ℕ) (file t : Cadena)
      (pagina final despl restantes procesados : ℕ) (buffer : List ℕ)
      → IsBien s.mem
      → Cabida tp s.mem
      → despl ≤ tp
      → pagina * tp + (despl + restantes) ≤ suc final * tp
      → final < pagina + n
      → Leida
          (length buffer + restantes)
          (acceder_desde atender n s query_id file t lectura pagina final despl restantes procesados
            buffer).0
  unfolding acceder_desde
  acceder_desde-Leida zero s query_id file t pagina final despl restantes procesados buffer c m h k
        v =
      let b : ((restantes == 0) || ltb final pagina) ≡ true = ground arith in
      rw (b, acceder_desde)
        (inr (buffer, refl, omega (arith, sin_restantes tp pagina final despl restantes k b)))
  acceder_desde-Leida (suc n) s query_id file t pagina final despl restantes procesados buffer c m h
        k v =
      elim (Bool-cases ((restantes == 0) || ltb final pagina)) [
        | inl b ↦
            rw (b, acceder_desde)
              (inr (buffer, refl, omega (arith, sin_restantes tp pagina final despl restantes k b)))
        | inr b ↦ elim (Pagina-cases (obtener_pagina atender s query_id file t pagina).0) [
          | inl f ↦ rw (b, f, acceder_desde) (inl refl)
          | inr (inl f) ↦ rw (b, f, acceder_desde) (inl refl)
          | inr (inr (p, f)) ↦
              let w = (obtener_pagina atender s query_id file t pagina).1 in
              let cw = obtener_pagina-IsBien atender s query_id file t pagina c in
              let mw =
                Cabida-Mide tp s.mem w.mem (obtener_pagina-Mide atender s query_id file t pagina)
                  m in
              let x = bytes_en_pagina s.mem.tamanio_pagina despl restantes in
              let r = usar_pagina atender w lectura p despl x procesados in
              let igual : x ≡ bytes_en_pagina tp despl restantes =
                ap (λ y. bytes_en_pagina y despl restantes) m.0 in
              let (cabe, menos) = trozo_cabe tp despl restantes h in
              let sigue = trozo_sigue tp pagina final despl restantes h (ground arith) k in
              let largo =
                largo_vuelta atender tp w p despl x procesados mw
                  (obtener_pagina-Viva atender s query_id file t pagina p c f)
                  (omega (arith, igual, cabe)) in
              rw (b, f, acceder_desde)
                (Leida-igual (length (buffer ++ r.0) + (restantes - x)) (length buffer + restantes)
                  _ (omega (arith, length-append buffer r.0, largo, igual, menos))
                  (acceder_desde-Leida n r.1 query_id file t (suc pagina) final 0 (restantes - x)
                    (procesados + x) (buffer ++ r.0)
                    (usar_pagina-IsBien atender w lectura p despl x procesados cw)
                    (Cabida-Mide tp w.mem r.1.mem
                      (usar_pagina-Mide atender w lectura p despl x procesados) mw)
                    (omega arith) (omega (arith, igual, sigue)) (omega (arith, v))))
        ]
      ]

-- The pages from the first to the last hold the access.
paginas_bastan :
    (tp offset tam : ℕ)
    → 0 < tp
    → 0 < tam
    → offset / tp * tp + (offset % tp + tam) ≤ suc ((offset + tam - 1) / tp) * tp
paginas_bastan tp offset tam h k = omega (
  arith,
  div-add-mod' offset tp,
  div-add-mod' (offset + tam - 1) tp,
  mod-lt (offset + tam - 1) {m = tp} h,
)

module _ {R : Type 0} (atender : R → Mensaje → Option (List (List ℕ)) × R) where
  -- On a memory in order whose arena holds its frames, a read of `acceder_memoria` always ends, and it
  -- returns NULL or a buffer of exactly the bytes that were asked for, whatever the storage answers and
  -- however many pages the read spans.
  pub acceder_memoria-Leida :
      (malloc : ℕ → Bool) (s : Sistema R) (query_id : ℕ) (file t : Cadena) (offset tam : ℕ)
      → IsBien s.mem
      → 0 < s.mem.tamanio_pagina
      → length s.mem.marcos * s.mem.tamanio_pagina ≤ length s.mem.memory_arena
      → Leida tam (acceder_memoria atender malloc s query_id file t offset tam lectura).0
  unfolding acceder_memoria
  acceder_memoria-Leida malloc s query_id file t offset tam c h m =
      elim (Bool-cases ((tam == 0) || not (malloc tam))) [
        | inl b ↦ rw (b, acceder_memoria) (inl refl)
        | inr b ↦
            let algo : 0 < tam = ground arith in
            let tp = s.mem.tamanio_pagina in
            rw (b, acceder_memoria)
              (Leida-igual (0 + tam) tam _ (omega arith) (
                acceder_desde-Leida atender tp (suc ((offset + tam - 1) / tp - offset / tp)) s
                  query_id file t (offset / tp) ((offset + tam - 1) / tp) (offset % tp) tam 0 [] c
                  (refl, m) (let q = mod-lt offset {m = tp} h in omega (arith, q))
                  (paginas_bastan tp offset tam h algo) (omega arith)))
      ]
