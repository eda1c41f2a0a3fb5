-- ===== src/Worker/Memoria/Acceso/Trozos.antt =====
-- worker/src/memoria.c, `acceder_memoria`: its loop ends.
use tp_2025_2c_kernel_panic.Prelude.{
  not, ◌||◌, Bool, ℕ, zero, suc, ◌+◌, ◌<◌, ◌≡◌, ◌≢◌, ◌⊎◌, inl, inr, refl, List, [], Option, true,
  Bool-cases, ◌||◌, ◌==◌, ltb, Cadena, arith,
}
use tp_2025_2c_kernel_panic.Worker.Memoria.Estado.{Mensaje, Sistema}
use tp_2025_2c_kernel_panic.Worker.Memoria.Acceso.{
  es_escritura, Acceso, lectura, escritura, sin_vueltas, Pagina, hallada, perdida, sin_cargar,
  obtener_pagina, terminar, acceder_desde, acceder_memoria,
}

pub Pagina-cases : (o : Pagina) → (o ≡ sin_cargar) ⊎ (o ≡ perdida) ⊎ ((p : ℕ) × (o ≡ hallada p))
Pagina-cases (hallada p) = inr (inr (p, refl))
Pagina-cases sin_cargar = inl refl
Pagina-cases perdida = inr (inl refl)

module _ {R : Type 0} (atender : R → Mensaje → Option (List (List ℕ)) × R) where
  terminar-sin_vueltas :
      (acceso : Acceso) (buffer : List ℕ) → terminar atender acceso buffer ≢ sin_vueltas
  terminar-sin_vueltas lectura buffer e = cc
  terminar-sin_vueltas (escritura c) buffer e = cc

  -- The `while` of `acceder_memoria` never runs out of rounds: it ends, whatever the storage answers.
  acceder_desde-sin_vueltas :
      (n : ℕ) (s : Sistema R) (query_id : ℕ) (file tag : Cadena) (acceso : Acceso)
      (pagina final despl restantes procesados : ℕ) (buffer : List ℕ)
      → final < pagina + n
      → (acceder_desde atender n s query_id file tag acceso pagina final despl restantes procesados
          buffer).0
        ≢ sin_vueltas
  unfolding acceder_desde
  acceder_desde-sin_vueltas zero s query_id file tag acceso pagina final despl restantes procesados
        buffer h =
      let b : ((restantes == 0) || ltb final pagina) ≡ true = ground arith in
      rw (b, acceder_desde) (terminar-sin_vueltas acceso buffer)
  acceder_desde-sin_vueltas (suc n) s query_id file tag acceso pagina final despl restantes
        procesados buffer h =
      elim (Bool-cases ((restantes == 0) || ltb final pagina)) [
        | inl b ↦ rw (b, acceder_desde) (terminar-sin_vueltas acceso buffer)
        | inr b ↦ elim (Pagina-cases (obtener_pagina atender s query_id file tag pagina).0) [
          | inl e ↦ rw (b, e, acceder_desde) (λ f. cc)
          | inr (inl e) ↦ rw (b, e, acceder_desde) (λ f. cc)
          | inr (inr (p, e)) ↦
              rw (b, e, acceder_desde)
                (acceder_desde-sin_vueltas n _ query_id file tag acceso (suc pagina) final 0 _ _ _
                  (omega arith))
        ]
      ]

  -- `acceder_memoria` always ends: the rounds of its loop that the model counts are enough, whatever
  -- the storage answers and whatever the size of a page is.
  pub acceder_memoria-sin_vueltas :
      (malloc : ℕ → Bool) (s : Sistema R) (query_id : ℕ) (file tag : Cadena) (offset tam : ℕ)
      (acceso : Acceso)
      → (acceder_memoria atender malloc s query_id file tag offset tam acceso).0 ≢ sin_vueltas
  unfolding acceder_memoria
  acceder_memoria-sin_vueltas malloc s query_id file tag offset tam acceso =
      elim (Bool-cases ((tam == 0) || not (es_escritura acceso || malloc tam))) [
        | inl b ↦ rw (b, acceder_memoria) (λ f. cc)
        | inr b ↦
            rw (b, acceder_memoria)
              (acceder_desde-sin_vueltas _ s query_id file tag acceso _ _ _ tam 0 [] (omega arith))
      ]
