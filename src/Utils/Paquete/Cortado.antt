-- ===== src/Utils/Paquete/Cortado.antt =====
-- utils/src/paquete.c: what a receiver makes of a packet whose connection breaks half way.
use tp_2025_2c_kernel_panic.Prelude.{
  Bool, Bool-cases, some, none, Option, subst, ℕ, zero, suc, ◌+◌, ◌^◌, ◌<◌, ◌≢◌, ◌⊎◌, inl, inr, ◌≡◌,
  refl, ap, List, [], ◌∷◌, ◌++◌, length, take, length-take, false, arith,
}
use tp_2025_2c_kernel_panic.Utils.Paquete.Enteros.{
  bytes_de_int, int_de_bytes, es_negativo, int_de_bytes-bytes_de_int,
}
use tp_2025_2c_kernel_panic.Utils.Paquete.IdaYVuelta.{
  armar, tamanio_de, codificar, length-codificar, serializar-armar, no_negativo,
  recibir_paquete-bytes_de_int,
}
use tp_2025_2c_kernel_panic.Utils.Paquete.{
  bytes_de_paquete, serializar_paquete, recibir_buffer, recibir_paquete, valores_de, fallo, parcial,
  Lectura, nulo, indefinido, Recepcion,
}

-- A receive that delivers nothing: NULL, or an `int` that was read in part after `n` bytes.
abbrev pub SinValores : ℕ → Recepcion → Type 0
SinValores n r = (r ≡ nulo) ⊎ ((r ≡ indefinido) × (n ≢ 0) × (n ≢ 4) × (n < 8))

recibir_buffer-corto :
    (b c d e size : ℕ) (bytes : List ℕ)
    → int_de_bytes (b ∷ c ∷ d ∷ e ∷ []) ≡ size
    → es_negativo size ≡ false
    → length bytes < size
    → recibir_buffer (b ∷ c ∷ d ∷ e ∷ bytes) ≡ fallo
unfolding recibir_buffer
recibir_buffer-corto b c d e size bytes largo signo h = ground arith

-- The part of the packet behind the code, cut after `n` bytes.
recibir_buffer_cortado :
    (vs : List (List ℕ)) (n : ℕ)
    → tamanio_de vs < 2 ^ 31
    → n < tamanio_de vs + 4
    → let r = recibir_buffer (take n (bytes_de_int (tamanio_de vs) ++ codificar vs)) in
      (r ≡ fallo) ⊎ ((r ≡ parcial) × (n ≢ 0) × (n < 4))
unfolding recibir_buffer bytes_de_int
recibir_buffer_cortado vs zero small h = inl refl
recibir_buffer_cortado vs (suc zero) small h = inr (refl, omega arith, omega arith)
recibir_buffer_cortado vs (suc (suc zero)) small h = inr (refl, omega arith, omega arith)
recibir_buffer_cortado vs (suc (suc (suc zero))) small h = inr (refl, omega arith, omega arith)
recibir_buffer_cortado vs (suc (suc (suc (suc n)))) small h = inl (
    recibir_buffer-corto _ _ _ _ (tamanio_de vs) (take n (codificar vs))
      (int_de_bytes-bytes_de_int (tamanio_de vs) (omega arith)) (no_negativo (tamanio_de vs) small)
      (omega (arith, length-take n (codificar vs), length-codificar vs)))

SinValores-valores_de :
    (code n : ℕ) (l : Lectura)
    → (l ≡ fallo) ⊎ ((l ≡ parcial) × (n ≢ 0) × (n < 4))
    → SinValores (suc (suc (suc (suc n)))) (valores_de code l)
unfolding valores_de
SinValores-valores_de code n l (inl e) = inl (ap (valores_de code) e)
SinValores-valores_de code n l (inr (e, h, k)) =
    inr (ap (valores_de code) e, omega arith, omega arith, omega arith)

take-bytes_de_int :
    (code n : ℕ) (bytes : List ℕ)
    → take (suc (suc (suc (suc n)))) (bytes_de_int code ++ bytes)
      ≡ bytes_de_int code ++ take n bytes
unfolding bytes_de_int
take-bytes_de_int code n bytes = refl

cortado :
    (code n : ℕ) (vs : List (List ℕ))
    → code < 2 ^ 31
    → tamanio_de vs < 2 ^ 31
    → n < tamanio_de vs + 8
    → SinValores n (
        recibir_paquete
          (take n (bytes_de_int code ++ (bytes_de_int (tamanio_de vs) ++ codificar vs))))
unfolding recibir_paquete bytes_de_int
cortado code zero vs hc small h = inl refl
cortado code (suc zero) vs hc small h = inr (refl, omega arith, omega arith, omega arith)
cortado code (suc (suc zero)) vs hc small h = inr (refl, omega arith, omega arith, omega arith)
cortado code (suc (suc (suc zero))) vs hc small h =
    inr (refl, omega arith, omega arith, omega arith)
cortado code (suc (suc (suc (suc n)))) vs hc small h = resto code n vs hc small h
  where
    resto :
        (code n : ℕ) (vs : List (List ℕ))
        → code < 2 ^ 31
        → tamanio_de vs < 2 ^ 31
        → suc (suc (suc (suc n))) < tamanio_de vs + 8
        → SinValores (suc (suc (suc (suc n)))) (
            recibir_paquete (
              take
                (suc (suc (suc (suc n))))
                (bytes_de_int code ++ (bytes_de_int (tamanio_de vs) ++ codificar vs))))
    resto code n vs hc small h =
        rw
          (recibir_paquete-bytes_de_int code (take n (bytes_de_int (tamanio_de vs) ++ codificar vs))
            hc)
          (SinValores-valores_de code n _ (recibir_buffer_cortado vs n small (omega arith)))

-- Of a packet that was serialized and whose connection breaks before its last byte, `recibir_paquete`
-- delivers no value: it returns NULL, or, when the break falls inside one of the two `int` of the header,
-- it goes on with an `int` that was filled only in part.
pub recibir_paquete_cortado :
    (malloc : ℕ → Bool) (bytes code n : ℕ) (vs : List (List ℕ)) (escritos : List ℕ)
    → code < 2 ^ 31
    → tamanio_de vs < 2 ^ 31
    → n < tamanio_de vs + 8
    → serializar_paquete malloc (armar code vs) bytes ≡ some escritos
    → SinValores n (recibir_paquete (take n escritos))
unfolding serializar_paquete
recibir_paquete_cortado malloc bytes code n vs escritos hc small h e =
    elim (Bool-cases (malloc bytes)) [
      | inr b ↦ let x : Path (Option (List ℕ)) none (some escritos) = rw b at e in absurd cc
      | inl b ↦
          let x : some (bytes_de_paquete (armar code vs)) ≡ some escritos = rw b at e in
          let y : bytes_de_paquete (armar code vs) ≡ escritos = cc in
          subst (λ w. SinValores n (recibir_paquete (take n w))) y
            (rw (serializar-armar code vs small) (cortado code n vs hc small h))
    ]
