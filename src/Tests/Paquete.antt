-- ===== src/Tests/Paquete.antt =====
-- utils/src/paquete.c on a packet of two values.
use tp_2025_2c_kernel_panic.Prelude.{
  refl, Bool, true, false, some, none, ◌⊎◌, ◌^◌, ltb, ℕ, ◌≡◌, List, [], ◌∷◌, ◌++◌, take, arith,
}
use tp_2025_2c_kernel_panic.Utils.Paquete.{
  bytes_de_paquete, serializar_paquete, recibir_paquete, recibido,
}
use tp_2025_2c_kernel_panic.Utils.Paquete.IdaYVuelta.{armar, recibir_paquete-serializar_paquete}
use tp_2025_2c_kernel_panic.Utils.Paquete.Cortado.{SinValores, recibir_paquete_cortado}

abbrev dos_valores : List (List ℕ)
dos_valores = (7 ∷ []) ∷ (104 ∷ 105 ∷ 0 ∷ []) ∷ []

-- Buffers of less than 2 ^ 31 bytes.
abbrev hay_lugar : ℕ → Bool
hay_lugar n = ltb n (2 ^ 31)

recibir_paquete-serializar_paquete_example :
    let x = serializar_paquete hay_lugar (armar 5 dos_valores) 20 in
    ((hay_lugar 20 ≡ false) × (x ≡ none))
    ⊎ ((hay_lugar 20 ≡ true)
        × ((escritos : List ℕ) × (x ≡ some escritos)
            × (recibir_paquete (escritos ++ 1 ∷ []) ≡ recibido 5 dos_valores (1 ∷ []))))
recibir_paquete-serializar_paquete_example =
    recibir_paquete-serializar_paquete hay_lugar 20 5 dos_valores (1 ∷ []) (omega arith)
      (omega arith)

recibir_paquete_cortado_example :
    SinValores 9 (recibir_paquete (take 9 (bytes_de_paquete (armar 5 dos_valores))))
unfolding serializar_paquete
recibir_paquete_cortado_example =
    recibir_paquete_cortado hay_lugar 20 5 9 dos_valores (bytes_de_paquete (armar 5 dos_valores))
      (omega arith) (omega arith) (omega arith) refl
