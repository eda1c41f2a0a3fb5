-- ===== src/Worker/Memoria/Clock.antt =====
-- worker/src/memoria.c, the choice of the victim in `aplicar_clock_m`.
pub mod Recorrido
pub mod Victima
use tp_2025_2c_kernel_panic.Prelude.{
  ℕ, zero, suc, ◌+◌, ◌%◌, List, [], ◌∷◌, Option, none, some, Bool, true, false, not, ◌&&◌, get_or,
  set, if◌then◌else◌,
}
use tp_2025_2c_kernel_panic.Worker.Memoria.Estado.{ClockM, Marco, marco_vacio}

-- A loop `for (i...; i < cantidad; i++)` over `idx = (inicio + i) % cantidad` that stops at the
-- first index that passes the test. The first argument counts the rounds left.
unfoldable pub buscar_circular : ℕ → ℕ → ℕ → ℕ → (ℕ → Bool) → Option ℕ
buscar_circular zero i inicio cantidad prueba = none
buscar_circular (suc n) i inicio cantidad prueba =
    let idx = (inicio + i) % cantidad in
    let sigue = buscar_circular n (suc i) inicio cantidad prueba in
    if prueba idx then some idx else sigue

-- The second round, which clears the reference bit of each frame that it passes: the victim and
-- the bits.
unfoldable pub segunda_vuelta : ℕ → ℕ → ℕ → ℕ → List Bool → List Bool → Option ℕ × List Bool
segunda_vuelta zero i inicio cantidad r m = (none, r)
segunda_vuelta (suc n) i inicio cantidad r m =
    let idx = (inicio + i) % cantidad in
    let sigue = segunda_vuelta n (suc i) inicio cantidad (set r idx false) m in
    if not (get_or r idx false) && get_or m idx false then (some idx, r) else sigue

abbrev pub ni_uno_ni_otro : List Bool → List Bool → ℕ → Bool
ni_uno_ni_otro r m idx = not (get_or r idx false) && not (get_or m idx false)

-- The third and the fourth round, on the bits that the second one left.
unfoldable pub ultimas_vueltas : ClockM → List Bool → Option ℕ
ultimas_vueltas c r =
    elim (buscar_circular c.cantidad_marcos 0 c.puntero c.cantidad_marcos
      (ni_uno_ni_otro r c.bits_modificados)) [
        | some v ↦ some v
        | none ↦
            buscar_circular c.cantidad_marcos 0 c.puntero c.cantidad_marcos
              (λ idx. not (get_or r idx false))
      ]

-- The rounds from the second on: the victim, and the reference bits after them.
unfoldable pub tras_segunda : ClockM → Option ℕ × List Bool
tras_segunda c =
    let (segunda, r) =
      segunda_vuelta c.cantidad_marcos 0 c.puntero c.cantidad_marcos c.bits_referencia
        c.bits_modificados in
    elim segunda [ some v ↦ (some v, r) | none ↦ (ultimas_vueltas c r, r) ]

-- The victim of the four rounds (`none` is -1) and the reference bits after them.
unfoldable pub elegir_victima : ClockM → Option ℕ × List Bool
unfolding ultimas_vueltas tras_segunda
elegir_victima c =
    elim (buscar_circular c.cantidad_marcos 0 c.puntero c.cantidad_marcos
      (ni_uno_ni_otro c.bits_referencia c.bits_modificados)) [
        | some v ↦ (some v, c.bits_referencia)
        | none ↦ tras_segunda c
      ]

-- The loop 0) of `aplicar_clock_m`: a free frame, if there is one.
unfoldable pub marco_libre_desde : ClockM → List Marco → Option ℕ
marco_libre_desde c marcos =
    buscar_circular c.cantidad_marcos 0 c.puntero c.cantidad_marcos
      (λ idx. (get_or marcos idx marco_vacio).libre)
