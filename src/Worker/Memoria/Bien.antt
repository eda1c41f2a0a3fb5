-- ===== src/Worker/Memoria/Bien.antt =====
-- worker/src/memoria.c: what holds of the pages, the frames, the tables and the LRU list between two
-- accesses.
pub mod Diccionario
pub mod Movimientos
pub mod Marcos
pub mod Entrada
pub mod Sigue
pub mod Desalojo
pub mod Carga
pub mod Acceso
pub mod Inicio
pub mod Medidas
pub mod Largo
pub mod Lru
use tp_2025_2c_kernel_panic.Prelude.{
  ℕ, suc, ◌+◌, ◌<◌, ◌≡◌, ◌≢◌, ◌⊎◌, inl, inr, refl, sym, ap, List, [], ◌∷◌, ◌++◌, Option, none, some,
  Bool, true, false, Bool-cases, Cadena, All, Distintos, Esta, Saca, Saca-cons, get_or, length,
  ==_iff, ◌==◌, if◌then◌else◌,
}
use tp_2025_2c_kernel_panic.Worker.Memoria.Estado.{
  EntradaPagina, Marco, MemoriaInterna, ClockM, entrada_vacia, marco_vacio, clave_file_tag,
}
use tp_2025_2c_kernel_panic.Worker.Memoria.Paginas.{es_lru, quitar}
use tp_2025_2c_kernel_panic.Worker.Memoria.Bien.Diccionario.{Claves}

abbrev pub libre_de : List Marco → ℕ → Bool
libre_de marcos i = (get_or marcos i marco_vacio).libre

abbrev pub entrada_de : List Marco → ℕ → Option ℕ
entrada_de marcos i = (get_or marcos i marco_vacio).entrada_pagina

abbrev pub marco_de : List EntradaPagina → ℕ → ℕ
marco_de entradas p = (get_or entradas p entrada_vacia).marco

abbrev pub clave_de : List EntradaPagina → ℕ → Cadena
clave_de entradas p =
    clave_file_tag (get_or entradas p entrada_vacia).file (get_or entradas p entrada_vacia).tag

-- An entry that is loaded: its frame exists, is taken, and names the entry back.
abbrev pub Viva : List EntradaPagina → List Marco → ℕ → Type 0
Viva entradas marcos p =
    (p < length entradas)
    × (marco_de entradas p < length marcos)
    × (libre_de marcos (marco_de entradas p) ≡ false)
    × (entrada_de marcos (marco_de entradas p) ≡ some p)

-- A table holds loaded entries of its own file and tag, each once.
abbrev pub TablaBien : List EntradaPagina → List Marco → Cadena × List ℕ → Type 0
TablaBien entradas marcos f =
    All (λ p. Viva entradas marcos p × (clave_de entradas p ≡ f.0)) f.1 × Distintos f.1

-- Each frame that is taken holds a loaded entry, which under LRU is in the list; the list and the
-- tables hold loaded entries only.
pub record Bien (entradas : List EntradaPagina) (marcos : List Marco) (lru_list : List ℕ)
    (tablas : List (Cadena × List ℕ)) (con_lru : Bool) : Type 0 where
  pub ocupados :
      (i : ℕ)
      → i < length marcos
      → libre_de marcos i ≡ false
      → (p : ℕ) × Viva entradas marcos p
        × (marco_de entradas p ≡ i)
        × (con_lru ≡ true → Esta p lru_list)
  pub lru_viva : All (Viva entradas marcos) lru_list
  pub lru_distinta : Distintos lru_list
  pub sin_lru : con_lru ≡ false → lru_list ≡ []
  pub tablas_bien : All (TablaBien entradas marcos) tablas
  pub claves : Claves tablas

-- What the invariant reads of a memory beside the entries; the last two are the size and the pointer of
-- the clock.
abbrev pub Partes : Type 0
Partes = List Marco × List ℕ × List (Cadena × List ℕ) × Bool × ℕ × ℕ

abbrev pub partes : MemoriaInterna → Partes
partes mem = (
  mem.marcos,
  mem.lru_list,
  mem.tablas_paginas,
  es_lru mem.algoritmo_reemplazo,
  mem.clock.cantidad_marcos,
  mem.clock.puntero,
)

-- And the clock turns over all the frames, with its pointer on one of them.
abbrev pub BienDe : List EntradaPagina → Partes → Type 0
BienDe entradas (marcos, lru_list, tablas, con_lru, cantidad, puntero) =
    Bien entradas marcos lru_list tablas con_lru × (cantidad ≡ length marcos) × (puntero < cantidad)

abbrev pub IsBien : MemoriaInterna → Type 0
IsBien mem = BienDe mem.entradas (partes mem)

-- The address is not there, or one occurrence leaves.
pub quitar-Saca :
    (p : ℕ) (xs : List ℕ) → ((quitar p xs ≡ xs) × All (λ q. q ≢ p) xs) ⊎ Saca xs p (quitar p xs)
unfolding quitar
quitar-Saca p [] = inl (refl, tt)
quitar-Saca p (x ∷ xs) = elim (Bool-cases (x == p)) [
  | inl b ↦ let e : x ≡ p = (==_iff x p).0 b in inr ([], xs, ap (λ y. y ∷ xs) e, rw b refl)
  | inr b ↦ elim (quitar-Saca p xs) [
    | inl (e, h) ↦ inl (rw b (ap (◌∷◌ x) e), ((λ f. let z = (==_iff x p).1 f in cc), h))
    | inr (c, d, e, f) ↦ inr (x ∷ c, d, ap (◌∷◌ x) e, rw b (ap (◌∷◌ x) f))
  ]
]
