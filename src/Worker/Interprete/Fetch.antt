-- ===== src/Worker/Interprete/Fetch.antt =====
-- worker/src/query_interpreter.c: `fetch`, the next instruction from the file of a query.
-- `string_trim` is the library's, a parameter.
pub mod Orden
use tp_2025_2c_kernel_panic.Prelude.{
  ℕ, zero, suc, List, [], ◌∷◌, Option, none, some, Bool, true, false, Cadena, codes, if◌then◌else◌,
  ◌==◌,
}

-- A file that is open: the lines that `getline` has not read yet, each with the end of line that it
-- has, and whether what stops the reading is an error and not the end of the file.
pub record Archivo : Type 0 where
  pub lineas : List Cadena
  pub error : Bool

pub record Pcb : Type 0 where
  pub archivo : Archivo
  pub nombre_archivo : Cadena
  pub query_id : ℕ
  pub pc : ℕ

-- `buffer[strcspn(buffer, "\n")] = '\0'`
unfoldable pub hasta_salto : Cadena → Cadena
hasta_salto [] = []
hasta_salto (c ∷ cs) = let resto = hasta_salto cs in if c == 10 then [] else c ∷ resto

-- A comment or an empty line.
unfoldable pub se_saltea : Cadena → Bool
se_saltea [] = true
se_saltea (c ∷ cs) = c == b'#'

-- What is returned when `getline` gives -1: the text "END" at the end of the file, NULL after an error.
unfoldable pub al_terminar : Archivo → Option Cadena × Archivo
al_terminar a = (if a.error then none else some (codes "END"), record a { lineas = [] })

module _ (string_trim : Cadena → Cadena) where
  unfoldable pub procesar_linea : Cadena → Cadena
  unfolding hasta_salto
  procesar_linea l = string_trim (hasta_salto l)

  -- The `do … while`: the first line that is not skipped, and the lines after it. `none` when
  -- `getline` gives -1 before there is one.
  unfoldable pub saltear : List Cadena → Option Cadena × List Cadena
  unfolding procesar_linea se_saltea
  saltear [] = (none, [])
  saltear (l ∷ ls) =
      let resto = saltear ls in
      if se_saltea (procesar_linea l) then resto else (some (procesar_linea l), ls)

  -- The `for` that passes over the instructions that were run already.
  unfoldable pub avanzar : ℕ → List Cadena → Option (List Cadena)
  unfolding saltear
  avanzar zero ls = some ls
  avanzar (suc n) ls =
      let (linea, resto) = saltear ls in elim linea [ none ↦ none | some l ↦ avanzar n resto ]

  unfoldable pub leer_instruccion : Archivo → Option Cadena × Archivo
  unfolding saltear al_terminar
  leer_instruccion a =
      let (linea, resto) = saltear a.lineas in
      elim linea [ none ↦ al_terminar a | some l ↦ (some l, record a { lineas = resto }) ]

  -- The instruction, and the file after it. The second argument is the program counter of the
  -- interpreter; it is that of the Pcb on the first call of a cycle only.
  unfoldable pub fetch : Pcb → ℕ → Option Cadena × Archivo
  unfolding al_terminar avanzar leer_instruccion
  fetch pcb interpreter_pc =
      let primera : Option Cadena × Archivo = elim (avanzar pcb.pc pcb.archivo.lineas) [
        | none ↦ al_terminar pcb.archivo
        | some resto ↦ leer_instruccion (record (pcb.archivo) { lineas = resto })
      ] in
      let siguiente = leer_instruccion pcb.archivo in
      if pcb.pc == 0 then siguiente else if interpreter_pc == pcb.pc then primera else siguiente
