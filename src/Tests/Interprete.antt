-- ===== src/Tests/Interprete.antt =====
-- worker/src/query_interpreter.c: a small query, with a trim and a split that are written out.
use tp_2025_2c_kernel_panic.Prelude.{
  ℕ, zero, suc, ◌≡◌, refl, ap, List, [], ◌∷◌, ◌++◌, some, true, false, Cadena, codes, if◌then◌else◌,
  ◌==◌, ==_refl, arith,
}
use tp_2025_2c_kernel_panic.Prelude.Decimal.{string_itoa}
use tp_2025_2c_kernel_panic.Worker.Interprete.Fetch.{
  Pcb, hasta_salto, se_saltea, procesar_linea, fetch,
}
use tp_2025_2c_kernel_panic.Worker.Interprete.Fetch.Orden.{
  proxima, instrucciones, tras, fetch-proxima, fetch_reanudada,
}
use tp_2025_2c_kernel_panic.Worker.Interprete.Decode.{decode}
use tp_2025_2c_kernel_panic.Worker.Interprete.Decode.Escritas.{
  sin, iguales_sin_caso, IsSplit, escribir, decodifica,
}
use tp_2025_2c_kernel_panic.Worker.Interprete.Decode.IdaYVuelta.{decode-escrita}
use tp_2025_2c_kernel_panic.Worker.Interprete.Decode.Errores.{Rechaza, decode-Rechaza}

-- The text without the spaces at its start and at its end.
abbrev sin_inicio : Cadena → Cadena
sin_inicio [] = []
sin_inicio (c ∷ cs) = let resto = sin_inicio cs in if c == 32 then resto else c ∷ cs

abbrev antes_de : ℕ → Cadena → Cadena
antes_de c [] = if c == 32 then [] else c ∷ []
antes_de c (d ∷ ds) = c ∷ d ∷ ds

abbrev sin_final : Cadena → Cadena
sin_final [] = []
sin_final (c ∷ cs) = antes_de c (sin_final cs)

abbrev recortar : Cadena → Cadena
recortar cs = sin_final (sin_inicio cs)

abbrev linea : Cadena → Cadena
linea cs = cs ++ 10 ∷ []

-- A query that was stopped before its second instruction.
abbrev consulta : Pcb
consulta = record {
  archivo = record {
    lineas =
        linea (codes "# una query")
        ∷ linea (codes "CREATE f:t")
        ∷ linea []
        ∷ linea (codes "  WRITE f:t 0 HOLA ")
        ∷ codes "END"
        ∷ [];
    error = false;
  };
  nombre_archivo = codes "q1";
  query_id = 4;
  pc = 1;
}

-- The first call passes over the CREATE.
fetch-proxima_example :
    (fetch recortar (tras recortar 0 consulta) 1).0 ≡ some (codes "WRITE f:t 0 HOLA")
unfolding fetch tras proxima instrucciones se_saltea procesar_linea hasta_salto
fetch-proxima_example = fetch-proxima recortar consulta 0

fetch_reanudada_example :
    (fetch recortar (tras recortar 1 consulta) 2).0
    ≡ (fetch recortar (tras recortar 2 (record consulta { pc = 0 })) 2).0
unfolding fetch tras
fetch_reanudada_example = fetch_reanudada recortar consulta 1

abbrev pegar : ℕ → List Cadena → List Cadena
pegar c [] = (c ∷ []) ∷ []
pegar c (x ∷ xs) = (c ∷ x) ∷ xs

-- The text cut at a separator, as many times at most.
abbrev cortar : ℕ → ℕ → Cadena → List Cadena
cortar zero s cs = cs ∷ []
cortar (suc n) s [] = [] ∷ []
cortar (suc n) s (c ∷ cs) =
    let aparte = cortar n s cs in
    let junto = cortar (suc n) s cs in if c == s then [] ∷ aparte else pegar c junto

abbrev dividir : Cadena → ℕ → Cadena → List Cadena
dividir cs zero sep = []
dividir cs (suc n) [] = cs ∷ []
dividir cs (suc n) (s ∷ sep) = cortar n s cs

cortar-sin :
    (a b : Cadena) (s n : ℕ) → sin s a ≡ true → cortar (suc n) s (a ++ s ∷ b) ≡ a ∷ cortar n s b
unfolding sin string_itoa
cortar-sin [] b s n h = rw (==_refl s) refl
cortar-sin (c ∷ a) b s n h =
    let otro : (c == s) ≡ false = ground arith in
    let resto : sin s a ≡ true = ground arith in rw otro (ap (pegar c) (cortar-sin a b s n resto))

cortar_entero : (a : Cadena) (s n : ℕ) → sin s a ≡ true → cortar n s a ≡ a ∷ []
unfolding sin string_itoa
cortar_entero a s zero h = refl
cortar_entero [] s (suc n) h = refl
cortar_entero (c ∷ a) s (suc n) h =
    let otro : (c == s) ≡ false = ground arith in
    let resto : sin s a ≡ true = ground arith in
    rw otro (ap (pegar c) (cortar_entero a s (suc n) resto))

dividir-IsSplit : IsSplit dividir
dividir-IsSplit = record {
  corta = λ a b s n h k l. cortar-sin a b s n l;
  ultima = λ b s h. refl;
  sola = λ a s n h k. cortar_entero a s n k;
}

decode-escrita_example :
    decode recortar dividir iguales_sin_caso (some (codes "WRITE f:t 20 HOLA"))
    ≡ some (decodifica (escribir (codes "f") (codes "t") 20 (codes "HOLA")))
unfolding sin string_itoa
decode-escrita_example =
    decode-escrita recortar dividir dividir-IsSplit iguales_sin_caso refl
      (escribir (codes "f") (codes "t") 20 (codes "HOLA"))
      ((((λ e. cc), refl, refl, refl), ((λ e. cc), refl, refl, refl)), (λ e. cc), refl)

-- A CREATE by itself.
decode-Rechaza_example :
    Rechaza true false false (decode recortar dividir iguales_sin_caso (some (codes "CREATE")))
unfolding sin iguales_sin_caso
decode-Rechaza_example =
    decode-Rechaza recortar dividir iguales_sin_caso (codes "CREATE") dividir-IsSplit (λ e. cc) refl
      refl
