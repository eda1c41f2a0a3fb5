-- ===== src/Worker/Interprete/Fetch/Orden.antt =====
-- worker/src/query_interpreter.c: in which order a run of `fetch` gives the instructions of a file.
use tp_2025_2c_kernel_panic.Prelude.{
  ℕ, zero, suc, ◌+◌, ◌≡◌, refl, sym, ◌∙◌, ap, subst, ◌⊎◌, inl, inr, List, [], ◌∷◌, Option, none,
  some, Bool, false, Cadena, codes, if◌then◌else◌, ◌==◌, ==_refl, ==_iff, drop, Bool-cases, arith,
}
use tp_2025_2c_kernel_panic.Worker.Interprete.Fetch.{
  Archivo, Pcb, se_saltea, al_terminar, procesar_linea, saltear, avanzar, leer_instruccion, fetch,
}

drop-suc : (n : ℕ) (xs : List Cadena) → drop 1 (drop n xs) ≡ drop (suc n) xs
drop-suc zero xs = refl
drop-suc (suc n) [] = refl
drop-suc (suc n) (x ∷ xs) = drop-suc n xs

drop_nil : (n : ℕ) → Path (List Cadena) (drop n []) []
drop_nil zero = refl
drop_nil (suc n) = refl

drop-drop : (n : ℕ) (xs : List Cadena) → drop n (drop 1 xs) ≡ drop (suc n) xs
drop-drop n [] = drop_nil n
drop-drop n (x ∷ xs) = refl

-- The first of the instructions that are left; at the end of the file the text "END", and NULL after
-- an error.
unfoldable pub proxima : Bool → List Cadena → Option Cadena
proxima error [] = if error then none else some (codes "END")
proxima error (x ∷ xs) = some x

module _ (string_trim : Cadena → Cadena) where
  -- The instructions of a file: its lines without the comments and the empty ones.
  unfoldable pub instrucciones : List Cadena → List Cadena
  unfolding procesar_linea se_saltea
  instrucciones [] = []
  instrucciones (l ∷ ls) =
      let resto = instrucciones ls in
      if se_saltea (procesar_linea string_trim l)
      then resto
      else procesar_linea string_trim l ∷ resto

  -- A run of `fetch`, as the cycle calls it, with a program counter that starts at that of the Pcb
  -- and goes up by one: the Pcb after that many calls.
  unfoldable pub tras : ℕ → Pcb → Pcb
  unfolding fetch
  tras zero p = p
  tras (suc k) p = let q = tras k p in record q { archivo = (fetch string_trim q (p.pc + k)).1 }

  -- Either there is no instruction left, or the one found is the first of them, and the rest is left.
  saltear_lem :
      (ls : List Cadena)
      → ((saltear string_trim ls).0 ≡ none × instrucciones ls ≡ [])
        ⊎ (l : Cadena) × ((saltear string_trim ls).0 ≡ some l)
          × (instrucciones ls ≡ l ∷ instrucciones (saltear string_trim ls).1)
  unfolding saltear instrucciones
  saltear_lem [] = inl (refl, refl)
  saltear_lem (l ∷ ls) = elim (Bool-cases (se_saltea (procesar_linea string_trim l))) [
    | inl b ↦ rw b (saltear_lem ls)
    | inr b ↦ rw b (inr (procesar_linea string_trim l, refl, refl))
  ]

  avanzar_lem :
      (n : ℕ) (ls : List Cadena)
      → ((avanzar string_trim n ls ≡ none) × (drop n (instrucciones ls) ≡ []))
        ⊎ (r : List Cadena) × (avanzar string_trim n ls ≡ some r)
          × (instrucciones r ≡ drop n (instrucciones ls))
  unfolding avanzar
  avanzar_lem zero ls = inr (ls, refl, refl)
  avanzar_lem (suc n) ls = elim (saltear_lem ls) [
    | inl (e, i) ↦ rw (e, avanzar, i) (inl (refl, refl))
    | inr (l, e, i) ↦ rw (e, avanzar, i) (avanzar_lem n (saltear string_trim ls).1)
  ]

  -- What a reading does to the instructions that are left.
  abbrev Lee : Option Cadena × Archivo → Bool → List Cadena → Type 0
  Lee x error is =
      (x.0 ≡ proxima error is) × (instrucciones x.1.lineas ≡ drop 1 is) × (x.1.error ≡ error)

  Lee-igual :
      (x : Option Cadena × Archivo) (e f : Bool) (is js : List Cadena)
      → e ≡ f
      → is ≡ js
      → Lee x e is
      → Lee x f js
  Lee-igual x e f is js h i l = subst (λ b. Lee x b js) h (subst (Lee x e) i l)

  al_terminar-Lee : (a : Archivo) → Lee (al_terminar a) a.error []
  unfolding al_terminar proxima instrucciones
  al_terminar-Lee a = (refl, refl, refl)

  leer_instruccion-Lee :
      (a : Archivo) → Lee (leer_instruccion string_trim a) a.error (instrucciones a.lineas)
  unfolding leer_instruccion proxima
  leer_instruccion-Lee a = elim (saltear_lem a.lineas) [
    | inl (e, i) ↦ rw (e, leer_instruccion, i) (al_terminar-Lee a)
    | inr (l, e, i) ↦ rw (e, leer_instruccion, i) (refl, refl, refl)
  ]

  fetch_primera :
      (p : Pcb)
      → Lee (fetch string_trim p p.pc) p.archivo.error (drop p.pc (instrucciones p.archivo.lineas))
  unfolding fetch
  fetch_primera p = elim (Bool-cases (p.pc == 0)) [
    | inl b ↦
        let cero : p.pc ≡ 0 = (==_iff p.pc 0).0 b in rw (b, cero) (leer_instruccion-Lee p.archivo)
    | inr b ↦ elim (avanzar_lem p.pc p.archivo.lineas) [
      | inl (e, i) ↦ rw (b, ==_refl p.pc, e, i) (al_terminar-Lee p.archivo)
      | inr (r, e, i) ↦
          let a : Archivo = record (p.archivo) { lineas = r } in
          rw (b, ==_refl p.pc, e)
            (subst (Lee (leer_instruccion string_trim a) p.archivo.error) i
              (leer_instruccion-Lee a))
    ]
  ]

  fetch_siguiente :
      (p : Pcb) (n : ℕ)
      → (n == p.pc) ≡ false
      → fetch string_trim p n ≡ leer_instruccion string_trim p.archivo
  unfolding fetch
  fetch_siguiente p n h = elim (Bool-cases (p.pc == 0)) [
    | inl b ↦ rw b refl
    | inr b ↦ rw (b, h) refl
  ]

  tras-Lee :
      (p : Pcb) (k : ℕ)
      → ((tras k p).pc ≡ p.pc)
        × ((tras k p).archivo.error ≡ p.archivo.error)
        × Lee
            (fetch string_trim (tras k p) (p.pc + k))
            p.archivo.error
            (drop (p.pc + k) (instrucciones p.archivo.lineas))
  unfolding tras
  tras-Lee p zero = (
    refl,
    refl,
    subst
        (λ n. Lee (fetch string_trim p n) p.archivo.error (drop n (instrucciones p.archivo.lineas)))
        (omega arith) (fetch_primera p),
  )
  tras-Lee p (suc k) =
      let (pc, error, lee) = tras-Lee p k in
      let (leido, quedan, mismo) = lee in
      let q : Pcb = tras (suc k) p in
      let otra : (p.pc + suc k == q.pc) ≡ false = ground (arith, pc) in
      (
        pc,
        mismo,
        rw (fetch_siguiente q (p.pc + suc k) otra) (
            Lee-igual (leer_instruccion string_trim q.archivo) q.archivo.error p.archivo.error
              (instrucciones q.archivo.lineas)
              (drop (p.pc + suc k) (instrucciones p.archivo.lineas)) mismo
              (quedan
                ∙ drop-suc (p.pc + k) (instrucciones p.archivo.lineas)
                ∙ ap (λ n. drop n (instrucciones p.archivo.lineas)) {x = suc (p.pc + k)}
                    (omega arith))
              (leer_instruccion-Lee q.archivo)),
      )

  -- The call number `k` of a cycle gives the instruction whose number is the program counter of the
  -- Pcb plus `k`: the comments and the empty lines do not count. Past the last one it gives "END", and
  -- NULL when what stopped the reading is an error.
  pub fetch-proxima :
      (p : Pcb) (k : ℕ)
      → (fetch string_trim (tras k p) (p.pc + k)).0
        ≡ proxima p.archivo.error (drop (p.pc + k) (instrucciones p.archivo.lineas))
  fetch-proxima p k = (tras-Lee p k).2.0

  -- A query that is resumed at a program counter, on its file from the start, gives call by call the
  -- instructions that the query would have given from there on, had it run from 0 without a stop.
  pub fetch_reanudada :
      (p : Pcb) (k : ℕ)
      → (fetch string_trim (tras k p) (p.pc + k)).0
        ≡ (fetch string_trim (tras (p.pc + k) (record p { pc = 0 })) (p.pc + k)).0
  fetch_reanudada p k =
      let nueva : Pcb = record p { pc = 0 } in
      let n = p.pc + k in
      let cero : 0 + n ≡ n = omega arith in
      fetch-proxima p k
      ∙ subst
          (λ m.
            proxima p.archivo.error (drop m (instrucciones p.archivo.lineas))
            ≡ (fetch string_trim (tras n nueva) m).0)
          cero (sym (fetch-proxima nueva n))
