-- ===== src/Storage/Vista/Resultado.antt =====
-- storage/src/operaciones.c: what `escribir_bloque` does, as seen by the clients of the file system.
use tp_2025_2c_kernel_panic.Prelude.{
  hasta_nulo, ℕ, ◌<◌, ◌≡◌, ◌≢◌, refl, ◌∙◌, ap, subst, inl, inr, List, [], Option, none, some, Bool,
  true, false, ◌||◌, Cadena, get_or, set, length, Bool-cases, Option-cases, ◌==◌, ==_iff, ltb,
  arith, ℤ, pos, negsuc, ◌⊎◌,
}
use tp_2025_2c_kernel_panic.Storage.Disco.{
  Storage, Metadata, ruta, es_protegido, bloques_de, dentro_de, enlace, config_de, nlink,
  poner_fisico, ocupar, cambiar, test_bit, bloque_libre, desocupar, verificar_si_commited,
}
use tp_2025_2c_kernel_panic.Storage.Archivos.{es_vacia}
use tp_2025_2c_kernel_panic.Storage.Escritura.{
  indice_valido, rellenar, escribir_en, escribir_bloque,
}
use tp_2025_2c_kernel_panic.Storage.Sano.{IsSano}
use tp_2025_2c_kernel_panic.Storage.Sano.Mover.{bloque_libre-Libre, mover_enlace-sin_origen}
use tp_2025_2c_kernel_panic.Storage.Vista.{vista, Muestra, con_bloque}
use tp_2025_2c_kernel_panic.Storage.Vista.Metadatos.{MismaForma, escrito-MismaForma}
use tp_2025_2c_kernel_panic.Storage.Vista.Escritura.{
  vista-mismos, nlink-dos, escribir_en-escrito, escrito-Muestra, escrito-bitmap,
}

-- The state after a write of block `i`: its content is the one written, with zeros up to the size of a
-- block, and no other content changed; a block that was free is taken, and none is given back; the
-- size of the file and the number of its blocks are what they were.
abbrev pub Escrita : Storage → Cadena → ℕ → List ℕ → Storage → Type 0
Escrita s r i contenido u =
    Muestra u (con_bloque (vista s) r i (some (rellenar s.tamanio_bloque contenido)))
    × ((nuevo : ℕ) × (test_bit s nuevo ≡ false) × (u.bitmap ≡ set s.bitmap nuevo true))
    × MismaForma s u r

abbrev pub ResultadoEscritura : Storage → Cadena → ℤ → List ℕ → Bool × Storage → Type 0
ResultadoEscritura s r numero contenido x =
    (x.0 ≡ true → (i : ℕ) × (numero ≡ pos i) × Escrita s r i contenido x.1)
    × (x.0 ≡ false → Muestra x.1 (vista s))

-- A write that fails at once.
ResultadoEscritura-fallo :
    (s : Storage) (r : Cadena) (numero : ℤ) (contenido : List ℕ)
    → ResultadoEscritura s r numero contenido (false, s)
ResultadoEscritura-fallo s r numero contenido = ((λ e. absurd cc), (λ e k j. refl))

sin_origen-Muestra :
    (s : Storage) (nuevo : ℕ)
    → IsSano s
    → nuevo ≢ 0
    → test_bit s nuevo ≡ false
    → Muestra (desocupar (poner_fisico (ocupar s nuevo) nuevo (some [])) nuevo) (vista s)
unfolding desocupar poner_fisico ocupar enlace cambiar
sin_origen-Muestra s nuevo h ne libre k j =
    vista-mismos s (desocupar (poner_fisico (ocupar s nuevo) nuevo (some [])) nuevo) k j refl
      (λ n e. elim (Bool-cases (n == nuevo)) [
        | inl b ↦
            let y : n ≡ nuevo = (==_iff n nuevo).0 b in
            let w = (h.bueno nuevo (k, j, e ∙ ap some y)).0 ne in absurd cc
        | inr b ↦ rw b refl
      ])

escribir_en-sin_origen :
    (s : Storage) (r : Cadena) (i actual nuevo n : ℕ) (contenido : List ℕ)
    → IsSano s
    → enlace s r i ≡ some n
    → bloque_libre s ≡ some nuevo
    → s.fisicos actual ≡ none
    → escribir_en s r i actual contenido
      ≡ (false, desocupar (poner_fisico (ocupar s nuevo) nuevo (some [])) nuevo)
unfolding escribir_en
escribir_en-sin_origen s r i actual nuevo n contenido h e b f =
    let dos = nlink-dos s r i n h e in
    let no : (nlink s n == 1) ≡ false = ground (arith, dos) in
    let sin = mover_enlace-sin_origen s r i actual nuevo f in
    rw (e, escribir_en, no, b, sin) (ap (λ (x : Option Storage × Storage). (false, x.1)) sin)

escribir_en-ResultadoEscritura :
    (s : Storage) (r : Cadena) (i actual : ℕ) (contenido : List ℕ)
    → IsSano s
    → ResultadoEscritura s r (pos i) contenido (escribir_en s r i actual contenido)
unfolding escribir_en
escribir_en-ResultadoEscritura s r i actual contenido h = elim (Option-cases (enlace s r i)) [
  | inl e ↦ rw (e, escribir_en) (ResultadoEscritura-fallo s r (pos i) contenido)
  | inr (n, e) ↦
      let dos = nlink-dos s r i n h e in
      let no : (nlink s n == 1) ≡ false = ground (arith, dos) in
      elim (Option-cases (bloque_libre s)) [
        | inl b ↦ rw (e, escribir_en, no, b) (ResultadoEscritura-fallo s r (pos i) contenido)
        | inr (nuevo, b) ↦
            let (ne, cabe, libre) = bloque_libre-Libre s nuevo b in
            elim (Option-cases (s.fisicos actual)) [
              | inl f ↦
                  rw (escribir_en-sin_origen s r i actual nuevo n contenido h e b f)
                    ((λ x. absurd cc), (λ x. sin_origen-Muestra s nuevo h ne libre))
              | inr (c, f) ↦ rw (escribir_en-escrito s r i actual nuevo contenido n c h e f b) (
                (λ x. (
                  i,
                  refl,
                  (
                    escrito-Muestra s r i actual nuevo contenido n c h e ne libre,
                    (nuevo, libre, escrito-bitmap s r i actual nuevo contenido c),
                    escrito-MismaForma s r i actual nuevo contenido c,
                  ),
                )),
                (λ x. absurd cc),
              )
            ]
      ]
]

pub indice_valido-pos :
    (s : Storage) (m : Metadata) (numero : ℤ) (i : ℕ)
    → indice_valido s m numero ≡ some i
    → (numero ≡ pos i) × (i < bloques_de s m.tamanio)
unfolding indice_valido dentro_de
indice_valido-pos s m (negsuc n) i h = absurd cc
indice_valido-pos s m (pos n) i h = elim (Bool-cases (ltb n (bloques_de s m.tamanio))) [
  | inl b ↦ elim (Bool-cases (ltb n (length m.blocks))) [
    | inl c ↦
        let f : some n ≡ some i = rw (b, c, indice_valido, dentro_de) at h in
        let g : n ≡ i = cc in (ap pos g, subst (λ x. x < bloques_de s m.tamanio) g (ground arith))
    | inr c ↦ let f : none ≡ some i = rw (b, c, indice_valido, dentro_de) at h in absurd cc
  ]
  | inr b ↦ let f : none ≡ some i = rw (b, indice_valido, dentro_de) at h in absurd cc
]

pub escribir_bloque-ResultadoEscritura :
    (s : Storage) (file t : Cadena) (numero : ℤ) (contenido : List ℕ)
    → IsSano s
    → ResultadoEscritura s
        (ruta file t)
        numero
        (hasta_nulo contenido)
        (escribir_bloque s (some ((file, t), numero, contenido)))
unfolding escribir_bloque
escribir_bloque-ResultadoEscritura s file t numero contenido h =
    let fallo = ResultadoEscritura-fallo s (ruta file t) numero (hasta_nulo contenido) in
    elim (Bool-cases (es_protegido file t)) [
      | inl b ↦ rw b fallo
      | inr b ↦ rw b (elim (Bool-cases (verificar_si_commited s (ruta file t))) [
        | inl c ↦ rw c fallo
        | inr c ↦ rw c (elim (Bool-cases (es_vacia file || es_vacia t)) [
          | inl v ↦ rw v fallo
          | inr v ↦ rw v (elim (Option-cases (config_de s (ruta file t))) [
            | inl e ↦ rw e fallo
            | inr ((d, m), e) ↦ rw e (elim (Option-cases (indice_valido s m numero)) [
              | inl k ↦ rw k fallo
              | inr (i, k) ↦
                  let (num, _) = indice_valido-pos s m numero i k in
                  rw (k, num)
                    (escribir_en-ResultadoEscritura s (ruta file t) i (get_or m.blocks i 0)
                      (hasta_nulo contenido) h)
            ])
          ])
        ])
      ])
    ]

-- On a file system in order, either `escribir_bloque` answers true, the block number is from 0 on, the content
-- of that block is the one written, up to its first NUL, with zeros up to the size of a block, every other logical block of
-- every File:Tag shows what it showed, and one physical block more is taken, one that was free, and none
-- is given back; or it answers false, and no content changed.
pub escribir_bloque-Escrita :
    (s : Storage) (file t : Cadena) (numero : ℤ) (contenido : List ℕ)
    → IsSano s
    → let x = escribir_bloque s (some ((file, t), numero, contenido)) in
      let v = vista s in
      let escrito = some (rellenar s.tamanio_bloque (hasta_nulo contenido)) in
      ((x.0 ≡ true)
        × ((i : ℕ) × (nuevo : ℕ) × (numero ≡ pos i)
            × Muestra x.1 (con_bloque v (ruta file t) i escrito)
            × (test_bit s nuevo ≡ false)
            × (x.1.bitmap ≡ set s.bitmap nuevo true)))
      ⊎ ((x.0 ≡ false) × Muestra x.1 v)
escribir_bloque-Escrita s file t numero contenido h =
    let (bien, mal) = escribir_bloque-ResultadoEscritura s file t numero contenido h in
    elim (Bool-cases (escribir_bloque s (some ((file, t), numero, contenido))).0) [
      | inl b ↦
          let (i, num, (muestra, (nuevo, libre, bits), forma)) = bien b in
          inl (b, (i, nuevo, num, muestra, libre, bits))
      | inr b ↦ inr (b, mal b)
    ]
