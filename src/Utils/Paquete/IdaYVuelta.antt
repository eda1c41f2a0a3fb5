-- ===== src/Utils/Paquete/IdaYVuelta.antt =====
-- utils/src/paquete.c: what one process sends is what the other receives.
use mathlib.Core.List.{foldl, append-nil, append_assoc}
use tp_2025_2c_kernel_panic.Prelude.{
  Bool, Bool-cases, ◌⊎◌, inl, inr, true, none, ℕ, zero, suc, ◌+◌, ◌^◌, ◌<◌, ◌≤◌, ◌≡◌, refl, ap, sym,
  ◌∙◌, List, [], ◌∷◌, ◌++◌, some, length, take-append, take-length, drop-append, length-append,
  arith, false,
}
use tp_2025_2c_kernel_panic.Utils.Paquete.Enteros.{
  bytes_de_int, int_de_bytes, es_negativo, length-bytes_de_int, int_de_bytes-bytes_de_int,
}
use tp_2025_2c_kernel_panic.Utils.Paquete.{
  bytes_de_paquete, Paquete, crear_buffer, crear_paquete, agregar_a_paquete, serializar_paquete,
  separar_valores, recibir_buffer, recibir_paquete, valores_de, leido, recibido,
}

-- A packet as the senders build it: created, then one call for each value.
abbrev pub armar : ℕ → List (List ℕ) → Paquete
armar code valores = foldl agregar_a_paquete (crear_paquete code crear_buffer) valores

-- The bytes that the values take in the buffer.
abbrev pub tamanio_de : List (List ℕ) → ℕ
tamanio_de [] = 0
tamanio_de (v ∷ vs) = length v + 4 + tamanio_de vs

-- The buffer that the values make, read from the front.
unfoldable pub codificar : List (List ℕ) → List ℕ
codificar [] = []
codificar (v ∷ vs) = bytes_de_int (length v) ++ (v ++ codificar vs)

pub length-codificar : (vs : List (List ℕ)) → length (codificar vs) ≡ tamanio_de vs
unfolding codificar bytes_de_int
length-codificar [] = refl
length-codificar (v ∷ vs) = omega (arith, length-append v (codificar vs), length-codificar vs)

-- The accumulated buffer is the encoding, and its size does not wrap below 2 ^ 31.
record Lleva (code : ℕ) (bytes : List ℕ) (p : Paquete) : Type 0 where
  codigo_es : p.codigo_operacion ≡ code
  size_es : p.buffer.size ≡ length bytes
  stream_es : p.buffer.stream ≡ bytes

agregar_a_paquete-Lleva :
    (v : List ℕ) (code : ℕ) (bytes : List ℕ) (p : Paquete)
    → Lleva code bytes p
    → length bytes + (length v + 4) < 2 ^ 31
    → Lleva code (bytes ++ (bytes_de_int (length v) ++ v)) (agregar_a_paquete p v)
unfolding agregar_a_paquete
agregar_a_paquete-Lleva v code bytes p l h = record {
  codigo_es = l.codigo_es;
  size_es = omega (
    arith,
    l.size_es,
    length-append bytes (bytes_de_int (length v) ++ v),
    length-append (bytes_de_int (length v)) v,
    length-bytes_de_int (length v),
  );
  stream_es = rw l.stream_es;
}

reagrupar : (a b c d : List ℕ) → a ++ (b ++ (c ++ d)) ≡ (a ++ (b ++ c)) ++ d
reagrupar a b c d = simp append_assoc

foldl-agregar_a_paquete :
    (vs : List (List ℕ)) (code : ℕ) (bytes : List ℕ) (p : Paquete)
    → Lleva code bytes p
    → length bytes + tamanio_de vs < 2 ^ 31
    → Lleva code (bytes ++ codificar vs) (foldl agregar_a_paquete p vs)
unfolding codificar
foldl-agregar_a_paquete [] code bytes p l h = rw append-nil l
foldl-agregar_a_paquete (v ∷ vs) code bytes p l h =
    rw (reagrupar bytes (bytes_de_int (length v)) v (codificar vs)) (
      foldl-agregar_a_paquete vs code _ _ (agregar_a_paquete-Lleva v code bytes p l (omega arith)) (
        omega (
          arith,
          length-append bytes (bytes_de_int (length v) ++ v),
          length-append (bytes_de_int (length v)) v,
          length-bytes_de_int (length v),
        )))

armar-Lleva :
    (code : ℕ) (vs : List (List ℕ))
    → tamanio_de vs < 2 ^ 31
    → Lleva code (codificar vs) (armar code vs)
unfolding crear_paquete crear_buffer
armar-Lleva code vs h =
    foldl-agregar_a_paquete vs code [] _
      (record { codigo_es = refl; size_es = refl; stream_es = refl }) (omega arith)

pub serializar-armar :
    (code : ℕ) (vs : List (List ℕ))
    → tamanio_de vs < 2 ^ 31
    → bytes_de_paquete (armar code vs)
      ≡ bytes_de_int code ++ (bytes_de_int (tamanio_de vs) ++ codificar vs)
unfolding bytes_de_paquete
serializar-armar code vs h =
    let l = armar-Lleva code vs h in
    rw (l.codigo_es, l.size_es, l.stream_es, length-codificar)
      (rw (take-length (codificar vs) (tamanio_de vs) (sym (length-codificar vs))))

pub no_negativo : (n : ℕ) → n < 2 ^ 31 → es_negativo n ≡ false
unfolding es_negativo
no_negativo n h = ground arith

-- One round of the loop, on a size and that many bytes.
separar_valores-cons :
    (b c d e : ℕ) (v resto : List ℕ) (fuel : ℕ) {valores : List (List ℕ)}
    → int_de_bytes (b ∷ c ∷ d ∷ e ∷ []) ≡ length v
    → es_negativo (length v) ≡ false
    → separar_valores fuel resto ≡ some valores
    → separar_valores (suc fuel) (b ∷ c ∷ d ∷ e ∷ (v ++ resto)) ≡ some (v ∷ valores)
unfolding separar_valores
separar_valores-cons b c d e v resto fuel largo signo siguientes = ground (
  arith,
  take-append v resto (length v) refl,
  drop-append v resto (length v) refl,
  length-append v resto,
)

-- Enough rounds take the values apart again.
separar_valores-codificar :
    (vs : List (List ℕ)) (fuel : ℕ)
    → tamanio_de vs < 2 ^ 31
    → tamanio_de vs ≤ fuel
    → separar_valores fuel (codificar vs) ≡ some vs
unfolding separar_valores codificar bytes_de_int
separar_valores-codificar [] fuel small h = refl
separar_valores-codificar (v ∷ vs) zero small h = absurd (omega arith)
separar_valores-codificar (v ∷ vs) (suc fuel) small h =
    separar_valores-cons _ _ _ _ v (codificar vs) fuel
      (int_de_bytes-bytes_de_int (length v) (omega arith)) (no_negativo (length v) (omega arith))
      (separar_valores-codificar vs fuel (omega arith) (omega arith))

-- The header: what is read behind the size.
recibir_buffer-cons :
    (b c d e : ℕ) (cuerpo resto : List ℕ)
    → int_de_bytes (b ∷ c ∷ d ∷ e ∷ []) ≡ length cuerpo
    → es_negativo (length cuerpo) ≡ false
    → recibir_buffer (b ∷ c ∷ d ∷ e ∷ (cuerpo ++ resto)) ≡ leido (length cuerpo) cuerpo resto
unfolding recibir_buffer
recibir_buffer-cons b c d e [] resto largo signo = ground arith
recibir_buffer-cons b c d e (x ∷ cuerpo) resto largo signo = ground (
  arith,
  take-append (x ∷ cuerpo) resto (length (x ∷ cuerpo)) refl,
  drop-append (x ∷ cuerpo) resto (length (x ∷ cuerpo)) refl,
  length-append (x ∷ cuerpo) resto,
)

recibir_paquete-cons :
    (b c d e : ℕ) (resto : List ℕ)
    → recibir_paquete (b ∷ c ∷ d ∷ e ∷ resto)
      ≡ valores_de (int_de_bytes (b ∷ c ∷ d ∷ e ∷ [])) (recibir_buffer resto)
unfolding recibir_paquete
recibir_paquete-cons b c d e resto = ground arith

recibir_buffer-bytes_de_int :
    (cuerpo resto : List ℕ)
    → length cuerpo < 2 ^ 31
    → recibir_buffer (bytes_de_int (length cuerpo) ++ (cuerpo ++ resto))
      ≡ leido (length cuerpo) cuerpo resto
unfolding bytes_de_int
recibir_buffer-bytes_de_int cuerpo resto h =
    recibir_buffer-cons _ _ _ _ cuerpo resto
      (int_de_bytes-bytes_de_int (length cuerpo) (omega arith)) (no_negativo (length cuerpo) h)

pub recibir_paquete-bytes_de_int :
    (code : ℕ) (bytes : List ℕ)
    → code < 2 ^ 31
    → recibir_paquete (bytes_de_int code ++ bytes) ≡ valores_de code (recibir_buffer bytes)
unfolding bytes_de_int
recibir_paquete-bytes_de_int code bytes h =
    recibir_paquete-cons _ _ _ _ bytes
    ∙ ap (λ c. valores_de c (recibir_buffer bytes)) (int_de_bytes-bytes_de_int code (omega arith))

valores_de-codificar :
    (code : ℕ) (vs : List (List ℕ)) (resto : List ℕ)
    → tamanio_de vs < 2 ^ 31
    → valores_de code (leido (tamanio_de vs) (codificar vs) resto) ≡ recibido code vs resto
unfolding valores_de
valores_de-codificar code vs resto h = ground (
  arith,
  no_negativo (tamanio_de vs) h,
  separar_valores-codificar vs (tamanio_de vs) h (omega arith),
)

recibir_paquete-bytes_de_paquete :
    (code : ℕ) (vs : List (List ℕ)) (resto : List ℕ)
    → code < 2 ^ 31
    → tamanio_de vs < 2 ^ 31
    → recibir_paquete (bytes_de_paquete (armar code vs) ++ resto) ≡ recibido code vs resto
recibir_paquete-bytes_de_paquete code vs resto hc h =
    let largo = length-codificar vs in
    let cabecera = recibir_buffer-bytes_de_int (codificar vs) resto (omega arith) in
    rw
      (
        serializar-armar code vs h,
        append_assoc (bytes_de_int code),
        append_assoc (bytes_de_int (tamanio_de vs)),
        recibir_paquete-bytes_de_int code _ hc,
      )
      ((rw largo at (ap (valores_de code) cabecera)) ∙ valores_de-codificar code vs resto h)

-- `serializar_paquete` answers NULL exactly when `malloc` gives no buffer of the bytes. What it writes otherwise
-- of a packet of less than 2 ^ 31 bytes is what `recibir_paquete` takes from the front of the socket:
-- the same code and the same values, and the bytes behind the packet stay for the next call.
pub recibir_paquete-serializar_paquete :
    (malloc : ℕ → Bool) (bytes code : ℕ) (vs : List (List ℕ)) (resto : List ℕ)
    → code < 2 ^ 31
    → tamanio_de vs < 2 ^ 31
    → let x = serializar_paquete malloc (armar code vs) bytes in
      ((malloc bytes ≡ false) × (x ≡ none))
      ⊎ ((malloc bytes ≡ true)
          × ((escritos : List ℕ) × (x ≡ some escritos)
              × (recibir_paquete (escritos ++ resto) ≡ recibido code vs resto)))
unfolding serializar_paquete
recibir_paquete-serializar_paquete malloc bytes code vs resto hc h =
    elim (Bool-cases (malloc bytes)) [
      | inr b ↦ rw b (inl (refl, refl))
      | inl b ↦ rw b (
          inr (
            refl,
            (
              bytes_de_paquete (armar code vs),
              refl,
              recibir_paquete-bytes_de_paquete code vs resto hc h,
            ),
          ))
    ]
