-- ===== src/Worker/Memoria/Bien/Sigue.antt =====
-- worker/src/memoria.c: the operations that leave the frames, the tables and the LRU list as they are.
use tp_2025_2c_kernel_panic.Prelude.{
  ℕ, zero, suc, ◌≡◌, inl, inr, refl, sym, ◌∙◌, subst, List, [], ◌∷◌, Option, none, some, Bool, true,
  false, Bool-cases, Cadena, get_or, set, length-set, if◌then◌else◌, ◌==◌, leb, pos_part,
}
use tp_2025_2c_kernel_panic.Worker.Memoria.Estado.{
  EntradaPagina, ClockM, MemoriaInterna, Mensaje, Sistema, entrada_vacia, entrada_en,
  clave_file_tag,
}
use tp_2025_2c_kernel_panic.Utils.Protocolo.{codigo, storage_send_ok_read_block}
use tp_2025_2c_kernel_panic.Utils.Paquete.Enteros.{int_de_bytes}
use tp_2025_2c_kernel_panic.Worker.Memoria.Paginas.{
  es_lru, limpiar, flush_tabla, flush_paginas_modificadas,
}
use tp_2025_2c_kernel_panic.Worker.Memoria.Reemplazo.{
  flush_por_swap, recibir_bloque, pedir_bloque_storage,
}
use tp_2025_2c_kernel_panic.Worker.Memoria.Acceso.{Acceso, lectura, escritura, marcar, copiar}
use tp_2025_2c_kernel_panic.Worker.Memoria.Bien.{partes, BienDe, IsBien, marco_de, clave_de}
use tp_2025_2c_kernel_panic.Worker.Memoria.Bien.Movimientos.{Mismas, cambia_entradas}

abbrev pub Sigue : MemoriaInterna → MemoriaInterna → Type 0
Sigue mem t = Mismas mem.entradas t.entradas × (partes t ≡ partes mem)

pub Sigue-IsBien : (mem t : MemoriaInterna) → Sigue mem t → IsBien mem → IsBien t
Sigue-IsBien mem t (m, e) (b, c, d) =
    subst (BienDe t.entradas) (sym e) (cambia_entradas mem.entradas t.entradas m mem.marcos b, c, d)

pub Sigue-refl : (mem : MemoriaInterna) → Sigue mem mem
Sigue-refl mem = ((refl, (λ p. refl), (λ p. refl)), refl)

pub Sigue-trans : (a b c : MemoriaInterna) → Sigue a b → Sigue b c → Sigue a c
Sigue-trans a b c ((l, m, k), e) ((l', m', k'), e') =
    ((l' ∙ l, (λ p. m' p ∙ m p), (λ p. k' p ∙ k p)), e' ∙ e)

get_or-set_obs :
    {B : Type 0} (f : EntradaPagina → B) (xs : List EntradaPagina) (p : ℕ) (e : EntradaPagina)
    → f e ≡ f (get_or xs p entrada_vacia)
    → (q : ℕ) → f (get_or (set xs p e) q entrada_vacia) ≡ f (get_or xs q entrada_vacia)
get_or-set_obs f [] p e h q = refl
get_or-set_obs f (x ∷ xs) zero e h zero = h
get_or-set_obs f (x ∷ xs) zero e h (suc q) = refl
get_or-set_obs f (x ∷ xs) (suc p) e h zero = refl
get_or-set_obs f (x ∷ xs) (suc p) e h (suc q) = get_or-set_obs f xs p e h q

pub Mismas-set :
    (xs : List EntradaPagina) (p : ℕ) (e : EntradaPagina)
    → e.marco ≡ marco_de xs p
    → clave_file_tag e.file e.tag ≡ clave_de xs p
    → Mismas xs (set xs p e)
Mismas-set xs p e h k = (
  length-set xs p e,
  get_or-set_obs (λ (x : EntradaPagina). x.marco) xs p e h,
  get_or-set_obs (λ (x : EntradaPagina). clave_file_tag x.file x.tag) xs p e k,
)

pub reloj_si :
    (b : Bool) (c d : ClockM)
    → c.cantidad_marcos ≡ d.cantidad_marcos
    → c.puntero ≡ d.puntero
    → ((if b then d else c).cantidad_marcos ≡ d.cantidad_marcos)
      × ((if b then d else c).puntero ≡ d.puntero)
reloj_si true c d h k = (refl, refl)
reloj_si false c d h k = (h, k)

limpiar-Sigue : (mem : MemoriaInterna) (p : ℕ) → Sigue mem (limpiar mem p)
unfolding limpiar
limpiar-Sigue mem p =
    let r = reloj_si (es_lru mem.algoritmo_reemplazo) _ mem.clock refl refl in
    (
      Mismas-set mem.entradas p _ refl refl,
      λ j. (
        mem.marcos,
        mem.lru_list,
        mem.tablas_paginas,
        es_lru mem.algoritmo_reemplazo,
        r.0 j,
        r.1 j,
      ),
    )

pub flush_tabla-Sigue :
    (mem : MemoriaInterna) (tabla : List ℕ) → Sigue mem (flush_tabla mem tabla).2
unfolding flush_tabla
flush_tabla-Sigue mem [] = Sigue-refl mem
flush_tabla-Sigue mem (p ∷ ps) = elim (Bool-cases (entrada_en mem p).modificada) [
  | inl b ↦ rw b (
      Sigue-trans mem (limpiar mem p) (flush_tabla (limpiar mem p) ps).2 (limpiar-Sigue mem p)
        (flush_tabla-Sigue (limpiar mem p) ps))
  | inr b ↦ rw b (flush_tabla-Sigue mem ps)
]

pub marcar-Sigue : (mem : MemoriaInterna) (p : ℕ) (b : Bool) → Sigue mem (marcar mem p b)
unfolding marcar
marcar-Sigue mem p b =
    let r = reloj_si (es_lru mem.algoritmo_reemplazo) _ mem.clock refl refl in
    (
      entradas b,
      λ j. (
        mem.marcos,
        mem.lru_list,
        mem.tablas_paginas,
        es_lru mem.algoritmo_reemplazo,
        r.0 j,
        r.1 j,
      ),
    )
  where
    entradas :
        (b : Bool)
        → Mismas mem.entradas (
            if b
            then set mem.entradas p (record (entrada_en mem p) { modificada = true })
            else mem.entradas)
    entradas true = Mismas-set mem.entradas p _ refl refl
    entradas false = (refl, (λ p. refl), (λ p. refl))

pub copiar-Sigue :
    (mem : MemoriaInterna) (acceso : Acceso) (p despl n procesados : ℕ)
    → Sigue mem (copiar mem acceso p despl n procesados).1
unfolding copiar
copiar-Sigue mem lectura p despl n procesados = Sigue-refl mem
copiar-Sigue mem (escritura c) p despl n procesados = ((refl, (λ p. refl), (λ p. refl)), refl)

pub en_ambas :
    {A : Type 0} (b : Bool) (P : A → Type 0) (x y : A) → P x → P y → P (if b then x else y)
en_ambas true P x y h k = h
en_ambas false P x y h k = k

module _ {R : Type 0} (atender : R → Mensaje → Option (List (List ℕ)) × R) where
  pub flush_por_swap-Sigue :
      (s : Sistema R) (query_id victima : ℕ)
      → Sigue s.mem (flush_por_swap atender s query_id victima).mem
  unfolding flush_por_swap flush_paginas_modificadas
  flush_por_swap-Sigue s query_id victima =
      elim (Bool-cases (entrada_en s.mem victima).modificada) [
        | inl b ↦ rw b (flush_tabla-Sigue s.mem _)
        | inr b ↦ rw b (Sigue-refl s.mem)
      ]

  recibir_bloque-Sigue :
      (s : Sistema R) (r : Option (List (List ℕ))) → Sigue s.mem (recibir_bloque atender s r).1.mem
  unfolding recibir_bloque
  recibir_bloque-Sigue s none = Sigue-refl s.mem
  recibir_bloque-Sigue s (some []) = Sigue-refl s.mem
  recibir_bloque-Sigue s (some (c ∷ [])) = Sigue-refl s.mem
  recibir_bloque-Sigue s (some (c ∷ contenido ∷ resto)) =
      en_ambas (int_de_bytes c == codigo storage_send_ok_read_block)
        (λ (r : Bool × Sistema R). Sigue s.mem r.1.mem) _ _ ((refl, (λ p. refl), (λ p. refl)), refl)
        (Sigue-refl s.mem)

  pub pedir_bloque_storage-Sigue :
      (s : Sistema R) (query_id : ℕ) (file t : Cadena) (num_pagina : ℕ)
      → Sigue s.mem (pedir_bloque_storage atender s query_id file t num_pagina).1.mem
  unfolding pedir_bloque_storage
  pedir_bloque_storage-Sigue s query_id file t num_pagina =
      en_ambas (leb (pos_part s.mem.socket_storage) 0)
        (λ (r : Bool × Sistema R). Sigue s.mem r.1.mem) _ _ (Sigue-refl s.mem)
        (recibir_bloque-Sigue _ _)
