-- ===== src/Storage/Commit.antt =====
-- storage/src/operaciones.c: the commit of a File:Tag, with the search for blocks that are there twice.
use tp_2025_2c_kernel_panic.Prelude.{
  ℕ, suc, List, [], ◌∷◌, ◌++◌, Option, none, some, Bool, true, false, ◌&&◌, Cadena, take,
  if◌then◌else◌, ◌==◌, ltb,
}
use tp_2025_2c_kernel_panic.Prelude.Diccionario.{dictionary_get, dictionary_put}
use tp_2025_2c_kernel_panic.Storage.Disco.{
  commited, Storage, ruta, es_protegido, cantidad_bloques, test_bit, desocupar, config_de, guardar,
  enlazar, desenlazar, persistir_bitmap, es_commited,
}

-- The state of the loop of `evitar_duplicidad`: the file system, the new list of blocks, and
-- `se_modifico_metadata`.
pub record Dedup : Type 0 where
  pub fs : Storage
  pub nuevos : List ℕ
  pub se_modifico : Bool

-- A block that stays as it is.
unfoldable pub conservar : Dedup → ℕ → Dedup
conservar e n = record e { nuevos = e.nuevos ++ n ∷ [] }

-- The bit of the block that was replaced is cleared, whatever else is linked to it.
unfoldable pub soltar_bit : Storage → ℕ → Storage
unfolding cantidad_bloques test_bit desocupar persistir_bitmap
soltar_bit s n =
    persistir_bitmap (if ltb n (cantidad_bloques s) && test_bit s n then desocupar s n else s)

-- The link of logical block `i` goes from one physical block to another.
unfoldable pub reasignar : Dedup → Cadena → ℕ → ℕ → ℕ → Dedup
unfolding desenlazar enlazar soltar_bit conservar
reasignar e r i actual existente = elim (desenlazar e.fs r i) [
  | none ↦ record (conservar e actual) { se_modifico = true }
  | some suelto ↦ elim (enlazar suelto r i existente) [
    | some t ↦ record {
      fs = soltar_bit t actual;
      nuevos = e.nuevos ++ existente ∷ [];
      se_modifico = true;
    }
    | none ↦ record {
      fs = elim (enlazar suelto r i actual) [ none ↦ suelto | some t ↦ t ];
      nuevos = e.nuevos ++ actual ∷ [];
      se_modifico = false;
    }
  ]
]

-- `crypto_md5` is the library's, on the bytes of a block.
module _ (crypto_md5 : List ℕ → Cadena) where
  -- `calcular_md5_por_bloque`: `none` when the block does not exist.
  unfoldable pub calcular_md5_por_bloque : Storage → ℕ → Option Cadena
  calcular_md5_por_bloque s n = elim (s.fisicos n) [
    | none ↦ none
    | some c ↦ some (crypto_md5 (take s.tamanio_bloque c))
  ]

  -- One turn of the loop, on the physical block of logical block `i`.
  unfoldable pub dedup_bloque : Dedup → Cadena → ℕ → ℕ → Dedup
  unfolding calcular_md5_por_bloque conservar reasignar
  dedup_bloque e r i actual =
      let fs = e.fs in
      elim (calcular_md5_por_bloque fs actual) [
        | none ↦ conservar e actual
        | some hash ↦ elim (dictionary_get fs.hash_index hash) [
          | none ↦
              conservar
                (record e {
                  fs = record fs { hash_index = dictionary_put fs.hash_index hash actual };
                })
                actual
          | some existente ↦
              if existente == actual then conservar e actual else reasignar e r i actual existente
        ]
      ]

  -- The loop over the physical blocks, from logical block `i` on.
  unfoldable pub dedup_desde : ℕ → Dedup → Cadena → List ℕ → Dedup
  unfolding dedup_bloque
  dedup_desde i e r [] = e
  dedup_desde i e r (n ∷ ns) = dedup_desde (suc i) (dedup_bloque e r i n) r ns

  -- `evitar_duplicidad`
  unfoldable pub evitar_duplicidad : Storage → Cadena → Storage
  unfolding dedup_desde
  evitar_duplicidad s r = elim (config_de s r) [
    | none ↦ s
    | some (d, m) ↦
        let e = dedup_desde 0 (record { fs = s; nuevos = []; se_modifico = false }) r m.blocks in
        if e.se_modifico then guardar e.fs r (record m { blocks = e.nuevos }) else e.fs
  ]

  unfoldable pub realizar_commit : Storage → Option (Cadena × Cadena) → Bool × Storage
  unfolding evitar_duplicidad guardar es_commited
  realizar_commit s none = (false, s)
  realizar_commit s (some (file, t)) =
      if es_protegido file t then (false, s) else elim (config_de s (ruta file t)) [
        | none ↦ (false, s)
        | some (d, m) ↦
            let u = evitar_duplicidad s (ruta file t) in
            if es_commited m.estado then (true, s) else elim (config_de u (ruta file t)) [
              | none ↦ (false, u)
              | some (e, k) ↦ (
                true,
                persistir_bitmap (guardar u (ruta file t) (record k { estado = commited })),
              )
            ]
      ]
