-- ===== src/Collections/Drop.antt =====
-- Deleting a whole collection: at once, or later by the garbage collection.
use tidis.Base.{
  ℕ, ◌<◌, ◌≡◌, ◌≢◌, Bool, true, false, inl, inr, Bool-cases, none, some, [], ◌∷◌, arith,
}
use tidis.Base.Int.{pos, ltb_ℤ}
use tidis.Bytes.{Bytes, u16_mod, u16_be}
use tidis.Bytes.Lex.{bytes_eq_refl}
use tidis.Encoding.{DataType}
use tidis.Encoding.Encode.{
  data_type_meta, data_key_range, encode_txnkv_gc_key, encode_txnkv_gc_version_key, get_type_bytes,
}
use tidis.Encoding.Decode.{
  decode_key_meta, decode_key_ttl, decode_key_version, decode_key_index_size,
}
use tidis.Encoding.Apart.{gc-ne-meta, gc_version-ne-meta, gc_version-ne-gc}
use tidis.Frame.{as_i64}
use tidis.Config.{Settings}
use tidis.Txn.{Txn}
use tidis.Txn.Steps.{delete_keys}
use tidis.Collections.{meta_key, delete_sizes, drop_collection}
use tidis.Collections.Holds.{Gone}
use tidis.Collections.Gone.{purged}

pub version_of_meta :
    (value : Bytes) (ttl version index : ℕ)
    → decode_key_meta value ≡ some (ttl, version, index)
    → decode_key_version value ≡ some version
unfolding decode_key_meta
version_of_meta value ttl version index h =
    ground (arith, decode_key_ttl value, decode_key_version value, decode_key_index_size value, h)

module _ (c : Settings) (T : Txn) (dt : DataType) (t : ℕ) (apart : t ≢ data_type_meta) (key : Bytes)
    (version : ℕ) (hv : version < u16_mod) where
  -- After the deletion of a collection, large (`true`) or not.
  abbrev pub Dropped : Bool → T.State → Type 0
  Dropped true s' =
      (T.get s' (meta_key c T key) ≡ none)
      × (T.get s' (encode_txnkv_gc_key c.encoder key) ≡ some (u16_be version))
      × (T.get s' (encode_txnkv_gc_version_key c.encoder key version)
          ≡ some (get_type_bytes dt ∷ []))
  Dropped false s' = Gone c T t s' key version

  abbrev pub purge : T.State → T.State
  purge s =
      let s1 = delete_sizes c T key version s in
      delete_keys T (T.scan_keys s1 (data_key_range c.encoder t key version)) s1

  pub drop_collection-Dropped :
      (threshold size : ℕ) (s : T.State)
      → Dropped
          (ltb_ℤ (pos threshold) (as_i64 size))
          (drop_collection c T dt threshold purge key version size s)
  unfolding drop_collection
  drop_collection-Dropped threshold size s =
      elim (Bool-cases (ltb_ℤ (pos threshold) (as_i64 size))) [
        | inl large ↦ rw large (
          simp (
            T.get-put,
            T.get-delete,
            gc_version-ne-meta c.encoder,
            gc-ne-meta c.encoder,
            bytes_eq_refl,
          ),
          simp (T.get-put, gc_version-ne-gc c.encoder, bytes_eq_refl),
          simp (T.get-put, bytes_eq_refl),
        )
        | inr small ↦ rw small (purged c T t apart key version hv s)
      ]
