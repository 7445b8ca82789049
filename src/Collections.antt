-- ===== src/Collections.antt =====
-- What src/tikv/hash.rs and src/tikv/set.rs share: a collection has a meta value (type, expiry, version), one data
-- key for each item, and its size as the sum of counters under sub meta keys, of which every command
-- changes one, at an index that `gen_next_meta_index` chose.
pub mod Sizes
pub mod Items
pub mod Holds
pub mod Changes
pub mod Counts
pub mod Gone
pub mod Taken
pub mod Drop
use tidis.Base.{
  ℕ, ◌+◌, ◌-◌, ◌^◌, Bool, true, false, Option, none, some, List, [], ◌∷◌, map, length, ltb, leb,
  if◌then◌else◌,
}
use tidis.Base.Int.{ℤ, pos, ltb_ℤ}
use tidis.Bytes.{Bytes, u16_be, u64_be, add64, sub64, from_be}
use tidis.Encoding.{DataType}
use tidis.Encoding.Encode.{
  encode_txnkv_meta_key, encode_txnkv_gc_key, encode_txnkv_gc_version_key,
  encode_txnkv_sub_meta_key, encode_txnkv_sub_meta_key_range, get_type_bytes,
}
use tidis.Encoding.Decode.{decode_key_type, decode_key_meta, word}
use tidis.Frame.{Frame, Error, wrong_type, resp_err, as_i64}
use tidis.Config.{Settings, key_is_expired}
use tidis.Txn.{Txn, contains}
use tidis.Txn.Exec.{Exec, Result, ok, err, panic, pure, raise, gets, unwrap, modify, ◌>>=◌, ◌>>◌}
use tidis.Txn.Steps.{read, write, delete_keys}

abbrev pub is_type : DataType → DataType → Bool
is_type DataType.hash DataType.hash = true
is_type DataType.set DataType.set = true
is_type DataType.zset DataType.zset = true
is_type _ _ = false

-- `count_unique_keys` of src/utils.rs
abbrev pub count_unique_keys : List Bytes → ℕ
count_unique_keys [] = 0
count_unique_keys (k ∷ ks) =
    if contains ks k then count_unique_keys ks else count_unique_keys ks + 1

-- The sum of the counters, which are i64 and wrap; `none` is the panic on a value of another length.
abbrev pub sum_sizes : List (Bytes × Bytes) → Option ℕ
sum_sizes [] = some 0
sum_sizes ((k, v) ∷ pairs) = elim (word 8 v) [
  | none ↦ none
  | some n ↦ elim (sum_sizes pairs) [ none ↦ none | some m ↦ some (add64 n m) ]
]

-- The counter at a sub meta key, raised or lowered by `d`; it is made if it is not there.
abbrev pub raised : ℕ → Option Bytes → Option ℕ
raised d none = some d
raised d (some v) = elim (word 8 v) [ none ↦ none | some n ↦ some (add64 n d) ]

abbrev pub lowered : ℕ → Option Bytes → Option ℕ
lowered d none = some (sub64 0 d)
lowered d (some v) = elim (word 8 v) [ none ↦ none | some n ↦ some (sub64 n d) ]

-- What a command finds at its key, past the tests of type and expiry.
pub data Opened : Type 0 where
  missing : Opened
  other_type : Opened
  expired : (ttl : ℕ) → Opened
  live : (ttl version : ℕ) → Opened

module _ (c : Settings) (T : Txn) where
  abbrev pub meta_key : Bytes → Bytes
  meta_key key = encode_txnkv_meta_key c.encoder key

  abbrev pub size_key : Bytes → ℕ → ℕ → Bytes
  size_key key version idx = encode_txnkv_sub_meta_key c.encoder key version idx

  -- `assert!(sum > 0)`
  abbrev pub positive : ℕ → Exec T.State ℕ
  positive total = if ltb_ℤ (pos 0) (as_i64 total) then pure total else (λ s. (panic, s))

  abbrev pub sum_typed : DataType → Bytes → ℕ → DataType → Exec T.State ℕ
  sum_typed dt key version t =
      if is_type dt t
      then (do
        pairs ← gets (λ s. T.scan s (encode_txnkv_sub_meta_key_range c.encoder key version))
        total ← unwrap (sum_sizes pairs)
        positive total)
      else raise wrong_type

  abbrev pub sum_found : DataType → Bytes → ℕ → Option Bytes → Exec T.State ℕ
  sum_found dt key version none = pure 0
  sum_found dt key version (some meta) = do
    t ← unwrap (decode_key_type meta)
    sum_typed dt key version t

  -- `txnkv_sum_key_size`, of the collections of type `dt`
  unfoldable pub txnkv_sum_key_size : DataType → Bytes → ℕ → Exec T.State ℕ
  txnkv_sum_key_size dt key version = do meta ← read T (meta_key key); sum_found dt key version meta

  -- A large collection is left to the garbage collection, which finds it by its version.
  unfoldable pub drop_large : DataType → Bytes → ℕ → T.State → T.State
  drop_large dt key version s =
      let s1 = T.delete s (meta_key key) in
      let s2 = T.put s1 (encode_txnkv_gc_key c.encoder key) (u16_be version) in
      T.put s2 (encode_txnkv_gc_version_key c.encoder key version) (get_type_bytes dt ∷ [])

  -- The end of a deletion; a small collection is deleted by `purge`, and its meta value with it.
  unfoldable pub drop_collection :
      DataType → ℕ → (T.State → T.State) → Bytes → ℕ → ℕ → T.State → T.State
  unfolding drop_large
  drop_collection dt threshold purge key version size s =
      if ltb_ℤ (pos threshold) (as_i64 size)
      then drop_large dt key version s
      else T.delete (purge s) (meta_key key)

  -- The deletion of the counters.
  abbrev pub delete_sizes : Bytes → ℕ → T.State → T.State
  delete_sizes key version s =
      delete_keys T (T.scan_keys s (encode_txnkv_sub_meta_key_range c.encoder key version)) s

  abbrev pub raise_size : Bytes → ℕ → ℕ → ℕ → Exec T.State (Unit {0})
  raise_size key version idx d = do
    old ← read T (size_key key version idx)
    new ← unwrap (raised d old)
    write T (size_key key version idx) (u64_be new)

  abbrev pub lower_size : Bytes → ℕ → ℕ → ℕ → Exec T.State (Unit {0})
  lower_size key version idx d = do
    old ← read T (size_key key version idx)
    new ← unwrap (lowered d old)
    write T (size_key key version idx) (u64_be new)

  -- After `removed` items have been deleted: the meta value and the counters go with the last one; else a
  -- counter is lowered.
  unfoldable pub take_off : Bytes → ℕ → ℕ → ℕ → ℕ → Exec T.State (Unit {0})
  take_off key version idx removed size =
      if ltb_ℤ (as_i64 removed) (as_i64 size)
      then lower_size key version idx removed
      else modify (λ s. delete_sizes key version (T.delete s (meta_key key)))

  open_typed : DataType → ℕ → Exec T.State ℕ → Bytes → DataType → Exec T.State Opened
  open_typed dt now expire meta t =
      if is_type dt t
      then (do
        (ttl, version, size) ← unwrap (decode_key_meta meta)
        if key_is_expired now ttl then (expire >> pure (expired ttl)) else pure (live ttl version))
      else pure other_type

  open_found : DataType → ℕ → Exec T.State ℕ → Option Bytes → Exec T.State Opened
  unfolding open_typed
  open_found dt now expire none = pure missing
  open_found dt now expire (some meta) = do
    t ← unwrap (decode_key_type meta)
    open_typed dt now expire meta t

  -- How every command begins; `expire` is the `expire_if_needed` of the collection.
  unfoldable pub open_collection : DataType → ℕ → Exec T.State ℕ → Bytes → Exec T.State Opened
  unfolding open_found
  open_collection dt now expire key = do meta ← read T (meta_key key); open_found dt now expire meta
