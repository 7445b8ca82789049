-- ===== src/Hashes.antt =====
-- src/tikv/hash.rs: the hash commands, each as the closure that it runs in a transaction. `idx` is the
-- index of the counter that the command changes, from `gen_next_meta_index`. Fields are valid UTF-8, as
-- `String::from_utf8_lossy` leaves those alone.
pub mod Fields
pub mod Change
pub mod Laws
pub mod Put
pub mod Take
pub mod Examples
use tidis.Base.{ℕ, Bool, true, false, Option, none, some, List, [], ◌∷◌, map, length, if◌then◌else◌}
use tidis.Base.Int.{ℤ, pos}
use tidis.Bytes.{Bytes, u64_be, sub64}
use tidis.Encoding.{DataType}
use tidis.Encoding.Encode.{
  encode_txnkv_hash_data_key, encode_txnkv_hash_data_key_range, encode_txnkv_hash_meta_value,
}
use tidis.Encoding.Decode.{decode_key_meta}
use tidis.Frame.{Frame, wrong_type, resp_ok, resp_int, as_i64}
use tidis.Config.{
  Settings, key_is_expired, async_del_hash_threshold_or_default,
  async_expire_hash_threshold_or_default,
}
use tidis.Version.{get_version_for_new}
use tidis.Txn.{Txn, is_some, first}
use tidis.Txn.Exec.{Exec, panic, pure, raise, gets, unwrap, modify, ◌>>=◌, ◌>>◌}
use tidis.Txn.Steps.{read, write, delete_keys, put_all}
use tidis.Lists.{respond}
use tidis.Collections
use tidis.Collections.{
  Opened, missing, other_type, expired, live, count_unique_keys, open_collection,
  txnkv_sum_key_size, drop_collection, delete_sizes, raise_size, meta_key,
}

module _ (c : Settings) (T : Txn) where
  abbrev pub field_key : Bytes → ℕ → Bytes → Bytes
  field_key key version field = encode_txnkv_hash_data_key c.encoder key field version

  abbrev pub field_keys : Bytes → ℕ → List Bytes → List Bytes
  field_keys key version [] = []
  field_keys key version (f ∷ fs) = field_key key version f ∷ field_keys key version fs

  -- the data keys of fields with their values
  abbrev pub field_pairs : Bytes → ℕ → List (Bytes × Bytes) → List (Bytes × Bytes)
  field_pairs key version [] = []
  field_pairs key version ((f, v) ∷ fvs) =
      (field_key key version f, v) ∷ field_pairs key version fvs

  -- a hash that is deleted at once: its fields, and its counters
  abbrev pub purge_hash : Bytes → ℕ → T.State → T.State
  purge_hash key version s =
      let range = encode_txnkv_hash_data_key_range c.encoder key version in
      delete_sizes c T key version (delete_keys T (T.scan_keys s range) s)

  hash_del_found : Bytes → Option Bytes → Exec T.State ℕ
  hash_del_found key none = pure 0
  hash_del_found key (some meta) = do
    (ttl, version, index) ← unwrap (decode_key_meta meta)
    size ← txnkv_sum_key_size c T DataType.hash key version
    modify (
        drop_collection c T DataType.hash (async_del_hash_threshold_or_default c)
          (purge_hash key version) key version size)
    pure 1

  -- `do_async_txnkv_hash_del`
  unfoldable pub hash_del : Bytes → Exec T.State ℕ
  unfolding hash_del_found txnkv_sum_key_size drop_collection
  hash_del key = do meta ← read T (meta_key c T key); hash_del_found key meta

  hash_expire_found : ℕ → Bytes → Option Bytes → Exec T.State ℕ
  hash_expire_found now key none = pure 0
  hash_expire_found now key (some meta) = do
    (ttl, version, index) ← unwrap (decode_key_meta meta)
    if key_is_expired now ttl
        then (do
          size ← txnkv_sum_key_size c T DataType.hash key version
          modify (
              drop_collection c T DataType.hash (async_expire_hash_threshold_or_default c)
                (purge_hash key version) key version size)
          pure 1)
        else pure 0

  -- `do_async_txnkv_hash_expire_if_needed`
  unfoldable pub hash_expire_if_needed : ℕ → Bytes → Exec T.State ℕ
  unfolding hash_expire_found txnkv_sum_key_size drop_collection
  hash_expire_if_needed now key = do
    meta ← read T (meta_key c T key)
    hash_expire_found now key meta

  abbrev pub open_hash : ℕ → Bytes → Exec T.State Opened
  open_hash now key = open_collection c T DataType.hash now (hash_expire_if_needed now key) key

  -- the meta value that HSET and HINCRBY write
  abbrev pub hash_meta : ℕ → ℕ → Bytes
  hash_meta ttl version =
      encode_txnkv_hash_meta_value c.encoder ttl version c.encoder.meta_key_number

  -- the number of new fields; HSETNX takes it to be 1
  abbrev pub hset_added : Bool → List Bytes → Exec T.State ℕ
  hset_added true keys = pure 1
  hset_added false keys = do
    found ← gets (λ s. T.batch_get s keys)
    pure (sub64 (count_unique_keys keys) (length found))

  -- HSET to a hash that is there, or that has just expired
  unfoldable pub hset_to : Bytes → List (Bytes × Bytes) → ℕ → Bool → Bool → ℕ → ℕ → Exec T.State ℕ
  hset_to key fvs idx is_nx expired_now ttl version = do
    added ← hset_added is_nx (field_keys key version (map first fvs))
    modify (put_all T (field_pairs key version fvs))
    raise_size c T key version idx added
    if expired_now then write T (meta_key c T key) (hash_meta ttl version) else pure tt
    pure (length fvs)

  -- HSETNX writes only a field that is not there; with no field, `unwrap` panics.
  hset_live : Bytes → List (Bytes × Bytes) → ℕ → Bool → ℕ → ℕ → Exec T.State ℕ
  unfolding hset_to
  hset_live key fvs idx false ttl version = hset_to key fvs idx false false ttl version
  hset_live key [] idx true ttl version = λ s. (panic, s)
  hset_live key ((f, v) ∷ fvs) idx true ttl version = do
    old ← read T (field_key key version f)
    if is_some old then pure 0 else hset_to key ((f, v) ∷ fvs) idx true false ttl version

  -- HSET to a new hash
  unfoldable pub hset_new : Bytes → List (Bytes × Bytes) → ℕ → ℕ → Exec T.State ℕ
  hset_new key fvs idx version = do
    let keys = field_keys key version (map first fvs)
    modify (put_all T (field_pairs key version fvs))
    write T (meta_key c T key) (hash_meta 0 version)
    write T (Collections.size_key c T key version idx) (u64_be (count_unique_keys keys))
    pure (length fvs)

  hset_opened : Bytes → List (Bytes × Bytes) → ℕ → Bool → Opened → Exec T.State ℕ
  unfolding hset_to hset_new hset_live
  hset_opened key fvs idx is_nx missing = do
    version ← get_version_for_new c T key
    hset_new key fvs idx version
  hset_opened key fvs idx is_nx other_type = raise wrong_type
  hset_opened key fvs idx is_nx (expired ttl) = do
    version ← get_version_for_new c T key
    hset_to key fvs idx is_nx true ttl version
  hset_opened key fvs idx is_nx (live ttl version) = hset_live key fvs idx is_nx ttl version

  abbrev pub hset_reply : Bool → ℕ → Frame
  hset_reply true n = resp_ok
  hset_reply false n = resp_int (as_i64 n)

  -- `do_async_txnkv_hset`, of HSET, HMSET and HSETNX
  unfoldable pub hset : ℕ → Bytes → List (Bytes × Bytes) → Bool → Bool → ℕ → Exec T.State Frame
  unfolding hset_opened
  hset now key fvs is_hmset is_nx idx =
      respond (hset_reply is_hmset) (do o ← open_hash now key; hset_opened key fvs idx is_nx o)
