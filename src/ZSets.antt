-- ===== src/ZSets.antt =====
-- src/tikv/zset.rs: commands on sorted sets, each as the closure that it runs in a transaction. A member
-- has a data key, which holds its score, and a key of the score index, which holds the member; a score
-- is the bit pattern of an f64. `idx` is the index of the counter that a command changes.
pub mod Index
pub mod Write
pub mod One
pub mod Add
pub mod Laws
pub mod Raise
pub mod New
pub mod Put
pub mod Examples
pub mod Look
pub mod Remove
use tidis.Base.{ℕ, Bool, true, false, not, Option, none, some, List, [], ◌∷◌, ◌&&◌, if◌then◌else◌}
use tidis.Base.Int.{pos, ltb_ℤ}
use tidis.Bytes.{Bytes}
use tidis.Encoding.{DataType}
use tidis.Encoding.Encode.{
  encode_txnkv_zset_data_key, encode_txnkv_zset_data_key_range, encode_txnkv_zset_meta_value,
}
use tidis.Encoding.Decode.{decode_key_ttl, decode_key_version, decode_item_from_datakey}
use tidis.Encoding.Score.{is_nan, f64_ltb, encode_txnkv_zset_score_key, decode_key_zset_data_value}
use tidis.Frame.{Frame, wrong_type, resp_err, resp_int, as_i64}
use tidis.Config.{
  Settings, key_is_expired, async_del_zset_threshold_or_default,
  async_expire_zset_threshold_or_default,
}
use tidis.Txn.{Txn}
use tidis.Txn.Exec.{Exec, pure, gets, unwrap, modify, ◌>>=◌, ◌>>◌}
use tidis.Txn.Steps.{read, delete}
use tidis.Collections.{
  Opened, missing, other_type, expired, live, open_collection, txnkv_sum_key_size, delete_sizes,
  meta_key, drop_large,
}

-- `a == b` of f64, by their order
abbrev pub f64_eq : ℕ → ℕ → Bool
f64_eq a b = not (is_nan a) && (not (is_nan b) && (not (f64_ltb a b) && not (f64_ltb b a)))

module _ (c : Settings) (T : Txn) where
  abbrev pub member_key : Bytes → ℕ → Bytes → Bytes
  member_key key version m = encode_txnkv_zset_data_key c.encoder key m version

  abbrev pub score_key : Bytes → ℕ → ℕ → Bytes → Bytes
  score_key key version score m = encode_txnkv_zset_score_key c.encoder key score m version

  abbrev pub zset_meta : ℕ → ℕ → Bytes
  zset_meta ttl version = encode_txnkv_zset_meta_value c.encoder ttl version 0

  -- Each member's data key and its key in the index.
  delete_pairs : Bytes → ℕ → List (Bytes × Bytes) → Exec T.State (Unit {0})
  unfolding decode_key_zset_data_value decode_item_from_datakey
  delete_pairs key version [] = pure tt
  delete_pairs key version ((k, v) ∷ pairs) = do
    score ← unwrap (decode_key_zset_data_value v)
    m ← unwrap (decode_item_from_datakey key k)
    delete T k
    delete T (score_key key version score m)
    delete_pairs key version pairs

  -- a sorted set that is deleted at once: its members, and its counters
  unfoldable pub purge_zset : Bytes → ℕ → Exec T.State (Unit {0})
  unfolding delete_pairs
  purge_zset key version = do
    pairs ← gets (λ s. T.scan s (encode_txnkv_zset_data_key_range c.encoder key version))
    delete_pairs key version pairs
    modify (delete_sizes c T key version)
    delete T (meta_key c T key)

  -- a deletion at the given threshold
  unfoldable pub drop_zset : ℕ → Bytes → ℕ → Exec T.State ℕ
  unfolding purge_zset txnkv_sum_key_size drop_large
  drop_zset threshold key version = do
    size ← txnkv_sum_key_size c T DataType.zset key version
    if ltb_ℤ (pos threshold) (as_i64 size)
        then modify (drop_large c T DataType.zset key version)
        else purge_zset key version
    pure 1

  zset_del_found : Bytes → Option Bytes → Exec T.State ℕ
  unfolding drop_zset
  zset_del_found key none = pure 0
  zset_del_found key (some meta) = do
    version ← unwrap (decode_key_version meta)
    drop_zset (async_del_zset_threshold_or_default c) key version

  -- `do_async_txnk_zset_del`
  unfoldable pub zset_del : Bytes → Exec T.State ℕ
  unfolding zset_del_found
  zset_del key = do meta ← read T (meta_key c T key); zset_del_found key meta

  zset_expire_found : ℕ → Bytes → Option Bytes → Exec T.State ℕ
  unfolding drop_zset
  zset_expire_found now key none = pure 0
  zset_expire_found now key (some meta) = do
    ttl ← unwrap (decode_key_ttl meta)
    if key_is_expired now ttl
        then (do
          version ← unwrap (decode_key_version meta)
          drop_zset (async_expire_zset_threshold_or_default c) key version)
        else pure 0

  -- `do_async_txnkv_zset_expire_if_needed`
  unfoldable pub zset_expire_if_needed : ℕ → Bytes → Exec T.State ℕ
  unfolding zset_expire_found
  zset_expire_if_needed now key = do
    meta ← read T (meta_key c T key)
    zset_expire_found now key meta

  abbrev pub open_zset : ℕ → Bytes → Exec T.State Opened
  open_zset now key = open_collection c T DataType.zset now (zset_expire_if_needed now key) key

  zcard_opened : Bytes → Opened → Exec T.State Frame
  unfolding txnkv_sum_key_size
  zcard_opened key missing = pure (resp_int (pos 0))
  zcard_opened key other_type = pure (resp_err wrong_type)
  zcard_opened key (expired ttl) = pure (resp_int (pos 0))
  zcard_opened key (live ttl version) = do
    size ← txnkv_sum_key_size c T DataType.zset key version
    pure (resp_int (as_i64 size))

  -- `do_async_txnkv_zcard`
  unfoldable pub zcard : ℕ → Bytes → Exec T.State Frame
  unfolding zcard_opened
  zcard now key = do o ← open_zset now key; zcard_opened key o
