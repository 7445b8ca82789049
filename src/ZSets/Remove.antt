-- ===== src/ZSets/Remove.antt =====
-- ZREM, ZPOPMIN and ZPOPMAX of src/tikv/zset.rs.
use mathlib.Core.List.{reverse}
use tidis.Base.{ℕ, Bool, Option, none, some, List, [], ◌∷◌, length, take, if◌then◌else◌}
use tidis.Base.Int.{ltb_ℤ}
use tidis.Bytes.{Bytes}
use tidis.Encoding.{DataType}
use tidis.Encoding.Score.{
  decode_key_zset_data_value, decode_key_zset_score_from_scorekey,
  decode_key_zset_member_from_scorekey, encode_txnkv_zset_score_key_range,
}
use tidis.Frame.{Frame, wrong_type, resp_int, resp_bulk, resp_array, as_i64}
use tidis.Config.{Settings}
use tidis.Txn.{Txn}
use tidis.Txn.Exec.{Exec, pure, raise, gets, unwrap, modify, ◌>>=◌, ◌>>◌}
use tidis.Txn.Steps.{delete, collected}
use tidis.Lists.{respond}
use tidis.Collections.{
  Opened, missing, other_type, expired, live, txnkv_sum_key_size, lower_size, delete_sizes,
  meta_key,
}
use tidis.ZSets.{open_zset, member_key, score_key}

module _ (c : Settings) (T : Txn) where
  abbrev pub zrem_keys : Bytes → ℕ → List Bytes → List Bytes
  zrem_keys key version [] = []
  zrem_keys key version (m ∷ ms) = member_key c T key version m ∷ zrem_keys key version ms

  zrem_one : Bytes → ℕ → Bytes → Option Bytes → Exec T.State (Unit {0})
  unfolding decode_key_zset_data_value
  zrem_one key version m none = pure tt
  zrem_one key version m (some v) = do
    score ← unwrap (decode_key_zset_data_value v)
    delete T (member_key c T key version m)
    delete T (score_key c T key version score m)

  unfoldable pub zrem_all : Bytes → ℕ → List (Bytes × Bytes) → List Bytes → Exec T.State (Unit {0})
  unfolding zrem_one
  zrem_all key version found [] = pure tt
  zrem_all key version found (m ∷ ms) = do
    zrem_one key version m (collected found (member_key c T key version m))
    zrem_all key version found ms

  -- The counters and the meta value go with the last member; else a counter is lowered.
  unfoldable pub zset_take_off : Bytes → ℕ → ℕ → ℕ → ℕ → Exec T.State (Unit {0})
  zset_take_off key version idx removed size =
      if ltb_ℤ (as_i64 removed) (as_i64 size)
      then lower_size c T key version idx removed
      else modify (λ s. T.delete (delete_sizes c T key version s) (meta_key c T key))

  -- For different members the map of the batch has as many entries as the batch has pairs.
  unfoldable pub zrem_live : Bytes → List Bytes → ℕ → ℕ → Exec T.State ℕ
  unfolding zrem_all txnkv_sum_key_size zset_take_off
  zrem_live key members idx version = do
    found ← gets (λ s. T.batch_get s (zrem_keys key version members))
    zrem_all key version found members
    size ← txnkv_sum_key_size c T DataType.zset key version
    zset_take_off key version idx (length found) size
    pure (length found)

  zrem_opened : Bytes → List Bytes → ℕ → Opened → Exec T.State ℕ
  unfolding zrem_live
  zrem_opened key members idx missing = pure 0
  zrem_opened key members idx other_type = raise wrong_type
  zrem_opened key members idx (expired ttl) = pure 0
  zrem_opened key members idx (live ttl version) = zrem_live key members idx version

  -- `do_async_txnkv_zrem`
  unfoldable pub zrem : ℕ → Bytes → List Bytes → ℕ → Exec T.State Frame
  unfolding zrem_opened
  zrem now key members idx =
      respond (λ n. resp_int (as_i64 n))
        (do o ← open_zset c T now key; zrem_opened key members idx o)

  -- The members behind keys of the index are replied with their scores, and deleted.
  zpop_keys : (ℕ → Bytes) → Bytes → ℕ → List Bytes → Exec T.State (List Frame)
  unfolding decode_key_zset_score_from_scorekey decode_key_zset_member_from_scorekey
  zpop_keys show key version [] = pure []
  zpop_keys show key version (k ∷ ks) = do
    m ← unwrap (decode_key_zset_member_from_scorekey key k)
    score ← unwrap (decode_key_zset_score_from_scorekey key k)
    delete T (member_key c T key version m)
    delete T k
    rest ← zpop_keys show key version ks
    pure (resp_bulk m ∷ resp_bulk (show score) ∷ rest)

  -- `scan_keys_reverse` gives the keys of a range from its end.
  zpop_live : (ℕ → Bytes) → Bytes → Bool → ℕ → ℕ → ℕ → Exec T.State (List Frame)
  unfolding zpop_keys txnkv_sum_key_size zset_take_off
  zpop_live show key from_min count idx version = do
    all ← gets (λ s. T.scan_keys s (encode_txnkv_zset_score_key_range c.encoder key version))
    let keys = take count (if from_min then all else reverse all)
    replies ← zpop_keys show key version keys
    size ← txnkv_sum_key_size c T DataType.zset key version
    zset_take_off key version idx (length keys) size
    pure replies

  zpop_opened : (ℕ → Bytes) → Bytes → Bool → ℕ → ℕ → Opened → Exec T.State (List Frame)
  unfolding zpop_live
  zpop_opened show key from_min count idx missing = pure []
  zpop_opened show key from_min count idx other_type = raise wrong_type
  zpop_opened show key from_min count idx (expired ttl) = pure []
  zpop_opened show key from_min count idx (live ttl version) =
      zpop_live show key from_min count idx version

  -- `do_async_txnkv_zpop`, for a count that fits in u32
  unfoldable pub zpop : (ℕ → Bytes) → ℕ → Bytes → Bool → ℕ → ℕ → Exec T.State Frame
  unfolding zpop_opened
  zpop show now key from_min count idx =
      respond (λ fs. resp_array fs)
        (do o ← open_zset c T now key; zpop_opened show key from_min count idx o)
