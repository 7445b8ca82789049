-- ===== src/Sets/Remove.antt =====
-- SREM and SPOP of src/tikv/set.rs.
use tidis.Base.{ℕ, List, [], map, length, take}
use tidis.Bytes.{Bytes}
use tidis.Encoding.{DataType}
use tidis.Encoding.Encode.{encode_txnkv_set_data_key_range}
use tidis.Frame.{Frame, wrong_type, resp_int, as_i64}
use tidis.Config.{Settings}
use tidis.Txn.{Txn, first}
use tidis.Txn.Exec.{Exec, pure, raise, gets, unwrap, modify, ◌>>=◌, ◌>>◌}
use tidis.Txn.Steps.{delete_keys}
use tidis.Lists.{respond}
use tidis.Collections.{Opened, missing, other_type, expired, live, txnkv_sum_key_size, take_off}
use tidis.Sets.{open_set, member_keys, spop_reply}
use tidis.Sets.Members.{members_of, bulks}

module _ (c : Settings) (T : Txn) where
  unfoldable pub srem_live : Bytes → List Bytes → ℕ → ℕ → Exec T.State ℕ
  unfolding txnkv_sum_key_size take_off
  srem_live key members idx version = do
    size ← txnkv_sum_key_size c T DataType.set key version
    found ← gets (λ s. T.batch_get s (member_keys c T key version members))
    modify (delete_keys T (map first found))
    take_off c T key version idx (length found) size
    pure (length found)

  srem_opened : Bytes → List Bytes → ℕ → Opened → Exec T.State ℕ
  unfolding srem_live
  srem_opened key members idx missing = pure 0
  srem_opened key members idx other_type = raise wrong_type
  srem_opened key members idx (expired ttl) = pure 0
  srem_opened key members idx (live ttl version) = srem_live key members idx version

  -- `do_async_txnkv_srem`
  unfoldable pub srem : ℕ → Bytes → List Bytes → ℕ → Exec T.State Frame
  unfolding srem_opened
  srem now key members idx =
      respond (λ n. resp_int (as_i64 n))
        (do o ← open_set c T now key; srem_opened key members idx o)

  -- SPOP takes the first `count` members in the order of their keys.
  spop_live : Bytes → ℕ → ℕ → ℕ → Exec T.State (List Frame)
  unfolding txnkv_sum_key_size take_off members_of
  spop_live key count idx version = do
    all ← gets (λ s. T.scan_keys s (encode_txnkv_set_data_key_range c.encoder key version))
    let keys = take count all
    members ← unwrap (members_of key keys)
    modify (delete_keys T keys)
    size ← txnkv_sum_key_size c T DataType.set key version
    take_off c T key version idx (length keys) size
    pure (bulks members)

  spop_opened : Bytes → ℕ → ℕ → Opened → Exec T.State (List Frame)
  unfolding spop_live
  spop_opened key count idx missing = pure []
  spop_opened key count idx other_type = raise wrong_type
  spop_opened key count idx (expired ttl) = pure []
  spop_opened key count idx (live ttl version) = spop_live key count idx version

  -- `do_async_txnkv_spop`, for a count that fits in u32
  unfoldable pub spop : ℕ → Bytes → ℕ → ℕ → Exec T.State Frame
  unfolding spop_opened
  spop now key count idx =
      respond (spop_reply count) (do o ← open_set c T now key; spop_opened key count idx o)
