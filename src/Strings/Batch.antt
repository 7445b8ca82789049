-- ===== src/Strings/Batch.antt =====
-- MGET, MSET and EXISTS of src/tikv/string.rs.
use tidis.Base.{ℕ, ◌+◌, Option, none, some, List, [], ◌∷◌, if◌then◌else◌}
use tidis.Bytes.{Bytes}
use tidis.Encoding.Encode.{encode_txnkv_strings}
use tidis.Encoding.Decode.{decode_key_ttl, decode_key_string_value}
use tidis.Frame.{Frame, resp_ok, resp_int, resp_bulk, resp_nil, resp_array, as_i64}
use tidis.Config.{Settings, key_is_expired}
use tidis.Txn.{Txn}
use tidis.Txn.Exec.{Exec, pure, gets, unwrap, modify, ◌>>=◌, ◌>>◌}
use tidis.Txn.Steps.{put_all, collected}
use tidis.Strings.{string_key, string_expire_if_needed}

-- `none` is the panic on a value that is too short
unfoldable pub mget_reply : ℕ → Option Bytes → Option Frame
mget_reply now none = some resp_nil
mget_reply now (some v) = elim (decode_key_ttl v) [
  | none ↦ none
  | some ttl ↦ if key_is_expired now ttl then some resp_nil else elim (decode_key_string_value v) [
    | none ↦ none
    | some content ↦ some (resp_bulk content)
  ]
]

unfoldable pub mget_replies : ℕ → List (Bytes × Bytes) → List Bytes → Option (List Frame)
unfolding mget_reply
mget_replies now pairs [] = some []
mget_replies now pairs (k ∷ ks) = elim (mget_reply now (collected pairs k)) [
  | none ↦ none
  | some f ↦ elim (mget_replies now pairs ks) [ none ↦ none | some fs ↦ some (f ∷ fs) ]
]

module _ (c : Settings) (T : Txn) where
  -- `do_async_txnkv_batch_get`
  unfoldable pub batch_get : ℕ → List Bytes → Exec T.State Frame
  unfolding mget_replies
  batch_get now keys = do
    let ekeys = encode_txnkv_strings c.encoder keys
    pairs ← gets (λ s. T.batch_get s ekeys)
    values ← unwrap (mget_replies now pairs ekeys)
    pure (resp_array values)

  -- `do_async_txnkv_batch_put`; the pairs are encoded already
  unfoldable pub batch_put : List (Bytes × Bytes) → Exec T.State Frame
  batch_put kvs = modify (put_all T kvs) >> pure resp_ok

  count_key : ℕ → Bytes → Option Bytes → Exec T.State ℕ
  unfolding string_expire_if_needed
  count_key now key none = pure 0
  count_key now key (some v) = do
    ttl ← unwrap (decode_key_ttl v)
    if key_is_expired now ttl then (string_expire_if_needed c T now key >> pure 0) else pure 1

  count_keys : ℕ → List (Bytes × Bytes) → List Bytes → Exec T.State ℕ
  unfolding count_key
  count_keys now pairs [] = pure 0
  count_keys now pairs (key ∷ keys) = do
    n ← count_key now key (collected pairs (string_key c T key))
    rest ← count_keys now pairs keys
    pure (n + rest)

  -- `do_async_txnkv_exists`
  unfoldable pub exists_keys : ℕ → List Bytes → Exec T.State Frame
  unfolding count_keys
  exists_keys now keys = do
    pairs ← gets (λ s. T.batch_get s (encode_txnkv_strings c.encoder keys))
    n ← count_keys now pairs keys
    pure (resp_int (as_i64 n))
