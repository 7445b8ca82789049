-- ===== src/Hashes/Fields.antt =====
-- HGET, HSTRLEN, HEXISTS, HMGET, HLEN, and HGETALL with HKEYS and HVALS, of src/tikv/hash.rs.
use tidis.Base.{
  ℕ, Bool, true, false, Option, none, some, List, [], ◌∷◌, length, if◌then◌else◌, replicate,
}
use tidis.Base.Int.{pos}
use tidis.Bytes.{Bytes}
use tidis.Encoding.{DataType}
use tidis.Encoding.Encode.{encode_txnkv_hash_data_key_range}
use tidis.Encoding.Decode.{decode_item_from_datakey}
use tidis.Frame.{Frame, wrong_type, resp_err, resp_int, resp_nil, resp_bulk, resp_array, as_i64}
use tidis.Config.{Settings}
use tidis.Txn.{Txn, is_some}
use tidis.Txn.Exec.{Exec, pure, gets, unwrap, ◌>>=◌}
use tidis.Txn.Steps.{read, collected}
use tidis.Collections.{Opened, missing, other_type, expired, live, txnkv_sum_key_size}
use tidis.Hashes.{open_hash, field_key, field_keys}

abbrev pub value_reply : Option Bytes → Frame
value_reply none = resp_nil
value_reply (some v) = resp_bulk v

abbrev pub strlen_reply : Option Bytes → Frame
strlen_reply none = resp_int (pos 0)
strlen_reply (some v) = resp_int (as_i64 (length v))

abbrev pub hexists_reply : Option Bytes → Frame
hexists_reply o = if is_some o then resp_int (pos 1) else resp_int (pos 0)

abbrev pub hmget_replies : List (Bytes × Bytes) → List Bytes → List Frame
hmget_replies pairs [] = []
hmget_replies pairs (k ∷ ks) = value_reply (collected pairs k) ∷ hmget_replies pairs ks

-- what HGETALL replies for one pair
abbrev pub entry : Bool → Bool → Bytes → Bytes → List Frame → List Frame
entry true true field value rest = resp_bulk field ∷ resp_bulk value ∷ rest
entry true false field value rest = resp_bulk field ∷ rest
entry false with_value field value rest = resp_bulk value ∷ rest

-- `none` is the panic on a data key that is too short; without the fields no key is decoded
unfoldable pub entries : Bytes → Bool → Bool → List (Bytes × Bytes) → Option (List Frame)
entries key with_field with_value [] = some []
entries key false with_value ((k, v) ∷ pairs) = elim (entries key false with_value pairs) [
  | none ↦ none
  | some rest ↦ some (entry false with_value [] v rest)
]
entries key true with_value ((k, v) ∷ pairs) = elim (decode_item_from_datakey key k) [
  | none ↦ none
  | some field ↦ elim (entries key true with_value pairs) [
    | none ↦ none
    | some rest ↦ some (entry true with_value field v rest)
  ]
]

module _ (c : Settings) (T : Txn) where
  -- HGET, HSTRLEN and HEXISTS: the reply to a field's value, and `absent` where there is no hash
  one_opened : (Option Bytes → Frame) → Frame → Bytes → Bytes → Opened → Exec T.State Frame
  one_opened reply absent key field missing = pure absent
  one_opened reply absent key field other_type = pure (resp_err wrong_type)
  one_opened reply absent key field (expired ttl) = pure absent
  one_opened reply absent key field (live ttl version) = do
    value ← read T (field_key c T key version field)
    pure (reply value)

  -- `do_async_txnkv_hget`
  unfoldable pub hget : ℕ → Bytes → Bytes → Exec T.State Frame
  unfolding one_opened
  hget now key field = do o ← open_hash c T now key; one_opened value_reply resp_nil key field o

  -- `do_async_txnkv_hstrlen`
  unfoldable pub hstrlen : ℕ → Bytes → Bytes → Exec T.State Frame
  unfolding one_opened
  hstrlen now key field = do
    o ← open_hash c T now key
    one_opened strlen_reply (resp_int (pos 0)) key field o

  -- `do_async_txnkv_hexists`
  unfoldable pub hexists : ℕ → Bytes → Bytes → Exec T.State Frame
  unfolding one_opened
  hexists now key field = do
    o ← open_hash c T now key
    one_opened hexists_reply (resp_int (pos 0)) key field o

  hmget_opened : Bytes → List Bytes → Opened → Exec T.State Frame
  hmget_opened key fields missing = pure (resp_array (replicate (length fields) resp_nil))
  hmget_opened key fields other_type = pure (resp_err wrong_type)
  hmget_opened key fields (expired ttl) = pure (resp_array [])
  hmget_opened key fields (live ttl version) = do
    let keys = field_keys c T key version fields
    pairs ← gets (λ s. T.batch_get s keys)
    pure (resp_array (hmget_replies pairs keys))

  -- `do_async_txnkv_hmget`
  unfoldable pub hmget : ℕ → Bytes → List Bytes → Exec T.State Frame
  unfolding hmget_opened
  hmget now key fields = do o ← open_hash c T now key; hmget_opened key fields o

  hlen_opened : Bytes → Opened → Exec T.State Frame
  unfolding txnkv_sum_key_size
  hlen_opened key missing = pure (resp_int (pos 0))
  hlen_opened key other_type = pure (resp_err wrong_type)
  hlen_opened key (expired ttl) = pure (resp_int (pos 0))
  hlen_opened key (live ttl version) = do
    size ← txnkv_sum_key_size c T DataType.hash key version
    pure (resp_int (as_i64 size))

  -- `do_async_txnkv_hlen`
  unfoldable pub hlen : ℕ → Bytes → Exec T.State Frame
  unfolding hlen_opened
  hlen now key = do o ← open_hash c T now key; hlen_opened key o

  hgetall_opened : Bytes → Bool → Bool → Opened → Exec T.State Frame
  unfolding entries
  hgetall_opened key with_field with_value missing = pure (resp_array [])
  hgetall_opened key with_field with_value other_type = pure (resp_err wrong_type)
  hgetall_opened key with_field with_value (expired ttl) = pure resp_nil
  hgetall_opened key with_field with_value (live ttl version) = do
    pairs ← gets (λ s. T.scan s (encode_txnkv_hash_data_key_range c.encoder key version))
    replies ← unwrap (entries key with_field with_value pairs)
    pure (resp_array replies)

  -- `do_async_txnkv_hgetall`, of HGETALL, HKEYS and HVALS
  unfoldable pub hgetall : ℕ → Bytes → Bool → Bool → Exec T.State Frame
  unfolding hgetall_opened
  hgetall now key with_field with_value = do
    o ← open_hash c T now key
    hgetall_opened key with_field with_value o
