-- ===== src/Keys.antt =====
-- EXPIRE with PERSIST, TTL and DEL of src/tikv/string.rs, which work on keys of every type.
pub mod Holds
pub mod Rewrite
pub mod Expiry
mod Examples
use tidis.Base.{
  ℕ, ◌+◌, ◌-◌, ◌/◌, Bool, Option, none, some, List, [], ◌∷◌, ◌==◌, ◌&&◌, if◌then◌else◌,
}
use tidis.Base.Int.{ℤ, pos, negsuc}
use tidis.Bytes.{Bytes}
use tidis.Encoding.{DataType}
use tidis.Encoding.Encode.{
  encode_txnkv_strings, encode_txnkv_string_value, encode_txnkv_hash_meta_value,
  encode_txnkv_list_meta_value, encode_txnkv_set_meta_value, encode_txnkv_zset_meta_value,
}
use tidis.Encoding.Decode.{
  decode_key_type, decode_key_ttl, decode_key_version, decode_key_string_value,
  decode_key_list_meta,
}
use tidis.Frame.{Frame, resp_int, as_i64}
use tidis.Config.{Settings, key_is_expired, ttl_from_timestamp}
use tidis.Txn.{Txn}
use tidis.Txn.Exec.{Exec, pure, gets, unwrap, ◌>>=◌, ◌>>◌}
use tidis.Txn.Steps.{read, write, collected}
use tidis.Lists.{respond, list_del, list_expire_if_needed}
use tidis.Hashes.{hash_del, hash_expire_if_needed}
use tidis.Sets.{set_del, set_expire_if_needed}
use tidis.ZSets.{zset_del, zset_expire_if_needed}
use tidis.Strings.{string_key, string_del, string_expire_if_needed}

-- `ttl /= 1000` on an i64, which cuts towards 0
abbrev pub div_1000 : ℤ → ℤ
div_1000 (pos n) = pos (n / 1000)
div_1000 (negsuc n) = if (n + 1) / 1000 == 0 then pos 0 else negsuc ((n + 1) / 1000 - 1)

module _ (c : Settings) (T : Txn) where
  -- the `expire_if_needed` of each type
  abbrev pub expire_typed : ℕ → Bytes → DataType → Exec T.State ℕ
  expire_typed now key DataType.string = string_expire_if_needed c T now key
  expire_typed now key DataType.hash = hash_expire_if_needed c T now key
  expire_typed now key DataType.list = list_expire_if_needed c T now key
  expire_typed now key DataType.set = set_expire_if_needed c T now key
  expire_typed now key DataType.zset = zset_expire_if_needed c T now key
  expire_typed now key DataType.null = pure 0

  -- The value that EXPIRE writes; `none` is the panic on a value that is too short. It is not called on
  -- null.
  abbrev pub with_timestamp : ℕ → ℕ → Bytes → DataType → Option Bytes
  with_timestamp timestamp version v DataType.string = elim (decode_key_string_value v) [
    | none ↦ none
    | some value ↦ some (encode_txnkv_string_value c.encoder value timestamp)
  ]
  with_timestamp timestamp version v DataType.hash =
      some (encode_txnkv_hash_meta_value c.encoder timestamp version 0)
  with_timestamp timestamp version v DataType.list = elim (decode_key_list_meta v) [
    | none ↦ none
    | some (ttl, list_version, left, right) ↦
        some (encode_txnkv_list_meta_value c.encoder timestamp list_version left right)
  ]
  with_timestamp timestamp version v DataType.set =
      some (encode_txnkv_set_meta_value c.encoder timestamp version 0)
  with_timestamp timestamp version v DataType.zset =
      some (encode_txnkv_zset_meta_value c.encoder timestamp version 0)
  with_timestamp timestamp version v DataType.null = none

  unfoldable expire_typed_key : ℕ → Bytes → ℕ → Bytes → ℕ → DataType → ℕ → Exec T.State ℕ
  unfolding string_expire_if_needed hash_expire_if_needed list_expire_if_needed set_expire_if_needed
      zset_expire_if_needed
  expire_typed_key now key timestamp v ttl DataType.null version = pure 0
  expire_typed_key now key timestamp v ttl t version =
      if key_is_expired now ttl then (expire_typed now key t >> pure 0) else (do
        new ← unwrap (with_timestamp timestamp version v t)
        write T (string_key c T key) new
        pure 1)

  unfoldable expire_found : ℕ → Bytes → ℕ → Option Bytes → Exec T.State ℕ
  unfolding expire_typed_key
  expire_found now key timestamp none = pure 0
  expire_found now key timestamp (some v) = do
    ttl ← unwrap (decode_key_ttl v)
    if timestamp == 0 && ttl == 0 then pure 0 else (do
      t ← unwrap (decode_key_type v)
      version ← unwrap (decode_key_version v)
      expire_typed_key now key timestamp v ttl t version)

  -- `do_async_txnkv_expire`, of EXPIRE, and of PERSIST with the timestamp 0
  unfoldable pub expire : ℕ → Bytes → ℕ → Exec T.State Frame
  unfolding expire_found
  expire now key timestamp =
      respond (λ n. resp_int (as_i64 n))
        (do v ← read T (string_key c T key); expire_found now key timestamp v)

  abbrev pub ttl_reply : Bool → ℕ → Frame
  ttl_reply is_millis millis =
      if is_millis then resp_int (as_i64 millis) else resp_int (div_1000 (as_i64 millis))

  ttl_found : ℕ → Bytes → Bool → Option Bytes → Exec T.State Frame
  unfolding string_expire_if_needed hash_expire_if_needed list_expire_if_needed set_expire_if_needed
      zset_expire_if_needed ttl_from_timestamp
  ttl_found now key is_millis none = pure (resp_int (negsuc 1))
  ttl_found now key is_millis (some v) = do
    t ← unwrap (decode_key_type v)
    ttl ← unwrap (decode_key_ttl v)
    if key_is_expired now ttl
        then (expire_typed now key t >> pure (resp_int (negsuc 1)))
        else if ttl == 0
        then pure (resp_int (negsuc 0))
        else pure (ttl_reply is_millis (ttl_from_timestamp now ttl))

  -- `do_async_txnkv_ttl`, of TTL and PTTL
  unfoldable pub ttl_of : ℕ → Bytes → Bool → Exec T.State Frame
  unfolding ttl_found
  ttl_of now key is_millis = do v ← read T (string_key c T key); ttl_found now key is_millis v

  -- the deletion of each type, and 1; a key that holds nothing is null
  abbrev pub del_typed : Bytes → DataType → Exec T.State ℕ
  del_typed key DataType.string = string_del c T key >> pure 1
  del_typed key DataType.hash = hash_del c T key >> pure 1
  del_typed key DataType.list = list_del c T key >> pure 1
  del_typed key DataType.set = set_del c T key >> pure 1
  del_typed key DataType.zset = zset_del c T key >> pure 1
  del_typed key DataType.null = pure 0

  -- the types of the keys, as the batch has them; `none` is the panic of the decoder
  abbrev pub types_of : List (Bytes × Bytes) → List Bytes → Option (List DataType)
  types_of found [] = some []
  types_of found (k ∷ ks) = elim (collected found k) [
    | none ↦ elim (types_of found ks) [ none ↦ none | some ts ↦ some (DataType.null ∷ ts) ]
    | some v ↦ elim (decode_key_type v) [
      | none ↦ none
      | some t ↦ elim (types_of found ks) [ none ↦ none | some ts ↦ some (t ∷ ts) ]
    ]
  ]

  del_all : List Bytes → List DataType → Exec T.State ℕ
  unfolding string_del hash_del list_del set_del zset_del
  del_all [] ts = pure 0
  del_all (key ∷ keys) [] = pure 0
  del_all (key ∷ keys) (t ∷ ts) = do n ← del_typed key t; rest ← del_all keys ts; pure (n + rest)

  -- `do_async_txnkv_del`
  unfoldable pub del : List Bytes → Exec T.State Frame
  unfolding del_all
  del keys =
      respond (λ n. resp_int (as_i64 n))
        (do
          let ekeys = encode_txnkv_strings c.encoder keys
          found ← gets (λ s. T.batch_get s ekeys)
          ts ← unwrap (types_of found ekeys)
          del_all keys ts)
