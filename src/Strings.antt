-- ===== src/Strings.antt =====
-- src/tikv/string.rs: the string commands that run in a transaction, each as its closure; `now` is the
-- time that a command reads. A string's value stands under the key that holds a collection's meta
-- value. The state is that of the transaction the closure runs in. GET, STRLEN, TYPE, MGET and EXISTS
-- outside MULTI run in one that is begun with `begin_with_latest` and never committed: that they delete
-- an expired key is then seen by the rest of their own transaction, and is not stored.
pub mod Batch
pub mod Laws
pub mod Many
mod Examples
pub mod Counter
use tidis.Base.{
  ℕ, Bool, true, false, Option, none, some, List, [], ◌∷◌, length, ◌==◌, if◌then◌else◌,
}
use tidis.Base.Int.{ℤ, pos}
use tidis.Bytes.{Bytes}
use tidis.Encoding.{DataType, data_type_name}
use tidis.Encoding.Encode.{encode_txnkv_string, encode_txnkv_string_value}
use tidis.Encoding.Decode.{decode_key_type, decode_key_ttl, decode_key_string_value}
use tidis.Frame.{
  Frame, simple, wrong_type, value_is_not_integer, resp_ok, resp_err, resp_int, resp_bulk, resp_nil,
  as_i64, add_i64,
}
use tidis.Config.{Settings, key_is_expired}
use tidis.Numbers.{parse_i64, to_string}
use tidis.Txn.{Txn}
use tidis.Txn.Exec.{Exec, pure, raise, unwrap, ◌>>=◌, ◌>>◌}
use tidis.Txn.Steps.{read, write, delete}
use tidis.Lists.{respond}

abbrev pub is_string : DataType → Bool
is_string DataType.string = true
is_string _ = false

module _ (c : Settings) (T : Txn) where
  abbrev pub string_key : Bytes → Bytes
  string_key key = encode_txnkv_string c.encoder key

  string_expire_found : ℕ → Bytes → Option Bytes → Exec T.State ℕ
  string_expire_found now key none = pure 0
  string_expire_found now key (some v) = do
    ttl ← unwrap (decode_key_ttl v)
    if key_is_expired now ttl then (delete T (string_key key) >> pure 1) else pure 0

  -- `do_async_txnkv_string_expire_if_needed`
  unfoldable pub string_expire_if_needed : ℕ → Bytes → Exec T.State ℕ
  unfolding string_expire_found
  string_expire_if_needed now key = do v ← read T (string_key key); string_expire_found now key v

  string_del_found : Bytes → Option Bytes → Exec T.State ℕ
  string_del_found key none = pure 0
  string_del_found key (some v) = delete T (string_key key) >> pure 1

  -- `do_async_txnkv_string_del`
  unfoldable pub string_del : Bytes → Exec T.State ℕ
  unfolding string_del_found
  string_del key = do v ← read T (string_key key); string_del_found key v

  -- How GET and STRLEN read a string: `absent` is the reply where there is none.
  read_typed : ℕ → Bytes → (Bytes → Frame) → Frame → Bytes → DataType → Exec T.State Frame
  unfolding string_expire_if_needed
  read_typed now key reply absent v t =
      if is_string t
      then (do
        ttl ← unwrap (decode_key_ttl v)
        if key_is_expired now ttl
            then (string_expire_if_needed now key >> pure absent)
            else (do content ← unwrap (decode_key_string_value v); pure (reply content)))
      else pure (resp_err wrong_type)

  read_found : ℕ → Bytes → (Bytes → Frame) → Frame → Option Bytes → Exec T.State Frame
  unfolding read_typed
  read_found now key reply absent none = pure absent
  read_found now key reply absent (some v) = do
    t ← unwrap (decode_key_type v)
    read_typed now key reply absent v t

  -- `do_async_txnkv_get`
  unfoldable pub get : ℕ → Bytes → Exec T.State Frame
  unfolding read_found
  get now key = do
    v ← read T (string_key key)
    read_found now key (λ content. resp_bulk content) resp_nil v

  -- `do_async_txnkv_strlen`
  unfoldable pub strlen : ℕ → Bytes → Exec T.State Frame
  unfolding read_found
  strlen now key = do
    v ← read T (string_key key)
    read_found now key (λ content. resp_int (as_i64 (length content))) (resp_int (pos 0)) v

  -- `resp_str` of a type's name
  abbrev pub type_reply : DataType → Frame
  type_reply t = simple (data_type_name t)

  type_found : ℕ → Bytes → Option Bytes → Exec T.State Frame
  unfolding string_expire_if_needed
  type_found now key none = pure (type_reply DataType.null)
  type_found now key (some v) = do
    ttl ← unwrap (decode_key_ttl v)
    if key_is_expired now ttl
        then (string_expire_if_needed now key >> pure (type_reply DataType.null))
        else (do t ← unwrap (decode_key_type v); pure (type_reply t))

  -- `do_async_txnkv_type`
  unfoldable pub type_of : ℕ → Bytes → Exec T.State Frame
  unfolding type_found
  type_of now key = do v ← read T (string_key key); type_found now key v

  abbrev pub string_value : Bytes → ℕ → Bytes
  string_value val timestamp = encode_txnkv_string_value c.encoder val timestamp

  -- `do_async_txnkv_put`, of SET and SETEX
  unfoldable pub put : Bytes → Bytes → ℕ → Exec T.State Frame
  put key val timestamp = write T (string_key key) (string_value val timestamp) >> pure resp_ok

  put_if_absent : ℕ → Bytes → Bytes → Option Bytes → Exec T.State ℕ
  put_if_absent now key value none = write T (string_key key) (string_value value 0) >> pure 1
  put_if_absent now key value (some v) = do
    ttl ← unwrap (decode_key_ttl v)
    if key_is_expired now ttl
        then (write T (string_key key) (string_value value 0) >> pure 1)
        else pure 0

  abbrev pub put_not_exists_reply : Bool → ℕ → Frame
  put_not_exists_reply true n = resp_int (as_i64 n)
  put_not_exists_reply false n = if n == 0 then resp_nil else resp_ok

  -- `do_async_txnkv_put_not_exists`, of SETNX and SET with NX
  unfoldable pub put_not_exists : ℕ → Bytes → Bytes → Bool → Exec T.State Frame
  unfolding put_if_absent
  put_not_exists now key value return_number =
      respond (put_not_exists_reply return_number)
        (do v ← read T (string_key key); put_if_absent now key value v)

  -- the number that INCR starts from
  abbrev integer_of : Option ℤ → Exec T.State ℤ
  integer_of none = raise value_is_not_integer
  integer_of (some n) = pure n

  unfoldable pub incr_from : ℕ → Bytes → Option Bytes → Exec T.State ℤ
  unfolding string_expire_if_needed parse_i64
  incr_from now key none = pure (pos 0)
  incr_from now key (some v) = do
    ttl ← unwrap (decode_key_ttl v)
    if key_is_expired now ttl
        then (string_expire_if_needed now key >> pure (pos 0))
        else (do content ← unwrap (decode_key_string_value v); integer_of (parse_i64 content))

  -- `do_async_txnkv_incr`
  unfoldable pub incr : ℕ → Bytes → ℤ → Exec T.State Frame
  unfolding incr_from to_string
  incr now key step = respond resp_int (do
    v ← read T (string_key key)
    prev ← incr_from now key v
    write T (string_key key) (string_value (to_string (add_i64 prev step)) 0)
    pure (add_i64 prev step))
