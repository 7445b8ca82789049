-- ===== src/Lists.antt =====
-- src/tikv/list.rs: the list commands, each as the closure that it runs in a transaction.
-- A list has a meta value (expiry, version, `left`, `right`) and one data key for each index from
-- `left` up to `right`. The indices are u64 and wrap; `now` is the time that the command reads.
pub mod Items
pub mod Holds
pub mod Push
pub mod Pop
pub mod Access
pub mod Trim
pub mod Delete
pub mod Examples
use mathlib.Core.List.{reverse}
use tidis.Base.{
  ℕ, zero, suc, ◌+◌, ◌-◌, ◌^◌, Bool, true, false, Option, none, some, List, [], ◌∷◌, map, length,
  ◌||◌, ltb, leb, ◌==◌, if◌then◌else◌,
}
use tidis.Base.Int.{ℤ, pos, ltb_ℤ}
use tidis.Bytes.{Bytes, u16_be, add64, sub64}
use tidis.Encoding.{DataType}
use tidis.Encoding.Encode.{
  encode_txnkv_meta_key, encode_txnkv_list_data_key, encode_txnkv_list_meta_value,
  encode_txnkv_list_data_key_range, encode_txnkv_gc_key, encode_txnkv_gc_version_key,
  get_type_bytes,
}
use tidis.Encoding.Decode.{decode_key_type, decode_key_list_meta}
use tidis.Frame.{
  Frame, Error, wrong_type, no_such_key, index_out_of_range, resp_ok, resp_err, resp_int, resp_bulk,
  resp_nil, resp_array, as_i64, as_u64, add_i64, sub_i64,
}
use tidis.Config.{Settings, async_del_list_threshold_or_default, key_is_expired}
use tidis.Version.{get_version_for_new}
use tidis.Txn.{Txn}
use tidis.Txn.Exec.{Exec, Result, ok, err, panic, pure, raise, gets, unwrap, modify, ◌>>=◌, ◌>>◌}

abbrev pub init_index : ℕ
init_index = 2 ^ 32

-- What a command finds at its key, past the tests of type and expiry. An expired list has been
-- deleted by then.
pub data Opened : Type 0 where
  missing : Opened
  other_type : Opened
  expired : (ttl : ℕ) → Opened
  live : (ttl version left right : ℕ) → Opened

-- the end of a command: an error becomes its reply
abbrev settle : {S A : Type 0} → (A → Frame) → Result A → S → Result Frame × S
settle f (ok a) s = (ok (f a), s)
settle f (err e) s = (ok (resp_err e), s)
settle f panic s = (panic, s)

-- The state is that of the open transaction, also after an error: `exec_in_txn` of Retry rolls it back.
abbrev pub respond : {S A : Type 0} → (A → Frame) → Exec S A → Exec S Frame
respond f m s = let (r, s') = m s in settle f r s'

-- a negative index counts from the end
unfoldable pub from_end : ℤ → ℕ → ℤ
from_end idx len = if ltb_ℤ idx (pos 0) then add_i64 idx (as_i64 len) else idx

module _ (c : Settings) (T : Txn) where
  abbrev pub meta_key : Bytes → Bytes
  meta_key key = encode_txnkv_meta_key c.encoder key

  abbrev pub item_key : Bytes → ℕ → ℕ → Bytes
  item_key key idx version = encode_txnkv_list_data_key c.encoder key idx version

  abbrev pub meta_value : ℕ → ℕ → ℕ → ℕ → Bytes
  meta_value ttl version left right = encode_txnkv_list_meta_value c.encoder ttl version left right

  abbrev pub read : Bytes → Exec T.State (Option Bytes)
  read k = gets (λ s. T.get s k)

  abbrev pub write : Bytes → Bytes → Exec T.State (Unit {0})
  write k v = modify (λ s. T.put s k v)

  abbrev pub remove : Bytes → Exec T.State (Unit {0})
  remove k = modify (λ s. T.delete s k)

  pub delete_all : List Bytes → T.State → T.State
  delete_all [] s = s
  delete_all (k ∷ ks) s = delete_all ks (T.delete s k)

  -- Deleting a list: a long one leaves its data keys to the garbage collection, which finds them by
  -- the version; a short one is deleted at once.
  pub delete_list : Bytes → ℕ → ℕ → T.State → T.State
  unfolding delete_all
  delete_list key version len s =
      if leb (async_del_list_threshold_or_default c) len
      then (let s1 = T.delete s (meta_key key) in
          let s2 = T.put s1 (encode_txnkv_gc_key c.encoder key) (u16_be version) in
          T.put s2 (encode_txnkv_gc_version_key c.encoder key version)
            (get_type_bytes DataType.list ∷ []))
      else (let range = encode_txnkv_list_data_key_range c.encoder key version in
          T.delete (delete_all (T.scan_keys s range) s) (meta_key key))

  list_del_found : Bytes → Option Bytes → Exec T.State ℕ
  list_del_found key none = pure 0
  list_del_found key (some meta) = do
    (ttl, version, left, right) ← unwrap (decode_key_list_meta meta)
    modify (delete_list key version (sub64 right left))
    pure 1

  -- `do_async_txnkv_list_del`
  unfoldable pub list_del : Bytes → Exec T.State ℕ
  unfolding list_del_found delete_list
  list_del key = do meta ← read (meta_key key); list_del_found key meta

  expire_found : ℕ → Bytes → Option Bytes → Exec T.State ℕ
  expire_found now key none = pure 0
  expire_found now key (some meta) = do
    (ttl, version, left, right) ← unwrap (decode_key_list_meta meta)
    if key_is_expired now ttl
        then (modify (delete_list key version (sub64 right left)) >> pure 1)
        else pure 0

  -- `do_async_txnkv_list_expire_if_needed`
  unfoldable pub list_expire_if_needed : ℕ → Bytes → Exec T.State ℕ
  unfolding expire_found delete_list
  list_expire_if_needed now key = do meta ← read (meta_key key); expire_found now key meta

  open_typed : ℕ → Bytes → DataType → Bytes → Exec T.State Opened
  open_typed now key DataType.list meta = do
    (ttl, version, left, right) ← unwrap (decode_key_list_meta meta)
    if key_is_expired now ttl
        then (list_expire_if_needed now key >> pure (expired ttl))
        else pure (live ttl version left right)
  open_typed now key _ meta = pure other_type

  open_found : ℕ → Bytes → Option Bytes → Exec T.State Opened
  unfolding open_typed
  open_found now key none = pure missing
  open_found now key (some meta) = do t ← unwrap (decode_key_type meta); open_typed now key t meta

  -- how every command begins: the meta value, the test of its type, and the test of its expiry
  unfoldable pub open_list : ℕ → Bytes → Exec T.State Opened
  unfolding open_found
  open_list now key = do meta ← read (meta_key key); open_found now key meta
