-- ===== src/Hashes/Change.antt =====
-- HDEL and HINCRBY of src/tikv/hash.rs.
use tidis.Base.{ℕ, Bool, true, false, Option, none, some, List, map, length, if◌then◌else◌}
use tidis.Base.Int.{ℤ, pos}
use tidis.Bytes.{Bytes, u64_be}
use tidis.Encoding.{DataType}
use tidis.Encoding.Decode.{word}
use tidis.Frame.{Frame, wrong_type, value_is_not_integer, resp_int, as_i64, add_i64}
use tidis.Config.{Settings}
use tidis.Version.{get_version_for_new}
use tidis.Txn.{Txn, first}
use tidis.Txn.Exec.{Exec, pure, raise, gets, unwrap, modify, ◌>>=◌, ◌>>◌}
use tidis.Txn.Steps.{read, write, delete_keys}
use tidis.Lists.{respond}
use tidis.Collections
use tidis.Collections.{
  Opened, missing, other_type, expired, live, open_collection, txnkv_sum_key_size, take_off,
  meta_key,
}
use tidis.Numbers.{parse_i64, to_string}
use tidis.Hashes.{open_hash, hash_expire_if_needed, field_key, field_keys, hash_meta}

-- the counter that HINCRBY writes for a new field
unfoldable pub new_field_size : Option Bytes → Option ℕ
new_field_size none = some 1
new_field_size (some v) = word 8 v

module _ (c : Settings) (T : Txn) where
  unfoldable pub hdel_live : Bytes → List Bytes → ℕ → ℕ → Exec T.State ℕ
  unfolding txnkv_sum_key_size take_off
  hdel_live key fields idx version = do
    found ← gets (λ s. T.batch_get s (field_keys c T key version fields))
    modify (delete_keys T (map first found))
    size ← txnkv_sum_key_size c T DataType.hash key version
    take_off c T key version idx (length found) size
    pure (length found)

  hdel_opened : Bytes → List Bytes → ℕ → Opened → Exec T.State ℕ
  unfolding hdel_live
  hdel_opened key fields idx missing = pure 0
  hdel_opened key fields idx other_type = raise wrong_type
  hdel_opened key fields idx (expired ttl) = pure 0
  hdel_opened key fields idx (live ttl version) = hdel_live key fields idx version

  -- `do_async_txnkv_hdel`
  unfoldable pub hdel : ℕ → Bytes → List Bytes → ℕ → Exec T.State Frame
  unfolding hdel_opened
  hdel now key fields idx =
      respond (λ n. resp_int (as_i64 n))
        (do o ← open_hash c T now key; hdel_opened key fields idx o)

  -- A field that is not there counts from 0, and a counter is written for it.
  hincrby_from : Bytes → ℕ → Bool → ℕ → ℕ → Option Bytes → Exec T.State ℤ
  unfolding new_field_size parse_i64
  hincrby_from key idx expired_now ttl version (some value) = elim (parse_i64 value) [
    | none ↦ raise value_is_not_integer
    | some n ↦ pure n
  ]
  hincrby_from key idx expired_now ttl version none = do
    old ← read T (Collections.size_key c T key version idx)
    size ← unwrap (new_field_size old)
    write T (Collections.size_key c T key version idx) (u64_be size)
    if expired_now then write T (meta_key c T key) (hash_meta c T ttl version) else pure tt
    pure (pos 0)

  hincrby_write : Bytes → ℤ → ℤ → Exec T.State ℤ
  unfolding to_string
  hincrby_write k prev step = do let new = add_i64 prev step; write T k (to_string new); pure new

  -- HINCRBY on a hash that is there, or that has just expired
  unfoldable pub hincrby_to : Bytes → Bytes → ℤ → ℕ → Bool → ℕ → ℕ → Exec T.State ℤ
  unfolding hincrby_from hincrby_write
  hincrby_to key field step idx expired_now ttl version = do
    value ← read T (field_key c T key version field)
    prev ← hincrby_from key idx expired_now ttl version value
    hincrby_write (field_key c T key version field) prev step

  unfoldable pub hincrby_new : Bytes → Bytes → ℤ → ℕ → ℕ → Exec T.State ℤ
  unfolding hincrby_write
  hincrby_new key field step idx version = do
    write T (meta_key c T key) (hash_meta c T 0 version)
    write T (Collections.size_key c T key version idx) (u64_be 1)
    hincrby_write (field_key c T key version field) (pos 0) step

  hincrby_opened : Bytes → Bytes → ℤ → ℕ → Opened → Exec T.State ℤ
  unfolding hincrby_to hincrby_new
  hincrby_opened key field step idx missing = do
    version ← get_version_for_new c T key
    hincrby_new key field step idx version
  hincrby_opened key field step idx other_type = raise wrong_type
  hincrby_opened key field step idx (expired ttl) = do
    version ← get_version_for_new c T key
    hincrby_to key field step idx true ttl version
  hincrby_opened key field step idx (live ttl version) =
      hincrby_to key field step idx false ttl version

  -- The closure does not pass its transaction on: unless the command is part of a larger transaction, an
  -- expired hash is deleted in a transaction of its own, whose writes this one does not see.
  abbrev pub hincrby_expire : Bool → ℕ → Bytes → Exec T.State ℕ
  hincrby_expire true now key = hash_expire_if_needed c T now key
  hincrby_expire false now key = pure 1

  -- `do_async_txnkv_hincrby`
  unfoldable pub hincrby : Bool → ℕ → Bytes → Bytes → ℤ → ℕ → Exec T.State Frame
  unfolding hincrby_opened
  hincrby in_txn now key field step idx = respond resp_int (do
    o ← open_collection c T DataType.hash now (hincrby_expire in_txn now key) key
    hincrby_opened key field step idx o)
