-- ===== src/Sets.antt =====
-- src/tikv/set.rs: the set commands, each as the closure that it runs in a transaction. `idx` is the
-- index of the counter that the command changes, from `gen_next_meta_index`.
pub mod Members
pub mod Remove
pub mod Add
pub mod Look
pub mod Take
pub mod Drop
pub mod Examples
use tidis.Base.{
  ℕ, zero, suc, ◌+◌, ◌-◌, ◌^◌, Bool, true, false, Option, none, some, List, [], ◌∷◌, map, length,
  ltb, leb, ◌==◌, if◌then◌else◌, take, replicate,
}
use tidis.Base.Int.{ℤ, pos, ltb_ℤ}
use tidis.Bytes.{Bytes, u16_be, u64_be, add64, sub64}
use tidis.Encoding.{DataType}
use tidis.Encoding.Encode.{
  encode_txnkv_set_data_key, encode_txnkv_set_data_key_range, encode_txnkv_set_meta_value,
  encode_txnkv_sub_meta_key_range,
}
use tidis.Encoding.Decode.{decode_key_version, decode_key_meta, decode_item_from_datakey}
use tidis.Frame.{
  Frame, Error, wrong_type, resp_err, resp_int, resp_nil, resp_bulk, resp_array, as_i64,
}
use tidis.Config.{
  Settings, key_is_expired, async_del_set_threshold_or_default,
  async_expire_set_threshold_or_default,
}
use tidis.Version.{get_version_for_new}
use tidis.Txn.{Txn, contains, is_some, first}
use tidis.Txn.Exec.{Exec, Result, ok, err, panic, pure, raise, gets, unwrap, modify, ◌>>=◌, ◌>>◌}
use tidis.Txn.Steps.{read, write, delete_keys, put_all}
use tidis.Lists.{respond}
use tidis.Collections
use tidis.Collections.{
  Opened, missing, other_type, expired, live, count_unique_keys, open_collection,
  txnkv_sum_key_size, drop_collection, delete_sizes, raise_size, lower_size, meta_key,
}

-- `vec![0]`, the value of every member
abbrev pub member_value : Bytes
member_value = 0 ∷ []

abbrev pub member_pairs : List Bytes → List (Bytes × Bytes)
member_pairs [] = []
member_pairs (k ∷ ks) = (k, member_value) ∷ member_pairs ks

abbrev pub exists_reply : Bool → Frame
exists_reply true = resp_int (pos 1)
exists_reply false = resp_int (pos 0)

-- the reply of SPOP: a single member, if one is asked for, and else an array
abbrev pub spop_reply : ℕ → List Frame → Frame
spop_reply count [] = if count == 1 then resp_nil else resp_array []
spop_reply count (v ∷ vs) = if count == 1 then last_of v vs else resp_array (v ∷ vs)
  where
    last_of : Frame → List Frame → Frame
    last_of v [] = v
    last_of v (w ∷ ws) = last_of w ws

module _ (c : Settings) (T : Txn) where
  abbrev pub member_key : Bytes → ℕ → Bytes → Bytes
  member_key key version m = encode_txnkv_set_data_key c.encoder key m version

  abbrev pub member_keys : Bytes → ℕ → List Bytes → List Bytes
  member_keys key version [] = []
  member_keys key version (m ∷ ms) = member_key key version m ∷ member_keys key version ms

  -- a set that is deleted at once: its counters, and its members
  abbrev pub purge_set : Bytes → ℕ → T.State → T.State
  purge_set key version s =
      let s1 = delete_sizes c T key version s in
      delete_keys T (T.scan_keys s1 (encode_txnkv_set_data_key_range c.encoder key version)) s1

  set_del_found : Bytes → Option Bytes → Exec T.State ℕ
  set_del_found key none = pure 0
  set_del_found key (some meta) = do
    version ← unwrap (decode_key_version meta)
    size ← txnkv_sum_key_size c T DataType.set key version
    modify (
        drop_collection c T DataType.set (async_del_set_threshold_or_default c)
          (purge_set key version) key version size)
    pure 1

  -- `do_async_txnkv_set_del`
  unfoldable pub set_del : Bytes → Exec T.State ℕ
  unfolding set_del_found txnkv_sum_key_size drop_collection
  set_del key = do meta ← read T (meta_key c T key); set_del_found key meta

  set_expire_found : ℕ → Bytes → Option Bytes → Exec T.State ℕ
  set_expire_found now key none = pure 0
  set_expire_found now key (some meta) = do
    (ttl, version, index) ← unwrap (decode_key_meta meta)
    if key_is_expired now ttl
        then (do
          size ← txnkv_sum_key_size c T DataType.set key version
          modify (
              drop_collection c T DataType.set (async_expire_set_threshold_or_default c)
                (purge_set key version) key version size)
          pure 1)
        else pure 0

  -- `do_async_txnkv_set_expire_if_needed`
  unfoldable pub set_expire_if_needed : ℕ → Bytes → Exec T.State ℕ
  unfolding set_expire_found txnkv_sum_key_size drop_collection
  set_expire_if_needed now key = do meta ← read T (meta_key c T key); set_expire_found now key meta

  abbrev pub open_set : ℕ → Bytes → Exec T.State Opened
  open_set now key = open_collection c T DataType.set now (set_expire_if_needed now key) key

  abbrev pub set_meta : ℕ → Bytes
  set_meta version = encode_txnkv_set_meta_value c.encoder 0 version 0

  -- SADD to a set that is there, or that has just expired
  unfoldable pub sadd_to : Bytes → List Bytes → ℕ → Bool → ℕ → Exec T.State ℕ
  sadd_to key members idx expired_now version = do
    let keys = member_keys key version members
    found ← gets (λ s. T.batch_get s keys)
    let added = sub64 (count_unique_keys keys) (length found)
    modify (put_all T (member_pairs keys))
    raise_size c T key version idx added
    if expired_now then write T (meta_key c T key) (set_meta version) else pure tt
    pure added

  -- SADD to a new set
  unfoldable pub sadd_new : Bytes → List Bytes → ℕ → ℕ → Exec T.State ℕ
  sadd_new key members idx version = do
    modify (put_all T (member_pairs (member_keys key version members)))
    write T (meta_key c T key) (set_meta version)
    let added = count_unique_keys members
    write T (Collections.size_key c T key version idx) (u64_be added)
    pure added

  sadd_opened : Bytes → List Bytes → ℕ → Opened → Exec T.State ℕ
  unfolding sadd_to sadd_new
  sadd_opened key members idx missing = do
    version ← get_version_for_new c T key
    sadd_new key members idx version
  sadd_opened key members idx other_type = raise wrong_type
  sadd_opened key members idx (expired ttl) = do
    version ← get_version_for_new c T key
    sadd_to key members idx true version
  sadd_opened key members idx (live ttl version) = sadd_to key members idx false version

  -- `do_async_txnkv_sadd`
  unfoldable pub sadd : ℕ → Bytes → List Bytes → ℕ → Exec T.State Frame
  unfolding sadd_opened
  sadd now key members idx =
      respond (λ n. resp_int (as_i64 n)) (do o ← open_set now key; sadd_opened key members idx o)

  scard_opened : Bytes → Opened → Exec T.State Frame
  scard_opened key missing = pure (resp_int (pos 0))
  scard_opened key other_type = pure (resp_err wrong_type)
  scard_opened key (expired ttl) = pure (resp_int (pos 0))
  scard_opened key (live ttl version) = do
    size ← txnkv_sum_key_size c T DataType.set key version
    pure (resp_int (as_i64 size))

  -- `do_async_txnkv_scard`
  unfoldable pub scard : ℕ → Bytes → Exec T.State Frame
  unfolding scard_opened
  scard now key = do o ← open_set now key; scard_opened key o
