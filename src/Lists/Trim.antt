-- ===== src/Lists/Trim.antt =====
-- `do_async_txnkv_ltrim` of src/tikv/list.rs.
pub mod Positions
pub mod Laws
use tidis.Base.{
  ℕ, zero, suc, ◌+◌, ◌-◌, ◌^◌, Bool, true, false, Option, none, some, List, [], ◌∷◌, map, ◌||◌, ltb,
  leb, ◌==◌, if◌then◌else◌,
}
use tidis.Base.Int.{ℤ, pos, negsuc, ltb_ℤ}
use tidis.Bytes.{Bytes, add64, sub64}
use tidis.Frame.{
  Frame, Error, wrong_type, no_such_key, index_out_of_range, resp_ok, resp_err, resp_int, resp_bulk,
  resp_nil, resp_array, as_i64, as_u64, add_i64, sub_i64,
}
use tidis.Config.{Settings}
use tidis.Version.{get_version_for_new}
use tidis.Txn.{Txn}
use tidis.Txn.Exec.{Exec, Result, ok, err, panic, pure, raise, gets, unwrap, modify, ◌>>=◌, ◌>>◌}
use tidis.Lists.{
  Opened, missing, other_type, expired, live, respond, meta_key, item_key, meta_value, read, write,
  remove, delete_all, open_list, init_index, from_end,
}

-- the index moved into [0, len - 1]
pub clamp_index : ℤ → ℤ → ℤ
clamp_index idx len =
    let low = if ltb_ℤ idx (pos 0) then pos 0 else idx in
    let last = sub_i64 len (pos 1) in if ltb_ℤ last low then last else low

module _ (c : Settings) (T : Txn) where
  -- `for idx in from..from + n { delete }`
  delete_items : ℕ → Bytes → ℕ → ℕ → T.State → T.State
  delete_items zero key version idx s = s
  delete_items (suc n) key version idx s =
      delete_items n key version (idx + 1) (T.delete s (item_key c T key idx version))

  ltrim_live : Bytes → ℤ → ℤ → ℕ → ℕ → ℕ → ℕ → T.State → T.State
  unfolding from_end clamp_index delete_items
  ltrim_live key start stop ttl version left right s =
      let len = as_i64 (sub64 right left) in
      let first = add_i64 (clamp_index (from_end start (sub64 right left)) len) (as_i64 left) in
      let last = add_i64 (clamp_index (from_end stop (sub64 right left)) len) (as_i64 left) in
      let s1 = delete_items (as_u64 first - left) key version left s in
      let left_trim = sub_i64 first (as_i64 left) in
      let left' = if ltb_ℤ (pos 0) left_trim then add64 left (as_u64 left_trim) else left in
      let after = as_u64 (add_i64 last (pos 1)) in
      let s2 = delete_items (right - after) key version after s1 in
      let right_trim = sub_i64 (sub_i64 (as_i64 right) last) (pos 1) in
      let right' = if ltb_ℤ (pos 0) right_trim then sub64 right (as_u64 right_trim) else right in
      if leb right' left'
      then T.delete s2 (meta_key c T key)
      else T.put s2 (meta_key c T key) (meta_value c T ttl version left' right')

  ltrim_opened : Bytes → ℤ → ℤ → Opened → Exec T.State (Unit {0})
  unfolding ltrim_live
  ltrim_opened key start stop missing = pure tt
  ltrim_opened key start stop other_type = raise wrong_type
  ltrim_opened key start stop (expired ttl) = pure tt
  ltrim_opened key start stop (live ttl version left right) =
      modify (ltrim_live key start stop ttl version left right)

  -- `do_async_txnkv_ltrim`
  unfoldable pub ltrim : ℕ → Bytes → ℤ → ℤ → Exec T.State Frame
  unfolding ltrim_opened
  ltrim now key start stop =
      respond (λ _. resp_ok) (do o ← open_list c T now key; ltrim_opened key start stop o)
