-- ===== src/Lists/Pop.antt =====
-- `do_async_txnkv_pop` of src/tikv/list.rs.
pub mod Laws
pub mod Inverse
use tidis.Base.{
  ℕ, zero, suc, ◌+◌, ◌-◌, ◌^◌, Bool, true, false, Option, none, some, List, [], ◌∷◌, map, ◌||◌, ltb,
  leb, ◌==◌, if◌then◌else◌,
}
use tidis.Base.Int.{ℤ, pos, negsuc, ltb_ℤ}
use tidis.Bytes.{Bytes, add64, sub64}
use tidis.Frame.{
  Frame, Error, wrong_type, no_such_key, index_out_of_range, resp_ok, resp_err, resp_int, resp_bulk,
  resp_nil, resp_array, as_i64, as_u64, add_i64, sub_i64,
}
use tidis.Config.{Settings}
use tidis.Version.{get_version_for_new}
use tidis.Txn.{Txn}
use tidis.Txn.Exec.{Exec, Result, ok, err, panic, pure, raise, gets, unwrap, modify, ◌>>=◌, ◌>>◌}
use tidis.Lists.{
  Opened, missing, other_type, expired, live, respond, meta_key, item_key, meta_value, read, write,
  remove, delete_all, open_list, init_index, from_end,
}

abbrev first : Bytes × Bytes → Bytes
first p = p.0

abbrev bulk_of : Bytes × Bytes → Frame
bulk_of p = resp_bulk p.1

abbrev pub pop_reply : List Frame → Frame
pop_reply [] = resp_nil
pop_reply (value ∷ []) = value
pop_reply values = resp_array values

-- `count == 1`
abbrev is_one : ℤ → Bool
is_one (pos n) = n == 1
is_one (negsuc n) = false

module _ (c : Settings) (T : Txn) where
  -- the end of a command that took elements off: an empty list has no meta value
  close_list : Bytes → ℕ → ℕ → ℕ → ℕ → T.State → T.State
  close_list key ttl version left right s =
      if left == right
      then T.delete s (meta_key c T key)
      else T.put s (meta_key c T key) (meta_value c T ttl version left right)

  pop_one_value : Bytes → Option Bytes → Exec T.State Frame
  pop_one_value k none s = (panic, s)
  pop_one_value k (some value) s = (ok (resp_bulk value), T.delete s k)

  -- `count == 1`: `unwrap` of a missing data key panics
  pop_one : Bytes → Bool → ℕ → ℕ → ℕ → ℕ → Exec T.State (List Frame)
  unfolding close_list pop_one_value
  pop_one key op_left ttl version left right = do
    let idx = if op_left then left else sub64 right 1
    let left' = if op_left then add64 left 1 else left
    let right' = if op_left then right else sub64 right 1
    found ← read c T (item_key c T key idx version)
    value ← pop_one_value (item_key c T key idx version) found
    modify (close_list key ttl version left' right')
    pure (value ∷ [])

  -- the keys of `n` elements to pop, and the ends after them
  pop_keys : ℕ → Bytes → ℕ → Bool → ℕ → ℕ → List Bytes × ℕ × ℕ
  pop_keys zero key version op_left left right = ([], left, right)
  pop_keys (suc n) key version true left right =
      let (keys, left', right') = pop_keys n key version true (add64 left 1) right in
      (item_key c T key left version ∷ keys, left', right')
  pop_keys (suc n) key version false left right =
      let idx = sub64 right 1 in
      let (keys, left', right') = pop_keys n key version false left idx in
      (item_key c T key idx version ∷ keys, left', right')

  pop_many : Bytes → Bool → ℕ → ℕ → ℕ → ℕ → ℕ → Exec T.State (List Frame)
  unfolding pop_keys close_list delete_all
  pop_many key op_left count ttl version left right = do
    let len = sub64 right left
    let real_count = if ltb len count then len else count
    let (keys, left', right') = pop_keys real_count key version op_left left right
    pairs ← gets (λ s. T.batch_get s keys)
    modify (delete_all c T (map first pairs))
    modify (close_list key ttl version left' right')
    pure (map bulk_of pairs)

  pop_opened : Bytes → Bool → ℤ → Opened → Exec T.State (List Frame)
  unfolding pop_one pop_many as_u64
  pop_opened key op_left count missing = pure []
  pop_opened key op_left count other_type = raise wrong_type
  pop_opened key op_left count (expired ttl) = pure []
  pop_opened key op_left count (live ttl version left right) =
      if is_one count
      then pop_one key op_left ttl version left right
      else pop_many key op_left (as_u64 count) ttl version left right

  -- `do_async_txnkv_pop`
  unfoldable pub pop : ℕ → Bytes → Bool → ℤ → Exec T.State Frame
  unfolding pop_opened
  pop now key op_left count =
      respond pop_reply (do o ← open_list c T now key; pop_opened key op_left count o)
