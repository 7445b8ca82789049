-- ===== src/Lists/Push.antt =====
-- `do_async_txnkv_push` of src/tikv/list.rs.
pub mod Laws
pub mod Expired
use tidis.Base.{
  ℕ, zero, suc, ◌+◌, ◌-◌, ◌^◌, Bool, true, false, Option, none, some, List, [], ◌∷◌, map, ◌||◌, ltb,
  leb, ◌==◌, if◌then◌else◌,
}
use tidis.Base.Int.{ℤ, pos, negsuc, ltb_ℤ}
use tidis.Bytes.{Bytes, add64, sub64}
use tidis.Frame.{
  Frame, Error, wrong_type, no_such_key, index_out_of_range, resp_ok, resp_err, resp_int, resp_bulk,
  resp_nil, resp_array, as_i64, as_u64, add_i64, sub_i64,
}
use tidis.Config.{Settings}
use tidis.Version.{get_version_for_new}
use tidis.Txn.{Txn}
use tidis.Txn.Exec.{Exec, Result, ok, err, panic, pure, raise, gets, unwrap, modify, ◌>>=◌, ◌>>◌}
use tidis.Lists.{
  Opened, missing, other_type, expired, live, respond, meta_key, item_key, meta_value, read, write,
  remove, delete_all, open_list, init_index, from_end,
}

module _ (c : Settings) (T : Txn) where
  -- the loop of `do_async_txnkv_push`; it returns the new ends
  push_values : Bytes → ℕ → Bool → List Bytes → ℕ → ℕ → T.State → (ℕ × ℕ) × T.State
  push_values key version op_left [] left right s = ((left, right), s)
  push_values key version true (value ∷ values) left right s =
      let idx = sub64 left 1 in
      push_values key version true values idx right (T.put s (item_key c T key idx version) value)
  push_values key version false (value ∷ values) left right s =
      push_values key version false values left (add64 right 1)
        (T.put s (item_key c T key right version) value)

  -- Pushes between the ends given, and writes the meta value.
  pub push_between : Bytes → List Bytes → Bool → ℕ → ℕ → ℕ → ℕ → Exec T.State ℕ
  unfolding push_values
  push_between key values op_left ttl version left right = do
    (left', right') ←
        λ s. let (ends, s') = push_values key version op_left values left right s in (ok ends, s')
    write c T (meta_key c T key) (meta_value c T ttl version left' right')
    pure (sub64 right' left')

  push_opened : Bytes → List Bytes → Bool → Opened → Exec T.State ℕ
  unfolding push_between
  push_opened key values op_left missing = do
    version ← get_version_for_new c T key
    push_between key values op_left 0 version init_index init_index
  push_opened key values op_left other_type = raise wrong_type
  push_opened key values op_left (expired ttl) = do
    version ← get_version_for_new c T key
    push_between key values op_left ttl version init_index init_index
  push_opened key values op_left (live ttl version left right) =
      push_between key values op_left ttl version left right

  -- `do_async_txnkv_push`
  unfoldable pub push : ℕ → Bytes → List Bytes → Bool → Exec T.State Frame
  unfolding push_opened
  push now key values op_left =
      respond (λ n. resp_int (as_i64 n))
        (do o ← open_list c T now key; push_opened key values op_left o)
