-- ===== src/Lists/Access.antt =====
-- `do_async_txnkv_llen`, `do_async_txnkv_lindex` and `do_async_txnkv_lset` of src/tikv/list.rs.
pub mod Laws
use tidis.Base.{
  ℕ, zero, suc, ◌+◌, ◌-◌, ◌^◌, Bool, true, false, Option, none, some, List, [], ◌∷◌, map, ◌||◌, ltb,
  leb, ◌==◌, if◌then◌else◌,
}
use tidis.Base.Int.{ℤ, pos, negsuc, ltb_ℤ}
use tidis.Bytes.{Bytes, add64, sub64}
use tidis.Frame.{
  Frame, Error, wrong_type, no_such_key, index_out_of_range, resp_ok, resp_err, resp_int, resp_bulk,
  resp_nil, resp_array, as_i64, as_u64, add_i64, sub_i64,
}
use tidis.Config.{Settings}
use tidis.Version.{get_version_for_new}
use tidis.Txn.{Txn}
use tidis.Txn.Exec.{Exec, Result, ok, err, panic, pure, raise, gets, unwrap, modify, ◌>>=◌, ◌>>◌}
use tidis.Lists.{
  Opened, missing, other_type, expired, live, respond, meta_key, item_key, meta_value, read, write,
  remove, delete_all, open_list, init_index, from_end,
}

abbrev pub bulk_or_nil : Option Bytes → Frame
bulk_or_nil none = resp_nil
bulk_or_nil (some value) = resp_bulk value

-- LSET's test of the position in the list and of the index of the data key
lset_refused : ℤ → ℤ → ℕ → ℕ → Bool
lset_refused idx uidx left right =
    ltb_ℤ idx (pos 0) || (ltb_ℤ uidx (as_i64 left) || ltb_ℤ (as_i64 (sub64 right 1)) uidx)

module _ (c : Settings) (T : Txn) where
  llen_opened : Opened → Exec T.State Frame
  llen_opened missing = pure (resp_int (pos 0))
  llen_opened other_type = pure (resp_err wrong_type)
  llen_opened (expired ttl) = pure (resp_int (pos 0))
  llen_opened (live ttl version left right) = pure (resp_int (as_i64 (sub64 right left)))

  -- `do_async_txnkv_llen`
  unfoldable pub llen : ℕ → Bytes → Exec T.State Frame
  unfolding llen_opened
  llen now key = do o ← open_list c T now key; llen_opened o

  lindex_opened : Bytes → ℤ → Opened → Exec T.State Frame
  unfolding from_end
  lindex_opened key idx missing = pure resp_nil
  lindex_opened key idx other_type = pure (resp_err wrong_type)
  lindex_opened key idx (expired ttl) = pure resp_nil
  lindex_opened key idx (live ttl version left right) = do
    let real_idx = add_i64 (as_i64 left) (from_end idx (sub64 right left))
    found ← read c T (item_key c T key (as_u64 real_idx) version)
    pure (bulk_or_nil found)

  -- `do_async_txnkv_lindex`
  unfoldable pub lindex : ℕ → Bytes → ℤ → Exec T.State Frame
  unfolding lindex_opened
  lindex now key idx = do o ← open_list c T now key; lindex_opened key idx o

  lset_opened : Bytes → ℤ → Bytes → Opened → Exec T.State (Unit {0})
  unfolding from_end lset_refused
  lset_opened key idx ele missing = raise no_such_key
  lset_opened key idx ele other_type = raise wrong_type
  lset_opened key idx ele (expired ttl) = raise no_such_key
  lset_opened key idx ele (live ttl version left right) =
      let i = from_end idx (sub64 right left) in
      let uidx = add_i64 i (as_i64 left) in
      if lset_refused i uidx left right
      then raise index_out_of_range
      else write c T (item_key c T key (as_u64 uidx) version) ele

  -- `do_async_txnkv_lset`
  unfoldable pub lset : ℕ → Bytes → ℤ → Bytes → Exec T.State Frame
  unfolding lset_opened
  lset now key idx ele =
      respond (λ _. resp_ok) (do o ← open_list c T now key; lset_opened key idx ele o)
