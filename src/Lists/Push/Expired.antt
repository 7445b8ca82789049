-- ===== src/Lists/Push/Expired.antt =====
-- A push on a key whose list has expired.
use tidis.Base.{ℕ, ◌+◌, ◌^◌, ◌<◌, ◌≡◌, ◌∙◌, ap, Bool, true, List, [], length, arith}
use tidis.Base.Int.{pos}
use tidis.Bytes.{Bytes, u16_mod}
use tidis.Frame.{resp_int}
use tidis.Config.{Settings, key_is_expired}
use tidis.Version.{get_version_for_new}
use tidis.Txn.{Txn}
use tidis.Txn.Exec.{ok}
use tidis.Lists.{init_index, delete_list}
use tidis.Lists.Items.{Items}
use tidis.Lists.Holds.{Holds}
use tidis.Lists.Delete.{open_list-expired}
use tidis.Lists.Access.{llen}
use tidis.Lists.Push.{push}
use tidis.Lists.Push.Laws.{PushDone, push_between-PushDone, Fits-new, pushed, pushed_left}

module _ (c : Settings) (T : Txn) where
  -- `do_async_txnkv_push` on an expired list deletes it and makes a new one of the values alone, under
  -- a new version, but with the expiry of the old list.
  push_expired :
      (now : ℕ) (key : Bytes) (values : List Bytes) (op_left : Bool) (ttl old version left : ℕ)
      (s : T.State) (xs : List Bytes)
      → Holds c T s key ttl old left xs
      → key_is_expired now ttl ≡ true
      → (let s' = delete_list c T key old (length xs) s in
          get_version_for_new c T key s' ≡ (ok version, s'))
      → version < u16_mod
      → Items c T (delete_list c T key old (length xs) s) key version init_index []
      → length values < 2 ^ 32
      → PushDone c T key values op_left ttl version init_index []
          (push c T now key values op_left s)
  unfolding push
  push_expired now key values op_left ttl old version left s xs h past found hv items hn =
      rw (open_list-expired c T now key ttl old left s xs h past) (
        rw found (
          push_between-PushDone c T key values op_left ttl version init_index
            (delete_list c T key old (length xs) s) [] h.ttl_lt hv (Fits-new c T op_left values hn)
            (omega arith) items))

  -- What is pushed on an expired list is lost, where a version is found once the list is deleted, no
  -- elements of that version are left over, and there are fewer than 2^32 values: the push replies the
  -- number of values, and LLEN at the same time replies 0.
  pub push_expired_lost :
      (now : ℕ) (key : Bytes) (values : List Bytes) (op_left : Bool) (ttl old version left : ℕ)
      (s : T.State) (xs : List Bytes)
      → Holds c T s key ttl old left xs
      → key_is_expired now ttl ≡ true
      → (let s' = delete_list c T key old (length xs) s in
          get_version_for_new c T key s' ≡ (ok version, s'))
      → version < u16_mod
      → Items c T (delete_list c T key old (length xs) s) key version init_index []
      → length values < 2 ^ 32
      → let (reply, s') = push c T now key values op_left s in
        (reply ≡ ok (resp_int (pos (length values))))
        × ((llen c T now key s').0 ≡ ok (resp_int (pos 0)))
  unfolding llen
  push_expired_lost now key values op_left ttl old version left s xs h past found hv items hn =
      let done =
        push_expired now key values op_left ttl old version left s xs h past found hv items hn in
      (
        done.0
            ∙ ap (λ n. ok (resp_int (pos n)))
                (let e : 0 + length values ≡ length values = omega arith in e),
        rw (
            open_list-expired c T now key ttl version (pushed_left op_left values init_index)
              (push c T now key values op_left s).1 (pushed op_left values []) done.1 past),
      )
