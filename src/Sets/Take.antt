-- ===== src/Sets/Take.antt =====
-- SREM: the reply counts the members that were there; they are taken off, and with the last one goes the set.
use tidis.Base.{ℕ, ◌^◌, ◌<◌, ◌≡◌, ◌∙◌, refl, sym, ap, subst, false, List, map, length, arith}
use tidis.Base.Int.{pos}
use tidis.Bytes.{Bytes}
use tidis.Encoding.{DataType}
use tidis.Encoding.Encode.{data_type_set}
use tidis.Frame.{Frame, resp_int, as_i64}
use tidis.Config.{Settings, key_is_expired}
use tidis.Txn.{Txn, first, Distinct}
use tidis.Txn.Exec.{Result, ok, pure, ◌>>◌}
use tidis.Txn.Steps.{delete_keys}
use tidis.Lists.{respond}
use tidis.Collections.{take_off}
use tidis.Collections.Items.{without_items, count_in, length-without_items}
use tidis.Collections.Holds.{as_i64_small, item_keys, open_live, sum_live}
use tidis.Collections.Taken.{Left, taken}
use tidis.Sets.{set_expire_if_needed}
use tidis.Sets.Remove.{srem, srem_live}
use tidis.Sets.Add.{SetHolds, set_apart, member_keys-item_keys}

module _ (c : Settings) (T : Txn) where
  -- With no members, there is no set.
  abbrev pub SetLeft : T.State → Bytes → ℕ → ℕ → List Bytes → Type 0
  SetLeft s key ttl version ms = Left c T DataType.set data_type_set set_apart s key ttl version ms

  -- After a command that replies `n`, the set holds `ms`, or is gone when those are none.
  abbrev pub SetTaken : Bytes → ℕ → ℕ → ℕ → List Bytes → Result Frame × T.State → Type 0
  SetTaken key n ttl version ms (reply, s') =
      (reply ≡ ok (resp_int (pos n))) × SetLeft s' key ttl version ms

  srem_live-take_off :
      (key : Bytes) (xs ms : List Bytes) (idx ttl version : ℕ) (s s' : T.State)
      → SetHolds c T s key ttl version ms
      → let pairs = T.batch_get s (item_keys c data_type_set key version xs) in
        (take_off c T key version idx (length pairs) (length ms) (delete_keys T (map first pairs) s)
          ≡ (ok tt, s'))
        → srem_live c T key xs idx version s ≡ (ok (length pairs), s')
  unfolding srem_live
  srem_live-take_off key xs ms idx ttl version s s' h e =
      let n = length (T.batch_get s (item_keys c data_type_set key version xs)) in
      rw
        (
          sum_live c T DataType.set refl data_type_set key ttl version s ms h,
          member_keys-item_keys c T key version xs,
        )
        (ap (λ r. ((λ (t : T.State). r) >> pure n) s) e)

  srem_live_done :
      (now : ℕ) (key : Bytes) (xs ms : List Bytes) (idx ttl version : ℕ) (s s' : T.State)
      → SetHolds c T s key ttl version ms
      → key_is_expired now ttl ≡ false
      → srem_live c T key xs idx version s ≡ (ok (count_in xs ms), s')
      → count_in xs ms < 2 ^ 63
      → SetLeft s' key ttl version (without_items xs ms)
      → SetTaken key (count_in xs ms) ttl version (without_items xs ms) (srem c T now key xs idx s)
  unfolding srem
  srem_live_done now key xs ms idx ttl version s s' h fresh done hb left =
      let made : srem c T now key xs idx s ≡ (ok (resp_int (as_i64 (count_in xs ms))), s') =
        rw
          (open_live c T DataType.set refl data_type_set now (set_expire_if_needed c T now key) key
            ttl version s ms h fresh)
          (ap (λ r. respond (λ n. resp_int (as_i64 n)) (λ (t : T.State). r) s) done) in
      subst (λ r. SetTaken key (count_in xs ms) ttl version (without_items xs ms) r)
        (sym (made ∙ rw (as_i64_small (count_in xs ms) hb) refl)) (refl, left)

  -- SREM of different members `xs` from a set that holds `ms` and has not expired replies how many of
  -- `xs` are in `ms`. The set then holds the rest of `ms`, with the sum of its counters at their number;
  -- when that is none, its meta value, members and counters are gone.
  pub srem_lem :
      (now : ℕ) (key : Bytes) (xs ms : List Bytes) (idx ttl version : ℕ) (s : T.State)
      → SetHolds c T s key ttl version ms
      → key_is_expired now ttl ≡ false
      → Distinct xs
      → SetTaken key (count_in xs ms) ttl version (without_items xs ms) (srem c T now key xs idx s)
  srem_lem now key xs ms idx ttl version s h fresh hx =
      let (n, (s', done, left)) =
        taken c T DataType.set data_type_set set_apart key xs ms idx ttl version s h hx in
      srem_live_done now key xs ms idx ttl version s s' h fresh
        (srem_live-take_off key xs ms idx ttl version s s' h done ∙ ap (λ m. (ok m, s')) n)
        (omega (arith, length-without_items xs ms hx h.inside.distinct, h.room)) left
