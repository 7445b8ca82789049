-- ===== src/Sets/Drop.antt =====
-- Deleting a set, and what becomes of a set that has expired.
use tidis.Base.{ℕ, ◌-◌, ◌^◌, ◌<◌, ◌≡◌, ◌∙◌, refl, ap, true, List, [], length, arith, ltb}
use tidis.Base.Int.{pos, ltb_ℤ}
use tidis.Bytes.{Bytes, u16_mod}
use tidis.Encoding.{DataType}
use tidis.Encoding.Encode.{data_type_set, encode_txnkv_set_data_key_range}
use tidis.Frame.{as_i64, resp_int}
use tidis.Config.{
  Settings, key_is_expired, async_del_set_threshold_or_default,
  async_expire_set_threshold_or_default,
}
use tidis.Txn.{Txn, Distinct}
use tidis.Version.{get_version_for_new}
use tidis.Txn.Exec.{ok}
use tidis.Collections.{open_collection, expired, drop_collection, meta_key}
use tidis.Collections.Holds.{as_i64_small, Items, sum_live}
use tidis.Collections.Drop.{Dropped, purge, drop_collection-Dropped, version_of_meta}
use tidis.Collections.Gone.{Items-put_meta}
use tidis.Collections.Items.{with_items, with_items-nil, count_in, count_in-nil}
use tidis.Bytes.Lex.{bytes_eq_refl}
use tidis.Lists.{respond}
use tidis.Sets.{set_meta, sadd, set_del, set_expire_if_needed, purge_set}
use tidis.Sets.Add.{SetHolds, SetDone, SetDone-reply, set_apart, settled, sadd_to_lem, Holds-new}

module _ (c : Settings) (T : Txn) where
  -- The state after a set of the given size has been deleted.
  abbrev pub dropped : ℕ → Bytes → ℕ → ℕ → T.State → T.State
  dropped threshold key version size s =
      drop_collection c T DataType.set threshold (purge_set c T key version) key version size s

  purge_set-purge :
      (key : Bytes) (version : ℕ) (hv : version < u16_mod) (s : T.State)
      → purge_set c T key version s
        ≡ purge c T DataType.set data_type_set set_apart key version hv s
  unfolding encode_txnkv_set_data_key_range
  purge_set-purge key version hv s = refl

  set_del_made :
      (key : Bytes) (ttl version : ℕ) (s : T.State) (ms : List Bytes)
      → SetHolds c T s key ttl version ms
      → set_del c T key s
        ≡ (ok 1, dropped (async_del_set_threshold_or_default c) key version (length ms) s)
  unfolding set_del
  set_del_made key ttl version s ms h =
      rw (h.meta, version_of_meta h.value ttl version h.index h.decoded)
        (rw (sum_live c T DataType.set refl data_type_set key ttl version s ms h) refl)

  set_expire_made :
      (now : ℕ) (key : Bytes) (ttl version : ℕ) (s : T.State) (ms : List Bytes)
      → SetHolds c T s key ttl version ms
      → key_is_expired now ttl ≡ true
      → set_expire_if_needed c T now key s
        ≡ (ok 1, dropped (async_expire_set_threshold_or_default c) key version (length ms) s)
  unfolding set_expire_if_needed
  set_expire_made now key ttl version s ms h past =
      rw (h.meta, h.decoded, past)
        (rw (sum_live c T DataType.set refl data_type_set key ttl version s ms h) refl)

  pub dropped-Dropped :
      (threshold : ℕ) (key : Bytes) (version : ℕ) (hv : version < u16_mod) (size : ℕ) (s : T.State)
      → Dropped c T DataType.set data_type_set set_apart key version hv
          (ltb_ℤ (pos threshold) (as_i64 size))
          (dropped threshold key version size s)
  unfolding encode_txnkv_set_data_key_range
  dropped-Dropped threshold key version hv size s =
      drop_collection-Dropped c T DataType.set data_type_set set_apart key version hv threshold size
        s

  -- Deleting a set that holds `ms` replies 1. If they are more than the threshold, the meta value is gone
  -- and the garbage collection's keys hold the version and the type; else the meta value, the members and
  -- the counters are gone.
  pub set_del_lem :
      (key : Bytes) (ttl version : ℕ) (s : T.State) (ms : List Bytes)
      (h : SetHolds c T s key ttl version ms)
      → let (reply, s') = set_del c T key s in
        (reply ≡ ok 1)
        × Dropped c T DataType.set data_type_set set_apart key version h.version_lt
            (ltb (async_del_set_threshold_or_default c) (length ms))
            s'
  set_del_lem key ttl version s ms h =
      let threshold = async_del_set_threshold_or_default c in
      let size : ltb_ℤ (pos threshold) (as_i64 (length ms)) ≡ ltb threshold (length ms) =
        rw (as_i64_small (length ms) h.room) (ground arith) in
      rw (set_del_made key ttl version s ms h)
        (refl, rw size at (dropped-Dropped threshold key version h.version_lt (length ms) s))

  -- The state in which a command on a set that has expired goes on.
  abbrev pub after_expiry : Bytes → ℕ → ℕ → T.State → T.State
  after_expiry key version size s =
      dropped (async_expire_set_threshold_or_default c) key version size s

  pub open_expired :
      (now : ℕ) (key : Bytes) (ttl version : ℕ) (s : T.State) (ms : List Bytes)
      → SetHolds c T s key ttl version ms
      → key_is_expired now ttl ≡ true
      → open_collection c T DataType.set now (set_expire_if_needed c T now key) key s
        ≡ (ok (expired ttl), after_expiry key version (length ms) s)
  unfolding open_collection
  open_expired now key ttl version s ms h past =
      rw (h.meta, h.typed)
        (rw (h.decoded, past) (rw (set_expire_made now key ttl version s ms h past) refl))

  -- SADD of different members to a set that has expired, where `get_version_for_new` finds a version
  -- without members once the old set is deleted, replies their number and makes a set of them alone,
  -- under that version and without an expiry.
  pub sadd_expired_lem :
      (now : ℕ) (key : Bytes) (xs ms : List Bytes) (idx ttl old version : ℕ) (s : T.State)
      → c.encoder.meta_key_number < u16_mod
      → SetHolds c T s key ttl old ms
      → key_is_expired now ttl ≡ true
      → (let s' = after_expiry key old (length ms) s in
          (get_version_for_new c T key s' ≡ (ok version, s'))
          × Items c T data_type_set s' key version [])
      → version < u16_mod
      → Distinct xs
      → 0 < length xs
      → length xs < 2 ^ 63
      → SetDone c T key (length xs) 0 version xs (sadd c T now key xs idx s)
  unfolding sadd
  sadd_expired_lem now key xs ms idx ttl old version s he h past (new, none_left) hv hx hf hb =
      let s1 = after_expiry key old (length ms) s in
      let all : with_items xs [] ≡ xs = with_items-nil xs in
      let (s', done, items, metas) =
        sadd_to_lem c T true key xs [] idx version s1 hv none_left hx
          (rw all (omega (arith, hb))) in
      let s2 = settled c T true key version s' in
      let counted : length xs - count_in xs [] ≡ length xs = rw (count_in-nil xs) (omega arith) in
      let made : sadd c T now key xs idx s ≡ (ok (resp_int (as_i64 (length xs))), s2) =
        rw (open_expired now key ttl old s ms h past, new)
          (ap (λ r. respond (λ n. resp_int (as_i64 n)) (λ (t : T.State). r) s)
            (done ∙ ap (λ n. (ok n, s2)) counted)) in
      SetDone-reply c T key (length xs) 0 version xs (sadd c T now key xs idx s) s2
        (made ∙ rw (as_i64_small (length xs) hb) refl)
        (Holds-new c T key version xs s2 he hv
          (Items-put_meta c T data_type_set set_apart key version hv s' xs (set_meta c T version)
            (rw all at items))
          (T.get-put s' (meta_key c T key) (set_meta c T version) (meta_key c T key)
            ∙ rw (bytes_eq_refl (meta_key c T key)) refl)
          hf hb)
