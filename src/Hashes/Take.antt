-- ===== src/Hashes/Take.antt =====
-- HDEL: the reply counts the fields that were there; they are taken off, and with the last one goes the
-- hash.
use tidis.Base.{ℕ, ◌^◌, ◌<◌, ◌≡◌, ◌∙◌, refl, sym, ap, subst, false, List, map, length, arith}
use tidis.Base.Int.{pos}
use tidis.Bytes.{Bytes}
use tidis.Encoding.{DataType}
use tidis.Encoding.Encode.{data_type_hash}
use tidis.Frame.{Frame, resp_int, as_i64}
use tidis.Config.{Settings, key_is_expired}
use tidis.Txn.{Txn, first, Distinct}
use tidis.Txn.Exec.{Result, ok, pure, ◌>>◌}
use tidis.Txn.Steps.{delete_keys}
use tidis.Txn.Batch.{contains-batch_get}
use tidis.Lists.{respond}
use tidis.Collections.Changes.{item_keys-Distinct, deleted_meta, deleted_sizes}
use tidis.Txn.Batch.{contains-batch_get}
use tidis.Collections.{txnkv_sum_key_size, sum_sizes, take_off}
use tidis.Collections.Items.{without_items, count_in, length-without_items}
use tidis.Collections.Holds.{as_i64_small, sum_counted, item_keys, open_live}
use tidis.Collections.Changes.{item_keys-Distinct}
use tidis.Collections.Taken.{Left, taken}
use tidis.Hashes.{hash_expire_if_needed}
use tidis.Hashes.Laws.{HashHolds, hash_apart}
use tidis.Hashes.Put.{field_keys-item_keys}
use tidis.Hashes.Change.{hdel, hdel_live}

module _ (c : Settings) (T : Txn) where
  -- With no fields, there is no hash.
  abbrev pub HashLeft : T.State → Bytes → ℕ → ℕ → List Bytes → Type 0
  HashLeft s key ttl version ms =
      Left c T DataType.hash data_type_hash hash_apart s key ttl version ms

  -- After a command that replies `n`, the hash holds `ms`, or is gone when those are none.
  abbrev pub HashTaken : Bytes → ℕ → ℕ → ℕ → List Bytes → Result Frame × T.State → Type 0
  HashTaken key n ttl version ms (reply, s') =
      (reply ≡ ok (resp_int (pos n))) × HashLeft s' key ttl version ms

  -- The deletion of fields changes neither the counters nor the meta value.
  sum_kept :
      (key : Bytes) (xs ms : List Bytes) (ttl version : ℕ) (s : T.State)
      → HashHolds c T s key ttl version ms
      → Distinct xs
      → let s1 =
          delete_keys T (map first (T.batch_get s (item_keys c data_type_hash key version xs))) s in
        (txnkv_sum_key_size c T DataType.hash key version s1 ≡ (ok (length ms), s1))
  sum_kept key xs ms ttl version s h hx =
      let hv = h.version_lt in
      let keys = item_keys c data_type_hash key version xs in
      let different = item_keys-Distinct c data_type_hash hash_apart key version hv xs hx in
      let ks = map first (T.batch_get s keys) in
      let which = λ (k : Bytes). contains-batch_get T s keys k different in
      sum_counted c T DataType.hash refl key h.value version (length ms) (delete_keys T ks s)
        (deleted_meta c data_type_hash hash_apart key version hv T s ks xs key which ∙ h.meta)
        h.typed
        (ap sum_sizes (deleted_sizes c data_type_hash hash_apart key version hv T s ks xs which)
          ∙ h.inside.counted)
        h.filled h.room

  hdel_live-take_off :
      (key : Bytes) (xs ms : List Bytes) (idx ttl version : ℕ) (s s' : T.State)
      → HashHolds c T s key ttl version ms
      → Distinct xs
      → let pairs = T.batch_get s (item_keys c data_type_hash key version xs) in
        (take_off c T key version idx (length pairs) (length ms) (delete_keys T (map first pairs) s)
          ≡ (ok tt, s'))
        → hdel_live c T key xs idx version s ≡ (ok (length pairs), s')
  unfolding hdel_live
  hdel_live-take_off key xs ms idx ttl version s s' h hx e =
      let n = length (T.batch_get s (item_keys c data_type_hash key version xs)) in
      rw (field_keys-item_keys c T key version xs) (
        rw (sum_kept key xs ms ttl version s h hx) (ap (λ r. ((λ (t : T.State). r) >> pure n) s) e))

  hdel_live_done :
      (now : ℕ) (key : Bytes) (xs ms : List Bytes) (idx ttl version : ℕ) (s s' : T.State)
      → HashHolds c T s key ttl version ms
      → key_is_expired now ttl ≡ false
      → hdel_live c T key xs idx version s ≡ (ok (count_in xs ms), s')
      → count_in xs ms < 2 ^ 63
      → HashLeft s' key ttl version (without_items xs ms)
      → HashTaken key (count_in xs ms) ttl version (without_items xs ms) (hdel c T now key xs idx s)
  unfolding hdel
  hdel_live_done now key xs ms idx ttl version s s' h fresh done hb left =
      let made : hdel c T now key xs idx s ≡ (ok (resp_int (as_i64 (count_in xs ms))), s') =
        rw
          (open_live c T DataType.hash refl data_type_hash now (hash_expire_if_needed c T now key)
            key ttl version s ms h fresh)
          (ap (λ r. respond (λ n. resp_int (as_i64 n)) (λ (t : T.State). r) s) done) in
      subst (λ r. HashTaken key (count_in xs ms) ttl version (without_items xs ms) r)
        (sym (made ∙ rw (as_i64_small (count_in xs ms) hb) refl)) (refl, left)

  -- HDEL of different fields `xs` from a hash that holds `ms` and has not expired replies how many of
  -- `xs` are in `ms`. The hash then holds the rest of `ms`, with the sum of its counters at their number;
  -- when that is none, its meta value, fields and counters are gone.
  pub hdel_lem :
      (now : ℕ) (key : Bytes) (xs ms : List Bytes) (idx ttl version : ℕ) (s : T.State)
      → HashHolds c T s key ttl version ms
      → key_is_expired now ttl ≡ false
      → Distinct xs
      → HashTaken key (count_in xs ms) ttl version (without_items xs ms) (hdel c T now key xs idx s)
  hdel_lem now key xs ms idx ttl version s h fresh hx =
      let (n, (s', done, left)) =
        taken c T DataType.hash data_type_hash hash_apart key xs ms idx ttl version s h hx in
      hdel_live_done now key xs ms idx ttl version s s' h fresh
        (hdel_live-take_off key xs ms idx ttl version s s' h hx done ∙ ap (λ m. (ok m, s')) n)
        (omega (arith, length-without_items xs ms hx h.inside.distinct, h.room)) left
