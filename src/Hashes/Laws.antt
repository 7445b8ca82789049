-- ===== src/Hashes/Laws.antt =====
-- What HINCRBY does to the counters of a hash.
use tidis.Base.{
  ℕ, ◌<◌, ◌≡◌, ◌≢◌, ◌∙◌, refl, ap, Bool, false, Option, none, some, List, length, arith,
}
use tidis.Base.Int.{ℤ, pos}
use tidis.Bytes.{Bytes, u64_mod, u64_be}
use tidis.Bytes.Lex.{bytes_eq_refl}
use tidis.Encoding.{DataType}
use tidis.Encoding.Encode.{data_type_hash, data_type_meta, data_key, encode_txnkv_hash_data_key}
use tidis.Encoding.Apart.{bytes_eq-data-meta}
use tidis.Encoding.RoundTrip.Slices.{word-u64_be}
use tidis.Frame.{resp_int, add_i64}
use tidis.Config.{Settings, key_is_expired}
use tidis.Txn.{Txn, contains, is_some, find}
use tidis.Txn.Exec.{ok}
use tidis.Txn.Scan.{scan-put, insert}
use tidis.Lists.{respond}
use tidis.Collections.{sum_sizes, raised, meta_key, size_key}
use tidis.Collections.Sizes.{raise_sum}
use tidis.Collections.Holds.{as_i64_small, Holds, sizes, open_decoded, open_live, sum_counted}
use tidis.Collections.Changes.{size_key-in_range, size-ne-meta, item-outside}
use tidis.Hashes.{field_key, hash_expire_if_needed}
use tidis.Hashes.Fields.{hlen}
use tidis.Numbers.{to_string}
use tidis.Hashes.Change.{hincrby, hincrby_to, hincrby_expire, new_field_size}

abbrev pub hash_apart : data_type_hash ≢ data_type_meta
hash_apart = λ e. omega (arith, e)

-- A counter that is written back as it was leaves the sum alone.
same_sum :
    (l : List (Bytes × Bytes)) (k : Bytes) (m n : ℕ)
    → sum_sizes l ≡ some m
    → find k l ≡ some (u64_be n)
    → m < u64_mod
    → n < u64_mod
    → sum_sizes (insert k (u64_be n) l) ≡ some m
same_sum l k m n h e hm hn =
    let (n', made, b, sum) = raise_sum l k m 0 (omega arith) h in
    let same : n ≡ n' = ground (arith, rw (e, raised, word-u64_be n hn) at made, hn) in
    rw same (sum ∙ ap some (omega (arith, hm)))

none_of : (o : Option Bytes) → is_some o ≡ false → o ≡ none
none_of none h = refl
none_of (some v) h = cc

module _ (c : Settings) (T : Txn) where
  abbrev pub HashHolds : T.State → Bytes → ℕ → ℕ → List Bytes → Type 0
  HashHolds s key ttl version fields =
      Holds c T DataType.hash data_type_hash s key ttl version fields

  abbrev item : Bytes → ℕ → Bytes → Bytes
  item key version field = data_key c.encoder data_type_hash key version field

  -- The state after HINCRBY of a new field whose counter was there already.
  abbrev with_new_field : Bytes → Bytes → ℤ → ℕ → ℕ → ℕ → T.State → T.State
  with_new_field key field new idx version n s =
      T.put (T.put s (size_key c T key version idx) (u64_be n)) (item key version field)
        (to_string new)

  hincrby_to_new :
      (key field : Bytes) (step : ℤ) (idx ttl version n : ℕ) (s : T.State)
      → T.get s (item key version field) ≡ none
      → T.get s (size_key c T key version idx) ≡ some (u64_be n)
      → n < u64_mod
      → hincrby_to c T key field step idx false ttl version s ≡ (
        ok (add_i64 (pos 0) step),
        with_new_field key field (add_i64 (pos 0) step) idx version n s,
      )
  unfolding hincrby_to new_field_size encode_txnkv_hash_data_key
  hincrby_to_new key field step idx ttl version n s absent counter hn =
      rw absent (rw counter (rw (word-u64_be n hn) refl))

  hlen_uncounted :
      (now : ℕ) (key field : Bytes) (new : ℤ) (idx ttl version n : ℕ) (s : T.State)
      (fields : List Bytes)
      → HashHolds s key ttl version fields
      → key_is_expired now ttl ≡ false
      → T.get s (size_key c T key version idx) ≡ some (u64_be n)
      → n < u64_mod
      → let s' = with_new_field key field new idx version n s in
        hlen c T now key s' ≡ (ok (resp_int (pos (length fields))), s')
  unfolding hlen
  hlen_uncounted now key field new idx ttl version n s fields h fresh counter hn =
      let hv = h.version_lt in
      let k = size_key c T key version idx in
      let r = sizes c key version in
      let s1 = T.put s k (u64_be n) in
      let s' = with_new_field key field new idx version n s in
      let meta : T.get s' (meta_key c T key) ≡ some h.value =
        T.get-put s1 (item key version field) (to_string new) (meta_key c T key)
        ∙ rw (bytes_eq-data-meta c.encoder data_type_hash key key version field) refl
        ∙ T.get-put s k (u64_be n) (meta_key c T key)
        ∙ rw (size-ne-meta c data_type_hash hash_apart key version hv idx key) h.meta in
      let counted : sum_sizes (T.scan s' r) ≡ some (length fields) =
        ap sum_sizes (
          scan-put T s1 (item key version field) (to_string new) r
          ∙ rw (item-outside c data_type_hash hash_apart key version hv field) refl
          ∙ scan-put T s k (u64_be n) r
          ∙ rw (size_key-in_range c data_type_hash hash_apart key version hv idx) refl)
        ∙ same_sum (T.scan s r) k (length fields) n h.inside.counted
            (T.find-scan s r k
              ∙ rw (size_key-in_range c data_type_hash hash_apart key version hv idx) counter)
            (omega (arith, h.room)) hn in
      rw
        (
          open_decoded c T DataType.hash refl now (hash_expire_if_needed c T now key) key h.value
              ttl version h.index s' meta h.typed h.decoded fresh,
          sum_counted c T DataType.hash refl key h.value version (length fields) s' meta h.typed
              counted h.filled h.room,
          as_i64_small (length fields) h.room,
        )
        refl

  -- HINCRBY of a field that a hash does not hold, where the hash has not expired and has a counter at the
  -- index of the command already, replies the step and writes the field, but HLEN afterwards still replies
  -- the number of the fields that the hash held before.
  pub hincrby_uncounted :
      (in_txn : Bool) (now : ℕ) (key field : Bytes) (step : ℤ) (idx ttl version n : ℕ) (s : T.State)
      (fields : List Bytes)
      → HashHolds s key ttl version fields
      → key_is_expired now ttl ≡ false
      → contains fields field ≡ false
      → T.get s (size_key c T key version idx) ≡ some (u64_be n)
      → n < u64_mod
      → let (reply, s') = hincrby c T in_txn now key field step idx s in
        (reply ≡ ok (resp_int (add_i64 (pos 0) step)))
        × (T.get s' (field_key c T key version field) ≡ some (to_string (add_i64 (pos 0) step)))
        × (hlen c T now key s' ≡ (ok (resp_int (pos (length fields))), s'))
  unfolding hincrby encode_txnkv_hash_data_key
  hincrby_uncounted in_txn now key field step idx ttl version n s fields h fresh new counter hn =
      let absent = none_of (T.get s (item key version field)) (h.inside.present field ∙ new) in
      let total = add_i64 (pos 0) step in
      let s' = with_new_field key field total idx version n s in
      let made : hincrby c T in_txn now key field step idx s ≡ (ok (resp_int total), s') =
        rw
          (open_live c T DataType.hash refl data_type_hash now (hincrby_expire c T in_txn now key)
            key ttl version s fields h fresh)
          (ap (λ r. respond resp_int (λ (t : T.State). r) s)
            (hincrby_to_new key field step idx ttl version n s absent counter hn)) in
      rw made (
        refl,
        T.get-put (T.put s (size_key c T key version idx) (u64_be n)) (item key version field)
              (to_string total) (item key version field)
            ∙ rw (bytes_eq_refl (item key version field)) refl,
        hlen_uncounted now key field total idx ttl version n s fields h fresh counter hn,
      )
