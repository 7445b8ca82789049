-- ===== src/Hashes/Put.antt =====
-- HSET on a hash that has not expired, and HGET behind it.
use tidis.Base.{
  ℕ, ◌+◌, ◌-◌, ◌^◌, ◌<◌, ◌≡◌, ◌∙◌, refl, sym, ap, subst, false, inl, inr, Option, some,
  Option-cases, List, [], ◌∷◌, map, length, arith, if◌then◌else◌,
}
use tidis.Base.Int.{pos}
use tidis.Bytes.{Bytes, bytes_eq, u16_mod, u64_be, sub64}
use tidis.Encoding.{DataType}
use tidis.Encoding.Encode.{data_type_hash, encode_txnkv_hash_data_key}
use tidis.Encoding.Apart.{bytes_eq-same_collection}
use tidis.Frame.{Frame, resp_int, as_i64}
use tidis.Config.{Settings, key_is_expired}
use tidis.Txn.{Txn, first, Distinct}
use tidis.Txn.Exec.{Result, ok}
use tidis.Txn.Steps.{put_all}
use tidis.Lists.{respond}
use tidis.Collections.{count_unique_keys, raised, raise_size, size_key}
use tidis.Collections.Items.{with_items, count_in, length-with_items}
use tidis.Collections.Holds.{as_i64_small, Holds-changed, item_keys, open_live}
use tidis.Collections.Counts.{new-Items, count_in_le, length-le-with_items}
use tidis.Collections.Changes.{Items-put, size-ne-item}
use tidis.Hashes.{field_key, field_keys, field_pairs, hset, hset_to, hash_expire_if_needed}
use tidis.Hashes.Fields.{hget, value_reply}
use tidis.Hashes.Laws.{HashHolds, hash_apart}

-- The value that a field has after the pairs have been written, the last of them counting.
abbrev pub written : List (Bytes × Bytes) → Bytes → Option Bytes → Option Bytes
written [] f old = old
written ((g, v) ∷ fvs) f old = written fvs f (if bytes_eq g f then some v else old)

length-first : (fvs : List (Bytes × Bytes)) → length (map first fvs) ≡ length fvs
length-first [] = refl
length-first ((f, v) ∷ fvs) = omega (arith, length-first fvs)

module _ (c : Settings) (T : Txn) where
  pub field_keys-item_keys :
      (key : Bytes) (version : ℕ) (fs : List Bytes)
      → field_keys c T key version fs ≡ item_keys c data_type_hash key version fs
  unfolding encode_txnkv_hash_data_key
  field_keys-item_keys key version [] = refl
  field_keys-item_keys key version (f ∷ fs) =
      ap (λ l. encode_txnkv_hash_data_key c.encoder key f version ∷ l)
        (field_keys-item_keys key version fs)

  pub first-field_pairs :
      (key : Bytes) (version : ℕ) (fvs : List (Bytes × Bytes))
      → map first (field_pairs c T key version fvs)
        ≡ item_keys c data_type_hash key version (map first fvs)
  unfolding encode_txnkv_hash_data_key
  first-field_pairs key version [] = refl
  first-field_pairs key version ((f, v) ∷ fvs) =
      ap (λ l. encode_txnkv_hash_data_key c.encoder key f version ∷ l)
        (first-field_pairs key version fvs)

  get-put_fields :
      (key : Bytes) (version : ℕ) (hv : version < u16_mod) (fvs : List (Bytes × Bytes))
      (s : T.State) (f : Bytes)
      → T.get (put_all T (field_pairs c T key version fvs) s) (field_key c T key version f)
        ≡ written fvs f (T.get s (field_key c T key version f))
  unfolding encode_txnkv_hash_data_key
  get-put_fields key version hv [] s f = refl
  get-put_fields key version hv ((g, v) ∷ fvs) s f =
      get-put_fields key version hv fvs (T.put s (field_key c T key version g) v) f
      ∙ ap (λ o. written fvs f o)
          (T.get-put s (field_key c T key version g) v (field_key c T key version f)
            ∙ rw (bytes_eq-same_collection c.encoder data_type_hash key version g f hv) refl)

  -- Raising a counter leaves the other keys alone.
  get-raise_size :
      (key k : Bytes) (version idx d : ℕ) (s s' : T.State)
      → raise_size c T key version idx d s ≡ (ok tt, s')
      → bytes_eq (size_key c T key version idx) k ≡ false
      → T.get s' k ≡ T.get s k
  get-raise_size key k version idx d s s' e other =
      let size = size_key c T key version idx in
      elim (Option-cases (raised d (T.get s size))) [
        | inl gone ↦ absurd (ground (arith, rw gone at e))
        | inr (new, made) ↦
            let same : T.put s size (u64_be new) ≡ s' = ap (λ r. r.1) (rw made at e) in
            subst (λ x. T.get x k ≡ T.get s k) same
              (T.get-put s size (u64_be new) k ∙ rw other refl)
      ]

  size-ne-field :
      (key : Bytes) (version : ℕ) (hv : version < u16_mod) (idx : ℕ) (f : Bytes)
      → bytes_eq (size_key c T key version idx) (field_key c T key version f) ≡ false
  unfolding encode_txnkv_hash_data_key
  size-ne-field key version hv idx f = size-ne-item c data_type_hash hash_apart key version hv idx f

  hset_to_done :
      (key : Bytes) (fvs : List (Bytes × Bytes)) (idx ttl version n : ℕ) (s s' : T.State)
      → sub64
          (count_unique_keys (item_keys c data_type_hash key version (map first fvs)))
          (length (T.batch_get s (item_keys c data_type_hash key version (map first fvs))))
        ≡ n
      → raise_size c T key version idx n (put_all T (field_pairs c T key version fvs) s)
        ≡ (ok tt, s')
      → hset_to c T key fvs idx false false ttl version s ≡ (ok (length fvs), s')
  unfolding hset_to
  hset_to_done key fvs idx ttl version n s s' added raised =
      rw (field_keys-item_keys key version (map first fvs), added, raised) refl

  -- After HSET: the reply counts the pairs, the hash holds the fields, and HGET gives the new values.
  abbrev pub HsetDone :
      ℕ
      → Bytes
      → List (Bytes × Bytes)
      → ℕ
      → ℕ
      → List Bytes
      → T.State
      → Result Frame × T.State
      → Type 0
  HsetDone now key fvs ttl version fields s (reply, s') =
      (reply ≡ ok (resp_int (pos (length fvs))))
      × HashHolds c T s' key ttl version (with_items (map first fvs) fields)
      × ((f : Bytes)
          → hget c T now key f s'
            ≡ (ok (value_reply (written fvs f (T.get s (field_key c T key version f)))), s'))

  hget_lem :
      (now : ℕ) (key f : Bytes) (ttl version : ℕ) (s : T.State) (fields : List Bytes)
      → HashHolds c T s key ttl version fields
      → key_is_expired now ttl ≡ false
      → hget c T now key f s ≡ (ok (value_reply (T.get s (field_key c T key version f))), s)
  unfolding hget
  hget_lem now key f ttl version s fields h fresh =
      rw
        (open_live c T DataType.hash refl data_type_hash now (hash_expire_if_needed c T now key) key
          ttl version s fields h fresh)
        refl

  -- HSET of different fields to a hash that holds `fields`, has not expired and stays below 2^63 fields
  -- replies the number of the pairs, also of those whose field was there. The hash then holds the new
  -- and the old fields, with the sum of its counters at their number, and keeps its expiry and version;
  -- HGET replies the values written for their fields, and for every other field what it had.
  pub hget-hset :
      (now : ℕ) (key : Bytes) (fvs : List (Bytes × Bytes)) (idx ttl version : ℕ) (s : T.State)
      (fields : List Bytes)
      → HashHolds c T s key ttl version fields
      → key_is_expired now ttl ≡ false
      → Distinct (map first fvs)
      → length fvs + length fields < 2 ^ 63
      → HsetDone now key fvs ttl version fields s (hset c T now key fvs false false idx s)
  unfolding hset
  hget-hset now key fvs idx ttl version s fields h fresh hx hb =
      let hv = h.version_lt in
      let fs = map first fvs in
      let n = length fs - count_in fs fields in
      let total = length-with_items fs fields in
      let small = length-first fvs in
      let s1 = put_all T (field_pairs c T key version fvs) s in
      let (s', counted, items, metas) =
        Items-put c data_type_hash hash_apart key version hv T s (field_pairs c T key version fvs)
          fs fields n idx h.inside (first-field_pairs key version fvs) hx
          (omega (arith, count_in_le fs fields, total)) (omega (arith, total, small, hb)) in
      let holds' =
        Holds-changed c T DataType.hash data_type_hash s s' key ttl version fields
          (with_items fs fields) h items (metas key)
          (omega (arith, h.filled, length-le-with_items fs fields))
          (omega (arith, total, small, hb)) in
      let done =
        hset_to_done key fvs idx ttl version n s s'
          (new-Items c T data_type_hash hash_apart key version hv s fs fields h.inside hx
            (omega (arith, total, small, hb)))
          counted in
      let made : hset c T now key fvs false false idx s
          ≡ (ok (resp_int (as_i64 (length fvs))), s') =
        rw
          (open_live c T DataType.hash refl data_type_hash now (hash_expire_if_needed c T now key)
            key ttl version s fields h fresh)
          (ap (λ r. respond (λ n. resp_int (as_i64 n)) (λ (t : T.State). r) s) done) in
      subst (λ r. HsetDone now key fvs ttl version fields s r)
        (sym (made ∙ rw (as_i64_small (length fvs) (omega (arith, hb))) refl))
        (
          refl,
          holds',
          λ f.
              hget_lem now key f ttl version s' (with_items fs fields) holds' fresh
              ∙ ap (λ o. (ok (value_reply o), s'))
                  (get-raise_size key (field_key c T key version f) version idx n s1 s' counted
                      (size-ne-field key version hv idx f)
                    ∙ get-put_fields key version hv fvs s f),
        )
