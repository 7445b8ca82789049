-- ===== src/Sets/Add.antt =====
-- SADD: the reply counts the members that are new, and the set then holds them and the ones it had.
use tidis.Base.{
  ℕ, ◌+◌, ◌-◌, ◌^◌, ◌<◌, ◌≡◌, ◌≢◌, ◌∙◌, refl, sym, ap, subst, Bool, true, false, some, List, [],
  ◌∷◌, map, length, arith,
}
use tidis.Base.Int.{pos}
use tidis.Bytes.{Bytes, u16_mod, u64_mod, sub64, u64_be}
use tidis.Encoding.{DataType}
use tidis.Encoding.Encode.{
  data_type_set, data_type_meta, encode_txnkv_set_data_key, encode_txnkv_meta_key,
}
use tidis.Encoding.RoundTrip.Values.{stored_size, decode_key_meta-encode, decode_key_type-encode}
use tidis.Frame.{Frame, resp_int, as_i64}
use tidis.Config.{Settings, key_is_expired}
use tidis.Version.{get_version_for_new}
use tidis.Txn.{Txn, first, Distinct}
use tidis.Txn.Exec.{Result, ok}
use tidis.Txn.Steps.{put_all}
use tidis.Lists.{respond}
use tidis.Collections.{count_unique_keys, meta_key, size_key, raise_size}
use tidis.Collections.Items.{with_items, count_in, length-with_items, count_unique_keys-Distinct}
use tidis.Collections.Holds.{
  sizes, as_i64_small, Items, Holds, Holds-changed, Gone, item_keys, open_live, open_missing,
}
use tidis.Collections.Counts.{new-Items, count_in_le, length-le-with_items}
use tidis.Collections.Changes.{Raised, Items-put}
use tidis.Collections.Gone.{made_new}
use tidis.Sets.{member_keys, member_pairs, set_meta, sadd, sadd_to, sadd_new, set_expire_if_needed}

abbrev pub set_apart : data_type_set ≢ data_type_meta
set_apart = λ e. omega (arith, e)

first-member_pairs : (ks : List Bytes) → map first (member_pairs ks) ≡ ks
first-member_pairs [] = refl
first-member_pairs (k ∷ ks) = ap (λ l. k ∷ l) (first-member_pairs ks)

module _ (c : Settings) (T : Txn) where
  abbrev pub SetHolds : T.State → Bytes → ℕ → ℕ → List Bytes → Type 0
  SetHolds s key ttl version ms = Holds c T DataType.set data_type_set s key ttl version ms

  pub member_keys-item_keys :
      (key : Bytes) (version : ℕ) (ms : List Bytes)
      → member_keys c T key version ms ≡ item_keys c data_type_set key version ms
  unfolding encode_txnkv_set_data_key
  member_keys-item_keys key version [] = refl
  member_keys-item_keys key version (m ∷ ms) =
      ap (λ l. encode_txnkv_set_data_key c.encoder key m version ∷ l)
        (member_keys-item_keys key version ms)

  -- After a command that replies `n`, the set holds `ms`.
  abbrev pub SetDone : Bytes → ℕ → ℕ → ℕ → List Bytes → Result Frame × T.State → Type 0
  SetDone key n ttl version ms (reply, s') =
      (reply ≡ ok (resp_int (pos n))) × SetHolds s' key ttl version ms

  pub SetDone-reply :
      (key : Bytes) (n ttl version : ℕ) (ms : List Bytes) (r : Result Frame × T.State)
      (s' : T.State)
      → r ≡ (ok (resp_int (pos n)), s')
      → SetHolds s' key ttl version ms
      → SetDone key n ttl version ms r
  SetDone-reply key n ttl version ms r s' e h =
      subst (λ x. SetDone key n ttl version ms x) (sym e) (refl, h)

  -- A set that had expired gets a new meta value.
  abbrev pub settled : Bool → Bytes → ℕ → T.State → T.State
  settled true key version s = T.put s (meta_key c T key) (set_meta c T version)
  settled false key version s = s

  abbrev Added : Bool → T.State → Bytes → ℕ → ℕ → List Bytes → Result ℕ × T.State → Type 0
  Added anew s key n version ms r =
      (s' : T.State) × (r ≡ (ok n, settled anew key version s'))
      × Items c T data_type_set s' key version ms
      × ((u : Bytes)
          → T.get s' (encode_txnkv_meta_key c.encoder u)
            ≡ T.get s (encode_txnkv_meta_key c.encoder u))

  sadd_to-Raised :
      (anew : Bool) (key : Bytes) (xs ms : List Bytes) (idx version n : ℕ) (s : T.State)
      (hv : version < u16_mod)
      → sub64
          (count_unique_keys (item_keys c data_type_set key version xs))
          (length (T.batch_get s (item_keys c data_type_set key version xs)))
        ≡ n
      → Raised c data_type_set set_apart key version hv T s ms (
          raise_size c T key version idx n
            (put_all T (member_pairs (item_keys c data_type_set key version xs)) s))
      → Added anew s key n version ms (sadd_to c T key xs idx anew version s)
  unfolding sadd_to
  sadd_to-Raised true key xs ms idx version n s hv added (s', raised, items, metas) =
      (s', rw (member_keys-item_keys key version xs, added, raised) refl, items, metas)
  sadd_to-Raised false key xs ms idx version n s hv added (s', raised, items, metas) =
      (s', rw (member_keys-item_keys key version xs, added, raised) refl, items, metas)

  pub sadd_to_lem :
      (anew : Bool) (key : Bytes) (xs ms : List Bytes) (idx version : ℕ) (s : T.State)
      → version < u16_mod
      → Items c T data_type_set s key version ms
      → Distinct xs
      → length (with_items xs ms) < u64_mod
      → Added anew s key
          (length xs - count_in xs ms)
          version
          (with_items xs ms)
          (sadd_to c T key xs idx anew version s)
  sadd_to_lem anew key xs ms idx version s hv h hx hb =
      let keys = item_keys c data_type_set key version xs in
      sadd_to-Raised anew key xs (with_items xs ms) idx version (length xs - count_in xs ms) s hv
        (new-Items c T data_type_set set_apart key version hv s xs ms h hx hb)
        (Items-put c data_type_set set_apart key version hv T s (member_pairs keys) xs ms
          (length xs - count_in xs ms) idx h (first-member_pairs keys) hx
          (omega (arith, count_in_le xs ms, length-with_items xs ms)) hb)

  -- SADD of different members `xs` to a set that holds `ms`, has not expired and stays below 2^63
  -- members replies how many of `xs` are new; the set then holds `xs` and `ms`, with the sum of its
  -- counters at their number, and keeps its expiry and version.
  pub sadd_live_lem :
      (now : ℕ) (key : Bytes) (xs ms : List Bytes) (idx ttl version : ℕ) (s : T.State)
      → SetHolds s key ttl version ms
      → key_is_expired now ttl ≡ false
      → Distinct xs
      → length xs + length ms < 2 ^ 63
      → SetDone key
          (length xs - count_in xs ms)
          ttl
          version
          (with_items xs ms)
          (sadd c T now key xs idx s)
  unfolding sadd
  sadd_live_lem now key xs ms idx ttl version s h fresh hx hb =
      let (s', done, items, metas) =
        sadd_to_lem false key xs ms idx version s h.version_lt h.inside hx
          (omega (arith, length-with_items xs ms)) in
      let made : sadd c T now key xs idx s
          ≡ (ok (resp_int (as_i64 (length xs - count_in xs ms))), s') =
        rw
          (
            open_live c T DataType.set refl data_type_set now (set_expire_if_needed c T now key) key
                ttl version s ms h fresh,
            done,
          )
          refl in
      SetDone-reply key (length xs - count_in xs ms) ttl version (with_items xs ms)
        (sadd c T now key xs idx s) s'
        (made ∙ rw (as_i64_small (length xs - count_in xs ms) (omega (arith, hb))) refl)
        (Holds-changed c T DataType.set data_type_set s s' key ttl version ms (with_items xs ms) h
          items (metas key) (omega (arith, h.filled, length-le-with_items xs ms))
          (omega (arith, length-with_items xs ms)))

  -- Members under a meta value as SADD writes it.
  pub Holds-new :
      (key : Bytes) (version : ℕ) (xs : List Bytes) (s : T.State)
      → c.encoder.meta_key_number < u16_mod
      → version < u16_mod
      → Items c T data_type_set s key version xs
      → T.get s (meta_key c T key) ≡ some (set_meta c T version)
      → 0 < length xs
      → length xs < 2 ^ 63
      → SetHolds s key 0 version xs
  Holds-new key version xs s he hv items meta hf hb = record {
    value = set_meta c T version;
    index = stored_size c.encoder 0;
    meta = meta;
    typed = (decode_key_type-encode c.encoder [] 0 version 0 0 0).3;
    decoded = (decode_key_meta-encode c.encoder 0 version 0 (omega arith) hv (omega arith) he).1;
    inside = items;
    version_lt = hv;
    filled = hf;
    room = hb;
  }

  sadd_new_done :
      (key : Bytes) (xs : List Bytes) (idx version : ℕ) (s : T.State)
      → version < u16_mod
      → Distinct xs
      → sadd_new c T key xs idx version s ≡ (
        ok (length xs),
        T.put
            (T.put
              (put_all T (member_pairs (item_keys c data_type_set key version xs)) s)
              (meta_key c T key)
              (set_meta c T version))
            (size_key c T key version idx)
            (u64_be (length xs)),
      )
  unfolding sadd_new
  sadd_new_done key xs idx version s hv hx =
      rw (member_keys-item_keys key version xs, count_unique_keys-Distinct xs hx) refl

  -- SADD of different members, where a version is found and nothing is left of the key under it, neither
  -- a meta value nor members nor counters, replies their number and makes a set of them without an
  -- expiry; its only counter is at the index of the command and holds their number.
  pub sadd_new_lem :
      (now : ℕ) (key : Bytes) (xs : List Bytes) (idx version : ℕ) (s : T.State)
      → c.encoder.meta_key_number < u16_mod
      → Gone c T data_type_set s key version
      → get_version_for_new c T key s ≡ (ok version, s)
      → version < u16_mod
      → Distinct xs
      → 0 < length xs
      → length xs < 2 ^ 63
      → SetDone key (length xs) 0 version xs (sadd c T now key xs idx s)
        × (T.scan (sadd c T now key xs idx s).1 (sizes c key version)
            ≡ (size_key c T key version idx, u64_be (length xs)) ∷ [])
  unfolding sadd
  sadd_new_lem now key xs idx version s he h new hv hx hf hb =
      let keys = item_keys c data_type_set key version xs in
      let (items, meta, one_counter) =
        made_new c T data_type_set set_apart key version hv s (member_pairs keys) xs
          (set_meta c T version) idx h (first-member_pairs keys) hx (omega (arith, hb)) in
      let s' =
        T.put (T.put (put_all T (member_pairs keys) s) (meta_key c T key) (set_meta c T version))
          (size_key c T key version idx) (u64_be (length xs)) in
      let made : sadd c T now key xs idx s ≡ (ok (resp_int (as_i64 (length xs))), s') =
        rw
          (
            open_missing c T DataType.set refl now (set_expire_if_needed c T now key) key s h.meta,
            new,
          )
          (ap (λ r. respond (λ n. resp_int (as_i64 n)) (λ (t : T.State). r) s)
            (sadd_new_done key xs idx version s hv hx)) in
      (
        SetDone-reply key (length xs) 0 version xs (sadd c T now key xs idx s) s'
            (made ∙ rw (as_i64_small (length xs) hb) refl)
            (Holds-new key version xs s' he hv items meta hf hb),
        ap (λ r. T.scan r.1 (sizes c key version)) made ∙ one_counter,
      )
