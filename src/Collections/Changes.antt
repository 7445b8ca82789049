-- ===== src/Collections/Changes.antt =====
-- What writing and deleting items, and changing a counter, do to the items that a key holds.
use tidis.Base.{
  ℕ, ◌+◌, ◌<◌, ◌≡◌, ◌≢◌, ◌∙◌, refl, sym, ap, subst, inl, inr, Bool, true, false, Option, none, some,
  List, [], ◌∷◌, ◌&&◌, ◌||◌, not, map, length, arith, if◌then◌else◌, Bool-cases,
}
use tidis.Bytes.{Bytes, bytes_eq, u16_mod, u64_mod, u64_be, add64, sub64, u16_be}
use tidis.Bytes.Lex.{bytes_eq_refl, bytes_eq_iff}
use tidis.Encoding.Encode.{
  KeyRange, data_key, data_key_range, data_type_meta, encode_txnkv_meta_key,
  encode_txnkv_sub_meta_key, encode_txnkv_sub_meta_key_range, encode_txnkv_sub_meta_key_start,
  encode_txnkv_sub_meta_key_end,
}
use tidis.Encoding.Order.{in_range, in_range-data_key}
use tidis.Encoding.Apart.{bytes_eq-same_collection, bytes_eq-other_type, bytes_eq-data-meta}
use tidis.Config.{Settings}
use tidis.Txn.{Txn, contains, is_some, first, find, Distinct}
use tidis.Txn.Exec.{Result, ok}
use tidis.Txn.Scan.{scan-put}
use tidis.Txn.Steps.{put_all, delete_keys, Outside, scan-put_all, scan-delete_keys, get-delete_keys}
use tidis.Collections.{sum_sizes, raise_size, lower_size}
use tidis.Collections.Sizes.{raise_sum, lowered-raised}
use tidis.Collections.Items.{
  with_items, without_items, contains-with_items, contains-without_items, with_items-Distinct,
  without_items-Distinct,
}
use tidis.Collections.Holds.{Items, item_keys, sizes}

Outside-contains :
    (r : KeyRange) (ks : List Bytes)
    → ((k : Bytes) → contains ks k ≡ true → in_range r k ≡ false)
    → Outside r ks
Outside-contains r [] h = tt
Outside-contains r (k ∷ ks) h =
    (h k (rw (bytes_eq_refl k) refl), Outside-contains r ks (λ j e. h j (ground (arith, e))))

in_range_of_contains :
    (r : KeyRange) (ks : List Bytes) (k : Bytes)
    → Outside r ks
    → contains ks k ≡ true
    → in_range r k ≡ false
in_range_of_contains r [] k h e = cc
in_range_of_contains r (j ∷ ks) k h e = elim (Bool-cases (bytes_eq j k)) [
  | inl eq ↦ subst (λ x. in_range r x ≡ false) ((bytes_eq_iff j k).0 eq) h.0
  | inr ne ↦ in_range_of_contains r ks k h.1 (ground (arith, ne, e))
]

pub present-put_all :
    (T : Txn) (pairs : List (Bytes × Bytes)) (s : T.State) (k : Bytes)
    → is_some (T.get (put_all T pairs s) k) ≡ (contains (map first pairs) k || is_some (T.get s k))
present-put_all T [] s k = refl
present-put_all T ((j, v) ∷ pairs) s k =
    present-put_all T pairs (T.put s j v) k ∙ rw (T.get-put s j v k) (ground (arith))

pub get-put_all_other :
    (T : Txn) (pairs : List (Bytes × Bytes)) (s : T.State) (k : Bytes)
    → contains (map first pairs) k ≡ false
    → T.get (put_all T pairs s) k ≡ T.get s k
get-put_all_other T [] s k h = refl
get-put_all_other T ((j, v) ∷ pairs) s k h =
    ground (arith, get-put_all_other T pairs (T.put s j v) k, T.get-put s j v k)

-- What is left of an item, if `b` says that it is deleted.
deleted_some :
    (b asked held : Bool) (o : Option Bytes)
    → is_some o ≡ held
    → b ≡ (asked && held)
    → is_some (if b then none else o) ≡ (held && not asked)
deleted_some b asked held o h e = ground (arith, h, e)

module _ (c : Settings) (t : ℕ) (apart : t ≢ data_type_meta) (key : Bytes) (version : ℕ)
    (hv : version < u16_mod) where
  abbrev item : Bytes → Bytes
  item i = data_key c.encoder t key version i

  pub contains-item_keys :
      (is : List Bytes) (i : Bytes)
      → contains (item_keys c t key version is) (item i) ≡ contains is i
  contains-item_keys [] i = refl
  contains-item_keys (j ∷ is) i =
      rw (bytes_eq-same_collection c.encoder t key version j i hv, contains-item_keys is i) refl

  pub item_keys-Distinct : (is : List Bytes) → Distinct is → Distinct (item_keys c t key version is)
  item_keys-Distinct [] h = tt
  item_keys-Distinct (i ∷ is) h = (contains-item_keys is i ∙ h.0, item_keys-Distinct is h.1)

  pub contains-item_keys-meta :
      (is : List Bytes) (u : Bytes)
      → contains (item_keys c t key version is) (encode_txnkv_meta_key c.encoder u) ≡ false
  contains-item_keys-meta [] u = refl
  contains-item_keys-meta (i ∷ is) u =
      rw (bytes_eq-data-meta c.encoder t key u version i) (contains-item_keys-meta is u)

  -- The counters stand under keys of the meta type.
  size_key-data_key :
      (idx : ℕ)
      → encode_txnkv_sub_meta_key c.encoder key version idx
        ≡ data_key c.encoder data_type_meta key version (u16_be idx)
  unfolding encode_txnkv_sub_meta_key
  size_key-data_key idx = refl

  pub sizes-data_key_range :
      sizes c key version ≡ data_key_range c.encoder data_type_meta key version
  unfolding encode_txnkv_sub_meta_key_range encode_txnkv_sub_meta_key_start
      encode_txnkv_sub_meta_key_end
  sizes-data_key_range = refl

  pub size_key-in_range :
      (idx : ℕ)
      → in_range (sizes c key version) (encode_txnkv_sub_meta_key c.encoder key version idx) ≡ true
  size_key-in_range idx =
      rw (sizes-data_key_range, size_key-data_key idx)
        ((in_range-data_key c.encoder data_type_meta data_type_meta key key version version
            (u16_be idx) hv hv).1
          (refl, refl, refl))

  pub item-outside : (i : Bytes) → in_range (sizes c key version) (item i) ≡ false
  item-outside i =
      rw sizes-data_key_range
        (elim (Bool-cases
          (in_range (data_key_range c.encoder data_type_meta key version) (item i))) [
            | inl e ↦ absurd (
                apart (
                  sym
                    ((in_range-data_key c.encoder data_type_meta t key key version version i hv
                        hv).0
                      e).0))
            | inr e ↦ e
          ])

  pub item_keys-Outside :
      (is : List Bytes) → Outside (sizes c key version) (item_keys c t key version is)
  item_keys-Outside [] = tt
  item_keys-Outside (i ∷ is) = (item-outside i, item_keys-Outside is)

  pub size-ne-item :
      (idx : ℕ) (i : Bytes)
      → bytes_eq (encode_txnkv_sub_meta_key c.encoder key version idx) (item i) ≡ false
  size-ne-item idx i = rw (size_key-data_key idx) (
      bytes_eq-other_type c.encoder data_type_meta t key key version version (u16_be idx) i
        (λ e. apart (sym e)) hv hv)

  pub size-ne-meta :
      (idx : ℕ) (u : Bytes)
      → bytes_eq
          (encode_txnkv_sub_meta_key c.encoder key version idx)
          (encode_txnkv_meta_key c.encoder u)
        ≡ false
  size-ne-meta idx u =
      rw (size_key-data_key idx)
        (bytes_eq-data-meta c.encoder data_type_meta key u version (u16_be idx))

  module _ (T : Txn) where
    -- The state after the items `xs` have been put and a counter has been raised by their new number.
    abbrev pub Raised : T.State → List Bytes → Result (Unit {0}) × T.State → Type 0
    Raised s items r =
        (s' : T.State) × (r ≡ (ok tt, s'))
        × Items c T t s' key version items
        × ((u : Bytes)
            → T.get s' (encode_txnkv_meta_key c.encoder u)
              ≡ T.get s (encode_txnkv_meta_key c.encoder u))

    -- A counter is changed by `d`, which makes up for the items that changed.
    counter_changed :
        (s s1 : T.State) (items : List Bytes) (n d idx : ℕ)
        → ((i : Bytes) → is_some (T.get s1 (item i)) ≡ contains items i)
        → Distinct items
        → sum_sizes (T.scan s1 (sizes c key version)) ≡ some n
        → ((u : Bytes)
            → T.get s1 (encode_txnkv_meta_key c.encoder u)
              ≡ T.get s (encode_txnkv_meta_key c.encoder u))
        → d < u64_mod
        → add64 n d ≡ length items
        → Raised s items (raise_size c T key version idx d s1)
    counter_changed s s1 items n d idx present distinct counted metas hd he =
        let k = encode_txnkv_sub_meta_key c.encoder key version idx in
        let r = sizes c key version in
        let (new, made, b, sum) = raise_sum (T.scan s1 r) k n d hd counted in
        let old : find k (T.scan s1 r) ≡ T.get s1 k =
          T.find-scan s1 r k ∙ rw (size_key-in_range idx) refl in
        let s2 = T.put s1 k (u64_be new) in
        (
          s2,
          rw (rw old at made) refl,
          record {
            present = λ i.
                ap is_some (T.get-put s1 k (u64_be new) (item i))
                ∙ rw (size-ne-item idx i) (present i);
            distinct = distinct;
            counted = rw (scan-put T s1 k (u64_be new) r, size_key-in_range idx) (sum ∙ ap some he);
          },
          λ u.
              T.get-put s1 k (u64_be new) (encode_txnkv_meta_key c.encoder u)
              ∙ rw (size-ne-meta idx u) (metas u),
        )

    pub Items-put :
        (s : T.State) (pairs : List (Bytes × Bytes)) (xs ms : List Bytes) (d idx : ℕ)
        → Items c T t s key version ms
        → map first pairs ≡ item_keys c t key version xs
        → Distinct xs
        → length ms + d ≡ length (with_items xs ms)
        → length (with_items xs ms) < u64_mod
        → Raised s (with_items xs ms) (raise_size c T key version idx d (put_all T pairs s))
    Items-put s pairs xs ms d idx h e hx hd hb =
        counter_changed s (put_all T pairs s) (with_items xs ms) (length ms) d idx
          (λ i.
            present-put_all T pairs s (item i)
            ∙ rw (e, contains-item_keys xs i, h.present i) (sym (contains-with_items xs ms i)))
          (with_items-Distinct xs ms hx h.distinct)
          (rw (scan-put_all T pairs s (sizes c key version) (rw e (item_keys-Outside xs)))
            h.counted)
          (λ u.
            get-put_all_other T pairs s (encode_txnkv_meta_key c.encoder u)
              (rw e (contains-item_keys-meta xs u)))
          (omega arith) (omega arith)

    pub deleted_present :
        (s : T.State) (ks : List Bytes) (xs ms : List Bytes)
        → Items c T t s key version ms
        → ((k : Bytes)
            → contains ks k ≡ (contains (item_keys c t key version xs) k && is_some (T.get s k)))
        → (i : Bytes)
        → is_some (T.get (delete_keys T ks s) (item i)) ≡ contains (without_items xs ms) i
    deleted_present s ks xs ms h e i =
        ap is_some (get-delete_keys T ks s (item i))
        ∙ deleted_some (contains ks (item i)) (contains xs i) (contains ms i) (T.get s (item i))
            (h.present i) (e (item i) ∙ rw (contains-item_keys xs i, h.present i) refl)
        ∙ sym (contains-without_items xs ms i)

    -- Deleting data keys changes no counter and no meta value.
    pub deleted_sizes :
        (s : T.State) (ks xs : List Bytes)
        → ((k : Bytes)
            → contains ks k ≡ (contains (item_keys c t key version xs) k && is_some (T.get s k)))
        → T.scan (delete_keys T ks s) (sizes c key version) ≡ T.scan s (sizes c key version)
    deleted_sizes s ks xs e =
        let r = sizes c key version in
        scan-delete_keys T ks s r (
          Outside-contains r ks (λ j p.
            in_range_of_contains r (item_keys c t key version xs) j (item_keys-Outside xs)
              (ground (arith, e j, p))))

    pub deleted_meta :
        (s : T.State) (ks xs : List Bytes) (u : Bytes)
        → ((k : Bytes)
            → contains ks k ≡ (contains (item_keys c t key version xs) k && is_some (T.get s k)))
        → T.get (delete_keys T ks s) (encode_txnkv_meta_key c.encoder u)
          ≡ T.get s (encode_txnkv_meta_key c.encoder u)
    deleted_meta s ks xs u e =
        let m = encode_txnkv_meta_key c.encoder u in
        let other : contains ks m ≡ false = e m ∙ rw (contains-item_keys-meta xs u) refl in
        get-delete_keys T ks s m ∙ rw other refl

    -- Of the keys of `xs`, those with a value are deleted, and a counter is lowered by `d`.
    pub Items-deleted :
        (s : T.State) (ks : List Bytes) (xs ms : List Bytes) (d idx : ℕ)
        → Items c T t s key version ms
        → ((k : Bytes)
            → contains ks k ≡ (contains (item_keys c t key version xs) k && is_some (T.get s k)))
        → length (without_items xs ms) + d ≡ length ms
        → length ms < u64_mod
        → Raised s (without_items xs ms) (lower_size c T key version idx d (delete_keys T ks s))
    Items-deleted s ks xs ms d idx h e hd hb =
        let s1 = delete_keys T ks s in
        rw
          (lowered-raised d (T.get s1 (encode_txnkv_sub_meta_key c.encoder key version idx))
            (omega arith))
          (counter_changed s s1 (without_items xs ms) (length ms) (sub64 0 d) idx
            (deleted_present s ks xs ms h e) (without_items-Distinct xs ms h.distinct)
            (ap sum_sizes (deleted_sizes s ks xs e) ∙ h.counted) (λ u. deleted_meta s ks xs u e)
            (omega arith) (omega arith))
