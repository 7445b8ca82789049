-- ===== src/Collections/Gone.antt =====
-- A collection that is made anew, and one of which nothing is left.
use tidis.Base.{
  ℕ, ◌<◌, ◌≡◌, ◌≢◌, ◌∙◌, refl, ap, Bool, true, false, Option, none, some, List, [], ◌∷◌, map,
  length, arith, if◌then◌else◌,
}
use tidis.Bytes.{Bytes, u16_mod, u64_mod, u64_be}
use tidis.Bytes.Lex.{bytes_eq_refl, bytes_eq_sym}
use tidis.Encoding.Encode.{data_key, data_key_range, data_type_meta}
use tidis.Encoding.Order.{in_range, in_range-data_key}
use tidis.Encoding.Apart.{bytes_eq-data-meta, in_range-meta_key}
use tidis.Encoding.RoundTrip.Slices.{word-u64_be}
use tidis.Config.{Settings}
use tidis.Txn.{Txn, is_some, first, Distinct}
use tidis.Txn.Scan.{scan-put, scan-delete}
use tidis.Txn.Steps.{put_all, delete_keys, clear, get-clear, scan-clear, scan-put_all, scan_none}
use tidis.Collections.{sum_sizes, meta_key, size_key, delete_sizes}
use tidis.Collections.Holds.{Items, Gone, item_keys, sizes}
use tidis.Collections.Changes.{
  present-put_all, contains-item_keys, item_keys-Outside, item-outside, size_key-in_range,
  size-ne-item, size-ne-meta, sizes-data_key_range,
}

absent_of : (o : Option Bytes) → is_some o ≡ false → o ≡ none
absent_of none h = refl
absent_of (some v) h = cc

abbrev nothing : Option Bytes
nothing = none

either_none : (b : Bool) → (if b then nothing else nothing) ≡ none
either_none true = refl
either_none false = refl

module _ (c : Settings) (T : Txn) (t : ℕ) (apart : t ≢ data_type_meta) (key : Bytes) (version : ℕ)
    (hv : version < u16_mod) where
  meta-outside : in_range (sizes c key version) (meta_key c T key) ≡ false
  meta-outside =
      rw (sizes-data_key_range c t apart key version hv)
        (in_range-meta_key c.encoder data_type_meta key key version)

  -- No items are left, and the meta value and the counters go.
  pub emptied :
      (s : T.State)
      → ((i : Bytes) → is_some (T.get s (data_key c.encoder t key version i)) ≡ false)
      → Gone c T t (delete_sizes c T key version (T.delete s (meta_key c T key))) key version
  emptied s none_left =
      let s1 = T.delete s (meta_key c T key) in
      let r = sizes c key version in
      record {
        meta =
            get-clear T r s1 (meta_key c T key)
            ∙ rw (meta-outside, T.get-delete s (meta_key c T key) (meta_key c T key))
                (rw (bytes_eq_refl (meta_key c T key)) refl);
        absent = λ i.
            get-clear T r s1 (data_key c.encoder t key version i)
            ∙ rw
                (
                  item-outside c t apart key version hv i,
                  T.get-delete s (meta_key c T key) (data_key c.encoder t key version i),
                  bytes_eq_sym (meta_key c T key) (data_key c.encoder t key version i),
                  bytes_eq-data-meta c.encoder t key key version i,
                )
                (absent_of (T.get s (data_key c.encoder t key version i)) (none_left i));
        no_sizes = scan-clear T r s1;
      }

  -- Items, a meta value and a counter are written where nothing was left.
  pub made_new :
      (s : T.State) (pairs : List (Bytes × Bytes)) (xs : List Bytes) (meta : Bytes) (idx : ℕ)
      → Gone c T t s key version
      → map first pairs ≡ item_keys c t key version xs
      → Distinct xs
      → length xs < u64_mod
      → let s' =
          T.put
            (T.put (put_all T pairs s) (meta_key c T key) meta)
            (size_key c T key version idx)
            (u64_be (length xs)) in
        Items c T t s' key version xs
        × (T.get s' (meta_key c T key) ≡ some meta)
        × (T.scan s' (sizes c key version)
            ≡ (size_key c T key version idx, u64_be (length xs)) ∷ [])
  made_new s pairs xs meta idx h e hx hb =
      let s1 = put_all T pairs s in
      let s2 = T.put s1 (meta_key c T key) meta in
      let k = size_key c T key version idx in
      let v = u64_be (length xs) in
      let r = sizes c key version in
      let item : Bytes → Bytes = λ i. data_key c.encoder t key version i in
      let scanned : T.scan s2 r ≡ [] =
        scan-put T s1 (meta_key c T key) meta r
        ∙ rw
            (
              meta-outside,
              scan-put_all T pairs s r (rw e (item_keys-Outside c t apart key version hv xs)),
            )
            h.no_sizes in
      (
        record {
          present = λ i.
              ap is_some (
                T.get-put s2 k v (item i)
                ∙ rw (size-ne-item c t apart key version hv idx i) refl
                ∙ T.get-put s1 (meta_key c T key) meta (item i)
                ∙ rw
                    (
                      bytes_eq_sym (meta_key c T key) (item i),
                      bytes_eq-data-meta c.encoder t key key version i,
                    )
                    refl)
              ∙ present-put_all T pairs s (item i)
              ∙ rw (e, contains-item_keys c t apart key version hv xs i, h.absent i) (ground arith);
          distinct = hx;
          counted =
              rw (scan-put T s2 k v r, size_key-in_range c t apart key version hv idx, scanned)
                (rw (word-u64_be (length xs) hb, sum_sizes) (ap some (omega arith)));
        },
        T.get-put s2 k v (meta_key c T key)
            ∙ rw (size-ne-meta c t apart key version hv idx key) (
                T.get-put s1 (meta_key c T key) meta (meta_key c T key)
                ∙ rw (bytes_eq_refl (meta_key c T key)) refl),
        scan-put T s2 k v r ∙ rw (size_key-in_range c t apart key version hv idx, scanned) refl,
      )

  -- A deletion of all counters, of all items and of the meta value.
  pub purged :
      (s : T.State)
      → let s1 = delete_sizes c T key version s in
        let items = data_key_range c.encoder t key version in
        Gone c T t
          (T.delete (delete_keys T (T.scan_keys s1 items) s1) (meta_key c T key))
          key
          version
  purged s =
      let s1 = delete_sizes c T key version s in
      let r = data_key_range c.encoder t key version in
      let s2 = clear T r s1 in
      let m = meta_key c T key in
      let item : Bytes → Bytes = λ i. data_key c.encoder t key version i in
      record {
        meta = T.get-delete s2 m m ∙ rw (bytes_eq_refl m) refl;
        absent = λ i.
            T.get-delete s2 m (item i)
            ∙ rw
                (
                  bytes_eq_sym m (item i),
                  bytes_eq-data-meta c.encoder t key key version i,
                  get-clear T r s1 (item i),
                  (in_range-data_key c.encoder t t key key version version i hv hv).1
                      (refl, refl, refl),
                )
                refl;
        no_sizes =
            scan-delete T s2 m (sizes c key version)
            ∙ rw meta-outside (
                scan_none T (sizes c key version) s2 (λ k e.
                  get-clear T r s1 k
                  ∙ rw (get-clear T (sizes c key version) s k, e) (either_none (in_range r k))));
      }

  -- Writing a meta value changes no item.
  pub Items-put_meta :
      (s : T.State) (is : List Bytes) (meta : Bytes)
      → Items c T t s key version is
      → Items c T t (T.put s (meta_key c T key) meta) key version is
  Items-put_meta s is meta h =
      let m = meta_key c T key in
      record {
        present = λ i.
            ap is_some (
              T.get-put s m meta (data_key c.encoder t key version i)
              ∙ rw
                  (
                    bytes_eq_sym m (data_key c.encoder t key version i),
                    bytes_eq-data-meta c.encoder t key key version i,
                  )
                  refl)
            ∙ h.present i;
        distinct = h.distinct;
        counted =
            ap sum_sizes (scan-put T s m meta (sizes c key version) ∙ rw meta-outside refl)
            ∙ h.counted;
      }

  pub Gone-Items : (s : T.State) → Gone c T t s key version → Items c T t s key version []
  Gone-Items s h = record {
    present = λ i. ap is_some (h.absent i);
    distinct = tt;
    counted = ap sum_sizes h.no_sizes;
  }
