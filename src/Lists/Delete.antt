-- ===== src/Lists/Delete.antt =====
-- Deleting a list, and what a command finds at a list that has expired.
use tidis.Base.{
  ℕ, ◌+◌, ◌^◌, ◌<◌, ◌≡◌, ◌∙◌, refl, sym, inl, inr, Bool, true, false, Option, none, some, List, [],
  ◌∷◌, arith, length, leb, if◌then◌else◌, ◌&&◌, Bool-cases,
}
use tidis.Bytes.{Bytes, u16_mod, sub64, u16_be, u64_be}
use tidis.Bytes.Lex.{bytes_eq_refl}
use tidis.Encoding.{DataType}
use tidis.Encoding.Encode.{
  data_type_list, encode_txnkv_gc_key, encode_txnkv_gc_version_key,
  encode_txnkv_list_data_key_range, encode_txnkv_list_data_key, get_type_bytes,
}
use tidis.Encoding.Order.{in_range, in_range-data_key}
use tidis.Encoding.Apart.{gc-ne-meta, gc_version-ne-meta, gc_version-ne-gc}
use tidis.Encoding.RoundTrip.Values.{decode_key_list_meta-encode, decode_key_type-encode}
use tidis.Config.{Settings, async_del_list_threshold_or_default, key_is_expired}
use tidis.Txn.{Txn, contains, is_some}
use tidis.Txn.Exec.{ok}
use tidis.Txn.Scan.{contains-scan_keys}
use tidis.Lists.{
  expired, meta_key, item_key, open_list, delete_all, delete_list, list_del, list_expire_if_needed,
}
use tidis.Lists.Items.{Items, elem_at, item-delete_meta}
use tidis.Lists.Holds.{Holds}

module _ (c : Settings) (T : Txn) where
  -- After the deletion of some keys, those have no value and the others have theirs.
  pub get-delete_all :
      (ks : List Bytes) (s : T.State) (k : Bytes)
      → T.get (delete_all c T ks s) k ≡ (if contains ks k then none else T.get s k)
  unfolding delete_all
  get-delete_all [] s k = refl
  get-delete_all (j ∷ ks) s k =
      ground (arith, get-delete_all ks (T.delete s j) k, T.get-delete s j k)

  -- The keys of one list's elements lie in its range, and meta keys do not.
  item-in_range :
      (key : Bytes) (version j : ℕ)
      → version < u16_mod
      → in_range
          (encode_txnkv_list_data_key_range c.encoder key version)
          (item_key c T key j version)
        ≡ true
  unfolding encode_txnkv_list_data_key_range encode_txnkv_list_data_key
  item-in_range key version j hv =
      (in_range-data_key c.encoder data_type_list data_type_list key key version version (u64_be j)
          hv hv).1
        (refl, refl, refl)

  none_or_kept : (o : Option Bytes) → (if true && is_some o then none else o) ≡ none
  none_or_kept none = refl
  none_or_kept (some v) = refl

  elem_at-nil : (j : ℕ) → elem_at 0 [] j ≡ none
  elem_at-nil j = ground arith

  -- A deletion of a list leaves no meta value. Below the threshold no element is left either; from
  -- the threshold on, the version is handed to the garbage collection, as the last version of the key
  -- and with the type of its data.
  abbrev pub Deleted : Bytes → ℕ → Bool → T.State → Type 0
  Deleted key version true s' =
      (T.get s' (meta_key c T key) ≡ none)
      × (T.get s' (encode_txnkv_gc_key c.encoder key) ≡ some (u16_be version))
      × (T.get s' (encode_txnkv_gc_version_key c.encoder key version)
          ≡ some (get_type_bytes DataType.list ∷ []))
  Deleted key version false s' =
      (T.get s' (meta_key c T key) ≡ none) × Items c T s' key version 0 []

  delete_list_short :
      (key : Bytes) (version len : ℕ) (s : T.State)
      → version < u16_mod
      → leb (async_del_list_threshold_or_default c) len ≡ false
      → Deleted key version false (delete_list c T key version len s)
  unfolding delete_list
  delete_list_short key version len s hv h =
      let range = encode_txnkv_list_data_key_range c.encoder key version in
      let ks = T.scan_keys s range in
      let s1 = delete_all c T ks s in
      rw h (
        T.get-delete s1 (meta_key c T key) (meta_key c T key)
            ∙ rw (bytes_eq_refl (meta_key c T key)),
        λ j hj.
            item-delete_meta c T s1 key key version j
            ∙ get-delete_all ks s (item_key c T key j version)
            ∙ rw
                (
                  contains-scan_keys T s range (item_key c T key j version),
                  item-in_range key version j hv,
                )
                (none_or_kept (T.get s (item_key c T key j version)) ∙ sym (elem_at-nil j)),
      )

  delete_list_long :
      (key : Bytes) (version len : ℕ) (s : T.State)
      → leb (async_del_list_threshold_or_default c) len ≡ true
      → Deleted key version true (delete_list c T key version len s)
  unfolding delete_list
  delete_list_long key version len s h = rw h (
    simp (
      T.get-put,
      T.get-delete,
      gc_version-ne-meta c.encoder,
      gc-ne-meta c.encoder,
      bytes_eq_refl,
    ),
    simp (T.get-put, gc_version-ne-gc c.encoder, bytes_eq_refl),
    simp (T.get-put, bytes_eq_refl),
  )

  pub delete_list-Deleted :
      (key : Bytes) (version len : ℕ) (s : T.State)
      → version < u16_mod
      → Deleted key version
          (leb (async_del_list_threshold_or_default c) len)
          (delete_list c T key version len s)
  delete_list-Deleted key version len s hv =
      elim (Bool-cases (leb (async_del_list_threshold_or_default c) len)) [
        | inl long ↦ rw long (delete_list_long key version len s long)
        | inr short ↦ rw short (delete_list_short key version len s hv short)
      ]

  length-ends : (left n : ℕ) → left + n < 2 ^ 63 → sub64 (left + n) left ≡ n
  length-ends left n h = omega arith

  -- `do_async_txnkv_list_del` on a list replies 1 and deletes it, at once if it is shorter than the
  -- threshold, and else by handing its version to the garbage collection.
  pub list_del_lem :
      (key : Bytes) (ttl version left : ℕ) (s : T.State) (xs : List Bytes)
      → Holds c T s key ttl version left xs
      → let (r, s') = list_del c T key s in
        (r ≡ ok 1)
        × Deleted key version (leb (async_del_list_threshold_or_default c) (length xs)) s'
  unfolding list_del
  list_del_lem key ttl version left s xs h =
      simp
        (
          h.meta,
          decode_key_list_meta-encode c.encoder ttl version left (left + length xs) h.ttl_lt
              h.version_lt (omega arith) (omega arith),
          length-ends left (length xs) h.room,
        )
        (refl, delete_list-Deleted key version (length xs) s h.version_lt)

  expire_lem :
      (now : ℕ) (key : Bytes) (ttl version left : ℕ) (s : T.State) (xs : List Bytes)
      → Holds c T s key ttl version left xs
      → key_is_expired now ttl ≡ true
      → list_expire_if_needed c T now key s ≡ (ok 1, delete_list c T key version (length xs) s)
  unfolding list_expire_if_needed
  expire_lem now key ttl version left s xs h old = simp (
    h.meta,
    decode_key_list_meta-encode c.encoder ttl version left (left + length xs) h.ttl_lt h.version_lt
        (omega arith) (omega arith),
    length-ends left (length xs) h.room,
    old,
  )

  -- A list that has expired is deleted before a command goes on.
  pub open_list-expired :
      (now : ℕ) (key : Bytes) (ttl version left : ℕ) (s : T.State) (xs : List Bytes)
      → Holds c T s key ttl version left xs
      → key_is_expired now ttl ≡ true
      → open_list c T now key s ≡ (ok (expired ttl), delete_list c T key version (length xs) s)
  unfolding open_list
  open_list-expired now key ttl version left s xs h old = simp (
    h.meta,
    (decode_key_type-encode c.encoder [] ttl version left (left + length xs) 0).2,
    decode_key_list_meta-encode c.encoder ttl version left (left + length xs) h.ttl_lt h.version_lt
        (omega arith) (omega arith),
    old,
    expire_lem now key ttl version left s xs h old,
  )
