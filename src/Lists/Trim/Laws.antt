-- ===== src/Lists/Trim/Laws.antt =====
-- LTRIM against the list that the key holds.
use tidis.Base.{
  ℕ, zero, suc, ◌+◌, ◌-◌, ◌^◌, ◌<◌, ◌≡◌, ◌∙◌, inl, inr, refl, subst, Bool, true, false, none, List,
  arith, length, ltb, leb, if◌then◌else◌, ◌&&◌, Bool-cases,
}
use tidis.Base.Int.{ℤ}
use tidis.Bytes.{Bytes, u64_mod, u16_mod}
use tidis.Bytes.Lex.{bytes_eq_refl}
use tidis.Frame.{Frame, resp_ok}
use tidis.Config.{Settings, key_is_expired}
use tidis.Txn.{Txn}
use tidis.Txn.Exec.{Result, ok}
use tidis.Lists.{meta_key, item_key, meta_value}
use tidis.Lists.Items.{Items, get-delete_item, meta-delete_item, item-delete_meta}
use tidis.Lists.Holds.{Holds, open_list-live, meta_written}
use tidis.Lists.Access.Laws.{IsI64}
use tidis.Lists.Trim.{ltrim, ltrim_live, delete_items}
use tidis.Lists.Trim.Positions.{
  index_pos, trim_left, index_after, trim_right, index_u64, new_left, new_right, clamp_pos,
  clamped-pos, clamp_pos-lt, between, length-between, elem_at-between, elem_at-empty,
}

module _ (c : Settings) (T : Txn) where
  get-delete_items :
      (n : ℕ) (key : Bytes) (version idx : ℕ) (s : T.State) (j : ℕ)
      → version < u16_mod
      → idx + n < u64_mod
      → j < u64_mod
      → T.get (delete_items c T n key version idx s) (item_key c T key j version)
        ≡ (if leb idx j && ltb j (idx + n) then none else T.get s (item_key c T key j version))
  unfolding delete_items
  get-delete_items zero key version idx s j hv hn hj = ground arith
  get-delete_items (suc n) key version idx s j hv hn hj =
      let s1 = T.delete s (item_key c T key idx version) in
      get-delete_items n key version (idx + 1) s1 j hv (omega arith) hj
      ∙ rw (get-delete_item c T s key version idx j hv (omega arith) hj) (ground arith)

  meta-delete_items :
      (n : ℕ) (key : Bytes) (version idx : ℕ) (s : T.State)
      → T.get (delete_items c T n key version idx s) (meta_key c T key) ≡ T.get s (meta_key c T key)
  unfolding delete_items
  meta-delete_items zero key version idx s = refl
  meta-delete_items (suc n) key version idx s =
      meta-delete_items n key version (idx + 1) (T.delete s (item_key c T key idx version))
      ∙ meta-delete_item c T s key key version idx

  -- The state in which LTRIM has kept the positions from `lo` to `hi`.
  trimmed : Bytes → ℕ → ℕ → ℕ → ℕ → ℕ → ℕ → T.State → T.State
  trimmed key lo hi ttl version left n s =
      let s1 = delete_items c T lo key version left s in
      let s2 = delete_items c T (n - (hi + 1)) key version (left + hi + 1) s1 in
      if leb (left + hi + 1) (left + lo)
      then T.delete s2 (meta_key c T key)
      else T.put s2 (meta_key c T key) (meta_value c T ttl version (left + lo) (left + hi + 1))

  ltrim_live-trimmed :
      (key : Bytes) (start stop : ℤ) (ttl version left n : ℕ) (s : T.State)
      → left + n < 2 ^ 63
      → 0 < n
      → IsI64 start
      → IsI64 stop
      → ltrim_live c T key start stop ttl version left (left + n) s
        ≡ trimmed key (clamp_pos start n) (clamp_pos stop n) ttl version left n s
  unfolding ltrim_live trimmed
  ltrim_live-trimmed key start stop ttl version left n s h k b b' =
      let lo = clamp_pos start n in
      let hi = clamp_pos stop n in
      let kl = clamp_pos-lt start n k in
      let kh = clamp_pos-lt stop n k in
      rw (clamped-pos start left n h k b, clamped-pos stop left n h k b')
        (rw (index_pos left n lo h kl, index_pos left n hi h kh)
          (rw
            (
              index_u64 left n lo h kl,
              trim_left left n lo h kl,
              index_after left n hi h kh,
              trim_right left n hi h kh,
            )
            (rw (new_left left n lo h kl, new_right left n hi h kh)
              (let a : left + lo - left ≡ lo = omega arith in
                let d : left + n - (left + hi + 1) ≡ n - (hi + 1) = omega arith in rw (a, d)))))

  trimmed-Items :
      (key : Bytes) (lo hi version left : ℕ) (s : T.State) (xs : List Bytes)
      → version < u16_mod
      → left + length xs < 2 ^ 63
      → hi < length xs
      → lo < length xs
      → Items c T s key version left xs
      → Items c T
          (delete_items c T
            (length xs - (hi + 1))
            key
            version
            (left + hi + 1)
            (delete_items c T lo key version left s))
          key
          version
          (left + lo)
          (between lo hi xs)
  trimmed-Items key lo hi version left s xs hv hr h k items j hj =
      get-delete_items (length xs - (hi + 1)) key version (left + hi + 1)
        (delete_items c T lo key version left s) j hv (omega arith) hj
      ∙ rw (get-delete_items lo key version left s j hv (omega arith) hj, items j hj)
          (elem_at-between left lo hi xs j h k)

  -- What LTRIM has done, with `kept` if the positions are in order: the list of the elements between
  -- them, or no list.
  abbrev pub TrimDone :
      Bytes → ℕ → ℕ → ℕ → ℕ → ℕ → List Bytes → Bool → Result Frame × T.State → Type 0
  TrimDone key lo hi ttl version left xs true r =
      (r.0 ≡ ok resp_ok) × Holds c T r.1 key ttl version (left + lo) (between lo hi xs)
  TrimDone key lo hi ttl version left xs false r =
      (r.0 ≡ ok resp_ok)
      × (T.get r.1 (meta_key c T key) ≡ none)
      × ((j : ℕ) → j < u64_mod → T.get r.1 (item_key c T key j version) ≡ none)

  trimmed-TrimDone :
      (key : Bytes) (lo hi ttl version left : ℕ) (s : T.State) (xs : List Bytes)
      → Holds c T s key ttl version left xs
      → hi < length xs
      → lo < length xs
      → TrimDone key lo hi ttl version left xs
          (leb lo hi)
          (ok resp_ok, trimmed key lo hi ttl version left (length xs) s)
  unfolding trimmed
  trimmed-TrimDone key lo hi ttl version left s xs h kh kl =
      let s2 =
        delete_items c T (length xs - (hi + 1)) key version (left + hi + 1)
          (delete_items c T lo key version left s) in
      let items = trimmed-Items key lo hi version left s xs h.version_lt h.room kh kl h.items in
      elim (Bool-cases (leb lo hi)) [
        | inl kept ↦
            let some_left : leb (left + hi + 1) (left + lo) ≡ false = ground arith in
            let e : left + lo + length (between lo hi xs) ≡ left + hi + 1 =
              omega (arith, length-between lo hi xs kh (ground arith)) in
            let written =
              meta_written c T s2 key ttl version (left + lo) (between lo hi xs) h.ttl_lt
                h.version_lt (omega (arith, h.room)) items in
            rw (kept, some_left)
              (
                refl,
                subst
                    (λ r.
                      Holds c T
                        (T.put s2 (meta_key c T key) (meta_value c T ttl version (left + lo) r)) key
                        ttl version (left + lo) (between lo hi xs))
                    e written,
              )
        | inr gone ↦
            let none_left : leb (left + hi + 1) (left + lo) ≡ true = ground arith in
            rw (gone, none_left)
              (
                refl,
                T.get-delete s2 (meta_key c T key) (meta_key c T key)
                    ∙ rw (bytes_eq_refl (meta_key c T key)),
                λ j hj.
                    item-delete_meta c T s2 key key version j
                    ∙ items j hj
                    ∙ elem_at-empty (left + lo) lo hi xs j (ground arith),
              )
      ]

  -- `do_async_txnkv_ltrim` on a list that is not empty: both indices are moved into the list (from the
  -- end if negative), and the list of the elements between them is kept under the same version; where
  -- they are out of order, the list is deleted with all its elements.
  pub ltrim_lem :
      (now : ℕ) (key : Bytes) (start stop : ℤ) (ttl version left : ℕ) (s : T.State)
      (xs : List Bytes)
      → Holds c T s key ttl version left xs
      → 0 < length xs
      → key_is_expired now ttl ≡ false
      → IsI64 start
      → IsI64 stop
      → let lo = clamp_pos start (length xs) in
        let hi = clamp_pos stop (length xs) in
        TrimDone key lo hi ttl version left xs (leb lo hi) (ltrim c T now key start stop s)
  unfolding ltrim
  ltrim_lem now key start stop ttl version left s xs h k fresh b b' =
      let n = length xs in
      rw (open_list-live c T now s key ttl version left xs h fresh) (
        rw (ltrim_live-trimmed key start stop ttl version left n s h.room k b b') (
          trimmed-TrimDone key (clamp_pos start n) (clamp_pos stop n) ttl version left s xs h
            (clamp_pos-lt stop n k) (clamp_pos-lt start n k)))
