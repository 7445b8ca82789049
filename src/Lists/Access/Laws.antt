-- ===== src/Lists/Access/Laws.antt =====
-- LLEN, LINDEX and LSET against the list that the key holds.
use tidis.Base.{
  ℕ, zero, suc, ◌+◌, ◌-◌, ◌^◌, ◌≤◌, ◌<◌, ◌≡◌, ◌∙◌, ◌⊎◌, inl, inr, refl, sym, ap, Bool, true, false,
  Option, none, some, List, [], ◌∷◌, arith, length, get_elem?, get_elem?-none, set, ltb, leb,
  if◌then◌else◌, Bool-cases,
}
use tidis.Base.Int.{ℤ, pos, negsuc, pos_part, neg_part, ltb_ℤ}
use tidis.Bytes.{Bytes, u64_mod, sub64}
use tidis.Frame.{Frame, as_i64, as_u64, add_i64, resp_int, resp_err, resp_ok, index_out_of_range}
use tidis.Config.{Settings, key_is_expired}
use tidis.Txn.{Txn}
use tidis.Txn.Exec.{Result, ok}
use tidis.Lists.{item_key, meta_value, from_end}
use tidis.Lists.Items.{elem_at, Items-set, meta-put_item}
use tidis.Lists.Holds.{Holds, open_list-live, count}
use tidis.Lists.Access.{llen, lindex, lset, lset_refused, bulk_or_nil}

leb_of_ltb : (i n : ℕ) → ltb i n ≡ true → leb n i ≡ false
leb_of_ltb i n h = ground arith

leb_of_not_ltb : (i n : ℕ) → ltb i n ≡ false → leb n i ≡ true
leb_of_not_ltb i n h = ground arith

length-set : (xs : List Bytes) (i : ℕ) (v : Bytes) → length (set xs i v) ≡ length xs
length-set [] i v = refl
length-set (x ∷ xs) zero v = refl
length-set (x ∷ xs) (suc i) v = ap suc (length-set xs i v)

abbrev pub IsI64 : ℤ → Type 0
IsI64 z = (pos_part z < 2 ^ 63) × (neg_part z ≤ 2 ^ 63)

-- The position that an index means in a list of `n` elements, counted from the end if negative.
abbrev pub resolve : ℤ → ℕ → Option ℕ
resolve (pos i) n = if ltb i n then some i else none
resolve (negsuc i) n = if ltb i n then some (n - suc i) else none

abbrev pub element : List Bytes → Option ℕ → Option Bytes
element xs none = none
element xs (some i) = get_elem? xs i

-- the data key's index that LINDEX reads
abbrev real_idx : ℕ → ℕ → ℤ → ℕ
real_idx left n idx = as_u64 (add_i64 (as_i64 left) (from_end idx (sub64 (left + n) left)))

real_idx_pos : (left n i : ℕ) → left + n < 2 ^ 63 → i < 2 ^ 63 → real_idx left n (pos i) ≡ left + i
unfolding from_end add_i64
real_idx_pos left n i h k = ground arith

real_idx_back :
    (left n i : ℕ) → left + n < 2 ^ 63 → i < n → real_idx left n (negsuc i) ≡ left + (n - suc i)
unfolding from_end add_i64
real_idx_back left n i h k = ground arith

real_idx_before :
    (left n i : ℕ)
    → left + n < 2 ^ 63
    → n ≤ i
    → i < 2 ^ 63
    → (real_idx left n (negsuc i) < left) ⊎ (left + n ≤ real_idx left n (negsuc i))
unfolding from_end add_i64
real_idx_before left n i h k l = ground arith

elem_at-outside :
    (left : ℕ) (xs : List Bytes) (j : ℕ)
    → (j < left) ⊎ (left + length xs ≤ j)
    → elem_at left xs j ≡ none
elem_at-outside left xs j (inl before) = ground arith
elem_at-outside left xs j (inr after) = ground (arith, get_elem?-none xs (j - left) (omega arith))

elem_at-inside : (left : ℕ) (xs : List Bytes) (i : ℕ) → elem_at left xs (left + i) ≡ get_elem? xs i
elem_at-inside left xs i =
    let e : left + i - left ≡ i = omega arith in
    let l : ltb (left + i) left ≡ false = ground arith in rw (l, e)

-- The element under the data key that LINDEX reads is the one that the index means.
elem_at-real_idx :
    (left : ℕ) (xs : List Bytes) (idx : ℤ)
    → left + length xs < 2 ^ 63
    → IsI64 idx
    → elem_at left xs (real_idx left (length xs) idx) ≡ element xs (resolve idx (length xs))
elem_at-real_idx left xs (pos i) h k = rw (real_idx_pos left (length xs) i h k.0) (
    elem_at-inside left xs i ∙ elim (Bool-cases (ltb i (length xs))) [
      | inl inside ↦ rw inside
      | inr out ↦ rw out (get_elem?-none xs i (ground arith))
    ])
elem_at-real_idx left xs (negsuc i) h k = elim (Bool-cases (ltb i (length xs))) [
  | inl inside ↦
      rw (real_idx_back left (length xs) i h (ground arith))
        (rw inside (elem_at-inside left xs (length xs - suc i)))
  | inr out ↦ rw out (
      elem_at-outside left xs (real_idx left (length xs) (negsuc i))
        (real_idx_before left (length xs) i h (ground arith) (omega arith)))
]

as_u64-lt : (z : ℤ) → as_u64 z < u64_mod
unfolding as_u64
as_u64-lt (pos n) = omega arith
as_u64-lt (negsuc n) = omega arith

-- the data key's index that LSET writes, and its test
abbrev uidx_of : ℕ → ℕ → ℤ → ℤ
uidx_of left n idx = add_i64 (from_end idx (sub64 (left + n) left)) (as_i64 left)

abbrev refused : ℕ → ℕ → ℤ → Bool
refused left n idx =
    lset_refused (from_end idx (sub64 (left + n) left)) (uidx_of left n idx) left (left + n)

refused_pos : (left n i : ℕ) → left + n < 2 ^ 63 → i < 2 ^ 63 → refused left n (pos i) ≡ leb n i
unfolding lset_refused from_end add_i64
refused_pos left n i h k = ground arith

from_end_inside :
    (left n i : ℕ)
    → left + n < 2 ^ 63
    → i < n
    → from_end (negsuc i) (sub64 (left + n) left) ≡ pos (n - suc i)
unfolding from_end add_i64
from_end_inside left n i h k = ground arith

from_end_outside :
    (left n i : ℕ)
    → left + n < 2 ^ 63
    → n ≤ i
    → i < 2 ^ 63
    → from_end (negsuc i) (sub64 (left + n) left) ≡ negsuc (i - n)
unfolding from_end add_i64
from_end_outside left n i h k l = ground arith

accepted :
    (left n i : ℕ)
    → left + n < 2 ^ 63
    → i < n
    → lset_refused (pos i) (add_i64 (pos i) (as_i64 left)) left (left + n) ≡ false
unfolding lset_refused add_i64
accepted left n i h k = ground arith

refused_negative : (i : ℕ) (u : ℤ) (left right : ℕ) → lset_refused (negsuc i) u left right ≡ true
unfolding lset_refused
refused_negative i u left right = let t : ltb_ℤ (negsuc i) (pos 0) ≡ true = ground arith in rw t

refused_back : (left n i : ℕ) → left + n < 2 ^ 63 → i < 2 ^ 63 → refused left n (negsuc i) ≡ leb n i
refused_back left n i h k = elim (Bool-cases (ltb i n)) [
  | inl inside ↦
      rw (from_end_inside left n i h (ground arith), leb_of_ltb i n inside)
        (accepted left n (n - suc i) h (ground arith))
  | inr out ↦
      rw (from_end_outside left n i h (ground arith) k, leb_of_not_ltb i n out)
        (refused_negative (i - n) (add_i64 (negsuc (i - n)) (as_i64 left)) left (left + n))
]

uidx_pos : (left n i : ℕ) → left + n < 2 ^ 63 → i < n → as_u64 (uidx_of left n (pos i)) ≡ left + i
unfolding from_end add_i64
uidx_pos left n i h k = ground arith

uidx_back :
    (left n i : ℕ)
    → left + n < 2 ^ 63
    → i < n
    → as_u64 (uidx_of left n (negsuc i)) ≡ left + (n - suc i)
unfolding from_end add_i64
uidx_back left n i h k = ground arith

module _ (c : Settings) (T : Txn) where
  llen_lem :
      (now : ℕ) (key : Bytes) (ttl version left : ℕ) (s : T.State) (xs : List Bytes)
      → Holds c T s key ttl version left xs
      → key_is_expired now ttl ≡ false
      → llen c T now key s ≡ (ok (resp_int (pos (length xs))), s)
  unfolding llen
  llen_lem now key ttl version left s xs h fresh =
      rw (open_list-live c T now s key ttl version left xs h fresh)
        (rw (count left (length xs) h.room))

  lindex_lem :
      (now : ℕ) (key : Bytes) (idx : ℤ) (ttl version left : ℕ) (s : T.State) (xs : List Bytes)
      → Holds c T s key ttl version left xs
      → key_is_expired now ttl ≡ false
      → IsI64 idx
      → lindex c T now key idx s ≡ (ok (bulk_or_nil (element xs (resolve idx (length xs)))), s)
  unfolding lindex
  lindex_lem now key idx ttl version left s xs h fresh hi =
      rw (open_list-live c T now s key ttl version left xs h fresh) (
        rw (
          h.items (real_idx left (length xs) idx)
              (as_u64-lt (add_i64 (as_i64 left) (from_end idx (sub64 (left + length xs) left)))),
          elem_at-real_idx left xs idx h.room hi,
        ))

  -- On a list that has not expired LLEN replies its length, and LINDEX with an i64 the element that it
  -- means, from the end if it is negative, and nil where there is none; nothing changes.
  pub list_reads :
      (now : ℕ) (key : Bytes) (idx : ℤ) (ttl version left : ℕ) (s : T.State) (xs : List Bytes)
      → Holds c T s key ttl version left xs
      → key_is_expired now ttl ≡ false
      → IsI64 idx
      → (llen c T now key s ≡ (ok (resp_int (pos (length xs))), s))
        × (lindex c T now key idx s ≡ (ok (bulk_or_nil (element xs (resolve idx (length xs)))), s))
  list_reads now key idx ttl version left s xs h fresh hi = (
    llen_lem now key ttl version left s xs h fresh,
    lindex_lem now key idx ttl version left s xs h fresh hi,
  )

  -- What LSET has done: with a position the element is replaced, else the reply is an error and
  -- nothing has changed.
  abbrev pub SetDone :
      T.State → Bytes → Bytes → ℕ → ℕ → ℕ → List Bytes → Option ℕ → Result Frame × T.State → Type 0
  SetDone s key ele ttl version left xs none r = r ≡ (ok (resp_err index_out_of_range), s)
  SetDone s key ele ttl version left xs (some i) r =
      (r.0 ≡ ok resp_ok) × Holds c T r.1 key ttl version left (set xs i ele)

  -- A write of the element at `left + i`.
  set_written :
      (s : T.State) (key ele : Bytes) (ttl version left i : ℕ) (xs : List Bytes)
      → Holds c T s key ttl version left xs
      → i < length xs
      → Holds c T
          (T.put s (item_key c T key (left + i) version) ele)
          key
          ttl
          version
          left
          (set xs i ele)
  set_written s key ele ttl version left i xs h hi = record {
    meta =
        meta-put_item c T s key key version (left + i) ele
        ∙ h.meta
        ∙ ap (λ n. some (meta_value c T ttl version left (left + n))) (sym (length-set xs i ele));
    items =
        Items-set c T s key version left i ele xs h.version_lt hi
          (let r : left + length xs < u64_mod = omega (arith, h.room) in r) h.items;
    ttl_lt = h.ttl_lt;
    version_lt = h.version_lt;
    room = omega (arith, h.room, length-set xs i ele);
  }

  set_done :
      (s : T.State) (key ele : Bytes) (ttl version left i j : ℕ) (xs : List Bytes)
      → Holds c T s key ttl version left xs
      → i < length xs
      → j ≡ left + i
      → Holds c T (T.put s (item_key c T key j version) ele) key ttl version left (set xs i ele)
  set_done s key ele ttl version left i j xs h hi e =
      rw e (set_written s key ele ttl version left i xs h hi)

  -- `do_async_txnkv_lset` replaces the element that the index means; an index that means none is
  -- refused and changes nothing.
  pub lset_lem :
      (now : ℕ) (key : Bytes) (idx : ℤ) (ele : Bytes) (ttl version left : ℕ) (s : T.State)
      (xs : List Bytes)
      → Holds c T s key ttl version left xs
      → key_is_expired now ttl ≡ false
      → IsI64 idx
      → SetDone s key ele ttl version left xs (resolve idx (length xs)) (lset c T now key idx ele s)
  unfolding lset
  lset_lem now key (pos i) ele ttl version left s xs h fresh hi =
      rw (open_list-live c T now s key ttl version left xs h fresh)
        (elim (Bool-cases (ltb i (length xs))) [
          | inl inside ↦
              rw (inside, refused_pos left (length xs) i h.room hi.0, leb_of_ltb _ _ inside)
                (
                  refl,
                  set_done s key ele ttl version left i _ xs h (ground arith)
                      (uidx_pos left (length xs) i h.room (ground arith)),
                )
          | inr out ↦ rw (out, refused_pos left (length xs) i h.room hi.0, leb_of_not_ltb _ _ out)
        ])
  lset_lem now key (negsuc i) ele ttl version left s xs h fresh hi =
      rw (open_list-live c T now s key ttl version left xs h fresh)
        (elim (Bool-cases (ltb i (length xs))) [
          | inl inside ↦
              rw
                (
                  inside,
                  refused_back left (length xs) i h.room (omega arith),
                  leb_of_ltb _ _ inside,
                )
                (
                  refl,
                  set_done s key ele ttl version left (length xs - suc i) _ xs h (ground arith)
                      (uidx_back left (length xs) i h.room (ground arith)),
                )
          | inr out ↦
              rw (out, refused_back left (length xs) i h.room (omega arith), leb_of_not_ltb _ _ out)
        ])
