-- ===== src/Lists/Pop/Laws.antt =====
-- A pop of one element, against the list that the key holds.
use tidis.Base.{
  ℕ, suc, ◌+◌, ◌-◌, ◌^◌, ◌<◌, ◌≡◌, ◌∙◌, refl, Bool, true, false, none, some, List, [], ◌∷◌, ◌++◌,
  arith, length, length-append, get_elem?-none, ◌==◌, if◌then◌else◌,
}
use tidis.Base.Int.{pos}
use tidis.Bytes.{Bytes, u16_mod, u64_mod, add64, sub64}
use tidis.Bytes.Lex.{bytes_eq_refl}
use tidis.Frame.{Frame, resp_bulk}
use tidis.Config.{Settings, key_is_expired}
use tidis.Txn.{Txn}
use tidis.Txn.Exec.{Result, ok}
use tidis.Lists.{meta_key, item_key}
use tidis.Lists.Items.{
  Items, elem_at, elem_at-cons, elem_at-snoc, get-delete_item, item-delete_meta,
}
use tidis.Lists.Holds.{Holds, open_list-live, meta_written}
use tidis.Lists.Pop.{close_list, pop_one, pop_one_value, pop_opened, pop}

-- A list with an element at its left or at its right end, and the index of that element.
abbrev pub with_end : Bool → Bytes → List Bytes → List Bytes
with_end true x xs = x ∷ xs
with_end false x xs = xs ++ x ∷ []

abbrev pub left_after : Bool → ℕ → ℕ
left_after true left = left + 1
left_after false left = left

abbrev end_index : Bool → ℕ → List Bytes → ℕ
end_index true left xs = left
end_index false left xs = left + length xs

length-with_end :
    (op_left : Bool) (x : Bytes) (xs : List Bytes)
    → length (with_end op_left x xs) ≡ suc (length xs)
length-with_end true x xs = refl
length-with_end false x xs = omega (arith, length-append xs (x ∷ []))

after_room :
    (op_left : Bool) (left : ℕ) (xs : List Bytes)
    → left + suc (length xs) < 2 ^ 63
    → left_after op_left left + length xs < 2 ^ 63
after_room true left xs h = omega arith
after_room false left xs h = omega arith

elem_at_end :
    (op_left : Bool) (left : ℕ) (x : Bytes) (xs : List Bytes)
    → elem_at left (with_end op_left x xs) (end_index op_left left xs) ≡ some x
elem_at_end true left x xs = elem_at-cons left x xs left ∙ ground arith
elem_at_end false left x xs = elem_at-snoc left xs x (left + length xs) ∙ ground arith

-- Without that element, the others are where they were.
elem_at-rest :
    (op_left : Bool) (left j : ℕ) (x : Bytes) (xs : List Bytes)
    → (if end_index op_left left xs == j then none else elem_at left (with_end op_left x xs) j)
      ≡ elem_at (left_after op_left left) xs j
elem_at-rest true left j x xs = rw (elem_at-cons left x xs j) (ground arith)
elem_at-rest false left j x xs =
    rw (elem_at-snoc left xs x j) (ground (arith, get_elem?-none xs (j - left)))

module _ (c : Settings) (T : Txn) where
  -- What is left of a list: an empty list has neither a meta value nor elements.
  abbrev pub Remains : Bytes → ℕ → ℕ → ℕ → List Bytes → T.State → Type 0
  Remains key ttl version left [] s =
      (T.get s (meta_key c T key) ≡ none) × Items c T s key version left []
  Remains key ttl version left (x ∷ xs) s = Holds c T s key ttl version left (x ∷ xs)

  close_list-Remains :
      (key : Bytes) (ttl version left : ℕ) (s : T.State) (xs : List Bytes)
      → ttl < u64_mod
      → version < u16_mod
      → left + length xs < 2 ^ 63
      → Items c T s key version left xs
      → Remains key ttl version left xs (close_list c T key ttl version left (left + length xs) s)
  unfolding close_list
  close_list-Remains key ttl version left s [] ht hv hr items =
      let e : (left == left + 0) ≡ true = ground arith in
      rw e (
        T.get-delete s (meta_key c T key) (meta_key c T key)
            ∙ rw (bytes_eq_refl (meta_key c T key)),
        λ j hj. item-delete_meta c T s key key version j ∙ items j hj,
      )
  close_list-Remains key ttl version left s (x ∷ xs) ht hv hr items =
      let e : (left == left + suc (length xs)) ≡ false = ground arith in
      rw e (meta_written c T s key ttl version left (x ∷ xs) ht hv hr items)

  delete_end-Items :
      (op_left : Bool) (key : Bytes) (version left : ℕ) (s : T.State) (x : Bytes) (xs : List Bytes)
      → version < u16_mod
      → left + length xs < u64_mod
      → Items c T s key version left (with_end op_left x xs)
      → Items c T
          (T.delete s (item_key c T key (end_index op_left left xs) version))
          key
          version
          (left_after op_left left)
          xs
  delete_end-Items op_left key version left s x xs hv hr items j hj =
      get-delete_item c T s key version (end_index op_left left xs) j hv (bound op_left) hj
      ∙ rw (items j hj) (elem_at-rest op_left left j x xs)
    where
      bound : (op_left : Bool) → end_index op_left left xs < u64_mod
      bound true = omega arith
      bound false = omega arith

  -- The reply is the element, and the rest of the list is left.
  abbrev pub PopDone : Bytes → ℕ → ℕ → ℕ → Bytes → List Bytes → Result Frame × T.State → Type 0
  PopDone key ttl version left x xs r =
      (r.0 ≡ ok (resp_bulk x)) × Remains key ttl version left xs r.1

  pop_one_run :
      (op_left : Bool) (key : Bytes) (ttl version left : ℕ) (s : T.State) (x : Bytes)
      (xs : List Bytes)
      → left + suc (length xs) < 2 ^ 63
      → Items c T s key version left (with_end op_left x xs)
      → let left' = left_after op_left left in
        pop_one c T key op_left ttl version left (left + length (with_end op_left x xs)) s ≡ (
          ok (resp_bulk x ∷ []),
          close_list c T key ttl version left'
              (left' + length xs)
              (T.delete s (item_key c T key (end_index op_left left xs) version)),
        )
  unfolding pop_one pop_one_value
  pop_one_run true key ttl version left s x xs hr items =
      let found : T.get s (item_key c T key left version) ≡ some x =
        items left (omega arith) ∙ elem_at_end true left x xs in
      let l : add64 left 1 ≡ left + 1 = omega arith in
      let r : left + suc (length xs) ≡ left + 1 + length xs = omega arith in rw (found, l, r) refl
  pop_one_run false key ttl version left s x xs hr items =
      let r : sub64 (left + length (xs ++ x ∷ [])) 1 ≡ left + length xs =
        omega (arith, length-append xs (x ∷ [])) in
      let found : T.get s (item_key c T key (left + length xs) version) ≡ some x =
        items (left + length xs) (omega arith) ∙ elem_at_end false left x xs in
      rw r (rw found refl)

  -- `do_async_txnkv_pop` with a count of 1, on a list with an element at the chosen end that has not
  -- expired, replies that element and takes it off; a list with no other element is deleted.
  pub pop_one_lem :
      (now : ℕ) (key : Bytes) (op_left : Bool) (ttl version left : ℕ) (s : T.State) (x : Bytes)
      (xs : List Bytes)
      → Holds c T s key ttl version left (with_end op_left x xs)
      → key_is_expired now ttl ≡ false
      → PopDone key ttl version (left_after op_left left) x xs (pop c T now key op_left (pos 1) s)
  unfolding pop pop_opened
  pop_one_lem now key op_left ttl version left s x xs h fresh =
      let n = length-with_end op_left x xs in
      let s' = T.delete s (item_key c T key (end_index op_left left xs) version) in
      rw (open_list-live c T now s key ttl version left (with_end op_left x xs) h fresh) (
        rw (pop_one_run op_left key ttl version left s x xs (omega (arith, h.room, n)) h.items) (
          refl,
          close_list-Remains key ttl version (left_after op_left left) s' xs h.ttl_lt h.version_lt
              (after_room op_left left xs (omega (arith, h.room, n)))
              (delete_end-Items op_left key version left s x xs h.version_lt
                (omega (arith, h.room, n)) h.items),
        ))
