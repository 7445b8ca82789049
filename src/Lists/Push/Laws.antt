-- ===== src/Lists/Push/Laws.antt =====
-- A push puts its values one by one at the chosen end.
use mathlib.Core.List.{reverse, reverse-cons}
use tidis.Base.{
  ℕ, zero, suc, ◌+◌, ◌-◌, ◌^◌, ◌≤◌, ◌<◌, ◌≡◌, ◌∙◌, refl, sym, ap, subst, Bool, true, false, none,
  List, [], ◌∷◌, ◌++◌, arith, length, length-append, append_assoc, append-nil,
}
use tidis.Base.Int.{pos}
use tidis.Bytes.{Bytes, u64_mod, u16_mod, sub64, add64}
use tidis.Frame.{Frame, as_i64, resp_int}
use tidis.Config.{Settings, key_is_expired}
use tidis.Version.{get_version_for_new}
use tidis.Txn.{Txn}
use tidis.Txn.Exec.{Result, ok}
use tidis.Lists.{meta_key, item_key, respond, init_index}
use tidis.Lists.Items.{Items, elem_at, Items-push_left, Items-push_right, meta-put_item}
use tidis.Lists.Holds.{Holds, open_list-live, open_list-missing, meta_written, count}
use tidis.Lists.Push.{push_values, push_between, push}

-- The list after the values have been pushed at the left or at the right.
abbrev pub pushed : Bool → List Bytes → List Bytes → List Bytes
pushed true values xs = reverse values ++ xs
pushed false values xs = xs ++ values

abbrev pub pushed_left : Bool → List Bytes → ℕ → ℕ
pushed_left true values left = left - length values
pushed_left false values left = left

-- A push at the left needs as many free indices there.
abbrev pub Fits : Bool → List Bytes → ℕ → Type 0
Fits true values left = length values ≤ left
Fits false values left = Unit

pub reverse_onto : (v : Bytes) (vs xs : List Bytes) → reverse (v ∷ vs) ++ xs ≡ reverse vs ++ v ∷ xs
reverse_onto v vs xs = rw (reverse-cons v vs) (append_assoc (reverse vs) (v ∷ []) xs)

length-reverse : (vs : List Bytes) → length (reverse vs) ≡ length vs
length-reverse [] = refl
length-reverse (v ∷ vs) =
    rw (reverse-cons v vs) (omega (arith, length-append (reverse vs) (v ∷ []), length-reverse vs))

module _ (c : Settings) (T : Txn) where
  -- The loop has come to these ends and elements, and the meta value is still that of `s`.
  abbrev Reached : Bytes → ℕ → T.State → ℕ → ℕ → List Bytes → (ℕ × ℕ) × T.State → Type 0
  Reached key version s left right xs r =
      (r.0 ≡ (left, right))
      × Items c T r.1 key version left xs
      × (T.get r.1 (meta_key c T key) ≡ T.get s (meta_key c T key))

  push_values_left :
      (key : Bytes) (version : ℕ) (vs : List Bytes) (left right : ℕ) (s : T.State) (xs : List Bytes)
      → version < u16_mod
      → left < u64_mod
      → length vs ≤ left
      → Items c T s key version left xs
      → Reached key version s
          (left - length vs)
          right
          (reverse vs ++ xs)
          (push_values c T key version true vs left right s)
  unfolding push_values
  push_values_left key version [] left right s xs hv hl hn items =
      let e : left - 0 ≡ left = omega arith in rw e (refl, items, refl)
  push_values_left key version (v ∷ vs) zero right s xs hv hl hn items = absurd (omega arith)
  push_values_left key version (v ∷ vs) (suc left) right s xs hv hl hn items =
      let e : sub64 (suc left) 1 ≡ left = omega arith in
      let d : suc left - suc (length vs) ≡ left - length vs = omega arith in
      let s1 = T.put s (item_key c T key left version) v in
      let more =
        push_values_left key version vs left right s1 (v ∷ xs) hv (omega arith) (omega arith)
          (Items-push_left c T s key version left v xs hv (omega arith) items) in
      subst (Reached key version s (suc left - suc (length vs)) right (reverse (v ∷ vs) ++ xs))
        (ap
          (λ i.
            push_values c T key version true vs i right (T.put s (item_key c T key i version) v))
          (sym e))
        (rw d (
          more.0,
          λ j hj.
              more.1 j hj ∙ ap (λ ys. elem_at (left - length vs) ys j) (sym (reverse_onto v vs xs)),
          more.2 ∙ meta-put_item c T s key key version left v,
        ))

  push_values_right :
      (key : Bytes) (version : ℕ) (vs : List Bytes) (left : ℕ) (s : T.State) (xs : List Bytes)
      → version < u16_mod
      → left + length xs + length vs < u64_mod
      → Items c T s key version left xs
      → Reached key version s left
          (left + length xs + length vs)
          (xs ++ vs)
          (push_values c T key version false vs left (left + length xs) s)
  unfolding push_values
  push_values_right key version [] left s xs hv hn items =
      let e : left + length xs + 0 ≡ left + length xs = omega arith in
      rw (e, append-nil xs) (refl, items, refl)
  push_values_right key version (v ∷ vs) left s xs hv hn items =
      let e : add64 (left + length xs) 1 ≡ left + length (xs ++ v ∷ []) =
        omega (arith, length-append xs (v ∷ [])) in
      let d : left + length (xs ++ v ∷ []) + length vs ≡ left + length xs + suc (length vs) =
        omega (arith, length-append xs (v ∷ [])) in
      let s1 = T.put s (item_key c T key (left + length xs) version) v in
      let more =
        push_values_right key version vs left s1 (xs ++ v ∷ []) hv
          (omega (arith, length-append xs (v ∷ [])))
          (Items-push_right c T s key version left v xs hv (omega arith) items) in
      subst (Reached key version s left (left + length xs + suc (length vs)) (xs ++ v ∷ vs))
        (ap (λ i. push_values c T key version false vs left i s1) (sym e))
        (
          more.0 ∙ ap (λ r. (left, r)) d,
          λ j hj. more.1 j hj ∙ ap (λ ys. elem_at left ys j) (append_assoc xs (v ∷ []) vs),
          more.2 ∙ meta-put_item c T s key key version (left + length xs) v,
        )

  -- Both directions at once.
  push_values-Reached :
      (key : Bytes) (version : ℕ) (values : List Bytes) (op_left : Bool) (left : ℕ) (s : T.State)
      (xs : List Bytes)
      → version < u16_mod
      → Fits op_left values left
      → left + length xs + length values < 2 ^ 63
      → Items c T s key version left xs
      → let left' = pushed_left op_left values left in
        Reached key version s left'
          (left' + length (pushed op_left values xs))
          (pushed op_left values xs)
          (push_values c T key version op_left values left (left + length xs) s)
  push_values-Reached key version values true left s xs hv hl hr items =
      let e : left + length xs ≡ left - length values + length (reverse values ++ xs) =
        omega (arith, length-append (reverse values) xs, length-reverse values) in
      subst
        (λ r.
          Reached key version s (left - length values) r (reverse values ++ xs)
            (push_values c T key version true values left (left + length xs) s))
        e
        (push_values_left key version values left (left + length xs) s xs hv (omega arith) hl items)
  push_values-Reached key version values false left s xs hv hl hr items =
      let e : left + length xs + length values ≡ left + length (xs ++ values) =
        omega (arith, length-append xs values) in
      subst
        (λ r.
          Reached key version s left r (xs ++ values)
            (push_values c T key version false values left (left + length xs) s))
        e (push_values_right key version values left s xs hv (omega arith) items)

  length-pushed :
      (op_left : Bool) (values xs : List Bytes)
      → length (pushed op_left values xs) ≡ length xs + length values
  length-pushed true values xs =
      omega (arith, length-append (reverse values) xs, length-reverse values)
  length-pushed false values xs = omega (arith, length-append xs values)

  pushed_room :
      (op_left : Bool) (values : List Bytes) (left : ℕ) (xs : List Bytes)
      → Fits op_left values left
      → left + length xs + length values < 2 ^ 63
      → pushed_left op_left values left + length (pushed op_left values xs) < 2 ^ 63
  pushed_room true values left xs hl hr = omega (arith, length-pushed true values xs)
  pushed_room false values left xs hl hr = omega (arith, length-pushed false values xs)

  pub Fits-new :
      (op_left : Bool) (values : List Bytes)
      → length values < 2 ^ 32
      → Fits op_left values init_index
  Fits-new true values h = omega arith
  Fits-new false values h = tt

  -- The key holds the list with the values pushed, and the reply is its length.
  abbrev pub PushDone :
      Bytes → List Bytes → Bool → ℕ → ℕ → ℕ → List Bytes → Result Frame × T.State → Type 0
  PushDone key values op_left ttl version left xs r =
      (r.0 ≡ ok (resp_int (pos (length xs + length values))))
      × Holds c T r.1 key ttl version (pushed_left op_left values left) (pushed op_left values xs)

  pub push_between-PushDone :
      (key : Bytes) (values : List Bytes) (op_left : Bool) (ttl version left : ℕ) (s : T.State)
      (xs : List Bytes)
      → ttl < u64_mod
      → version < u16_mod
      → Fits op_left values left
      → left + length xs + length values < 2 ^ 63
      → Items c T s key version left xs
      → PushDone key values op_left ttl version left xs (
          respond
            (λ n. resp_int (as_i64 n))
            (push_between c T key values op_left ttl version left (left + length xs))
            s)
  unfolding push_between
  push_between-PushDone key values op_left ttl version left s xs ht hv hl hr items =
      let done = push_values-Reached key version values op_left left s xs hv hl hr items in
      let left' = pushed_left op_left values left in
      let xs' = pushed op_left values xs in
      let s' = (push_values c T key version op_left values left (left + length xs) s).1 in
      let room = pushed_room op_left values left xs hl hr in
      rw done.0 (
        rw (count left' (length xs') room) (rw (length-pushed op_left values xs)),
        meta_written c T s' key ttl version left' xs' ht hv room done.1,
      )

  -- `do_async_txnkv_push` on a list that has not expired: the values stand at the chosen end, the last
  -- one outermost at the left, and the reply is the new length.
  pub push-live :
      (now : ℕ) (key : Bytes) (values : List Bytes) (op_left : Bool) (ttl version left : ℕ)
      (s : T.State) (xs : List Bytes)
      → Holds c T s key ttl version left xs
      → key_is_expired now ttl ≡ false
      → Fits op_left values left
      → left + length xs + length values < 2 ^ 63
      → PushDone key values op_left ttl version left xs (push c T now key values op_left s)
  unfolding push
  push-live now key values op_left ttl version left s xs h fresh hl hr =
      rw (open_list-live c T now s key ttl version left xs h fresh) (
        push_between-PushDone key values op_left ttl version left s xs h.ttl_lt h.version_lt hl hr
          h.items)

  -- `do_async_txnkv_push` on a key that holds nothing makes a new list, which never expires, under the
  -- version that `get_version_for_new` finds, where no element of that version is left over.
  pub push_new :
      (now : ℕ) (key : Bytes) (values : List Bytes) (op_left : Bool) (version : ℕ) (s : T.State)
      → T.get s (meta_key c T key) ≡ none
      → get_version_for_new c T key s ≡ (ok version, s)
      → version < u16_mod
      → Items c T s key version init_index []
      → length values < 2 ^ 32
      → PushDone key values op_left 0 version init_index [] (push c T now key values op_left s)
  unfolding push
  push_new now key values op_left version s h found hv items hn =
      rw (open_list-missing c T now s key h) (
        rw found (
          push_between-PushDone key values op_left 0 version init_index s [] (omega arith) hv
            (Fits-new op_left values hn) (omega arith) items))
