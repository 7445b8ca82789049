-- ===== src/Lists/Pop/Inverse.antt =====
-- A pop takes back what a push has put.
use tidis.Base.{ℕ, ◌+◌, ◌^◌, ◌<◌, ◌≡◌, refl, subst, Bool, true, false, List, [], ◌∷◌, length, arith}
use tidis.Base.Int.{pos}
use tidis.Bytes.{Bytes}
use tidis.Config.{Settings, key_is_expired}
use tidis.Txn.{Txn}
use tidis.Lists.Holds.{Holds}
use tidis.Lists.Push.{push}
use tidis.Lists.Push.Laws.{push-live, pushed, pushed_left, Fits, reverse_onto}
use tidis.Lists.Pop.{pop}
use tidis.Lists.Pop.Laws.{PopDone, pop_one_lem, with_end, left_after}

pushed_one :
    (op_left : Bool) (v : Bytes) (xs : List Bytes)
    → pushed op_left (v ∷ []) xs ≡ with_end op_left v xs
pushed_one true v xs = reverse_onto v [] xs
pushed_one false v xs = refl

back_again :
    (op_left : Bool) (v : Bytes) (left : ℕ)
    → Fits op_left (v ∷ []) left
    → left_after op_left (pushed_left op_left (v ∷ []) left) ≡ left
back_again true v left h = omega arith
back_again false v left h = refl

module _ (c : Settings) (T : Txn) where
  -- On a list that has not expired, a push of one value and then a pop of one element at the same end,
  -- before the list expires, reply that value and leave the list as it was.
  pub pop-push :
      (now later : ℕ) (key v : Bytes) (op_left : Bool) (ttl version left : ℕ) (s : T.State)
      (xs : List Bytes)
      → Holds c T s key ttl version left xs
      → key_is_expired now ttl ≡ false
      → key_is_expired later ttl ≡ false
      → Fits op_left (v ∷ []) left
      → left + length xs + 1 < 2 ^ 63
      → PopDone c T key ttl version left v xs
          (pop c T later key op_left (pos 1) (push c T now key (v ∷ []) op_left s).1)
  pop-push now later key v op_left ttl version left s xs h fresh still fits room =
      let s' = (push c T now key (v ∷ []) op_left s).1 in
      let done = push-live c T now key (v ∷ []) op_left ttl version left s xs h fresh fits room in
      let left' = pushed_left op_left (v ∷ []) left in
      subst (λ l. PopDone c T key ttl version l v xs (pop c T later key op_left (pos 1) s'))
        (back_again op_left v left fits)
        (pop_one_lem c T later key op_left ttl version left' s' v xs
          (subst (λ ys. Holds c T s' key ttl version left' ys) (pushed_one op_left v xs) done.1)
          still)
