-- ===== src/Txn/Batch.antt =====
-- Batches of keys: a batch read does not keep the order of its keys, but their number and which they are.
use mathlib.Core.Bool.{Bool-set}
use mathlib.Core.List.{Perm, Permᴰ}
use mathlib.Core.List.Permᴰ.{nil, cons, swap, trans}
use mathlib.Core.Logic.{∥∥₁_elim}
use native.Mathlib.Nat.{ℕ_set}
use tidis.Base.{
  Bool, true, false, refl, sym, ap, inl, inr, Bool-cases, Option-cases, ℕ, ◌+◌, ◌≡◌, ◌∙◌, Option,
  none, some, List, [], ◌∷◌, ◌&&◌, ◌||◌, map, length, arith, if◌then◌else◌,
}
use tidis.Bytes.{Bytes, bytes_eq}
use tidis.Bytes.Lex.{bytes_eq_iff, bytes_eq_refl}
use tidis.Txn.Steps.{collected}
use tidis.Txn.{Txn, contains, is_some, found, first, with_key, Distinct}

length-permᴰ : {A : Type 0} {l m : List A} → Permᴰ l m → length l ≡ length m
length-permᴰ nil = refl
length-permᴰ (cons e p) = omega (arith, length-permᴰ p)
length-permᴰ (swap e f) = refl
length-permᴰ (trans p q) = length-permᴰ p ∙ length-permᴰ q

length-perm : {A : Type 0} {l m : List A} → Perm l m → length l ≡ length m
length-perm {A} {l} {m} p = ∥∥₁_elim p (ℕ_set (length l) (length m)) length-permᴰ

contains-permᴰ :
    {l m : List (Bytes × Bytes)}
    → Permᴰ l m
    → (k : Bytes) → contains (map first l) k ≡ contains (map first m) k
contains-permᴰ nil k = refl
contains-permᴰ (cons {a = a} {b = b} e p) k = rw (e, contains-permᴰ p k) refl
contains-permᴰ (swap {a = a} {b = b} e f) k = rw (e, f) (ground arith)
contains-permᴰ (trans p q) k = contains-permᴰ p k ∙ contains-permᴰ q k

contains-perm :
    {l m : List (Bytes × Bytes)}
    → Perm l m
    → (k : Bytes) → contains (map first l) k ≡ contains (map first m) k
contains-perm {l} {m} p k =
    ∥∥₁_elim p (Bool-set (contains (map first l) k) (contains (map first m) k))
      (λ d. contains-permᴰ d k)

contains-with_key :
    (j : Bytes) (o : Option Bytes) (rest : List (Bytes × Bytes)) (k : Bytes)
    → contains (map first (with_key j o rest)) k
      ≡ ((bytes_eq j k && is_some o) || contains (map first rest) k)
contains-with_key j none rest k = ground arith
contains-with_key j (some v) rest k = ground arith

length-with_key :
    (j : Bytes) (o : Option Bytes) (rest : List (Bytes × Bytes))
    → length (with_key j o rest) ≡ (if is_some o then 1 else 0) + length rest
length-with_key j none rest = omega arith
length-with_key j (some v) rest = omega arith

contains-found :
    (f : Bytes → Option Bytes) (ks : List Bytes) (k : Bytes)
    → contains (map first (found f ks)) k ≡ (contains ks k && is_some (f k))
contains-found f [] k = refl
contains-found f (j ∷ ks) k =
    contains-with_key j (f j) (found f ks) k ∙ elim (Bool-cases (bytes_eq j k)) [
      | inl eq ↦
          let e : is_some (f j) ≡ is_some (f k) =
            ap (λ x. is_some (f x)) ((bytes_eq_iff j k).0 eq) in
          ground (arith, eq, e, contains-found f ks k)
      | inr ne ↦ ground (arith, ne, contains-found f ks k)
    ]

-- Pairs that agree with the values of their keys.
abbrev same_value : Option Bytes → Bytes → Bool
same_value none v = false
same_value (some w) v = bytes_eq w v

abbrev agrees : (Bytes → Option Bytes) → List (Bytes × Bytes) → Bool
agrees f [] = true
agrees f ((k, v) ∷ pairs) = same_value (f k) v && agrees f pairs

agrees-permᴰ :
    (f : Bytes → Option Bytes) {l m : List (Bytes × Bytes)} → Permᴰ l m → agrees f l ≡ agrees f m
agrees-permᴰ f nil = refl
agrees-permᴰ f (cons {a = a} {b = b} e p) = rw (e, agrees-permᴰ f p) refl
agrees-permᴰ f (swap {a = a} {b = b} e g) = rw (e, g) (ground arith)
agrees-permᴰ f (trans p q) = agrees-permᴰ f p ∙ agrees-permᴰ f q

agrees-perm :
    (f : Bytes → Option Bytes) {l m : List (Bytes × Bytes)} → Perm l m → agrees f l ≡ agrees f m
agrees-perm f {l} {m} p = ∥∥₁_elim p (Bool-set (agrees f l) (agrees f m)) (agrees-permᴰ f)

agrees-with_key :
    (f : Bytes → Option Bytes) (k : Bytes) (o : Option Bytes) (rest : List (Bytes × Bytes))
    → f k ≡ o
    → agrees f (with_key k o rest) ≡ agrees f rest
agrees-with_key f k none rest e = refl
agrees-with_key f k (some v) rest e = rw (e, bytes_eq_refl v) refl

agrees-found : (f : Bytes → Option Bytes) (ks : List Bytes) → agrees f (found f ks) ≡ true
agrees-found f [] = refl
agrees-found f (k ∷ ks) = agrees-with_key f k (f k) (found f ks) refl ∙ agrees-found f ks

some_of_same : (o : Option Bytes) (v : Bytes) → same_value o v ≡ true → o ≡ some v
some_of_same none v h = cc
some_of_same (some w) v h = ap some ((bytes_eq_iff w v).0 h)

later : Option Bytes → Option Bytes → Option Bytes
later o none = o
later o (some w) = some w

later-none : (o : Option Bytes) → later none o ≡ o
unfolding later
later-none none = refl
later-none (some w) = refl

later_same : (b : Bool) (v : Bytes) → later (some v) (if b then some v else none) ≡ some v
unfolding later
later_same true v = refl
later_same false v = refl

collected-later :
    (j v : Bytes) (l : List (Bytes × Bytes)) (k : Bytes)
    → collected ((j, v) ∷ l) k ≡ later (if bytes_eq j k then some v else none) (collected l k)
unfolding later
collected-later j v l k = elim (Option-cases (collected l k)) [
  | inl e ↦ rw e refl
  | inr (w, e) ↦ rw e refl
]

collected_of_agrees :
    (f : Bytes → Option Bytes) (l : List (Bytes × Bytes)) (k : Bytes)
    → agrees f l ≡ true
    → collected l k ≡ (if contains (map first l) k then f k else none)
unfolding later
collected_of_agrees f [] k h = refl
collected_of_agrees f ((j, v) ∷ l) k h =
    let rest = collected_of_agrees f l k (ground (arith, h)) in
    let here = some_of_same (f j) v (ground (arith, h)) in
    let below = if contains (map first l) k then f k else none in
    collected-later j v l k
    ∙ ap (λ o. later (if bytes_eq j k then some v else none) o) rest
    ∙ elim (Bool-cases (bytes_eq j k)) [
      | inl eq ↦
          let same : f k ≡ some v = ap f (sym ((bytes_eq_iff j k).0 eq)) ∙ here in
          rw (eq, same) (later_same (contains (map first l) k) v)
      | inr ne ↦ rw ne (later-none below)
    ]

-- How many of the keys have a value.
abbrev pub count_found : (Bytes → Option Bytes) → List Bytes → ℕ
count_found f [] = 0
count_found f (k ∷ ks) = (if is_some (f k) then 1 else 0) + count_found f ks

length-found : (f : Bytes → Option Bytes) (ks : List Bytes) → length (found f ks) ≡ count_found f ks
length-found f [] = refl
length-found f (k ∷ ks) =
    length-with_key k (f k) (found f ks)
    ∙ ap (λ n. (if is_some (f k) then 1 else 0) + n) (length-found f ks)

only_found :
    (b : Bool) (o : Option Bytes) → (if b && is_some o then o else none) ≡ (if b then o else none)
only_found true none = refl
only_found true (some v) = refl
only_found false o = refl

module _ (T : Txn) where
  pub length-batch_get :
      (s : T.State) (ks : List Bytes)
      → Distinct ks
      → length (T.batch_get s ks) ≡ count_found (T.get s) ks
  length-batch_get s ks h = length-perm (T.batch_get-perm s ks h) ∙ length-found (T.get s) ks

  -- The keys that a batch read finds are those of its keys that have a value.
  pub contains-batch_get :
      (s : T.State) (ks : List Bytes) (k : Bytes)
      → Distinct ks
      → contains (map first (T.batch_get s ks)) k ≡ (contains ks k && is_some (T.get s k))
  contains-batch_get s ks k h =
      contains-perm (T.batch_get-perm s ks h) k ∙ contains-found (T.get s) ks k

  -- The map made of a batch of different keys gives those keys their values.
  pub collected-batch_get :
      (s : T.State) (ks : List Bytes) (k : Bytes)
      → Distinct ks
      → collected (T.batch_get s ks) k ≡ (if contains ks k then T.get s k else none)
  collected-batch_get s ks k h =
      collected_of_agrees (T.get s) (T.batch_get s ks) k
        (agrees-perm (T.get s) (T.batch_get-perm s ks h) ∙ agrees-found (T.get s) ks)
      ∙ rw (contains-batch_get s ks k h) (only_found (contains ks k) (T.get s k))
