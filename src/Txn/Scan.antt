-- ===== src/Txn/Scan.antt =====
-- Pairs that are sorted by key: what a write and a deletion do to a scan.
use tidis.Base.{
  ◌≡◌, ◌∙◌, refl, sym, ap, ap₂, subst, inl, inr, Bool, true, false, Option, none, some, List, [],
  ◌∷◌, ◌&&◌, map, arith, if◌then◌else◌, Bool-cases, Ordering,
}
use tidis.Bytes.{Bytes, bytes_eq, lex}
use tidis.Bytes.Lex.{lex_refl, eq_of_lex, lex-gt, bytes_eq-lex, bytes_eq_iff, lex-swap}
use tidis.Encoding.Encode.{KeyRange}
use tidis.Encoding.Order.{in_range}
use tidis.Txn.{Txn, contains, is_some, find, first, Above, IsSorted}

abbrev pub insert : Bytes → Bytes → List (Bytes × Bytes) → List (Bytes × Bytes)
insert k v [] = (k, v) ∷ []
insert k v ((j, w) ∷ pairs) = elim (lex k j) [
  | Ordering.lt ↦ (k, v) ∷ (j, w) ∷ pairs
  | Ordering.eq ↦ (k, v) ∷ pairs
  | Ordering.gt ↦ (j, w) ∷ insert k v pairs
]

abbrev pub remove : Bytes → List (Bytes × Bytes) → List (Bytes × Bytes)
remove k [] = []
remove k ((j, w) ∷ pairs) = elim (lex k j) [
  | Ordering.lt ↦ (j, w) ∷ pairs
  | Ordering.eq ↦ pairs
  | Ordering.gt ↦ (j, w) ∷ remove k pairs
]

lex_trans : (x y z : Bytes) → lex x y ≡ Ordering.lt → lex y z ≡ Ordering.lt → lex x z ≡ Ordering.lt
unfolding lex
lex_trans [] [] z h k = cc
lex_trans [] (b ∷ y) [] h k = cc
lex_trans [] (b ∷ y) (c ∷ z) h k = refl
lex_trans (a ∷ x) [] z h k = cc
lex_trans (a ∷ x) (b ∷ y) [] h k = cc
lex_trans (a ∷ x) (b ∷ y) (c ∷ z) h k = ground (arith, lex_trans x y z)

-- How two keys can compare, with the other side's view.
pub data Compared (x y : Bytes) : Type 0 where
  before : lex x y ≡ Ordering.lt → lex y x ≡ Ordering.gt → Compared x y
  same : x ≡ y → Compared x y
  after : lex x y ≡ Ordering.gt → lex y x ≡ Ordering.lt → Compared x y

pub Compared-cases : (x y : Bytes) → Compared x y
Compared-cases x y = go (lex x y) refl
  where
    go : (o : Ordering) → lex x y ≡ o → Compared x y
    go Ordering.lt h = before h (lex-gt x y h)
    go Ordering.eq h = same (eq_of_lex x y h)
    go Ordering.gt h = after h (lex-swap x y ∙ rw h refl)

abbrev key_or : Bool → Bytes → Option Bytes → Option Bytes
key_or true v o = some v
key_or false v o = o

find-Above :
    (k : Bytes) (l : List (Bytes × Bytes)) (j : Bytes)
    → Above k l
    → lex j k ≡ Ordering.lt
    → find j l ≡ none
find-Above k [] j h b = refl
find-Above k ((i, w) ∷ l) j h b = ground (arith, lex_trans j k i b h)

find_self-Above : (k : Bytes) (l : List (Bytes × Bytes)) → Above k l → find k l ≡ none
find_self-Above k [] h = refl
find_self-Above k ((i, w) ∷ l) h = ground arith

find-insert_nil : (k v j : Bytes) → find j ((k, v) ∷ []) ≡ (if bytes_eq k j then some v else none)
find-insert_nil k v j = ground (arith, bytes_eq-lex k j, lex-swap k j)

pub find-insert :
    (k v : Bytes) (l : List (Bytes × Bytes)) (j : Bytes)
    → find j (insert k v l) ≡ (if bytes_eq k j then some v else find j l)
find-insert k v [] j = find-insert_nil k v j
find-insert k v ((i, w) ∷ l) j = elim (Compared-cases k i) [
  | before a b ↦ ground (arith, a, bytes_eq-lex k j, lex-swap k j, lex_trans j k i)
  | same e ↦ ground (arith, e, lex_refl i, bytes_eq-lex k j, lex-swap k j)
  | after a b ↦ ground (
    arith,
    a,
    bytes_eq-lex k j,
    lex-swap k j,
    find-insert k v l j,
    eq_of_lex j i,
    lex_trans j i k,
  )
]

find-remove :
    (k : Bytes) (l : List (Bytes × Bytes)) (j : Bytes)
    → IsSorted l
    → find j (remove k l) ≡ (if bytes_eq k j then none else find j l)
find-remove k [] j h = ground arith
find-remove k ((i, w) ∷ l) j h = elim (Compared-cases k i) [
  | before a b ↦ ground (arith, a, bytes_eq-lex k j, lex-swap k j, lex_trans j k i, eq_of_lex k j)
  | same e ↦ ground (
    arith,
    e,
    lex_refl i,
    bytes_eq-lex k j,
    lex-swap k j,
    find-Above i l j h.0,
    find_self-Above i l h.0,
    eq_of_lex k j,
  )
  | after a b ↦ ground (
    arith,
    a,
    bytes_eq-lex k j,
    lex-swap k j,
    find-remove k l j h.1,
    eq_of_lex j i,
    lex_trans j i k,
  )
]

Above-insert :
    (i k v : Bytes) (l : List (Bytes × Bytes))
    → lex i k ≡ Ordering.lt
    → Above i l
    → Above i (insert k v l)
Above-insert i k v [] h b = h
Above-insert i k v ((j, w) ∷ l) h b = elim (Compared-cases k j) [
  | before a _ ↦ ground (arith, a)
  | same e ↦ ground (arith, e, lex_refl j)
  | after a _ ↦ ground (arith, a)
]

Above-trans :
    (i k : Bytes) (l : List (Bytes × Bytes)) → lex i k ≡ Ordering.lt → Above k l → Above i l
Above-trans i k [] h b = tt
Above-trans i k ((j, w) ∷ l) h b = lex_trans i k j h b

Above-remove :
    (i k : Bytes) (l : List (Bytes × Bytes)) → IsSorted l → Above i l → Above i (remove k l)
Above-remove i k [] h b = tt
Above-remove i k ((j, w) ∷ l) h b = elim (Compared-cases k j) [
  | before a _ ↦ ground (arith, a)
  | same e ↦ ground (arith, e, lex_refl j, Above-trans i j l b h.0)
  | after a _ ↦ ground (arith, a)
]

pub insert-IsSorted :
    (k v : Bytes) (l : List (Bytes × Bytes)) → IsSorted l → IsSorted (insert k v l)
insert-IsSorted k v [] h = (tt, tt)
insert-IsSorted k v ((j, w) ∷ l) h = elim (Compared-cases k j) [
  | before a _ ↦ rw (a, insert) (a, h)
  | same e ↦ rw (e, lex_refl j, insert) (subst (λ x. Above x l) (sym e) h.0, h.1)
  | after a b ↦ rw (a, insert) (Above-insert j k v l b h.0, insert-IsSorted k v l h.1)
]

remove-IsSorted : (k : Bytes) (l : List (Bytes × Bytes)) → IsSorted l → IsSorted (remove k l)
remove-IsSorted k [] h = tt
remove-IsSorted k ((j, w) ∷ l) h = elim (Compared-cases k j) [
  | before a _ ↦ rw (a, remove) h
  | same e ↦ rw (e, lex_refl j, remove) h.1
  | after a b ↦ rw (a, remove) (Above-remove j k l h.1 h.0, remove-IsSorted k l h.1)
]

-- Sorted pairs are equal when they give every key the same value.
pub sorted_ext :
    (l m : List (Bytes × Bytes))
    → IsSorted l
    → IsSorted m
    → ((k : Bytes) → find k l ≡ find k m)
    → l ≡ m
sorted_ext [] [] h k e = refl
sorted_ext [] ((j, w) ∷ m) h k e = absurd (ground (arith, lex_refl j, e j))
sorted_ext ((i, v) ∷ l) [] h k e = absurd (ground (arith, lex_refl i, e i))
sorted_ext ((i, v) ∷ l) ((j, w) ∷ m) h k e = elim (Compared-cases i j) [
  | before a b ↦ absurd (ground (arith, a, lex_refl i, e i))
  | after a b ↦ absurd (ground (arith, b, lex_refl j, e j))
  | same s ↦
      let same_value : v ≡ w = ground (arith, s, lex_refl j, e j) in
      let rest : (x : Bytes) → find x l ≡ find x m = λ x. elim (Compared-cases x i) [
        | before a b ↦ find-Above i l x h.0 a ∙ sym (find-Above j m x k.0 (rw (← s) a))
        | same t ↦ ground (arith, t, s, find_self-Above i l h.0, find_self-Above j m k.0)
        | after a b ↦ ground (arith, a, s, e x)
      ] in
      rw (s, same_value) (ap (λ t. (j, w) ∷ t) (sorted_ext l m h.1 k.1 rest))
]

pub contains-first :
    (l : List (Bytes × Bytes)) (k : Bytes)
    → IsSorted l
    → contains (map first l) k ≡ is_some (find k l)
contains-first [] k h = refl
contains-first ((i, v) ∷ l) k h = elim (Compared-cases k i) [
  | before a b ↦
      ground (arith, a, b, bytes_eq-lex i k, contains-first l k h.1, find-Above i l k h.0 a)
  | same e ↦ ground (arith, e, lex_refl i, bytes_eq-lex i k)
  | after a b ↦ ground (arith, a, b, bytes_eq-lex i k, contains-first l k h.1)
]

pub if_IsSorted :
    (b : Bool) (l m : List (Bytes × Bytes))
    → IsSorted l
    → IsSorted m
    → IsSorted (if b then l else m)
if_IsSorted true l m h k = h
if_IsSorted false l m h k = k

pub if_find :
    (b : Bool) (l m : List (Bytes × Bytes)) (j : Bytes)
    → find j (if b then l else m) ≡ (if b then find j l else find j m)
if_find true l m j = refl
if_find false l m j = refl

in_range-same : (r : KeyRange) (k j : Bytes) → bytes_eq k j ≡ true → in_range r j ≡ in_range r k
in_range-same r k j h = ap (λ x. in_range r x) (sym ((bytes_eq_iff k j).0 h))

-- What one written or deleted pair does to the value that a scan has for `j`.
pub find_changed :
    (r : KeyRange) (k j : Bytes) (o old : Option Bytes)
    → (if in_range r j then (if bytes_eq k j then o else old) else none) ≡ (
        if in_range r k
        then (if bytes_eq k j then o else (if in_range r j then old else none))
        else (if in_range r j then old else none))
find_changed r k j o old = elim (Bool-cases (bytes_eq k j)) [
  | inl eq ↦ ground (arith, eq, in_range-same r k j eq)
  | inr other ↦ ground (arith, other)
]

module _ (T : Txn) where
  pub scan-put :
      (s : T.State) (k v : Bytes) (r : KeyRange)
      → T.scan (T.put s k v) r ≡ (if in_range r k then insert k v (T.scan s r) else T.scan s r)
  scan-put s k v r =
      sorted_ext (T.scan (T.put s k v) r)
        (if in_range r k then insert k v (T.scan s r) else T.scan s r)
        (T.scan-IsSorted (T.put s k v) r)
        (if_IsSorted (in_range r k) (insert k v (T.scan s r)) (T.scan s r)
          (insert-IsSorted k v (T.scan s r) (T.scan-IsSorted s r)) (T.scan-IsSorted s r))
        (λ j.
          T.find-scan (T.put s k v) r j
          ∙ ap (λ o. if in_range r j then o else none) (T.get-put s k v j)
          ∙ find_changed r k j (some v) (T.get s j)
          ∙ sym (
              if_find (in_range r k) (insert k v (T.scan s r)) (T.scan s r) j
              ∙ ap₂ (λ a b. if in_range r k then a else b)
                  (find-insert k v (T.scan s r) j
                    ∙ ap (λ o. if bytes_eq k j then some v else o) (T.find-scan s r j))
                  (T.find-scan s r j)))

  pub scan-delete :
      (s : T.State) (k : Bytes) (r : KeyRange)
      → T.scan (T.delete s k) r ≡ (if in_range r k then remove k (T.scan s r) else T.scan s r)
  scan-delete s k r =
      sorted_ext (T.scan (T.delete s k) r)
        (if in_range r k then remove k (T.scan s r) else T.scan s r)
        (T.scan-IsSorted (T.delete s k) r)
        (if_IsSorted (in_range r k) (remove k (T.scan s r)) (T.scan s r)
          (remove-IsSorted k (T.scan s r) (T.scan-IsSorted s r)) (T.scan-IsSorted s r))
        (λ j.
          T.find-scan (T.delete s k) r j
          ∙ ap (λ o. if in_range r j then o else none) (T.get-delete s k j)
          ∙ find_changed r k j none (T.get s j)
          ∙ sym (
              if_find (in_range r k) (remove k (T.scan s r)) (T.scan s r) j
              ∙ ap₂ (λ a b. if in_range r k then a else b)
                  (find-remove k (T.scan s r) j (T.scan-IsSorted s r)
                    ∙ ap (λ o. if bytes_eq k j then none else o) (T.find-scan s r j))
                  (T.find-scan s r j)))

  pub contains-scan_keys :
      (s : T.State) (r : KeyRange) (k : Bytes)
      → contains (T.scan_keys s r) k ≡ (in_range r k && is_some (T.get s k))
  contains-scan_keys s r k =
      rw
        (
          T.scan_keys-scan s r,
          contains-first (T.scan s r) k (T.scan-IsSorted s r),
          T.find-scan s r k,
        )
        (ground arith)
