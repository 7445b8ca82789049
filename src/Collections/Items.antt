-- ===== src/Collections/Items.antt =====
-- Lists of different items: union, difference, and their lengths.
use tidis.Base.{
  ℕ, ◌+◌, ◌≡◌, refl, ap, true, false, List, [], ◌∷◌, ◌&&◌, ◌||◌, not, length, arith, if◌then◌else◌,
}
use tidis.Bytes.{Bytes, bytes_eq}
use tidis.Bytes.Lex.{bytes_eq_iff, bytes_eq_sym}
use tidis.Txn.{contains, Distinct}
use tidis.Collections.{count_unique_keys}

-- The items `xs` put before those of `ms` that they are not yet among.
abbrev pub with_items : List Bytes → List Bytes → List Bytes
with_items [] ms = ms
with_items (x ∷ xs) ms = let rest = with_items xs ms in if contains ms x then rest else x ∷ rest

abbrev pub without_items : List Bytes → List Bytes → List Bytes
without_items xs [] = []
without_items xs (m ∷ ms) =
    let rest = without_items xs ms in if contains xs m then rest else m ∷ rest

-- How many of the items `xs` are among `ms`.
abbrev pub count_in : List Bytes → List Bytes → ℕ
count_in [] ms = 0
count_in (x ∷ xs) ms = (if contains ms x then 1 else 0) + count_in xs ms

contains-same :
    (ms : List Bytes) (x k : Bytes) → bytes_eq x k ≡ true → contains ms x ≡ contains ms k
contains-same ms x k e = ap (λ y. contains ms y) ((bytes_eq_iff x k).0 e)

pub with_items-nil : (xs : List Bytes) → with_items xs [] ≡ xs
with_items-nil [] = refl
with_items-nil (x ∷ xs) = ap (λ l. x ∷ l) (with_items-nil xs)

pub contains-with_items :
    (xs ms : List Bytes) (k : Bytes)
    → contains (with_items xs ms) k ≡ (contains xs k || contains ms k)
contains-with_items [] ms k = refl
contains-with_items (x ∷ xs) ms k =
    ground (arith, contains-with_items xs ms k, contains-same ms x k)

pub contains-without_items :
    (xs ms : List Bytes) (k : Bytes)
    → contains (without_items xs ms) k ≡ (contains ms k && not (contains xs k))
contains-without_items xs [] k = refl
contains-without_items xs (m ∷ ms) k =
    ground (arith, contains-without_items xs ms k, contains-same xs m k)

pub with_items-Distinct :
    (xs ms : List Bytes) → Distinct xs → Distinct ms → Distinct (with_items xs ms)
with_items-Distinct [] ms h k = k
with_items-Distinct (x ∷ xs) ms h k =
    ground (arith, with_items-Distinct xs ms h.1 k, contains-with_items xs ms x)

pub without_items-Distinct : (xs ms : List Bytes) → Distinct ms → Distinct (without_items xs ms)
without_items-Distinct xs [] h = tt
without_items-Distinct xs (m ∷ ms) h =
    ground (arith, without_items-Distinct xs ms h.1, contains-without_items xs ms m)

pub length-with_items :
    (xs ms : List Bytes) → length (with_items xs ms) + count_in xs ms ≡ length xs + length ms
length-with_items [] ms = omega arith
length-with_items (x ∷ xs) ms = ground (arith, length-with_items xs ms)

pub count_in-nil : (xs : List Bytes) → count_in xs [] ≡ 0
count_in-nil [] = refl
count_in-nil (x ∷ xs) = ground (arith, count_in-nil xs)

count_in-absent :
    (xs ms : List Bytes) (m : Bytes) → contains xs m ≡ false → count_in xs (m ∷ ms) ≡ count_in xs ms
count_in-absent [] ms m h = refl
count_in-absent (x ∷ xs) ms m h = ground (arith, count_in-absent xs ms m, bytes_eq_sym x m)

count_in-present :
    (xs ms : List Bytes) (m : Bytes)
    → Distinct xs
    → contains ms m ≡ false
    → contains xs m ≡ true
    → count_in xs (m ∷ ms) ≡ count_in xs ms + 1
count_in-present [] ms m h k p = cc
count_in-present (x ∷ xs) ms m h k p = ground (
  arith,
  count_in-present xs ms m,
  count_in-absent xs ms m,
  bytes_eq_sym x m,
  contains-same xs x m,
  contains-same ms x m,
)

pub length-without_items :
    (xs ms : List Bytes)
    → Distinct xs
    → Distinct ms
    → length (without_items xs ms) + count_in xs ms ≡ length ms
length-without_items xs [] h k = omega (arith, count_in-nil xs)
length-without_items xs (m ∷ ms) h k = ground (
  arith,
  length-without_items xs ms h k.1,
  count_in-absent xs ms m,
  count_in-present xs ms m h k.0,
)

pub count_unique_keys-Distinct : (ks : List Bytes) → Distinct ks → count_unique_keys ks ≡ length ks
count_unique_keys-Distinct [] h = refl
count_unique_keys-Distinct (k ∷ ks) h = ground (arith, count_unique_keys-Distinct ks h.1)
