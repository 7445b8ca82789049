-- ===== src/Txn/Store.antt =====
-- A transaction over an association list, which shows that the interface can be met.
use mathlib.Core.List.Perm
use tidis.Base.{◌≡◌, ◌∙◌, refl, sym, map, Option, none, some, List, [], ◌∷◌, arith, if◌then◌else◌}
use tidis.Bytes.{Bytes, bytes_eq}
use tidis.Bytes.Lex.{bytes_eq_iff}
use tidis.Encoding.Encode.{KeyRange}
use tidis.Encoding.Order.{in_range}
use tidis.Txn.{Txn, found, find, first, IsSorted}
use tidis.Txn.Scan.{insert, insert-IsSorted, find-insert, if_IsSorted, if_find, find_changed}

abbrev pub Table : Type 0
Table = List (Bytes × Bytes)

abbrev pub lookup : Table → Bytes → Option Bytes
lookup [] j = none
lookup ((k, v) ∷ s) j = if bytes_eq k j then some v else lookup s j

abbrev pub without : Table → Bytes → Table
without [] j = []
without ((k, v) ∷ s) j = let rest = without s j in if bytes_eq k j then rest else (k, v) ∷ rest

abbrev pub scan : Table → KeyRange → List (Bytes × Bytes)
scan [] r = []
scan ((k, v) ∷ s) r = let rest = scan s r in if in_range r k then insert k v rest else rest

pub lookup-without :
    (s : Table) (k j : Bytes) → lookup (without s k) j ≡ (if bytes_eq k j then none else lookup s j)
lookup-without [] k j = ground arith
lookup-without ((i, v) ∷ s) k j =
    ground (arith, lookup-without s k j, bytes_eq_iff i k, bytes_eq_iff i j, bytes_eq_iff k j)

pub scan-IsSorted : (s : Table) (r : KeyRange) → IsSorted (scan s r)
scan-IsSorted [] r = tt
scan-IsSorted ((k, v) ∷ s) r =
    if_IsSorted (in_range r k) (insert k v (scan s r)) (scan s r)
      (insert-IsSorted k v (scan s r) (scan-IsSorted s r)) (scan-IsSorted s r)

pub find-scan :
    (s : Table) (r : KeyRange) (j : Bytes)
    → find j (scan s r) ≡ (if in_range r j then lookup s j else none)
find-scan [] r j = ground arith
find-scan ((k, v) ∷ s) r j =
    if_find (in_range r k) (insert k v (scan s r)) (scan s r) j
    ∙ rw (find-insert k v (scan s r) j, find-scan s r j)
        (sym (find_changed r k j (some v) (lookup s j)))

abbrev pub store : Txn
store = record {
  State = Table;
  get = lookup;
  put = λ s k v. (k, v) ∷ s;
  delete = without;
  batch_get = λ s ks. found (lookup s) ks;
  scan = scan;
  scan_keys = λ s r. map first (scan s r);
  get-put = λ s k v j. refl;
  get-delete = λ s k j. lookup-without s k j;
  batch_get-perm = λ s ks h. Perm.refl (found (lookup s) ks);
  find-scan = find-scan;
  scan-IsSorted = scan-IsSorted;
  scan_keys-scan = λ s r. refl;
}
