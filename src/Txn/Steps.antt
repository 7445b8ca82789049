-- ===== src/Txn/Steps.antt =====
-- The steps of a transaction that the commands on hashes and sets are made of.
use tidis.Base.{
  inl, inr, Bool-cases, ◌≡◌, refl, Bool, true, false, Option, none, some, List, [], ◌∷◌, ◌&&◌, ◌∙◌,
  map, arith, if◌then◌else◌,
}
use tidis.Bytes.{Bytes, bytes_eq}
use tidis.Encoding.Encode.{KeyRange}
use tidis.Encoding.Order.{in_range}
use tidis.Txn.{Txn, contains, first, is_some}
use tidis.Txn.Exec.{Exec, gets, modify}
use tidis.Txn.Scan.{scan-put, scan-delete, contains-scan_keys, sorted_ext}

-- The value of a key in the hash map that is made of a batch; a later pair takes an earlier one's place
abbrev pub collected : List (Bytes × Bytes) → Bytes → Option Bytes
collected [] k = none
collected ((j, v) ∷ pairs) k = elim (collected pairs k) [
  | none ↦ if bytes_eq j k then some v else none
  | some w ↦ some w
]

-- Keys outside a range do not change what a scan of it finds.
abbrev pub Outside : KeyRange → List Bytes → Type 0
Outside r [] = Unit
Outside r (k ∷ ks) = (in_range r k ≡ false) × Outside r ks

cleared :
    (b : Bool) (o : Option Bytes) → (if b && is_some o then none else o) ≡ (if b then none else o)
cleared true none = refl
cleared true (some v) = refl
cleared false o = refl

module _ (T : Txn) where
  abbrev pub read : Bytes → Exec T.State (Option Bytes)
  read k = gets (λ s. T.get s k)

  abbrev pub write : Bytes → Bytes → Exec T.State (Unit {0})
  write k v = modify (λ s. T.put s k v)

  abbrev pub delete : Bytes → Exec T.State (Unit {0})
  delete k = modify (λ s. T.delete s k)

  abbrev pub put_all : List (Bytes × Bytes) → T.State → T.State
  put_all [] s = s
  put_all ((k, v) ∷ pairs) s = put_all pairs (T.put s k v)

  abbrev pub delete_keys : List Bytes → T.State → T.State
  delete_keys [] s = s
  delete_keys (k ∷ ks) s = delete_keys ks (T.delete s k)

  pub get-delete_keys :
      (ks : List Bytes) (s : T.State) (k : Bytes)
      → T.get (delete_keys ks s) k ≡ (if contains ks k then none else T.get s k)
  get-delete_keys [] s k = refl
  get-delete_keys (j ∷ ks) s k =
      ground (arith, get-delete_keys ks (T.delete s j) k, T.get-delete s j k)

  pub scan-put_all :
      (pairs : List (Bytes × Bytes)) (s : T.State) (r : KeyRange)
      → Outside r (map first pairs)
      → T.scan (put_all pairs s) r ≡ T.scan s r
  scan-put_all [] s r h = refl
  scan-put_all ((k, v) ∷ pairs) s r h =
      rw (scan-put_all pairs (T.put s k v) r h.1, scan-put T s k v r, h.0) refl

  pub scan-delete_keys :
      (ks : List Bytes) (s : T.State) (r : KeyRange)
      → Outside r ks
      → T.scan (delete_keys ks s) r ≡ T.scan s r
  scan-delete_keys [] s r h = refl
  scan-delete_keys (k ∷ ks) s r h =
      rw (scan-delete_keys ks (T.delete s k) r h.1, scan-delete T s k r, h.0) refl

  -- Deleting all keys of a range.
  abbrev pub clear : KeyRange → T.State → T.State
  clear r s = delete_keys (T.scan_keys s r) s

  pub get-clear :
      (r : KeyRange) (s : T.State) (k : Bytes)
      → T.get (clear r s) k ≡ (if in_range r k then none else T.get s k)
  get-clear r s k =
      get-delete_keys (T.scan_keys s r) s k
      ∙ rw (contains-scan_keys T s r k) (cleared (in_range r k) (T.get s k))

  pub scan_none :
      (r : KeyRange) (s : T.State)
      → ((k : Bytes) → in_range r k ≡ true → T.get s k ≡ none)
      → T.scan s r ≡ []
  scan_none r s h = sorted_ext (T.scan s r) [] (T.scan-IsSorted s r) tt (λ k.
      T.find-scan s r k
      ∙ elim (Bool-cases (in_range r k)) [ inl e ↦ rw (e, h k e) refl | inr e ↦ rw e refl ])

  pub scan-clear : (r : KeyRange) (s : T.State) → T.scan (clear r s) r ≡ []
  scan-clear r s = scan_none r (clear r s) (λ k e. get-clear r s k ∙ rw e refl)
