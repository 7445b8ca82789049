-- ===== src/Txn.antt =====
-- The transaction of the TiKV client (`tikv_client::Transaction`), which is not part of this
-- repository, as an interface: its calls and what the code relies on. The calls are taken not to
-- fail. A scan is taken without its limit of `u32::MAX` pairs.
pub mod Exec
pub mod Store
pub mod Scan
pub mod Steps
pub mod Batch
use tidis.Base.{
  ◌≡◌, Bool, true, false, Option, none, some, List, [], ◌∷◌, ◌&&◌, ◌||◌, map, Ordering,
  if◌then◌else◌,
}
use mathlib.Core.List.{Perm}
use tidis.Bytes.{Bytes, bytes_eq, lex}
use tidis.Encoding.Encode.{KeyRange}
use tidis.Encoding.Order.{in_range}

abbrev pub contains : List Bytes → Bytes → Bool
contains [] k = false
contains (j ∷ js) k = bytes_eq j k || contains js k

abbrev pub is_some : Option Bytes → Bool
is_some none = false
is_some (some v) = true

abbrev pub with_key : Bytes → Option Bytes → List (Bytes × Bytes) → List (Bytes × Bytes)
with_key k none rest = rest
with_key k (some v) rest = (k, v) ∷ rest

-- the pairs of those of the keys that `read` finds
abbrev pub found : (Bytes → Option Bytes) → List Bytes → List (Bytes × Bytes)
found read [] = []
found read (k ∷ ks) = with_key k (read k) (found read ks)

-- Different keys.
abbrev pub Distinct : List Bytes → Type 0
Distinct [] = Unit
Distinct (k ∷ ks) = (contains ks k ≡ false) × Distinct ks

-- The value of a key in pairs that are sorted by key.
abbrev pub find : Bytes → List (Bytes × Bytes) → Option Bytes
find k [] = none
find k ((j, v) ∷ pairs) = elim (lex k j) [
  | Ordering.lt ↦ none
  | Ordering.eq ↦ some v
  | Ordering.gt ↦ find k pairs
]

abbrev pub Above : Bytes → List (Bytes × Bytes) → Type 0
Above k [] = Unit
Above k ((j, v) ∷ pairs) = lex k j ≡ Ordering.lt

abbrev pub IsSorted : List (Bytes × Bytes) → Type 0
IsSorted [] = Unit
IsSorted ((k, v) ∷ pairs) = Above k pairs × IsSorted pairs

abbrev pub first : Bytes × Bytes → Bytes
first p = p.0

pub record Txn : Type 1 where
  pub State : Type 0
  pub get : State → Bytes → Option Bytes
  pub put : State → Bytes → Bytes → State
  pub delete : State → Bytes → State
  pub batch_get : State → List Bytes → List (Bytes × Bytes)
  pub scan : State → KeyRange → List (Bytes × Bytes)
  pub scan_keys : State → KeyRange → List Bytes
  pub get-put :
      (s : State) (k v j : Bytes) → get (put s k v) j ≡ (if bytes_eq k j then some v else get s j)
  pub get-delete :
      (s : State) (k j : Bytes) → get (delete s k) j ≡ (if bytes_eq k j then none else get s j)
  -- for different keys; the client does not keep their order
  pub batch_get-perm :
      (s : State) (ks : List Bytes) → Distinct ks → Perm (batch_get s ks) (found (get s) ks)
  -- a scan gives the pairs of its range in the order of their keys
  pub find-scan :
      (s : State) (r : KeyRange) (k : Bytes)
      → find k (scan s r) ≡ (if in_range r k then get s k else none)
  pub scan-IsSorted : (s : State) (r : KeyRange) → IsSorted (scan s r)
  pub scan_keys-scan : (s : State) (r : KeyRange) → scan_keys s r ≡ map first (scan s r)
