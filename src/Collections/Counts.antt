-- ===== src/Collections/Counts.antt =====
-- How many of the items that a command names are new.
use tidis.Base.{ℕ, ◌-◌, ◌<◌, ◌≤◌, ◌≡◌, ◌≢◌, refl, List, [], ◌∷◌, length, arith}
use tidis.Bytes.{Bytes, u16_mod, u64_mod, sub64}
use tidis.Encoding.Encode.{data_type_meta}
use tidis.Config.{Settings}
use tidis.Txn.{Txn, Distinct}
use tidis.Txn.Batch.{count_found, length-batch_get}
use tidis.Collections.{count_unique_keys}
use tidis.Collections.Items.{with_items, count_in, length-with_items, count_unique_keys-Distinct}
use tidis.Collections.Holds.{Items, item_keys}
use tidis.Collections.Changes.{item_keys-Distinct}

pub count_in_le : (xs ms : List Bytes) → count_in xs ms ≤ length xs
count_in_le [] ms = omega arith
count_in_le (x ∷ xs) ms = ground (arith, count_in_le xs ms)

pub length-le-with_items : (xs ms : List Bytes) → length ms ≤ length (with_items xs ms)
length-le-with_items [] ms = omega arith
length-le-with_items (x ∷ xs) ms = ground (arith, length-le-with_items xs ms)

module _ (c : Settings) (T : Txn) (t : ℕ) where
  length-item_keys :
      (key : Bytes) (version : ℕ) (xs : List Bytes)
      → length (item_keys c t key version xs) ≡ length xs
  length-item_keys key version [] = refl
  length-item_keys key version (x ∷ xs) = omega (arith, length-item_keys key version xs)

  pub count-Items :
      (key : Bytes) (version : ℕ) (s : T.State) (xs ms : List Bytes)
      → Items c T t s key version ms
      → count_found (T.get s) (item_keys c t key version xs) ≡ count_in xs ms
  count-Items key version s [] ms h = refl
  count-Items key version s (x ∷ xs) ms h = rw (h.present x, count-Items key version s xs ms h) refl

  pub new-Items :
      (apart : t ≢ data_type_meta) (key : Bytes) (version : ℕ) (hv : version < u16_mod)
      (s : T.State) (xs ms : List Bytes)
      → Items c T t s key version ms
      → Distinct xs
      → length (with_items xs ms) < u64_mod
      → let keys = item_keys c t key version xs in
        (sub64 (count_unique_keys keys) (length (T.batch_get s keys)) ≡ length xs - count_in xs ms)
  new-Items apart key version hv s xs ms h hx hb =
      let keys = item_keys c t key version xs in
      let different = item_keys-Distinct c t apart key version hv xs hx in
      rw
        (
          count_unique_keys-Distinct keys different,
          length-item_keys key version xs,
          length-batch_get T s keys different,
          count-Items key version s xs ms h,
        )
        (omega (arith, count_in_le xs ms, length-with_items xs ms, length-le-with_items xs ms))
