-- ===== src/Collections/Taken.antt =====
-- Deleting items of a collection: what is left of it.
use tidis.Base.{
  ℕ, ◌<◌, ◌≢◌, ◌^◌, ◌≡◌, ◌∙◌, refl, ap, true, false, inl, inr, Bool-cases, List, [], ◌∷◌, map,
  length, arith, ltb,
}
use tidis.Base.Int.{ltb_ℤ}
use tidis.Bytes.{Bytes}
use tidis.Encoding.{DataType}
use tidis.Encoding.Encode.{data_type_meta}
use tidis.Frame.{as_i64}
use tidis.Config.{Settings}
use tidis.Txn.{Txn, contains, first, Distinct}
use tidis.Txn.Exec.{ok}
use tidis.Txn.Steps.{delete_keys}
use tidis.Txn.Batch.{length-batch_get, contains-batch_get}
use tidis.Collections.{take_off, meta_key, delete_sizes, lower_size}
use tidis.Collections.Items.{without_items, count_in, length-without_items}
use tidis.Collections.Holds.{as_i64_small, Holds, Holds-changed, Gone, item_keys}
use tidis.Collections.Changes.{Items-deleted, deleted_present, item_keys-Distinct}
use tidis.Collections.Counts.{count-Items}
use tidis.Collections.Gone.{emptied}

contains_none : (l : List Bytes) (i : Bytes) → length l ≡ 0 → contains l i ≡ false
contains_none [] i h = refl
contains_none (x ∷ l) i h = absurd (omega (arith, h))

module _ (c : Settings) (T : Txn) (dt : DataType) (t : ℕ) (apart : t ≢ data_type_meta) where
  -- What a collection of `ms` is: with no items, there is none.
  abbrev pub Left : T.State → Bytes → ℕ → ℕ → List Bytes → Type 0
  Left s key ttl version [] = Gone c T t s key version
  Left s key ttl version (m ∷ ms) = Holds c T dt t s key ttl version (m ∷ ms)

  Left-filled :
      (s : T.State) (key : Bytes) (ttl version : ℕ) (ms : List Bytes)
      → Holds c T dt t s key ttl version ms
      → Left s key ttl version ms
  Left-filled s key ttl version [] h = absurd (omega (arith, h.filled))
  Left-filled s key ttl version (m ∷ ms) h = h

  Left-empty :
      (s : T.State) (key : Bytes) (ttl version : ℕ) (ms : List Bytes)
      → length ms ≡ 0
      → Gone c T t s key version
      → Left s key ttl version ms
  Left-empty s key ttl version [] e h = h
  Left-empty s key ttl version (m ∷ ms) e h = absurd (omega (arith, e))

  take_off_some :
      (key : Bytes) (version idx n size : ℕ) (s : T.State)
      → n < size
      → size < 2 ^ 63
      → take_off c T key version idx n size s ≡ lower_size c T key version idx n s
  unfolding take_off
  take_off_some key version idx n size s h hb =
      let p : ltb_ℤ (as_i64 n) (as_i64 size) ≡ true =
        rw (as_i64_small n (omega (arith, h, hb)), as_i64_small size hb) (ground (arith, h)) in
      rw p refl

  take_off_all :
      (key : Bytes) (version idx n : ℕ) (s : T.State)
      → take_off c T key version idx n n s
        ≡ (ok tt, delete_sizes c T key version (T.delete s (meta_key c T key)))
  unfolding take_off
  take_off_all key version idx n s =
      let p : ltb_ℤ (as_i64 n) (as_i64 n) ≡ false = ground arith in rw p refl

  -- A lookup of the items `xs`, the deletion of what it finds, and the change of the counters.
  pub taken :
      (key : Bytes) (xs ms : List Bytes) (idx ttl version : ℕ) (s : T.State)
      → Holds c T dt t s key ttl version ms
      → Distinct xs
      → let pairs = T.batch_get s (item_keys c t key version xs) in
        (length pairs ≡ count_in xs ms)
        × ((s' : T.State) × (take_off c T key version idx
                (length pairs)
                (length ms)
                (delete_keys T (map first pairs) s)
              ≡ (ok tt, s'))
            × Left s' key ttl version (without_items xs ms))
  taken key xs ms idx ttl version s h hx =
      let hv = h.version_lt in
      let keys = item_keys c t key version xs in
      let different = item_keys-Distinct c t apart key version hv xs hx in
      let pairs = T.batch_get s keys in
      let n : length pairs ≡ count_in xs ms =
        length-batch_get T s keys different ∙ count-Items c T t key version s xs ms h.inside in
      let s1 = delete_keys T (map first pairs) s in
      let which = λ (k : Bytes). contains-batch_get T s keys k different in
      let total = length-without_items xs ms hx h.inside.distinct in
      elim (Bool-cases (ltb (count_in xs ms) (length ms))) [
        | inl some_left ↦
            let (s', lowered, items, metas) =
              Items-deleted c t apart key version hv T s (map first pairs) xs ms (count_in xs ms)
                idx h.inside which total (omega (arith, h.room)) in
            (
              n,
              (
                s',
                ap (λ m. take_off c T key version idx m (length ms) s1) n
                    ∙ take_off_some key version idx (count_in xs ms) (length ms) s1
                        (ground (arith, some_left)) h.room
                    ∙ lowered,
                Left-filled s' key ttl version (without_items xs ms) (
                    Holds-changed c T dt t s s' key ttl version ms (without_items xs ms) h items
                      (metas key) (ground (arith, total, some_left))
                      (omega (arith, total, h.room))),
              ),
            )
        | inr none_left ↦
            let same : count_in xs ms ≡ length ms = ground (arith, none_left, total) in
            let empty : length (without_items xs ms) ≡ 0 = omega (arith, total, same) in
            let s' = delete_sizes c T key version (T.delete s1 (meta_key c T key)) in
            (
              n,
              (
                s',
                rw (n, same) (take_off_all key version idx (length ms) s1),
                Left-empty s' key ttl version (without_items xs ms) empty (
                    emptied c T t apart key version hv s1 (λ i.
                      deleted_present c t apart key version hv T s (map first pairs) xs ms h.inside
                        which i
                      ∙ contains_none (without_items xs ms) i empty)),
              ),
            )
      ]
