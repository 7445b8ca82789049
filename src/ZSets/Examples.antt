-- ===== src/ZSets/Examples.antt =====
-- The sorted set theorems at a concrete store, and tests of the commands. The scores are the patterns of
-- 1.0, 2.0 and -3.0.
use tidis.Base.{ℕ, ◌+◌, List, Option, ◌≢◌, ◌≡◌, refl, true, false, none, some, [], ◌∷◌, arith}
use tidis.Base.Int.{pos}
use tidis.Bytes.{Bytes, bytes_eq, u64_be}
use tidis.Frame.{resp_int, resp_bulk}
use tidis.Config.{key_is_expired, async_deletion_enabled_or_default}
use tidis.Version.{get_version_for_new}
use tidis.Txn.{Distinct}
use tidis.Txn.Exec.{ok}
use tidis.Txn.Store.{Table, store}
use tidis.Lists.Examples.{settings, name, a}
use tidis.ZSets.{zcard}
use tidis.ZSets.Put.{zadd}
use tidis.ZSets.Look.{zscore}
use tidis.ZSets.Index.{Indexed}
use tidis.ZSets.Add.{scored, count_new, count_changed, AllScores}
use tidis.ZSets.New.{no_scores, zadd_new_lem}
use tidis.ZSets.Laws.{ZHolds, zadd_live_lem, zset_reads}

abbrev b : Bytes
b = b'b' ∷ []

abbrev one : ℕ
one = 0x3ff0000000000000

abbrev two : ℕ
two = 0x4000000000000000

abbrev minus_three : ℕ
minus_three = 0xc008000000000000

abbrev first_pairs : List (Bytes × ℕ)
first_pairs = (a, one) ∷ (b, minus_three) ∷ []

a_then_b : Distinct (a ∷ b ∷ [])
unfolding bytes_eq
a_then_b = (refl, (refl, tt))

none-some : (x : ℕ) → none ≢ some x
none-some x e = cc

nothing-Indexed : Indexed settings store name 0 [] no_scores
nothing-Indexed = record {
  score_at = λ m. refl;
  entry_at = λ u m h. refl;
  numbers = λ m x e. absurd (none-some x e);
}

version_found : get_version_for_new settings store name [] ≡ (ok 0, [])
unfolding get_version_for_new async_deletion_enabled_or_default
version_found = refl

fresh : key_is_expired 9 0 ≡ false
unfolding key_is_expired
fresh = refl

first_scores : AllScores first_pairs
first_scores = ((omega arith, refl), ((omega arith, refl), tt))

zadd_new_lem_example :
    let (reply, s') = zadd settings store 9 name first_pairs (some false) false 3 [] in
    (reply ≡ ok (resp_int (pos 2)))
    × ZHolds settings store s' name 0 0 (scored none no_scores first_pairs) 2
zadd_new_lem_example =
    zadd_new_lem settings store 9 name first_pairs (some false) false 3 0 [] refl version_found
      (omega arith) nothing-Indexed refl (omega arith) a_then_b first_scores (λ e. cc) (omega arith)
      (omega arith)

-- The store in which the key holds `a` at 1.0 and `b` at -3.0.
abbrev pub stored : Table
stored = (zadd settings store 9 name first_pairs (some false) false 3 []).1

abbrev pub first_set : Bytes → Option ℕ
first_set = scored none no_scores first_pairs

pub holds : ZHolds settings store stored name 0 0 first_set 2
holds =
    (zadd_new_lem settings store 9 name first_pairs (some false) false 3 0 [] refl version_found
      (omega arith) nothing-Indexed refl (omega arith) a_then_b first_scores (λ e. cc) (omega arith)
      (omega arith)).1

abbrev d : Bytes
d = b'd' ∷ []

abbrev more : List (Bytes × ℕ)
more = (a, two) ∷ (d, one) ∷ []

a_then_d : Distinct (a ∷ d ∷ [])
unfolding bytes_eq
a_then_d = (refl, (refl, tt))

more_scores : AllScores more
more_scores = ((omega arith, refl), ((omega arith, refl), tt))

zadd_live_lem_example :
    let (reply, s') = zadd settings store 9 name more none true 5 stored in
    (reply ≡ ok (resp_int (pos (count_changed none first_set more))))
    × ZHolds settings store s' name 0 0
        (scored none first_set more)
        (2 + count_new none first_set more)
zadd_live_lem_example =
    zadd_live_lem settings store 9 name more none true 5 0 0 2 stored first_set holds fresh a_then_d
      more_scores (omega arith)

zset_reads_example :
    (zcard settings store 9 name stored ≡ (ok (resp_int (pos 2)), stored))
    × (zscore settings store (λ x. u64_be x) 9 name b stored
        ≡ (ok (resp_bulk (u64_be minus_three)), stored))
unfolding bytes_eq
zset_reads_example =
    zset_reads settings store (λ x. u64_be x) 9 name b 0 0 2 stored first_set holds fresh
