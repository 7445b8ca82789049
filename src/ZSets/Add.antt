-- ===== src/ZSets/Add.antt =====
-- ZADD of many members against the scores that a sorted set holds.
use tidis.Base.{
  ℕ, ◌+◌, ◌<◌, ◌≡◌, ◌∙◌, refl, sym, ap, Bool, false, inl, inr, not, Option, List, [], ◌∷◌, ◌&&◌,
  Bool-cases, arith,
}
use tidis.Bytes.{Bytes, bytes_eq, u16_mod}
use tidis.Bytes.Lex.{bytes_eq_sym}
use tidis.Config.{Settings}
use tidis.Txn.{Txn, Distinct, contains}
use tidis.Txn.Exec.{Result, ok, bind_ok}
use tidis.Txn.Steps.{collected}
use tidis.ZSets.{member_key}
use tidis.ZSets.Put.{one_if, zadd_one, zadd_pairs}
use tidis.ZSets.Index.{IsScore, stored, Indexed}
use tidis.ZSets.One.{has, changed_by, admits, step, Goes, zadd_one_lem}

-- The scores after ZADD of many members.
abbrev pub scored : Option Bool → (Bytes → Option ℕ) → List (Bytes × ℕ) → Bytes → Option ℕ
scored exists f [] = f
scored exists f ((m, a) ∷ pairs) = scored exists (step exists f m a) pairs

-- How many members are new, and how many get another score; a new member counts as both.
abbrev pub count_new : Option Bool → (Bytes → Option ℕ) → List (Bytes × ℕ) → ℕ
count_new exists f [] = 0
count_new exists f ((m, a) ∷ pairs) =
    one_if (admits exists (f m) && not (has (f m))) + count_new exists (step exists f m a) pairs

abbrev pub count_changed : Option Bool → (Bytes → Option ℕ) → List (Bytes × ℕ) → ℕ
count_changed exists f [] = 0
count_changed exists f ((m, a) ∷ pairs) =
    one_if (admits exists (f m) && changed_by (f m) a)
    + count_changed exists (step exists f m a) pairs

abbrev pub members_in : List (Bytes × ℕ) → List Bytes
members_in [] = []
members_in ((m, a) ∷ pairs) = m ∷ members_in pairs

-- All scores are numbers.
abbrev pub AllScores : List (Bytes × ℕ) → Type 0
AllScores [] = Unit
AllScores ((m, a) ∷ pairs) = IsScore a × AllScores pairs

pub counts :
    (S : Type 0) (s : S) {m n i j : ℕ}
    → m ≡ i
    → n ≡ j
    → Path (Result (ℕ × ℕ) × S) (ok (m, n), s) (ok (i, j), s)
counts S s e f = rw (e, f) refl

pub step_other :
    (exists : Option Bool) (f : Bytes → Option ℕ) (m : Bytes) (a : ℕ) (j : Bytes)
    → bytes_eq m j ≡ false
    → step exists f m a j ≡ f j
step_other exists f m a j ne = elim (Bool-cases (admits exists (f m))) [
  | inl w ↦ rw (w, ne) refl
  | inr w ↦ rw w refl
]

module _ (c : Settings) (T : Txn) (key : Bytes) (version : ℕ) (hv : version < u16_mod) where
  -- The batch has the scores of the members that are still to be written.
  abbrev pub Agrees : List (Bytes × Bytes) → (Bytes → Option ℕ) → List (Bytes × ℕ) → Type 0
  Agrees found f [] = Unit
  Agrees found f ((m, a) ∷ pairs) =
      (collected found (member_key c T key version m) ≡ stored (f m)) × Agrees found f pairs

  Agrees-step :
      (exists : Option Bool) (found : List (Bytes × Bytes)) (f : Bytes → Option ℕ) (m : Bytes)
      (a : ℕ) (pairs : List (Bytes × ℕ))
      → contains (members_in pairs) m ≡ false
      → Agrees found f pairs
      → Agrees found (step exists f m a) pairs
  Agrees-step exists found f m a [] h g = tt
  Agrees-step exists found f m a ((j, b) ∷ pairs) h g =
      let ne : bytes_eq m j ≡ false = bytes_eq_sym m j ∙ ground (arith, h) in
      (
        g.0 ∙ ap stored (sym (step_other exists f m a j ne)),
        Agrees-step exists found f m a pairs (ground (arith, h)) g.1,
      )

  pub zadd_pairs_lem :
      (exists : Option Bool) (found : List (Bytes × Bytes)) (pairs : List (Bytes × ℕ))
      (added updated : ℕ) (s : T.State) (f : Bytes → Option ℕ)
      → Indexed c T key version s f
      → Distinct (members_in pairs)
      → AllScores pairs
      → Agrees found f pairs
      → Goes c T key version hv s
          (scored exists f pairs)
          (added + count_new exists f pairs, updated + count_changed exists f pairs)
          (zadd_pairs c T key version exists found pairs added updated s)
  unfolding zadd_pairs
  zadd_pairs_lem exists found [] added updated s f h d n g =
      (s, counts T.State s (omega arith) (omega arith), h, (refl, λ u. refl))
  zadd_pairs_lem exists found ((m, a) ∷ pairs) added updated s f h d n g =
      let (s1, run, indexed, kept) =
        zadd_one_lem c T key version hv exists s f m a (f m) h refl n.0 in
      let is_new = admits exists (f m) && not (has (f m)) in
      let changed = admits exists (f m) && changed_by (f m) a in
      let (s2, rest, indexed2, kept2) =
        zadd_pairs_lem exists found pairs (added + one_if is_new) (updated + one_if changed) s1
          (step exists f m a) indexed d.1 n.1 (Agrees-step exists found f m a pairs d.0 g.1) in
      (
        s2,
        rw g.0 (
              bind_ok (zadd_one c T key version exists m a (stored (f m)))
                (λ (b, e).
                  zadd_pairs c T key version exists found pairs (added + one_if b)
                    (updated + one_if e))
                s s1 (is_new, changed) run)
            ∙ rest
            ∙ counts T.State s2 (omega arith) (omega arith),
        indexed2,
        (kept2.0 ∙ kept.0, λ u. kept2.1 u ∙ kept.1 u),
      )
