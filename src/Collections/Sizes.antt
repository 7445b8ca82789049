-- ===== src/Collections/Sizes.antt =====
-- The sum of the counters under a change of one of them.
use tidis.Base.{
  ℕ, ◌<◌, ◌≡◌, ◌∙◌, refl, ap, Option, none, some, List, [], ◌∷◌, arith, inl, inr, Option-cases,
}
use tidis.Bytes.{Bytes, u64_be, u64_mod, add64, sub64}
use tidis.Bytes.Lex.{lex_refl}
use tidis.Encoding.Decode.{word}
use tidis.Collections.{sum_sizes, raised, lowered}
use tidis.Txn.{find}
use tidis.Txn.Scan.{insert, before, same, after, Compared-cases}
use tidis.Encoding.RoundTrip.Slices.{word-u64_be}

sum-cons :
    (j w : Bytes) (l : List (Bytes × Bytes)) (a m : ℕ)
    → word 8 w ≡ some a
    → sum_sizes l ≡ some m
    → sum_sizes ((j, w) ∷ l) ≡ some (add64 a m)
sum-cons j w l a m h k = rw (h, k, sum_sizes) refl

sum_parts :
    (j w : Bytes) (l : List (Bytes × Bytes)) (n : ℕ)
    → sum_sizes ((j, w) ∷ l) ≡ some n
    → (a : ℕ) × (m : ℕ) × (word 8 w ≡ some a) × (sum_sizes l ≡ some m) × (n ≡ add64 a m)
sum_parts j w l n h = elim (Option-cases (word 8 w)) [
  | inl e ↦ absurd (ground (arith, e, h))
  | inr (a, e) ↦ elim (Option-cases (sum_sizes l)) [
    | inl f ↦ absurd (ground (arith, e, f, h))
    | inr (m, f) ↦ (a, m, e, f, ground (arith, e, f, h))
  ]
]

-- What raising one counter does to the sum.
abbrev pub Raised : ℕ → ℕ → Bytes → List (Bytes × Bytes) → Type 0
Raised n d k l =
    (n' : ℕ) × (raised d (find k l) ≡ some n')
    × (n' < u64_mod)
    × (sum_sizes (insert k (u64_be n') l) ≡ some (add64 n d))

pub raise_sum :
    (l : List (Bytes × Bytes)) (k : Bytes) (n d : ℕ)
    → d < u64_mod
    → sum_sizes l ≡ some n
    → Raised n d k l
raise_sum [] k n d hd h =
    (d, refl, hd, sum-cons k (u64_be d) [] d 0 (word-u64_be d hd) refl ∙ ground (arith, h))
raise_sum ((j, w) ∷ l) k n d hd h =
    let (a, m, ha, hm, e) = sum_parts j w l n h in
    elim (Compared-cases k j) [
      | before x _ ↦ (
        d,
        rw (x, find, raised) refl,
        hd,
        rw (x, insert)
            (sum-cons k (u64_be d) ((j, w) ∷ l) d n (word-u64_be d hd) h ∙ ap some (omega arith)),
      )
      | same x ↦ (
        add64 a d,
        rw (x, lex_refl j, find) (rw (ha, raised) refl),
        omega arith,
        rw (x, lex_refl j, insert)
            (sum-cons j (u64_be (add64 a d)) l (add64 a d) m (word-u64_be (add64 a d) (omega arith))
                hm
              ∙ ap some (omega arith)),
      )
      | after x _ ↦
          let (n', r, b, t) = raise_sum l k m d hd hm in
          (
            n',
            rw (x, find) r,
            b,
            rw (x, insert)
                (sum-cons j w (insert k (u64_be n') l) a (add64 m d) ha t ∙ ap some (omega arith)),
          )
    ]

-- Lowering a counter by `d` is raising it by the two's complement of `d`.
pub lowered-raised : (d : ℕ) (o : Option Bytes) → d < u64_mod → lowered d o ≡ raised (sub64 0 d) o
lowered-raised d none h = refl
lowered-raised d (some v) h = elim (Option-cases (word 8 v)) [
  | inl e ↦ rw (e, lowered, raised) refl
  | inr (n, e) ↦ rw (e, lowered, raised) (ap some (omega arith))
]
