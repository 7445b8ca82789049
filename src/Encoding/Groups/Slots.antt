-- ===== src/Encoding/Groups/Slots.antt =====
-- A reference form of `encode_bytes`, by recursion on the key with the free slots of the group, and
-- its laws: order, and what the decoder reads back.
use tidis.Base.{
  ℕ, zero, suc, ◌+◌, ◌-◌, ◌≤◌, ◌<◌, ◌≡◌, refl, ap, [], ◌∷◌, ◌++◌, arith, Ordering, length, take,
  drop, replicate,
}
use tidis.Bytes.{Bytes, lex, then_cmp}
use tidis.Bytes.Lex.{lex-append_left, lex-gt}

unfoldable pub slots : Bytes → ℕ → Bytes
slots [] zero = 255 ∷ (replicate 8 0 ++ 247 ∷ [])
slots [] (suc m) = replicate (suc m) 0 ++ (255 - suc m) ∷ []
slots (x ∷ xs) zero = 255 ∷ x ∷ slots xs 7
slots (x ∷ xs) (suc m) = x ∷ slots xs m

-- A full group ends in the marker 255 and a new one begins.
pub slots-zero : (xs : Bytes) → slots xs 0 ≡ 255 ∷ slots xs 8
unfolding slots
slots-zero [] = refl
slots-zero (x ∷ xs) = refl

pub slots_full :
    (n : ℕ) (xs : Bytes) → n ≤ length xs → slots xs n ≡ take n xs ++ 255 ∷ slots (drop n xs) 8
unfolding slots
slots_full zero xs h = slots-zero xs
slots_full (suc n) [] h = absurd (omega arith)
slots_full (suc n) (x ∷ xs) h = ap (λ t. x ∷ t) (slots_full n xs (omega arith))

pub slots_short :
    (n : ℕ) (xs : Bytes)
    → length xs < n
    → slots xs n ≡ xs ++ (replicate (n - length xs) 0 ++ (255 - (n - length xs)) ∷ [])
unfolding slots
slots_short zero xs h = elim h [ ]
slots_short (suc n) [] h = let e : suc n - 0 ≡ suc n = omega arith in rw e
slots_short (suc n) (x ∷ xs) h =
    let e : suc n - suc (length xs) ≡ n - length xs = omega arith in
    rw e (ap (λ t. x ∷ t) (slots_short n xs (omega arith)))

marker-lt :
    (r s : Bytes) (j c d : ℕ)
    → c < d
    → lex ((replicate j 0 ++ c ∷ []) ++ r) ((replicate j 0 ++ d ∷ []) ++ s) ≡ Ordering.lt
unfolding lex
marker-lt r s zero c d h = ground arith
marker-lt r s (suc j) c d h = ground (arith, marker-lt r s j c d h)

-- A key that has ended stands before every key that goes on: `c` is the marker that closes it.
padded-lt :
    (b r s : Bytes) (j c : ℕ)
    → c + j < 255
    → lex ((replicate j 0 ++ c ∷ []) ++ r) (slots b j ++ s) ≡ Ordering.lt
unfolding slots lex
padded-lt [] r s zero c h = ground arith
padded-lt [] r s (suc j) c h = ground (arith, marker-lt r s j c (255 - suc j))
padded-lt (x ∷ b) r s zero c h = ground arith
padded-lt (x ∷ b) r s (suc j) c h = ground (arith, padded-lt b r s j c (omega arith))

slots-gt-padded :
    (b r s : Bytes) (j c : ℕ)
    → c + j < 255
    → lex (slots b j ++ s) ((replicate j 0 ++ c ∷ []) ++ r) ≡ Ordering.gt
slots-gt-padded b r s j c h =
    lex-gt ((replicate j 0 ++ c ∷ []) ++ r) (slots b j ++ s) (padded-lt b r s j c h)

-- The order of two encoded keys with anything behind them: first that of the keys, then that of
-- what follows.
pub lex-slots :
    (n : ℕ) (a b r s : Bytes)
    → n ≤ 8
    → lex (slots a n ++ r) (slots b n ++ s) ≡ then_cmp (lex a b) (lex r s)
unfolding slots lex
lex-slots n [] [] r s h = lex-append_left (slots [] n) r s
lex-slots zero [] (y ∷ b) r s h = ground (arith, padded-lt b r s 7 247 (omega arith))
lex-slots (suc n) [] (y ∷ b) r s h = ground (arith, padded-lt b r s n (255 - suc n) (omega arith))
lex-slots zero (x ∷ a) [] r s h = ground (arith, slots-gt-padded a s r 7 247 (omega arith))
lex-slots (suc n) (x ∷ a) [] r s h =
    ground (arith, slots-gt-padded a s r n (255 - suc n) (omega arith))
lex-slots zero (x ∷ a) (y ∷ b) r s h = ground (arith, lex-slots 7 a b r s (omega arith))
lex-slots (suc n) (x ∷ a) (y ∷ b) r s h = ground (arith, lex-slots n a b r s (omega arith))
