-- ===== src/Numbers/Laws.antt =====
-- What is printed is read back.
use tidis.Base.{
  ℕ, zero, suc, ◌+◌, ◌-◌, ◌*◌, ◌/◌, ◌%◌, ◌^◌, ◌<◌, ◌≤◌, ◌≡◌, ◌∙◌, ap, true, inl, inr, Bool-cases,
  Option, none, some, [], ◌∷◌, ◌++◌, ltb, arith,
}
use tidis.Base.Int.{ℤ, pos, negsuc, ◌+ℤ◌}
use tidis.Bytes.{Bytes}
use tidis.Frame.{as_i64, as_u64, add_i64}
use tidis.Numbers.{digits_from, digits, parse_i64, show_digits, to_string}

-- One more digit.
step_digit : Option ℕ → ℕ → Option ℕ
step_digit none d = none
step_digit (some n) d = some (n * 10 + d)

digits_from-append :
    (n d : ℕ) (bs : Bytes)
    → d < 10
    → digits_from n (bs ++ (b'0' + d) ∷ []) ≡ step_digit (digits_from n bs) d
unfolding step_digit
digits_from-append n d [] h = ground arith
digits_from-append n d (b ∷ bs) h = ground (arith, digits_from-append (n * 10 + (b - b'0')) d bs h)

below_digit : (d : ℕ) → d < 10 → digits_from 0 ((b'0' + d) ∷ []) ≡ some d
below_digit d h = ground arith

digits_from-show_digits : (k n : ℕ) → n < 10 ^ k → digits_from 0 (show_digits k n) ≡ some n
unfolding step_digit
digits_from-show_digits zero n h = ap some (omega arith)
digits_from-show_digits (suc k) n h = elim (Bool-cases (ltb n 10)) [
  | inl small ↦ rw small (below_digit n (ground (arith, small)))
  | inr more ↦
      let rest : n / 10 < 10 ^ k = omega arith in
      rw more (
        digits_from-append 0 (n % 10) (show_digits k (n / 10)) (omega arith)
        ∙ ap (λ o. step_digit o (n % 10)) (digits_from-show_digits k (n / 10) rest)
        ∙ ap some (omega arith))
]

-- A printed number starts with a digit.
Digit : Bytes → Type 0
Digit [] = ⊥
Digit (b ∷ bs) = b'0' ≤ b

Digit-append : (bs cs : Bytes) → Digit bs → Digit (bs ++ cs)
unfolding Digit
Digit-append [] cs h = absurd h
Digit-append (b ∷ bs) cs h = h

show_digits-Digit : (k n : ℕ) → n < 10 ^ suc k → Digit (show_digits (suc k) n)
unfolding Digit
show_digits-Digit zero n h = rw (small) (omega arith)
  where
    small : ltb n 10 ≡ true
    small = ground (arith, h)
show_digits-Digit (suc k) n h = elim (Bool-cases (ltb n 10)) [
  | inl small ↦ rw small (omega arith)
  | inr more ↦ rw more (
      Digit-append (show_digits (suc k) (n / 10)) ((b'0' + n % 10) ∷ [])
        (show_digits-Digit k (n / 10) (omega (arith, h))))
]

digits-Digit : (bs : Bytes) (n : ℕ) → Digit bs → digits_from 0 bs ≡ some n → digits bs ≡ some n
unfolding Digit
digits-Digit [] n h e = absurd h
digits-Digit (b ∷ bs) n h e = e

digits-show_digits : (n : ℕ) → n < 10 ^ 19 → digits (show_digits 19 n) ≡ some n
digits-show_digits n h =
    digits-Digit (show_digits 19 n) n (show_digits-Digit 18 n h) (digits_from-show_digits 19 n h)

-- Bytes that start with a digit are read without a sign.
parse_unsigned :
    (bs : Bytes) (n : ℕ) → Digit bs → digits bs ≡ some n → n < 2 ^ 63 → parse_i64 bs ≡ some (pos n)
unfolding Digit parse_i64
parse_unsigned [] n h e b = absurd h
parse_unsigned (c ∷ bs) n h e b = ground (arith, h, e, b)

parse_negative :
    (bs : Bytes) (n : ℕ)
    → digits bs ≡ some (n + 1)
    → n < 2 ^ 63
    → parse_i64 (b'-' ∷ bs) ≡ some (negsuc n)
unfolding parse_i64
parse_negative bs n e b = rw e (ground (arith, b))

-- The i64s among the integers.
abbrev pub IsI64 : ℤ → Type 0
IsI64 (pos n) = n < 2 ^ 63
IsI64 (negsuc n) = n < 2 ^ 63

-- Every i64 that is printed is read back.
pub parse_i64-to_string : (z : ℤ) → IsI64 z → parse_i64 (to_string z) ≡ some z
unfolding to_string
parse_i64-to_string (pos n) h =
    parse_unsigned (show_digits 19 n) n (show_digits-Digit 18 n (omega (arith, h)))
      (digits-show_digits n (omega (arith, h))) h
parse_i64-to_string (negsuc n) h =
    parse_negative (show_digits 19 (n + 1)) n (digits-show_digits (n + 1) (omega (arith, h))) h

as_i64-IsI64 : (w : ℕ) → w < 2 ^ 64 → IsI64 (as_i64 w)
unfolding as_i64
as_i64-IsI64 w h = elim (Bool-cases (ltb w (2 ^ 63))) [
  | inl e ↦ rw e (ground (arith, e))
  | inr e ↦ rw e (ground (arith, e, h))
]

as_u64_lt : (z : ℤ) → as_u64 z < 2 ^ 64
unfolding as_u64
as_u64_lt (pos n) = omega arith
as_u64_lt (negsuc n) = omega arith

-- What wraps to an i64 is one.
pub add_i64-IsI64 : (a b : ℤ) → IsI64 (add_i64 a b)
unfolding add_i64
add_i64-IsI64 a b = as_i64-IsI64 (as_u64 (a +ℤ b)) (as_u64_lt (a +ℤ b))
