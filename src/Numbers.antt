-- ===== src/Numbers.antt =====
-- Decimal i64s as Rust's standard library documents `str::parse::<i64>` and `to_string`, with which INCR
-- (src/tikv/string.rs) and HINCRBY (src/tikv/hash.rs) read and print the numbers that they store.
pub mod Laws
use tidis.Base.{
  ℕ, zero, suc, ◌+◌, ◌-◌, ◌*◌, ◌/◌, ◌%◌, ◌^◌, Bool, true, false, Option, none, some, List, [], ◌∷◌,
  ◌++◌, ltb, leb, ◌&&◌, ◌==◌, if◌then◌else◌,
}
use tidis.Base.Int.{ℤ, pos, negsuc}
use tidis.Bytes.{Bytes}

-- The decimal number that goes on from `n`; `none` on another byte than a digit.
abbrev digits_from : ℕ → Bytes → Option ℕ
digits_from n [] = some n
digits_from n (b ∷ bs) =
    let rest = digits_from (n * 10 + (b - b'0')) bs in
    if leb b'0' b && leb b b'9' then rest else none

abbrev digits : Bytes → Option ℕ
digits [] = none
digits (b ∷ bs) = digits_from 0 (b ∷ bs)

abbrev below : ℕ → Option ℕ → Option ℕ
below m none = none
below m (some n) = if ltb n m then some n else none

abbrev signed : (ℕ → ℤ) → Option ℕ → Option ℤ
signed f none = none
signed f (some n) = some (f n)

abbrev minus : ℕ → ℤ
minus n = if n == 0 then pos 0 else negsuc (n - 1)

-- `parse::<i64>`: a sign and digits, in range
unfoldable pub parse_i64 : Bytes → Option ℤ
parse_i64 [] = none
parse_i64 (b ∷ bs) =
    if b == b'-'
    then signed minus (below (2 ^ 63 + 1) (digits bs))
    else signed pos (below (2 ^ 63) (if b == b'+' then digits bs else digits (b ∷ bs)))

-- The last `k` digits of a number, without leading zeros.
abbrev show_digits : ℕ → ℕ → Bytes
show_digits zero n = []
show_digits (suc k) n =
    let front = show_digits k (n / 10) in
    if ltb n 10 then (b'0' + n) ∷ [] else front ++ (b'0' + n % 10) ∷ []

-- `to_string` of an i64, which has at most 19 digits
unfoldable pub to_string : ℤ → Bytes
to_string (pos n) = show_digits 19 n
to_string (negsuc n) = b'-' ∷ show_digits 19 (n + 1)
