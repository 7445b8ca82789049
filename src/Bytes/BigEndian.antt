-- ===== src/Bytes/BigEndian.antt =====
-- Big-endian words: `from_be_bytes` undoes `to_be_bytes`, and the byte order is the numeric order.
use native.Mathlib.Nat.{pow-suc}
use tidis.Base.{
  ℕ, zero, suc, ◌+◌, ◌*◌, ◌/◌, ◌%◌, ◌^◌, ◌<◌, ◌≡◌, ◌∙◌, refl, ap, [], ◌∷◌, ◌++◌, arith, length,
  length-append, compare,
}
use tidis.Bytes.{Bytes, IsBytes, be_bytes, from_be, u64_be, u16_be, u64_mod, u16_mod, lex, then_cmp}

from_be-append : (acc : ℕ) (xs ys : Bytes) → from_be acc (xs ++ ys) ≡ from_be (from_be acc xs) ys
unfolding from_be
from_be-append acc [] ys = refl
from_be-append acc (x ∷ xs) ys = from_be-append (acc * 256 + x) xs ys

div_bound : (w x : ℕ) → x < 256 ^ suc w → x / 256 < 256 ^ w
div_bound w x h = omega (arith, pow-suc 256 w)

from_be-be_bytes : (w x : ℕ) → x < 256 ^ w → from_be 0 (be_bytes w x) ≡ x
unfolding be_bytes from_be
from_be-be_bytes zero x h = omega arith
from_be-be_bytes (suc w) x h =
    from_be-append 0 (be_bytes w (x / 256)) (x % 256 ∷ [])
    ∙ omega (arith, from_be-be_bytes w (x / 256) (div_bound w x h))

length-be_bytes : (w x : ℕ) → length (be_bytes w x) ≡ w
unfolding be_bytes
length-be_bytes zero x = refl
length-be_bytes (suc w) x =
    omega (arith, length-append (be_bytes w (x / 256)) (x % 256 ∷ []), length-be_bytes w (x / 256))

IsBytes-append : (xs ys : Bytes) → IsBytes xs → IsBytes ys → IsBytes (xs ++ ys)
IsBytes-append [] ys h k = k
IsBytes-append (x ∷ xs) ys h k = (h.0, IsBytes-append xs ys h.1 k)

be_bytes-IsBytes : (w x : ℕ) → IsBytes (be_bytes w x)
unfolding be_bytes
be_bytes-IsBytes zero x = tt
be_bytes-IsBytes (suc w) x =
    IsBytes-append (be_bytes w (x / 256)) (x % 256 ∷ []) (be_bytes-IsBytes w (x / 256))
      (omega arith, tt)

pub from_be-u64_be : (x : ℕ) → x < u64_mod → from_be 0 (u64_be x) ≡ x
unfolding u64_be
from_be-u64_be x h = from_be-be_bytes 8 x h

pub from_be-u16_be : (x : ℕ) → x < u16_mod → from_be 0 (u16_be x) ≡ x
unfolding u16_be
from_be-u16_be x h = from_be-be_bytes 2 x h

pub length-u64_be : (x : ℕ) → length (u64_be x) ≡ 8
unfolding u64_be
length-u64_be x = length-be_bytes 8 x

pub length-u16_be : (x : ℕ) → length (u16_be x) ≡ 2
unfolding u16_be
length-u16_be x = length-be_bytes 2 x

-- The last byte decides where the others agree.
lex-snoc :
    (xs ys : Bytes) (x y : ℕ)
    → length xs ≡ length ys
    → lex (xs ++ x ∷ []) (ys ++ y ∷ []) ≡ then_cmp (lex xs ys) (compare x y)
unfolding lex
lex-snoc [] [] x y h = ground arith
lex-snoc [] (b ∷ ys) x y h = absurd (omega arith)
lex-snoc (a ∷ xs) [] x y h = absurd (omega arith)
lex-snoc (a ∷ xs) (b ∷ ys) x y h = ground (arith, lex-snoc xs ys x y)

compare_digits :
    (x y : ℕ) → then_cmp (compare (x / 256) (y / 256)) (compare (x % 256) (y % 256)) ≡ compare x y
compare_digits x y = ground arith

lex-be_bytes :
    (w x y : ℕ) → x < 256 ^ w → y < 256 ^ w → lex (be_bytes w x) (be_bytes w y) ≡ compare x y
unfolding be_bytes lex
lex-be_bytes zero x y h k = ground arith
lex-be_bytes (suc w) x y h k =
    lex-snoc (be_bytes w (x / 256)) (be_bytes w (y / 256)) (x % 256) (y % 256)
      (omega (arith, length-be_bytes w (x / 256), length-be_bytes w (y / 256)))
    ∙ ap (λ c. then_cmp c (compare (x % 256) (y % 256)))
        (lex-be_bytes w (x / 256) (y / 256) (div_bound w x h) (div_bound w y k))
    ∙ compare_digits x y

pub lex-u64_be : (x y : ℕ) → x < u64_mod → y < u64_mod → lex (u64_be x) (u64_be y) ≡ compare x y
unfolding u64_be
lex-u64_be x y h k = lex-be_bytes 8 x y h k

pub lex-u16_be : (x y : ℕ) → x < u16_mod → y < u16_mod → lex (u16_be x) (u16_be y) ≡ compare x y
unfolding u16_be
lex-u16_be x y h k = lex-be_bytes 2 x y h k

pub u64_be-IsBytes : (x : ℕ) → IsBytes (u64_be x)
unfolding u64_be
u64_be-IsBytes x = be_bytes-IsBytes 8 x
