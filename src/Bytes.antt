-- ===== src/Bytes.antt =====
-- Byte strings and machine words, as the key encoder uses them: `to_be_bytes` and `from_be_bytes` of
-- u16 and u64, and the byte order in which the store keeps its keys.
-- A byte is a number; `IsBytes` says that every one is below 256.
pub mod BigEndian
pub mod Lex
use tidis.Base.{
  ℕ, zero, suc, ◌+◌, ◌-◌, ◌*◌, ◌/◌, ◌%◌, ◌^◌, ◌<◌, Bool, true, false, ◌&&◌, List, [], ◌∷◌, ◌++◌,
  compare, Ordering, ◌==◌, if◌then◌else◌,
}

abbrev pub Bytes : Type 0
Bytes = List ℕ

abbrev pub IsBytes : Bytes → Type 0
IsBytes [] = Unit
IsBytes (b ∷ bs) = (b < 256) × IsBytes bs

abbrev pub u64_mod : ℕ
u64_mod = 2 ^ 64

abbrev pub u16_mod : ℕ
u16_mod = 2 ^ 16

-- The release profile wraps on overflow.
abbrev pub add64 : ℕ → ℕ → ℕ
add64 a b = (a + b) % u64_mod

abbrev pub sub64 : ℕ → ℕ → ℕ
sub64 a b = (a + u64_mod - b) % u64_mod

-- The `w` low bytes of `x`, the most significant first.
pub be_bytes : ℕ → ℕ → Bytes
be_bytes zero x = []
be_bytes (suc w) x = be_bytes w (x / 256) ++ x % 256 ∷ []

unfoldable pub from_be : ℕ → Bytes → ℕ
from_be acc [] = acc
from_be acc (b ∷ bs) = from_be (acc * 256 + b) bs

-- `u64::to_be_bytes` and `u16::to_be_bytes`
unfoldable pub u64_be : ℕ → Bytes
unfolding be_bytes
u64_be x = be_bytes 8 x

unfoldable pub u16_be : ℕ → Bytes
unfolding be_bytes
u16_be x = be_bytes 2 x

-- The byte order of keys.
abbrev pub then_cmp : Ordering → Ordering → Ordering
then_cmp Ordering.eq d = d
then_cmp Ordering.lt d = Ordering.lt
then_cmp Ordering.gt d = Ordering.gt

unfoldable pub lex : Bytes → Bytes → Ordering
lex [] [] = Ordering.eq
lex [] (y ∷ ys) = Ordering.lt
lex (x ∷ xs) [] = Ordering.gt
lex (x ∷ xs) (y ∷ ys) = then_cmp (compare x y) (lex xs ys)

unfoldable pub bytes_eq : Bytes → Bytes → Bool
bytes_eq [] [] = true
bytes_eq [] (y ∷ ys) = false
bytes_eq (x ∷ xs) [] = false
bytes_eq (x ∷ xs) (y ∷ ys) = x == y && bytes_eq xs ys

abbrev pub lex_ltb : Bytes → Bytes → Bool
lex_ltb a b = elim (lex a b) [ Ordering.lt ↦ true | _ ↦ false ]

abbrev pub lex_leb : Bytes → Bytes → Bool
lex_leb a b = elim (lex a b) [ Ordering.gt ↦ false | _ ↦ true ]

abbrev pub swap_cmp : Ordering → Ordering
swap_cmp Ordering.eq = Ordering.eq
swap_cmp Ordering.lt = Ordering.gt
swap_cmp Ordering.gt = Ordering.lt
