-- ===== src/Lists/Trim/Positions.antt =====
-- The positions that LTRIM keeps, and its index arithmetic.
use tidis.Base.{
  ℕ, zero, suc, ◌+◌, ◌-◌, ◌^◌, ◌≤◌, ◌<◌, ◌≡◌, refl, ap, none, List, [], ◌∷◌, arith, length,
  get_elem?, get_elem?-none, take, drop, ltb, leb, if◌then◌else◌, ◌&&◌, length-take, length-drop,
}
use tidis.Base.Int.{ℤ, pos, negsuc, ltb_ℤ}
use tidis.Bytes.{Bytes, sub64, add64}
use tidis.Frame.{as_i64, as_u64, add_i64, sub_i64}
use tidis.Lists.{from_end}
use tidis.Lists.Items.{elem_at}
use tidis.Lists.Access.Laws.{IsI64}
use tidis.Lists.Trim.{clamp_index}

-- The position that LTRIM takes an index for, in a list of `n` elements.
abbrev pub clamp_pos : ℤ → ℕ → ℕ
clamp_pos (pos i) n = if ltb i n then i else n - 1
clamp_pos (negsuc i) n = n - suc i

abbrev pub clamped : ℤ → ℕ → ℕ → ℤ
clamped idx left n =
    clamp_index (from_end idx (sub64 (left + n) left)) (as_i64 (sub64 (left + n) left))

pub clamped-pos :
    (idx : ℤ) (left n : ℕ)
    → left + n < 2 ^ 63
    → 0 < n
    → IsI64 idx
    → clamped idx left n ≡ pos (clamp_pos idx n)
unfolding clamp_index from_end add_i64 sub_i64
clamped-pos (pos i) left n h k b = ground arith
clamped-pos (negsuc i) left n h k b = ground arith

pub clamp_pos-lt : (idx : ℤ) (n : ℕ) → 0 < n → clamp_pos idx n < n
clamp_pos-lt (pos i) n h = ground arith
clamp_pos-lt (negsuc i) n h = omega arith

module _ (left n p : ℕ) (h : left + n < 2 ^ 63) (k : p < n) where
  pub index_pos : add_i64 (pos p) (as_i64 left) ≡ pos (left + p)
  unfolding add_i64
  index_pos = ground arith

  pub trim_left : sub_i64 (pos (left + p)) (as_i64 left) ≡ pos p
  unfolding sub_i64
  trim_left = ground arith

  pub index_after : as_u64 (add_i64 (pos (left + p)) (pos 1)) ≡ left + p + 1
  unfolding add_i64
  index_after = ground arith

  pub trim_right :
      sub_i64 (sub_i64 (as_i64 (left + n)) (pos (left + p))) (pos 1) ≡ pos (n - (p + 1))
  unfolding sub_i64
  trim_right = ground arith

  pub index_u64 : as_u64 (pos (left + p)) ≡ left + p
  unfolding as_u64
  index_u64 = omega arith

  pub new_left : (if ltb_ℤ (pos 0) (pos p) then add64 left (as_u64 (pos p)) else left) ≡ left + p
  unfolding as_u64
  new_left = ground arith

  pub new_right :
      (if ltb_ℤ (pos 0) (pos (n - (p + 1)))
        then sub64 (left + n) (as_u64 (pos (n - (p + 1))))
        else left + n)
      ≡ left + p + 1
  unfolding as_u64
  new_right = ground arith

pub get_elem?-drop :
    (m : ℕ) (xs : List Bytes) (i : ℕ) → get_elem? (drop m xs) i ≡ get_elem? xs (m + i)
get_elem?-drop zero xs i = let e : 0 + i ≡ i = omega arith in rw e
get_elem?-drop (suc m) [] i = refl
get_elem?-drop (suc m) (x ∷ xs) i =
    let e : suc m + i ≡ suc (m + i) = omega arith in rw e (get_elem?-drop m xs i)

pub get_elem?-take :
    (m : ℕ) (xs : List Bytes) (i : ℕ)
    → get_elem? (take m xs) i ≡ (if ltb i m then get_elem? xs i else none)
get_elem?-take zero xs i = ground arith
get_elem?-take (suc m) [] i = ground arith
get_elem?-take (suc m) (x ∷ xs) zero = ground arith
get_elem?-take (suc m) (x ∷ xs) (suc i) = ground (arith, get_elem?-take m xs i)

pub take-length : (xs : List Bytes) → take (length xs) xs ≡ xs
take-length [] = refl
take-length (x ∷ xs) = ap (λ t. x ∷ t) (take-length xs)

-- The elements at the positions from `lo` to `hi`.
abbrev pub between : ℕ → ℕ → List Bytes → List Bytes
between lo hi xs = drop lo (take (hi + 1) xs)

pub length-between :
    (lo hi : ℕ) (xs : List Bytes)
    → hi < length xs
    → lo ≤ hi
    → lo + length (between lo hi xs) ≡ hi + 1
length-between lo hi xs h k =
    omega (arith, length-drop lo (take (hi + 1) xs), length-take (hi + 1) xs)

pub elem_at-between :
    (left lo hi : ℕ) (xs : List Bytes) (j : ℕ)
    → hi < length xs
    → lo < length xs
    → (if leb (left + hi + 1) j && ltb j (left + hi + 1 + (length xs - (hi + 1)))
        then none
        else (if leb left j && ltb j (left + lo) then none else elem_at left xs j))
      ≡ elem_at (left + lo) (between lo hi xs) j
elem_at-between left lo hi xs j h k = ground (
  arith,
  get_elem?-drop lo (take (hi + 1) xs) (j - (left + lo)),
  get_elem?-take (hi + 1) xs (lo + (j - (left + lo))),
  get_elem?-none xs (j - left),
  positions left lo j,
)
  where
    positions : (left lo j : ℕ) → left + lo ≤ j → lo + (j - (left + lo)) ≡ j - left
    positions left lo j h = omega arith

pub elem_at-empty :
    (left lo hi : ℕ) (xs : List Bytes) (j : ℕ) → hi < lo → elem_at left (between lo hi xs) j ≡ none
elem_at-empty left lo hi xs j h = ground (
  arith,
  get_elem?-none (between lo hi xs) (j - left)
      (omega (arith, length-drop lo (take (hi + 1) xs), length-take (hi + 1) xs)),
)
