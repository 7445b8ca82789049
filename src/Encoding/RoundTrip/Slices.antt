-- ===== src/Encoding/RoundTrip/Slices.antt =====
-- Slices and words at known places.
use tidis.Base.{
  ℕ, ◌+◌, ◌<◌, ◌≡◌, refl, true, some, [], ◌∷◌, ◌++◌, arith, leb, length, length-append, drop-append,
  take-append, get_elem?,
}
use tidis.Bytes.{Bytes, u64_be, u16_be, u64_mod, u16_mod}
use tidis.Bytes.BigEndian.{from_be-u64_be, from_be-u16_be, length-u64_be, length-u16_be}
use tidis.Encoding.Decode.{slice_from, slice, word}

pub slice_at :
    (p q r : Bytes) (i n : ℕ) → length p ≡ i → length q ≡ n → slice (p ++ (q ++ r)) i n ≡ some q
unfolding slice
slice_at p q r i n hi hn =
    let fits : leb (i + n) (length (p ++ (q ++ r))) ≡ true =
      ground (arith, length-append p (q ++ r), length-append q r) in
    rw (fits, ← hi, ← hn) (rw (drop-append p (q ++ r), take-append q r))

pub slice_from_at : (p r : Bytes) (i : ℕ) → length p ≡ i → slice_from (p ++ r) i ≡ some r
unfolding slice_from
slice_from_at p r i hi =
    let fits : leb i (length (p ++ r)) ≡ true = ground (arith, length-append p r) in
    rw (fits, ← hi) (rw (drop-append p r))

pub word-u64_be : (x : ℕ) → x < u64_mod → word 8 (u64_be x) ≡ some x
unfolding word
word-u64_be x h = rw (length-u64_be x) (rw (from_be-u64_be x h))

pub word-u16_be : (x : ℕ) → x < u16_mod → word 2 (u16_be x) ≡ some x
unfolding word
word-u16_be x h = rw (length-u16_be x) (rw (from_be-u16_be x h))

elem-append : (p r : Bytes) (b : ℕ) → get_elem? (p ++ b ∷ r) (length p) ≡ some b
elem-append [] r b = refl
elem-append (x ∷ p) r b = elem-append p r b

pub elem_at : (p r : Bytes) (b i : ℕ) → length p ≡ i → get_elem? (p ++ b ∷ r) i ≡ some b
elem_at p r b i h = rw (← h) (elem-append p r b)
