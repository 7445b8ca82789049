-- ===== src/Encoding/Score/Laws.antt =====
-- Scores in keys: order, round trip, and the ends of a scan by score.
use tidis.Base.{ℕ, ◌<◌, ◌≡◌, false, ◌==◌, ltb, if◌then◌else◌, arith}
use tidis.Bytes.{u64_mod}
use tidis.Encoding.Score.{
  is_nan, sign_mask, f64_ltb, encode_f64_to_cmp_uint64, decode_cmp_uint64_to_f64,
}

pub cmp_lt : (a : ℕ) → a < u64_mod → encode_f64_to_cmp_uint64 a < u64_mod
unfolding encode_f64_to_cmp_uint64
cmp_lt a h = ground arith

-- The unsigned order of encoded scores is the order of the scores, for scores that are numbers.
pub encode_f64_order :
    (a b : ℕ)
    → a < u64_mod
    → b < u64_mod
    → is_nan a ≡ false
    → is_nan b ≡ false
    → ltb (encode_f64_to_cmp_uint64 a) (encode_f64_to_cmp_uint64 b) ≡ f64_ltb a b
unfolding encode_f64_to_cmp_uint64 f64_ltb
encode_f64_order a b ha hb na nb = ground arith

-- Decoding gives back the score that was encoded, but for -0, which becomes +0.
pub decode_encode_f64 :
    (a : ℕ)
    → a < u64_mod
    → is_nan a ≡ false
    → decode_cmp_uint64_to_f64 (encode_f64_to_cmp_uint64 a) ≡ (if a == sign_mask then 0 else a)
unfolding encode_f64_to_cmp_uint64 decode_cmp_uint64_to_f64
decode_encode_f64 a ha na = ground arith
