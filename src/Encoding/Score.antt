-- ===== src/Encoding/Score.antt =====
-- Scores of sorted sets: the f64 parts of src/tikv/encoding/encode.rs and decode.rs.
-- An f64 is its bit pattern, a number below 2^64: sign, eleven bits of exponent, 52 of mantissa.
-- `ge_zero` and `f64_ltb` are the comparisons of IEEE 754 on patterns.
pub mod Laws
use tidis.Base.{
  ℕ, ◌+◌, ◌-◌, ◌%◌, ◌^◌, ◌<◌, Bool, true, false, not, Option, none, some, [], ◌∷◌, ◌++◌, ◌&&◌, ◌||◌,
  ◌==◌, ltb, leb, if◌then◌else◌, length,
}
use tidis.Base.Int.{ℤ, pos, negsuc, ltb_ℤ}
use tidis.Bytes.{Bytes, u64_be, u64_mod, add64, sub64}
use tidis.Encoding.Groups.{encode_bytes}
use tidis.Encoding.Encode.{
  KeyEncoder, KeyRange, data_key, data_key_range, data_type_score, place_holder,
}
use tidis.Encoding.Decode.{◌>>=◌, slice_from, slice, word}

abbrev pub sign_mask : ℕ
sign_mask = 0x8000000000000000

-- the pattern of +infinity
abbrev pub infinity : ℕ
infinity = 0x7ff0000000000000

abbrev pub magnitude : ℕ → ℕ
magnitude w = if ltb w sign_mask then w else w - sign_mask

abbrev pub is_nan : ℕ → Bool
is_nan w = ltb infinity (magnitude w)

-- Non-NaN values compare as their signed magnitudes, and both zeros are equal.
abbrev pub signed : ℕ → ℤ
signed w =
    if ltb w sign_mask then pos w else if w == sign_mask then pos 0 else negsuc (w - sign_mask - 1)

unfoldable pub f64_ltb : ℕ → ℕ → Bool
f64_ltb a b = not (is_nan a) && (not (is_nan b) && ltb_ℤ (signed a) (signed b))

-- `score >= 0f64`
abbrev pub ge_zero : ℕ → Bool
ge_zero w = not (is_nan w) && (ltb w sign_mask || w == sign_mask)

-- `b |= SIGN_MASK` sets the top bit, and `!b` is its complement in 64 bits.
unfoldable pub encode_f64_to_cmp_uint64 : ℕ → ℕ
encode_f64_to_cmp_uint64 score =
    if ge_zero score
    then (if ltb score sign_mask then score + sign_mask else score)
    else u64_mod - 1 - score

-- `score & SIGN_MASK > 0` tests the top bit, and `score &= !SIGN_MASK` clears it.
unfoldable pub decode_cmp_uint64_to_f64 : ℕ → ℕ
decode_cmp_uint64_to_f64 u = if leb sign_mask u then u - sign_mask else u64_mod - 1 - u

unfoldable pub encode_txnkv_zset_data_value : ℕ → Bytes
unfolding encode_f64_to_cmp_uint64
encode_txnkv_zset_data_value score = u64_be (encode_f64_to_cmp_uint64 score)

unfoldable pub decode_key_zset_data_value : Bytes → Option ℕ
unfolding decode_cmp_uint64_to_f64
decode_key_zset_data_value value = do u ← word 8 value; some (decode_cmp_uint64_to_f64 u)

module _ (e : KeyEncoder) where
  -- a key of the score index, from the encoded score and what follows it
  abbrev pub score_key : Bytes → ℕ → ℕ → Bytes → Bytes
  score_key ukey version cmp rest = data_key e data_type_score ukey version (u64_be cmp ++ rest)

  unfoldable pub encode_txnkv_zset_score_key : Bytes → ℕ → Bytes → ℕ → Bytes
  encode_txnkv_zset_score_key ukey score member version =
      score_key ukey version (encode_f64_to_cmp_uint64 score) (place_holder ∷ member)

  unfoldable pub encode_txnkv_zset_score_key_range : Bytes → ℕ → KeyRange
  encode_txnkv_zset_score_key_range ukey version = data_key_range e data_type_score ukey version

  -- the ends of a scan by score; without its frontier a bound moves by one, wrapping as u64 does
  unfoldable pub encode_txnkv_zset_score_key_score_start : Bytes → ℕ → Bool → ℕ → Bytes
  encode_txnkv_zset_score_key_score_start ukey score with_frontier version =
      let cmp = encode_f64_to_cmp_uint64 score in
      score_key ukey version (if with_frontier then cmp else add64 cmp 1) (place_holder ∷ [])

  unfoldable pub encode_txnkv_zset_score_key_score_end : Bytes → ℕ → Bool → ℕ → Bytes
  encode_txnkv_zset_score_key_score_end ukey score with_frontier version =
      let cmp = encode_f64_to_cmp_uint64 score in
      score_key ukey version (if with_frontier then cmp else sub64 cmp 1) ((place_holder + 1) ∷ [])

unfoldable pub decode_key_zset_score_from_scorekey : Bytes → Bytes → Option ℕ
decode_key_zset_score_from_scorekey ukey key = do
  bytes ← slice key (8 + length (encode_bytes ukey)) 8
  u ← word 8 bytes
  some (decode_cmp_uint64_to_f64 u)

unfoldable pub decode_key_zset_member_from_scorekey : Bytes → Bytes → Option Bytes
decode_key_zset_member_from_scorekey ukey key = slice_from key (17 + length (encode_bytes ukey))
