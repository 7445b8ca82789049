-- ===== src/Encoding/RoundTrip/Keys.antt =====
-- Keys: the decoder reads back the user key, the version, the item of a data key and the score.
use tidis.Base.{
  ℕ, ◌+◌, ◌<◌, ◌≡◌, ◌∙◌, refl, sym, ap, true, false, some, [], ◌∷◌, ◌++◌, arith, ◌==◌,
  if◌then◌else◌, length, length-append, append_assoc, append-nil,
}
use tidis.Bytes.{Bytes, u64_be, u16_be, u64_mod, u16_mod}
use tidis.Bytes.BigEndian.{length-u64_be, length-u16_be}
use tidis.Encoding.Groups.{encode_bytes}
use tidis.Encoding.Groups.Laws.{decode_bytes-encode_bytes, encoded_bytes_len-encode_bytes}
use tidis.Encoding.Encode.{
  KeyEncoder, data_key, type_data_key, meta_common_prefix, place_holder, encode_txnkv_meta_key,
  encode_txnkv_sub_meta_key, encode_txnkv_hash_data_key, encode_txnkv_set_data_key,
  encode_txnkv_zset_data_key, encode_txnkv_list_data_key, encode_txnkv_gc_version_key,
}
use tidis.Encoding.Decode.{
  slice, slice_from, decode_item_from_datakey, decode_key_list_idx_from_datakey,
  decode_key_gc_userkey_version, decode_key_userkey_from_metakey,
}
use tidis.Encoding.Score.{
  encode_txnkv_zset_score_key, decode_key_zset_score_from_scorekey, sign_mask, is_nan, score_key,
  decode_key_zset_member_from_scorekey, encode_f64_to_cmp_uint64,
}
use tidis.Encoding.Score.Laws.{decode_encode_f64, cmp_lt}
use tidis.Encoding.RoundTrip.Slices.{slice_at, slice_from_at, elem_at, word-u64_be, word-u16_be}

-- A data key up to and with its place holder.
module _ (e : KeyEncoder) (t : ℕ) (ukey : Bytes) (version : ℕ) where
  abbrev before : Bytes
  before = type_data_key e t ukey version (place_holder ∷ [])

  length-before : length before ≡ 8 + length (encode_bytes ukey)
  length-before = omega (
    arith,
    length-append (encode_bytes ukey) (t ∷ (u16_be version ++ place_holder ∷ [])),
    length-append (u16_be version) (place_holder ∷ []),
    length-u16_be version,
  )

  data_key-split : (item : Bytes) → data_key e t ukey version item ≡ before ++ item
  data_key-split item = simp append_assoc

  item_slice :
      (item : Bytes)
      → slice_from (data_key e t ukey version item) (8 + length (encode_bytes ukey)) ≡ some item
  item_slice item =
      ap (λ k. slice_from k (8 + length (encode_bytes ukey))) (data_key-split item)
      ∙ slice_from_at before item (8 + length (encode_bytes ukey)) length-before

-- The field or member of a data key of a hash, a set or a sorted set comes back.
decode_item-encode :
    (e : KeyEncoder) (ukey item : Bytes) (version : ℕ)
    → (decode_item_from_datakey ukey (encode_txnkv_hash_data_key e ukey item version) ≡ some item)
      × (decode_item_from_datakey ukey (encode_txnkv_set_data_key e ukey item version) ≡ some item)
      × (decode_item_from_datakey ukey (encode_txnkv_zset_data_key e ukey item version) ≡ some item)
unfolding decode_item_from_datakey encode_txnkv_hash_data_key encode_txnkv_set_data_key
    encode_txnkv_zset_data_key
decode_item-encode e ukey item version = (
  item_slice e b'h' ukey version item,
  item_slice e b's' ukey version item,
  item_slice e b'z' ukey version item,
)

-- The index of a list's data key comes back.
decode_list_idx-encode :
    (e : KeyEncoder) (ukey : Bytes) (idx version : ℕ)
    → idx < u64_mod
    → decode_key_list_idx_from_datakey ukey (encode_txnkv_list_data_key e ukey idx version)
      ≡ some idx
unfolding decode_key_list_idx_from_datakey encode_txnkv_list_data_key
decode_list_idx-encode e ukey idx version h =
    simp (item_slice e b'l' ukey version (u64_be idx), word-u64_be idx h)

-- The two parts of a score key.
module _ (e : KeyEncoder) (ukey : Bytes) (version : ℕ) (member : Bytes) (cmp : ℕ) where
  abbrev len : ℕ
  len = length (encode_bytes ukey)

  abbrev front : Bytes
  front = before e b'S' ukey version

  score_slice :
      slice (score_key e ukey version cmp (place_holder ∷ member)) (8 + len) 8 ≡ some (u64_be cmp)
  score_slice =
      ap (λ k. slice k (8 + len) 8)
        (data_key-split e b'S' ukey version (u64_be cmp ++ place_holder ∷ member))
      ∙ slice_at front (u64_be cmp) (place_holder ∷ member) (8 + len) 8
          (length-before e b'S' ukey version) (length-u64_be cmp)

  key-split :
      score_key e ukey version cmp (place_holder ∷ member)
      ≡ (front ++ (u64_be cmp ++ place_holder ∷ [])) ++ member
  key-split = simp append_assoc

  member_slice :
      slice_from (score_key e ukey version cmp (place_holder ∷ member)) (17 + len) ≡ some member
  member_slice =
      ap (λ k. slice_from k (17 + len)) key-split
      ∙ slice_from_at (front ++ (u64_be cmp ++ place_holder ∷ [])) member (17 + len) (
          omega (
            arith,
            length-before e b'S' ukey version,
            length-append front (u64_be cmp ++ place_holder ∷ []),
            length-append (u64_be cmp) (place_holder ∷ []),
            length-u64_be cmp,
          ))

-- The score and the member of a score key come back.
decode_score_key-encode :
    (e : KeyEncoder) (ukey : Bytes) (score : ℕ) (member : Bytes) (version : ℕ)
    → score < u64_mod
    → is_nan score ≡ false
    → let key = encode_txnkv_zset_score_key e ukey score member version in
      (decode_key_zset_score_from_scorekey ukey key
        ≡ some (if score == sign_mask then 0 else score))
      × (decode_key_zset_member_from_scorekey ukey key ≡ some member)
unfolding decode_key_zset_score_from_scorekey encode_txnkv_zset_score_key
    decode_key_zset_member_from_scorekey
decode_score_key-encode e ukey score member version h n =
    let cmp = encode_f64_to_cmp_uint64 score in
    (
      simp (score_slice e ukey version member cmp, word-u64_be cmp (cmp_lt score h))
          (ap some (decode_encode_f64 score h n)),
      member_slice e ukey version member cmp,
    )

-- What reading a meta key, or a sub meta key with `rest` behind the type byte, computes.
meta_read :
    (e : KeyEncoder) (ukey rest : Bytes)
    → decode_key_userkey_from_metakey (meta_common_prefix e (encode_bytes ukey) rest)
      ≡ some (ukey, length rest == 0)
unfolding decode_key_userkey_from_metakey
meta_read e ukey rest =
    let head : Bytes = b'x' ∷ e.instance_id.0 ∷ e.instance_id.1 ∷ b'u' ∷ [] in
    let enc = encode_bytes ukey in
    let whole : (4 + length enc + 1 == length (head ++ (enc ++ b'm' ∷ rest))) ≡ (length rest == 0) =
      ground (arith, length-append enc (b'm' ∷ rest)) in
    simp (
      slice_from_at head (enc ++ b'm' ∷ rest) 4 refl,
      decode_bytes-encode_bytes ukey (b'm' ∷ rest),
      encoded_bytes_len-encode_bytes ukey (b'm' ∷ rest),
      elem_at (head ++ enc) rest b'm' (4 + length enc) (omega arith),
      whole,
    )

-- Reading a meta key gives the user key and says that it is a meta key; a sub meta key is told
-- apart from it.
decode_userkey-encode :
    (e : KeyEncoder) (ukey : Bytes) (version idx : ℕ)
    → (decode_key_userkey_from_metakey (encode_txnkv_meta_key e ukey) ≡ some (ukey, true))
      × (decode_key_userkey_from_metakey (encode_txnkv_sub_meta_key e ukey version idx)
          ≡ some (ukey, false))
unfolding decode_key_userkey_from_metakey encode_txnkv_meta_key encode_txnkv_sub_meta_key
decode_userkey-encode e ukey version idx = (
  meta_read e ukey [],
  meta_read e ukey (u16_be version ++ place_holder ∷ u16_be idx)
      ∙ ap (λ b. some (ukey, b))
          (ground (arith, length-append (u16_be version) (place_holder ∷ u16_be idx))),
)

-- Reading a version's garbage collection key gives the user key and the version.
decode_gc_version-encode :
    (e : KeyEncoder) (ukey : Bytes) (version : ℕ)
    → version < u16_mod
    → decode_key_gc_userkey_version (encode_txnkv_gc_version_key e ukey version)
      ≡ some (ukey, version)
unfolding decode_key_gc_userkey_version encode_txnkv_gc_version_key
decode_gc_version-encode e ukey version h =
    let head : Bytes = b'x' ∷ e.instance_id.0 ∷ e.instance_id.1 ∷ b'v' ∷ place_holder ∷ [] in
    let enc = encode_bytes ukey in
    let version_at : slice (head ++ (enc ++ u16_be version)) (5 + length enc) 2
        ≡ some (u16_be version) =
      ap (λ r. slice (head ++ (enc ++ r)) (5 + length enc) 2) (sym (append-nil (u16_be version)))
      ∙ slice_at (head ++ enc) (u16_be version) [] (5 + length enc) 2 (omega arith)
          (length-u16_be version) in
    simp (
      slice_from_at head (enc ++ u16_be version) 5 refl,
      decode_bytes-encode_bytes ukey (u16_be version),
      encoded_bytes_len-encode_bytes ukey (u16_be version),
      version_at,
      word-u16_be version h,
    )

-- What follows the user key and the version in a data key comes back: the field or member of a hash, a
-- set or a sorted set, the index of a list's element, and of a score key the score, if it is a number,
-- and the member, where a score of -0 becomes 0.
pub decode_keys-encode :
    (e : KeyEncoder) (ukey item : Bytes) (idx score version : ℕ)
    → idx < u64_mod
    → score < u64_mod
    → is_nan score ≡ false
    → let key = encode_txnkv_zset_score_key e ukey score item version in
      ((decode_item_from_datakey ukey (encode_txnkv_hash_data_key e ukey item version) ≡ some item)
        × (decode_item_from_datakey ukey (encode_txnkv_set_data_key e ukey item version)
            ≡ some item)
        × (decode_item_from_datakey ukey (encode_txnkv_zset_data_key e ukey item version)
            ≡ some item))
      × (decode_key_list_idx_from_datakey ukey (encode_txnkv_list_data_key e ukey idx version)
          ≡ some idx)
      × ((decode_key_zset_score_from_scorekey ukey key
            ≡ some (if score == sign_mask then 0 else score))
          × (decode_key_zset_member_from_scorekey ukey key ≡ some item))
decode_keys-encode e ukey item idx score version hi hs hn = (
  decode_item-encode e ukey item version,
  decode_list_idx-encode e ukey idx version hi,
  decode_score_key-encode e ukey score item version hs hn,
)
