-- ===== src/Encoding/RoundTrip/Values.antt =====
-- Values: the decoder reads back the type, the expiry, the version and the payload.
use tidis.Base.{
  ℕ, ◌<◌, ◌≡◌, ◌∙◌, refl, sym, ap, Option, some, [], ◌∷◌, ◌++◌, arith, ◌==◌, if◌then◌else◌, length,
  length-append, append_assoc,
}
use tidis.Bytes.{Bytes, u64_be, u16_be, u64_mod, u16_mod}
use tidis.Bytes.BigEndian.{length-u64_be, length-u16_be}
use tidis.Encoding.{DataType}
use tidis.Encoding.Encode.{
  KeyEncoder, get_type_bytes, encode_txnkv_string_value, encode_txnkv_hash_meta_value,
  encode_txnkv_set_meta_value, encode_txnkv_zset_meta_value, encode_txnkv_list_meta_value,
}
use tidis.Encoding.Decode.{
  slice, slice_from, decode_key_type, decode_key_ttl, decode_key_version, decode_key_meta,
  decode_key_list_meta, decode_key_string_value,
}
use tidis.Encoding.RoundTrip.Slices.{slice_at, slice_from_at, word-u64_be, word-u16_be}

-- A value starts with its type, its expiry and its version.
sym_assoc : (a b c : Bytes) → a ++ (b ++ c) ≡ (a ++ b) ++ c
sym_assoc a b c = sym (append_assoc a b c)

module _ (t ttl version : ℕ) (rest : Bytes) where
  abbrev value : Bytes
  value = t ∷ (u64_be ttl ++ (u16_be version ++ rest))

  ttl_slice : slice value 1 8 ≡ some (u64_be ttl)
  ttl_slice = slice_at (t ∷ []) (u64_be ttl) (u16_be version ++ rest) 1 8 refl (length-u64_be ttl)

  version_slice : slice value 9 2 ≡ some (u16_be version)
  version_slice =
      slice_at (t ∷ u64_be ttl) (u16_be version) rest 9 2 (omega (arith, length-u64_be ttl))
        (length-u16_be version)

  rest_slice : slice_from value 11 ≡ some rest
  rest_slice =
      ap (λ v. slice_from (t ∷ v) 11) (sym_assoc (u64_be ttl) (u16_be version) rest)
      ∙ slice_from_at (t ∷ (u64_be ttl ++ u16_be version)) rest 11 (
          omega (
            arith,
            length-append (u64_be ttl) (u16_be version),
            length-u64_be ttl,
            length-u16_be version,
          ))

module _ (t ttl version left right : ℕ) where
  abbrev header : Bytes
  header = t ∷ (u64_be ttl ++ u16_be version)

  length-header : length header ≡ 11
  length-header =
      omega (
        arith,
        length-append (u64_be ttl) (u16_be version),
        length-u64_be ttl,
        length-u16_be version,
      )

  left_slice : slice (value t ttl version (u64_be left ++ u64_be right)) 11 8 ≡ some (u64_be left)
  left_slice =
      ap (λ v. slice (t ∷ v) 11 8)
        (sym_assoc (u64_be ttl) (u16_be version) (u64_be left ++ u64_be right))
      ∙ slice_at header (u64_be left) (u64_be right) 11 8 length-header (length-u64_be left)

  right_slice :
      slice_from (value t ttl version (u64_be left ++ u64_be right)) 19 ≡ some (u64_be right)
  right_slice =
      ap (λ v. slice_from (t ∷ v) 19)
        (sym_assoc (u64_be ttl) (u16_be version) (u64_be left ++ u64_be right)
          ∙ sym_assoc (u64_be ttl ++ u16_be version) (u64_be left) (u64_be right))
      ∙ slice_from_at (header ++ u64_be left) (u64_be right) 19
          (omega (arith, length-append header (u64_be left), length-header, length-u64_be left))

-- The four fields of a list's meta value come back, and its type is the list's.
pub decode_key_list_meta-encode :
    (e : KeyEncoder) (ttl version left right : ℕ)
    → ttl < u64_mod
    → version < u16_mod
    → left < u64_mod
    → right < u64_mod
    → decode_key_list_meta (encode_txnkv_list_meta_value e ttl version left right)
      ≡ some (ttl, version, left, right)
unfolding decode_key_list_meta encode_txnkv_list_meta_value
decode_key_list_meta-encode e ttl version left right ht hv hl hr =
    let t = get_type_bytes DataType.list in
    simp (
      ttl_slice t ttl version (u64_be left ++ u64_be right),
      word-u64_be ttl ht,
      version_slice t ttl version (u64_be left ++ u64_be right),
      word-u16_be version hv,
      left_slice t ttl version left right,
      word-u64_be left hl,
      right_slice t ttl version left right,
      word-u64_be right hr,
    )

meta_parts :
    (t ttl version size : ℕ)
    → ttl < u64_mod
    → version < u16_mod
    → size < u16_mod
    → decode_key_meta (value t ttl version (u16_be size)) ≡ some (ttl, version, size)
unfolding decode_key_meta
meta_parts t ttl version size ht hv hs = simp (
  ttl_slice t ttl version (u16_be size),
  word-u64_be ttl ht,
  version_slice t ttl version (u16_be size),
  word-u16_be version hv,
  rest_slice t ttl version (u16_be size),
  word-u16_be size hs,
)

-- The size that a meta value holds: the configured number for a new key, else the size given.
pub stored_size : KeyEncoder → ℕ → ℕ
stored_size e size = if size == 0 then e.meta_key_number else size

stored_size-lt :
    (e : KeyEncoder) (size : ℕ)
    → e.meta_key_number < u16_mod
    → size < u16_mod
    → stored_size e size < u16_mod
unfolding stored_size
stored_size-lt e size he hs = ground arith

-- Meta values of hashes, sets and sorted sets: the expiry, the version and the number of sub meta
-- keys come back, where an index size of 0 stands for the configured number.
pub decode_key_meta-encode :
    (e : KeyEncoder) (ttl version size : ℕ)
    → ttl < u64_mod
    → version < u16_mod
    → size < u16_mod
    → e.meta_key_number < u16_mod
    → let read : Option (ℕ × ℕ × ℕ) = some (ttl, version, stored_size e size) in
      (decode_key_meta (encode_txnkv_hash_meta_value e ttl version size) ≡ read)
      × (decode_key_meta (encode_txnkv_set_meta_value e ttl version size) ≡ read)
      × (decode_key_meta (encode_txnkv_zset_meta_value e ttl version size) ≡ read)
unfolding encode_txnkv_hash_meta_value encode_txnkv_set_meta_value encode_txnkv_zset_meta_value
    stored_size
decode_key_meta-encode e ttl version size ht hv hs he = (
  meta_parts (get_type_bytes DataType.hash) ttl version (stored_size e size) ht hv
      (stored_size-lt e size he hs),
  meta_parts (get_type_bytes DataType.set) ttl version (stored_size e size) ht hv
      (stored_size-lt e size he hs),
  meta_parts (get_type_bytes DataType.zset) ttl version (stored_size e size) ht hv
      (stored_size-lt e size he hs),
)

-- A string value's expiry and payload come back.
pub decode_string-encode :
    (e : KeyEncoder) (payload : Bytes) (ttl : ℕ)
    → ttl < u64_mod
    → (decode_key_ttl (encode_txnkv_string_value e payload ttl) ≡ some ttl)
      × (decode_key_string_value (encode_txnkv_string_value e payload ttl) ≡ some payload)
unfolding decode_key_ttl decode_key_string_value encode_txnkv_string_value
decode_string-encode e payload ttl ht =
    let t = get_type_bytes DataType.string in
    rw (append_assoc (u64_be ttl) (u16_be 0) payload)
      (rw (ttl_slice t ttl 0 payload, rest_slice t ttl 0 payload) (word-u64_be ttl ht, refl))

-- Every value has its expiry and its version at the same places; a string's version is 0.
pub decode_header-encode :
    (e : KeyEncoder) (payload : Bytes) (ttl version left right : ℕ)
    → ttl < u64_mod
    → version < u16_mod
    → (decode_key_version (encode_txnkv_string_value e payload ttl) ≡ some 0)
      × (decode_key_ttl (encode_txnkv_list_meta_value e ttl version left right) ≡ some ttl)
      × (decode_key_version (encode_txnkv_list_meta_value e ttl version left right) ≡ some version)
unfolding decode_key_ttl decode_key_version encode_txnkv_string_value encode_txnkv_list_meta_value
decode_header-encode e payload ttl version left right ht hv =
    let t = get_type_bytes DataType.string in
    let u = get_type_bytes DataType.list in
    let ends = u64_be left ++ u64_be right in
    (
      rw (append_assoc (u64_be ttl) (u16_be 0) payload)
          (rw (version_slice t ttl 0 payload) (word-u16_be 0 (omega arith))),
      rw (ttl_slice u ttl version ends) (word-u64_be ttl ht),
      rw (version_slice u ttl version ends) (word-u16_be version hv),
    )

-- Every value says its type.
pub decode_key_type-encode :
    (e : KeyEncoder) (payload : Bytes) (ttl version left right size : ℕ)
    → (decode_key_type (encode_txnkv_string_value e payload ttl) ≡ some DataType.string)
      × (decode_key_type (encode_txnkv_hash_meta_value e ttl version size) ≡ some DataType.hash)
      × (decode_key_type (encode_txnkv_list_meta_value e ttl version left right)
          ≡ some DataType.list)
      × (decode_key_type (encode_txnkv_set_meta_value e ttl version size) ≡ some DataType.set)
      × (decode_key_type (encode_txnkv_zset_meta_value e ttl version size) ≡ some DataType.zset)
unfolding decode_key_type encode_txnkv_string_value encode_txnkv_hash_meta_value
    encode_txnkv_list_meta_value encode_txnkv_set_meta_value encode_txnkv_zset_meta_value
    get_type_bytes
decode_key_type-encode e payload ttl version left right size = (refl, refl, refl, refl, refl)

-- The values come back within their widths: the expiry and the payload of a string, the four fields of
-- a list's meta value, and the expiry, the version and the number of sub meta keys of the meta values of
-- hashes, sets and sorted sets, where an index size of 0 stands for the configured number.
pub decode_values-encode :
    (e : KeyEncoder) (payload : Bytes) (ttl version size left right : ℕ)
    → ttl < u64_mod
    → version < u16_mod
    → size < u16_mod
    → e.meta_key_number < u16_mod
    → left < u64_mod
    → right < u64_mod
    → let read : Option (ℕ × ℕ × ℕ) = some (ttl, version, stored_size e size) in
      ((decode_key_ttl (encode_txnkv_string_value e payload ttl) ≡ some ttl)
        × (decode_key_string_value (encode_txnkv_string_value e payload ttl) ≡ some payload))
      × (decode_key_list_meta (encode_txnkv_list_meta_value e ttl version left right)
          ≡ some (ttl, version, left, right))
      × ((decode_key_meta (encode_txnkv_hash_meta_value e ttl version size) ≡ read)
          × (decode_key_meta (encode_txnkv_set_meta_value e ttl version size) ≡ read)
          × (decode_key_meta (encode_txnkv_zset_meta_value e ttl version size) ≡ read))
decode_values-encode e payload ttl version size left right ht hv hs he hl hr = (
  decode_string-encode e payload ttl ht,
  decode_key_list_meta-encode e ttl version left right ht hv hl hr,
  decode_key_meta-encode e ttl version size ht hv hs he,
)
