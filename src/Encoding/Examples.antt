-- ===== src/Encoding/Examples.antt =====
-- The encoding theorems at concrete keys and values.
use tidis.Base.{
  ℕ, ◌≡◌, ◌↔◌, refl, true, Option, some, [], ◌∷◌, ◌++◌, arith, Ordering, if◌then◌else◌, replicate,
}
use tidis.Bytes.{Bytes, lex, then_cmp}
use tidis.Encoding.Groups.{encode_bytes, decode_bytes}
use tidis.Encoding.Groups.Laws.{lex-encode_bytes, decode_bytes-encode_bytes}
use tidis.Encoding.Encode.{
  KeyEncoder, data_key, data_key_range, encode_txnkv_list_meta_value, encode_txnkv_string_value,
  encode_txnkv_hash_meta_value, encode_txnkv_set_meta_value, encode_txnkv_zset_meta_value,
  encode_txnkv_hash_data_key, encode_txnkv_set_data_key, encode_txnkv_zset_data_key,
  encode_txnkv_list_data_key,
}
use tidis.Encoding.Decode.{
  decode_key_list_meta, decode_key_meta, decode_key_ttl, decode_key_string_value,
  decode_item_from_datakey, decode_key_list_idx_from_datakey,
}
use tidis.Encoding.RoundTrip.Values.{decode_values-encode, stored_size}
use tidis.Encoding.RoundTrip.Keys.{decode_keys-encode}
use tidis.Encoding.Order.{in_range, lex-list_data_key, lex-score_key, in_range-data_key}
use tidis.Encoding.Score.{
  encode_f64_to_cmp_uint64, decode_cmp_uint64_to_f64, f64_ltb, encode_txnkv_zset_score_key,
  decode_key_zset_score_from_scorekey, decode_key_zset_member_from_scorekey,
}
use tidis.Encoding.Score.Laws.{decode_encode_f64}

abbrev encoder : KeyEncoder
encoder = record { instance_id = (0, 1); meta_key_number = 10 }

-- one group of eight, and one byte more
abbrev long_key : Bytes
long_key = replicate 9 b'a'

abbrev short_key : Bytes
short_key = b'a' ∷ []

-- The patterns of 1.0 and of -1.0.
abbrev one : ℕ
one = 0x3ff0000000000000

abbrev minus_one : ℕ
minus_one = 0xbff0000000000000

encode_bytes_short : encode_bytes short_key ≡ b'a' ∷ 0 ∷ 0 ∷ 0 ∷ 0 ∷ 0 ∷ 0 ∷ 0 ∷ 248 ∷ []
unfolding encode_bytes
encode_bytes_short = refl

encode_bytes_full :
    encode_bytes (replicate 8 b'a') ≡ replicate 8 b'a' ++ 255 ∷ (replicate 8 0 ++ 247 ∷ [])
unfolding encode_bytes
encode_bytes_full = refl

scores_at_work : encode_f64_to_cmp_uint64 minus_one ≡ 0x400fffffffffffff
unfolding encode_f64_to_cmp_uint64
scores_at_work = refl

lex-encode_bytes_example :
    lex (encode_bytes short_key ++ 255 ∷ []) (encode_bytes long_key ++ 0 ∷ [])
    ≡ then_cmp (lex short_key long_key) (lex (255 ∷ []) (0 ∷ []))
lex-encode_bytes_example = lex-encode_bytes short_key long_key (255 ∷ []) (0 ∷ [])

decode_bytes-encode_bytes_example :
    decode_bytes (encode_bytes long_key ++ b'm' ∷ []) ≡ some long_key
decode_bytes-encode_bytes_example = decode_bytes-encode_bytes long_key (b'm' ∷ [])

decode_values-encode_example :
    let read : Option (ℕ × ℕ × ℕ) = some (5, 1, stored_size encoder 0) in
    ((decode_key_ttl (encode_txnkv_string_value encoder short_key 5) ≡ some 5)
      × (decode_key_string_value (encode_txnkv_string_value encoder short_key 5) ≡ some short_key))
    × (decode_key_list_meta (encode_txnkv_list_meta_value encoder 5 1 100 103)
        ≡ some (5, 1, 100, 103))
    × ((decode_key_meta (encode_txnkv_hash_meta_value encoder 5 1 0) ≡ read)
        × (decode_key_meta (encode_txnkv_set_meta_value encoder 5 1 0) ≡ read)
        × (decode_key_meta (encode_txnkv_zset_meta_value encoder 5 1 0) ≡ read))
decode_values-encode_example =
    decode_values-encode encoder short_key 5 1 0 100 103 (omega arith) (omega arith) (omega arith)
      (omega arith) (omega arith) (omega arith)

decode_keys-encode_example :
    let key = encode_txnkv_zset_score_key encoder long_key minus_one short_key 2 in
    ((decode_item_from_datakey long_key (encode_txnkv_hash_data_key encoder long_key short_key 2)
        ≡ some short_key)
      × (decode_item_from_datakey long_key (encode_txnkv_set_data_key encoder long_key short_key 2)
          ≡ some short_key)
      × (decode_item_from_datakey long_key (encode_txnkv_zset_data_key encoder long_key short_key 2)
          ≡ some short_key))
    × (decode_key_list_idx_from_datakey long_key (encode_txnkv_list_data_key encoder long_key 77 2)
        ≡ some 77)
    × ((decode_key_zset_score_from_scorekey long_key key ≡ some minus_one)
        × (decode_key_zset_member_from_scorekey long_key key ≡ some short_key))
decode_keys-encode_example =
    decode_keys-encode encoder long_key short_key 77 minus_one 2 (omega arith) (omega arith) refl

lex-list_data_key_example :
    lex
      (encode_txnkv_list_data_key encoder long_key 255 2)
      (encode_txnkv_list_data_key encoder long_key 256 2)
    ≡ Ordering.lt
lex-list_data_key_example =
    lex-list_data_key encoder long_key 255 256 2 (omega arith) (omega arith) (omega arith)

lex-score_key_example :
    lex
      (encode_txnkv_zset_score_key encoder long_key minus_one long_key 2)
      (encode_txnkv_zset_score_key encoder long_key one short_key 2)
    ≡ (if f64_ltb minus_one one
        then Ordering.lt
        else if f64_ltb one minus_one
        then Ordering.gt
        else lex long_key short_key)
lex-score_key_example =
    lex-score_key encoder long_key minus_one one long_key short_key 2 (omega arith) (omega arith)
      refl refl (omega arith)

in_range-data_key_example :
    (in_range (data_key_range encoder b'h' short_key 1) (data_key encoder b'h' long_key 1 short_key)
      ≡ true)
    ↔ ((◌≡◌ {A = ℕ} b'h' b'h') × (short_key ≡ long_key) × (◌≡◌ {A = ℕ} 1 1))
in_range-data_key_example =
    in_range-data_key encoder b'h' b'h' short_key long_key 1 1 short_key (omega arith) (omega arith)

decode_encode_f64_example :
    decode_cmp_uint64_to_f64 (encode_f64_to_cmp_uint64 minus_one) ≡ minus_one
decode_encode_f64_example = decode_encode_f64 minus_one (omega arith) refl
