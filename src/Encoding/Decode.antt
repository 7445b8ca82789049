-- ===== src/Encoding/Decode.antt =====
-- src/tikv/encoding/decode.rs: `KeyDecoder`. `none` is a panic: an index or a slice past the end, a
-- slice of the wrong size, or an unknown type byte. Scores are decoded in `Score`.
use tidis.Base.{
  ℕ, ◌+◌, Bool, Option, none, some, ◌&&◌, ◌==◌, leb, if◌then◌else◌, length, get_elem?, take, drop,
}
use tidis.Bytes.{Bytes, from_be}
use tidis.Encoding.{DataType}
use tidis.Encoding.Groups.{encode_bytes, decode_bytes, encoded_bytes_len}

infixl 5 ◌>>=◌
abbrev pub ◌>>=◌ : {A B : Type 0} → Option A → (A → Option B) → Option B
none >>= f = none
some a >>= f = f a

-- `&value[from..]`
unfoldable pub slice_from : Bytes → ℕ → Option Bytes
slice_from value from = if leb from (length value) then some (drop from value) else none

-- `&value[from..from + n]`
unfoldable pub slice : Bytes → ℕ → ℕ → Option Bytes
slice value from n = if leb (from + n) (length value) then some (take n (drop from value)) else none

-- `uN::from_be_bytes(bytes.try_into().unwrap())`, for words of `n` bytes
unfoldable pub word : ℕ → Bytes → Option ℕ
word n bytes = if length bytes == n then some (from_be 0 bytes) else none

type_of_byte : ℕ → Option DataType
type_of_byte b =
    if b == 0
    then some DataType.string
    else if b == 1
    then some DataType.hash
    else if b == 2
    then some DataType.list
    else if b == 3
    then some DataType.set
    else if b == 4
    then some DataType.zset
    else none

unfoldable pub decode_key_type : Bytes → Option DataType
unfolding type_of_byte
decode_key_type value = do b ← get_elem? value 0; type_of_byte b

unfoldable pub decode_key_ttl : Bytes → Option ℕ
decode_key_ttl value = do bytes ← slice value 1 8; word 8 bytes

unfoldable pub decode_topo_key_addr : Bytes → Option Bytes
decode_topo_key_addr value = slice_from value 4

unfoldable pub decode_topo_value : Bytes → Option ℕ
decode_topo_value value = word 8 value

-- `decode_key_string_value` and `decode_key_string_slice`
unfoldable pub decode_key_string_value : Bytes → Option Bytes
decode_key_string_value value = slice_from value 11

unfoldable pub decode_key_version : Bytes → Option ℕ
decode_key_version value = do bytes ← slice value 9 2; word 2 bytes

unfoldable pub decode_key_index_size : Bytes → Option ℕ
decode_key_index_size value = do bytes ← slice_from value 11; word 2 bytes

unfoldable pub decode_key_meta : Bytes → Option (ℕ × ℕ × ℕ)
unfolding decode_key_ttl decode_key_version decode_key_index_size
decode_key_meta value = do
  ttl ← decode_key_ttl value
  version ← decode_key_version value
  index_size ← decode_key_index_size value
  some (ttl, version, index_size)

-- what follows the place holder of a data key, as `decode_key_hash_userkey_from_datakey`,
-- `decode_key_set_member_from_datakey` and `decode_key_zset_member_from_datakey` read it
unfoldable pub decode_item_from_datakey : Bytes → Bytes → Option Bytes
decode_item_from_datakey ukey key = slice_from key (8 + length (encode_bytes ukey))

-- (ttl, version, left, right)
unfoldable pub decode_key_list_meta : Bytes → Option (ℕ × ℕ × ℕ × ℕ)
decode_key_list_meta value = do
  ttl_bytes ← slice value 1 8
  ttl ← word 8 ttl_bytes
  version_bytes ← slice value 9 2
  version ← word 2 version_bytes
  left_bytes ← slice value 11 8
  left ← word 8 left_bytes
  right_bytes ← slice_from value 19
  right ← word 8 right_bytes
  some (ttl, version, left, right)

unfoldable pub decode_key_list_idx_from_datakey : Bytes → Bytes → Option ℕ
decode_key_list_idx_from_datakey ukey key = do
  bytes ← slice_from key (8 + length (encode_bytes ukey))
  word 8 bytes

unfoldable pub decode_key_gc_userkey_version : Bytes → Option (Bytes × ℕ)
decode_key_gc_userkey_version key = do
  encoded ← slice_from key 5
  ukey ← decode_bytes encoded
  bytes ← slice key (5 + encoded_bytes_len encoded) 2
  version ← word 2 bytes
  some (ukey, version)

unfoldable pub decode_key_userkey_from_metakey : Bytes → Option (Bytes × Bool)
decode_key_userkey_from_metakey key = do
  encoded ← slice_from key 4
  let idx = 4 + encoded_bytes_len encoded
  ukey ← decode_bytes encoded
  b ← get_elem? key idx
  some (ukey, (b == b'm') && (idx + 1 == length key))
