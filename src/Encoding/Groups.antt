-- ===== src/Encoding/Groups.antt =====
-- The memory-comparable form of a user key: `encode_bytes` of src/tikv/encoding/encode.rs, and
-- `decode_bytes` and `encoded_bytes_len` of src/tikv/encoding/decode.rs.
-- Groups of eight bytes are each followed by a marker, 255 less the number of padding zeros.
pub mod Slots
pub mod Laws
use tidis.Base.{
  ℕ, zero, suc, ◌+◌, ◌-◌, Option, none, some, List, [], ◌∷◌, ◌++◌, ltb, leb, ◌==◌, if◌then◌else◌,
  length, take, drop, replicate,
}
use tidis.Bytes.{Bytes}

abbrev pub enc_group_size : ℕ
enc_group_size = 8

abbrev pub enc_marker : ℕ
enc_marker = 255

-- One round of the loop of `encode_bytes`, at `index <= len`.
encode_group : Bytes → ℕ → Bytes → Bytes
encode_group key index enc =
    let remain = length key - index in
    if ltb enc_group_size remain
    then enc ++ (take enc_group_size (drop index key) ++ enc_marker ∷ [])
    else (let pad = enc_group_size - remain in
        enc ++ (drop index key ++ (replicate pad 0 ++ (enc_marker - pad) ∷ [])))

-- `while index <= len`; each round moves `index` by eight, so a fuel of `len + 1` is enough.
encode_loop : ℕ → Bytes → ℕ → Bytes → Bytes
unfolding encode_group
encode_loop zero key index enc = enc
encode_loop (suc fuel) key index enc =
    let rest = encode_loop fuel key (index + enc_group_size) (encode_group key index enc) in
    if leb index (length key) then rest else enc

unfoldable pub encode_bytes : Bytes → Bytes
unfolding encode_loop
encode_bytes key = encode_loop (length key + 1) key 0 []

-- What the loop of `decode_bytes` does with the eight bytes and the marker of one chunk; `more` is
-- the result of the rounds that follow. `none` is a panic: `split_at` past the end.
decode_chunk : Bytes → Bytes → ℕ → Option Bytes → Option Bytes
decode_chunk key bytes marker more =
    let pad_size = enc_marker - marker in
    if pad_size == 0
    then more
    else if leb pad_size enc_group_size
    then some (key ++ take (enc_group_size - pad_size) bytes)
    else none

-- The loop over `data[offset..]`; `none` is the panic of a slice past the end.
decode_loop : Bytes → Bytes → Option Bytes
unfolding decode_chunk
decode_loop key (a ∷ b ∷ c ∷ d ∷ e ∷ f ∷ g ∷ h ∷ marker ∷ rest) =
    let bytes = a ∷ b ∷ c ∷ d ∷ e ∷ f ∷ g ∷ h ∷ [] in
    decode_chunk key bytes marker (decode_loop (key ++ bytes) rest)
decode_loop key _ = none

unfoldable pub decode_bytes : Bytes → Option Bytes
unfolding decode_loop
decode_bytes encoded = decode_loop [] encoded

-- The loop of `encoded_bytes_len` with `idx = offset + 8`, over `encoded[offset..]`.
encoded_len_loop : ℕ → Bytes → ℕ
encoded_len_loop offset (a ∷ b ∷ c ∷ d ∷ e ∷ f ∷ g ∷ h ∷ marker ∷ rest) =
    let more = encoded_len_loop (offset + 9) rest in
    if marker == enc_marker then more else offset + 9
encoded_len_loop offset short = offset + length short

unfoldable pub encoded_bytes_len : Bytes → ℕ
unfolding encoded_len_loop
encoded_bytes_len encoded = encoded_len_loop 0 encoded
