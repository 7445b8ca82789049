-- ===== src/Encoding/Encode.antt =====
-- src/tikv/encoding/encode.rs: `KeyEncoder`, one function for each of its methods but those on
-- scores (`Score`) and `encode_bytes` (`Groups`). A key, a field or a member (`&str`) is its bytes.
use tidis.Base.{ℕ, ◌+◌, Bool, true, false, List, [], ◌∷◌, ◌++◌, map, ◌==◌, if◌then◌else◌}
use tidis.Bytes.{Bytes, u64_be, u16_be}
use tidis.Encoding.{DataType}
use tidis.Encoding.Groups.{encode_bytes}

pub record KeyEncoder : Type 0 where
  -- the two bytes of the instance id
  pub instance_id : ℕ × ℕ
  pub meta_key_number : ℕ

abbrev pub raw_key_prefix : ℕ
raw_key_prefix = b'r'

abbrev pub txn_key_prefix : ℕ
txn_key_prefix = b'x'

abbrev pub data_type_user : ℕ
data_type_user = b'u'

abbrev pub data_type_user_end : ℕ
data_type_user_end = b'v'

abbrev pub data_type_topo : ℕ
data_type_topo = b't'

abbrev pub data_type_gc : ℕ
data_type_gc = b'g'

abbrev pub data_type_gc_version : ℕ
data_type_gc_version = b'v'

abbrev pub data_type_meta : ℕ
data_type_meta = b'm'

abbrev pub data_type_score : ℕ
data_type_score = b'S'

abbrev pub data_type_hash : ℕ
data_type_hash = b'h'

abbrev pub data_type_list : ℕ
data_type_list = b'l'

abbrev pub data_type_set : ℕ
data_type_set = b's'

abbrev pub data_type_zset : ℕ
data_type_zset = b'z'

abbrev pub place_holder : ℕ
place_holder = 96

-- `BoundRange`: from `start`, to `stop` or past it
pub record KeyRange : Type 0 where
  pub start : Bytes
  pub stop : Bytes
  pub inclusive : Bool

unfoldable pub get_type_bytes : DataType → ℕ
get_type_bytes DataType.string = 0
get_type_bytes DataType.hash = 1
get_type_bytes DataType.list = 2
get_type_bytes DataType.set = 3
get_type_bytes DataType.zset = 4
get_type_bytes DataType.null = 5

module _ (e : KeyEncoder) where
  -- the instance's prefix of a key, and the bytes that follow it
  abbrev pub prefixed : ℕ → Bytes → Bytes
  prefixed p rest = p ∷ e.instance_id.0 ∷ e.instance_id.1 ∷ rest

  unfoldable pub encode_txnkv_cluster_topo : Bytes → Bytes
  encode_txnkv_cluster_topo addr = prefixed txn_key_prefix (data_type_topo ∷ addr)

  unfoldable pub encode_txnkv_cluster_topo_value : ℕ → Bytes
  encode_txnkv_cluster_topo_value ttl = u64_be ttl

  unfoldable pub encode_txnkv_cluster_topo_start : Bytes
  encode_txnkv_cluster_topo_start = prefixed txn_key_prefix (data_type_topo ∷ [])

  unfoldable pub encode_txnkv_cluster_topo_end : Bytes
  encode_txnkv_cluster_topo_end = prefixed txn_key_prefix (data_type_topo ∷ place_holder ∷ [])

  unfoldable pub encode_rawkv_string : Bytes → Bytes
  encode_rawkv_string ukey = prefixed raw_key_prefix (data_type_meta ∷ ukey)

  unfoldable pub encode_txnkv_string : Bytes → Bytes
  encode_txnkv_string ukey =
      prefixed txn_key_prefix (data_type_user ∷ (encode_bytes ukey ++ data_type_meta ∷ []))

  encode_txnkv_string_internal : ℕ → ℕ → Bytes
  unfolding get_type_bytes
  encode_txnkv_string_internal ttl version =
      get_type_bytes DataType.string ∷ (u64_be ttl ++ u16_be version)

  -- `encode_txnkv_string_slice` copies the value and `encode_txnkv_string_value` moves it.
  unfoldable pub encode_txnkv_string_value : Bytes → ℕ → Bytes
  unfolding encode_txnkv_string_internal
  encode_txnkv_string_value value ttl = encode_txnkv_string_internal ttl 0 ++ value

  unfoldable pub encode_rawkv_strings : List Bytes → List Bytes
  encode_rawkv_strings keys = map encode_rawkv_string keys

  unfoldable pub encode_txnkv_strings : List Bytes → List Bytes
  encode_txnkv_strings keys = map encode_txnkv_string keys

  -- `encode_txnkv_meta_common_prefix`, with what is pushed after it
  abbrev pub meta_common_prefix : Bytes → Bytes → Bytes
  meta_common_prefix enc_ukey rest =
      prefixed txn_key_prefix (data_type_user ∷ (enc_ukey ++ data_type_meta ∷ rest))

  unfoldable pub encode_txnkv_meta_key : Bytes → Bytes
  encode_txnkv_meta_key ukey = meta_common_prefix (encode_bytes ukey) []

  unfoldable pub encode_txnkv_keyspace_end : Bytes
  encode_txnkv_keyspace_end = prefixed txn_key_prefix (data_type_user_end ∷ [])

  unfoldable pub encode_txnkv_sub_meta_key : Bytes → ℕ → ℕ → Bytes
  encode_txnkv_sub_meta_key ukey version idx =
      meta_common_prefix (encode_bytes ukey) (u16_be version ++ place_holder ∷ u16_be idx)

  unfoldable pub encode_txnkv_sub_meta_key_start : Bytes → ℕ → Bytes
  encode_txnkv_sub_meta_key_start ukey version =
      meta_common_prefix (encode_bytes ukey) (u16_be version ++ place_holder ∷ [])

  unfoldable pub encode_txnkv_sub_meta_key_end : Bytes → ℕ → Bytes
  encode_txnkv_sub_meta_key_end ukey version =
      meta_common_prefix (encode_bytes ukey) (u16_be version ++ (place_holder + 1) ∷ [])

  unfoldable pub encode_txnkv_sub_meta_key_range : Bytes → ℕ → KeyRange
  encode_txnkv_sub_meta_key_range key version = record {
    start = encode_txnkv_sub_meta_key_start key version;
    stop = encode_txnkv_sub_meta_key_end key version;
    inclusive = false;
  }

  -- `encode_txnkv_type_data_key_prefix`, with what is pushed after it
  abbrev pub type_data_key : ℕ → Bytes → ℕ → Bytes → Bytes
  type_data_key key_type ukey version rest =
      prefixed txn_key_prefix
        (data_type_user ∷ (encode_bytes ukey ++ key_type ∷ (u16_be version ++ rest)))

  -- the key of one item of a collection, and the ends of the range of its items
  abbrev pub data_key : ℕ → Bytes → ℕ → Bytes → Bytes
  data_key key_type ukey version item = type_data_key key_type ukey version (place_holder ∷ item)

  abbrev pub data_key_end : ℕ → Bytes → ℕ → Bytes
  data_key_end key_type ukey version = type_data_key key_type ukey version ((place_holder + 1) ∷ [])

  abbrev pub data_key_range : ℕ → Bytes → ℕ → KeyRange
  data_key_range key_type ukey version = record {
    start = data_key key_type ukey version [];
    stop = data_key_end key_type ukey version;
    inclusive = false;
  }

  unfoldable pub encode_txnkv_hash_data_key : Bytes → Bytes → ℕ → Bytes
  encode_txnkv_hash_data_key ukey field version = data_key data_type_hash ukey version field

  unfoldable pub encode_txnkv_hash_data_key_range : Bytes → ℕ → KeyRange
  encode_txnkv_hash_data_key_range ukey version = data_key_range data_type_hash ukey version

  -- the index size of a meta value: 0 stands for a new key, which takes the configured number
  abbrev index_size_or_default : ℕ → ℕ
  index_size_or_default index_size = if index_size == 0 then e.meta_key_number else index_size

  abbrev collection_meta_value : DataType → ℕ → ℕ → ℕ → Bytes
  collection_meta_value dt ttl version index_size =
      get_type_bytes dt
      ∷ (u64_be ttl ++ (u16_be version ++ u16_be (index_size_or_default index_size)))

  unfoldable pub encode_txnkv_hash_meta_value : ℕ → ℕ → ℕ → Bytes
  encode_txnkv_hash_meta_value ttl version index_size =
      collection_meta_value DataType.hash ttl version index_size

  unfoldable pub encode_txnkv_list_data_key : Bytes → ℕ → ℕ → Bytes
  encode_txnkv_list_data_key ukey idx version = data_key data_type_list ukey version (u64_be idx)

  unfoldable pub encode_txnkv_list_data_key_idx_range : Bytes → ℕ → ℕ → ℕ → KeyRange
  encode_txnkv_list_data_key_idx_range key start stop version = record {
    start = encode_txnkv_list_data_key key start version;
    stop = encode_txnkv_list_data_key key stop version;
    inclusive = true;
  }

  unfoldable pub encode_txnkv_list_data_key_range : Bytes → ℕ → KeyRange
  encode_txnkv_list_data_key_range ukey version = data_key_range data_type_list ukey version

  unfoldable pub encode_txnkv_list_meta_value : ℕ → ℕ → ℕ → ℕ → Bytes
  encode_txnkv_list_meta_value ttl version left right =
      get_type_bytes DataType.list
      ∷ (u64_be ttl ++ (u16_be version ++ (u64_be left ++ u64_be right)))

  unfoldable pub encode_txnkv_set_meta_value : ℕ → ℕ → ℕ → Bytes
  encode_txnkv_set_meta_value ttl version index_size =
      collection_meta_value DataType.set ttl version index_size

  unfoldable pub encode_txnkv_set_data_key : Bytes → Bytes → ℕ → Bytes
  encode_txnkv_set_data_key ukey member version = data_key data_type_set ukey version member

  unfoldable pub encode_txnkv_set_data_key_range : Bytes → ℕ → KeyRange
  encode_txnkv_set_data_key_range ukey version = data_key_range data_type_set ukey version

  unfoldable pub encode_txnkv_zset_meta_value : ℕ → ℕ → ℕ → Bytes
  encode_txnkv_zset_meta_value ttl version index_size =
      collection_meta_value DataType.zset ttl version index_size

  unfoldable pub encode_txnkv_zset_data_key : Bytes → Bytes → ℕ → Bytes
  encode_txnkv_zset_data_key ukey member version = data_key data_type_zset ukey version member

  unfoldable pub encode_txnkv_zset_data_key_range : Bytes → ℕ → KeyRange
  encode_txnkv_zset_data_key_range ukey version = data_key_range data_type_zset ukey version

  abbrev gc_key_prefix : ℕ → Bytes → Bytes → Bytes
  gc_key_prefix data_type ukey rest =
      prefixed txn_key_prefix (data_type ∷ place_holder ∷ (encode_bytes ukey ++ rest))

  unfoldable pub encode_txnkv_gc_key : Bytes → Bytes
  encode_txnkv_gc_key ukey = gc_key_prefix data_type_gc ukey []

  unfoldable pub encode_txnkv_gc_version_key : Bytes → ℕ → Bytes
  encode_txnkv_gc_version_key ukey version =
      gc_key_prefix data_type_gc_version ukey (u16_be version)

  abbrev gc_version_key_bound : Bool → Bytes
  gc_version_key_bound start =
      prefixed txn_key_prefix
        (data_type_gc_version ∷ (if start then place_holder else place_holder + 1) ∷ [])

  unfoldable pub encode_txnkv_gc_version_key_range : KeyRange
  encode_txnkv_gc_version_key_range = record {
    start = gc_version_key_bound true;
    stop = gc_version_key_bound false;
    inclusive = false;
  }
