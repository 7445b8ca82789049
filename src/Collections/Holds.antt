-- ===== src/Collections/Holds.antt =====
-- The abstract view of a hash's or a set's key: the items it holds, each once, and their number as the
-- sum of the counters.
use tidis.Base.{ℕ, ◌^◌, ◌<◌, ◌≡◌, ◌∙◌, true, false, none, some, List, [], ◌∷◌, length, arith}
use tidis.Base.Int.{pos, ltb_ℤ}
use tidis.Bytes.{Bytes, u16_mod}
use tidis.Encoding.{DataType}
use tidis.Encoding.Encode.{KeyRange, data_key, encode_txnkv_sub_meta_key_range}
use tidis.Encoding.Decode.{decode_key_type, decode_key_meta}
use tidis.Frame.{as_i64}
use tidis.Config.{Settings, key_is_expired}
use tidis.Txn.{Txn, contains, is_some, Distinct}
use tidis.Txn.Exec.{Exec, ok}
use tidis.Collections.{
  live, missing, is_type, sum_sizes, txnkv_sum_key_size, open_collection, meta_key,
}

pub as_i64_small : (n : ℕ) → n < 2 ^ 63 → as_i64 n ≡ pos n
unfolding as_i64
as_i64_small n h = ground (arith, h)

abbrev pub item_keys : Settings → ℕ → Bytes → ℕ → List Bytes → List Bytes
item_keys c t key version [] = []
item_keys c t key version (i ∷ is) =
    data_key c.encoder t key version i ∷ item_keys c t key version is

abbrev pub sizes : Settings → Bytes → ℕ → KeyRange
sizes c key version = encode_txnkv_sub_meta_key_range c.encoder key version

-- The items of one version, and their number, whatever the meta value is.
pub record Items (c : Settings) (T : Txn) (t : ℕ) (s : T.State) (key : Bytes) (version : ℕ)
    (items : List Bytes) : Type 0 where
  pub present :
      (i : Bytes) → is_some (T.get s (data_key c.encoder t key version i)) ≡ contains items i
  pub distinct : Distinct items
  pub counted : sum_sizes (T.scan s (sizes c key version)) ≡ some (length items)

pub record Holds (c : Settings) (T : Txn) (dt : DataType) (t : ℕ) (s : T.State) (key : Bytes)
    (ttl version : ℕ) (items : List Bytes) : Type 0 where
  pub value : Bytes
  pub index : ℕ
  pub meta : T.get s (meta_key c T key) ≡ some value
  pub typed : decode_key_type value ≡ some dt
  pub decoded : decode_key_meta value ≡ some (ttl, version, index)
  pub inside : Items c T t s key version items
  pub version_lt : version < u16_mod
  pub filled : 0 < length items
  pub room : length items < 2 ^ 63

-- Nothing of a version is left, and the key has no meta value.
pub record Gone (c : Settings) (T : Txn) (t : ℕ) (s : T.State) (key : Bytes) (version : ℕ)
    : Type 0 where
  pub meta : T.get s (meta_key c T key) ≡ none
  pub absent : (i : Bytes) → T.get s (data_key c.encoder t key version i) ≡ none
  pub no_sizes : T.scan s (sizes c key version) ≡ []

-- The items change, and the meta value stays.
pub Holds-changed :
    (c : Settings) (T : Txn) (dt : DataType) (t : ℕ) (s s' : T.State) (key : Bytes)
    (ttl version : ℕ) (items items' : List Bytes)
    → Holds c T dt t s key ttl version items
    → Items c T t s' key version items'
    → T.get s' (meta_key c T key) ≡ T.get s (meta_key c T key)
    → 0 < length items'
    → length items' < 2 ^ 63
    → Holds c T dt t s' key ttl version items'
Holds-changed c T dt t s s' key ttl version items items' h inside kept filled room = record {
  value = h.value;
  index = h.index;
  meta = kept ∙ h.meta;
  typed = h.typed;
  decoded = h.decoded;
  inside = inside;
  version_lt = h.version_lt;
  filled = filled;
  room = room;
}

module _ (c : Settings) (T : Txn) (dt : DataType) (dt_type : is_type dt dt ≡ true) where
  pub open_decoded :
      (now : ℕ) (expire : Exec T.State ℕ) (key value : Bytes) (ttl version index : ℕ) (s : T.State)
      → T.get s (meta_key c T key) ≡ some value
      → decode_key_type value ≡ some dt
      → decode_key_meta value ≡ some (ttl, version, index)
      → key_is_expired now ttl ≡ false
      → open_collection c T dt now expire key s ≡ (ok (live ttl version), s)
  unfolding open_collection
  open_decoded now expire key value ttl version index s meta typed decoded fresh =
      simp (meta, typed, decoded, dt_type, fresh)

  pub open_live :
      (t now : ℕ) (expire : Exec T.State ℕ) (key : Bytes) (ttl version : ℕ) (s : T.State)
      (items : List Bytes)
      → Holds c T dt t s key ttl version items
      → key_is_expired now ttl ≡ false
      → open_collection c T dt now expire key s ≡ (ok (live ttl version), s)
  open_live t now expire key ttl version s items h fresh =
      open_decoded now expire key h.value ttl version h.index s h.meta h.typed h.decoded fresh

  -- `txnkv_sum_key_size` of counters that add up to a positive i64.
  pub sum_counted :
      (key value : Bytes) (version n : ℕ) (s : T.State)
      → T.get s (meta_key c T key) ≡ some value
      → decode_key_type value ≡ some dt
      → sum_sizes (T.scan s (sizes c key version)) ≡ some n
      → 0 < n
      → n < 2 ^ 63
      → txnkv_sum_key_size c T dt key version s ≡ (ok n, s)
  unfolding txnkv_sum_key_size as_i64
  sum_counted key value version n s meta typed counted filled room =
      let p : ltb_ℤ (pos 0) (as_i64 n) ≡ true = ground (arith, room, filled) in
      simp (meta, typed, dt_type, counted, p)

  pub sum_live :
      (t : ℕ) (key : Bytes) (ttl version : ℕ) (s : T.State) (items : List Bytes)
      → Holds c T dt t s key ttl version items
      → txnkv_sum_key_size c T dt key version s ≡ (ok (length items), s)
  sum_live t key ttl version s items h =
      sum_counted key h.value version (length items) s h.meta h.typed h.inside.counted h.filled
        h.room

  pub open_missing :
      (now : ℕ) (expire : Exec T.State ℕ) (key : Bytes) (s : T.State)
      → T.get s (meta_key c T key) ≡ none
      → open_collection c T dt now expire key s ≡ (ok missing, s)
  unfolding open_collection
  open_missing now expire key s h = simp h
