-- ===== src/Keys/Holds.antt =====
-- What a key of any type holds, and the value that EXPIRE writes for it.
use tidis.Base.{ℕ, ◌+◌, ◌≡◌, ◌≢◌, ◌∙◌, refl, sym, Option, none, some, List, [], arith, length}
use tidis.Bytes.{Bytes}
use tidis.Encoding.{DataType}
use tidis.Encoding.Encode.{
  data_key, data_type_hash, data_type_set, encode_txnkv_string, encode_txnkv_meta_key,
  encode_txnkv_set_meta_value, encode_txnkv_hash_meta_value,
}
use tidis.Encoding.Decode.{
  decode_key_type, decode_key_ttl, decode_key_version, decode_key_meta, decode_key_index_size,
}
use tidis.Encoding.RoundTrip.Values.{
  decode_string-encode, decode_key_type-encode, decode_header-encode, decode_key_list_meta-encode,
}
use tidis.Config.{Settings}
use tidis.Txn.{Txn}
use tidis.Lists
use tidis.Lists.Holds.{Holds as ListHolds}
use tidis.Collections.{meta_key}
use tidis.Collections.Holds.{Holds}
use tidis.ZSets.{zset_meta}
use tidis.Strings.{string_key, string_value}
use tidis.Strings.Laws.{StringHolds, StringHolds-type}
use tidis.Keys.{with_timestamp}
use tidis.ZSets.Laws.{ZHolds}

-- What a key holds, apart from its expiry: the fields of a hash with their values, the scores of the
-- members of a sorted set with the sum of its counters, and the elements of a list with their indices.
pub data Content : Type 0 where
  str : (payload : Bytes) → Content
  hash : (version : ℕ) (fields : List Bytes) (values : Bytes → Option Bytes) → Content
  set : (version : ℕ) (members : List Bytes) → Content
  zset : (version : ℕ) (scores : Bytes → Option ℕ) (total : ℕ) → Content
  elements : (version left : ℕ) (elems : List Bytes) → Content

none-some : {A : Type 0} (a : A) → none ≢ some a
none-some a e = cc

-- Three readers one after the other.
three : Option ℕ → Option ℕ → Option ℕ → Option (ℕ × ℕ × ℕ)
three none b i = none
three (some x) none i = none
three (some x) (some y) none = none
three (some x) (some y) (some z) = some (x, y, z)

three-some :
    (a b i : Option ℕ) (x y z : ℕ) → three a b i ≡ some (x, y, z) → (a ≡ some x) × (b ≡ some y)
unfolding three
three-some none b i x y z h = absurd (none-some (x, y, z) h)
three-some (some u) none i x y z h = absurd (none-some (x, y, z) h)
three-some (some u) (some v) none x y z h = absurd (none-some (x, y, z) h)
three-some (some u) (some v) (some w) x y z h = (cc, cc)

decode_key_meta-three :
    (v : Bytes)
    → (a b i : Option ℕ) → decode_key_ttl v ≡ a
    → decode_key_version v ≡ b
    → decode_key_index_size v ≡ i
    → decode_key_meta v ≡ three a b i
unfolding three decode_key_meta
decode_key_meta-three v none b i ea eb ei = rw ea refl
decode_key_meta-three v (some x) none i ea eb ei = rw (ea, eb) refl
decode_key_meta-three v (some x) (some y) none ea eb ei = rw (ea, eb, ei) refl
decode_key_meta-three v (some x) (some y) (some z) ea eb ei = rw (ea, eb, ei) refl

decoded_header :
    (v : Bytes) (ttl version index : ℕ)
    → decode_key_meta v ≡ some (ttl, version, index)
    → (decode_key_ttl v ≡ some ttl) × (decode_key_version v ≡ some version)
decoded_header v ttl version index h =
    let a = decode_key_ttl v in
    let b = decode_key_version v in
    let i = decode_key_index_size v in
    three-some a b i ttl version index (sym (decode_key_meta-three v a b i refl refl refl) ∙ h)

module _ (c : Settings) (T : Txn) where
  unfoldable pub Held : T.State → Bytes → ℕ → Content → Type 0
  Held s key ttl (str payload) = StringHolds c T s key payload ttl
  Held s key ttl (hash version fields values) =
      Holds c T DataType.hash data_type_hash s key ttl version fields
      × ((field : Bytes)
          → T.get s (data_key c.encoder data_type_hash key version field) ≡ values field)
  Held s key ttl (set version members) =
      Holds c T DataType.set data_type_set s key ttl version members
  Held s key ttl (zset version scores total) = ZHolds c T s key ttl version scores total
  Held s key ttl (elements version left elems) = ListHolds c T s key ttl version left elems

  -- The value of a key, with its type, expiry and version, and the value that EXPIRE writes for it.
  pub record Stamped (s : T.State) (key : Bytes) (ttl timestamp : ℕ) (new : Bytes) : Type 0 where
    pub value : Bytes
    pub kind : DataType
    pub version : ℕ
    pub read : T.get s (string_key c T key) ≡ some value
    pub typed : decode_key_type value ≡ some kind
    pub not_null : kind ≢ DataType.null
    pub ttl_read : decode_key_ttl value ≡ some ttl
    pub version_read : decode_key_version value ≡ some version
    pub rewritten : with_timestamp c T timestamp version value kind ≡ some new

  Stamped-string :
      (s : T.State) (key payload : Bytes) (ttl timestamp : ℕ)
      → StringHolds c T s key payload ttl
      → Stamped s key ttl timestamp (string_value c T payload timestamp)
  Stamped-string s key payload ttl timestamp h =
      let (t, content) = decode_string-encode c.encoder payload ttl h.ttl_lt in
      record {
        value = string_value c T payload ttl;
        kind = DataType.string;
        version = 0;
        read = h.value;
        typed = StringHolds-type c T payload ttl;
        not_null = λ e. cc;
        ttl_read = t;
        version_read = (decode_header-encode c.encoder payload ttl 0 0 0 h.ttl_lt (omega arith)).0;
        rewritten = rw (with_timestamp, content) refl;
      }

  Stamped-collection :
      (dt : DataType) (s : T.State) (key value new : Bytes) (ttl timestamp version index : ℕ)
      → dt ≢ DataType.null
      → T.get s (meta_key c T key) ≡ some value
      → decode_key_type value ≡ some dt
      → decode_key_meta value ≡ some (ttl, version, index)
      → with_timestamp c T timestamp version value dt ≡ some new
      → Stamped s key ttl timestamp new
  unfolding encode_txnkv_string encode_txnkv_meta_key
  Stamped-collection dt s key value new ttl timestamp version index ne meta typed decoded e =
      let (ttl_read, version_read) = decoded_header value ttl version index decoded in
      record {
        value = value;
        kind = dt;
        version = version;
        read = meta;
        typed = typed;
        not_null = ne;
        ttl_read = ttl_read;
        version_read = version_read;
        rewritten = e;
      }

  Stamped-list :
      (s : T.State) (key : Bytes) (ttl timestamp version left : ℕ) (xs : List Bytes)
      → ListHolds c T s key ttl version left xs
      → Stamped s key ttl timestamp (Lists.meta_value c T timestamp version left (left + length xs))
  unfolding encode_txnkv_string encode_txnkv_meta_key
  Stamped-list s key ttl timestamp version left xs h =
      let right = left + length xs in
      let (_, ttl_read, version_read) =
        decode_header-encode c.encoder [] ttl version left right h.ttl_lt h.version_lt in
      record {
        value = Lists.meta_value c T ttl version left right;
        kind = DataType.list;
        version = version;
        read = h.meta;
        typed = (decode_key_type-encode c.encoder [] ttl version left right 0).2;
        not_null = λ e. cc;
        ttl_read = ttl_read;
        version_read = version_read;
        rewritten =
            rw
              (
                with_timestamp,
                decode_key_list_meta-encode c.encoder ttl version left right h.ttl_lt h.version_lt
                    (omega (arith, h.room)) (omega (arith, h.room)),
              )
              refl;
      }

  -- The value that EXPIRE writes for what a key holds.
  abbrev pub rewrite : ℕ → Content → Bytes
  rewrite timestamp (str payload) = string_value c T payload timestamp
  rewrite timestamp (hash version fields values) =
      encode_txnkv_hash_meta_value c.encoder timestamp version 0
  rewrite timestamp (set version members) =
      encode_txnkv_set_meta_value c.encoder timestamp version 0
  rewrite timestamp (zset version scores total) = zset_meta c T timestamp version
  rewrite timestamp (elements version left elems) =
      Lists.meta_value c T timestamp version left (left + length elems)

  pub Held-Stamped :
      (s : T.State) (key : Bytes) (ttl timestamp : ℕ) (content : Content)
      → Held s key ttl content
      → Stamped s key ttl timestamp (rewrite timestamp content)
  unfolding Held
  Held-Stamped s key ttl timestamp (str payload) h = Stamped-string s key payload ttl timestamp h
  Held-Stamped s key ttl timestamp (hash version fields values) (h, _) =
      Stamped-collection DataType.hash s key h.value
        (rewrite timestamp (hash version fields values)) ttl timestamp version h.index (λ e. cc)
        h.meta h.typed h.decoded refl
  Held-Stamped s key ttl timestamp (set version members) h =
      Stamped-collection DataType.set s key h.value (rewrite timestamp (set version members)) ttl
        timestamp version h.index (λ e. cc) h.meta h.typed h.decoded refl
  Held-Stamped s key ttl timestamp (zset version scores total) h =
      Stamped-collection DataType.zset s key h.value (rewrite timestamp (zset version scores total))
        ttl timestamp version h.index (λ e. cc) h.meta h.typed h.decoded refl
  Held-Stamped s key ttl timestamp (elements version left elems) h =
      Stamped-list s key ttl timestamp version left elems h
