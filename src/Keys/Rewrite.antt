-- ===== src/Keys/Rewrite.antt =====
-- What a key holds stays under the meta value that EXPIRE writes.
use tidis.Base.{ℕ, ◌<◌, ◌≡◌, ◌≢◌, ◌∙◌, refl, ap, Option, some, List, [], arith}
use tidis.Bytes.{Bytes, u16_mod, u64_mod}
use tidis.Bytes.Lex.{bytes_eq_refl, bytes_eq_sym}
use tidis.Encoding.{DataType}
use tidis.Encoding.Encode.{
  data_key, data_type_meta, data_type_hash, data_type_set, encode_txnkv_string,
  encode_txnkv_meta_key,
}
use tidis.Encoding.Decode.{decode_key_type, decode_key_meta}
use tidis.Encoding.RoundTrip.Values.{decode_key_type-encode, decode_key_meta-encode, stored_size}
use tidis.Config.{Settings}
use tidis.Txn.{Txn}
use tidis.Lists.Holds.{meta_written}
use tidis.Collections.{meta_key, sum_sizes}
use tidis.Collections.Holds.{Holds, sizes}
use tidis.Collections.Gone.{Items-put_meta}
use tidis.ZSets.{zset_meta}
use tidis.Strings.{string_key}
use tidis.Strings.Laws.{put-StringHolds}
use tidis.Encoding.Apart.{bytes_eq-data-meta}
use tidis.Txn.Scan.{scan-put}
use tidis.ZSets.Laws.{ZHolds}
use tidis.ZSets.New.{Indexed-put_meta, meta-outside}
use tidis.Keys.Holds.{Content, str, hash, set, zset, elements, Held, rewrite}

module _ (c : Settings) (T : Txn) where
  Holds-put_meta :
      (dt : DataType) (t : ℕ) (s : T.State) (key new : Bytes) (ttl timestamp version index : ℕ)
      (is : List Bytes)
      → t ≢ data_type_meta
      → Holds c T dt t s key ttl version is
      → decode_key_type new ≡ some dt
      → decode_key_meta new ≡ some (timestamp, version, index)
      → Holds c T dt t (T.put s (string_key c T key) new) key timestamp version is
  unfolding encode_txnkv_string encode_txnkv_meta_key
  Holds-put_meta dt t s key new ttl timestamp version index is apart h typed decoded = record {
    value = new;
    index = index;
    meta =
        T.get-put s (meta_key c T key) new (meta_key c T key)
        ∙ rw (bytes_eq_refl (meta_key c T key)) refl;
    typed = typed;
    decoded = decoded;
    inside = Items-put_meta c T t apart key version h.version_lt s is new h.inside;
    version_lt = h.version_lt;
    filled = h.filled;
    room = h.room;
  }

  values-put_meta :
      (s : T.State) (key new : Bytes) (version : ℕ) (values : Bytes → Option Bytes)
      → ((field : Bytes)
          → T.get s (data_key c.encoder data_type_hash key version field) ≡ values field)
      → (field : Bytes)
      → T.get
          (T.put s (string_key c T key) new)
          (data_key c.encoder data_type_hash key version field)
        ≡ values field
  unfolding encode_txnkv_string encode_txnkv_meta_key
  values-put_meta s key new version values h field =
      let k = data_key c.encoder data_type_hash key version field in
      T.get-put s (meta_key c T key) new k
      ∙ rw
          (
            bytes_eq_sym (meta_key c T key) k,
            bytes_eq-data-meta c.encoder data_type_hash key key version field,
          )
          (h field)

  ZHolds-put_meta :
      (s : T.State) (key : Bytes) (ttl timestamp version n : ℕ) (f : Bytes → Option ℕ)
      → ZHolds c T s key ttl version f n
      → timestamp < u64_mod
      → c.encoder.meta_key_number < u16_mod
      → ZHolds c T
          (T.put s (string_key c T key) (zset_meta c T timestamp version))
          key
          timestamp
          version
          f
          n
  unfolding encode_txnkv_string encode_txnkv_meta_key
  ZHolds-put_meta s key ttl timestamp version n f h ht hn =
      let v = zset_meta c T timestamp version in
      let k = meta_key c T key in
      record {
        value = v;
        index = stored_size c.encoder 0;
        meta = T.get-put s k v k ∙ rw (bytes_eq_refl k) refl;
        typed = (decode_key_type-encode c.encoder [] timestamp version 0 0 0).4;
        decoded =
            (decode_key_meta-encode c.encoder timestamp version 0 ht h.version_lt (omega arith)
              hn).2;
        inside = Indexed-put_meta c T key version h.version_lt s f v h.inside;
        counted =
            ap sum_sizes (
              scan-put T s k v (sizes c key version)
              ∙ rw (meta-outside c T key version h.version_lt) refl)
            ∙ h.counted;
        version_lt = h.version_lt;
        filled = h.filled;
        room = h.room;
      }

  pub Held-rewrite :
      (s : T.State) (key : Bytes) (ttl timestamp : ℕ) (content : Content)
      → Held c T s key ttl content
      → timestamp < u64_mod
      → c.encoder.meta_key_number < u16_mod
      → Held c T
          (T.put s (string_key c T key) (rewrite c T timestamp content))
          key
          timestamp
          content
  unfolding Held encode_txnkv_string encode_txnkv_meta_key
  Held-rewrite s key ttl timestamp (str payload) h ht hn =
      put-StringHolds c T key payload timestamp s ht
  Held-rewrite s key ttl timestamp (hash version fields values) (h, read) ht hn =
      let new = rewrite c T timestamp (hash version fields values) in
      let decoded =
        (decode_key_meta-encode c.encoder timestamp version 0 ht h.version_lt (omega arith) hn).0 in
      (
        Holds-put_meta DataType.hash data_type_hash s key new ttl timestamp version
            (stored_size c.encoder 0) fields (λ e. omega (arith, e)) h
            ((decode_key_type-encode c.encoder [] timestamp version 0 0 0).1) decoded,
        values-put_meta s key new version values read,
      )
  Held-rewrite s key ttl timestamp (set version members) h ht hn =
      Holds-put_meta DataType.set data_type_set s key (rewrite c T timestamp (set version members))
        ttl timestamp version (stored_size c.encoder 0) members (λ e. omega (arith, e)) h
        ((decode_key_type-encode c.encoder [] timestamp version 0 0 0).3)
        ((decode_key_meta-encode c.encoder timestamp version 0 ht h.version_lt (omega arith) hn).1)
  Held-rewrite s key ttl timestamp (zset version scores total) h ht hn =
      ZHolds-put_meta s key ttl timestamp version total scores h ht hn
  Held-rewrite s key ttl timestamp (elements version left elems) h ht hn =
      meta_written c T s key timestamp version left elems ht h.version_lt h.room h.items
