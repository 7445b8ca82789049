-- ===== src/Strings/Laws.antt =====
-- SET, GET and STRLEN on the string that a key holds.
use tidis.Base.{ℕ, ◌<◌, ◌≡◌, ◌∙◌, refl, false, some, length}
use tidis.Bytes.{Bytes, bytes_eq, u64_mod}
use tidis.Bytes.Lex.{bytes_eq_refl}
use tidis.Encoding.{DataType}
use tidis.Encoding.Encode.{encode_txnkv_string, encode_txnkv_meta_key}
use tidis.Encoding.Decode.{decode_key_type}
use tidis.Encoding.Apart.{bytes_eq-meta_key}
use tidis.Encoding.RoundTrip.Values.{decode_string-encode, decode_key_type-encode}
use tidis.Frame.{resp_ok, resp_int, resp_bulk, as_i64}
use tidis.Config.{Settings, key_is_expired}
use tidis.Txn.{Txn}
use tidis.Txn.Exec.{ok}
use tidis.Strings.{string_key, string_value, get, strlen, put}

module _ (c : Settings) (T : Txn) where
  -- The key holds a string, with its expiry.
  pub record StringHolds (s : T.State) (key payload : Bytes) (ttl : ℕ) : Type 0 where
    pub value : T.get s (string_key c T key) ≡ some (string_value c T payload ttl)
    pub ttl_lt : ttl < u64_mod

  pub StringHolds-type :
      (payload : Bytes) (ttl : ℕ)
      → decode_key_type (string_value c T payload ttl) ≡ some DataType.string
  StringHolds-type payload ttl = (decode_key_type-encode c.encoder payload ttl 0 0 0 0).0

  pub string_key-meta_key : (key : Bytes) → string_key c T key ≡ encode_txnkv_meta_key c.encoder key
  unfolding encode_txnkv_string encode_txnkv_meta_key
  string_key-meta_key key = refl

  pub get_lem :
      (now : ℕ) (key payload : Bytes) (ttl : ℕ) (s : T.State)
      → StringHolds s key payload ttl
      → key_is_expired now ttl ≡ false
      → get c T now key s ≡ (ok (resp_bulk payload), s)
  unfolding get
  get_lem now key payload ttl s h fresh =
      let (t, content) = decode_string-encode c.encoder payload ttl h.ttl_lt in
      rw (h.value, StringHolds-type payload ttl) (rw (t, fresh) (rw content refl))

  strlen_lem :
      (now : ℕ) (key payload : Bytes) (ttl : ℕ) (s : T.State)
      → StringHolds s key payload ttl
      → key_is_expired now ttl ≡ false
      → strlen c T now key s ≡ (ok (resp_int (as_i64 (length payload))), s)
  unfolding strlen
  strlen_lem now key payload ttl s h fresh =
      let (t, content) = decode_string-encode c.encoder payload ttl h.ttl_lt in
      rw (h.value, StringHolds-type payload ttl) (rw (t, fresh) (rw content refl))

  pub put-StringHolds :
      (key payload : Bytes) (ttl : ℕ) (s : T.State)
      → ttl < u64_mod
      → StringHolds (T.put s (string_key c T key) (string_value c T payload ttl)) key payload ttl
  put-StringHolds key payload ttl s h =
      let k = string_key c T key in
      record {
        value = T.get-put s k (string_value c T payload ttl) k ∙ rw (bytes_eq_refl k) refl;
        ttl_lt = h;
      }

  pub put-other :
      (key other v : Bytes) (s : T.State)
      → bytes_eq key other ≡ false
      → T.get (T.put s (string_key c T key) v) (string_key c T other)
        ≡ T.get s (string_key c T other)
  put-other key other v s h =
      T.get-put s (string_key c T key) v (string_key c T other)
      ∙ rw
          (
            string_key-meta_key key,
            string_key-meta_key other,
            bytes_eq-meta_key c.encoder key other,
            h,
          )
          refl

  -- What a write of a string does: the key holds it, and every other key keeps its value.
  abbrev pub Written : T.State → Bytes → Bytes → ℕ → T.State → Type 0
  Written s key payload ttl s' =
      StringHolds s' key payload ttl
      × ((other : Bytes)
          → bytes_eq key other ≡ false
          → T.get s' (string_key c T other) ≡ T.get s (string_key c T other))

  -- SET replies OK, GET and STRLEN reply the value and its length until it expires, and the meta values
  -- of all other keys stay.
  pub get-put :
      (now : ℕ) (key payload : Bytes) (ttl : ℕ) (s : T.State)
      → ttl < u64_mod
      → key_is_expired now ttl ≡ false
      → let (reply, s') = put c T key payload ttl s in
        (reply ≡ ok resp_ok)
        × Written s key payload ttl s'
        × (get c T now key s' ≡ (ok (resp_bulk payload), s'))
        × (strlen c T now key s' ≡ (ok (resp_int (as_i64 (length payload))), s'))
  unfolding put
  get-put now key payload ttl s h fresh =
      let s' = T.put s (string_key c T key) (string_value c T payload ttl) in
      let holds = put-StringHolds key payload ttl s h in
      (
        refl,
        (holds, λ other ne. put-other key other (string_value c T payload ttl) s ne),
        get_lem now key payload ttl s' holds fresh,
        strlen_lem now key payload ttl s' holds fresh,
      )
