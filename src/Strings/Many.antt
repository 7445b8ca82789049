-- ===== src/Strings/Many.antt =====
-- MGET and EXISTS on keys that hold strings or nothing, against GET of each key.
use tidis.Base.{ℕ, ◌≡◌, ◌∙◌, refl, ap, true, false, none, some, List, [], ◌∷◌, arith}
use tidis.Bytes.{Bytes}
use tidis.Bytes.Lex.{bytes_eq_refl}
use tidis.Encoding.Apart.{bytes_eq-meta_key}
use tidis.Encoding.Encode.{encode_txnkv_strings}
use tidis.Encoding.RoundTrip.Values.{decode_string-encode}
use tidis.Frame.{Frame, resp_nil, resp_bulk, resp_array}
use tidis.Config.{Settings, key_is_expired}
use tidis.Txn.{Txn, Distinct, contains}
use tidis.Txn.Exec.{ok}
use tidis.Txn.Steps.{collected}
use tidis.Txn.Batch.{collected-batch_get}
use tidis.Strings.{string_key, get}
use tidis.Strings.Batch.{mget_reply, mget_replies, batch_get}
use tidis.Strings.Laws.{StringHolds, StringHolds-type, string_key-meta_key, get_lem}
use tidis.Strings.Counter.{expire_lem}

module _ (c : Settings) (T : Txn) (now : ℕ) (s : T.State) where
  -- The reply to a GET of a key that holds a string or nothing.
  pub data Text (key : Bytes) (reply : Frame) : Type 0 where
    absent : T.get s (string_key c T key) ≡ none → reply ≡ resp_nil → Text key reply
    gone :
        (payload : Bytes) (ttl : ℕ)
        → StringHolds c T s key payload ttl
        → key_is_expired now ttl ≡ true
        → reply ≡ resp_nil
        → Text key reply
    held :
        (payload : Bytes) (ttl : ℕ)
        → StringHolds c T s key payload ttl
        → key_is_expired now ttl ≡ false
        → reply ≡ resp_bulk payload
        → Text key reply

  abbrev pub keys_of : List (Bytes × Frame) → List Bytes
  keys_of [] = []
  keys_of ((key, f) ∷ rest) = key ∷ keys_of rest

  abbrev pub frames_of : List (Bytes × Frame) → List Frame
  frames_of [] = []
  frames_of ((key, f) ∷ rest) = f ∷ frames_of rest

  -- Each key has its reply.
  abbrev pub Texts : List (Bytes × Frame) → Type 0
  Texts [] = Unit
  Texts ((key, f) ∷ rest) = Text key f × Texts rest

  -- GET of each key replies its reply.
  abbrev pub Gets : List (Bytes × Frame) → Type 0
  Gets [] = Unit
  Gets ((key, f) ∷ rest) = ((get c T now key s).0 ≡ ok f) × Gets rest

  get-Text : (key : Bytes) (reply : Frame) → Text key reply → (get c T now key s).0 ≡ ok reply
  unfolding get
  get-Text key reply (absent e z) = rw (e, z) refl
  get-Text key reply (gone payload ttl h e z) =
      rw (h.value, StringHolds-type c T payload ttl)
        (rw ((decode_string-encode c.encoder payload ttl h.ttl_lt).0, e)
          (rw (expire_lem c T now key payload ttl s h e, z) refl))
  get-Text key reply (held payload ttl h e z) =
      ap (λ r. r.0) (get_lem c T now key payload ttl s h e) ∙ rw z refl

  mget_reply-Text :
      (key : Bytes) (reply : Frame)
      → Text key reply
      → mget_reply now (T.get s (string_key c T key)) ≡ some reply
  unfolding mget_reply
  mget_reply-Text key reply (absent e z) = rw (e, z) refl
  mget_reply-Text key reply (gone payload ttl h e z) =
      rw (h.value, z)
        (rw ((decode_string-encode c.encoder payload ttl h.ttl_lt).0, mget_reply, e) refl)
  mget_reply-Text key reply (held payload ttl h e z) =
      let (t, content) = decode_string-encode c.encoder payload ttl h.ttl_lt in
      rw (h.value, z) (rw (t, mget_reply, e) (rw content refl))

  contains-strings :
      (keys : List Bytes) (key : Bytes)
      → contains (encode_txnkv_strings c.encoder keys) (string_key c T key) ≡ contains keys key
  unfolding encode_txnkv_strings
  contains-strings [] key = refl
  contains-strings (k ∷ ks) key =
      rw
        (
          contains-strings ks key,
          string_key-meta_key c T k,
          string_key-meta_key c T key,
          bytes_eq-meta_key c.encoder k key,
        )
        refl

  Distinct-strings :
      (keys : List Bytes) → Distinct keys → Distinct (encode_txnkv_strings c.encoder keys)
  unfolding encode_txnkv_strings
  Distinct-strings [] h = tt
  Distinct-strings (k ∷ ks) h = (contains-strings ks k ∙ h.0, Distinct-strings ks h.1)

  -- The keys whose values a batch has as the state has them.
  abbrev Batched : List (Bytes × Bytes) → List Bytes → Type 0
  Batched found [] = Unit
  Batched found (key ∷ keys) =
      (collected found (string_key c T key) ≡ T.get s (string_key c T key)) × Batched found keys

  mget_replies-Texts :
      (found : List (Bytes × Bytes)) (pairs : List (Bytes × Frame))
      → Texts pairs
      → Batched found (keys_of pairs)
      → mget_replies now found (encode_txnkv_strings c.encoder (keys_of pairs))
        ≡ some (frames_of pairs)
  unfolding mget_replies encode_txnkv_strings
  mget_replies-Texts found [] h b = refl
  mget_replies-Texts found ((key, f) ∷ rest) h b =
      rw (b.0, mget_replies, mget_reply-Text key f h.0)
        (rw (mget_replies-Texts found rest h.1 b.1) refl)

  Batched-all :
      (all keys : List Bytes)
      → Distinct all
      → ((key : Bytes) → contains keys key ≡ true → contains all key ≡ true)
      → Batched (T.batch_get s (encode_txnkv_strings c.encoder all)) keys
  Batched-all all [] d h = tt
  Batched-all all (key ∷ keys) d h = (
    collected-batch_get T s (encode_txnkv_strings c.encoder all) (string_key c T key)
          (Distinct-strings all d)
        ∙ rw (contains-strings all key, h key (rw (bytes_eq_refl key) refl)) refl,
    Batched-all all keys d (λ k e. h k (ground (arith, e))),
  )

  Texts-Gets : (pairs : List (Bytes × Frame)) → Texts pairs → Gets pairs
  Texts-Gets [] h = tt
  Texts-Gets ((key, f) ∷ rest) h = (get-Text key f h.0, Texts-Gets rest h.1)

  -- MGET of different keys, each of which holds a string or nothing, replies an array of what GET
  -- replies for each of them, and changes nothing.
  pub batch_get-get :
      (pairs : List (Bytes × Frame))
      → Distinct (keys_of pairs)
      → Texts pairs
      → (batch_get c T now (keys_of pairs) s ≡ (ok (resp_array (frames_of pairs)), s)) × Gets pairs
  unfolding batch_get
  batch_get-get pairs d h =
      let found = T.batch_get s (encode_txnkv_strings c.encoder (keys_of pairs)) in
      let all = Batched-all (keys_of pairs) (keys_of pairs) d (λ k e. e) in
      (rw (mget_replies-Texts found pairs h all) refl, Texts-Gets pairs h)
