-- ===== src/Keys/Expiry.antt =====
-- EXPIRE, PERSIST and TTL on a key of any type.
use tidis.Base.{
  ◌/◌, ◌^◌, ◌∙◌, ap, true, ℕ, ◌-◌, ◌<◌, ◌≡◌, ◌≢◌, refl, Bool, false, inl, inr, Option, some, ◌&&◌,
  ◌==◌, Bool-cases, arith, if◌then◌else◌,
}
use tidis.Base.Int.{pos, negsuc}
use tidis.Bytes.{Bytes, bytes_eq, u16_mod, u64_mod}
use tidis.Encoding.{DataType}
use tidis.Frame.{Frame, resp_int, as_i64}
use tidis.Config.{Settings, key_is_expired, ttl_from_timestamp}
use tidis.Txn.{Txn}
use tidis.Txn.Exec.{ok, pure, unwrap, ◌>>=◌, ◌>>◌}
use tidis.Txn.Steps.{write}
use tidis.Strings.{string_key}
use tidis.Strings.Laws.{put-other}
use tidis.Keys.{with_timestamp, expire, expire_found, expire_typed_key, ttl_of, ttl_reply}
use tidis.Keys.Holds.{Content, Held, Stamped, Held-Stamped, rewrite}
use tidis.Keys.Rewrite.{Held-rewrite}
use tidis.Collections.Holds.{as_i64_small}

time_left :
    (now ttl : ℕ)
    → key_is_expired now ttl ≡ false
    → (ttl == 0) ≡ false
    → ttl_from_timestamp now ttl ≡ ttl - now
unfolding key_is_expired ttl_from_timestamp
time_left now ttl fresh e = ground (arith, fresh, e)

module _ (c : Settings) (T : Txn) where
  unwrap_written :
      (o : Option Bytes) (key new : Bytes) (s : T.State)
      → o ≡ some new
      → (unwrap o >>= λ v. write T (string_key c T key) v >> pure {A = ℕ} 1) s
        ≡ (ok 1, T.put s (string_key c T key) new)
  unwrap_written o key new s e = rw e refl

  typed_written :
      (now timestamp ttl version : ℕ) (key v new : Bytes) (dt : DataType) (s : T.State)
      → dt ≢ DataType.null
      → key_is_expired now ttl ≡ false
      → with_timestamp c T timestamp version v dt ≡ some new
      → expire_typed_key c T now key timestamp v ttl dt version s
        ≡ (ok 1, T.put s (string_key c T key) new)
  unfolding expire_typed_key
  typed_written now timestamp ttl version key v new DataType.null s ne fresh e = absurd (ne refl)
  typed_written now timestamp ttl version key v new DataType.string s ne fresh e =
      rw (fresh, e) refl
  typed_written now timestamp ttl version key v new DataType.hash s ne fresh e =
      rw fresh (unwrap_written (with_timestamp c T timestamp version v DataType.hash) key new s e)
  typed_written now timestamp ttl version key v new DataType.list s ne fresh e =
      rw fresh (unwrap_written (with_timestamp c T timestamp version v DataType.list) key new s e)
  typed_written now timestamp ttl version key v new DataType.set s ne fresh e =
      rw fresh (unwrap_written (with_timestamp c T timestamp version v DataType.set) key new s e)
  typed_written now timestamp ttl version key v new DataType.zset s ne fresh e =
      rw fresh (unwrap_written (with_timestamp c T timestamp version v DataType.zset) key new s e)

  found_written :
      (now timestamp ttl : ℕ) (key new : Bytes) (s : T.State)
      → (h : Stamped c T s key ttl timestamp new) → key_is_expired now ttl ≡ false
      → (timestamp == 0 && ttl == 0) ≡ false
      → expire_found c T now key timestamp (T.get s (string_key c T key)) s
        ≡ (ok 1, T.put s (string_key c T key) new)
  unfolding expire_found
  found_written now timestamp ttl key new s h fresh some_change = rw h.read (
      rw (h.ttl_read, some_change)
        (rw (h.typed, h.version_read)
          (typed_written now timestamp ttl h.version key h.value new h.kind s h.not_null fresh
            h.rewritten)))

  -- EXPIRE writes the value anew.
  expire-Stamped :
      (now timestamp ttl : ℕ) (key new : Bytes) (s : T.State)
      → Stamped c T s key ttl timestamp new
      → key_is_expired now ttl ≡ false
      → (timestamp == 0 && ttl == 0) ≡ false
      → expire c T now key timestamp s ≡ (ok (resp_int (pos 1)), T.put s (string_key c T key) new)
  unfolding expire as_i64
  expire-Stamped now timestamp ttl key new s h fresh some_change =
      rw (found_written now timestamp ttl key new s h fresh some_change) refl

  ttl-Stamped :
      (now timestamp ttl : ℕ) (is_millis : Bool) (key new : Bytes) (s : T.State)
      → Stamped c T s key ttl timestamp new
      → key_is_expired now ttl ≡ false
      → ttl_of c T now key is_millis s
        ≡ (ok (if ttl == 0 then resp_int (negsuc 0) else ttl_reply c T is_millis (ttl - now)), s)
  unfolding ttl_of
  ttl-Stamped now timestamp ttl is_millis key new s h fresh = rw h.read (
      rw (h.typed) (
        rw (h.ttl_read, fresh)
          (elim (Bool-cases (ttl == 0)) [
            | inl e ↦ rw e refl
            | inr e ↦ rw (e, time_left now ttl fresh e) refl
          ])))

  -- The time left as TTL, in seconds, and PTTL, in milliseconds, reply it, and -1 where there is no
  -- expiry.
  abbrev pub left_reply : Bool → ℕ → ℕ → Frame
  left_reply is_millis timestamp now =
      if timestamp == 0
      then resp_int (negsuc 0)
      else resp_int (pos (if is_millis then timestamp - now else (timestamp - now) / 1000))

  ttl_reply_lem :
      (is_millis : Bool) (timestamp now : ℕ)
      → timestamp - now < 2 ^ 63
      → (if timestamp == 0 then resp_int (negsuc 0) else ttl_reply c T is_millis (timestamp - now))
        ≡ left_reply is_millis timestamp now
  ttl_reply_lem true timestamp now h = rw (as_i64_small (timestamp - now) h) refl
  ttl_reply_lem false timestamp now h = rw (as_i64_small (timestamp - now) h) refl

  -- EXPIRE of a key that holds a string, a hash, a set, a sorted set or a list, and has not expired,
  -- with a new timestamp, or PERSIST of one that has an expiry, replies 1. The key then holds under that
  -- timestamp the same string, fields with their values, members, members with their scores in the data
  -- keys and the index, or elements, and the counters of a collection add up as before; the meta values
  -- of all other keys stay. Until that time PTTL replies the milliseconds left and TTL the whole
  -- seconds, where they fit in an i64, or both -1 after PERSIST.
  pub ttl_of-expire :
      (now now' timestamp ttl : ℕ) (is_millis : Bool) (key : Bytes) (content : Content)
      (s : T.State)
      → Held c T s key ttl content
      → key_is_expired now ttl ≡ false
      → (timestamp == 0 && ttl == 0) ≡ false
      → key_is_expired now' timestamp ≡ false
      → timestamp < u64_mod
      → timestamp - now' < 2 ^ 63
      → c.encoder.meta_key_number < u16_mod
      → let (reply, s') = expire c T now key timestamp s in
        (reply ≡ ok (resp_int (pos 1)))
        × Held c T s' key timestamp content
        × ((other : Bytes)
            → bytes_eq key other ≡ false
            → T.get s' (string_key c T other) ≡ T.get s (string_key c T other))
        × (ttl_of c T now' key is_millis s' ≡ (ok (left_reply is_millis timestamp now'), s'))
  ttl_of-expire now now' timestamp ttl is_millis key content s h fresh change later ht hl hn =
      let new = rewrite c T timestamp content in
      let run =
        expire-Stamped now timestamp ttl key new s (Held-Stamped c T s key ttl timestamp content h)
          fresh change in
      let held = Held-rewrite c T s key ttl timestamp content h ht hn in
      let s' = T.put s (string_key c T key) new in
      rw run (
        refl,
        held,
        λ other ne. put-other c T key other new s ne,
        ttl-Stamped now' timestamp timestamp is_millis key new s'
              (Held-Stamped c T s' key timestamp timestamp content held) later
            ∙ ap (λ f. (ok f, s')) (ttl_reply_lem is_millis timestamp now' hl),
      )
