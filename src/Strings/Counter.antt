-- ===== src/Strings/Counter.antt =====
-- INCR, INCRBY, DECR and DECRBY on a string that is an integer.
use tidis.Base.{ℕ, ◌≡◌, ◌∙◌, refl, true, false, none, arith}
use tidis.Base.Int.{ℤ, pos}
use tidis.Bytes.{Bytes, bytes_eq}
use tidis.Encoding.Apart.{bytes_eq-meta_key}
use tidis.Encoding.RoundTrip.Values.{decode_string-encode}
use tidis.Frame.{resp_int, add_i64}
use tidis.Config.{Settings, key_is_expired}
use tidis.Numbers.{to_string}
use tidis.Numbers.Laws.{IsI64, parse_i64-to_string, add_i64-IsI64}
use tidis.Txn.{Txn}
use tidis.Txn.Exec.{ok}
use tidis.Strings.{string_key, string_value, incr, incr_from, string_expire_if_needed}
use tidis.Strings.Laws.{StringHolds, Written, string_key-meta_key, put-StringHolds, put-other}

fresh_forever : (now : ℕ) → key_is_expired now 0 ≡ false
unfolding key_is_expired
fresh_forever now = ground arith

module _ (c : Settings) (T : Txn) where
  -- The number that INCR starts from: 0 at a key that holds nothing, or a string that has expired.
  pub data Integer (s : T.State) (now : ℕ) (key : Bytes) (n : ℤ) : Type 0 where
    absent : T.get s (string_key c T key) ≡ none → n ≡ pos 0 → Integer s now key n
    gone :
        (payload : Bytes) (ttl : ℕ)
        → StringHolds c T s key payload ttl
        → key_is_expired now ttl ≡ true
        → n ≡ pos 0
        → Integer s now key n
    held :
        (ttl : ℕ)
        → StringHolds c T s key (to_string n) ttl
        → key_is_expired now ttl ≡ false
        → IsI64 n
        → Integer s now key n

  -- What stays of a state in which at most the key's value changes.
  abbrev Kept : T.State → Bytes → T.State → Type 0
  Kept s key s' =
      (other : Bytes)
      → bytes_eq key other ≡ false
      → T.get s' (string_key c T other) ≡ T.get s (string_key c T other)

  delete-Kept : (key : Bytes) (s : T.State) → Kept s key (T.delete s (string_key c T key))
  delete-Kept key s other ne =
      T.get-delete s (string_key c T key) (string_key c T other)
      ∙ rw
          (
            string_key-meta_key c T key,
            string_key-meta_key c T other,
            bytes_eq-meta_key c.encoder key other,
            ne,
          )
          refl

  pub expire_lem :
      (now : ℕ) (key payload : Bytes) (ttl : ℕ) (s : T.State)
      → StringHolds c T s key payload ttl
      → key_is_expired now ttl ≡ true
      → string_expire_if_needed c T now key s ≡ (ok 1, T.delete s (string_key c T key))
  unfolding string_expire_if_needed
  expire_lem now key payload ttl s h e =
      rw (h.value) (rw ((decode_string-encode c.encoder payload ttl h.ttl_lt).0) (rw e refl))

  incr_from_lem :
      (now : ℕ) (key : Bytes) (n : ℤ) (s : T.State)
      → Integer s now key n
      → (s1 : T.State) × (incr_from c T now key (T.get s (string_key c T key)) s ≡ (ok n, s1))
        × Kept s key s1
  unfolding incr_from
  incr_from_lem now key n s (absent e z) = (s, rw (e, z) refl, λ other ne. refl)
  incr_from_lem now key n s (gone payload ttl h e z) = (
    T.delete s (string_key c T key),
    rw h.value (
        rw ((decode_string-encode c.encoder payload ttl h.ttl_lt).0)
          (rw e (rw (expire_lem now key payload ttl s h e, z) refl))),
    delete-Kept key s,
  )
  incr_from_lem now key n s (held ttl h e z) =
      let (t, content) = decode_string-encode c.encoder (to_string n) ttl h.ttl_lt in
      (s, rw h.value (rw (t, e) (rw content (rw (parse_i64-to_string n z) refl))), λ other ne. refl)

  -- INCR of a key whose number is the given one replies it plus the step, in i64 arithmetic; the key then
  -- holds that number as a string without an expiry, the next INCR starts from it, and the meta values
  -- of all other keys stay.
  pub incr_lem :
      (now : ℕ) (key : Bytes) (n step : ℤ) (s : T.State)
      → Integer s now key n
      → let next = add_i64 n step in
        let (reply, s') = incr c T now key step s in
        (reply ≡ ok (resp_int next))
        × Written c T s key (to_string next) 0 s'
        × Integer s' now key next
  unfolding incr
  incr_lem now key n step s h =
      let next = add_i64 n step in
      let (s1, e, kept) = incr_from_lem now key n s h in
      let v = string_value c T (to_string next) 0 in
      let s' = T.put s1 (string_key c T key) v in
      let holds = put-StringHolds c T key (to_string next) 0 s1 (omega arith) in
      let run : incr c T now key step s ≡ (ok (resp_int next), s') = rw e refl in
      rw run (
        refl,
        (holds, λ other ne. put-other c T key other v s1 ne ∙ kept other ne),
        held 0 holds (fresh_forever now) (add_i64-IsI64 n step),
      )
