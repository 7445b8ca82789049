-- ===== src/Lists/Holds.antt =====
-- The abstract view of a list command's key: the list it holds, or none.
use tidis.Base.{ℕ, ◌+◌, ◌^◌, ◌<◌, ◌≡◌, ◌∙◌, false, none, some, List, [], length, arith}
use tidis.Base.Int.{pos}
use tidis.Bytes.{Bytes, u64_mod, u16_mod, sub64}
use tidis.Bytes.Lex.{bytes_eq_refl}
use tidis.Encoding.RoundTrip.Values.{decode_key_list_meta-encode, decode_key_type-encode}
use tidis.Frame.{as_i64}
use tidis.Config.{Settings, key_is_expired}
use tidis.Txn.{Txn}
use tidis.Txn.Exec.{ok}
use tidis.Lists.{missing, live, meta_key, meta_value, open_list}
use tidis.Lists.Items.{Items, item-put_meta}

-- In the state `s` the key holds the list `xs`, its elements from the index `left` on, with the
-- indices in the range that the casts to i64 keep.
pub record Holds (c : Settings) (T : Txn) (s : T.State) (key : Bytes) (ttl version left : ℕ)
    (xs : List Bytes) : Type 0 where
  pub meta : T.get s (meta_key c T key) ≡ some (meta_value c T ttl version left (left + length xs))
  pub items : Items c T s key version left xs
  pub ttl_lt : ttl < u64_mod
  pub version_lt : version < u16_mod
  pub room : left + length xs < 2 ^ 63

module _ (c : Settings) (T : Txn) where
  -- A list that has not expired is opened as it stands.
  pub open_list-live :
      (now : ℕ) (s : T.State) (key : Bytes) (ttl version left : ℕ) (xs : List Bytes)
      → Holds c T s key ttl version left xs
      → key_is_expired now ttl ≡ false
      → open_list c T now key s ≡ (ok (live ttl version left (left + length xs)), s)
  unfolding open_list
  open_list-live now s key ttl version left xs h fresh =
      let right = left + length xs in
      simp (
        h.meta,
        (decode_key_type-encode c.encoder [] ttl version left right 0).2,
        decode_key_list_meta-encode c.encoder ttl version left right h.ttl_lt h.version_lt
            (omega arith) (omega arith),
        fresh,
      )

  -- A key with no meta value is opened as missing.
  pub open_list-missing :
      (now : ℕ) (s : T.State) (key : Bytes)
      → T.get s (meta_key c T key) ≡ none
      → open_list c T now key s ≡ (ok missing, s)
  unfolding open_list
  open_list-missing now s key h = simp h

  -- Writing the meta value of the elements that are there makes the list.
  pub meta_written :
      (s : T.State) (key : Bytes) (ttl version left : ℕ) (xs : List Bytes)
      → ttl < u64_mod
      → version < u16_mod
      → left + length xs < 2 ^ 63
      → Items c T s key version left xs
      → Holds c T
          (T.put s (meta_key c T key) (meta_value c T ttl version left (left + length xs)))
          key
          ttl
          version
          left
          xs
  meta_written s key ttl version left xs ht hv hr items = record {
    meta =
        T.get-put s (meta_key c T key) (meta_value c T ttl version left (left + length xs))
          (meta_key c T key)
        ∙ rw (bytes_eq_refl (meta_key c T key));
    items = λ j hj.
        item-put_meta c T s key key (meta_value c T ttl version left (left + length xs)) version j
        ∙ items j hj;
    ttl_lt = ht;
    version_lt = hv;
    room = hr;
  }

-- The length that the ends of a list give, as a reply.
pub count : (left n : ℕ) → left + n < 2 ^ 63 → as_i64 (sub64 (left + n) left) ≡ pos n
unfolding as_i64
count left n h = ground arith
