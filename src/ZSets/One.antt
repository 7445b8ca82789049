-- ===== src/ZSets/One.antt =====
-- ZADD of one member against the scores that the sorted set holds.
use tidis.Base.{
  ℕ, ◌<◌, ◌≡◌, ◌≢◌, ◌∙◌, refl, Bool, true, false, inl, inr, not, Option, none, some, ◌∷◌, ◌++◌,
  ◌&&◌, ◌==◌, Bool-cases, arith, if◌then◌else◌,
}
use tidis.Bytes.{Bytes, u16_mod, u64_be}
use tidis.Encoding.Score.{
  encode_f64_to_cmp_uint64, decode_cmp_uint64_to_f64, encode_txnkv_zset_data_value,
  decode_key_zset_data_value, f64_ltb, encode_txnkv_zset_score_key,
}
use tidis.Encoding.Encode.{
  data_key, data_type_zset, data_type_score, data_type_meta, encode_txnkv_meta_key, place_holder,
}
use tidis.Encoding.RoundTrip.Slices.{word-u64_be}
use tidis.Encoding.Score.Laws.{cmp_lt}
use tidis.Encoding.Apart.{bytes_eq-data-meta}
use tidis.Config.{Settings}
use tidis.Txn.{Txn}
use tidis.Txn.Exec.{Result, ok, pure, bind_ok}
use tidis.Txn.Scan.{scan-put, scan-delete}
use tidis.Collections.Holds.{sizes}
use tidis.Collections.Changes.{item-outside}
use tidis.ZSets.{member_key, f64_eq}
use tidis.ZSets.Put.{wanted, write_again, write_first, zadd_one}
use tidis.ZSets.Index.{IsScore, stored, with_score, index_key, Indexed, member_key-data_key}
use tidis.ZSets.Write.{written, unindexed, Indexed-written}

-- A score is read back up to the sign of 0, which the encoding does not keep.
f64_eq-decoded :
    (a b : ℕ)
    → IsScore a
    → IsScore b
    → f64_eq (decode_cmp_uint64_to_f64 (encode_f64_to_cmp_uint64 a)) b
      ≡ (encode_f64_to_cmp_uint64 a == encode_f64_to_cmp_uint64 b)
unfolding encode_f64_to_cmp_uint64 decode_cmp_uint64_to_f64 f64_ltb
f64_eq-decoded a b ha hb = ground (arith, ha, hb)

encode-decode :
    (a : ℕ)
    → IsScore a
    → encode_f64_to_cmp_uint64 (decode_cmp_uint64_to_f64 (encode_f64_to_cmp_uint64 a))
      ≡ encode_f64_to_cmp_uint64 a
unfolding encode_f64_to_cmp_uint64 decode_cmp_uint64_to_f64
encode-decode a ha = ground (arith, ha)

pub read_back :
    (a : ℕ)
    → IsScore a
    → decode_key_zset_data_value (encode_txnkv_zset_data_value a)
      ≡ some (decode_cmp_uint64_to_f64 (encode_f64_to_cmp_uint64 a))
unfolding decode_key_zset_data_value encode_txnkv_zset_data_value
read_back a ha = rw (word-u64_be (encode_f64_to_cmp_uint64 a) (cmp_lt a ha.0)) refl

abbrev pub has : Option ℕ → Bool
has none = false
has (some a) = true

-- Whether a member gets another score, where -0 and 0 are the same.
abbrev pub changed_by : Option ℕ → ℕ → Bool
changed_by none a = true
changed_by (some old) a = not (encode_f64_to_cmp_uint64 old == encode_f64_to_cmp_uint64 a)

-- Which members ZADD writes, by the score they have: with NX (`some false`) only new ones, with XX
-- (`some true`) only those that are there.
abbrev pub admits : Option Bool → Option ℕ → Bool
admits none o = true
admits (some false) none = true
admits (some false) (some a) = false
admits (some true) none = false
admits (some true) (some a) = true

wanted-admits : (exists : Option Bool) (o : Option ℕ) → wanted exists (has o) ≡ admits exists o
wanted-admits none o = refl
wanted-admits (some false) none = refl
wanted-admits (some false) (some a) = refl
wanted-admits (some true) none = refl
wanted-admits (some true) (some a) = refl

-- The scores after ZADD of one member.
abbrev pub step : Option Bool → (Bytes → Option ℕ) → Bytes → ℕ → (Bytes → Option ℕ)
step exists f m a = if admits exists (f m) then with_score f m a else f

module _ (c : Settings) (T : Txn) (key : Bytes) (version : ℕ) (hv : version < u16_mod) where
  -- The counters of a sorted set and the meta values of all keys.
  abbrev pub Kept : T.State → T.State → Type 0
  Kept s s' =
      (T.scan s' (sizes c key version) ≡ T.scan s (sizes c key version))
      × ((u : Bytes)
          → T.get s' (encode_txnkv_meta_key c.encoder u)
            ≡ T.get s (encode_txnkv_meta_key c.encoder u))

  Kept-put :
      (t : ℕ) (s : T.State) (i v : Bytes)
      → t ≢ data_type_meta
      → Kept s (T.put s (data_key c.encoder t key version i) v)
  Kept-put t s i v apart =
      let k = data_key c.encoder t key version i in
      (
        scan-put T s k v (sizes c key version) ∙ rw (item-outside c t apart key version hv i) refl,
        λ u.
            T.get-put s k v (encode_txnkv_meta_key c.encoder u)
            ∙ rw (bytes_eq-data-meta c.encoder t key u version i) refl,
      )

  Kept-unindexed :
      (s : T.State) (b : Bool) (w : ℕ) (m : Bytes) → Kept s (unindexed c T key version s b w m)
  Kept-unindexed s true w m =
      let k = index_key c T key version w m in
      let i = u64_be w ++ place_holder ∷ m in
      (
        scan-delete T s k (sizes c key version)
            ∙ rw (item-outside c data_type_score (λ e. omega (arith, e)) key version hv i) refl,
        λ u.
            T.get-delete s k (encode_txnkv_meta_key c.encoder u)
            ∙ rw (bytes_eq-data-meta c.encoder data_type_score key u version i) refl,
      )
  Kept-unindexed s false w m = (refl, λ u. refl)

  Kept-trans : (s s1 s2 : T.State) → Kept s s1 → Kept s1 s2 → Kept s s2
  Kept-trans s s1 s2 a b = (b.0 ∙ a.0, λ u. b.1 u ∙ a.1 u)

  Kept-written :
      (s : T.State) (b : Bool) (w : ℕ) (m : Bytes) (a : ℕ)
      → Kept s (written c T key version s b w m a)
  Kept-written s b w m a =
      let v = encode_txnkv_zset_data_value a in
      let s1 = T.put s (member_key c T key version m) v in
      let s2 = unindexed c T key version s1 b w m in
      let i = u64_be (encode_f64_to_cmp_uint64 a) ++ place_holder ∷ m in
      let put_score : Kept s s1 =
        rw (member_key-data_key c T key version m)
          (Kept-put data_type_zset s m v (λ e. omega (arith, e))) in
      Kept-trans s s1 (written c T key version s b w m a) put_score (
        Kept-trans s1 s2 (written c T key version s b w m a) (Kept-unindexed s1 b w m)
          (Kept-put data_type_score s2 i m (λ e. omega (arith, e))))

  -- A command that goes on to another state, with other scores.
  abbrev pub Goes : {A : Type 0} → T.State → (Bytes → Option ℕ) → A → Result A × T.State → Type 0
  Goes s f a r = (s' : T.State) × (r ≡ (ok a, s')) × Indexed c T key version s' f × Kept s s'

  pub write_first_lem :
      (s : T.State) (f : Bytes → Option ℕ) (m : Bytes) (a : ℕ)
      → Indexed c T key version s f
      → f m ≡ none
      → IsScore a
      → Goes s (with_score f m a) tt (write_first c T key version m a s)
  unfolding write_first encode_txnkv_zset_score_key
  write_first_lem s f m a h e ha = (
    written c T key version s false 0 m a,
    refl,
    Indexed-written c T key version hv s f false 0 m a h ha (omega arith) (λ u _. rw e refl),
    Kept-written s false 0 m a,
  )

  write_again_lem :
      (s : T.State) (f : Bytes → Option ℕ) (m : Bytes) (a old : ℕ)
      → Indexed c T key version s f
      → f m ≡ some old
      → IsScore a
      → Goes s
          (with_score f m a)
          (changed_by (some old) a)
          (write_again c T key version m a (encode_txnkv_zset_data_value old) s)
  unfolding write_again encode_txnkv_zset_score_key
  write_again_lem s f m a old h e ha =
      let ho = h.numbers m old e in
      let x = encode_f64_to_cmp_uint64 old in
      let b = changed_by (some old) a in
      (
        written c T key version s b x m a,
        rw (read_back old ho) (
            rw (f64_eq-decoded old a ho ha, encode-decode old ho)
              (elim (Bool-cases (x == encode_f64_to_cmp_uint64 a)) [
                | inl q ↦ rw q refl
                | inr q ↦ rw q refl
              ])),
        Indexed-written c T key version hv s f b x m a h ha (cmp_lt old ho.0)
            (λ u ne. rw e (ground (arith, ne))),
        Kept-written s b x m a,
      )

  -- ZADD of one member, whose score so far is `o`.
  pub zadd_one_lem :
      (exists : Option Bool) (s : T.State) (f : Bytes → Option ℕ) (m : Bytes) (a : ℕ) (o : Option ℕ)
      → Indexed c T key version s f
      → f m ≡ o
      → IsScore a
      → Goes s
          (step exists f m a)
          (admits exists o && not (has o), admits exists o && changed_by o a)
          (zadd_one c T key version exists m a (stored o) s)
  unfolding zadd_one
  zadd_one_lem exists s f m a none h e ha = elim (Bool-cases (admits exists none)) [
    | inl w ↦
        let (s', run, indexed, kept) = write_first_lem s f m a h e ha in
        rw (e, wanted-admits exists none, w)
          (
            s',
            bind_ok (write_first c T key version m a) (λ _. pure (true, true)) s s' tt run,
            indexed,
            kept,
          )
    | inr w ↦ rw (e, wanted-admits exists none, w) (s, refl, h, (refl, λ u. refl))
  ]
  zadd_one_lem exists s f m a (some old) h e ha = elim (Bool-cases (admits exists (some old))) [
    | inl w ↦
        let (s', run, indexed, kept) = write_again_lem s f m a old h e ha in
        rw (e, wanted-admits exists (some old), w)
          (
            s',
            bind_ok (write_again c T key version m a (encode_txnkv_zset_data_value old))
                (λ changed. pure (false, changed)) s s' (changed_by (some old) a) run,
            indexed,
            kept,
          )
    | inr w ↦ rw (e, wanted-admits exists (some old), w) (s, refl, h, (refl, λ u. refl))
  ]
