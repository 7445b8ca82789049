-- ===== src/ZSets/New.antt =====
-- ZADD on a key that holds nothing.
use tidis.Base.{
  ◌≢◌, subst, ℕ, ◌^◌, ◌<◌, ◌≡◌, ◌∙◌, refl, sym, ap, Bool, true, false, Option, none, some, List, [],
  ◌∷◌, ◌++◌, arith, length,
}
use tidis.Base.Int.{pos}
use tidis.Bytes.{Bytes, bytes_eq, u16_mod, u64_mod, u64_be}
use tidis.Bytes.Lex.{bytes_eq_refl, bytes_eq_sym}
use tidis.Encoding.{DataType}
use tidis.Encoding.Apart.{bytes_eq-data-meta, in_range-meta_key}
use tidis.Encoding.Encode.{data_type_zset, data_type_score, data_type_meta, place_holder}
use tidis.Encoding.Order.{in_range}
use tidis.Encoding.RoundTrip.Values.{decode_key_type-encode, decode_key_meta-encode, stored_size}
use tidis.Frame.{resp_int}
use tidis.Config.{Settings}
use tidis.Version.{get_version_for_new}
use tidis.Txn.{Txn, Distinct, contains, find}
use tidis.Txn.Exec.{ok, bind_ok}
use tidis.Txn.Scan.{scan-put}
use tidis.Collections.{sum_sizes, raise_size, meta_key, size_key}
use tidis.Collections.Holds.{sizes, as_i64_small, open_missing}
use tidis.Collections.Changes.{sizes-data_key_range, size_key-in_range}
use tidis.ZSets.{member_key, zset_meta, zset_expire_if_needed}
use tidis.ZSets.Put.{write_first, write_all, zadd, zadd_new}
use tidis.ZSets.Index.{Indexed, with_score, member_key-data_key, index_key}
use tidis.ZSets.One.{Goes, write_first_lem}
use tidis.ZSets.Add.{scored, members_in, AllScores}
use tidis.ZSets.Raise.{raise_lem}
use tidis.ZSets.Laws.{ZHolds}

-- No members.
abbrev pub no_scores : Bytes → Option ℕ
no_scores m = none

module _ (c : Settings) (T : Txn) (key : Bytes) (version : ℕ) (hv : version < u16_mod) where
  Absent : (Bytes → Option ℕ) → List (Bytes × ℕ) → Type 0
  Absent f [] = Unit
  Absent f ((m, a) ∷ pairs) = (f m ≡ none) × Absent f pairs

  Absent-with :
      (f : Bytes → Option ℕ) (m : Bytes) (a : ℕ) (pairs : List (Bytes × ℕ))
      → contains (members_in pairs) m ≡ false
      → Absent f pairs
      → Absent (with_score f m a) pairs
  unfolding Absent
  Absent-with f m a [] h g = tt
  Absent-with f m a ((j, b) ∷ pairs) h g =
      let ne : bytes_eq m j ≡ false = bytes_eq_sym m j ∙ ground (arith, h) in
      (rw ne g.0, Absent-with f m a pairs (ground (arith, h)) g.1)

  Absent-no_scores : (pairs : List (Bytes × ℕ)) → Absent no_scores pairs
  unfolding Absent
  Absent-no_scores [] = tt
  Absent-no_scores ((m, a) ∷ pairs) = (refl, Absent-no_scores pairs)

  write_all_lem :
      (pairs : List (Bytes × ℕ)) (s : T.State) (f : Bytes → Option ℕ)
      → Indexed c T key version s f
      → Distinct (members_in pairs)
      → AllScores pairs
      → Absent f pairs
      → Goes c T key version hv s (scored none f pairs) tt (write_all c T key version pairs s)
  unfolding write_all Absent
  write_all_lem [] s f h d n g = (s, refl, h, (refl, λ u. refl))
  write_all_lem ((m, a) ∷ pairs) s f h d n g =
      let (s1, run, indexed, kept) = write_first_lem c T key version hv s f m a h g.0 n.0 in
      let (s2, rest, indexed2, kept2) =
        write_all_lem pairs s1 (with_score f m a) indexed d.1 n.1
          (Absent-with f m a pairs d.0 g.1) in
      (
        s2,
        bind_ok (write_first c T key version m a) (λ _. write_all c T key version pairs) s s1 tt run
            ∙ rest,
        indexed2,
        (kept2.0 ∙ kept.0, λ u. kept2.1 u ∙ kept.1 u),
      )

  pub Indexed-put_meta :
      (s : T.State) (f : Bytes → Option ℕ) (v : Bytes)
      → Indexed c T key version s f
      → Indexed c T key version (T.put s (meta_key c T key) v) f
  Indexed-put_meta s f v h =
      let k = meta_key c T key in
      let member-ne : (m : Bytes) → bytes_eq k (member_key c T key version m) ≡ false = λ m.
        bytes_eq_sym k (member_key c T key version m)
        ∙ rw (member_key-data_key c T key version m)
            (bytes_eq-data-meta c.encoder data_type_zset key key version m) in
      record {
        score_at =
            λ m. T.get-put s k v (member_key c T key version m) ∙ rw (member-ne m) (h.score_at m);
        entry_at = λ u m hu.
            T.get-put s k v (index_key c T key version u m)
            ∙ rw
                (
                  bytes_eq_sym k (index_key c T key version u m),
                  bytes_eq-data-meta c.encoder data_type_score key key version
                      (u64_be u ++ place_holder ∷ m),
                )
                (h.entry_at u m hu);
        numbers = h.numbers;
      }

  pub meta-outside : in_range (sizes c key version) (meta_key c T key) ≡ false
  meta-outside =
      rw (sizes-data_key_range c data_type_zset (λ e. omega (arith, e)) key version hv)
        (in_range-meta_key c.encoder data_type_meta key key version)

  -- A counter where there was none.
  first_counter :
      (s : T.State) (f : Bytes → Option ℕ) (d idx : ℕ)
      → Indexed c T key version s f
      → T.scan s (sizes c key version) ≡ []
      → d < u64_mod
      → let s' = T.put s (size_key c T key version idx) (u64_be d) in
        Indexed c T key version s' f × (sum_sizes (T.scan s' (sizes c key version)) ≡ some d)
  first_counter s f d idx h none_there hd =
      let k = size_key c T key version idx in
      let r = sizes c key version in
      let (s', run, indexed, sum, _) =
        raise_lem c T key version hv s f 0 d idx h (ap sum_sizes none_there) hd in
      let old : T.get s k ≡ none =
        sym (
          T.find-scan s r k
          ∙ rw (size_key-in_range c data_type_zset (λ e. omega (arith, e)) key version hv idx) refl)
        ∙ ap (find k) none_there in
      let put : raise_size c T key version idx d s ≡ (ok tt, T.put s k (u64_be d)) = rw old refl in
      let same : s' ≡ T.put s k (u64_be d) = ap (λ r. r.1) (sym run ∙ put) in
      (
        subst (λ x. Indexed c T key version x f) same indexed,
        ap (λ x. sum_sizes (T.scan x r)) (sym same) ∙ sum ∙ ap some (omega (arith, hd)),
      )

  zadd_new_run :
      (pairs : List (Bytes × ℕ)) (idx : ℕ) (s s1 : T.State)
      → write_all c T key version pairs s ≡ (ok tt, s1)
      → (exists : Option Bool) → exists ≢ some true
      → zadd_new c T key pairs exists idx version s ≡ (
        ok (length pairs),
        T.put
            (T.put s1 (size_key c T key version idx) (u64_be (length pairs)))
            (meta_key c T key)
            (zset_meta c T 0 version),
      )
  unfolding zadd_new
  zadd_new_run pairs idx s s1 run none w = rw run refl
  zadd_new_run pairs idx s s1 run (some false) w = rw run refl
  zadd_new_run pairs idx s s1 run (some true) w = absurd (w refl)

  zadd_new_done :
      (pairs : List (Bytes × ℕ)) (idx : ℕ) (s : T.State)
      → Indexed c T key version s no_scores
      → T.scan s (sizes c key version) ≡ []
      → c.encoder.meta_key_number < u16_mod
      → Distinct (members_in pairs)
      → AllScores pairs
      → 0 < length pairs
      → length pairs < 2 ^ 63
      → (s' : T.State) × (((exists : Option Bool)
            → exists ≢ some true
            → zadd_new c T key pairs exists idx version s ≡ (ok (length pairs), s'))
          × ZHolds c T s' key 0 version (scored none no_scores pairs) (length pairs))
  unfolding zadd_new
  zadd_new_done pairs idx s h none_there hn d scores hf hb =
      let (s1, run, indexed, kept) =
        write_all_lem pairs s no_scores h d scores (Absent-no_scores pairs) in
      let n = length pairs in
      let f = scored none no_scores pairs in
      let (indexed2, sum) =
        first_counter s1 f n idx indexed (kept.0 ∙ none_there) (omega (arith, hb)) in
      let s2 = T.put s1 (size_key c T key version idx) (u64_be n) in
      let v = zset_meta c T 0 version in
      let s3 = T.put s2 (meta_key c T key) v in
      (
        s3,
        (
          zadd_new_run pairs idx s s1 run,
          record {
            value = v;
            index = stored_size c.encoder 0;
            meta =
                T.get-put s2 (meta_key c T key) v (meta_key c T key)
                ∙ rw (bytes_eq_refl (meta_key c T key)) refl;
            typed = (decode_key_type-encode c.encoder [] 0 version 0 0 0).4;
            decoded =
                (decode_key_meta-encode c.encoder 0 version 0 (omega arith) hv (omega arith) hn).2;
            inside = Indexed-put_meta s2 f v indexed2;
            counted =
                ap sum_sizes
                  (scan-put T s2 (meta_key c T key) v (sizes c key version) ∙ rw meta-outside refl)
                ∙ sum;
            version_lt = hv;
            filled = hf;
            room = hb;
          },
        ),
      )

module _ (c : Settings) (T : Txn) where
  -- ZADD of different members without XX, where a version is found and nothing is left of the key under
  -- it, neither a meta value nor members, an index or counters, with scores that are numbers, replies how
  -- many members there are; the key then holds a sorted set of them without an expiry, with each score
  -- under the member's data key and in the index, and its counters add up to their number.
  pub zadd_new_lem :
      (now : ℕ) (key : Bytes) (pairs : List (Bytes × ℕ)) (exists : Option Bool)
      (changed_only : Bool) (idx version : ℕ) (s : T.State)
      → T.get s (meta_key c T key) ≡ none
      → get_version_for_new c T key s ≡ (ok version, s)
      → version < u16_mod
      → Indexed c T key version s no_scores
      → T.scan s (sizes c key version) ≡ []
      → c.encoder.meta_key_number < u16_mod
      → Distinct (members_in pairs)
      → AllScores pairs
      → exists ≢ some true
      → 0 < length pairs
      → length pairs < 2 ^ 63
      → let (reply, s') = zadd c T now key pairs exists changed_only idx s in
        (reply ≡ ok (resp_int (pos (length pairs))))
        × ZHolds c T s' key 0 version (scored none no_scores pairs) (length pairs)
  unfolding zadd
  zadd_new_lem now key pairs exists changed_only idx version s none_there found hv h no_sizes hn d
        scores not_xx hf hb =
      let (s', (made, holds)) =
        zadd_new_done c T key version hv pairs idx s h no_sizes hn d scores hf hb in
      let opened =
        open_missing c T DataType.zset refl now (zset_expire_if_needed c T now key) key s
          none_there in
      let run : zadd c T now key pairs exists changed_only idx s
          ≡ (ok (resp_int (pos (length pairs))), s') =
        rw (opened, found, made exists not_xx, as_i64_small (length pairs) hb) refl in
      rw run (refl, holds)
