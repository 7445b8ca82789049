-- ===== src/ZSets/Laws.antt =====
-- ZADD on a sorted set, and what ZCARD and ZSCORE read.
use tidis.Base.{
  ◌==◌, ℕ, ◌+◌, ◌^◌, ◌<◌, ◌≤◌, ◌≡◌, ◌∙◌, refl, ap, Bool, true, false, not, Option, none, some, List,
  [], ◌∷◌, ◌&&◌, arith, if◌then◌else◌, length, ltb,
}
use tidis.Base.Int.{pos}
use tidis.Bytes.{Bytes, u16_mod, u64_mod}
use tidis.Encoding.{DataType}
use tidis.Encoding.Decode.{decode_key_type, decode_key_meta}
use tidis.Encoding.Encode.{encode_txnkv_meta_key}
use tidis.Frame.{Frame, resp_int, resp_bulk, resp_nil}
use tidis.Config.{Settings, key_is_expired}
use tidis.Txn.{Txn, Distinct}
use tidis.Txn.Exec.{ok, pure, bind_ok, ◌>>◌}
use tidis.Txn.Steps.{write}
use tidis.Collections.{sum_sizes, raise_size, meta_key}
use tidis.Collections.Holds.{sizes, as_i64_small, open_decoded, sum_counted}
use tidis.ZSets.{zset_meta, zcard, zset_expire_if_needed}
use tidis.ZSets.Put.{one_if, zadd_to, zadd, zadd_pairs, zset_member_keys}
use tidis.ZSets.Index.{IsScore, Indexed, stored}
use tidis.ZSets.Look.{zscore, zscore_reply}
use tidis.Encoding.Score.{sign_mask}
use tidis.Encoding.Score.Laws.{decode_encode_f64}
use tidis.ZSets.One.{has, changed_by, admits, step, read_back}
use tidis.ZSets.Raise.{Agrees-batch, maybe_raise_lem}
use tidis.ZSets.Add.{
  scored, count_new, count_changed, members_in, AllScores, zadd_pairs_lem, counts,
}

-- The key holds a sorted set with the scores `f`, and its counters add up to `n`.
pub record ZHolds (c : Settings) (T : Txn) (s : T.State) (key : Bytes) (ttl version : ℕ)
    (f : Bytes → Option ℕ) (n : ℕ) : Type 0 where
  pub value : Bytes
  pub index : ℕ
  pub meta : T.get s (meta_key c T key) ≡ some value
  pub typed : decode_key_type value ≡ some DataType.zset
  pub decoded : decode_key_meta value ≡ some (ttl, version, index)
  pub inside : Indexed c T key version s f
  pub counted : sum_sizes (T.scan s (sizes c key version)) ≡ some n
  pub version_lt : version < u16_mod
  pub filled : 0 < n
  pub room : n < 2 ^ 63

picked_lt : (b : Bool) {x y k : ℕ} → x < k → y < k → (if b then x else y) < k
picked_lt true h g = h
picked_lt false h g = g

one_if_le : (b : Bool) → one_if b ≤ 1
one_if_le true = omega arith
one_if_le false = omega arith

count_new_le :
    (exists : Option Bool) (f : Bytes → Option ℕ) (pairs : List (Bytes × ℕ))
    → count_new exists f pairs ≤ length pairs
count_new_le exists f [] = omega arith
count_new_le exists f ((m, a) ∷ pairs) = omega (
  arith,
  one_if_le (admits exists (f m) && not (has (f m))),
  count_new_le exists (step exists f m a) pairs,
)

count_changed_le :
    (exists : Option Bool) (f : Bytes → Option ℕ) (pairs : List (Bytes × ℕ))
    → count_changed exists f pairs ≤ length pairs
count_changed_le exists f [] = omega arith
count_changed_le exists f ((m, a) ∷ pairs) = omega (
  arith,
  one_if_le (admits exists (f m) && changed_by (f m) a),
  count_changed_le exists (step exists f m a) pairs,
)

module _ (c : Settings) (T : Txn) (key : Bytes) (version : ℕ) (hv : version < u16_mod) where
  zadd_to_lem :
      (pairs : List (Bytes × ℕ)) (exists : Option Bool) (changed_only : Bool) (idx ttl n : ℕ)
      (s : T.State) (f : Bytes → Option ℕ)
      → Indexed c T key version s f
      → sum_sizes (T.scan s (sizes c key version)) ≡ some n
      → Distinct (members_in pairs)
      → AllScores pairs
      → n + length pairs < u64_mod
      → (s' : T.State) × (zadd_to c T key pairs exists changed_only idx false ttl version s ≡ (
        ok (if changed_only then count_changed exists f pairs else count_new exists f pairs),
        s',
      ))
        × Indexed c T key version s' (scored exists f pairs)
        × (sum_sizes (T.scan s' (sizes c key version)) ≡ some (n + count_new exists f pairs))
        × ((u : Bytes)
            → T.get s' (encode_txnkv_meta_key c.encoder u)
              ≡ T.get s (encode_txnkv_meta_key c.encoder u))
  unfolding zadd_to
  zadd_to_lem pairs exists changed_only idx ttl n s f h counted d scores hn =
      let found = T.batch_get s (zset_member_keys c T key version pairs) in
      let (s1, run, indexed, kept) =
        zadd_pairs_lem c T key version hv exists found pairs 0 0 s f h d scores
          (Agrees-batch c T key version hv s f pairs pairs h d (λ m e. e)) in
      let (s2, raised, indexed2, sum, metas) =
        maybe_raise_lem c T key version hv s1 (scored exists f pairs) n (count_new exists f pairs)
          idx indexed (ap sum_sizes kept.0 ∙ counted)
          (omega (arith, hn, count_new_le exists f pairs)) in
      (
        s2,
        bind_ok (zadd_pairs c T key version exists found pairs 0 0)
              (λ (added, updated).
                (if ltb 0 added then raise_size c T key version idx added else pure tt)
                >> ((if false
                      then write T (meta_key c T key) (zset_meta c T ttl version)
                      else pure tt)
                    >> pure (if changed_only then updated else added)))
              s s1 (count_new exists f pairs, count_changed exists f pairs)
              (run ∙ counts T.State s1 (omega arith) (omega arith))
            ∙ bind_ok
                (if ltb 0 (count_new exists f pairs)
                  then raise_size c T key version idx (count_new exists f pairs)
                  else pure tt)
                (λ _.
                  (if false
                    then write T (meta_key c T key) (zset_meta c T ttl version)
                    else pure tt)
                  >> pure (
                      if changed_only
                      then count_changed exists f pairs
                      else count_new exists f pairs))
                s1 s2 tt raised,
        indexed2,
        sum,
        λ u. metas u ∙ kept.1 u,
      )

module _ (c : Settings) (T : Txn) where
  -- ZADD of different members to a sorted set that has not expired, stays below 2^63 members and whose
  -- counters add up to `n`, with scores that are numbers, replies how many members are new, or with CH
  -- how many get another score. The sorted set then holds the new scores of the members that NX and XX
  -- let through and else its old ones, both under the members' data keys and in the index, where no old
  -- score of a member is left; the counters add up to `n` and the number of the new members, and the
  -- expiry and the version stay.
  pub zadd_live_lem :
      (now : ℕ) (key : Bytes) (pairs : List (Bytes × ℕ)) (exists : Option Bool)
      (changed_only : Bool) (idx ttl version n : ℕ) (s : T.State) (f : Bytes → Option ℕ)
      → ZHolds c T s key ttl version f n
      → key_is_expired now ttl ≡ false
      → Distinct (members_in pairs)
      → AllScores pairs
      → n + length pairs < 2 ^ 63
      → let (reply, s') = zadd c T now key pairs exists changed_only idx s in
        (reply
          ≡ ok (
              resp_int (
                pos (
                  if changed_only
                  then count_changed exists f pairs
                  else count_new exists f pairs))))
        × ZHolds c T s' key ttl version (scored exists f pairs) (n + count_new exists f pairs)
  unfolding zadd
  zadd_live_lem now key pairs exists changed_only idx ttl version n s f h fresh d scores hn =
      let (s', done, indexed, sum, metas) =
        zadd_to_lem c T key version h.version_lt pairs exists changed_only idx ttl n s f h.inside
          h.counted d scores (omega (arith, hn)) in
      let m = if changed_only then count_changed exists f pairs else count_new exists f pairs in
      let opened =
        open_decoded c T DataType.zset refl now (zset_expire_if_needed c T now key) key h.value ttl
          version h.index s h.meta h.typed h.decoded fresh in
      let small : m < 2 ^ 63 =
        picked_lt changed_only (omega (arith, hn, count_changed_le exists f pairs))
          (omega (arith, hn, count_new_le exists f pairs)) in
      let run : zadd c T now key pairs exists changed_only idx s ≡ (ok (resp_int (pos m)), s') =
        rw (opened, done, as_i64_small m small) refl in
      rw run (
        refl,
        record {
          value = h.value;
          index = h.index;
          meta = metas key ∙ h.meta;
          typed = h.typed;
          decoded = h.decoded;
          inside = indexed;
          counted = sum;
          version_lt = h.version_lt;
          filled = omega (arith, h.filled);
          room = omega (arith, hn, count_new_le exists f pairs);
        },
      )

  abbrev pub score_reply : (ℕ → Bytes) → Option ℕ → Frame
  score_reply show none = resp_nil
  score_reply show (some a) = resp_bulk (show (if a == sign_mask then 0 else a))

  score_read :
      (show : ℕ → Bytes) (o : Option ℕ) (s : T.State)
      → ((a : ℕ) → o ≡ some a → IsScore a)
      → zscore_reply c T show (stored o) s ≡ (ok (score_reply show o), s)
  score_read show none s h = refl
  score_read show (some a) s h =
      let number = h a refl in rw (read_back a number, decode_encode_f64 a number.0 number.1) refl

  -- On a sorted set that has not expired, ZCARD replies the sum of the counters and ZSCORE prints the
  -- score of the member, with 0 in place of -0, or replies nil where it is not a member; nothing changes.
  pub zset_reads :
      (show : ℕ → Bytes) (now : ℕ) (key m : Bytes) (ttl version n : ℕ) (s : T.State)
      (f : Bytes → Option ℕ)
      → ZHolds c T s key ttl version f n
      → key_is_expired now ttl ≡ false
      → (zcard c T now key s ≡ (ok (resp_int (pos n)), s))
        × (zscore c T show now key m s ≡ (ok (score_reply show (f m)), s))
  unfolding zcard zscore
  zset_reads show now key m ttl version n s f h fresh =
      let opened =
        open_decoded c T DataType.zset refl now (zset_expire_if_needed c T now key) key h.value ttl
          version h.index s h.meta h.typed h.decoded fresh in
      let size =
        sum_counted c T DataType.zset refl key h.value version n s h.meta h.typed h.counted h.filled
          h.room in
      (
        rw opened (rw size (rw (as_i64_small n h.room) refl)),
        rw opened (rw (h.inside.score_at m) (score_read show (f m) s (h.inside.numbers m))),
      )
