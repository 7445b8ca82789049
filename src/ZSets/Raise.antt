-- ===== src/ZSets/Raise.antt =====
-- The batch that ZADD reads, and the counter that it raises.
use tidis.Base.{
  ℕ, ◌+◌, ◌<◌, ◌≡◌, ◌≢◌, ◌∙◌, refl, ap, true, false, inl, inr, Option, some, List, [], ◌∷◌, ◌++◌,
  Bool-cases, arith, if◌then◌else◌, ltb,
}
use tidis.Bytes.{Bytes, bytes_eq, u16_mod, u64_mod, u64_be, add64}
use tidis.Bytes.Lex.{bytes_eq_refl}
use tidis.Encoding.Encode.{
  data_type_zset, data_type_score, data_type_meta, encode_txnkv_meta_key, place_holder,
}
use tidis.Config.{Settings}
use tidis.Txn.{Txn, Distinct, contains, find}
use tidis.Txn.Exec.{ok, pure}
use tidis.Txn.Scan.{scan-put}
use tidis.Txn.Batch.{collected-batch_get}
use tidis.Collections.{sum_sizes, raise_size, size_key}
use tidis.Collections.Holds.{sizes}
use tidis.Collections.Sizes.{raise_sum}
use tidis.Collections.Changes.{size_key-in_range, size-ne-item, size-ne-meta}
use tidis.ZSets.{member_key}
use tidis.ZSets.Put.{zset_member_keys}
use tidis.ZSets.Index.{Indexed, member_eq, member_key-data_key, index_key}
use tidis.ZSets.Add.{members_in, Agrees}

module _ (c : Settings) (T : Txn) (key : Bytes) (version : ℕ) (hv : version < u16_mod) where
  contains-members :
      (pairs : List (Bytes × ℕ)) (m : Bytes)
      → contains (zset_member_keys c T key version pairs) (member_key c T key version m)
        ≡ contains (members_in pairs) m
  contains-members [] m = refl
  contains-members ((j, a) ∷ pairs) m =
      rw (member_eq c T key version hv j m, contains-members pairs m) refl

  Distinct-members :
      (pairs : List (Bytes × ℕ))
      → Distinct (members_in pairs)
      → Distinct (zset_member_keys c T key version pairs)
  Distinct-members [] h = tt
  Distinct-members ((m, a) ∷ pairs) h = (contains-members pairs m ∙ h.0, Distinct-members pairs h.1)

  pub Agrees-batch :
      (s : T.State) (f : Bytes → Option ℕ) (all pairs : List (Bytes × ℕ))
      → Indexed c T key version s f
      → Distinct (members_in all)
      → ((m : Bytes) → contains (members_in pairs) m ≡ true → contains (members_in all) m ≡ true)
      → Agrees c T key version hv (T.batch_get s (zset_member_keys c T key version all)) f pairs
  Agrees-batch s f all [] h d inside = tt
  Agrees-batch s f all ((m, a) ∷ pairs) h d inside = (
    collected-batch_get T s (zset_member_keys c T key version all) (member_key c T key version m)
          (Distinct-members all d)
        ∙ rw (contains-members all m, inside m (rw (bytes_eq_refl m) refl)) (h.score_at m),
    Agrees-batch s f all pairs h d (λ j e. inside j (ground (arith, e))),
  )

  -- The counters and the meta values after a raise of the counter.
  pub raise_lem :
      (s : T.State) (f : Bytes → Option ℕ) (n d idx : ℕ)
      → Indexed c T key version s f
      → sum_sizes (T.scan s (sizes c key version)) ≡ some n
      → d < u64_mod
      → (s' : T.State) × (raise_size c T key version idx d s ≡ (ok tt, s'))
        × Indexed c T key version s' f
        × (sum_sizes (T.scan s' (sizes c key version)) ≡ some (add64 n d))
        × ((u : Bytes)
            → T.get s' (encode_txnkv_meta_key c.encoder u)
              ≡ T.get s (encode_txnkv_meta_key c.encoder u))
  raise_lem s f n d idx h counted hd =
      let k = size_key c T key version idx in
      let r = sizes c key version in
      let (new, made, b, sum) = raise_sum (T.scan s r) k n d hd counted in
      let zset_apart : data_type_zset ≢ data_type_meta = λ e. omega (arith, e) in
      let score_apart : data_type_score ≢ data_type_meta = λ e. omega (arith, e) in
      let old : find k (T.scan s r) ≡ T.get s k =
        T.find-scan s r k
        ∙ rw (size_key-in_range c data_type_zset zset_apart key version hv idx) refl in
      let v = u64_be new in
      let size-ne-member : (m : Bytes) → bytes_eq k (member_key c T key version m) ≡ false = λ m.
        rw (member_key-data_key c T key version m)
          (size-ne-item c data_type_zset zset_apart key version hv idx m) in
      (
        T.put s k v,
        rw (rw old at made) refl,
        record {
          score_at = λ m.
              T.get-put s k v (member_key c T key version m) ∙ rw (size-ne-member m) (h.score_at m);
          entry_at = λ u m hu.
              T.get-put s k v (index_key c T key version u m)
              ∙ rw
                  (size-ne-item c data_type_score score_apart key version hv idx
                    (u64_be u ++ place_holder ∷ m))
                  (h.entry_at u m hu);
          numbers = h.numbers;
        },
        rw (scan-put T s k v r, size_key-in_range c data_type_zset zset_apart key version hv idx)
            sum,
        λ u.
            T.get-put s k v (encode_txnkv_meta_key c.encoder u)
            ∙ rw (size-ne-meta c data_type_zset zset_apart key version hv idx u) refl,
      )

  pub maybe_raise_lem :
      (s : T.State) (f : Bytes → Option ℕ) (n d idx : ℕ)
      → Indexed c T key version s f
      → sum_sizes (T.scan s (sizes c key version)) ≡ some n
      → n + d < u64_mod
      → (s' : T.State) × ((if ltb 0 d then raise_size c T key version idx d else pure tt) s
          ≡ (ok tt, s'))
        × Indexed c T key version s' f
        × (sum_sizes (T.scan s' (sizes c key version)) ≡ some (n + d))
        × ((u : Bytes)
            → T.get s' (encode_txnkv_meta_key c.encoder u)
              ≡ T.get s (encode_txnkv_meta_key c.encoder u))
  maybe_raise_lem s f n d idx h counted hd = elim (Bool-cases (ltb 0 d)) [
    | inl e ↦
        let (s', run, indexed, sum, metas) = raise_lem s f n d idx h counted (omega (arith, hd)) in
        (s', rw e run, indexed, sum ∙ ap some (omega (arith, hd)), metas)
    | inr e ↦ (s, rw e refl, h, counted ∙ ap some (ground (arith, e)), λ u. refl)
  ]
