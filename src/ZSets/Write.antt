-- ===== src/ZSets/Write.antt =====
-- What ZADD writes for one member of a sorted set.
use tidis.Base.{
  subst, ℕ, ◌<◌, ◌≡◌, ◌∙◌, refl, sym, Bool, true, false, inl, inr, Option, none, some, ◌&&◌, ◌==◌,
  Bool-cases, arith, if◌then◌else◌,
}
use tidis.Bytes.{Bytes, bytes_eq, u16_mod, u64_mod}
use tidis.Bytes.Lex.{bytes_eq_iff}
use tidis.Encoding.Score.{encode_f64_to_cmp_uint64, encode_txnkv_zset_data_value}
use tidis.Encoding.Score.Laws.{cmp_lt}
use tidis.Config.{Settings}
use tidis.Txn.{Txn}
use tidis.ZSets.{member_key}
use tidis.ZSets.Index.{
  IsScore, stored, index_entry, with_score, index_key, Indexed, member_eq, index_eq,
  member-ne-index, index-ne-member,
}

kept_and : (b : Bool) (o : Option Bytes) → (if b && false then none else o) ≡ o
kept_and true o = refl
kept_and false o = refl

module _ (c : Settings) (T : Txn) (key : Bytes) (version : ℕ) where
  -- The states after the old key of the index is deleted, if `b` says so, and after all is written.
  abbrev pub unindexed : T.State → Bool → ℕ → Bytes → T.State
  unindexed s b w m = if b then T.delete s (index_key c T key version w m) else s

  abbrev pub written : T.State → Bool → ℕ → Bytes → ℕ → T.State
  written s b w m a =
      T.put
        (unindexed (T.put s (member_key c T key version m) (encode_txnkv_zset_data_value a)) b w m)
        (index_key c T key version (encode_f64_to_cmp_uint64 a) m) m

  get-unindexed :
      (s : T.State) (b : Bool) (w : ℕ) (m k : Bytes)
      → T.get (unindexed s b w m) k
        ≡ (if b && bytes_eq (index_key c T key version w m) k then none else T.get s k)
  get-unindexed s true w m k = T.get-delete s (index_key c T key version w m) k
  get-unindexed s false w m k = refl

  module _ (hv : version < u16_mod) where
    score_written :
        (s : T.State) (b : Bool) (w : ℕ) (m : Bytes) (a : ℕ) (j : Bytes)
        → T.get (written s b w m a) (member_key c T key version j) ≡ (
            if bytes_eq m j
            then some (encode_txnkv_zset_data_value a)
            else T.get s (member_key c T key version j))
    score_written s b w m a j =
        let v = encode_txnkv_zset_data_value a in
        let s1 = T.put s (member_key c T key version m) v in
        let u = encode_f64_to_cmp_uint64 a in
        let k = member_key c T key version j in
        T.get-put (unindexed s1 b w m) (index_key c T key version u m) m k
        ∙ rw (index-ne-member c T key version hv j m u) (
            get-unindexed s1 b w m k
            ∙ rw (index-ne-member c T key version hv j m w) (
                kept_and b (T.get s1 k)
                ∙ T.get-put s (member_key c T key version m) v k
                ∙ rw (member_eq c T key version hv m j) refl))

    entry_written :
        (s : T.State) (b : Bool) (w : ℕ) (m : Bytes) (a u : ℕ) (j : Bytes)
        → IsScore a
        → w < u64_mod
        → u < u64_mod
        → T.get (written s b w m a) (index_key c T key version u j) ≡ (
            if (encode_f64_to_cmp_uint64 a == u) && bytes_eq m j
            then some m
            else (if b && ((w == u) && bytes_eq m j)
                then none
                else T.get s (index_key c T key version u j)))
    entry_written s b w m a u j ha hw hu =
        let v = encode_txnkv_zset_data_value a in
        let s1 = T.put s (member_key c T key version m) v in
        let x = encode_f64_to_cmp_uint64 a in
        let k = index_key c T key version u j in
        T.get-put (unindexed s1 b w m) (index_key c T key version x m) m k
        ∙ rw
            (
              index_eq c T key version hv x u m j (cmp_lt a ha.0) hu,
              get-unindexed s1 b w m k,
              index_eq c T key version hv w u m j hw hu,
              T.get-put s (member_key c T key version m) v k,
              member-ne-index c T key version hv m j u,
            )
            refl

    stored_with :
        (f : Bytes → Option ℕ) (m : Bytes) (a : ℕ) (j : Bytes)
        → (if bytes_eq m j then some (encode_txnkv_zset_data_value a) else stored (f j))
          ≡ stored (with_score f m a j)
    stored_with f m a j = elim (Bool-cases (bytes_eq m j)) [ inl e ↦ rw e refl | inr e ↦ rw e refl ]

    -- No key of the index is left for the member but the new one.
    abbrev Cleared : (Bytes → Option ℕ) → Bool → ℕ → Bytes → ℕ → Type 0
    Cleared f b w m a =
        (u : ℕ)
        → (encode_f64_to_cmp_uint64 a == u) ≡ false
        → (if b && (w == u) then none else index_entry u m (f m)) ≡ none

    entry_with :
        (f : Bytes → Option ℕ) (b : Bool) (w : ℕ) (m : Bytes) (a u : ℕ) (j : Bytes)
        → Cleared f b w m a
        → (if (encode_f64_to_cmp_uint64 a == u) && bytes_eq m j
            then some m
            else (if b && ((w == u) && bytes_eq m j) then none else index_entry u j (f j)))
          ≡ index_entry u j (with_score f m a j)
    entry_with f b w m a u j h = elim (Bool-cases (bytes_eq m j)) [
      | inl e ↦ rw (e, sym ((bytes_eq_iff m j).0 e)) (ground (arith, h u))
      | inr e ↦ rw e (ground arith)
    ]

    numbers_with :
        (f : Bytes → Option ℕ) (m : Bytes) (a : ℕ) (j : Bytes) (x : ℕ)
        → IsScore a
        → ((y : ℕ) → f j ≡ some y → IsScore y)
        → with_score f m a j ≡ some x
        → IsScore x
    numbers_with f m a j x ha h e = elim (Bool-cases (bytes_eq m j)) [
      | inl b ↦
          let p : some a ≡ some x = rw b at e in let q : a ≡ x = cc in subst (λ z. IsScore z) q ha
      | inr b ↦ h x (rw b at e)
    ]

    pub Indexed-written :
        (s : T.State) (f : Bytes → Option ℕ) (b : Bool) (w : ℕ) (m : Bytes) (a : ℕ)
        → Indexed c T key version s f
        → IsScore a
        → w < u64_mod
        → Cleared f b w m a
        → Indexed c T key version (written s b w m a) (with_score f m a)
    Indexed-written s f b w m a h ha hw clear = record {
      score_at = λ j. score_written s b w m a j ∙ rw (h.score_at j) (stored_with f m a j);
      entry_at = λ u j hu.
          entry_written s b w m a u j ha hw hu
          ∙ rw (h.entry_at u j hu) (entry_with f b w m a u j clear);
      numbers = λ j x e. numbers_with f m a j x ha (h.numbers j) e;
    }
