-- ===== src/ZSets/Index.antt =====
-- The members of a sorted set with their scores, and the index by score: what a state holds of them and
-- what the writing of one score does.
use tidis.Base.{
  ℕ, ◌<◌, ◌≡◌, ◌∙◌, refl, sym, ap, Bool, true, false, Option, none, some, ◌∷◌, ◌++◌, ◌&&◌, ◌==◌,
  arith, compare, Ordering, if◌then◌else◌,
}
use tidis.Bytes.{Bytes, bytes_eq, lex, then_cmp, u16_mod, u64_mod, u64_be}
use tidis.Bytes.BigEndian.{length-u64_be, lex-u64_be}
use tidis.Bytes.Lex.{bytes_eq-lex, lex-append}
use tidis.Encoding.Apart.{bytes_eq-same_collection, bytes_eq-other_type}
use tidis.Encoding.Encode.{
  data_key, data_type_zset, data_type_score, place_holder, encode_txnkv_zset_data_key,
}
use tidis.Encoding.Score.{
  encode_f64_to_cmp_uint64, encode_txnkv_zset_data_value, encode_txnkv_zset_score_key, is_nan,
}
use tidis.Config.{Settings}
use tidis.Txn.{Txn}
use tidis.ZSets.{member_key, score_key}

-- The f64s that are numbers.
abbrev pub IsScore : ℕ → Type 0
IsScore a = (a < u64_mod) × (is_nan a ≡ false)

-- The value of a member's data key.
abbrev pub stored : Option ℕ → Option Bytes
stored none = none
stored (some a) = some (encode_txnkv_zset_data_value a)

-- The value of the key of the index for an encoded score and a member with the given score.
abbrev pub index_entry : ℕ → Bytes → Option ℕ → Option Bytes
index_entry u m none = none
index_entry u m (some a) = if encode_f64_to_cmp_uint64 a == u then some m else none

-- One score changes.
abbrev pub with_score : (Bytes → Option ℕ) → Bytes → ℕ → Bytes → Option ℕ
with_score f m a j = if bytes_eq m j then some a else f j

is_eq : Ordering → Bool
is_eq o = elim o [ Ordering.eq ↦ true | _ ↦ false ]

both_eq :
    (a b : ℕ) (x y : Bytes)
    → is_eq (then_cmp (compare a b) (lex (place_holder ∷ x) (place_holder ∷ y)))
      ≡ ((a == b) && is_eq (lex x y))
unfolding is_eq lex
both_eq a b x y = ground arith

scored_eq :
    (a b : ℕ) (x y : Bytes)
    → a < u64_mod
    → b < u64_mod
    → bytes_eq (u64_be a ++ place_holder ∷ x) (u64_be b ++ place_holder ∷ y)
      ≡ ((a == b) && bytes_eq x y)
unfolding is_eq
scored_eq a b x y ha hb =
    bytes_eq-lex (u64_be a ++ place_holder ∷ x) (u64_be b ++ place_holder ∷ y)
    ∙ ap (λ o. is_eq o)
        (lex-append (u64_be a) (u64_be b) (place_holder ∷ x) (place_holder ∷ y)
            (length-u64_be a ∙ sym (length-u64_be b))
          ∙ ap (λ o. then_cmp o (lex (place_holder ∷ x) (place_holder ∷ y))) (lex-u64_be a b ha hb))
    ∙ both_eq a b x y
    ∙ ap (λ z. (a == b) && z) (sym (bytes_eq-lex x y))

module _ (c : Settings) (T : Txn) (key : Bytes) (version : ℕ) where
  abbrev pub index_key : ℕ → Bytes → Bytes
  index_key u m = data_key c.encoder data_type_score key version (u64_be u ++ place_holder ∷ m)

  -- The state holds the scores `f`: the data key of each member has its score, and the index has one key
  -- for each member, by its score.
  pub record Indexed (s : T.State) (f : Bytes → Option ℕ) : Type 0 where
    pub score_at : (m : Bytes) → T.get s (member_key c T key version m) ≡ stored (f m)
    pub entry_at :
        (u : ℕ) (m : Bytes) → u < u64_mod → T.get s (index_key u m) ≡ index_entry u m (f m)
    pub numbers : (m : Bytes) (a : ℕ) → f m ≡ some a → IsScore a

  pub score_key-index_key :
      (a : ℕ) (m : Bytes) → score_key c T key version a m ≡ index_key (encode_f64_to_cmp_uint64 a) m
  unfolding encode_txnkv_zset_score_key
  score_key-index_key a m = refl

  pub member_key-data_key :
      (m : Bytes) → member_key c T key version m ≡ data_key c.encoder data_type_zset key version m
  unfolding encode_txnkv_zset_data_key
  member_key-data_key m = refl

  module _ (hv : version < u16_mod) where
    pub member_eq :
        (m j : Bytes)
        → bytes_eq (member_key c T key version m) (member_key c T key version j) ≡ bytes_eq m j
    member_eq m j =
        rw (member_key-data_key m, member_key-data_key j)
          (bytes_eq-same_collection c.encoder data_type_zset key version m j hv)

    pub index_eq :
        (u w : ℕ) (m j : Bytes)
        → u < u64_mod
        → w < u64_mod
        → bytes_eq (index_key u m) (index_key w j) ≡ ((u == w) && bytes_eq m j)
    index_eq u w m j hu hw =
        bytes_eq-same_collection c.encoder data_type_score key version
          (u64_be u ++ place_holder ∷ m) (u64_be w ++ place_holder ∷ j) hv
        ∙ scored_eq u w m j hu hw

    pub member-ne-index :
        (m j : Bytes) (u : ℕ) → bytes_eq (member_key c T key version m) (index_key u j) ≡ false
    member-ne-index m j u = rw (member_key-data_key m) (
        bytes_eq-other_type c.encoder data_type_zset data_type_score key key version version m
          (u64_be u ++ place_holder ∷ j) (λ e. omega (arith, e)) hv hv)

    pub index-ne-member :
        (m j : Bytes) (u : ℕ) → bytes_eq (index_key u j) (member_key c T key version m) ≡ false
    index-ne-member m j u = rw (member_key-data_key m) (
        bytes_eq-other_type c.encoder data_type_score data_type_zset key key version version
          (u64_be u ++ place_holder ∷ j) m (λ e. omega (arith, e)) hv hv)
