-- ===== src/Encoding/Order.antt =====
-- The byte order of the keys that the encoder writes: items of one collection stand together, in the
-- order of their indices or scores, and no two collections mix.
use tidis.Base.{
  ℕ, ◌+◌, ◌<◌, ◌≡◌, ◌∙◌, ◌↔◌, refl, sym, ap, ap₂, Bool, true, false, [], ◌∷◌, ◌++◌, ◌&&◌, ltb,
  if◌then◌else◌, arith, compare, Ordering,
}
use tidis.Bytes.{Bytes, lex, lex_ltb, lex_leb, then_cmp, u64_be, u16_be, u64_mod, u16_mod, swap_cmp}
use tidis.Bytes.BigEndian.{lex-u64_be, lex-u16_be, length-u64_be, length-u16_be}
use tidis.Bytes.Lex.{lex-append_left, lex-append, lex_refl, lex-swap, eq_of_lex}
use tidis.Encoding.Groups.{encode_bytes}
use tidis.Encoding.Groups.Laws.{lex-encode_bytes}
use tidis.Encoding.Encode.{
  KeyEncoder, KeyRange, type_data_key, data_key, data_key_range, place_holder,
  encode_txnkv_list_data_key,
}
use tidis.Encoding.Score.{encode_txnkv_zset_score_key, encode_f64_to_cmp_uint64, is_nan, f64_ltb}
use tidis.Encoding.Score.Laws.{cmp_lt, encode_f64_order}

-- `k` is in the range, as a scan of the store reads it
unfoldable pub in_range : KeyRange → Bytes → Bool
in_range r k = lex_leb r.start k && (if r.inclusive then lex_leb k r.stop else lex_ltb k r.stop)

scores_decide :
    (x y : ℕ) (m n : Bytes)
    → then_cmp (compare x y) (lex (place_holder ∷ m) (place_holder ∷ n))
      ≡ (if ltb x y then Ordering.lt else if ltb y x then Ordering.gt else lex m n)
unfolding lex
scores_decide x y m n = ground arith

-- Not after the first bound, and before the second.
abbrev pub within : Ordering → Ordering → Bool
within a b =
    (elim a [ Ordering.gt ↦ false | _ ↦ true ]) && (elim b [ Ordering.lt ↦ true | _ ↦ false ])

swap_compare : (x y : ℕ) → compare y x ≡ swap_cmp (compare x y)
swap_compare x y = ground arith

-- What lies between two bounds that agree but for the last byte agrees with them.
between :
    (a b c d : Ordering)
    → within
        (then_cmp a (then_cmp b (then_cmp c d)))
        (then_cmp (swap_cmp a) (then_cmp (swap_cmp b) (then_cmp (swap_cmp c) Ordering.lt)))
      ≡ true
    → (a ≡ Ordering.eq) × (b ≡ Ordering.eq) × (c ≡ Ordering.eq)
between a b c d h = ground arith

stop_cmp : (item : Bytes) → lex (place_holder ∷ item) ((place_holder + 1) ∷ []) ≡ Ordering.lt
unfolding lex
stop_cmp item = refl

start_cmp-within :
    (item : Bytes) → within (lex (place_holder ∷ []) (place_holder ∷ item)) Ordering.lt ≡ true
unfolding lex
start_cmp-within [] = refl
start_cmp-within (x ∷ item) = refl

eq_of_compare : (x y : ℕ) → compare x y ≡ Ordering.eq → x ≡ y
eq_of_compare x y h = ground arith

module _ (e : KeyEncoder) where
  -- Data keys compare by user key, type, version and what follows, in this order.
  pub lex-type_data_key :
      (t t' : ℕ) (u u' : Bytes) (v v' : ℕ) (r r' : Bytes)
      → v < u16_mod
      → v' < u16_mod
      → lex (type_data_key e t u v r) (type_data_key e t' u' v' r')
        ≡ then_cmp (lex u u') (then_cmp (compare t t') (then_cmp (compare v v') (lex r r')))
  lex-type_data_key t t' u u' v v' r r' hv hv' =
      lex-append_left (b'x' ∷ e.instance_id.0 ∷ e.instance_id.1 ∷ b'u' ∷ [])
        (encode_bytes u ++ t ∷ (u16_be v ++ r)) (encode_bytes u' ++ t' ∷ (u16_be v' ++ r'))
      ∙ lex-encode_bytes u u' (t ∷ (u16_be v ++ r)) (t' ∷ (u16_be v' ++ r'))
      ∙ ap (λ c. then_cmp (lex u u') c) (typed t t' v v' r r' hv hv')
    where
      versions :
          (v v' : ℕ) (r r' : Bytes)
          → v < u16_mod
          → v' < u16_mod
          → lex (u16_be v ++ r) (u16_be v' ++ r') ≡ then_cmp (compare v v') (lex r r')
      versions v v' r r' hv hv' =
          lex-append (u16_be v) (u16_be v') r r' (length-u16_be v ∙ sym (length-u16_be v'))
          ∙ ap (λ c. then_cmp c (lex r r')) (lex-u16_be v v' hv hv')

      typed :
          (t t' v v' : ℕ) (r r' : Bytes)
          → v < u16_mod
          → v' < u16_mod
          → lex (t ∷ (u16_be v ++ r)) (t' ∷ (u16_be v' ++ r'))
            ≡ then_cmp (compare t t') (then_cmp (compare v v') (lex r r'))
      typed t t' v v' r r' hv hv' =
          unfold lex in ap (λ c. then_cmp (compare t t') c) (versions v v' r r' hv hv')

  -- Within one collection the items decide.
  pub lex-same_collection :
      (t : ℕ) (u : Bytes) (v : ℕ) (r r' : Bytes)
      → v < u16_mod
      → lex (data_key e t u v r) (data_key e t u v r') ≡ lex r r'
  unfolding lex
  lex-same_collection t u v r r' hv =
      lex-type_data_key t t u u v v (place_holder ∷ r) (place_holder ∷ r') hv hv
      ∙ ground (arith, lex_refl u)

  -- The keys of a list's elements, of one user key and version, are ordered as their indices.
  pub lex-list_data_key :
      (ukey : Bytes) (i j version : ℕ)
      → i < u64_mod
      → j < u64_mod
      → version < u16_mod
      → lex
          (encode_txnkv_list_data_key e ukey i version)
          (encode_txnkv_list_data_key e ukey j version)
        ≡ compare i j
  unfolding encode_txnkv_list_data_key
  lex-list_data_key ukey i j version hi hj hv =
      lex-same_collection b'l' ukey version (u64_be i) (u64_be j) hv ∙ lex-u64_be i j hi hj

  -- Score keys of one sorted set are ordered by score, and by member where the scores are equal.
  pub lex-score_key :
      (ukey : Bytes) (a b : ℕ) (m n : Bytes) (version : ℕ)
      → a < u64_mod
      → b < u64_mod
      → is_nan a ≡ false
      → is_nan b ≡ false
      → version < u16_mod
      → lex
          (encode_txnkv_zset_score_key e ukey a m version)
          (encode_txnkv_zset_score_key e ukey b n version)
        ≡ (if f64_ltb a b then Ordering.lt else if f64_ltb b a then Ordering.gt else lex m n)
  unfolding encode_txnkv_zset_score_key
  lex-score_key ukey a b m n version ha hb na nb hv =
      let x = encode_f64_to_cmp_uint64 a in
      let y = encode_f64_to_cmp_uint64 b in
      lex-same_collection b'S' ukey version (u64_be x ++ place_holder ∷ m)
        (u64_be y ++ place_holder ∷ n) hv
      ∙ lex-append (u64_be x) (u64_be y) (place_holder ∷ m) (place_holder ∷ n)
          (length-u64_be x ∙ sym (length-u64_be y))
      ∙ ap (λ c. then_cmp c (lex (place_holder ∷ m) (place_holder ∷ n)))
          (lex-u64_be x y (cmp_lt a ha) (cmp_lt b hb))
      ∙ scores_decide x y m n
      ∙ cc (encode_f64_order a b ha hb na nb, encode_f64_order b a hb ha nb na)

  abbrev start_cmp : Bytes → Ordering
  start_cmp item = lex (place_holder ∷ []) (place_holder ∷ item)

  in_range-eq :
      (t t' : ℕ) (u u' : Bytes) (v v' : ℕ) (item : Bytes)
      → v < u16_mod
      → v' < u16_mod
      → in_range (data_key_range e t u v) (data_key e t' u' v' item)
        ≡ within
            (then_cmp
              (lex u u')
              (then_cmp (compare t t') (then_cmp (compare v v') (start_cmp item))))
            (then_cmp
              (swap_cmp (lex u u'))
              (then_cmp (swap_cmp (compare t t')) (then_cmp (swap_cmp (compare v v')) Ordering.lt)))
  unfolding in_range
  in_range-eq t t' u u' v v' item hv hv' =
      ap₂ within (lex-type_data_key t t' u u' v v' (place_holder ∷ []) (place_holder ∷ item) hv hv')
        (lex-type_data_key t' t u' u v' v (place_holder ∷ item) ((place_holder + 1) ∷ []) hv' hv
          ∙ rw (lex-swap u u', swap_compare t t', swap_compare v v', stop_cmp item))

  -- A data key lies in the range of a collection exactly when it has that collection's type, user
  -- key and version.
  pub in_range-data_key :
      (t t' : ℕ) (u u' : Bytes) (v v' : ℕ) (item : Bytes)
      → v < u16_mod
      → v' < u16_mod
      → (in_range (data_key_range e t u v) (data_key e t' u' v' item) ≡ true)
        ↔ ((t ≡ t') × (u ≡ u') × (v ≡ v'))
  in_range-data_key t t' u u' v v' item hv hv' =
      let eq = in_range-eq t t' u u' v v' item hv hv' in
      (
        λ h.
            let split =
              between (lex u u') (compare t t') (compare v v') (start_cmp item) (sym eq ∙ h) in
            (eq_of_compare t t' split.1, eq_of_lex u u' split.0, eq_of_compare v v' split.2),
        λ same.
            let ct : compare t t' ≡ Ordering.eq = ground arith in
            let cu : lex u u' ≡ Ordering.eq = rw (← same.1) (lex_refl u) in
            let cv : compare v v' ≡ Ordering.eq = ground arith in
            eq ∙ rw (ct, cu, cv) (start_cmp-within item),
      )
