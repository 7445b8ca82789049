-- ===== src/Encoding/Apart.antt =====
-- Keys of different kinds are different, and no range of items holds a key of another kind.
use tidis.Base.{
  ℕ, ◌+◌, ◌<◌, ◌≡◌, ◌≢◌, ◌∙◌, refl, sym, ap, ap₂, Bool, true, false, [], ◌∷◌, ◌++◌, arith, compare,
  Ordering,
}
use tidis.Bytes.{Bytes, lex, then_cmp, swap_cmp, bytes_eq, u16_be, u16_mod}
use tidis.Bytes.Lex.{lex-append_left, bytes_eq-lex, lex-swap}
use tidis.Encoding.Groups.{encode_bytes}
use tidis.Encoding.Groups.Laws.{lex-encode_bytes}
use tidis.Encoding.Encode.{
  KeyEncoder, data_key, data_key_range, place_holder, encode_txnkv_meta_key, encode_txnkv_gc_key,
  encode_txnkv_gc_version_key,
}
use tidis.Encoding.Order.{in_range, within, lex-type_data_key, lex-same_collection}

abbrev is_eq : Ordering → Bool
is_eq o = elim o [ Ordering.eq ↦ true | _ ↦ false ]

then_eq : (o : Ordering) → is_eq (then_cmp o (lex (b'm' ∷ []) (b'm' ∷ []))) ≡ is_eq o
unfolding lex
then_eq o = ground arith

meta_not_eq :
    (o : Ordering) (t : ℕ) (r : Bytes)
    → (t ≡ b'm' → is_eq (lex r []) ≡ false)
    → is_eq (then_cmp o (lex (t ∷ r) (b'm' ∷ []))) ≡ false
unfolding lex
meta_not_eq o t r h = ground (arith, h)

other_type :
    (o : Ordering) (t t' : ℕ) (r : Ordering)
    → t ≢ t'
    → is_eq (then_cmp o (then_cmp (compare t t') r)) ≡ false
other_type o t t' r h = ground arith

outside_meta :
    (o : Ordering) (t : ℕ) (r q : Bytes)
    → lex r [] ≡ Ordering.gt
    → within
        (then_cmp o (lex (t ∷ r) (b'm' ∷ [])))
        (then_cmp (swap_cmp o) (lex (b'm' ∷ []) (t ∷ q)))
      ≡ false
unfolding lex
outside_meta o t r q h = ground (arith, h)

word_gt : (v : ℕ) (r : Bytes) → lex (u16_be v ++ r) [] ≡ Ordering.gt
unfolding lex u16_be
word_gt v r = refl

module _ (e : KeyEncoder) where
  pub bytes_eq-same_collection :
      (t : ℕ) (u : Bytes) (v : ℕ) (i j : Bytes)
      → v < u16_mod
      → bytes_eq (data_key e t u v i) (data_key e t u v j) ≡ bytes_eq i j
  bytes_eq-same_collection t u v i j hv =
      bytes_eq-lex (data_key e t u v i) (data_key e t u v j)
      ∙ ap (λ o. is_eq o) (lex-same_collection e t u v i j hv)
      ∙ sym (bytes_eq-lex i j)

  pub bytes_eq-other_type :
      (t t' : ℕ) (u u' : Bytes) (v v' : ℕ) (i j : Bytes)
      → t ≢ t'
      → v < u16_mod
      → v' < u16_mod
      → bytes_eq (data_key e t u v i) (data_key e t' u' v' j) ≡ false
  bytes_eq-other_type t t' u u' v v' i j ht hv hv' =
      bytes_eq-lex (data_key e t u v i) (data_key e t' u' v' j)
      ∙ ap (λ o. is_eq o)
          (lex-type_data_key e t t' u u' v v' (place_holder ∷ i) (place_holder ∷ j) hv hv')
      ∙ other_type (lex u u') t t'
          (then_cmp (compare v v') (lex (place_holder ∷ i) (place_holder ∷ j))) ht

  lex-data-meta :
      (t : ℕ) (u u' : Bytes) (r : Bytes)
      → lex
          (b'x' ∷ e.instance_id.0 ∷ e.instance_id.1 ∷ b'u' ∷ (encode_bytes u ++ t ∷ r))
          (encode_txnkv_meta_key e u')
        ≡ then_cmp (lex u u') (lex (t ∷ r) (b'm' ∷ []))
  unfolding encode_txnkv_meta_key
  lex-data-meta t u u' r =
      lex-append_left (b'x' ∷ e.instance_id.0 ∷ e.instance_id.1 ∷ b'u' ∷ [])
        (encode_bytes u ++ t ∷ r) (encode_bytes u' ++ b'm' ∷ [])
      ∙ lex-encode_bytes u u' (t ∷ r) (b'm' ∷ [])

  lex-meta-data :
      (t : ℕ) (u u' : Bytes) (r : Bytes)
      → lex
          (encode_txnkv_meta_key e u')
          (b'x' ∷ e.instance_id.0 ∷ e.instance_id.1 ∷ b'u' ∷ (encode_bytes u ++ t ∷ r))
        ≡ then_cmp (swap_cmp (lex u u')) (lex (b'm' ∷ []) (t ∷ r))
  unfolding encode_txnkv_meta_key
  lex-meta-data t u u' r =
      lex-append_left (b'x' ∷ e.instance_id.0 ∷ e.instance_id.1 ∷ b'u' ∷ [])
        (encode_bytes u' ++ b'm' ∷ []) (encode_bytes u ++ t ∷ r)
      ∙ lex-encode_bytes u' u (b'm' ∷ []) (t ∷ r)
      ∙ ap (λ o. then_cmp o (lex (b'm' ∷ []) (t ∷ r))) (lex-swap u u')

  pub bytes_eq-data-meta :
      (t : ℕ) (u u' : Bytes) (v : ℕ) (i : Bytes)
      → bytes_eq (data_key e t u v i) (encode_txnkv_meta_key e u') ≡ false
  bytes_eq-data-meta t u u' v i =
      bytes_eq-lex (data_key e t u v i) (encode_txnkv_meta_key e u')
      ∙ ap (λ o. is_eq o) (lex-data-meta t u u' (u16_be v ++ place_holder ∷ i))
      ∙ meta_not_eq (lex u u') t (u16_be v ++ place_holder ∷ i)
          (λ _. rw (word_gt v (place_holder ∷ i)) refl)

  pub in_range-meta_key :
      (t : ℕ) (u u' : Bytes) (v : ℕ)
      → in_range (data_key_range e t u v) (encode_txnkv_meta_key e u') ≡ false
  unfolding in_range
  in_range-meta_key t u u' v =
      let r = u16_be v ++ place_holder ∷ [] in
      let q = u16_be v ++ (place_holder + 1) ∷ [] in
      ap₂ within (lex-data-meta t u u' r) (lex-meta-data t u u' q)
      ∙ outside_meta (lex u u') t r q (word_gt v (place_holder ∷ []))

  pub in_range-gc_key :
      (t : ℕ) (u u' : Bytes) (v : ℕ)
      → in_range (data_key_range e t u v) (encode_txnkv_gc_key e u') ≡ false
  unfolding in_range encode_txnkv_gc_key lex
  in_range-gc_key t u u' v = ground arith

  pub in_range-gc_version_key :
      (t : ℕ) (u u' : Bytes) (v v' : ℕ)
      → in_range (data_key_range e t u v) (encode_txnkv_gc_version_key e u' v') ≡ false
  unfolding in_range encode_txnkv_gc_version_key lex
  in_range-gc_version_key t u u' v v' = ground arith

  pub gc-ne-meta :
      (u u' : Bytes) → bytes_eq (encode_txnkv_gc_key e u) (encode_txnkv_meta_key e u') ≡ false
  unfolding bytes_eq encode_txnkv_gc_key encode_txnkv_meta_key
  gc-ne-meta u u' = ground arith

  pub gc_version-ne-meta :
      (u u' : Bytes) (version : ℕ)
      → bytes_eq (encode_txnkv_gc_version_key e u version) (encode_txnkv_meta_key e u') ≡ false
  unfolding bytes_eq encode_txnkv_gc_version_key encode_txnkv_meta_key
  gc_version-ne-meta u u' version = ground arith

  pub gc_version-ne-gc :
      (u u' : Bytes) (version : ℕ)
      → bytes_eq (encode_txnkv_gc_version_key e u version) (encode_txnkv_gc_key e u') ≡ false
  unfolding bytes_eq encode_txnkv_gc_version_key encode_txnkv_gc_key
  gc_version-ne-gc u u' version = ground arith

  -- The keys of the meta values are as different as the user keys.
  pub bytes_eq-meta_key :
      (u u' : Bytes)
      → bytes_eq (encode_txnkv_meta_key e u) (encode_txnkv_meta_key e u') ≡ bytes_eq u u'
  unfolding encode_txnkv_meta_key lex
  bytes_eq-meta_key u u' =
      bytes_eq-lex (encode_txnkv_meta_key e u) (encode_txnkv_meta_key e u')
      ∙ ap (λ o. is_eq o)
          (lex-append_left (b'x' ∷ e.instance_id.0 ∷ e.instance_id.1 ∷ b'u' ∷ [])
              (encode_bytes u ++ b'm' ∷ []) (encode_bytes u' ++ b'm' ∷ [])
            ∙ lex-encode_bytes u u' (b'm' ∷ []) (b'm' ∷ []))
      ∙ then_eq (lex u u')
      ∙ sym (bytes_eq-lex u u')
