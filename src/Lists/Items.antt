-- ===== src/Lists/Items.antt =====
-- The list that a key holds: its meta value and the elements under its data keys. What a write or a
-- deletion of one data key does to it.
use tidis.Base.{
  ℕ, zero, suc, ◌+◌, ◌-◌, ◌<◌, ◌≡◌, ◌≢◌, ◌∙◌, refl, sym, ap, Bool, true, false, Option, none, some,
  List, [], ◌∷◌, ◌++◌, arith, ltb, ◌==◌, if◌then◌else◌, length, get_elem?, set, Ordering,
}
use tidis.Bytes.{Bytes, u64_mod, u16_mod, bytes_eq, lex, then_cmp, u16_be, u64_be}
use tidis.Bytes.Lex.{lex-append_left, bytes_eq-lex, bytes_eq_sym}
use tidis.Encoding.Groups.{encode_bytes}
use tidis.Encoding.Groups.Laws.{lex-encode_bytes}
use tidis.Encoding.Encode.{encode_txnkv_meta_key, encode_txnkv_list_data_key, place_holder}
use tidis.Encoding.Order.{lex-list_data_key}
use tidis.Config.{Settings}
use tidis.Txn.{Txn}
use tidis.Lists.{meta_key, item_key}

-- The element at index `j` of a list whose first index is `left`.
abbrev pub elem_at : ℕ → List Bytes → ℕ → Option Bytes
elem_at left xs j = if ltb j left then none else get_elem? xs (j - left)

get_elem?-cons :
    (x : Bytes) (xs : List Bytes) (n : ℕ) → n ≢ 0 → get_elem? (x ∷ xs) n ≡ get_elem? xs (n - 1)
get_elem?-cons x xs zero h = absurd (h refl)
get_elem?-cons x xs (suc n) h = let e : suc n - 1 ≡ n = omega arith in rw e

pub elem_at-cons :
    (left : ℕ) (x : Bytes) (xs : List Bytes) (j : ℕ)
    → elem_at left (x ∷ xs) j ≡ (if left == j then some x else elem_at (suc left) xs j)
elem_at-cons left x xs j = ground (arith, get_elem?-cons x xs (j - left), lower left j)
  where
    lower : (left j : ℕ) → j - left - 1 ≡ j - suc left
    lower left j = omega arith

get_elem?-snoc :
    (xs : List Bytes) (x : Bytes) (n : ℕ)
    → get_elem? (xs ++ x ∷ []) n ≡ (if length xs == n then some x else get_elem? xs n)
get_elem?-snoc [] x zero = refl
get_elem?-snoc [] x (suc n) = ground arith
get_elem?-snoc (y ∷ xs) x zero = ground arith
get_elem?-snoc (y ∷ xs) x (suc n) = ground (arith, get_elem?-snoc xs x n)

pub elem_at-snoc :
    (left : ℕ) (xs : List Bytes) (x : Bytes) (j : ℕ)
    → elem_at left (xs ++ x ∷ []) j ≡ (if left + length xs == j then some x else elem_at left xs j)
elem_at-snoc left xs x j = ground (arith, get_elem?-snoc xs x (j - left))

get_elem?-set :
    (xs : List Bytes) (i n : ℕ) (x : Bytes)
    → i < length xs
    → get_elem? (set xs i x) n ≡ (if i == n then some x else get_elem? xs n)
get_elem?-set [] i n x h = elim h [ ]
get_elem?-set (y ∷ xs) zero zero x h = refl
get_elem?-set (y ∷ xs) zero (suc n) x h = ground arith
get_elem?-set (y ∷ xs) (suc i) zero x h = ground arith
get_elem?-set (y ∷ xs) (suc i) (suc n) x h = ground (arith, get_elem?-set xs i n x (omega arith))

abbrev is_eq : Ordering → Bool
is_eq o = elim o [ Ordering.eq ↦ true | _ ↦ false ]

not_eq : (o : Ordering) (rest : Bytes) → is_eq (then_cmp o (lex (b'l' ∷ rest) (b'm' ∷ []))) ≡ false
unfolding lex
not_eq o rest = ground arith

module _ (c : Settings) (T : Txn) where
  -- Data keys of one list are equal where their indices are.
  bytes_eq-item_key :
      (key : Bytes) (i j version : ℕ)
      → i < u64_mod
      → j < u64_mod
      → version < u16_mod
      → bytes_eq (item_key c T key i version) (item_key c T key j version) ≡ (i == j)
  bytes_eq-item_key key i j version hi hj hv =
      bytes_eq-lex (item_key c T key i version) (item_key c T key j version)
      ∙ ap (λ o. is_eq o) (lex-list_data_key c.encoder key i j version hi hj hv)

  -- A data key is no meta key.
  bytes_eq-item-meta :
      (key other : Bytes) (i version : ℕ)
      → bytes_eq (item_key c T key i version) (meta_key c T other) ≡ false
  unfolding encode_txnkv_list_data_key encode_txnkv_meta_key
  bytes_eq-item-meta key other i version =
      let rest = u16_be version ++ place_holder ∷ u64_be i in
      bytes_eq-lex (item_key c T key i version) (meta_key c T other)
      ∙ ap (λ o. is_eq o)
          (lex-append_left (b'x' ∷ c.encoder.instance_id.0 ∷ c.encoder.instance_id.1 ∷ b'u' ∷ [])
              (encode_bytes key ++ b'l' ∷ rest) (encode_bytes other ++ b'm' ∷ [])
            ∙ lex-encode_bytes key other (b'l' ∷ rest) (b'm' ∷ []))
      ∙ not_eq (lex key other) rest

  -- The elements of a list, by index: `xs` from `left` on and nothing else.
  abbrev pub Items : T.State → Bytes → ℕ → ℕ → List Bytes → Type 0
  Items s key version left xs =
      (j : ℕ) → j < u64_mod → T.get s (item_key c T key j version) ≡ elem_at left xs j

  -- What a write of the element at `i` does.
  get-put_item :
      (s : T.State) (key : Bytes) (version i j : ℕ) (x : Bytes)
      → version < u16_mod
      → i < u64_mod
      → j < u64_mod
      → T.get (T.put s (item_key c T key i version) x) (item_key c T key j version)
        ≡ (if i == j then some x else T.get s (item_key c T key j version))
  get-put_item s key version i j x hv hi hj =
      T.get-put s (item_key c T key i version) x (item_key c T key j version)
      ∙ rw (bytes_eq-item_key key i j version hi hj hv)

  pub get-delete_item :
      (s : T.State) (key : Bytes) (version i j : ℕ)
      → version < u16_mod
      → i < u64_mod
      → j < u64_mod
      → T.get (T.delete s (item_key c T key i version)) (item_key c T key j version)
        ≡ (if i == j then none else T.get s (item_key c T key j version))
  get-delete_item s key version i j hv hi hj =
      T.get-delete s (item_key c T key i version) (item_key c T key j version)
      ∙ rw (bytes_eq-item_key key i j version hi hj hv)

  -- The meta value of any key is left alone by a write or a deletion of an element.
  pub meta-put_item :
      (s : T.State) (key other : Bytes) (version i : ℕ) (x : Bytes)
      → T.get (T.put s (item_key c T key i version) x) (meta_key c T other)
        ≡ T.get s (meta_key c T other)
  meta-put_item s key other version i x =
      T.get-put s (item_key c T key i version) x (meta_key c T other)
      ∙ rw (bytes_eq-item-meta key other i version)

  pub meta-delete_item :
      (s : T.State) (key other : Bytes) (version i : ℕ)
      → T.get (T.delete s (item_key c T key i version)) (meta_key c T other)
        ≡ T.get s (meta_key c T other)
  meta-delete_item s key other version i =
      T.get-delete s (item_key c T key i version) (meta_key c T other)
      ∙ rw (bytes_eq-item-meta key other i version)

  -- A write or a deletion of a meta value leaves every element alone.
  pub item-put_meta :
      (s : T.State) (key other v : Bytes) (version j : ℕ)
      → T.get (T.put s (meta_key c T other) v) (item_key c T key j version)
        ≡ T.get s (item_key c T key j version)
  item-put_meta s key other v version j =
      T.get-put s (meta_key c T other) v (item_key c T key j version)
      ∙ rw (bytes_eq_sym (meta_key c T other) (item_key c T key j version))
          (rw (bytes_eq-item-meta key other j version))

  pub item-delete_meta :
      (s : T.State) (key other : Bytes) (version j : ℕ)
      → T.get (T.delete s (meta_key c T other)) (item_key c T key j version)
        ≡ T.get s (item_key c T key j version)
  item-delete_meta s key other version j =
      T.get-delete s (meta_key c T other) (item_key c T key j version)
      ∙ rw (bytes_eq_sym (meta_key c T other) (item_key c T key j version))
          (rw (bytes_eq-item-meta key other j version))

  pub Items-push_left :
      (s : T.State) (key : Bytes) (version left : ℕ) (x : Bytes) (xs : List Bytes)
      → version < u16_mod
      → left < u64_mod
      → Items s key version (suc left) xs
      → Items (T.put s (item_key c T key left version) x) key version left (x ∷ xs)
  Items-push_left s key version left x xs hv hl items j hj =
      get-put_item s key version left j x hv hl hj
      ∙ rw (items j hj) (sym (elem_at-cons left x xs j))

  pub Items-push_right :
      (s : T.State) (key : Bytes) (version left : ℕ) (x : Bytes) (xs : List Bytes)
      → version < u16_mod
      → left + length xs < u64_mod
      → Items s key version left xs
      → Items
          (T.put s (item_key c T key (left + length xs) version) x)
          key
          version
          left
          (xs ++ x ∷ [])
  Items-push_right s key version left x xs hv hl items j hj =
      get-put_item s key version (left + length xs) j x hv hl hj
      ∙ rw (items j hj) (sym (elem_at-snoc left xs x j))

  pub Items-set :
      (s : T.State) (key : Bytes) (version left i : ℕ) (x : Bytes) (xs : List Bytes)
      → version < u16_mod
      → i < length xs
      → left + length xs < u64_mod
      → Items s key version left xs
      → Items (T.put s (item_key c T key (left + i) version) x) key version left (set xs i x)
  Items-set s key version left i x xs hv hi hl items j hj =
      get-put_item s key version (left + i) j x hv (omega arith) hj
      ∙ rw (items j hj) (ground (arith, get_elem?-set xs i (j - left) x hi))
