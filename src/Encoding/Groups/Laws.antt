-- ===== src/Encoding/Groups/Laws.antt =====
-- The laws of `encode_bytes`, by its reference form `slots`.
use tidis.Base.{
  ℕ, zero, suc, ◌+◌, ◌-◌, ◌≤◌, ◌<◌, ◌≡◌, ◌∙◌, refl, ap, inl, inr, true, false, some, [], ◌∷◌, ◌++◌,
  arith, length, take, drop, append_assoc, ltb, leb, length-drop, Bool-cases,
}
use tidis.Bytes.{Bytes, lex, then_cmp}
use tidis.Encoding.Groups.{
  encode_group, encode_loop, encode_bytes, decode_loop, decode_bytes, encoded_len_loop,
  encoded_bytes_len,
}
use tidis.Encoding.Groups.Slots.{slots, slots_full, slots_short, slots-zero, lex-slots}

drop-nil : (n : ℕ) → drop n (let e : Bytes = [] in e) ≡ []
drop-nil zero = refl
drop-nil (suc n) = refl

drop-drop : (n i : ℕ) (xs : Bytes) → drop n (drop i xs) ≡ drop (i + n) xs
drop-drop n zero xs = let e : 0 + n ≡ n = omega arith in rw e
drop-drop n (suc i) [] = let e : suc i + n ≡ suc (i + n) = omega arith in rw e (drop-nil n)
drop-drop n (suc i) (x ∷ xs) =
    let e : suc i + n ≡ suc (i + n) = omega arith in rw e (drop-drop n i xs)

take_all : (n : ℕ) (xs : Bytes) → length xs ≤ n → take n xs ≡ xs
take_all zero [] h = refl
take_all zero (x ∷ xs) h = absurd (omega arith)
take_all (suc n) [] h = refl
take_all (suc n) (x ∷ xs) h = ap (λ t. x ∷ t) (take_all n xs (omega arith))

-- A full group, written by either branch.
encode_group_full :
    (key : Bytes) (index : ℕ) (enc : Bytes)
    → index + 8 ≤ length key
    → encode_group key index enc ≡ enc ++ (take 8 (drop index key) ++ 255 ∷ [])
unfolding encode_group
encode_group_full key index enc h = elim (Bool-cases (ltb 8 (length key - index))) [
  | inl more ↦ rw more
  | inr last ↦
      let p : 8 - (length key - index) ≡ 0 = ground arith in
      let t : take 8 (drop index key) ≡ drop index key =
        take_all 8 (drop index key) (ground (arith, length-drop index key)) in
      rw (last, p, t)
]

encode_group_last :
    (key : Bytes) (index : ℕ) (enc : Bytes)
    → index ≤ length key
    → length key < index + 8
    → encode_group key index enc ≡ enc ++ slots (drop index key) 8
unfolding encode_group
encode_group_last key index enc h k =
    let last : ltb 8 (length key - index) ≡ false = ground arith in
    rw (last, slots_short 8 (drop index key) (omega (arith, length-drop index key)), length-drop)

slots_step :
    (key : Bytes) (index : ℕ) (enc : Bytes)
    → index + 8 ≤ length key
    → (enc ++ (take 8 (drop index key) ++ 255 ∷ [])) ++ slots (drop (index + 8) key) 8
      ≡ enc ++ slots (drop index key) 8
slots_step key index enc h =
    rw (slots_full 8 (drop index key) (omega (arith, length-drop index key)), drop-drop)
      (simp append_assoc)

encode_loop_end :
    (fuel : ℕ) (key : Bytes) (index : ℕ) (enc : Bytes)
    → leb index (length key) ≡ false
    → encode_loop fuel key index enc ≡ enc
unfolding encode_loop
encode_loop_end zero key index enc h = refl
encode_loop_end (suc fuel) key index enc h = rw h

-- With enough fuel the loop writes the reference form of what it has not yet read.
encode_loop-eq-slots :
    (fuel : ℕ) (key : Bytes) (index : ℕ) (enc : Bytes)
    → index ≤ length key
    → length key < index + fuel
    → encode_loop fuel key index enc ≡ enc ++ slots (drop index key) 8
unfolding encode_loop
encode_loop-eq-slots zero key index enc h k = absurd (omega arith)
encode_loop-eq-slots (suc fuel) key index enc h k =
    let t : leb index (length key) ≡ true = ground arith in
    rw t (elim (Bool-cases (leb (index + 8) (length key))) [
      | inl more ↦
          let le : index + 8 ≤ length key = ground arith in
          encode_loop-eq-slots fuel key (index + 8) (encode_group key index enc) le (omega arith)
          ∙ ap (λ t. t ++ slots (drop (index + 8) key) 8) (encode_group_full key index enc le)
          ∙ slots_step key index enc le
      | inr last ↦
          encode_loop_end fuel key (index + 8) (encode_group key index enc) last
          ∙ encode_group_last key index enc h (ground arith)
    ])

-- The loop writes the reference form of its key.
encode_bytes-eq-slots : (key : Bytes) → encode_bytes key ≡ slots key 8
unfolding encode_bytes
encode_bytes-eq-slots key =
    encode_loop-eq-slots (length key + 1) key 0 [] (omega arith) (omega arith)

-- Encoded keys, with anything behind them, are ordered first as the keys are and then as what
-- follows: the encoding keeps the order, is injective, and none is a prefix of another.
pub lex-encode_bytes :
    (a b r s : Bytes)
    → lex (encode_bytes a ++ r) (encode_bytes b ++ s) ≡ then_cmp (lex a b) (lex r s)
lex-encode_bytes a b r s =
    rw (encode_bytes-eq-slots a, encode_bytes-eq-slots b) (lex-slots 8 a b r s (omega arith))

decode_loop-slots :
    (acc key rest : Bytes) → decode_loop acc (slots key 8 ++ rest) ≡ some (acc ++ key)
unfolding decode_loop slots
decode_loop-slots acc [] rest = refl
decode_loop-slots acc (a ∷ []) rest = refl
decode_loop-slots acc (a ∷ b ∷ []) rest = refl
decode_loop-slots acc (a ∷ b ∷ c ∷ []) rest = refl
decode_loop-slots acc (a ∷ b ∷ c ∷ d ∷ []) rest = refl
decode_loop-slots acc (a ∷ b ∷ c ∷ d ∷ e ∷ []) rest = refl
decode_loop-slots acc (a ∷ b ∷ c ∷ d ∷ e ∷ f ∷ []) rest = refl
decode_loop-slots acc (a ∷ b ∷ c ∷ d ∷ e ∷ f ∷ g ∷ []) rest = refl
decode_loop-slots acc (a ∷ b ∷ c ∷ d ∷ e ∷ f ∷ g ∷ h ∷ key) rest =
    let group = λ (t : Bytes). a ∷ b ∷ c ∷ d ∷ e ∷ f ∷ g ∷ h ∷ t in
    rw slots-zero
      (decode_loop-slots (acc ++ group []) key rest ∙ ap some (append_assoc acc (group []) key))

-- Decoding gives the key back, whatever bytes follow the encoded key.
pub decode_bytes-encode_bytes :
    (key rest : Bytes) → decode_bytes (encode_bytes key ++ rest) ≡ some key
unfolding decode_bytes
decode_bytes-encode_bytes key rest = rw (encode_bytes-eq-slots key) (decode_loop-slots [] key rest)

encoded_len-slots :
    (offset : ℕ) (key rest : Bytes)
    → encoded_len_loop offset (slots key 8 ++ rest) ≡ offset + length (slots key 8)
unfolding encoded_len_loop slots
encoded_len-slots offset [] rest = refl
encoded_len-slots offset (a ∷ []) rest = refl
encoded_len-slots offset (a ∷ b ∷ []) rest = refl
encoded_len-slots offset (a ∷ b ∷ c ∷ []) rest = refl
encoded_len-slots offset (a ∷ b ∷ c ∷ d ∷ []) rest = refl
encoded_len-slots offset (a ∷ b ∷ c ∷ d ∷ e ∷ []) rest = refl
encoded_len-slots offset (a ∷ b ∷ c ∷ d ∷ e ∷ f ∷ []) rest = refl
encoded_len-slots offset (a ∷ b ∷ c ∷ d ∷ e ∷ f ∷ g ∷ []) rest = refl
encoded_len-slots offset (a ∷ b ∷ c ∷ d ∷ e ∷ f ∷ g ∷ h ∷ key) rest =
    rw slots-zero (omega (arith, encoded_len-slots (offset + 9) key rest))

-- The decoder finds where the encoded key ends.
pub encoded_bytes_len-encode_bytes :
    (key rest : Bytes) → encoded_bytes_len (encode_bytes key ++ rest) ≡ length (encode_bytes key)
unfolding encoded_bytes_len
encoded_bytes_len-encode_bytes key rest =
    rw (encode_bytes-eq-slots key) (encoded_len-slots 0 key rest ∙ omega arith)
