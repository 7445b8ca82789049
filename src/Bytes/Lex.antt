-- ===== src/Bytes/Lex.antt =====
-- The byte order is a linear order, and `bytes_eq` decides equality.
use tidis.Base.{◌≡◌, refl, ◌≢◌, ◌↔◌, true, false, [], ◌∷◌, ◌++◌, arith, Ordering, length}
use tidis.Bytes.{Bytes, lex, then_cmp, swap_cmp, bytes_eq}

pub lex_refl : (xs : Bytes) → lex xs xs ≡ Ordering.eq
unfolding lex
lex_refl [] = refl
lex_refl (x ∷ xs) = ground (arith, lex_refl xs)

pub eq_of_lex : (xs ys : Bytes) → lex xs ys ≡ Ordering.eq → xs ≡ ys
unfolding lex
eq_of_lex [] [] h = refl
eq_of_lex [] (y ∷ ys) h = cc
eq_of_lex (x ∷ xs) [] h = cc
eq_of_lex (x ∷ xs) (y ∷ ys) h = ground (arith, eq_of_lex xs ys)

-- A common prefix does not count.
pub lex-append_left : (p xs ys : Bytes) → lex (p ++ xs) (p ++ ys) ≡ lex xs ys
unfolding lex
lex-append_left [] xs ys = refl
lex-append_left (x ∷ p) xs ys = ground (arith, lex-append_left p xs ys)

-- Behind prefixes of one length the prefixes decide first.
pub lex-append :
    (p q xs ys : Bytes)
    → length p ≡ length q
    → lex (p ++ xs) (q ++ ys) ≡ then_cmp (lex p q) (lex xs ys)
unfolding lex
lex-append [] [] xs ys h = refl
lex-append [] (b ∷ q) xs ys h = absurd (omega arith)
lex-append (a ∷ p) [] xs ys h = absurd (omega arith)
lex-append (a ∷ p) (b ∷ q) xs ys h = ground (arith, lex-append p q xs ys)

pub bytes_eq_iff : (xs ys : Bytes) → (bytes_eq xs ys ≡ true) ↔ (xs ≡ ys)
unfolding bytes_eq
bytes_eq_iff [] [] = (λ _. refl, λ _. refl)
bytes_eq_iff [] (y ∷ ys) = (λ h. cc, λ h. cc)
bytes_eq_iff (x ∷ xs) [] = (λ h. cc, λ h. cc)
bytes_eq_iff (x ∷ xs) (y ∷ ys) =
    (λ h. ground (arith, bytes_eq_iff xs ys), λ h. ground (arith, bytes_eq_iff xs ys))

pub bytes_eq_refl : (xs : Bytes) → bytes_eq xs xs ≡ true
bytes_eq_refl xs = (bytes_eq_iff xs xs).1 refl

pub bytes_eq-ne : (xs ys : Bytes) → xs ≢ ys → bytes_eq xs ys ≡ false
unfolding bytes_eq
bytes_eq-ne xs ys h = ground (arith, bytes_eq_iff xs ys)

pub lex-gt : (xs ys : Bytes) → lex xs ys ≡ Ordering.lt → lex ys xs ≡ Ordering.gt
unfolding lex
lex-gt [] [] h = cc
lex-gt [] (y ∷ ys) h = refl
lex-gt (x ∷ xs) [] h = cc
lex-gt (x ∷ xs) (y ∷ ys) h = ground (arith, lex-gt xs ys)

pub lex-swap : (xs ys : Bytes) → lex ys xs ≡ swap_cmp (lex xs ys)
unfolding lex
lex-swap [] [] = refl
lex-swap [] (y ∷ ys) = refl
lex-swap (x ∷ xs) [] = refl
lex-swap (x ∷ xs) (y ∷ ys) = ground (arith, lex-swap xs ys)

pub bytes_eq-lex :
    (xs ys : Bytes) → bytes_eq xs ys ≡ (elim (lex xs ys) [ Ordering.eq ↦ true | _ ↦ false ])
unfolding bytes_eq lex
bytes_eq-lex [] [] = refl
bytes_eq-lex [] (y ∷ ys) = refl
bytes_eq-lex (x ∷ xs) [] = refl
bytes_eq-lex (x ∷ xs) (y ∷ ys) = ground (arith, bytes_eq-lex xs ys)

pub bytes_eq_sym : (xs ys : Bytes) → bytes_eq xs ys ≡ bytes_eq ys xs
unfolding bytes_eq
bytes_eq_sym [] [] = refl
bytes_eq_sym [] (y ∷ ys) = refl
bytes_eq_sym (x ∷ xs) [] = refl
bytes_eq_sym (x ∷ xs) (y ∷ ys) = ground (arith, bytes_eq_sym xs ys)
