-- ===== src/Frame/Wire/Depth.antt =====
-- `check` moves its cursor forward, and a depth above the number of bytes is enough for it.
use tidis.Base.{
  ℕ, zero, suc, ◌+◌, ◌<◌, ◌≤◌, ◌≡◌, ◌∙◌, refl, sym, ap, subst, Bool, true, false, Option, none,
  some, [], ◌∷◌, ◌++◌, append_assoc, length, length-append, take, drop, take-append-drop, ltb, ◌==◌,
  if◌then◌else◌, arith,
}
use tidis.Base.Int.{ℤ, pos, negsuc}
use tidis.Bytes.{Bytes}
use tidis.Frame.Wire.{
  Reading, done, incomplete, invalid, unimplemented, too_deep, ◌>>=◌, peek_u8, get_u8, get_line,
  get_decimal, skip, try_usize, rounds, parsed_line, check_bulk, check_entries, check_kind, check,
}
use tidis.Frame.Wire.Agreement.{Taken, get_line-Taken}

-- The bytes that are left are the last ones of `src`; there was no panic, and the depth was enough.
abbrev pub Kept : {A : Type 0} → Bytes → Reading A → Type 0
Kept src (done a rest) = (front : Bytes) × (src ≡ front ++ rest)
Kept src incomplete = Unit
Kept src invalid = Unit
Kept src unimplemented = ⊥
Kept src too_deep = ⊥

module _ {A : Type 0} where
  further-Kept : (front rest : Bytes) (m : Reading A) → Kept rest m → Kept (front ++ rest) m
  further-Kept front rest (done a r) (more, e) =
      (front ++ more, ap (λ s. front ++ s) e ∙ sym (append_assoc front more r))
  further-Kept front rest incomplete h = tt
  further-Kept front rest invalid h = tt
  further-Kept front rest unimplemented h = absurd h
  further-Kept front rest too_deep h = absurd h

  if-Kept :
      (b : Bool) (src : Bytes) (m p : Reading A)
      → Kept src m
      → Kept src p
      → Kept src (if b then m else p)
  if-Kept true src m p h k = h
  if-Kept false src m p h k = k

bind-Kept :
    {A B : Type 0} (src : Bytes) (m : Reading A) (f : A → Bytes → Reading B)
    → Kept src m
    → ((a : A) (rest : Bytes) → length rest ≤ length src → Kept rest (f a rest))
    → Kept src (m >>= f)
bind-Kept src (done a rest) f (front, e) h =
    subst (λ s. Kept s (f a rest)) (sym e)
      (further-Kept front rest (f a rest)
        (h a rest (omega (arith, ap length e, length-append front rest))))
bind-Kept src incomplete f k h = tt
bind-Kept src invalid f k h = tt
bind-Kept src unimplemented f k h = absurd k
bind-Kept src too_deep f k h = absurd k

line-Kept : (src : Bytes) (m : Reading Bytes) → Taken src m → Kept src m
line-Kept src (done line rest) e =
    (line ++ b'\r' ∷ b'\n' ∷ [], e ∙ sym (append_assoc line (b'\r' ∷ b'\n' ∷ []) rest))
line-Kept src incomplete e = tt
line-Kept src invalid e = tt
line-Kept src unimplemented e = absurd e
line-Kept src too_deep e = absurd e

get_line-Kept : (src : Bytes) → Kept src (get_line src)
get_line-Kept src = line-Kept src (get_line src) (get_line-Taken src)

parsed_line-Kept : (o : Option ℤ) (src : Bytes) → Kept src (parsed_line o src)
parsed_line-Kept none src = tt
parsed_line-Kept (some n) src = ([], refl)

try_usize-Kept : (n : ℤ) (src : Bytes) → Kept src (try_usize n src)
unfolding try_usize
try_usize-Kept (pos n) src = ([], refl)
try_usize-Kept (negsuc n) src = tt

skip-Kept : (n : ℕ) (src : Bytes) → Kept src (skip n src)
unfolding skip
skip-Kept n src =
    if-Kept (ltb (length src) n) src incomplete (done tt (drop n src)) tt
      (take n src, sym (take-append-drop n src))

peek_u8-Kept : (src : Bytes) → Kept src (peek_u8 src)
unfolding peek_u8
peek_u8-Kept [] = tt
peek_u8-Kept (b ∷ src) = ([], refl)

entries-Kept :
    (inner : Bytes → Reading (Unit {0})) (bound : ℕ)
    → ((src : Bytes) → length src ≤ bound → Kept src (inner src))
    → (n : ℕ) (src : Bytes) → length src ≤ bound
    → Kept src (check_entries inner n src)
unfolding check_entries
entries-Kept inner bound h zero src b = ([], refl)
entries-Kept inner bound h (suc n) src b =
    bind-Kept src (inner src) _ (h src b)
      (λ _ rest shorter. entries-Kept inner bound h n rest (omega arith))

module _ (atoi : Bytes → Option ℤ) where
  get_decimal-Kept : (src : Bytes) → Kept src (get_decimal atoi src)
  unfolding get_decimal
  get_decimal-Kept src =
      bind-Kept src (get_line src) _ (get_line-Kept src)
        (λ line rest _. parsed_line-Kept (atoi line) rest)

  check_bulk-Kept : (first : ℕ) (src : Bytes) → Kept src (check_bulk atoi first src)
  unfolding check_bulk
  check_bulk-Kept first src = if-Kept (first == b'-') src _ _ (skip-Kept 4 src) (
      bind-Kept src (get_decimal atoi src) _ (get_decimal-Kept src) (λ n rest _.
        bind-Kept rest (try_usize n rest) _ (try_usize-Kept n rest)
          (λ len rest' _. skip-Kept (len + 2) rest')))

  check_kind-Kept :
      (inner : Bytes → Reading (Unit {0})) (kind : ℕ) (src : Bytes)
      → ((rest : Bytes) → length rest ≤ length src → Kept rest (inner rest))
      → Kept src (check_kind atoi inner kind src)
  unfolding check_kind
  check_kind-Kept inner kind src h =
      let line =
        bind-Kept src (get_line src) (λ _ rest. done tt rest) (get_line-Kept src)
          (λ _ rest _. ([], refl)) in
      let decimal = get_decimal-Kept src in
      if-Kept (kind == b'+') src _ _ line (
        if-Kept (kind == b'-') src _ _ line (
          if-Kept (kind == b':') src _ _
            (bind-Kept src (get_decimal atoi src) _ decimal (λ _ rest _. ([], refl)))
            (if-Kept (kind == b'$') src _ _
              (bind-Kept src (peek_u8 src) _ (peek_u8-Kept src)
                (λ first rest _. check_bulk-Kept first rest))
              (if-Kept (kind == b'*') src _ invalid
                (bind-Kept src (get_decimal atoi src) _ decimal
                  (λ n rest shorter. entries-Kept inner (length src) h (rounds n) rest shorter))
                tt))))

  -- Checking on a depth above the number of bytes neither panics nor runs out of depth, and what it
  -- leaves are the last bytes of its input.
  pub check-Kept : (depth : ℕ) (src : Bytes) → length src < depth → Kept src (check atoi depth src)
  unfolding check get_u8
  check-Kept zero src h = absurd (omega arith)
  check-Kept (suc depth) [] h = tt
  check-Kept (suc depth) (b ∷ src) h =
      further-Kept (b ∷ []) src (check_kind atoi (check atoi depth) b src) (
        check_kind-Kept (check atoi depth) b src
          (λ rest shorter. check-Kept depth rest (omega arith)))
