-- ===== src/Frame/Wire/Agreement.antt =====
-- `parse` after `check`: what `Connection::parse_frame` relies on.
use tidis.Base.{
  ℕ, zero, suc, ◌+◌, ◌≡◌, refl, ap, subst, false, Option, [], ◌∷◌, ◌++◌, ◌&&◌, inl, inr, length,
  ltb, ◌==◌, Bool-cases, if◌then◌else◌, arith,
}
use tidis.Base.Int.{ℤ, pos, negsuc}
use tidis.Bytes.{Bytes, bytes_eq}
use tidis.Bytes.Lex.{bytes_eq_iff}
use tidis.Frame.{Frame, array, cons, null, simple, error_owned}
use tidis.Frame.Wire.Utf8.{from_utf8}
use tidis.Frame.Wire.{
  Reading, done, incomplete, invalid, unimplemented, too_deep, ◌>>=◌, longer, text, peek_u8, get_u8,
  get_line, get_decimal, skip, try_usize, rounds, check_bulk, parse_null, payload, parse_bulk,
  check_entries, parse_entries, check_kind, parse_kind, check, parse,
}

abbrev Follows : Reading (Unit {0}) → Bytes → Type 0
Follows (done u r) rest = rest ≡ r
Follows incomplete rest = Unit
Follows invalid rest = Unit
Follows unimplemented rest = Unit
Follows too_deep rest = Unit

abbrev NotDone : Reading (Unit {0}) → Type 0
NotDone (done u r) = ⊥
NotDone incomplete = Unit
NotDone invalid = Unit
NotDone unimplemented = Unit
NotDone too_deep = Unit

-- After a check that has passed, parsing neither panics nor runs out of depth, and a value leaves the
-- bytes that the check has left.
abbrev pub Agrees : {A : Type 0} → Reading (Unit {0}) → Reading A → Type 0
Agrees checked (done a rest) = Follows checked rest
Agrees checked incomplete = Unit
Agrees checked invalid = Unit
Agrees checked unimplemented = NotDone checked
Agrees checked too_deep = NotDone checked

module _ {A : Type 0} where
  incomplete-Agrees : (p : Reading A) → Agrees incomplete p
  incomplete-Agrees (done a r) = tt
  incomplete-Agrees incomplete = tt
  incomplete-Agrees invalid = tt
  incomplete-Agrees unimplemented = tt
  incomplete-Agrees too_deep = tt

  invalid-Agrees : (p : Reading A) → Agrees invalid p
  invalid-Agrees (done a r) = tt
  invalid-Agrees incomplete = tt
  invalid-Agrees invalid = tt
  invalid-Agrees unimplemented = tt
  invalid-Agrees too_deep = tt

  unimplemented-Agrees : (p : Reading A) → Agrees unimplemented p
  unimplemented-Agrees (done a r) = tt
  unimplemented-Agrees incomplete = tt
  unimplemented-Agrees invalid = tt
  unimplemented-Agrees unimplemented = tt
  unimplemented-Agrees too_deep = tt

  too_deep-Agrees : (p : Reading A) → Agrees too_deep p
  too_deep-Agrees (done a r) = tt
  too_deep-Agrees incomplete = tt
  too_deep-Agrees invalid = tt
  too_deep-Agrees unimplemented = tt
  too_deep-Agrees too_deep = tt

-- The same step taken by both.
same-Agrees :
    {A B : Type 0} (m : Reading A) (f : A → Bytes → Reading (Unit {0})) (g : A → Bytes → Reading B)
    → ((a : A) (src : Bytes) → Agrees (f a src) (g a src))
    → Agrees (m >>= f) (m >>= g)
same-Agrees (done a r) f g h = h a r
same-Agrees incomplete f g h = tt
same-Agrees invalid f g h = tt
same-Agrees unimplemented f g h = tt
same-Agrees too_deep f g h = tt

-- Steps that agree, one after the other.
bind-Agrees :
    {A B : Type 0} (m : Reading (Unit {0})) (p : Reading A)
    (f : Unit {0} → Bytes → Reading (Unit {0})) (g : A → Bytes → Reading B)
    → Agrees m p
    → ((a : A) (src : Bytes) → Agrees (f tt src) (g a src))
    → Agrees (m >>= f) (p >>= g)
bind-Agrees (done u r) (done a r') f g e h = subst (λ s. Agrees (f tt s) (g a r')) e (h a r')
bind-Agrees (done u r) incomplete f g e h = tt
bind-Agrees (done u r) invalid f g e h = tt
bind-Agrees (done u r) unimplemented f g e h = absurd e
bind-Agrees (done u r) too_deep f g e h = absurd e
bind-Agrees incomplete p f g e h = incomplete-Agrees (p >>= g)
bind-Agrees invalid p f g e h = invalid-Agrees (p >>= g)
bind-Agrees unimplemented p f g e h = unimplemented-Agrees (p >>= g)
bind-Agrees too_deep p f g e h = too_deep-Agrees (p >>= g)

text-Agrees :
    (frame : Bytes → Frame) (line src : Bytes) → Agrees (done tt src) (text frame line src)
text-Agrees frame line src = elim (Bool-cases (from_utf8 line)) [
  | inl valid ↦ rw valid refl
  | inr broken ↦ rw broken tt
]

-- What has been read as a line, and the line end, stood in front of the rest.
abbrev pub Taken : Bytes → Reading Bytes → Type 0
Taken src (done line rest) = src ≡ line ++ b'\r' ∷ b'\n' ∷ rest
Taken src incomplete = Unit
Taken src invalid = Unit
Taken src unimplemented = ⊥
Taken src too_deep = ⊥

longer-Taken :
    (a : ℕ) (src : Bytes) (m : Reading Bytes) → Taken src m → Taken (a ∷ src) (longer a m)
longer-Taken a src (done line rest) h = ap (λ s. a ∷ s) h
longer-Taken a src incomplete h = tt
longer-Taken a src invalid h = tt
longer-Taken a src unimplemented h = absurd h
longer-Taken a src too_deep h = absurd h

pub get_line-Taken : (src : Bytes) → Taken src (get_line src)
unfolding get_line
get_line-Taken [] = tt
get_line-Taken (a ∷ []) = tt
get_line-Taken (a ∷ b ∷ src) =
    let more = longer-Taken a (b ∷ src) (get_line (b ∷ src)) (get_line-Taken (b ∷ src)) in
    elim (Bool-cases ((a == b'\r') && (b == b'\n'))) [
      | inl line_end ↦ rw line_end (ground (arith))
      | inr inside ↦ rw inside more
    ]

-- `$-1` and the line end are four bytes.
null_of_line :
    (src : Bytes) (m : Reading Bytes)
    → Taken src m
    → Agrees
        (skip 4 src)
        (m >>= λ line src. if bytes_eq line (b'-' ∷ b'1' ∷ []) then done null src else invalid)
unfolding skip
null_of_line src (done line rest) taken = elim (Bool-cases (bytes_eq line (b'-' ∷ b'1' ∷ []))) [
  | inl is_null ↦
      rw (is_null, taken, (bytes_eq_iff line (b'-' ∷ b'1' ∷ [])).0 is_null)
        (let fits : ltb (suc (suc (suc (suc (length rest))))) 4 ≡ false = ground arith in
          rw fits refl)
  | inr other ↦ rw other tt
]
null_of_line src incomplete taken = tt
null_of_line src invalid taken = tt
null_of_line src unimplemented taken = absurd taken
null_of_line src too_deep taken = absurd taken

payload-Agrees : (len : ℕ) (src : Bytes) → Agrees (skip (len + 2) src) (payload len src)
unfolding skip payload
payload-Agrees len src = elim (Bool-cases (ltb (length src) (len + 2))) [
  | inl short ↦ rw short tt
  | inr enough ↦ rw enough refl
]

-- A value built from the one that was read.
built-Agrees :
    {A B : Type 0} (m : Reading (Unit {0})) (p : Reading A) (g : A → B)
    → Agrees m p
    → Agrees m (p >>= λ a src. done (g a) src)
built-Agrees m (done a r) g h = h
built-Agrees m incomplete g h = tt
built-Agrees m invalid g h = tt
built-Agrees m unimplemented g h = h
built-Agrees m too_deep g h = h

entries-Agrees :
    (c : Bytes → Reading (Unit {0})) (p : Bytes → Reading Frame)
    → ((src : Bytes) → Agrees (c src) (p src))
    → (n : ℕ) (src : Bytes) → Agrees (check_entries c n src) (parse_entries p n src)
unfolding check_entries parse_entries
entries-Agrees c p h zero src = refl
entries-Agrees c p h (suc n) src = bind-Agrees (c src) (p src) _ _ (h src) (λ entry s.
    built-Agrees (check_entries c n s) (parse_entries p n s) (λ entries. cons entry entries)
      (entries-Agrees c p h n s))

module _ (atoi : Bytes → Option ℤ) where
  bulk-Agrees :
      (first : ℕ) (src : Bytes) → Agrees (check_bulk atoi first src) (parse_bulk atoi first src)
  unfolding check_bulk parse_bulk parse_null
  bulk-Agrees first src = elim (Bool-cases (first == b'-')) [
    | inl dash ↦ rw dash (null_of_line src (get_line src) (get_line-Taken src))
    | inr digit ↦ rw digit (
        same-Agrees (get_decimal atoi src) _ _
          (λ n s. same-Agrees (try_usize n s) _ _ (λ len s'. payload-Agrees len s')))
  ]

  array-Agrees :
      (c : Bytes → Reading (Unit {0})) (p : Bytes → Reading Frame)
      → ((src : Bytes) → Agrees (c src) (p src))
      → (n : ℤ) (src : Bytes)
      → Agrees (check_entries c (rounds n) src) (
          try_usize n src >>= λ len src.
          parse_entries p len src >>= λ entries src. done (array entries) src)
  unfolding try_usize check_entries
  array-Agrees c p h (pos n) src =
      built-Agrees (check_entries c n src) (parse_entries p n src) array
        (entries-Agrees c p h n src)
  array-Agrees c p h (negsuc n) src = tt

  kind-Agrees :
      (c : Bytes → Reading (Unit {0})) (p : Bytes → Reading Frame)
      → ((src : Bytes) → Agrees (c src) (p src))
      → (kind : ℕ) (src : Bytes) → Agrees (check_kind atoi c kind src) (parse_kind atoi p kind src)
  unfolding check_kind parse_kind
  kind-Agrees c p h kind src = elim (Bool-cases (kind == b'+')) [
    | inl simple_kind ↦
        rw simple_kind (same-Agrees (get_line src) _ _ (λ line s. text-Agrees simple line s))
    | inr not_simple ↦ elim (Bool-cases (kind == b'-')) [
      | inl error_kind ↦
          rw (not_simple, error_kind)
            (same-Agrees (get_line src) _ _ (λ line s. text-Agrees error_owned line s))
      | inr not_error ↦ elim (Bool-cases (kind == b':')) [
        | inl integer_kind ↦
            rw (not_simple, not_error, integer_kind)
              (same-Agrees (get_decimal atoi src) _ _ (λ n s. refl))
        | inr not_integer ↦ elim (Bool-cases (kind == b'$')) [
          | inl bulk_kind ↦
              rw (not_simple, not_error, not_integer, bulk_kind)
                (same-Agrees (peek_u8 src) _ _ (λ first s. bulk-Agrees first s))
          | inr not_bulk ↦ elim (Bool-cases (kind == b'*')) [
            | inl array_kind ↦
                rw (not_simple, not_error, not_integer, not_bulk, array_kind)
                  (same-Agrees (get_decimal atoi src) _ _ (λ n s. array-Agrees c p h n s))
            | inr unknown ↦ rw (not_simple, not_error, not_integer, not_bulk, unknown) tt
          ]
        ]
      ]
    ]
  ]

  -- At every depth, once `Frame::check` has passed, `Frame::parse` on the same bytes does not panic and
  -- does not run out of depth, and where it gives a frame it leaves the same bytes as the check.
  pub parse-Agrees :
      (depth : ℕ) (src : Bytes) → Agrees (check atoi depth src) (parse atoi depth src)
  unfolding check parse
  parse-Agrees zero src = tt
  parse-Agrees (suc depth) src =
      same-Agrees (get_u8 src) _ _
        (λ kind s. kind-Agrees (check atoi depth) (parse atoi depth) (parse-Agrees depth) kind s)
