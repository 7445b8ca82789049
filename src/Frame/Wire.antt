-- ===== src/Frame/Wire.antt =====
-- src/frame.rs: `Frame::check` and `Frame::parse`. A cursor is the list of the bytes from its position
-- on. `atoi` is the crate's function of that name on a line.
pub mod Utf8
pub mod Agreement
pub mod Depth
use tidis.Base.{
  ℕ, zero, suc, ◌+◌, Bool, true, false, Option, none, some, List, [], ◌∷◌, length, take, drop, ltb,
  if◌then◌else◌, ◌==◌, ◌&&◌,
}
use tidis.Base.Int.{ℤ, pos, negsuc}
use tidis.Bytes.{Bytes, bytes_eq}
use tidis.Frame.{Frame, Frames, simple, error_owned, integer, bulk, null, array, cons, nil}
use Utf8.{from_utf8}

-- How reading ends: with a value and the bytes left, `Error::Incomplete`, `Error::Other`, a panic of
-- `unimplemented!()`, or with the depth of arrays used up.
pub data Reading (A : Type 0) : Type 0 where
  done : A → Bytes → Reading A
  incomplete invalid unimplemented too_deep : Reading A

infixl 5 ◌>>=◌
abbrev pub ◌>>=◌ : {A B : Type 0} → Reading A → (A → Bytes → Reading B) → Reading B
done a src >>= f = f a src
incomplete >>= f = incomplete
invalid >>= f = invalid
unimplemented >>= f = unimplemented
too_deep >>= f = too_deep

unfoldable pub peek_u8 : Bytes → Reading ℕ
peek_u8 [] = incomplete
peek_u8 (b ∷ src) = done b (b ∷ src)

unfoldable pub get_u8 : Bytes → Reading ℕ
get_u8 [] = incomplete
get_u8 (b ∷ src) = done b src

unfoldable pub skip : ℕ → Bytes → Reading (Unit {0})
skip n src = if ltb (length src) n then incomplete else done tt (drop n src)

-- a byte put before a line that has been read
abbrev pub longer : ℕ → Reading Bytes → Reading Bytes
longer b (done line src) = done (b ∷ line) src
longer b incomplete = incomplete
longer b invalid = invalid
longer b unimplemented = unimplemented
longer b too_deep = too_deep

-- The scan for `\r\n`; a byte has always been read, so that `len() - 1` does not underflow.
unfoldable pub get_line : Bytes → Reading Bytes
get_line [] = incomplete
get_line (a ∷ []) = incomplete
get_line (a ∷ b ∷ src) =
    let rest = get_line (b ∷ src) in
    if (a == b'\r') && (b == b'\n') then done [] src else longer a rest

-- `usize::try_from` an i64
unfoldable pub try_usize : ℤ → Bytes → Reading ℕ
try_usize (pos n) src = done n src
try_usize (negsuc n) src = invalid

abbrev pub parsed_line : Option ℤ → Bytes → Reading ℤ
parsed_line none src = invalid
parsed_line (some n) src = done n src

-- `for _ in 0..len` of an i64
abbrev pub rounds : ℤ → ℕ
rounds (pos n) = n
rounds (negsuc n) = 0

-- the loop of `check` over the entries of an array
unfoldable pub check_entries : (Bytes → Reading (Unit {0})) → ℕ → Bytes → Reading (Unit {0})
check_entries check_one zero src = done tt src
check_entries check_one (suc n) src = check_one src >>= λ _ src. check_entries check_one n src

-- the loop of `parse`, which collects the entries
unfoldable pub parse_entries : (Bytes → Reading Frame) → ℕ → Bytes → Reading Frames
parse_entries parse_one zero src = done nil src
parse_entries parse_one (suc n) src = parse_one src >>= λ entry src.
    parse_entries parse_one n src >>= λ entries src. done (cons entry entries) src

abbrev pub text : (Bytes → Frame) → Bytes → Bytes → Reading Frame
text frame line src = if from_utf8 line then done (frame line) src else invalid

unfoldable pub parse_null : Bytes → Reading Frame
unfolding get_line bytes_eq
parse_null src =
    get_line src >>= λ line src. if bytes_eq line (b'-' ∷ b'1' ∷ []) then done null src else invalid

-- the payload of `len` bytes and the line end
unfoldable pub payload : ℕ → Bytes → Reading Frame
unfolding skip
payload len src =
    if ltb (length src) (len + 2)
    then incomplete
    else (skip (len + 2) src >>= λ _ src'. done (bulk (take len src)) src')

module _ (atoi : Bytes → Option ℤ) where
  unfoldable pub get_decimal : Bytes → Reading ℤ
  unfolding get_line
  get_decimal src = get_line src >>= λ line src. parsed_line (atoi line) src

  unfoldable pub check_bulk : ℕ → Bytes → Reading (Unit {0})
  unfolding get_decimal try_usize skip
  check_bulk first src =
      if first == b'-'
      then skip 4 src
      else (get_decimal src >>= λ n src. try_usize n src >>= λ len src. skip (len + 2) src)

  unfoldable pub parse_bulk : ℕ → Bytes → Reading Frame
  unfolding parse_null get_decimal try_usize payload
  parse_bulk first src =
      if first == b'-'
      then parse_null src
      else (get_decimal src >>= λ n src. try_usize n src >>= λ len src. payload len src)

  -- `Frame::check` by the type byte; `inner` is the recursive call
  unfoldable pub check_kind : (Bytes → Reading (Unit {0})) → ℕ → Bytes → Reading (Unit {0})
  unfolding get_line get_decimal peek_u8 check_bulk check_entries
  check_kind inner kind src =
      if kind == b'+'
      then (get_line src >>= λ _ src. done tt src)
      else if kind == b'-'
      then (get_line src >>= λ _ src. done tt src)
      else if kind == b':'
      then (get_decimal src >>= λ _ src. done tt src)
      else if kind == b'$'
      then (peek_u8 src >>= λ first src. check_bulk first src)
      else if kind == b'*'
      then (get_decimal src >>= λ len src. check_entries inner (rounds len) src)
      else invalid

  -- `Frame::parse` by the type byte
  unfoldable pub parse_kind : (Bytes → Reading Frame) → ℕ → Bytes → Reading Frame
  unfolding get_line from_utf8 get_decimal peek_u8 parse_bulk try_usize parse_entries
  parse_kind inner kind src =
      if kind == b'+'
      then (get_line src >>= λ line src. text simple line src)
      else if kind == b'-'
      then (get_line src >>= λ line src. text error_owned line src)
      else if kind == b':'
      then (get_decimal src >>= λ n src. done (integer n) src)
      else if kind == b'$'
      then (peek_u8 src >>= λ first src. parse_bulk first src)
      else if kind == b'*'
      then (get_decimal src >>= λ n src. try_usize n src >>= λ len src.
          parse_entries inner len src >>= λ entries src. done (array entries) src)
      else unimplemented

  -- The depth bounds how deeply arrays are nested.
  unfoldable pub check : ℕ → Bytes → Reading (Unit {0})
  unfolding get_u8 check_kind
  check zero src = too_deep
  check (suc depth) src = get_u8 src >>= λ kind src. check_kind (check depth) kind src

  unfoldable pub parse : ℕ → Bytes → Reading Frame
  unfolding get_u8 parse_kind
  parse zero src = too_deep
  parse (suc depth) src = get_u8 src >>= λ kind src. parse_kind (parse depth) kind src
