-- ===== src/Connection/Examples.antt =====
-- Examples of reading requests.
use tidis.Base.{ℕ, ◌+◌, ◌*◌, ◌-◌, ◌≡◌, refl, Option, none, some, [], ◌∷◌, ◌&&◌, leb, if◌then◌else◌}
use tidis.Base.Int.{ℤ, pos}
use tidis.Bytes.{Bytes}
use tidis.Frame.{resp_array, bulk}
use tidis.Frame.Wire.{parse}
use tidis.Connection.{framed, wait, Sound, parse_frame, parse_frame-Sound}

-- a decimal number of digits only
abbrev digits : Bytes → ℕ → Option ℤ
digits [] n = some (pos n)
digits (b ∷ bytes) n =
    let more = digits bytes (n * 10 + (b - 48)) in if leb 48 b && leb b 57 then more else none

abbrev read_decimal : Bytes → Option ℤ
read_decimal [] = none
read_decimal (b ∷ bytes) = digits (b ∷ bytes) 0

abbrev crlf : Bytes → Bytes
crlf bytes = b'\r' ∷ b'\n' ∷ bytes

-- `*2` with the entries `GE` and `k`, and the start of the next request
abbrev request : Bytes
request =
    b'*'
    ∷ b'2'
    ∷ crlf (b'$' ∷ b'2' ∷ crlf (b'G' ∷ b'E' ∷ crlf (b'$' ∷ b'1' ∷ crlf (b'k' ∷ crlf (b'*' ∷ [])))))

reads_request :
    parse_frame read_decimal request
    ≡ framed (resp_array (bulk (b'G' ∷ b'E' ∷ []) ∷ bulk (b'k' ∷ []) ∷ [])) 19 (b'*' ∷ [])
unfolding parse_frame
reads_request = refl

waits : parse_frame read_decimal (b'$' ∷ b'5' ∷ crlf (b'a' ∷ [])) ≡ wait
unfolding parse_frame
waits = refl

parse_frame-Sound_example :
    Sound request (parse read_decimal 21 request) (parse_frame read_decimal request)
parse_frame-Sound_example = parse_frame-Sound read_decimal request
