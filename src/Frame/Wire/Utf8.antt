-- ===== src/Frame/Wire/Utf8.antt =====
-- `String::from_utf8`: which bytes are UTF-8.
use tidis.Base.{ℕ, Bool, true, false, Option, none, some, List, [], ◌∷◌, leb, if◌then◌else◌, ◌&&◌}
use tidis.Bytes.{Bytes}

-- The ranges in which the bytes after a first byte lie; `none` of a byte that is no first byte.
abbrev tails : ℕ → Option (List (ℕ × ℕ))
tails b =
    let tail : ℕ × ℕ = (128, 191) in
    if leb b 127
    then some []
    else if leb b 193
    then none
    else if leb b 223
    then some (tail ∷ [])
    else if leb b 224
    then some ((160, 191) ∷ tail ∷ [])
    else if leb b 236
    then some (tail ∷ tail ∷ [])
    else if leb b 237
    then some ((128, 159) ∷ tail ∷ [])
    else if leb b 239
    then some (tail ∷ tail ∷ [])
    else if leb b 240
    then some ((144, 191) ∷ tail ∷ tail ∷ [])
    else if leb b 243
    then some (tail ∷ tail ∷ tail ∷ [])
    else if leb b 244
    then some ((128, 143) ∷ tail ∷ tail ∷ [])
    else none

-- the ranges after one more byte
abbrev next : Option (List (ℕ × ℕ)) → ℕ → Option (List (ℕ × ℕ))
next none b = none
next (some []) b = tails b
next (some (r ∷ pending)) b = if leb r.0 b && leb b r.1 then some pending else none

utf8_from : Bytes → Option (List (ℕ × ℕ)) → Bool
utf8_from [] none = false
utf8_from [] (some []) = true
utf8_from [] (some (r ∷ pending)) = false
utf8_from (b ∷ bytes) pending = utf8_from bytes (next pending b)

unfoldable pub from_utf8 : Bytes → Bool
unfolding utf8_from
from_utf8 bytes = utf8_from bytes (some [])
