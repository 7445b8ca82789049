-- ===== src/Connection.antt =====
-- src/connection.rs: `Connection::parse_frame`, which takes a frame off the read buffer.
pub mod Examples
use tidis.Base.{
  ℕ, suc, ◌+◌, ◌-◌, ◌<◌, ◌≡◌, ◌∙◌, refl, sym, ap, subst, Option, List, [], ◌∷◌, ◌++◌, length,
  length-append, drop, drop-append, arith,
}
use tidis.Base.Int.{ℤ}
use tidis.Bytes.{Bytes}
use tidis.Frame.{Frame}
use tidis.Frame.Wire.{Reading, done, incomplete, invalid, unimplemented, too_deep, check, parse}
use tidis.Frame.Wire.Agreement.{Agrees, parse-Agrees}
use tidis.Frame.Wire.Depth.{Kept, check-Kept}

-- A frame with its length and the buffer after it, `Ok((None, 0))`, an error, which closes the
-- connection, a panic, or `overflowed`, where the depth given to `check` or `parse` was too small. The
-- source recurses on the stack of its thread; how deep that is, is outside the model.
pub data Buffered : Type 0 where
  framed : Frame → ℕ → Bytes → Buffered
  wait refused panicked overflowed : Buffered

-- `parse` from position 0, after a check that has passed up to position `len`
parse_checked : Bytes → ℕ → Reading Frame → Buffered
parse_checked buffer len (done frame rest) = framed frame len (drop len buffer)
parse_checked buffer len incomplete = refused
parse_checked buffer len invalid = refused
parse_checked buffer len unimplemented = panicked
parse_checked buffer len too_deep = overflowed

after_check : Bytes → Reading Frame → Reading (Unit {0}) → Buffered
unfolding parse_checked
after_check buffer parsed (done u rest) = parse_checked buffer (length buffer - length rest) parsed
after_check buffer parsed incomplete = wait
after_check buffer parsed invalid = refused
after_check buffer parsed unimplemented = panicked
after_check buffer parsed too_deep = overflowed

abbrev pub Sound : Bytes → Reading Frame → Buffered → Type 0
Sound buffer parsed (framed frame len rest) =
    (parsed ≡ done frame rest) × (len + length rest ≡ length buffer)
Sound buffer parsed wait = Unit
Sound buffer parsed refused = Unit
Sound buffer parsed panicked = ⊥
Sound buffer parsed overflowed = ⊥

position : (front rest : Bytes) → drop (length (front ++ rest) - length rest) (front ++ rest) ≡ rest
position front rest =
    let e : length (front ++ rest) - length rest ≡ length front =
      omega (arith, length-append front rest) in
    rw e (drop-append front rest)

checked-Sound :
    (buffer rest : Bytes) (parsed : Reading Frame)
    → ((front : Bytes) × (buffer ≡ front ++ rest))
    → Agrees (done tt rest) parsed
    → Sound buffer parsed (parse_checked buffer (length buffer - length rest) parsed)
unfolding parse_checked
checked-Sound buffer rest (done frame left) (front, e) same =
    let at : drop (length buffer - length rest) buffer ≡ rest = rw e (position front rest) in
    rw at (ap (λ r. done frame r) same, omega (arith, ap length e, length-append front rest))
checked-Sound buffer rest incomplete front same = tt
checked-Sound buffer rest invalid front same = tt
checked-Sound buffer rest unimplemented front same = same
checked-Sound buffer rest too_deep front same = same

after_check-Sound :
    (buffer : Bytes) (parsed : Reading Frame) (checked : Reading (Unit {0}))
    → Kept buffer checked
    → Agrees checked parsed
    → Sound buffer parsed (after_check buffer parsed checked)
unfolding after_check
after_check-Sound buffer parsed (done u rest) kept same = checked-Sound buffer rest parsed kept same
after_check-Sound buffer parsed incomplete kept same = tt
after_check-Sound buffer parsed invalid kept same = tt
after_check-Sound buffer parsed unimplemented kept same = absurd kept
after_check-Sound buffer parsed too_deep kept same = absurd kept

module _ (atoi : Bytes → Option ℤ) where
  -- Arrays are nested less deeply than there are bytes.
  unfoldable pub parse_frame : Bytes → Buffered
  unfolding after_check check parse
  parse_frame buffer =
      let depth = suc (length buffer) in
      after_check buffer (parse atoi depth buffer) (check atoi depth buffer)

  -- Whatever the buffer holds, `parse_frame` neither panics nor runs out of depth; a frame is the one
  -- that `Frame::parse` reads from the buffer, and the bytes taken off are exactly those it has read.
  pub parse_frame-Sound :
      (buffer : Bytes) → Sound buffer (parse atoi (suc (length buffer)) buffer) (parse_frame buffer)
  unfolding parse_frame
  parse_frame-Sound buffer =
      after_check-Sound buffer (parse atoi (suc (length buffer)) buffer)
        (check atoi (suc (length buffer)) buffer)
        (check-Kept atoi (suc (length buffer)) buffer (omega arith))
        (parse-Agrees atoi (suc (length buffer)) buffer)
