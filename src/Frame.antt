-- ===== src/Frame.antt =====
-- src/frame.rs: the frames of the Redis protocol, the replies built from them (src/utils.rs), and the
-- errors that become replies (src/tikv/errors.rs).
pub mod Wire
use Prim.Native.String.{String}
use tidis.Base.{ℕ, ◌-◌, ◌%◌, ◌^◌, ltb, if◌then◌else◌, List, [], ◌∷◌}
use tidis.Base.Int.{ℤ, pos, negsuc, ◌+ℤ◌, ◌-ℤ◌}
use tidis.Bytes.{Bytes, u64_mod}

mutual
  pub data Frame : Type 0 where
    simple : Bytes → Frame
    error_owned : Bytes → Frame
    error_string : String → Frame
    integer : ℤ → Frame
    bulk : Bytes → Frame
    null : Frame
    array : Frames → Frame

  -- `Vec<Frame>`
  pub data Frames : Type 0 where
    nil : Frames
    cons : Frame → Frames → Frames

-- The `RTError` constants that the modelled commands return; each is a fixed text.
pub data Error : Type 0 where
  wrong_type no_such_key index_out_of_range list_too_large key_version_exhausted
        value_is_not_integer :
      Error

unfoldable pub message : Error → String
message Error.wrong_type = "WRONGTYPE Operation against a key holding the wrong kind of value"
message Error.no_such_key = "ERR no such key"
message Error.index_out_of_range = "ERR index out of range"
message Error.list_too_large = "ERR list is too large to execute"
message Error.key_version_exhausted = "ERR key version exhausted"
message Error.value_is_not_integer = "ERR value is not an integer or out of range"

abbrev pub resp_ok : Frame
resp_ok = simple (b'O' ∷ b'K' ∷ [])

abbrev pub resp_err : Error → Frame
resp_err e = error_string (message e)

abbrev pub resp_int : ℤ → Frame
resp_int val = integer val

abbrev pub resp_bulk : Bytes → Frame
resp_bulk val = bulk val

abbrev pub resp_nil : Frame
resp_nil = null

abbrev pub frames : List Frame → Frames
frames [] = nil
frames (f ∷ fs) = cons f (frames fs)

abbrev pub resp_array : List Frame → Frame
resp_array val = array (frames val)

-- `n as i64` for a u64 `n`
unfoldable pub as_i64 : ℕ → ℤ
as_i64 n = if ltb n (2 ^ 63) then pos n else negsuc (u64_mod - n - 1)

-- `z as u64` for an i64 `z`
unfoldable pub as_u64 : ℤ → ℕ
as_u64 (pos n) = n % u64_mod
as_u64 (negsuc n) = u64_mod - 1 - n % u64_mod

-- i64 arithmetic wraps in the release profile.
unfoldable pub add_i64 : ℤ → ℤ → ℤ
unfolding as_i64 as_u64 ◌+ℤ◌
add_i64 a b = as_i64 (as_u64 (a +ℤ b))

unfoldable pub sub_i64 : ℤ → ℤ → ℤ
unfolding as_i64 as_u64 ◌-ℤ◌
sub_i64 a b = as_i64 (as_u64 (a -ℤ b))
