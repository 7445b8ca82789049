-- ===== src/Encoding.antt =====
-- src/tikv/encoding/mod.rs: the data types, the constants of the group encoding, and the modules of
-- the encoder (`Encode`, `Score`) and of the decoder (`Decode`) with their proofs.
pub mod Groups
pub mod Encode
pub mod Decode
pub mod Score
pub mod RoundTrip
pub mod Order
pub mod Apart
pub mod Examples
use tidis.Base.{ℕ, List, [], ◌∷◌}

pub data DataType : Type 0 where
  string hash list set zset null : DataType

-- `fmt::Display` for `DataType`, as bytes
unfoldable pub data_type_name : DataType → List ℕ
data_type_name DataType.string = b's' ∷ b't' ∷ b'r' ∷ b'i' ∷ b'n' ∷ b'g' ∷ []
data_type_name DataType.hash = b'h' ∷ b'a' ∷ b's' ∷ b'h' ∷ []
data_type_name DataType.list = b'l' ∷ b'i' ∷ b's' ∷ b't' ∷ []
data_type_name DataType.set = b's' ∷ b'e' ∷ b't' ∷ []
data_type_name DataType.zset = b'z' ∷ b's' ∷ b'e' ∷ b't' ∷ []
data_type_name DataType.null = b'n' ∷ b'o' ∷ b'n' ∷ b'e' ∷ []
