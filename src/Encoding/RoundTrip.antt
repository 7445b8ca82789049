-- ===== src/Encoding/RoundTrip.antt =====
-- What the decoder reads back from each kind of key and of value that the encoder writes.
pub mod Slices
pub mod Values
pub mod Keys
