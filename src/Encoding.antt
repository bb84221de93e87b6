-- ===== src/Encoding.antt =====
-- Byte strings, and the two text encodings of the Go standard library that the service uses.
mod Octets
pub mod Base64
pub mod Hex
pub use Octets.*
