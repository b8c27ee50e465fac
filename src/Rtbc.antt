-- ===== src/Rtbc.antt =====
-- src/bytecode_format.rs: the `.rtbc` file format.
pub mod Writer
pub mod Reader
pub mod Serialize
pub mod Deserialize
pub mod Varint
pub mod App
pub mod Decodes
pub mod RoundTrip
pub mod Settles
pub mod Total
mod Tests
