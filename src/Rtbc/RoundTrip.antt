-- ===== src/Rtbc/RoundTrip.antt =====
-- What the readers of src/bytecode_format.rs make of what its writers wrote, part by part.
pub mod FfiTypes
pub mod Values
pub mod Lines
pub mod Classes
pub mod Chunks
pub mod Modules
