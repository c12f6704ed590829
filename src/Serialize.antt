-- ===== src/Serialize.antt =====
-- The wire format of src/serialize.rs, one module for each group of its functions.
pub mod Reader
pub mod Varint
pub mod Trailer
pub mod Compression
pub mod Bitmap
pub mod Header
pub mod Encode
pub mod Decode
