-- ===== src/External.antt =====
-- What the crate takes from elsewhere: CRC-32 (crc32fast), zstd (zstd_safe) and the UTF-8 test of the
-- standard library, as a record of functions, with the laws that the theorems use beside it.
use sedsprintf_rs.Prelude.{ℕ, ◌≤◌, ◌≡◌, Bool, List, Option, some, length, IsU32}

pub record External : Type 0 where
  -- The checksum of the bytes.
  pub crc32 : List ℕ → ℕ
  -- `zstd_safe::compress` into a buffer of the given size: the bytes written, if they fit.
  pub zstd_compress : List ℕ → ℕ → Option (List ℕ)
  -- `zstd_safe::decompress` into a buffer of the given size: the bytes written.
  pub zstd_decompress : List ℕ → ℕ → Option (List ℕ)
  -- `core::str::from_utf8(bytes).is_ok()`.
  pub from_utf8 : List ℕ → Bool

-- A checksum is a `u32`, and decompression into a buffer of the original's size undoes compression.
pub record ExternalLaws (x : External) : Type 0 where
  pub crc32-IsU32 : (bytes : List ℕ) → IsU32 (x.crc32 bytes)
  pub decompress-compress :
      (bytes compressed : List ℕ) (room : ℕ)
      → x.zstd_compress bytes room ≡ some compressed
      → x.zstd_decompress compressed (length bytes) ≡ some bytes
  -- A zstd frame begins with its magic number.
  pub compress-nonempty :
      (bytes compressed : List ℕ) (room : ℕ)
      → x.zstd_compress bytes room ≡ some compressed
      → 1 ≤ length compressed
  pub compress-fits :
      (bytes compressed : List ℕ) (room : ℕ)
      → x.zstd_compress bytes room ≡ some compressed
      → length compressed ≤ room
