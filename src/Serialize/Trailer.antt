-- ===== src/Serialize/Trailer.antt =====
-- The CRC-32 trailer and the reliable header of a frame, src/serialize.rs.
pub mod Laws
use sedsprintf_rs.Prelude.{
  ℕ, ◌+◌, ◌-◌, ◌≡◌, refl, ap, Bool, true, false, not, List, [], ◌∷◌, ◌++◌, length, length-append,
  take, drop, ltb, ◌==◌, ==_iff, if◌then◌else◌, IsU32, IsU8, arith,
}
use sedsprintf_rs.Error.{Result, ok, err, deserialize, ◌>>=◌, ◌>>◌, fail_if}
use sedsprintf_rs.External.{External, ExternalLaws}
use sedsprintf_rs.Serialize.Reader.{
  ByteReader, read_byte, to_le_bytes32, from_le_bytes32, write_u32_le, read_u32_le,
}

abbrev pub reliable_flag_ack_only : ℕ
reliable_flag_ack_only = 0x01

abbrev pub reliable_flag_unordered : ℕ
reliable_flag_unordered = 0x02

abbrev pub reliable_flag_unsequenced : ℕ
reliable_flag_unsequenced = 0x80

abbrev pub reliable_header_bytes : ℕ
reliable_header_bytes = 9

abbrev pub crc32_bytes_len : ℕ
crc32_bytes_len = 4

pub record ReliableHeader : Type 0 where
  pub flags : ℕ
  pub seq : ℕ
  pub ack : ℕ

unfoldable pub write_reliable_header : ReliableHeader → List ℕ → List ℕ
write_reliable_header h out = write_u32_le h.ack (write_u32_le h.seq (out ++ h.flags ∷ []))

unfoldable pub read_reliable_header : ByteReader → Result (ReliableHeader × ByteReader)
read_reliable_header r = do
  (flags, r1) ← read_byte r
  (seq, r2) ← read_u32_le r1
  (ack, r3) ← read_u32_le r2
  ok (record { flags = flags; seq = seq; ack = ack }, r3)

-- The bytes before the trailer, and the checksum in it.
unfoldable pub split_crc32 : List ℕ → Result (List ℕ × ℕ)
split_crc32 buf = do
  fail_if (ltb (length buf) crc32_bytes_len) (deserialize "short buffer")
  let data_len = length buf - crc32_bytes_len
  ok (take data_len buf, from_le_bytes32 (drop data_len buf))

module _ (x : External) where
  unfoldable pub append_crc32 : List ℕ → List ℕ
  append_crc32 out = out ++ to_le_bytes32 (x.crc32 out)

  unfoldable pub verify_crc32 : List ℕ → Result (List ℕ)
  verify_crc32 buf = do
    (body, expected) ← split_crc32 buf
    fail_if (not (x.crc32 body == expected)) (deserialize "crc32 mismatch")
    ok body
