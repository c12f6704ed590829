-- ===== src/Serialize/Header.antt =====
-- The front of a frame, which src/serialize.rs writes and reads in several functions with the same
-- lines: flags, endpoint count, and the numbers up to the endpoint bitmap.
pub mod RoundTrip
use sedsprintf_rs.Prelude.{
  ℕ, ◌+◌, ◌-◌, ◌%◌, Bool, true, false, not, Option, none, some, List, [], ◌∷◌, ◌++◌, length, ltb,
  ◌==◌, if◌then◌else◌, bit_and, bit_or, u32_mod,
}
use sedsprintf_rs.Error.{Result, ok, err, deserialize, invalid_type, ◌>>=◌, ◌>>◌, fail_if, ok_or}
use sedsprintf_rs.Schema.{Schema, max_value_data_type, is_reliable_type, try_enum_from_u32}
use sedsprintf_rs.External.{External}
use sedsprintf_rs.Serialize.Reader.{ByteReader, read_byte}
use sedsprintf_rs.Serialize.Varint.{write_uleb128, read_uleb128}
use sedsprintf_rs.Serialize.Compression.{decompress}

abbrev pub flag_compressed_payload : ℕ
flag_compressed_payload = 0x01

abbrev pub flag_compressed_sender : ℕ
flag_compressed_sender = 0x02

-- `flags |= …` for each part that is compressed.
unfoldable pub frame_flags : Bool → Bool → ℕ
frame_flags payload_compressed sender_compressed =
    let flags = if payload_compressed then bit_or 0 flag_compressed_payload else 0 in
    if sender_compressed then bit_or flags flag_compressed_sender else flags

pub record FrameHeader : Type 0 where
  pub payload_is_compressed : Bool
  pub sender_is_compressed : Bool
  pub nep : ℕ
  pub ty_v : ℕ
  pub dsz : ℕ
  pub ts_v : ℕ
  pub slen : ℕ
  pub sender_wire_len : ℕ

-- The sender's wire length stands in the frame only where the sender is compressed.
unfoldable pub write_header : FrameHeader → List ℕ
write_header h =
    let out = frame_flags h.payload_is_compressed h.sender_is_compressed ∷ h.nep ∷ [] in
    let out = write_uleb128 h.ty_v out in
    let out = write_uleb128 h.dsz out in
    let out = write_uleb128 h.ts_v out in
    let out = write_uleb128 h.slen out in
    if h.sender_is_compressed then write_uleb128 h.sender_wire_len out else out

unfoldable pub read_header : ByteReader → Result (FrameHeader × ByteReader)
read_header r0 = do
  (flags, r1) ← read_byte r0
  let payload_is_compressed = not (bit_and flags flag_compressed_payload == 0)
  let sender_is_compressed = not (bit_and flags flag_compressed_sender == 0)
  (nep, r2) ← read_byte r1
  (ty_v, r3) ← read_uleb128 r2
  (dsz, r4) ← read_uleb128 r3
  (ts_v, r5) ← read_uleb128 r4
  (slen, r6) ← read_uleb128 r5
  (sender_wire_len, r7) ← (if sender_is_compressed then read_uleb128 r6 else ok (slen, r6))
  ok (
    record {
      payload_is_compressed = payload_is_compressed;
      sender_is_compressed = sender_is_compressed;
      nep = nep;
      ty_v = ty_v;
      dsz = dsz;
      ts_v = ts_v;
      slen = slen;
      sender_wire_len = sender_wire_len;
    },
    r7,
  )

-- `u32::try_from(ty_v)`, the bound, and `DataType::try_from_u32`.
unfoldable pub data_type_from_raw : Schema → ℕ → Result ℕ
data_type_from_raw s ty_v = do
  fail_if (ltb (u32_mod - 1) ty_v) (deserialize "type too large")
  fail_if (ltb (max_value_data_type s) ty_v) invalid_type
  ok_or (try_enum_from_u32 (max_value_data_type s) ty_v) invalid_type

unfoldable pub is_reliable_type_from_raw : Schema → ℕ → Result Bool
is_reliable_type_from_raw s ty_v = do ty ← data_type_from_raw s ty_v; ok (is_reliable_type s ty)

unfoldable pub decode_sender_name : External → List ℕ → Bool → ℕ → Result (List ℕ)
decode_sender_name x wire true sender_len = do
  name ← decompress x wire sender_len
  fail_if (not (x.from_utf8 name)) (deserialize "sender not UTF-8 after decompress")
  ok name
decode_sender_name x wire false sender_len = do
  fail_if (not (x.from_utf8 wire)) (deserialize "sender not UTF-8")
  ok wire
