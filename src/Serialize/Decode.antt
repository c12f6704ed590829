-- ===== src/Serialize/Decode.antt =====
-- Deserialization of src/serialize.rs. Lengths are `usize` of a 64-bit target, whose sums wrap in a
-- release build.
pub mod Parts
pub mod RoundTrip
pub mod Peek
pub mod Identity
pub mod Rewrite
use sedsprintf_rs.Prelude.{
  ℕ, ◌+◌, ◌-◌, ◌%◌, Bool, true, false, not, Option, none, some, List, [], ◌∷◌, ◌++◌, length,
  is_empty, take, drop, get_or, ltb, ◌==◌, if◌then◌else◌, bit_and, u64_mod,
}
use sedsprintf_rs.Error.{Result, ok, err, deserialize, ◌>>=◌, ◌>>◌, fail_if}
use sedsprintf_rs.Schema.{Schema, is_reliable_type, max_value_data_endpoint}
use sedsprintf_rs.External.{External}
use sedsprintf_rs.Packet
use sedsprintf_rs.Packet.{Packet, hash_bytes_u64, hash_endpoints, hash_seed, to_le_bytes64}
use sedsprintf_rs.Serialize.Reader
use sedsprintf_rs.Serialize.Reader.{ByteReader, remaining, read_bytes, to_le_bytes32}
use sedsprintf_rs.Serialize.Trailer.{
  ReliableHeader, read_reliable_header, split_crc32, verify_crc32, reliable_flag_ack_only,
  reliable_header_bytes, crc32_bytes_len,
}
use sedsprintf_rs.Serialize.Compression.{decompress}
use sedsprintf_rs.Serialize.Bitmap.{
  expand_endpoint_bitmap, expand_loop, ep_bitmap_bits, ep_bitmap_bytes,
}
use sedsprintf_rs.Serialize.Header.{
  FrameHeader, read_header, data_type_from_raw, is_reliable_type_from_raw, decode_sender_name,
}

pub record TelemetryEnvelope : Type 0 where
  pub ty : ℕ
  pub endpoints : List ℕ
  pub sender : List ℕ
  pub timestamp_ms : ℕ

pub record TelemetryFrameInfo : Type 0 where
  pub envelope : TelemetryEnvelope
  pub reliable : Option ReliableHeader

abbrev pub is_ack_only : ReliableHeader → Bool
is_ack_only h = not (bit_and h.flags reliable_flag_ack_only == 0)

unfoldable pub ack_only : TelemetryFrameInfo → Bool
ack_only f = elim f.reliable [ none ↦ false | some h ↦ is_ack_only h ]

-- `buf[at..at + bytes.len()].copy_from_slice(bytes)`, where that range lies in the buffer.
abbrev pub overwrite : List ℕ → ℕ → List ℕ → List ℕ
overwrite buf at bytes = take at buf ++ (bytes ++ drop (at + length bytes) buf)

module _ (s : Schema) (x : External) where
  -- The endpoints of the bitmap, checked against the NEP byte.
  unfoldable pub read_endpoints : ℕ → ByteReader → Result (List ℕ × ByteReader)
  read_endpoints nep r = do
    (bm, r') ← read_bytes (ep_bitmap_bytes s) r
    eps ← expand_endpoint_bitmap s bm
    fail_if (not (length eps == nep)) (deserialize "endpoint count mismatch")
    ok (eps, r')

  unfoldable pub read_sender : FrameHeader → ByteReader → Result (List ℕ × ByteReader)
  read_sender h r = do
    (wire, r') ← read_bytes h.sender_wire_len r
    sender ← decode_sender_name x wire h.sender_is_compressed h.slen
    ok (sender, r')

  -- The reliable header of a data frame; an acknowledgement is refused.
  unfoldable pub read_data_reliable : ℕ → ByteReader → Result (Option ReliableHeader × ByteReader)
  read_data_reliable ty r =
      let reliable = read_reliable_header r >>= λ (p : ReliableHeader × ByteReader).
      if is_ack_only p.0 then err (deserialize "reliable control frame") else ok (some p.0, p.1) in
      if is_reliable_type s ty then reliable else ok (none, r)

  unfoldable pub read_payload : FrameHeader → ByteReader → Result (List ℕ)
  read_payload h r =
      let plain = read_bytes h.dsz r >>= λ (p : List ℕ × ByteReader). ok p.0 in
      let compressed =
        read_bytes (remaining r) r >>= λ (p : List ℕ × ByteReader). decompress x p.0 h.dsz in
      if h.payload_is_compressed then compressed else plain

  -- The length that must remain behind the header, before anything more is read.
  unfoldable pub least_rest : FrameHeader → Bool → ℕ
  least_rest h reliable =
      (ep_bitmap_bytes s
        + h.sender_wire_len
        + (if reliable then reliable_header_bytes else 0)
        + (if h.payload_is_compressed then 1 else h.dsz))
      % u64_mod

  unfoldable pub deserialize_packet : List ℕ → Result Packet
  deserialize_packet buf = do
    body ← verify_crc32 x buf
    fail_if (is_empty body) (deserialize "short prelude")
    (h, r1) ← read_header (Reader.new body)
    reliable ← is_reliable_type_from_raw s h.ty_v
    fail_if (ltb (remaining r1) (least_rest h reliable)) (deserialize "short buffer")
    (eps, r2) ← read_endpoints h.nep r1
    (sender, r3) ← read_sender h r2
    ty ← data_type_from_raw s h.ty_v
    (hdr, r4) ← read_data_reliable ty r3
    payload ← read_payload h r4
    Packet.new s x ty eps sender h.ts_v payload

  -- The part of a peek up to the sender and the type.
  unfoldable pub peek_front : ByteReader → Result (TelemetryEnvelope × ByteReader)
  peek_front r0 = do
    (h, r1) ← read_header r0
    fail_if (ltb (remaining r1) ((ep_bitmap_bytes s + h.sender_wire_len) % u64_mod))
        (deserialize "short buffer")
    (eps, r2) ← read_endpoints h.nep r1
    (sender, r3) ← read_sender h r2
    ty ← data_type_from_raw s h.ty_v
    ok (record { ty = ty; endpoints = eps; sender = sender; timestamp_ms = h.ts_v }, r3)

  unfoldable pub peek_envelope : List ℕ → Result TelemetryEnvelope
  peek_envelope buf = do
    body ← verify_crc32 x buf
    fail_if (is_empty body) (deserialize "short prelude")
    (env, r) ← peek_front (Reader.new body)
    ok env

  unfoldable pub peek_reliable : ℕ → ByteReader → Result (Option ReliableHeader)
  peek_reliable ty r =
      let reliable =
        read_reliable_header r >>= λ (p : ReliableHeader × ByteReader). ok (some p.0) in
      let checked =
        if ltb (remaining r) reliable_header_bytes
        then err (deserialize "short buffer")
        else reliable in
      if is_reliable_type s ty then checked else ok none

  unfoldable pub peek_frame_info_inner : List ℕ → Result TelemetryFrameInfo
  peek_frame_info_inner buf = do
    fail_if (is_empty buf) (deserialize "short prelude")
    (env, r) ← peek_front (Reader.new buf)
    reliable ← peek_reliable env.ty r
    ok (record { envelope = env; reliable = reliable })

  unfoldable pub peek_frame_info : List ℕ → Result TelemetryFrameInfo
  peek_frame_info buf = do body ← verify_crc32 x buf; peek_frame_info_inner body

  unfoldable pub peek_frame_info_unchecked : List ℕ → Result TelemetryFrameInfo
  peek_frame_info_unchecked buf = do (body, crc) ← split_crc32 buf; peek_frame_info_inner body

  unfoldable pub read_wire_payload : FrameHeader → ByteReader → Result (List ℕ)
  read_wire_payload h r =
      let plain = read_bytes h.dsz r >>= λ (p : List ℕ × ByteReader). ok p.0 in
      let compressed =
        read_bytes (remaining r) r >>= λ (p : List ℕ × ByteReader). decompress x p.0 h.dsz in
      let checked = if ltb (remaining r) h.dsz then err (deserialize "short buffer") else plain in
      let checked_compressed =
        if ltb (remaining r) 1 then err (deserialize "short buffer") else compressed in
      if h.payload_is_compressed then checked_compressed else checked

  -- The identifier's sender bytes: not checked for UTF-8.
  unfoldable pub read_wire_sender : FrameHeader → ByteReader → Result (List ℕ × ByteReader)
  read_wire_sender h r = do
    (wire, r') ← read_bytes h.sender_wire_len r
    sender ← (if h.sender_is_compressed then decompress x wire h.slen else ok wire)
    ok (sender, r')

  -- The loop over the bitmap hashes the names of the endpoints that expanding it lists; an index
  -- past the largest endpoint is refused with the same error there.
  unfoldable pub hash_bitmap : ℕ → List ℕ → Result ℕ
  hash_bitmap h bm = do
    eps ← expand_loop (max_value_data_endpoint s) (ep_bitmap_bits s) 0 bm []
    ok (hash_endpoints s h eps)

  unfoldable pub packet_id_from_wire : List ℕ → Result ℕ
  packet_id_from_wire buf = do
    body ← verify_crc32 x buf
    fail_if (ltb (length body) 2) (deserialize "short prelude")
    (h, r1) ← read_header (Reader.new body)
    fail_if (ltb (remaining r1) ((ep_bitmap_bytes s + h.sender_wire_len) % u64_mod))
        (deserialize "short buffer")
    (bm, r2) ← read_bytes (ep_bitmap_bytes s) r1
    ty ← data_type_from_raw s h.ty_v
    (sender, r3) ← read_wire_sender h r2
    (hdr, r4) ← read_data_reliable ty r3
    payload ← read_wire_payload h r4
    let id = hash_bytes_u64 hash_seed sender
    let id' = hash_bytes_u64 id (s.message_meta ty).name
    with_endpoints ← hash_bitmap id' bm
    let with_time = hash_bytes_u64 with_endpoints (to_le_bytes64 h.ts_v)
    let with_size = hash_bytes_u64 with_time (to_le_bytes64 h.dsz)
    ok (hash_bytes_u64 with_size payload)

  -- Where the reliable header of a frame begins, if its type has one.
  unfoldable pub reliable_header_offset : List ℕ → Result (Option ℕ)
  reliable_header_offset buf = do
    fail_if (ltb (length buf) (crc32_bytes_len + 1)) (deserialize "short prelude")
    (h, r1) ← read_header (Reader.new (take (length buf - crc32_bytes_len) buf))
    fail_if (ltb (remaining r1) ((ep_bitmap_bytes s + h.sender_wire_len) % u64_mod))
        (deserialize "short buffer")
    (bm, r2) ← read_bytes (ep_bitmap_bytes s) r1
    (wire, r3) ← read_bytes h.sender_wire_len r2
    ty ← data_type_from_raw s h.ty_v
    ok (if is_reliable_type s ty then some r3.off else none)

  -- The buffer after the call, and whether a header was rewritten.
  unfoldable pub rewrite_reliable_header : List ℕ → ℕ → ℕ → ℕ → Result (Bool × List ℕ)
  rewrite_reliable_header buf flags seq ack = reliable_header_offset buf >>= λ (found : Option ℕ).
      elim found [
        | none ↦ ok (false, buf)
        | some off ↦
            let data_len = length buf - crc32_bytes_len in
            let buf1 = overwrite buf off (flags ∷ []) in
            let buf2 = overwrite buf1 (off + 1) (to_le_bytes32 seq) in
            let buf3 = overwrite buf2 (off + 5) (to_le_bytes32 ack) in
            let buf4 = overwrite buf3 data_len (to_le_bytes32 (x.crc32 (take data_len buf3))) in
            if ltb (data_len - off) reliable_header_bytes
            then err (deserialize "short buffer")
            else ok (true, buf4)
      ]
