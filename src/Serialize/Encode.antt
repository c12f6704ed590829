-- ===== src/Serialize/Encode.antt =====
-- Serialization of src/serialize.rs. `none` stands for the panic of `assert!(nep_unique <= u8::MAX)`.
use sedsprintf_rs.Prelude.{
  ℕ, ◌+◌, false, Option, none, some, List, ◌++◌, length, replicate, ltb, if◌then◌else◌,
}
use sedsprintf_rs.Schema.{Schema, is_reliable_type}
use sedsprintf_rs.External.{External}
use sedsprintf_rs.Packet.{Packet}
use sedsprintf_rs.Serialize.Trailer.{
  ReliableHeader, write_reliable_header, append_crc32, reliable_flag_ack_only,
  reliable_flag_unsequenced, reliable_header_bytes, crc32_bytes_len,
}
use sedsprintf_rs.Serialize.Compression.{compress_if_beneficial}
use sedsprintf_rs.Serialize.Bitmap.{build_endpoint_bitmap, bitmap_popcount, ep_bitmap_bytes}
use sedsprintf_rs.Serialize.Header.{FrameHeader, write_header}
use sedsprintf_rs.Serialize.Varint.{uleb128_size}

-- The reliable header, if there is one.
unfoldable pub write_optional : Option ReliableHeader → List ℕ → List ℕ
write_optional none out = out
write_optional (some hdr) out = write_reliable_header hdr out

abbrev pub default_reliable : ReliableHeader
default_reliable = record { flags = reliable_flag_unsequenced; seq = 0; ack = 0 }

module _ (s : Schema) (x : External) where
  -- The header that a packet is given.
  unfoldable pub packet_header : Packet → FrameHeader
  packet_header pkt =
      let (sender_compressed, sender_wire) = compress_if_beneficial x pkt.sender in
      let (payload_compressed, payload_wire) = compress_if_beneficial x pkt.payload in
      record {
        payload_is_compressed = payload_compressed;
        sender_is_compressed = sender_compressed;
        nep = bitmap_popcount (build_endpoint_bitmap s pkt.endpoints);
        ty_v = pkt.ty;
        dsz = pkt.data_size;
        ts_v = pkt.timestamp;
        slen = length pkt.sender;
        sender_wire_len = length sender_wire;
      }

  unfoldable pub serialize_packet_inner : Packet → Option ReliableHeader → Option (List ℕ)
  serialize_packet_inner pkt reliable =
      let bm = build_endpoint_bitmap s pkt.endpoints in
      let out = write_header (packet_header pkt) in
      let out = out ++ bm in
      let out = out ++ (compress_if_beneficial x pkt.sender).1 in
      let out = write_optional reliable out in
      let out = out ++ (compress_if_beneficial x pkt.payload).1 in
      if ltb 255 (bitmap_popcount bm) then none else some (append_crc32 x out)

  unfoldable pub serialize_packet_with_reliable : Packet → ReliableHeader → Option (List ℕ)
  serialize_packet_with_reliable pkt header = serialize_packet_inner pkt (some header)

  unfoldable pub serialize_packet : Packet → Option (List ℕ)
  serialize_packet pkt =
      if is_reliable_type s pkt.ty
      then serialize_packet_with_reliable pkt default_reliable
      else serialize_packet_inner pkt none

  -- An acknowledgement frame: no endpoint, no payload.
  unfoldable pub serialize_reliable_ack : List ℕ → ℕ → ℕ → ℕ → List ℕ
  serialize_reliable_ack sender ty timestamp_ms ack =
      let (sender_compressed, sender_wire) = compress_if_beneficial x sender in
      let out = write_header (record {
        payload_is_compressed = false;
        sender_is_compressed = sender_compressed;
        nep = 0;
        ty_v = ty;
        dsz = 0;
        ts_v = timestamp_ms;
        slen = length sender;
        sender_wire_len = length sender_wire;
      }) in
      let out = out ++ replicate (ep_bitmap_bytes s) 0 in
      let out = out ++ sender_wire in
      append_crc32 x
        (write_reliable_header (record { flags = reliable_flag_ack_only; seq = 0; ack = ack }) out)

  unfoldable pub header_size_bytes : Packet → ℕ
  header_size_bytes pkt =
      let (sender_compressed, sender_wire) = compress_if_beneficial x pkt.sender in
      2
      + uleb128_size pkt.ty
      + uleb128_size pkt.data_size
      + uleb128_size pkt.timestamp
      + uleb128_size (length pkt.sender)
      + (if sender_compressed then uleb128_size (length sender_wire) else 0)

  unfoldable pub packet_wire_size : Packet → ℕ
  packet_wire_size pkt =
      header_size_bytes pkt
      + ep_bitmap_bytes s
      + length (compress_if_beneficial x pkt.sender).1
      + (if is_reliable_type s pkt.ty then reliable_header_bytes else 0)
      + length (compress_if_beneficial x pkt.payload).1
      + crc32_bytes_len
