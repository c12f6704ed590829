-- ===== src/Serialize/Decode/Identity.antt =====
-- The identifier of a frame is the identifier of its packet.
use sedsprintf_rs.Prelude.{
  ℕ, ◌≡◌, refl, sym, inl, inr, Option, none, some, List, [], ◌++◌, append-nil, length, Bool-cases,
  arith,
}
use sedsprintf_rs.Error.{ok}
use sedsprintf_rs.Schema.{Schema, is_reliable_type}
use sedsprintf_rs.External.{External, ExternalLaws}
use sedsprintf_rs.Packet.{Packet, packet_id, hash_endpoints}
use sedsprintf_rs.Serialize.Reader.Laws.{
  at, new-at, remaining-at, read_bytes-at, read_bytes-at-length,
}
use sedsprintf_rs.Serialize.Trailer.{ReliableHeader, append_crc32}
use sedsprintf_rs.Serialize.Trailer.Laws.{verify_crc32-append_crc32}
use sedsprintf_rs.Serialize.Compression.{compress_if_beneficial}
use sedsprintf_rs.Serialize.Compression.Laws.{Sound}
use sedsprintf_rs.Serialize.Bitmap.{
  build_endpoint_bitmap, expand_endpoint_bitmap, ep_bitmap_bits, ep_bitmap_bytes,
}
use sedsprintf_rs.Serialize.Bitmap.Bits.{AllBelow}
use sedsprintf_rs.Serialize.Bitmap.RoundTrip.{expand-build_marked}
use sedsprintf_rs.Serialize.Header.{FrameHeader, write_header}
use sedsprintf_rs.Serialize.Header.RoundTrip.{write_header_two, read_header-write_header}
use sedsprintf_rs.Serialize.Encode.{
  packet_header, serialize_packet, serialize_packet_with_reliable, default_reliable,
}
use sedsprintf_rs.Serialize.Decode.{
  read_wire_payload, read_wire_sender, hash_bitmap, packet_id_from_wire,
}
use sedsprintf_rs.Serialize.Decode.Parts.{
  normalized, length-build, data_type_from_raw-valid, read_data_reliable-at, FitsOptional,
}
use sedsprintf_rs.Serialize.Decode.RoundTrip.{
  IsSerializable, FewEndpoints, received, sender-Sound, payload-Sound, sizes, header_fits,
  frame_body, behind, serialize_inner-body, enough_for_sender,
}

module _ (s : Schema) (x : External) where
  read_wire_sender-at :
      (h : FrameHeader) (sender wire passed rest : List ℕ)
      → Sound x sender (h.sender_is_compressed, wire)
      → h.sender_wire_len ≡ length wire
      → h.slen ≡ length sender
      → read_wire_sender s x h (at passed (wire ++ rest)) ≡ ok (sender, at (passed ++ wire) rest)
  unfolding read_wire_sender
  read_wire_sender-at h sender wire passed rest sound w l =
      ground (arith, sound, read_bytes-at-length h.sender_wire_len passed wire rest w)

  read_wire_payload-at :
      (h : FrameHeader) (payload wire passed : List ℕ)
      → Sound x payload (h.payload_is_compressed, wire)
      → h.dsz ≡ length payload
      → read_wire_payload s x h (at passed (wire ++ [])) ≡ ok payload
  unfolding read_wire_payload
  read_wire_payload-at h payload wire passed sound l = ground (
    arith,
    sound,
    read_bytes-at passed wire [],
    remaining-at passed (wire ++ []),
    append-nil wire,
  )

  hash_bitmap-build :
      (id : ℕ) (eps : List ℕ)
      → AllBelow (ep_bitmap_bits s) eps
      → hash_bitmap s x id (build_endpoint_bitmap s eps)
        ≡ ok (hash_endpoints s id (normalized s eps))
  unfolding hash_bitmap expand_endpoint_bitmap
  hash_bitmap-build id eps all = ground (arith, expand-build_marked s eps all, length-build s eps)

module _ (s : Schema) (x : External) (laws : ExternalLaws x) (pkt : Packet)
    (v : IsSerializable s x pkt) where
  packet_id_body :
      (hdr : Option ReliableHeader)
      → FitsOptional s x pkt.ty hdr
      → packet_id_from_wire s x (append_crc32 x (frame_body s x laws pkt v hdr))
        ≡ ok (packet_id s (received s pkt))
  unfolding packet_id_from_wire packet_id frame_body packet_header
  packet_id_body hdr rel =
      let h = packet_header s x pkt in
      rw (
        verify_crc32-append_crc32 x laws (frame_body s x laws pkt v hdr),
        write_header_two h (behind s x laws pkt v hdr) (header_fits s x laws pkt v),
        new-at (frame_body s x laws pkt v hdr),
        read_header-write_header h (behind s x laws pkt v hdr) (header_fits s x laws pkt v),
        enough_for_sender s x laws pkt v hdr (write_header h),
        read_bytes-at-length (ep_bitmap_bytes s) (write_header h)
            (build_endpoint_bitmap s pkt.endpoints) _ (sym (length-build s pkt.endpoints)),
        data_type_from_raw-valid s pkt.ty v.type_valid v.type_fits,
        read_wire_sender-at s x h pkt.sender (compress_if_beneficial x pkt.sender).1 _ _
            (sender-Sound s x laws pkt v) refl refl,
        read_data_reliable-at s x pkt.ty hdr _ _ rel,
        read_wire_payload-at s x h pkt.payload (compress_if_beneficial x pkt.payload).1 _
            (payload-Sound s x laws pkt v) (sizes s x laws pkt v),
        hash_bitmap-build s x _ pkt.endpoints v.endpoints_valid,
      )

-- A relay that sees only the frame computes the same identifier as a node that holds the packet with
-- its endpoints in ascending order and without repetition.
pub packet_id_from_wire-serialize :
    (s : Schema) (x : External) (laws : ExternalLaws x) (pkt : Packet)
    → FewEndpoints s
    → IsSerializable s x pkt
    → (frame : List ℕ) × (serialize_packet s x pkt ≡ some frame)
      × (packet_id_from_wire s x frame ≡ ok (packet_id s (received s pkt)))
unfolding serialize_packet serialize_packet_with_reliable
packet_id_from_wire-serialize s x laws pkt few v = elim (Bool-cases (is_reliable_type s pkt.ty)) [
  | inl e ↦ rw e (
    append_crc32 x (frame_body s x laws pkt v (some default_reliable)),
    serialize_inner-body s x laws pkt v (some default_reliable) few,
    packet_id_body s x laws pkt v (some default_reliable)
        (e, record { seq_fits = omega arith; ack_fits = omega arith }, refl),
  )
  | inr e ↦ rw e (
    append_crc32 x (frame_body s x laws pkt v none),
    serialize_inner-body s x laws pkt v none few,
    packet_id_body s x laws pkt v none e,
  )
]
