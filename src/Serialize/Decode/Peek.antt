-- ===== src/Serialize/Decode/Peek.antt =====
-- Peeking at a serialized frame, and its size.
use sedsprintf_rs.Prelude.{
  ℕ, ◌+◌, ◌≡◌, refl, false, Option, none, some, List, [], ◌++◌, length, is_empty, length-append,
  arith,
}
use sedsprintf_rs.Error.{ok}
use sedsprintf_rs.Schema.{Schema}
use sedsprintf_rs.External.{External, ExternalLaws}
use sedsprintf_rs.Packet.{Packet}
use sedsprintf_rs.Serialize.Reader.{to_le_bytes32}
use sedsprintf_rs.Serialize.Reader.Laws.{at, new-at, remaining-at}
use sedsprintf_rs.Serialize.Trailer.{ReliableHeader, append_crc32}
use sedsprintf_rs.Serialize.Trailer.Laws.{
  verify_crc32-append_crc32, read_reliable_header-at, length-reliable_bytes, reliable_bytes,
  length-to_le_bytes32,
}
use sedsprintf_rs.Serialize.Compression.{compress_if_beneficial}
use sedsprintf_rs.Serialize.Bitmap.{build_endpoint_bitmap}
use sedsprintf_rs.Serialize.Header.{write_header}
use sedsprintf_rs.Serialize.Header.RoundTrip.{
  write_header_nonempty, read_header-write_header, length-write_header,
}
use sedsprintf_rs.Serialize.Encode.{
  packet_header, serialize_packet_inner, header_size_bytes, packet_wire_size,
}
use sedsprintf_rs.Serialize.Decode.{
  TelemetryEnvelope, peek_front, peek_reliable, peek_envelope, peek_frame_info_inner,
  peek_frame_info,
}
use sedsprintf_rs.Serialize.Decode.Parts.{
  normalized, data_type_from_raw-valid, read_endpoints-at, read_sender-at, optional_bytes,
  FitsOptional,
}
use sedsprintf_rs.Serialize.Decode.RoundTrip.{
  IsSerializable, FewEndpoints, sender-Sound, header_fits, frame_body, behind, serialize_inner-body,
  enough_for_sender, length-behind, reliable_of_fits,
}

-- What a peek should see of a packet.
abbrev pub envelope_of : Schema → Packet → TelemetryEnvelope
envelope_of s pkt = record {
  ty = pkt.ty;
  endpoints = normalized s pkt.endpoints;
  sender = pkt.sender;
  timestamp_ms = pkt.timestamp;
}

peek_reliable-at :
    (s : Schema) (x : External) (ty : ℕ) (hdr : Option ReliableHeader) (passed rest : List ℕ)
    → FitsOptional s x ty hdr
    → peek_reliable s x ty (at passed (optional_bytes s x hdr ++ rest)) ≡ ok hdr
unfolding peek_reliable
peek_reliable-at s x ty none passed rest fits = rw fits
peek_reliable-at s x ty (some hdr) passed rest (rel, fits, data_frame) =
    rw (rel, read_reliable_header-at hdr passed rest fits)
      (ground (
        arith,
        remaining-at passed (reliable_bytes hdr ++ rest),
        length-append (reliable_bytes hdr) rest,
        length-reliable_bytes hdr,
      ))

module _ (s : Schema) (x : External) (laws : ExternalLaws x) (pkt : Packet)
    (v : IsSerializable s x pkt) where
  module _ (hdr : Option ReliableHeader) (rel : FitsOptional s x pkt.ty hdr) where
    abbrev after_sender : List ℕ
    after_sender = optional_bytes s x hdr ++ ((compress_if_beneficial x pkt.payload).1 ++ [])

    abbrev up_to_sender : List ℕ
    up_to_sender =
        (write_header (packet_header s x pkt) ++ build_endpoint_bitmap s pkt.endpoints)
        ++ (compress_if_beneficial x pkt.sender).1

    peek_front-body :
        peek_front s x (at [] (frame_body s x laws pkt v hdr))
        ≡ ok (envelope_of s pkt, at up_to_sender after_sender)
    unfolding peek_front frame_body packet_header
    peek_front-body =
        let h = packet_header s x pkt in
        rw (
          read_header-write_header h (behind s x laws pkt v hdr) (header_fits s x laws pkt v),
          enough_for_sender s x laws pkt v hdr (write_header h),
          read_endpoints-at s x pkt.endpoints h.nep (write_header h) _ v.endpoints_valid refl,
          read_sender-at s x h pkt.sender (compress_if_beneficial x pkt.sender).1 _ _
              (sender-Sound s x laws pkt v) v.sender_utf8 refl refl,
          data_type_from_raw-valid s pkt.ty v.type_valid v.type_fits,
        )

    -- Peeking at the frame of a serializable packet shows its type, endpoints, sender, time stamp and
    -- reliable header, in both peeks.
    peek_body :
        (peek_frame_info s x (append_crc32 x (frame_body s x laws pkt v hdr))
          ≡ ok (record { envelope = envelope_of s pkt; reliable = hdr }))
        × (peek_envelope s x (append_crc32 x (frame_body s x laws pkt v hdr))
            ≡ ok (envelope_of s pkt))
    unfolding peek_frame_info peek_frame_info_inner peek_envelope
    peek_body =
        let body = frame_body s x laws pkt v hdr in
        let front = peek_front-body in
        let nonempty : is_empty body ≡ false =
          unfold frame_body in
          write_header_nonempty (packet_header s x pkt) (behind s x laws pkt v hdr)
            (header_fits s x laws pkt v) in
        (
          rw (
            verify_crc32-append_crc32 x laws body,
            nonempty,
            new-at body,
            front,
            peek_reliable-at s x pkt.ty hdr up_to_sender _ rel,
          ),
          rw (verify_crc32-append_crc32 x laws body, nonempty, new-at body, front),
        )

-- The frame of a serializable packet, with any header that its type calls for, shows the packet's
-- type, normalized endpoints, sender, time stamp and that header to `peek_frame_info`, and the same
-- without the header to `peek_envelope`.
pub peek-serialize :
    (s : Schema) (x : External) (laws : ExternalLaws x) (pkt : Packet) (hdr : Option ReliableHeader)
    → FewEndpoints s
    → IsSerializable s x pkt
    → FitsOptional s x pkt.ty hdr
    → (frame : List ℕ) × (serialize_packet_inner s x pkt hdr ≡ some frame)
      × (peek_frame_info s x frame ≡ ok (record { envelope = envelope_of s pkt; reliable = hdr }))
      × (peek_envelope s x frame ≡ ok (envelope_of s pkt))
peek-serialize s x laws pkt hdr few v rel =
    let (info, env) = peek_body s x laws pkt v hdr rel in
    (
      append_crc32 x (frame_body s x laws pkt v hdr),
      serialize_inner-body s x laws pkt v hdr few,
      info,
      env,
    )

length-append_crc32 :
    (x : External) (body : List ℕ) → length (append_crc32 x body) ≡ length body + 4
unfolding append_crc32
length-append_crc32 x body =
    omega (
      arith,
      length-append body (to_le_bytes32 (x.crc32 body)),
      length-to_le_bytes32 (x.crc32 body),
    )

size-body :
    (s : Schema) (x : External) (laws : ExternalLaws x) (pkt : Packet) (v : IsSerializable s x pkt)
    (hdr : Option ReliableHeader)
    → FitsOptional s x pkt.ty hdr
    → packet_wire_size s x pkt ≡ length (append_crc32 x (frame_body s x laws pkt v hdr))
unfolding packet_wire_size header_size_bytes packet_header frame_body
size-body s x laws pkt v hdr rel = rw (reliable_of_fits s x laws pkt v hdr rel) (
    omega (
      arith,
      length-append_crc32 x (frame_body s x laws pkt v hdr),
      length-append (write_header (packet_header s x pkt)) (behind s x laws pkt v hdr),
      length-write_header (packet_header s x pkt) (header_fits s x laws pkt v),
      length-behind s x laws pkt v hdr,
    ))

-- `packet_wire_size` is the exact length of the frame that a serializable packet is given.
pub packet_wire_size-length :
    (s : Schema) (x : External) (laws : ExternalLaws x) (pkt : Packet) (hdr : Option ReliableHeader)
    → FewEndpoints s
    → IsSerializable s x pkt
    → FitsOptional s x pkt.ty hdr
    → (frame : List ℕ) × (serialize_packet_inner s x pkt hdr ≡ some frame)
      × (packet_wire_size s x pkt ≡ length frame)
packet_wire_size-length s x laws pkt hdr few v rel = (
  append_crc32 x (frame_body s x laws pkt v hdr),
  serialize_inner-body s x laws pkt v hdr few,
  size-body s x laws pkt v hdr rel,
)
