-- ===== src/Tests/Frames.antt =====
-- Frames: a packet of two 16-bit numbers to two endpoints, of a reliable type.
use sedsprintf_rs.Prelude.{
  ℕ, ◌+◌, ◌≤◌, ◌<◌, replicate, ◌≡◌, ◌≢◌, refl, true, false, some, List, [], ◌∷◌, ◌++◌, length,
  IsU64, arith,
}
use sedsprintf_rs.Error.{ok}
use sedsprintf_rs.Schema.{data_type_size, get_data_type, is_reliable_type}
use sedsprintf_rs.Packet
use sedsprintf_rs.Packet.{Packet, validate, check_payload, packet_id}
use sedsprintf_rs.Packet.Checks.{new-validate}
use sedsprintf_rs.Serialize.Reader.{ByteReader, read_byte, read_bytes, remaining}
use sedsprintf_rs.Serialize.Reader.Laws.{at}
use sedsprintf_rs.Serialize.Trailer.{ReliableHeader, append_crc32, verify_crc32}
use sedsprintf_rs.Serialize.Trailer.Laws.{verify_crc32-append_crc32}
use sedsprintf_rs.Serialize.Varint.{write_uleb128, read_uleb128, read_loop}
use sedsprintf_rs.Serialize.Varint.RoundTrip.{read_uleb128-write_uleb128}
use sedsprintf_rs.Serialize.Varint.Bounds.{read_uleb128_bounds}
use sedsprintf_rs.Serialize.Bitmap.{
  bitmap_popcount, ep_bitmap_bits, build_endpoint_bitmap, expand_endpoint_bitmap,
}
use sedsprintf_rs.Serialize.Bitmap.Bits.{contains}
use sedsprintf_rs.Serialize.Bitmap.RoundTrip.{marked, expand-build_marked}
use sedsprintf_rs.Serialize.Bitmap.Count.{popcount-build}
use sedsprintf_rs.Serialize.Compression.{compress_if_beneficial}
use sedsprintf_rs.Serialize.Compression.Laws.{Sound, compress_if_beneficial-Sound}
use sedsprintf_rs.Serialize.Header.{FrameHeader, write_header, read_header}
use sedsprintf_rs.Serialize.Header.RoundTrip.{FitsHeader, read_header-write_header}
use sedsprintf_rs.Serialize.Encode.{
  serialize_packet, serialize_packet_inner, serialize_packet_with_reliable, packet_wire_size,
}
use sedsprintf_rs.Serialize.Decode.{
  deserialize_packet, peek_frame_info, peek_envelope, packet_id_from_wire, rewrite_reliable_header,
}
use sedsprintf_rs.Serialize.Decode.Parts.{FitsOptional}
use sedsprintf_rs.Serialize.Decode.RoundTrip.{
  IsSerializable, received, deserialize-serialize, deserialize-serialize_inner,
}
use sedsprintf_rs.Serialize.Decode.Identity.{packet_id_from_wire-serialize}
use sedsprintf_rs.Serialize.Decode.Peek.{envelope_of, peek-serialize, packet_wire_size-length}
use sedsprintf_rs.Serialize.Decode.Rewrite.{rewrite_reliable_header-serialize}
use sedsprintf_rs.Tests.{toy, toy_laws, toy_schema}

abbrev two_numbers : Packet
two_numbers = record {
  ty = 0;
  data_size = 4;
  sender = 84 ∷ 69 ∷ [];
  endpoints = 2 ∷ 0 ∷ [];
  timestamp = 1000;
  payload = 1 ∷ 0 ∷ 2 ∷ 0 ∷ [];
}

abbrev seventh : ReliableHeader
seventh = record { flags = 0; seq = 7; ack = 0 }

two_numbers-IsSerializable : IsSerializable toy_schema toy two_numbers
unfolding validate check_payload data_type_size get_data_type toy
two_numbers-IsSerializable = record {
  validated = refl;
  type_valid = omega arith;
  type_fits = omega arith;
  endpoints_valid = (omega arith, (omega arith, tt));
  time_fits = omega arith;
  sender_utf8 = refl;
  fits_memory = omega arith;
}

seventh_fits : FitsOptional toy_schema toy 0 (some seventh)
unfolding is_reliable_type
seventh_fits = (refl, record { seq_fits = omega arith; ack_fits = omega arith }, refl)

deserialize-serialize_example :
    (frame : List ℕ) × (serialize_packet toy_schema toy two_numbers ≡ some frame)
    × (deserialize_packet toy_schema toy frame ≡ ok (received toy_schema two_numbers))
deserialize-serialize_example =
    deserialize-serialize toy_schema toy toy_laws two_numbers (omega arith)
      two_numbers-IsSerializable

deserialize-serialize_inner_example :
    (frame : List ℕ) × (serialize_packet_inner toy_schema toy two_numbers (some seventh)
      ≡ some frame)
    × (deserialize_packet toy_schema toy frame ≡ ok (received toy_schema two_numbers))
deserialize-serialize_inner_example =
    deserialize-serialize_inner toy_schema toy toy_laws two_numbers (some seventh) (omega arith)
      two_numbers-IsSerializable seventh_fits

packet_id_from_wire-serialize_example :
    (frame : List ℕ) × (serialize_packet toy_schema toy two_numbers ≡ some frame)
    × (packet_id_from_wire toy_schema toy frame
        ≡ ok (packet_id toy_schema (received toy_schema two_numbers)))
packet_id_from_wire-serialize_example =
    packet_id_from_wire-serialize toy_schema toy toy_laws two_numbers (omega arith)
      two_numbers-IsSerializable

peek-serialize_example :
    (frame : List ℕ) × (serialize_packet_inner toy_schema toy two_numbers (some seventh)
      ≡ some frame)
    × (peek_frame_info toy_schema toy frame
        ≡ ok (record { envelope = envelope_of toy_schema two_numbers; reliable = some seventh }))
    × (peek_envelope toy_schema toy frame ≡ ok (envelope_of toy_schema two_numbers))
peek-serialize_example =
    peek-serialize toy_schema toy toy_laws two_numbers (some seventh) (omega arith)
      two_numbers-IsSerializable seventh_fits

packet_wire_size-length_example :
    (frame : List ℕ) × (serialize_packet_inner toy_schema toy two_numbers (some seventh)
      ≡ some frame)
    × (packet_wire_size toy_schema toy two_numbers ≡ length frame)
packet_wire_size-length_example =
    packet_wire_size-length toy_schema toy toy_laws two_numbers (some seventh) (omega arith)
      two_numbers-IsSerializable seventh_fits

rewrite_reliable_header-serialize_example :
    (old new : List ℕ) × (serialize_packet_with_reliable toy_schema toy two_numbers seventh
      ≡ some old)
    × (serialize_packet_with_reliable toy_schema toy two_numbers
          (record { flags = 2; seq = 9; ack = 3 })
        ≡ some new)
    × (rewrite_reliable_header toy_schema toy old 2 9 3 ≡ ok (true, new))
rewrite_reliable_header-serialize_example =
    rewrite_reliable_header-serialize toy_schema toy toy_laws two_numbers seventh 2 9 3
      (omega arith) two_numbers-IsSerializable seventh_fits

read_uleb128-write_uleb128_example :
    read_uleb128 (at (1 ∷ []) (write_uleb128 300 [] ++ 5 ∷ []))
    ≡ ok (300, at ((1 ∷ []) ++ write_uleb128 300 []) (5 ∷ []))
read_uleb128-write_uleb128_example = read_uleb128-write_uleb128 300 (1 ∷ []) (5 ∷ []) (omega arith)

abbrev varint_bytes : ByteReader
varint_bytes = record { buf = 0xAC ∷ 2 ∷ 9 ∷ []; off = 0 }

varint_read : read_uleb128 varint_bytes ≡ ok (300, record { buf = 0xAC ∷ 2 ∷ 9 ∷ []; off = 2 })
unfolding read_uleb128 read_loop read_byte read_bytes remaining
varint_read = refl

read_uleb128_bounds_example :
    IsU64 300
    × (varint_bytes.buf ≡ varint_bytes.buf)
    × (0 < 2)
    × (2 ≤ 0 + 10)
    × (2 ≤ length varint_bytes.buf)
read_uleb128_bounds_example =
    read_uleb128_bounds varint_bytes (record { buf = 0xAC ∷ 2 ∷ 9 ∷ []; off = 2 }) 300 varint_read

expand-build_marked_example :
    expand_endpoint_bitmap toy_schema (build_endpoint_bitmap toy_schema (2 ∷ 0 ∷ 2 ∷ []))
    ≡ ok (marked (ep_bitmap_bits toy_schema) 0 (contains (2 ∷ 0 ∷ 2 ∷ [])))
expand-build_marked_example =
    expand-build_marked toy_schema (2 ∷ 0 ∷ 2 ∷ []) (omega arith, (omega arith, (omega arith, tt)))

popcount-build_example :
    bitmap_popcount (build_endpoint_bitmap toy_schema (2 ∷ 0 ∷ 2 ∷ []))
    ≡ length (marked (ep_bitmap_bits toy_schema) 0 (contains (2 ∷ 0 ∷ 2 ∷ [])))
popcount-build_example =
    popcount-build toy_schema (2 ∷ 0 ∷ 2 ∷ []) (omega arith, (omega arith, (omega arith, tt)))

abbrev long_run : List ℕ
long_run = replicate 130 7

compress_if_beneficial-Sound_example : Sound toy long_run (compress_if_beneficial toy long_run)
compress_if_beneficial-Sound_example = compress_if_beneficial-Sound toy toy_laws long_run

abbrev a_header : FrameHeader
a_header = record {
  payload_is_compressed = true;
  sender_is_compressed = false;
  nep = 2;
  ty_v = 300;
  dsz = 40;
  ts_v = 70000;
  slen = 2;
  sender_wire_len = 2;
}

a_header_fits : FitsHeader a_header
a_header_fits = record {
  type_fits = omega arith;
  size_fits = omega arith;
  time_fits = omega arith;
  sender_fits = omega arith;
  wire_fits = omega arith;
  same_length = λ e. refl;
}

read_header-write_header_example :
    read_header (at [] (write_header a_header ++ (1 ∷ [])))
    ≡ ok (a_header, at (write_header a_header) (1 ∷ []))
read_header-write_header_example = read_header-write_header a_header (1 ∷ []) a_header_fits

verify_crc32-append_crc32_example :
    verify_crc32 toy (append_crc32 toy (1 ∷ 2 ∷ [])) ≡ ok (1 ∷ 2 ∷ [])
verify_crc32-append_crc32_example = verify_crc32-append_crc32 toy toy_laws (1 ∷ 2 ∷ [])

built :
    Packet.new toy_schema toy 0 (2 ∷ 0 ∷ []) (84 ∷ 69 ∷ []) 1000 (1 ∷ 0 ∷ 2 ∷ 0 ∷ [])
    ≡ ok two_numbers
unfolding Packet.new check_payload data_type_size get_data_type
built = refl

new-validate_example :
    (validate toy_schema toy two_numbers ≡ ok tt)
    × (two_numbers ≡ two_numbers)
    × (two_numbers.endpoints ≢ [])
new-validate_example =
    new-validate toy_schema toy 0 1000 (2 ∷ 0 ∷ []) (84 ∷ 69 ∷ []) (1 ∷ 0 ∷ 2 ∷ 0 ∷ []) two_numbers
      built
