-- ===== src/Serialize/Decode/RoundTrip.antt =====
-- Deserializing what was serialized.
use sedsprintf_rs.Prelude.{
  ℕ, zero, suc, ◌+◌, ◌%◌, ◌≤◌, ◌<◌, ◌≡◌, ◌≢◌, refl, sym, ap, ◌∙◌, Bool, true, false, inl, inr,
  Option, none, some, List, [], ◌∷◌, ◌++◌, append-nil, append_assoc, length, length-append, ltb,
  if◌then◌else◌, Bool-cases, u32_mod, u64_mod, IsU64, arith,
}
use sedsprintf_rs.Error.{ok}
use sedsprintf_rs.Schema.{Schema, max_value_data_type, is_reliable_type}
use sedsprintf_rs.External.{External, ExternalLaws}
use sedsprintf_rs.Packet.{Packet, validate}
use sedsprintf_rs.Packet.Checks.{new_lem, validate_parts}
use sedsprintf_rs.Serialize.Reader.{remaining}
use sedsprintf_rs.Serialize.Reader.Laws.{at, new-at, remaining-at}
use sedsprintf_rs.Serialize.Trailer.{ReliableHeader, append_crc32}
use sedsprintf_rs.Serialize.Trailer.Laws.{verify_crc32-append_crc32, length-reliable_bytes}
use sedsprintf_rs.Serialize.Compression.{compress_if_beneficial}
use sedsprintf_rs.Serialize.Compression.Laws.{Sound, compress_if_beneficial-Sound}
use sedsprintf_rs.Serialize.Bitmap.{
  build_endpoint_bitmap, bitmap_popcount, ep_bitmap_bits, ep_bitmap_bytes,
}
use sedsprintf_rs.Serialize.Bitmap.Bits.{AllBelow, contains}
use sedsprintf_rs.Serialize.Bitmap.RoundTrip.{marked}
use sedsprintf_rs.Serialize.Bitmap.Count.{popcount-build}
use sedsprintf_rs.Serialize.Header.{write_header, is_reliable_type_from_raw}
use sedsprintf_rs.Serialize.Header.RoundTrip.{
  FitsHeader, write_header_nonempty, read_header-write_header,
}
use sedsprintf_rs.Serialize.Encode.{
  packet_header, serialize_packet_inner, serialize_packet_with_reliable, serialize_packet,
  default_reliable,
}
use sedsprintf_rs.Serialize.Decode.{deserialize_packet, least_rest}
use sedsprintf_rs.Serialize.Decode.Parts.{
  normalized, length-build, data_type_from_raw-valid, read_endpoints-at, read_sender-at,
  optional_bytes, FitsOptional, write_optional-bytes, read_data_reliable-at, read_payload-at,
}

length-marked : (n i : ℕ) (p : ℕ → Bool) → length (marked n i p) ≤ n
unfolding marked
length-marked zero i p = omega arith
length-marked (suc n) i p = ground (arith, length-marked n (i + 1) p)

marked_nonempty : (n i j : ℕ) (p : ℕ → Bool) → i ≤ j → j < i + n → p j ≡ true → marked n i p ≢ []
unfolding marked
marked_nonempty zero i j p lo hi h = absurd (omega arith)
marked_nonempty (suc n) i j p lo hi h = elim (Bool-cases (p i)) [
  | inl e ↦ rw e (λ c. cc)
  | inr e ↦ rw e (marked_nonempty n (i + 1) j p (ground (arith, ap p, e)) (omega arith) h)
]

-- A packet that passes `validate`, whose numbers are those of the schema and of its field types.
pub record IsSerializable (s : Schema) (x : External) (pkt : Packet) : Type 0 where
  pub validated : validate s x pkt ≡ ok tt
  pub type_valid : pkt.ty ≤ max_value_data_type s
  pub type_fits : pkt.ty < u32_mod
  pub endpoints_valid : AllBelow (ep_bitmap_bits s) pkt.endpoints
  pub time_fits : IsU64 pkt.timestamp
  pub sender_utf8 : x.from_utf8 pkt.sender ≡ true
  pub fits_memory : ep_bitmap_bytes s + length pkt.sender + length pkt.payload + 10 < u64_mod

-- The NEP byte can hold the count of any set of endpoints.
abbrev pub FewEndpoints : Schema → Type 0
FewEndpoints s = ep_bitmap_bits s ≤ 255

normalized_nonempty :
    (s : Schema) (eps : List ℕ) → eps ≢ [] → AllBelow (ep_bitmap_bits s) eps → normalized s eps ≢ []
normalized_nonempty s [] h all = absurd (h refl)
normalized_nonempty s (e ∷ eps) h all =
    marked_nonempty (ep_bitmap_bits s) 0 e (contains (e ∷ eps)) (omega arith) (omega (arith, all.0))
      (ground arith)

-- The packet as the receiver sees it.
abbrev pub received : Schema → Packet → Packet
received s pkt = record pkt { endpoints = normalized s pkt.endpoints }

module _ (s : Schema) (x : External) (laws : ExternalLaws x) (pkt : Packet)
    (v : IsSerializable s x pkt) where
  pub sender-Sound : Sound x pkt.sender (compress_if_beneficial x pkt.sender)
  sender-Sound = compress_if_beneficial-Sound x laws pkt.sender

  pub payload-Sound : Sound x pkt.payload (compress_if_beneficial x pkt.payload)
  payload-Sound = compress_if_beneficial-Sound x laws pkt.payload

  pub wire_le : (bytes : List ℕ) (r : Bool × List ℕ) → Sound x bytes r → length r.1 ≤ length bytes
  wire_le bytes r (inl (e, w)) = omega (arith, ap length w)
  wire_le bytes r (inr (e, d, m, n, l)) = omega arith

  wire_same :
      (bytes : List ℕ) (r : Bool × List ℕ)
      → Sound x bytes r
      → r.0 ≡ false
      → length r.1 ≡ length bytes
  wire_same bytes r (inl (e, w)) h = ap length w
  wire_same bytes r (inr (e, d, m, n, l)) h = cc

  pub sizes : pkt.data_size ≡ length pkt.payload
  sizes = (validate_parts s x pkt v.validated).1

  pub header_fits : FitsHeader (packet_header s x pkt)
  unfolding packet_header
  header_fits = record {
    type_fits = omega (arith, v.type_fits);
    size_fits = omega (arith, sizes, v.fits_memory);
    time_fits = v.time_fits;
    sender_fits = omega (arith, v.fits_memory);
    wire_fits = omega (arith, v.fits_memory, wire_le pkt.sender _ sender-Sound);
    same_length = wire_same pkt.sender _ sender-Sound;
  }

  -- What the serializer writes before the checksum.
  unfoldable pub frame_body : Option ReliableHeader → List ℕ
  frame_body hdr =
      write_header (packet_header s x pkt)
      ++ (build_endpoint_bitmap s pkt.endpoints
          ++ ((compress_if_beneficial x pkt.sender).1
              ++ (optional_bytes s x hdr ++ ((compress_if_beneficial x pkt.payload).1 ++ []))))

  pub serialize_inner-body :
      (hdr : Option ReliableHeader)
      → FewEndpoints s
      → serialize_packet_inner s x pkt hdr ≡ some (append_crc32 x (frame_body hdr))
  unfolding serialize_packet_inner frame_body
  serialize_inner-body hdr few =
      let fits : ltb 255 (bitmap_popcount (build_endpoint_bitmap s pkt.endpoints)) ≡ false =
        ground (
          arith,
          popcount-build s pkt.endpoints v.endpoints_valid,
          length-marked (ep_bitmap_bits s) 0 (contains pkt.endpoints),
        ) in
      rw (fits, write_optional-bytes s x hdr) (simp (append_assoc, append-nil))

  -- What stands behind the header in the frame.
  abbrev pub behind : Option ReliableHeader → List ℕ
  behind hdr =
      build_endpoint_bitmap s pkt.endpoints
      ++ ((compress_if_beneficial x pkt.sender).1
          ++ (optional_bytes s x hdr ++ ((compress_if_beneficial x pkt.payload).1 ++ [])))

  pub reliable_of : Option ReliableHeader → Bool
  reliable_of none = false
  reliable_of (some hdr) = true

  pub reliable_of_fits :
      (hdr : Option ReliableHeader)
      → FitsOptional s x pkt.ty hdr
      → is_reliable_type s pkt.ty ≡ reliable_of hdr
  unfolding reliable_of
  reliable_of_fits none f = f
  reliable_of_fits (some hdr) f = f.0

  length-optional :
      (hdr : Option ReliableHeader)
      → length (optional_bytes s x hdr) ≡ (if reliable_of hdr then 9 else 0)
  unfolding reliable_of
  length-optional none = refl
  length-optional (some hdr) = length-reliable_bytes hdr

  pub length-behind :
      (hdr : Option ReliableHeader)
      → length (behind hdr)
        ≡ ep_bitmap_bytes s
          + length (compress_if_beneficial x pkt.sender).1
          + (if reliable_of hdr then 9 else 0)
          + length (compress_if_beneficial x pkt.payload).1
  length-behind hdr =
      rw
        (
          length-append,
          length-append,
          length-append,
          length-append,
          length-build s pkt.endpoints,
          length-optional hdr,
        )
        (omega arith)

  least_wire :
      (r : Bool × List ℕ) (n : ℕ)
      → Sound x pkt.payload r
      → n ≡ length pkt.payload
      → (if r.0 then 1 else n) ≤ length r.1
  least_wire r n (inl (e, w)) h = rw e (omega (arith, ap length w))
  least_wire r n (inr (e, d, m, k, l)) h = rw e l

  pub enough :
      (hdr : Option ReliableHeader) (passed : List ℕ)
      → ltb
          (remaining (at passed (behind hdr)))
          (least_rest s x (packet_header s x pkt) (reliable_of hdr))
        ≡ false
  unfolding least_rest packet_header
  enough hdr passed = ground (
    arith,
    remaining-at passed (behind hdr),
    length-behind hdr,
    least_wire (compress_if_beneficial x pkt.payload) pkt.data_size payload-Sound sizes,
  )

  pub enough_for_sender :
      (hdr : Option ReliableHeader) (passed : List ℕ)
      → ltb
          (remaining (at passed (behind hdr)))
          ((ep_bitmap_bytes s + (packet_header s x pkt).sender_wire_len) % u64_mod)
        ≡ false
  unfolding packet_header
  enough_for_sender hdr passed = ground (arith, remaining-at passed (behind hdr), length-behind hdr)

  deserialize_body :
      (hdr : Option ReliableHeader)
      → FitsOptional s x pkt.ty hdr
      → deserialize_packet s x (append_crc32 x (frame_body hdr)) ≡ ok (received s pkt)
  unfolding deserialize_packet is_reliable_type_from_raw frame_body packet_header
  deserialize_body hdr rel =
      let (nonempty, sized, checked) = validate_parts s x pkt v.validated in
      let h = packet_header s x pkt in
      rw
        (
          verify_crc32-append_crc32 x laws (frame_body hdr),
          write_header_nonempty h (behind hdr) header_fits,
          new-at (frame_body hdr),
          read_header-write_header h (behind hdr) header_fits,
          data_type_from_raw-valid s pkt.ty v.type_valid v.type_fits,
          reliable_of_fits hdr rel,
          enough hdr (write_header h),
          read_endpoints-at s x pkt.endpoints h.nep (write_header h) _ v.endpoints_valid refl,
          read_sender-at s x h pkt.sender (compress_if_beneficial x pkt.sender).1 _ _ sender-Sound
              v.sender_utf8 refl refl,
          read_data_reliable-at s x pkt.ty hdr _ _ rel,
          read_payload-at s x h pkt.payload (compress_if_beneficial x pkt.payload).1 _ payload-Sound
              sized,
        )
        (new_lem s x pkt.ty pkt.timestamp (normalized s pkt.endpoints) pkt.sender pkt.payload
            (normalized_nonempty s pkt.endpoints nonempty v.endpoints_valid) checked
          ∙ ap (λ n. ok (record (received s pkt) { data_size = n })) (sym sized))

-- Every serializable packet, with any header that its type calls for, becomes a frame, where the schema
-- has at most 255 endpoint bits, and the frame
-- deserializes to the packet, with its endpoints in ascending order and without repetition.
pub deserialize-serialize_inner :
    (s : Schema) (x : External) (laws : ExternalLaws x) (pkt : Packet) (hdr : Option ReliableHeader)
    → FewEndpoints s
    → IsSerializable s x pkt
    → FitsOptional s x pkt.ty hdr
    → (frame : List ℕ) × (serialize_packet_inner s x pkt hdr ≡ some frame)
      × (deserialize_packet s x frame ≡ ok (received s pkt))
deserialize-serialize_inner s x laws pkt hdr few v rel = (
  append_crc32 x (frame_body s x laws pkt v hdr),
  serialize_inner-body s x laws pkt v hdr few,
  deserialize_body s x laws pkt v hdr rel,
)

-- `serialize_packet`, which picks the header by the type, makes a frame of every serializable packet
-- of a schema with at most 255 endpoint bits, and the frame deserializes to the packet with its endpoints in ascending order and
-- without repetition.
pub deserialize-serialize :
    (s : Schema) (x : External) (laws : ExternalLaws x) (pkt : Packet)
    → FewEndpoints s
    → IsSerializable s x pkt
    → (frame : List ℕ) × (serialize_packet s x pkt ≡ some frame)
      × (deserialize_packet s x frame ≡ ok (received s pkt))
unfolding serialize_packet serialize_packet_with_reliable
deserialize-serialize s x laws pkt few v = elim (Bool-cases (is_reliable_type s pkt.ty)) [
  | inl e ↦ rw e (
      deserialize-serialize_inner s x laws pkt (some default_reliable) few v
        (e, record { seq_fits = omega arith; ack_fits = omega arith }, refl))
  | inr e ↦ rw e (deserialize-serialize_inner s x laws pkt none few v e)
]
