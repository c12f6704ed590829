-- ===== src/Serialize/Decode/Parts.antt =====
-- Each part of a frame, read where the serializer has written it.
use sedsprintf_rs.Prelude.{
  ℕ, ◌≤◌, ◌<◌, ◌≡◌, sym, Bool, true, false, inl, inr, Option, none, some, List, [], ◌++◌,
  append-nil, length, u32_mod, arith,
}
use sedsprintf_rs.Error.{ok}
use sedsprintf_rs.Schema.{Schema, max_value_data_type, is_reliable_type, try_enum_from_u32}
use sedsprintf_rs.External.{External}
use sedsprintf_rs.Serialize.Reader.Laws.{at, remaining-at, read_bytes-at, read_bytes-at-length}
use sedsprintf_rs.Serialize.Trailer.{ReliableHeader}
use sedsprintf_rs.Serialize.Trailer.Laws.{
  FitsReliable, reliable_bytes, write_reliable_header-bytes, read_reliable_header-at,
}
use sedsprintf_rs.Serialize.Compression.Laws.{Sound}
use sedsprintf_rs.Serialize.Bitmap.{
  build_endpoint_bitmap, bitmap_popcount, ep_bitmap_bits, ep_bitmap_bytes,
}
use sedsprintf_rs.Serialize.Bitmap.Bits.{AllBelow, contains, build_loop_shape}
use sedsprintf_rs.Serialize.Bitmap.RoundTrip.{marked, expand-build_marked}
use sedsprintf_rs.Serialize.Bitmap.Count.{popcount-build}
use sedsprintf_rs.Serialize.Header.{FrameHeader, data_type_from_raw, decode_sender_name}
use sedsprintf_rs.Serialize.Encode.{write_optional}
use sedsprintf_rs.Serialize.Decode.{
  read_endpoints, read_sender, read_data_reliable, read_payload, is_ack_only,
}

-- The endpoints that a frame carries: those of the packet, each once, in ascending order.
abbrev pub normalized : Schema → List ℕ → List ℕ
normalized s eps = marked (ep_bitmap_bits s) 0 (contains eps)

pub length-build :
    (s : Schema) (eps : List ℕ) → length (build_endpoint_bitmap s eps) ≡ ep_bitmap_bytes s
unfolding build_endpoint_bitmap
length-build s eps = (build_loop_shape (ep_bitmap_bits s) (ep_bitmap_bytes s) eps).1

pub data_type_from_raw-valid :
    (s : Schema) (ty : ℕ)
    → ty ≤ max_value_data_type s
    → ty < u32_mod
    → data_type_from_raw s ty ≡ ok ty
unfolding data_type_from_raw try_enum_from_u32
data_type_from_raw-valid s ty h fits = ground arith

module _ (s : Schema) (x : External) where
  pub read_endpoints-at :
      (eps : List ℕ) (nep : ℕ) (passed rest : List ℕ)
      → AllBelow (ep_bitmap_bits s) eps
      → nep ≡ bitmap_popcount (build_endpoint_bitmap s eps)
      → read_endpoints s x nep (at passed (build_endpoint_bitmap s eps ++ rest))
        ≡ ok (normalized s eps, at (passed ++ build_endpoint_bitmap s eps) rest)
  unfolding read_endpoints
  read_endpoints-at eps nep passed rest all e =
      rw
        (
          read_bytes-at-length (ep_bitmap_bytes s) passed (build_endpoint_bitmap s eps) rest
              (sym (length-build s eps)),
          expand-build_marked s eps all,
        )
        (ground (arith, popcount-build s eps all))

  decode_sender-Sound :
      (sender wire : List ℕ) (c : Bool)
      → Sound x sender (c, wire)
      → x.from_utf8 sender ≡ true
      → decode_sender_name x wire c (length sender) ≡ ok sender
  unfolding decode_sender_name
  decode_sender-Sound sender wire true (inl (e, w)) utf8 = cc
  decode_sender-Sound sender wire true (inr (e, d, m, n, l)) utf8 = rw (d, utf8)
  decode_sender-Sound sender wire false (inl (e, w)) utf8 = rw (w, utf8)
  decode_sender-Sound sender wire false (inr (e, d, m, n, l)) utf8 = cc

  pub read_sender-at :
      (h : FrameHeader) (sender wire passed rest : List ℕ)
      → Sound x sender (h.sender_is_compressed, wire)
      → x.from_utf8 sender ≡ true
      → h.sender_wire_len ≡ length wire
      → h.slen ≡ length sender
      → read_sender s x h (at passed (wire ++ rest)) ≡ ok (sender, at (passed ++ wire) rest)
  unfolding read_sender
  read_sender-at h sender wire passed rest sound utf8 w l = rw (
    read_bytes-at-length h.sender_wire_len passed wire rest w,
    l,
    decode_sender-Sound sender wire h.sender_is_compressed sound utf8,
  )

  -- The reliable header of a type, as bytes: none for a type that is not reliable.
  abbrev pub optional_bytes : Option ReliableHeader → List ℕ
  optional_bytes none = []
  optional_bytes (some hdr) = reliable_bytes hdr

  -- A header is given exactly for the reliable types, fits its fields, and is not an acknowledgement.
  abbrev pub FitsOptional : ℕ → Option ReliableHeader → Type 0
  FitsOptional ty none = is_reliable_type s ty ≡ false
  FitsOptional ty (some hdr) =
      (is_reliable_type s ty ≡ true) × FitsReliable hdr × (is_ack_only hdr ≡ false)

  pub write_optional-bytes :
      (hdr : Option ReliableHeader) (out : List ℕ)
      → write_optional hdr out ≡ out ++ optional_bytes hdr
  unfolding write_optional
  write_optional-bytes none out = sym (append-nil out)
  write_optional-bytes (some hdr) out = write_reliable_header-bytes hdr out

  pub read_data_reliable-at :
      (ty : ℕ) (hdr : Option ReliableHeader) (passed rest : List ℕ)
      → FitsOptional ty hdr
      → read_data_reliable s x ty (at passed (optional_bytes hdr ++ rest))
        ≡ ok (hdr, at (passed ++ optional_bytes hdr) rest)
  unfolding read_data_reliable
  read_data_reliable-at ty none passed rest fits = rw (fits, append-nil passed)
  read_data_reliable-at ty (some hdr) passed rest (rel, fits, data_frame) =
      rw (rel, read_reliable_header-at hdr passed rest fits, data_frame)

  pub read_payload-at :
      (h : FrameHeader) (payload wire passed : List ℕ)
      → Sound x payload (h.payload_is_compressed, wire)
      → h.dsz ≡ length payload
      → read_payload s x h (at passed (wire ++ [])) ≡ ok payload
  unfolding read_payload
  read_payload-at h payload wire passed sound l = ground (
    arith,
    sound,
    read_bytes-at passed wire [],
    remaining-at passed (wire ++ []),
    append-nil wire,
  )
