-- ===== src/Serialize/Header/RoundTrip.antt =====
-- Reading a header back.
use sedsprintf_rs.Prelude.{
  ℕ, ◌+◌, ◌≡◌, refl, Bool, true, false, not, List, [], ◌∷◌, ◌++◌, append_assoc, length,
  length-append, is_empty, ltb, if◌then◌else◌, ◌==◌, bit_and, IsU64, arith,
}
use sedsprintf_rs.Error.{ok}
use sedsprintf_rs.Serialize.Reader.Laws.{at, read_byte-at}
use sedsprintf_rs.Serialize.Varint.{write_uleb128, uleb128_size}
use sedsprintf_rs.Serialize.Varint.Encoding.{uleb128, write_uleb128-uleb128, uleb128_size-length}
use sedsprintf_rs.Serialize.Varint.RoundTrip.{read_uleb128-at}
use sedsprintf_rs.Serialize.Header.{FrameHeader, frame_flags, write_header, read_header}

-- The numbers of a header are `u64` values, and an uncompressed sender has its own length on the wire.
pub record FitsHeader (h : FrameHeader) : Type 0 where
  pub type_fits : IsU64 h.ty_v
  pub size_fits : IsU64 h.dsz
  pub time_fits : IsU64 h.ts_v
  pub sender_fits : IsU64 h.slen
  pub wire_fits : IsU64 h.sender_wire_len
  pub same_length : h.sender_is_compressed ≡ false → h.sender_wire_len ≡ h.slen

flags_payload : (p c : Bool) → not (bit_and (frame_flags p c) 0x01 == 0) ≡ p
unfolding frame_flags
flags_payload true true = refl
flags_payload true false = refl
flags_payload false true = refl
flags_payload false false = refl

flags_sender : (p c : Bool) → not (bit_and (frame_flags p c) 0x02 == 0) ≡ c
unfolding frame_flags
flags_sender true true = refl
flags_sender true false = refl
flags_sender false true = refl
flags_sender false false = refl

module _ (p : Bool) (nep ty dsz ts slen : ℕ) where
  -- Flags, count, and the four numbers that every header has.
  abbrev front : Bool → List ℕ
  front c =
      ((((frame_flags p c ∷ nep ∷ []) ++ uleb128 9 ty) ++ uleb128 9 dsz) ++ uleb128 9 ts)
      ++ uleb128 9 slen

  abbrev front_then : Bool → List ℕ → List ℕ
  front_then c rest =
      frame_flags p c
      ∷ nep
      ∷ (uleb128 9 ty ++ (uleb128 9 dsz ++ (uleb128 9 ts ++ (uleb128 9 slen ++ rest))))

  front-append : (c : Bool) (rest : List ℕ) → front c ++ rest ≡ front_then c rest
  front-append c rest = simp append_assoc

  abbrev header : Bool → ℕ → FrameHeader
  header c wire_len = record {
    payload_is_compressed = p;
    sender_is_compressed = c;
    nep = nep;
    ty_v = ty;
    dsz = dsz;
    ts_v = ts;
    slen = slen;
    sender_wire_len = wire_len;
  }

  module _ (ty_fits : IsU64 ty) (dsz_fits : IsU64 dsz) (ts_fits : IsU64 ts)
      (slen_fits : IsU64 slen) where
    write_front :
        (c : Bool)
        → write_uleb128 slen
            (write_uleb128 ts (write_uleb128 dsz (write_uleb128 ty (frame_flags p c ∷ nep ∷ []))))
          ≡ front c
    write_front c = rw (
      write_uleb128-uleb128 ty (frame_flags p c ∷ nep ∷ []) ty_fits,
      write_uleb128-uleb128 dsz _ dsz_fits,
      write_uleb128-uleb128 ts _ ts_fits,
      write_uleb128-uleb128 slen _ slen_fits,
    )

    header_round_trip :
        (c : Bool) (wire_len : ℕ) (rest : List ℕ)
        → IsU64 wire_len
        → (c ≡ false → wire_len ≡ slen)
        → read_header (at [] (write_header (header c wire_len) ++ rest))
          ≡ ok (header c wire_len, at (write_header (header c wire_len)) rest)
    unfolding write_header read_header
    header_round_trip true wire_len rest fits same =
        rw
          (
            write_front true,
            write_uleb128-uleb128 wire_len (front true) fits,
            append_assoc (front true) (uleb128 9 wire_len) rest,
            front-append true (uleb128 9 wire_len ++ rest),
          )
          (rw
            (
              read_byte-at [] (frame_flags p true),
              read_byte-at (frame_flags p true ∷ []) nep,
              read_uleb128-at ty (frame_flags p true ∷ nep ∷ []) _ ty_fits,
              read_uleb128-at dsz _ _ dsz_fits,
              read_uleb128-at ts _ _ ts_fits,
              read_uleb128-at slen _ _ slen_fits,
              flags_sender p true,
              read_uleb128-at wire_len _ _ fits,
              flags_payload p true,
            )
            (simp append_assoc))
    header_round_trip false wire_len rest fits same =
        rw (same refl, write_front false, front-append false rest)
          (rw
            (
              read_byte-at [] (frame_flags p false),
              read_byte-at (frame_flags p false ∷ []) nep,
              read_uleb128-at ty (frame_flags p false ∷ nep ∷ []) _ ty_fits,
              read_uleb128-at dsz _ _ dsz_fits,
              read_uleb128-at ts _ _ ts_fits,
              read_uleb128-at slen _ _ slen_fits,
              flags_sender p false,
              flags_payload p false,
            )
            (simp append_assoc))

    header_nonempty :
        (c : Bool) (wire_len : ℕ) (rest : List ℕ)
        → IsU64 wire_len
        → is_empty (write_header (header c wire_len) ++ rest) ≡ false
    unfolding write_header
    header_nonempty true wire_len rest fits =
        rw (write_front true, write_uleb128-uleb128 wire_len (front true) fits)
    header_nonempty false wire_len rest fits = rw (write_front false)

header_two :
    (p : Bool) (nep ty dsz ts slen : ℕ) (c : Bool) (wire_len : ℕ) (rest : List ℕ)
    → IsU64 ty
    → IsU64 dsz
    → IsU64 ts
    → IsU64 slen
    → IsU64 wire_len
    → ltb (length (write_header (header p nep ty dsz ts slen c wire_len) ++ rest)) 2 ≡ false
unfolding write_header
header_two p nep ty dsz ts slen true wire_len rest a b c d fits =
    rw (write_front p nep ty dsz ts slen a b c d true, write_uleb128-uleb128 wire_len _ fits)
      (ground arith)
header_two p nep ty dsz ts slen false wire_len rest a b c d fits =
    rw (write_front p nep ty dsz ts slen a b c d false) (ground arith)

abbrev size_of : FrameHeader → ℕ
size_of h =
    2
    + uleb128_size h.ty_v
    + uleb128_size h.dsz
    + uleb128_size h.ts_v
    + uleb128_size h.slen
    + (if h.sender_is_compressed then uleb128_size h.sender_wire_len else 0)

length-header :
    (p : Bool) (nep ty dsz ts slen : ℕ) (c : Bool) (wire_len : ℕ)
    → IsU64 ty
    → IsU64 dsz
    → IsU64 ts
    → IsU64 slen
    → IsU64 wire_len
    → length (write_header (header p nep ty dsz ts slen c wire_len))
      ≡ size_of (header p nep ty dsz ts slen c wire_len)
unfolding write_header
length-header p nep ty dsz ts slen true wire_len a b c d fits =
    rw
      (
        write_front p nep ty dsz ts slen a b c d true,
        write_uleb128-uleb128 wire_len _ fits,
        uleb128_size-length ty a,
        uleb128_size-length dsz b,
        uleb128_size-length ts c,
        uleb128_size-length slen d,
        uleb128_size-length wire_len fits,
      )
      (simp length-append (omega arith))
length-header p nep ty dsz ts slen false wire_len a b c d fits =
    rw
      (
        write_front p nep ty dsz ts slen a b c d false,
        uleb128_size-length ty a,
        uleb128_size-length dsz b,
        uleb128_size-length ts c,
        uleb128_size-length slen d,
      )
      (simp length-append (omega arith))

pub length-write_header : (h : FrameHeader) → FitsHeader h → length (write_header h) ≡ size_of h
length-write_header h fits =
    length-header h.payload_is_compressed h.nep h.ty_v h.dsz h.ts_v h.slen h.sender_is_compressed
      h.sender_wire_len fits.type_fits fits.size_fits fits.time_fits fits.sender_fits fits.wire_fits

-- A header has two bytes at least.
pub write_header_two :
    (h : FrameHeader) (rest : List ℕ)
    → FitsHeader h
    → ltb (length (write_header h ++ rest)) 2 ≡ false
write_header_two h rest fits =
    header_two h.payload_is_compressed h.nep h.ty_v h.dsz h.ts_v h.slen h.sender_is_compressed
      h.sender_wire_len rest fits.type_fits fits.size_fits fits.time_fits fits.sender_fits
      fits.wire_fits

pub write_header_nonempty :
    (h : FrameHeader) (rest : List ℕ) → FitsHeader h → is_empty (write_header h ++ rest) ≡ false
write_header_nonempty h rest fits =
    header_nonempty h.payload_is_compressed h.nep h.ty_v h.dsz h.ts_v h.slen fits.type_fits
      fits.size_fits fits.time_fits fits.sender_fits h.sender_is_compressed h.sender_wire_len rest
      fits.wire_fits

-- A header that was written is read back field by field, and the reader stands right behind it.
pub read_header-write_header :
    (h : FrameHeader) (rest : List ℕ)
    → FitsHeader h
    → read_header (at [] (write_header h ++ rest)) ≡ ok (h, at (write_header h) rest)
read_header-write_header h rest fits =
    header_round_trip h.payload_is_compressed h.nep h.ty_v h.dsz h.ts_v h.slen fits.type_fits
      fits.size_fits fits.time_fits fits.sender_fits h.sender_is_compressed h.sender_wire_len rest
      fits.wire_fits fits.same_length
