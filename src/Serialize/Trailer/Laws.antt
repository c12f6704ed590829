-- ===== src/Serialize/Trailer/Laws.antt =====
-- The checksum and the reliable header, written and read back.
use sedsprintf_rs.Prelude.{
  ℕ, ◌+◌, ◌-◌, ◌≡◌, refl, false, List, [], ◌∷◌, ◌++◌, append_assoc, length, length-append, ltb,
  IsU32, arith,
}
use sedsprintf_rs.Error.{ok, >>=-eq-ok}
use sedsprintf_rs.External.{External, ExternalLaws}
use sedsprintf_rs.Serialize.Reader.{to_le_bytes32, write_u32_le}
use sedsprintf_rs.Serialize.Reader.Laws.{
  at, drop-length, take-length, read_byte-at, read_u32_le-at, from_le_bytes32-to_le_bytes32,
}
use sedsprintf_rs.Serialize.Trailer.{
  ReliableHeader, write_reliable_header, read_reliable_header, split_crc32, append_crc32,
  verify_crc32,
}

pub length-to_le_bytes32 : (v : ℕ) → length (to_le_bytes32 v) ≡ 4
unfolding to_le_bytes32
length-to_le_bytes32 v = refl

pub split_crc32-append :
    (body : List ℕ) (crc : ℕ) → IsU32 crc → split_crc32 (body ++ to_le_bytes32 crc) ≡ ok (body, crc)
unfolding split_crc32
split_crc32-append body crc h =
    let whole : length (body ++ to_le_bytes32 crc) ≡ length body + 4 =
      omega (arith, length-append body (to_le_bytes32 crc), length-to_le_bytes32 crc) in
    let split : length (body ++ to_le_bytes32 crc) - 4 ≡ length body = omega (arith, whole) in
    let enough : ltb (length (body ++ to_le_bytes32 crc)) 4 ≡ false = ground (arith, whole) in
    rw (
      enough,
      split,
      take-length body (to_le_bytes32 crc),
      drop-length body (to_le_bytes32 crc),
      from_le_bytes32-to_le_bytes32 crc h,
    )

module _ (x : External) where
  -- A frame that was given its checksum passes the check, which takes the checksum off.
  pub verify_crc32-append_crc32 :
      (laws : ExternalLaws x) (body : List ℕ) → verify_crc32 x (append_crc32 x body) ≡ ok body
  unfolding verify_crc32 append_crc32
  verify_crc32-append_crc32 laws body =
      rw (split_crc32-append body (x.crc32 body) (laws.crc32-IsU32 body)) (ground arith)

  -- A frame that passes the check splits into what the check returns and its checksum.
  pub verify_crc32_sound :
      (buf body : List ℕ)
      → verify_crc32 x buf ≡ ok body
      → (split_crc32 buf ≡ ok (body, x.crc32 body))
  unfolding verify_crc32
  verify_crc32_sound buf body e =
      let ((front, expected), split, rest) = >>=-eq-ok (split_crc32 buf) _ e in
      ground (arith, split, rest)

pub record FitsReliable (h : ReliableHeader) : Type 0 where
  pub seq_fits : IsU32 h.seq
  pub ack_fits : IsU32 h.ack

abbrev pub reliable_bytes : ReliableHeader → List ℕ
reliable_bytes h = (h.flags ∷ []) ++ (to_le_bytes32 h.seq ++ to_le_bytes32 h.ack)

pub write_reliable_header-bytes :
    (h : ReliableHeader) (out : List ℕ) → write_reliable_header h out ≡ out ++ reliable_bytes h
unfolding write_reliable_header write_u32_le
write_reliable_header-bytes h out = simp append_assoc

-- A reliable header with `u32` fields is read back, whatever follows it.
pub read_reliable_header-at :
    (h : ReliableHeader) (passed rest : List ℕ)
    → FitsReliable h
    → read_reliable_header (at passed (reliable_bytes h ++ rest))
      ≡ ok (h, at (passed ++ reliable_bytes h) rest)
unfolding read_reliable_header
read_reliable_header-at h passed rest fits =
    rw
      (
        append_assoc (to_le_bytes32 h.seq) (to_le_bytes32 h.ack) rest,
        read_byte-at passed h.flags,
        read_u32_le-at (passed ++ h.flags ∷ []) h.seq _ fits.seq_fits,
        read_u32_le-at _ h.ack rest fits.ack_fits,
      )
      (simp append_assoc)

pub length-reliable_bytes : (h : ReliableHeader) → length (reliable_bytes h) ≡ 9
unfolding to_le_bytes32
length-reliable_bytes h = refl
