-- ===== src/Serialize/Decode/Rewrite.antt =====
-- Rewriting the reliable header of a serialized frame in place.
use sedsprintf_rs.Prelude.{
  ℕ, ◌+◌, ◌-◌, ◌≡◌, refl, sym, ap, ◌∙◌, true, false, some, List, [], ◌∷◌, ◌++◌, append-nil,
  append_assoc, length, length-append, ltb, drop, arith,
}
use sedsprintf_rs.Error.{ok}
use sedsprintf_rs.Schema.{Schema}
use sedsprintf_rs.External.{External, ExternalLaws}
use sedsprintf_rs.Packet.{Packet}
use sedsprintf_rs.Serialize.Reader.{to_le_bytes32}
use sedsprintf_rs.Serialize.Reader.Laws.{at, new-at, drop-length, take-length, read_bytes-at-length}
use sedsprintf_rs.Serialize.Trailer.{ReliableHeader, append_crc32}
use sedsprintf_rs.Serialize.Trailer.Laws.{
  length-reliable_bytes, reliable_bytes, length-to_le_bytes32,
}
use sedsprintf_rs.Serialize.Compression.{compress_if_beneficial}
use sedsprintf_rs.Serialize.Bitmap.{build_endpoint_bitmap, ep_bitmap_bytes}
use sedsprintf_rs.Serialize.Header.{write_header}
use sedsprintf_rs.Serialize.Header.RoundTrip.{write_header_two, read_header-write_header}
use sedsprintf_rs.Serialize.Encode.{packet_header, serialize_packet_with_reliable}
use sedsprintf_rs.Serialize.Decode.{overwrite, reliable_header_offset, rewrite_reliable_header}
use sedsprintf_rs.Serialize.Decode.Parts.{data_type_from_raw-valid, length-build, FitsOptional}
use sedsprintf_rs.Serialize.Decode.RoundTrip.{
  IsSerializable, FewEndpoints, header_fits, frame_body, behind, serialize_inner-body,
  enough_for_sender,
}

-- Writing over a part of the buffer replaces exactly that part.
overwrite_at :
    (front old new rest : List ℕ) (at : ℕ)
    → at ≡ length front
    → length new ≡ length old
    → overwrite (front ++ (old ++ rest)) at new ≡ front ++ (new ++ rest)
overwrite_at front old new rest at e same =
    let behind_old : drop (length front + length new) (front ++ (old ++ rest)) ≡ rest =
      rw (same, ← length-append front old, ← append_assoc front old rest)
        (drop-length (front ++ old) rest) in
    rw (e, take-length front (old ++ rest), behind_old)

-- The three writes of a header, one after the other.
three_writes :
    (front : List ℕ) (old new : ReliableHeader) (rest : List ℕ)
    → overwrite
        (overwrite
          (overwrite (front ++ (reliable_bytes old ++ rest)) (length front) (new.flags ∷ []))
          (length front + 1)
          (to_le_bytes32 new.seq))
        (length front + 5)
        (to_le_bytes32 new.ack)
      ≡ front ++ (reliable_bytes new ++ rest)
three_writes front old new rest =
    let flags = new.flags ∷ [] in
    let seq = to_le_bytes32 new.seq in
    let seqs : length seq ≡ length (to_le_bytes32 old.seq) =
      omega (arith, length-to_le_bytes32 new.seq, length-to_le_bytes32 old.seq) in
    let acks : length (to_le_bytes32 new.ack) ≡ length (to_le_bytes32 old.ack) =
      omega (arith, length-to_le_bytes32 new.ack, length-to_le_bytes32 old.ack) in
    let after_ack = to_le_bytes32 old.ack ++ rest in
    rw
      (
        append_assoc (to_le_bytes32 old.seq) (to_le_bytes32 old.ack) rest,
        overwrite_at front (old.flags ∷ []) flags (to_le_bytes32 old.seq ++ after_ack)
            (length front) refl refl,
        ← append_assoc front flags (to_le_bytes32 old.seq ++ after_ack),
        overwrite_at (front ++ flags) (to_le_bytes32 old.seq) seq after_ack (length front + 1)
            (sym (length-append front flags)) seqs,
        ← append_assoc (front ++ flags) seq after_ack,
        overwrite_at ((front ++ flags) ++ seq) (to_le_bytes32 old.ack) (to_le_bytes32 new.ack) rest
            (length front + 5)
            (rw
              (
                length-append (front ++ flags) seq,
                length-append front flags,
                length-to_le_bytes32 new.seq,
              )
              (omega arith))
            acks,
      )
      (simp append_assoc)

module _ (s : Schema) (x : External) (laws : ExternalLaws x) (pkt : Packet)
    (v : IsSerializable s x pkt) where
  -- The frame up to the reliable header.
  abbrev front : List ℕ
  front =
      (write_header (packet_header s x pkt) ++ build_endpoint_bitmap s pkt.endpoints)
      ++ (compress_if_beneficial x pkt.sender).1

  abbrev payload_wire : List ℕ
  payload_wire = (compress_if_beneficial x pkt.payload).1

  body-front :
      (hdr : ReliableHeader)
      → frame_body s x laws pkt v (some hdr) ≡ front ++ (reliable_bytes hdr ++ payload_wire)
  unfolding frame_body
  body-front hdr = simp (append_assoc, append-nil)

  offset-frame :
      (hdr : ReliableHeader)
      → FitsOptional s x pkt.ty (some hdr)
      → reliable_header_offset s x (append_crc32 x (frame_body s x laws pkt v (some hdr)))
        ≡ ok (some (length front))
  unfolding reliable_header_offset append_crc32 frame_body packet_header
  offset-frame hdr rel =
      let body = frame_body s x laws pkt v (some hdr) in
      let trailer = to_le_bytes32 (x.crc32 body) in
      let whole : length (body ++ trailer) ≡ length body + 4 =
        omega (arith, length-append body trailer, length-to_le_bytes32 (x.crc32 body)) in
      let two : ltb (length body) 2 ≡ false =
        write_header_two (packet_header s x pkt) (behind s x laws pkt v (some hdr))
          (header_fits s x laws pkt v) in
      let long : ltb (length (body ++ trailer)) (4 + 1) ≡ false = ground (arith, whole, two) in
      let cut : length (body ++ trailer) - 4 ≡ length body = omega (arith, whole) in
      let h = packet_header s x pkt in
      rw (
        long,
        cut,
        take-length body trailer,
        new-at body,
        read_header-write_header h (behind s x laws pkt v (some hdr)) (header_fits s x laws pkt v),
        enough_for_sender s x laws pkt v (some hdr) (write_header h),
        read_bytes-at-length (ep_bitmap_bytes s) (write_header h)
            (build_endpoint_bitmap s pkt.endpoints) _ (sym (length-build s pkt.endpoints)),
        read_bytes-at-length h.sender_wire_len _ (compress_if_beneficial x pkt.sender).1 _ refl,
        data_type_from_raw-valid s pkt.ty v.type_valid v.type_fits,
        rel.0,
      )

  payload_end :
      (hdr : ReliableHeader)
      → length (frame_body s x laws pkt v (some hdr)) ≡ length front + 9 + length payload_wire
  payload_end hdr =
      rw
        (
          body-front hdr,
          length-append front (reliable_bytes hdr ++ payload_wire),
          length-append (reliable_bytes hdr) payload_wire,
          length-reliable_bytes hdr,
        )
        (omega arith)

  three_header_writes :
      (hdr new : ReliableHeader) (trailer : List ℕ)
      → overwrite
          (overwrite
            (overwrite
              (frame_body s x laws pkt v (some hdr) ++ trailer)
              (length front)
              (new.flags ∷ []))
            (length front + 1)
            (to_le_bytes32 new.seq))
          (length front + 5)
          (to_le_bytes32 new.ack)
        ≡ frame_body s x laws pkt v (some new) ++ trailer
  three_header_writes hdr new trailer =
      rw
        (
          body-front hdr,
          body-front new,
          append_assoc front (reliable_bytes hdr ++ payload_wire) trailer,
          append_assoc (reliable_bytes hdr) payload_wire trailer,
        )
        (three_writes front hdr new (payload_wire ++ trailer) ∙ simp append_assoc)

  -- The checksum of the old frame is replaced by that of the new one.
  replaced_crc :
      (body trailer crc : List ℕ)
      → length crc ≡ length trailer
      → body ++ (crc ++ drop (length body + length crc) (body ++ trailer)) ≡ body ++ crc
  replaced_crc body trailer crc same =
      let gone : drop (length body + length crc) (body ++ trailer) ≡ [] =
        rw (same, ← length-append body trailer)
          (ap (drop (length (body ++ trailer))) (sym (append-nil (body ++ trailer)))
            ∙ drop-length (body ++ trailer) []) in
      rw (gone) (ap (λ rest. body ++ rest) (append-nil crc))

  rewrite_frame :
      (hdr : ReliableHeader) (flags seq ack : ℕ)
      → FitsOptional s x pkt.ty (some hdr)
      → rewrite_reliable_header s x
          (append_crc32 x (frame_body s x laws pkt v (some hdr)))
          flags
          seq
          ack
        ≡ ok (
          true,
          append_crc32 x
              (frame_body s x laws pkt v (some (record { flags = flags; seq = seq; ack = ack }))),
        )
  unfolding rewrite_reliable_header append_crc32
  rewrite_frame hdr flags seq ack rel =
      let body = frame_body s x laws pkt v (some hdr) in
      let trailer = to_le_bytes32 (x.crc32 body) in
      let new = record hdr { flags = flags; seq = seq; ack = ack } in
      let body' = frame_body s x laws pkt v (some new) in
      let whole : length (body ++ trailer) - 4 ≡ length body =
        omega (arith, length-append body trailer, length-to_le_bytes32 (x.crc32 body)) in
      let room : ltb (length body - length front) 9 ≡ false = ground (arith, payload_end hdr) in
      let same : length body ≡ length body' = omega (arith, payload_end hdr, payload_end new) in
      let crcs : length (to_le_bytes32 (x.crc32 body')) ≡ length trailer =
        omega (arith, length-to_le_bytes32 (x.crc32 body'), length-to_le_bytes32 (x.crc32 body)) in
      rw
        (
          offset-frame hdr rel,
          whole,
          room,
          three_header_writes hdr new trailer,
          same,
          take-length body' trailer,
        )
        (ap (λ buf. ok (true, buf))
          (replaced_crc body' trailer (to_le_bytes32 (x.crc32 body')) crcs))

-- Rewriting the reliable header of a frame gives the frame that the packet serializes to with the new
-- header: the header is replaced, the checksum is that of the new bytes, and nothing else changes.
pub rewrite_reliable_header-serialize :
    (s : Schema) (x : External) (laws : ExternalLaws x) (pkt : Packet) (hdr : ReliableHeader)
    (flags seq ack : ℕ)
    → FewEndpoints s
    → IsSerializable s x pkt
    → FitsOptional s x pkt.ty (some hdr)
    → (old new : List ℕ) × (serialize_packet_with_reliable s x pkt hdr ≡ some old)
      × (serialize_packet_with_reliable s x pkt (record { flags = flags; seq = seq; ack = ack })
          ≡ some new)
      × (rewrite_reliable_header s x old flags seq ack ≡ ok (true, new))
unfolding serialize_packet_with_reliable
rewrite_reliable_header-serialize s x laws pkt hdr flags seq ack few v rel =
    let new = record hdr { flags = flags; seq = seq; ack = ack } in
    (
      append_crc32 x (frame_body s x laws pkt v (some hdr)),
      append_crc32 x (frame_body s x laws pkt v (some new)),
      (serialize_inner-body s x laws pkt v (some hdr) few),
      (serialize_inner-body s x laws pkt v (some new) few),
      rewrite_frame s x laws pkt v hdr flags seq ack rel,
    )
