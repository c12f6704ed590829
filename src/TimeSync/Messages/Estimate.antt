-- ===== src/TimeSync/Messages/Estimate.antt =====
-- How far the estimates are from the truth.
use sedsprintf_rs.Prelude.{ℕ, ◌+◌, ◌-◌, ◌*◌, ◌/◌, ◌≤◌, ◌<◌, ◌≡◌, ap, u64_mod, arith}
use sedsprintf_rs.Prelude.Int.{
  ℤ, pos, pos_part, neg_part, ◌+ℤ◌, ◌-ℤ◌, ◌≤ℤ◌, int_laws, +ℤ_parts, +ℤ_bounds, -ℤ_bounds,
}
use sedsprintf_rs.Prelude.Signed.{quot, quot_parts, wrap_signed, wrap_signed_same}
use sedsprintf_rs.TimeSync.Messages.{compute_offset_delay, compute_network_time_sample, delay_of}

-- The moments of an exchange, all below 2 ^ 61 milliseconds, on the clock of the requester: it sends, the responder receives, the
-- responder sends, and the requester receives. The responder's clock is `offset` ahead.
abbrev pub Exchange : (l1 l2 l3 l4 : ℕ) (offset : ℤ) (t2 t3 : ℕ) → Type 0
Exchange l1 l2 l3 l4 offset t2 t3 =
    (l1 ≤ l2)
    × (l2 ≤ l3)
    × (l3 ≤ l4)
    × (l4 < 2305843009213693952)
    × (t3 < 2305843009213693952)
    × (pos t2 ≡ pos l2 +ℤ offset)
    × (pos t3 ≡ pos l3 +ℤ offset)

ahead : (l t : ℕ) (offset : ℤ) → pos t ≡ pos l +ℤ offset → t + neg_part offset ≡ l + pos_part offset
ahead l t offset e = omega (arith, +ℤ_parts (pos l) offset, ap pos_part e, ap neg_part e)

delay_of_pos : (a : ℤ) (d : ℕ) → a ≡ pos d → d < u64_mod → delay_of a ≡ d
unfolding delay_of
delay_of_pos a d e small = rw e (omega (arith, small))

-- As long as the moment of arrival on the requester's clock and that of the response on the responder's
-- are below 2 ^ 61, the estimated delay is the time on the way, and the estimated offset is within half of
-- it (and the rounding) of the true one.
pub compute_offset_delay_lem :
    (l1 l2 l3 l4 : ℕ) (offset : ℤ) (t2 t3 : ℕ)
    → Exchange l1 l2 l3 l4 offset t2 t3
    → let sample = compute_offset_delay l1 t2 t3 l4 in
      let way = l2 - l1 + (l4 - l3) in
      (sample.delay_ms ≡ way)
      × (sample.offset_ms +ℤ sample.offset_ms ≤ℤ offset +ℤ offset +ℤ pos (way + 1))
      × (offset +ℤ offset ≤ℤ sample.offset_ms +ℤ sample.offset_ms +ℤ pos (way + 1))
unfolding compute_offset_delay
compute_offset_delay_lem l1 l2 l3 l4 offset t2 t3 (o1, o2, o3, small, small3, at2, at3) =
    let p2 = ahead l2 t2 offset at2 in
    let p3 = ahead l3 t3 offset at3 in
    let way = l2 - l1 + (l4 - l3) in
    let whole : pos l4 -ℤ pos l1 -ℤ (pos t3 -ℤ pos t2) ≡ pos way = grind int_laws in
    let sum = pos t2 -ℤ pos l1 +ℤ (pos t3 -ℤ pos l4) in
    let (b1, b2) = -ℤ_bounds (pos t2) (pos l1) in
    let (b3, b4) = -ℤ_bounds (pos t3) (pos l4) in
    let (b5, b6) = +ℤ_bounds (pos t2 -ℤ pos l1) (pos t3 -ℤ pos l4) in
    let (q1, q2) = quot_parts sum 2 in
    let fits : wrap_signed u64_mod (quot sum 2) ≡ quot sum 2 =
      wrap_signed_same u64_mod (quot sum 2) (omega arith) (omega arith) in
    (delay_of_pos _ way whole (omega arith), rw fits (omega int_laws), rw fits (omega int_laws))

-- The estimated moment, on the responder's clock when the response arrives, is within half of the time
-- on the way (and the rounding) of the true one.
pub compute_network_time_sample_lem :
    (l1 l2 l3 l4 : ℕ) (offset : ℤ) (t2 t3 now : ℕ)
    → Exchange l1 l2 l3 l4 offset t2 t3
    → pos now ≡ pos l4 +ℤ offset
    → let (estimate, one_way) = compute_network_time_sample l1 t2 t3 l4 in
      let way = l2 - l1 + (l4 - l3) in
      (one_way ≡ way / 2) × (2 * estimate ≤ 2 * now + way) × (2 * now ≤ 2 * estimate + way + 1)
unfolding compute_network_time_sample
compute_network_time_sample_lem l1 l2 l3 l4 offset t2 t3 now (o1, o2, o3, small, small3, at2, at3)
      at4 =
    let p2 = ahead l2 t2 offset at2 in
    let p3 = ahead l3 t3 offset at3 in
    let p4 = ahead l4 now offset at4 in (ground arith, ground arith, ground arith)
