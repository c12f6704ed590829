-- ===== src/TimeSync/Messages.antt =====
-- The packets of time synchronization: the builders and the decoders of src/timesync.rs, and the
-- estimates of the clock's offset from the moments that a request and its response carry.
pub mod RoundTrip
pub mod Estimate
use sedsprintf_rs.Prelude.{
  ℕ, ◌+◌, ◌-◌, ◌*◌, ◌/◌, ◌%◌, ◌^◌, Bool, not, List, [], ◌∷◌, length, ◌==◌, if◌then◌else◌, u64_mod,
  min, saturating_add,
}
use sedsprintf_rs.Prelude.Int.{ℤ, pos, negsuc, ◌+ℤ◌, ◌-ℤ◌}
use sedsprintf_rs.Prelude.Signed.{quot, wrap_signed}
use sedsprintf_rs.Error.{Result, ok, err, invalid_type, size_mismatch, ◌>>=◌, ◌>>◌, fail_if}
use sedsprintf_rs.Schema.{Schema}
use sedsprintf_rs.External.{External}
use sedsprintf_rs.Packet.{Packet, new}
use sedsprintf_rs.Packet.Typed.{
  u64_prim, encode_slice_le, from_prim_le_slice_with_sender, data_as_u64,
}

-- The types and the endpoint of time synchronization, and the endpoints of a type: generated code, like
-- the schema. `device` is the identifier that the build gives the device.
pub record TimeSyncSchema : Type 0 where
  pub announce : ℕ
  pub request : ℕ
  pub response : ℕ
  pub endpoint : ℕ
  pub endpoints_of : ℕ → List ℕ
  pub device : List ℕ

pub record TimeSyncAnnounceFields : Type 0 where
  pub priority : ℕ
  pub time_ms : ℕ

pub record TimeSyncRequestFields : Type 0 where
  pub seq : ℕ
  pub t1_ms : ℕ

pub record TimeSyncResponseFields : Type 0 where
  pub seq : ℕ
  pub t1_ms : ℕ
  pub t2_ms : ℕ
  pub t3_ms : ℕ

pub record TimeSyncSample : Type 0 where
  pub offset_ms : ℤ
  pub delay_ms : ℕ

-- `TIMESYNC_ANNOUNCE_WORDS` and the others.
abbrev pub announce_words : ℕ
announce_words = 2

abbrev pub request_words : ℕ
request_words = 2

abbrev pub response_words : ℕ
response_words = 4

-- The fields, by their places; there are as many values as the decoder asked for.
unfoldable pub announce_fields : List ℕ → Result TimeSyncAnnounceFields
announce_fields (priority ∷ time_ms ∷ []) = ok (record { priority = priority; time_ms = time_ms })
announce_fields values = err (size_mismatch 16 (length values * 8))

unfoldable pub request_fields : List ℕ → Result TimeSyncRequestFields
request_fields (seq ∷ t1_ms ∷ []) = ok (record { seq = seq; t1_ms = t1_ms })
request_fields values = err (size_mismatch 16 (length values * 8))

unfoldable pub response_fields : List ℕ → Result TimeSyncResponseFields
response_fields (seq ∷ t1_ms ∷ t2_ms ∷ t3_ms ∷ []) =
    ok (record { seq = seq; t1_ms = t1_ms; t2_ms = t2_ms; t3_ms = t3_ms })
response_fields values = err (size_mismatch 32 (length values * 8))

module _ (s : Schema) (x : External) (ts : TimeSyncSchema) where
  unfoldable pub build_timesync_announce : ℕ → ℕ → Result Packet
  build_timesync_announce priority time_ms =
      from_prim_le_slice_with_sender s x u64_prim ts.announce (priority ∷ time_ms ∷ [])
        (ts.endpoints_of ts.announce) ts.device time_ms

  unfoldable pub build_timesync_announce_with_sender : List ℕ → ℕ → ℕ → Result Packet
  build_timesync_announce_with_sender sender priority time_ms =
      new s x ts.announce (ts.endpoint ∷ []) sender time_ms
        (encode_slice_le u64_prim (priority ∷ time_ms ∷ []))

  unfoldable pub build_timesync_request : ℕ → ℕ → Result Packet
  build_timesync_request seq t1_ms =
      from_prim_le_slice_with_sender s x u64_prim ts.request (seq ∷ t1_ms ∷ [])
        (ts.endpoints_of ts.request) ts.device t1_ms

  unfoldable pub build_timesync_response : ℕ → ℕ → ℕ → ℕ → Result Packet
  build_timesync_response seq t1_ms t2_ms t3_ms =
      from_prim_le_slice_with_sender s x u64_prim ts.response (seq ∷ t1_ms ∷ t2_ms ∷ t3_ms ∷ [])
        (ts.endpoints_of ts.response) ts.device t3_ms

  unfoldable pub decode_u64_payload : Packet → ℕ → ℕ → Result (List ℕ)
  decode_u64_payload p expected_ty expected_words = do
    fail_if (not (p.ty == expected_ty)) invalid_type
    vals ← data_as_u64 s x p
    fail_if (not (length vals == expected_words))
        (size_mismatch (expected_words * 8) (length vals * 8))
    ok vals

  unfoldable pub decode_timesync_announce : Packet → Result TimeSyncAnnounceFields
  decode_timesync_announce p = do
    vals ← decode_u64_payload p ts.announce announce_words
    announce_fields vals

  unfoldable pub decode_timesync_request : Packet → Result TimeSyncRequestFields
  decode_timesync_request p = do
    vals ← decode_u64_payload p ts.request request_words
    request_fields vals

  unfoldable pub decode_timesync_response : Packet → Result TimeSyncResponseFields
  decode_timesync_response p = do
    vals ← decode_u64_payload p ts.response response_words
    response_fields vals

-- A delay below 0 counts as none; `as u64` keeps the low bits.
unfoldable pub delay_of : ℤ → ℕ
delay_of (pos delay) = delay % u64_mod
delay_of (negsuc delay) = 0

-- `/ 2` of an `i128` rounds toward zero.
unfoldable pub compute_offset_delay : ℕ → ℕ → ℕ → ℕ → TimeSyncSample
compute_offset_delay t1_ms t2_ms t3_ms t4_ms = record {
  offset_ms = wrap_signed u64_mod (quot (pos t2_ms -ℤ pos t1_ms +ℤ (pos t3_ms -ℤ pos t4_ms)) 2);
  delay_ms = delay_of (pos t4_ms -ℤ pos t1_ms -ℤ (pos t3_ms -ℤ pos t2_ms));
}

unfoldable pub compute_network_time_sample : ℕ → ℕ → ℕ → ℕ → ℕ × ℕ
compute_network_time_sample t1_monotonic_ms t2_network_ms t3_network_ms t4_monotonic_ms =
    let round_trip = t4_monotonic_ms - t1_monotonic_ms in
    let server_processing = t3_network_ms - t2_network_ms in
    let one_way_delay = (round_trip - server_processing) / 2 in
    (min (t3_network_ms + one_way_delay) (u64_mod - 1), one_way_delay)
