-- ===== src/TimeSync/Messages/RoundTrip.antt =====
-- What a node reads from a packet of time synchronization is what the builder put in.
use sedsprintf_rs.Prelude.{ℕ, ◌≡◌, refl, ==_iff, true, [], ◌∷◌, List, IsU64, ◌==◌, All, length}
use sedsprintf_rs.Error.{ok}
use sedsprintf_rs.Schema.{Schema, uint64, get_data_type}
use sedsprintf_rs.External.{External}
use sedsprintf_rs.Packet.{Packet}
use sedsprintf_rs.Packet.Typed.{data_as_u64}
use sedsprintf_rs.Packet.Typed.RoundTrip.{data_as_u64-from_prim_le_slice_with_sender}
use sedsprintf_rs.TimeSync.Messages.{
  announce_fields, request_fields, response_fields, TimeSyncSchema, build_timesync_announce,
  build_timesync_request, build_timesync_response, decode_u64_payload, decode_timesync_announce,
  decode_timesync_request, decode_timesync_response,
}

module _ (s : Schema) (x : External) (ts : TimeSyncSchema) where
  decode_u64_payload_lem :
      (p : Packet) (ty : ℕ) (values : List ℕ)
      → p.ty ≡ ty
      → data_as_u64 s x p ≡ ok values
      → decode_u64_payload s x ts p ty (length values) ≡ ok values
  unfolding decode_u64_payload
  decode_u64_payload_lem p ty values same read =
      let here : (p.ty == ty) ≡ true = (==_iff p.ty ty).1 same in
      let all : (length values == length values) ≡ true =
        (==_iff (length values) (length values)).1 refl in
      rw (here, read, all) refl

  -- An announcement that was built reads back with its priority and its time.
  pub decode_timesync_announce-build_timesync_announce :
      (priority time_ms : ℕ) (p : Packet)
      → get_data_type s ts.announce ≡ uint64
      → IsU64 priority
      → IsU64 time_ms
      → build_timesync_announce s x ts priority time_ms ≡ ok p
      → decode_timesync_announce s x ts p ≡ ok (record { priority = priority; time_ms = time_ms })
  unfolding build_timesync_announce decode_timesync_announce announce_fields
  decode_timesync_announce-build_timesync_announce priority time_ms p kind u1 u2 e =
      let values = priority ∷ time_ms ∷ [] in
      let (read, same, r1, r2, r3) =
        data_as_u64-from_prim_le_slice_with_sender s x ts.announce time_ms values
          (ts.endpoints_of ts.announce) ts.device p e kind (u1, (u2, tt)) in
      rw (decode_u64_payload_lem p ts.announce values same read) refl

  -- A request that was built reads back with its number and its moment, and a response with its number
  -- and its three moments.
  pub decode_timesync_response-build_timesync_response :
      (seq t1_ms t2_ms t3_ms : ℕ) (p q : Packet)
      → get_data_type s ts.request ≡ uint64
      → get_data_type s ts.response ≡ uint64
      → All IsU64 (seq ∷ t1_ms ∷ t2_ms ∷ t3_ms ∷ [])
      → build_timesync_request s x ts seq t1_ms ≡ ok p
      → build_timesync_response s x ts seq t1_ms t2_ms t3_ms ≡ ok q
      → (decode_timesync_request s x ts p ≡ ok (record { seq = seq; t1_ms = t1_ms }))
        × (decode_timesync_response s x ts q
            ≡ ok (record { seq = seq; t1_ms = t1_ms; t2_ms = t2_ms; t3_ms = t3_ms }))
  unfolding build_timesync_request build_timesync_response decode_timesync_request
      decode_timesync_response request_fields response_fields
  decode_timesync_response-build_timesync_response seq t1_ms t2_ms t3_ms p q kind kind'
        (u1, (u2, (u3, (u4, u)))) e e' =
      let asked = seq ∷ t1_ms ∷ [] in
      let values = seq ∷ t1_ms ∷ t2_ms ∷ t3_ms ∷ [] in
      let (read, same, r1, r2, r3) =
        data_as_u64-from_prim_le_slice_with_sender s x ts.request t1_ms asked
          (ts.endpoints_of ts.request) ts.device p e kind (u1, (u2, tt)) in
      let (read', same', r4, r5, r6) =
        data_as_u64-from_prim_le_slice_with_sender s x ts.response t3_ms values
          (ts.endpoints_of ts.response) ts.device q e' kind' (u1, (u2, (u3, (u4, tt)))) in
      (
        rw (decode_u64_payload_lem p ts.request asked same read) refl,
        rw (decode_u64_payload_lem q ts.response values same' read') refl,
      )
