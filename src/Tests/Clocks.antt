-- ===== src/Tests/Clocks.antt =====
-- Theorems on time synchronization, at concrete clocks, exchanges and trackers.
use mathlib.Core.List.{Memᴰ}
use sedsprintf_rs.TimeSync.Tracker.Election.{active_in}
use sedsprintf_rs.Prelude.{
  ℕ, ◌+◌, ◌-◌, ◌*◌, ◌/◌, ◌≡◌, refl, true, inl, inr, none, some, List, [], ◌∷◌, All, arith,
}
use sedsprintf_rs.Prelude.Int.{ℤ, pos, ◌+ℤ◌, ◌-ℤ◌, ◌*ℤ◌, ◌≤ℤ◌}
use sedsprintf_rs.Prelude.Least.{least}
use sedsprintf_rs.Prelude.Signed.{clamp_i128, quot, wrap_signed}
use sedsprintf_rs.Error.{ok}
use sedsprintf_rs.Prelude.Sorting.{sort, place, dedup}
use sedsprintf_rs.Serialize.Reader.{to_le_bytes32}
use sedsprintf_rs.Discovery.Sources.{
  DiscoverySchema, sort_dedup_strings, put_string, put_strings, lengths_fit, sources_payload,
  build_discovery_timesync_sources, decode_discovery_timesync_sources,
}
use sedsprintf_rs.Discovery.Sources.RoundTrip.{decode_discovery_timesync_sources-build}
use sedsprintf_rs.Schema.{
  MessageDataType, MessageElement, ReliableMode, Schema, get_data_type, data_type_size,
}
use sedsprintf_rs.Packet.{
  Packet, new, check_payload, validate_dynamic_len_and_content, element_width, to_le_bytes64,
}
use sedsprintf_rs.Packet.Typed.{
  u64_prim, check_exact, encode_slice_le, from_prim_le_slice_with_sender, data_as_u64,
}
use sedsprintf_rs.Packet.Typed.RoundTrip.{data_as_u64-from_prim_le_slice_with_sender}
use sedsprintf_rs.TimeSync.Calendar.{
  NetworkTime, civil_from_days, era_of, from_unix_ns, as_unix_ns, partial_of, to_network_time,
}
use sedsprintf_rs.TimeSync.Calendar.RoundTrip.{as_unix_ns-from_unix_ns}
use sedsprintf_rs.TimeSync.Clock.{
  SlewedNetworkClock, applied_adjust, read_unix_ns, steer_unix_ms, applied_at,
}
use sedsprintf_rs.TimeSync.Clock.Motion.{read_unix_ns_mono, read_unix_ns-steered}
use sedsprintf_rs.TimeSync.Messages.{
  TimeSyncSchema, build_timesync_request, build_timesync_response, decode_timesync_request,
  decode_timesync_response, compute_offset_delay, TimeSyncAnnounceFields,
}
use sedsprintf_rs.TimeSync.Messages.Estimate.{compute_offset_delay_lem}
use sedsprintf_rs.TimeSync.Messages.RoundTrip.{decode_timesync_response-build_timesync_response}
use sedsprintf_rs.TimeSync.Tracker.{
  TimeSyncRole, TimeSyncSource, TimeSyncTracker, default_config, refresh, values_of, leader,
  announced_priority, elect, local_candidate_priority, may_lead, source_before, source_is_active,
  tie_exists, local_announce_priority, best_active_source,
}
use sedsprintf_rs.TimeSync.Tracker.Election.{active_in, Beats, local_announce_priority-Beats}
use sedsprintf_rs.TimeSync.Tracker.Follow.{Reselects, refresh-Reselects}
use sedsprintf_rs.TimeSync.Network.{
  NetworkTimeSourceState, NetworkClock, entry_before, best_source, current_time,
}
use sedsprintf_rs.TimeSync.Network.Reading.{current_time_full}
use sedsprintf_rs.Tests.{toy}

-- The last day of February of the year 2024.
abbrev leap_day : ℕ
leap_day = 1709164800000000005

as_unix_ns-from_unix_ns_example :
    (t : NetworkTime) × (from_unix_ns (pos leap_day) ≡ some t)
    × (as_unix_ns t ≡ some (pos leap_day))
as_unix_ns-from_unix_ns_example = as_unix_ns-from_unix_ns leap_day (omega arith)

-- A clock that is 500 nanoseconds behind, in the middle of catching up.
abbrev running : SlewedNetworkClock
running = record {
  anchor_mono_ns = 1000;
  anchor_unix_ns = pos 5000000;
  pending_adjust_ns = pos 500;
  max_slew_ppm = 50000;
  initialized = true;
}

read_unix_ns_mono_example :
    (before at after : ℤ) × (read_unix_ns running 3000 ≡ some before)
    × (read_unix_ns running 900000 ≡ some at)
    × (read_unix_ns (steer_unix_ms running 900000 2) 900000 ≡ some at)
    × (read_unix_ns (steer_unix_ms running 900000 2) 1700000 ≡ some after)
    × (before ≤ℤ at)
    × (at ≤ℤ after)
read_unix_ns_mono_example =
    read_unix_ns_mono running 3000 900000 2 1700000 refl
      ((omega arith, omega arith), (omega arith, omega arith)) (omega arith) (omega arith)
      (omega arith) (omega arith) (omega arith)

read_unix_ns-steered_example :
    read_unix_ns (steer_unix_ms running 3000 7) 100000000
    ≡ some (
        pos (7 * 1000000 + (100000000 - 3000))
        +ℤ (running.pending_adjust_ns -ℤ applied_at running 3000))
unfolding read_unix_ns steer_unix_ms applied_at ◌+ℤ◌ ◌-ℤ◌ clamp_i128 applied_adjust
read_unix_ns-steered_example =
    read_unix_ns-steered running 3000 7 100000000 refl
      ((omega arith, omega arith), (omega arith, omega arith)) (omega arith) (omega arith)
      (omega arith) (omega arith) (omega arith, omega arith)

-- A responder 40 ms ahead; 10 ms on the way there, 4 back.
compute_offset_delay_lem_example :
    let sample = compute_offset_delay 100 150 155 119 in
    let way = 110 - 100 + (119 - 115) in
    (sample.delay_ms ≡ way)
    × (sample.offset_ms +ℤ sample.offset_ms ≤ℤ pos 40 +ℤ pos 40 +ℤ pos (way + 1))
    × (pos 40 +ℤ pos 40 ≤ℤ sample.offset_ms +ℤ sample.offset_ms +ℤ pos (way + 1))
unfolding ◌+ℤ◌
compute_offset_delay_lem_example =
    compute_offset_delay_lem 100 110 115 119 (pos 40) 150 155
      (omega arith, omega arith, omega arith, omega arith, omega arith, refl, refl)

-- All types are slices of `u64`s of any length.
abbrev u64_schema : Schema
u64_schema = record {
  type_count = 4;
  endpoint_count = 2;
  message_meta = λ ty. record {
    name = [];
    element = MessageElement.dynamic MessageDataType.uint64;
    reliable = ReliableMode.none;
    priority = 1;
  };
  endpoint_name = λ e. e ∷ [];
}

abbrev toy_sync : TimeSyncSchema
toy_sync = record {
  announce = 1;
  request = 2;
  response = 3;
  endpoint = 1;
  endpoints_of = λ ty. 1 ∷ [];
  device = 100 ∷ [];
}

abbrev packet_of : ℕ → ℕ → List ℕ → Packet
packet_of ty timestamp payload = record {
  ty = ty;
  data_size = 32;
  sender = 100 ∷ [];
  endpoints = 1 ∷ [];
  timestamp = timestamp;
  payload = payload;
}

abbrev four_words : List ℕ
four_words = 7 ∷ 100 ∷ 300 ∷ 2 ∷ []

abbrev response_packet : Packet
response_packet = packet_of 3 2 (encode_slice_le u64_prim four_words)

data_as_u64-from_prim_le_slice_with_sender_example :
    (data_as_u64 u64_schema toy response_packet ≡ ok four_words)
    × (response_packet.ty ≡ 3)
    × (response_packet.sender ≡ 100 ∷ [])
    × (response_packet.endpoints ≡ 1 ∷ [])
    × (response_packet.timestamp ≡ 2)
unfolding from_prim_le_slice_with_sender encode_slice_le get_data_type data_type_size check_exact
    new check_payload validate_dynamic_len_and_content element_width to_le_bytes64
data_as_u64-from_prim_le_slice_with_sender_example =
    data_as_u64-from_prim_le_slice_with_sender u64_schema toy 3 2 four_words (1 ∷ []) (100 ∷ [])
      response_packet refl refl (omega arith, (omega arith, (omega arith, (omega arith, tt))))

abbrev request_packet : Packet
request_packet = record (packet_of 2 100 (encode_slice_le u64_prim (7 ∷ 100 ∷ []))) {
  data_size = 16;
}

decode_timesync_response-build_timesync_response_example :
    (decode_timesync_request u64_schema toy toy_sync request_packet
      ≡ ok (record { seq = 7; t1_ms = 100 }))
    × (decode_timesync_response u64_schema toy toy_sync response_packet
        ≡ ok (record { seq = 7; t1_ms = 100; t2_ms = 300; t3_ms = 2 }))
unfolding from_prim_le_slice_with_sender encode_slice_le get_data_type data_type_size check_exact
    new check_payload validate_dynamic_len_and_content element_width to_le_bytes64
    build_timesync_request build_timesync_response
decode_timesync_response-build_timesync_response_example =
    decode_timesync_response-build_timesync_response u64_schema toy toy_sync 7 100 300 2
      request_packet response_packet refl refl
      (omega arith, (omega arith, (omega arith, (omega arith, tt)))) refl refl

abbrev toy_discovery : DiscoverySchema
toy_discovery = record { endpoint = 1; announce = 1; timesync_sources = 3; topology = 2 }

-- Two sources, of one and of three bytes.
abbrev two_sources : List (List ℕ)
two_sources = (97 ∷ []) ∷ (98 ∷ 99 ∷ 100 ∷ []) ∷ []

abbrev sources_packet : Packet
sources_packet = record (packet_of 3 2 (sources_payload two_sources)) { data_size = 16 }

decode_discovery_timesync_sources-build_example :
    decode_discovery_timesync_sources u64_schema toy toy_discovery sources_packet ≡ ok two_sources
unfolding build_discovery_timesync_sources lengths_fit sort_dedup_strings dedup sort place new
    check_payload validate_dynamic_len_and_content get_data_type element_width sources_payload
    to_le_bytes32 put_strings put_string toy
decode_discovery_timesync_sources-build_example =
    decode_discovery_timesync_sources-build u64_schema toy toy_discovery (100 ∷ []) 2 two_sources
      sources_packet ((refl, tt), (tt, tt))
      ((omega arith, refl, refl), ((omega arith, refl, refl), tt)) (omega arith) refl

abbrev source_at : List ℕ → ℕ → ℕ → TimeSyncSource
source_at sender priority last_announce_ms = record {
  sender = sender;
  priority = priority;
  last_announce_ms = last_announce_ms;
  last_time_ms = 900;
}

-- A node that leads, with two active sources of its own priority and a stale one of a better priority.
abbrev leading : TimeSyncTracker
leading = record {
  cfg = record default_config { role = TimeSyncRole.source };
  local_id = 65 ∷ [];
  sources =
      (66 ∷ [], source_at (66 ∷ []) 100 9000)
      ∷ (67 ∷ [], source_at (67 ∷ []) 3 1000)
      ∷ (68 ∷ [], source_at (68 ∷ []) 100 9500)
      ∷ [];
  current = some (67 ∷ []);
}

local_announce_priority-Beats_example :
    All (λ src. (active_in leading 10000 src ≡ true → Beats 99 src)) (values_of leading.sources)
unfolding local_announce_priority leader announced_priority elect local_candidate_priority may_lead
    best_active_source least source_before source_is_active tie_exists
local_announce_priority-Beats_example = local_announce_priority-Beats leading 10000 true 99 refl

refresh-Reselects_example :
    Reselects leading 10000 (refresh leading 10000)
    × (best_active_source (refresh leading 10000).1 10000 ≡ best_active_source leading 10000)
    × All (λ e. active_in leading 10000 (e.1) ≡ true) (refresh leading 10000).1.sources
    × ((e : List ℕ × TimeSyncSource)
        → Memᴰ e leading.sources
        → active_in leading 10000 (e.1) ≡ true
        → Memᴰ e (refresh leading 10000).1.sources)
refresh-Reselects_example =
    refresh-Reselects leading 10000
      ((refl, (refl, (refl, tt))), ((refl, (refl, tt)), ((refl, tt), (tt, tt))))

abbrev newcomer : List ℕ
newcomer = 65 ∷ 65 ∷ []

abbrev news : TimeSyncAnnounceFields
news = record { priority = 1; time_ms = 77 }

abbrev midnight : NetworkTime
midnight = record {
  year = pos 2024;
  month = 2;
  day = 29;
  hour = 0;
  minute = 0;
  second = 0;
  nanosecond = 5;
}

abbrev radio : NetworkTimeSourceState
radio = record {
  priority = 10;
  updated_mono_ms = 4;
  anchor_mono_ns = 4000000;
  ttl_ms = some 60000;
  time = partial_of midnight;
}

-- The radio, and a source of better priority that knows only the year.
abbrev two_clocks : NetworkClock
two_clocks = record {
  sources =
      (71 ∷ [], record radio { priority = 1; time = record (partial_of midnight) { month = none } })
      ∷ (82 ∷ [], radio)
      ∷ [];
}

current_time_full_example :
    (later : NetworkTime) × (from_unix_ns (pos (leap_day + (9000000 - 4000000))) ≡ some later)
    × (current_time two_clocks 9000000
        ≡ some (record {
          time = partial_of later;
          unix_time_ms = some ((leap_day + (9000000 - 4000000)) / 1000000);
        }))
unfolding best_source entry_before least to_network_time partial_of from_unix_ns civil_from_days
    era_of quot wrap_signed ◌+ℤ◌ ◌-ℤ◌ ◌*ℤ◌
current_time_full_example =
    current_time_full two_clocks (82 ∷ []) radio midnight leap_day 9000000
      (Memᴰ.tail (Memᴰ.head refl)) (inr (inl refl), (inl refl, tt)) refl refl (omega arith)
