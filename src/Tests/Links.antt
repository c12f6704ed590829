-- ===== src/Tests/Links.antt =====
-- Reliable streams and error codes.
use sedsprintf_rs.Prelude.{
  ℕ, ◌<◌, ◌≡◌, false, none, some, List, [], ◌∷◌, ◌++◌, All, if◌then◌else◌, arith,
}
use sedsprintf_rs.Error.{TelemetryError, ok, err, io, packet_too_large}
use sedsprintf_rs.Error.Codes.{
  to_error_code, discriminant, try_from_i32, is_lost, try_from_i32-discriminant,
}
use sedsprintf_rs.Reliable.{
  Limits, ReliableTxState, Room, record_sent, handle_reliable_ack, scan_order,
}
use sedsprintf_rs.Reliable.Store.{get, insert}
use sedsprintf_rs.Reliable.Acks.{Pending, Settled, handle_reliable_ack-cumulative}
use sedsprintf_rs.Reliable.Retries.{Within, Scanned, scan_order-Scanned}
use sedsprintf_rs.Reliable.Store.Lookup.{Ascending}

abbrev defaults : Limits
defaults = record { retransmit_ms = 200; max_retries = 8; max_pending = 16 }

-- The second frame arrives late and the first is repeated; making room for the fourth evicts the third,
-- and for the sixth it evicts the fourth and fails all the same; the fifth goes to other traffic.
abbrev arrivals : List (ℕ × Room × ℕ)
arrivals =
    (0, record { evicted = 0; outcome = ok tt }, 1)
    ∷ (0, record { evicted = 0; outcome = ok tt }, 3)
    ∷ (0, record { evicted = 0; outcome = ok tt }, 1)
    ∷ (0, record { evicted = 1; outcome = ok tt }, 4)
    ∷ (0, record { evicted = 1; outcome = err (io "full") }, 6)
    ∷ (0, record { evicted = 0; outcome = ok tt }, 5)
    ∷ (1, record { evicted = 0; outcome = ok tt }, 2)
    ∷ []

abbrev payload_of : ℕ → List ℕ
payload_of seq = seq ∷ 100 ∷ []

abbrev two_sent : ReliableTxState
two_sent =
    record_sent (record_sent (record { next_seq = 3; sent_order = []; sent = [] }) 1 (7 ∷ []) 1000)
      2 (8 ∷ []) 1001

two_sent-Within : All (Within defaults) two_sent.sent
unfolding insert record_sent
two_sent-Within = (omega arith, (omega arith, tt))

two_sent-Ascending : Ascending two_sent.sent
unfolding insert record_sent
two_sent-Ascending = ((omega arith, tt), (tt, tt))

handle_reliable_ack-cumulative_example :
    let after = handle_reliable_ack false two_sent 1 in
    ((gone : List ℕ) × (two_sent.sent_order ≡ gone ++ after.sent_order)
      × All (Settled 1 after.sent) gone)
    × Pending 1 after.sent_order
    × ((k : ℕ) → 1 < k → get k after.sent ≡ get k two_sent.sent)
    × Ascending after.sent
    × (after.next_seq ≡ two_sent.next_seq)
handle_reliable_ack-cumulative_example =
    handle_reliable_ack-cumulative two_sent 1 two_sent-Ascending

scan_order-Scanned_example :
    Scanned defaults two_sent (scan_order defaults 5000 (1 ∷ 2 ∷ []) two_sent)
scan_order-Scanned_example =
    scan_order-Scanned defaults 5000 (1 ∷ 2 ∷ []) two_sent two_sent-Within two_sent-Ascending

abbrev too_large : TelemetryError
too_large = packet_too_large "Item exceeds maximum byte budget"

try_from_i32-discriminant_example :
    try_from_i32 (discriminant (to_error_code too_large))
    ≡ (if is_lost (to_error_code too_large) then none else some (to_error_code too_large))
try_from_i32-discriminant_example = try_from_i32-discriminant too_large
