-- ===== src/Tests/Routes.antt =====
-- Theorems on the router's routes and on a whole link, at concrete states.
use mathlib.Core.List.{Memᴰ}
use sedsprintf_rs.Prelude.{
  ℕ, ◌+◌, ◌%◌, ◌<◌, ◌≡◌, refl, false, none, some, List, [], ◌∷◌, ◌++◌, length, get_elem?, ltb, All,
  arith,
}
use sedsprintf_rs.Prelude.Sorting.{sort, place}
use sedsprintf_rs.Error.{ok}
use sedsprintf_rs.Discovery.Cadence.{default_cadence}
use sedsprintf_rs.Router.Settings.{default_options, RouteState, weighted, find}
use sedsprintf_rs.Router.Selection.{
  flood, discovered, apply_route_selection, eligible_side_ids, at_most_one, route_weight, cursor_of,
  sum_weights,
}
use sedsprintf_rs.Router.Selection.Allowed.{MayLeaveBy, apply_route_selection-MayLeaveBy}
use sedsprintf_rs.Router.Selection.Rotation.{
  schedule, after_turns, Rotates, apply_route_selection-schedule, apply_route_selection-every_side,
}
use sedsprintf_rs.Reliable.{Limits, ReliableTxState, record_sent, receive_ordered, Room}
use sedsprintf_rs.Queue.{BoundedDeque, Allocator}
use sedsprintf_rs.Router.Budget.{Sizes, SharedQueues, received, make_shared_queue_room}
use sedsprintf_rs.Router.Budget.Room.{Settles, make_shared_queue_room-Settles}
use sedsprintf_rs.Reliable.Buffering.{after_result}
use sedsprintf_rs.Reliable.Link.{Link, start}

-- Three sides, the second removed; local packets go by weight, 2 to the first and 3 to the third.
abbrev weighted_routes : RouteState
weighted_routes = record {
  sides =
      some default_options
      ∷ none
      ∷ some default_options
      ∷ some (record default_options { egress_enabled = false })
      ∷ [];
  route_overrides = [];
  typed_route_overrides = [];
  route_weights = ((none, 0), 2) ∷ ((none, 2), 3) ∷ [];
  route_priorities = [];
  source_route_modes = (none, weighted) ∷ [];
  route_selection_cursors = (none, 4) ∷ [];
  adaptive_route_stats = [];
  discovery_cadence = default_cadence;
}

apply_route_selection-MayLeaveBy_example :
    All
      (MayLeaveBy weighted_routes none (some 7) false)
      (apply_route_selection weighted_routes none
        (eligible_side_ids weighted_routes none (some 7) false)
        discovered).0
apply_route_selection-MayLeaveBy_example =
    apply_route_selection-MayLeaveBy weighted_routes none (some 7) false discovered

weighted_routes-Rotates : Rotates none (2 ∷ 0 ∷ []) flood weighted_routes
unfolding find route_weight sum_weights sort place
weighted_routes-Rotates = (refl, omega arith, omega arith)

apply_route_selection-schedule_example :
    let turns = schedule (route_weight weighted_routes none) (sort ltb (2 ∷ 0 ∷ [])) in
    (apply_route_selection
      (after_turns none (2 ∷ 0 ∷ []) flood 3 weighted_routes)
      none
      (2 ∷ 0 ∷ [])
      flood).0
    ≡ at_most_one (get_elem? turns ((cursor_of weighted_routes none + 3) % length turns))
unfolding cursor_of find
apply_route_selection-schedule_example =
    apply_route_selection-schedule none (2 ∷ 0 ∷ []) flood 3 weighted_routes weighted_routes-Rotates
      (omega arith)

apply_route_selection-every_side_example :
    (k : ℕ) × (k < sum_weights (route_weight weighted_routes none) (sort ltb (2 ∷ 0 ∷ [])))
    × ((apply_route_selection
          (after_turns none (2 ∷ 0 ∷ []) flood k weighted_routes)
          none
          (2 ∷ 0 ∷ [])
          flood).0
        ≡ 0 ∷ [])
unfolding cursor_of find route_weight sum_weights sort place
apply_route_selection-every_side_example =
    apply_route_selection-every_side none (2 ∷ 0 ∷ []) flood weighted_routes 0
      weighted_routes-Rotates (omega arith) (Memᴰ.tail (Memᴰ.head refl)) (omega arith)

abbrev defaults : Limits
defaults = record { retransmit_ms = 200; max_retries = 8; max_pending = 16 }

abbrev payload_of : ℕ → List ℕ
payload_of seq = seq ∷ 100 ∷ []

abbrev next_is : ℕ → ReliableTxState → ReliableTxState
next_is seq tx = record tx { next_seq = seq }

-- The first frame is recorded, and the handler fails on the second after it was handed over.
abbrev one_numbered : Link
one_numbered = record start {
  tx = next_is 2 start.tx;
  numbered = 1 ∷ [];
  wire = (1, payload_of 1) ∷ [];
}

abbrev one_sent : Link
one_sent = record one_numbered {
  tx = record_sent (next_is 2 start.tx) 1 (payload_of 1) 500;
  numbered = [];
}

abbrev two_numbered : Link
two_numbered = record one_sent {
  tx = next_is 3 one_sent.tx;
  numbered = 2 ∷ [];
  wire = (2, payload_of 2) ∷ (1, payload_of 1) ∷ [];
}

abbrev two_sent : Link
two_sent = record two_numbered { numbered = [] }

abbrev roomy : Room
roomy = record { evicted = 0; outcome = ok tt }

-- The second frame arrives first, and then the first.
abbrev arrived : ℕ → Link → Link
arrived seq l =
    let (fs, rx) = after_result (receive_ordered defaults roomy l.rx seq (payload_of seq)) in
    record l { rx = rx; delivered = l.delivered ++ fs }

abbrev queue_of : List ℕ → ℕ → BoundedDeque ℕ
queue_of q cur_bytes = record {
  q = q;
  capacity = 4;
  max_bytes = 32;
  cur_bytes = cur_bytes;
  max_elems = 4;
  grow_num = 3;
  grow_den = 2;
}

-- Two queued items, a frame that waits for an earlier one, and a route.
abbrev full_queues : SharedQueues ℕ ℕ ℕ
full_queues = record {
  received_queue = queue_of (30 ∷ []) 30;
  transmit_queue = queue_of (20 ∷ []) 20;
  recent_rx = queue_of [] 0;
  reliable_rx = (0, record { expected_seq = 1; buffered = (3, 7 ∷ 8 ∷ []) ∷ [] }) ∷ [];
  discovery_routes =
      (
        2,
        record {
          reachable = 5 ∷ [];
          reachable_timesync_sources = [];
          last_seen_ms = 9;
          announcers = [];
        },
      )
      ∷ [];
}

abbrev small_sizes : Sizes
small_sizes = record {
  max_queue_budget = 64;
  endpoint = 4;
  sender_state = 40;
  side_id = 8;
  side_state = 40;
  shared_bytes = 16;
}

abbrev exact : Allocator
exact = record { with_capacity = λ n. n; reserve_exact = λ len cap add. len + add }

make_shared_queue_room-Settles_example :
    Settles small_sizes exact
      (λ c. c)
      (λ c. c)
      (λ c. 8)
      12
      (make_shared_queue_room small_sizes exact (λ c. c) (λ c. c) (λ c. 8) 12 received full_queues)
make_shared_queue_room-Settles_example =
    make_shared_queue_room-Settles small_sizes exact (λ c. c) (λ c. c) (λ c. 8) 12 received
      full_queues
