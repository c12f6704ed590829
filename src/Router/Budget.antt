-- ===== src/Router/Budget.antt =====
-- The budget that the router's queues share: src/router.rs. The two queues hold items of any types with
-- a cost; `size_of` of the types is a parameter.
pub mod Buffer
pub mod Room
use sedsprintf_rs.Prelude.{
  ℕ, zero, suc, ◌+◌, ◌*◌, ◌-◌, Bool, true, false, not, ◌&&◌, ◌||◌, Option, none, some, List, [],
  ◌∷◌, length, is_empty, ltb, leb, ◌==◌, if◌then◌else◌, saturating_add,
}
use sedsprintf_rs.Prelude.Strings.{StringMap}
use sedsprintf_rs.Error.{Result, ok, err, packet_too_large}
use sedsprintf_rs.TimeSync.Calendar.{unwrap_or}
use sedsprintf_rs.Queue.{BoundedDeque, Allocator, pop_front}
use sedsprintf_rs.Reliable.{ReliableRxState}
use sedsprintf_rs.Reliable.Store.{BtreeMap, pop_first}

pub data RouterQueueKind : Type 0 where
  received transmit recent reliable_rx_buffer discovery : RouterQueueKind

pub record TopologyBoardNode : Type 0 where
  pub sender_id : List ℕ
  pub reachable_endpoints : List ℕ
  pub reachable_timesync_sources : List (List ℕ)
  pub connections : List (List ℕ)

pub record DiscoverySenderState : Type 0 where
  pub reachable : List ℕ
  pub reachable_timesync_sources : List (List ℕ)
  pub topology_boards : List TopologyBoardNode
  pub last_seen_ms : ℕ

pub record DiscoverySideState : Type 0 where
  pub reachable : List ℕ
  pub reachable_timesync_sources : List (List ℕ)
  pub last_seen_ms : ℕ
  pub announcers : StringMap DiscoverySenderState

-- `MAX_QUEUE_BUDGET` and the sizes of the types.
pub record Sizes : Type 0 where
  pub max_queue_budget : ℕ
  pub endpoint : ℕ
  pub sender_state : ℕ
  pub side_id : ℕ
  pub side_state : ℕ
  pub shared_bytes : ℕ

-- `map(f).sum()`.
unfoldable pub sum_of : {A : Type 0} → (A → ℕ) → List A → ℕ
sum_of f [] = 0
sum_of f (x ∷ xs) = f x + sum_of f xs

-- The part of `RouterInner` that shares the budget, over the types of the items and of the keys.
pub record SharedQueues (R T K : Type 0) : Type 0 where
  pub received_queue : BoundedDeque R
  pub transmit_queue : BoundedDeque T
  pub recent_rx : BoundedDeque ℕ
  pub reliable_rx : List (K × ReliableRxState)
  pub discovery_routes : BtreeMap DiscoverySideState

unfoldable pub topology_board_byte_cost : Sizes → TopologyBoardNode → ℕ
topology_board_byte_cost z board =
    saturating_add
      (saturating_add
        (saturating_add (length board.sender_id) (length board.reachable_endpoints * z.endpoint))
        (sum_of (λ s. length s) board.reachable_timesync_sources))
      (sum_of (λ s. length s) board.connections)

unfoldable pub discovery_sender_byte_cost : Sizes → List ℕ × DiscoverySenderState → ℕ
discovery_sender_byte_cost z (sender, state) =
    saturating_add
      (saturating_add
        (saturating_add (saturating_add (length sender) (length state.reachable * z.endpoint))
          (sum_of (λ s. length s) state.reachable_timesync_sources))
        (sum_of (topology_board_byte_cost z) state.topology_boards))
      z.sender_state

unfoldable pub discovery_route_byte_cost : Sizes → ℕ × DiscoverySideState → ℕ
discovery_route_byte_cost z (side, route) =
    saturating_add
      (saturating_add
        (saturating_add
          (saturating_add (saturating_add z.side_id z.side_state)
            (length route.reachable * z.endpoint))
          (sum_of (λ s. length s) route.reachable_timesync_sources))
        (sum_of (discovery_sender_byte_cost z) route.announcers))
      (side - side)

-- The first stream that has buffered frames loses its first one.
unfoldable pub pop_buffered :
    {K : Type 0} → List (K × ReliableRxState) → Option (List (K × ReliableRxState))
pop_buffered [] = none
pop_buffered ((key, rx) ∷ streams) =
    if is_empty rx.buffered
    then elim (pop_buffered streams) [ none ↦ none | some rest ↦ some ((key, rx) ∷ rest) ]
    else some ((key, record rx { buffered = pop_first rx.buffered }) ∷ streams)

-- `min_by_key` of the time a route was last seen: the first of the least.
unfoldable pub oldest_route :
    ℕ × DiscoverySideState → BtreeMap DiscoverySideState → ℕ × DiscoverySideState
oldest_route best [] = best
oldest_route best (entry ∷ routes) =
    if ltb entry.1.last_seen_ms best.1.last_seen_ms
    then oldest_route entry routes
    else oldest_route best routes

unfoldable pub remove_side_entry : ℕ → BtreeMap DiscoverySideState → BtreeMap DiscoverySideState
remove_side_entry side [] = []
remove_side_entry side ((key, route) ∷ routes) =
    let rest = remove_side_entry side routes in if key == side then routes else (key, route) ∷ rest

unfoldable pub pop_route : BtreeMap DiscoverySideState → Option (BtreeMap DiscoverySideState)
pop_route [] = none
pop_route (entry ∷ routes) = some (remove_side_entry (oldest_route entry routes).0 (entry ∷ routes))

-- `pop_front().is_some()`: the queue without its first element, if it has one.
unfoldable pub without_front :
    {A : Type 0} → (A → ℕ) → Allocator → BoundedDeque A → Option (BoundedDeque A)
without_front cost a d = if is_empty d.q then none else some (pop_front cost a d).1

abbrev pub over_shared_budget : Result (Unit {0})
over_shared_budget = err (packet_too_large "Item exceeds maximum shared queue budget")

module _ {R T K : Type 0} (z : Sizes) (a : Allocator) (rx_cost : R → ℕ) (tx_cost : T → ℕ)
    (id_cost : ℕ → ℕ) where
  unfoldable pub discovery_bytes_used : SharedQueues R T K → ℕ
  discovery_bytes_used st = sum_of (discovery_route_byte_cost z) st.discovery_routes

  unfoldable pub reliable_rx_buffered_bytes : SharedQueues R T K → ℕ
  reliable_rx_buffered_bytes st =
      sum_of (λ stream. sum_of (λ frame. z.shared_bytes + length (frame.1)) stream.1.buffered)
        st.reliable_rx

  unfoldable pub reliable_rx_buffer_len : SharedQueues R T K → ℕ
  reliable_rx_buffer_len st = sum_of (λ stream. length stream.1.buffered) st.reliable_rx

  unfoldable pub shared_queue_bytes_used : SharedQueues R T K → ℕ
  shared_queue_bytes_used st =
      saturating_add
        (saturating_add
          (saturating_add (saturating_add st.received_queue.cur_bytes st.transmit_queue.cur_bytes)
            st.recent_rx.max_bytes)
          (reliable_rx_buffered_bytes st))
        (discovery_bytes_used st)

  -- The state without one item of the queue, if there is one.
  unfoldable pub pop_shared_queue_item :
      RouterQueueKind → SharedQueues R T K → Option (SharedQueues R T K)
  pop_shared_queue_item received st = elim (without_front rx_cost a st.received_queue) [
    | none ↦ none
    | some q ↦ some (record st { received_queue = q })
  ]
  pop_shared_queue_item transmit st = elim (without_front tx_cost a st.transmit_queue) [
    | none ↦ none
    | some q ↦ some (record st { transmit_queue = q })
  ]
  pop_shared_queue_item recent st = elim (without_front id_cost a st.recent_rx) [
    | none ↦ none
    | some q ↦ some (record st { recent_rx = q })
  ]
  pop_shared_queue_item reliable_rx_buffer st = elim (pop_buffered st.reliable_rx) [
    | none ↦ none
    | some streams ↦ some (record st { reliable_rx = streams })
  ]
  pop_shared_queue_item discovery st = elim (pop_route st.discovery_routes) [
    | none ↦ none
    | some routes ↦ some (record st { discovery_routes = routes })
  ]

  -- The candidates with their bytes, their numbers of items and their ranks among equals.
  unfoldable pub queue_candidates : SharedQueues R T K → List (RouterQueueKind × ℕ × ℕ × ℕ)
  queue_candidates st =
      (received, st.received_queue.cur_bytes, length st.received_queue.q, 1)
      ∷ (transmit, st.transmit_queue.cur_bytes, length st.transmit_queue.q, 1)
      ∷ (recent, 0, 0, 1)
      ∷ (reliable_rx_buffer, reliable_rx_buffered_bytes st, reliable_rx_buffer_len st, 0)
      ∷ (discovery, discovery_bytes_used st, length st.discovery_routes, 1)
      ∷ []

-- `filter` and `max_by_key`: the last of the largest.
unfoldable pub largest :
    Option (RouterQueueKind × ℕ × ℕ) → List (RouterQueueKind × ℕ × ℕ × ℕ) → Option RouterQueueKind
largest none [] = none
largest (some (kind, bytes, rank)) [] = some kind
largest none ((kind, bytes, len, rank) ∷ others) =
    if ltb 0 bytes && ltb 0 len
    then largest (some (kind, bytes, rank)) others
    else largest none others
largest (some (best, most, top)) ((kind, bytes, len, rank) ∷ others) =
    if ltb 0 bytes && ltb 0 len && (ltb most bytes || ((most == bytes) && leb top rank))
    then largest (some (kind, bytes, rank)) others
    else largest (some (best, most, top)) others

module _ {R T K : Type 0} (z : Sizes) (a : Allocator) (rx_cost : R → ℕ) (tx_cost : T → ℕ)
    (id_cost : ℕ → ℕ) where
  unfoldable pub largest_shared_queue : SharedQueues R T K → Option RouterQueueKind
  largest_shared_queue st = largest none (queue_candidates z a rx_cost tx_cost id_cost st)

  -- An item of the largest queue goes, or else one of the preferred queue.
  unfoldable pub pop_victim : RouterQueueKind → SharedQueues R T K → Option (SharedQueues R T K)
  pop_victim preferred st =
      elim (pop_shared_queue_item z a rx_cost tx_cost id_cost
        (unwrap_or (largest_shared_queue st) preferred) st) [
          | none ↦ pop_shared_queue_item z a rx_cost tx_cost id_cost preferred st
          | some st' ↦ some st'
        ]

  unfoldable pub fits_budget : SharedQueues R T K → ℕ → Bool
  fits_budget st incoming_cost =
      leb (saturating_add (shared_queue_bytes_used z a rx_cost tx_cost id_cost st) incoming_cost)
        z.max_queue_budget

  -- The loop of `make_shared_queue_room`, for a number of turns.
  unfoldable pub room_loop :
      ℕ → ℕ → RouterQueueKind → SharedQueues R T K → Option (Result (Unit {0}) × SharedQueues R T K)
  room_loop zero incoming_cost preferred st = none
  room_loop (suc n) incoming_cost preferred st = elim (fits_budget st incoming_cost) [
    | true ↦ some (ok tt, st)
    | false ↦ elim (pop_victim preferred st) [
      | none ↦ some (over_shared_budget, st)
      | some st' ↦ room_loop n incoming_cost preferred st'
    ]
  ]

  -- How many items there are.
  unfoldable pub items : SharedQueues R T K → ℕ
  items st =
      length st.received_queue.q
      + length st.transmit_queue.q
      + length st.recent_rx.q
      + sum_of (λ stream. length stream.1.buffered) st.reliable_rx
      + length st.discovery_routes

  unfoldable pub make_shared_queue_room :
      ℕ → RouterQueueKind → SharedQueues R T K → Option (Result (Unit {0}) × SharedQueues R T K)
  make_shared_queue_room incoming_cost preferred st =
      if ltb z.max_queue_budget incoming_cost
      then some (over_shared_budget, st)
      else room_loop (items st + 1) incoming_cost preferred st
