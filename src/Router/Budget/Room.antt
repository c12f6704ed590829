-- ===== src/Router/Budget/Room.antt =====
-- Making room ends, and leaves room.
use mathlib.Core.Path.{subst}
use mathlib.Core.List.{Memᴰ}
use sedsprintf_rs.Prelude.{
  ℕ, zero, suc, ◌+◌, ◌≤◌, ◌<◌, ◌≡◌, refl, sym, ap, true, false, Option, none, some, List, [], ◌∷◌,
  length, is_empty, ltb, leb→le, ◌==◌, saturating_add, inl, inr, ◌⊎◌, Bool-cases, Option-cases,
  arith, ==_iff,
}
use sedsprintf_rs.Error.{Result, ok}
use sedsprintf_rs.Queue.{BoundedDeque, Allocator, pop_front}
use sedsprintf_rs.Reliable.{ReliableRxState}
use sedsprintf_rs.Reliable.Store.{BtreeMap, pop_first}
use sedsprintf_rs.TimeSync.Calendar.{unwrap_or}
use sedsprintf_rs.Router.Budget.{
  RouterQueueKind, received, transmit, recent, reliable_rx_buffer, discovery, DiscoverySideState,
  Sizes, sum_of, SharedQueues, shared_queue_bytes_used, pop_buffered, oldest_route,
  remove_side_entry, pop_route, without_front, pop_shared_queue_item, largest_shared_queue,
  pop_victim, fits_budget, over_shared_budget, room_loop, items, make_shared_queue_room,
}

-- What is left, if anything, measures less.
abbrev Fewer : {A : Type 0} → (A → ℕ) → ℕ → Option A → Type 0
Fewer measure n none = Unit
Fewer measure n (some rest) = measure rest < n

front-Fewer :
    {A : Type 0} (cost : A → ℕ) (a : Allocator) (d : BoundedDeque A) (q : List A)
    → Fewer
        (λ (d' : BoundedDeque A). length d'.q)
        (length q)
        (without_front cost a (record d { q = q }))
unfolding without_front pop_front
front-Fewer cost a d [] = tt
front-Fewer cost a d (v ∷ q) = omega arith

abbrev buffered_in : {K : Type 0} → K × ReliableRxState → ℕ
buffered_in stream = length stream.1.buffered

first_fewer : (m : BtreeMap (List ℕ)) → is_empty m ≡ false → length (pop_first m) < length m
unfolding pop_first
first_fewer [] e = cc
first_fewer (b ∷ m) e = omega arith

more_streams :
    {K : Type 0} (stream : K × ReliableRxState) (n : ℕ) (r : Option (List (K × ReliableRxState)))
    → Fewer (sum_of buffered_in) n r
    → Fewer
        (sum_of buffered_in)
        (buffered_in stream + n)
        (elim r [ none ↦ none | some rest ↦ some (stream ∷ rest) ])
unfolding sum_of
more_streams stream n none h = tt
more_streams stream n (some rest) h = omega (arith, h)

buffered-Fewer :
    {K : Type 0} (streams : List (K × ReliableRxState))
    → Fewer (sum_of buffered_in) (sum_of buffered_in streams) (pop_buffered streams)
unfolding pop_buffered sum_of
buffered-Fewer [] = tt
buffered-Fewer ((key, rx) ∷ streams) = elim (Bool-cases (is_empty rx.buffered)) [
  | inl empty ↦ rw empty (
      more_streams (key, rx) (sum_of buffered_in streams) (pop_buffered streams)
        (buffered-Fewer streams))
  | inr some_frame ↦ rw some_frame (omega (arith, first_fewer rx.buffered some_frame))
]

oldest_route-member :
    (best : ℕ × DiscoverySideState) (routes : BtreeMap DiscoverySideState)
    → Memᴰ (oldest_route best routes) (best ∷ routes)
unfolding oldest_route
oldest_route-member best [] = Memᴰ.head refl
oldest_route-member best (entry ∷ routes) =
    elim (Bool-cases (ltb entry.1.last_seen_ms best.1.last_seen_ms)) [
      | inl older ↦ rw older (Memᴰ.tail (oldest_route-member entry routes))
      | inr newer ↦ rw newer (elim (oldest_route-member best routes) [
        | Memᴰ.head same ↦ Memᴰ.head same
        | Memᴰ.tail later ↦ Memᴰ.tail (Memᴰ.tail later)
      ])
    ]

remove_side_entry-fewer :
    (e : ℕ × DiscoverySideState) (m : BtreeMap DiscoverySideState)
    → Memᴰ e m
    → length (remove_side_entry e.0 m) < length m
unfolding remove_side_entry
remove_side_entry-fewer e [] place = elim place [ ]
remove_side_entry-fewer e ((key, route) ∷ m) (Memᴰ.head same) =
    let keys : key ≡ e.0 = sym (ap (λ x. x.0) same) in
    let found : (key == e.0) ≡ true = (==_iff key e.0).1 keys in rw found (omega arith)
remove_side_entry-fewer e ((key, route) ∷ m) (Memᴰ.tail later) =
    let rest = remove_side_entry-fewer e m later in
    elim (Bool-cases (key == e.0)) [
      | inl here ↦ rw here (omega arith)
      | inr other ↦ rw other (omega (arith, rest))
    ]

route-Fewer :
    (routes : BtreeMap DiscoverySideState)
    → Fewer (λ (m : BtreeMap DiscoverySideState). length m) (length routes) (pop_route routes)
unfolding pop_route
route-Fewer [] = tt
route-Fewer (entry ∷ routes) =
    remove_side_entry-fewer (oldest_route entry routes) (entry ∷ routes)
      (oldest_route-member entry routes)

module _ {R T K : Type 0} (z : Sizes) (a : Allocator) (rx_cost : R → ℕ) (tx_cost : T → ℕ)
    (id_cost : ℕ → ℕ) where
  abbrev count : SharedQueues R T K → ℕ
  count st = items z a rx_cost tx_cost id_cost st

  through :
      {A : Type 0} (measure : A → ℕ) (n : ℕ) (st : SharedQueues R T K) (f : A → SharedQueues R T K)
      (r : Option A)
      → ((x : A) → measure x < n → count (f x) < count st)
      → Fewer measure n r
      → Fewer count (count st) (elim r [ none ↦ none | some x ↦ some (f x) ])
  through measure n st f none h k = tt
  through measure n st f (some x) h k = h x k

  pop-Fewer :
      (kind : RouterQueueKind) (st : SharedQueues R T K)
      → Fewer count (count st) (pop_shared_queue_item z a rx_cost tx_cost id_cost kind st)
  unfolding pop_shared_queue_item items
  pop-Fewer received st =
      through (λ (d : BoundedDeque R). length d.q) (length st.received_queue.q) st
        (λ q. record st { received_queue = q }) (without_front rx_cost a st.received_queue)
        (λ q h. omega (arith, h)) (front-Fewer rx_cost a st.received_queue st.received_queue.q)
  pop-Fewer transmit st =
      through (λ (d : BoundedDeque T). length d.q) (length st.transmit_queue.q) st
        (λ q. record st { transmit_queue = q }) (without_front tx_cost a st.transmit_queue)
        (λ q h. omega (arith, h)) (front-Fewer tx_cost a st.transmit_queue st.transmit_queue.q)
  pop-Fewer recent st =
      through (λ (d : BoundedDeque ℕ). length d.q) (length st.recent_rx.q) st
        (λ q. record st { recent_rx = q }) (without_front id_cost a st.recent_rx)
        (λ q h. omega (arith, h)) (front-Fewer id_cost a st.recent_rx st.recent_rx.q)
  pop-Fewer reliable_rx_buffer st =
      through (sum_of buffered_in) (sum_of buffered_in st.reliable_rx) st
        (λ streams. record st { reliable_rx = streams }) (pop_buffered st.reliable_rx)
        (λ streams h. omega (arith, h)) (buffered-Fewer st.reliable_rx)
  pop-Fewer discovery st =
      through (λ (m : BtreeMap DiscoverySideState). length m) (length st.discovery_routes) st
        (λ routes. record st { discovery_routes = routes }) (pop_route st.discovery_routes)
        (λ routes h. omega (arith, h)) (route-Fewer st.discovery_routes)

  either-Fewer :
      (n : ℕ) (first second : Option (SharedQueues R T K))
      → Fewer count n first
      → Fewer count n second
      → Fewer count n (elim first [ none ↦ second | some st' ↦ some st' ])
  either-Fewer n none second h k = k
  either-Fewer n (some st) second h k = h

  victim-Fewer :
      (preferred : RouterQueueKind) (st : SharedQueues R T K)
      → Fewer count (count st) (pop_victim z a rx_cost tx_cost id_cost preferred st)
  unfolding pop_victim
  victim-Fewer preferred st =
      let victim = unwrap_or (largest_shared_queue z a rx_cost tx_cost id_cost st) preferred in
      either-Fewer (count st) (pop_shared_queue_item z a rx_cost tx_cost id_cost victim st)
        (pop_shared_queue_item z a rx_cost tx_cost id_cost preferred st) (pop-Fewer victim st)
        (pop-Fewer preferred st)

  -- What making room comes to: room for the cost, or the error.
  abbrev pub Settles : ℕ → Option (Result (Unit {0}) × SharedQueues R T K) → Type 0
  Settles cost r =
      (result : Result (Unit {0})) × (after : SharedQueues R T K) × (r ≡ some (result, after))
      × (((result ≡ ok tt)
            × (saturating_add (shared_queue_bytes_used z a rx_cost tx_cost id_cost after) cost
                ≤ z.max_queue_budget))
          ⊎ (result ≡ over_shared_budget))

  loop_Settles :
      (n cost : ℕ) (preferred : RouterQueueKind) (st : SharedQueues R T K)
      → count st < n
      → Settles cost (room_loop z a rx_cost tx_cost id_cost n cost preferred st)
  unfolding room_loop fits_budget
  loop_Settles zero cost preferred st h = absurd (omega arith)
  loop_Settles (suc n) cost preferred st h =
      let loop = room_loop z a rx_cost tx_cost id_cost (suc n) cost preferred st in
      elim (Bool-cases (fits_budget z a rx_cost tx_cost id_cost st cost)) [
        | inl fits ↦
            let run : loop ≡ some (ok tt, st) = rw (room_loop, fits) refl in
            (ok tt, st, run, inl (refl, leb→le _ _ fits))
        | inr tight ↦ elim (Option-cases (pop_victim z a rx_cost tx_cost id_cost preferred st)) [
          | inl nothing ↦
              let run : loop ≡ some (over_shared_budget, st) =
                rw (room_loop, tight, nothing) refl in
              (over_shared_budget, st, run, inr refl)
          | inr (st', popped) ↦
              let less : count st' < count st =
                subst (Fewer count (count st)) popped (victim-Fewer preferred st) in
              let run : loop ≡ room_loop z a rx_cost tx_cost id_cost n cost preferred st' =
                rw (room_loop, tight, popped) refl in
              subst (Settles cost) (sym run)
                (loop_Settles n cost preferred st' (omega (arith, less, h)))
        ]
      ]

  -- Making room in the shared budget ends, after at most as many evictions as there are items: either the
  -- queues and the incoming item fit the budget, or the error is returned.
  pub make_shared_queue_room-Settles :
      (cost : ℕ) (preferred : RouterQueueKind) (st : SharedQueues R T K)
      → Settles cost (make_shared_queue_room z a rx_cost tx_cost id_cost cost preferred st)
  unfolding make_shared_queue_room
  make_shared_queue_room-Settles cost preferred st =
      elim (Bool-cases (ltb z.max_queue_budget cost)) [
        | inl large ↦
            let run : make_shared_queue_room z a rx_cost tx_cost id_cost cost preferred st
                ≡ some (over_shared_budget, st) =
              rw (make_shared_queue_room, large) refl in
            (over_shared_budget, st, run, inr refl)
        | inr small ↦
            let run : make_shared_queue_room z a rx_cost tx_cost id_cost cost preferred st
                ≡ room_loop z a rx_cost tx_cost id_cost (count st + 1) cost preferred st =
              rw (make_shared_queue_room, small) refl in
            subst (Settles cost) (sym run)
              (loop_Settles (count st + 1) cost preferred st (omega arith))
      ]
