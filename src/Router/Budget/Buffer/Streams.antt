-- ===== src/Router/Budget/Buffer/Streams.antt =====
-- What buffering a frame under the shared budget does to the streams.
use mathlib.Core.Path.{subst}
use sedsprintf_rs.Prelude.{
  ℕ, zero, suc, ◌+◌, ◌≡◌, refl, sym, Bool, true, false, Option, none, some, List, length, ltb, inl,
  inr, Bool-cases, Option-cases,
}
use sedsprintf_rs.Error.{Result, ok, err}
use sedsprintf_rs.Queue.{Allocator}
use sedsprintf_rs.Reliable.{
  Limits, ReliableRxState, Room, evict, insert_buffered, buffer_frame, reliable_rx_state_mut,
}
use sedsprintf_rs.Reliable.Store.{contains_key}
use sedsprintf_rs.TimeSync.Calendar.{unwrap_or}
use sedsprintf_rs.Router.Budget.{
  RouterQueueKind, received, transmit, recent, reliable_rx_buffer, discovery, Sizes, SharedQueues,
  pop_buffered, pop_route, without_front, pop_shared_queue_item, largest_shared_queue, pop_victim,
  fits_budget, over_shared_budget, room_loop, items, make_shared_queue_room,
}
use sedsprintf_rs.Router.Budget.Room.{make_shared_queue_room-Settles}
use sedsprintf_rs.Router.Budget.Buffer.{stream_of, put_stream, store_frame, buffer_reliable_rx}
use sedsprintf_rs.Router.Budget.Buffer.Evicted.{
  Shrunk, Shrunk-same, Shrunk-trans, PopShrinks, pop_buffered-Shrinks, put_stream-found,
}

module _ {R T K : Type 0} (same_key before : K → K → Bool) (k : K) (z : Sizes) (a : Allocator)
    (rx_cost : R → ℕ) (tx_cost : T → ℕ) (id_cost : ℕ → ℕ) where
  abbrev stream : SharedQueues R T K → Option ReliableRxState
  stream st = stream_of same_key before k st.reliable_rx

  abbrev Shrinks : SharedQueues R T K → Option (SharedQueues R T K) → Type 0
  Shrinks st none = Unit
  Shrinks st (some st') = Shrunk (stream st) (stream st')

  -- Another queue changes.
  aside :
      {A : Type 0} (st : SharedQueues R T K) (f : A → SharedQueues R T K) (r : Option A)
      → ((x : A) → (f x).reliable_rx ≡ st.reliable_rx)
      → Shrinks st (elim r [ none ↦ none | some x ↦ some (f x) ])
  aside st f none h = tt
  aside st f (some x) h =
      subst (λ streams. Shrunk (stream st) (stream_of same_key before k streams)) (sym (h x))
        (Shrunk-same (stream st))

  inside :
      (st : SharedQueues R T K) (r : Option (List (K × ReliableRxState)))
      → PopShrinks same_key before k st.reliable_rx r
      → Shrinks st
          (elim r [ none ↦ none | some streams ↦ some (record st { reliable_rx = streams }) ])
  inside st none h = tt
  inside st (some streams) h = h

  pop-Shrinks :
      (kind : RouterQueueKind) (st : SharedQueues R T K)
      → Shrinks st (pop_shared_queue_item z a rx_cost tx_cost id_cost kind st)
  unfolding pop_shared_queue_item
  pop-Shrinks received st =
      aside st (λ q. record st { received_queue = q }) (without_front rx_cost a st.received_queue)
        (λ q. refl)
  pop-Shrinks transmit st =
      aside st (λ q. record st { transmit_queue = q }) (without_front tx_cost a st.transmit_queue)
        (λ q. refl)
  pop-Shrinks recent st =
      aside st (λ q. record st { recent_rx = q }) (without_front id_cost a st.recent_rx) (λ q. refl)
  pop-Shrinks reliable_rx_buffer st =
      inside st (pop_buffered st.reliable_rx)
        (pop_buffered-Shrinks same_key before k st.reliable_rx)
  pop-Shrinks discovery st =
      aside st (λ routes. record st { discovery_routes = routes }) (pop_route st.discovery_routes)
        (λ routes. refl)

  either-Shrinks :
      (st : SharedQueues R T K) (first second : Option (SharedQueues R T K))
      → Shrinks st first
      → Shrinks st second
      → Shrinks st (elim first [ none ↦ second | some st' ↦ some st' ])
  either-Shrinks st none second h j = j
  either-Shrinks st (some st') second h j = h

  victim-Shrinks :
      (preferred : RouterQueueKind) (st : SharedQueues R T K)
      → Shrinks st (pop_victim z a rx_cost tx_cost id_cost preferred st)
  unfolding pop_victim
  victim-Shrinks preferred st =
      let victim = unwrap_or (largest_shared_queue z a rx_cost tx_cost id_cost st) preferred in
      either-Shrinks st (pop_shared_queue_item z a rx_cost tx_cost id_cost victim st)
        (pop_shared_queue_item z a rx_cost tx_cost id_cost preferred st) (pop-Shrinks victim st)
        (pop-Shrinks preferred st)

  abbrev RunShrinks : SharedQueues R T K → Option (Result (Unit {0}) × SharedQueues R T K) → Type 0
  RunShrinks st none = Unit
  RunShrinks st (some (r, st')) = Shrunk (stream st) (stream st')

  RunShrinks-trans :
      (st st' : SharedQueues R T K) (r : Option (Result (Unit {0}) × SharedQueues R T K))
      → Shrunk (stream st) (stream st')
      → RunShrinks st' r
      → RunShrinks st r
  RunShrinks-trans st st' none h j = tt
  RunShrinks-trans st st' (some (r, st'')) h j =
      Shrunk-trans (stream st) (stream st') (stream st'') h j

  loop-RunShrinks :
      (n cost : ℕ) (preferred : RouterQueueKind) (st : SharedQueues R T K)
      → RunShrinks st (room_loop z a rx_cost tx_cost id_cost n cost preferred st)
  unfolding room_loop
  loop-RunShrinks zero cost preferred st = tt
  loop-RunShrinks (suc n) cost preferred st =
      let loop = room_loop z a rx_cost tx_cost id_cost (suc n) cost preferred st in
      elim (Bool-cases (fits_budget z a rx_cost tx_cost id_cost st cost)) [
        | inl fits ↦
            let run : loop ≡ some (ok tt, st) = rw (room_loop, fits) refl in
            subst (RunShrinks st) (sym run) (Shrunk-same (stream st))
        | inr tight ↦ elim (Option-cases (pop_victim z a rx_cost tx_cost id_cost preferred st)) [
          | inl nothing ↦
              let run : loop ≡ some (over_shared_budget, st) =
                rw (room_loop, tight, nothing) refl in
              subst (RunShrinks st) (sym run) (Shrunk-same (stream st))
          | inr (st', popped) ↦
              let less = subst (Shrinks st) popped (victim-Shrinks preferred st) in
              let run : loop ≡ room_loop z a rx_cost tx_cost id_cost n cost preferred st' =
                rw (room_loop, tight, popped) refl in
              subst (RunShrinks st) (sym run) (
                RunShrinks-trans st st' (room_loop z a rx_cost tx_cost id_cost n cost preferred st')
                  less (loop-RunShrinks n cost preferred st'))
        ]
      ]

  -- Making room takes frames from the front of a stream's buffer, and changes nothing else of the stream.
  pub make_shared_queue_room-RunShrinks :
      (cost : ℕ) (preferred : RouterQueueKind) (st : SharedQueues R T K)
      → RunShrinks st (make_shared_queue_room z a rx_cost tx_cost id_cost cost preferred st)
  unfolding make_shared_queue_room
  make_shared_queue_room-RunShrinks cost preferred st =
      elim (Bool-cases (ltb z.max_queue_budget cost)) [
        | inl never ↦ rw never (Shrunk-same (stream st))
        | inr maybe ↦
            rw maybe (loop-RunShrinks (items z a rx_cost tx_cost id_cost st + 1) cost preferred st)
      ]

  module _ (limits : Limits) (seq : ℕ) (bytes : List ℕ) (same : same_key k k ≡ true) where
    -- The stream sees the buffering as a whole as a step of its own, with some room.
    abbrev pub SeesFrame :
        ReliableRxState → Option (Result (Unit {0}) × SharedQueues R T K) → Type 0
    SeesFrame rx run =
        (room : Room) × (after : SharedQueues R T K) × (run
          ≡ some ((buffer_frame limits room rx seq bytes).0, after))
        × (stream after ≡ some (buffer_frame limits room rx seq bytes).1)

    stored-SeesFrame :
        (rx : ReliableRxState) (n : ℕ) (result : Result (Unit {0})) (made : SharedQueues R T K)
        → contains_key seq rx.buffered ≡ false
        → stream made ≡ some (evict n rx)
        → SeesFrame rx (
            some (
              store_frame same_key before limits z a rx_cost tx_cost id_cost k seq bytes
                (result, made)))
    unfolding store_frame buffer_frame reliable_rx_state_mut
    stored-SeesFrame rx n (err e) made fresh left =
        (record { evicted = n; outcome = err e }, made, rw fresh refl, rw fresh left)
    stored-SeesFrame rx n (ok u) made fresh left =
        let stored = insert_buffered limits (evict n rx) seq bytes in
        (
          record { evicted = n; outcome = ok u },
          record made { reliable_rx = put_stream same_key before k stored made.reliable_rx },
          rw (fresh, left) refl,
          rw fresh (put_stream-found same_key before k stored made.reliable_rx same),
        )

    -- Buffering a frame under the shared budget comes to an end, and does to the frame's stream, and returns,
    -- what `buffer_frame` says for some room: the stream is there, and its key is the same as itself.
    pub buffer_reliable_rx-SeesFrame :
        (st : SharedQueues R T K) (rx : ReliableRxState)
        → stream st ≡ some rx
        → SeesFrame rx
            (buffer_reliable_rx same_key before limits z a rx_cost tx_cost id_cost k seq bytes st)
    unfolding buffer_reliable_rx buffer_frame
    buffer_reliable_rx-SeesFrame st rx e =
        let whole =
          buffer_reliable_rx same_key before limits z a rx_cost tx_cost id_cost k seq bytes st in
        elim (Bool-cases (contains_key seq rx.buffered)) [
          | inl present ↦
              let run : whole ≡ some (ok tt, st) = rw (buffer_reliable_rx, e, present) refl in
              subst (SeesFrame rx) (sym run)
                (record { evicted = 0; outcome = ok tt }, st, rw present refl, rw present e)
          | inr fresh ↦
              let cost = z.shared_bytes + length bytes in
              let (result, made, settled, fits) =
                make_shared_queue_room-Settles z a rx_cost tx_cost id_cost cost reliable_rx_buffer
                  st in
              let shrunk =
                subst (RunShrinks st) settled
                  (make_shared_queue_room-RunShrinks cost reliable_rx_buffer st) in
              let (n, left) = subst (λ o. Shrunk o (stream made)) e shrunk in
              let run : whole
                  ≡ some (
                      store_frame same_key before limits z a rx_cost tx_cost id_cost k seq bytes
                        (result, made)) =
                rw (buffer_reliable_rx, e, fresh, settled) refl in
              subst (SeesFrame rx) (sym run) (stored-SeesFrame rx n result made fresh left)
        ]
