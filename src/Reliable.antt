-- ===== src/Reliable.antt =====
-- Reliable delivery on one stream (a side and a data type) of the router: src/router.rs.
pub mod Store
pub mod Buffering
pub mod InOrder
pub mod Acks
pub mod Routes
pub mod Retries
pub mod Below
pub mod Link
use sedsprintf_rs.Prelude.{
  ℕ, zero, suc, ◌+◌, ◌-◌, ◌<◌, ◌/◌, max, Bool, true, false, not, ◌&&◌, ◌||◌, Option, none, some,
  List, [], ◌∷◌, ◌++◌, length, drop, ltb, leb, ◌==◌, if◌then◌else◌, wrapping_add32, wrapping_sub64,
  saturating_add, saturating_mul, saturating_sub,
}
use sedsprintf_rs.Error.{Result, ok, err, ◌>>◌, packet_too_large}
use sedsprintf_rs.Serialize.Trailer.{reliable_flag_unordered}
use sedsprintf_rs.Reliable.Store.{BtreeMap, get, insert, remove, pop_first, contains_key}

-- The build-time constants of src/config.rs.
pub record Limits : Type 0 where
  pub retransmit_ms : ℕ
  pub max_retries : ℕ
  pub max_pending : ℕ

pub record ReliableSent : Type 0 where
  pub bytes : List ℕ
  pub last_send_ms : ℕ
  pub retries : ℕ
  pub queued : Bool
  pub partial_acked : Bool

pub record ReliableTxState : Type 0 where
  pub next_seq : ℕ
  pub sent_order : List ℕ
  pub sent : BtreeMap ReliableSent

pub record ReliableRxState : Type 0 where
  pub expected_seq : ℕ
  pub buffered : BtreeMap (List ℕ)

-- The state of a stream, or that of a new one.
unfoldable pub reliable_tx_state_mut : Option ReliableTxState → ReliableTxState
reliable_tx_state_mut none = record { next_seq = 1; sent_order = []; sent = [] }
reliable_tx_state_mut (some st) = st

unfoldable pub reliable_rx_state_mut : Option ReliableRxState → ReliableRxState
reliable_rx_state_mut none = record { expected_seq = 1; buffered = [] }
reliable_rx_state_mut (some st) = st

-- The successor of a sequence number, which skips 0 when it wraps.
unfoldable pub skip_zero : ℕ → ℕ
skip_zero seq = let next = wrapping_add32 seq 1 in if next == 0 then 1 else next

-- `retain` of the numbers other than one.
unfoldable pub without : ℕ → List ℕ → List ℕ
without seq [] = []
without seq (s ∷ order) = let rest = without seq order in if s == seq then rest else s ∷ rest

module _ (limits : Limits) where
  -- The sequence number and the flags of the next frame of the stream.
  unfoldable pub allocate_seq : Bool → ReliableTxState → Result ((ℕ × ℕ) × ReliableTxState)
  unfolding skip_zero
  allocate_seq unordered tx =
      let flags = if unordered then reliable_flag_unordered else 0 in
      if leb limits.max_pending (length tx.sent)
      then err (packet_too_large "router reliable history full")
      else ok ((tx.next_seq, flags), record tx { next_seq = skip_zero tx.next_seq })

-- The state after a frame was handed to the side.
unfoldable pub record_sent : ReliableTxState → ℕ → List ℕ → ℕ → ReliableTxState
record_sent tx seq bytes now = record tx {
  sent_order = tx.sent_order ++ (seq ∷ []);
  sent =
      insert seq
        (record {
          bytes = bytes;
          last_send_ms = now;
          retries = 0;
          queued = false;
          partial_acked = false;
        })
        tx.sent;
}

-- `while let Some(seq) = sent_order.front()`, along the order.
unfoldable pub ack_loop : ℕ → List ℕ → BtreeMap ReliableSent → List ℕ × BtreeMap ReliableSent
ack_loop ack [] sent = ([], sent)
ack_loop ack (seq ∷ order) sent =
    let rest = ack_loop ack order (remove seq sent) in
    if ltb ack seq then (seq ∷ order, sent) else rest

unfoldable pub handle_reliable_ack : Bool → ReliableTxState → ℕ → ReliableTxState
unfolding ack_loop without
handle_reliable_ack unordered tx ack =
    let (order, sent) = ack_loop ack tx.sent_order tx.sent in
    if unordered
    then record tx { sent = remove ack tx.sent; sent_order = without ack tx.sent_order }
    else record tx { sent = sent; sent_order = order }

-- An entry that `get_mut` finds is changed in place.
unfoldable pub handle_reliable_partial_ack : ReliableTxState → ℕ → ReliableTxState
handle_reliable_partial_ack tx seq = elim (get seq tx.sent) [
  | none ↦ tx
  | some s ↦ record tx { sent = insert seq (record s { partial_acked = true }) tx.sent }
]

-- The state, and the bytes that are queued for the side, if any.
unfoldable pub queue_reliable_retransmit : ReliableTxState → ℕ → ReliableTxState × Option (List ℕ)
queue_reliable_retransmit tx seq = elim (get seq tx.sent) [
  | none ↦ (tx, none)
  | some s ↦ if s.queued then (tx, none) else (
    record tx { sent = insert seq (record s { queued = true; partial_acked = false }) tx.sent },
    some s.bytes,
  )
]

-- After a replayed frame was handed to the side.
unfoldable pub replay_sent : ReliableTxState → ℕ → ℕ → ReliableTxState
replay_sent tx seq now = elim (get seq tx.sent) [
  | none ↦ tx
  | some s ↦ record tx {
    sent = insert seq (record s { last_send_ms = now; queued = false }) tx.sent;
  }
]

module _ (limits : Limits) where
  -- One turn of the scan of `process_reliable_timeouts`: the state, and whether the number is requeued.
  unfoldable pub scan_seq : ℕ → ℕ → ReliableTxState → ReliableTxState × Bool
  unfolding without
  scan_seq now seq tx = elim (get seq tx.sent) [
    | none ↦ (tx, false)
    | some s ↦
        if s.queued || ltb (wrapping_sub64 now s.last_send_ms) limits.retransmit_ms
        then (tx, false)
        else if s.partial_acked
        then (tx, false)
        else if leb limits.max_retries s.retries
        then (
          record tx { sent = remove seq tx.sent; sent_order = without seq tx.sent_order },
          false,
        )
        else (record tx { sent = insert seq (record s { retries = s.retries + 1 }) tx.sent }, true)
  ]

  -- The scan along a copy of the order, and the numbers to requeue.
  unfoldable pub scan_order : ℕ → List ℕ → ReliableTxState → ReliableTxState × List ℕ
  unfolding scan_seq
  scan_order now [] tx = (tx, [])
  scan_order now (seq ∷ order) tx =
      let (tx', again) = scan_seq now seq tx in
      let (tx'', requeue) = scan_order now order tx' in
      (tx'', if again then seq ∷ requeue else requeue)

-- What making room in the shared budget does to a stream: it loses so many of its buffered frames, the
-- first one each time, and there is room or not.
pub record Room : Type 0 where
  pub evicted : ℕ
  pub outcome : Result (Unit {0})

unfoldable pub evict : ℕ → ReliableRxState → ReliableRxState
evict n rx = record rx { buffered = drop n rx.buffered }

module _ (limits : Limits) where
  -- A frame joins the buffered ones, of which the first goes when there are too many.
  unfoldable pub insert_buffered : ReliableRxState → ℕ → List ℕ → ReliableRxState
  insert_buffered rx seq bytes =
      let kept =
        if leb limits.max_pending (length rx.buffered)
        then pop_first rx.buffered
        else rx.buffered in
      record rx { buffered = insert seq bytes kept }

  -- Buffering a frame that is ahead, as its stream sees it: the result, and the stream after it, which
  -- has lost the evicted frames whether there is room or not.
  unfoldable pub buffer_frame :
      Room → ReliableRxState → ℕ → List ℕ → Result (Unit {0}) × ReliableRxState
  unfolding evict insert_buffered
  buffer_frame room rx seq bytes =
      let left = evict room.evicted rx in
      if contains_key seq rx.buffered then (ok tt, rx) else elim room.outcome [
        | err e ↦ (err e, left)
        | ok u ↦ (ok tt, insert_buffered left seq bytes)
      ]

-- What the router does with a sequenced frame of an ordered stream: acknowledge an old one, report a
-- missing one (the number it asks for and the one that it has), or release frames and acknowledge.
pub data Reaction : Type 0 where
  ack_old : ℕ → Reaction
  request_missing : ℕ → ℕ → Reaction
  release : List (List ℕ) → ℕ → Reaction

-- `while let Some(buf) = rx_state.buffered.remove(&next_expected)`: the released frames, the last
-- number, the next one, and what stays buffered. Each turn removes an entry, so as many turns as there
-- are entries are enough.
unfoldable pub drain : ℕ → ℕ → ℕ → BtreeMap (List ℕ) → List (List ℕ) × ℕ × ℕ × BtreeMap (List ℕ)
unfolding skip_zero
drain zero last next buffered = ([], last, next, buffered)
drain (suc n) last next buffered = elim (get next buffered) [
  | none ↦ ([], last, next, buffered)
  | some buf ↦
      let (more, last', next', rest) = drain n next (skip_zero next) (remove next buffered) in
      (buf ∷ more, last', next', rest)
]

module _ (limits : Limits) where
  unfoldable pub receive_ordered :
      Room → ReliableRxState → ℕ → List ℕ → Result Reaction × ReliableRxState
  unfolding buffer_frame drain
  receive_ordered room rx seq bytes =
      let expected = rx.expected_seq in
      let (more, last, next, rest) =
        drain (length rx.buffered) seq (wrapping_add32 seq 1) rx.buffered in
      let (buffered, rx') = buffer_frame limits room rx seq bytes in
      if ltb seq expected
      then (ok (ack_old (saturating_sub expected 1)), rx)
      else if ltb expected seq
      then (buffered >> ok (request_missing expected seq), rx')
      else (ok (release (bytes ∷ more) last), record { expected_seq = next; buffered = rest })

pub record AdaptiveRouteStats : Type 0 where
  pub estimated_bandwidth_bps : ℕ
  pub last_observed_ms : ℕ

unfoldable pub observe : AdaptiveRouteStats → ℕ → ℕ → AdaptiveRouteStats
observe st sample now =
    let old = st.estimated_bandwidth_bps in
    record {
      estimated_bandwidth_bps =
          if old == 0
          then sample
          else if leb old sample
          then saturating_add (saturating_mul old 3) (saturating_mul sample 5) / 8
          else saturating_add (saturating_mul old 7) sample / 8;
      last_observed_ms = now;
    }

unfoldable pub weight : AdaptiveRouteStats → ℕ
weight st = max st.estimated_bandwidth_bps 1
