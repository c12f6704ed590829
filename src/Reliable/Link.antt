-- ===== src/Reliable/Link.antt =====
-- One direction of a link with an ordered reliable stream, end to end: the sender's and the receiver's
-- state of src/router.rs, and between them a side that may lose, repeat and reorder frames.
pub mod Sender
pub mod Refines
pub mod Wire
use mathlib.Core.List.{Memᴰ}
use sedsprintf_rs.Prelude.{
  ℕ, ◌+◌, ◌-◌, ◌<◌, ◌≡◌, false, Option, none, some, List, [], ◌∷◌, ◌++◌, length,
}
use sedsprintf_rs.Error.{ok}
use sedsprintf_rs.Reliable.{
  Limits, ReliableTxState, ReliableRxState, reliable_tx_state_mut, reliable_rx_state_mut,
  allocate_seq, record_sent, handle_reliable_ack, queue_reliable_retransmit, scan_seq, replay_sent,
  receive_ordered, Room, evict,
}
use sedsprintf_rs.Reliable.Buffering.{after_result}

-- The numbers that were given to frames which the side's handler has not yet answered for, the frames
-- on the way, and what the receiver has released: the router drops duplicates of packets after that.
pub record Link : Type 0 where
  pub tx : ReliableTxState
  pub numbered : List ℕ
  pub wire : List (ℕ × List ℕ)
  pub rx : ReliableRxState
  pub delivered : List (List ℕ)

-- Neither side has a state of the stream yet.
abbrev pub start : Link
start = record {
  tx = reliable_tx_state_mut none;
  numbered = [];
  wire = [];
  rx = reliable_rx_state_mut none;
  delivered = [];
}

module _ (limits : Limits) (payload : ℕ → List ℕ) where
  -- A step of the link. The application hands over payload 1, payload 2, …: the one of the number that
  -- the sender gives it.
  pub data Step : Link → Link → Type 0 where
    -- A new frame is numbered and handed to the side's handler, which may lose it.
    send :
        (l : Link) (seq flags : ℕ) (tx : ReliableTxState)
        → allocate_seq limits false l.tx ≡ ok ((seq, flags), tx)
        → Step l
            (record l { tx = tx; numbered = seq ∷ l.numbered; wire = (seq, payload seq) ∷ l.wire })
    -- The handler has taken a frame, and it is recorded.
    taken :
        (l : Link) (before after : List ℕ) (seq now : ℕ)
        → l.numbered ≡ before ++ (seq ∷ after)
        → Step l
            (record l { tx = record_sent l.tx seq (payload seq) now; numbered = before ++ after })
    -- The handler has failed, and the number is used up without a record.
    failed :
        (l : Link) (before after : List ℕ) (seq : ℕ)
        → l.numbered ≡ before ++ (seq ∷ after)
        → Step l (record l { numbered = before ++ after })
    -- A recorded frame is queued again, and handed to the side.
    resend :
        (l : Link) (seq : ℕ) (bytes : List ℕ) (tx : ReliableTxState)
        → queue_reliable_retransmit l.tx seq ≡ (tx, some bytes)
        → Step l (record l { tx = tx; wire = (seq, bytes) ∷ l.wire })
    replayed : (l : Link) (seq now : ℕ) → Step l (record l { tx = replay_sent l.tx seq now })
    -- A turn of the scan for timeouts.
    timeout : (l : Link) (seq now : ℕ) → Step l (record l { tx = (scan_seq limits now seq l.tx).0 })
    -- An acknowledgement of any number arrives.
    acked : (l : Link) (ack : ℕ) → Step l (record l { tx = handle_reliable_ack false l.tx ack })
    -- A frame that was once handed to the side arrives. Room for it is made at the cost of frames that
    -- its stream has buffered, or there is none.
    arrive :
        (l : Link) (seq : ℕ) (bytes : List ℕ) (room : Room)
        → Memᴰ (seq, bytes) l.wire
        → Step l (
            let (fs, rx) = after_result (receive_ordered limits room l.rx seq bytes) in
            record l { rx = rx; delivered = l.delivered ++ fs })
    -- Other traffic evicts buffered frames of the stream.
    squeezed : (l : Link) (n : ℕ) → Step l (record l { rx = evict n l.rx })

  -- So many steps.
  pub data Steps (k : Link) : ℕ → Link → Type 0 where
    done : Steps k 0 k
    more : {n : ℕ} {l m : Link} → Steps k n l → Step l m → Steps k (n + 1) m

-- How many payloads the link was given, and how many it has handed on.
abbrev pub counts : Link → ℕ × ℕ
counts l = (l.tx.next_seq - 1, length l.delivered)

-- What the link promises: a channel that hands on, in order, what it was given. Its state is how many
-- payloads it was given, and how many of them it has handed on.
pub data Channel : ℕ × ℕ → ℕ × ℕ → Type 0 where
  idle : (c : ℕ × ℕ) → Channel c c
  take_one :
      {c : ℕ × ℕ} {given handed : ℕ} → Channel c (given, handed) → Channel c (given + 1, handed)
  hand_one :
      {c : ℕ × ℕ} {given handed : ℕ}
      → Channel c (given, handed)
      → handed < given
      → Channel c (given, handed + 1)
