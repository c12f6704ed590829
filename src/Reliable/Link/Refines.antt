-- ===== src/Reliable/Link/Refines.antt =====
-- The link refines a channel that hands on, in order, what it was given.
use sedsprintf_rs.Prelude.{ℕ, ◌+◌, ◌≤◌, ◌<◌, ◌≡◌, List, length, All}
use sedsprintf_rs.Reliable.{Limits, ReliableRxState}
use sedsprintf_rs.Reliable.InOrder.{frames}
use sedsprintf_rs.Reliable.Link.{Link, counts, Channel}
use sedsprintf_rs.Reliable.Link.Sender.{AllRecorded}
use sedsprintf_rs.Reliable.Link.Wire.{OnWire}

module _ (limits : Limits) (payload : ℕ → List ℕ) where
  -- What the receiver has, when the sender's next number is `next`.
  abbrev Received : ℕ → ReliableRxState → List (List ℕ) → Type 0
  Received next rx delivered =
      All (OnWire payload next) rx.buffered
      × (rx.expected_seq ≤ next)
      × (delivered ≡ frames payload (length delivered) 1)
      × (rx.expected_seq ≡ 1 + length delivered)

  abbrev Sound : Link → Type 0
  Sound l =
      (1 ≤ l.tx.next_seq)
      × AllRecorded payload l.tx
      × All (λ seq. seq < l.tx.next_seq) l.numbered
      × All (OnWire payload l.tx.next_seq) l.wire
      × Received l.tx.next_seq l.rx l.delivered

  abbrev Reached : ℕ → Link → Type 0
  Reached n l = Sound l × (l.tx.next_seq ≤ n + 1) × Channel (0, 0) (counts l)
