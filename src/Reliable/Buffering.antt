-- ===== src/Reliable/Buffering.antt =====
-- What buffering keeps of a stream, whatever is evicted to make room.
use sedsprintf_rs.Prelude.{ℕ, ◌≡◌, refl, ◌∙◌, List, [], length, leb, Bool-cases, inl, inr, All}
use sedsprintf_rs.Error.{Result, ok, err, ◌>>◌}
use sedsprintf_rs.Reliable.{
  Limits, ReliableRxState, Room, evict, insert_buffered, buffer_frame, Reaction, request_missing,
  release,
}
use sedsprintf_rs.Reliable.Store.{pop_first, contains_key, All-insert, All-pop_first, All-drop}

-- The frames that a reaction releases.
abbrev pub released : Reaction → List (List ℕ)
released (release fs ack) = fs
released r = []

-- What comes out of a receiver: the frames that it releases, and its state. An error releases nothing.
abbrev pub after_result : Result Reaction × ReliableRxState → List (List ℕ) × ReliableRxState
after_result (err e, rx) = ([], rx)
after_result (ok r, rx) = (released r, rx)

pub after_result-requested :
    (r : Result (Unit {0})) (missing seq : ℕ) (rx : ReliableRxState)
    → after_result (r >> ok (request_missing missing seq), rx) ≡ ([], rx)
after_result-requested (ok u) missing seq rx = refl
after_result-requested (err e) missing seq rx = refl

module _ (P : ℕ × List ℕ → Type 0) where
  -- The expected number is the same, and what is buffered has the property.
  abbrev pub Kept : ReliableRxState → ReliableRxState → Type 0
  Kept rx rx' = (rx'.expected_seq ≡ rx.expected_seq) × All P rx'.buffered

  pub evict-Kept : (n : ℕ) (rx : ReliableRxState) → All P rx.buffered → Kept rx (evict n rx)
  unfolding evict
  evict-Kept n rx a = (refl, All-drop P n rx.buffered a)

  insert_buffered-Kept :
      (limits : Limits) (rx : ReliableRxState) (seq : ℕ) (bytes : List ℕ)
      → All P rx.buffered
      → P (seq, bytes)
      → Kept rx (insert_buffered limits rx seq bytes)
  unfolding insert_buffered
  insert_buffered-Kept limits rx seq bytes a p =
      elim (Bool-cases (leb limits.max_pending (length rx.buffered))) [
        | inl full ↦
            rw full (
              refl,
              All-insert P seq bytes (pop_first rx.buffered) p (All-pop_first P rx.buffered a),
            )
        | inr free ↦ rw free (refl, All-insert P seq bytes rx.buffered p a)
      ]

  buffer_frame-Kept_by :
      (limits : Limits) (n : ℕ) (outcome : Result (Unit {0})) (rx : ReliableRxState) (seq : ℕ)
      (bytes : List ℕ)
      → All P rx.buffered
      → P (seq, bytes)
      → Kept rx (buffer_frame limits (record { evicted = n; outcome = outcome }) rx seq bytes).1
  unfolding buffer_frame
  buffer_frame-Kept_by limits n (err e) rx seq bytes a p =
      elim (Bool-cases (contains_key seq rx.buffered)) [
        | inl present ↦ rw present (refl, a)
        | inr fresh ↦ rw fresh (evict-Kept n rx a)
      ]
  buffer_frame-Kept_by limits n (ok u) rx seq bytes a p =
      elim (Bool-cases (contains_key seq rx.buffered)) [
        | inl present ↦ rw present (refl, a)
        | inr fresh ↦
            let (same, left) = evict-Kept n rx a in
            let (same', both) = insert_buffered-Kept limits (evict n rx) seq bytes left p in
            rw fresh (same' ∙ same, both)
      ]

  pub buffer_frame-Kept :
      (limits : Limits) (room : Room) (rx : ReliableRxState) (seq : ℕ) (bytes : List ℕ)
      → All P rx.buffered
      → P (seq, bytes)
      → Kept rx (buffer_frame limits room rx seq bytes).1
  buffer_frame-Kept limits room rx seq bytes a p =
      buffer_frame-Kept_by limits room.evicted room.outcome rx seq bytes a p
