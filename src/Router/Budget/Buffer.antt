-- ===== src/Router/Budget/Buffer.antt =====
-- Buffering a frame of a reliable stream under the shared budget, on all streams: `buffer_reliable_rx` of
-- src/router.rs. The order of the keys is a parameter.
pub mod Evicted
pub mod Streams
use sedsprintf_rs.Prelude.{
  ℕ, ◌+◌, Bool, true, false, Option, none, some, List, [], ◌∷◌, length, if◌then◌else◌,
}
use sedsprintf_rs.Error.{Result, ok, err}
use sedsprintf_rs.Queue.{Allocator}
use sedsprintf_rs.Reliable.{Limits, ReliableRxState, reliable_rx_state_mut, insert_buffered}
use sedsprintf_rs.Reliable.Store.{contains_key}
use sedsprintf_rs.Router.Budget.{Sizes, SharedQueues, make_shared_queue_room, reliable_rx_buffer}

module _ {K : Type 0} (same_key before : K → K → Bool) where
  unfoldable pub stream_of : K → List (K × ReliableRxState) → Option ReliableRxState
  stream_of k [] = none
  stream_of k ((key, rx) ∷ streams) =
      let rest = stream_of k streams in if same_key key k then some rx else rest

  unfoldable pub put_stream :
      K → ReliableRxState → List (K × ReliableRxState) → List (K × ReliableRxState)
  put_stream k rx [] = (k, rx) ∷ []
  put_stream k rx ((key, old) ∷ streams) =
      let rest = put_stream k rx streams in
      if same_key key k
      then (key, rx) ∷ streams
      else if before k key
      then (k, rx) ∷ (key, old) ∷ streams
      else (key, old) ∷ rest

-- Whether the stream is there and has buffered the number.
abbrev pub is_buffered : Option ReliableRxState → ℕ → Bool
is_buffered none seq = false
is_buffered (some rx) seq = contains_key seq rx.buffered

module _ {R T K : Type 0} (same_key before : K → K → Bool) (limits : Limits) (z : Sizes)
    (a : Allocator) (rx_cost : R → ℕ) (tx_cost : T → ℕ) (id_cost : ℕ → ℕ) where
  -- The frame joins its stream if room was made, and the state is that after making room in any case.
  unfoldable pub store_frame :
      K
      → ℕ
      → List ℕ
      → Result (Unit {0}) × SharedQueues R T K
      → Result (Unit {0}) × SharedQueues R T K
  store_frame key seq bytes (err e, st) = (err e, st)
  store_frame key seq bytes (ok u, st) =
      let rx = reliable_rx_state_mut (stream_of same_key before key st.reliable_rx) in
      (
        ok tt,
        record st {
          reliable_rx =
              put_stream same_key before key (insert_buffered limits rx seq bytes) st.reliable_rx;
        },
      )

  unfoldable pub buffer_reliable_rx :
      K → ℕ → List ℕ → SharedQueues R T K → Option (Result (Unit {0}) × SharedQueues R T K)
  unfolding store_frame stream_of
  buffer_reliable_rx key seq bytes st =
      if is_buffered (stream_of same_key before key st.reliable_rx) seq
      then some (ok tt, st)
      else elim (make_shared_queue_room z a rx_cost tx_cost id_cost (z.shared_bytes + length bytes)
          reliable_rx_buffer st) [ none ↦ none | some made ↦ some (store_frame key seq bytes made) ]
