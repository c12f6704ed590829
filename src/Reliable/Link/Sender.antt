-- ===== src/Reliable/Link/Sender.antt =====
-- The sender records only payloads that it has numbered.
use mathlib.Core.Path.{subst}
use sedsprintf_rs.Prelude.{
  ℕ, ◌+◌, ◌<◌, ◌≡◌, refl, sym, ap, ◌∙◌, true, false, ◌||◌, none, some, List, [], ◌∷◌, length, ltb,
  leb, Bool-cases, Option-cases, inl, inr, u32_mod, All, arith, wrapping_sub64,
}
use sedsprintf_rs.Error.{ok, err, packet_too_large}
use sedsprintf_rs.Reliable.{
  Limits, ReliableTxState, ReliableSent, skip_zero, allocate_seq, record_sent, ack_loop,
  handle_reliable_ack, queue_reliable_retransmit, replay_sent, scan_seq,
}
use sedsprintf_rs.Reliable.InOrder.{skip_zero-small}
use sedsprintf_rs.Reliable.Store.{BtreeMap, get, insert, remove, All-insert, All-remove, All-get}

ok-inj : {A : Type 0} (a b : A) → ok a ≡ ok b → a ≡ b
ok-inj a b e = cc

module _ (payload : ℕ → List ℕ) where
  -- A recorded frame is the payload of its number, below the next one.
  abbrev pub Recorded : ℕ → ℕ × ReliableSent → Type 0
  Recorded next (seq, s) = (s.bytes ≡ payload seq) × (seq < next)

  abbrev pub AllRecorded : ReliableTxState → Type 0
  AllRecorded tx = All (Recorded tx.next_seq) tx.sent

  -- An operation that numbers nothing.
  abbrev pub Keeps : ReliableTxState → ReliableTxState → Type 0
  Keeps tx tx' = (tx'.next_seq ≡ tx.next_seq) × All (Recorded tx.next_seq) tx'.sent

  Recorded-weaken :
      (next : ℕ) (m : BtreeMap ReliableSent) → All (Recorded next) m → All (Recorded (next + 1)) m
  Recorded-weaken next [] a = tt
  Recorded-weaken next ((seq, s) ∷ m) ((same, lt), a) =
      ((same, omega (arith, lt)), Recorded-weaken next m a)

  -- A record that is changed, but for its bytes, in its place.
  changed-Recorded :
      (tx : ReliableTxState) (seq : ℕ) (s s' : ReliableSent)
      → AllRecorded tx
      → get seq tx.sent ≡ some s
      → s'.bytes ≡ s.bytes
      → All (Recorded tx.next_seq) (insert seq s' tx.sent)
  changed-Recorded tx seq s s' a found same =
      let (bytes, lt) = All-get (Recorded tx.next_seq) seq tx.sent s a found in
      All-insert (Recorded tx.next_seq) seq s' tx.sent (same ∙ bytes, lt) a

  pub replay_sent-Keeps :
      (tx : ReliableTxState) (seq now : ℕ) → AllRecorded tx → Keeps tx (replay_sent tx seq now)
  unfolding replay_sent
  replay_sent-Keeps tx seq now a = elim (Option-cases (get seq tx.sent)) [
    | inl missing ↦ rw (replay_sent, missing) (refl, a)
    | inr (s, found) ↦
        let s' : ReliableSent = record s { last_send_ms = now; queued = false } in
        rw (replay_sent, found) (refl, changed-Recorded tx seq s s' a found refl)
  ]

  ack_loop-Recorded :
      (next ack : ℕ) (order : List ℕ) (m : BtreeMap ReliableSent)
      → All (Recorded next) m
      → All (Recorded next) (ack_loop ack order m).1
  unfolding ack_loop
  ack_loop-Recorded next ack [] m a = a
  ack_loop-Recorded next ack (seq ∷ order) m a = elim (Bool-cases (ltb ack seq)) [
    | inl stop ↦ rw stop a
    | inr gone ↦
        rw gone
          (ack_loop-Recorded next ack order (remove seq m) (All-remove (Recorded next) seq m a))
  ]

  pub handle_reliable_ack-Keeps :
      (tx : ReliableTxState) (ack : ℕ)
      → AllRecorded tx
      → Keeps tx (handle_reliable_ack false tx ack)
  unfolding handle_reliable_ack
  handle_reliable_ack-Keeps tx ack a =
      (refl, ack_loop-Recorded tx.next_seq ack tx.sent_order tx.sent a)

  pub scan_seq-Keeps :
      (limits : Limits) (now seq : ℕ) (tx : ReliableTxState)
      → AllRecorded tx
      → Keeps tx (scan_seq limits now seq tx).0
  unfolding scan_seq
  scan_seq-Keeps limits now seq tx a = elim (Option-cases (get seq tx.sent)) [
    | inl missing ↦ rw (scan_seq, missing) (refl, a)
    | inr (s, found) ↦
        elim (Bool-cases
          (s.queued || ltb (wrapping_sub64 now s.last_send_ms) limits.retransmit_ms)) [
            | inl early ↦ rw (scan_seq, found, early) (refl, a)
            | inr late ↦ elim (Bool-cases s.partial_acked) [
              | inl partial ↦ rw (scan_seq, found, late, partial) (refl, a)
              | inr unheard ↦ elim (Bool-cases (leb limits.max_retries s.retries)) [
                | inl spent ↦
                    rw (scan_seq, found, late, unheard, spent)
                      (refl, All-remove (Recorded tx.next_seq) seq tx.sent a)
                | inr left ↦
                    let s' : ReliableSent = record s {
                      retries = s.retries + 1;
                      partial_acked = false;
                    } in
                    rw (scan_seq, found, late, unheard, left)
                      (refl, changed-Recorded tx seq s s' a found refl)
              ]
            ]
          ]
  ]

  -- The bytes that are queued again are the payload of their number.
  pub queue_reliable_retransmit-Keeps :
      (tx tx' : ReliableTxState) (seq : ℕ) (bytes : List ℕ)
      → AllRecorded tx
      → queue_reliable_retransmit tx seq ≡ (tx', some bytes)
      → Keeps tx tx' × (bytes ≡ payload seq) × (seq < tx.next_seq)
  unfolding queue_reliable_retransmit
  queue_reliable_retransmit-Keeps tx tx' seq bytes a e = elim (Option-cases (get seq tx.sent)) [
    | inl missing ↦
        let run : queue_reliable_retransmit tx seq ≡ (tx, none) =
          rw (queue_reliable_retransmit, missing) refl in
        let wrong : none ≡ some bytes = ap (λ r. r.1) (sym run ∙ e) in absurd cc
    | inr (s, found) ↦ elim (Bool-cases s.queued) [
      | inl waits ↦
          let run : queue_reliable_retransmit tx seq ≡ (tx, none) =
            rw (queue_reliable_retransmit, found, waits) refl in
          let wrong : none ≡ some bytes = ap (λ r. r.1) (sym run ∙ e) in absurd cc
      | inr idle ↦
          let s' : ReliableSent = record s { queued = true; partial_acked = false } in
          let tx1 : ReliableTxState = record tx { sent = insert seq s' tx.sent } in
          let run : queue_reliable_retransmit tx seq ≡ (tx1, some s.bytes) =
            rw (queue_reliable_retransmit, found, idle) refl in
          let both = sym run ∙ e in
          let states : tx1 ≡ tx' = ap (λ r. r.0) both in
          let sent : some s.bytes ≡ some bytes = ap (λ r. r.1) both in
          let same : s.bytes ≡ bytes = cc in
          let (here, lt) = All-get (Recorded tx.next_seq) seq tx.sent s a found in
          (
            subst (Keeps tx) states (refl, changed-Recorded tx seq s s' a found refl),
            sym same ∙ here,
            lt,
          )
    ]
  ]

  -- A new frame takes the next number.
  pub allocate_seq-AllRecorded :
      (limits : Limits) (tx tx' : ReliableTxState) (seq flags : ℕ)
      → AllRecorded tx
      → tx.next_seq + 1 < u32_mod
      → allocate_seq limits false tx ≡ ok ((seq, flags), tx')
      → (seq ≡ tx.next_seq) × (tx'.next_seq ≡ tx.next_seq + 1) × AllRecorded tx'
  unfolding allocate_seq
  allocate_seq-AllRecorded limits tx tx' seq flags a small e =
      elim (Bool-cases (leb limits.max_pending (length tx.sent))) [
        | inl full ↦
            let run : allocate_seq limits false tx
                ≡ err (packet_too_large "router reliable history full") =
              rw (allocate_seq, full) refl in
            let wrong = sym run ∙ e in absurd cc
        | inr free ↦
            let tx1 : ReliableTxState = record tx { next_seq = skip_zero tx.next_seq } in
            let run : allocate_seq limits false tx ≡ ok ((tx.next_seq, 0), tx1) =
              rw (allocate_seq, free) refl in
            let both = sym run ∙ e in
            let results = ok-inj ((tx.next_seq, 0), tx1) ((seq, flags), tx') both in
            let next : skip_zero tx.next_seq ≡ tx.next_seq + 1 =
              skip_zero-small payload tx.next_seq small in
            let number : tx.next_seq ≡ seq = ap (λ r. r.0.0) results in
            let states : tx1 ≡ tx' = ap (λ r. r.1) results in
            let next' : tx'.next_seq ≡ tx.next_seq + 1 = sym (ap (λ t. t.next_seq) states) ∙ next in
            let kept : All (Recorded (tx.next_seq + 1)) tx'.sent =
              subst (λ t. All (Recorded (tx.next_seq + 1)) t.sent) states
                (Recorded-weaken tx.next_seq tx.sent a) in
            (sym number, next', subst (λ n. All (Recorded n) tx'.sent) (sym next') kept)
      ]

  -- A frame is recorded under its number.
  pub record_sent-Keeps :
      (tx : ReliableTxState) (seq now : ℕ)
      → AllRecorded tx
      → seq < tx.next_seq
      → Keeps tx (record_sent tx seq (payload seq) now)
  unfolding record_sent
  record_sent-Keeps tx seq now a lt =
      let fresh : ReliableSent = record {
        bytes = payload seq;
        last_send_ms = now;
        retries = 0;
        queued = false;
        partial_acked = false;
      } in
      (refl, All-insert (Recorded tx.next_seq) seq fresh tx.sent (refl, lt) a)
