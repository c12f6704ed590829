-- ===== src/Reliable/Retries.antt =====
-- The scan for timeouts, and the number of times that a frame is sent again.
use mathlib.Core.Path.{subst}
use sedsprintf_rs.Prelude.{
  ℕ, ◌+◌, ◌≤◌, ◌≡◌, ◌≢◌, refl, sym, ap, ◌∙◌, Bool, true, false, ◌||◌, Option, none, some, List, [],
  ◌∷◌, ◌++◌, ltb, leb, ◌==◌, if◌then◌else◌, Bool-cases, Option-cases, inl, inr, All, wrapping_sub64,
  arith,
}
use sedsprintf_rs.Reliable.{Limits, ReliableSent, ReliableTxState, without, scan_seq, scan_order}
use sedsprintf_rs.Reliable.Store.{BtreeMap, get, insert, remove, All-insert, All-remove, All-get}
use sedsprintf_rs.Reliable.Store.Lookup.{
  Ascending, Ascending-remove, Ascending-insert, get-remove_ne, get-remove_same, get-insert_ne,
  get-insert_same,
}

-- How often a number is in a list.
unfoldable pub count : ℕ → List ℕ → ℕ
count k [] = 0
count k (seq ∷ seqs) = let rest = count k seqs in if seq == k then rest + 1 else rest

count-append : (k : ℕ) (xs ys : List ℕ) → count k (xs ++ ys) ≡ count k xs + count k ys
unfolding count
count-append k [] ys = omega arith
count-append k (x ∷ xs) ys = elim (Bool-cases (x == k)) [
  | inl here ↦ let rest = count-append k xs ys in rw here (omega (arith, rest))
  | inr other ↦ rw other (count-append k xs ys)
]

count_other : (seq k : ℕ) → seq ≢ k → count k (seq ∷ []) ≡ 0
unfolding count
count_other seq k h = let other : (seq == k) ≡ false = ground arith in rw other refl

module _ (limits : Limits) where
  -- A record that was not sent again more often than allowed.
  abbrev pub Within : ℕ × ReliableSent → Type 0
  Within (seq, s) = s.retries ≤ limits.max_retries

  -- What a scan does to a record that was sent again so often: it is requeued so many times more, within
  -- the allowed number, and counts each, or it is given up.
  abbrev pub Counts : ℕ → ℕ → Option ReliableSent → Type 0
  Counts retries times none = retries + times ≤ limits.max_retries
  Counts retries times (some s') =
      (retries + times ≤ limits.max_retries) × (s'.retries ≡ retries + times)

  -- What is true of the numbers and records after a scan.
  abbrev pub Scanned : ReliableTxState → ReliableTxState × List ℕ → Type 0
  Scanned tx (tx', requeue) =
      All Within tx'.sent
      × Ascending tx'.sent
      × ((k : ℕ) (s : ReliableSent)
          → get k tx.sent ≡ some s
          → Counts s.retries (count k requeue) (get k tx'.sent))
      × ((k : ℕ) → get k tx.sent ≡ none → (get k tx'.sent ≡ none) × (count k requeue ≡ 0))

  -- The scan leaves one stream's records as they are.
  unchanged : (tx : ReliableTxState) → All Within tx.sent → Ascending tx.sent → Scanned tx (tx, [])
  unfolding count
  unchanged tx a up = (
    a,
    up,
    λ k s e. rw e (let le = All-get Within k tx.sent s a e in (omega (arith, le), omega arith)),
    λ k e. (e, refl),
  )

  -- Only one record is changed, or removed, and only its number is requeued.
  one_changed :
      (tx tx' : ReliableTxState) (seq : ℕ) (s : ReliableSent) (requeue : List ℕ)
      → get seq tx.sent ≡ some s
      → All Within tx'.sent
      → Ascending tx'.sent
      → Counts s.retries (count seq requeue) (get seq tx'.sent)
      → All Within tx.sent
      → ((k : ℕ) → seq ≢ k → (get k tx'.sent ≡ get k tx.sent) × (count k requeue ≡ 0))
      → Scanned tx (tx', requeue)
  one_changed tx tx' seq s requeue found a up here within others = (
    a,
    up,
    λ k s1 e. elim (Bool-cases (seq == k)) [
      | inl same ↦
          let at : seq ≡ k = ground (arith, same) in
          let one : some s ≡ some s1 = sym found ∙ (ap (λ n. get n tx.sent) at ∙ e) in
          let record_same : s ≡ s1 = cc in
          subst (λ z. Counts z.retries (count k requeue) (get k tx'.sent)) record_same
            (subst (λ n. Counts s.retries (count n requeue) (get n tx'.sent)) at here)
      | inr other ↦
          let (kept, never) = others k (λ at. ground (arith, other, at)) in
          let le = All-get Within k tx.sent s1 within e in
          rw (kept, e, never) (omega (arith, le), omega arith)
    ],
    λ k e. elim (Bool-cases (seq == k)) [
      | inl same ↦
          let at : seq ≡ k = ground (arith, same) in
          let wrong : some s ≡ none = sym found ∙ (ap (λ n. get n tx.sent) at ∙ e) in cc
      | inr other ↦
          let (kept, never) = others k (λ at. ground (arith, other, at)) in (kept ∙ e, never)
    ],
  )

  counted :
      (seq : ℕ) (s s' : ReliableSent) (m : BtreeMap ReliableSent)
      → s.retries + 1 ≤ limits.max_retries
      → s'.retries ≡ s.retries + 1
      → Counts s.retries (count seq (seq ∷ [])) (get seq (insert seq s' m))
  unfolding count
  counted seq s s' m more e =
      let same : (seq == seq) ≡ true = ground arith in rw (get-insert_same seq s' m, same) (more, e)

  again_of : ℕ → ReliableTxState × Bool → ReliableTxState × List ℕ
  again_of seq (tx, again) = (tx, if again then seq ∷ [] else [])

  scan_seq-Scanned :
      (now seq : ℕ) (tx : ReliableTxState)
      → All Within tx.sent
      → Ascending tx.sent
      → Scanned tx (again_of seq (scan_seq limits now seq tx))
  unfolding scan_seq again_of count
  scan_seq-Scanned now seq tx a up = elim (Option-cases (get seq tx.sent)) [
    | inl missing ↦ rw (scan_seq, missing) (unchanged tx a up)
    | inr (s, found) ↦
        elim (Bool-cases
          (s.queued || ltb (wrapping_sub64 now s.last_send_ms) limits.retransmit_ms)) [
            | inl early ↦ rw (scan_seq, found, early) (unchanged tx a up)
            | inr late ↦ elim (Bool-cases s.partial_acked) [
              | inl partial ↦ rw (scan_seq, found, late, partial) (unchanged tx a up)
              | inr unheard ↦
                  let le = All-get Within seq tx.sent s a found in
                  elim (Bool-cases (leb limits.max_retries s.retries)) [
                    | inl spent ↦
                        rw (scan_seq, found, late, unheard, spent)
                          (one_changed tx
                            (record tx {
                              sent = remove seq tx.sent;
                              sent_order = without seq tx.sent_order;
                            })
                            seq s [] found (All-remove Within seq tx.sent a)
                            (Ascending-remove seq tx.sent up)
                            (rw (get-remove_same seq tx.sent up) (omega (arith, le))) a
                            (λ k other. (get-remove_ne seq k tx.sent other, refl)))
                    | inr left ↦
                        let s' : ReliableSent = record s {
                          retries = s.retries + 1;
                          partial_acked = false;
                        } in
                        let more : s.retries + 1 ≤ limits.max_retries = ground (arith, left) in
                        rw (scan_seq, found, late, unheard, left)
                          (one_changed tx (record tx { sent = insert seq s' tx.sent }) seq s
                            (seq ∷ []) found (All-insert Within seq s' tx.sent more a)
                            (Ascending-insert seq s' tx.sent up)
                            (counted seq s s' tx.sent more refl) a
                            (λ k other.
                              (get-insert_ne seq k s' tx.sent other, count_other seq k other)))
                  ]
            ]
          ]
  ]

  compose-Counts :
      (retries n1 n2 : ℕ) (mid last : Option ReliableSent)
      → Counts retries n1 mid
      → ((s : ReliableSent) → mid ≡ some s → Counts s.retries n2 last)
      → (mid ≡ none → (last ≡ none) × (n2 ≡ 0))
      → Counts retries (n1 + n2) last
  compose-Counts retries n1 n2 none last c kept gone =
      let (e, z) = gone refl in subst (Counts retries (n1 + n2)) (sym e) (omega (arith, c, z))
  compose-Counts retries n1 n2 (some s) none (c1, c2) kept gone = omega (arith, kept s refl, c2)
  compose-Counts retries n1 n2 (some s) (some s') (c1, c2) kept gone =
      let (d1, d2) = kept s refl in (omega (arith, c2, d1), omega (arith, c2, d2))

  compose :
      (tx tx' tx'' : ReliableTxState) (r1 r2 : List ℕ)
      → Scanned tx (tx', r1)
      → Scanned tx' (tx'', r2)
      → Scanned tx (tx'', r1 ++ r2)
  compose tx tx' tx'' r1 r2 (a, up, counts, absent) (a', up', counts', absent') = (
    a',
    up',
    λ k s e. rw (count-append k r1 r2) (
        compose-Counts s.retries (count k r1) (count k r2) (get k tx'.sent) (get k tx''.sent)
          (counts k s e) (λ s1 e1. counts' k s1 e1) (λ e1. absent' k e1)),
    λ k e.
        let (e1, z1) = absent k e in
        let (e2, z2) = absent' k e1 in (e2, count-append k r1 r2 ∙ omega (arith, z1, z2)),
  )

  joined :
      (seq : ℕ) (again : Bool) (requeue : List ℕ)
      → (if again then seq ∷ [] else []) ++ requeue ≡ (if again then seq ∷ requeue else requeue)
  joined seq true requeue = refl
  joined seq false requeue = refl

  -- A scan for timeouts, over any numbers and at any time, requeues a recorded frame at most as often as
  -- its record still allows. It counts every one of these retries in the record, unless it gives the frame
  -- up, and keeps every record within the allowed number. It requeues no frame without a record. The
  -- records are in order before and after.
  pub scan_order-Scanned :
      (now : ℕ) (order : List ℕ) (tx : ReliableTxState)
      → All Within tx.sent
      → Ascending tx.sent
      → Scanned tx (scan_order limits now order tx)
  unfolding scan_order again_of
  scan_order-Scanned now [] tx a up = unchanged tx a up
  scan_order-Scanned now (seq ∷ order) tx a up =
      let (tx', again) = scan_seq limits now seq tx in
      let (tx'', requeue) = scan_order limits now order tx' in
      let turn = scan_seq-Scanned now seq tx a up in
      subst (λ r. Scanned tx (tx'', r)) (joined seq again requeue)
        (compose tx tx' tx'' (if again then seq ∷ [] else []) requeue turn
          (scan_order-Scanned now order tx' (turn.0) (turn.1)))
