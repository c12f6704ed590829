-- ===== src/Reliable/Acks.antt =====
-- Acknowledgements on the sender's side.
use mathlib.Core.Path.{subst}
use sedsprintf_rs.Prelude.{
  ℕ, ◌≤◌, ◌<◌, ◌≡◌, refl, sym, ap, ◌∙◌, false, none, List, [], ◌∷◌, ◌++◌, ltb, ltb→lt, Bool-cases,
  inl, inr, All, arith,
}
use sedsprintf_rs.Reliable.{ReliableSent, ReliableTxState, ack_loop, handle_reliable_ack}
use sedsprintf_rs.Reliable.Store.{BtreeMap, get, remove}
use sedsprintf_rs.Reliable.Store.Lookup.{
  Ascending, Ascending-remove, get-remove_ne, get-remove_same, get-remove_absent,
}

-- No number at the front of the order is acknowledged.
abbrev pub Pending : ℕ → List ℕ → Type 0
Pending ack [] = Unit
Pending ack (seq ∷ order) = ack < seq

-- A number that was up to the acknowledged one, and has no record any more.
abbrev pub Settled : ℕ → BtreeMap ReliableSent → ℕ → Type 0
Settled ack sent seq = (seq ≤ ack) × (get seq sent ≡ none)

abbrev pub Acked : ℕ → List ℕ → BtreeMap ReliableSent → List ℕ × BtreeMap ReliableSent → Type 0
Acked ack order sent (order', sent') =
    ((gone : List ℕ) × (order ≡ gone ++ order') × All (Settled ack sent') gone)
    × Pending ack order'
    × ((k : ℕ) → ack < k → get k sent' ≡ get k sent)
    × Ascending sent'

ack_loop-absent :
    (ack k : ℕ) (order : List ℕ) (sent : BtreeMap ReliableSent)
    → get k sent ≡ none
    → get k (ack_loop ack order sent).1 ≡ none
unfolding ack_loop
ack_loop-absent ack k [] sent h = h
ack_loop-absent ack k (seq ∷ order) sent h = elim (Bool-cases (ltb ack seq)) [
  | inl stop ↦ rw stop h
  | inr goes ↦
      rw goes (ack_loop-absent ack k order (remove seq sent) (get-remove_absent seq k sent h))
]

ack_loop_lem :
    (ack : ℕ) (order : List ℕ) (sent : BtreeMap ReliableSent)
    → Ascending sent
    → Acked ack order sent (ack_loop ack order sent)
unfolding ack_loop
ack_loop_lem ack [] sent up = (([], refl, tt), tt, λ k h. refl, up)
ack_loop_lem ack (seq ∷ order) sent up = elim (Bool-cases (ltb ack seq)) [
  | inl e ↦
      subst (Acked ack (seq ∷ order) sent) (sym (rw (e) refl))
        (([], refl, tt), ltb→lt ack seq e, λ k h. refl, up)
  | inr e ↦
      let ((gone, split, settled), pending, others, still) =
        ack_loop_lem ack order (remove seq sent) (Ascending-remove seq sent up) in
      let le : seq ≤ ack = ground (arith, e) in
      let absent = ack_loop-absent ack seq order (remove seq sent) (get-remove_same seq sent up) in
      rw (e) (
        (seq ∷ gone, ap (λ z. seq ∷ z) split, ((le, absent), settled)),
        pending,
        λ k h. others k h ∙ get-remove_ne seq k sent (λ same. omega (arith, same, h, le)),
        still,
      )
]

-- A cumulative acknowledgement on an ordered stream takes from the front of the order exactly the
-- numbers up to the first one above it. None of those has a record any more, the record of every frame
-- above the acknowledged number is kept as it was, and the records stay in order, as they were.
pub handle_reliable_ack-cumulative :
    (tx : ReliableTxState) (ack : ℕ)
    → Ascending tx.sent
    → let after = handle_reliable_ack false tx ack in
      ((gone : List ℕ) × (tx.sent_order ≡ gone ++ after.sent_order)
        × All (Settled ack after.sent) gone)
      × Pending ack after.sent_order
      × ((k : ℕ) → ack < k → get k after.sent ≡ get k tx.sent)
      × Ascending after.sent
      × (after.next_seq ≡ tx.next_seq)
unfolding handle_reliable_ack
handle_reliable_ack-cumulative tx ack up =
    let (taken, pending, others, still) = ack_loop_lem ack tx.sent_order tx.sent up in
    (taken, pending, others, still, refl)
