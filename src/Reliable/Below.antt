-- ===== src/Reliable/Below.antt =====
-- A receiver that only gets numbers below a bound never expects one above it.
use mathlib.Core.Path.{subst}
use sedsprintf_rs.Prelude.{
  ℕ, zero, suc, ◌+◌, ◌≤◌, ◌<◌, ◌%◌, ◌-◌, ◌≡◌, refl, sym, List, [], ◌∷◌, length, ltb, Bool-cases,
  Option-cases, inl, inr, u32_mod, All, arith,
}
use sedsprintf_rs.Error.{Result, ok, ◌>>◌}
use sedsprintf_rs.Reliable.{
  Limits, ReliableRxState, Room, skip_zero, buffer_frame, drain, receive_ordered, Reaction, ack_old,
  request_missing, release,
}
use sedsprintf_rs.Reliable.Store.{BtreeMap, get, remove, All-remove, All-get}
use sedsprintf_rs.Reliable.Buffering.{after_result, after_result-requested, buffer_frame-Kept}

module _ (bound : ℕ) (small : bound < u32_mod) where
  abbrev pub EntryBelow : ℕ × List ℕ → Type 0
  EntryBelow (seq, bytes) = seq < bound

  abbrev pub AllBelow : ReliableRxState → Type 0
  AllBelow rx = All EntryBelow rx.buffered × (rx.expected_seq ≤ bound)

  skip_zero-below : (seq : ℕ) → seq < bound → skip_zero seq ≡ seq + 1
  unfolding skip_zero
  skip_zero-below seq h = ground (arith, small)

  abbrev DrainedBelow : List (List ℕ) × ℕ × ℕ × BtreeMap (List ℕ) → Type 0
  DrainedBelow (more, last, next, rest) = All EntryBelow rest × (next ≤ bound)

  drain-below :
      (n last next : ℕ) (m : BtreeMap (List ℕ))
      → All EntryBelow m
      → next ≤ bound
      → DrainedBelow (drain n last next m)
  unfolding drain
  drain-below zero last next m a h = (a, h)
  drain-below (suc n) last next m a h = elim (Option-cases (get next m)) [
    | inl missing ↦
        let run : drain (suc n) last next m ≡ ([], last, next, m) = rw (drain, missing) refl in
        subst DrainedBelow (sym run) (a, h)
    | inr (b, found) ↦
        let lower = All-get EntryBelow next m b a found in
        let (more, last', next', rest) = drain n next (next + 1) (remove next m) in
        let run : drain (suc n) last next m ≡ (b ∷ more, last', next', rest) =
          rw (drain, found, skip_zero-below next lower) refl in
        subst DrainedBelow (sym run) (
          drain-below n next (next + 1) (remove next m) (All-remove EntryBelow next m a)
            (omega (arith, lower)))
  ]

  -- A frame of a number below the bound keeps the receiver below it.
  pub receive-AllBelow :
      (limits : Limits) (room : Room) (rx : ReliableRxState) (seq : ℕ) (bytes : List ℕ)
      → AllBelow rx
      → seq < bound
      → AllBelow (after_result (receive_ordered limits room rx seq bytes)).1
  unfolding receive_ordered
  receive-AllBelow limits room rx seq bytes (a, h) lower =
      let Goal : Result Reaction × ReliableRxState → Type 0 = λ r. AllBelow (after_result r).1 in
      elim (Bool-cases (ltb seq rx.expected_seq)) [
        | inl old ↦
            let run : receive_ordered limits room rx seq bytes
                ≡ (ok (ack_old (rx.expected_seq - 1)), rx) =
              rw (receive_ordered, old) refl in
            subst Goal (sym run) (a, h)
        | inr new ↦ elim (Bool-cases (ltb rx.expected_seq seq)) [
          | inl ahead ↦
              let (buffered, rx') = buffer_frame limits room rx seq bytes in
              let (same, below) = buffer_frame-Kept EntryBelow limits room rx seq bytes a lower in
              let run : receive_ordered limits room rx seq bytes
                  ≡ (buffered >> ok (request_missing rx.expected_seq seq), rx') =
                rw (receive_ordered, new, ahead) refl in
              let quiet = after_result-requested buffered rx.expected_seq seq rx' in
              subst Goal (sym run)
                (subst (λ r. AllBelow r.1) (sym quiet) (below, omega (arith, same, h)))
          | inr next ↦
              let plain : (seq + 1) % u32_mod ≡ seq + 1 = omega (arith, small, lower) in
              let (more, last', next', rest) =
                drain (length rx.buffered) seq (seq + 1) rx.buffered in
              let run : receive_ordered limits room rx seq bytes ≡ (
                ok (release (bytes ∷ more) last'),
                record { expected_seq = next'; buffered = rest },
              ) =
                rw (receive_ordered, new, next, plain) refl in
              subst Goal (sym run) (
                drain-below (length rx.buffered) seq (seq + 1) rx.buffered a (omega (arith, lower)))
        ]
      ]
