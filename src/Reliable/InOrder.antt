-- ===== src/Reliable/InOrder.antt =====
-- The receiver of an ordered reliable stream releases the frames in the order of their numbers.
use mathlib.Core.Path.{subst}
use sedsprintf_rs.Prelude.{
  ℕ, zero, suc, ◌+◌, ◌≤◌, ◌<◌, ◌≡◌, refl, sym, ap, ◌∙◌, none, List, [], ◌∷◌, ◌++◌, length, ltb,
  Bool-cases, Option-cases, inl, inr, ◌%◌, ◌-◌, u32_mod, All, length-append, arith,
}
use sedsprintf_rs.Error.{Result, ok, ◌>>◌}
use sedsprintf_rs.Reliable.{
  Limits, ReliableRxState, Room, evict, skip_zero, buffer_frame, drain, receive_ordered, Reaction,
  ack_old, request_missing, release,
}
use sedsprintf_rs.Reliable.Buffering.{after_result, after_result-requested, buffer_frame-Kept}
use sedsprintf_rs.Reliable.Store.{BtreeMap, get, remove, All-remove, All-get, length-remove}

-- The frames of the numbers from one on.
unfoldable pub frames : (ℕ → List ℕ) → ℕ → ℕ → List (List ℕ)
frames payload zero start = []
frames payload (suc n) start = payload start ∷ frames payload n (start + 1)

module _ (payload : ℕ → List ℕ) where
  -- A buffered frame is the one of its number, which is not the last `u32`.
  abbrev pub Labelled : ℕ × List ℕ → Type 0
  Labelled (seq, bytes) = (bytes ≡ payload seq) × (seq + 1 < u32_mod)

  -- What the loop leaves, from the number that it starts at.
  abbrev pub Drained : ℕ → List (List ℕ) × ℕ × ℕ × BtreeMap (List ℕ) → Type 0
  Drained next (more, last', next', rest) =
      (more ≡ frames payload (length more) next)
      × (next' ≡ next + length more)
      × (last' + 1 ≡ next')
      × All Labelled rest
      × (get next' rest ≡ none)

  pub skip_zero-small : (seq : ℕ) → seq + 1 < u32_mod → skip_zero seq ≡ seq + 1
  unfolding skip_zero
  skip_zero-small seq h = ground arith

  drain_more :
      (n last next : ℕ) (m : BtreeMap (List ℕ)) (b : List ℕ)
      → b ≡ payload next
      → Drained (next + 1) (drain n next (next + 1) (remove next m))
      → let (more, last', next', rest) = drain n next (next + 1) (remove next m) in
        Drained next (b ∷ more, last', next', rest)
  unfolding frames
  drain_more n last next m b lab (are, count, ends, kept, stops) =
      (rw (lab) (ap (λ fs. payload next ∷ fs) are), omega (arith, count), ends, kept, stops)

  drain_lem :
      (n last next : ℕ) (m : BtreeMap (List ℕ))
      → All Labelled m
      → length m ≤ n
      → last + 1 ≡ next
      → Drained next (drain n last next m)
  unfolding drain frames get
  drain_lem zero last next [] a short e = (refl, omega arith, e, tt, refl)
  drain_lem zero last next (x ∷ m) a short e = absurd (omega arith)
  drain_lem (suc n) last next m a short e = elim (Option-cases (get next m)) [
    | inl missing ↦
        let run : drain (suc n) last next m ≡ ([], last, next, m) = rw (drain, missing) refl in
        subst (Drained next) (sym run) (refl, omega arith, e, a, missing)
    | inr (b, found) ↦
        let (lab, small) = All-get Labelled next m b a found in
        let fewer : length (remove next m) ≤ n =
          omega (arith, length-remove next m b found, short) in
        let (more, last', next', rest) = drain n next (next + 1) (remove next m) in
        let run : drain (suc n) last next m ≡ (b ∷ more, last', next', rest) =
          rw (drain, found, skip_zero-small next small) refl in
        subst (Drained next) (sym run) (
          drain_more n last next m b lab
            (drain_lem n next (next + 1) (remove next m) (All-remove Labelled next m a) fewer refl))
  ]

  -- The state of a receiver that has released everything below the number it expects.
  abbrev pub Follows : ReliableRxState → Type 0
  Follows rx = All Labelled rx.buffered × (1 ≤ rx.expected_seq)

  module _ (limits : Limits) where
    -- The receiver along arriving frames, each the frame of a number: the frames that it releases, and
    -- its state. With each comes how many buffered frames the stream lost to other traffic since the
    -- one before, and what making room for it does.
    unfoldable pub receive_all :
        ReliableRxState → List (ℕ × Room × ℕ) → List (List ℕ) × ReliableRxState
    unfolding receive_ordered evict
    receive_all rx [] = ([], rx)
    receive_all rx ((lost, room, seq) ∷ arrivals) =
        let (fs, rx') =
          after_result (receive_ordered limits room (evict lost rx) seq (payload seq)) in
        let (more, rx'') = receive_all rx' arrivals in (fs ++ more, rx'')

    -- What one arrival does: the released frames are the next ones.
    abbrev pub Advances : ReliableRxState → List (List ℕ) × ReliableRxState → Type 0
    Advances rx (fs, rx') =
        (fs ≡ frames payload (length fs) rx.expected_seq)
        × (rx'.expected_seq ≡ rx.expected_seq + length fs)
        × All Labelled rx'.buffered

    pub step-Advances :
        (room : Room) (rx : ReliableRxState) (seq : ℕ)
        → All Labelled rx.buffered
        → seq + 1 < u32_mod
        → Advances rx (after_result (receive_ordered limits room rx seq (payload seq)))
    unfolding frames receive_ordered
    step-Advances room rx seq a small =
        let Goal : Result Reaction × ReliableRxState → Type 0 = λ r. Advances rx (after_result r) in
        elim (Bool-cases (ltb seq rx.expected_seq)) [
          | inl old ↦
              let run : receive_ordered limits room rx seq (payload seq)
                  ≡ (ok (ack_old (rx.expected_seq - 1)), rx) =
                rw (receive_ordered, old) refl in
              subst Goal (sym run) (refl, omega arith, a)
          | inr new ↦ elim (Bool-cases (ltb rx.expected_seq seq)) [
            | inl ahead ↦
                let (buffered, rx') = buffer_frame limits room rx seq (payload seq) in
                let (same, labelled) =
                  buffer_frame-Kept Labelled limits room rx seq (payload seq) a (refl, small) in
                let run : receive_ordered limits room rx seq (payload seq)
                    ≡ (buffered >> ok (request_missing rx.expected_seq seq), rx') =
                  rw (receive_ordered, new, ahead) refl in
                let quiet = after_result-requested buffered rx.expected_seq seq rx' in
                subst Goal (sym run)
                  (subst (Advances rx) (sym quiet) (refl, omega (arith, same), labelled))
            | inr next ↦
                let here : seq ≡ rx.expected_seq = ground arith in
                let plain : (seq + 1) % u32_mod ≡ seq + 1 = omega (arith, small) in
                let (more, last', next', rest) =
                  drain (length rx.buffered) seq (seq + 1) rx.buffered in
                let (are, count, ends, kept, stops) =
                  drain_lem (length rx.buffered) seq (seq + 1) rx.buffered a (omega arith) refl in
                let run : receive_ordered limits room rx seq (payload seq) ≡ (
                  ok (release (payload seq ∷ more) last'),
                  record { expected_seq = next'; buffered = rest },
                ) =
                  rw (receive_ordered, new, next, plain) refl in
                subst Goal (sym run)
                  (rw (← here) (ap (λ fs. payload seq ∷ fs) are), omega (arith, count, here), kept)
          ]
        ]

frames-append :
    (payload : ℕ → List ℕ) (n m start : ℕ)
    → frames payload n start ++ frames payload m (start + n) ≡ frames payload (n + m) start
unfolding frames
frames-append payload zero m start =
    ap (λ k. frames payload m k) (omega arith) ∙ ap (λ k. frames payload k start) (omega arith)
frames-append payload (suc n) m start =
    let shift : start + suc n ≡ start + 1 + n = omega arith in
    let sum : suc n + m ≡ suc (n + m) = omega arith in
    rw (shift, sum) (ap (λ fs. payload start ∷ fs) (frames-append payload n m (start + 1)))

pub continued :
    (payload : ℕ → List ℕ) (fs more : List (List ℕ)) (start next : ℕ)
    → fs ≡ frames payload (length fs) start
    → next ≡ start + length fs
    → more ≡ frames payload (length more) next
    → fs ++ more ≡ frames payload (length (fs ++ more)) start
continued payload fs more start next are count follow =
    let joined : fs ++ more
        ≡ frames payload (length fs) start ++ frames payload (length more) (start + length fs) =
      ap (λ z. z ++ more) are
      ∙ ap (λ z. frames payload (length fs) start ++ z)
          (follow ∙ ap (λ k. frames payload (length more) k) count) in
    joined
    ∙ (frames-append payload (length fs) (length more) start
        ∙ ap (λ k. frames payload k start) (sym (length-append fs more)))
