-- ===== src/Queue/Priority.antt =====
-- `push_back_prioritized`: what is left, where the item goes, and the order.
use mathlib.Core.Path.{subst}
use sedsprintf_rs.Prelude.{
  ℕ, suc, ◌+◌, ◌≤◌, ◌<◌, ◌≡◌, refl, sym, ap, ◌∙◌, Bool, true, false, none, some, List, [], ◌∷◌,
  ◌++◌, length, ltb, drop, take, Bool-cases, inl, inr, ltb→lt, length-append, ◌⊎◌, if◌then◌else◌,
  arith, All, All-map, All-append, Descending, Descending-drop, Descending-insert,
  Descending-prefix, take-append-drop, append_assoc, append-nil,
}
use sedsprintf_rs.Error.{Result, ok, err, io}
use sedsprintf_rs.Queue.{
  BoundedDeque, Allocator, AllocatorLaws, position, ensure_room_for_one, evict_back, evict_elem,
  add_at, put, push_back_prioritized,
}
use sedsprintf_rs.Queue.Bytes.{total, total-append}
use sedsprintf_rs.Queue.Evict.{Gives, Blocked, evict_back_lem, evict_elem_lem}
use sedsprintf_rs.Queue.Valid.{
  IsValid, with_q, with_q_self, IsValid-with_q, ensure_room_lem, add_at-IsValid,
}

module _ {ℓ} {T : Type ℓ} (p : T → Bool) where
  -- The position splits the list at the first element that passes.
  pub position_splits :
      (q : List T)
      → ((position p q ≡ none) × All (λ v. p v ≡ false) q)
        ⊎ ((i : ℕ) × (position p q ≡ some i)
            × All (λ v. p v ≡ false) (take i q)
            × ((w : T) × (rest : List T) × (drop i q ≡ w ∷ rest) × (p w ≡ true)))
  unfolding position
  position_splits [] = inl (refl, tt)
  position_splits (v ∷ q) = elim (Bool-cases (p v)) [
    | inl e ↦ inr (0, rw (e) refl, tt, (v, q, refl, e))
    | inr e ↦ elim (position_splits q) [
      | inl (found, a) ↦ inl (rw (e, found) refl, (e, a))
      | inr (i, found, a, at) ↦ inr (suc i, rw (e, found) refl, (e, a), at)
    ]
  ]

module _ {ℓ} {T : Type ℓ} (cost : T → ℕ) (a : Allocator) (priority_of : T → ℕ) where
  -- Where the item goes in a queue in descending order.
  abbrev pub Inserted : List T → T → List T → Type ℓ
  Inserted kept v after =
      (hi lo : List T) × (kept ≡ hi ++ lo)
      × (after ≡ hi ++ (v ∷ lo))
      × All (λ w. priority_of v ≤ priority_of w) hi
      × All (λ w. priority_of w < priority_of v) lo

  add_at-Inserted :
      (d : BoundedDeque T) (v : T)
      → Descending priority_of d.q
      → Inserted d.q v
          (add_at cost a d (position (λ w. ltb (priority_of w) (priority_of v)) d.q) v).q
  unfolding add_at put
  add_at-Inserted d v order =
      elim (position_splits (λ w. ltb (priority_of w) (priority_of v)) d.q) [
        | inl (found, none_below) ↦ (
          d.q,
          [],
          sym (append-nil d.q),
          rw (found) refl,
          All-map _ _ d.q (λ w e. ground arith) none_below,
          tt,
        )
        | inr (i, found, above, (w, rest, at, below)) ↦
            let ordered : Descending priority_of (w ∷ rest) =
              subst (Descending priority_of) at (Descending-drop priority_of i d.q order) in
            let lower : All (λ u. priority_of u < priority_of v) (w ∷ rest) = (
              ltb→lt (priority_of w) (priority_of v) below,
              All-map _ _ rest
                  (λ u le. omega (arith, le, ltb→lt (priority_of w) (priority_of v) below))
                  (ordered.0),
            ) in
            (
              take i d.q,
              drop i d.q,
              sym (take-append-drop i d.q),
              rw (found) refl,
              All-map _ _ (take i d.q) (λ u e. ground arith) above,
              subst (All (λ u. priority_of u < priority_of v)) (sym at) lower,
            )
      ]

  Inserted-Descending :
      (kept after : List T) (v : T)
      → Descending priority_of kept
      → Inserted kept v after
      → Descending priority_of after
  Inserted-Descending kept after v order (hi, lo, split, e, above, below) =
      subst (Descending priority_of) (sym e) (
        Descending-insert priority_of hi lo v (subst (Descending priority_of) split order) above
          (All-map _ _ lo (λ u less. omega (arith, less)) below))

  module _ (laws : AllocatorLaws a) (d : BoundedDeque T) (v : T) (i : IsValid cost d)
      (order : Descending priority_of d.q) (h : cost v ≤ d.max_bytes) where
    -- What the push returns, by what the two tests keep.
    pushed :
        (kept below : List T) (full stuck : Bool) (ready : BoundedDeque T)
        → evict_back cost a priority_of (length d.q) (with_q cost d d.q) (cost v) (priority_of v)
          ≡ (with_q cost d kept, full)
        → evict_elem cost a priority_of (with_q cost d kept) (priority_of v)
          ≡ (with_q cost d below, stuck)
        → ensure_room_for_one cost a (with_q cost d below) ≡ ready
        → push_back_prioritized cost a priority_of d v ≡ (
            if full
            then (with_q cost d kept, err (io "priority queue saturated"))
            else if stuck
            then (with_q cost d below, err (io "priority queue saturated"))
            else (
              add_at cost a ready (position (λ w. ltb (priority_of w) (priority_of v)) ready.q) v,
              ok tt,
            ))
    unfolding push_back_prioritized
    pushed kept below full stuck ready e1 e2 e3 =
        let large : ltb d.max_bytes (cost v) ≡ false = ground arith in
        let start : evict_back cost a priority_of (length d.q) d (cost v) (priority_of v)
            ≡ (with_q cost d kept, full) =
          ap (λ e. evict_back cost a priority_of (length d.q) e (cost v) (priority_of v))
            (with_q_self cost d i)
          ∙ e1 in
        rw (large, start, e2, e3) refl

    -- What the push promises of the queue and the result that it leaves.
    abbrev pub Promise : BoundedDeque T × Result (Unit {0}) → Type ℓ
    Promise (after, result) =
        IsValid cost after
        × Descending priority_of after.q
        × ((kept gone : List T) × (d.q ≡ kept ++ gone)
            × Gives cost a priority_of (priority_of v) gone
            × (((result ≡ err (io "priority queue saturated"))
                  × (after.q ≡ kept)
                  × Blocked cost a priority_of (priority_of v) kept)
                ⊎ ((result ≡ ok tt) × Inserted kept v after.q)))

    prefix-IsValid :
        (kept gone : List T) (cap : ℕ)
        → d.q ≡ kept ++ gone
        → IsValid cost (record (with_q cost d kept) { capacity = cap })
          × Descending priority_of kept
    prefix-IsValid kept gone cap e = (
      IsValid-with_q cost d kept cap i
          (omega (arith, i.budget, ap (total cost) e, total-append cost kept gone))
          (omega (arith, i.elems, ap length e, length-append kept gone)),
      Descending-prefix priority_of kept gone (subst (Descending priority_of) e order),
    )

    saturated :
        (kept gone : List T)
        → d.q ≡ kept ++ gone
        → Gives cost a priority_of (priority_of v) gone
        → Blocked cost a priority_of (priority_of v) kept
        → Promise (with_q cost d kept, err (io "priority queue saturated"))
    saturated kept gone e gives blocked =
        let (valid, ordered) = prefix-IsValid kept gone d.capacity e in
        (valid, ordered, (kept, gone, e, gives, inl (refl, refl, blocked)))

    put_in :
        (kept gone : List T) (cap : ℕ)
        → d.q ≡ kept ++ gone
        → Gives cost a priority_of (priority_of v) gone
        → total cost kept + cost v ≤ d.max_bytes
        → length kept < d.max_elems
        → let ready = record (with_q cost d kept) { capacity = cap } in
          Promise (
            add_at cost a ready (position (λ w. ltb (priority_of w) (priority_of v)) kept) v,
            ok tt,
          )
    put_in kept gone cap e gives fits room =
        let ready = record (with_q cost d kept) { capacity = cap } in
        let (valid, ordered) = prefix-IsValid kept gone cap e in
        let inserted = add_at-Inserted ready v ordered in
        (
          add_at-IsValid cost a laws ready _ v valid fits room,
          Inserted-Descending kept _ v ordered inserted,
          (kept, gone, e, gives, inr (refl, inserted)),
        )

    promised : Promise (push_back_prioritized cost a priority_of d v)
    promised =
        let (kept, gone, full, e1, split, gives, outcome) =
          evict_back_lem cost a priority_of d (length d.q) (cost v) (priority_of v) d.q refl i
            i.budget h in
        let few : length kept ≤ d.max_elems =
          omega (arith, i.elems, ap length split, length-append kept gone) in
        let (below, more, stuck, e2, split', gives', outcome') =
          evict_elem_lem cost a priority_of d kept (priority_of v) few i.some_elems in
        let both : d.q ≡ below ++ (more ++ gone) =
          split ∙ (ap (λ z. z ++ gone) split' ∙ append_assoc below more gone) in
        let give_both = All-append (λ w. priority_of w ≤ priority_of v) more gone gives' gives in
        elim outcome [
          | inl (said, blocked) ↦
              subst Promise (sym (pushed kept below full stuck _ e1 e2 refl ∙ rw (said) refl))
                (saturated kept gone split gives blocked)
          | inr (unsaid, fits) ↦ elim outcome' [
            | inl (said, blocked) ↦
                subst Promise
                  (sym (pushed kept below full stuck _ e1 e2 refl ∙ rw (unsaid, said) refl))
                  (saturated below (more ++ gone) both give_both blocked)
            | inr (unsaid', room) ↦
                let (cap, e3, larger) = ensure_room_lem cost a laws (with_q cost d below) room in
                subst Promise
                  (sym (pushed kept below full stuck _ e1 e2 e3 ∙ rw (unsaid, unsaid') refl))
                  (put_in below (more ++ gone) cap both give_both
                    (omega (arith, fits, ap (total cost) split', total-append cost below more))
                    room)
          ]
        ]

-- A push by priority, of an item within the budget, to a queue that satisfies the invariant and is in
-- descending order of priority, keeps both; the elements that it removes are the last ones, none of
-- them of a higher priority than the item; and either the item stands behind all kept elements of its
-- priority or a higher one and before all others, or the error is returned and the last kept element
-- has a higher priority than the item.
pub push_back_prioritized_lem {ℓ} :
    {T : Type ℓ} (cost : T → ℕ) (a : Allocator) (priority_of : T → ℕ) (laws : AllocatorLaws a)
    (d : BoundedDeque T) (v : T)
    → IsValid cost d
    → Descending priority_of d.q
    → cost v ≤ d.max_bytes
    → let (after, result) = push_back_prioritized cost a priority_of d v in
      IsValid cost after
      × Descending priority_of after.q
      × ((kept gone : List T) × (d.q ≡ kept ++ gone)
          × All (λ w. priority_of w ≤ priority_of v) gone
          × (((result ≡ err (io "priority queue saturated"))
                × (after.q ≡ kept)
                × ((xs : List T) × (w : T) × (kept ≡ xs ++ (w ∷ []))
                    × (priority_of v < priority_of w)))
              ⊎ ((result ≡ ok tt)
                  × ((hi lo : List T) × (kept ≡ hi ++ lo)
                      × (after.q ≡ hi ++ (v ∷ lo))
                      × All (λ w. priority_of v ≤ priority_of w) hi
                      × All (λ w. priority_of w < priority_of v) lo))))
push_back_prioritized_lem cost a priority_of laws d v i order h =
    promised cost a priority_of laws d v i order h
