-- ===== src/Queue/Evict.antt =====
-- What `push_back_prioritized` removes from the back of the queue.
use mathlib.Core.Path.{subst}
use sedsprintf_rs.Prelude.{
  ℕ, zero, suc, ◌+◌, ◌-◌, ◌≤◌, ◌<◌, ◌≡◌, refl, sym, ap, ◌∙◌, Bool, true, false, some, List, [], ◌∷◌,
  ◌++◌, length, ltb, leb, take, get_elem?, Bool-cases, inl, inr, ltb→lt, leb→le, length-append, ◌⊎◌,
  arith, All, All-append, append_assoc, append-nil,
}
use sedsprintf_rs.Queue.{
  BoundedDeque, Allocator, over_budget, pop_back, tail_priority, evict_back, evict_elem,
}
use sedsprintf_rs.Queue.Bytes.{total, total-append, snoc_of, get_elem?-last, take_prefix}
use sedsprintf_rs.Queue.Valid.{IsValid, with_q}

module _ {ℓ} {T : Type ℓ} (cost : T → ℕ) (a : Allocator) (priority_of : T → ℕ) where
  length-last : (xs : List T) (v : T) → length (xs ++ (v ∷ [])) - 1 ≡ length xs
  length-last xs v = omega (arith, length-append xs (v ∷ []))

  pop_back-with_q :
      (d : BoundedDeque T) (xs : List T) (v : T)
      → (pop_back cost a (with_q cost d (xs ++ (v ∷ [])))).1 ≡ with_q cost d xs
  unfolding pop_back
  pop_back-with_q d xs v =
      let last : get_elem? (xs ++ (v ∷ [])) (length (xs ++ (v ∷ [])) - 1) ≡ some v =
        rw (length-last xs v) (get_elem?-last xs v) in
      let init : take (length (xs ++ (v ∷ [])) - 1) (xs ++ (v ∷ [])) ≡ xs =
        rw (length-last xs v) (take_prefix xs (v ∷ [])) in
      rw (pop_back, last, init)
        (ap (λ n. record d { q = xs; cur_bytes = n })
          (omega (arith, total-append cost xs (v ∷ []))))

  tail_priority-with_q :
      (d : BoundedDeque T) (xs : List T) (v : T)
      → tail_priority cost a priority_of (with_q cost d (xs ++ (v ∷ []))) ≡ priority_of v
  unfolding tail_priority
  tail_priority-with_q d xs v = rw (tail_priority, length-last xs v, get_elem?-last xs v) refl

  -- What a push removes from the back: elements whose priority is not above the new item's.
  abbrev pub Gives : ℕ → List T → Type 0
  Gives priority = All (λ w. priority_of w ≤ priority)

  -- The last element is above the new item's priority.
  abbrev pub Blocked : ℕ → List T → Type ℓ
  Blocked priority q = (xs : List T) × (w : T) × (q ≡ xs ++ (w ∷ [])) × (priority < priority_of w)

  over_budget-snoc :
      (d : BoundedDeque T) (xs : List T) (v : T) (c : ℕ)
      → IsValid cost d
      → total cost (xs ++ (v ∷ [])) ≤ d.max_bytes
      → c ≤ d.max_bytes
      → over_budget cost a (with_q cost d (xs ++ (v ∷ []))) c
        ≡ ltb d.max_bytes (total cost (xs ++ (v ∷ [])) + c)
  unfolding over_budget
  over_budget-snoc d [] v c i b h = ground (arith, i.half)
  over_budget-snoc d (x ∷ xs) v c i b h = ground (arith, i.half)

  -- The loop removes elements of no higher priority from the back, until the item fits or is blocked.
  abbrev pub EvictedBack : BoundedDeque T → ℕ → ℕ → ℕ → List T → Type ℓ
  EvictedBack d n c priority q =
      (kept gone : List T) × (full : Bool) × (evict_back cost a priority_of n (with_q cost d q) c
          priority
        ≡ (with_q cost d kept, full))
      × (q ≡ kept ++ gone)
      × Gives priority gone
      × (((full ≡ true) × Blocked priority kept)
          ⊎ ((full ≡ false) × (total cost kept + c ≤ d.max_bytes)))

  evict_back_snoc :
      (d : BoundedDeque T) (n c priority : ℕ) (xs : List T) (v : T)
      → IsValid cost d
      → total cost (xs ++ (v ∷ [])) ≤ d.max_bytes
      → c ≤ d.max_bytes
      → EvictedBack d n c priority xs
      → EvictedBack d (suc n) c priority (xs ++ (v ∷ []))
  unfolding evict_back
  evict_back_snoc d n c priority xs v i b h (kept, gone, full, run, e, gives, outcome) =
      let budget = over_budget-snoc d xs v c i b h in
      let tail = tail_priority-with_q d xs v in
      elim (Bool-cases (ltb d.max_bytes (total cost (xs ++ (v ∷ [])) + c))) [
        | inr fits ↦ (
          xs ++ (v ∷ []),
          [],
          false,
          rw (budget, fits) refl,
          sym (append-nil _),
          tt,
          inr (refl, ground (arith, fits)),
        )
        | inl over ↦ elim (Bool-cases (ltb priority (priority_of v))) [
          | inl above ↦ (
            xs ++ (v ∷ []),
            [],
            true,
            rw (budget, over, tail, above) refl,
            sym (append-nil _),
            tt,
            inl (refl, (xs, v, refl, ltb→lt priority (priority_of v) above)),
          )
          | inr gives_way ↦ (
            kept,
            gone ++ (v ∷ []),
            full,
            rw (budget, over, tail, gives_way, pop_back-with_q d xs v) run,
            rw e (append_assoc kept gone (v ∷ [])),
            All-append _ gone (v ∷ []) gives (ground (arith, gives_way), tt),
            outcome,
          )
        ]
      ]

  pub evict_back_lem :
      (d : BoundedDeque T) (n c priority : ℕ) (q : List T)
      → length q ≡ n
      → IsValid cost d
      → total cost q ≤ d.max_bytes
      → c ≤ d.max_bytes
      → EvictedBack d n c priority q
  unfolding evict_back
  evict_back_lem d zero c priority [] len i b h =
      ([], [], false, refl, refl, tt, inr (refl, omega (arith, h)))
  evict_back_lem d zero c priority (v ∷ q) len i b h = absurd (omega (arith, len))
  evict_back_lem d (suc n) c priority q len i b h =
      let (xs, v, e, short) = snoc_of n q len in
      subst (EvictedBack d (suc n) c priority) (sym e) (
        evict_back_snoc d n c priority xs v i (rw (← e) b) h (
          evict_back_lem d n c priority xs short i
            (omega (arith, b, ap (total cost) e, total-append cost xs (v ∷ []))) h))

  -- The queue when the item is put in: what was kept, with the room for it.
  pub evict_elem_lem :
      (d : BoundedDeque T) (q : List T) (priority : ℕ)
      → length q ≤ d.max_elems
      → 1 ≤ d.max_elems
      → (kept gone : List T) × (stuck : Bool) × (evict_elem cost a priority_of
            (with_q cost d q)
            priority
          ≡ (with_q cost d kept, stuck))
        × (q ≡ kept ++ gone)
        × Gives priority gone
        × (((stuck ≡ true) × Blocked priority kept)
            ⊎ ((stuck ≡ false) × (length kept < d.max_elems)))
  unfolding evict_elem
  evict_elem_lem d q priority e some_elems = elim (Bool-cases (leb d.max_elems (length q))) [
    | inr room ↦
        (q, [], false, rw (room) refl, sym (append-nil q), tt, inr (refl, ground (arith, room)))
    | inl full ↦
        let (xs, v, end, short) =
          snoc_of (length q - 1) q (omega (arith, leb→le d.max_elems (length q) full)) in
        let tail : tail_priority cost a priority_of (with_q cost d q) ≡ priority_of v =
          ap (λ z. tail_priority cost a priority_of (with_q cost d z)) end
          ∙ tail_priority-with_q d xs v in
        let popped : (pop_back cost a (with_q cost d q)).1 ≡ with_q cost d xs =
          ap (λ z. (pop_back cost a (with_q cost d z)).1) end ∙ pop_back-with_q d xs v in
        elim (Bool-cases (ltb priority (priority_of v))) [
          | inl above ↦ (
            q,
            [],
            true,
            rw (full, tail, above) refl,
            sym (append-nil q),
            tt,
            inl (refl, (xs, v, end, ltb→lt priority (priority_of v) above)),
          )
          | inr gives_way ↦ (
            xs,
            v ∷ [],
            false,
            rw (full, tail, gives_way, popped) refl,
            end,
            (ground (arith, gives_way), tt),
            inr (refl, omega (arith, short, e, leb→le d.max_elems (length q) full, some_elems)),
          )
        ]
  ]
