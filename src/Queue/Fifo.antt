-- ===== src/Queue/Fifo.antt =====
-- `push_back`: what it evicts, what it keeps, and the invariant.
use sedsprintf_rs.Prelude.{
  ℕ, zero, suc, ◌+◌, ◌≤◌, ◌<◌, ◌≡◌, refl, ap, ◌∙◌, false, none, List, [], ◌∷◌, ◌++◌, length, ltb,
  leb, drop, Bool-cases, inl, inr, ltb→lt, leb→le, length-drop, length-append, arith,
}
use sedsprintf_rs.Error.{ok}
use sedsprintf_rs.Queue.{
  BoundedDeque, Allocator, AllocatorLaws, over_budget, evict_front, pop_front, prepare_push_fifo,
  push_prepared, add_at, put, push_back,
}
use sedsprintf_rs.Queue.Bytes.{total, drop_one_more}
use sedsprintf_rs.Queue.Valid.{
  IsValid, with_q, with_q_self, IsValid-with_q, ensure_room_lem, add_at-IsValid,
}

module _ {ℓ} {T : Type ℓ} (cost : T → ℕ) (a : Allocator) where
  -- The item fits behind the elements, in bytes and in number.
  abbrev pub Fits : BoundedDeque T → List T → ℕ → Type 0
  Fits d q c = (total cost q + c ≤ d.max_bytes) × (length q < d.max_elems)

  over_budget_iff :
      (d : BoundedDeque T) (v : T) (q : List T) (c : ℕ)
      → IsValid cost d
      → total cost (v ∷ q) ≤ d.max_bytes
      → c ≤ d.max_bytes
      → over_budget cost a (with_q cost d (v ∷ q)) c ≡ ltb d.max_bytes (total cost (v ∷ q) + c)
  unfolding over_budget
  over_budget_iff d v q c i b h = ground (arith, i.half)

  pop_front-with_q :
      (d : BoundedDeque T) (v : T) (q : List T)
      → (pop_front cost a (with_q cost d (v ∷ q))).1 ≡ with_q cost d q
  unfolding pop_front
  pop_front-with_q d v q = ap (λ n. record d { q = q; cur_bytes = n }) (omega arith)

  before_suc :
      (d : BoundedDeque T) (v : T) (q : List T) (c k : ℕ)
      → d.max_bytes < total cost (v ∷ q) + c
      → ((j : ℕ) → j < k → d.max_bytes < total cost (drop j q) + c)
      → (j : ℕ) → j < suc k
      → d.max_bytes < total cost (drop j (v ∷ q)) + c
  before_suc d v q c k over least zero h = over
  before_suc d v q c k over least (suc j) h = least j (omega arith)

  -- The loop stops at the first suffix that is within the budget.
  evict_front_lem :
      (d : BoundedDeque T) (q : List T) (c : ℕ)
      → IsValid cost d
      → total cost q ≤ d.max_bytes
      → c ≤ d.max_bytes
      → (k : ℕ) × (evict_front cost a (length q) (with_q cost d q) c ≡ with_q cost d (drop k q))
        × (total cost (drop k q) + c ≤ d.max_bytes)
        × ((j : ℕ) → j < k → d.max_bytes < total cost (drop j q) + c)
  unfolding evict_front
  evict_front_lem d [] c i b h = (0, refl, omega arith, λ j below. elim below [ ])
  evict_front_lem d (v ∷ q) c i b h = elim (Bool-cases (ltb d.max_bytes (total cost (v ∷ q) + c))) [
    | inl e ↦
        let (k, stops, fits, least) = evict_front_lem d q c i (omega arith) h in
        (
          suc k,
          rw (over_budget_iff d v q c i b h, e)
              (ap (λ rest. evict_front cost a (length q) rest c) (pop_front-with_q d v q) ∙ stops),
          fits,
          before_suc d v q c k (ltb→lt d.max_bytes (total cost (v ∷ q) + c) e) least,
        )
    | inr e ↦ (
      0,
      rw (over_budget_iff d v q c i b h, e) refl,
      ground (arith, e),
      λ j below. elim below [ ],
    )
  ]

  -- The rest of the preparation drops at most one more element, and only of a full queue.
  prepare_push_fifo_lem :
      (laws : AllocatorLaws a) (d : BoundedDeque T) (c : ℕ)
      → IsValid cost d
      → c ≤ d.max_bytes
      → (k cap : ℕ) × (prepare_push_fifo cost a d c
          ≡ (record (with_q cost d (drop k d.q)) { capacity = cap }, ok tt))
        × Fits d (drop k d.q) c
        × (length (drop k d.q) < cap)
        × ((j : ℕ) → j < k → ¬ Fits d (drop j d.q) c)
  unfolding prepare_push_fifo
  prepare_push_fifo_lem laws d c i h =
      let (k, stops, fits, least) = evict_front_lem d d.q c i i.budget h in
      let large : ltb d.max_bytes c ≡ false = ground arith in
      let start : evict_front cost a (length d.q) d c ≡ with_q cost d (drop k d.q) =
        ap (λ e. evict_front cost a (length d.q) e c) (with_q_self cost d i) ∙ stops in
      elim (Bool-cases (leb d.max_elems (length (drop k d.q)))) [
        | inr e ↦
            let room : length (drop k d.q) < d.max_elems = ground (arith, e) in
            let (cap, ready, larger) =
              ensure_room_lem cost a laws (with_q cost d (drop k d.q)) room in
            (
              k,
              cap,
              rw (large, start, e, ready) refl,
              (fits, room),
              larger,
              λ j before (b, n). omega (arith, b, least j before),
            )
        | inl e ↦
            let full = leb→le d.max_elems (length (drop k d.q)) e in
            let (w, front) =
              drop_one_more k d.q (omega (arith, full, i.some_elems, length-drop k d.q)) in
            let popped : (pop_front cost a (with_q cost d (drop k d.q))).1
                ≡ with_q cost d (drop (suc k) d.q) =
              rw front (pop_front-with_q d w (drop (suc k) d.q)) in
            let room : length (drop (suc k) d.q) < d.max_elems =
              omega (arith, length-drop (suc k) d.q, i.elems, i.some_elems) in
            let less : total cost (drop k d.q) ≡ cost w + total cost (drop (suc k) d.q) =
              ap (total cost) front in
            let (cap, ready, larger) =
              ensure_room_lem cost a laws (with_q cost d (drop (suc k) d.q)) room in
            (
              suc k,
              cap,
              rw (large, start, e, popped, ready) refl,
              (omega (arith, fits, less), room),
              larger,
              λ j before (b, n).
                  omega (arith, n, full, length-drop j d.q, length-drop k d.q, before),
            )
      ]

-- An item within the budget is always taken: `push_back` succeeds, the item is the last, what was
-- queued before it is the longest suffix of the old queue behind which it fits in bytes and in number,
-- the deque has capacity for it without growing again, and the invariant holds.
pub push_back-longest_suffix {ℓ} :
    {T : Type ℓ} (cost : T → ℕ) (a : Allocator) (laws : AllocatorLaws a) (d : BoundedDeque T)
    (v : T)
    → IsValid cost d
    → cost v ≤ d.max_bytes
    → let (after, result) = push_back cost a d v in
      (result ≡ ok tt)
      × ((k : ℕ) × (after.q ≡ drop k d.q ++ (v ∷ []))
          × ((j : ℕ) → j < k → ¬ Fits cost a d (drop j d.q) (cost v)))
      × (length after.q ≤ after.capacity)
      × IsValid cost after
unfolding push_back push_prepared add_at put
push_back-longest_suffix cost a laws d v i h =
    let (k, cap, ready, (fits, room), larger, least) =
      prepare_push_fifo_lem cost a laws d (cost v) i h in
    let kept = record (with_q cost d (drop k d.q)) { capacity = cap } in
    let pushed : push_back cost a d v ≡ (add_at cost a kept none v, ok tt) =
      ap (λ p. push_prepared cost a p v) ready in
    rw pushed (
      refl,
      (k, refl, least),
      omega (arith, larger, length-append (drop k d.q) (v ∷ [])),
      add_at-IsValid cost a laws kept none v
          (IsValid-with_q cost d (drop k d.q) cap i (omega (arith, fits)) (omega (arith, room)))
          fits room,
    )
