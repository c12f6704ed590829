-- ===== src/Queue/Valid.antt =====
-- The invariant of the bounded queue, and the parts that a push is made of.
use sedsprintf_rs.Prelude.{
  ℕ, ◌+◌, ◌-◌, ◌≤◌, ◌<◌, ◌^◌, ◌≡◌, refl, ap, true, false, Option, none, some, List, [], ◌∷◌, length,
  ltb, leb, length-append, length-take, length-drop, take, drop, Bool-cases, inl, inr, ltb→lt,
  arith,
}
use sedsprintf_rs.Queue.{
  BoundedDeque, Allocator, AllocatorLaws, ensure_room_for_one, target_cap, add_at, put,
}
use sedsprintf_rs.Queue.Bytes.{total, total-append, total-take-drop}

module _ {ℓ} {T : Type ℓ} (cost : T → ℕ) where
  -- The bytes are counted, within the budget, and the number of elements is within the cap. (The budget
  -- is below half the range of a `usize`, so that a sum of two costs does not wrap.)
  pub record IsValid (d : BoundedDeque T) : Type ℓ where
    pub counted : d.cur_bytes ≡ total cost d.q
    pub budget : total cost d.q ≤ d.max_bytes
    pub elems : length d.q ≤ d.max_elems
    pub some_elems : 1 ≤ d.max_elems
    pub half : d.max_bytes < 2 ^ 63

  -- The queue with other elements, counted.
  abbrev pub with_q : BoundedDeque T → List T → BoundedDeque T
  with_q d q = record d { q = q; cur_bytes = total cost q }

  pub with_q_self : (d : BoundedDeque T) → IsValid d → d ≡ with_q d d.q
  with_q_self d v = ap (λ n. record d { cur_bytes = n }) v.counted

  pub IsValid-with_q :
      (d : BoundedDeque T) (q : List T) (cap : ℕ)
      → IsValid d
      → total cost q ≤ d.max_bytes
      → length q ≤ d.max_elems
      → IsValid (record d { q = q; cur_bytes = total cost q; capacity = cap })
  IsValid-with_q d q cap v b e = record {
    counted = refl;
    budget = b;
    elems = e;
    some_elems = v.some_elems;
    half = v.half;
  }

  module _ (a : Allocator) (laws : AllocatorLaws a) where
    -- With room by the number of elements, only the capacity changes, to one above the length.
    pub ensure_room_lem :
        (d : BoundedDeque T)
        → length d.q < d.max_elems
        → (cap : ℕ) × (ensure_room_for_one cost a d ≡ record d { capacity = cap })
          × (length d.q < cap)
    unfolding ensure_room_for_one target_cap
    ensure_room_lem d h = elim (Bool-cases (ltb (length d.q) d.capacity)) [
      | inl e ↦ (d.capacity, rw (e) refl, ltb→lt (length d.q) d.capacity e)
      | inr e ↦
          let add = target_cap cost a d - d.capacity in
          let below : leb d.max_elems (length d.q) ≡ false = ground arith in
          let small : leb d.max_elems d.capacity ≡ false = ground (arith, e) in
          let grows : ltb 0 add ≡ true = ground (arith, e) in
          (
            a.reserve_exact (length d.q) d.capacity add,
            rw (e, below, small, grows) refl,
            omega (arith, laws.reserve_room (length d.q) d.capacity add, ltb→lt 0 add grows),
          )
    ]

    -- Adding an item behind or between the others counts its bytes, and keeps the invariant where it fits.
    pub add_at-IsValid :
        (d : BoundedDeque T) (at : Option ℕ) (v : T)
        → IsValid d
        → total cost d.q + cost v ≤ d.max_bytes
        → length d.q < d.max_elems
        → IsValid (add_at cost a d at v)
    unfolding add_at put
    add_at-IsValid d none v i b e = record {
      counted = omega (arith, i.counted, i.half, total-append cost d.q (v ∷ []));
      budget = omega (arith, total-append cost d.q (v ∷ []));
      elems = omega (arith, length-append d.q (v ∷ []));
      some_elems = i.some_elems;
      half = i.half;
    }
    add_at-IsValid d (some n) v i b e =
        let parts = total-take-drop cost n d.q in
        let inserted = total-append cost (take n d.q) (v ∷ drop n d.q) in
        record {
          counted = omega (arith, i.counted, i.half, parts, inserted);
          budget = omega (arith, parts, inserted);
          elems = omega (
            arith,
            length-append (take n d.q) (v ∷ drop n d.q),
            length-take n d.q,
            length-drop n d.q,
          );
          some_elems = i.some_elems;
          half = i.half;
        }
