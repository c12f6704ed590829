-- ===== src/Queue.antt =====
-- The bounded queue: `BoundedDeque` of src/queue.rs.
pub mod Bytes
pub mod Valid
pub mod Fifo
pub mod Evict
pub mod Priority
pub mod Filter
use sedsprintf_rs.Prelude.{
  ℕ, zero, suc, ◌+◌, ◌-◌, ◌*◌, ◌/◌, ◌%◌, ◌<◌, ◌≤◌, ◌≡◌, min, max, Bool, true, false, not, ◌&&◌,
  ◌||◌, Option, none, some, List, [], ◌∷◌, ◌++◌, length, get_elem?, take, drop, is_empty, ltb, leb,
  ◌==◌, if◌then◌else◌, saturating_add, saturating_mul, saturating_sub, u64_mod,
}
use sedsprintf_rs.Error.{Result, ok, err, packet_too_large, io}

-- The `VecDeque` is its elements from front to back, and its capacity.
pub record BoundedDeque {ℓ} (T : Type ℓ) : Type ℓ where
  pub q : List T
  pub capacity : ℕ
  pub max_bytes : ℕ
  pub cur_bytes : ℕ
  pub max_elems : ℕ
  pub grow_num : ℕ
  pub grow_den : ℕ

-- `position` of the standard iterators.
unfoldable pub position {ℓ} : {T : Type ℓ} → (T → Bool) → List T → Option ℕ
position p [] = none
position p (v ∷ q) =
    let rest = position p q in
    if p v then some 0 else elim rest [ none ↦ none | some i ↦ some (suc i) ]

-- `Option::is_some_and`.
abbrev pub is_some_and {ℓ} : {T : Type ℓ} → (T → Bool) → Option T → Bool
is_some_and p none = false
is_some_and p (some v) = p v

-- `VecDeque::insert` at an index that `position` gave, `VecDeque::push_back` without one.
unfoldable pub put {ℓ} : {T : Type ℓ} → List T → Option ℕ → T → List T
put q none v = q ++ (v ∷ [])
put q (some i) v = take i q ++ (v ∷ drop i q)

-- The product of the clamped multiplier and the denominator, as a `usize`, is floating point: `scaled`.
abbrev pub den : ℕ
den = 1024

unfoldable pub float_to_ratio : ℕ → ℕ × ℕ
float_to_ratio scaled = (max scaled (den + 1), den)

-- The capacity that an allocation gives: `VecDeque::with_capacity` of a number of elements, and
-- `VecDeque::reserve_exact` at a length, a capacity and a number of further elements.
pub record Allocator : Type 0 where
  pub with_capacity : ℕ → ℕ
  pub reserve_exact : ℕ → ℕ → ℕ → ℕ

pub record AllocatorLaws (a : Allocator) : Type 0 where
  pub reserve_room : (len cap add : ℕ) → len + add ≤ a.reserve_exact len cap add

module _ {ℓ} {T : Type ℓ} (cost : T → ℕ) (a : Allocator) where
  unfoldable pub pop_front : BoundedDeque T → Option T × BoundedDeque T
  pop_front d = elim d.q [
    | [] ↦ (none, d)
    | ◌∷◌ v q ↦ (some v, record d { q = q; cur_bytes = saturating_sub d.cur_bytes (cost v) })
  ]

  -- `remove` at an index, which does nothing out of range.
  unfoldable pub remove_pos : BoundedDeque T → ℕ → Option T × BoundedDeque T
  remove_pos d i = elim (get_elem? d.q i) [
    | none ↦ (none, d)
    | some v ↦ (
      some v,
      record d {
        q = take i d.q ++ drop (suc i) d.q;
        cur_bytes = saturating_sub d.cur_bytes (cost v);
      },
    )
  ]

  unfoldable pub pop_back : BoundedDeque T → Option T × BoundedDeque T
  pop_back d = elim (get_elem? d.q (length d.q - 1)) [
    | none ↦ (none, d)
    | some v ↦ (
      some v,
      record d { q = take (length d.q - 1) d.q; cur_bytes = saturating_sub d.cur_bytes (cost v) },
    )
  ]

  unfoldable pub remove_value : (T → T → Bool) → BoundedDeque T → T → BoundedDeque T
  unfolding remove_pos
  remove_value same d needle = elim (position (λ v. same v needle) d.q) [
    | none ↦ d
    | some i ↦ (remove_pos d i).1
  ]

  -- The loop of `retain` at an index, for as many turns as there are elements from it on.
  unfoldable pub retain_loop : (T → Bool) → ℕ → ℕ → BoundedDeque T → BoundedDeque T
  unfolding remove_pos
  retain_loop keep zero i d = d
  retain_loop keep (suc n) i d =
      let keep_item = is_some_and keep (get_elem? d.q i) in
      let kept = retain_loop keep n (suc i) d in
      let removed = retain_loop keep n i ((remove_pos d i).1) in if keep_item then kept else removed

  unfoldable pub retain : BoundedDeque T → (T → Bool) → BoundedDeque T
  unfolding retain_loop
  retain d keep = retain_loop keep (length d.q) 0 d

  unfoldable pub clear : BoundedDeque T → BoundedDeque T
  clear d = record d { q = []; cur_bytes = 0 }

  -- `while !self.q.is_empty() && self.cur_bytes + cost > self.max_bytes { self.pop_front() }`, for at
  -- most as many turns as there are elements; the sum is a `usize` and wraps.
  unfoldable pub over_budget : BoundedDeque T → ℕ → Bool
  over_budget d c = not (is_empty d.q) && ltb d.max_bytes ((d.cur_bytes + c) % u64_mod)

  unfoldable pub evict_front : ℕ → BoundedDeque T → ℕ → BoundedDeque T
  unfolding pop_front over_budget
  evict_front zero d c = d
  evict_front (suc n) d c =
      let rest = evict_front n ((pop_front d).1) c in if over_budget d c then rest else d

  unfoldable pub target_cap : BoundedDeque T → ℕ
  target_cap d =
      let scaled = saturating_add (saturating_mul d.capacity d.grow_num) (d.grow_den - 1) in
      min (max (scaled / d.grow_den) (d.capacity + 1)) d.max_elems

  unfoldable pub ensure_room_for_one : BoundedDeque T → BoundedDeque T
  unfolding pop_front target_cap
  ensure_room_for_one d =
      let len = length d.q in
      let evicted = (pop_front d).1 in
      let add = saturating_sub (target_cap d) d.capacity in
      if ltb len d.capacity
      then d
      else if leb d.max_elems len
      then evicted
      else if leb d.max_elems d.capacity
      then evicted
      else if ltb 0 add
      then record d { capacity = a.reserve_exact len d.capacity add }
      else evicted

  unfoldable pub prepare_push_fifo : BoundedDeque T → ℕ → BoundedDeque T × Result (Unit {0})
  unfolding evict_front ensure_room_for_one pop_front
  prepare_push_fifo d c =
      let fits = evict_front (length d.q) d c in
      let below = if leb fits.max_elems (length fits.q) then (pop_front fits).1 else fits in
      if ltb d.max_bytes c
      then (d, err (packet_too_large "Item exceeds maximum byte budget"))
      else (ensure_room_for_one below, ok tt)

  -- The two last statements of a push, at an index.
  unfoldable pub add_at : BoundedDeque T → Option ℕ → T → BoundedDeque T
  unfolding put
  add_at d at v = record d { q = put d.q at v; cur_bytes = saturating_add d.cur_bytes (cost v) }

  -- What `push_back` does with the result of the preparation.
  unfoldable pub push_prepared :
      BoundedDeque T × Result (Unit {0}) → T → BoundedDeque T × Result (Unit {0})
  unfolding add_at
  push_prepared (d, err e) v = (d, err e)
  push_prepared (d, ok u) v = (add_at d none v, ok tt)

  unfoldable pub push_back : BoundedDeque T → T → BoundedDeque T × Result (Unit {0})
  unfolding prepare_push_fifo push_prepared
  push_back d v = push_prepared (prepare_push_fifo d (cost v)) v

  module _ (priority_of : T → ℕ) where
    -- `self.q.back().map(&mut priority_of).unwrap_or(0)`.
    unfoldable pub tail_priority : BoundedDeque T → ℕ
    tail_priority d = elim (get_elem? d.q (length d.q - 1)) [ none ↦ 0 | some v ↦ priority_of v ]

    -- The loop of `push_back_prioritized`, and whether it returned the error.
    unfoldable pub evict_back : ℕ → BoundedDeque T → ℕ → ℕ → BoundedDeque T × Bool
    unfolding pop_back over_budget tail_priority
    evict_back zero d c priority = (d, false)
    evict_back (suc n) d c priority =
        let rest = evict_back n ((pop_back d).1) c priority in
        if over_budget d c
        then if ltb priority (tail_priority d) then (d, true) else rest
        else (d, false)

    -- The test of the number of elements, and whether it returned the error.
    unfoldable pub evict_elem : BoundedDeque T → ℕ → BoundedDeque T × Bool
    unfolding pop_back tail_priority
    evict_elem d priority =
        if leb d.max_elems (length d.q)
        then if ltb priority (tail_priority d) then (d, true) else ((pop_back d).1, false)
        else (d, false)

    unfoldable pub push_back_prioritized : BoundedDeque T → T → BoundedDeque T × Result (Unit {0})
    unfolding evict_back evict_elem ensure_room_for_one add_at
    push_back_prioritized d v =
        let saturated = err (io "priority queue saturated") in
        let (fits, full) = evict_back (length d.q) d (cost v) (priority_of v) in
        let (below, stuck) = evict_elem fits (priority_of v) in
        let ready = ensure_room_for_one below in
        let at = position (λ existing. ltb (priority_of existing) (priority_of v)) ready.q in
        if ltb d.max_bytes (cost v)
        then (d, err (packet_too_large "Item exceeds maximum byte budget"))
        else if full
        then (fits, saturated)
        else if stuck
        then (below, saturated)
        else (add_at ready at v, ok tt)

-- `BoundedDeque::new`; `none` is a panic. The multiplier comes as whether it is at most 1, and as its
-- scaled value; `size_of` is the size of an element.
unfoldable pub new {ℓ} :
    {T : Type ℓ} (a : Allocator) (size_of : ℕ) (max_bytes starting_bytes : ℕ) (at_most_one : Bool)
    (scaled : ℕ)
    → Option (BoundedDeque T)
unfolding float_to_ratio
new a size_of max_bytes starting_bytes at_most_one scaled =
    let min_cost = max size_of 1 in
    let max_elems = max (max_bytes / min_cost) 1 in
    let start_cap = min (max (starting_bytes / min_cost) 1) max_elems in
    let (num, ratio_den) = float_to_ratio scaled in
    if ltb max_bytes starting_bytes || (max_bytes == 0) || at_most_one
    then none
    else some (record {
      q = [];
      capacity = a.with_capacity start_cap;
      max_bytes = max_bytes;
      cur_bytes = 0;
      max_elems = max_elems;
      grow_num = num;
      grow_den = ratio_den;
    })
