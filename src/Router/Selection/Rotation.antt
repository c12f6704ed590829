-- ===== src/Router/Selection/Rotation.antt =====
-- The weighted selection goes round a schedule in which each side stands as often as its weight.
use mathlib.Core.Path.{subst}
use mathlib.Core.List.{Memᴰ}
use native.Mathlib.Nat.{add-mul-mod_self_right, mod-eq_of_lt, mod-add-div', mod-lt}
use sedsprintf_rs.Prelude.{
  ℕ, zero, suc, ◌+◌, ◌-◌, ◌*◌, ◌/◌, ◌%◌, ◌≤◌, ◌<◌, ◌≡◌, refl, sym, ap, ◌∙◌, true, false, Option,
  none, some, List, [], ◌∷◌, ◌++◌, length, get_elem?, replicate, ltb, leb, leb→le, ◌==◌, inl, inr,
  Bool-cases, u64_mod, arith, length-append, length-replicate,
}
use sedsprintf_rs.Prelude.Sorting.{sort, Memᴰ-sort}
use sedsprintf_rs.Router.Settings.{weighted, RouteState, find, same_source}
use sedsprintf_rs.Router.Selection.{
  RouteSelectionOrigin, pick_side, rotate, sum_weights, cursor_of, advance_cursor, route_weight,
  select_by_mode, select_many, apply_route_selection, at_most_one,
}

-- Each side as often as its weight, in order.
unfoldable pub schedule : (ℕ → ℕ) → List ℕ → List ℕ
schedule weight_of [] = []
schedule weight_of (side ∷ sides) = replicate (weight_of side) side ++ schedule weight_of sides

-- The state after a number of selections for one source among the same sides.
unfoldable pub after_turns : Option ℕ → List ℕ → RouteSelectionOrigin → ℕ → RouteState → RouteState
after_turns src sides origin zero st = st
after_turns src sides origin (suc k) st =
    after_turns src sides origin k (apply_route_selection st src sides origin).1

repeated_here :
    (w side r : ℕ) (rest : List ℕ) → r < w → get_elem? (replicate w side ++ rest) r ≡ some side
repeated_here zero side r rest h = absurd (omega arith)
repeated_here (suc w) side zero rest h = refl
repeated_here (suc w) side (suc r) rest h = repeated_here w side r rest (omega arith)

repeated_later :
    (w side r : ℕ) (rest : List ℕ)
    → w ≤ r
    → get_elem? (replicate w side ++ rest) r ≡ get_elem? rest (r - w)
repeated_later zero side r rest h = ap (λ k. get_elem? rest k) (omega arith)
repeated_later (suc w) side zero rest h = absurd (omega arith)
repeated_later (suc w) side (suc r) rest h =
    repeated_later w side r rest (omega arith) ∙ ap (λ k. get_elem? rest k) (omega arith)

length-schedule :
    (weight_of : ℕ → ℕ) (sides : List ℕ)
    → length (schedule weight_of sides) ≡ sum_weights weight_of sides
unfolding schedule sum_weights
length-schedule weight_of [] = refl
length-schedule weight_of (side ∷ sides) =
    length-append (replicate (weight_of side) side) (schedule weight_of sides)
    ∙ omega (arith, length-replicate (weight_of side) side, length-schedule weight_of sides)

pick_side-schedule :
    (weight_of : ℕ → ℕ) (r : ℕ) (sides : List ℕ)
    → pick_side weight_of r sides ≡ at_most_one (get_elem? (schedule weight_of sides) r)
unfolding pick_side schedule
pick_side-schedule weight_of r [] = refl
pick_side-schedule weight_of r (side ∷ sides) = elim (Bool-cases (ltb r (weight_of side))) [
  | inl here ↦ rw here (
      ap at_most_one
        (sym (repeated_here (weight_of side) side r (schedule weight_of sides) (ground arith))))
  | inr later ↦ rw later (
      pick_side-schedule weight_of (r - weight_of side) sides
      ∙ ap at_most_one
          (sym (repeated_later (weight_of side) side r (schedule weight_of sides) (ground arith))))
]

module _ (src : Option ℕ) (sides : List ℕ) (origin : RouteSelectionOrigin) where
  -- A state in which the source selects by weight among at least two sides, one of them of some weight.
  abbrev pub Rotates : RouteState → Type 0
  Rotates st =
      (find same_source src st.source_route_modes ≡ some weighted)
      × (2 ≤ length sides)
      × (1 ≤ sum_weights (route_weight st src) (sort ltb sides))

  one_turn :
      (st : RouteState)
      → Rotates st
      → apply_route_selection st src sides origin ≡ (
        pick_side
            (route_weight st src)
            (cursor_of st src % sum_weights (route_weight st src) (sort ltb sides))
            (sort ltb sides),
        advance_cursor st src,
      )
  unfolding apply_route_selection select_many select_by_mode rotate
  one_turn st (mode, many, some_weight) =
      let more : leb (length sides) 1 ≡ false = ground arith in
      let heavy : (sum_weights (route_weight st src) (sort ltb sides) == 0) ≡ false =
        ground arith in
      rw (more, mode, heavy) refl

  same_source_refl : (s : Option ℕ) → same_source s s ≡ true
  same_source_refl none = refl
  same_source_refl (some a) = ground arith

  cursor_of-advance_cursor :
      (st : RouteState)
      → cursor_of st src + 1 < u64_mod
      → cursor_of (advance_cursor st src) src ≡ cursor_of st src + 1
  unfolding cursor_of advance_cursor find
  cursor_of-advance_cursor st small = rw (same_source_refl src) (omega arith)

  -- A source that selects by weight among two sides or more goes round a schedule, in which each side
  -- stands as often as its weight: the next selections take its entries one after the other, each once,
  -- from the cursor on. The cursor does not wrap, and some weight is not 0.
  pub apply_route_selection-schedule :
      (k : ℕ) (st : RouteState)
      → Rotates st
      → cursor_of st src + k < u64_mod
      → let turns = schedule (route_weight st src) (sort ltb sides) in
        (apply_route_selection (after_turns src sides origin k st) src sides origin).0
        ≡ at_most_one (get_elem? turns ((cursor_of st src + k) % length turns))
  unfolding after_turns route_weight advance_cursor
  apply_route_selection-schedule zero st rotates small =
      let weight_of = route_weight st src in
      let sorted = sort ltb sides in
      let total = length-schedule weight_of sorted in
      let here : cursor_of st src % sum_weights weight_of sorted
          ≡ (cursor_of st src + 0) % length (schedule weight_of sorted) =
        rw total (ap (λ c. c % sum_weights weight_of sorted) (omega arith)) in
      ap (λ r. r.0) (one_turn st rotates)
      ∙ (pick_side-schedule weight_of (cursor_of st src % sum_weights weight_of sorted) sorted
          ∙ ap (λ r. at_most_one (get_elem? (schedule weight_of sorted) r)) here)
  apply_route_selection-schedule (suc k) st (mode, many, some_weight) small =
      let turns = schedule (route_weight st src) (sort ltb sides) in
      let next = ap (λ r. r.1) (one_turn st (mode, many, some_weight)) in
      let moved : cursor_of (advance_cursor st src) src + k ≡ cursor_of st src + suc k =
        omega (arith, cursor_of-advance_cursor st (omega arith)) in
      ap (λ s. (apply_route_selection (after_turns src sides origin k s) src sides origin).0) next
      ∙ (apply_route_selection-schedule k (advance_cursor st src) (mode, many, some_weight)
            (omega (arith, moved, small))
          ∙ ap (λ c. at_most_one (get_elem? turns (c % length turns))) moved)

-- The place of a side in the schedule.
scheduled :
    (weight_of : ℕ → ℕ) (side : ℕ) (sides : List ℕ)
    → Memᴰ side sides
    → 1 ≤ weight_of side
    → (r : ℕ) × (r < length (schedule weight_of sides))
      × (get_elem? (schedule weight_of sides) r ≡ some side)
unfolding schedule
scheduled weight_of side [] m heavy = elim m [ ]
scheduled weight_of side (x ∷ sides) (Memᴰ.head same) heavy =
    let here = subst (λ z. 1 ≤ weight_of z) same heavy in
    (
      0,
      omega (
        arith,
        length-append (replicate (weight_of x) x) (schedule weight_of sides),
        length-replicate (weight_of x) x,
        here,
      ),
      repeated_here (weight_of x) x 0 (schedule weight_of sides) (omega (arith, here))
          ∙ ap (λ z. some z) (sym same),
    )
scheduled weight_of side (x ∷ sides) (Memᴰ.tail later) heavy =
    let (r, below, found) = scheduled weight_of side sides later heavy in
    let shifted : weight_of x + r - weight_of x ≡ r = omega arith in
    (
      weight_of x + r,
      omega (
        arith,
        length-append (replicate (weight_of x) x) (schedule weight_of sides),
        length-replicate (weight_of x) x,
        below,
      ),
      repeated_later (weight_of x) x (weight_of x + r) (schedule weight_of sides) (omega arith)
          ∙ (ap (λ k. get_elem? (schedule weight_of sides) k) shifted ∙ found),
    )

-- From any number, a round visits every remainder.
round_visits : (c n r : ℕ) → r < n → (k : ℕ) × (k < n) × ((c + k) % n ≡ r)
round_visits c n r h =
    let some_room : 0 < n = omega (arith, h) in
    let parts = mod-add-div' c n in
    let below = mod-lt c some_room in
    let small = mod-eq_of_lt h in
    let next : (c / n + 1) * n ≡ c / n * n + n = grind arith in
    elim (Bool-cases (leb (c % n) r)) [
      | inl early ↦
          let le : c % n ≤ r = leb→le (c % n) r early in
          let sum : c + (r - c % n) ≡ r + c / n * n = omega (arith, parts, le) in
          (r - c % n, omega (arith, h), rw (sum, add-mul-mod_self_right r (c / n) n) small)
      | inr late ↦
          let lt : r < c % n = ground arith in
          let sum : c + (n - c % n + r) ≡ r + (c / n + 1) * n =
            omega (arith, parts, lt, next, below) in
          (
            n - c % n + r,
            omega (arith, lt, below),
            rw (sum, add-mul-mod_self_right r (c / n + 1) n) small,
          )
    ]

-- No side of some weight is left out: from any cursor that stays below 2 ^ 64 for as many selections as
-- the weights add up to, each such side of a source that selects by weight has its turn within them.
pub apply_route_selection-every_side :
    (src : Option ℕ) (sides : List ℕ) (origin : RouteSelectionOrigin) (st : RouteState) (side : ℕ)
    → Rotates src sides origin st
    → cursor_of st src + sum_weights (route_weight st src) (sort ltb sides) < u64_mod
    → Memᴰ side sides
    → 1 ≤ route_weight st src side
    → (k : ℕ) × (k < sum_weights (route_weight st src) (sort ltb sides))
      × ((apply_route_selection (after_turns src sides origin k st) src sides origin).0 ≡ side ∷ [])
apply_route_selection-every_side src sides origin st side rotates small m heavy =
    let weight_of = route_weight st src in
    let sorted = sort ltb sides in
    let turns = schedule weight_of sorted in
    let total = length-schedule weight_of sorted in
    let (r, below, found) = scheduled weight_of side sorted (Memᴰ-sort ltb side sides m) heavy in
    let (k, soon, lands) = round_visits (cursor_of st src) (length turns) r below in
    (
      k,
      omega (arith, soon, total),
      apply_route_selection-schedule src sides origin k st rotates
            (omega (arith, soon, total, small))
          ∙ (ap (λ c. at_most_one (get_elem? turns c)) lands ∙ ap at_most_one found),
    )
