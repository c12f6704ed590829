-- ===== src/Router/Selection/Allowed.antt =====
-- A packet leaves only by sides that the routes allow.
use sedsprintf_rs.Prelude.{
  ℕ, zero, suc, ◌+◌, ◌%◌, ◌≡◌, refl, ap, ◌∙◌, Bool, true, false, ◌&&◌, Option, none, some, List, [],
  ◌∷◌, length, take, get_elem?, ◌-◌, ltb, leb, ◌==◌, is_empty, inl, inr, All, All-take, Bool-cases,
  arith,
}
use sedsprintf_rs.Prelude.Sorting.{sort, All-sort}
use sedsprintf_rs.Reliable.Store.{contains_key}
use sedsprintf_rs.Router.Settings.{
  RouterSideOptions, RouteSelectionMode, fanout, weighted, failover, RouteState, side_at, find,
  same_source, flatten,
}
use sedsprintf_rs.Router.Selection.{
  RouteSelectionOrigin, flood, discovered, route_allowed, link_open, eligible_from,
  eligible_side_ids, pick_side, rotate, unmeasured_sides, at_most_one,
  apply_adaptive_discovery_selection, select_by_mode, select_many, apply_route_selection,
  sum_weights, cursor_of, failover_before, route_weight, adaptive_weight,
}

module _ (P : ℕ → Type 0) where
  All-pick_side :
      (weight_of : ℕ → ℕ) (n : ℕ) (sides : List ℕ)
      → All P sides
      → All P (pick_side weight_of n sides)
  unfolding pick_side
  All-pick_side weight_of n [] a = tt
  All-pick_side weight_of n (side ∷ sides) (p, a) = elim (Bool-cases (ltb n (weight_of side))) [
    | inl here ↦ rw here (p, tt)
    | inr later ↦ rw later (All-pick_side weight_of (n - weight_of side) sides a)
  ]

  All-at_most_one : (i : ℕ) (sides : List ℕ) → All P sides → All P (at_most_one (get_elem? sides i))
  All-at_most_one i [] a = tt
  All-at_most_one zero (side ∷ sides) (p, a) = (p, tt)
  All-at_most_one (suc i) (side ∷ sides) (p, a) = All-at_most_one i sides a

  All-unmeasured_sides :
      (st : RouteState) (sides : List ℕ) → All P sides → All P (unmeasured_sides st sides)
  unfolding unmeasured_sides
  All-unmeasured_sides st [] a = tt
  All-unmeasured_sides st (side ∷ sides) (p, a) =
      let rest = All-unmeasured_sides st sides a in
      elim (Bool-cases (contains_key side st.adaptive_route_stats)) [
        | inl known ↦ rw known rest
        | inr fresh ↦ rw fresh (p, rest)
      ]

  All-rotate :
      (weight_of : ℕ → ℕ) (sides : List ℕ) (st : RouteState) (src : Option ℕ) (idle : List ℕ)
      → All P sides
      → All P idle
      → All P (rotate weight_of sides st src idle).0
  unfolding rotate
  All-rotate weight_of sides st src idle a b =
      elim (Bool-cases (sum_weights weight_of sides == 0)) [
        | inl nothing ↦ rw nothing b
        | inr weights ↦
            rw weights
              (All-pick_side weight_of (cursor_of st src % sum_weights weight_of sides) sides a)
      ]

  All-adaptive :
      (st : RouteState) (src : Option ℕ) (sides : List ℕ)
      → All P sides
      → All P (apply_adaptive_discovery_selection st src sides).0
  unfolding apply_adaptive_discovery_selection
  All-adaptive st src sides a =
      let sorted = sort ltb sides in
      let up = All-sort ltb P sides a in
      let fresh = unmeasured_sides st sorted in
      elim (Bool-cases (is_empty fresh)) [
        | inl known ↦ rw known (
            All-rotate (adaptive_weight st) sorted st src (take 1 sorted) up
              (All-take P 1 sorted up))
        | inr some_fresh ↦ rw some_fresh (
            All-at_most_one (cursor_of st src % length fresh) fresh
              (All-unmeasured_sides st sorted up))
      ]

  All-select_by_mode :
      (st : RouteState) (src : Option ℕ) (sides : List ℕ) (mode : RouteSelectionMode)
      → All P sides
      → All P (select_by_mode st src sides mode).0
  unfolding select_by_mode
  All-select_by_mode st src sides fanout a = a
  All-select_by_mode st src sides weighted a =
      All-rotate (route_weight st src) (sort ltb sides) st src [] (All-sort ltb P sides a) tt
  All-select_by_mode st src sides failover a =
      All-take P 1 (sort (failover_before st src) sides)
        (All-sort (failover_before st src) P sides a)

  All-select_many :
      (st : RouteState) (src : Option ℕ) (sides : List ℕ) (origin : RouteSelectionOrigin)
      (mode : Option RouteSelectionMode)
      → All P sides
      → All P (select_many st src sides origin mode).0
  unfolding select_many
  All-select_many st src sides origin (some mode) a = All-select_by_mode st src sides mode a
  All-select_many st src sides discovered none a = All-adaptive st src sides a
  All-select_many st src sides flood none a = All-select_by_mode st src sides fanout a

  pub All-apply_route_selection :
      (st : RouteState) (src : Option ℕ) (sides : List ℕ) (origin : RouteSelectionOrigin)
      → All P sides
      → All P (apply_route_selection st src sides origin).0
  unfolding apply_route_selection
  All-apply_route_selection st src sides origin a = elim (Bool-cases (leb (length sides) 1)) [
    | inl few ↦ rw few a
    | inr many ↦
        rw many (All-select_many st src sides origin (find same_source src st.source_route_modes) a)
  ]

-- A side that exists, is open to the packet's reach, and is allowed by the routes.
abbrev pub MayLeaveBy : RouteState → Option ℕ → Option ℕ → Bool → ℕ → Type 0
MayLeaveBy st src ty restrict_link_local side =
    (opts : RouterSideOptions) × (side_at st side ≡ some opts)
    × (link_open restrict_link_local opts ≡ true)
    × (route_allowed st src ty side ≡ true)

both : (a b : Bool) → (a && b) ≡ true → (a ≡ true) × (b ≡ true)
both true b h = (refl, h)
both false b h = cc

eligible_from-MayLeaveBy :
    (st : RouteState) (src ty : Option ℕ) (restrict : Bool) (side_id : ℕ)
    (sides : List (Option RouterSideOptions))
    → ((i : ℕ) → get_elem? st.sides (side_id + i) ≡ get_elem? sides i)
    → All (MayLeaveBy st src ty restrict) (eligible_from st src ty restrict side_id sides)
unfolding eligible_from side_at
eligible_from-MayLeaveBy st src ty restrict side_id [] at = tt
eligible_from-MayLeaveBy st src ty restrict side_id (none ∷ sides) at =
    eligible_from-MayLeaveBy st src ty restrict (side_id + 1) sides
      (λ i. ap (λ k. get_elem? st.sides k) (omega arith) ∙ at (suc i))
eligible_from-MayLeaveBy st src ty restrict side_id (some opts ∷ sides) at =
    let rest =
      eligible_from-MayLeaveBy st src ty restrict (side_id + 1) sides
        (λ i. ap (λ k. get_elem? st.sides k) (omega arith) ∙ at (suc i)) in
    let here : flatten (get_elem? st.sides side_id) ≡ some opts =
      ap (λ k. flatten (get_elem? st.sides k)) (omega arith) ∙ ap flatten (at 0) in
    elim (Bool-cases (link_open restrict opts && route_allowed st src ty side_id)) [
      | inr shut ↦ rw shut rest
      | inl passes ↦
          let (link, route) =
            both (link_open restrict opts) (route_allowed st src ty side_id) passes in
          rw passes ((opts, here, link, route), rest)
    ]

-- Whatever the mode of selection and wherever its cursor stands, a packet leaves only by sides that exist
-- and are open to its reach, and that the routes allow for its source and its type.
pub apply_route_selection-MayLeaveBy :
    (st : RouteState) (src ty : Option ℕ) (restrict_link_local : Bool)
    (origin : RouteSelectionOrigin)
    → All
        (MayLeaveBy st src ty restrict_link_local)
        (apply_route_selection st src (eligible_side_ids st src ty restrict_link_local) origin).0
unfolding eligible_side_ids
apply_route_selection-MayLeaveBy st src ty restrict_link_local origin =
    All-apply_route_selection (MayLeaveBy st src ty restrict_link_local) st src
      (eligible_side_ids st src ty restrict_link_local) origin
      (eligible_from-MayLeaveBy st src ty restrict_link_local 0 st.sides
        (λ i. ap (λ k. get_elem? st.sides k) (omega arith)))
