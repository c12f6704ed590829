-- ===== src/Router/Selection.antt =====
-- Which sides a packet may leave by, and which of them are chosen: src/router.rs.
pub mod Allowed
pub mod Rotation
use sedsprintf_rs.Prelude.{
  ℕ, zero, suc, ◌+◌, ◌-◌, ◌*◌, ◌%◌, ◌<◌, Bool, true, false, not, ◌&&◌, ◌||◌, Option, none, some,
  List, [], ◌∷◌, length, take, get_elem?, ltb, leb, ◌==◌, if◌then◌else◌, wrapping_add64, is_empty,
}
use sedsprintf_rs.Prelude.Sorting.{sort}
use sedsprintf_rs.Reliable.{AdaptiveRouteStats, weight}
use sedsprintf_rs.Reliable.Store.{get, contains_key}
use sedsprintf_rs.TimeSync.Calendar.{unwrap_or}
use sedsprintf_rs.Router.Settings.{
  RouterSideOptions, RouteSelectionMode, fanout, weighted, failover, RouteState, same_source,
  same_route, same_typed_route, find, put_key, side_at,
}

pub data RouteSelectionOrigin : Type 0 where
  flood discovered : RouteSelectionOrigin

unfoldable pub default_route_enabled : Option ℕ → ℕ → Bool
default_route_enabled src dst = not (same_source src (some dst))

unfoldable pub ingress_open : RouteState → Option ℕ → Bool
ingress_open st none = true
ingress_open st (some src) = elim (side_at st src) [
  | none ↦ false
  | some opts ↦ opts.ingress_enabled
]

unfoldable pub egress_open : RouteState → ℕ → Bool
egress_open st dst = elim (side_at st dst) [ none ↦ false | some opts ↦ opts.egress_enabled ]

unfoldable pub base_allowed : RouteState → Option ℕ → ℕ → Bool
base_allowed st src dst =
    unwrap_or (find same_route (src, dst) st.route_overrides) (default_route_enabled src dst)

-- Whether there is any rule for the source and the type.
unfoldable pub has_typed_rule : Option ℕ → ℕ → List ((Option ℕ × ℕ × ℕ) × Bool) → Bool
has_typed_rule src ty [] = false
has_typed_rule src ty (((typed_src, typed_ty, dst), enabled) ∷ rules) =
    (same_source typed_src src && (typed_ty == ty)) || has_typed_rule src ty rules

unfoldable pub typed_allowed : RouteState → Option ℕ → Option ℕ → ℕ → Bool
typed_allowed st src none dst = true
typed_allowed st src (some ty) dst =
    if has_typed_rule src ty st.typed_route_overrides
    then unwrap_or (find same_typed_route (src, ty, dst) st.typed_route_overrides) false
    else true

unfoldable pub route_allowed : RouteState → Option ℕ → Option ℕ → ℕ → Bool
route_allowed st src ty dst =
    egress_open st dst
    && ingress_open st src
    && base_allowed st src dst
    && typed_allowed st src ty dst

unfoldable pub link_open : Bool → RouterSideOptions → Bool
link_open restrict_link_local opts = not (restrict_link_local && not opts.link_local_enabled)

-- The sides from a place on.
unfoldable pub eligible_from :
    RouteState → Option ℕ → Option ℕ → Bool → ℕ → List (Option RouterSideOptions) → List ℕ
eligible_from st src ty restrict_link_local side_id [] = []
eligible_from st src ty restrict_link_local side_id (none ∷ sides) =
    eligible_from st src ty restrict_link_local (side_id + 1) sides
eligible_from st src ty restrict_link_local side_id (some opts ∷ sides) =
    let rest = eligible_from st src ty restrict_link_local (side_id + 1) sides in
    if link_open restrict_link_local opts && route_allowed st src ty side_id
    then side_id ∷ rest
    else rest

unfoldable pub eligible_side_ids : RouteState → Option ℕ → Option ℕ → Bool → List ℕ
eligible_side_ids st src ty restrict_link_local =
    eligible_from st src ty restrict_link_local 0 st.sides

-- The total of the weights, as long as a `u64` holds it: that of the weights of a setting, which are
-- `u32`s, always fits, and the source does not say what becomes of a larger one.
unfoldable pub sum_weights : (ℕ → ℕ) → List ℕ → ℕ
sum_weights weight_of [] = 0
sum_weights weight_of (side ∷ sides) = weight_of side + sum_weights weight_of sides

-- The side whose share of the weights the number falls in.
unfoldable pub pick_side : (ℕ → ℕ) → ℕ → List ℕ → List ℕ
pick_side weight_of remaining [] = []
pick_side weight_of remaining (side ∷ sides) =
    if ltb remaining (weight_of side)
    then side ∷ []
    else pick_side weight_of (remaining - weight_of side) sides

unfoldable pub cursor_of : RouteState → Option ℕ → ℕ
cursor_of st src = unwrap_or (find same_source src st.route_selection_cursors) 0

unfoldable pub advance_cursor : RouteState → Option ℕ → RouteState
advance_cursor st src = record st {
  route_selection_cursors =
      put_key same_source src (wrapping_add64 (cursor_of st src) 1) st.route_selection_cursors;
}

unfoldable pub route_weight : RouteState → Option ℕ → ℕ → ℕ
route_weight st src side = unwrap_or (find same_route (src, side) st.route_weights) 1

unfoldable pub route_priority : RouteState → Option ℕ → ℕ → ℕ
route_priority st src side = unwrap_or (find same_route (src, side) st.route_priorities) 0

-- One turn of the rotation, over the sides in order; without any weight, a fallback.
unfoldable pub rotate : (ℕ → ℕ) → List ℕ → RouteState → Option ℕ → List ℕ → List ℕ × RouteState
rotate weight_of sides st src idle =
    let total_weight = sum_weights weight_of sides in
    if total_weight == 0
    then (idle, st)
    else (pick_side weight_of (cursor_of st src % total_weight) sides, advance_cursor st src)

unfoldable pub unmeasured_sides : RouteState → List ℕ → List ℕ
unmeasured_sides st [] = []
unmeasured_sides st (side ∷ sides) =
    let rest = unmeasured_sides st sides in
    if contains_key side st.adaptive_route_stats then rest else side ∷ rest

abbrev pub at_most_one : Option ℕ → List ℕ
at_most_one none = []
at_most_one (some side) = side ∷ []

unfoldable pub adaptive_weight : RouteState → ℕ → ℕ
adaptive_weight st side = elim (get side st.adaptive_route_stats) [
  | none ↦ 1
  | some stats ↦ weight stats
]

-- The sides without a measurement take turns first.
unfoldable pub apply_adaptive_discovery_selection :
    RouteState → Option ℕ → List ℕ → List ℕ × RouteState
apply_adaptive_discovery_selection st src sides =
    let sorted = sort ltb sides in
    let unmeasured = unmeasured_sides st sorted in
    if is_empty unmeasured then rotate (adaptive_weight st) sorted st src (take 1 sorted) else (
      at_most_one (get_elem? unmeasured (cursor_of st src % length unmeasured)),
      advance_cursor st src,
    )

-- By priority, then by number.
unfoldable pub failover_before : RouteState → Option ℕ → ℕ → ℕ → Bool
failover_before st src a b =
    ltb (route_priority st src a) (route_priority st src b)
    || ((route_priority st src a == route_priority st src b) && ltb a b)

unfoldable pub select_by_mode :
    RouteState → Option ℕ → List ℕ → RouteSelectionMode → List ℕ × RouteState
select_by_mode st src sides fanout = (sides, st)
select_by_mode st src sides weighted = rotate (route_weight st src) (sort ltb sides) st src []
select_by_mode st src sides failover = (take 1 (sort (failover_before st src) sides), st)

unfoldable pub select_many :
    RouteState
    → Option ℕ
    → List ℕ
    → RouteSelectionOrigin
    → Option RouteSelectionMode
    → List ℕ × RouteState
select_many st src sides origin (some mode) = select_by_mode st src sides mode
select_many st src sides discovered none = apply_adaptive_discovery_selection st src sides
select_many st src sides flood none = select_by_mode st src sides fanout

unfoldable pub apply_route_selection :
    RouteState → Option ℕ → List ℕ → RouteSelectionOrigin → List ℕ × RouteState
apply_route_selection st src sides origin =
    if leb (length sides) 1
    then (sides, st)
    else select_many st src sides origin (find same_source src st.source_route_modes)
