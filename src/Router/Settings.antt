-- ===== src/Router/Settings.antt =====
-- The state that the routes depend on, and the router's settings of it: src/router.rs. The tables are
-- lists of keys and values; only look-ups are made in them, so their order does not matter.
use sedsprintf_rs.Prelude.{
  ℕ, Bool, true, false, not, ◌&&◌, Option, none, some, List, [], ◌∷◌, ◌==◌, if◌then◌else◌,
  get_elem?, set, length, ◌++◌,
}
use sedsprintf_rs.Error.{Result, ok, err, bad_arg, handler_error, ◌>>=◌, ◌>>◌, ok_or}
use sedsprintf_rs.Reliable.{AdaptiveRouteStats}
use sedsprintf_rs.Reliable.Store.{BtreeMap, remove}
use sedsprintf_rs.Discovery.Cadence.{DiscoveryCadenceState, on_topology_change}

pub record RouterSideOptions : Type 0 where
  pub reliable_enabled : Bool
  pub link_local_enabled : Bool
  pub ingress_enabled : Bool
  pub egress_enabled : Bool

-- `RouterSideOptions::default`.
abbrev pub default_options : RouterSideOptions
default_options = record {
  reliable_enabled = false;
  link_local_enabled = false;
  ingress_enabled = true;
  egress_enabled = true;
}

pub data RouteSelectionMode : Type 0 where
  fanout weighted failover : RouteSelectionMode

-- A source is a side, or none for the node itself.
abbrev pub same_source : Option ℕ → Option ℕ → Bool
same_source none none = true
same_source none (some b) = false
same_source (some a) none = false
same_source (some a) (some b) = a == b

abbrev pub same_route : Option ℕ × ℕ → Option ℕ × ℕ → Bool
same_route (src, dst) (src', dst') = same_source src src' && (dst == dst')

abbrev pub same_typed_route : Option ℕ × ℕ × ℕ → Option ℕ × ℕ × ℕ → Bool
same_typed_route (src, ty, dst) (src', ty', dst') =
    same_source src src' && (ty == ty') && (dst == dst')

module _ {K V : Type 0} (same : K → K → Bool) where
  unfoldable pub find : K → List (K × V) → Option V
  find k [] = none
  find k ((key, v) ∷ table) = let rest = find k table in if same key k then some v else rest

  unfoldable pub drop_key : K → List (K × V) → List (K × V)
  drop_key k [] = []
  drop_key k ((key, v) ∷ table) =
      let rest = drop_key k table in if same key k then rest else (key, v) ∷ rest

  abbrev pub put_key : K → V → List (K × V) → List (K × V)
  put_key k v table = (k, v) ∷ drop_key k table

unfoldable pub keep_entries : {K V : Type 0} → (K → Bool) → List (K × V) → List (K × V)
keep_entries keep [] = []
keep_entries keep ((key, v) ∷ table) =
    let rest = keep_entries keep table in if keep key then (key, v) ∷ rest else rest

-- The part of `RouterInner` that the routes depend on. A side that was removed leaves its place empty.
pub record RouteState : Type 0 where
  pub sides : List (Option RouterSideOptions)
  pub route_overrides : List ((Option ℕ × ℕ) × Bool)
  pub typed_route_overrides : List ((Option ℕ × ℕ × ℕ) × Bool)
  pub route_weights : List ((Option ℕ × ℕ) × ℕ)
  pub route_priorities : List ((Option ℕ × ℕ) × ℕ)
  pub source_route_modes : List (Option ℕ × RouteSelectionMode)
  pub route_selection_cursors : List (Option ℕ × ℕ)
  pub adaptive_route_stats : BtreeMap AdaptiveRouteStats
  pub discovery_cadence : DiscoveryCadenceState

-- `sides.get(side).and_then(|side| side.as_ref())`.
abbrev pub flatten : {A : Type 0} → Option (Option A) → Option A
flatten none = none
flatten (some o) = o

unfoldable pub side_at : RouteState → ℕ → Option RouterSideOptions
side_at st side = flatten (get_elem? st.sides side)

unfoldable pub side_ref : RouteState → ℕ → Result RouterSideOptions
side_ref st side = ok_or (side_at st side) (handler_error "router: invalid side id")

-- A side that exists, or `BadArg`.
unfoldable pub check_side : RouteState → ℕ → Result (Unit {0})
check_side st side = elim (side_at st side) [ none ↦ err bad_arg | some opts ↦ ok tt ]

unfoldable pub check_source : RouteState → Option ℕ → Result (Unit {0})
check_source st none = ok tt
check_source st (some src) = check_side st src

abbrev pub changed : RouteState → ℕ → RouteState
changed st now_ms = record st { discovery_cadence = on_topology_change st.discovery_cadence now_ms }

abbrev pub forget_cursor : Option ℕ → RouteState → RouteState
forget_cursor src st = record st {
  route_selection_cursors = drop_key same_source src st.route_selection_cursors;
}

unfoldable pub set_route : ℕ → RouteState → Option ℕ → ℕ → Bool → Result RouteState
set_route now_ms st src dst enabled = do
  check_side st dst
  check_source st src
  ok (
      changed
        (record st { route_overrides = put_key same_route (src, dst) enabled st.route_overrides })
        now_ms)

unfoldable pub clear_route : ℕ → RouteState → Option ℕ → ℕ → Result RouteState
clear_route now_ms st src dst = do
  check_side st dst
  check_source st src
  ok (
      changed (record st { route_overrides = drop_key same_route (src, dst) st.route_overrides })
        now_ms)

unfoldable pub set_typed_route : ℕ → RouteState → Option ℕ → ℕ → ℕ → Bool → Result RouteState
set_typed_route now_ms st src ty dst enabled = do
  check_side st dst
  check_source st src
  ok (
      changed
        (record st {
          typed_route_overrides =
              put_key same_typed_route (src, ty, dst) enabled st.typed_route_overrides;
        })
        now_ms)

unfoldable pub clear_typed_route : ℕ → RouteState → Option ℕ → ℕ → ℕ → Result RouteState
clear_typed_route now_ms st src ty dst = do
  check_side st dst
  check_source st src
  ok (
      changed
        (record st {
          typed_route_overrides = drop_key same_typed_route (src, ty, dst) st.typed_route_overrides;
        })
        now_ms)

unfoldable pub set_route_weight : ℕ → RouteState → Option ℕ → ℕ → ℕ → Result RouteState
set_route_weight now_ms st src dst weight = do
  check_side st dst
  check_source st src
  ok (
      changed
        (forget_cursor src
          (record st { route_weights = put_key same_route (src, dst) weight st.route_weights }))
        now_ms)

unfoldable pub clear_route_weight : ℕ → RouteState → Option ℕ → ℕ → Result RouteState
clear_route_weight now_ms st src dst = do
  check_side st dst
  check_source st src
  ok (
      changed
        (forget_cursor src
          (record st { route_weights = drop_key same_route (src, dst) st.route_weights }))
        now_ms)

unfoldable pub set_route_priority : ℕ → RouteState → Option ℕ → ℕ → ℕ → Result RouteState
set_route_priority now_ms st src dst priority = do
  check_side st dst
  check_source st src
  ok (
      changed
        (record st {
          route_priorities = put_key same_route (src, dst) priority st.route_priorities;
        })
        now_ms)

unfoldable pub clear_route_priority : ℕ → RouteState → Option ℕ → ℕ → Result RouteState
clear_route_priority now_ms st src dst = do
  check_side st dst
  check_source st src
  ok (
      changed (record st { route_priorities = drop_key same_route (src, dst) st.route_priorities })
        now_ms)

-- The mode `fanout` is kept by the absence of an entry.
unfoldable pub mode_entries :
    Option ℕ
    → RouteSelectionMode
    → List (Option ℕ × RouteSelectionMode)
    → List (Option ℕ × RouteSelectionMode)
mode_entries src fanout modes = drop_key same_source src modes
mode_entries src weighted modes = put_key same_source src weighted modes
mode_entries src failover modes = put_key same_source src failover modes

unfoldable pub set_source_route_mode :
    ℕ → RouteState → Option ℕ → RouteSelectionMode → Result RouteState
set_source_route_mode now_ms st src mode = do
  check_source st src
  ok (
      changed
        (forget_cursor src
          (record st { source_route_modes = mode_entries src mode st.source_route_modes }))
        now_ms)

unfoldable pub clear_source_route_mode : ℕ → RouteState → Option ℕ → Result RouteState
clear_source_route_mode now_ms st src = set_source_route_mode now_ms st src fanout

-- The next side's place.
unfoldable pub add_side : ℕ → RouteState → RouterSideOptions → ℕ × RouteState
add_side now_ms st opts =
    (length st.sides, changed (record st { sides = st.sides ++ (some opts ∷ []) }) now_ms)

-- Neither from the side nor to it.
abbrev pub away_from : ℕ → Option ℕ × ℕ → Bool
away_from side (src, dst) = not (same_source src (some side)) && not (dst == side)

-- What the removal of a side does to the routes.
unfoldable pub remove_side : ℕ → RouteState → ℕ → Result RouteState
remove_side now_ms st side = do
  check_side st side
  ok (
      changed
        (record st {
          sides = set st.sides side none;
          route_overrides = keep_entries (away_from side) st.route_overrides;
          typed_route_overrides =
              keep_entries (λ key. away_from side (key.0, key.2)) st.typed_route_overrides;
          route_weights = keep_entries (away_from side) st.route_weights;
          route_priorities = keep_entries (away_from side) st.route_priorities;
          source_route_modes = drop_key same_source (some side) st.source_route_modes;
          route_selection_cursors = drop_key same_source (some side) st.route_selection_cursors;
          adaptive_route_stats = remove side st.adaptive_route_stats;
        })
        now_ms)

unfoldable pub set_side_ingress_enabled : ℕ → RouteState → ℕ → Bool → Result RouteState
set_side_ingress_enabled now_ms st side enabled = do
  opts ← ok_or (side_at st side) bad_arg
  ok (
      changed
        (record st { sides = set st.sides side (some (record opts { ingress_enabled = enabled })) })
        now_ms)

-- What it does to the routes.
unfoldable pub set_side_egress_enabled : ℕ → RouteState → ℕ → Bool → Result RouteState
set_side_egress_enabled now_ms st side enabled = do
  opts ← ok_or (side_at st side) bad_arg
  ok (
      changed
        (record st { sides = set st.sides side (some (record opts { egress_enabled = enabled })) })
        now_ms)
