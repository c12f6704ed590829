-- ===== src/Discovery/Cadence.antt =====
-- How often a node announces itself: `DiscoveryCadenceState` of src/discovery.rs.
use sedsprintf_rs.Prelude.{ℕ, Bool, leb, min, saturating_add, saturating_mul}

abbrev pub fast_interval_ms : ℕ
fast_interval_ms = 250

abbrev pub slow_interval_ms : ℕ
slow_interval_ms = 5000

pub record DiscoveryCadenceState : Type 0 where
  pub current_interval_ms : ℕ
  pub next_announce_ms : ℕ

-- `DiscoveryCadenceState::default`.
abbrev pub default_cadence : DiscoveryCadenceState
default_cadence = record { current_interval_ms = fast_interval_ms; next_announce_ms = 0 }

unfoldable pub on_topology_change : DiscoveryCadenceState → ℕ → DiscoveryCadenceState
on_topology_change c now_ms = record {
  current_interval_ms = fast_interval_ms;
  next_announce_ms = now_ms;
}

unfoldable pub on_announce_sent : DiscoveryCadenceState → ℕ → DiscoveryCadenceState
on_announce_sent c now_ms = record {
  current_interval_ms = min (saturating_mul c.current_interval_ms 2) slow_interval_ms;
  next_announce_ms = saturating_add now_ms c.current_interval_ms;
}

unfoldable pub due : DiscoveryCadenceState → ℕ → Bool
due c now_ms = leb c.next_announce_ms now_ms
