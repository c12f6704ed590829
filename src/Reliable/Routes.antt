-- ===== src/Reliable/Routes.antt =====
-- The bandwidth estimate of a route.
use sedsprintf_rs.Prelude.{ℕ, ◌*◌, ◌≤◌, ◌<◌, ◌≡◌, min, max, u64_mod, arith}
use sedsprintf_rs.Reliable.{AdaptiveRouteStats, observe, weight}

-- Where the weighted sums stay within a `u64`, a new estimate lies between the old one and the sample,
-- both included, and takes the sample's time; and the weight of the route is at least 1.
pub observe_bounds :
    (st : AdaptiveRouteStats) (sample now : ℕ)
    → st.estimated_bandwidth_bps * 8 < u64_mod
    → sample * 8 < u64_mod
    → let after = observe st sample now in
      (min st.estimated_bandwidth_bps sample ≤ after.estimated_bandwidth_bps)
      × (after.estimated_bandwidth_bps ≤ max st.estimated_bandwidth_bps sample)
      × (1 ≤ weight after)
      × (after.last_observed_ms ≡ now)
unfolding observe weight
observe_bounds st sample now h1 h2 = ground arith
