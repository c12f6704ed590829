-- ===== src/TimeSync/Clock/Motion.antt =====
-- How the slewed clock moves: without a jump, forward, and to its target.
use mathlib.Core.Path.{subst}
use sedsprintf_rs.Prelude.{
  ℕ, suc, ◌+◌, ◌-◌, ◌*◌, ◌/◌, ◌≤◌, ◌<◌, ◌≡◌, refl, sym, ap, ◌∙◌, true, some, min, arith, u64_mod,
}
use sedsprintf_rs.Prelude.Int.{ℤ, pos, negsuc, ◌+ℤ◌, ◌-ℤ◌, ◌≤ℤ◌, int_laws, +ℤ_bounds, -ℤ_bounds}
use sedsprintf_rs.Prelude.Signed.{i128_max, clamp_same}
use sedsprintf_rs.TimeSync.Clock.{
  SlewedNetworkClock, applied_adjust, applied_at, read_unix_ns, steer_unix_ms,
}
use sedsprintf_rs.TimeSync.Clock.Slew.{
  reading, read_on, adjustment, steered, steer_on, steered_now, read_unix_ns-steer_unix_ms,
  most_grows, applied_grows, Near, far, Within, Calm, applied_Near, most_at, reading_calm,
  Calm-wide,
}

-- A clock that slews by at most a million parts per million does not go back.
reading_up :
    (c : SlewedNetworkClock) (earlier later : ℕ)
    → Within (32 * far) c
    → c.max_slew_ppm ≤ 1000000
    → earlier ≤ later
    → later < u64_mod
    → reading c earlier ≤ℤ reading c later
reading_up c earlier later wide rate le small =
    let a = earlier - c.anchor_mono_ns in
    let b = later - c.anchor_mono_ns in
    let (up, slow) = most_grows a b c.max_slew_ppm (omega arith) rate in
    let grows =
      applied_grows c.pending_adjust_ns a b (most_at c earlier) (most_at c later) up slow in
    let ordered : c.anchor_unix_ns
          +ℤ pos a
          +ℤ applied_adjust c.pending_adjust_ns (most_at c earlier)
        ≤ℤ c.anchor_unix_ns +ℤ pos b +ℤ applied_adjust c.pending_adjust_ns (most_at c later) =
      omega (int_laws, grows) in
    rw (reading_calm c earlier wide (omega arith), reading_calm c later wide small) ordered

applied_whole : (pending : ℤ) (most : ℕ) → Near most pending → applied_adjust pending most ≡ pending
unfolding applied_adjust
applied_whole (pos n) most (above, below) = ground arith
applied_whole (negsuc n) most (above, below) =
    let whole : min (suc n) most ≡ suc n = ground arith in rw whole refl

-- What steering leaves of a calm clock: no step of it saturates.
steered-Calm :
    (c : SlewedNetworkClock) (now target : ℕ)
    → Calm c
    → now < u64_mod
    → target < u64_mod
    → Within (32 * far) (steered c now target)
      × (adjustment c now target
          ≡ c.pending_adjust_ns -ℤ applied_at c now +ℤ (pos (target * 1000000) -ℤ reading c now))
unfolding applied_at
steered-Calm c now target calm small t1 =
    let base = c.anchor_unix_ns +ℤ pos (now - c.anchor_mono_ns) in
    let applied = applied_adjust c.pending_adjust_ns (most_at c now) in
    let current = reading c now in
    let ((p1, p2), (q1, q2)) = calm in
    let run = reading_calm c now (Calm-wide c calm) small in
    let (b1, b2) = +ℤ_bounds c.anchor_unix_ns (pos (now - c.anchor_mono_ns)) in
    let (a1, a2) = applied_Near far c.pending_adjust_ns (most_at c now) (q1, q2) in
    let (s1, s2) = +ℤ_bounds base applied in
    let current_Near : Near (4 * far) current =
      subst (Near (4 * far)) (sym run) (omega arith, omega arith) in
    let (c1, c2) = current_Near in
    let (r1, r2) = -ℤ_bounds c.pending_adjust_ns applied in
    let (d1, d2) = -ℤ_bounds (pos (target * 1000000)) current in
    let (e1, e2) = +ℤ_bounds (c.pending_adjust_ns -ℤ applied) (pos (target * 1000000) -ℤ current) in
    let same : adjustment c now target
        ≡ c.pending_adjust_ns -ℤ applied +ℤ (pos (target * 1000000) -ℤ current) =
      rw
        (
          clamp_same (c.pending_adjust_ns -ℤ applied) (omega arith, omega arith),
          clamp_same (pos (target * 1000000) -ℤ current) (omega arith, omega arith),
        )
        (clamp_same (c.pending_adjust_ns -ℤ applied +ℤ (pos (target * 1000000) -ℤ current))
          (omega arith, omega arith)) in
    (
      ((omega arith, omega arith), subst (Near (32 * far)) (sym same) (omega arith, omega arith)),
      same,
    )

-- A clock that slews by at most a million parts per million does not go back, also when it is steered: it
-- reads the same just before and just after, no less than at any moment before, and no more than at any
-- moment after. Before it is steered, its anchor and its pending adjustment are at most 2 ^ 120 away from
-- zero.
pub read_unix_ns_mono :
    (c : SlewedNetworkClock) (earlier now target later : ℕ)
    → c.initialized ≡ true
    → Calm c
    → c.max_slew_ppm ≤ 1000000
    → earlier ≤ now
    → now ≤ later
    → later < u64_mod
    → target < u64_mod
    → (before at after : ℤ) × (read_unix_ns c earlier ≡ some before)
      × (read_unix_ns c now ≡ some at)
      × (read_unix_ns (steer_unix_ms c now target) now ≡ some at)
      × (read_unix_ns (steer_unix_ms c now target) later ≡ some after)
      × (before ≤ℤ at)
      × (at ≤ℤ after)
read_unix_ns_mono c earlier now target later on calm rate le le' small t1 =
    let moment : now < u64_mod = omega (arith, le', small) in
    let (wide, same) = steered-Calm c now target calm moment t1 in
    let turned = steered c now target in
    let still = steered_now c now target in
    let run = steer_on c now target on in
    (
      reading c earlier,
      reading c now,
      reading turned later,
      read_on c earlier on,
      read_on c now on,
      read_unix_ns-steer_unix_ms c now target on ∙ read_on c now on,
      rw run (read_on turned later refl),
      reading_up c earlier now (Calm-wide c calm) rate le moment,
      subst (λ z. z ≤ℤ reading turned later) still
          (reading_up turned now later wide rate le' small),
    )

-- A steered clock reaches its target: once the time that passed since allows for the whole adjustment,
-- it reads the target and the time that passed, and what was left of the adjustment before. The clock
-- slews by at most a million parts per million, and is calm.
pub read_unix_ns-steered :
    (c : SlewedNetworkClock) (now target later : ℕ)
    → c.initialized ≡ true
    → Calm c
    → c.max_slew_ppm ≤ 1000000
    → target < u64_mod
    → now ≤ later
    → later < u64_mod
    → Near ((later - now) * c.max_slew_ppm / 1000000) (steer_unix_ms c now target).pending_adjust_ns
    → read_unix_ns (steer_unix_ms c now target) later
      ≡ some (pos (target * 1000000 + (later - now)) +ℤ (c.pending_adjust_ns -ℤ applied_at c now))
read_unix_ns-steered c now target later on calm rate t1 le small enough =
    let left = c.pending_adjust_ns -ℤ applied_at c now in
    let goal_ns = pos (target * 1000000) in
    let (wide, same) = steered-Calm c now target calm (omega arith) t1 in
    let most : (later - now) * c.max_slew_ppm ≤ (later - now) * 1000000 = grind arith in
    let plain : min ((later - now) * c.max_slew_ppm) i128_max ≡ (later - now) * c.max_slew_ppm =
      ground arith in
    let allows : Near (most_at (steered c now target) later) (adjustment c now target) = rw plain (
      subst (λ k. Near ((later - now) * c.max_slew_ppm / 1000000) k.pending_adjust_ns)
        (steer_on c now target on) enough) in
    let sum : reading c now +ℤ pos (later - now) +ℤ adjustment c now target
        ≡ pos (target * 1000000 + (later - now)) +ℤ left =
      rw same (grind int_laws) in
    rw (steer_on c now target on, read_on (steered c now target) later refl)
      (ap (λ z. some z)
        (reading_calm (steered c now target) later wide small
          ∙ (ap (λ z. reading c now +ℤ pos (later - now) +ℤ z)
                (applied_whole (adjustment c now target) (most_at (steered c now target) later)
                  allows)
              ∙ sum)))
