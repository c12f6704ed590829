-- ===== src/TimeSync/Clock/Slew.antt =====
-- The reading of a clock in parts: where it starts, and how much of the adjustment is applied.
use sedsprintf_rs.Prelude.{
  ℕ, suc, ◌+◌, ◌-◌, ◌*◌, ◌/◌, ◌≤◌, ◌<◌, ◌≡◌, refl, ap, true, some, min, arith, u64_mod, ◌^◌,
}
use sedsprintf_rs.Prelude.Int.{
  ℤ, pos, negsuc, ◌+ℤ◌, ◌-ℤ◌, ◌≤ℤ◌, pos_part, neg_part, int_laws, +ℤ_bounds,
}
use sedsprintf_rs.Prelude.Signed.{
  clamp_i128, i128_max, InI128, negate_parts, clamp_same, clamp_InI128,
}
use sedsprintf_rs.TimeSync.Clock.{
  SlewedNetworkClock, applied_adjust, applied_at, read_unix_ns, steer_unix_ms,
}

-- An initialized clock.
abbrev pub reading : SlewedNetworkClock → ℕ → ℤ
reading c now =
    clamp_i128 (clamp_i128 (c.anchor_unix_ns +ℤ pos (now - c.anchor_mono_ns)) +ℤ applied_at c now)

-- The adjustment at the moment of the anchor is none.
applied_at_start : (pending : ℤ) → applied_adjust pending 0 ≡ pos 0
unfolding applied_adjust
applied_at_start (pos n) = ground arith
applied_at_start (negsuc n) = ground arith

add_zero : (a : ℤ) → a +ℤ pos 0 ≡ a
add_zero a = grind int_laws

pub read_on :
    (c : SlewedNetworkClock) (now : ℕ)
    → c.initialized ≡ true
    → read_unix_ns c now ≡ some (reading c now)
unfolding read_unix_ns
read_on c now on = rw on refl

-- The adjustment that a steered clock is left with.
abbrev pub adjustment : SlewedNetworkClock → ℕ → ℕ → ℤ
adjustment c now target = clamp_i128 (
    clamp_i128 (c.pending_adjust_ns -ℤ applied_at c now)
    +ℤ clamp_i128 (pos (target * 1000000) -ℤ reading c now))

abbrev pub steered : SlewedNetworkClock → ℕ → ℕ → SlewedNetworkClock
steered c now target = record c {
  anchor_mono_ns = now;
  anchor_unix_ns = reading c now;
  pending_adjust_ns = adjustment c now target;
  initialized = true;
}

pub steer_on :
    (c : SlewedNetworkClock) (now target : ℕ)
    → c.initialized ≡ true
    → steer_unix_ms c now target ≡ steered c now target
unfolding steer_unix_ms
steer_on c now target on = rw (read_on c now on, on) refl

applied_at_anchor : (c : SlewedNetworkClock) → applied_at c c.anchor_mono_ns ≡ pos 0
unfolding applied_at
applied_at_anchor c =
    let none_yet : min ((c.anchor_mono_ns - c.anchor_mono_ns) * c.max_slew_ppm) i128_max / 1000000
        ≡ 0 =
      ground arith in
    rw none_yet (applied_at_start c.pending_adjust_ns)

reading_at_anchor :
    (c : SlewedNetworkClock)
    → InI128 c.anchor_unix_ns
    → reading c c.anchor_mono_ns ≡ c.anchor_unix_ns
reading_at_anchor c inside =
    let none_yet : c.anchor_mono_ns - c.anchor_mono_ns ≡ 0 = omega arith in
    rw
      (
        none_yet,
        applied_at_anchor c,
        add_zero c.anchor_unix_ns,
        clamp_same c.anchor_unix_ns inside,
        add_zero c.anchor_unix_ns,
      )
      (clamp_same c.anchor_unix_ns inside)

-- A steered clock starts where the clock was.
pub steered_now :
    (c : SlewedNetworkClock) (now target : ℕ) → reading (steered c now target) now ≡ reading c now
steered_now c now target = reading_at_anchor (steered c now target) (
    clamp_InI128
      (clamp_i128 (c.anchor_unix_ns +ℤ pos (now - c.anchor_mono_ns)) +ℤ applied_at c now))

-- Steering a clock that runs does not move it at the moment of the steering, whatever the target.
pub read_unix_ns-steer_unix_ms :
    (c : SlewedNetworkClock) (now target : ℕ)
    → c.initialized ≡ true
    → read_unix_ns (steer_unix_ms c now target) now ≡ read_unix_ns c now
read_unix_ns-steer_unix_ms c now target on =
    rw (steer_on c now target on, read_on (steered c now target) now refl, read_on c now on)
      (ap (λ z. some z) (steered_now c now target))

-- How much can be applied by two moments, at a rate of at most one.
pub most_grows :
    (a b ppm : ℕ)
    → a ≤ b
    → ppm ≤ 1000000
    → (min (a * ppm) i128_max / 1000000 ≤ min (b * ppm) i128_max / 1000000)
      × (min (b * ppm) i128_max / 1000000 + a ≤ min (a * ppm) i128_max / 1000000 + b)
most_grows a b ppm ab rate =
    let whole : b * ppm ≡ a * ppm + (b - a) * ppm = grind arith in
    let slow : (b - a) * ppm ≤ (b - a) * 1000000 = grind arith in (omega arith, omega arith)

pub applied_grows :
    (pending : ℤ) (a b most_a most_b : ℕ)
    → most_a ≤ most_b
    → most_b + a ≤ most_a + b
    → pos a +ℤ applied_adjust pending most_a ≤ℤ pos b +ℤ applied_adjust pending most_b
unfolding applied_adjust
applied_grows (pos n) a b most_a most_b up slow = omega (int_laws, up, slow)
applied_grows (negsuc n) a b most_a most_b up slow =
    omega (int_laws, up, slow, negate_parts (min (suc n) most_a), negate_parts (min (suc n) most_b))

-- A clock far from the ends of an `i128`.
abbrev pub Near : ℕ → ℤ → Type 0
Near bound a = (pos_part a ≤ bound) × (neg_part a ≤ bound)

abbrev pub far : ℕ
far = 2 ^ 120

abbrev pub Within : ℕ → SlewedNetworkClock → Type 0
Within bound c = Near bound c.anchor_unix_ns × Near bound c.pending_adjust_ns

abbrev pub Calm : SlewedNetworkClock → Type 0
Calm c = Within far c

pub applied_Near :
    (bound : ℕ) (pending : ℤ) (most : ℕ)
    → Near bound pending
    → Near bound (applied_adjust pending most)
unfolding applied_adjust
applied_Near bound (pos n) most (above, below) = (ground arith, omega arith)
applied_Near bound (negsuc n) most (above, below) = (
  omega (arith, negate_parts (min (suc n) most)),
  ground (arith, negate_parts (min (suc n) most)),
)

abbrev pub most_at : SlewedNetworkClock → ℕ → ℕ
most_at c now = min ((now - c.anchor_mono_ns) * c.max_slew_ppm) i128_max / 1000000

-- The reading of a calm clock saturates nowhere.
pub reading_calm :
    (c : SlewedNetworkClock) (now : ℕ)
    → Within (32 * far) c
    → now < u64_mod
    → reading c now
      ≡ c.anchor_unix_ns
        +ℤ pos (now - c.anchor_mono_ns)
        +ℤ applied_adjust c.pending_adjust_ns (most_at c now)
unfolding applied_at
reading_calm c now (anchor, pending) small =
    let base = c.anchor_unix_ns +ℤ pos (now - c.anchor_mono_ns) in
    let applied = applied_adjust c.pending_adjust_ns (most_at c now) in
    let (b1, b2) = +ℤ_bounds c.anchor_unix_ns (pos (now - c.anchor_mono_ns)) in
    let (a1, a2) = applied_Near (32 * far) c.pending_adjust_ns (most_at c now) pending in
    let (s1, s2) = +ℤ_bounds base applied in
    rw (clamp_same base (omega (arith, anchor, b1), omega (arith, anchor, b2))) (
      clamp_same (base +ℤ applied)
        (omega (arith, anchor, b1, a1, s1), omega (arith, anchor, b2, a2, s2)))

pub Calm-wide : (c : SlewedNetworkClock) → Calm c → Within (32 * far) c
Calm-wide c (anchor, pending) = ((omega arith, omega arith), (omega arith, omega arith))
