-- ===== src/TimeSync/Clock.antt =====
-- The clock that slews toward the network's time: `SlewedNetworkClock` of src/timesync.rs.
pub mod Motion
pub mod Slew
use sedsprintf_rs.Prelude.{
  ℕ, zero, suc, ◌+◌, ◌-◌, ◌*◌, ◌/◌, ◌≤◌, ◌<◌, Bool, true, false, Option, none, some, if◌then◌else◌,
  min,
}
use sedsprintf_rs.Prelude.Int.{ℤ, pos, negsuc, ◌+ℤ◌, ◌-ℤ◌}
use sedsprintf_rs.Prelude.Signed.{clamp_i128, negate, i128_max}
use sedsprintf_rs.TimeSync.Calendar.{unix_ms_of_ns, unwrap_or}

pub record SlewedNetworkClock : Type 0 where
  pub anchor_mono_ns : ℕ
  pub anchor_unix_ns : ℤ
  pub pending_adjust_ns : ℤ
  pub max_slew_ppm : ℕ
  pub initialized : Bool

-- `SlewedNetworkClock::default`.
abbrev pub default_clock : SlewedNetworkClock
default_clock = record {
  anchor_mono_ns = 0;
  anchor_unix_ns = pos 0;
  pending_adjust_ns = pos 0;
  max_slew_ppm = 50000;
  initialized = false;
}

unfoldable pub new_clock : ℕ → SlewedNetworkClock
new_clock max_slew_ppm = record default_clock { max_slew_ppm = min max_slew_ppm 999999 }

-- The part of an adjustment that is applied, at most `max_adjust_ns` either way. (The adjustment is
-- not the smallest `i128`, whose negation the source leaves to overflow.)
unfoldable pub applied_adjust : ℤ → ℕ → ℤ
applied_adjust (pos pending) max_adjust_ns = pos (min pending max_adjust_ns)
applied_adjust (negsuc pending) max_adjust_ns = negate (min (suc pending) max_adjust_ns)

-- The adjustment that the clock has applied at a monotonic moment.
unfoldable pub applied_at : SlewedNetworkClock → ℕ → ℤ
applied_at c now_mono_ns =
    let elapsed_ns = now_mono_ns - c.anchor_mono_ns in
    applied_adjust c.pending_adjust_ns (min (elapsed_ns * c.max_slew_ppm) i128_max / 1000000)

unfoldable pub read_unix_ns : SlewedNetworkClock → ℕ → Option ℤ
read_unix_ns c now_mono_ns =
    if c.initialized
    then some (
        clamp_i128 (
          clamp_i128 (c.anchor_unix_ns +ℤ pos (now_mono_ns - c.anchor_mono_ns))
          +ℤ applied_at c now_mono_ns))
    else none

unfoldable pub read_unix_ms : SlewedNetworkClock → ℕ → Option ℕ
read_unix_ms c now_mono_ns = elim (read_unix_ns c now_mono_ns) [
  | none ↦ none
  | some unix_ns ↦ unix_ms_of_ns unix_ns
]

unfoldable pub steer_unix_ms : SlewedNetworkClock → ℕ → ℕ → SlewedNetworkClock
steer_unix_ms c now_mono_ns target_unix_ms =
    let target_unix_ns = pos (target_unix_ms * 1000000) in
    let current_unix_ns = unwrap_or (read_unix_ns c now_mono_ns) target_unix_ns in
    let remaining_adjust_ns = clamp_i128 (c.pending_adjust_ns -ℤ applied_at c now_mono_ns) in
    if c.initialized
    then record c {
      anchor_mono_ns = now_mono_ns;
      anchor_unix_ns = current_unix_ns;
      pending_adjust_ns =
          clamp_i128 (remaining_adjust_ns +ℤ clamp_i128 (target_unix_ns -ℤ current_unix_ns));
      initialized = true;
    }
    else record c {
      anchor_mono_ns = now_mono_ns;
      anchor_unix_ns = target_unix_ns;
      pending_adjust_ns = pos 0;
      initialized = true;
    }
