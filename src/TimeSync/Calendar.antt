-- ===== src/TimeSync/Calendar.antt =====
-- Calendar time: `NetworkTime`, `PartialNetworkTime` and the day count of src/timesync.rs.
pub mod RoundTrip
use sedsprintf_rs.Prelude.{
  ℕ, zero, suc, ◌+◌, ◌-◌, ◌*◌, ◌/◌, ◌%◌, ◌^◌, Bool, true, false, not, ◌&&◌, ◌||◌, Option, none,
  some, leb, ltb, if◌then◌else◌, u32_mod, u64_mod,
}
use sedsprintf_rs.Prelude.Int.{ℤ, pos, negsuc, pos_part, ◌+ℤ◌, ◌-ℤ◌, ◌*ℤ◌, ltb_ℤ}
use sedsprintf_rs.Prelude.Signed.{wrap_signed, quot}

pub record NetworkTime : Type 0 where
  pub year : ℤ
  pub month : ℕ
  pub day : ℕ
  pub hour : ℕ
  pub minute : ℕ
  pub second : ℕ
  pub nanosecond : ℕ

pub record PartialNetworkTime : Type 0 where
  pub year : Option ℤ
  pub month : Option ℕ
  pub day : Option ℕ
  pub hour : Option ℕ
  pub minute : Option ℕ
  pub second : Option ℕ
  pub nanosecond : Option ℕ

-- `(if z >= 0 { z } else { z - (k - 1) }) / k`, with the wrap-around of the subtraction.
unfoldable pub era_of : ℕ → ℕ → ℤ → ℤ
era_of modulus k (pos n) = quot (pos n) k
era_of modulus k (negsuc n) = quot (wrap_signed modulus (negsuc n -ℤ pos (k - 1))) k

-- In `i32`, the last sum included. The year of the era is never negative.
unfoldable pub days_from_civil : ℤ → ℕ → ℕ → ℤ
days_from_civil civil_year month day =
    let year = wrap_signed u32_mod (civil_year -ℤ (if leb month 2 then pos 1 else pos 0)) in
    let era = era_of u32_mod 400 year in
    let yoe = pos_part (wrap_signed u32_mod (year -ℤ era *ℤ pos 400)) in
    let mp = if ltb 2 month then month - 3 else month + 9 in
    let doy = (153 * mp + 2) / 5 + day - 1 in
    let doe = yoe * 365 + yoe / 4 - yoe / 100 + doy in
    wrap_signed u32_mod (era *ℤ pos 146097 +ℤ pos doe -ℤ pos 719468)

-- In `i64`, but for the year. The day of the era is never negative.
unfoldable pub civil_from_days : ℤ → ℤ × ℕ × ℕ
civil_from_days days =
    let z = wrap_signed u64_mod (days +ℤ pos 719468) in
    let era = era_of u64_mod 146097 z in
    let doe = pos_part (wrap_signed u64_mod (z -ℤ era *ℤ pos 146097)) in
    let yoe = (doe - doe / 1460 + doe / 36524 - doe / 146096) / 365 in
    let y = wrap_signed u32_mod (pos yoe +ℤ wrap_signed u32_mod era *ℤ pos 400) in
    let doy = doe - (365 * yoe + yoe / 4 - yoe / 100) in
    let mp = (5 * doy + 2) / 153 in
    let d = doy - (153 * mp + 2) / 5 + 1 in
    let m = if ltb mp 10 then mp + 3 else mp - 9 in
    (wrap_signed u32_mod (y +ℤ (if leb m 2 then pos 1 else pos 0)), m, d)

unfoldable pub from_unix_ns : ℤ → Option NetworkTime
from_unix_ns (negsuc n) = none
from_unix_ns (pos unix_ns) =
    let secs = unix_ns / 1000000000 in
    let sod = secs % 86400 in
    let (year, month, day) = civil_from_days (wrap_signed u64_mod (pos (secs / 86400))) in
    some (record {
      year = year;
      month = month;
      day = day;
      hour = sod / 3600;
      minute = sod % 3600 / 60;
      second = sod % 60;
      nanosecond = unix_ns % 1000000000;
    })

unfoldable pub as_unix_ns : NetworkTime → Option ℤ
as_unix_ns t =
    let days = days_from_civil t.year t.month t.day in
    let secs = days *ℤ pos 86400 +ℤ pos (t.hour * 3600) +ℤ pos (t.minute * 60) +ℤ pos t.second in
    if not (leb 1 t.month && leb t.month 12)
    then none
    else if not (leb 1 t.day && leb t.day 31)
    then none
    else if ltb 23 t.hour || ltb 59 t.minute || ltb 59 t.second || leb 1000000000 t.nanosecond
    then none
    else some (secs *ℤ pos 1000000000 +ℤ pos t.nanosecond)

-- The milliseconds of nanoseconds that are not negative, where they fit a `u64`.
unfoldable pub unix_ms_of_ns : ℤ → Option ℕ
unix_ms_of_ns (negsuc n) = none
unix_ms_of_ns (pos unix_ns) =
    if ltb (unix_ns / 1000000) u64_mod then some (unix_ns / 1000000) else none

unfoldable pub as_unix_ms : NetworkTime → Option ℕ
as_unix_ms t = elim (as_unix_ns t) [ none ↦ none | some unix_ns ↦ unix_ms_of_ns unix_ns ]

unfoldable pub advance_network_time : NetworkTime → ℕ → Option NetworkTime
advance_network_time base elapsed_ns = elim (as_unix_ns base) [
  | none ↦ none
  | some unix_ns ↦ from_unix_ns (unix_ns +ℤ pos elapsed_ns)
]

-- `PartialNetworkTime::from`.
unfoldable pub partial_of : NetworkTime → PartialNetworkTime
partial_of t = record {
  year = some t.year;
  month = some t.month;
  day = some t.day;
  hour = some t.hour;
  minute = some t.minute;
  second = some t.second;
  nanosecond = some t.nanosecond;
}

unfoldable pub unknown_time : PartialNetworkTime
unknown_time = record {
  year = none;
  month = none;
  day = none;
  hour = none;
  minute = none;
  second = none;
  nanosecond = none;
}

unfoldable pub from_unix_ms : ℕ → PartialNetworkTime
from_unix_ms unix_ms = elim (from_unix_ns (pos (unix_ms * 1000000))) [
  | none ↦ unknown_time
  | some full ↦ partial_of full
]

abbrev pub is_some {ℓ} : {A : Type ℓ} → Option A → Bool
is_some none = false
is_some (some a) = true

unfoldable pub is_complete_date : PartialNetworkTime → Bool
is_complete_date t = is_some t.year && is_some t.month && is_some t.day

unfoldable pub is_complete_time : PartialNetworkTime → Bool
is_complete_time t = is_some t.hour && is_some t.minute && is_some t.second

infixl 5 ◌>>=◌
-- `?` on options.
abbrev pub ◌>>=◌ {ℓ κ} : {A : Type ℓ} {C : Type κ} → Option A → (A → Option C) → Option C
none >>= next = none
some value >>= next = next value

abbrev pub unwrap_or {ℓ} : {A : Type ℓ} → Option A → A → A
unwrap_or none other = other
unwrap_or (some a) other = a

unfoldable pub to_network_time : PartialNetworkTime → Option NetworkTime
to_network_time t = do
  year ← t.year
  month ← t.month
  day ← t.day
  hour ← t.hour
  minute ← t.minute
  second ← t.second
  some (record {
    year = year;
    month = month;
    day = day;
    hour = hour;
    minute = minute;
    second = second;
    nanosecond = unwrap_or t.nanosecond 0;
  })
