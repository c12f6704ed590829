-- ===== src/TimeSync/Calendar/RoundTrip.antt =====
-- The calendar functions are inverse to each other.
use sedsprintf_rs.Prelude.{
  ℕ, ◌+◌, ◌-◌, ◌*◌, ◌/◌, ◌%◌, ◌≤◌, ◌<◌, ◌≡◌, refl, ap, arith, u32_mod, u64_mod, leb, ltb,
  if◌then◌else◌, some, true, false, ◌&&◌, ◌||◌, ◌∙◌,
}
use sedsprintf_rs.Prelude.Int.{pos}
use sedsprintf_rs.Prelude.Signed.{wrap_signed-pos, quot, add-pos, sub-pos, mul-pos}
use sedsprintf_rs.TimeSync.Calendar.{
  era_of, days_from_civil, civil_from_days, NetworkTime, from_unix_ns, as_unix_ns,
  advance_network_time,
}

abbrev year_of : ℕ → ℕ
year_of doe = (doe - doe / 1460 + doe / 36524 - doe / 146096) / 365

abbrev start_of : ℕ → ℕ
start_of yoe = 365 * yoe + yoe / 4 - yoe / 100

year_of_bounds :
    (doe : ℕ)
    → doe < 146097
    → (year_of doe < 400) × (start_of (year_of doe) ≤ doe) × (doe ≤ start_of (year_of doe) + 365)
year_of_bounds doe h = (omega (arith, h), omega (arith, h), omega (arith, h))

month_of_bounds :
    (doy : ℕ)
    → doy ≤ 365
    → let mp = (5 * doy + 2) / 153 in
      (mp ≤ 11) × ((153 * mp + 2) / 5 ≤ doy) × (doy ≤ (153 * mp + 2) / 5 + 30)
month_of_bounds doy h = (omega arith, omega arith, omega arith)

abbrev mp_of : ℕ → ℕ
mp_of doy = (5 * doy + 2) / 153

abbrev month_of : ℕ → ℕ
month_of mp = if ltb mp 10 then mp + 3 else mp - 9

abbrev carry : ℕ → ℕ
carry month = if leb month 2 then 1 else 0

carry_pos : (month : ℕ) → (if leb month 2 then pos 1 else pos 0) ≡ pos (carry month)
carry_pos month = ground arith

abbrev civil : ℕ → ℕ × ℕ × ℕ
civil z =
    let era = z / 146097 in
    let doe = z - era * 146097 in
    let yoe = year_of doe in
    let doy = doe - start_of yoe in
    let m = month_of (mp_of doy) in
    (yoe + era * 400 + carry m, m, doy - (153 * mp_of doy + 2) / 5 + 1)

civil_from_days_pos :
    (days : ℕ)
    → days + 719468 < 2147483648
    → let (y, m, d) = civil (days + 719468) in civil_from_days (pos days) ≡ (pos y, m, d)
unfolding civil_from_days era_of quot
civil_from_days_pos days h =
    let z = days + 719468 in
    let era = z / 146097 in
    let doe = z - era * 146097 in
    let yoe = year_of doe in
    let m = month_of (mp_of (doe - start_of yoe)) in
    let (small, b1, b2) = year_of_bounds doe (omega arith) in
    rw
      (
        add-pos days 719468,
        wrap_signed-pos u64_mod z (omega arith),
        mul-pos era 146097,
        sub-pos z (era * 146097) (omega arith),
        wrap_signed-pos u64_mod doe (omega arith),
        wrap_signed-pos u32_mod era (omega arith),
        mul-pos era 400,
        add-pos yoe (era * 400),
        wrap_signed-pos u32_mod (yoe + era * 400) (omega arith),
        carry_pos m,
        add-pos (yoe + era * 400) (carry m),
        wrap_signed-pos u32_mod (yoe + era * 400 + carry m) (ground arith),
      )
      refl

-- The months from March on, and the year that begins in March.
month_back :
    (mp : ℕ)
    → mp ≤ 11
    → (1 ≤ month_of mp)
      × (month_of mp ≤ 12)
      × ((if ltb 2 (month_of mp) then month_of mp - 3 else month_of mp + 9) ≡ mp)
month_back mp h = (ground arith, ground arith, ground arith)

civil_in_range : (z : ℕ) → let (y, m, d) = civil z in (1 ≤ m) × (m ≤ 12) × (1 ≤ d) × (d ≤ 31)
civil_in_range z =
    let doe = z - z / 146097 * 146097 in
    let (small, b1, b2) = year_of_bounds doe (omega arith) in
    let doy = doe - start_of (year_of doe) in
    let (m1, m2, m3) = month_of_bounds doy (omega arith) in
    let (l, u, back) = month_back (mp_of doy) m1 in (l, u, omega arith, omega arith)

days_from_civil_pos :
    (days : ℕ)
    → days + 719468 < 2147483648
    → let (y, m, d) = civil (days + 719468) in days_from_civil (pos y) m d ≡ pos days
unfolding days_from_civil era_of quot
days_from_civil_pos days h =
    let z = days + 719468 in
    let era = z / 146097 in
    let doe = z - era * 146097 in
    let yoe = year_of doe in
    let doy = doe - start_of yoe in
    let mp = mp_of doy in
    let m = month_of mp in
    let d = doy - (153 * mp + 2) / 5 + 1 in
    let (small, b1, b2) = year_of_bounds doe (omega arith) in
    let (m1, m2, m3) = month_of_bounds doy (omega arith) in
    let (l, u, back) = month_back mp m1 in
    let y = yoe + era * 400 in
    let era_same : y / 400 ≡ era = omega (arith, small) in
    let yoe_same : y - era * 400 ≡ yoe = omega arith in
    let doy_same : (153 * mp + 2) / 5 + d - 1 ≡ doy = omega (arith, m2) in
    let doe_same : yoe * 365 + yoe / 4 - yoe / 100 + doy ≡ doe = omega (arith, b1) in
    let carry_same : y + carry m - carry m ≡ y = omega arith in
    let days_same : z - 719468 ≡ days = omega arith in
    let z_same : era * 146097 + doe ≡ z = omega arith in
    rw
      (
        carry_pos m,
        sub-pos (y + carry m) (carry m) (omega arith),
        carry_same,
        wrap_signed-pos u32_mod y (omega arith),
        era_same,
        mul-pos era 400,
        sub-pos y (era * 400) (omega arith),
        yoe_same,
        wrap_signed-pos u32_mod yoe (omega arith),
        back,
        doy_same,
        doe_same,
        mul-pos era 146097,
        add-pos (era * 146097) doe,
        z_same,
        sub-pos z 719468 (omega arith),
        days_same,
        wrap_signed-pos u32_mod days (omega arith),
      )
      refl

abbrev ValidFields : (m d h min sec ns : ℕ) → Type 0
ValidFields m d h min sec ns =
    (1 ≤ m) × (m ≤ 12) × (1 ≤ d) × (d ≤ 31) × (h ≤ 23) × (min ≤ 59) × (sec ≤ 59) × (ns < 1000000000)

as_unix_ns_pos :
    (t : NetworkTime) (days : ℕ)
    → ValidFields t.month t.day t.hour t.minute t.second t.nanosecond
    → days_from_civil t.year t.month t.day ≡ pos days
    → as_unix_ns t
      ≡ some (
          pos
            ((days * 86400 + t.hour * 3600 + t.minute * 60 + t.second) * 1000000000 + t.nanosecond))
unfolding as_unix_ns
as_unix_ns_pos t days (m1, m12, d1, d31, h23, min59, s59, ns) day_count =
    let month_ok : (leb 1 t.month && leb t.month 12) ≡ true = ground arith in
    let day_ok : (leb 1 t.day && leb t.day 31) ≡ true = ground arith in
    let time_ok : (ltb 23 t.hour
          || ltb 59 t.minute
          || ltb 59 t.second
          || leb 1000000000 t.nanosecond)
        ≡ false =
      ground arith in
    rw
      (
        month_ok,
        day_ok,
        time_ok,
        day_count,
        mul-pos days 86400,
        add-pos (days * 86400) (t.hour * 3600),
        add-pos (days * 86400 + t.hour * 3600) (t.minute * 60),
        add-pos (days * 86400 + t.hour * 3600 + t.minute * 60) t.second,
        mul-pos (days * 86400 + t.hour * 3600 + t.minute * 60 + t.second) 1000000000,
        add-pos ((days * 86400 + t.hour * 3600 + t.minute * 60 + t.second) * 1000000000)
            t.nanosecond,
      )
      refl

-- The fields of a moment whose day number, counted from the year 0, fits an `i32`: it has them, each in
-- its range, and they stand for the same nanosecond again.
pub as_unix_ns-from_unix_ns :
    (n : ℕ)
    → n / 1000000000 / 86400 + 719468 < 2147483648
    → (t : NetworkTime) × (from_unix_ns (pos n) ≡ some t) × (as_unix_ns t ≡ some (pos n))
unfolding from_unix_ns
as_unix_ns-from_unix_ns n h =
    let secs = n / 1000000000 in
    let days = secs / 86400 in
    let sod = secs % 86400 in
    let (y, m, d) = civil (days + 719468) in
    let t : NetworkTime = record {
      year = pos y;
      month = m;
      day = d;
      hour = sod / 3600;
      minute = sod % 3600 / 60;
      second = sod % 60;
      nanosecond = n % 1000000000;
    } in
    let (m1, m12, d1, d31) = civil_in_range (days + 719468) in
    let fields : ValidFields m d (sod / 3600) (sod % 3600 / 60) (sod % 60) (n % 1000000000) =
      (m1, m12, d1, d31, omega arith, omega arith, omega arith, omega arith) in
    let same : (days * 86400 + sod / 3600 * 3600 + sod % 3600 / 60 * 60 + sod % 60) * 1000000000
          + n % 1000000000
        ≡ n =
      omega arith in
    (
      t,
      rw (wrap_signed-pos u64_mod days (omega arith), civil_from_days_pos days h) refl,
      as_unix_ns_pos t days fields (days_from_civil_pos days h) ∙ ap (λ k. some (pos k)) same,
    )

-- Advancing the fields of a moment gives the fields of the later moment, which stand for it.
pub advance_network_time_lem :
    (n elapsed_ns : ℕ)
    → (n + elapsed_ns) / 1000000000 / 86400 + 719468 < 2147483648
    → (t later : NetworkTime) × (from_unix_ns (pos n) ≡ some t)
      × (advance_network_time t elapsed_ns ≡ some later)
      × (as_unix_ns later ≡ some (pos (n + elapsed_ns)))
unfolding advance_network_time
advance_network_time_lem n elapsed_ns h =
    let (t, here, back) = as_unix_ns-from_unix_ns n (omega (arith, h)) in
    let (later, there, again) = as_unix_ns-from_unix_ns (n + elapsed_ns) h in
    (t, later, here, rw (advance_network_time, back, add-pos n elapsed_ns, there) refl, again)
