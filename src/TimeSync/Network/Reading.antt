-- ===== src/TimeSync/Network/Reading.antt =====
-- What a network clock reads.
use mathlib.Core.Path.{subst}
use mathlib.Core.List.{Memᴰ}
use sedsprintf_rs.Prelude.{
  ℕ, ◌+◌, ◌-◌, ◌/◌, ◌<◌, ◌≡◌, refl, sym, ap, ◌∙◌, ◌⊎◌, All, Bool, true, false, ◌&&◌, Option, none,
  some, List, [], ◌∷◌, is_empty, inl, inr, Bool-cases, ◌↔◌, arith, u64_mod,
}
use sedsprintf_rs.Prelude.Int.{ℤ, pos}
use sedsprintf_rs.Prelude.Signed.{add-pos}
use sedsprintf_rs.Prelude.Strings.{str_lt_asymm, str_lt_trans, StringMap}
use sedsprintf_rs.Prelude.Least.{least, least_lem, Selects}
use sedsprintf_rs.TimeSync.Calendar.{
  NetworkTime, PartialNetworkTime, is_some, is_complete_date, is_complete_time, to_network_time,
  advance_network_time, as_unix_ms, as_unix_ns, unix_ms_of_ns, from_unix_ns, partial_of, unwrap_or,
}
use sedsprintf_rs.TimeSync.Calendar.RoundTrip.{as_unix_ns-from_unix_ns}
use sedsprintf_rs.TimeSync.Network.{
  NetworkTimeSourceState, NetworkTimeReading, NetworkClock, entry_before, best_source, state_of,
  full_reading, advanced_reading, merged_reading, merged_time, time_source, current_time, or_else,
  reading_or, incomplete_reading,
}

entry_before_asymm :
    (a b : List ℕ × NetworkTimeSourceState) → entry_before a b ≡ true → entry_before b a ≡ false
unfolding entry_before
entry_before_asymm (m, a) (n, b) h = let names = str_lt_asymm m n in ground arith

entry_before_trans :
    (a b c : List ℕ × NetworkTimeSourceState)
    → entry_before b a ≡ false
    → entry_before c b ≡ false
    → entry_before c a ≡ false
unfolding entry_before
entry_before_trans (m, a) (n, b) (o, c) h k = let names = str_lt_trans m n o in ground arith

-- The best source for a need is one of the sources, meets the need, and comes before every other one
-- that does, by its priority and then by its name; there is none only when no source meets the need.
pub best_source-Selects :
    (sources : StringMap NetworkTimeSourceState) (predicate : NetworkTimeSourceState → Bool)
    → Selects entry_before (λ entry. predicate (entry.1)) sources (best_source sources predicate)
unfolding best_source
best_source-Selects sources predicate =
    least_lem entry_before (λ entry. predicate (entry.1)) entry_before_asymm entry_before_trans
      sources

to_network_time-partial_of : (t : NetworkTime) → to_network_time (partial_of t) ≡ some t
unfolding to_network_time partial_of
to_network_time-partial_of t = refl

-- The moment of a reading that stands for it.
as_unix_ms_of :
    (t : NetworkTime) (n : ℕ)
    → n / 1000000 < u64_mod
    → as_unix_ns t ≡ some (pos n)
    → as_unix_ms t ≡ some (n / 1000000)
unfolding unix_ms_of_ns as_unix_ms
as_unix_ms_of t n small e = rw (as_unix_ms, e) (ground arith)

as_unix_ns_of :
    (t : NetworkTime) (n : ℕ)
    → n / 1000000000 / 86400 + 719468 < 2147483648
    → from_unix_ns (pos n) ≡ some t
    → as_unix_ns t ≡ some (pos n)
as_unix_ns_of t n range at =
    let (t', at', back) = as_unix_ns-from_unix_ns n range in
    let both : some t ≡ some t' = sym at ∙ at' in
    let same : t' ≡ t = cc in subst (λ z. as_unix_ns z ≡ some (pos n)) same back

advanced_reading_lem :
    (t : NetworkTime) (n elapsed : ℕ)
    → (n + elapsed) / 1000000000 / 86400 + 719468 < 2147483648
    → from_unix_ns (pos n) ≡ some t
    → (later : NetworkTime) × (from_unix_ns (pos (n + elapsed)) ≡ some later)
      × (advanced_reading t elapsed
          ≡ some
              (record { time = partial_of later; unix_time_ms = some ((n + elapsed) / 1000000) }))
unfolding advanced_reading advance_network_time
advanced_reading_lem t n elapsed range at =
    let (later, there, again) = as_unix_ns-from_unix_ns (n + elapsed) range in
    let now = as_unix_ns_of t n (omega (arith, range)) at in
    let moved : advance_network_time t elapsed ≡ some later =
      rw (advance_network_time, now, add-pos n elapsed) there in
    (later, there, rw (moved, as_unix_ms_of later (n + elapsed) (omega (arith, range)) again) refl)

some_source :
    (m : StringMap NetworkTimeSourceState) (test : NetworkTimeSourceState → Bool)
    (src : NetworkTimeSourceState)
    → state_of (best_source m test) ≡ some src
    → is_empty m ≡ false
unfolding best_source least
some_source [] test src e = cc
some_source (entry ∷ m) test src e = refl

current_time_of_best :
    (c : NetworkClock) (src : NetworkTimeSourceState) (t : NetworkTime) (n now : ℕ)
    → state_of (best_source c.sources (λ src. is_some (to_network_time src.time))) ≡ some src
    → src.time ≡ partial_of t
    → from_unix_ns (pos n) ≡ some t
    → (n + (now - src.anchor_mono_ns)) / 1000000000 / 86400 + 719468 < 2147483648
    → (later : NetworkTime) × (from_unix_ns (pos (n + (now - src.anchor_mono_ns))) ≡ some later)
      × (current_time c now
          ≡ some (record {
            time = partial_of later;
            unix_time_ms = some ((n + (now - src.anchor_mono_ns)) / 1000000);
          }))
unfolding full_reading current_time
current_time_of_best c src t n now best whole at range =
    let elapsed = now - src.anchor_mono_ns in
    let (later, there, reading) = advanced_reading_lem t n elapsed range at in
    let some_entry = some_source c.sources (λ src. is_some (to_network_time src.time)) src best in
    let full : full_reading c.sources now
        ≡ some (record { time = partial_of later; unix_time_ms = some ((n + elapsed) / 1000000) }) =
      rw (full_reading, best, whole, to_network_time-partial_of t) reading in
    (later, there, rw (current_time, some_entry, full) refl)

-- Whether a source knows a complete time.
abbrev pub is_complete : List ℕ × NetworkTimeSourceState → Bool
is_complete entry = is_some (to_network_time (entry.1).time)

-- One source leads: every other one either has no complete time, or comes after it by its priority and
-- then by its name.
abbrev pub Leads : StringMap NetworkTimeSourceState → List ℕ × NetworkTimeSourceState → Type 0
Leads sources lead =
    All (λ entry. (entry ≡ lead) ⊎ (is_complete entry ≡ false) ⊎ (entry_before lead entry ≡ true))
      sources

module _ (lead : List ℕ × NetworkTimeSourceState) (whole : is_complete lead ≡ true) where
  lead_member :
      (sources : StringMap NetworkTimeSourceState) (best : List ℕ × NetworkTimeSourceState)
      → Leads sources lead
      → Memᴰ best sources
      → is_complete best ≡ true
      → entry_before lead best ≡ false
      → best ≡ lead
  lead_member [] best leads place on after = elim place [ ]
  lead_member (x ∷ sources) best (here, leads) (Memᴰ.tail later) on after =
      lead_member sources best leads later on after
  lead_member (x ∷ sources) best (here, leads) (Memᴰ.head same) on after = elim here [
    | inl it ↦ same ∙ it
    | inr (inl off) ↦ let wrong : true ≡ false = sym on ∙ (ap is_complete same ∙ off) in absurd cc
    | inr (inr first) ↦
        let wrong : true ≡ false = sym first ∙ (ap (λ e. entry_before lead e) (sym same) ∙ after) in
        absurd cc
  ]

  All-at :
      (P : List ℕ × NetworkTimeSourceState → Type 0) (sources : StringMap NetworkTimeSourceState)
      → All P sources
      → Memᴰ lead sources
      → P lead
  All-at P [] a place = elim place [ ]
  All-at P (x ∷ sources) (p, a) (Memᴰ.head same) = subst P (sym same) p
  All-at P (x ∷ sources) (p, a) (Memᴰ.tail later) = All-at P sources a later

  Selects-lead :
      (sources : StringMap NetworkTimeSourceState) (best : Option (List ℕ × NetworkTimeSourceState))
      → Memᴰ lead sources
      → Leads sources lead
      → Selects entry_before is_complete sources best
      → best ≡ some lead
  Selects-lead sources none member leads off =
      let wrong = All-at (λ e. is_complete e ≡ false) sources off member in absurd cc
  Selects-lead sources (some best) member leads (place, on, least_one) =
      let after =
        All-at (λ e. (is_complete e ≡ true → entry_before e best ≡ false)) sources least_one member
          whole in
      ap (λ e. some e) (lead_member sources best leads place on after)

-- Of the sources of a clock, the one that leads was set to a moment: every other one is incomplete, or
-- comes after it by its priority and then by its name. Then the clock reads that moment and the time that
-- passed since the source's anchor, as long as its day is one of the calendar's range.
pub current_time_full :
    (c : NetworkClock) (name : List ℕ) (src : NetworkTimeSourceState) (t : NetworkTime) (n now : ℕ)
    → Memᴰ (name, src) c.sources
    → Leads c.sources (name, src)
    → src.time ≡ partial_of t
    → from_unix_ns (pos n) ≡ some t
    → (n + (now - src.anchor_mono_ns)) / 1000000000 / 86400 + 719468 < 2147483648
    → (later : NetworkTime) × (from_unix_ns (pos (n + (now - src.anchor_mono_ns))) ≡ some later)
      × (current_time c now
          ≡ some (record {
            time = partial_of later;
            unix_time_ms = some ((n + (now - src.anchor_mono_ns)) / 1000000);
          }))
current_time_full c name src t n now member leads set at range =
    let complete : is_complete (name, src) ≡ true = rw (set, to_network_time-partial_of t) refl in
    let best =
      Selects-lead (name, src) complete c.sources
        (best_source c.sources (λ src. is_some (to_network_time src.time))) member leads
        (best_source-Selects c.sources (λ src. is_some (to_network_time src.time))) in
    current_time_of_best c src t n now (ap state_of best) set at range

some_of {ℓ} : {A : Type ℓ} (o : Option A) → is_some o ≡ true → (a : A) × (o ≡ some a)
some_of none h = cc
some_of (some a) h = (a, refl)

time_of_fields :
    (t : PartialNetworkTime) (year : ℤ) (month day hour minute second : ℕ)
    → t.year ≡ some year
    → t.month ≡ some month
    → t.day ≡ some day
    → t.hour ≡ some hour
    → t.minute ≡ some minute
    → t.second ≡ some second
    → to_network_time t
      ≡ some (record {
        year = year;
        month = month;
        day = day;
        hour = hour;
        minute = minute;
        second = second;
        nanosecond = unwrap_or t.nanosecond 0;
      })
unfolding to_network_time
time_of_fields t year month day hour minute second e1 e2 e3 e4 e5 e6 =
    rw (e1, e2, e3, e4, e5, e6) refl

complete_time :
    (t : PartialNetworkTime)
    → (is_complete_date t && is_complete_time t) ≡ true
    → (full : NetworkTime) × (to_network_time t ≡ some full)
unfolding is_complete_date is_complete_time to_network_time
complete_time t h =
    let (year, e1) = some_of t.year (ground arith) in
    let (month, e2) = some_of t.month (ground arith) in
    let (day, e3) = some_of t.day (ground arith) in
    let (hour, e4) = some_of t.hour (ground arith) in
    let (minute, e5) = some_of t.minute (ground arith) in
    let (second, e6) = some_of t.second (ground arith) in
    (_, time_of_fields t year month day hour minute second e1 e2 e3 e4 e5 e6)

merged_reading-some :
    (merged : PartialNetworkTime) (src : Option NetworkTimeSourceState) (now : ℕ)
    → (r : NetworkTimeReading) × (merged_reading merged src now ≡ some r)
unfolding merged_reading is_complete_date is_complete_time
merged_reading-some merged none now = (incomplete_reading merged, refl)
merged_reading-some merged (some src) now =
    let whole : PartialNetworkTime = record merged {
      nanosecond = or_else merged.nanosecond (some 0);
    } in
    elim (Bool-cases (is_complete_date merged && is_complete_time merged)) [
      | inr partly ↦ (incomplete_reading merged, rw (merged_reading, partly) refl)
      | inl complete ↦
          let (base, built) = complete_time whole complete in
          (
            reading_or (advanced_reading base (now - src.anchor_mono_ns)) whole,
            rw (merged_reading, complete, built) refl,
          )
    ]

or_else-some {ℓ} :
    {A : Type ℓ} (a b : Option A) (r : A) → b ≡ some r → (s : A) × (or_else a b ≡ some s)
or_else-some none b r e = (r, e)
or_else-some (some a) b r e = (a, refl)

current_time-some :
    (entry : List ℕ × NetworkTimeSourceState) (m : StringMap NetworkTimeSourceState) (now : ℕ)
    → (r : NetworkTimeReading) × (current_time (record { sources = entry ∷ m }) now ≡ some r)
unfolding current_time
current_time-some entry m now =
    let sources = entry ∷ m in
    let (r, e) = merged_reading-some (merged_time sources) (time_source sources) now in
    or_else-some (full_reading sources now)
      (merged_reading (merged_time sources) (time_source sources) now) r e

sources_cases :
    (m : StringMap NetworkTimeSourceState) (now : ℕ)
    → (current_time (record { sources = m }) now ≡ none) ↔ (m ≡ [])
unfolding current_time
sources_cases [] now = (λ e. refl, λ e. refl)
sources_cases (entry ∷ m) now =
    let (r, e) = current_time-some entry m now in
    (λ nothing. let wrong : some r ≡ none = sym e ∙ nothing in cc, λ empty. cc)

-- A clock always has a reading, however little its sources know, unless it has no source.
pub current_time-none_iff :
    (c : NetworkClock) (now : ℕ) → (current_time c now ≡ none) ↔ (c.sources ≡ [])
unfolding current_time
current_time-none_iff c now = sources_cases c.sources now
