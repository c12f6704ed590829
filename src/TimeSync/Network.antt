-- ===== src/TimeSync/Network.antt =====
-- `NetworkClock` of src/timesync.rs: the network's time, put together from named sources.
pub mod Reading
use sedsprintf_rs.Prelude.{
  ℕ, ◌+◌, ◌-◌, Bool, true, false, ◌&&◌, ◌||◌, Option, none, some, List, [], ◌∷◌, is_empty, ltb, leb,
  ◌==◌, if◌then◌else◌,
}
use sedsprintf_rs.Prelude.Strings.{str_lt, StringMap, insert_key, remove_key, retain}
use sedsprintf_rs.Prelude.Least.{least}
use sedsprintf_rs.TimeSync.Calendar.{
  NetworkTime, PartialNetworkTime, is_some, is_complete_date, is_complete_time, to_network_time,
  advance_network_time, as_unix_ms, partial_of, ◌>>=◌,
}

pub record NetworkTimeReading : Type 0 where
  pub time : PartialNetworkTime
  pub unix_time_ms : Option ℕ

pub record NetworkTimeSourceState : Type 0 where
  pub priority : ℕ
  pub updated_mono_ms : ℕ
  pub anchor_mono_ns : ℕ
  pub ttl_ms : Option ℕ
  pub time : PartialNetworkTime

pub record NetworkClock : Type 0 where
  pub sources : StringMap NetworkTimeSourceState

unfoldable pub update_source :
    NetworkClock → List ℕ → ℕ → PartialNetworkTime → ℕ → ℕ → Option ℕ → NetworkClock
update_source c source priority time updated_mono_ms anchor_mono_ns ttl_ms =
    let state : NetworkTimeSourceState = record {
      priority = priority;
      updated_mono_ms = updated_mono_ms;
      anchor_mono_ns = anchor_mono_ns;
      ttl_ms = ttl_ms;
      time = time;
    } in
    record { sources = insert_key source state c.sources }

unfoldable pub remove_source : NetworkClock → List ℕ → NetworkClock
remove_source c source = record { sources = remove_key source c.sources }

-- Within its time to live, if it has one.
unfoldable pub is_fresh : ℕ → NetworkTimeSourceState → Bool
is_fresh now_mono_ms src = elim src.ttl_ms [
  | none ↦ true
  | some ttl ↦ leb (now_mono_ms - src.updated_mono_ms) ttl
]

unfoldable pub prune_expired : NetworkClock → ℕ → NetworkClock
prune_expired c now_mono_ms = record {
  sources = retain (λ entry. is_fresh now_mono_ms (entry.1)) c.sources;
}

-- By priority, then by name.
unfoldable pub entry_before :
    List ℕ × NetworkTimeSourceState → List ℕ × NetworkTimeSourceState → Bool
entry_before (name, src) (best_name, best_src) =
    ltb src.priority best_src.priority
    || ((src.priority == best_src.priority) && str_lt name best_name)

unfoldable pub best_source :
    StringMap NetworkTimeSourceState
    → (NetworkTimeSourceState → Bool)
    → Option (List ℕ × NetworkTimeSourceState)
best_source sources predicate = least entry_before (λ entry. predicate (entry.1)) none sources

-- `best_source(..).map(|(_, src)| src)`.
abbrev pub state_of : Option (List ℕ × NetworkTimeSourceState) → Option NetworkTimeSourceState
state_of none = none
state_of (some (name, src)) = some src

-- The best source of a field.
unfoldable pub source_of :
    {A : Type 0}
    → StringMap NetworkTimeSourceState
    → (PartialNetworkTime → Option A)
    → Option NetworkTimeSourceState
source_of sources field = state_of (best_source sources (λ src. is_some (field src.time)))

unfoldable pub field_of :
    {A : Type 0} → StringMap NetworkTimeSourceState → (PartialNetworkTime → Option A) → Option A
field_of sources field = source_of sources field >>= λ src. field src.time

abbrev pub or_else {ℓ} : {A : Type ℓ} → Option A → Option A → Option A
or_else none other = other
or_else (some a) other = some a

-- A complete time, moved on by the time that passed since the source's anchor.
unfoldable pub advanced_reading : NetworkTime → ℕ → Option NetworkTimeReading
advanced_reading base elapsed_ns = do
  advanced ← advance_network_time base elapsed_ns
  some (record { time = partial_of advanced; unix_time_ms = as_unix_ms advanced })

-- The reading of the best source that has a complete time.
unfoldable pub full_reading : StringMap NetworkTimeSourceState → ℕ → Option NetworkTimeReading
full_reading sources now_mono_ns = do
  src ← state_of (best_source sources (λ src. is_some (to_network_time src.time)))
  base ← to_network_time src.time
  advanced_reading base (now_mono_ns - src.anchor_mono_ns)

unfoldable pub merged_time : StringMap NetworkTimeSourceState → PartialNetworkTime
merged_time sources = record {
  year = field_of sources (λ t. t.year);
  month = field_of sources (λ t. t.month);
  day = field_of sources (λ t. t.day);
  hour = field_of sources (λ t. t.hour);
  minute = field_of sources (λ t. t.minute);
  second = field_of sources (λ t. t.second);
  nanosecond = field_of sources (λ t. t.nanosecond);
}

-- The source that the time of day is anchored at.
unfoldable pub time_source : StringMap NetworkTimeSourceState → Option NetworkTimeSourceState
time_source sources =
    or_else (source_of sources (λ t. t.second))
      (or_else (source_of sources (λ t. t.minute)) (source_of sources (λ t. t.hour)))

abbrev pub incomplete_reading : PartialNetworkTime → NetworkTimeReading
incomplete_reading merged = record { time = merged; unix_time_ms = none }

-- A reading or, without one, the fields that are known.
abbrev pub reading_or : Option NetworkTimeReading → PartialNetworkTime → NetworkTimeReading
reading_or none merged = incomplete_reading merged
reading_or (some r) merged = r

-- The fields put together, moved on if they are complete.
unfoldable pub merged_reading :
    PartialNetworkTime → Option NetworkTimeSourceState → ℕ → Option NetworkTimeReading
merged_reading merged none now_mono_ns = some (incomplete_reading merged)
merged_reading merged (some time_src) now_mono_ns =
    let whole = record merged { nanosecond = or_else merged.nanosecond (some 0) } in
    if is_complete_date merged && is_complete_time merged
    then (do
      base ← to_network_time whole
      some (reading_or (advanced_reading base (now_mono_ns - time_src.anchor_mono_ns)) whole))
    else some (incomplete_reading merged)

unfoldable pub current_time : NetworkClock → ℕ → Option NetworkTimeReading
current_time c now_mono_ns =
    if is_empty c.sources
    then none
    else or_else (full_reading c.sources now_mono_ns)
        (merged_reading (merged_time c.sources) (time_source c.sources) now_mono_ns)
