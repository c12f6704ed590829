-- ===== src/TimeSync/Tracker.antt =====
-- `TimeSyncTracker` of src/timesync.rs: the remote sources of time, and the leader among them.
pub mod Election
pub mod Follow
use sedsprintf_rs.Prelude.{
  ℕ, ◌+◌, ◌-◌, Bool, true, false, not, ◌&&◌, ◌||◌, Option, none, some, List, [], ◌∷◌, ltb, leb,
  ◌==◌, if◌then◌else◌, map,
}
use sedsprintf_rs.Prelude.Strings.{str_lt, str_eq, StringMap, lookup, insert_key, retain}
use sedsprintf_rs.Prelude.Least.{least}
use sedsprintf_rs.Error.{Result, ok, err, ◌>>=◌}
use sedsprintf_rs.Schema.{Schema}
use sedsprintf_rs.External.{External}
use sedsprintf_rs.Packet.{Packet}
use sedsprintf_rs.TimeSync.Calendar.{is_some}
use sedsprintf_rs.TimeSync.Messages.{
  TimeSyncSchema, TimeSyncAnnounceFields, decode_timesync_announce,
}

pub data TimeSyncRole : Type 0 where
  consumer source auto : TimeSyncRole

pub record TimeSyncConfig : Type 0 where
  pub role : TimeSyncRole
  pub priority : ℕ
  pub source_timeout_ms : ℕ
  pub announce_interval_ms : ℕ
  pub request_interval_ms : ℕ
  pub consumer_promotion_enabled : Bool
  pub max_slew_ppm : ℕ

-- `TimeSyncConfig::default`.
abbrev pub default_config : TimeSyncConfig
default_config = record {
  role = consumer;
  priority = 100;
  source_timeout_ms = 5000;
  announce_interval_ms = 1000;
  request_interval_ms = 1000;
  consumer_promotion_enabled = true;
  max_slew_ppm = 50000;
}

pub record TimeSyncSource : Type 0 where
  pub sender : List ℕ
  pub priority : ℕ
  pub last_announce_ms : ℕ
  pub last_time_ms : ℕ

pub data TimeSyncLeader : Type 0 where
  local : ℕ → TimeSyncLeader
  remote : TimeSyncSource → TimeSyncLeader

pub data TimeSyncUpdate : Type 0 where
  no_change source_changed : TimeSyncUpdate

pub record TimeSyncTracker : Type 0 where
  pub cfg : TimeSyncConfig
  pub local_id : List ℕ
  pub sources : StringMap TimeSyncSource
  pub current : Option (List ℕ)

unfoldable pub new_tracker : TimeSyncConfig → List ℕ → TimeSyncTracker
new_tracker cfg device = record { cfg = cfg; local_id = device; sources = []; current = none }

unfoldable pub current_source : TimeSyncTracker → Option TimeSyncSource
current_source t = elim t.current [ none ↦ none | some sender ↦ lookup sender t.sources ]

unfoldable pub source_is_active : ℕ → ℕ → TimeSyncSource → Bool
source_is_active now_ms timeout_ms src = leb (now_ms - src.last_announce_ms) timeout_ms

-- The order of the sources: by priority, then by sender.
unfoldable pub source_before : TimeSyncSource → TimeSyncSource → Bool
source_before a b =
    ltb a.priority b.priority || ((a.priority == b.priority) && str_lt a.sender b.sender)

-- The values of a map.
abbrev pub values_of {ℓ} : {A : Type ℓ} → StringMap A → List A
values_of m = map (λ entry. entry.1) m

unfoldable pub best_active_source : TimeSyncTracker → ℕ → Option TimeSyncSource
best_active_source t now_ms =
    least source_before (source_is_active now_ms t.cfg.source_timeout_ms) none (values_of t.sources)

-- What each role asks for before it leads.
unfoldable pub may_lead : TimeSyncConfig → Bool → Bool → Bool
may_lead cfg has_usable_time alone = elim cfg.role [
  | consumer ↦ has_usable_time && cfg.consumer_promotion_enabled && alone
  | source ↦ true
  | auto ↦ has_usable_time && alone
]

unfoldable pub local_candidate_priority : TimeSyncTracker → ℕ → Bool → Option ℕ
local_candidate_priority t now_ms has_usable_time =
    if may_lead t.cfg has_usable_time (not (is_some (best_active_source t now_ms)))
    then some t.cfg.priority
    else none

-- The local candidate against the best remote one.
unfoldable pub elect : List ℕ → Option ℕ → Option TimeSyncSource → Option TimeSyncLeader
elect local_id (some priority) (some src) =
    if ltb priority src.priority || ((priority == src.priority) && str_lt local_id src.sender)
    then some (local priority)
    else some (remote src)
elect local_id (some priority) none = some (local priority)
elect local_id none (some src) = some (remote src)
elect local_id none none = none

unfoldable pub leader : TimeSyncTracker → ℕ → Bool → Option TimeSyncLeader
leader t now_ms has_usable_time =
    elect t.local_id (local_candidate_priority t now_ms has_usable_time)
      (best_active_source t now_ms)

-- Whether an active source has the priority.
unfoldable pub tie_exists : (TimeSyncSource → Bool) → ℕ → List TimeSyncSource → Bool
tie_exists active priority [] = false
tie_exists active priority (src ∷ sources) =
    let rest = tie_exists active priority sources in
    if active src && (src.priority == priority) then true else rest

-- The priority that a leader announces.
unfoldable pub announced_priority : (ℕ → Bool) → Option TimeSyncLeader → Option ℕ
announced_priority tie (some (local priority)) =
    some (if tie priority then priority - 1 else priority)
announced_priority tie (some (remote src)) = none
announced_priority tie none = none

unfoldable pub local_announce_priority : TimeSyncTracker → ℕ → Bool → Option ℕ
local_announce_priority t now_ms has_usable_time =
    announced_priority
      (λ priority.
        tie_exists (source_is_active now_ms t.cfg.source_timeout_ms) priority (values_of t.sources))
      (leader t now_ms has_usable_time)

unfoldable pub should_announce : TimeSyncTracker → ℕ → Bool → Bool
should_announce t now_ms has_usable_time =
    is_some (local_announce_priority t now_ms has_usable_time)

unfoldable pub should_serve : TimeSyncTracker → ℕ → Bool → Bool
should_serve t now_ms has_usable_time = should_announce t now_ms has_usable_time

unfoldable pub is_source_active : TimeSyncTracker → ℕ → Bool
is_source_active t now_ms = elim (current_source t) [
  | none ↦ false
  | some src ↦ source_is_active now_ms t.cfg.source_timeout_ms src
]

abbrev pub sender_of : Option TimeSyncSource → Option (List ℕ)
sender_of none = none
sender_of (some src) = some src.sender

abbrev pub same_sender : Option (List ℕ) → Option (List ℕ) → Bool
same_sender none none = true
same_sender none (some b) = false
same_sender (some a) none = false
same_sender (some a) (some b) = str_eq a b

unfoldable pub reselect_source : TimeSyncTracker → ℕ → TimeSyncUpdate × TimeSyncTracker
reselect_source t now_ms =
    let selected = sender_of (best_active_source t now_ms) in
    (
      if same_sender selected t.current then no_change else source_changed,
      record t { current = selected },
    )

unfoldable pub refresh : TimeSyncTracker → ℕ → TimeSyncUpdate × TimeSyncTracker
refresh t now_ms =
    reselect_source
      (record t {
        sources =
            retain (λ entry. source_is_active now_ms t.cfg.source_timeout_ms (entry.1)) t.sources;
      })
      now_ms

-- An announcement of the node's own is ignored.
unfoldable pub accept_announce :
    TimeSyncTracker → List ℕ → TimeSyncAnnounceFields → ℕ → TimeSyncUpdate × TimeSyncTracker
accept_announce t sender ann recv_ms =
    let incoming : TimeSyncSource = record {
      sender = sender;
      priority = ann.priority;
      last_announce_ms = recv_ms;
      last_time_ms = ann.time_ms;
    } in
    if str_eq sender t.local_id
    then (no_change, t)
    else reselect_source (record t { sources = insert_key sender incoming t.sources }) recv_ms

module _ (s : Schema) (x : External) (ts : TimeSyncSchema) where
  unfoldable pub handle_announce :
      TimeSyncTracker → Packet → ℕ → Result (TimeSyncUpdate × TimeSyncTracker)
  handle_announce t p recv_ms = do
    ann ← decode_timesync_announce s x ts p
    ok (accept_announce t p.sender ann recv_ms)
