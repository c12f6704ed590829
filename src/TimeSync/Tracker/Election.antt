-- ===== src/TimeSync/Tracker/Election.antt =====
-- Which source a tracker follows, and whom it announces itself against.
use mathlib.Core.Path.{subst}
use sedsprintf_rs.Prelude.{
  ℕ, ◌-◌, ◌≤◌, ◌<◌, ◌≡◌, refl, Bool, true, false, Option, none, some, List, [], ◌∷◌, ◌==◌, ◌⊎◌, inl,
  inr, All, Bool-cases, arith,
}
use sedsprintf_rs.Prelude.Strings.{str_lt_asymm, str_lt_trans}
use sedsprintf_rs.Prelude.Least.{least, least_lem, Selects, IsLeast}
use sedsprintf_rs.TimeSync.Tracker.{
  TimeSyncSource, TimeSyncTracker, TimeSyncLeader, local, remote, source_before, source_is_active,
  best_active_source, values_of, local_announce_priority, announced_priority, tie_exists, leader,
  elect, local_candidate_priority,
}

source_before_asymm : (a b : TimeSyncSource) → source_before a b ≡ true → source_before b a ≡ false
unfolding source_before
source_before_asymm a b h = let names = str_lt_asymm a.sender b.sender in ground arith

source_before_trans :
    (a b c : TimeSyncSource)
    → source_before b a ≡ false
    → source_before c b ≡ false
    → source_before c a ≡ false
unfolding source_before
source_before_trans a b c h k = let names = str_lt_trans a.sender b.sender c.sender in ground arith

-- An active source.
abbrev pub active_in : TimeSyncTracker → ℕ → TimeSyncSource → Bool
active_in t now_ms = source_is_active now_ms t.cfg.source_timeout_ms

-- The best active source is one of the sources, is active, and comes before every other active one, by
-- its priority and then by its sender; there is none only when no source is active.
pub best_active_source-Selects :
    (t : TimeSyncTracker) (now_ms : ℕ)
    → Selects source_before (active_in t now_ms) (values_of t.sources) (best_active_source t now_ms)
unfolding best_active_source
best_active_source-Selects t now_ms =
    least_lem source_before (active_in t now_ms) source_before_asymm source_before_trans
      (values_of t.sources)

-- What a leader announces, against a source.
abbrev pub Beats : ℕ → TimeSyncSource → Type 0
Beats priority src = (priority < src.priority) ⊎ (priority ≡ 0)

tie_exists_lem :
    (active : TimeSyncSource → Bool) (priority : ℕ) (sources : List TimeSyncSource)
    → tie_exists active priority sources ≡ false
    → All (λ src. (active src ≡ true → (src.priority == priority) ≡ false)) sources
unfolding tie_exists
tie_exists_lem active priority [] h = tt
tie_exists_lem active priority (src ∷ sources) h =
    let rest = tie_exists_lem active priority sources in (ground arith, rest (ground arith))

least_priority :
    (b : TimeSyncSource) (src : TimeSyncSource)
    → source_before src b ≡ false
    → b.priority ≤ src.priority
unfolding source_before
least_priority b src h = ground arith

module _ (active : TimeSyncSource → Bool) where
  -- No active source is below a priority.
  abbrev AtLeast : ℕ → List TimeSyncSource → Type 0
  AtLeast priority sources = All (λ src. (active src ≡ true → priority ≤ src.priority)) sources

  AtLeast-of_least :
      (priority : ℕ) (b : TimeSyncSource) (sources : List TimeSyncSource)
      → priority ≤ b.priority
      → IsLeast source_before active b sources
      → AtLeast priority sources
  AtLeast-of_least priority b [] le all = tt
  AtLeast-of_least priority b (src ∷ sources) le (first, all) = (
    (λ on. let up = least_priority b src (first on) in omega (arith, up, le)),
    AtLeast-of_least priority b sources le all,
  )

  AtLeast-of_none :
      (priority : ℕ) (sources : List TimeSyncSource)
      → All (λ src. active src ≡ false) sources
      → AtLeast priority sources
  AtLeast-of_none priority [] all = tt
  AtLeast-of_none priority (src ∷ sources) (off, all) =
      ((λ on. cc), AtLeast-of_none priority sources all)

  Beats-tied :
      (priority : ℕ) (sources : List TimeSyncSource)
      → AtLeast priority sources
      → All (λ src. (active src ≡ true → Beats (priority - 1) src)) sources
  Beats-tied priority [] all = tt
  Beats-tied priority (src ∷ sources) (first, all) =
      ((λ on. let le = first on in omega (arith, le)), Beats-tied priority sources all)

  Beats-alone :
      (priority : ℕ) (sources : List TimeSyncSource)
      → AtLeast priority sources
      → All (λ src. (active src ≡ true → (src.priority == priority) ≡ false)) sources
      → All (λ src. (active src ≡ true → Beats priority src)) sources
  Beats-alone priority [] all others = tt
  Beats-alone priority (src ∷ sources) (first, all) (other, others) = (
    (λ on. let le = first on in let ne = other on in ground arith),
    Beats-alone priority sources all others,
  )

  elect-AtLeast :
      (local_id : List ℕ) (candidate : Option ℕ) (best : Option TimeSyncSource)
      (sources : List TimeSyncSource) (priority : ℕ)
      → Selects source_before active sources best
      → elect local_id candidate best ≡ some (local priority)
      → AtLeast priority sources
  unfolding elect
  elect-AtLeast local_id (some p) (some b) sources priority (place, on, all) e =
      AtLeast-of_least priority b sources (ground arith) all
  elect-AtLeast local_id (some p) none sources priority all e = AtLeast-of_none priority sources all
  elect-AtLeast local_id none (some b) sources priority selects e = cc
  elect-AtLeast local_id none none sources priority selects e = cc

  announced_Beats :
      (chosen : Option TimeSyncLeader) (sources : List TimeSyncSource) (announced : ℕ)
      → ((priority : ℕ) → chosen ≡ some (local priority) → AtLeast priority sources)
      → announced_priority (λ priority. tie_exists active priority sources) chosen ≡ some announced
      → All (λ src. (active src ≡ true → Beats announced src)) sources
  unfolding announced_priority
  announced_Beats (some (local priority)) sources announced least e =
      let all = least priority refl in
      elim (Bool-cases (tie_exists active priority sources)) [
        | inl tied ↦
            let same : priority - 1 ≡ announced = ground arith in
            subst (λ k. All (λ src. (active src ≡ true → Beats k src)) sources) same
              (Beats-tied priority sources all)
        | inr free ↦
            let same : priority ≡ announced = ground arith in
            subst (λ k. All (λ src. (active src ≡ true → Beats k src)) sources) same
              (Beats-alone priority sources all (tie_exists_lem active priority sources free))
      ]
  announced_Beats (some (remote src)) sources announced least e = cc
  announced_Beats none sources announced least e = cc

-- The priority that a node announces is lower than that of every active source, unless it is 0: whoever
-- hears both follows the node.
pub local_announce_priority-Beats :
    (t : TimeSyncTracker) (now_ms : ℕ) (has_usable_time : Bool) (announced : ℕ)
    → local_announce_priority t now_ms has_usable_time ≡ some announced
    → All (λ src. (active_in t now_ms src ≡ true → Beats announced src)) (values_of t.sources)
unfolding local_announce_priority leader
local_announce_priority-Beats t now_ms has_usable_time announced e =
    announced_Beats (active_in t now_ms) (leader t now_ms has_usable_time) (values_of t.sources)
      announced
      (λ priority chosen.
        elect-AtLeast (active_in t now_ms) t.local_id
          (local_candidate_priority t now_ms has_usable_time) (best_active_source t now_ms)
          (values_of t.sources) priority (best_active_source-Selects t now_ms) chosen)
      e
