-- ===== src/TimeSync/Tracker/Follow.antt =====
-- A tracker that refreshes, or hears an announcement, follows its best active source.
use mathlib.Core.Path.{subst}
use mathlib.Core.List.{Memᴰ}
use sedsprintf_rs.Prelude.{
  ℕ, ◌≡◌, refl, sym, ap, ◌∙◌, Bool, true, false, Option, none, some, List, [], ◌∷◌, if◌then◌else◌,
  inl, inr, All, Bool-cases, ◌↔◌,
}
use sedsprintf_rs.Prelude.Strings.{str_eq, str_eq_sound, str_eq_refl, StringMap, retain}
use sedsprintf_rs.Prelude.Strings.Lookup.{Ascending, Ascending-retain, All-retain, lookup_member}
use sedsprintf_rs.Prelude.Least.{least, better, Selects}
use sedsprintf_rs.TimeSync.Tracker.{
  TimeSyncConfig, new_tracker, TimeSyncSource, TimeSyncTracker, TimeSyncUpdate, no_change,
  source_changed, source_before, best_active_source, values_of, sender_of, same_sender,
  reselect_source, refresh, current_source,
}
use sedsprintf_rs.TimeSync.Tracker.Election.{active_in, best_active_source-Selects}

-- The sources are filed under their senders, in order.
abbrev Filed : List ℕ × TimeSyncSource → Type 0
Filed entry = entry.0 ≡ (entry.1).sender

abbrev pub IsFiled : TimeSyncTracker → Type 0
IsFiled t = All Filed t.sources × Ascending t.sources

-- The tracker follows the best source that is active at a moment.
abbrev pub Follows : TimeSyncTracker → ℕ → Type 0
Follows t now_ms = current_source t ≡ best_active_source t now_ms

entry_of :
    (src : TimeSyncSource) (m : StringMap TimeSyncSource)
    → All Filed m
    → Memᴰ src (values_of m)
    → Memᴰ (src.sender, src) m
entry_of src [] a place = elim place [ ]
entry_of src ((key, w) ∷ m) (filed, a) (Memᴰ.head same) =
    Memᴰ.head (ap (λ v. (v.sender, v)) same ∙ ap (λ k. (k, w)) (sym filed))
entry_of src ((key, w) ∷ m) (filed, a) (Memᴰ.tail later) = Memᴰ.tail (entry_of src m a later)

same_sender_iff : (a b : Option (List ℕ)) → (same_sender a b ≡ true) ↔ (a ≡ b)
same_sender_iff none none = (λ h. refl, λ h. refl)
same_sender_iff none (some b) = (λ h. cc, λ h. cc)
same_sender_iff (some a) none = (λ h. cc, λ h. cc)
same_sender_iff (some a) (some b) = (
  λ h. ap (λ z. some z) (str_eq_sound a b h),
  λ h. let same : a ≡ b = cc in subst (λ z. str_eq a z ≡ true) same (str_eq_refl a),
)

follows_best :
    (t : TimeSyncTracker) (now_ms : ℕ) (best : Option TimeSyncSource)
    → IsFiled t
    → Selects source_before (active_in t now_ms) (values_of t.sources) best
    → t.current ≡ sender_of best
    → current_source t ≡ best
unfolding current_source
follows_best t now_ms none filed sel e = rw e refl
follows_best t now_ms (some src) (filed, up) (place, on, all) e =
    rw e (lookup_member src.sender src t.sources up (entry_of src t.sources filed place))

-- What a reselection does.
abbrev pub Reselects : TimeSyncTracker → ℕ → TimeSyncUpdate × TimeSyncTracker → Type 0
Reselects t now_ms (update, t') =
    IsFiled t' × Follows t' now_ms × ((update ≡ no_change) ↔ (t'.current ≡ t.current))

update_iff : (b : Bool) → ((if b then no_change else source_changed) ≡ no_change) ↔ (b ≡ true)
update_iff true = (λ h. refl, λ h. refl)
update_iff false = (λ h. cc, λ h. cc)

pub reselect_source-Reselects :
    (t : TimeSyncTracker) (now_ms : ℕ) → IsFiled t → Reselects t now_ms (reselect_source t now_ms)
unfolding reselect_source best_active_source
reselect_source-Reselects t now_ms filed =
    let best = best_active_source t now_ms in
    let selected = sender_of best in
    let t' : TimeSyncTracker = record t { current = selected } in
    let (u1, u2) = update_iff (same_sender selected t.current) in
    let (s1, s2) = same_sender_iff selected t.current in
    (
      filed,
      follows_best t' now_ms (best_active_source t' now_ms) filed
          (best_active_source-Selects t' now_ms) refl,
      (λ e. s1 (u1 e), λ e. u2 (s2 e)),
    )

module _ (active : TimeSyncSource → Bool) where
  abbrev keep : List ℕ × TimeSyncSource → Bool
  keep entry = active (entry.1)

  least_on :
      (best : Option TimeSyncSource) (src : TimeSyncSource) (xs : List TimeSyncSource)
      → active src ≡ true
      → least source_before active best (src ∷ xs)
        ≡ least source_before active (some (better source_before active best src)) xs
  unfolding least
  least_on best src xs on = rw on refl

  least_off :
      (best : Option TimeSyncSource) (src : TimeSyncSource) (xs : List TimeSyncSource)
      → active src ≡ false
      → least source_before active best (src ∷ xs) ≡ least source_before active best xs
  unfolding least
  least_off best src xs off = rw off refl

  retain_on :
      (key : List ℕ) (src : TimeSyncSource) (m : StringMap TimeSyncSource)
      → active src ≡ true
      → retain keep ((key, src) ∷ m) ≡ (key, src) ∷ retain keep m
  unfolding retain
  retain_on key src m on = rw on refl

  retain_off :
      (key : List ℕ) (src : TimeSyncSource) (m : StringMap TimeSyncSource)
      → active src ≡ false
      → retain keep ((key, src) ∷ m) ≡ retain keep m
  unfolding retain
  retain_off key src m off = rw off refl

  least-retain :
      (best : Option TimeSyncSource) (m : StringMap TimeSyncSource)
      → least source_before active best (values_of (retain keep m))
        ≡ least source_before active best (values_of m)
  unfolding retain
  least-retain best [] = refl
  least-retain best ((key, src) ∷ m) =
      let run =
        λ (kept : StringMap TimeSyncSource). least source_before active best (values_of kept) in
      elim (Bool-cases (active src)) [
        | inl on ↦
            ap run (retain_on key src m on)
            ∙ (least_on best src (values_of (retain keep m)) on
                ∙ (least-retain (some (better source_before active best src)) m
                    ∙ sym (least_on best src (values_of m) on)))
        | inr off ↦
            ap run (retain_off key src m off)
            ∙ (least-retain best m ∙ sym (least_off best src (values_of m) off))
      ]

member_tail :
    (e x : List ℕ × TimeSyncSource) (kept m : StringMap TimeSyncSource)
    → Memᴰ e (x ∷ m)
    → (Memᴰ e m → Memᴰ e kept)
    → Memᴰ e (x ∷ kept)
member_tail e x kept m (Memᴰ.head same) go = Memᴰ.head same
member_tail e x kept m (Memᴰ.tail later) go = Memᴰ.tail (go later)

not_head :
    (keep : List ℕ × TimeSyncSource → Bool) (e x : List ℕ × TimeSyncSource)
    (m : StringMap TimeSyncSource)
    → Memᴰ e (x ∷ m)
    → keep e ≡ true
    → keep x ≡ false
    → Memᴰ e m
not_head keep e x m (Memᴰ.head same) pass off =
    let wrong : true ≡ false = sym pass ∙ (ap keep same ∙ off) in absurd cc
not_head keep e x m (Memᴰ.tail later) pass off = later

-- Exactly the entries that pass are kept.
retain-exact :
    (keep : List ℕ × TimeSyncSource → Bool) (m : StringMap TimeSyncSource)
    → All (λ e. keep e ≡ true) (retain keep m)
      × ((e : List ℕ × TimeSyncSource) → Memᴰ e m → keep e ≡ true → Memᴰ e (retain keep m))
unfolding retain
retain-exact keep [] = (tt, λ e place on. place)
retain-exact keep (x ∷ m) =
    let (all, kept) = retain-exact keep m in
    elim (Bool-cases (keep x)) [
      | inl on ↦ rw on (
        (on, all),
        λ e place pass. member_tail e x (retain keep m) m place (λ later. kept e later pass),
      )
      | inr off ↦ rw off (all, λ e place pass. kept e (not_head keep e x m place pass off) pass)
    ]

-- A new tracker has its sources filed under their senders, in order.
pub new_tracker-IsFiled :
    (cfg : TimeSyncConfig) (device : List ℕ) → IsFiled (new_tracker cfg device)
unfolding new_tracker
new_tracker-IsFiled cfg device = (tt, tt)

-- A tracker whose sources are filed under their senders, in order, keeps them so when it drops the stale
-- ones. It keeps the active sources and no other ones, it follows the best of them, the same as before the
-- drop, and it reports a change exactly when it follows another sender than before.
pub refresh-Reselects :
    (t : TimeSyncTracker) (now_ms : ℕ)
    → IsFiled t
    → Reselects t now_ms (refresh t now_ms)
      × (best_active_source (refresh t now_ms).1 now_ms ≡ best_active_source t now_ms)
      × All (λ e. active_in t now_ms (e.1) ≡ true) (refresh t now_ms).1.sources
      × ((e : List ℕ × TimeSyncSource)
          → Memᴰ e t.sources
          → active_in t now_ms (e.1) ≡ true
          → Memᴰ e (refresh t now_ms).1.sources)
unfolding refresh reselect_source best_active_source
refresh-Reselects t now_ms (filed, up) =
    let active = active_in t now_ms in
    let kept : TimeSyncTracker = record t {
      sources = retain (λ entry. active (entry.1)) t.sources;
    } in
    let (all, members) = retain-exact (λ entry. active (entry.1)) t.sources in
    (
      reselect_source-Reselects kept now_ms (
        All-retain Filed (λ entry. active (entry.1)) t.sources filed,
        Ascending-retain (λ entry. active (entry.1)) t.sources up,
      ),
      least-retain active none t.sources,
      all,
      members,
    )
