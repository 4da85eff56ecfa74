-- ===== src/Sentinel/Rate.antt =====
-- internal/angels/sentinel/dedup.go: the RateTracker, a slice of event times with a logical start.
-- A method that runs under `r.mu` is one function of the time that it reads first; `t.Before(cutoff)`
-- for `cutoff = now.Add(-window)` is `t + window < now`.
pub mod Window
use angellab.Prelude.{
  ℕ, suc, ◌+◌, ◌-◌, ◌/◌, Bool, ◌&&◌, List, [], ◌∷◌, ◌++◌, length, drop, ltb, if◌then◌else◌,
}

pub record RateTracker : Type 0 where
  pub window : ℕ
  pub events : List ℕ
  pub start_idx : ℕ
  pub max_seen : ℕ

abbrev pub max_tracker_events : ℕ
max_tracker_events = 4096

abbrev pub new_rate_tracker : ℕ → RateTracker
new_rate_tracker window = record { window = window; events = []; start_idx = 0; max_seen = 0 }

-- the `for` loop of `evict`; the list is `events[startIdx:]`
unfoldable pub advance : ℕ → ℕ → List ℕ → ℕ → ℕ
advance window now [] idx = idx
advance window now (e ∷ es) idx =
    let next = advance window now es (suc idx) in if ltb (e + window) now then next else idx

-- the copy to the front
unfoldable pub compact : RateTracker → RateTracker
compact r =
    if ltb (length r.events / 2) r.start_idx && ltb 64 r.start_idx
    then record r { events = drop r.start_idx r.events; start_idx = 0 }
    else r

unfoldable pub evict : ℕ → RateTracker → RateTracker
evict now r =
    compact (record r { start_idx = advance r.window now (drop r.start_idx r.events) r.start_idx })

-- append unless the cap is reached
unfoldable pub append_event : ℕ → RateTracker → RateTracker
append_event now r =
    if ltb (length r.events - r.start_idx) max_tracker_events
    then record r { events = r.events ++ now ∷ [] }
    else r

unfoldable pub add : ℕ → RateTracker → RateTracker × ℕ
unfolding append_event
add now r =
    let r' = append_event now (evict now r) in
    let count = length r'.events - r'.start_idx in
    (record r' { max_seen = if ltb r'.max_seen count then count else r'.max_seen }, count)

unfoldable pub count : ℕ → RateTracker → RateTracker × ℕ
count now r = let r' = evict now r in (r', length r'.events - r'.start_idx)

unfoldable pub reset : RateTracker → RateTracker
reset r = record r { events = []; start_idx = 0; max_seen = 0 }
