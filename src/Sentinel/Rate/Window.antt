-- ===== src/Sentinel/Rate/Window.antt =====
-- The slice with its start refines the list of the events in the window.
use angellab.Prelude.{
  ap, ◌⊎◌, min, All, ℕ, suc, zero, ◌+◌, ◌*◌, ◌/◌, sym, ◌∙◌, inl, inr, ◌≤◌, ◌≡◌, refl, List, [], ◌∷◌,
  arith, length, drop, ltb, if◌then◌else◌, Bool-cases, length-append, length-drop,
}
use angellab.Sentinel.Rate.{
  RateTracker, max_tracker_events, advance, compact, evict, append_event, add,
}

-- events[startIdx:]
abbrev pub live : RateTracker → List ℕ
live r = drop r.start_idx r.events

-- The specification of eviction: the expired events at the front go.
pub drop_expired : ℕ → ℕ → List ℕ → List ℕ
drop_expired window now [] = []
drop_expired window now (e ∷ es) =
    let rest = drop_expired window now es in if ltb (e + window) now then rest else e ∷ es

drop-nil {ℓ} : {A : Type ℓ} (n : ℕ) → ◌≡◌ {A = List A} (drop n []) []
drop-nil zero = refl
drop-nil (suc n) = refl

drop-drop {ℓ} : {A : Type ℓ} (k n m : ℕ) (l : List A) → m ≡ k + n → drop k (drop n l) ≡ drop m l
drop-drop k zero m l e = let e' : m ≡ k = omega arith in rw e'
drop-drop k (suc n) m [] e = rw (drop-nil k, drop-nil m)
drop-drop k (suc n) zero (x ∷ l) e = absurd (omega arith)
drop-drop k (suc n) (suc m) (x ∷ l) e = drop-drop k n m l (omega arith)

-- how many events the loop passes over
skipped : ℕ → ℕ → List ℕ → ℕ
skipped window now [] = 0
skipped window now (e ∷ es) =
    let more = skipped window now es in if ltb (e + window) now then suc more else 0

advance-skipped :
    (window now : ℕ) (l : List ℕ) (idx : ℕ) → advance window now l idx ≡ skipped window now l + idx
unfolding advance skipped
advance-skipped window now [] idx = omega arith
advance-skipped window now (e ∷ es) idx = ground (arith, advance-skipped window now es (suc idx))

drop-skipped :
    (window now : ℕ) (l : List ℕ) → drop (skipped window now l) l ≡ drop_expired window now l
unfolding skipped drop_expired
drop-skipped window now [] = refl
drop-skipped window now (e ∷ es) = elim (Bool-cases (ltb (e + window) now)) [
  | inl expired ↦ rw expired (drop-skipped window now es)
  | inr fresh ↦ rw fresh
]

-- what holds of a tracker between two calls
pub record IsBounded (r : RateTracker) : Type 0 where
  pub start_in : r.start_idx ≤ length r.events
  pub live_capped : length r.events ≤ r.start_idx + max_tracker_events
  pub compacted : length r.events ≤ 2 * max_tracker_events

skipped-le : (window now : ℕ) (l : List ℕ) → skipped window now l ≤ length l
unfolding skipped
skipped-le window now [] = omega arith
skipped-le window now (e ∷ es) = ground (arith, skipped-le window now es)

live-compact : (r : RateTracker) → live (compact r) ≡ live r
unfolding compact
live-compact r = ground arith

-- Eviction drops the expired events at the front of the window and no other.
live-evict : (now : ℕ) (r : RateTracker) → live (evict now r) ≡ drop_expired r.window now (live r)
unfolding evict
live-evict now r =
    live-compact _
    ∙ sym (
        drop-drop (skipped r.window now (live r)) r.start_idx _ r.events
          (advance-skipped r.window now (live r) r.start_idx))
    ∙ drop-skipped r.window now (live r)

abbrev Fits : RateTracker → Type 0
Fits r = (r.start_idx ≤ length r.events) × (length r.events ≤ r.start_idx + max_tracker_events)

abbrev HalfUsed : RateTracker → Type 0
HalfUsed r = (2 * r.start_idx ≤ length r.events) ⊎ (r.start_idx ≤ 64)

-- the copy leaves at least half of the slice in use
compact_bounds : (r : RateTracker) → Fits r → Fits (compact r) × HalfUsed (compact r)
unfolding compact
compact_bounds r (inside, capped) = elim (Bool-cases (ltb (length r.events / 2) r.start_idx)) [
  | inl half ↦ elim (Bool-cases (ltb 64 r.start_idx)) [
    | inl worth ↦ rw (half, worth) (ground (arith, length-drop r.start_idx r.events))
    | inr small ↦ rw (half, small) (ground arith)
  ]
  | inr used ↦ rw used (ground arith)
]

evict_bounds :
    (now : ℕ) (r : RateTracker) → IsBounded r → Fits (evict now r) × HalfUsed (evict now r)
unfolding evict
evict_bounds now r h =
    let start = advance-skipped r.window now (live r) r.start_idx in
    let few = skipped-le r.window now (live r) in
    let len = length-drop r.start_idx r.events in
    compact_bounds _ (omega (arith, h, start, few, len), omega (arith, h, start))

-- how many of the events are still inside the window, looked at one by one
pub in_window : ℕ → ℕ → List ℕ → ℕ
in_window window now [] = 0
in_window window now (e ∷ es) =
    let rest = in_window window now es in if ltb (e + window) now then rest else suc rest

-- The times grow along the slice, as they do under a clock that never goes back.
abbrev pub IsOrdered : List ℕ → Type 0
IsOrdered [] = Unit
IsOrdered (e ∷ es) = All (λ f. e ≤ f) es × IsOrdered es

in_window-All :
    (window now : ℕ) (e : ℕ) (es : List ℕ)
    → now ≤ e + window
    → All (λ f. e ≤ f) es
    → in_window window now es ≡ length es
unfolding in_window
in_window-All window now e [] fresh late = refl
in_window-All window now e (f ∷ fs) fresh (late, lates) =
    ground (arith, in_window-All window now e fs fresh lates)

-- for growing times the loop at the front finds every expired event
length-drop_expired :
    (window now : ℕ) (l : List ℕ)
    → IsOrdered l
    → length (drop_expired window now l) ≡ in_window window now l
unfolding drop_expired in_window
length-drop_expired window now [] h = refl
length-drop_expired window now (e ∷ es) (late, h) =
    ground (arith, length-drop_expired window now es h, in_window-All window now e es)

append_bounds : (now : ℕ) (r : RateTracker) → Fits r → HalfUsed r → IsBounded (append_event now r)
unfolding append_event
append_bounds now r (inside, capped) half = ground (arith, length-append r.events (now ∷ []))

add_slice :
    (now : ℕ) (r : RateTracker)
    → ((add now r).0.events ≡ (append_event now (evict now r)).events)
      × ((add now r).0.start_idx ≡ (append_event now (evict now r)).start_idx)
unfolding add
add_slice now r = (refl, refl)

-- `Add` keeps the start inside the slice, at most `maxTrackerEvents` live events, and the slice
-- itself at twice that.
add-IsBounded : (now : ℕ) (r : RateTracker) → IsBounded r → IsBounded (add now r).0
unfolding add
add-IsBounded now r h =
    let (fits, half) = evict_bounds now r h in
    let b = append_bounds now (evict now r) fits half in
    record { start_in = b.start_in; live_capped = b.live_capped; compacted = b.compacted }

-- The count that `Add` returns is the number of recorded events in the window, the new one
-- included, and at most `maxTrackerEvents`.
pub add_counts :
    (now : ℕ) (r : RateTracker)
    → IsBounded r
    → IsOrdered (live r)
    → (add now r).1 ≡ min (in_window r.window now (live r) + 1) max_tracker_events
unfolding add append_event
add_counts now r h ordered = ground (
  arith,
  evict_bounds now r h,
  length-drop (evict now r).start_idx (evict now r).events,
  ap length (live-evict now r),
  length-drop_expired r.window now (live r) ordered,
  length-append (evict now r).events (now ∷ []),
)
