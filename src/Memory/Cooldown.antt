-- ===== src/Memory/Cooldown.antt =====
-- The cooldown of a process over the rest of a poll and the polls after it.
use angellab.Prelude.{
  ℕ, ◌+◌, ◌-◌, if◌then◌else◌, ◌<◌, ◌≡◌, ◌≢◌, refl, ap, sym, ◌∙◌, true, false, Option, none, some,
  List, [], ◌∷◌, ◌++◌, arith, Bool-cases, inl, inr, nat_beq, All, nat_eq, string_eq, ◌==◌, map,
  length,
}
use angellab.Prelude.Map.{Map, lookup}
use angellab.Prelude.Map.Laws.{lookup-delete}
use angellab.Memory.{
  MemConfig, MemoryAngel, RssWindow, Reading, rules, raise, cools, check_thresholds, add, or_new,
  poll_pid, poll_pids, is_read, prune_alerted, prune, check_cgroup, poll, insert, oom_kills,
}
use angellab.Memory.Alarms.{alerts_for, alerts_for-append, check_other, raise-some}

-- What a poll is made of: it counts the processes, reads each, prunes, and looks at the control group.
pub data Step : Type 0 where
  counts : List Reading → Step
  reads : Reading → Step
  prunes : List Reading → Step
  looks : Option ℕ → Step

unfoldable pub step : MemConfig → Step → MemoryAngel → MemoryAngel
step cfg (counts readings) m = record m { tracked_count = length readings }
step cfg (reads r) m = poll_pid cfg r m
step cfg (prunes readings) m = prune readings m
step cfg (looks kills) m = check_cgroup kills m

unfoldable pub run_steps : MemConfig → List Step → MemoryAngel → MemoryAngel
run_steps cfg [] m = m
run_steps cfg (s ∷ rest) m = run_steps cfg rest (step cfg s m)

abbrev pub poll_steps : MemConfig → List Reading → Option ℕ → List Step
poll_steps cfg readings kills =
    counts readings ∷ map reads readings
    ++ prunes readings ∷ (if cfg.cgroup_path == "" then [] else looks kills ∷ [])

run-reads :
    (cfg : MemConfig) (readings : List Reading) (rest : List Step) (m : MemoryAngel)
    → run_steps cfg (map reads readings ++ rest) m ≡ run_steps cfg rest (poll_pids cfg readings m)
unfolding run_steps step poll_pids
run-reads cfg [] rest m = refl
run-reads cfg (r ∷ readings) rest m = run-reads cfg readings rest (poll_pid cfg r m)

-- A poll is these steps.
poll-run_steps :
    (cfg : MemConfig) (readings : List Reading) (kills : Option ℕ) (m : MemoryAngel)
    → poll cfg readings kills m ≡ run_steps cfg (poll_steps cfg readings kills) m
unfolding poll run_steps step
poll-run_steps cfg readings kills m =
    let m' : MemoryAngel = record m { tracked_count = length readings } in
    elim (Bool-cases (cfg.cgroup_path == "")) [
      | inl alone ↦ rw alone (sym (run-reads cfg readings (prunes readings ∷ []) m'))
      | inr grouped ↦
          rw grouped (sym (run-reads cfg readings (prunes readings ∷ looks kills ∷ []) m'))
    ]

-- a step before the time that finds the process, if it looks for it
abbrev pub IsEarly : ℕ → ℕ → Step → Type 0
IsEarly pid time (counts readings) = Unit
IsEarly pid time (reads (p, none)) = Unit
IsEarly pid time (reads (p, some s)) = s.ts < time
IsEarly pid time (prunes readings) = is_read pid readings ≡ true
IsEarly pid time (looks kills) = Unit

is_read_same :
    (readings : List Reading) (p pid : ℕ) → p ≡ pid → is_read p readings ≡ is_read pid readings
is_read_same readings p pid same = ap (λ q. is_read q readings) same

lookup-prune_alerted :
    (readings : List Reading) (windows : Map ℕ RssWindow) (alerted : Map ℕ ℕ) (pid : ℕ)
    → is_read pid readings ≡ true
    → lookup pid (prune_alerted readings windows alerted) ≡ lookup pid alerted
unfolding prune_alerted
lookup-prune_alerted readings [] alerted pid here = refl
lookup-prune_alerted readings ((p, w) ∷ rest) alerted pid here = ground (
  arith,
  here,
  lookup-prune_alerted readings rest alerted pid here,
  lookup-delete p pid (prune_alerted readings rest alerted),
  is_read_same readings p pid,
)

module _ (cfg : MemConfig) (pid t : ℕ) where
  -- a step that leaves the record of the alert and raises none for the process
  abbrev IsQuiet : MemoryAngel → MemoryAngel → Type 0
  IsQuiet m m' = (lookup pid m'.alerted ≡ some t) × (alerts_for pid m'.sent ≡ alerts_for pid m.sent)

  step-IsQuiet :
      (s : Step) (m : MemoryAngel)
      → lookup pid m.alerted ≡ some t
      → IsEarly pid (t + cfg.alert_cooldown) s
      → IsQuiet m (step cfg s m)
  unfolding step poll_pid prune check_cgroup
  step-IsQuiet (counts readings) m h early = (h, refl)
  step-IsQuiet (reads (p, none)) m h early = (h, refl)
  step-IsQuiet (reads (p, some s)) m h early =
      let w = add s (or_new cfg (lookup p m.windows)) in
      let m1 : MemoryAngel = record m { windows = insert p w m.windows } in
      elim (Bool-cases (nat_beq p pid)) [
        | inl same ↦
            let still : check_thresholds cfg s.ts p s.rss_kb w m1 ≡ m1 =
              unfold check_thresholds in ground (arith, h, early, same) in
            rw still (h, refl)
        | inr other ↦
            let (kept, quiet) = check_other cfg s.ts p pid s.rss_kb w m1 (ground arith) in
            (kept ∙ h, quiet)
      ]
  step-IsQuiet (prunes readings) m h early =
      (lookup-prune_alerted readings m.windows m.alerted pid early ∙ h, refl)
  step-IsQuiet (looks none) m h early = (h, refl)
  step-IsQuiet (looks (some kills)) m h early = ground (
    arith,
    h,
    alerts_for-append pid m.sent
        (record { subject = none; rule = oom_kills (kills - m.last_oom_kills) }),
  )

  run-IsQuiet :
      (steps : List Step) (m : MemoryAngel)
      → lookup pid m.alerted ≡ some t
      → All (IsEarly pid (t + cfg.alert_cooldown)) steps
      → IsQuiet m (run_steps cfg steps m)
  unfolding run_steps
  run-IsQuiet [] m h early = (h, refl)
  run-IsQuiet (s ∷ rest) m h (soon, early) =
      let (kept, quiet) = step-IsQuiet s m h soon in
      let (kept', quiet') = run-IsQuiet rest (step cfg s m) kept early in (kept', quiet' ∙ quiet)

-- When a check of a process that is not cooling down has found something and raised its alerts, one or
-- two, neither the rest of that poll nor the polls after it raise another one for the process, as long
-- as its samples are of a time before the end of the cooldown and every poll reads it, so that its
-- record is not pruned.
pub no_alert_while_cooling :
    (cfg : MemConfig) (now pid rss_kb : ℕ) (w : RssWindow) (m : MemoryAngel) (steps : List Step)
    → cools cfg now (lookup pid m.alerted) ≡ false
    → rules cfg w rss_kb ≢ []
    → All (IsEarly pid (now + cfg.alert_cooldown)) steps
    → let m' = check_thresholds cfg now pid rss_kb w m in
      alerts_for pid (run_steps cfg steps m').sent ≡ alerts_for pid m'.sent
unfolding check_thresholds
no_alert_while_cooling cfg now pid rss_kb w m steps cold loud early = rw cold (
    (run-IsQuiet cfg pid now steps (raise now pid (rules cfg w rss_kb) m)
      (raise-some now pid (rules cfg w rss_kb) m loud) early).1)
