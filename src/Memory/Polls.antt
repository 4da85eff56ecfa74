-- ===== src/Memory/Polls.antt =====
-- The windows and the cooldowns after a poll.
use angellab.Prelude.{
  ℕ, ◌+◌, ◌≡◌, refl, sym, ap, ◌∙◌, false, Option, none, some, List, [], ◌∷◌, ◌++◌, arith,
  Option-cases, inl, inr, length, length-set, length-replicate, nat_eq, string_eq,
}
use angellab.Prelude.Map.{lookup, insert, IsMap}
use angellab.Prelude.Map.Laws.{
  lookup-insert, lookup-delete, lookup-retain, insert-IsMap, delete-IsMap, retain-IsMap,
}
use angellab.Memory.{
  MemConfig, MemoryAngel, RssWindow, RssSample, Reading, add, or_new, raise, rules,
  check_thresholds, poll_pid, poll_pids, prune, is_read, check_cgroup, poll, Rule, zero_sample,
}

-- Every window has the places that the configuration asks for, and every key stands once.
pub record IsSane (cfg : MemConfig) (m : MemoryAngel) : Type 0 where
  pub sized :
      (pid : ℕ) (w : RssWindow) → lookup pid m.windows ≡ some w → length w.samples ≡ cfg.window_size
  pub keyed : IsMap m.windows

raise-windows :
    (now pid : ℕ) (rs : List Rule) (m : MemoryAngel) → (raise now pid rs m).windows ≡ m.windows
unfolding raise
raise-windows now pid [] m = refl
raise-windows now pid (r ∷ rest) m = raise-windows now pid rest (record m {
  sent = m.sent ++ record { subject = some pid; rule = r } ∷ [];
  alerted = insert pid now m.alerted;
  total_alerts = m.total_alerts + 1;
})

check-windows :
    (cfg : MemConfig) (now pid rss_kb : ℕ) (w : RssWindow) (m : MemoryAngel)
    → (check_thresholds cfg now pid rss_kb w m).windows ≡ m.windows
unfolding check_thresholds
check-windows cfg now pid rss_kb w m = ground (arith, raise-windows now pid (rules cfg w rss_kb) m)

length-add : (s : RssSample) (w : RssWindow) → length (add s w).samples ≡ length w.samples
unfolding add
length-add s w = length-set w.samples _ s

length-or_new :
    (cfg : MemConfig) (pid : ℕ) (m : MemoryAngel)
    → IsSane cfg m
    → length (or_new cfg (lookup pid m.windows)).samples ≡ cfg.window_size
length-or_new cfg pid m sane = elim (Option-cases (lookup pid m.windows)) [
  | inl missing ↦ rw missing (length-replicate cfg.window_size zero_sample)
  | inr (w, found) ↦ rw found (sane.sized pid w found)
]

poll_pid-IsSane :
    (cfg : MemConfig) (r : Reading) (m : MemoryAngel) → IsSane cfg m → IsSane cfg (poll_pid cfg r m)
unfolding poll_pid
poll_pid-IsSane cfg (pid, none) m sane = record {
  sized = λ p w found. sane.sized p w (ground (arith, lookup-delete pid p m.windows));
  keyed = delete-IsMap pid m.windows sane.keyed;
}
poll_pid-IsSane cfg (pid, some s) m sane =
    let w = add s (or_new cfg (lookup pid m.windows)) in
    let m' : MemoryAngel = record m { windows = insert pid w m.windows } in
    let same = check-windows cfg s.ts pid s.rss_kb w m' in
    record {
      sized = λ p v found.
          let found' : lookup p (insert pid w m.windows) ≡ some v =
            sym (ap (lookup p) same) ∙ found in
          ground (
            arith,
            lookup-insert pid p w m.windows,
            length-add s (or_new cfg (lookup pid m.windows)),
            length-or_new cfg pid m sane,
            sane.sized p v,
          );
      keyed = rw same (insert-IsMap pid w m.windows sane.keyed);
    }

poll_pids-IsSane :
    (cfg : MemConfig) (readings : List Reading) (m : MemoryAngel)
    → IsSane cfg m
    → IsSane cfg (poll_pids cfg readings m)
unfolding poll_pids
poll_pids-IsSane cfg [] m sane = sane
poll_pids-IsSane cfg (r ∷ rest) m sane =
    poll_pids-IsSane cfg rest (poll_pid cfg r m) (poll_pid-IsSane cfg r m sane)

-- What a poll of these processes leaves.
pub record IsPolled (cfg : MemConfig) (readings : List Reading) (m : MemoryAngel) : Type 0 where
  pub sane : IsSane cfg m
  pub only : (pid : ℕ) → is_read pid readings ≡ false → lookup pid m.windows ≡ none

prune-IsPolled :
    (cfg : MemConfig) (readings : List Reading) (m : MemoryAngel)
    → IsSane cfg m
    → IsPolled cfg readings (prune readings m)
unfolding prune
prune-IsPolled cfg readings m sane = record {
  sane = record {
    sized = λ pid w found.
        let law = lookup-retain (λ p v. is_read p readings) pid m.windows sane.keyed in
        elim (Option-cases (lookup pid m.windows)) [
          | inl missing ↦ absurd (ground (arith, law, missing))
          | inr (v, here) ↦ ground (arith, law, here, sane.sized pid v here)
        ];
    keyed = retain-IsMap (λ p v. is_read p readings) m.windows sane.keyed;
  };
  only = λ pid gone.
      let law = lookup-retain (λ p v. is_read p readings) pid m.windows sane.keyed in
      elim (Option-cases (lookup pid m.windows)) [
        | inl missing ↦ ground (arith, law, missing)
        | inr (v, here) ↦ ground (arith, law, here)
      ];
}

windows-check_cgroup :
    (cgroup : Option ℕ) (m : MemoryAngel) → (check_cgroup cgroup m).windows ≡ m.windows
unfolding check_cgroup
windows-check_cgroup none m = refl
windows-check_cgroup (some kills) m = ground arith

windows-poll :
    (cfg : MemConfig) (readings : List Reading) (cgroup : Option ℕ) (m : MemoryAngel)
    → (poll cfg readings cgroup m).windows
      ≡ (prune readings
          (poll_pids cfg readings (record m { tracked_count = length readings }))).windows
unfolding poll
windows-poll cfg readings cgroup m = ground (
  arith,
  windows-check_cgroup cgroup
      (prune readings (poll_pids cfg readings (record m { tracked_count = length readings }))),
)

-- Every poll keeps each window at the configured size with one window for a process, and afterwards
-- only processes of this poll have one.
poll-IsPolled :
    (cfg : MemConfig) (readings : List Reading) (cgroup : Option ℕ) (m : MemoryAngel)
    → IsSane cfg m
    → IsPolled cfg readings (poll cfg readings cgroup m)
poll-IsPolled cfg readings cgroup m sane =
    let m' = poll_pids cfg readings (record m { tracked_count = length readings }) in
    let sane' =
      poll_pids-IsSane cfg readings (record m { tracked_count = length readings })
        (record { sized = sane.sized; keyed = sane.keyed }) in
    let done = prune-IsPolled cfg readings m' sane' in
    let same = windows-poll cfg readings cgroup m in
    record {
      sane = record { sized = rw same done.sane.sized; keyed = rw same done.sane.keyed };
      only = rw same done.only;
    }
