-- ===== src/Memory/Tests.antt =====
-- A window of three samples, a process that shrinks, and one that leaks.
use angellab.Prelude.{ℕ, ◌≡◌, refl, [], ◌∷◌, arith, nat_eq}
use angellab.Prelude.Map.{lookup}
use angellab.Memory.{
  none, some, List, default_config, MemoryAngel, RssSample, RssWindow, growth_crit, rate_crit,
  new_rss_window, full, oldest, newest, rules, check_thresholds, rate_rules, growth_rules,
  growth_pct, growth_rate_kbps,
}
use angellab.Memory.Window.{add_all, Shows, add_all-Shows}
use angellab.Memory.Alarms.{alerts_for}
use angellab.Memory.Cooldown.{Step, prunes, looks, poll_steps, run_steps, no_alert_while_cooling}
use angellab.Memory.Polls.{IsSane}

abbrev at : ℕ → ℕ → RssSample
at ts rss_kb = record { ts = ts; rss_kb = rss_kb }

add_all-Shows_example :
    Shows 3
      (at 1 10 ∷ at 2 20 ∷ at 3 30 ∷ at 4 40 ∷ [])
      (add_all (at 1 10 ∷ at 2 20 ∷ at 3 30 ∷ at 4 40 ∷ []) (new_rss_window 3))
add_all-Shows_example = add_all-Shows 3 (at 1 10 ∷ at 2 20 ∷ at 3 30 ∷ at 4 40 ∷ []) (omega arith)

-- from 2000 kB to 1900 kB
abbrev shrunk : RssWindow
shrunk = record { samples = at 1 2000 ∷ at 2 1900 ∷ []; head = 2; size = 2 }

-- 300 % in a second, at 300 MB/s
abbrev leaking : RssWindow
leaking = record { samples = at 0 102400 ∷ at 1_000_000_000 409600 ∷ []; head = 2; size = 2 }

twice : rules default_config leaking 409600 ≡ growth_crit ∷ rate_crit ∷ []
unfolding rules growth_rules rate_rules growth_pct growth_rate_kbps full newest oldest
twice = refl

abbrev idle : MemoryAngel
idle = record {
  windows = [];
  alerted = [];
  last_oom_kills = 0;
  tracked_count = 0;
  total_alerts = 0;
  sent = [];
}

-- the rest of the poll and the next one, both with the process
abbrev later_steps : List Step
later_steps =
    prunes ((7, some (at 5 4_000_000)) ∷ [])
    ∷ looks (some 2)
    ∷ poll_steps default_config ((7, some (at 6 4_000_000)) ∷ (8, none) ∷ []) none

no_alert_while_cooling_example :
    let m' = check_thresholds default_config 5 7 4_000_000 leaking idle in
    alerts_for 7 (run_steps default_config later_steps m').sent ≡ alerts_for 7 m'.sent
unfolding rules lookup
no_alert_while_cooling_example =
    no_alert_while_cooling default_config 5 7 4_000_000 leaking idle later_steps refl (λ e. cc)
      (refl, (tt, (tt, (omega arith, (tt, (refl, tt))))))

idle-IsSane : IsSane default_config idle
unfolding lookup
idle-IsSane = record { sized = λ pid w found. absurd (cc); keyed = tt }
