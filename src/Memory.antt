-- ===== src/Memory.antt =====
-- internal/angels/memory/memory.go: the sliding windows of resident memory and the rules on them.
-- Sizes are kB in `uint64`, whose subtraction wraps around. The float64 percentages and rates are
-- exact fractions here, and their thresholds are whole numbers; a threshold of 0 is off. One check
-- reads the clock once. What is handed to the connection is in `sent`.
pub mod Window
pub mod Alarms
pub mod Cooldown
pub mod Polls
mod Tests
use angellab.Prelude.{
  ℕ, suc, ◌+◌, ◌-◌, ◌*◌, ◌/◌, ◌%◌, ◌^◌, Bool, true, false, not, ◌&&◌, ◌||◌, Option, none, some,
  List, [], ◌∷◌, ◌++◌, String, if◌then◌else◌, ltb, leb, nat_beq, length, replicate, get_or, set,
  nat_eq, string_eq, ◌==◌,
}
use angellab.Prelude.Map.{Map, lookup, insert, delete, has, retain}

pub record RssSample : Type 0 where
  pub ts : ℕ
  pub rss_kb : ℕ

-- the zero value
abbrev pub zero_sample : RssSample
zero_sample = record { ts = 0; rss_kb = 0 }

pub record RssWindow : Type 0 where
  pub samples : List RssSample
  pub head : ℕ
  pub size : ℕ

abbrev pub new_rss_window : ℕ → RssWindow
new_rss_window cap = record { samples = replicate cap zero_sample; head = 0; size = 0 }

unfoldable pub add : RssSample → RssWindow → RssWindow
add s w = record {
  samples = set w.samples (w.head % length w.samples) s;
  head = w.head + 1;
  size = if ltb w.size (length w.samples) then w.size + 1 else w.size;
}

unfoldable pub full : RssWindow → Bool
full w = nat_beq w.size (length w.samples)

unfoldable pub oldest : RssWindow → RssSample
oldest w =
    if ltb w.size (length w.samples)
    then get_or w.samples 0 zero_sample
    else get_or w.samples (w.head % length w.samples) zero_sample

unfoldable pub newest : RssWindow → RssSample
newest w =
    if nat_beq w.size 0
    then zero_sample
    else get_or w.samples ((w.head + length w.samples - 1) % length w.samples) zero_sample

-- a fraction; the denominator is not 0
pub record Fraction : Type 0 where
  pub num : ℕ
  pub den : ℕ

abbrev pub none_at_all : Fraction
none_at_all = record { num = 0; den = 1 }

-- x >= limit, x > 0
abbrev pub reaches : Fraction → ℕ → Bool
reaches x limit = leb (limit * x.den) x.num

abbrev pub is_positive : Fraction → Bool
is_positive x = ltb 0 x.num

-- newest-oldest in uint64
abbrev pub sub_64 : ℕ → ℕ → ℕ
sub_64 a b = (a + 2 ^ 64 - b) % 2 ^ 64

unfoldable pub growth_pct : RssWindow → Fraction
growth_pct w =
    let old = (oldest w).rss_kb in
    if not (full w)
    then none_at_all
    else if nat_beq old 0
    then none_at_all
    else record { num = sub_64 (newest w).rss_kb old * 100; den = old }

-- kB per second, of times in nanoseconds
unfoldable pub growth_rate_kbps : RssWindow → Fraction
growth_rate_kbps w =
    let old = oldest w in
    let new = newest w in
    if not (full w)
    then none_at_all
    else if leb new.rss_kb old.rss_kb
    then none_at_all
    else if leb new.ts old.ts
    then none_at_all
    else record { num = (new.rss_kb - old.rss_kb) * 1_000_000_000; den = new.ts - old.ts }

pub record MemConfig : Type 0 where
  pub pids : List ℕ
  pub watch_all : Bool
  pub process_names : List String
  pub poll_interval : ℕ
  pub window_size : ℕ
  pub growth_warn_pct : ℕ
  pub growth_crit_pct : ℕ
  pub abs_warn_mb : ℕ
  pub abs_crit_mb : ℕ
  pub alert_cooldown : ℕ
  pub growth_rate_warn_kbps : ℕ
  pub growth_rate_crit_kbps : ℕ
  pub cgroup_path : String

abbrev pub default_config : MemConfig
default_config = record {
  pids = [];
  watch_all = false;
  process_names = [];
  poll_interval = 5 * 1_000_000_000;
  window_size = 12;
  growth_warn_pct = 50;
  growth_crit_pct = 200;
  abs_warn_mb = 512;
  abs_crit_mb = 2048;
  alert_cooldown = 5 * 60 * 1_000_000_000;
  growth_rate_warn_kbps = 10240;
  growth_rate_crit_kbps = 102400;
  cgroup_path = "";
}

-- the end of `readMemConfig`
unfoldable pub normalise : MemConfig → MemConfig
normalise cfg = record cfg {
  poll_interval = if leb cfg.poll_interval 0 then 5 * 1_000_000_000 else cfg.poll_interval;
  window_size = if ltb cfg.window_size 2 then 2 else cfg.window_size;
}

pub data Rule : Type 0 where
  abs_crit abs_warn growth_crit growth_warn rate_crit rate_warn : Rule
  oom_kills : ℕ → Rule

-- `subject` is the process; a cgroup has none
pub record Alert : Type 0 where
  pub subject : Option ℕ
  pub rule : Rule

pub record MemoryAngel : Type 0 where
  pub windows : Map ℕ RssWindow
  pub alerted : Map ℕ ℕ
  pub last_oom_kills : ℕ
  pub tracked_count : ℕ
  pub total_alerts : ℕ
  pub sent : List Alert

-- limit > 0 && x >= limit
abbrev pub exceeds : Fraction → ℕ → Bool
exceeds x limit = ltb 0 limit && reaches x limit

-- the block on the growth rate
unfoldable pub rate_rules : MemConfig → RssWindow → List Rule
rate_rules cfg w =
    let rate = growth_rate_kbps w in
    if not (is_positive rate)
    then []
    else if exceeds rate cfg.growth_rate_crit_kbps
    then rate_crit ∷ []
    else if exceeds rate cfg.growth_rate_warn_kbps
    then rate_warn ∷ []
    else []

-- the block on the growth; only the warning returns before the rate is looked at
unfoldable pub growth_rules : MemConfig → RssWindow → List Rule
growth_rules cfg w =
    let growth = growth_pct w in
    if not (full w)
    then []
    else if not (is_positive growth)
    then []
    else if exceeds growth cfg.growth_crit_pct
    then growth_crit ∷ rate_rules cfg w
    else if exceeds growth cfg.growth_warn_pct
    then growth_warn ∷ []
    else rate_rules cfg w

-- the rules that alert, in order
unfoldable pub rules : MemConfig → RssWindow → ℕ → List Rule
rules cfg w rss_kb =
    let rss_mb = rss_kb / 1024 in
    if ltb 0 cfg.abs_crit_mb && leb cfg.abs_crit_mb rss_mb
    then abs_crit ∷ []
    else if ltb 0 cfg.abs_warn_mb && leb cfg.abs_warn_mb rss_mb
    then abs_warn ∷ []
    else growth_rules cfg w

-- an alert: emitEvent, m.alerted[pid] = now, m.totalAlerts++
unfoldable pub raise : ℕ → ℕ → List Rule → MemoryAngel → MemoryAngel
raise now pid [] m = m
raise now pid (rule ∷ rest) m = raise now pid rest (record m {
  sent = m.sent ++ record { subject = some pid; rule = rule } ∷ [];
  alerted = insert pid now m.alerted;
  total_alerts = m.total_alerts + 1;
})

-- time.Since(last) < m.cfg.AlertCooldown
abbrev pub cools : MemConfig → ℕ → Option ℕ → Bool
cools cfg now none = false
cools cfg now (some last) = ltb now (last + cfg.alert_cooldown)

unfoldable pub check_thresholds : MemConfig → ℕ → ℕ → ℕ → RssWindow → MemoryAngel → MemoryAngel
check_thresholds cfg now pid rss_kb w m =
    if cools cfg now (lookup pid m.alerted) then m else raise now pid (rules cfg w rss_kb) m

abbrev pub or_new : MemConfig → Option RssWindow → RssWindow
or_new cfg none = new_rss_window cfg.window_size
or_new cfg (some w) = w

-- what is read of one process, and when: `none` is an error
abbrev pub Reading : Type 0
Reading = ℕ × Option RssSample

-- the body of the loop over the processes
unfoldable pub poll_pid : MemConfig → Reading → MemoryAngel → MemoryAngel
poll_pid cfg (pid, none) m = record m { windows = delete pid m.windows }
poll_pid cfg (pid, some s) m =
    let w = add s (or_new cfg (lookup pid m.windows)) in
    check_thresholds cfg s.ts pid s.rss_kb w (record m { windows = insert pid w m.windows })

unfoldable pub poll_pids : MemConfig → List Reading → MemoryAngel → MemoryAngel
poll_pids cfg [] m = m
poll_pids cfg (r ∷ rest) m = poll_pids cfg rest (poll_pid cfg r m)

abbrev pub is_read : ℕ → List Reading → Bool
is_read pid [] = false
is_read pid ((p, s) ∷ rest) = nat_beq p pid || is_read pid rest

-- for pid := range m.windows { … delete(m.windows, pid); delete(m.alerted, pid) }
unfoldable pub prune_alerted : List Reading → Map ℕ RssWindow → Map ℕ ℕ → Map ℕ ℕ
prune_alerted readings [] alerted = alerted
prune_alerted readings ((pid, w) ∷ rest) alerted =
    let others = prune_alerted readings rest alerted in
    if is_read pid readings then others else delete pid others

unfoldable pub prune : List Reading → MemoryAngel → MemoryAngel
prune readings m = record m {
  windows = retain (λ pid w. is_read pid readings) m.windows;
  alerted = prune_alerted readings m.windows m.alerted;
}

-- what `checkCgroup` reads: the counter of kills
unfoldable pub check_cgroup : Option ℕ → MemoryAngel → MemoryAngel
check_cgroup none m = m
check_cgroup (some kills) m =
    if ltb m.last_oom_kills kills
    then record m {
      sent = m.sent ++ record { subject = none; rule = oom_kills (kills - m.last_oom_kills) } ∷ [];
      total_alerts = m.total_alerts + 1;
      last_oom_kills = kills;
    }
    else record m { last_oom_kills = kills }

unfoldable pub poll : MemConfig → List Reading → Option ℕ → MemoryAngel → MemoryAngel
poll cfg readings cgroup m =
    let m' =
      prune readings (poll_pids cfg readings (record m { tracked_count = length readings })) in
    if cfg.cgroup_path == "" then m' else check_cgroup cgroup m'

-- `resolvePIDs`: the set, as a map to the empty struct. `procs` is what `forEachPID` visits, and
-- `lower` is strings.ToLower.
unfoldable pub see_all : List (ℕ × String) → (String → Bool) → Map ℕ (Unit {0}) → Map ℕ (Unit {0})
see_all [] wanted seen = seen
see_all ((pid, comm) ∷ rest) wanted seen =
    see_all rest wanted (if wanted comm then insert pid tt seen else seen)

abbrev pub see_static : List ℕ → Map ℕ (Unit {0}) → Map ℕ (Unit {0})
see_static [] seen = seen
see_static (pid ∷ rest) seen = see_static rest (insert pid tt seen)

abbrev pub is_named : (String → String) → List String → String → Bool
is_named lower [] comm = false
is_named lower (n ∷ rest) comm = lower n == lower comm || is_named lower rest comm

unfoldable pub resolve_pids :
    (String → String) → MemConfig → List (ℕ × String) → ℕ → Map ℕ (Unit {0})
resolve_pids lower cfg procs self =
    let named = see_all procs (is_named lower cfg.process_names) (see_static cfg.pids []) in
    let seen = if cfg.watch_all then see_all procs (λ comm. true) named else named in
    if nat_beq (length seen) 0 then (self, tt) ∷ [] else seen
