-- ===== src/Memory/Alarms.antt =====
-- Which alerts the rules raise, and how often.
use angellab.Prelude.{
  ℕ, suc, ◌+◌, ◌-◌, ◌*◌, ◌/◌, ◌^◌, ◌≤◌, ◌<◌, ◌≡◌, ◌≢◌, refl, ◌∙◌, Bool, true, false, not, ◌&&◌,
  none, some, List, [], ◌∷◌, ◌++◌, arith, ltb, leb, nat_beq, if◌then◌else◌, nat_eq,
}
use angellab.Prelude.Map.{lookup, insert}
use angellab.Prelude.Map.Laws.{lookup-insert}
use native.Mathlib.Nat.{mod-eq_of_lt, mul-le-mul_right}
use angellab.Memory.{
  MemConfig, MemoryAngel, RssWindow, Rule, growth_crit, Alert, full, oldest, newest, growth_pct,
  growth_rate_kbps, rate_rules, growth_rules, rules, raise, check_thresholds, exceeds, sub_64,
}

-- the absolute rules do not apply
abbrev pub is_small : MemConfig → ℕ → Bool
is_small cfg rss_kb =
    not (ltb 0 cfg.abs_crit_mb && leb cfg.abs_crit_mb (rss_kb / 1024))
    && not (ltb 0 cfg.abs_warn_mb && leb cfg.abs_warn_mb (rss_kb / 1024))

wrapped : (a b : ℕ) → a < b → b < 2 ^ 64 → sub_64 a b ≡ 2 ^ 64 - (b - a)
wrapped a b less fits = mod-eq_of_lt (omega arith) ∙ omega arith

shrinking_growth :
    (w : RssWindow)
    → full w ≡ true
    → (newest w).rss_kb < (oldest w).rss_kb
    → (oldest w).rss_kb < 2 ^ 50
    → ((growth_pct w).num ≡ (2 ^ 64 - ((oldest w).rss_kb - (newest w).rss_kb)) * 100)
      × ((growth_pct w).den ≡ (oldest w).rss_kb)
unfolding growth_pct
shrinking_growth w filled less fits =
    ground (arith, wrapped (newest w).rss_kb (oldest w).rss_kb less (omega arith))

-- The growth is computed in uint64, so a process whose resident memory has shrunk over a full window
-- is reported as a critical growth, for any threshold up to 100000 % and sizes below 2^50 kB.
shrinking_alerts :
    (cfg : MemConfig) (w : RssWindow) (rss_kb : ℕ)
    → is_small cfg rss_kb ≡ true
    → full w ≡ true
    → (newest w).rss_kb < (oldest w).rss_kb
    → (oldest w).rss_kb < 2 ^ 50
    → 0 < cfg.growth_crit_pct
    → cfg.growth_crit_pct ≤ 100_000
    → rules cfg w rss_kb ≡ growth_crit ∷ []
unfolding rules growth_rules rate_rules growth_rate_kbps
shrinking_alerts cfg w rss_kb small filled less fits on modest =
    let (num, den) = shrinking_growth w filled less fits in
    let bound = mul-le-mul_right (oldest w).rss_kb modest in
    let loud : exceeds (growth_pct w) cfg.growth_crit_pct ≡ true =
      ground (arith, num, den, bound) in
    ground (arith, loud, num)

abbrev pub is_about : ℕ → Alert → Bool
is_about pid a = elim a.subject [ none ↦ false | some p ↦ nat_beq p pid ]

-- the alerts for one process
unfoldable pub alerts_for : ℕ → List Alert → ℕ
alerts_for pid [] = 0
alerts_for pid (a ∷ rest) =
    let others = alerts_for pid rest in if is_about pid a then suc others else others

pub alerts_for-append :
    (pid : ℕ) (xs : List Alert) (a : Alert)
    → alerts_for pid (xs ++ a ∷ []) ≡ alerts_for pid xs + (if is_about pid a then 1 else 0)
unfolding alerts_for
alerts_for-append pid [] a = ground arith
alerts_for-append pid (x ∷ xs) a = ground (arith, alerts_for-append pid xs a)

raise_other :
    (now pid other : ℕ) (rs : List Rule) (m : MemoryAngel)
    → pid ≢ other
    → (lookup other (raise now pid rs m).alerted ≡ lookup other m.alerted)
      × (alerts_for other (raise now pid rs m).sent ≡ alerts_for other m.sent)
unfolding raise
raise_other now pid other [] m apart = (refl, refl)
raise_other now pid other (r ∷ rest) m apart =
    let m' : MemoryAngel = record m {
      sent = m.sent ++ record { subject = some pid; rule = r } ∷ [];
      alerted = insert pid now m.alerted;
      total_alerts = m.total_alerts + 1;
    } in
    ground (
      arith,
      raise_other now pid other rest m' apart,
      lookup-insert pid other now m.alerted,
      alerts_for-append other m.sent (record { subject = some pid; rule = r }),
    )

raise_alerted :
    (now pid : ℕ) (rs : List Rule) (m : MemoryAngel)
    → lookup pid m.alerted ≡ some now
    → lookup pid (raise now pid rs m).alerted ≡ some now
unfolding raise
raise_alerted now pid [] m h = h
raise_alerted now pid (r ∷ rest) m h =
    raise_alerted now pid rest _ (ground (arith, lookup-insert pid pid now m.alerted))

pub raise-some :
    (now pid : ℕ) (rs : List Rule) (m : MemoryAngel)
    → rs ≢ []
    → lookup pid (raise now pid rs m).alerted ≡ some now
unfolding raise
raise-some now pid [] m some_rule = absurd (some_rule refl)
raise-some now pid (r ∷ rest) m some_rule =
    raise_alerted now pid rest _ (ground (arith, lookup-insert pid pid now m.alerted))

pub check_other :
    (cfg : MemConfig) (now p pid rss_kb : ℕ) (w : RssWindow) (m : MemoryAngel)
    → p ≢ pid
    → (lookup pid (check_thresholds cfg now p rss_kb w m).alerted ≡ lookup pid m.alerted)
      × (alerts_for pid (check_thresholds cfg now p rss_kb w m).sent ≡ alerts_for pid m.sent)
unfolding check_thresholds
check_other cfg now p pid rss_kb w m apart =
    ground (arith, raise_other now p pid (rules cfg w rss_kb) m apart)
