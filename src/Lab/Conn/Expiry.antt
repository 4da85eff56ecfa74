-- ===== src/Lab/Conn/Expiry.antt =====
-- When the recovery window of a link ends: not before its time, and then for certain.
use angellab.Prelude.{
  All-append, All-map, leb→le, All-get_elem?, All, All-remove_at, ◌≤◌, ℕ, ◌+◌, ◌≡◌, inl, inr, Bool,
  Option, none, some, List, [], ◌∷◌, arith, if◌then◌else◌, leb, get_elem?, Option-cases, Bool-cases,
}
use angellab.Lab.Conn.{
  true, false, nat_beq, recovery_window, disarm, Timer, Timers, stop_timer, mark_lost,
  mark_recovered, reset, fire, run_callback, already_lost,
}
use angellab.Lab.Conn.Window.{
  World, Op, tick, move, drop, reconnect, restart, due, callback, step, run, IsCurrent,
  stop-Current, launched-stop,
}

-- Nothing that is armed or launched is due before `T`.
pub record NotBefore (T : ℕ) (w : World) : Type 0 where
  pub window : T ≤ w.now + recovery_window
  pub armed_late : All (λ t. T ≤ t.deadline) w.link.timers.armed
  pub launched_late : All (λ t. (T ≤ t.deadline) × (t.deadline ≤ w.now)) w.link.timers.launched

All-disarm : (P : Timer → Type 0) (h : ℕ) (ts : List Timer) → All P ts → All P (disarm h ts)
All-disarm P h [] a = a
All-disarm P h (t ∷ ts) a = elim (Bool-cases (nat_beq t.handle h)) [
  | inl same ↦ rw same (All-disarm P h ts a.1)
  | inr other ↦ rw other (a.0, All-disarm P h ts a.1)
]

All-stop :
    (P : Timer → Type 0) (o : Option ℕ) (ts : Timers)
    → All P ts.armed
    → All P (stop_timer o ts).armed
All-stop P none ts a = a
All-stop P (some h) ts a = All-disarm P h ts.armed a

module _ (T : ℕ) where
  mark_lost-NotBefore : (cb : Bool) (w : World) → NotBefore T w → NotBefore T (step w (drop cb)).0
  unfolding step mark_lost
  mark_lost-NotBefore cb w h = elim (Bool-cases (already_lost w.link.tracker.state)) [
    | inl already ↦ rw already h
    | inr fresh ↦ rw fresh (record {
      window = h.window;
      armed_late = (h.window, All-stop _ w.link.tracker.recovery_timer w.link.timers h.armed_late);
      launched_late =
          rw (launched-stop w.link.tracker.recovery_timer w.link.timers) h.launched_late;
    })
  ]

  fire-NotBefore : (k : ℕ) (w : World) → NotBefore T w → NotBefore T (step w (due k)).0
  unfolding step fire
  fire-NotBefore k w h = elim (Option-cases (get_elem? w.link.timers.armed k)) [
    | inl miss ↦ rw (miss, step, fire) h
    | inr (t, found) ↦ elim (Bool-cases (leb t.deadline w.now)) [
      | inl ready ↦
          rw (found, ready, step, fire)
            (record {
              window = h.window;
              armed_late = All-remove_at _ w.link.timers.armed k h.armed_late;
              launched_late = (
                (All-get_elem? _ w.link.timers.armed k t h.armed_late found, leb→le _ _ ready),
                h.launched_late,
              );
            })
      | inr early ↦ rw (found, early, step, fire) h
    ]
  ]

  All-guarded : (b : Bool) (c : ℕ) → T ≤ c → All (λ c. T ≤ c) (if b then c ∷ [] else [])
  All-guarded true c h = (h, tt)
  All-guarded false c h = tt

  callback-NotBefore :
      (k : ℕ) (w : World)
      → NotBefore T w
      → NotBefore T (step w (callback k)).0 × All (λ c. T ≤ c) (step w (callback k)).1
  unfolding step run_callback
  callback-NotBefore k w h = elim (Option-cases (get_elem? w.link.timers.launched k)) [
    | inl miss ↦ rw (miss, step, run_callback, All) (h, tt)
    | inr (t, found) ↦
        let late = All-get_elem? _ w.link.timers.launched k t h.launched_late found in
        rw (found, step, run_callback, All)
          (
            record {
              window = h.window;
              armed_late = h.armed_late;
              launched_late = All-remove_at _ w.link.timers.launched k h.launched_late;
            },
            All-guarded _ w.now (omega (arith, late)),
          )
  ]

  step-NotBefore :
      (w : World) (op : Op)
      → NotBefore T w
      → NotBefore T (step w op).0 × All (λ c. T ≤ c) (step w op).1
  unfolding step mark_recovered reset
  step-NotBefore w (tick d) h = (
    record {
      window = omega (arith, h.window);
      armed_late = h.armed_late;
      launched_late =
          All-map _ _ w.link.timers.launched (λ t p. (p.0, omega (arith, p.1))) h.launched_late;
    },
    tt,
  )
  step-NotBefore w (move s) h =
      (record { window = h.window; armed_late = h.armed_late; launched_late = h.launched_late }, tt)
  step-NotBefore w (drop cb) h = (mark_lost-NotBefore cb w h, tt)
  step-NotBefore w reconnect h = (
    record {
      window = h.window;
      armed_late = All-stop _ w.link.tracker.recovery_timer w.link.timers h.armed_late;
      launched_late =
          rw (launched-stop w.link.tracker.recovery_timer w.link.timers) h.launched_late;
    },
    tt,
  )
  step-NotBefore w restart h = (
    record {
      window = h.window;
      armed_late = All-stop _ w.link.tracker.recovery_timer w.link.timers h.armed_late;
      launched_late =
          rw (launched-stop w.link.tracker.recovery_timer w.link.timers) h.launched_late;
    },
    tt,
  )
  step-NotBefore w (due k) h = (fire-NotBefore k w h, tt)
  step-NotBefore w (callback k) h = callback-NotBefore k w h

  run-NotBefore : (w : World) (ops : List Op) → NotBefore T w → All (λ c. T ≤ c) (run w ops).1
  unfolding run
  run-NotBefore w [] h = tt
  run-NotBefore w (op ∷ ops) h =
      let (h', now_ok) = step-NotBefore w op h in
      All-append _ (step w op).1 _ now_ok (run-NotBefore (step w op).0 ops h')

-- When a live link drops and no callback of an earlier window is in flight, `onExpired` is called
-- only after the whole recovery window, whatever is done to the link afterwards.
pub expiry_not_early :
    (w : World) (cb : Bool) (ops : List Op)
    → IsCurrent w.link
    → w.link.timers.launched ≡ []
    → already_lost w.link.tracker.state ≡ false
    → All (λ c. w.now + recovery_window ≤ c) (run (step w (drop cb)).0 ops).1
unfolding step mark_lost
expiry_not_early w cb ops h idle live = run-NotBefore (w.now + recovery_window) _ ops (
    rw (live, stop-Current w.link.tracker.recovery_timer w.link.timers h)
      (record {
        window = omega arith;
        armed_late = (omega arith, tt);
        launched_late = rw (launched-stop w.link.tracker.recovery_timer w.link.timers, idle) tt;
      }))

-- A live link that drops and stays down has its `onExpired` called once the window is over.
pub window_expires :
    (w : World) (d : ℕ)
    → IsCurrent w.link
    → already_lost w.link.tracker.state ≡ false
    → recovery_window ≤ d
    → (run w (drop true ∷ tick d ∷ due 0 ∷ callback 0 ∷ [])).1 ≡ (w.now + d) ∷ []
unfolding run step mark_lost fire run_callback
window_expires w d h live late =
    ground (arith, stop-Current w.link.tracker.recovery_timer w.link.timers h)
