-- ===== src/Lab/Conn/Reconnect.antt =====
-- A reconnect cancels the window, but for callbacks that were launched before it.
use angellab.Prelude.{ℕ, ◌+◌, ◌≡◌, refl, Option, none, some, List, [], ◌∷◌, arith}
use angellab.Lab.Conn.{
  true, false, recovery_window, Timers, stop_timer, mark_lost, mark_recovered, reset, fire,
  run_callback, already_lost,
}
use angellab.Lab.Conn.Window.{
  World, Op, tick, move, drop, reconnect, restart, due, callback, step, run, IsCurrent,
  stop-Current, launched-stop,
}

abbrev pub NoDrop : List Op → Type 0
NoDrop [] = Unit
NoDrop (drop cb ∷ ops) = ⊥
NoDrop (op ∷ ops) = NoDrop ops

-- nothing is armed or launched
abbrev IsIdle : World → Type 0
IsIdle w = (w.link.timers.armed ≡ []) × (w.link.timers.launched ≡ [])

armed-stop : (o : Option ℕ) (ts : Timers) → ts.armed ≡ [] → (stop_timer o ts).armed ≡ []
armed-stop none ts h = h
armed-stop (some x) ts h = rw h

NoDrop-head : (op : Op) (ops : List Op) → NoDrop (op ∷ ops) → NoDrop (op ∷ [])
NoDrop-head (drop cb) ops n = n
NoDrop-head _ ops n = tt

NoDrop-tail : (op : Op) (ops : List Op) → NoDrop (op ∷ ops) → NoDrop ops
NoDrop-tail (drop cb) ops n = absurd n
NoDrop-tail (tick d) ops n = n
NoDrop-tail (move s) ops n = n
NoDrop-tail reconnect ops n = n
NoDrop-tail restart ops n = n
NoDrop-tail (due k) ops n = n
NoDrop-tail (callback k) ops n = n

step-IsIdle :
    (w : World) (op : Op)
    → NoDrop (op ∷ [])
    → IsIdle w
    → IsIdle (step w op).0 × ((step w op).1 ≡ [])
unfolding step mark_recovered reset fire run_callback
step-IsIdle w (tick d) n h = (h, refl)
step-IsIdle w (move s) n h = (h, refl)
step-IsIdle w (drop cb) n h = absurd n
step-IsIdle w reconnect n h = (
  (
    armed-stop w.link.tracker.recovery_timer w.link.timers h.0,
    rw (launched-stop w.link.tracker.recovery_timer w.link.timers) h.1,
  ),
  refl,
)
step-IsIdle w restart n h = (
  (
    armed-stop w.link.tracker.recovery_timer w.link.timers h.0,
    rw (launched-stop w.link.tracker.recovery_timer w.link.timers) h.1,
  ),
  refl,
)
step-IsIdle w (due k) n h = ground arith
step-IsIdle w (callback k) n h = ground arith

run-IsIdle : (w : World) (ops : List Op) → NoDrop ops → IsIdle w → (run w ops).1 ≡ []
unfolding run
run-IsIdle w [] n h = refl
run-IsIdle w (op ∷ ops) n h =
    let (h', none_now) = step-IsIdle w op (NoDrop-head op ops n) h in
    rw (none_now, run-IsIdle (step w op).0 ops (NoDrop-tail op ops n) h') refl

-- A reconnect cancels the window: if no callback is in flight then `onExpired` is not called
-- before the next drop.
pub reconnect_cancels :
    (w : World) (ops : List Op)
    → IsCurrent w.link
    → w.link.timers.launched ≡ []
    → NoDrop ops
    → (run w (reconnect ∷ ops)).1 ≡ []
unfolding run step mark_recovered
reconnect_cancels w ops h idle n = run-IsIdle _ ops n (
  stop-Current w.link.tracker.recovery_timer w.link.timers h,
  rw (launched-stop w.link.tracker.recovery_timer w.link.timers) idle,
)

-- A callback that was launched before a reconnect is not told from the callback of a later window:
-- it calls `onExpired` at the very moment of the next drop.
pub stale_callback_expires :
    (w : World)
    → IsCurrent w.link
    → already_lost w.link.tracker.state ≡ false
    → let ops =
        drop true ∷ tick recovery_window ∷ due 0 ∷ reconnect ∷ drop true ∷ callback 0 ∷ [] in
      ((run w ops).1 ≡ (w.now + recovery_window) ∷ [])
      × ((run w ops).0.link.tracker.lost_at ≡ w.now + recovery_window)
unfolding run step mark_lost mark_recovered fire run_callback
stale_callback_expires w h live =
    ground (arith, stop-Current w.link.tracker.recovery_timer w.link.timers h)
