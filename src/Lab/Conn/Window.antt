-- ===== src/Lab/Conn/Window.antt =====
-- The recovery window over every interleaving of the link's operations with the clock, the runtime
-- and the launched callbacks.
use angellab.Prelude.{
  ℕ, zero, suc, ◌+◌, ◌≡◌, refl, inl, inr, Bool, Option, none, some, List, [], ◌∷◌, ◌++◌, arith,
  if◌then◌else◌, leb, get_elem?, remove_at, Option-cases, Bool-cases,
}
use angellab.Lab.Conn.{
  ConnTracker, ConnState, Link, Timer, Timers, transition, stop_timer, mark_lost, mark_recovered,
  reset, fire, run_callback, already_lost,
}

pub record World : Type 0 where
  pub now : ℕ
  pub link : Link

pub data Op : Type 0 where
  tick : ℕ → Op
  move : ConnState → Op
  drop : Bool → Op
  reconnect : Op
  restart : Op
  due : ℕ → Op
  callback : ℕ → Op

-- One step, with the times at which it calls `onExpired`.
unfoldable pub step : World → Op → World × List ℕ
step w (tick d) = (record w { now = w.now + d }, [])
step w (move s) =
    (record w { link = record w.link { tracker = (transition s w.link.tracker).0 } }, [])
step w (drop on_expired) = (record w { link = mark_lost w.now on_expired w.link }, [])
step w reconnect = (record w { link = (mark_recovered w.link).0 }, [])
step w restart = (record w { link = reset w.link }, [])
step w (due k) = (record w { link = record w.link { timers = fire w.now k w.link.timers } }, [])
step w (callback k) =
    let (l, called) = run_callback k w.link in
    (record w { link = l }, if called then w.now ∷ [] else [])

unfoldable pub run : World → List Op → World × List ℕ
run w [] = (w, [])
run w (op ∷ ops) =
    let (w', calls) = step w op in let (w'', rest) = run w' ops in (w'', calls ++ rest)

-- The one armed timer, if any, is the one that the tracker holds.
abbrev pub Current : Option ℕ → List Timer → Type 0
Current o [] = Unit
Current none (t ∷ ts) = ⊥
Current (some h) (t ∷ []) = t.handle ≡ h
Current (some h) (t ∷ u ∷ ts) = ⊥

abbrev pub IsCurrent : Link → Type 0
IsCurrent l = Current l.tracker.recovery_timer l.timers.armed

pub stop-Current : (o : Option ℕ) (ts : Timers) → Current o ts.armed → (stop_timer o ts).armed ≡ []
stop-Current o ts h = go o ts.armed h
  where
    go :
        (o : Option ℕ) (armed : List Timer)
        → Current o armed
        → (stop_timer o (record ts { armed = armed })).armed ≡ []
    go none [] h = refl
    go (some x) [] h = refl
    go none (t ∷ ts) h = absurd h
    go (some x) (t ∷ []) h = ground arith
    go (some x) (t ∷ u ∷ ts) h = absurd h

pub launched-stop : (o : Option ℕ) (ts : Timers) → (stop_timer o ts).launched ≡ ts.launched
launched-stop none ts = refl
launched-stop (some h) ts = refl

Current-remove_at :
    (o : Option ℕ) (ts : List Timer) (k : ℕ) → Current o ts → Current o (remove_at ts k)
Current-remove_at o [] k h = tt
Current-remove_at none (t ∷ ts) k h = absurd h
Current-remove_at (some x) (t ∷ []) zero h = tt
Current-remove_at (some x) (t ∷ []) (suc k) h = h
Current-remove_at (some x) (t ∷ u ∷ ts) k h = absurd h

timer-transition :
    (s : ConnState) (ct : ConnTracker) → (transition s ct).0.recovery_timer ≡ ct.recovery_timer
unfolding transition
timer-transition s ct = ground arith

mark_lost-IsCurrent :
    (now : ℕ) (cb : Bool) (l : Link) → IsCurrent l → IsCurrent (mark_lost now cb l)
unfolding mark_lost
mark_lost-IsCurrent now cb l h = elim (Bool-cases (already_lost l.tracker.state)) [
  | inl already ↦ rw already h
  | inr fresh ↦ rw (fresh, stop-Current l.tracker.recovery_timer l.timers h) refl
]

fire-Current :
    (now k : ℕ) (o : Option ℕ) (ts : Timers) → Current o ts.armed → Current o (fire now k ts).armed
unfolding fire
fire-Current now k o ts h = elim (Option-cases (get_elem? ts.armed k)) [
  | inl miss ↦ rw (miss, fire) h
  | inr (t, found) ↦ elim (Bool-cases (leb t.deadline now)) [
    | inl ready ↦ rw (found, ready, fire) (Current-remove_at o ts.armed k h)
    | inr early ↦ rw (found, early, fire) h
  ]
]

callback-IsCurrent : (k : ℕ) (l : Link) → IsCurrent l → IsCurrent (run_callback k l).0
unfolding run_callback
callback-IsCurrent k l h = elim (Option-cases (get_elem? l.timers.launched k)) [
  | inl miss ↦ rw (miss, run_callback) h
  | inr (t, found) ↦ rw (found, run_callback) h
]

-- no operation arms a timer that the tracker does not hold
pub step-IsCurrent : (w : World) (op : Op) → IsCurrent w.link → IsCurrent (step w op).0.link
unfolding step mark_recovered reset
step-IsCurrent w (tick d) h = h
step-IsCurrent w (move s) h = rw (timer-transition s w.link.tracker) h
step-IsCurrent w (drop cb) h = mark_lost-IsCurrent w.now cb w.link h
step-IsCurrent w reconnect h = rw (stop-Current w.link.tracker.recovery_timer w.link.timers h) tt
step-IsCurrent w restart h = rw (stop-Current w.link.tracker.recovery_timer w.link.timers h) tt
step-IsCurrent w (due k) h = fire-Current w.now k w.link.tracker.recovery_timer w.link.timers h
step-IsCurrent w (callback k) h = callback-IsCurrent k w.link h
