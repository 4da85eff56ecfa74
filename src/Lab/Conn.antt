-- ===== src/Lab/Conn.antt =====
-- internal/lab/connection.go: the state machine of one angel's IPC link and its recovery timer.
-- A method that runs under `ct.mu` is one function. `Timers` is what the Go runtime keeps for the
-- link: timers of `time.AfterFunc` that are armed, and callbacks that have been launched and have
-- not taken the lock yet; `Stop` removes an armed timer and cannot recall a launched callback.
-- Times are nanoseconds.
pub mod Edges
pub mod Window
pub mod Expiry
pub mod Reconnect
mod Tests
use angellab.Prelude.{
  ℕ, suc, ◌+◌, ◌*◌, Bool, true, false, ◌&&◌, ◌||◌, not, Option, none, some, List, [], ◌∷◌,
  if◌then◌else◌, leb, nat_beq, get_elem?, remove_at,
}

pub data ConnState : Type 0 where
  disconnected connecting registered active lost recovering : ConnState

abbrev pub state_beq : ConnState → ConnState → Bool
state_beq disconnected disconnected = true
state_beq connecting connecting = true
state_beq registered registered = true
state_beq active active = true
state_beq lost lost = true
state_beq recovering recovering = true
state_beq _ _ = false

-- the map literal of `validTransition`
abbrev pub allowed : ConnState → List ConnState
allowed disconnected = connecting ∷ []
allowed connecting = registered ∷ lost ∷ recovering ∷ []
allowed registered = active ∷ lost ∷ recovering ∷ []
allowed active = lost ∷ recovering ∷ []
allowed lost = recovering ∷ connecting ∷ []
allowed recovering = registered ∷ connecting ∷ []

-- its `for` loop with the early return
abbrev pub contains : List ConnState → ConnState → Bool
contains [] new = false
contains (s ∷ rest) new = state_beq s new || contains rest new

unfoldable pub valid_transition : ConnState → ConnState → Bool
valid_transition old new = contains (allowed old) new

pub data ConnError : Type 0 where
  invalid_transition : ConnState → ConnState → ConnError

pub record ConnTracker : Type 0 where
  pub state : ConnState
  pub lost_at : ℕ
  pub on_recovery_expired : Bool  -- whether the stored callback is non-nil
  pub recovery_timer : Option ℕ  -- the timer's handle

-- the zero value
abbrev pub new_tracker : ConnTracker
new_tracker = record {
  state = disconnected;
  lost_at = 0;
  on_recovery_expired = false;
  recovery_timer = none;
}

pub record Timer : Type 0 where
  pub handle : ℕ
  pub deadline : ℕ
  pub callback : Bool  -- whether the captured `onExpired` is non-nil

pub record Timers : Type 0 where
  pub next_handle : ℕ
  pub armed : List Timer
  pub launched : List Timer

abbrev pub no_timers : Timers
no_timers = record { next_handle = 0; armed = []; launched = [] }

pub record Link : Type 0 where
  pub tracker : ConnTracker
  pub timers : Timers

abbrev pub new_link : Link
new_link = record { tracker = new_tracker; timers = no_timers }

-- 10 * time.Second
abbrev pub recovery_window : ℕ
recovery_window = 10 * 1_000_000_000

-- timer.Stop()
abbrev pub disarm : ℕ → List Timer → List Timer
disarm h [] = []
disarm h (t ∷ ts) = let rest = disarm h ts in if nat_beq t.handle h then rest else t ∷ rest

-- if ct.recoveryTimer != nil { ct.recoveryTimer.Stop() }
abbrev pub stop_timer : Option ℕ → Timers → Timers
stop_timer none ts = ts
stop_timer (some h) ts = record ts { armed = disarm h ts.armed }

unfoldable pub transition : ConnState → ConnTracker → ConnTracker × Option ConnError
transition new ct =
    if not (valid_transition ct.state new)
    then (ct, some (invalid_transition ct.state new))
    else (record ct { state = new }, none)

-- the guard of `MarkLost`
abbrev pub already_lost : ConnState → Bool
already_lost s = state_beq s disconnected || state_beq s lost || state_beq s recovering

unfoldable pub mark_lost : ℕ → Bool → Link → Link
mark_lost now on_expired l =
    let stopped = stop_timer l.tracker.recovery_timer l.timers in
    let timer : Timer = record {
      handle = l.timers.next_handle;
      deadline = now + recovery_window;
      callback = on_expired;
    } in
    if already_lost l.tracker.state then l else record {
      tracker = record {
        state = recovering;
        lost_at = now;
        on_recovery_expired = on_expired;
        recovery_timer = some l.timers.next_handle;
      };
      timers = record stopped {
        next_handle = suc l.timers.next_handle;
        armed = timer ∷ stopped.armed;
      };
    }

-- the returned flag is `wasRecovering`
unfoldable pub mark_recovered : Link → Link × Bool
mark_recovered l = (
  record {
    tracker = record l.tracker { state = registered; recovery_timer = none };
    timers = stop_timer l.tracker.recovery_timer l.timers;
  },
  state_beq l.tracker.state recovering,
)

-- the `ConnTrack` part of `entry_resetConn` (supervisor.go)
unfoldable pub reset : Link → Link
reset l = record {
  tracker = record l.tracker { state = connecting; recovery_timer = none };
  timers = stop_timer l.tracker.recovery_timer l.timers;
}

-- The runtime launches the callback of an armed timer that is due; `k` is its choice.
unfoldable pub fire : ℕ → ℕ → Timers → Timers
fire now k ts = elim (get_elem? ts.armed k) [
  | none ↦ ts
  | some t ↦
      if leb t.deadline now
      then record ts { armed = remove_at ts.armed k; launched = t ∷ ts.launched }
      else ts
]

-- The function handed to `AfterFunc`, for one of the launched callbacks: the state is read under
-- the lock, and the flag says whether `onExpired` is called.
unfoldable pub run_callback : ℕ → Link → Link × Bool
run_callback k l = elim (get_elem? l.timers.launched k) [
  | none ↦ (l, false)
  | some t ↦ (
    record l { timers = record l.timers { launched = remove_at l.timers.launched k } },
    state_beq l.tracker.state recovering && t.callback,
  )
]
