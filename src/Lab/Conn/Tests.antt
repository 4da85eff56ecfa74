-- ===== src/Lab/Conn/Tests.antt =====
-- One link through its life: spawn, register, heartbeat, drop, and back.
use angellab.Prelude.{◌+◌, ◌≤◌, ◌≡◌, refl, List, [], ◌∷◌, All, arith}
use angellab.Lab.Conn.{
  true, connecting, registered, active, new_link, transition, mark_lost, recovery_window,
  valid_transition,
}
use angellab.Lab.Conn.Window.{World, Op, tick, move, drop, reconnect, due, callback, step, run}
use angellab.Lab.Conn.Expiry.{expiry_not_early, window_expires}
use angellab.Lab.Conn.Reconnect.{reconnect_cancels, stale_callback_expires}

abbrev up : World
up = record {
  now = 100;
  link = record new_link { tracker = record new_link.tracker { state = active } };
}

boot :
    (run
      (record { now = 0; link = new_link })
      (move connecting ∷ move registered ∷ move active ∷ tick 100 ∷ [])).0
    ≡ up
unfolding run step transition valid_transition
boot = refl

flap : List Op
flap = tick recovery_window ∷ due 0 ∷ reconnect ∷ drop true ∷ callback 0 ∷ []

expiry_not_early_example : All (λ c. 100 + recovery_window ≤ c) (run (step up (drop true)).0 flap).1
expiry_not_early_example = expiry_not_early up true flap tt refl refl

window_expires_example :
    (run up (drop true ∷ tick recovery_window ∷ due 0 ∷ callback 0 ∷ [])).1
    ≡ (100 + recovery_window) ∷ []
window_expires_example = window_expires up recovery_window tt refl (omega arith)

down : World
unfolding step mark_lost
down = (step up (drop true)).0

reconnect_cancels_example : (run down (reconnect ∷ tick recovery_window ∷ due 0 ∷ [])).1 ≡ []
unfolding down
reconnect_cancels_example = reconnect_cancels down (tick recovery_window ∷ due 0 ∷ []) refl refl tt

stale_callback_expires_example :
    let ops = drop true ∷ tick recovery_window ∷ due 0 ∷ reconnect ∷ drop true ∷ callback 0 ∷ [] in
    ((run up ops).1 ≡ (100 + recovery_window) ∷ [])
    × ((run up ops).0.link.tracker.lost_at ≡ 100 + recovery_window)
stale_callback_expires_example = stale_callback_expires up tt refl
