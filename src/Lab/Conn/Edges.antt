-- ===== src/Lab/Conn/Edges.antt =====
-- The transition table against the diagram in the file's header comment.
use angellab.Prelude.{◌≡◌, refl, ◌↔◌, ◌⊎◌, true, arith}
use angellab.Lab.Conn.{
  none, Link, ConnState, disconnected, connecting, registered, active, lost, recovering,
  valid_transition,
}
use angellab.Lab.Conn.Window.{World, Op, tick, move, drop, reconnect, restart, due, callback}

-- the arrows that the table allows
infix 40 ◌⟶◌
pub data ◌⟶◌ : ConnState → ConnState → Type 0 where
  spawned : disconnected ⟶ connecting
  register : connecting ⟶ registered
  drop_early : connecting ⟶ lost
  drop_early_window : connecting ⟶ recovering
  first_heartbeat : registered ⟶ active
  drop_registered : registered ⟶ lost
  drop_registered_window : registered ⟶ recovering
  drop_active : active ⟶ lost
  drop_active_window : active ⟶ recovering
  open_window : lost ⟶ recovering
  respawn_lost : lost ⟶ connecting
  come_back : recovering ⟶ registered
  respawn : recovering ⟶ connecting

ruleset edges = (
  spawned, register, drop_early, drop_early_window, first_heartbeat, drop_registered,
  drop_registered_window, drop_active, drop_active_window, open_window, respawn_lost, come_back,
  respawn,
)

edge_of_valid : (s t : ConnState) → valid_transition s t ≡ true → s ⟶ t
unfolding valid_transition
edge_of_valid s t h = grind (arith, edges)

valid_of_edge : {s t : ConnState} → s ⟶ t → valid_transition s t ≡ true
unfolding valid_transition
valid_of_edge spawned = refl
valid_of_edge _ = refl

-- `validTransition` accepts exactly the arrows of the diagram.
valid_transition_iff : (s t : ConnState) → (valid_transition s t ≡ true) ↔ (s ⟶ t)
valid_transition_iff s t = (edge_of_valid s t, valid_of_edge)

-- How one operation moves a link. A transition and a drop go by the diagram: a drop moves exactly the
-- states that have an arrow to LOST, in one go to RECOVERING. A registration and a restart are not
-- looked up in the table.
abbrev pub Follows : World → Op → Link → Type 0
Follows w (move s) l =
    ((w.link.tracker.state ⟶ s)
      × (l ≡ record w.link { tracker = record w.link.tracker { state = s } }))
    ⊎ (¬ (w.link.tracker.state ⟶ s) × (l ≡ w.link))
Follows w (drop cb) l =
    ((w.link.tracker.state ⟶ lost) × (l.tracker.state ≡ recovering) × (l.tracker.lost_at ≡ w.now))
    ⊎ (¬ (w.link.tracker.state ⟶ lost) × (l ≡ w.link))
Follows w reconnect l = (l.tracker.state ≡ registered) × (l.tracker.recovery_timer ≡ none)
Follows w restart l = (l.tracker.state ≡ connecting) × (l.tracker.recovery_timer ≡ none)
Follows w (tick d) l = l ≡ w.link
Follows w (due k) l = l.tracker ≡ w.link.tracker
Follows w (callback k) l = l.tracker ≡ w.link.tracker
