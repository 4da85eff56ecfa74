-- ===== src/Metrics/Tests.antt =====
-- Two events of one angel, and a line with a quote in a label.
use angellab.Prelude.{◌≡◌, refl, [], ◌∷◌, bytes_eq}
use angellab.Prelude.Text.{codes}
use angellab.Metrics.{Registry, new_registry}
use angellab.Metrics.Exposition.{
  known_labels, other_labels, write_line, handler, other_method, method_not_allowed,
}
use angellab.Metrics.Counters.{Emitted, increment_all, total_at}

abbrev alarm : Emitted
alarm = record { angel_id = codes "G-01"; angel_type = codes "guardian"; severity = codes "CRIT" }

two_alarms : total_at (codes "G-01:CRIT") (increment_all (alarm ∷ alarm ∷ []) new_registry) ≡ 2
unfolding increment_all angellab.Prelude.Map.lookup angellab.Metrics.increment_event
    angellab.Prelude.Map.insert
two_alarms = refl

ordered_and_quoted :
    write_line
      (codes "up")
      ((codes "severity", codes "a\"b") ∷ (codes "angel_id", codes "x") ∷ [])
      (codes "1")
    ≡ codes "up{angel_id=\"x\",severity=\"a\\\"b\"} 1\n"
unfolding write_line known_labels angellab.Prelude.Map.lookup other_labels
ordered_and_quoted = refl

post_refused : handler [] other_method new_registry ≡ method_not_allowed
unfolding handler
post_refused = refl
