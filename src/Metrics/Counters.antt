-- ===== src/Metrics/Counters.antt =====
-- What the counters count.
use angellab.Prelude.{
  ℕ, ◌+◌, ◌≡◌, none, some, List, [], ◌∷◌, arith, inl, inr, Option-cases, if◌then◌else◌, bytes_eq,
  ◌==◌,
}
use angellab.Prelude.Map.{lookup}
use angellab.Prelude.Map.Laws.{lookup-insert}
use angellab.Prelude.Text.{Text}
use angellab.Metrics.{Registry, event_key, counter_or_new, increment_event}

-- one call of `IncrementEvent`
pub record Emitted : Type 0 where
  pub angel_id : Text
  pub angel_type : Text
  pub severity : Text

unfoldable pub increment_all : List Emitted → Registry → Registry
increment_all [] r = r
increment_all (e ∷ es) r = increment_all es (increment_event e.angel_id e.angel_type e.severity r)

abbrev pub total_at : Text → Registry → ℕ
total_at key r = elim (lookup key r.events) [ none ↦ 0 | some e ↦ e.total ]

abbrev pub count_key : Text → List Emitted → ℕ
count_key key [] = 0
count_key key (e ∷ es) =
    (if event_key e.angel_id e.severity == key then 1 else 0) + count_key key es

total-increment :
    (e : Emitted) (r : Registry) (key : Text)
    → total_at key (increment_event e.angel_id e.angel_type e.severity r)
      ≡ total_at key r + (if event_key e.angel_id e.severity == key then 1 else 0)
unfolding increment_event
total-increment e r key =
    let k = event_key e.angel_id e.severity in
    elim (Option-cases (lookup k r.events)) [
      | inl new ↦ ground (
        arith,
        new,
        lookup-insert k key
            (record (counter_or_new e.angel_id e.angel_type e.severity none) { total = 0 + 1 })
            r.events,
        bytes_eq.eqb_iff k key,
      )
      | inr (old, found) ↦ ground (
        arith,
        found,
        lookup-insert k key (record old { total = old.total + 1 }) r.events,
        bytes_eq.eqb_iff k key,
      )
    ]

-- A counter holds as many events as have been recorded under its key, whatever the order of the calls.
total-increment_all :
    (es : List Emitted) (r : Registry) (key : Text)
    → total_at key (increment_all es r) ≡ total_at key r + count_key key es
unfolding increment_all
total-increment_all [] r key = omega arith
total-increment_all (e ∷ es) r key = omega (
  arith,
  total-increment e r key,
  total-increment_all es (increment_event e.angel_id e.angel_type e.severity r) key,
)
