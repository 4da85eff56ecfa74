-- ===== src/Registry/Tests.antt =====
-- A registry with two angels and a few events.
use angellab.Prelude.{ℕ, ◌≡◌, refl, some, [], ◌∷◌, bytes_eq}
use angellab.Registry.{
  Registry, Angel, Event, state_active, state_terminated, new_registry, list_events, events_of,
}
use angellab.Registry.Recent.{AreMostRecent, list_events-AreMostRecent}

abbrev guard : Angel
guard = record {
  id = 71 ∷ [];
  angel_type = "guardian";
  state = state_active;
  pid = 41;
  created_at = 5;
  updated_at = 9;
  restart_count = 2;
  last_seen = some 9;
  config_json = "";
}

abbrev old : Angel
old = record guard { id = 79 ∷ []; state = state_terminated; created_at = 3 }

abbrev event_at : ℕ → ℕ → Event
event_at n t = record {
  row = n;
  angel_id = guard.id;
  severity = "WARN";
  message = "m";
  meta_json = "";
  occurred_at = t;
}

abbrev two_angels : Registry
two_angels = record new_registry {
  angels = guard ∷ old ∷ [];
  events = event_at 1 10 ∷ event_at 2 30 ∷ event_at 3 20 ∷ [];
}

list_events-AreMostRecent_example :
    AreMostRecent 2 (list_events (71 ∷ []) 2 two_angels) (events_of (71 ∷ []) two_angels.events)
list_events-AreMostRecent_example = list_events-AreMostRecent (71 ∷ []) 2 two_angels

listed : list_events (71 ∷ []) 2 two_angels ≡ event_at 2 30 ∷ event_at 3 20 ∷ []
unfolding list_events
listed = refl
