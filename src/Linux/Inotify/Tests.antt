-- ===== src/Linux/Inotify/Tests.antt =====
-- A watcher with one free place, and a buffer of three events, one of a watch that is gone.
use angellab.Prelude.{
  ℕ, ◌≡◌, refl, true, false, Option, none, some, List, [], ◌∷◌, arith, All, nat_eq, bytes_eq,
}
use angellab.Prelude.Text.{codes}
use angellab.Linux.Inotify.{Watcher, InotifyEvent, path, is_modify, add_watch, parse_events}
use angellab.Linux.Inotify.Buffers.{RawEvent, IsRaw, buffer, seen, HasSeen, parse_events-HasSeen}

abbrev watcher : Watcher
watcher = record {
  watches = (1, codes "/etc") ∷ [];
  paths = (codes "/etc", 1) ∷ [];
  events = [];
  room = 1;
  errors = [];
}

-- IN_CLOSE_WRITE of shadow, with two zero bytes to a multiple of four
abbrev written : RawEvent
written = record { wd = 1; mask = 8; cookie = 0; name = codes "shadow"; padding = 2 }

abbrev ignored : RawEvent
ignored = record { wd = 2; mask = 0x8000; cookie = 0; name = []; padding = 0 }

written-IsRaw : IsRaw written
written-IsRaw = record {
  wd_fits = omega arith;
  mask_fits = omega arith;
  name_fits = omega arith;
  name_plain = (refl, (refl, (refl, (refl, (refl, (refl, tt))))));
}

ignored-IsRaw : IsRaw ignored
ignored-IsRaw = record {
  wd_fits = omega arith;
  mask_fits = omega arith;
  name_fits = omega arith;
  name_plain = tt;
}

parse_events-HasSeen_example :
    (w' : Watcher) × (parse_events (buffer (written ∷ ignored ∷ written ∷ [])) watcher ≡ some w')
    × HasSeen watcher w' (seen watcher.watches (written ∷ ignored ∷ written ∷ []))
parse_events-HasSeen_example =
    parse_events-HasSeen (written ∷ ignored ∷ written ∷ []) watcher
      (written-IsRaw, (ignored-IsRaw, (written-IsRaw, tt)))

abbrev shadow : InotifyEvent
shadow = record { watch_path = codes "/etc"; name = codes "shadow"; mask = 8 }

shadow_path : path shadow ≡ codes "/etc/shadow"
unfolding path
shadow_path = refl

shadow_modified : is_modify shadow ≡ true
unfolding is_modify
shadow_modified = refl

-- two names of one file have one descriptor, and the later name takes its events
alias_takes_over : (add_watch (some 1) (codes "/a") watcher).0.watches ≡ (1, codes "/a") ∷ []
unfolding add_watch angellab.Prelude.Map.insert
alias_takes_over = refl
