-- ===== src/Linux/Inotify.antt =====
-- pkg/linux/inotify.go: the watches, and the parser of what is read from the descriptor, on a machine that
-- is little-endian. A watch descriptor is its 32 bits, so that -1 is the largest. The buffer of
-- Events is what a read finds: events that are in it, and free places. What the system calls do is an
-- argument; the sending of an error waits for its reader.
pub mod Buffers
mod Tests
use angellab.Prelude.{
  ℕ, zero, suc, ◌+◌, ◌*◌, ◌-◌, ◌/◌, ◌%◌, ◌^◌, Bool, true, false, not, ◌||◌, Option, none, some,
  List, [], ◌∷◌, ◌++◌, if◌then◌else◌, length, ltb, nat_beq, bytes_eq, nat_eq, ◌==◌,
}
use angellab.Prelude.Map.{Map, lookup, insert, delete}
use angellab.Prelude.Text.{Text}

pub record InotifyEvent : Type 0 where
  pub watch_path : Text
  pub name : Text
  pub mask : ℕ

-- filepath.Join, for a clean watch path other than "/"
unfoldable pub path : InotifyEvent → Text
path e = if e.name == [] then e.watch_path else e.watch_path ++ 47 ∷ e.name

-- e.Mask & (1 << k) != 0
abbrev pub has_bit : ℕ → ℕ → Bool
has_bit k mask = nat_beq (mask / 2 ^ k % 2) 1

unfoldable pub is_modify : InotifyEvent → Bool
is_modify e = has_bit 1 e.mask || has_bit 3 e.mask

unfoldable pub is_delete : InotifyEvent → Bool
is_delete e = has_bit 9 e.mask || has_bit 10 e.mask

unfoldable pub is_create : InotifyEvent → Bool
is_create e = has_bit 8 e.mask

pub record Watcher : Type 0 where
  pub watches : Map ℕ Text
  pub paths : Map Text ℕ
  pub events : List InotifyEvent
  pub room : ℕ
  pub errors : List Text  -- the paths whose events were dropped

-- `wd` is what inotify_add_watch answers
unfoldable pub add_watch : Option ℕ → Text → Watcher → Watcher × Bool
add_watch none p w = (w, false)
add_watch (some wd) p w =
    (record w { watches = insert wd p w.watches; paths = insert p wd w.paths }, true)

-- `removed` is what inotify_rm_watch answers
unfoldable pub remove_watch : Bool → Text → Watcher → Watcher × Bool
remove_watch removed p w = elim (lookup p w.paths) [
  | none ↦ (w, true)
  | some wd ↦
      if removed
      then (record w { watches = delete wd w.watches; paths = delete p w.paths }, true)
      else (w, false)
]

abbrev pub event_size : ℕ
event_size = 16

-- four bytes of the raw structure
abbrev pub uint32_le : List ℕ → ℕ
uint32_le (a ∷ b ∷ c ∷ d ∷ rest) = a + b * 2 ^ 8 + c * 2 ^ 16 + d * 2 ^ 24
uint32_le _ = 0

-- buf[:n] and the rest; `none` is a slice out of range
unfoldable pub cut : ℕ → List ℕ → Option (List ℕ × List ℕ)
cut zero buf = some ([], buf)
cut (suc n) [] = none
cut (suc n) (b ∷ buf) =
    let rest = cut n buf in elim rest [ none ↦ none | some p ↦ some (b ∷ p.0, p.1) ]

abbrev pub trimmed : ℕ → Text → Text
trimmed c [] = if nat_beq c 0 then [] else c ∷ []
trimmed c (d ∷ ds) = c ∷ d ∷ ds

-- strings.TrimRight(s, "\x00")
unfoldable pub trim_nul : Text → Text
trim_nul [] = []
trim_nul (c ∷ cs) = trimmed c (trim_nul cs)

-- select { case w.Events <- ev: default: w.Errors <- ... }
unfoldable pub deliver : InotifyEvent → Watcher → Watcher
deliver ev w = elim w.room [
  | zero ↦ record w { errors = w.errors ++ path ev ∷ [] }
  | suc free ↦ record w { events = w.events ++ ev ∷ []; room = free }
]

-- no path is the empty text
unfoldable pub notify : Option Text → Text → ℕ → Watcher → Watcher
notify none name mask w = w
notify (some p) name mask w =
    if p == [] then w else deliver (record { watch_path = p; name = name; mask = mask }) w

abbrev pub take_name : Watcher → ℕ → ℕ → Option (List ℕ × List ℕ) → Option (Watcher × List ℕ)
take_name w wd mask none = none
take_name w wd mask (some (name, rest)) =
    some (notify (lookup wd w.watches) (trim_nul name) mask w, rest)

-- one round of the loop, from a whole header on
abbrev pub take_event : Watcher → List ℕ → Option (Watcher × List ℕ)
take_event w (a ∷ b ∷ c ∷ d ∷ e ∷ f ∷ g ∷ h ∷ i ∷ j ∷ k ∷ l ∷ m ∷ n ∷ o ∷ p ∷ rest) =
    take_name w (uint32_le (a ∷ b ∷ c ∷ d ∷ [])) (uint32_le (e ∷ f ∷ g ∷ h ∷ []))
      (cut (uint32_le (m ∷ n ∷ o ∷ p ∷ [])) rest)
take_event w _ = some (w, [])

abbrev pub then_rest :
    Option (Watcher × List ℕ) → (Watcher → List ℕ → Option Watcher) → Option Watcher
then_rest none again = none
then_rest (some (w, rest)) again = again w rest

-- the loop; every round takes a header, so that the length of the buffer is fuel enough
unfoldable pub parse_from : ℕ → List ℕ → Watcher → Option Watcher
parse_from zero buf w = some w
parse_from (suc fuel) buf w =
    let again : Watcher → List ℕ → Option Watcher = λ w' rest. parse_from fuel rest w' in
    if ltb (length buf) event_size then some w else then_rest (take_event w buf) again

-- `parseEvents`; `none` is a panic
unfoldable pub parse_events : List ℕ → Watcher → Option Watcher
parse_events buf w = parse_from (suc (length buf)) buf w
