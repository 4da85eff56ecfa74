-- ===== src/Registry/Recovery.antt =====
-- What the boot recovery relies on: rows by their key, and the rows of the last run.
use angellab.Prelude.{
  ◌+◌, ◌≡◌, refl, true, Option, none, some, List, [], ◌∷◌, ◌++◌, arith, bytes_eq, ◌==◌,
  if◌then◌else◌, ap, is_some, String, ℕ,
}
use angellab.Prelude.Sort.{sort_by}
use angellab.Registry.{
  AngelId, Registry, Angel, find, update, get_angel, increment_restarts, list_recoverable,
  mark_stale, mark_rows, stale, is_recoverable, is_terminated, select, state_created,
}

abbrev pub map_row : (Angel → Angel) → Option Angel → Option Angel
map_row f none = none
map_row f (some a) = some (f a)

-- a function that keeps the key
pub find-update :
    (f : Angel → Angel) (id other : AngelId) (rows : List Angel)
    → ((a : Angel) → (f a).id ≡ a.id)
    → find other (update f id rows)
      ≡ (if id == other then map_row f (find other rows) else find other rows)
find-update f id other [] keeps = ground arith
find-update f id other (a ∷ rest) keeps = ground (
  arith,
  keeps a,
  find-update f id other rest keeps,
  bytes_eq.eqb_iff a.id id,
  bytes_eq.eqb_iff a.id other,
  bytes_eq.eqb_iff id other,
)

pub find-append :
    (id : AngelId) (rows : List Angel) (a : Angel)
    → find id (rows ++ a ∷ []) ≡ (if is_some (find id rows) then find id rows else find id (a ∷ []))
find-append id [] a = ground arith
find-append id (b ∷ rows) a = ground (arith, find-append id rows a)

find-mark_rows :
    (now : ℕ) (id : AngelId) (rows : List Angel)
    → find id (mark_rows now rows)
      ≡ map_row (λ a. if is_terminated a.state then a else stale now a) (find id rows)
find-mark_rows now id [] = refl
find-mark_rows now id (a ∷ rest) = ground (arith, find-mark_rows now id rest)

select-mark_rows :
    (now : ℕ) (rows : List Angel)
    → ◌≡◌ {A = List Angel} (select (λ a. is_recoverable a.state) (mark_rows now rows)) []
select-mark_rows now [] = refl
select-mark_rows now (a ∷ rest) = ground (arith, select-mark_rows now rest)

-- `MarkStale` resets the row of every angel that was not terminated to CREATED without a process,
-- keeps the others as they were, and leaves nothing to recover.
mark_stale_resets :
    (now : ℕ) (r : Registry) (id : AngelId)
    → (get_angel id (mark_stale now r)
        ≡ map_row (λ a. if is_terminated a.state then a else stale now a) (get_angel id r))
      × (list_recoverable (mark_stale now r) ≡ [])
unfolding get_angel mark_stale list_recoverable
mark_stale_resets now r id = (
  find-mark_rows now id r.angels,
  ap (sort_by (λ a. a.created_at)) (select-mark_rows now r.angels),
)

abbrev pub or_else : Option Angel → Option Angel → Option Angel
or_else none b = b
or_else (some a) b = some a

abbrev pub new_row : ℕ → AngelId → String → String → Angel
new_row now id kind config = record {
  id = id;
  angel_type = kind;
  state = state_created;
  pid = 0;
  created_at = now;
  updated_at = now;
  restart_count = 0;
  last_seen = none;
  config_json = config;
}

-- `IncrementRestarts` answers with the new count of the row, which is one more than before.
pub increment_restarts_counts :
    (now : ℕ) (id : AngelId) (r : Registry) (a : Angel)
    → get_angel id r ≡ some a
    → let (r', count) = increment_restarts true true now id r in
      (count ≡ some (a.restart_count + 1))
      × (get_angel id r'
          ≡ some (record a { restart_count = a.restart_count + 1; updated_at = now }))
unfolding increment_restarts get_angel
increment_restarts_counts now id r a e = ground (
  arith,
  bytes_eq.eqb_iff id id,
  find-update (λ a. record a { restart_count = a.restart_count + 1; updated_at = now }) id id
      r.angels (λ a. refl),
)
