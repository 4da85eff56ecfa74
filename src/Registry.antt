-- ===== src/Registry.antt =====
-- pkg/registry/registry.go: the two tables behind the Lab. A method is its SQL statement: a table is
-- the list of its rows in the order of insertion, and `ORDER BY`, which leaves rows with equal keys
-- open, keeps that order among them. A statement can also fail for the database's own reasons (a
-- full disk, a lock): `ok` says whether it does not. Times are nanoseconds, identifiers are bytes.
pub mod Recovery
pub mod Recent
mod Tests
use angellab.Prelude.{
  ℕ, suc, ◌+◌, Bool, true, false, not, ◌||◌, ◌&&◌, Option, none, some, List, [], ◌∷◌, ◌++◌, String,
  if◌then◌else◌, bytes_eq, ◌==◌, is_some, take, length,
}
use angellab.Prelude.Sort.{sort_by}

abbrev pub AngelId : Type 0
AngelId = List ℕ

pub data AngelState : Type 0 where
  state_created state_training state_active : AngelState
  state_unstable state_contained state_terminated : AngelState

pub record Angel : Type 0 where
  pub id : AngelId
  pub angel_type : String
  pub state : AngelState
  pub pid : ℕ
  pub created_at : ℕ
  pub updated_at : ℕ
  pub restart_count : ℕ
  pub last_seen : Option ℕ
  pub config_json : String

pub record Event : Type 0 where
  pub row : ℕ
  pub angel_id : AngelId
  pub severity : String
  pub message : String
  pub meta_json : String
  pub occurred_at : ℕ

pub record Registry : Type 0 where
  pub angels : List Angel
  pub events : List Event
  pub next_row : ℕ

abbrev pub new_registry : Registry
new_registry = record { angels = []; events = []; next_row = 1 }

-- SELECT … FROM angels WHERE id = ?
abbrev pub find : AngelId → List Angel → Option Angel
find id [] = none
find id (a ∷ rest) = if a.id == id then some a else find id rest

-- UPDATE angels SET … WHERE id = ?
abbrev pub update : (Angel → Angel) → AngelId → List Angel → List Angel
update f id [] = []
update f id (a ∷ rest) = (if a.id == id then f a else a) ∷ update f id rest

unfoldable pub get_angel : AngelId → Registry → Option Angel
get_angel id r = find id r.angels

-- The primary key refuses a second row. The flag is `err == nil`.
unfoldable pub insert_angel : Bool → ℕ → AngelId → String → String → Registry → Registry × Bool
insert_angel ok now id kind config r =
    let row : Angel = record {
      id = id;
      angel_type = kind;
      state = state_created;
      pid = 0;
      created_at = now;
      updated_at = now;
      restart_count = 0;
      last_seen = none;
      config_json = config;
    } in
    if ok && not (is_some (find id r.angels))
    then (record r { angels = r.angels ++ row ∷ [] }, true)
    else (r, false)

unfoldable pub update_state : Bool → ℕ → AngelId → AngelState → Registry → Registry
update_state ok now id state r =
    if ok
    then record r {
      angels = update (λ a. record a { state = state; updated_at = now }) id r.angels;
    }
    else r

unfoldable pub update_pid : Bool → ℕ → AngelId → ℕ → Registry → Registry
update_pid ok now id pid r =
    if ok
    then record r { angels = update (λ a. record a { pid = pid; updated_at = now }) id r.angels }
    else r

unfoldable pub touch_last_seen : Bool → ℕ → AngelId → Registry → Registry
touch_last_seen ok now id r =
    if ok
    then record r {
      angels = update (λ a. record a { last_seen = some now; updated_at = now }) id r.angels;
    }
    else r

abbrev pub count_of : Option Angel → Option ℕ
count_of none = none
count_of (some a) = some a.restart_count

-- The flags: whether the UPDATE and the SELECT of the new value succeed. `none` is an error of either;
-- the row has been counted up all the same when only the SELECT fails.
unfoldable pub increment_restarts : Bool → Bool → ℕ → AngelId → Registry → Registry × Option ℕ
unfolding get_angel
increment_restarts false selects now id r = (r, none)
increment_restarts true selects now id r =
    let r' : Registry = record r {
      angels =
          update (λ a. record a { restart_count = a.restart_count + 1; updated_at = now }) id
            r.angels;
    } in
    (r', if selects then count_of (get_angel id r') else none)

unfoldable pub list_angels : Registry → List Angel
list_angels r = sort_by (λ a. a.created_at) r.angels

abbrev pub is_recoverable : AngelState → Bool
is_recoverable state_active = true
is_recoverable state_training = true
is_recoverable _ = false

abbrev pub is_terminated : AngelState → Bool
is_terminated state_terminated = true
is_terminated _ = false

abbrev pub select {ℓ} : {A : Type ℓ} → (A → Bool) → List A → List A
select p [] = []
select p (a ∷ rest) = let others = select p rest in if p a then a ∷ others else others

unfoldable pub list_recoverable : Registry → List Angel
list_recoverable r = sort_by (λ a. a.created_at) (select (λ a. is_recoverable a.state) r.angels)

abbrev pub stale : ℕ → Angel → Angel
stale now a = record a { state = state_created; pid = 0; updated_at = now }

abbrev pub mark_rows : ℕ → List Angel → List Angel
mark_rows now [] = []
mark_rows now (a ∷ rest) = (if is_terminated a.state then a else stale now a) ∷ mark_rows now rest

unfoldable pub mark_stale : ℕ → Registry → Registry
mark_stale now r = record r { angels = mark_rows now r.angels }

-- The foreign key asks for a row of the angel.
unfoldable pub insert_event :
    Bool → AngelId → String → String → String → ℕ → Registry → Registry × Bool
insert_event ok id severity message meta at r =
    let row : Event = record {
      row = r.next_row;
      angel_id = id;
      severity = severity;
      message = message;
      meta_json = meta;
      occurred_at = at;
    } in
    if ok && is_some (find id r.angels)
    then (record r { events = r.events ++ row ∷ []; next_row = suc r.next_row }, true)
    else (r, false)

-- the rows that the two queries range over
abbrev pub events_of : AngelId → List Event → List Event
events_of [] events = events
events_of (c ∷ cs) events = select (λ e. e.angel_id == (c ∷ cs)) events

abbrev pub reverse_onto {ℓ} : {A : Type ℓ} → List A → List A → List A
reverse_onto [] acc = acc
reverse_onto (x ∷ xs) acc = reverse_onto xs (x ∷ acc)

-- ORDER BY occurred_at DESC LIMIT n; no caller asks with a negative `n`
unfoldable pub list_events : AngelId → ℕ → Registry → List Event
list_events id n r = take n (reverse_onto (sort_by (λ e. e.occurred_at) (events_of id r.events)) [])
