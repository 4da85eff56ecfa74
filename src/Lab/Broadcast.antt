-- ===== src/Lab/Broadcast.antt =====
-- internal/lab/broadcaster.go: the subscribers of the event stream. A channel is its buffer, in order,
-- with its capacity. `cancel` is two steps, since `close` comes after the lock is released: a channel
-- that has left the table and is not closed yet is in `leaving`. `none` is a panic, a send on a closed
-- channel or a second close.
pub mod Delivery
mod Tests
use angellab.Prelude.{
  ℕ, ◌+◌, Bool, true, false, Option, none, some, List, [], ◌∷◌, ◌++◌, String, if◌then◌else◌, ltb,
  length, nat_eq,
}
use angellab.Prelude.Map.{Map, lookup, insert, delete}
use angellab.Registry.{AngelId}

-- the severity is a byte: 1 to 3 are INFO, WARN and CRIT
pub record EventPayload : Type 0 where
  pub angel_id : AngelId
  pub severity : ℕ
  pub message : String
  pub timestamp : ℕ
  pub meta : Map String String

pub record Channel : Type 0 where
  pub buffer : List EventPayload
  pub capacity : ℕ
  pub closed : Bool

pub record Broadcaster : Type 0 where
  pub subs : Map ℕ Channel
  pub leaving : Map ℕ Channel
  pub seq : ℕ

abbrev pub new_broadcaster : Broadcaster
new_broadcaster = record { subs = []; leaving = []; seq = 0 }

unfoldable pub subscribe : ℕ → Broadcaster → Broadcaster × ℕ
subscribe buf_size b =
    let id = b.seq + 1 in
    (
      record b {
        seq = id;
        subs = insert id (record { buffer = []; capacity = buf_size; closed = false }) b.subs;
      },
      id,
    )

-- delete(b.subs, id)
unfoldable pub leave : ℕ → Broadcaster → Broadcaster
leave id b = elim (lookup id b.subs) [
  | none ↦ b
  | some ch ↦ record b { subs = delete id b.subs; leaving = insert id ch b.leaving }
]

-- close(ch)
unfoldable pub close : ℕ → Broadcaster → Option Broadcaster
close id b = elim (lookup id b.leaving) [
  | none ↦ some b
  | some ch ↦
      if ch.closed
      then none
      else some (record b { leaving = insert id (record ch { closed = true }) b.leaving })
]

-- select { case ch <- ev: default: }
unfoldable pub offer : EventPayload → Channel → Option Channel
offer ev ch =
    if ch.closed
    then none
    else if ltb (length ch.buffer) ch.capacity
    then some (record ch { buffer = ch.buffer ++ ev ∷ [] })
    else some ch

infixl 5 ◌>>=◌
abbrev pub ◌>>=◌ {ℓ κ} : {A : Type ℓ} {B : Type κ} → Option A → (A → Option B) → Option B
none >>= f = none
some a >>= f = f a

-- the loop of `Publish`
unfoldable pub offer_all : EventPayload → Map ℕ Channel → Option (Map ℕ Channel)
offer_all ev [] = some []
offer_all ev ((id, ch) ∷ rest) = do
  ch' ← offer ev ch
  rest' ← offer_all ev rest
  some ((id, ch') ∷ rest')

unfoldable pub publish : EventPayload → Broadcaster → Option Broadcaster
publish ev b = do subs ← offer_all ev b.subs; some (record b { subs = subs })

abbrev pub received : Channel → Channel
received ch = elim ch.buffer [ [] ↦ ch | ◌∷◌ ev rest ↦ record ch { buffer = rest } ]

-- ev, ok := <-ch by a subscriber
unfoldable pub receive : ℕ → Broadcaster → Broadcaster
receive id b = elim (lookup id b.subs) [
  | none ↦ b
  | some ch ↦ record b { subs = insert id (received ch) b.subs }
]
