-- ===== src/Lab/Broadcast/Delivery.antt =====
-- Publishing in every state that the daemon can reach.
use angellab.Prelude.{
  ℕ, ◌≡◌, refl, sym, ◌∙◌, false, Option, none, some, List, [], ◌∷◌, ◌++◌, arith, if◌then◌else◌, ltb,
  length, nat_eq, All, Bool-cases, Option-cases, inl, inr, ◌==◌,
}
use angellab.Prelude.Map.{Map, lookup, insert, delete}
use angellab.Lab.Broadcast.{
  Broadcaster, Channel, EventPayload, new_broadcaster, subscribe, leave, close, offer, offer_all,
  publish, receive, received,
}

-- One step of anyone who uses the broadcaster; who subscribes cancels and closes its own channel.
infix 40 ◌⟶◌
pub data ◌⟶◌ : Broadcaster → Broadcaster → Type 0 where
  subscribes : {b : Broadcaster} (n : ℕ) → b ⟶ (subscribe n b).0
  leaves : {b : Broadcaster} (id : ℕ) → b ⟶ leave id b
  closes : {b b' : Broadcaster} (id : ℕ) → close id b ≡ some b' → b ⟶ b'
  publishes : {b b' : Broadcaster} (ev : EventPayload) → publish ev b ≡ some b' → b ⟶ b'
  receives : {b : Broadcaster} (id : ℕ) → b ⟶ receive id b

-- a state of the running daemon
pub data Reachable : Broadcaster → Type 0 where
  fresh : Reachable new_broadcaster
  after : {b b' : Broadcaster} → Reachable b → b ⟶ b' → Reachable b'

abbrev IsOpen : ℕ × Channel → Type 0
IsOpen (id, ch) = ch.closed ≡ false

insert-All :
    (id : ℕ) (ch : Channel) (m : Map ℕ Channel)
    → ch.closed ≡ false
    → All IsOpen m
    → All IsOpen (insert id ch m)
unfolding insert
insert-All id ch [] is_open h = (is_open, tt)
insert-All id ch ((i, c) ∷ m) is_open (first, h) = elim (Bool-cases (i == id)) [
  | inl same ↦ rw same (is_open, h)
  | inr other ↦ rw other (first, insert-All id ch m is_open h)
]

delete-All : (id : ℕ) (m : Map ℕ Channel) → All IsOpen m → All IsOpen (delete id m)
unfolding delete
delete-All id [] h = tt
delete-All id ((i, c) ∷ m) (first, h) = elim (Bool-cases (i == id)) [
  | inl same ↦ rw same (delete-All id m h)
  | inr other ↦ rw other (first, delete-All id m h)
]

lookup-All :
    (id : ℕ) (ch : Channel) (m : Map ℕ Channel)
    → lookup id m ≡ some ch
    → All IsOpen m
    → ch.closed ≡ false
unfolding lookup
lookup-All id ch [] e h = absurd (cc)
lookup-All id ch ((i, c) ∷ m) e (first, h) = ground (arith, lookup-All id ch m)

-- what a subscriber's channel holds after an event: a full one drops it
abbrev pub given : EventPayload → Channel → Channel
given ev ch =
    if ltb (length ch.buffer) ch.capacity then record ch { buffer = ch.buffer ++ ev ∷ [] } else ch

offer_open :
    (ev : EventPayload) (ch : Channel) → ch.closed ≡ false → offer ev ch ≡ some (given ev ch)
unfolding offer
offer_open ev ch is_open = ground arith

give_all : EventPayload → Map ℕ Channel → Map ℕ Channel
give_all ev [] = []
give_all ev ((id, ch) ∷ rest) = (id, given ev ch) ∷ give_all ev rest

offer_all-open :
    (ev : EventPayload) (m : Map ℕ Channel) → All IsOpen m → offer_all ev m ≡ some (give_all ev m)
unfolding offer_all give_all
offer_all-open ev [] h = refl
offer_all-open ev ((id, ch) ∷ rest) (first, h) =
    rw (offer_open ev ch first, offer_all-open ev rest h) refl

closed-given : (ev : EventPayload) (ch : Channel) → (given ev ch).closed ≡ ch.closed
closed-given ev ch = ground arith

give_all-All : (ev : EventPayload) (m : Map ℕ Channel) → All IsOpen m → All IsOpen (give_all ev m)
unfolding give_all
give_all-All ev [] h = tt
give_all-All ev ((id, ch) ∷ rest) (first, h) = (closed-given ev ch ∙ first, give_all-All ev rest h)

publish_open :
    (ev : EventPayload) (b : Broadcaster)
    → All IsOpen b.subs
    → publish ev b ≡ some (record b { subs = give_all ev b.subs })
unfolding publish
publish_open ev b h = rw (offer_all-open ev b.subs h) refl

leave-All : (id : ℕ) (b : Broadcaster) → All IsOpen b.subs → All IsOpen (leave id b).subs
unfolding leave
leave-All id b h = elim (Option-cases (lookup id b.subs)) [
  | inl missing ↦ rw (missing, leave) h
  | inr (ch, found) ↦ rw (found, leave) (delete-All id b.subs h)
]

closed-received : (ch : Channel) → (received ch).closed ≡ ch.closed
closed-received ch = go ch.buffer refl
  where
    go : (l : List EventPayload) → ch.buffer ≡ l → (received ch).closed ≡ ch.closed
    go [] e = rw (e, received) refl
    go (ev ∷ rest) e = rw (e, received) refl

receive-All : (id : ℕ) (b : Broadcaster) → All IsOpen b.subs → All IsOpen (receive id b).subs
unfolding receive
receive-All id b h = elim (Option-cases (lookup id b.subs)) [
  | inl missing ↦ rw (missing, receive) h
  | inr (ch, found) ↦
      rw (found, receive)
        (insert-All id (received ch) b.subs (closed-received ch ∙ lookup-All id ch b.subs found h)
          h)
]

subs-close : (id : ℕ) (b b' : Broadcaster) → close id b ≡ some b' → b'.subs ≡ b.subs
unfolding close
subs-close id b b' e = ground arith

step-All : {b b' : Broadcaster} → b ⟶ b' → All IsOpen b.subs → All IsOpen b'.subs
step-All (subscribes {b = b} n) h = unfold subscribe in insert-All _ _ b.subs refl h
step-All (leaves {b = b} id) h = leave-All id b h
step-All (closes {b = b} {b' = b'} id e) h = rw (subs-close id b b' e) h
step-All (publishes {b = b} {b' = b'} ev e) h =
    let same : some b' ≡ some (record b { subs = give_all ev b.subs }) =
      sym e ∙ publish_open ev b h in
    let same' : b' ≡ record b { subs = give_all ev b.subs } = ground (arith, same) in
    rw same' (give_all-All ev b.subs h)
step-All (receives {b = b} id) h = receive-All id b h

reachable-All : {b : Broadcaster} → Reachable b → All IsOpen b.subs
reachable-All fresh = tt
reachable-All (after r s) = step-All s (reachable-All r)

abbrev pub map_channel : (Channel → Channel) → Option Channel → Option Channel
map_channel f none = none
map_channel f (some ch) = some (f ch)

lookup-give_all :
    (ev : EventPayload) (id : ℕ) (m : Map ℕ Channel)
    → lookup id (give_all ev m) ≡ map_channel (given ev) (lookup id m)
unfolding give_all lookup
lookup-give_all ev id [] = refl
lookup-give_all ev id ((i, ch) ∷ m) = ground (arith, lookup-give_all ev id m)

-- In every reachable state `Publish` returns without a panic, however subscribers come, go and close
-- their channels between: each subscriber of the table gets the event at the end of its channel if
-- there is room, keeps its channel as it is if not, and no other subscriber matters to it.
pub publish_delivers :
    (b : Broadcaster) (ev : EventPayload) (id : ℕ)
    → Reachable b
    → (b' : Broadcaster) × (publish ev b ≡ some b')
      × (lookup id b'.subs ≡ map_channel (given ev) (lookup id b.subs))
publish_delivers b ev id r = (
  record b { subs = give_all ev b.subs },
  publish_open ev b (reachable-All r),
  lookup-give_all ev id b.subs,
)
