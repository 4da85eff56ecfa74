-- ===== src/Lab/Broadcast/Tests.antt =====
-- Two subscribers, one of which has gone and closed its channel.
use angellab.Prelude.{[], ◌∷◌, nat_eq}
use angellab.Lab.Broadcast.{Broadcaster, EventPayload, new_broadcaster, subscribe, leave}
use angellab.Lab.Broadcast.Delivery.{Reachable, fresh, after, subscribes, leaves}

abbrev event : EventPayload
event = record { angel_id = 65 ∷ []; severity = 2; message = "m"; timestamp = 3; meta = [] }

abbrev two : Broadcaster
unfolding subscribe
two = (subscribe 1 (subscribe 1 new_broadcaster).0).0

abbrev one_left : Broadcaster
unfolding leave
one_left = leave 1 two

one_left-Reachable : Reachable one_left
unfolding subscribe leave
one_left-Reachable = after (after (after fresh (subscribes 1)) (subscribes 1)) (leaves 1)
