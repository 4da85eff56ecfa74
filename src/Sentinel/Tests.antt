-- ===== src/Sentinel/Tests.antt =====
-- A host that learns one server in training, and meets another one afterwards.
use angellab.Prelude.{
  ℕ, ◌+◌, ◌≤◌, ◌<◌, ◌≡◌, ◌≢◌, ◌⊎◌, refl, Bool, true, false, ◌||◌, ◌&&◌, none, some, List, [], ◌∷◌,
  ◌++◌, arith, All, length, min, leb, nat_beq,
}
use angellab.Net.{Ip, is_loopback, to4, equal}
use angellab.Linux.NetConn.{NetConn, tcp_established, is_outbound, is_established}
use angellab.Sentinel.Baseline.{OutboundConn, Baseline, new_baseline, freeze, compact_key}
use angellab.Sentinel.Baseline.Learning.{HasLearned, observe_all, trained_model}
use angellab.Sentinel.Dedup.{Deduplicator, new_deduplicator, is_new, judge}
use angellab.Sentinel.Dedup.Size.{IsSound}
use angellab.Sentinel.Dedup.Repeats.{feed, no_repeat_within_ttl}
use angellab.Sentinel.Rate.{RateTracker, new_rate_tracker, add, max_tracker_events}
use angellab.Sentinel.Rate.Window.{live, in_window, IsBounded, add_counts}
use angellab.Sentinel.Scorer.{new_scorer}
use angellab.Sentinel.Poll.{Alert, Sentinel, training, active, poll, outbound_conn}
use angellab.Sentinel.Poll.Training.{is_none, reaches_scorer, training_poll_crashes}
use angellab.Sentinel.Poll.Active.{Polled, active_poll}

abbrev socket_to : Ip → ℕ → NetConn
socket_to ip port = record {
  local_ip = 192 ∷ 168 ∷ 0 ∷ 2 ∷ [];
  local_port = 40000;
  remote_ip = ip;
  remote_port = port;
  state = tcp_established;
  inode = 77;
  proto = "tcp";
}

abbrev dns_ip : Ip
dns_ip = 8 ∷ 8 ∷ 8 ∷ 8 ∷ []

abbrev strange_ip : Ip
strange_ip = 203 ∷ 0 ∷ 113 ∷ 5 ∷ []

abbrev dns : OutboundConn
dns = outbound_conn (socket_to dns_ip 443)

abbrev strange : OutboundConn
strange = outbound_conn (socket_to strange_ip 60001)

abbrev local : OutboundConn
local = outbound_conn (socket_to (127 ∷ 0 ∷ 0 ∷ 1 ∷ []) 8080)

abbrev trained : Baseline
trained = record new_baseline {
  known_ips = (dns_ip, tt) ∷ [];
  known_ports = (443, tt) ∷ [];
  max_concurrent = 1;
  samples = 2;
  frozen = true;
}

abbrev quiet_rate : RateTracker
quiet_rate = new_rate_tracker 60

abbrev fresh_dedup : Deduplicator
fresh_dedup = record (new_deduplicator 0) { ttl = 10 }

fresh_dedup-IsSound : IsSound fresh_dedup
fresh_dedup-IsSound = record { small = omega arith; distinct = tt }

quiet_rate-IsBounded : IsBounded quiet_rate
quiet_rate-IsBounded = record {
  start_in = omega arith;
  live_capped = omega arith;
  compacted = omega arith;
}

abbrev sentinel_active : Sentinel
sentinel_active = record {
  phase = active;
  baseline = trained;
  scorer = some new_scorer;
  dedup = fresh_dedup;
  rate_track = quiet_rate;
  total_events_emitted = 0;
  last_poll_count = 0;
}

abbrev sentinel_training : Sentinel
sentinel_training = record sentinel_active {
  phase = training;
  baseline = new_baseline;
  scorer = none;
}

trained_model_example :
    HasLearned ((dns ∷ []) ∷ [] ∷ []) new_baseline (
      observe_all
        ((strange ∷ []) ∷ [])
        (freeze 9 (observe_all ((dns ∷ []) ∷ [] ∷ []) new_baseline)))
trained_model_example = trained_model ((dns ∷ []) ∷ [] ∷ []) ((strange ∷ []) ∷ []) 9

no_repeat_within_ttl_example :
    (is_new dns 15 (feed ((strange, 6) ∷ (local, 7) ∷ []) (is_new dns 5 fresh_dedup).0)).1 ≡ false
unfolding is_new angellab.Prelude.Map.lookup
no_repeat_within_ttl_example =
    no_repeat_within_ttl dns 5 fresh_dedup ((strange, 6) ∷ (local, 7) ∷ []) 15 fresh_dedup-IsSound
      (omega arith) refl (omega arith, (omega arith, tt)) (omega arith)

abbrev dns_seen : Deduplicator
dns_seen = record fresh_dedup { seen = (compact_key dns, 5) ∷ [] }

abbrev busy_rate : RateTracker
busy_rate = record quiet_rate { events = 1 ∷ 30 ∷ 70 ∷ [] }

busy_rate-IsBounded : IsBounded busy_rate
busy_rate-IsBounded = record {
  start_in = omega arith;
  live_capped = omega arith;
  compacted = omega arith;
}

add_counts_example :
    (add 80 busy_rate).1 ≡ min (in_window 60 80 (live busy_rate) + 1) max_tracker_events
add_counts_example =
    add_counts 80 busy_rate busy_rate-IsBounded
      ((omega arith, (omega arith, tt)), ((omega arith, tt), (tt, tt)))

active_poll_example :
    (r : Sentinel) × (sent : List Alert) × (poll [] 5
        ((socket_to strange_ip 60001, 6) ∷ [])
        sentinel_active
      ≡ some (r, sent))
    × Polled sentinel_active r sent
active_poll_example =
    active_poll sentinel_active new_scorer [] 5 ((socket_to strange_ip 60001, 6) ∷ []) refl refl

abbrev local_socket : NetConn × ℕ
local_socket = (socket_to (127 ∷ 0 ∷ 0 ∷ 1 ∷ []) 5432, 6)

abbrev host_sockets : List (NetConn × ℕ)
host_sockets = (socket_to dns_ip 0, 6) ∷ local_socket ∷ (socket_to dns_ip 443, 6) ∷ []

training_poll_crashes_example :
    is_none (poll [] 5 host_sockets sentinel_training)
    ≡ reaches_scorer 5 sentinel_training.dedup host_sockets
training_poll_crashes_example = training_poll_crashes sentinel_training [] 5 host_sockets refl

-- the loopback connection is survived, the one to the DNS server is not
training_poll_hit :
    (reaches_scorer 5 sentinel_training.dedup (local_socket ∷ []) ≡ false)
    × (reaches_scorer 5 sentinel_training.dedup host_sockets ≡ true)
unfolding is_outbound is_established is_new judge is_loopback compact_key equal
    angellab.Prelude.Map.lookup to4 angellab.Sentinel.Dedup.cap_size
    angellab.Sentinel.Dedup.count_call angellab.Prelude.Map.insert angellab.Sentinel.Baseline.ip_key
training_poll_hit = (refl, refl)
