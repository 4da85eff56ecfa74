-- ===== src/Sentinel/Baseline/Learning.antt =====
-- What a baseline knows after training, and that it knows the same for ever after.
use angellab.Prelude.{
  ◌∙◌, ℕ, ◌+◌, ◌≡◌, refl, Bool, true, false, ◌||◌, List, [], ◌∷◌, arith, max, length, ltb,
  if◌then◌else◌, ◌==◌, bytes_eq, nat_eq,
}
use angellab.Prelude.Map
use angellab.Prelude.Map.{has}
use angellab.Prelude.Map.Laws.{lookup-insert}
use angellab.Net.{Ip}
use angellab.Sentinel.Baseline.{
  Baseline, OutboundConn, new_baseline, ip_key, learn, observe, freeze, knows_ip, knows_port,
}

-- some connection of the batch has this address key, or this port
abbrev pub any_ip : List ℕ → List OutboundConn → Bool
any_ip key [] = false
any_ip key (c ∷ cs) = ip_key c.remote_ip == key || any_ip key cs

abbrev pub any_port : ℕ → List OutboundConn → Bool
any_port port [] = false
any_port port (c ∷ cs) = c.remote_port == port || any_port port cs

has-insert_ip :
    (k j : List ℕ) (b : Baseline)
    → has j (Map.insert k tt b.known_ips) ≡ (k == j || has j b.known_ips)
has-insert_ip k j b = ground (arith, lookup-insert k j tt b.known_ips)

has-insert_port :
    (k j : ℕ) (b : Baseline)
    → has j (Map.insert k tt b.known_ports) ≡ (k == j || has j b.known_ports)
has-insert_port k j b = ground (arith, lookup-insert k j tt b.known_ports)

learn-knows_ip :
    (cs : List OutboundConn) (b : Baseline) (ip : Ip)
    → knows_ip (learn cs b) ip ≡ (any_ip (ip_key ip) cs || knows_ip b ip)
unfolding learn knows_ip
learn-knows_ip [] b ip = refl
learn-knows_ip (c ∷ cs) b ip = ground (
  arith,
  has-insert_ip (ip_key c.remote_ip) (ip_key ip) b,
  learn-knows_ip cs
      (record b {
        known_ips = Map.insert (ip_key c.remote_ip) tt b.known_ips;
        known_ports = Map.insert c.remote_port tt b.known_ports;
      })
      ip,
)

learn-knows_port :
    (cs : List OutboundConn) (b : Baseline) (port : ℕ)
    → knows_port (learn cs b) port ≡ (any_port port cs || knows_port b port)
unfolding learn knows_port
learn-knows_port [] b port = refl
learn-knows_port (c ∷ cs) b port = ground (
  arith,
  has-insert_port c.remote_port port b,
  learn-knows_port cs
      (record b {
        known_ips = Map.insert (ip_key c.remote_ip) tt b.known_ips;
        known_ports = Map.insert c.remote_port tt b.known_ports;
      })
      port,
)

-- the loop touches nothing but the two sets
learn_rest :
    (cs : List OutboundConn) (b : Baseline)
    → ((learn cs b).max_concurrent ≡ b.max_concurrent)
      × ((learn cs b).samples ≡ b.samples)
      × ((learn cs b).frozen ≡ b.frozen)
unfolding learn
learn_rest [] b = (refl, refl, refl)
learn_rest (c ∷ cs) b = learn_rest cs (record b {
  known_ips = Map.insert (ip_key c.remote_ip) tt b.known_ips;
  known_ports = Map.insert c.remote_port tt b.known_ports;
})

-- the snapshots of the poll cycles, in order
unfoldable pub observe_all : List (List OutboundConn) → Baseline → Baseline
observe_all [] b = b
observe_all (cs ∷ rest) b = observe_all rest (observe cs b)

abbrev pub any_batch_ip : List ℕ → List (List OutboundConn) → Bool
any_batch_ip key [] = false
any_batch_ip key (cs ∷ rest) = any_ip key cs || any_batch_ip key rest

abbrev pub any_batch_port : ℕ → List (List OutboundConn) → Bool
any_batch_port port [] = false
any_batch_port port (cs ∷ rest) = any_port port cs || any_batch_port port rest

abbrev pub longest : List (List OutboundConn) → ℕ
longest [] = 0
longest (cs ∷ rest) = max (length cs) (longest rest)

-- What a baseline `b` holds beyond `a` after the batches `bs`.
pub record HasLearned (bs : List (List OutboundConn)) (a b : Baseline) : Type 0 where
  pub ips : (ip : Ip) → knows_ip b ip ≡ (any_batch_ip (ip_key ip) bs || knows_ip a ip)
  pub ports : (port : ℕ) → knows_port b port ≡ (any_batch_port port bs || knows_port a port)
  pub peak : b.max_concurrent ≡ max (longest bs) a.max_concurrent
  pub polls : b.samples ≡ length bs + a.samples

-- the counters of one poll
abbrev polled : List OutboundConn → Baseline → Baseline
polled cs b = record b {
  samples = b.samples + 1;
  max_concurrent = if ltb b.max_concurrent (length cs) then length cs else b.max_concurrent;
}

observe_when_live :
    (cs : List OutboundConn) (b : Baseline)
    → b.frozen ≡ false
    → observe cs b ≡ learn cs (polled cs b)
unfolding observe
observe_when_live cs b live = ground arith

observe_when_frozen : (cs : List OutboundConn) (b : Baseline) → b.frozen ≡ true → observe cs b ≡ b
unfolding observe
observe_when_frozen cs b frozen = ground arith

observe_live :
    (cs : List OutboundConn) (b : Baseline)
    → b.frozen ≡ false
    → HasLearned (cs ∷ []) b (observe cs b) × ((observe cs b).frozen ≡ false)
unfolding knows_ip knows_port
observe_live cs b live =
    let (peak, polls, frozen) = learn_rest cs (polled cs b) in
    rw (observe_when_live cs b live) (
      record {
        ips = λ ip. ground (arith, learn-knows_ip cs (polled cs b) ip);
        ports = λ port. ground (arith, learn-knows_port cs (polled cs b) port);
        peak = ground (arith, peak);
        polls = omega (arith, polls);
      },
      frozen ∙ live,
    )

observe_all_live :
    (bs : List (List OutboundConn)) (b : Baseline)
    → b.frozen ≡ false
    → HasLearned bs b (observe_all bs b)
unfolding observe_all
observe_all_live [] b live = record {
  ips = λ ip. refl;
  ports = λ port. refl;
  peak = omega arith;
  polls = omega arith;
}
observe_all_live (cs ∷ rest) b live =
    let (one, live') = observe_live cs b live in
    let all = observe_all_live rest (observe cs b) live' in
    record {
      ips = λ ip. ground (arith, one.ips ip, all.ips ip);
      ports = λ port. ground (arith, one.ports port, all.ports port);
      peak = omega (arith, one.peak, all.peak);
      polls = omega (arith, one.polls, all.polls);
    }

observe_all_frozen :
    (bs : List (List OutboundConn)) (b : Baseline) → b.frozen ≡ true → observe_all bs b ≡ b
unfolding observe_all
observe_all_frozen [] b frozen = refl
observe_all_frozen (cs ∷ rest) b frozen =
    rw (observe_when_frozen cs b frozen) (observe_all_frozen rest b frozen)

-- A frozen baseline knows exactly the addresses and ports of the training batches, its peak is the
-- largest batch and its samples count the batches; whatever is observed after `Freeze` changes
-- nothing.
pub trained_model :
    (before after : List (List OutboundConn)) (now : ℕ)
    → HasLearned before new_baseline
        (observe_all after (freeze now (observe_all before new_baseline)))
unfolding freeze knows_ip knows_port
trained_model before after now =
    let b = observe_all before new_baseline in
    let learned = observe_all_live before new_baseline refl in
    rw (observe_all_frozen after (freeze now b) refl) (record {
      ips = learned.ips;
      ports = learned.ports;
      peak = learned.peak;
      polls = learned.polls;
    })
