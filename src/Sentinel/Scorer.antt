-- ===== src/Sentinel/Scorer.antt =====
-- internal/angels/sentinel/scorer.go: the additive score of one connection. `Reasons` are data with
-- the values that their texts show. A score is reached through its two parts in ℤ.
pub mod Weights
pub mod Private
use angellab.Prelude.{
  ℕ, ◌+◌, ◌*◌, Bool, true, false, not, ◌&&◌, ◌||◌, List, [], ◌∷◌, ◌++◌, ltb, leb, if◌then◌else◌,
}
use angellab.Prelude.Int.{ℤ, pos, negsuc, sub_ℕ, leb_ℤ}
use angellab.Net.{Ip, is_loopback, cidr_contains}
use angellab.Sentinel.Baseline.{Baseline, OutboundConn, knows_ip, knows_port}
use angellab.Sentinel.Rate
use angellab.Sentinel.Rate.{RateTracker}

pub data ScoreLevel : Type 0 where
  score_ok score_warn score_crit : ScoreLevel

pub data Reason : Type 0 where
  new_ip : Ip → Reason
  new_port : ℕ → Reason
  high_port : ℕ → Reason
  very_high_port : Reason
  burst_of : ℕ → Reason
  conn_spike : ℕ → ℕ → Reason

pub record AnomalyScore : Type 0 where
  pub total : ℤ
  pub reasons : List Reason
  pub is_new : Bool

abbrev pub warn_threshold : ℤ
warn_threshold = pos 3

abbrev pub crit_threshold : ℤ
crit_threshold = pos 6

unfoldable pub level : ℤ → ScoreLevel
level total =
    if leb_ℤ crit_threshold total
    then score_crit
    else if leb_ℤ warn_threshold total
    then score_warn
    else score_ok

-- The pointers to the baseline and to the tracker are arguments of the methods.
pub record Scorer : Type 0 where
  pub burst_threshold : ℕ
  pub spike_multiplier : ℕ

abbrev pub new_scorer : Scorer
new_scorer = record { burst_threshold = 20; spike_multiplier = 2 }

unfoldable pub is_rfc1918 : Ip → Bool
is_rfc1918 ip =
    cidr_contains 8 (10 ∷ 0 ∷ 0 ∷ 0 ∷ []) ip
    || cidr_contains 12 (172 ∷ 16 ∷ 0 ∷ 0 ∷ []) ip
    || cidr_contains 16 (192 ∷ 168 ∷ 0 ∷ 0 ∷ []) ip
    || cidr_contains 16 (169 ∷ 254 ∷ 0 ∷ 0 ∷ []) ip
    || cidr_contains 10 (100 ∷ 64 ∷ 0 ∷ 0 ∷ []) ip

-- what the numeric pass leaves in the local variables
pub record Flags : Type 0 where
  pub new_addr : Bool
  pub new_service : Bool
  pub high : Bool
  pub very_high : Bool
  pub burst : ℕ
  pub bursting : Bool  -- burst > s.burstThreshold
  pub spike : Bool

abbrev pub points : Bool → ℕ → ℕ
points true n = n
points false n = 0

-- the additions of the numeric pass
abbrev pub gained : Flags → ℕ
gained f =
    points f.new_addr 3
    + points f.new_service 2
    + points f.high 1
    + points f.very_high 1
    + points f.bursting 4
    + points f.spike 3

abbrev pub spike_test : Scorer → Baseline → ℕ → Bool
spike_test s b current =
    let threshold = b.max_concurrent * s.spike_multiplier in
    ltb 0 threshold && ltb threshold current

-- the numeric pass; `burst` is the answer of `rate.Add()`, which is asked only of a new connection
abbrev pub flags : Scorer → Baseline → OutboundConn → Bool → ℕ → ℕ → Flags
flags s b conn true burst current = record {
  new_addr = not (knows_ip b conn.remote_ip);
  new_service = not (knows_port b conn.remote_port);
  high = ltb 49152 conn.remote_port;
  very_high = ltb 60000 conn.remote_port;
  burst = burst;
  bursting = ltb s.burst_threshold burst;
  spike = spike_test s b current;
}
flags s b conn false burst current = record {
  new_addr = false;
  new_service = false;
  high = false;
  very_high = false;
  burst = 0;
  bursting = false;
  spike = spike_test s b current;
}

abbrev pub one_if : Bool → Reason → List Reason
one_if true r = r ∷ []
one_if false r = []

-- the pass that builds the reasons
unfoldable pub explain : Flags → Baseline → OutboundConn → ℕ → List Reason
explain f b conn current =
    one_if f.new_addr (new_ip conn.remote_ip)
    ++ one_if f.new_service (new_port conn.remote_port)
    ++ one_if f.high (high_port conn.remote_port)
    ++ one_if f.very_high very_high_port
    ++ one_if f.bursting (burst_of f.burst)
    ++ one_if f.spike (conn_spike current b.max_concurrent)

abbrev pub total_of : Flags → Ip → ℤ
total_of f ip = sub_ℕ (gained f) (points (is_rfc1918 ip) 1)

-- the score of a connection that is not to a loopback address
unfoldable pub assess : Flags → Baseline → OutboundConn → Bool → ℕ → AnomalyScore
assess f b conn is_new current =
    let total = total_of f conn.remote_ip in
    record {
      total = total;
      reasons = if leb_ℤ warn_threshold total then explain f b conn current else [];
      is_new = is_new;
    }

-- `now` is the time that `rate.Add()` reads
unfoldable pub score :
    Scorer → Baseline → RateTracker → ℕ → OutboundConn → Bool → ℕ → AnomalyScore × RateTracker
score s b rate now conn is_new current =
    if is_loopback conn.remote_ip
    then (record { total = negsuc 4; reasons = []; is_new = is_new }, rate)
    else let (rate', burst) = if is_new then Rate.add now rate else (rate, 0) in
      (assess (flags s b conn is_new burst current) b conn is_new current, rate')
