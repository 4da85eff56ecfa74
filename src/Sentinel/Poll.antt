-- ===== src/Sentinel/Poll.antt =====
-- internal/angels/sentinel/sentinel.go: one poll, and the end of the training window. Each socket
-- comes with the time that the rate tracker reads while it is scored. `none` is a nil dereference,
-- which ends the process. A message that cannot be sent is only logged, so `sent` holds what was
-- handed to the connection.
pub mod Training
pub mod Active
use angellab.Prelude.{
  ℕ, ◌+◌, Bool, true, false, not, ◌&&◌, ◌||◌, Option, none, some, List, [], ◌∷◌, ◌++◌, String,
  if◌then◌else◌,
}
use angellab.Prelude.Int.{ℤ, negsuc}
use angellab.Net.{Ip, is_loopback}
use angellab.Linux.NetConn
use angellab.Linux.NetConn.{NetConn, ProcInfo, InodeMap, is_established, is_outbound}
use angellab.Sentinel.Baseline
use angellab.Sentinel.Baseline.{Baseline, OutboundConn, observe, freeze}
use angellab.Sentinel.Dedup.{Deduplicator, is_new}
use angellab.Sentinel.Rate.{RateTracker}
use angellab.Sentinel.Scorer.{
  Scorer, new_scorer, AnomalyScore, ScoreLevel, score_ok, score_warn, score_crit, level, score,
}

pub data Phase : Type 0 where
  training active : Phase

abbrev pub is_training : Phase → Bool
is_training training = true
is_training active = false

pub record Sentinel : Type 0 where
  pub phase : Phase
  pub baseline : Baseline
  pub scorer : Option Scorer
  pub dedup : Deduplicator
  pub rate_track : RateTracker
  pub total_events_emitted : ℕ
  pub last_poll_count : ℕ

-- the event of `emitAnomaly`; its severity is always WARN
pub record Alert : Type 0 where
  pub conn : OutboundConn
  pub total : ℤ

-- the sentinel and the local variables of `poll`
pub record Polling : Type 0 where
  pub sentinel : Sentinel
  pub count : ℕ
  pub training_batch : List OutboundConn
  pub sent : List Alert

infixl 5 ◌>>=◌
abbrev pub ◌>>=◌ {ℓ κ} : {A : Type ℓ} {B : Type κ} → Option A → (A → Option B) → Option B
none >>= f = none
some a >>= f = f a

abbrev pub outbound_conn : NetConn → OutboundConn
outbound_conn c = record {
  remote_ip = c.remote_ip;
  remote_port = c.remote_port;
  inode = c.inode;
  proc_name = "";
  pid = 0;
  exe_path = "";
  proto = c.proto;
}

abbrev pub is_ok : ScoreLevel → Bool
is_ok score_ok = true
is_ok _ = false

-- s.scorer.Score(oc, true, count): on a nil scorer the loopback test still runs
unfoldable pub call_score :
    Option Scorer
    → Baseline
    → RateTracker
    → ℕ
    → OutboundConn
    → ℕ
    → Option (AnomalyScore × RateTracker)
call_score (some sc) b rate t oc count = some (score sc b rate t oc true count)
call_score none b rate t oc count =
    if is_loopback oc.remote_ip
    then some (record { total = negsuc 4; reasons = []; is_new = true }, rate)
    else none

unfoldable pub enrich : Option ProcInfo → OutboundConn → OutboundConn
enrich none oc = oc
enrich (some info) oc = record oc {
  proc_name = info.comm;
  pid = info.pid;
  exe_path = info.exe_path;
}

-- what follows the call of `Score`
unfoldable pub settle : InodeMap → OutboundConn → AnomalyScore → Polling → Polling
unfolding enrich
settle inodes oc score p =
    let quiet = is_ok (level score.total) in
    let train = is_training p.sentinel.phase in
    let oc' = if not quiet || train then enrich (NetConn.lookup inodes oc.inode) oc else oc in
    record p {
      sentinel = record p.sentinel {
        total_events_emitted =
            if quiet then p.sentinel.total_events_emitted else p.sentinel.total_events_emitted + 1;
      };
      training_batch = if train then p.training_batch ++ oc' ∷ [] else p.training_batch;
      sent = if quiet then p.sent else p.sent ++ record { conn = oc'; total = score.total } ∷ [];
    }

-- a connection that the deduplicator has answered for
unfoldable pub poll_fresh : InodeMap → ℕ → OutboundConn → Polling → Option Polling
poll_fresh inodes t oc p = do
  let p' : Polling = record p { count = p.count + 1 }
  let s = p'.sentinel
  (score, rate) ← call_score s.scorer s.baseline s.rate_track t oc p'.count
  some (settle inodes oc score (record p' { sentinel = record s { rate_track = rate } }))

-- the body of the loop
unfoldable pub poll_conn : InodeMap → ℕ → NetConn × ℕ → Polling → Option Polling
poll_conn inodes now (c, t) p =
    let (dedup, fresh) = is_new (outbound_conn c) now p.sentinel.dedup in
    let p' : Polling = record p { sentinel = record p.sentinel { dedup = dedup } } in
    if not (is_outbound c) || not (is_established c)
    then some p
    else if not fresh
    then some p'
    else poll_fresh inodes t (outbound_conn c) p'

unfoldable pub poll_conns : InodeMap → ℕ → List (NetConn × ℕ) → Polling → Option Polling
poll_conns inodes now [] p = some p
poll_conns inodes now (c ∷ cs) p = do p' ← poll_conn inodes now c p; poll_conns inodes now cs p'

-- the end of `poll`: the sentinel, and what it sent
unfoldable pub finish : Polling → Sentinel × List Alert
finish p =
    let s = p.sentinel in
    let b = if is_training s.phase then observe p.training_batch s.baseline else s.baseline in
    (record s { baseline = b; last_poll_count = p.count }, p.sent)

unfoldable pub poll : InodeMap → ℕ → List (NetConn × ℕ) → Sentinel → Option (Sentinel × List Alert)
unfolding finish
poll inodes now raw s = do
  p ← poll_conns inodes now raw (record { sentinel = s; count = 0; training_batch = []; sent = [] })
  some (finish p)

unfoldable pub finalise_baseline : ℕ → Sentinel → Sentinel
finalise_baseline now s = record s {
  baseline = freeze now s.baseline;
  phase = active;
  scorer = some new_scorer;
}
