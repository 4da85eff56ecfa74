-- ===== src/Sentinel/Scorer/Weights.antt =====
-- The reasons of a score account for its points, rule by rule.
use angellab.Prelude.{◌≢◌, ◌⊎◌, ℕ, ◌+◌, ◌≡◌, List, [], ◌∷◌}
use angellab.Prelude.Int.{sub_ℕ}
use angellab.Net.{Ip}
use angellab.Sentinel.Baseline.{Baseline}
use angellab.Sentinel.Scorer.{
  Scorer, Reason, new_ip, new_port, high_port, very_high_port, burst_of, conn_spike, points, level,
  score_ok, is_rfc1918, AnomalyScore,
}

-- the rule table of the file's header comment
abbrev pub weight : Reason → ℕ
weight (new_ip ip) = 3
weight (new_port p) = 2
weight (high_port p) = 1
weight very_high_port = 1
weight (burst_of n) = 4
weight (conn_spike n m) = 3

abbrev pub weights : List Reason → ℕ
weights [] = 0
weights (r ∷ rs) = weight r + weights rs

-- what the reasons of one score say of its total
abbrev pub Accounts : AnomalyScore → Ip → Type 0
Accounts s ip =
    ((level s.total ≡ score_ok) × (s.reasons ≡ []))
    ⊎ ((level s.total ≢ score_ok)
        × (s.total ≡ sub_ℕ (weights s.reasons) (points (is_rfc1918 ip) 1)))
