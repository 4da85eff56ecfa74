-- ===== src/Sentinel/Baseline.antt =====
-- internal/angels/sentinel/baseline.go: what is learned in the training window. A method that runs
-- under `b.mu` is one function. Go's sets are maps to the empty struct.
pub mod Learning
use angellab.Prelude.{
  ℕ, ◌+◌, ◌*◌, ◌/◌, ◌%◌, Bool, true, false, Option, none, some, List, [], ◌∷◌, ◌++◌, String, length,
  take, ltb, if◌then◌else◌, bytes_eq, nat_eq,
}
use angellab.Prelude.Map.{Map, insert, has}
use angellab.Net.{Ip, to4}

pub record OutboundConn : Type 0 where
  pub remote_ip : Ip
  pub remote_port : ℕ  -- uint16
  pub inode : ℕ
  pub proc_name : String
  pub pid : ℕ
  pub exe_path : String
  pub proto : String

pub record Baseline : Type 0 where
  pub known_ips : Map (List ℕ) (Unit {0})
  pub known_ports : Map ℕ (Unit {0})
  pub max_concurrent : ℕ
  pub samples : ℕ
  pub frozen : Bool
  pub frozen_at : ℕ

abbrev pub new_baseline : Baseline
new_baseline = record {
  known_ips = [];
  known_ports = [];
  max_concurrent = 0;
  samples = 0;
  frozen = false;
  frozen_at = 0;
}

-- copy(k[:], ip) into four zero bytes
abbrev pub copy4 : Ip → List ℕ
copy4 ip = take 4 (ip ++ (0 ∷ 0 ∷ 0 ∷ 0 ∷ []))

unfoldable pub ip_key : Ip → List ℕ
ip_key ip = elim (to4 ip) [ some ip4 ↦ copy4 ip4 | none ↦ copy4 ip ]

-- the loop of `Observe`
unfoldable pub learn : List OutboundConn → Baseline → Baseline
learn [] b = b
learn (c ∷ cs) b = learn cs (record b {
  known_ips = insert (ip_key c.remote_ip) tt b.known_ips;
  known_ports = insert c.remote_port tt b.known_ports;
})

unfoldable pub observe : List OutboundConn → Baseline → Baseline
observe conns b =
    if b.frozen
    then b
    else learn conns (record b {
      samples = b.samples + 1;
      max_concurrent =
          if ltb b.max_concurrent (length conns) then length conns else b.max_concurrent;
    })

unfoldable pub freeze : ℕ → Baseline → Baseline
freeze now b = record b { frozen = true; frozen_at = now }

-- both branches read the same map, with or without the lock
unfoldable pub knows_ip : Baseline → Ip → Bool
knows_ip b ip = has (ip_key ip) b.known_ips

unfoldable pub knows_port : Baseline → ℕ → Bool
knows_port b port = has port b.known_ports

-- byte(port >> 8), byte(port) behind the four bytes of the address
unfoldable pub compact_key : OutboundConn → List ℕ
compact_key c = ip_key c.remote_ip ++ ((c.remote_port / 256) % 256 ∷ c.remote_port % 256 ∷ [])
