-- ===== src/Linux/NetConn.antt =====
-- pkg/linux/procnet.go: one row of /proc/net/tcp, and the socket map.
use angellab.Prelude.{ℕ, Bool, not, ◌&&◌, Option, String, nat_beq, nat_eq}
use angellab.Prelude.Map.{Map}
use angellab.Prelude.Map
use angellab.Net.{Ip, equal, ipv4_zero}

-- the kernel's state, a byte
abbrev pub tcp_established : ℕ
tcp_established = 0x01

pub record NetConn : Type 0 where
  pub local_ip : Ip
  pub local_port : ℕ  -- uint16
  pub remote_ip : Ip
  pub remote_port : ℕ  -- uint16
  pub state : ℕ  -- uint8
  pub inode : ℕ  -- uint64
  pub proto : String

unfoldable pub is_established : NetConn → Bool
is_established c = nat_beq c.state tcp_established

unfoldable pub is_outbound : NetConn → Bool
is_outbound c = not (nat_beq c.remote_port 0) && not (equal c.remote_ip ipv4_zero)

pub record ProcInfo : Type 0 where
  pub pid : ℕ
  pub comm : String
  pub exe_path : String

abbrev pub InodeMap : Type 0
InodeMap = Map ℕ ProcInfo

unfoldable pub lookup : InodeMap → ℕ → Option ProcInfo
lookup m inode = Map.lookup inode m
