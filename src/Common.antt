-- ===== src/Common.antt =====
-- The structures that the kernel programs and the daemon share: xdp-natd-common/src/lib.rs.
-- A u16, u32 or u64 is a number, its range stated where it matters; a MAC address is six bytes.
use xdp_natd.Base.{ℕ, Bool, false, ℕ_discrete}

abbrev pub timeout_new : ℕ
timeout_new = 30_000_000_000

abbrev pub timeout_est : ℕ
timeout_est = 180_000_000_000

pub record MacAddr : Type 0 where
  pub byte0 : ℕ
  pub byte1 : ℕ
  pub byte2 : ℕ
  pub byte3 : ℕ
  pub byte4 : ℕ
  pub byte5 : ℕ

pub record NicInfo : Type 0 where
  pub nic_ip : ℕ
  pub nic_ifindex : ℕ

pub record ContainerInfo : Type 0 where
  pub container_ip : ℕ
  pub container_mac : MacAddr
  pub container_port : ℕ
  pub ifindex : ℕ

pub record FibMacs : Type 0 where
  pub fib_smac : MacAddr
  pub fib_dmac : MacAddr

pub record ConnectionTuple : Type 0 where
  pub src_addr : ℕ
  pub dst_addr : ℕ
  pub src_port : ℕ
  pub dst_port : ℕ

abbrev pub connection_tuple : ℕ → ℕ → ℕ → ℕ → ConnectionTuple
connection_tuple src_addr dst_addr src_port dst_port = record {
  src_addr = src_addr;
  dst_addr = dst_addr;
  src_port = src_port;
  dst_port = dst_port;
}

pub record NatData : Type 0 where
  pub nat_addr : ℕ
  pub nat_port : ℕ
  pub fib_macs : FibMacs
  pub devmap_key : ℕ

abbrev pub nat_data : ℕ → ℕ → FibMacs → ℕ → NatData
nat_data nat_addr nat_port fib_macs devmap_key = record {
  nat_addr = nat_addr;
  nat_port = nat_port;
  fib_macs = fib_macs;
  devmap_key = devmap_key;
}

pub data Direction : Type 0 where
  original reply : Direction

pub record FlowState : Type 0 where
  pub nat : NatData
  pub direction : Direction
  pub seen_reply : Bool
  pub timeout : ℕ

-- `FlowState::new`: no reply has been seen yet.
abbrev pub flow_state : NatData → Direction → ℕ → FlowState
flow_state nat direction timeout = record {
  nat = nat;
  direction = direction;
  seen_reply = false;
  timeout = timeout;
}

unfoldable pub ConnectionTuple-discrete : Discrete ConnectionTuple
ConnectionTuple-discrete = hlevel ℕ_discrete
