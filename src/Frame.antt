-- ===== src/Frame.antt =====
-- The packet as the kernel programs reach it. The layout of the headers is that of the crate
-- network-types, which is not part of the repository: a header is the record of the fields that the
-- code reads or writes, and of the others that its checksum covers. A field of two or four bytes is
-- the number that a load in the machine's own byte order gives, as the code's casts to `*mut u16`
-- and `*mut u32` read it.
use xdp_natd.Base.{ℕ, ◌+◌, List, Option, none, some, ltb, if◌then◌else◌}
use xdp_natd.Common.{MacAddr}

pub record EthHdr : Type 0 where
  pub dst_addr : MacAddr
  pub src_addr : MacAddr
  pub ether_type : ℕ

pub record Ipv4Hdr : Type 0 where
  pub vihl : ℕ
  pub tos : ℕ
  pub tot_len : ℕ
  pub id : ℕ
  pub frags : ℕ
  pub ttl : ℕ
  pub proto : ℕ
  pub check : ℕ
  pub src_addr : ℕ
  pub dst_addr : ℕ

pub record UdpHdr : Type 0 where
  pub source : ℕ
  pub dest : ℕ
  pub len : ℕ
  pub check : ℕ

-- The bytes from `start` up to `end`; a header beyond `end` must not be reached.
pub record Frame : Type 0 where
  pub start : ℕ
  pub end : ℕ
  pub eth : EthHdr
  pub ipv4 : Ipv4Hdr
  pub udp : UdpHdr
  -- What follows the UDP header, as 16-bit words.
  pub payload : List ℕ

-- `EthHdr::LEN`, `Ipv4Hdr::LEN` and `UdpHdr::LEN`.
abbrev pub eth_len : ℕ
eth_len = 14

abbrev pub ipv4_len : ℕ
ipv4_len = 20

abbrev pub udp_len : ℕ
udp_len = 8

-- `EtherType::Ipv4`, and the numbers of `IpProto`.
abbrev pub ether_type_ipv4 : ℕ
ether_type_ipv4 = 0x0800

abbrev pub ip_proto_icmp : ℕ
ip_proto_icmp = 1

abbrev pub ip_proto_tcp : ℕ
ip_proto_tcp = 6

abbrev pub ip_proto_udp : ℕ
ip_proto_udp = 17

-- `&mut *((data + offset) as *mut T)`; `none` is a reference that reaches beyond the packet.
abbrev pub deref {ℓ} : {A : Type ℓ} → Frame → ℕ → ℕ → A → Option A
deref f offset size header = if ltb f.end (f.start + offset + size) then none else some header
