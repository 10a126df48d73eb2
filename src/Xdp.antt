-- ===== src/Xdp.antt =====
-- The XDP programs of xdp-natd-ebpf/src/main.rs: try_xdp_redirect, process_udp_snat and
-- process_udp_dnat. A run is one packet; the maps and the packet are passed on explicitly.
pub mod Cases
pub mod Guards
pub mod Stable
pub mod Paths
pub mod Programs
pub mod Later
pub mod RoundTrip
pub mod Service
pub mod EndToEnd
pub mod Collision
use mathlib.Core.Option
use xdp_natd.Base.{
  Result, ok, err, ℕ, ◌+◌, ◌==◌, not, ◌||◌, Option, none, some, bit_and, bit_or, ltb, if◌then◌else◌,
}
use xdp_natd.Common.{
  ConnectionTuple, ContainerInfo, FibMacs, FlowState, NatData, NicInfo, connection_tuple, nat_data,
}
use xdp_natd.Word.{be16, be32}
use xdp_natd.BpfMap.{BpfMap}
use xdp_natd.Frame.{
  Frame, Ipv4Hdr, eth_len, ipv4_len, udp_len, ether_type_ipv4, ip_proto_icmp, ip_proto_tcp,
  ip_proto_udp, deref,
}
use xdp_natd.Rewrite.{snat_frame, dnat_frame, rewrite_macs}
use xdp_natd.Kernel.{Kernel, xdp_aborted, xdp_pass, get_fib_macs}
use xdp_natd.Conntrack.{track, open_flow}

abbrev pub ip_mf : ℕ
ip_mf = 0x2000

abbrev pub ip_offset : ℕ
ip_offset = 0x1fff

pub data Flags : Type 0 where
  snat dnat : Flags

-- The packet and the maps: `S` and `E` are the contents of UDP_CONNTRACK and of EXPOSE_MAP, and
-- `pnic` is entry 0 of PNIC_ARRAY.
pub record Machine (S E : Type 0) : Type 0 where
  pub frame : Frame
  pub conntrack : S
  pub expose : E
  pub pnic : Option NicInfo

-- What a processing routine returns, and the state that it leaves.
abbrev pub NatResult : Type 0 → Type 0 → Type 0
NatResult S E = Result (Option NatData) (Unit {0}) × Machine S E

infixl 5 ◌>>=◌
abbrev ◌>>=◌ {ℓ κ} : {A : Type ℓ} {B : Type κ} → Option A → (A → Option B) → Option B
none >>= f = none
some a >>= f = f a

module _ {S E : Type 0} (tracker : BpfMap ConnectionTuple FlowState S)
    (exposed : BpfMap ℕ ContainerInfo E) (k : Kernel) (m : Machine S E) where
  module _ (src_ip dst_ip : ℕ) where
    abbrev src_port : ℕ
    src_port = be16 k.endian m.frame.udp.source

    abbrev dst_port : ℕ
    dst_port = be16 k.endian m.frame.udp.dest

    unfoldable pub snat_tracked : ConnectionTuple → FlowState → NatResult S E
    snat_tracked skey state =
        let snat = state.nat in
        let dkey = connection_tuple dst_ip snat.nat_addr dst_port snat.nat_port in
        (
          ok (some snat),
          record m {
            frame = snat_frame k.endian snat m.frame;
            conntrack = track tracker m.conntrack skey state dkey k.ktime;
          },
        )

    unfoldable pub snat_open : ConnectionTuple → NicInfo → FibMacs → NatResult S E
    snat_open skey nic fib_macs =
        let host_port = src_port in
        let snat = nat_data nic.nic_ip host_port fib_macs 0 in
        let dnat_macs : FibMacs = record {
          fib_smac = fib_macs.fib_smac;
          fib_dmac = m.frame.eth.src_addr;
        } in
        let dkey = connection_tuple dst_ip nic.nic_ip dst_port host_port in
        let dnat = nat_data src_ip src_port dnat_macs src_ip in
        (
          ok (some snat),
          record m {
            frame = snat_frame k.endian snat m.frame;
            conntrack = open_flow tracker m.conntrack skey snat dkey dnat k.ktime;
          },
        )

    unfoldable pub snat_new : ConnectionTuple → NatResult S E
    unfolding snat_open
    snat_new skey = elim m.pnic [
      | none ↦ (ok none, m)
      | some nic ↦
          elim (get_fib_macs k (be32 k.endian nic.nic_ip) (be32 k.endian dst_ip) ip_proto_udp
            (be16 k.endian m.frame.ipv4.tot_len) nic.nic_ifindex) [
              | none ↦ (ok none, m)
              | some fib_macs ↦ snat_open skey nic fib_macs
            ]
    ]

    unfoldable pub process_udp_snat : NatResult S E
    unfolding snat_tracked snat_new
    process_udp_snat =
        let skey = connection_tuple src_ip dst_ip src_port dst_port in
        elim (tracker.get m.conntrack skey) [
          | some state ↦ snat_tracked skey state
          | none ↦ snat_new skey
        ]

    unfoldable pub dnat_tracked : ConnectionTuple → FlowState → NatResult S E
    dnat_tracked key state =
        let dnat = state.nat in
        let skey = connection_tuple dnat.nat_addr src_ip dnat.nat_port src_port in
        (
          ok (some dnat),
          record m {
            frame = dnat_frame k.endian dnat m.frame;
            conntrack = track tracker m.conntrack key state skey k.ktime;
          },
        )

    unfoldable pub dnat_open : ContainerInfo → FibMacs → NatResult S E
    dnat_open info fib_macs =
        let dnat_macs : FibMacs = record {
          fib_smac = m.frame.eth.dst_addr;
          fib_dmac = info.container_mac;
        } in
        let dkey = connection_tuple src_ip dst_ip src_port dst_port in
        let dnat = nat_data info.container_ip info.container_port dnat_macs info.container_ip in
        let snat = nat_data dst_ip dst_port fib_macs 0 in
        let skey = connection_tuple info.container_ip src_ip info.container_port src_port in
        (
          ok (some dnat),
          record m {
            frame = dnat_frame k.endian dnat m.frame;
            conntrack = open_flow tracker m.conntrack dkey dnat skey snat k.ktime;
          },
        )

    unfoldable pub dnat_new : NatResult S E
    unfolding dnat_open
    dnat_new = elim (exposed.get m.expose dst_port) [
      | none ↦ (ok none, m)
      | some info ↦
          elim (get_fib_macs k (be32 k.endian dst_ip) (be32 k.endian src_ip) ip_proto_udp
            (be16 k.endian m.frame.ipv4.tot_len) k.ingress_ifindex) [
              | none ↦ (ok none, m)
              | some fib_macs ↦ dnat_open info fib_macs
            ]
    ]

    unfoldable pub process_udp_dnat : NatResult S E
    unfolding dnat_tracked dnat_new
    process_udp_dnat =
        let key = connection_tuple src_ip dst_ip src_port dst_port in
        elim (tracker.get m.conntrack key) [ some state ↦ dnat_tracked key state | none ↦ dnat_new ]

  unfoldable pub process : Flags → ℕ → ℕ → NatResult S E
  unfolding process_udp_snat process_udp_dnat
  process snat src_ip dst_ip = process_udp_snat src_ip dst_ip
  process dnat src_ip dst_ip = process_udp_dnat src_ip dst_ip

  -- `XDP_PASS` with nothing changed.
  abbrev pass : Option (Result ℕ (Unit {0}) × Machine S E)
  pass = some (ok xdp_pass, m)

  -- `Ok(code) => Ok(code), Err(code) => Ok(code)`.
  abbrev pub code_of : Result ℕ ℕ → ℕ
  code_of (ok code) = code
  code_of (err code) = code

  -- From the translation to the return code: the packet is sent on by the translation's device.
  pub send : NatResult S E → Result ℕ (Unit {0}) × Machine S E
  send (err e, m') = (err e, m')
  send (ok none, m') = (ok xdp_pass, m')
  send (ok (some nat), m') = (
    ok (code_of (k.redirect nat.devmap_key xdp_pass)),
    record m' { frame = record m'.frame { eth = rewrite_macs nat.fib_macs m'.frame.eth } },
  )

  -- The tests on the IPv4 header, up to the reference to the UDP header.
  pub past_ipv4 : Flags → Ipv4Hdr → Option (Result ℕ (Unit {0}) × Machine S E)
  unfolding process send
  past_ipv4 flag ipv4 =
      let supported =
        ipv4.proto == ip_proto_udp || ipv4.proto == ip_proto_tcp || ipv4.proto == ip_proto_icmp in
      let frag_off = be16 k.endian ipv4.frags in
      let udp_end = m.frame.start + eth_len + ipv4_len + udp_len in
      if not supported
      then pass
      else if not (bit_and ipv4.vihl 0x0f == 5)
      then pass
      else if not (bit_and frag_off (bit_or ip_mf ip_offset) == 0)
      then pass
      else if not (ipv4.proto == ip_proto_udp)
      then pass
      else if ltb m.frame.end udp_end
      then pass
      else do
        udp ← deref m.frame (eth_len + ipv4_len) udp_len m.frame.udp
        some (send (process flag (be32 k.endian ipv4.src_addr) (be32 k.endian ipv4.dst_addr)))

  -- `none` is a reference beyond the end of the packet.
  pub try_xdp_redirect : Flags → Option (Result ℕ (Unit {0}) × Machine S E)
  unfolding past_ipv4
  try_xdp_redirect flag = if ltb m.frame.end (m.frame.start + eth_len + ipv4_len) then pass else do
    eth ← deref m.frame 0 eth_len m.frame.eth
    if not (eth.ether_type == be16 k.endian ether_type_ipv4)
        then pass
        else do ipv4 ← deref m.frame eth_len ipv4_len m.frame.ipv4; past_ipv4 flag ipv4

  -- `unwrap_or(xdp_action::XDP_ABORTED)`.
  abbrev pub unwrap_or_aborted : Result ℕ (Unit {0}) × Machine S E → ℕ × Machine S E
  unwrap_or_aborted (ok code, m') = (code, m')
  unwrap_or_aborted (err e, m') = (xdp_aborted, m')

  pub xdp_redirect_containers : Option (ℕ × Machine S E)
  unfolding try_xdp_redirect
  xdp_redirect_containers = Option.map unwrap_or_aborted (try_xdp_redirect snat)

  pub xdp_redirect_host : Option (ℕ × Machine S E)
  unfolding try_xdp_redirect
  xdp_redirect_host = Option.map unwrap_or_aborted (try_xdp_redirect dnat)

-- The program for the containers' own ends lets every packet through.
pub xdp_stub : {S E : Type 0} → Machine S E → ℕ × Machine S E
xdp_stub m = (xdp_pass, m)
