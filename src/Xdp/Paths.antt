-- ===== src/Xdp/Paths.antt =====
-- The routines on the packets of tracked flows and on the first packets of new ones.
use xdp_natd.Base.{ok, ℕ, ◌≡◌, refl, none, some, arith}
use xdp_natd.Common.{ConnectionTuple, ContainerInfo, FibMacs, FlowState, NicInfo}
use xdp_natd.Word.{be16, be32}
use xdp_natd.BpfMap.{BpfMap}
use xdp_natd.Rewrite.{snat_frame, dnat_frame}
use xdp_natd.Kernel.{Kernel}
use xdp_natd.Xdp.{
  Machine, NatResult, snat_tracked, snat_open, snat_new, process_udp_snat, dnat_tracked, dnat_open,
  dnat_new, process_udp_dnat,
}
use xdp_natd.Xdp.Cases.{key_of, snat_route, dnat_route}

module _ {S E : Type 0} (tracker : BpfMap ConnectionTuple FlowState S)
    (exposed : BpfMap ℕ ContainerInfo E) (k : Kernel) (m : Machine S E) where
  -- The routines as try_xdp_redirect calls them: with the addresses of the packet.
  abbrev pub src_ip : ℕ
  src_ip = be32 k.endian m.frame.ipv4.src_addr

  abbrev pub dst_ip : ℕ
  dst_ip = be32 k.endian m.frame.ipv4.dst_addr

  abbrev pub flow_key : ConnectionTuple
  flow_key = key_of tracker exposed k m src_ip dst_ip

  abbrev pub outbound : NatResult S E
  outbound = process_udp_snat tracker exposed k m src_ip dst_ip

  abbrev pub inbound : NatResult S E
  inbound = process_udp_dnat tracker exposed k m src_ip dst_ip

  -- A packet whose flow is tracked gets the flow's translation.
  pub inbound_hit :
      (state : FlowState)
      → tracker.get m.conntrack flow_key ≡ some state
      → (inbound.0 ≡ ok (some state.nat))
        × (inbound.1.frame ≡ dnat_frame k.endian state.nat m.frame)
  unfolding process_udp_dnat dnat_tracked
  inbound_hit state hit = rw (hit, process_udp_dnat) (refl, refl)

  pub outbound_hit :
      (state : FlowState)
      → tracker.get m.conntrack flow_key ≡ some state
      → (outbound.0 ≡ ok (some state.nat))
        × (outbound.1.frame ≡ snat_frame k.endian state.nat m.frame)
  unfolding process_udp_snat snat_tracked
  outbound_hit state hit = rw (hit, process_udp_snat) (refl, refl)

  -- The first packet of a container's flow, where there is a device and a route.
  pub outbound_first :
      (nic : NicInfo) (fib_macs : FibMacs)
      → tracker.get m.conntrack flow_key ≡ none
      → m.pnic ≡ some nic
      → snat_route tracker exposed k m src_ip dst_ip nic ≡ some fib_macs
      → outbound ≡ snat_open tracker exposed k m src_ip dst_ip flow_key nic fib_macs
  unfolding process_udp_snat snat_new
  outbound_first nic fib_macs miss have_nic route = ground arith

  -- The first packet to an exposed port, where there is a route back.
  pub inbound_first :
      (info : ContainerInfo) (fib_macs : FibMacs)
      → tracker.get m.conntrack flow_key ≡ none
      → exposed.get m.expose (be16 k.endian m.frame.udp.dest) ≡ some info
      → dnat_route tracker exposed k m src_ip dst_ip ≡ some fib_macs
      → inbound ≡ dnat_open tracker exposed k m src_ip dst_ip info fib_macs
  unfolding process_udp_dnat dnat_new
  inbound_first info fib_macs miss found route = ground arith

  -- A packet of a new flow to a port that is not exposed is left alone.
  pub inbound_hidden :
      tracker.get m.conntrack flow_key ≡ none
      → exposed.get m.expose (be16 k.endian m.frame.udp.dest) ≡ none
      → inbound ≡ (ok none, m)
  unfolding process_udp_dnat dnat_new
  inbound_hidden miss hidden = ground arith
