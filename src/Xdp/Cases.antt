-- ===== src/Xdp/Cases.antt =====
-- The ways through process_udp_snat and process_udp_dnat, as rules: what holds of every way's result
-- holds of the routine's.
use xdp_natd.Base.{ok, ℕ, ◌≡◌, inl, inr, Option, none, some, Option-cases}
use xdp_natd.Common.{ConnectionTuple, ContainerInfo, FibMacs, FlowState, NicInfo, connection_tuple}
use xdp_natd.Word.{be16, be32}
use xdp_natd.BpfMap.{BpfMap}
use xdp_natd.Frame.{ip_proto_udp}
use xdp_natd.Kernel.{Kernel, get_fib_macs}
use xdp_natd.Xdp.{
  Machine, NatResult, snat_tracked, snat_open, snat_new, process_udp_snat, dnat_tracked, dnat_open,
  dnat_new, process_udp_dnat,
}

module _ {S E : Type 0} (tracker : BpfMap ConnectionTuple FlowState S)
    (exposed : BpfMap ℕ ContainerInfo E) (k : Kernel) (m : Machine S E) (src_ip dst_ip : ℕ) where
  -- The key under which the packet's flow is looked up.
  abbrev pub key_of : ConnectionTuple
  key_of =
      connection_tuple src_ip dst_ip (be16 k.endian m.frame.udp.source)
        (be16 k.endian m.frame.udp.dest)

  -- The route that each routine asks for.
  abbrev pub snat_route : NicInfo → Option FibMacs
  snat_route nic =
      get_fib_macs k (be32 k.endian nic.nic_ip) (be32 k.endian dst_ip) ip_proto_udp
        (be16 k.endian m.frame.ipv4.tot_len) nic.nic_ifindex

  abbrev pub dnat_route : Option FibMacs
  dnat_route =
      get_fib_macs k (be32 k.endian dst_ip) (be32 k.endian src_ip) ip_proto_udp
        (be16 k.endian m.frame.ipv4.tot_len) k.ingress_ifindex

  module _ {ℓ} (P : NatResult S E → Type ℓ) (passed : P (ok none, m)) where
    snat_new_cases :
        (key : ConnectionTuple)
        → ((nic : NicInfo) (fib_macs : FibMacs)
            → m.pnic ≡ some nic
            → snat_route nic ≡ some fib_macs
            → P (snat_open tracker exposed k m src_ip dst_ip key nic fib_macs))
        → P (snat_new tracker exposed k m src_ip dst_ip key)
    unfolding snat_new
    snat_new_cases key opened = elim (Option-cases m.pnic) [
      | inl no_nic ↦ rw (no_nic, snat_new) passed
      | inr (nic, have_nic) ↦
          rw (have_nic, snat_new)
            (elim (Option-cases (snat_route nic)) [
              | inl no_route ↦ rw no_route passed
              | inr (fib_macs, route) ↦ rw route (opened nic fib_macs have_nic route)
            ])
    ]

    dnat_new_cases :
        ((info : ContainerInfo) (fib_macs : FibMacs)
          → exposed.get m.expose (be16 k.endian m.frame.udp.dest) ≡ some info
          → dnat_route ≡ some fib_macs
          → P (dnat_open tracker exposed k m src_ip dst_ip info fib_macs))
        → P (dnat_new tracker exposed k m src_ip dst_ip)
    unfolding dnat_new
    dnat_new_cases opened =
        elim (Option-cases (exposed.get m.expose (be16 k.endian m.frame.udp.dest))) [
          | inl hidden ↦ rw (hidden, dnat_new) passed
          | inr (info, found) ↦
              rw (found, dnat_new)
                (elim (Option-cases dnat_route) [
                  | inl no_route ↦ rw no_route passed
                  | inr (fib_macs, route) ↦ rw route (opened info fib_macs found route)
                ])
        ]

    pub snat_cases :
        ((state : FlowState)
          → tracker.get m.conntrack key_of ≡ some state
          → P (snat_tracked tracker exposed k m src_ip dst_ip key_of state))
        → (tracker.get m.conntrack key_of ≡ none
            → (nic : NicInfo) (fib_macs : FibMacs) → m.pnic ≡ some nic
            → snat_route nic ≡ some fib_macs
            → P (snat_open tracker exposed k m src_ip dst_ip key_of nic fib_macs))
        → P (process_udp_snat tracker exposed k m src_ip dst_ip)
    unfolding process_udp_snat
    snat_cases tracked opened = elim (Option-cases (tracker.get m.conntrack key_of)) [
      | inr (state, hit) ↦ rw (hit, process_udp_snat) (tracked state hit)
      | inl miss ↦ rw (miss, process_udp_snat) (snat_new_cases key_of (opened miss))
    ]

    pub dnat_cases :
        ((state : FlowState)
          → tracker.get m.conntrack key_of ≡ some state
          → P (dnat_tracked tracker exposed k m src_ip dst_ip key_of state))
        → (tracker.get m.conntrack key_of ≡ none
            → (info : ContainerInfo) (fib_macs : FibMacs)
            → exposed.get m.expose (be16 k.endian m.frame.udp.dest) ≡ some info
            → dnat_route ≡ some fib_macs
            → P (dnat_open tracker exposed k m src_ip dst_ip info fib_macs))
        → P (process_udp_dnat tracker exposed k m src_ip dst_ip)
    unfolding process_udp_dnat
    dnat_cases tracked opened = elim (Option-cases (tracker.get m.conntrack key_of)) [
      | inr (state, hit) ↦ rw (hit, process_udp_dnat) (tracked state hit)
      | inl miss ↦ rw (miss, process_udp_dnat) (dnat_new_cases (opened miss))
    ]
