-- ===== src/Xdp/RoundTrip.antt =====
-- A packet's way out and its answer's way back, through both programs.
use xdp_natd.Base.{ok, ℕ, ◌^◌, ◌<◌, ◌≡◌, ◌≢◌, refl, ap, ◌∙◌, none, some}
use xdp_natd.Common.{
  ConnectionTuple, ContainerInfo, FibMacs, FlowState, NatData, NicInfo, connection_tuple, nat_data,
  flow_state, reply, timeout_new,
}
use xdp_natd.Word.{add64, be16, be16-lt, be32-lt}
use xdp_natd.BpfMap.{BpfMap}
use xdp_natd.Rewrite.Sums.{IsNat}
use xdp_natd.Rewrite.ZeroCheck.{source_of, dest_of, snat_frame-source, dnat_frame-dest}
use xdp_natd.Kernel.{Kernel}
use xdp_natd.Conntrack.Opens.{HasRoom, open_flow-HasRoom}
use xdp_natd.Xdp.{Machine, snat_open}
use xdp_natd.Xdp.Cases.{snat_route}
use xdp_natd.Xdp.Later.{Keeps, flow_key-eq}
use xdp_natd.Xdp.Paths.{src_ip, dst_ip, flow_key, outbound, inbound, inbound_hit, outbound_first}

module _ {S E : Type 0} (tracker : BpfMap ConnectionTuple FlowState S)
    (exposed : BpfMap ℕ ContainerInfo E) where
  -- A container's first packet: its flow is new, the host's device and a route are known, and the UDP
  -- checksum is in use.
  module _ (k : Kernel) (m : Machine S E) (nic : NicInfo) (fib_macs : FibMacs) where
    abbrev pub out_nat : NatData
    out_nat = nat_data nic.nic_ip (be16 k.endian m.frame.udp.source) fib_macs 0

    abbrev pub back_key : ConnectionTuple
    back_key =
        connection_tuple (dst_ip tracker exposed k m) nic.nic_ip (be16 k.endian m.frame.udp.dest)
          (be16 k.endian m.frame.udp.source)

    abbrev pub back_nat : NatData
    back_nat =
        nat_data (src_ip tracker exposed k m) (be16 k.endian m.frame.udp.source)
          (record { fib_smac = fib_macs.fib_smac; fib_dmac = m.frame.eth.src_addr })
          (src_ip tracker exposed k m)

    pub record Leaves : Type 0 where
      pub untracked : tracker.get m.conntrack (flow_key tracker exposed k m) ≡ none
      pub have_nic : m.pnic ≡ some nic
      pub route :
          snat_route tracker exposed k m
            (src_ip tracker exposed k m)
            (dst_ip tracker exposed k m)
            nic
          ≡ some fib_macs
      pub check_used : m.frame.udp.check ≢ 0
      pub nic_ip-lt : nic.nic_ip < 2 ^ 32
      pub src_addr-lt : m.frame.ipv4.src_addr < 2 ^ 32
      pub source-lt : m.frame.udp.source < 2 ^ 16

    -- The table takes both directions of the flow.
    abbrev pub Fits : Type 0
    Fits =
        HasRoom tracker m.conntrack (flow_key tracker exposed k m) out_nat back_key back_nat k.ktime

    out_nat-IsNat : Leaves → IsNat out_nat
    out_nat-IsNat h = record {
      addr = h.nic_ip-lt;
      port = be16-lt k.endian m.frame.udp.source h.source-lt;
    }

    back_nat-IsNat : Leaves → IsNat back_nat
    back_nat-IsNat h = record {
      addr = be32-lt k.endian m.frame.ipv4.src_addr h.src_addr-lt;
      port = be16-lt k.endian m.frame.udp.source h.source-lt;
    }

    pub opened :
        Leaves
        → outbound tracker exposed k m
          ≡ snat_open tracker exposed k m
              (src_ip tracker exposed k m)
              (dst_ip tracker exposed k m)
              (flow_key tracker exposed k m)
              nic
              fib_macs
    opened h = outbound_first tracker exposed k m nic fib_macs h.untracked h.have_nic h.route

    -- It leaves under the host's address and its own port, for the same destination.
    pub outbound_translated :
        Leaves
        → let f = (outbound tracker exposed k m).1.frame in
          ((outbound tracker exposed k m).0 ≡ ok (some out_nat))
          × (source_of k.endian f ≡ (nic.nic_ip, be16 k.endian m.frame.udp.source))
          × (dest_of k.endian f ≡ dest_of k.endian m.frame)
          × (f.eth ≡ m.frame.eth)
    unfolding snat_open
    outbound_translated h =
        let sent = snat_frame-source k.endian out_nat m.frame (out_nat-IsNat h) h.check_used in
        rw (opened h) (refl, sent.0, sent.1, sent.2)

    pub reply_awaited :
        Leaves
        → Fits
        → tracker.get (outbound tracker exposed k m).1.conntrack back_key
          ≡ some (flow_state back_nat reply (add64 k.ktime timeout_new))
    unfolding snat_open
    reply_awaited h room =
        rw (opened h)
          (open_flow-HasRoom tracker m.conntrack (flow_key tracker exposed k m) out_nat back_key
            back_nat k.ktime room).1

    -- An answer to it, when its flow has been kept, goes to the container that sent it: to its address
    -- and port, by its entry of REDIRECT_MAP and to its MAC address.
    pub reply_translated :
        Leaves
        → Fits
        → (k' : Kernel) (r : Machine S E)
        → Keeps tracker exposed back_key (outbound tracker exposed k m).1.conntrack r.conntrack
        → source_of k'.endian r.frame ≡ dest_of k.endian m.frame
        → dest_of k'.endian r.frame ≡ (nic.nic_ip, be16 k.endian m.frame.udp.source)
        → r.frame.udp.check ≢ 0
        → (nat : NatData) × ((inbound tracker exposed k' r).0 ≡ ok (some nat))
          × (nat.devmap_key ≡ src_ip tracker exposed k m)
          × (nat.fib_macs.fib_dmac ≡ m.frame.eth.src_addr)
          × (dest_of k'.endian (inbound tracker exposed k' r).1.frame ≡ source_of k.endian m.frame)
          × (source_of k'.endian (inbound tracker exposed k' r).1.frame
              ≡ source_of k'.endian r.frame)
    reply_translated h room k' r kept from to used =
        let (v', e', n') = kept _ (reply_awaited h room) in
        let key = flow_key-eq tracker exposed k' r _ _ _ _ from to in
        let hit = inbound_hit tracker exposed k' r v' (ap (tracker.get r.conntrack) key ∙ e') in
        let same : v'.nat ≡ back_nat = n' in
        let aimed = dnat_frame-dest k'.endian back_nat r.frame (back_nat-IsNat h) used in
        (
          back_nat,
          hit.0 ∙ ap (λ nat. ok (some nat)) same,
          refl,
          refl,
          rw (hit.1, same) aimed.0,
          rw (hit.1, same) aimed.1,
        )
