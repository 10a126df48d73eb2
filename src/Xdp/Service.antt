-- ===== src/Xdp/Service.antt =====
-- A request to an exposed port and its answer, through both programs.
use xdp_natd.Base.{ok, ℕ, ◌^◌, ◌<◌, ◌≡◌, ◌≢◌, refl, ap, ◌∙◌, none, some}
use xdp_natd.Common.{
  ConnectionTuple, ContainerInfo, FibMacs, FlowState, NatData, connection_tuple, nat_data,
  flow_state, reply, timeout_new,
}
use xdp_natd.Word.{add64, be16, be16-lt, be32-lt}
use xdp_natd.BpfMap.{BpfMap}
use xdp_natd.Rewrite.Sums.{IsNat}
use xdp_natd.Rewrite.ZeroCheck.{source_of, dest_of, snat_frame-source, dnat_frame-dest}
use xdp_natd.Kernel.{Kernel}
use xdp_natd.Conntrack.Opens.{HasRoom, open_flow-HasRoom}
use xdp_natd.Xdp.{Machine, dnat_open}
use xdp_natd.Xdp.Cases.{dnat_route}
use xdp_natd.Xdp.Later.{Keeps, flow_key-eq}
use xdp_natd.Xdp.Paths.{src_ip, dst_ip, flow_key, outbound, inbound, outbound_hit, inbound_first}

module _ {S E : Type 0} (tracker : BpfMap ConnectionTuple FlowState S)
    (exposed : BpfMap ℕ ContainerInfo E) (k : Kernel) (m : Machine S E) (info : ContainerInfo)
    (fib_macs : FibMacs) where
  abbrev in_nat : NatData
  in_nat =
      nat_data info.container_ip info.container_port
        (record { fib_smac = m.frame.eth.dst_addr; fib_dmac = info.container_mac })
        info.container_ip

  abbrev pub answer_key : ConnectionTuple
  answer_key =
      connection_tuple info.container_ip (src_ip tracker exposed k m) info.container_port
        (be16 k.endian m.frame.udp.source)

  abbrev pub answer_nat : NatData
  answer_nat = nat_data (dst_ip tracker exposed k m) (be16 k.endian m.frame.udp.dest) fib_macs 0

  -- The first packet of a remote host to an exposed port: its flow is new, a route back is known,
  -- and the UDP checksum is in use.
  pub record Arrives : Type 0 where
    pub untracked : tracker.get m.conntrack (flow_key tracker exposed k m) ≡ none
    pub is_exposed : exposed.get m.expose (be16 k.endian m.frame.udp.dest) ≡ some info
    pub route :
        dnat_route tracker exposed k m (src_ip tracker exposed k m) (dst_ip tracker exposed k m)
        ≡ some fib_macs
    pub check_used : m.frame.udp.check ≢ 0
    pub container_ip-lt : info.container_ip < 2 ^ 32
    pub container_port-lt : info.container_port < 2 ^ 16
    pub dst_addr-lt : m.frame.ipv4.dst_addr < 2 ^ 32
    pub dest-lt : m.frame.udp.dest < 2 ^ 16

  -- The table takes both directions of the flow.
  abbrev pub Fits : Type 0
  Fits =
      HasRoom tracker m.conntrack (flow_key tracker exposed k m) in_nat answer_key answer_nat
        k.ktime

  in_nat-IsNat : Arrives → IsNat in_nat
  in_nat-IsNat h = record { addr = h.container_ip-lt; port = h.container_port-lt }

  answer_nat-IsNat : Arrives → IsNat answer_nat
  answer_nat-IsNat h = record {
    addr = be32-lt k.endian m.frame.ipv4.dst_addr h.dst_addr-lt;
    port = be16-lt k.endian m.frame.udp.dest h.dest-lt;
  }

  arrived :
      Arrives
      → inbound tracker exposed k m
        ≡ dnat_open tracker exposed k m
            (src_ip tracker exposed k m)
            (dst_ip tracker exposed k m)
            info
            fib_macs
  arrived h = inbound_first tracker exposed k m info fib_macs h.untracked h.is_exposed h.route

  -- A request goes to the exposed container: to its address and port, by its entry of REDIRECT_MAP
  -- and to its MAC address, from the same source.
  pub request_translated :
      Arrives
      → (nat : NatData) × ((inbound tracker exposed k m).0 ≡ ok (some nat))
        × (nat.devmap_key ≡ info.container_ip)
        × (nat.fib_macs.fib_dmac ≡ info.container_mac)
        × (dest_of k.endian (inbound tracker exposed k m).1.frame
            ≡ (info.container_ip, info.container_port))
        × (source_of k.endian (inbound tracker exposed k m).1.frame ≡ source_of k.endian m.frame)
  unfolding dnat_open
  request_translated h =
      let sent = dnat_frame-dest k.endian in_nat m.frame (in_nat-IsNat h) h.check_used in
      (in_nat, ap (λ r. r.0) (arrived h), refl, refl, rw (arrived h) sent.0, rw (arrived h) sent.1)

  pub answer_awaited :
      Arrives
      → Fits
      → tracker.get (inbound tracker exposed k m).1.conntrack answer_key
        ≡ some (flow_state answer_nat reply (add64 k.ktime timeout_new))
  unfolding dnat_open
  answer_awaited h room =
      rw (arrived h)
        (open_flow-HasRoom tracker m.conntrack (flow_key tracker exposed k m) in_nat answer_key
          answer_nat k.ktime room).1

  -- The container's answer, when its flow has been kept, leaves through the host's device by the
  -- route back and under the address and the port that the request was sent to, for the host that
  -- sent it.
  pub answer_translated :
      Arrives
      → Fits
      → (k' : Kernel) (r : Machine S E)
      → Keeps tracker exposed answer_key (inbound tracker exposed k m).1.conntrack r.conntrack
      → source_of k'.endian r.frame ≡ (info.container_ip, info.container_port)
      → dest_of k'.endian r.frame ≡ source_of k.endian m.frame
      → r.frame.udp.check ≢ 0
      → (nat : NatData) × ((outbound tracker exposed k' r).0 ≡ ok (some nat))
        × (nat.devmap_key ≡ 0)
        × (nat.fib_macs ≡ fib_macs)
        × (source_of k'.endian (outbound tracker exposed k' r).1.frame ≡ dest_of k.endian m.frame)
        × (dest_of k'.endian (outbound tracker exposed k' r).1.frame ≡ source_of k.endian m.frame)
  answer_translated h room k' r kept from to used =
      let (v', e', n') = kept _ (answer_awaited h room) in
      let key = flow_key-eq tracker exposed k' r _ _ _ _ from to in
      let hit = outbound_hit tracker exposed k' r v' (ap (tracker.get r.conntrack) key ∙ e') in
      let same : v'.nat ≡ answer_nat = n' in
      let sent = snat_frame-source k'.endian answer_nat r.frame (answer_nat-IsNat h) used in
      (
        answer_nat,
        hit.0 ∙ ap (λ nat. ok (some nat)) same,
        refl,
        refl,
        rw (hit.1, same) sent.0,
        rw (hit.1, same) sent.1 ∙ to,
      )
