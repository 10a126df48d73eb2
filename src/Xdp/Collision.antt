-- ===== src/Xdp/Collision.antt =====
-- Two containers that use one source port towards one remote endpoint.
use xdp_natd.Base.{ok, ℕ, ◌≡◌, ◌≢◌, sym, ap, ◌∙◌, some}
use xdp_natd.Common.{ConnectionTuple, ContainerInfo, FibMacs, FlowState, NicInfo}
use xdp_natd.Word.{be16}
use xdp_natd.BpfMap.{BpfMap}
use xdp_natd.Rewrite.Sums.{IsNat}
use xdp_natd.Rewrite.ZeroCheck.{source_of, dest_of, dnat_frame-dest}
use xdp_natd.Kernel.{Kernel}
use xdp_natd.Conntrack.Pairs.{open_flow_keeps}
use xdp_natd.Xdp.{Machine, snat_open}
use xdp_natd.Xdp.Later.{Later, Later-Keeps, flow_key-eq}
use xdp_natd.Xdp.Paths.{src_ip, flow_key, outbound, inbound, inbound_hit}
use xdp_natd.Xdp.RoundTrip.{out_nat, back_key, back_nat, Leaves, opened}

module _ {S E : Type 0} (tracker : BpfMap ConnectionTuple FlowState S)
    (exposed : BpfMap ℕ ContainerInfo E) (k : Kernel) (m : Machine S E) (nic : NicInfo)
    (fib_macs : FibMacs) where
  taken :
      Leaves tracker exposed k m nic fib_macs
      → (v : FlowState)
      → tracker.get m.conntrack (back_key tracker exposed k m nic fib_macs) ≡ some v
      → tracker.get
          (outbound tracker exposed k m).1.conntrack
          (back_key tracker exposed k m nic fib_macs)
        ≡ some v
  unfolding snat_open
  taken h v e = rw (opened tracker exposed k m nic fib_macs h) (
      open_flow_keeps tracker m.conntrack (flow_key tracker exposed k m)
        (out_nat tracker exposed k m nic fib_macs) (back_key tracker exposed k m nic fib_macs)
        (back_nat tracker exposed k m nic fib_macs) k.ktime
        (back_key tracker exposed k m nic fib_macs) v e)

  -- A container's first packet finds the key of its answers taken, by a flow whose address is
  -- another's. After any other packets, an answer to it with a UDP checksum gets that flow's
  -- translation and is sent to that flow's address and port, and so not to the container.
  pub reply_misdelivered :
      Leaves tracker exposed k m nic fib_macs
      → (v : FlowState)
      → tracker.get m.conntrack (back_key tracker exposed k m nic fib_macs) ≡ some v
      → IsNat v.nat
      → v.nat.nat_addr ≢ src_ip tracker exposed k m
      → (k' : Kernel) (r : Machine S E)
      → Later tracker exposed (outbound tracker exposed k m).1.conntrack r.conntrack
      → source_of k'.endian r.frame ≡ dest_of k.endian m.frame
      → dest_of k'.endian r.frame ≡ (nic.nic_ip, be16 k.endian m.frame.udp.source)
      → r.frame.udp.check ≢ 0
      → ((inbound tracker exposed k' r).0 ≡ ok (some v.nat))
        × (dest_of k'.endian (inbound tracker exposed k' r).1.frame
            ≡ (v.nat.nat_addr, v.nat.nat_port))
        × (dest_of k'.endian (inbound tracker exposed k' r).1.frame ≢ source_of k.endian m.frame)
  reply_misdelivered h v e n other k' r later from to used =
      let (v', e', same) = Later-Keeps tracker exposed _ later v (taken h v e) in
      let key = flow_key-eq tracker exposed k' r _ _ _ _ from to in
      let hit = inbound_hit tracker exposed k' r v' (ap (tracker.get r.conntrack) key ∙ e') in
      let aimed : dest_of k'.endian (inbound tracker exposed k' r).1.frame
          ≡ (v.nat.nat_addr, v.nat.nat_port) =
        rw (hit.1, same) (dnat_frame-dest k'.endian v.nat r.frame n used).0 in
      (
        hit.0 ∙ ap (λ nat. ok (some nat)) same,
        aimed,
        λ own. other (ap (λ (p : ℕ × ℕ). p.0) (sym aimed ∙ own)),
      )
