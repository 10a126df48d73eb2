-- ===== src/Concurrent/Ways.antt =====
-- The ways through a run, as a rule: what holds of every way holds of the run.
use xdp_natd.Base.{ℕ, ◌≡◌, refl, inl, inr, Option, none, some, Option-cases}
use xdp_natd.Common.{ConnectionTuple, ContainerInfo, FlowState, NatData, NicInfo}
use xdp_natd.Word.{be16, be32}
use xdp_natd.BpfMap.{BpfMap}
use xdp_natd.Frame.{Frame, ip_proto_udp}
use xdp_natd.Rewrite.{snat_frame, dnat_frame}
use xdp_natd.Kernel.{Kernel, get_fib_macs}
use xdp_natd.Xdp.{Flags, snat, dnat}
use xdp_natd.Concurrent.{
  Access, return, bpf_ktime_get_coarse_ns, get_ptr_mut, track, open_flow, Translated, key_of,
  snat_found, snat_new, snat_open, dnat_found, dnat_new, dnat_open, process, process_udp_snat,
  process_udp_dnat,
}

module _ {E : Type 0} (exposed : BpfMap ℕ ContainerInfo E) (k : Kernel) (frame : Frame) (expose : E)
    (pnic : Option NicInfo) (src_ip dst_ip : ℕ) where
  -- The packet under a translation.
  abbrev pub translate : Flags → NatData → Frame
  translate snat nat = snat_frame k.endian nat frame
  translate dnat nat = dnat_frame k.endian nat frame

  -- A run after it has looked its flow up.
  abbrev pub looked_up : Flags → Option FlowState → Access Translated
  looked_up snat = snat_found exposed k frame expose pnic src_ip dst_ip
  looked_up dnat = dnat_found exposed k frame expose pnic src_ip dst_ip

  pub process-looked_up :
      (flag : Flags)
      → process exposed k frame expose pnic src_ip dst_ip flag
        ≡ get_ptr_mut (key_of exposed k frame expose pnic src_ip dst_ip) (looked_up flag)
  unfolding process process_udp_snat process_udp_dnat
  process-looked_up snat = refl
  process-looked_up dnat = refl

  module _ {ℓ} (P : Access Translated → Type ℓ) (passed : P (return (none, frame)))
      (opened : (key : ConnectionTuple) (nat : NatData) (reverse : ConnectionTuple)
          (reverse_nat : NatData) (f : Frame)
        → P (
            bpf_ktime_get_coarse_ns
              (λ time. open_flow key nat reverse reverse_nat time (some nat, f)))) where
    snat_new_ways : P (snat_new exposed k frame expose pnic src_ip dst_ip)
    unfolding snat_new snat_open
    snat_new_ways = elim (Option-cases pnic) [
      | inl no_nic ↦ rw (no_nic, snat_new) passed
      | inr (nic, have_nic) ↦
          rw (have_nic, snat_new)
            (elim (Option-cases (
              get_fib_macs k (be32 k.endian nic.nic_ip) (be32 k.endian dst_ip) ip_proto_udp
                (be16 k.endian frame.ipv4.tot_len) nic.nic_ifindex)) [
                  | inl no_route ↦ rw no_route passed
                  | inr (fib_macs, route) ↦ rw route (opened _ _ _ _ _)
                ])
    ]

    dnat_new_ways : P (dnat_new exposed k frame expose pnic src_ip dst_ip)
    unfolding dnat_new dnat_open
    dnat_new_ways = elim (Option-cases (exposed.get expose (be16 k.endian frame.udp.dest))) [
      | inl hidden ↦ rw (hidden, dnat_new) passed
      | inr (info, found) ↦
          rw (found, dnat_new)
            (elim (Option-cases (
              get_fib_macs k (be32 k.endian dst_ip) (be32 k.endian src_ip) ip_proto_udp
                (be16 k.endian frame.ipv4.tot_len) k.ingress_ifindex)) [
                  | inl no_route ↦ rw no_route passed
                  | inr (fib_macs, route) ↦ rw route (opened _ _ _ _ _)
                ])
    ]

    pub looked_up_ways :
        (flag : Flags) (found : Option FlowState)
        → ((state : FlowState) (reverse_of : NatData → ConnectionTuple)
            → found ≡ some state
            → P (
                bpf_ktime_get_coarse_ns (λ time.
                  track
                    (key_of exposed k frame expose pnic src_ip dst_ip)
                    state
                    reverse_of
                    time
                    (λ nat. (some nat, translate flag nat)))))
        → P (looked_up flag found)
    unfolding snat_found dnat_found
    looked_up_ways snat none tracked = snat_new_ways
    looked_up_ways snat (some state) tracked = tracked state _ refl
    looked_up_ways dnat none tracked = dnat_new_ways
    looked_up_ways dnat (some state) tracked = tracked state _ refl

  -- A tracked flow's packet has one way.
  pub looked_up_tracked {ℓ} :
      (P : Access Translated → Type ℓ) (flag : Flags) (state : FlowState) (found : Option FlowState)
      → found ≡ some state
      → ((reverse_of : NatData → ConnectionTuple)
          → P (
              bpf_ktime_get_coarse_ns (λ time.
                track
                  (key_of exposed k frame expose pnic src_ip dst_ip)
                  state
                  reverse_of
                  time
                  (λ nat. (some nat, translate flag nat)))))
      → P (looked_up flag found)
  unfolding snat_found dnat_found
  looked_up_tracked P snat state found here tracked = rw (here, snat_found) (tracked _)
  looked_up_tracked P dnat state found here tracked = rw (here, dnat_found) (tracked _)
