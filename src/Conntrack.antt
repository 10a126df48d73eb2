-- ===== src/Conntrack.antt =====
-- The table of tracked flows, UDP_CONNTRACK, as process_udp_snat and process_udp_dnat of
-- xdp-natd-ebpf/src/main.rs change it.
pub mod Pairs
pub mod Timeouts
pub mod Opens
pub mod Deadline
use xdp_natd.Base.{ℕ, none, some, if◌then◌else◌}
use xdp_natd.Common.{ConnectionTuple, FlowState, NatData, flow_state, original, reply, timeout_new}
use xdp_natd.Word.{add64}
use xdp_natd.BpfMap.{BpfMap, bpf_noexist}
use xdp_natd.Flow.{refresh}

module _ {S : Type 0} (tracker : BpfMap ConnectionTuple FlowState S) where
  -- A change of a flow is carried over to the flow of the other direction, if that is tracked.
  unfoldable pub touch_reverse : S → ConnectionTuple → FlowState → S
  touch_reverse conntrack key state = elim (tracker.get conntrack key) [
    | none ↦ conntrack
    | some rev_conn ↦
        tracker.write conntrack key
          (record rev_conn { seen_reply = state.seen_reply; timeout = state.timeout })
  ]

  -- A packet of a tracked flow: the flow is refreshed in place, and so is its reverse.
  unfoldable pub track : S → ConnectionTuple → FlowState → ConnectionTuple → ℕ → S
  unfolding touch_reverse
  track conntrack key state reverse time =
      let (update_reverse, state') = refresh state time in
      let conntrack' = tracker.write conntrack key state' in
      if update_reverse then touch_reverse conntrack' reverse state' else conntrack'

  -- Both directions of a new flow; what an insertion reports is ignored.
  unfoldable pub open_flow : S → ConnectionTuple → NatData → ConnectionTuple → NatData → ℕ → S
  open_flow conntrack key nat reverse reverse_nat time =
      let conn_orig = flow_state nat original (add64 time timeout_new) in
      let conn_reply = flow_state reverse_nat reply (add64 time timeout_new) in
      let conntrack' = (tracker.insert conntrack key conn_orig bpf_noexist).1 in
      (tracker.insert conntrack' reverse conn_reply bpf_noexist).1
