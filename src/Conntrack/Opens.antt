-- ===== src/Conntrack/Opens.antt =====
-- A flow that opens in full, and one whose reply key is taken.
use xdp_natd.Base.{ℕ, ◌≡◌, ◌≢◌, true, some, ◌∙◌}
use xdp_natd.Common.{ConnectionTuple, FlowState, NatData, flow_state, original, reply, timeout_new}
use xdp_natd.Word.{add64}
use xdp_natd.BpfMap.{BpfMap, bpf_noexist}
use xdp_natd.Conntrack.{open_flow}

module _ {S : Type 0} (tracker : BpfMap ConnectionTuple FlowState S) (s : S) (key : ConnectionTuple)
    (nat : NatData) (reverse : ConnectionTuple) (reverse_nat : NatData) (time : ℕ) where
  -- Both insertions succeed: the two keys differ, neither is there, and the map has room.
  pub record HasRoom : Type 0 where
    pub apart : key ≢ reverse
    pub first :
        (tracker.insert s key (flow_state nat original (add64 time timeout_new)) bpf_noexist).0
        ≡ true
    pub second :
        (tracker.insert
          (tracker.insert s key (flow_state nat original (add64 time timeout_new)) bpf_noexist).1
          reverse
          (flow_state reverse_nat reply (add64 time timeout_new))
          bpf_noexist).0
        ≡ true

  -- Then both directions are tracked, each with its own translation.
  pub open_flow-HasRoom :
      HasRoom
      → (tracker.get (open_flow tracker s key nat reverse reverse_nat time) key
          ≡ some (flow_state nat original (add64 time timeout_new)))
        × (tracker.get (open_flow tracker s key nat reverse reverse_nat time) reverse
            ≡ some (flow_state reverse_nat reply (add64 time timeout_new)))
  unfolding open_flow
  open_flow-HasRoom room = (
    tracker.insert_ne _ key reverse _ bpf_noexist room.apart
        ∙ tracker.insert_ok s key _ bpf_noexist room.first,
    tracker.insert_ok _ reverse _ bpf_noexist room.second,
  )
