-- ===== src/Conntrack/Deadline.antt =====
-- How long a packet leaves a flow's entry in force: until its timeout, or 30 s from now.
use xdp_natd.Base.{ℕ, ◌+◌, ◌^◌, ◌≤◌, ◌<◌, ◌≡◌, refl, ◌∙◌, inl, inr, some, Bool-cases, Option-cases}
use xdp_natd.Common.{
  ConnectionTuple, ConnectionTuple-discrete, FlowState, NatData, timeout_new, timeout_est,
}
use xdp_natd.BpfMap.{BpfMap}
use xdp_natd.Flow.{refresh}
use xdp_natd.Flow.Timeout.{refresh-deadline, refresh-nat, refresh-direction}
use xdp_natd.Conntrack.{touch_reverse, track, open_flow}
use xdp_natd.Conntrack.Pairs.{open_flow_keeps}

module _ {S : Type 0} (tracker : BpfMap ConnectionTuple FlowState S) (deadline : ℕ)
    (j : ConnectionTuple) (v : FlowState) where
  open tracker use {get, write}

  -- The entry is in the table under its translation, and times out at the deadline or later.
  pub record IsAlive (s : S) : Type 0 where
    pub entry : FlowState
    pub tracked : get s j ≡ some entry
    pub same_nat : entry.nat ≡ v.nat
    pub same_direction : entry.direction ≡ v.direction
    pub in_time : deadline ≤ entry.timeout

  -- An entry under any key is replaced by one that lives as long.
  write-IsAlive :
      (s : S) (key : ConnectionTuple) (old new : FlowState)
      → get s key ≡ some old
      → new.nat ≡ old.nat
      → new.direction ≡ old.direction
      → (deadline ≤ old.timeout → deadline ≤ new.timeout)
      → IsAlive s
      → IsAlive (write s key new)
  write-IsAlive s key old new e nat direction timeout a = elim (ConnectionTuple-discrete j key) [
    | yes own ↦
        let same : a.entry ≡ old = cc (a.tracked, e, own) in
        record {
          entry = new;
          tracked = rw own (tracker.get-write_self s key old new e);
          same_nat = cc (nat, same, a.same_nat);
          same_direction = cc (direction, same, a.same_direction);
          in_time = timeout (rw same at a.in_time);
        }
    | no ne ↦ record {
      entry = a.entry;
      tracked = tracker.get-write_ne s j key new ne ∙ a.tracked;
      same_nat = a.same_nat;
      same_direction = a.same_direction;
      in_time = a.in_time;
    }
  ]

  module _ (time : ℕ) (fits : time + timeout_est < 2 ^ 64)
      (near : deadline ≤ time + timeout_new) where
    touch_reverse-IsAlive :
        (s : S) (key : ConnectionTuple) (state : FlowState)
        → deadline ≤ state.timeout
        → IsAlive s
        → IsAlive (touch_reverse tracker s key state)
    unfolding touch_reverse
    touch_reverse-IsAlive s key state late a = elim (Option-cases (get s key)) [
      | inl absent ↦ rw (absent, touch_reverse) a
      | inr (rev, e) ↦ rw (e, touch_reverse) (write-IsAlive s key rev _ e refl refl (λ _. late) a)
    ]

    pub track-IsAlive :
        (s : S) (key : ConnectionTuple) (state : FlowState) (reverse : ConnectionTuple)
        → get s key ≡ some state
        → IsAlive s
        → IsAlive (track tracker s key state reverse time)
    unfolding track
    track-IsAlive s key state reverse e a = elim (Bool-cases (refresh state time).0) [
      | inl changed ↦ rw changed (
          touch_reverse-IsAlive (write s key (refresh state time).1) reverse (refresh state time).1
            ((refresh-deadline deadline state time fits near).0 changed) own)
      | inr fresh ↦ rw fresh own
    ]
      where
        own : IsAlive (write s key (refresh state time).1)
        own =
            write-IsAlive s key state (refresh state time).1 e (refresh-nat state time)
              (refresh-direction state time) (refresh-deadline deadline state time fits near).1 a

    pub open_flow-IsAlive :
        (s : S) (key : ConnectionTuple) (nat : NatData) (reverse : ConnectionTuple)
        (reverse_nat : NatData)
        → IsAlive s
        → IsAlive (open_flow tracker s key nat reverse reverse_nat time)
    open_flow-IsAlive s key nat reverse reverse_nat a = record {
      entry = a.entry;
      tracked = open_flow_keeps tracker s key nat reverse reverse_nat time j a.entry a.tracked;
      same_nat = a.same_nat;
      same_direction = a.same_direction;
      in_time = a.in_time;
    }
