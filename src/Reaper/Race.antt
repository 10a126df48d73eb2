-- ===== src/Reaper/Race.antt =====
-- A packet between a walk and its removals.
use xdp_natd.Base.{ℕ, ◌+◌, ◌^◌, ◌≤◌, ◌<◌, ◌≡◌, ◌≢◌, some, none, arith}
use xdp_natd.Common.{ConnectionTuple, FlowState, timeout_new, timeout_est}
use xdp_natd.BpfMap.{BpfMap}
use xdp_natd.Flow.{threshold_ns, refresh}
use xdp_natd.Flow.Timeout.{refresh-IsRefreshed}
use xdp_natd.Conntrack.{track}
use xdp_natd.Conntrack.Timeouts.{track-own}
use xdp_natd.Reaper.{TimeSpec, readable, timed_out, to_remove, remove_all}
use xdp_natd.Reaper.Laws.{ReadsWithin, timed_out-picks, remove_all-In, In-readable}

module _ {S : Type 0} (tracker : BpfMap ConnectionTuple FlowState S) where
  open tracker use {get}

  -- A walk finds that a flow has timed out, and a packet of the flow then refreshes it, by a clock
  -- that does not wrap, its two keys being different. Its timeout then lies 29 s past the packet's
  -- time or more, and the removals of that walk take its entry away all the same.
  pub reap_races :
      (clock : ℕ → TimeSpec) (start end : ℕ) (s : S) (key : ConnectionTuple) (v : FlowState)
      (reverse : ConnectionTuple) (time : ℕ)
      → ReadsWithin clock start end
      → get s key ≡ some v
      → v.timeout ≤ start
      → start ≤ time
      → time + timeout_est < 2 ^ 64
      → key ≢ reverse
      → (u : FlowState) × (get (track tracker s key v reverse time) key ≡ some u)
        × (time + timeout_new ≤ u.timeout + threshold_ns)
        × (get
              (remove_all tracker (to_remove tracker clock s) (track tracker s key v reverse time))
              key
            ≡ none)
  unfolding to_remove
  reap_races clock start end s key v reverse time within e due order fits ne = (
    (refresh v time).1,
    track-own tracker s key reverse v time ne e,
    ground (arith, (refresh-IsRefreshed v time fits (omega arith)).alive),
    remove_all-In tracker (timed_out clock 0 (readable (tracker.iter s)))
        (track tracker s key v reverse time) key
        (timed_out-picks clock start end within 0 (readable (tracker.iter s)) key v
          (In-readable (key, v) (tracker.iter s) (tracker.iter_complete s key v e)) due),
  )
