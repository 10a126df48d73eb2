-- ===== src/System/Invariant.antt =====
-- What holds in every state that packets, time, the reaper and requests lead to.
use xdp_natd.Base.{ℕ, subst, ◌+◌, ◌^◌, ◌≤◌, ◌<◌, arith}
use xdp_natd.Common.{ConnectionTuple, ContainerInfo, FlowState, timeout_est}
use xdp_natd.BpfMap.{BpfMap}
use xdp_natd.Conntrack.Timeouts.{IsBounded, IsBounded-mono, remove-IsBounded}
use xdp_natd.Xdp.Stable.{machine_after, run_keeps_bound}
use xdp_natd.PortAllocator.Partition.{new-Partition}
use xdp_natd.Iptables.{Iptables}
use xdp_natd.Iptables.Chain.{Chain}
use xdp_natd.Api.Mirrors.{Mirrors, empty-Mirrors}
use xdp_natd.Api.Mirrors.Handlers.{handle-Mirrors}
use xdp_natd.Api.Ports.{Owns, handle-Owns}
use xdp_natd.System.{
  System, Step, tick, packet, walk, removal, request, machine_of, Started, Reachable, start, step,
}

module _ {S E N : Type 0} (tracker : BpfMap ConnectionTuple FlowState S)
    (exposed : BpfMap ℕ ContainerInfo E) (tables : Iptables N) (chain : Chain tables)
    (lower upper : ℕ) where
  -- No timeout lies more than 180 s ahead, each port of the range is free once or exposed, the rules
  -- of iptables are those of the exposed ports, and the clock is in range.
  pub record IsSound (s : System S E N) : Type 0 where
    pub bounded : IsBounded tracker s.now s.conntrack
    pub owned : Owns exposed tables lower upper s.app
    pub mirrored : Mirrors exposed tables chain s.app.expose_map s.nat_tables
    pub in_range : s.now + timeout_est < 2 ^ 64

  Started-IsSound :
      (s : System S E N)
      → lower ≤ upper
      → Started tracker exposed tables chain lower upper s
      → IsSound s
  Started-IsSound s order h = record {
    bounded = λ j v e. ground (arith, h.untracked j);
    owned = rw h.all_free (new-Partition exposed lower upper s.app.expose_map h.hidden order);
    mirrored = empty-Mirrors exposed tables chain s.app.expose_map s.nat_tables h.hidden h.no_rules;
    in_range = h.in_range;
  }

  Step-IsSound : (s t : System S E N) → IsSound s → Step tracker exposed tables s t → IsSound t
  Step-IsSound s _ v (tick t later fits) = record {
    bounded = IsBounded-mono tracker s.now t s.conntrack later v.bounded;
    owned = v.owned;
    mirrored = v.mirrored;
    in_range = fits;
  }
  Step-IsSound s _ v (packet k flag f at_now) = record {
    bounded =
        subst
          (λ (t : ℕ).
            IsBounded tracker t
              (machine_after tracker exposed k (machine_of tracker exposed tables s f)
                flag).conntrack)
          at_now
          (run_keeps_bound tracker exposed k (machine_of tracker exposed tables s f) flag
            (rw at_now v.in_range) (rw at_now v.bounded));
    owned = v.owned;
    mirrored = v.mirrored;
    in_range = v.in_range;
  }
  Step-IsSound s _ v (walk clock readings idle) = record {
    bounded = v.bounded;
    owned = v.owned;
    mirrored = v.mirrored;
    in_range = v.in_range;
  }
  Step-IsSound s _ v (removal key keys first) = record {
    bounded = remove-IsBounded tracker s.now s.conntrack key v.bounded;
    owned = v.owned;
    mirrored = v.mirrored;
    in_range = v.in_range;
  }
  Step-IsSound s _ v (request req) = record {
    bounded = v.bounded;
    owned = handle-Owns exposed tables lower upper s.app s.nat_tables req v.owned;
    mirrored =
        handle-Mirrors exposed tables chain lower upper s.app s.nat_tables req v.owned v.mirrored;
    in_range = v.in_range;
  }

  -- By the laws of Chain for iptables: in every state that packets, passing time, walks, removals
  -- and requests lead to, in any order, from a start with an empty table, no rule for any port, and
  -- all ports of a non-empty range free: no timeout lies more than 180 s ahead, each port of the
  -- range is free once or exposed and no other port is either, each exposed port has its rule once
  -- and each rule that the daemon may name is that of an exposed port, and the clock is in range.
  pub Reachable-IsSound :
      (s : System S E N)
      → lower ≤ upper
      → Reachable tracker exposed tables chain lower upper s
      → IsSound s
  Reachable-IsSound s order (start h) = Started-IsSound s order h
  Reachable-IsSound s order (step {s = r} before next) =
      Step-IsSound r s (Reachable-IsSound r order before) next
