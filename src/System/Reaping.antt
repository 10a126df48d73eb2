-- ===== src/System/Reaping.antt =====
-- A walk and its removals as steps of the system.
use xdp_natd.Base.{ℕ, refl, List, [], ◌∷◌}
use xdp_natd.Common.{ConnectionTuple, ContainerInfo, FlowState}
use xdp_natd.BpfMap.{BpfMap}
use xdp_natd.Iptables.{Iptables}
use xdp_natd.Reaper.{remove_all}
use xdp_natd.System.{System, Step, removal}

module _ {S E N : Type 0} (tracker : BpfMap ConnectionTuple FlowState S)
    (exposed : BpfMap ℕ ContainerInfo E) (tables : Iptables N) where
  -- Any number of steps.
  pub data Steps : System S E N → System S E N → Type 0 where
    done : {s : System S E N} → Steps s s
    then : {s t u : System S E N} → Step tracker exposed tables s t → Steps t u → Steps s u

  -- All removals of a walk.
  pub removals :
      (keys : List ConnectionTuple) (s : System S E N)
      → Steps
          (record s { to_go = keys })
          (record s { conntrack = remove_all tracker keys s.conntrack; to_go = [] })
  unfolding remove_all
  removals [] s = done
  removals (key ∷ keys) s =
      then (removal key keys refl)
        (removals keys (record s { conntrack = (tracker.remove s.conntrack key).1 }))
