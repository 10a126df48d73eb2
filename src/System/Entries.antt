-- ===== src/System/Entries.antt =====
-- What becomes of a tracked flow from one step to the next.
use xdp_natd.Base.{ℕ, ◌≡◌, refl, ◌∙◌, ◌⊎◌, inl, inr, some, none, In}
use xdp_natd.Common.{ConnectionTuple, ConnectionTuple-discrete, ContainerInfo, FlowState}
use xdp_natd.BpfMap.{BpfMap, get-remove_self}
use xdp_natd.Xdp.Stable.{run_keeps_translation}
use xdp_natd.Iptables.{Iptables}
use xdp_natd.System.{System, Step, tick, packet, walk, removal, request, machine_of}

module _ {S E N : Type 0} (tracker : BpfMap ConnectionTuple FlowState S)
    (exposed : BpfMap ℕ ContainerInfo E) (tables : Iptables N) where
  -- An entry is in the table under its translation, or the task has collected it and it is gone.
  abbrev pub KeptOrRemoved : System S E N → System S E N → ConnectionTuple → FlowState → Type 0
  KeptOrRemoved s t j v =
      ((v' : FlowState) × (tracker.get t.conntrack j ≡ some v')
        × (v'.nat ≡ v.nat)
        × (v'.direction ≡ v.direction))
      ⊎ (In j s.to_go × (tracker.get t.conntrack j ≡ none))

  removal-KeptOrRemoved :
      (s : System S E N) (j key : ConnectionTuple) (v : FlowState)
      → In key s.to_go
      → tracker.get s.conntrack j ≡ some v
      → KeptOrRemoved s (record s { conntrack = (tracker.remove s.conntrack key).1 }) j v
  removal-KeptOrRemoved s j key v first e = elim (ConnectionTuple-discrete j key) [
    | yes own ↦ inr (rw own first, rw own (get-remove_self tracker s.conntrack key))
    | no ne ↦ inl (v, tracker.remove_ne s.conntrack j key ne ∙ e, refl, refl)
  ]

  -- After any step, a flow that was tracked is so still, under the same translation and direction,
  -- or it is gone, and then the reaper had collected its key before.
  pub Step-KeptOrRemoved :
      (s t : System S E N) (j : ConnectionTuple) (v : FlowState)
      → Step tracker exposed tables s t
      → tracker.get s.conntrack j ≡ some v
      → KeptOrRemoved s t j v
  Step-KeptOrRemoved s _ j v (tick t later fits) e = inl (v, e, refl, refl)
  Step-KeptOrRemoved s _ j v (packet k flag f at_now) e =
      inl
        (run_keeps_translation tracker exposed k (machine_of tracker exposed tables s f) flag j v e)
  Step-KeptOrRemoved s _ j v (walk clock readings idle) e = inl (v, e, refl, refl)
  Step-KeptOrRemoved s _ j v (removal key keys first) e =
      removal-KeptOrRemoved s j key v (rw first (inl refl)) e
  Step-KeptOrRemoved s _ j v (request req) e = inl (v, e, refl, refl)
