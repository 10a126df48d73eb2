-- ===== src/Concurrent/Kept.antt =====
-- What becomes of a tracked flow while processors run.
use xdp_natd.Base.{ℕ, ◌≡◌, refl, ◌∙◌, ◌⊎◌, inl, inr, none, some, In}
use xdp_natd.Common.{ConnectionTuple, ConnectionTuple-discrete, ContainerInfo, FlowState}
use xdp_natd.BpfMap.{BpfMap, get-remove_self, insert_keeps_all}
use xdp_natd.Concurrent.{
  Access, return, bpf_ktime_get_coarse_ns, get_ptr_mut, read, set_seen_reply, set_timeout, insert,
  update, advance,
}
use xdp_natd.Concurrent.Updates.{get-update_self, get-update_ne}
use xdp_natd.Concurrent.Processors.{Processors, Step, tick, arrival, access, walk, removal}

module _ {S : Type 0} (tracker : BpfMap ConnectionTuple FlowState S) where
  open tracker use {get}

  -- An entry under a translation and in a direction.
  abbrev pub Kept : S → ConnectionTuple → FlowState → Type 0
  Kept s j v =
      (v' : FlowState) × (get s j ≡ some v') × (v'.nat ≡ v.nat) × (v'.direction ≡ v.direction)

  update-Kept :
      (s : S) (j key : ConnectionTuple) (f : FlowState → FlowState) (v : FlowState)
      → ((w : FlowState) → ((f w).nat ≡ w.nat) × ((f w).direction ≡ w.direction))
      → get s j ≡ some v
      → Kept (update tracker s key f) j v
  update-Kept s j key f v same e = elim (ConnectionTuple-discrete j key) [
    | yes own ↦
        (f v, rw own (get-update_self tracker s key f v (rw (← own) e)), (same v).0, (same v).1)
    | no ne ↦ (v, get-update_ne tracker s j key f ne ∙ e, refl, refl)
  ]

  -- No access takes an entry away, or changes its translation.
  pub advance-Kept :
      {A : Type 0} (now : ℕ) (s : S) (a : Access A) (j : ConnectionTuple) (v : FlowState)
      → get s j ≡ some v
      → Kept (advance tracker now s a).0 j v
  unfolding advance
  advance-Kept now s (return a) j v e = (v, e, refl, refl)
  advance-Kept now s (bpf_ktime_get_coarse_ns rest) j v e = (v, e, refl, refl)
  advance-Kept now s (get_ptr_mut key rest) j v e = (v, e, refl, refl)
  advance-Kept now s (read key known rest) j v e = (v, e, refl, refl)
  advance-Kept now s (set_seen_reply key seen rest) j v e =
      update-Kept s j key _ v (λ w. (refl, refl)) e
  advance-Kept now s (set_timeout key timeout rest) j v e =
      update-Kept s j key _ v (λ w. (refl, refl)) e
  advance-Kept now s (insert key w rest) j v e =
      (v, insert_keeps_all tracker ConnectionTuple-discrete s j key w v e, refl, refl)

  module _ {E : Type 0} (exposed : BpfMap ℕ ContainerInfo E) where
    abbrev pub KeptOrRemoved : Processors S → Processors S → ConnectionTuple → FlowState → Type 0
    KeptOrRemoved s t j v = Kept t.conntrack j v ⊎ (In j s.to_go × (get t.conntrack j ≡ none))

    -- However the accesses of several processors, and the reaper's removals, are interleaved, after
    -- any one of them a flow that was tracked is so still, under the same translation and
    -- direction, or it is gone, and then the reaper had collected its key before.
    pub access-KeptOrRemoved :
        (s t : Processors S) (j : ConnectionTuple) (v : FlowState)
        → Step tracker exposed s t
        → get s.conntrack j ≡ some v
        → KeptOrRemoved s t j v
    access-KeptOrRemoved s _ j v (tick t later fits) e = inl (v, e, refl, refl)
    access-KeptOrRemoved s _ j v (arrival i before k f expose pnic flag waits) e =
        inl (v, e, refl, refl)
    access-KeptOrRemoved s _ j v (access i) e =
        inl (advance-Kept s.now s.conntrack (s.running i) j v e)
    access-KeptOrRemoved s _ j v (walk clock readings idle) e = inl (v, e, refl, refl)
    access-KeptOrRemoved s _ j v (removal key keys first) e =
        elim (ConnectionTuple-discrete j key) [
          | yes own ↦
              inr (rw (first, own) (inl refl), rw own (get-remove_self tracker s.conntrack key))
          | no ne ↦ inl (v, tracker.remove_ne s.conntrack j key ne ∙ e, refl, refl)
        ]
