-- ===== src/Conntrack/Pairs.antt =====
-- What opening and refreshing flows does to the entries of the table, its own and all others.
use xdp_natd.Base.{
  ℕ, ◌≡◌, refl, ◌∙◌, ◌⊎◌, inl, inr, Option, none, some, arith, Bool-cases, Option-cases,
}
use xdp_natd.Common.{
  ConnectionTuple, ConnectionTuple-discrete, FlowState, NatData, flow_state, original, reply,
  timeout_new,
}
use xdp_natd.Word.{add64}
use xdp_natd.BpfMap.{BpfMap, bpf_noexist, get-insert_cases, insert_keeps_all}
use xdp_natd.Flow.{refresh}
use xdp_natd.Flow.Timeout.{refresh-nat, refresh-direction}
use xdp_natd.Conntrack.{touch_reverse, track, open_flow}

-- Two states of one entry: absent in both, or the same translation in the same direction.
abbrev pub SameTranslation : Option FlowState → Option FlowState → Type 0
SameTranslation none none = Unit
SameTranslation none (some b) = ⊥
SameTranslation (some a) none = ⊥
SameTranslation (some a) (some b) = (b.nat ≡ a.nat) × (b.direction ≡ a.direction)

SameTranslation-refl : (o : Option FlowState) → SameTranslation o o
SameTranslation-refl none = tt
SameTranslation-refl (some a) = (refl, refl)

SameTranslation-trans :
    (o p q : Option FlowState) → SameTranslation o p → SameTranslation p q → SameTranslation o q
SameTranslation-trans none none q h k = k
SameTranslation-trans none (some b) q h k = absurd h
SameTranslation-trans (some a) none q h k = absurd h
SameTranslation-trans (some a) (some b) none h k = absurd k
SameTranslation-trans (some a) (some b) (some c) h k = (k.0 ∙ h.0, k.1 ∙ h.1)

module _ {S : Type 0} (tracker : BpfMap ConnectionTuple FlowState S) where
  open tracker use {get, write}

  write-SameTranslation :
      (s : S) (key : ConnectionTuple) (v w : FlowState)
      → get s key ≡ some v
      → w.nat ≡ v.nat
      → w.direction ≡ v.direction
      → (j : ConnectionTuple) → SameTranslation (get s j) (get (write s key w) j)
  write-SameTranslation s key v w e n d j = elim (ConnectionTuple-discrete j key) [
    | yes same ↦ rw (same, e, tracker.get-write_self s key v w e) (n, d)
    | no ne ↦ rw (tracker.get-write_ne s j key w ne) (SameTranslation-refl (get s j))
  ]

  touch_reverse-SameTranslation :
      (s : S) (key : ConnectionTuple) (state : FlowState) (j : ConnectionTuple)
      → SameTranslation (get s j) (get (touch_reverse tracker s key state) j)
  unfolding touch_reverse
  touch_reverse-SameTranslation s key state j = elim (Option-cases (get s key)) [
    | inl absent ↦ rw (absent, touch_reverse) (SameTranslation-refl (get s j))
    | inr (rev, e) ↦ rw (e, touch_reverse) (write-SameTranslation s key rev _ e refl refl j)
  ]

  -- A packet of a tracked flow changes no entry's translation, adds none and drops none.
  pub track-SameTranslation :
      (s : S) (key : ConnectionTuple) (state : FlowState) (reverse : ConnectionTuple) (time : ℕ)
      → get s key ≡ some state
      → (j : ConnectionTuple)
      → SameTranslation (get s j) (get (track tracker s key state reverse time) j)
  unfolding track
  track-SameTranslation s key state reverse time e j = elim (Bool-cases (refresh state time).0) [
    | inl changed ↦ rw changed (
        SameTranslation-trans (get s j) (get (write s key state') j)
          (get (touch_reverse tracker (write s key state') reverse state') j) own
          (touch_reverse-SameTranslation (write s key state') reverse state' j))
    | inr fresh ↦ rw fresh own
  ]
    where
      state' : FlowState
      state' = (refresh state time).1

      own : SameTranslation (get s j) (get (write s key state') j)
      own =
          write-SameTranslation s key state state' e (refresh-nat state time)
            (refresh-direction state time) j

  -- Opening a flow changes no entry that is there, its own keys' included.
  pub open_flow_keeps :
      (s : S) (key : ConnectionTuple) (nat : NatData) (reverse : ConnectionTuple)
      (reverse_nat : NatData) (time : ℕ) (j : ConnectionTuple) (v : FlowState)
      → get s j ≡ some v
      → get (open_flow tracker s key nat reverse reverse_nat time) j ≡ some v
  unfolding open_flow
  open_flow_keeps s key nat reverse reverse_nat time j v e =
      insert_keeps_all tracker ConnectionTuple-discrete _ j reverse _ v
        (insert_keeps_all tracker ConnectionTuple-discrete s j key _ v e)

  -- An entry that it adds is the flow's own or that of its replies.
  pub open_flow_cases :
      (s : S) (key : ConnectionTuple) (nat : NatData) (reverse : ConnectionTuple)
      (reverse_nat : NatData) (time : ℕ) (j : ConnectionTuple)
      → let r = get (open_flow tracker s key nat reverse reverse_nat time) j in
        (r ≡ get s j)
        ⊎ ((j ≡ key) × (r ≡ some (flow_state nat original (add64 time timeout_new))))
        ⊎ ((j ≡ reverse) × (r ≡ some (flow_state reverse_nat reply (add64 time timeout_new))))
  unfolding open_flow
  open_flow_cases s key nat reverse reverse_nat time j = ground (
    arith,
    get-insert_cases tracker ConnectionTuple-discrete s j key
        (flow_state nat original (add64 time timeout_new)) bpf_noexist,
    get-insert_cases tracker ConnectionTuple-discrete
        (tracker.insert s key (flow_state nat original (add64 time timeout_new)) bpf_noexist).1 j
        reverse (flow_state reverse_nat reply (add64 time timeout_new)) bpf_noexist,
  )
