-- ===== src/Conntrack/Timeouts.antt =====
-- The timeouts in the table: no entry outlives the clock by more than the longest timeout, and the
-- two directions of a flow agree.
use xdp_natd.Base.{
  ℕ, ◌+◌, ◌^◌, ◌≤◌, ◌<◌, ◌≡◌, ◌≢◌, refl, sym, ◌∙◌, inl, inr, true, some, arith, Bool-cases,
  Option-cases,
}
use xdp_natd.Common.{ConnectionTuple, ConnectionTuple-discrete, FlowState, NatData, timeout_est}
use xdp_natd.BpfMap.{BpfMap, get-remove_self}
use xdp_natd.Flow.{refresh}
use xdp_natd.Flow.Timeout.{IsRefreshed, refresh-IsRefreshed, refresh-unchanged}
use xdp_natd.Conntrack.{touch_reverse, track, open_flow}
use xdp_natd.Conntrack.Pairs.{open_flow_cases}

module _ {S : Type 0} (tracker : BpfMap ConnectionTuple FlowState S) where
  open tracker use {get, write}

  -- No timeout lies more than 180 s after `now`.
  abbrev pub IsBounded : ℕ → S → Type 0
  IsBounded now s =
      (j : ConnectionTuple) (v : FlowState) → get s j ≡ some v → v.timeout ≤ now + timeout_est

  -- The clock may advance.
  pub IsBounded-mono : (now later : ℕ) (s : S) → now ≤ later → IsBounded now s → IsBounded later s
  IsBounded-mono now later s h b j v e = omega (arith, b j v e)

  -- An entry may go.
  pub remove-IsBounded :
      (now : ℕ) (s : S) (key : ConnectionTuple)
      → IsBounded now s
      → IsBounded now (tracker.remove s key).1
  remove-IsBounded now s key b j v e = elim (ConnectionTuple-discrete j key) [
    | yes own ↦ ground (arith, get-remove_self tracker s key)
    | no ne ↦ b j v (sym (tracker.remove_ne s j key ne) ∙ e)
  ]

  write-IsBounded :
      (now : ℕ) (s : S) (key : ConnectionTuple) (v w : FlowState)
      → get s key ≡ some v
      → w.timeout ≤ now + timeout_est
      → IsBounded now s
      → IsBounded now (write s key w)
  write-IsBounded now s key v w e h b j u eu = elim (ConnectionTuple-discrete j key) [
    | yes same ↦ ground (arith, tracker.get-write_self s key v w e, same)
    | no ne ↦ b j u (sym (tracker.get-write_ne s j key w ne) ∙ eu)
  ]

  touch_reverse-IsBounded :
      (now : ℕ) (s : S) (key : ConnectionTuple) (state : FlowState)
      → state.timeout ≤ now + timeout_est
      → IsBounded now s
      → IsBounded now (touch_reverse tracker s key state)
  unfolding touch_reverse
  touch_reverse-IsBounded now s key state h b = elim (Option-cases (get s key)) [
    | inl absent ↦ rw (absent, touch_reverse) b
    | inr (rev, e) ↦ rw (e, touch_reverse) (write-IsBounded now s key rev _ e h b)
  ]

  pub track-IsBounded :
      (s : S) (key : ConnectionTuple) (state : FlowState) (reverse : ConnectionTuple) (time : ℕ)
      → get s key ≡ some state
      → time + timeout_est < 2 ^ 64
      → IsBounded time s
      → IsBounded time (track tracker s key state reverse time)
  unfolding track
  track-IsBounded s key state reverse time e fits b = elim (Bool-cases (refresh state time).0) [
    | inl changed ↦
        rw changed
          (touch_reverse-IsBounded time (write s key state') reverse state' new.bounded own)
    | inr fresh ↦ rw fresh own
  ]
    where
      state' : FlowState
      state' = (refresh state time).1

      new : IsRefreshed time state state' (refresh state time).0
      new = refresh-IsRefreshed state time fits (b key state e)

      own : IsBounded time (write s key state')
      own = write-IsBounded time s key state state' e new.bounded b

  pub open_flow-IsBounded :
      (s : S) (key : ConnectionTuple) (nat : NatData) (reverse : ConnectionTuple)
      (reverse_nat : NatData) (time : ℕ)
      → time + timeout_est < 2 ^ 64
      → IsBounded time s
      → IsBounded time (open_flow tracker s key nat reverse reverse_nat time)
  open_flow-IsBounded s key nat reverse reverse_nat time fits b j v e =
      ground (arith, open_flow_cases tracker s key nat reverse reverse_nat time j, b j v)

  -- The two directions of a flow time out together, and agree on whether a reply was seen.
  abbrev pub InSync : S → ConnectionTuple → ConnectionTuple → Type 0
  InSync s key reverse =
      (a : FlowState) × (b : FlowState) × (get s key ≡ some a)
      × (get s reverse ≡ some b)
      × (a.timeout ≡ b.timeout)
      × (a.seen_reply ≡ b.seen_reply)

  module _ (s : S) (key reverse : ConnectionTuple) (a : FlowState) (time : ℕ) where
    -- A packet leaves its own flow refreshed, whether or not the other direction is tracked.
    pub track-own :
        key ≢ reverse
        → get s key ≡ some a
        → get (track tracker s key a reverse time) key ≡ some (refresh a time).1
    unfolding track touch_reverse
    track-own ne ea = elim (Bool-cases (refresh a time).0) [
      | inr fresh ↦ rw fresh written
      | inl changed ↦
          rw changed (elim (Option-cases (get (write s key (refresh a time).1) reverse)) [
            | inl absent ↦ rw (absent, touch_reverse) written
            | inr (rev, e) ↦
                rw (e, touch_reverse)
                  (tracker.get-write_ne (write s key (refresh a time).1) key reverse _ ne ∙ written)
          ])
    ]
      where
        written : get (write s key (refresh a time).1) key ≡ some (refresh a time).1
        written = tracker.get-write_self s key a _ ea

  module _ (s : S) (key reverse : ConnectionTuple) (a b : FlowState) (time : ℕ) where
    -- The flow of the other direction after a change of this one.
    abbrev followed : FlowState
    followed = record b {
      seen_reply = (refresh a time).1.seen_reply;
      timeout = (refresh a time).1.timeout;
    }

    pub track_changed :
        key ≢ reverse
        → get s key ≡ some a
        → get s reverse ≡ some b
        → (refresh a time).0 ≡ true
        → (get (track tracker s key a reverse time) key ≡ some (refresh a time).1)
          × (get (track tracker s key a reverse time) reverse ≡ some followed)
    unfolding track touch_reverse
    track_changed ne ea eb changed =
        rw (changed, other, touch_reverse)
          (
            tracker.get-write_ne s' key reverse followed ne ∙ tracker.get-write_self s key a _ ea,
            tracker.get-write_self s' reverse b followed other,
          )
      where
        s' : S
        s' = write s key (refresh a time).1

        other : get s' reverse ≡ some b
        other = tracker.get-write_ne s reverse key _ (λ e. ne (sym e)) ∙ eb

    -- If both directions of a flow are tracked under different keys, with the same timeout and the
    -- same seen_reply, then both hold after a packet of either direction too, and its own entry is
    -- the refreshed one.
    pub track-InSync :
        key ≢ reverse
        → get s key ≡ some a
        → get s reverse ≡ some b
        → a.timeout ≡ b.timeout
        → a.seen_reply ≡ b.seen_reply
        → InSync (track tracker s key a reverse time) key reverse
          × (get (track tracker s key a reverse time) key ≡ some (refresh a time).1)
    unfolding track
    track-InSync ne ea eb t r = elim (Bool-cases (refresh a time).0) [
      | inl changed ↦
          let both = track_changed ne ea eb changed in
          (((refresh a time).1, followed, both.0, both.1, refl, refl), both.0)
      | inr fresh ↦
          rw (fresh, refresh-unchanged a time fresh)
            (
              (
                a,
                b,
                tracker.get-write_self s key a a ea,
                tracker.get-write_ne s reverse key a (λ e. ne (sym e)) ∙ eb,
                t,
                r,
              ),
              tracker.get-write_self s key a a ea,
            )
    ]
