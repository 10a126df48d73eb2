-- ===== src/Concurrent/LostReply.antt =====
-- A reply whose lifetime is lost: the packets of both directions at once, on two processors.
use xdp_natd.Base.{ℕ, ◌+◌, ◌^◌, ◌<◌, ◌≡◌, ◌≢◌, refl, sym, ap, ◌∙◌, true, false, some}
use xdp_natd.Common.{
  ConnectionTuple, Direction, FlowState, NatData, original, reply, timeout_new, timeout_est,
}
use xdp_natd.BpfMap.{BpfMap}
use xdp_natd.Flow.{threshold_ns, refresh}
use xdp_natd.Flow.Timeout.{refresh_unseen, refresh_first_reply}
use xdp_natd.Conntrack
use xdp_natd.Conntrack.Timeouts.{track_changed}
use xdp_natd.Concurrent.{
  Access, live, touch_reverse, store, translate_by, change, track, advance, run, update,
}
use xdp_natd.Concurrent.Updates.{get-update_self, get-update_ne}
use xdp_natd.Concurrent.Sequential.{run-translate_by_present, run-track}

module _ {S A : Type 0} (tracker : BpfMap ConnectionTuple FlowState S) (now : ℕ) where
  open tracker use {get}

  run-store_original :
      (s : S) (direction : Direction) (key : ConnectionTuple) (state : FlowState) (rest : Access A)
      → direction ≡ original
      → run tracker now s (store direction key state rest)
        ≡ run tracker now (update tracker s key (λ v. record v { timeout = state.timeout })) rest
  unfolding run store
  run-store_original s original key state rest own = refl
  run-store_original s reply key state rest own = cc

  -- The copy of both fields to the other entry.
  run-touch_reverse_present :
      (s : S) (key reverse : ConnectionTuple) (known v w : FlowState) (x : A)
      → key ≢ reverse
      → get s key ≡ some v
      → get s reverse ≡ some w
      → (get (run tracker now s (touch_reverse key reverse known x)).0 reverse
          ≡ some (record w { seen_reply = v.seen_reply; timeout = v.timeout }))
        × (get (run tracker now s (touch_reverse key reverse known x)).0 key ≡ some v)
  unfolding run touch_reverse
  run-touch_reverse_present s key reverse known v w x ne ev ew =
      rw
        (
          ew,
          run,
          ev,
          get-update_ne tracker s key reverse (λ v'. record v' { seen_reply = v.seen_reply }) ne
              ∙ ev,
        )
        (
          get-update_self tracker _ reverse _ _ (get-update_self tracker s reverse _ w ew),
          get-update_ne tracker _ key reverse _ ne ∙ get-update_ne tracker s key reverse _ ne ∙ ev,
        )

  -- What a run stores that has read its flow before others changed it.
  run-change_late :
      (s : S) (key : ConnectionTuple) (reverse_of : NatData → ConnectionTuple) (a u w : FlowState)
      (time : ℕ) (x : NatData → A)
      → key ≢ reverse_of u.nat
      → a.direction ≡ original
      → get s key ≡ some u
      → get s (reverse_of u.nat) ≡ some w
      → (refresh a time).0 ≡ true
      → (get (run tracker now s (change key a reverse_of time x)).0 key
          ≡ some (record u { timeout = (refresh a time).1.timeout }))
        × (get (run tracker now s (change key a reverse_of time x)).0 (reverse_of u.nat)
            ≡ some (record w { seen_reply = u.seen_reply; timeout = (refresh a time).1.timeout }))
  unfolding change
  run-change_late s key reverse_of a u w time x ne own eu ew changed =
      rw
        (
          changed,
          run-store_original s a.direction key (refresh a time).1
              (translate_by true key (refresh a time).1 reverse_of x) own,
          run-translate_by_present tracker now s1 key reverse_of x (refresh a time).1 _ stored,
        )
        (touched.1, touched.0)
    where
      s1 : S
      s1 = update tracker s key (λ v. record v { timeout = (refresh a time).1.timeout })

      stored : get s1 key ≡ some (record u { timeout = (refresh a time).1.timeout })
      stored = get-update_self tracker s key _ u eu

      touched :
          (get
              (run tracker now s1 (
                touch_reverse key
                  (reverse_of u.nat)
                  (record (refresh a time).1 { nat = u.nat })
                  (x u.nat))).0
              (reverse_of u.nat)
            ≡ some (record w { seen_reply = u.seen_reply; timeout = (refresh a time).1.timeout }))
          × (get
                (run tracker now s1 (
                  touch_reverse key
                    (reverse_of u.nat)
                    (record (refresh a time).1 { nat = u.nat })
                    (x u.nat))).0
                key
              ≡ some (record u { timeout = (refresh a time).1.timeout }))
      touched =
          run-touch_reverse_present s1 key (reverse_of u.nat) _ _ w (x u.nat) ne stored
            (get-update_ne tracker s (reverse_of u.nat) key _ (λ e. ne (sym e)) ∙ ew)

module _ {S A : Type 0} (tracker : BpfMap ConnectionTuple FlowState S) (s : S)
    (key reverse : ConnectionTuple) (to_reverse to_key : NatData → ConnectionTuple)
    (a b : FlowState) (early late : ℕ) (x y : NatData → A) where
  open tracker use {get}

  -- One packet has read its flow's direction, seen_reply and timeout, after the clock.
  abbrev has_read : Access A
  has_read =
      (advance tracker early s
        (advance tracker early s (advance tracker early s (track key a to_reverse early x)).1).1).1

  -- Then the reply's packet is handled as a whole.
  abbrev noted : S
  noted = (run tracker late s (track reverse b to_key late y)).0

  -- Then the first packet goes on.
  abbrev lost : S
  lost = (run tracker late noted has_read).0

  -- Both directions have seen the reply, for the longer lifetime.
  abbrev pub IsNoted : Type 0
  IsNoted =
      (u : FlowState) × (w : FlowState) × (get noted key ≡ some u)
      × (get noted reverse ≡ some w)
      × (u.seen_reply ≡ true)
      × (u.timeout ≡ late + timeout_est)
      × (w.seen_reply ≡ true)
      × (w.timeout ≡ late + timeout_est)

  -- Both directions have seen the reply, for the shorter lifetime.
  abbrev pub IsLost : Type 0
  IsLost =
      (u : FlowState) × (w : FlowState) × (get lost key ≡ some u)
      × (get lost reverse ≡ some w)
      × (u.seen_reply ≡ true)
      × (u.timeout ≡ early + timeout_new)
      × (w.seen_reply ≡ true)
      × (w.timeout ≡ early + timeout_new)

  has_read-change : get s key ≡ some a → has_read ≡ change key a to_reverse early x
  unfolding advance track
  has_read-change e =
      ap
        (λ o.
          let directed = record a { direction = (live a o).direction } in
          let seen = record directed { seen_reply = (live directed o).seen_reply } in
          change key (record seen { timeout = (live seen o).timeout }) to_reverse early x)
        e

  -- Both directions of a flow are tracked and have seen no reply. A packet of the original
  -- direction has read the clock and its flow's direction, seen_reply and timeout, which is stale;
  -- then a reply is handled as a whole, and after it both directions have seen a reply and have the
  -- longer lifetime. When the first packet goes on, both have its shorter lifetime, though both
  -- have seen the reply.
  pub lifetime_lost :
      key ≢ reverse
      → to_reverse a.nat ≡ reverse
      → to_key b.nat ≡ key
      → get s key ≡ some a
      → get s reverse ≡ some b
      → a.direction ≡ original
      → b.direction ≡ reply
      → a.seen_reply ≡ false
      → b.seen_reply ≡ false
      → early + timeout_est < 2 ^ 64
      → late + timeout_est < 2 ^ 64
      → a.timeout + threshold_ns < early + timeout_new
      → IsNoted × IsLost
  lifetime_lost ne leads back ea eb own_a own_b unseen_a unseen_b fits_early fits_late stale = (
    (_, _, noted_key, noted_reverse, first.1, first.2, first.1, first.2),
    (_, _, after.0, after.1, first.1, second.2, first.1, second.2),
  )
    where
      first :
          ((refresh b late).0 ≡ true)
          × ((refresh b late).1.seen_reply ≡ true)
          × ((refresh b late).1.timeout ≡ late + timeout_est)
      first = refresh_first_reply b late fits_late own_b unseen_b

      second :
          ((refresh a early).0 ≡ true)
          × ((refresh a early).1.seen_reply ≡ false)
          × ((refresh a early).1.timeout ≡ early + timeout_new)
      second = refresh_unseen a early fits_early own_a unseen_a stale

      both :
          (get (Conntrack.track tracker s reverse b key late) reverse ≡ some (refresh b late).1)
          × (get (Conntrack.track tracker s reverse b key late) key
              ≡ some (record a {
                seen_reply = (refresh b late).1.seen_reply;
                timeout = (refresh b late).1.timeout;
              }))
      both = track_changed tracker s reverse key b a late (λ e. ne (sym e)) eb ea first.0

      whole :
          (j : ConnectionTuple) → get noted j ≡ get (Conntrack.track tracker s reverse b key late) j
      whole j =
          (run-track tracker late reverse to_key y s b late eb).0 j
          ∙ ap (λ r. get (Conntrack.track tracker s reverse b r late) j) back

      noted_reverse : get noted reverse ≡ some (refresh b late).1
      noted_reverse = whole reverse ∙ both.0

      noted_key :
          get noted key
          ≡ some (record a {
            seen_reply = (refresh b late).1.seen_reply;
            timeout = (refresh b late).1.timeout;
          })
      noted_key = whole key ∙ both.1

      changed :
          (get (run tracker late noted (change key a to_reverse early x)).0 key
            ≡ some (record a {
              seen_reply = (refresh b late).1.seen_reply;
              timeout = (refresh a early).1.timeout;
            }))
          × (get (run tracker late noted (change key a to_reverse early x)).0 (to_reverse a.nat)
              ≡ some (record (refresh b late).1 {
                seen_reply = (refresh b late).1.seen_reply;
                timeout = (refresh a early).1.timeout;
              }))
      changed =
          run-change_late tracker late noted key to_reverse a _ (refresh b late).1 early x
            (λ e. ne (e ∙ leads)) own_a noted_key (ap (get noted) leads ∙ noted_reverse) second.0

      after :
          (get lost key
            ≡ some (record a {
              seen_reply = (refresh b late).1.seen_reply;
              timeout = (refresh a early).1.timeout;
            }))
          × (get lost reverse
              ≡ some (record (refresh b late).1 {
                seen_reply = (refresh b late).1.seen_reply;
                timeout = (refresh a early).1.timeout;
              }))
      after = (
        ap (λ p. get (run tracker late noted p).0 key) (has_read-change ea) ∙ changed.0,
        ap (λ p. get (run tracker late noted p).0 reverse) (has_read-change ea)
            ∙ ap (get (run tracker late noted (change key a to_reverse early x)).0) (sym leads)
            ∙ changed.1,
      )
