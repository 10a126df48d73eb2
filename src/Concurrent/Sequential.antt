-- ===== src/Concurrent/Sequential.antt =====
-- A run with nothing in between does what the routine does in one step.
use xdp_natd.Base.{
  ok, ℕ, ◌≡◌, refl, sym, ap, subst, ◌∙◌, inl, inr, some, true, false, Bool, Bool-cases,
  Option-cases,
}
use xdp_natd.Common.{
  ConnectionTuple, ConnectionTuple-discrete, ContainerInfo, Direction, FlowState, NatData,
  connection_tuple, original, reply,
}
use xdp_natd.BpfMap.{BpfMap}
use xdp_natd.Frame.{Frame}
use xdp_natd.Rewrite.{snat_frame, dnat_frame}
use xdp_natd.Word.{be16}
use xdp_natd.Kernel.{Kernel}
use xdp_natd.Flow.{refresh}
use xdp_natd.Flow.Timeout.{refresh-nat, refresh-unchanged, refresh-original, refresh-reply}
use xdp_natd.Conntrack
use xdp_natd.Xdp
use xdp_natd.Xdp.{Flags, snat, dnat, Machine, NatResult}
use xdp_natd.Xdp.Cases.{key_of, snat_route, dnat_route}
use xdp_natd.Concurrent.{
  Access, live, read, touch_reverse, store, translate_by, change, track, open_flow, Translated,
  process, process_udp_snat, snat_found, dnat_found, snat_new, snat_open, dnat_new, dnat_open,
  process_udp_dnat, run, update,
}
use xdp_natd.Concurrent.Updates.{
  Same, get-update_self, get-update_ne, update-update, update-write, write_unchanged,
}

module _ {S : Type 0} (tracker : BpfMap ConnectionTuple FlowState S) where
  open tracker use {get, write}

  -- A store of whether a reply was seen leaves the timeout to be read as it was.
  live-timeout :
      (s : S) (key reverse : ConnectionTuple) (seen : Bool) (known state : FlowState)
      → get s key ≡ some state
      → (live known
          (get (update tracker s reverse (λ v. record v { seen_reply = seen })) key)).timeout
        ≡ state.timeout
  live-timeout s key reverse seen known state e = elim (ConnectionTuple-discrete key reverse) [
    | yes own ↦
        ap (λ o. (live known o).timeout)
          (ap (get (update tracker s reverse (λ v. record v { seen_reply = seen }))) own
            ∙ get-update_self tracker s reverse (λ v. record v { seen_reply = seen }) state
                (ap (get s) (sym own) ∙ e))
    | no ne ↦
        ap (λ o. (live known o).timeout)
          (get-update_ne tracker s key reverse (λ v. record v { seen_reply = seen }) ne ∙ e)
  ]

  module _ {A : Type 0} (now : ℕ) where
    -- A read of an entry that is there.
    pub run-read :
        (s : S) (key : ConnectionTuple) (known v : FlowState) (rest : FlowState → Access A)
        → get s key ≡ some v
        → run tracker now s (read key known rest) ≡ run tracker now s (rest v)
    unfolding run
    run-read s key known v rest e = ap (λ o. run tracker now s (rest (live known o))) e

    pub run-translate_by_present :
        (s : S) (key : ConnectionTuple) (reverse_of : NatData → ConnectionTuple)
        (result : NatData → A) (state v : FlowState)
        → get s key ≡ some v
        → run tracker now s (translate_by true key state reverse_of result)
          ≡ run tracker now s
              (touch_reverse key (reverse_of v.nat) (record state { nat = v.nat }) (result v.nat))
    unfolding translate_by
    run-translate_by_present s key reverse_of result state v e = run-read s key state v _ e

    run-touch_reverse :
        (s s' : S) (key reverse : ConnectionTuple) (state : FlowState) (a : A)
        → Same tracker s s'
        → get s key ≡ some state
        → (Same tracker
            (run tracker now s (touch_reverse key reverse state a)).0
            (Conntrack.touch_reverse tracker s' reverse state))
          × ((run tracker now s (touch_reverse key reverse state a)).1 ≡ a)
    unfolding run touch_reverse Conntrack.touch_reverse
    run-touch_reverse s s' key reverse state a same own = elim (Option-cases (get s' reverse)) [
      | inl absent ↦ rw (same reverse ∙ absent, absent, run, Conntrack.touch_reverse) (same, refl)
      | inr (rev, e) ↦
          rw
            (
              same reverse ∙ e,
              e,
              run,
              Conntrack.touch_reverse,
              own,
              live-timeout s key reverse state.seen_reply state state own,
            )
            (update-update tracker s s' reverse _ _ rev same e, refl)
    ]

    -- The stores of a change write the changed flow, whichever direction it has.
    run-store :
        (s : S) (key : ConnectionTuple) (state : FlowState) (time : ℕ) (direction : Direction)
        (rest : Access A)
        → state.direction ≡ direction
        → get s key ≡ some state
        → (refresh state time).0 ≡ true
        → (s1 : S) × Same tracker s1 (write s key (refresh state time).1)
          × (run tracker now s (store direction key (refresh state time).1 rest)
              ≡ run tracker now s1 rest)
    unfolding run store
    run-store s key state time original rest own e changed = (
      _,
      λ j.
          ap (λ t. get t j) (update-write tracker s key _ state e)
          ∙ ap (λ w. get (write s key w) j) (refresh-original state time own),
      refl,
    )
    run-store s key state time reply rest own e changed = (
      _,
      λ j.
          update-update tracker s s key _ _ state (λ i. refl) e j
          ∙ ap (λ w. get (write s key w) j) (refresh-reply state time own changed),
      refl,
    )

    module _ (key : ConnectionTuple) (reverse_of : NatData → ConnectionTuple)
        (result : NatData → A) where
      run-translate_by :
          (s s' : S) (state : FlowState)
          → Same tracker s s'
          → get s key ≡ some state
          → (Same tracker
              (run tracker now s (translate_by true key state reverse_of result)).0
              (Conntrack.touch_reverse tracker s' (reverse_of state.nat) state))
            × ((run tracker now s (translate_by true key state reverse_of result)).1
                ≡ result state.nat)
      run-translate_by s s' state same own =
          rw (run-translate_by_present s key reverse_of result state state own)
            (run-touch_reverse s s' key (reverse_of state.nat) state (result state.nat) same own)

      run-change_changed :
          (s : S) (state : FlowState) (time : ℕ)
          → get s key ≡ some state
          → (refresh state time).0 ≡ true
          → (Same tracker (run tracker now s (change key state reverse_of time result)).0 (
              Conntrack.touch_reverse tracker
                (write s key (refresh state time).1)
                (reverse_of (refresh state time).1.nat)
                (refresh state time).1))
            × ((run tracker now s (change key state reverse_of time result)).1
                ≡ result (refresh state time).1.nat)
      unfolding change
      run-change_changed s state time e changed =
          let rest = translate_by true key (refresh state time).1 reverse_of result in
          let (s1, same, ran) = run-store s key state time state.direction rest refl e changed in
          rw (changed, ran)
            (run-translate_by s1 (write s key (refresh state time).1) (refresh state time).1 same
              (same key ∙ tracker.get-write_self s key state (refresh state time).1 e))

      run-change_fresh :
          (s : S) (state : FlowState) (time : ℕ)
          → get s key ≡ some state
          → (refresh state time).0 ≡ false
          → (Same tracker
              (run tracker now s (change key state reverse_of time result)).0
              (write s key state))
            × ((run tracker now s (change key state reverse_of time result)).1 ≡ result state.nat)
      unfolding run change translate_by
      run-change_fresh s state time e fresh =
          rw (fresh, refresh-unchanged state time fresh, run, e)
            (write_unchanged tracker s key state e, refl)

      -- A change by a run that knows its entry.
      run-change :
          (s : S) (state : FlowState) (time : ℕ)
          → get s key ≡ some state
          → (Same tracker
              (run tracker now s (change key state reverse_of time result)).0
              (Conntrack.track tracker s key state (reverse_of state.nat) time))
            × ((run tracker now s (change key state reverse_of time result)).1 ≡ result state.nat)
      unfolding Conntrack.track
      run-change s state time e = elim (Bool-cases (refresh state time).0) [
        | inl changed ↦ rw changed (
            subst
              (λ nat.
                Same tracker (run tracker now s (change key state reverse_of time result)).0 (
                  Conntrack.touch_reverse tracker (write s key (refresh state time).1)
                    (reverse_of nat) (refresh state time).1)
                × ((run tracker now s (change key state reverse_of time result)).1 ≡ result nat))
              (refresh-nat state time) (run-change_changed s state time e changed))
        | inr fresh ↦
            rw (fresh, refresh-unchanged state time fresh) (run-change_fresh s state time e fresh)
      ]

      run-track_reads :
          (s : S) (state : FlowState) (time : ℕ)
          → get s key ≡ some state
          → run tracker now s (track key state reverse_of time result)
            ≡ run tracker now s (change key state reverse_of time result)
      unfolding track
      run-track_reads s state time e =
          run-read s key state state _ e
          ∙ run-read s key state state _ e
          ∙ run-read s key state state
              (λ v. change key (record state { timeout = v.timeout }) reverse_of time result) e

      pub run-track :
          (s : S) (state : FlowState) (time : ℕ)
          → get s key ≡ some state
          → (Same tracker
              (run tracker now s (track key state reverse_of time result)).0
              (Conntrack.track tracker s key state (reverse_of state.nat) time))
            × ((run tracker now s (track key state reverse_of time result)).1 ≡ result state.nat)
      run-track s state time e = rw (run-track_reads s state time e) (run-change s state time e)

module _ {S E : Type 0} (tracker : BpfMap ConnectionTuple FlowState S)
    (exposed : BpfMap ℕ ContainerInfo E) (k : Kernel) (m : Machine S E) where
  -- What a routine's result and the end of a run have in common.
  abbrev pub Matches : NatResult S E → S × Translated → Type 0
  Matches r o =
      (r.0 ≡ ok o.1.0)
      × (r.1.frame ≡ o.1.1)
      × ((j : ConnectionTuple) → tracker.get o.0 j ≡ tracker.get r.1.conntrack j)

  abbrev pub accesses : Flags → ℕ → ℕ → Access Translated
  accesses flag src_ip dst_ip = process exposed k m.frame m.expose m.pnic src_ip dst_ip flag

  -- Both of a tracked flow's packet.
  tracked-Matches :
      (key : ConnectionTuple) (state : FlowState) (reverse_of : NatData → ConnectionTuple)
      (frame_of : NatData → Frame)
      → tracker.get m.conntrack key ≡ some state
      → Matches
          (
            ok (some state.nat),
            record m {
              frame = frame_of state.nat;
              conntrack =
                  Conntrack.track tracker m.conntrack key state (reverse_of state.nat) k.ktime;
            },
          )
          (run tracker k.ktime m.conntrack
            (track key state reverse_of k.ktime (λ nat. (some nat, frame_of nat))))
  tracked-Matches key state reverse_of frame_of hit =
      let both =
        run-track tracker k.ktime key reverse_of (λ nat. (some nat, frame_of nat)) m.conntrack state
          k.ktime hit in
      (ap (λ b. ok b.0) (sym both.1), ap (λ b. b.1) (sym both.1), both.0)

  snat-Matches :
      (src_ip dst_ip : ℕ)
      → Matches
          (Xdp.process_udp_snat tracker exposed k m src_ip dst_ip)
          (run tracker k.ktime m.conntrack (accesses snat src_ip dst_ip))
  unfolding run process process_udp_snat snat_found snat_new snat_open open_flow
      Xdp.process_udp_snat Xdp.snat_tracked Xdp.snat_new Xdp.snat_open Conntrack.open_flow
  snat-Matches src_ip dst_ip =
      elim (Option-cases (tracker.get m.conntrack (key_of tracker exposed k m src_ip dst_ip))) [
        | inr (state, hit) ↦
            rw (hit, Xdp.process_udp_snat, run)
              (tracked-Matches (key_of tracker exposed k m src_ip dst_ip) state
                (λ nat.
                  connection_tuple dst_ip nat.nat_addr (be16 k.endian m.frame.udp.dest)
                    nat.nat_port)
                (λ nat. snat_frame k.endian nat m.frame) hit)
        | inl miss ↦
            rw (miss, Xdp.process_udp_snat, run)
              (elim (Option-cases m.pnic) [
                | inl no_nic ↦ rw (no_nic, Xdp.snat_new, snat_new, run) (refl, refl, λ j. refl)
                | inr (nic, have_nic) ↦
                    rw (have_nic, Xdp.snat_new, snat_new, run)
                      (elim (Option-cases (snat_route tracker exposed k m src_ip dst_ip nic)) [
                        | inl no_route ↦ rw no_route (refl, refl, λ j. refl)
                        | inr (fib_macs, route) ↦ rw route (refl, refl, λ j. refl)
                      ])
              ])
      ]

  dnat-Matches :
      (src_ip dst_ip : ℕ)
      → Matches
          (Xdp.process_udp_dnat tracker exposed k m src_ip dst_ip)
          (run tracker k.ktime m.conntrack (accesses dnat src_ip dst_ip))
  unfolding run process process_udp_dnat dnat_found dnat_new dnat_open open_flow
      Xdp.process_udp_dnat Xdp.dnat_tracked Xdp.dnat_new Xdp.dnat_open Conntrack.open_flow
  dnat-Matches src_ip dst_ip =
      elim (Option-cases (tracker.get m.conntrack (key_of tracker exposed k m src_ip dst_ip))) [
        | inr (state, hit) ↦
            rw (hit, Xdp.process_udp_dnat, run)
              (tracked-Matches (key_of tracker exposed k m src_ip dst_ip) state
                (λ nat.
                  connection_tuple nat.nat_addr src_ip nat.nat_port
                    (be16 k.endian m.frame.udp.source))
                (λ nat. dnat_frame k.endian nat m.frame) hit)
        | inl miss ↦
            rw (miss, Xdp.process_udp_dnat, run)
              (elim (Option-cases (exposed.get m.expose (be16 k.endian m.frame.udp.dest))) [
                | inl hidden ↦ rw (hidden, Xdp.dnat_new, dnat_new, run) (refl, refl, λ j. refl)
                | inr (info, found) ↦
                    rw (found, Xdp.dnat_new, dnat_new, run)
                      (elim (Option-cases (dnat_route tracker exposed k m src_ip dst_ip)) [
                        | inl no_route ↦ rw no_route (refl, refl, λ j. refl)
                        | inr (fib_macs, route) ↦ rw route (refl, refl, λ j. refl)
                      ])
              ])
      ]

  -- A run of a routine on its own, all of whose accesses to UDP_CONNTRACK follow each other at the
  -- time of the clock, gives the translation and the packet that the routine gives in one step, and
  -- leaves the same entry under every key.
  pub run-process :
      (flag : Flags) (src_ip dst_ip : ℕ)
      → Matches
          (Xdp.process tracker exposed k m flag src_ip dst_ip)
          (run tracker k.ktime m.conntrack (accesses flag src_ip dst_ip))
  unfolding Xdp.process process
  run-process snat src_ip dst_ip = snat-Matches src_ip dst_ip
  run-process dnat src_ip dst_ip = dnat-Matches src_ip dst_ip
