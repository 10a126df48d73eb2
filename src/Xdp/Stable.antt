-- ===== src/Xdp/Stable.antt =====
-- What a packet does to the flows that are already tracked.
use xdp_natd.Base.{ok, err, ℕ, ◌+◌, ◌^◌, ◌<◌, ◌≡◌, refl, inl, inr, Option, none, some}
use xdp_natd.Common.{ConnectionTuple, ContainerInfo, FlowState, NatData, timeout_est}
use xdp_natd.BpfMap.{BpfMap}
use xdp_natd.Kernel.{Kernel}
use xdp_natd.Conntrack.{track, open_flow}
use xdp_natd.Conntrack.Pairs.{SameTranslation, track-SameTranslation, open_flow_keeps}
use xdp_natd.Conntrack.Timeouts.{IsBounded, track-IsBounded, open_flow-IsBounded}
use xdp_natd.Xdp.{
  Flags, snat, dnat, Machine, NatResult, snat_tracked, snat_open, dnat_tracked, dnat_open, process,
  try_xdp_redirect, send,
}
use xdp_natd.Xdp.Cases.{snat_cases, dnat_cases}
use xdp_natd.Xdp.Guards.{try_xdp_redirect_ways}

seen :
    (v : FlowState) (o : Option FlowState)
    → SameTranslation (some v) o
    → (v' : FlowState) × (o ≡ some v') × (v'.nat ≡ v.nat) × (v'.direction ≡ v.direction)
seen v none h = absurd h
seen v (some v') h = (v', refl, h.0, h.1)

module _ {S E : Type 0} (tracker : BpfMap ConnectionTuple FlowState S)
    (exposed : BpfMap ℕ ContainerInfo E) (k : Kernel) (m : Machine S E) where
  -- A way of changing the table that a routine makes: by a packet of a tracked flow, or by opening
  -- one. What both keep, every packet keeps.
  process_keeps {ℓ} :
      (P : S → Type ℓ)
      → P m.conntrack
      → ((key : ConnectionTuple) (state : FlowState) (reverse : ConnectionTuple)
          → tracker.get m.conntrack key ≡ some state
          → P (track tracker m.conntrack key state reverse k.ktime))
      → ((key : ConnectionTuple) (nat : NatData) (reverse : ConnectionTuple) (reverse_nat : NatData)
          → P (open_flow tracker m.conntrack key nat reverse reverse_nat k.ktime))
      → (flag : Flags) (src_ip dst_ip : ℕ)
      → P (process tracker exposed k m flag src_ip dst_ip).1.conntrack
  unfolding process snat_tracked snat_open dnat_tracked dnat_open
  process_keeps P same tracked opened snat src_ip dst_ip =
      snat_cases tracker exposed k m src_ip dst_ip (λ r. P r.1.conntrack) same
        (λ state hit. tracked _ state _ hit) (λ _ nic fib _ _. opened _ _ _ _)
  process_keeps P same tracked opened dnat src_ip dst_ip =
      dnat_cases tracker exposed k m src_ip dst_ip (λ r. P r.1.conntrack) same
        (λ state hit. tracked _ state _ hit) (λ _ info fib _ _. opened _ _ _ _)

  send_keeps :
      (r : NatResult S E)
      → ((send tracker exposed k m r).1.conntrack ≡ r.1.conntrack)
        × ((send tracker exposed k m r).1.expose ≡ r.1.expose)
        × ((send tracker exposed k m r).1.pnic ≡ r.1.pnic)
  unfolding send
  send_keeps (err e, m') = (refl, refl, refl)
  send_keeps (ok none, m') = (refl, refl, refl)
  send_keeps (ok (some nat), m') = (refl, refl, refl)

  process-expose :
      (flag : Flags) (src_ip dst_ip : ℕ)
      → let r = process tracker exposed k m flag src_ip dst_ip in
        (r.1.expose ≡ m.expose) × (r.1.pnic ≡ m.pnic)
  unfolding process snat_tracked snat_open dnat_tracked dnat_open
  process-expose snat src_ip dst_ip =
      snat_cases tracker exposed k m src_ip dst_ip
        (λ r. (r.1.expose ≡ m.expose) × (r.1.pnic ≡ m.pnic)) (refl, refl) (λ _ _. (refl, refl))
        (λ _ _ _ _ _. (refl, refl))
  process-expose dnat src_ip dst_ip =
      dnat_cases tracker exposed k m src_ip dst_ip
        (λ r. (r.1.expose ≡ m.expose) × (r.1.pnic ≡ m.pnic)) (refl, refl) (λ _ _. (refl, refl))
        (λ _ _ _ _ _. (refl, refl))

  -- The machine that a run leaves; a run that reached beyond the packet would leave it as it was.
  abbrev pub machine_after : Flags → Machine S E
  machine_after flag = elim (try_xdp_redirect tracker exposed k m flag) [
    | none ↦ m
    | some (r, m') ↦ m'
  ]

  pub run_keeps {ℓ} :
      (P : S → Type ℓ)
      → P m.conntrack
      → ((key : ConnectionTuple) (state : FlowState) (reverse : ConnectionTuple)
          → tracker.get m.conntrack key ≡ some state
          → P (track tracker m.conntrack key state reverse k.ktime))
      → ((key : ConnectionTuple) (nat : NatData) (reverse : ConnectionTuple) (reverse_nat : NatData)
          → P (open_flow tracker m.conntrack key nat reverse reverse_nat k.ktime))
      → (flag : Flags) → P (machine_after flag).conntrack
  run_keeps P same tracked opened flag = elim (try_xdp_redirect_ways tracker exposed k m flag) [
    | inl passed ↦ rw (passed, machine_after) same
    | inr sent ↦
        rw (sent, machine_after, (send_keeps _).0) (process_keeps P same tracked opened flag _ _)
  ]

  -- No packet changes what is exposed, or the device.
  pub machine_after-expose :
      (flag : Flags)
      → ((machine_after flag).expose ≡ m.expose) × ((machine_after flag).pnic ≡ m.pnic)
  machine_after-expose flag = elim (try_xdp_redirect_ways tracker exposed k m flag) [
    | inl passed ↦ rw (passed, machine_after) (refl, refl)
    | inr sent ↦
        rw (sent, machine_after, (send_keeps _).1, (send_keeps _).2) (process-expose flag _ _)
  ]

  -- A tracked flow stays tracked, under the same translation and in the same direction, whatever
  -- packet either program handles.
  pub run_keeps_translation :
      (flag : Flags) (j : ConnectionTuple) (v : FlowState)
      → tracker.get m.conntrack j ≡ some v
      → (v' : FlowState) × (tracker.get (machine_after flag).conntrack j ≡ some v')
        × (v'.nat ≡ v.nat)
        × (v'.direction ≡ v.direction)
  run_keeps_translation flag j v e =
      run_keeps
        (λ s.
          (v' : FlowState) × (tracker.get s j ≡ some v')
          × (v'.nat ≡ v.nat)
          × (v'.direction ≡ v.direction))
        (v, e, refl, refl)
        (λ key state reverse hit.
          found _ (track-SameTranslation tracker m.conntrack key state reverse k.ktime hit j))
        (λ key nat reverse reverse_nat. (
          v,
          open_flow_keeps tracker m.conntrack key nat reverse reverse_nat k.ktime j v e,
          refl,
          refl,
        ))
        flag
    where
      found :
          (o : Option FlowState)
          → SameTranslation (tracker.get m.conntrack j) o
          → (v' : FlowState) × (o ≡ some v') × (v'.nat ≡ v.nat) × (v'.direction ≡ v.direction)
      found o h = seen v o (rw e at h)

  -- If no timeout in the table lies more than 180 s past the time of a run, by a clock that does
  -- not wrap, then none does after the run of either program, on any packet.
  pub run_keeps_bound :
      (flag : Flags)
      → k.ktime + timeout_est < 2 ^ 64
      → IsBounded tracker k.ktime m.conntrack
      → IsBounded tracker k.ktime (machine_after flag).conntrack
  run_keeps_bound flag fits b =
      run_keeps (IsBounded tracker k.ktime) b
        (λ key state reverse hit.
          track-IsBounded tracker m.conntrack key state reverse k.ktime hit fits b)
        (λ key nat reverse reverse_nat.
          open_flow-IsBounded tracker m.conntrack key nat reverse reverse_nat k.ktime fits b)
        flag
