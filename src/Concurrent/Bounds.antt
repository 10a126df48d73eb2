-- ===== src/Concurrent/Bounds.antt =====
-- The timeouts in the table while processors run: each was computed from a reading of the clock.
use xdp_natd.Base.{
  ℕ, ◌+◌, ◌^◌, ◌≤◌, ◌<◌, ◌≡◌, sym, subst, ◌∙◌, inl, inr, Option, none, some, arith, ℕ_discrete,
  Bool, true, false, Bool-cases, Option-cases,
}
use xdp_natd.Common.{
  ConnectionTuple, ConnectionTuple-discrete, ContainerInfo, Direction, original, reply, FlowState,
  NatData, NicInfo, timeout_est,
}
use xdp_natd.BpfMap.{BpfMap, bpf_noexist, get-insert_cases}
use xdp_natd.Frame.{Frame}
use xdp_natd.Kernel.{Kernel}
use xdp_natd.Flow.{refresh}
use xdp_natd.Flow.Timeout.{refresh-changed_bounded, refresh-unchanged}
use xdp_natd.Conntrack.Timeouts.{IsBounded, IsBounded-mono, remove-IsBounded}
use xdp_natd.Xdp.{Flags}
use xdp_natd.Concurrent.{
  Access, return, bpf_ktime_get_coarse_ns, get_ptr_mut, read, live, set_seen_reply, set_timeout,
  insert, touch_reverse, store, translate_by, change, track, open_flow, process, Translated, update,
  advance,
}
use xdp_natd.Concurrent.Ways.{process-looked_up, looked_up_ways}
use xdp_natd.Concurrent.Updates.{get-update_self, get-update_ne, get-update_absent}
use xdp_natd.Concurrent.Processors.{
  Processors, Step, tick, arrival, access, walk, removal, set, set_self, set_ne, begins, Started,
  Reachable, start, step,
}

-- What is left of a run stores no timeout that lies more than 180 s past the time of the store.
pub StoresWithin : {A : Type 0} → ℕ → Access A → Type 0
StoresWithin now (return a) = Unit
StoresWithin now (bpf_ktime_get_coarse_ns rest) =
    (time : ℕ) → now ≤ time → time + timeout_est < 2 ^ 64 → StoresWithin time (rest time)
StoresWithin now (get_ptr_mut key rest) =
    (time : ℕ) (found : Option FlowState)
    → now ≤ time
    → time + timeout_est < 2 ^ 64
    → ((v : FlowState) → found ≡ some v → v.timeout ≤ time + timeout_est)
    → StoresWithin time (rest found)
StoresWithin now (read key known rest) =
    (known.timeout ≤ now + timeout_est)
    × ((time : ℕ) (v : FlowState)
        → now ≤ time
        → time + timeout_est < 2 ^ 64
        → v.timeout ≤ time + timeout_est
        → StoresWithin time (rest v))
StoresWithin now (set_seen_reply key seen rest) = StoresWithin now rest
StoresWithin now (set_timeout key timeout rest) =
    (timeout ≤ now + timeout_est) × StoresWithin now rest
StoresWithin now (insert key v rest) = (v.timeout ≤ now + timeout_est) × StoresWithin now rest

module _ {A : Type 0} where
  StoresWithin-mono :
      (now later : ℕ) (a : Access A) → now ≤ later → StoresWithin now a → StoresWithin later a
  unfolding StoresWithin
  StoresWithin-mono now later (return a) h b = tt
  StoresWithin-mono now later (bpf_ktime_get_coarse_ns rest) h b =
      λ time after fits. b time (omega arith) fits
  StoresWithin-mono now later (get_ptr_mut key rest) h b =
      λ time found after fits low. b time found (omega arith) fits low
  StoresWithin-mono now later (read key known rest) h (low, b) =
      (omega arith, λ time v after fits near. b time v (omega arith) fits near)
  StoresWithin-mono now later (set_seen_reply key seen rest) h b =
      StoresWithin-mono now later rest h b
  StoresWithin-mono now later (set_timeout key timeout rest) h (low, b) =
      (omega arith, StoresWithin-mono now later rest h b)
  StoresWithin-mono now later (insert key v rest) h (low, b) =
      (omega arith, StoresWithin-mono now later rest h b)

  touch_reverse-StoresWithin :
      (now : ℕ) (key reverse : ConnectionTuple) (state : FlowState) (a : A)
      → state.timeout ≤ now + timeout_est
      → StoresWithin now (touch_reverse key reverse state a)
  unfolding StoresWithin touch_reverse
  touch_reverse-StoresWithin now key reverse state a low time none after fits bound = tt
  touch_reverse-StoresWithin now key reverse state a low time (some rev) after fits bound = (
    omega arith,
    λ t1 v1 later1 fits1 near1. (omega arith, λ t2 v2 later2 fits2 near2. (near2, tt)),
  )

  store-StoresWithin :
      (now : ℕ) (direction : Direction) (key : ConnectionTuple) (state : FlowState)
      (rest : Access A)
      → state.timeout ≤ now + timeout_est
      → StoresWithin now rest
      → StoresWithin now (store direction key state rest)
  unfolding StoresWithin store
  store-StoresWithin now original key state rest low b = (low, b)
  store-StoresWithin now reply key state rest low b = (low, b)

  module _ (key : ConnectionTuple) (reverse_of : NatData → ConnectionTuple)
      (result : NatData → A) where
    translate_by-StoresWithin :
        (now : ℕ) (update_reverse : Bool) (state : FlowState)
        → state.timeout ≤ now + timeout_est
        → StoresWithin now (translate_by update_reverse key state reverse_of result)
    unfolding StoresWithin translate_by
    translate_by-StoresWithin now true state low = (
      low,
      λ time v after fits near.
          touch_reverse-StoresWithin time key _ (record state { nat = v.nat }) _ (omega arith),
    )
    translate_by-StoresWithin now false state low = (low, λ time v after fits near. tt)

    change-StoresWithin :
        (now : ℕ) (state : FlowState) (time : ℕ)
        → time ≤ now
        → time + timeout_est < 2 ^ 64
        → state.timeout ≤ now + timeout_est
        → StoresWithin now (change key state reverse_of time result)
    unfolding change
    change-StoresWithin now state time before fits low = elim (Bool-cases (refresh state time).0) [
      | inl changed ↦
          let near = refresh-changed_bounded state time fits changed in
          rw changed (
            store-StoresWithin now state.direction key (refresh state time).1 _ (omega arith)
              (translate_by-StoresWithin now true (refresh state time).1 (omega arith)))
      | inr fresh ↦
          rw (fresh, refresh-unchanged state time fresh)
            (translate_by-StoresWithin now false state low)
    ]

    track-StoresWithin :
        (state : FlowState) (time : ℕ)
        → time + timeout_est < 2 ^ 64
        → state.timeout ≤ time + timeout_est
        → StoresWithin time (track key state reverse_of time result)
    unfolding track StoresWithin
    track-StoresWithin state time fits low = (
      low,
      λ t1 v1 later1 fits1 near1. (
        omega arith,
        λ t2 v2 later2 fits2 near2. (
          omega arith,
          λ t3 v3 later3 fits3 near3. change-StoresWithin t3 _ time (omega arith) fits near3,
        ),
      ),
    )

module _ {E : Type 0} (exposed : BpfMap ℕ ContainerInfo E) (k : Kernel) (frame : Frame) (expose : E)
    (pnic : Option NicInfo) (src_ip dst_ip : ℕ) where
  process-StoresWithin :
      (now : ℕ) (flag : Flags)
      → StoresWithin now (process exposed k frame expose pnic src_ip dst_ip flag)
  unfolding StoresWithin open_flow
  process-StoresWithin now flag =
      rw (process-looked_up exposed k frame expose pnic src_ip dst_ip flag)
        (λ t found later fits0 low.
          looked_up_ways exposed k frame expose pnic src_ip dst_ip (StoresWithin t) tt
            (λ key nat reverse reverse_nat f time after fits. (omega arith, (omega arith, tt))) flag
            found
            (λ state reverse_of here time after fits.
              let near = low state here in
              track-StoresWithin _ reverse_of _ state time fits (omega arith)))

module _ {S : Type 0} (tracker : BpfMap ConnectionTuple FlowState S) where
  open tracker use {get}

  update-IsBounded :
      (now : ℕ) (s : S) (key : ConnectionTuple) (f : FlowState → FlowState)
      → ((w : FlowState) → w.timeout ≤ now + timeout_est → (f w).timeout ≤ now + timeout_est)
      → IsBounded tracker now s
      → IsBounded tracker now (update tracker s key f)
  update-IsBounded now s key f low b j v e = elim (ConnectionTuple-discrete j key) [
    | no ne ↦ b j v (sym (get-update_ne tracker s j key f ne) ∙ e)
    | yes own ↦ elim (Option-cases (get s key)) [
      | inr (w, here) ↦
          ground (arith, own, get-update_self tracker s key f w here, low w (b key w here))
      | inl absent ↦ b j v (sym (get-update_absent tracker s j key f absent) ∙ e)
    ]
  ]

  advance-IsBounded :
      {A : Type 0} (now : ℕ) (s : S) (a : Access A)
      → StoresWithin now a
      → IsBounded tracker now s
      → IsBounded tracker now (advance tracker now s a).0
  unfolding advance StoresWithin
  advance-IsBounded now s (return a) h b = b
  advance-IsBounded now s (bpf_ktime_get_coarse_ns rest) h b = b
  advance-IsBounded now s (get_ptr_mut key rest) h b = b
  advance-IsBounded now s (read key known rest) h b = b
  advance-IsBounded now s (set_seen_reply key seen rest) h b =
      update-IsBounded now s key _ (λ w low. low) b
  advance-IsBounded now s (set_timeout key timeout rest) (low, h) b =
      update-IsBounded now s key _ (λ w _. low) b
  advance-IsBounded now s (insert key w rest) (low, h) b = λ j v e.
      ground
        (arith, b j v, low, get-insert_cases tracker ConnectionTuple-discrete s j key w bpf_noexist)

  live-IsBounded :
      (now : ℕ) (s : S) (key : ConnectionTuple) (known : FlowState)
      → IsBounded tracker now s
      → known.timeout ≤ now + timeout_est
      → (live known (get s key)).timeout ≤ now + timeout_est
  live-IsBounded now s key known b low = elim (Option-cases (get s key)) [
    | inl absent ↦ rw absent low
    | inr (v, here) ↦ rw here (b key v here)
  ]

  advance-StoresWithin :
      {A : Type 0} (now : ℕ) (s : S) (a : Access A)
      → now + timeout_est < 2 ^ 64
      → IsBounded tracker now s
      → StoresWithin now a
      → StoresWithin now (advance tracker now s a).1
  unfolding advance StoresWithin
  advance-StoresWithin now s (return a) fits b h = tt
  advance-StoresWithin now s (bpf_ktime_get_coarse_ns rest) fits b h = h now (omega arith) fits
  advance-StoresWithin now s (get_ptr_mut key rest) fits b h =
      h now (get s key) (omega arith) fits (b key)
  advance-StoresWithin now s (read key known rest) fits b (low, h) =
      h now (live known (get s key)) (omega arith) fits (live-IsBounded now s key known b low)
  advance-StoresWithin now s (set_seen_reply key seen rest) fits b h = h
  advance-StoresWithin now s (set_timeout key timeout rest) fits b h = h.1
  advance-StoresWithin now s (insert key w rest) fits b h = h.1

  pub record IsTimely (s : Processors S) : Type 0 where
    pub bounded : IsBounded tracker s.now s.conntrack
    pub pending : (i : ℕ) → StoresWithin s.now (s.running i)
    pub in_range : s.now + timeout_est < 2 ^ 64

  module _ {E : Type 0} (exposed : BpfMap ℕ ContainerInfo E) where
    set-StoresWithin :
        (now : ℕ) (s : Processors S) (i : ℕ) (a : Access Translated)
        → StoresWithin now a
        → ((j : ℕ) → StoresWithin now (s.running j))
        → (j : ℕ) → StoresWithin now (set s.running i a j)
    set-StoresWithin now s i a own others j = elim (ℕ_discrete i j) [
      | yes same ↦ rw (← same) (subst (StoresWithin now) (sym (set_self s.running i a)) own)
      | no ne ↦ subst (StoresWithin now) (sym (set_ne s.running i j a ne)) (others j)
    ]

    Started-IsTimely : (s : Processors S) → Started tracker exposed s → IsTimely s
    unfolding StoresWithin
    Started-IsTimely s h = record {
      bounded = λ j v e. ground (arith, h.untracked j);
      pending = λ i. rw (h.waiting i).1 tt;
      in_range = h.in_range;
    }

    Step-IsTimely : (s t : Processors S) → IsTimely s → Step tracker exposed s t → IsTimely t
    Step-IsTimely s _ v (tick t later fits) = record {
      bounded = IsBounded-mono tracker s.now t s.conntrack later v.bounded;
      pending = λ i. StoresWithin-mono s.now t (s.running i) later (v.pending i);
      in_range = fits;
    }
    Step-IsTimely s _ v (arrival i before k f expose pnic flag waits) = record {
      bounded = v.bounded;
      pending =
          set-StoresWithin s.now s i (begins tracker exposed k f expose pnic flag)
            (process-StoresWithin exposed k f expose pnic _ _ s.now flag) v.pending;
      in_range = v.in_range;
    }
    Step-IsTimely s _ v (access i) = record {
      bounded = advance-IsBounded s.now s.conntrack (s.running i) (v.pending i) v.bounded;
      pending =
          set-StoresWithin s.now s i (advance tracker s.now s.conntrack (s.running i)).1
            (advance-StoresWithin s.now s.conntrack (s.running i) v.in_range v.bounded
              (v.pending i))
            v.pending;
      in_range = v.in_range;
    }
    Step-IsTimely s _ v (walk clock readings idle) = record {
      bounded = v.bounded;
      pending = v.pending;
      in_range = v.in_range;
    }
    Step-IsTimely s _ v (removal key keys first) = record {
      bounded = remove-IsBounded tracker s.now s.conntrack key v.bounded;
      pending = v.pending;
      in_range = v.in_range;
    }

    -- However the accesses of several processors are interleaved, with each other, with passing
    -- time and with the reaper: in every state reached from a start with an empty table and every
    -- processor waiting, no timeout in the table lies more than 180 s past the clock, and no run
    -- has one still to store that would.
    pub Reachable-IsTimely : (s : Processors S) → Reachable tracker exposed s → IsTimely s
    Reachable-IsTimely s (start h) = Started-IsTimely s h
    Reachable-IsTimely s (step {s = r} before next) =
        Step-IsTimely r s (Reachable-IsTimely r before) next
