-- ===== src/System/Lifetime.antt =====
-- A flow under all that may happen, before its timeout and after it.
use xdp_natd.Base.{
  ℕ, ◌+◌, ◌^◌, ◌≤◌, ◌<◌, ◌≡◌, refl, subst, ◌⊎◌, ◌∙◌, inl, inr, some, none, [], In, arith,
}
use xdp_natd.Common.{ConnectionTuple, ContainerInfo, FlowState, timeout_new, timeout_est}
use xdp_natd.BpfMap.{BpfMap, get-remove_self}
use xdp_natd.Conntrack.Deadline.{IsAlive, track-IsAlive, open_flow-IsAlive}
use xdp_natd.Xdp.Stable.{run_keeps}
use xdp_natd.Reaper.{TimeSpec, get_nsecs, to_remove}
use xdp_natd.Reaper.Laws.{to_remove-spares, to_remove-picks}
use xdp_natd.Iptables.{Iptables}
use xdp_natd.System.{System, Step, tick, packet, walk, removal, request, machine_of}
use xdp_natd.System.Reaping.{Steps, done, then}

module _ {S E N : Type 0} (tracker : BpfMap ConnectionTuple FlowState S)
    (exposed : BpfMap ℕ ContainerInfo E) (tables : Iptables N) where
  Step-now : (s t : System S E N) → Step tracker exposed tables s t → s.now ≤ t.now
  Step-now s _ (tick t later fits) = later
  Step-now s _ (packet k flag f at_now) = omega arith
  Step-now s _ (walk clock readings idle) = omega arith
  Step-now s _ (removal key keys first) = omega arith
  Step-now s _ (request req) = omega arith

  Steps-now : (s t : System S E N) → Steps tracker exposed tables s t → s.now ≤ t.now
  Steps-now s _ done = omega arith
  Steps-now s t (then {t = u} first rest) = omega (arith, Step-now s u first, Steps-now u t rest)

  module _ (deadline : ℕ) (j : ConnectionTuple) (v : FlowState) where
    -- A flow that the reaper has not collected, with a deadline at most 30 s ahead.
    record Lives (s : System S E N) : Type 0 where
      alive : IsAlive tracker deadline j v s.conntrack
      not_to_go : ¬ In j s.to_go
      in_range : s.now + timeout_est < 2 ^ 64
      near : deadline ≤ s.now + timeout_new

    Step-Lives :
        (s t : System S E N)
        → s.now < deadline
        → Step tracker exposed tables s t
        → Lives s
        → Lives t
    Step-Lives s _ early (tick t later fits) h = record {
      alive = h.alive;
      not_to_go = h.not_to_go;
      in_range = fits;
      near = omega (arith, h.near);
    }
    Step-Lives s _ early (packet k flag f at_now) h = record {
      alive =
          run_keeps tracker exposed k (machine_of tracker exposed tables s f)
            (IsAlive tracker deadline j v) h.alive
            (λ key state reverse hit.
              track-IsAlive tracker deadline j v k.ktime (rw at_now h.in_range) (rw at_now h.near)
                s.conntrack key state reverse hit h.alive)
            (λ key nat reverse reverse_nat.
              open_flow-IsAlive tracker deadline j v k.ktime (rw at_now h.in_range)
                (rw at_now h.near) s.conntrack key nat reverse reverse_nat h.alive)
            flag;
      not_to_go = h.not_to_go;
      in_range = h.in_range;
      near = h.near;
    }
    Step-Lives s _ early (walk clock readings idle) h = record {
      alive = h.alive;
      not_to_go =
          to_remove-spares tracker clock s.now s.now s.conntrack j h.alive.entry
            (λ i. omega (arith, readings i)) h.alive.tracked (omega (arith, h.alive.in_time));
      in_range = h.in_range;
      near = h.near;
    }
    Step-Lives s _ early (removal key keys first) h = record {
      alive = record {
        entry = h.alive.entry;
        tracked =
            tracker.remove_ne s.conntrack j key (λ own. h.not_to_go (rw (first, own) (inl refl)))
            ∙ h.alive.tracked;
        same_nat = h.alive.same_nat;
        same_direction = h.alive.same_direction;
        in_time = h.alive.in_time;
      };
      not_to_go = λ i. h.not_to_go (rw first (inr i));
      in_range = h.in_range;
      near = h.near;
    }
    Step-Lives s _ early (request req) h = record {
      alive = h.alive;
      not_to_go = h.not_to_go;
      in_range = h.in_range;
      near = h.near;
    }

    Steps-Lives :
        (s t : System S E N)
        → t.now < deadline
        → Steps tracker exposed tables s t
        → Lives s
        → Lives t
    Steps-Lives s _ early done h = h
    Steps-Lives s t early (then {t = u} first rest) h =
        Steps-Lives u t early rest
          (Step-Lives s u (omega (arith, early, Step-now s u first, Steps-now u t rest)) first h)

    -- A flow is tracked, its key is not one that the reaper has collected, the clock cannot wrap,
    -- and a deadline is neither past the flow's timeout nor more than 30 s ahead. Then after any
    -- steps of the system that end before the deadline the flow is tracked, under the same
    -- translation and direction.
    pub flow_survives :
        (s t : System S E N)
        → tracker.get s.conntrack j ≡ some v
        → ¬ In j s.to_go
        → s.now + timeout_est < 2 ^ 64
        → deadline ≤ v.timeout
        → deadline ≤ s.now + timeout_new
        → Steps tracker exposed tables s t
        → t.now < deadline
        → (v' : FlowState) × (tracker.get t.conntrack j ≡ some v')
          × (v'.nat ≡ v.nat)
          × (v'.direction ≡ v.direction)
    flow_survives s t e free fits late near steps early =
        let h = Steps-Lives s t early steps (record {
          alive = record {
            entry = v;
            tracked = e;
            same_nat = refl;
            same_direction = refl;
            in_time = late;
          };
          not_to_go = free;
          in_range = fits;
          near = near;
        }) in
        (h.alive.entry, h.alive.tracked, h.alive.same_nat, h.alive.same_direction)

  -- A key that the reaper has collected stays so until it is removed.
  Step-collected :
      (s t : System S E N) (j : ConnectionTuple)
      → In j s.to_go
      → Step tracker exposed tables s t
      → In j t.to_go ⊎ (tracker.get t.conntrack j ≡ none)
  Step-collected s _ j i (tick t later fits) = inl i
  Step-collected s _ j i (packet k flag f at_now) = inl i
  Step-collected s _ j i (walk clock readings idle) = absurd (subst (In j) idle i)
  Step-collected s _ j i (removal key keys first) = elim (subst (In j) first i) [
    | inl own ↦ inr (rw own (get-remove_self tracker s.conntrack key))
    | inr other ↦ inl other
  ]
  Step-collected s _ j i (request req) = inl i

  -- A state on the way from one to another in which a key leads to no flow.
  abbrev pub GoneBetween : System S E N → System S E N → ConnectionTuple → Type 0
  GoneBetween s t j =
      (u : System S E N) × Steps tracker exposed tables s u
      × Steps tracker exposed tables u t
      × (tracker.get u.conntrack j ≡ none)

  collected_goes :
      (s t : System S E N) (j : ConnectionTuple)
      → In j s.to_go
      → Steps tracker exposed tables s t
      → t.to_go ≡ []
      → GoneBetween s t j
  collected_goes s _ j i done finished = absurd (subst (In j) finished i)
  collected_goes s t j i (then {t = u} first rest) finished = elim (Step-collected s u j i first) [
    | inl still ↦
        let (w, before, after, gone) = collected_goes u t j still rest finished in
        (w, then first before, after, gone)
    | inr gone ↦ (u, then first done, rest, gone)
  ]

  -- A walk at the present time finds a flow that has timed out. If after it any steps of the system
  -- lead to a state in which the reaper has no key left to remove, then in some state on the way
  -- the flow's key led to no flow.
  pub timed_out_goes :
      (s t : System S E N) (clock : ℕ → TimeSpec) (j : ConnectionTuple) (v : FlowState)
      → tracker.get s.conntrack j ≡ some v
      → v.timeout ≤ s.now
      → ((i : ℕ) → get_nsecs (clock i) ≡ s.now)
      → Steps tracker exposed tables (record s { to_go = to_remove tracker clock s.conntrack }) t
      → t.to_go ≡ []
      → GoneBetween (record s { to_go = to_remove tracker clock s.conntrack }) t j
  timed_out_goes s t clock j v e due readings steps finished =
      collected_goes (record s { to_go = to_remove tracker clock s.conntrack }) t j
        (to_remove-picks tracker clock s.now s.now s.conntrack j v (λ i. omega (arith, readings i))
          e due)
        steps finished
