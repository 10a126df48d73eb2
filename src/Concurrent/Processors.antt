-- ===== src/Concurrent/Processors.antt =====
-- Processors that run the programs at once, with the clock and the reaper's task: each access of a
-- run to UDP_CONNTRACK is a step, and so is each removal of the task.
use mathlib.Core.Logic.{ite}
use xdp_natd.Base.{ℕ, ◌+◌, ◌^◌, ◌≤◌, ◌<◌, ◌≡◌, ◌≢◌, arith, Option, none, List, [], ◌∷◌, ℕ_discrete}
use xdp_natd.Common.{ConnectionTuple, ContainerInfo, FlowState, NicInfo, timeout_est}
use xdp_natd.Word.{be32}
use xdp_natd.BpfMap.{BpfMap}
use xdp_natd.Frame.{Frame}
use xdp_natd.Kernel.{Kernel}
use xdp_natd.Reaper.{TimeSpec, get_nsecs, to_remove}
use xdp_natd.Xdp.{Flags}
use xdp_natd.Concurrent.{Access, return, Translated, process, advance}

abbrev pub set : (ℕ → Access Translated) → ℕ → Access Translated → ℕ → Access Translated
set running i a j = ite (ℕ_discrete i j) a (running j)

pub set_self :
    (running : ℕ → Access Translated) (i : ℕ) (a : Access Translated) → set running i a i ≡ a
set_self running i a = ground arith

pub set_ne :
    (running : ℕ → Access Translated) (i j : ℕ) (a : Access Translated)
    → i ≢ j
    → set running i a j ≡ running j
set_ne running i j a ne = ground arith

-- A processor that waits for a packet has returned.
pub record Processors (S : Type 0) : Type 0 where
  pub conntrack : S
  pub now : ℕ
  pub running : ℕ → Access Translated
  -- The keys that the task has collected and not yet removed.
  pub to_go : List ConnectionTuple

module _ {S E : Type 0} (tracker : BpfMap ConnectionTuple FlowState S)
    (exposed : BpfMap ℕ ContainerInfo E) where
  -- The run on a translatable packet, with the other maps as it finds them.
  abbrev pub begins : Kernel → Frame → E → Option NicInfo → Flags → Access Translated
  begins k f expose pnic flag =
      process exposed k f expose pnic (be32 k.endian f.ipv4.src_addr)
        (be32 k.endian f.ipv4.dst_addr) flag

  pub data Step (s : Processors S) : Processors S → Type 0 where
    -- Time passes; the clock stays in the range that a timeout can be added to.
    tick : (t : ℕ) → s.now ≤ t → t + timeout_est < 2 ^ 64 → Step s (record s { now = t })
    arrival :
        (i : ℕ) (before : Translated) (k : Kernel) (f : Frame) (expose : E) (pnic : Option NicInfo)
        (flag : Flags)
        → s.running i ≡ return before
        → Step s (record s { running = set s.running i (begins k f expose pnic flag) })
    access :
        (i : ℕ)
        → Step s (record s {
          conntrack = (advance tracker s.now s.conntrack (s.running i)).0;
          running = set s.running i (advance tracker s.now s.conntrack (s.running i)).1;
        })
    walk :
        (clock : ℕ → TimeSpec)
        → ((i : ℕ) → get_nsecs (clock i) ≡ s.now)
        → s.to_go ≡ []
        → Step s (record s { to_go = to_remove tracker clock s.conntrack })
    removal :
        (key : ConnectionTuple) (keys : List ConnectionTuple)
        → s.to_go ≡ key ∷ keys
        → Step s (record s { conntrack = (tracker.remove s.conntrack key).1; to_go = keys })

  abbrev pub IsArrival : {s t : Processors S} → ℕ → Step s t → Type 0
  IsArrival i (arrival j before k f expose pnic flag waits) = i ≡ j
  IsArrival i _ = ⊥

  -- How many accesses of a processor a step makes.
  abbrev pub own : {s t : Processors S} → ℕ → Step s t → ℕ
  own i (access j) = ite (ℕ_discrete i j) 1 0
  own i _ = 0

  -- Any number of steps during which no new packet comes to processor `i`.
  pub data Steps (i : ℕ) : Processors S → Processors S → Type 0 where
    done : {s : Processors S} → Steps i s s
    then :
        {s t u : Processors S} (first : Step s t) → ¬ IsArrival i first → Steps i t u → Steps i s u

  unfoldable pub accesses_of : {i : ℕ} {s t : Processors S} → Steps i s t → ℕ
  accesses_of done = 0
  accesses_of {i} (then first other rest) = own i first + accesses_of rest

  -- It holds before, between and after the steps.
  unfoldable pub Along :
      (P : Processors S → Type 0) {i : ℕ} {s t : Processors S} → Steps i s t → Type 0
  Along P (done {s}) = P s
  Along P (then {s} first other rest) = P s × Along P rest

  -- No flow is tracked, and every processor waits.
  pub record Started (s : Processors S) : Type 0 where
    pub untracked : (j : ConnectionTuple) → tracker.get s.conntrack j ≡ none
    pub waiting : (i : ℕ) → (before : Translated) × (s.running i ≡ return before)
    pub none_to_go : s.to_go ≡ []
    pub in_range : s.now + timeout_est < 2 ^ 64

  pub data Reachable : Processors S → Type 0 where
    start : {s : Processors S} → Started s → Reachable s
    step : {s t : Processors S} → Reachable s → Step s t → Reachable t
