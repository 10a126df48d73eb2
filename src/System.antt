-- ===== src/System.antt =====
-- The kernel programs and the daemon at work on one set of maps: the packets of
-- xdp-natd-ebpf/src/main.rs, the task of setup_pnic of xdp-natd/src/main.rs and the requests of
-- xdp-natd/src/api, in any order. A packet, a walk of the task, one of its removals and a request
-- are a step each, so packets come between a walk and its removals.
pub mod Invariant
pub mod Entries
pub mod Reaping
pub mod Lifetime
pub mod Delivery
pub mod Requests
pub mod Exposed
pub mod Withdrawn
use xdp_natd.Base.{ℕ, ◌+◌, ◌^◌, ◌≤◌, ◌<◌, ◌≡◌, none, Option, List, [], ◌∷◌}
use xdp_natd.Common.{ConnectionTuple, ContainerInfo, FlowState, NicInfo, timeout_est}
use xdp_natd.BpfMap.{BpfMap}
use xdp_natd.Frame.{Frame}
use xdp_natd.Kernel.{Kernel}
use xdp_natd.Xdp.{Flags, Machine}
use xdp_natd.Xdp.Stable.{machine_after}
use xdp_natd.Reaper.{TimeSpec, get_nsecs, to_remove}
use xdp_natd.PortAllocator.{new}
use xdp_natd.Containers.{ContainerMap}
use xdp_natd.Iptables.{Iptables, specification}
use xdp_natd.Iptables.Chain.{Chain}
use xdp_natd.Api.{AppState, Request, handle}

pub record System (S E N : Type 0) : Type 0 where
  pub conntrack : S
  pub app : AppState E
  pub nat_tables : N
  pub pnic : Option NicInfo
  -- The monotonic clock, in nanoseconds.
  pub now : ℕ
  -- The keys that the task has collected and not yet removed.
  pub to_go : List ConnectionTuple

module _ {S E N : Type 0} (tracker : BpfMap ConnectionTuple FlowState S)
    (exposed : BpfMap ℕ ContainerInfo E) (tables : Iptables N) where
  -- What a program's run finds: its packet, and the maps that the daemon shares with it.
  abbrev pub machine_of : System S E N → Frame → Machine S E
  machine_of s f = record {
    frame = f;
    conntrack = s.conntrack;
    expose = s.app.expose_map;
    pnic = s.pnic;
  }

  pub data Step (s : System S E N) : System S E N → Type 0 where
    -- Time passes; the clock stays in the range that a timeout can be added to.
    tick : (t : ℕ) → s.now ≤ t → t + timeout_est < 2 ^ 64 → Step s (record s { now = t })
    packet :
        (k : Kernel) (flag : Flags) (f : Frame)
        → k.ktime ≡ s.now
        → Step s (record s {
          conntrack = (machine_after tracker exposed k (machine_of s f) flag).conntrack;
        })
    walk :
        (clock : ℕ → TimeSpec)
        → ((i : ℕ) → get_nsecs (clock i) ≡ s.now)
        → s.to_go ≡ []
        → Step s (record s { to_go = to_remove tracker clock s.conntrack })
    removal :
        (key : ConnectionTuple) (keys : List ConnectionTuple)
        → s.to_go ≡ key ∷ keys
        → Step s (record s { conntrack = (tracker.remove s.conntrack key).1; to_go = keys })
    request :
        (req : Request)
        → Step s (record s {
          app = (handle exposed tables s.app s.nat_tables req).1;
          nat_tables = (handle exposed tables s.app s.nat_tables req).2;
        })

module _ {S E N : Type 0} (tracker : BpfMap ConnectionTuple FlowState S)
    (exposed : BpfMap ℕ ContainerInfo E) (tables : Iptables N) (chain : Chain tables) where
  -- The daemon has started: no flow is tracked, no port is exposed or has a
  -- rule of iptables, and all of them are free.
  pub record Started (lower upper : ℕ) (s : System S E N) : Type 0 where
    pub untracked : (j : ConnectionTuple) → tracker.get s.conntrack j ≡ none
    pub hidden : (p : ℕ) → exposed.get s.app.expose_map p ≡ none
    pub no_rules :
        (port ip target : ℕ) → chain.count (specification port ip target) s.nat_tables ≡ 0
    pub all_free : s.app.port_allocator ≡ new lower upper
    pub none_to_go : s.to_go ≡ []
    pub in_range : s.now + timeout_est < 2 ^ 64

  pub data Reachable (lower upper : ℕ) : System S E N → Type 0 where
    start : {s : System S E N} → Started lower upper s → Reachable lower upper s
    step :
        {s t : System S E N}
        → Reachable lower upper s
        → Step tracker exposed tables s t
        → Reachable lower upper t
