-- ===== src/Tests/System.antt =====
-- A short run of the whole system, and a packet that races with the reaper.
use xdp_natd.Base.{ℕ, ◌+◌, ◌≡◌, ◌≤◌, refl, some, none, arith, ℕ_discrete, [], ◌∷◌}
use xdp_natd.Common.{
  ConnectionTuple, ConnectionTuple-discrete, connection_tuple, FlowState, flow_state, nat_data,
  original, timeout_new,
}
use xdp_natd.Conntrack.{track}
use xdp_natd.Flow.{threshold_ns}
use xdp_natd.Xdp.{snat}
use xdp_natd.Xdp.Stable.{machine_after}
use xdp_natd.Reaper.{TimeSpec, get_nsecs, to_remove, remove_all}
use xdp_natd.Reaper.Laws.{ReadsWithin}
use xdp_natd.Reaper.Race.{reap_races}
use xdp_natd.System.{System, tick, packet, request, machine_of, Started, Reachable, start, step}
use xdp_natd.System.Invariant.{IsSound, Reachable-IsSound}
use xdp_natd.Tests.Data.{
  Conntrack, Exposed, tracker, exposed, kernel, container_ip, remote_ip, host_ip, route_macs, nic,
  query,
}
use xdp_natd.Api.{handle, expose}
use xdp_natd.Tests.Chain.{Rules, listing, listing_chain, no_rules}
use xdp_natd.Tests.Daemons.{fresh, wanted}

abbrev pub Host : Type 0
Host = System Conntrack Exposed ℕ

abbrev pub idle : Host
idle = record { conntrack = []; app = fresh; nat_tables = 0; pnic = some nic; now = 0; to_go = [] }

-- The same with a list of the rules of iptables.
abbrev quiet : System Conntrack Exposed Rules
quiet = record {
  conntrack = [];
  app = fresh;
  nat_tables = [];
  pnic = some nic;
  now = 0;
  to_go = [];
}

quiet-Started : Started tracker exposed listing listing_chain 10000 10002 quiet
quiet-Started = record {
  untracked = λ j. refl;
  hidden = λ p. refl;
  no_rules = no_rules;
  all_free = refl;
  none_to_go = refl;
  in_range = ground arith;
}

-- A packet of the container, ten seconds, and a request.
abbrev after_packet : System Conntrack Exposed Rules
after_packet = record quiet {
  conntrack =
      (machine_after tracker exposed (kernel 0) (machine_of tracker exposed listing quiet query)
        snat).conntrack;
}

abbrev later : System Conntrack Exposed Rules
later = record after_packet {
  now = 10_000_000_000;
  app = (handle exposed listing fresh [] (expose wanted)).1;
  nat_tables = (handle exposed listing fresh [] (expose wanted)).2;
}

later-Reachable : Reachable tracker exposed listing listing_chain 10000 10002 later
later-Reachable =
    step
      (step (step (start quiet-Started) (packet (kernel 0) snat query refl))
        (tick 10_000_000_000 (ground arith) (ground arith)))
      (request (expose wanted))

Reachable-IsSound_example : IsSound tracker exposed listing listing_chain 10000 10002 later
Reachable-IsSound_example =
    Reachable-IsSound tracker exposed listing listing_chain 10000 10002 later (ground arith)
      later-Reachable

abbrev pub key : ConnectionTuple
key = connection_tuple container_ip remote_ip 4000 53

abbrev reverse : ConnectionTuple
reverse = connection_tuple remote_ip host_ip 53 4000

abbrev pub flow : FlowState
flow = flow_state (nat_data host_ip 4000 route_macs 0) original 30_000_000_000

-- The reaper has collected the flow's key.
abbrev pub reaping : Host
reaping = record idle { conntrack = (key, flow) ∷ []; to_go = key ∷ [] }

-- The clock stands at 40 s, after the flow's timeout.
abbrev pub clock : ℕ → TimeSpec
clock i = record { tv_sec = 40; tv_nsec = 0 }

clock-ReadsWithin : ReadsWithin clock 40_000_000_000 40_000_000_000
unfolding get_nsecs
clock-ReadsWithin i = ground arith

reap_races_example :
    (u : FlowState) × (tracker.get
        (track tracker reaping.conntrack key flow reverse 40_000_000_000)
        key
      ≡ some u)
    × (40_000_000_000 + timeout_new ≤ u.timeout + threshold_ns)
    × (tracker.get
          (remove_all tracker
            (to_remove tracker clock reaping.conntrack)
            (track tracker reaping.conntrack key flow reverse 40_000_000_000))
          key
        ≡ none)
unfolding ConnectionTuple-discrete ℕ_discrete
reap_races_example =
    reap_races tracker clock 40_000_000_000 40_000_000_000 reaping.conntrack key flow reverse
      40_000_000_000 clock-ReadsWithin refl (ground arith) (ground arith) (ground arith)
      (ground arith)

-- The flow has timed out, and the task is idle.
abbrev pub expired : Host
expired = record reaping { to_go = []; now = 40_000_000_000 }

pub clock-now : (i : ℕ) → get_nsecs (clock i) ≡ expired.now
unfolding get_nsecs
clock-now i = refl
