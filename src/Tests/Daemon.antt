-- ===== src/Tests/Daemon.antt =====
-- The daemon's handlers and its reaper at concrete states.
use xdp_natd.Base.{ℕ, arith, [], ◌∷◌}
use xdp_natd.Common.{connection_tuple, flow_state, nat_data, original}
use xdp_natd.Reaper.{TimeSpec, get_nsecs, reap}
use xdp_natd.Reaper.Laws.{ReadsWithin, Reaped, reap-exact}
use xdp_natd.Api.{expose_port, unexpose_port, expose, handle}
use xdp_natd.Api.Contract.{Agrees, ledger, handle-Agrees}
use xdp_natd.Api.Ports.{Owns, handle-Owns}
use xdp_natd.Api.Outcomes.{ExposeMeets, expose_port-Meets, UnexposeMeets, unexpose_port-Meets}
use xdp_natd.Tests.Data.{Conntrack, tracker, exposed, route_macs, container_ip, remote_ip, host_ip}
use xdp_natd.Tests.Daemons.{tables, fresh, wanted, fresh-Owns}

handle-Owns_example :
    Owns exposed tables 10000 10002 (handle exposed tables fresh 0 (expose wanted)).1
handle-Owns_example = handle-Owns exposed tables 10000 10002 fresh 0 (expose wanted) fresh-Owns

expose_port-Meets_example :
    ExposeMeets exposed tables fresh wanted (expose_port exposed tables fresh 0 wanted)
expose_port-Meets_example = expose_port-Meets exposed tables 10000 10002 fresh 0 wanted fresh-Owns

unexpose_port-Meets_example :
    UnexposeMeets exposed tables fresh 10000 (unexpose_port exposed tables fresh 0 10000)
unexpose_port-Meets_example = unexpose_port-Meets exposed tables fresh 0 10000

-- A clock that stands at 40 s, and a table with one flow that has timed out by then.
abbrev clock : ℕ → TimeSpec
clock i = record { tv_sec = 40; tv_nsec = 0 }

abbrev table : Conntrack
table =
    (
      connection_tuple container_ip remote_ip 4000 53,
      flow_state (nat_data host_ip 4000 route_macs 0) original 30_000_000_000,
    )
    ∷ []

clock-ReadsWithin : ReadsWithin clock 40_000_000_000 40_000_000_000
unfolding get_nsecs
clock-ReadsWithin i = ground arith

reap-exact_example :
    Reaped 40_000_000_000 40_000_000_000
      (tracker.get table (connection_tuple container_ip remote_ip 4000 53))
      (tracker.get (reap tracker clock table) (connection_tuple container_ip remote_ip 4000 53))
reap-exact_example =
    reap-exact tracker clock 40_000_000_000 40_000_000_000 table
      (connection_tuple container_ip remote_ip 4000 53) clock-ReadsWithin

handle-Agrees_example :
    Agrees fresh.container_metas 10000 10002
      (ledger exposed tables 10000 10002 fresh)
      (ledger exposed tables 10000 10002 (handle exposed tables fresh 0 (expose wanted)).1)
      (expose wanted)
      (handle exposed tables fresh 0 (expose wanted)).0
handle-Agrees_example = handle-Agrees exposed tables 10000 10002 fresh 0 (expose wanted) fresh-Owns
