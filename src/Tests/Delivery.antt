-- ===== src/Tests/Delivery.antt =====
-- A query and a request whose answers come after a walk of the reaper, and a flow that it forgets.
use xdp_natd.Base.{ℕ, ◌≡◌, refl, some, arith, ℕ_discrete, [], ◌∷◌}
use xdp_natd.Common.{ConnectionTuple-discrete, FlowState}
use xdp_natd.Word.{little, be16, be32}
use xdp_natd.Kernel.{xdp_redirect}
use xdp_natd.Rewrite.ZeroCheck.{source_of, dest_of}
use xdp_natd.Xdp.{xdp_redirect_containers, xdp_redirect_host}
use xdp_natd.Reaper.{TimeSpec, get_nsecs, to_remove, remove_all}
use xdp_natd.System.{tick, walk, machine_of}
use xdp_natd.System.Reaping.{Steps, done, then, removals}
use xdp_natd.System.Lifetime.{flow_survives, timed_out_goes, GoneBetween}
use xdp_natd.System.Delivery.{reply_delivered, answer_delivered}
use xdp_natd.Tests.Data.{
  tracker, exposed, mac, kernel, container_ip, host_ip, remote_ip, nic, web, route_macs, query,
  query_answer, request, request_answer,
}
use xdp_natd.Tests.Data
use xdp_natd.Tests.Daemons.{tables, fresh}
use xdp_natd.Tests.System.{Host, idle, key, flow, expired, clock, clock-now}
use xdp_natd.Tests.EndToEnd.{
  query-IsTranslatable, query-Leaves, query-Fits, query_left, request-IsTranslatable,
  request-Arrives, request-Fits, request_arrived,
}

-- Port 8080 is exposed, and no flow is tracked.
abbrev open_host : Host
open_host = record idle { app = record fresh { expose_map = (8080, web) ∷ [] } }

-- Five seconds pass, and the reaper walks.
abbrev five : ℕ → TimeSpec
five i = record { tv_sec = 5; tv_nsec = 0 }

abbrev walked : Host → Host
walked s = record s { now = 5_000_000_000; to_go = to_remove tracker five s.conntrack }

five-now : (i : ℕ) → get_nsecs (five i) ≡ 5_000_000_000
unfolding get_nsecs
five-now i = refl

walking : (s : Host) → s.now ≡ 0 → s.to_go ≡ [] → Steps tracker exposed tables s (walked s)
walking s start none_to_go =
    then (tick 5_000_000_000 (omega (arith, start)) (ground arith))
      (then (walk five five-now none_to_go) done)

abbrev after_query : Host
after_query = record open_host { conntrack = query_left.0.conntrack }

reply_delivered_example :
    (r : Data.Host) × (xdp_redirect_host tracker exposed
        (kernel 5_000_000_000)
        (machine_of tracker exposed tables (walked after_query) query_answer)
      ≡ some (xdp_redirect, r))
    × (r.frame.eth.dst_addr ≡ mac 2)
    × (dest_of little r.frame ≡ (container_ip, 4000))
    × (source_of little r.frame ≡ (remote_ip, 53))
unfolding be16 be32
reply_delivered_example =
    reply_delivered tracker exposed tables open_host (kernel 0) query nic route_macs
      query-IsTranslatable query-Leaves query-Fits refl (ground arith) (λ i. i) xdp_redirect
      query_left.0 query_left.1 (walked after_query) (walking after_query refl refl) (ground arith)
      (kernel 5_000_000_000) query_answer (ground arith) refl refl (ground arith)

abbrev after_request : Host
after_request = record open_host { conntrack = request_arrived.0.conntrack }

answer_delivered_example :
    (r : Data.Host) × (xdp_redirect_containers tracker exposed
        (kernel 5_000_000_000)
        (machine_of tracker exposed tables (walked after_request) request_answer)
      ≡ some (xdp_redirect, r))
    × (r.frame.eth.dst_addr ≡ mac 11)
    × (source_of little r.frame ≡ (host_ip, 8080))
    × (dest_of little r.frame ≡ (remote_ip, 5000))
unfolding be16 be32
answer_delivered_example =
    answer_delivered tracker exposed tables open_host (kernel 0) request web route_macs
      request-IsTranslatable request-Arrives request-Fits refl (ground arith) (λ i. i) xdp_redirect
      request_arrived.0 request_arrived.1 (walked after_request) (walking after_request refl refl)
      (ground arith) (kernel 5_000_000_000) request_answer (ground arith) refl refl (ground arith)

-- A flow that times out at 30 s, five seconds after its first packet.
abbrev tracking : Host
tracking = record idle { conntrack = (key, flow) ∷ [] }

flow_survives_example :
    (v : FlowState) × (tracker.get (walked tracking).conntrack key ≡ some v)
    × (v.nat ≡ flow.nat)
    × (v.direction ≡ flow.direction)
unfolding ConnectionTuple-discrete ℕ_discrete
flow_survives_example =
    flow_survives tracker exposed tables 30_000_000_000 key flow tracking (walked tracking) refl
      (λ i. i) (ground arith) (ground arith) (ground arith) (walking tracking refl refl)
      (ground arith)

-- It has timed out, and the walk's removals are made.
abbrev swept : Host
swept = record expired {
  conntrack = remove_all tracker (to_remove tracker clock expired.conntrack) expired.conntrack;
}

timed_out_goes_example :
    GoneBetween tracker exposed tables
      (record expired { to_go = to_remove tracker clock expired.conntrack })
      swept
      key
unfolding ConnectionTuple-discrete ℕ_discrete
timed_out_goes_example =
    timed_out_goes tracker exposed tables expired swept clock key flow refl (ground arith) clock-now
      (removals tracker exposed tables (to_remove tracker clock expired.conntrack) expired) refl
