-- ===== src/Tests/Xdp.antt =====
-- The XDP programs at concrete packets.
use xdp_natd.Base.{ok, ◌≡◌, ◌≢◌, refl, some, arith, ℕ_discrete, ◌⊎◌, inl, [], ◌∷◌}
use xdp_natd.Common.{
  ConnectionTuple-discrete, ConnectionTuple, connection_tuple, FlowState, flow_state, nat_data,
  reply,
}
use xdp_natd.Word.{little, be16, be32}
use xdp_natd.Kernel.{xdp_pass, get_fib_macs, do_fib_lookup}
use xdp_natd.Rewrite.ZeroCheck.{dest_of}
use xdp_natd.Xdp.{snat, try_xdp_redirect, send, process, xdp_redirect_containers, xdp_redirect_host}
use xdp_natd.Xdp.Guards.{
  IsTranslatable, try_xdp_redirect_guards, xdp_redirect_total, PassesOrRedirects,
}
use xdp_natd.Xdp.Collision.{reply_misdelivered}
use xdp_natd.Xdp.Paths.{outbound, inbound}
use xdp_natd.Xdp.Later.{now}
use xdp_natd.Xdp.RoundTrip
use xdp_natd.Tests.Data.{
  tracker, exposed, mac, route_macs, kernel, container_ip, container_ip2, host_ip, remote_ip, nic,
  Host, host, query, query_answer,
}

try_xdp_redirect_guards_example :
    (IsTranslatable (kernel 0) (host query).frame
      × (try_xdp_redirect tracker exposed (kernel 0) (host query) snat
          ≡ some (
              send tracker exposed
                (kernel 0)
                (host query)
                (process tracker exposed (kernel 0) (host query) snat container_ip remote_ip))))
    ⊎ ((¬ IsTranslatable (kernel 0) (host query).frame)
        × (try_xdp_redirect tracker exposed (kernel 0) (host query) snat
            ≡ some (ok xdp_pass, host query)))
unfolding be32
try_xdp_redirect_guards_example =
    try_xdp_redirect_guards tracker exposed (kernel 0) (host query) snat

xdp_redirect_total_example :
    PassesOrRedirects tracker exposed
      (kernel 0)
      (host query)
      (xdp_redirect_containers tracker exposed (kernel 0) (host query))
    × PassesOrRedirects tracker exposed
        (kernel 0)
        (host query)
        (xdp_redirect_host tracker exposed (kernel 0) (host query))
xdp_redirect_total_example =
    xdp_redirect_total tracker exposed (kernel 0) (host query) (λ key flags. inl refl)

-- The flow of the answers to 172.17.0.3:4000, by 8.8.8.8:53.
abbrev other_key : ConnectionTuple
other_key = connection_tuple remote_ip host_ip 53 4000

abbrev other_flow : FlowState
other_flow =
    flow_state
      (nat_data container_ip2 4000 (record { fib_smac = mac 10; fib_dmac = mac 3 }) container_ip2)
      reply 30_000_000_000

abbrev busy : Host
busy = record (host query) { conntrack = (other_key, other_flow) ∷ [] }

busy-Leaves : RoundTrip.Leaves tracker exposed (kernel 0) busy nic route_macs
unfolding get_fib_macs do_fib_lookup be16 be32 ConnectionTuple-discrete ℕ_discrete
busy-Leaves = record {
  untracked = refl;
  have_nic = refl;
  route = refl;
  check_used = ground arith;
  nic_ip-lt = ground arith;
  src_addr-lt = ground arith;
  source-lt = ground arith;
}

abbrev crossed : Host
crossed = record (outbound tracker exposed (kernel 0) busy).1 { frame = query_answer }

reply_misdelivered_example :
    ((inbound tracker exposed (kernel 0) crossed).0 ≡ ok (some other_flow.nat))
    × (dest_of little (inbound tracker exposed (kernel 0) crossed).1.frame ≡ (container_ip2, 4000))
    × (dest_of little (inbound tracker exposed (kernel 0) crossed).1.frame ≢ (container_ip, 4000))
unfolding be16 be32 ConnectionTuple-discrete ℕ_discrete
reply_misdelivered_example =
    reply_misdelivered tracker exposed (kernel 0) busy nic route_macs busy-Leaves other_flow refl
      (record { addr = ground arith; port = ground arith }) (ground arith) (kernel 0) crossed now
      refl refl (ground arith)
