-- ===== src/Tests/EndToEnd.antt =====
-- A query and its answer, and a request and its answer, through both programs.
use xdp_natd.Base.{◌≡◌, refl, some, arith, ℕ_discrete}
use xdp_natd.Common.{ConnectionTuple-discrete}
use xdp_natd.Word.{little, be16, be32}
use xdp_natd.Kernel.{xdp_redirect, get_fib_macs, do_fib_lookup}
use xdp_natd.Rewrite.{rewrite_macs}
use xdp_natd.Rewrite.ZeroCheck.{source_of, dest_of}
use xdp_natd.Xdp.{xdp_redirect_containers, xdp_redirect_host}
use xdp_natd.Xdp.Guards.{IsTranslatable}
use xdp_natd.Xdp.RoundTrip
use xdp_natd.Xdp.Service
use xdp_natd.Xdp.EndToEnd.{packet_leaves, request_delivered}
use xdp_natd.Tests.Data.{
  tracker, exposed, mac, route_macs, kernel, container_ip, host_ip, remote_ip, nic, web, Host, host,
  query, request,
}

pub query-IsTranslatable : IsTranslatable (kernel 0) query
unfolding be16
query-IsTranslatable = ground arith

pub query-Leaves : RoundTrip.Leaves tracker exposed (kernel 0) (host query) nic route_macs
unfolding get_fib_macs do_fib_lookup be16 be32
query-Leaves = record {
  untracked = refl;
  have_nic = refl;
  route = refl;
  check_used = ground arith;
  nic_ip-lt = ground arith;
  src_addr-lt = ground arith;
  source-lt = ground arith;
}

pub query-Fits : RoundTrip.Fits tracker exposed (kernel 0) (host query) nic route_macs
unfolding ConnectionTuple-discrete be16 be32 ℕ_discrete
query-Fits = record { apart = ground arith; first = refl; second = refl }

pub query_left :
    (m1 : Host) × (xdp_redirect_containers tracker exposed (kernel 0) (host query)
      ≡ some (xdp_redirect, m1))
    × (m1.frame.eth ≡ record { dst_addr = mac 11; src_addr = mac 10; ether_type = 8 })
    × (source_of little m1.frame ≡ (host_ip, 4000))
    × (dest_of little m1.frame ≡ (remote_ip, 53))
unfolding be16 be32 rewrite_macs
query_left =
    packet_leaves tracker exposed (kernel 0) (host query) nic route_macs query-IsTranslatable
      query-Leaves

packet_leaves_example :
    (m1 : Host) × (xdp_redirect_containers tracker exposed (kernel 0) (host query)
      ≡ some (xdp_redirect, m1))
    × (m1.frame.eth ≡ record { dst_addr = mac 11; src_addr = mac 10; ether_type = 8 })
    × (source_of little m1.frame ≡ (host_ip, 4000))
    × (dest_of little m1.frame ≡ (remote_ip, 53))
unfolding be16 be32 rewrite_macs
packet_leaves_example =
    packet_leaves tracker exposed (kernel 0) (host query) nic route_macs query-IsTranslatable
      query-Leaves

pub request-IsTranslatable : IsTranslatable (kernel 0) request
unfolding be16
request-IsTranslatable = ground arith

pub request-Arrives : Service.Arrives tracker exposed (kernel 0) (host request) web route_macs
unfolding get_fib_macs do_fib_lookup be16 be32 ℕ_discrete
request-Arrives = record {
  untracked = refl;
  is_exposed = refl;
  route = refl;
  check_used = ground arith;
  container_ip-lt = ground arith;
  container_port-lt = ground arith;
  dst_addr-lt = ground arith;
  dest-lt = ground arith;
}

pub request-Fits : Service.Fits tracker exposed (kernel 0) (host request) web route_macs
unfolding ConnectionTuple-discrete be16 be32 ℕ_discrete
request-Fits = record { apart = ground arith; first = refl; second = refl }

pub request_arrived :
    (m1 : Host) × (xdp_redirect_host tracker exposed (kernel 0) (host request)
      ≡ some (xdp_redirect, m1))
    × (m1.frame.eth.dst_addr ≡ mac 2)
    × (dest_of little m1.frame ≡ (container_ip, 80))
    × (source_of little m1.frame ≡ (remote_ip, 5000))
unfolding be16 be32
request_arrived =
    request_delivered tracker exposed (kernel 0) (host request) web route_macs
      request-IsTranslatable request-Arrives

-- The request comes twice before the container answers it.
abbrev request_again : Host
request_again = record request_arrived.0 { frame = request }
