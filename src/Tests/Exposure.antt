-- ===== src/Tests/Exposure.antt =====
-- An exposed port, from the request to expose it to a packet.
use xdp_natd.Base.{◌≡◌, refl, some, arith}
use xdp_natd.Word.{little, be16, be32}
use xdp_natd.Frame.{Frame}
use xdp_natd.Kernel.{xdp_redirect, get_fib_macs, do_fib_lookup}
use xdp_natd.Rewrite.ZeroCheck.{source_of, dest_of}
use xdp_natd.Xdp.{xdp_redirect_host}
use xdp_natd.System.{tick}
use xdp_natd.System.Requests.{done, step, answered}
use xdp_natd.System.Exposed.{StepsBut, exposed_until_withdrawn}
use xdp_natd.Tests.System
use xdp_natd.Api.{handle, health, response, exposing}
use xdp_natd.Exposure.{Asks}
use xdp_natd.Xdp.Guards.{IsTranslatable}
use xdp_natd.Tests.Data.{
  tracker, exposed, mac, route_macs, kernel, container_ip, remote_ip, Host, host, datagram,
}
use xdp_natd.Tests.Daemons.{tables, container, wanted, fresh-Owns, serving, expose_port-wanted}

-- 8.8.8.8:5000 to 192.168.0.10:10000.
abbrev pub call : Frame
call = datagram 0x08080808 0x0a00a8c0 0x8813 0x1027 (mac 11) (mac 10)

abbrev open_host : Host
open_host = record (host call) { expose = serving.expose_map }

pub call-IsTranslatable : IsTranslatable (kernel 0) call
unfolding be16
call-IsTranslatable = ground arith

call-Asks : Asks tracker exposed tables (kernel 0) open_host route_macs 10000
unfolding get_fib_macs do_fib_lookup be16 be32
call-Asks = record {
  translatable = call-IsTranslatable;
  to_port = refl;
  untracked = refl;
  route = refl;
  check_used = ground arith;
  dst_addr-lt = ground arith;
  dest-lt = ground arith;
}

-- After the request to expose the port, one for the service's health, and five seconds.
abbrev started : System.Host
started = record System.idle { app = serving; nat_tables = 1 }

abbrev later : System.Host
later = record started { now = 5_000_000_000 }

healthy : StepsBut tracker exposed tables 10000 started later
unfolding handle
healthy =
    answered health (λ e. cc e) (step (tick 5_000_000_000 (ground arith) (ground arith)) refl done)

exposed_until_withdrawn_example :
    (m1 : Host) × (xdp_redirect_host tracker exposed (kernel 0) open_host ≡ some (xdp_redirect, m1))
    × (m1.frame.eth.dst_addr ≡ mac 2)
    × (dest_of little m1.frame ≡ (container_ip, 80))
    × (source_of little m1.frame ≡ (remote_ip, 5000))
unfolding be16 be32
exposed_until_withdrawn_example =
    exposed_until_withdrawn tracker exposed tables 10000 10000 10002 System.idle later serving 1
      (response 200 (exposing 80 10000)) wanted container fresh-Owns expose_port-wanted refl refl
      (ground arith) (ground arith) healthy (kernel 0) call route_macs call-Asks
