-- ===== src/Tests/Withdrawn.antt =====
-- A withdrawn port, and a packet to it after a request and five seconds.
use xdp_natd.Base.{◌≡◌, refl, some, arith, subst}
use xdp_natd.Word.{be16}
use xdp_natd.Kernel.{xdp_pass}
use xdp_natd.Xdp.{xdp_redirect_host}
use xdp_natd.System.{tick, machine_of}
use xdp_natd.System.Requests.{done, step, answered}
use xdp_natd.System.Withdrawn.{StepsHiding, silent_until_exposed}
use xdp_natd.Api.{handle, health, response, unexposed}
use xdp_natd.Api.Ports.{Owns, expose_port-Owns}
use xdp_natd.Tests.Data.{tracker, exposed, kernel}
use xdp_natd.Tests.Daemons.{
  tables, wanted, fresh, fresh-Owns, serving, closed, expose_port-wanted, unexpose_port-serving,
}
use xdp_natd.Tests.System
use xdp_natd.Tests.Exposure.{call, call-IsTranslatable}

-- The state with port 10000 exposed, the one after it has been given back, and that one later.
abbrev before : System.Host
before = record System.idle { app = serving; nat_tables = 1 }

abbrev after : System.Host
after = record before { app = closed; nat_tables = 2 }

abbrev later : System.Host
later = record after { now = 5_000_000_000 }

serving-Owns : Owns exposed tables 10000 10002 serving
serving-Owns =
    subst (λ o. Owns exposed tables 10000 10002 o.1) expose_port-wanted
      (expose_port-Owns exposed tables 10000 10002 fresh 0 wanted fresh-Owns)

-- A request for the service's health, and five seconds.
healthy : StepsHiding tracker exposed tables 10000 after later
unfolding handle
healthy =
    answered health (λ target e. cc e)
      (step (tick 5_000_000_000 (ground arith) (ground arith)) refl done)

silent_until_exposed_example :
    xdp_redirect_host tracker exposed (kernel 0) (machine_of tracker exposed tables later call)
    ≡ some (xdp_pass, machine_of tracker exposed tables later call)
unfolding be16
silent_until_exposed_example =
    silent_until_exposed tracker exposed tables 10000 10000 10002 before later closed 2
      (response 200 (unexposed 10000)) serving-Owns unexpose_port-serving healthy (kernel 0) call
      call-IsTranslatable refl refl
