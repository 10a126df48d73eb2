-- ===== src/Tests/Client.antt =====
-- A client that exposes a port and withdraws it.
use Prim.Native.String.{String}
use xdp_natd.Base.{ℕ, ◌≡◌, refl, ok, arith, Result, List, [], ◌∷◌, ℕ_discrete}
use xdp_natd.Texts.Decimal
use xdp_natd.PortAllocator.{allocate_next}
use xdp_natd.Iptables.{add_iptables_rule}
use xdp_natd.Api.{Response, handle, expose_port, response, exposing}
use xdp_natd.Api.Router
use xdp_natd.Api.Router.{
  Axum, HttpRequest, Method, get, post, delete, Route, route, router, respond, extracted,
}
use xdp_natd.Api.RoundTrip.{Undone, withdrawn_by_answer}
use xdp_natd.Tests.Data.{exposed}
use xdp_natd.Tests.Daemons.{tables, wanted, fresh, fresh-Owns, serving}

-- A request that posts is to expose, and one that deletes is to withdraw port 10000.
abbrev routed : Method → Result (Route × List String) ℕ
routed delete = ok (route "/unexpose/{:port}" delete Router.unexpose_port, "10000" ∷ [])
routed _ = ok (route "/expose" post Router.expose_port, [])

abbrev axum : Axum
axum = record {
  find_route = λ prefix table method path. routed method;
  json = λ body. ok wanted;
  bad_parameter = 400;
}

abbrev exposure : HttpRequest
exposure = record { method = post; path = "/api/v1/expose"; body = "{}" }

abbrev withdrawal : HttpRequest
withdrawal = record { method = delete; path = "/api/v1/unexpose/10000"; body = "" }

withdrawn_by_answer_example :
    (port : ℕ) × (◌≡◌ {A = String} "10000" (Decimal.show port))
    × ((r2 : Response) × ((respond axum exposed tables "/api/v1" serving 1 withdrawal).0 ≡ ok r2)
        × Undone exposed tables fresh serving port (
          r2,
          (respond axum exposed tables "/api/v1" serving 1 withdrawal).1,
          (respond axum exposed tables "/api/v1" serving 1 withdrawal).2,
        ))
unfolding router extracted respond handle expose_port allocate_next add_iptables_rule ℕ_discrete
    Decimal.show_onto
withdrawn_by_answer_example =
    withdrawn_by_answer exposed tables axum "/api/v1" 10000 10002 fresh 0 exposure wanted
      (response 200 (exposing 80 10000)) serving 1 "10000" withdrawal (ground arith) fresh-Owns refl
      refl refl refl refl
