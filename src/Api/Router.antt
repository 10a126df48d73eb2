-- ===== src/Api/Router.antt =====
-- router of xdp-natd/src/api/router.rs. How the library axum puts routes below a prefix, matches a path
-- and reads a body is a parameter, and so are the statuses with which it refuses a request.
use Prim.Native.String.{String}
use xdp_natd.Base.{ℕ, Result, ok, err, ◌>>=◌, or_err, List, [], ◌∷◌}
use xdp_natd.Common.{ContainerInfo}
use xdp_natd.BpfMap.{BpfMap}
use xdp_natd.Iptables.{Iptables}
use xdp_natd.Texts.Decimal
use xdp_natd.Api.{AppState, ExposeRequest, Response, Request, health, expose, unexpose, handle}

pub data Method : Type 0 where
  get post delete : Method

pub data Handler : Type 0 where
  health_check expose_port unexpose_port : Handler

pub record Route : Type 0 where
  pub path : String
  pub method : Method
  pub handler : Handler

abbrev pub route : String → Method → Handler → Route
route path method handler = record { path = path; method = method; handler = handler }

abbrev pub routes : List Route
routes =
    route "/health_check" get health_check
    ∷ route "/expose" post expose_port
    ∷ route "/unexpose/{:port}" delete unexpose_port
    ∷ []

pub record HttpRequest : Type 0 where
  pub method : Method
  pub path : String
  pub body : String

-- The route below a prefix for a request, with the parameters of its path, or a status; what a body
-- holds, or a status; the status for a parameter that is no number.
pub record Axum : Type 0 where
  pub find_route : String → List Route → Method → String → Result (Route × List String) ℕ
  pub json : String → Result ExposeRequest ℕ
  pub bad_parameter : ℕ

module _ (axum : Axum) where
  -- What a handler's extractors make of a request.
  unfoldable pub extracted : Handler → List String → String → Result Request ℕ
  extracted health_check parameters body = ok health
  extracted expose_port parameters body = do req ← axum.json body; ok (expose req)
  extracted unexpose_port [] body = err axum.bad_parameter
  extracted unexpose_port (port ∷ parameters) body = do
    host_port ← or_err axum.bad_parameter (Decimal.parse_u16 port)
    ok (unexpose host_port)

  unfoldable pub router : String → HttpRequest → Result Request ℕ
  unfolding extracted
  router prefix request = do
    (found, parameters) ← axum.find_route prefix routes request.method request.path
    extracted found.handler parameters request.body

  module _ {E N : Type 0} (exposed : BpfMap ℕ ContainerInfo E) (tables : Iptables N)
      (prefix : String) where
    -- A handler's response, or the status of a request that reaches none.
    unfoldable pub answered : AppState E → N → Result Request ℕ → Result Response ℕ × AppState E × N
    answered st n (err status) = (err status, st, n)
    answered st n (ok req) =
        let (response, st', n') = handle exposed tables st n req in (ok response, st', n')

    unfoldable pub respond : AppState E → N → HttpRequest → Result Response ℕ × AppState E × N
    unfolding answered
    respond st n request = answered st n (router prefix request)

    answered-keeps :
        (P : AppState E → N → Type 0) (st : AppState E) (n : N) (r : Result Request ℕ)
        → ((req : Request)
            → P (handle exposed tables st n req).1 (handle exposed tables st n req).2)
        → P st n
        → P (answered st n r).1 (answered st n r).2
    unfolding answered
    answered-keeps P st n (err status) kept h = h
    answered-keeps P st n (ok req) kept h = kept req

    -- What the handlers keep, every request over HTTP keeps.
    pub respond-keeps :
        (P : AppState E → N → Type 0) (st : AppState E) (n : N) (request : HttpRequest)
        → ((req : Request)
            → P (handle exposed tables st n req).1 (handle exposed tables st n req).2)
        → P st n
        → P (respond st n request).1 (respond st n request).2
    unfolding respond
    respond-keeps P st n request = answered-keeps P st n (router prefix request)
