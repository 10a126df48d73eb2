-- ===== src/Api/RoundTrip.antt =====
-- A client that exposes a port and withdraws it by what it read.
use Prim.Native.String.{String}
use xdp_natd.Base.{
  ℕ, ◌^◌, ◌<◌, ◌≡◌, ◌≢◌, refl, ap, ◌⊎◌, inl, inr, ok, err, some, [], ◌∷◌, ◌++◌, arith,
}
use xdp_natd.Common.{ContainerInfo}
use xdp_natd.BpfMap.{BpfMap}
use xdp_natd.Texts.Decimal
use xdp_natd.Texts.Printed.{parse-show}
use xdp_natd.Iptables.{Iptables}
use xdp_natd.Api.{
  AppError, AppState, ExposeRequest, Response, Outcome, answer, into_response, not_found, conflict,
  capacity, internal, exposing, expose, unexpose, expose_port, unexpose_port, handle,
}
use xdp_natd.Api.Ports.{Owns}
use xdp_natd.Api.Outcomes.{
  ExposeMeets, expose_port-Meets, UnexposeMeets, unexpose_port-Meets, unexpose_port-expose_port,
}
use xdp_natd.Api.Answers.{words, last_word, last_word-exposing}
use xdp_natd.Api.Router
use xdp_natd.Api.Router.{
  Axum, HttpRequest, delete, routes, route, extracted, router, answered, respond,
}

module _ {E N : Type 0} (exposed : BpfMap ℕ ContainerInfo E) (tables : Iptables N) where
  -- A response of status 200 is a handler's success.
  answer-success :
      (o : Outcome exposed tables) (r : Response) (st : AppState E) (n : N)
      → answer exposed tables o ≡ (r, st, n)
      → r.status ≡ 200
      → o ≡ (ok r, st, n)
  unfolding into_response
  answer-success (ok r', st', n') r st n e success =
      ap (λ (a : Response × AppState E × N). (ok a.0, a.1, a.2)) e
  answer-success (err (not_found msg), st', n') r st n e success =
      absurd (omega (arith, success, ap (λ (a : Response × AppState E × N). a.0.status) e))
  answer-success (err (conflict msg), st', n') r st n e success =
      absurd (omega (arith, success, ap (λ (a : Response × AppState E × N). a.0.status) e))
  answer-success (err (capacity msg), st', n') r st n e success =
      absurd (omega (arith, success, ap (λ (a : Response × AppState E × N). a.0.status) e))
  answer-success (err (internal cause), st', n') r st n e success =
      absurd (omega (arith, success, ap (λ (a : Response × AppState E × N). a.0.status) e))

  answer-failure :
      (cause : AppError) (st : AppState E) (n : N)
      → (answer exposed tables (err cause, st, n)).0.status ≢ 200
  unfolding into_response
  answer-failure (not_found msg) st n e = omega (arith, e)
  answer-failure (conflict msg) st n e = omega (arith, e)
  answer-failure (capacity msg) st n e = omega (arith, e)
  answer-failure (internal cause) st n e = omega (arith, e)

  -- What is left of an exposure by its withdrawal, in a state `st` before both and `st1` between.
  abbrev pub Undone : AppState E → AppState E → ℕ → Response × AppState E × N → Type 0
  Undone st st1 port (r2, st2, n2) =
      ((r2.status ≡ 200)
        × ((j : ℕ) → exposed.get st2.expose_map j ≡ exposed.get st.expose_map j)
        × (st.port_allocator.ports ≡ port ∷ st1.port_allocator.ports)
        × (st2.port_allocator.ports ≡ st1.port_allocator.ports ++ port ∷ []))
      ⊎ ((r2.status ≢ 200) × (st2 ≡ st1))

  module _ (lower upper : ℕ) (st : AppState E) (n : N) (ask : ExposeRequest) (r1 : Response)
      (st1 : AppState E) (n1 : N) (port : ℕ) (v : Owns exposed tables lower upper st)
      (ran : expose_port exposed tables st n ask ≡ (ok r1, st1, n1))
      (body : r1.body ≡ exposing ask.container_port port) where
    unexpose-Undone :
        (o : Outcome exposed tables)
        → unexpose_port exposed tables st1 n1 port ≡ o
        → Undone st st1 port (answer exposed tables o)
    unexpose-Undone (ok r2, st2, n2) e =
        let shown : UnexposeMeets exposed tables st1 port (ok r2, st2, n2) =
          rw e at (unexpose_port-Meets exposed tables st1 n1 port) in
        let (same, first, last) =
          unexpose_port-expose_port exposed tables lower upper st n ask r1 st1 n1 port r2 st2 n2 v
            ran body e in
        let (_, _, answered_so, _, _, _) = shown in
        inl (ap (λ (r : Response). r.status) answered_so, same, first, last)
    unexpose-Undone (err cause, st2, n2) e =
        let kept : UnexposeMeets exposed tables st1 port (err cause, st2, n2) =
          rw e at (unexpose_port-Meets exposed tables st1 n1 port) in
        inr (answer-failure cause st2 n2, kept)

  module _ (axum : Axum) (prefix : String) where
    -- The route of a request to withdraw a port leads to the handler, with the port's text.
    router-withdraws :
        (request : HttpRequest) (port : ℕ)
        → port < 2 ^ 16
        → axum.find_route prefix routes request.method request.path
          ≡ ok (route "/unexpose/{:port}" delete Router.unexpose_port, Decimal.show port ∷ [])
        → router axum prefix request ≡ ok (unexpose port)
    unfolding router extracted
    router-withdraws request port small found = rw (found, parse-show (2 ^ 16) port small) refl

    -- After an exposure that named the port, the answer to such a request.
    respond-Undone :
        (lower upper : ℕ) (st : AppState E) (n : N) (ask : ExposeRequest) (r1 : Response)
        (st1 : AppState E) (n1 : N) (port : ℕ) (request : HttpRequest)
        → Owns exposed tables lower upper st
        → expose_port exposed tables st n ask ≡ (ok r1, st1, n1)
        → r1.body ≡ exposing ask.container_port port
        → router axum prefix request ≡ ok (unexpose port)
        → (r2 : Response) × ((respond axum exposed tables prefix st1 n1 request).0 ≡ ok r2)
          × Undone st st1 port (
            r2,
            (respond axum exposed tables prefix st1 n1 request).1,
            (respond axum exposed tables prefix st1 n1 request).2,
          )
    unfolding respond answered handle
    respond-Undone lower upper st n ask r1 st1 n1 port request v ran body routed = (
      (answer exposed tables (unexpose_port exposed tables st1 n1 port)).0,
      rw routed refl,
      rw routed (unexpose-Undone lower upper st n ask r1 st1 n1 port v ran body _ refl),
    )

    -- A request that is taken for an exposure, and answered with status 200.
    respond-exposed :
        (st : AppState E) (n : N) (post : HttpRequest) (ask : ExposeRequest) (r1 : Response)
        (st1 : AppState E) (n1 : N)
        → router axum prefix post ≡ ok (expose ask)
        → respond axum exposed tables prefix st n post ≡ (ok r1, st1, n1)
        → r1.status ≡ 200
        → expose_port exposed tables st n ask ≡ (ok r1, st1, n1)
    unfolding respond answered handle
    respond-exposed st n post ask r1 st1 n1 asks ran success =
        answer-success (expose_port exposed tables st n ask) r1 st1 n1 (cc (rw asks at ran)) success

    -- In a state that owns its ports, of a range below 65536, the router takes a request for an
    -- exposure, and it is answered with status 200. Then the last word of the answer is a port in
    -- decimal; and a request whose path matches the route for withdrawals with this word as its
    -- parameter is answered: with status 200, and then what is exposed is as it was before both and
    -- the port has moved from the front of the free ones to their end, or with another status, and
    -- then the state stays as it was.
    pub withdrawn_by_answer :
        (lower upper : ℕ) (st : AppState E) (n : N) (post : HttpRequest) (ask : ExposeRequest)
        (r1 : Response) (st1 : AppState E) (n1 : N) (word : String) (request : HttpRequest)
        → upper < 2 ^ 16
        → Owns exposed tables lower upper st
        → router axum prefix post ≡ ok (expose ask)
        → respond axum exposed tables prefix st n post ≡ (ok r1, st1, n1)
        → r1.status ≡ 200
        → last_word (words r1.body) ≡ some word
        → axum.find_route prefix routes request.method request.path
          ≡ ok (route "/unexpose/{:port}" delete Router.unexpose_port, word ∷ [])
        → (port : ℕ) × (word ≡ Decimal.show port)
          × ((r2 : Response) × ((respond axum exposed tables prefix st1 n1 request).0 ≡ ok r2)
              × Undone st st1 port (
                r2,
                (respond axum exposed tables prefix st1 n1 request).1,
                (respond axum exposed tables prefix st1 n1 request).2,
              ))
    withdrawn_by_answer lower upper st n post ask r1 st1 n1 word request small v asks ran success
          last found =
        let done = respond-exposed st n post ask r1 st1 n1 asks ran success in
        let shown : ExposeMeets exposed tables st ask (ok r1, st1, n1) =
          rw done at (expose_port-Meets exposed tables lower upper st n ask v) in
        let (port, _, _, first, answered_so, _, _) = shown in
        let body : r1.body ≡ exposing ask.container_port port =
          ap (λ (r : Response). r.body) answered_so in
        let own : word ≡ Decimal.show port =
          cc (
            last,
            ap (λ b. last_word (words b)) body,
            last_word-exposing ask.container_port port,
          ) in
        let inside = v.free_inside port (rw first (inl refl)) in
        (
          port,
          own,
          respond-Undone lower upper st n ask r1 st1 n1 port request v done body
              (router-withdraws request port (omega arith) (rw own at found)),
        )
