-- ===== src/Serving/Rules.antt =====
-- Which requests over HTTP leave a rule of iptables for a port.
use Prim.Native.String.{String}
use xdp_natd.Base.{ℕ, ◌≡◌, ◌≢◌, ap, ◌⊎◌, inl, inr, ok, err, List, [], ◌∷◌, Result}
use xdp_natd.Common.{ContainerInfo}
use xdp_natd.BpfMap.{BpfMap}
use xdp_natd.Iptables.{Iptables}
use xdp_natd.Iptables.Chain.{Chain}
use xdp_natd.Api.{AppState, Response, response, exposing, Request}
use xdp_natd.Api.Rules.{rules, handle-FromBefore}
use xdp_natd.Api.Router.{Axum, HttpRequest, respond, router, answered}
use xdp_natd.Serving.{answer_all}

module _ (axum : Axum) {E N : Type 0} (exposed : BpfMap ℕ ContainerInfo E) (tables : Iptables N)
    (prefix : String) (port : ℕ) where
  -- One of the requests is answered with the port.
  unfoldable pub AnsweredWith : List HttpRequest → AppState E → N → Type 0
  AnsweredWith [] st n = ⊥
  AnsweredWith (req ∷ reqs) st n =
      let (r, st', n') = respond axum exposed tables prefix st n req in
      ((asked : ℕ) × (r ≡ ok (response 200 (exposing asked port)))) ⊎ AnsweredWith reqs st' n'

module _ {E N : Type 0} (exposed : BpfMap ℕ ContainerInfo E) (tables : Iptables N)
    (chain : Chain tables) (port ip target : ℕ) where
  abbrev there_in : N → ℕ
  there_in = rules exposed tables chain port ip target

  module _ (axum : Axum) (prefix : String) where
    answered-FromBefore :
        (st : AppState E) (n : N) (r : Result Request ℕ)
        → there_in (answered axum exposed tables prefix st n r).2 ≢ 0
        → (there_in n ≢ 0)
          ⊎ ((asked : ℕ) × ((answered axum exposed tables prefix st n r).0
                ≡ ok (response 200 (exposing asked port))))
    unfolding answered
    answered-FromBefore st n (err status) there = inl there
    answered-FromBefore st n (ok req) there =
        elim (handle-FromBefore exposed tables chain port ip target st n req there) [
          | inl before ↦ inl before
          | inr (asked, named) ↦ inr (asked, ap (λ (x : Response). ok x) named)
        ]

    -- By the laws of Chain for iptables: if any requests over HTTP, one after the other, leave a
    -- rule for some port, address and container port, then it was there before them, or one of them
    -- is answered with status 200 and that port.
    pub answer_all-rules :
        (reqs : List HttpRequest) (st : AppState E) (n : N)
        → there_in (answer_all axum exposed tables prefix reqs st n).1 ≢ 0
        → (there_in n ≢ 0) ⊎ AnsweredWith axum exposed tables prefix port reqs st n
    unfolding answer_all AnsweredWith respond
    answer_all-rules [] st n there = inl there
    answer_all-rules (req ∷ reqs) st n there =
        let (_, st', n') = respond axum exposed tables prefix st n req in
        elim (answer_all-rules reqs st' n' there) [
          | inr later ↦ inr (inr later)
          | inl before ↦ elim (answered-FromBefore st n (router axum prefix req) before) [
            | inl still ↦ inl still
            | inr named ↦ inr (inl named)
          ]
        ]
