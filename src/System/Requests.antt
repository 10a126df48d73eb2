-- ===== src/System/Requests.antt =====
-- Steps whose requests are restricted: by what they ask for, and by what they are answered.
use xdp_natd.Base.{ℕ, ◌≡◌, ap, sym, subst, ◌∙◌, Option}
use xdp_natd.Common.{ConnectionTuple, ContainerInfo, FlowState}
use xdp_natd.BpfMap.{BpfMap}
use xdp_natd.Containers.{ContainerMap}
use xdp_natd.Iptables.{Iptables}
use xdp_natd.Api.{AppState, Request, Response, handle}
use xdp_natd.Api.Ports.{Owns, handle-Owns}
use xdp_natd.Api.Contract.{Ledger, Agrees, ledger, handle-Agrees}
use xdp_natd.System.{System, Step}

module _ {S E N : Type 0} (tracker : BpfMap ConnectionTuple FlowState S)
    (exposed : BpfMap ℕ ContainerInfo E) (tables : Iptables N)
    (Allowed : Request → Response → Type 0) where
  -- Any number of steps; a request among them is allowed, with its answer.
  pub data StepsWith : System S E N → System S E N → Type 0 where
    done : {s : System S E N} → StepsWith s s
    step :
        {s t u : System S E N}
        → Step tracker exposed tables s t
        → t.app ≡ s.app
        → StepsWith t u
        → StepsWith s u
    answered :
        {s u : System S E N} (req : Request)
        → Allowed req (handle exposed tables s.app s.nat_tables req).0
        → StepsWith
            (record s {
              app = (handle exposed tables s.app s.nat_tables req).1;
              nat_tables = (handle exposed tables s.app s.nat_tables req).2;
            })
            u
        → StepsWith s u

  -- What the contract lets no allowed request change stays what a port leads to.
  pub StepsWith-keeps :
      (lower upper port : ℕ) (shown : Option ContainerInfo)
      → ((containers : ContainerMap) (l l' : Ledger) (req : Request) (r : Response)
          → Agrees containers lower upper l l' req r
          → Allowed req r
          → l port ≡ shown
          → l' port ≡ shown)
      → (s t : System S E N) → StepsWith s t
      → Owns exposed tables lower upper s.app
      → exposed.get s.app.expose_map port ≡ shown
      → exposed.get t.app.expose_map port ≡ shown
  StepsWith-keeps lower upper port shown keeps s _ done v here = here
  StepsWith-keeps lower upper port shown keeps s t (step {t = u} first same rest) v here =
      StepsWith-keeps lower upper port shown keeps u t rest
        (subst (Owns exposed tables lower upper) (sym same) v)
        (ap (λ (a : AppState E). exposed.get a.expose_map port) same ∙ here)
  StepsWith-keeps lower upper port shown keeps s t (answered req allowed rest) v here =
      StepsWith-keeps lower upper port shown keeps
        (record s {
          app = (handle exposed tables s.app s.nat_tables req).1;
          nat_tables = (handle exposed tables s.app s.nat_tables req).2;
        })
        t rest (handle-Owns exposed tables lower upper s.app s.nat_tables req v)
        (keeps s.app.container_metas (ledger exposed tables lower upper s.app)
          (ledger exposed tables lower upper (handle exposed tables s.app s.nat_tables req).1) req
          (handle exposed tables s.app s.nat_tables req).0
          (handle-Agrees exposed tables lower upper s.app s.nat_tables req v) allowed here)
