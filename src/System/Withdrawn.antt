-- ===== src/System/Withdrawn.antt =====
-- A withdrawn port under all that may happen.
use xdp_natd.Base.{ok, ℕ, ◌≡◌, ◌≢◌, ap, sym, subst, ◌∙◌, none, some}
use xdp_natd.Common.{ConnectionTuple, ContainerInfo, FlowState}
use xdp_natd.Word.{be16}
use xdp_natd.BpfMap.{BpfMap}
use xdp_natd.Frame.{Frame}
use xdp_natd.Kernel.{Kernel, xdp_pass}
use xdp_natd.Xdp.{xdp_redirect_host}
use xdp_natd.Xdp.Guards.{IsTranslatable}
use xdp_natd.Xdp.Paths.{flow_key}
use xdp_natd.Containers.{ContainerMap}
use xdp_natd.Iptables.{Iptables}
use xdp_natd.Api.{AppState, Response, exposing, unexpose_port, Request}
use xdp_natd.Api.Ports.{Owns, unexpose_port-Owns}
use xdp_natd.Api.Contract.{Ledger, Agrees, is_healthy, exposes, withdraws, refuses}
use xdp_natd.Exposure.{unexpose_port-hidden, hidden_passes}
use xdp_natd.System.{System, machine_of}
use xdp_natd.System.Requests.{StepsWith, StepsWith-keeps}

-- A request whose answer does not name a port leaves it hidden.
Agrees-hides :
    (containers : ContainerMap) (lower upper : ℕ) (l l' : Ledger) (req : Request) (r : Response)
    (port : ℕ)
    → Agrees containers lower upper l l' req r
    → ((target : ℕ) → r.body ≢ exposing target port)
    → l port ≡ none
    → l' port ≡ none
Agrees-hides containers lower upper l l' _ _ port (is_healthy same) other hidden =
    ap (λ f. f port) same ∙ hidden
Agrees-hides containers lower upper l l' _ _ port
      (exposes req p container found low high free here others) other hidden =
    others port (λ own. other req.container_port (ap (exposing req.container_port) (sym own)))
    ∙ hidden
Agrees-hides containers lower upper l l' _ _ port (withdraws p old was gone others) other hidden =
    others port (λ own. cc (own, was, hidden)) ∙ hidden
Agrees-hides containers lower upper l l' _ _ port (refuses req e same) other hidden =
    ap (λ f. f port) same ∙ hidden

module _ {S E N : Type 0} (tracker : BpfMap ConnectionTuple FlowState S)
    (exposed : BpfMap ℕ ContainerInfo E) (tables : Iptables N) (port : ℕ) where
  -- Any number of steps, none of which is a request that is answered with the port.
  abbrev pub StepsHiding : System S E N → System S E N → Type 0
  StepsHiding =
      StepsWith tracker exposed tables (λ req r. (target : ℕ) → r.body ≢ exposing target port)

  -- In a state that owns its ports, unexpose_port has succeeded for a port, and any steps have
  -- followed: packets, the reaper's work, time, and requests of which none is answered with the
  -- port. Then a translatable packet to that port whose flow is untracked is passed to the kernel's
  -- own stack by the host's program, and nothing changes.
  pub silent_until_exposed :
      (lower upper : ℕ) (s t : System S E N) (st1 : AppState E) (n1 : N) (r : Response)
      → Owns exposed tables lower upper s.app
      → unexpose_port exposed tables s.app s.nat_tables port ≡ (ok r, st1, n1)
      → StepsHiding (record s { app = st1; nat_tables = n1 }) t
      → (k : Kernel) (f : Frame) → IsTranslatable k f
      → be16 k.endian f.udp.dest ≡ port
      → tracker.get t.conntrack (flow_key tracker exposed k (machine_of tracker exposed tables t f))
        ≡ none
      → xdp_redirect_host tracker exposed k (machine_of tracker exposed tables t f)
        ≡ some (xdp_pass, machine_of tracker exposed tables t f)
  silent_until_exposed lower upper s t st1 n1 r v ran steps k f translatable to_port untracked =
      hidden_passes tracker exposed tables port k (machine_of tracker exposed tables t f)
        translatable to_port untracked
        (StepsWith-keeps tracker exposed tables
          (λ req r. (target : ℕ) → r.body ≢ exposing target port) lower upper port none
          (λ containers l l' q a. Agrees-hides containers lower upper l l' q a port)
          (record s { app = st1; nat_tables = n1 }) t steps owned
          (unexpose_port-hidden tracker exposed tables s.app s.nat_tables st1 n1 r port ran))
    where
      owned : Owns exposed tables lower upper st1
      owned =
          subst (λ o. Owns exposed tables lower upper o.1) ran
            (unexpose_port-Owns exposed tables lower upper s.app s.nat_tables port v)
