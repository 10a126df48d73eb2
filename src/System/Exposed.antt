-- ===== src/System/Exposed.antt =====
-- An exposed port under all that may happen.
use xdp_natd.Base.{ok, ℕ, ◌^◌, ◌<◌, ◌≡◌, ◌≢◌, ap, sym, subst, ◌∙◌, some}
use xdp_natd.Common.{ConnectionTuple, ContainerInfo, FibMacs, FlowState}
use xdp_natd.BpfMap.{BpfMap}
use xdp_natd.Frame.{Frame}
use xdp_natd.Rewrite.ZeroCheck.{source_of, dest_of}
use xdp_natd.Kernel.{Kernel, xdp_pass}
use xdp_natd.Xdp.{Machine, code_of, xdp_redirect_host}
use xdp_natd.Containers
use xdp_natd.Containers.{ContainerMetadata, ContainerMap}
use xdp_natd.Iptables.{Iptables}
use xdp_natd.Api.{
  AppState, ExposeRequest, Response, exposing, info_of, expose_port, Request, unexpose,
}
use xdp_natd.Api.Ports.{Owns, expose_port-Owns}
use xdp_natd.Api.Contract.{Ledger, Agrees, is_healthy, exposes, withdraws, refuses}
use xdp_natd.Exposure.{Asks, shown_serves, expose_port-shown}
use xdp_natd.System.{System, machine_of}
use xdp_natd.System.Requests.{StepsWith, StepsWith-keeps}

-- A request that is not for withdrawing a port leaves it exposed for the same container.
Agrees-keeps :
    (containers : ContainerMap) (lower upper : ℕ) (l l' : Ledger) (req : Request) (r : Response)
    (port : ℕ) (info : ContainerInfo)
    → Agrees containers lower upper l l' req r
    → req ≢ unexpose port
    → l port ≡ some info
    → l' port ≡ some info
Agrees-keeps containers lower upper l l' _ _ port info (is_healthy same) other shown =
    ap (λ f. f port) same ∙ shown
Agrees-keeps containers lower upper l l' _ _ port info
      (exposes req p container found low high free here others) other shown =
    others port (λ own. cc (own, free, shown)) ∙ shown
Agrees-keeps containers lower upper l l' _ _ port info (withdraws p old was gone others) other
      shown =
    others port (λ own. other (ap unexpose (sym own))) ∙ shown
Agrees-keeps containers lower upper l l' _ _ port info (refuses req e same) other shown =
    ap (λ f. f port) same ∙ shown

module _ {S E N : Type 0} (tracker : BpfMap ConnectionTuple FlowState S)
    (exposed : BpfMap ℕ ContainerInfo E) (tables : Iptables N) (port : ℕ) where
  -- Any number of steps, none of which is a request to withdraw the port.
  abbrev pub StepsBut : System S E N → System S E N → Type 0
  StepsBut = StepsWith tracker exposed tables (λ req r. req ≢ unexpose port)

  -- In a state that owns its ports, expose_port has succeeded for a container, whose address and
  -- port fit their widths, and answered with a host port. After it come any steps of the system,
  -- none of which is a request to withdraw the port. Then a translatable packet to that port, whose
  -- flow is untracked and whose UDP checksum is in use, with a route back, is redirected by the
  -- container's address, to the container's MAC address and address and the container port that was
  -- asked for, from the source that it had.
  pub exposed_until_withdrawn :
      (lower upper : ℕ) (s t : System S E N) (st1 : AppState E) (n1 : N) (r : Response)
      (req : ExposeRequest) (container : ContainerMetadata)
      → Owns exposed tables lower upper s.app
      → expose_port exposed tables s.app s.nat_tables req ≡ (ok r, st1, n1)
      → r.body ≡ exposing req.container_port port
      → Containers.get s.app.container_metas req.container_ip ≡ some container
      → container.ipv4_address < 2 ^ 32
      → req.container_port < 2 ^ 16
      → StepsBut (record s { app = st1; nat_tables = n1 }) t
      → (k : Kernel) (f : Frame) (fib_macs : FibMacs)
      → Asks tracker exposed tables k (machine_of tracker exposed tables t f) fib_macs port
      → (m1 : Machine S E) × (xdp_redirect_host tracker exposed k
            (machine_of tracker exposed tables t f)
          ≡ some (
            code_of tracker exposed k
                (machine_of tracker exposed tables t f)
                (k.redirect container.ipv4_address xdp_pass),
            m1,
          ))
        × (m1.frame.eth.dst_addr ≡ container.mac_address)
        × (dest_of k.endian m1.frame ≡ (container.ipv4_address, req.container_port))
        × (source_of k.endian m1.frame ≡ source_of k.endian f)
  exposed_until_withdrawn lower upper s t st1 n1 r req container v ran body found ip-lt port-lt
        steps k f fib_macs asks =
      shown_serves tracker exposed tables port (info_of container req.container_port) ip-lt port-lt
        k (machine_of tracker exposed tables t f) fib_macs
        (StepsWith-keeps tracker exposed tables (λ req r. req ≢ unexpose port) lower upper port
          (some (info_of container req.container_port))
          (λ containers l l' q a.
            Agrees-keeps containers lower upper l l' q a port
              (info_of container req.container_port))
          (record s { app = st1; nat_tables = n1 }) t steps owned
          (expose_port-shown tracker exposed tables lower upper s.app s.nat_tables st1 n1 r port req
            container v ran body found))
        asks
    where
      owned : Owns exposed tables lower upper st1
      owned =
          subst (λ o. Owns exposed tables lower upper o.1) ran
            (expose_port-Owns exposed tables lower upper s.app s.nat_tables req v)
