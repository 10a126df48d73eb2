-- ===== src/Api/Contract.antt =====
-- What the HTTP interface promises, over the exposed ports alone: the queue of free ports, its order
-- and the map's representation are forgotten.
use xdp_natd.Base.{
  ℕ, ◌≤◌, ◌≡◌, ◌≢◌, refl, sym, subst, ap, ◌↔◌, ok, err, some, none, arith, inl, Option, In,
}
use xdp_natd.Common.{ContainerInfo}
use xdp_natd.BpfMap.{BpfMap}
use xdp_natd.Containers
use xdp_natd.Containers.{ContainerMetadata, ContainerMap}
use xdp_natd.Iptables.{Iptables}
use xdp_natd.Api.{
  AppState, ExposeRequest, AppError, Response, response, exposing, unexposed, Outcome, info_of,
  expose_port, unexpose_port, Request, health, expose, unexpose, handle, answer, into_response,
  health_check, healthy,
}
use xdp_natd.Api.Ports.{Owns}
use xdp_natd.Api.Outcomes.{ExposeMeets, expose_port-Meets, UnexposeMeets, unexpose_port-Meets}

-- The container that each host port leads to, if any.
abbrev pub Ledger : Type 0
Ledger = ℕ → Option ContainerInfo

-- A request and its answer, and the ports before and after, for known containers and a range.
pub data Agrees (containers : ContainerMap) (lower upper : ℕ) (l l' : Ledger)
    : Request → Response → Type 0 where
  -- The service is well.
  is_healthy : l' ≡ l → Agrees containers lower upper l l' health (response 200 healthy)
  -- A port of the range that led nowhere leads to the container that was asked for.
  exposes :
      (req : ExposeRequest) (port : ℕ) (container : ContainerMetadata)
      → Containers.get containers req.container_ip ≡ some container
      → lower ≤ port
      → port ≤ upper
      → l port ≡ none
      → l' port ≡ some (info_of container req.container_port)
      → ((j : ℕ) → j ≢ port → l' j ≡ l j)
      → Agrees containers lower upper l l'
          (expose req)
          (response 200 (exposing req.container_port port))
  -- A port that led to a container leads nowhere.
  withdraws :
      (port : ℕ) (info : ContainerInfo)
      → l port ≡ some info
      → l' port ≡ none
      → ((j : ℕ) → j ≢ port → l' j ≡ l j)
      → Agrees containers lower upper l l' (unexpose port) (response 200 (unexposed port))
  -- An error changes nothing.
  refuses :
      (req : Request) (e : AppError)
      → l' ≡ l
      → Agrees containers lower upper l l' req (into_response e)

module _ {E N : Type 0} (exposed : BpfMap ℕ ContainerInfo E) (tables : Iptables N)
    (lower upper : ℕ) where
  abbrev pub ledger : AppState E → Ledger
  ledger st port = exposed.get st.expose_map port

  expose_port-Agrees :
      (st : AppState E) (req : ExposeRequest) (o : Outcome exposed tables)
      → Owns exposed tables lower upper st
      → ExposeMeets exposed tables st req o
      → Agrees st.container_metas lower upper
          (ledger st)
          (ledger (answer exposed tables o).1)
          (expose req)
          (answer exposed tables o).0
  expose_port-Agrees st req (err e, st', n) v same = refuses (expose req) e (λ i p. same.0 p i)
  expose_port-Agrees st req (ok r, st', n) v
        (port, container, found, first, answered, here, others) =
      subst (Agrees st.container_metas lower upper (ledger st) (ledger st') (expose req))
        (sym answered)
        (exposes req port container found (v.free_inside port free).0 (v.free_inside port free).1
          (v.apart port free) here others)
    where
      free : In port st.port_allocator.ports
      free = rw first (inl refl)

  unexpose_port-Agrees :
      (st : AppState E) (port : ℕ) (o : Outcome exposed tables)
      → UnexposeMeets exposed tables st port o
      → Agrees st.container_metas lower upper
          (ledger st)
          (ledger (answer exposed tables o).1)
          (unexpose port)
          (answer exposed tables o).0
  unexpose_port-Agrees st port (err e, st', n) same = refuses (unexpose port) e (ap ledger same)
  unexpose_port-Agrees st port (ok r, st', n) (info, was, answered, absent, others, _) =
      subst (Agrees st.container_metas lower upper (ledger st) (ledger st') (unexpose port))
        (sym answered) (withdraws port info was absent others)

  -- In a state that owns its ports, the free ports are those of the range that lead nowhere.
  pub free-ledger :
      (st : AppState E)
      → Owns exposed tables lower upper st
      → (port : ℕ)
      → In port st.port_allocator.ports
        ↔ ((lower ≤ port) × (port ≤ upper) × (ledger st port ≡ none))
  free-ledger st v port = (
    λ h. ((v.free_inside port h).0, (v.free_inside port h).1, v.apart port h),
    λ h. ground (arith, v.covered port h.0 h.1, h.2),
  )

  -- If each port of the range is free once or exposed, and no other port is either, then a
  -- request's answer and the change of the exposed ports are as the contract says: a success
  -- exposes a port of the range that led nowhere for the container asked for, or withdraws the port
  -- asked for, and names it; an error changes no port.
  pub handle-Agrees :
      (st : AppState E) (n : N) (req : Request)
      → Owns exposed tables lower upper st
      → Agrees st.container_metas lower upper
          (ledger st)
          (ledger (handle exposed tables st n req).1)
          req
          (handle exposed tables st n req).0
  unfolding handle health_check
  handle-Agrees st n health v = is_healthy refl
  handle-Agrees st n (expose req) v =
      expose_port-Agrees st req (expose_port exposed tables st n req) v
        (expose_port-Meets exposed tables lower upper st n req v)
  handle-Agrees st n (unexpose port) v =
      unexpose_port-Agrees st port (unexpose_port exposed tables st n port)
        (unexpose_port-Meets exposed tables st n port)
