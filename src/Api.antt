-- ===== src/Api.antt =====
-- The daemon's HTTP handlers: xdp-natd/src/api (mod.rs, state.rs, expose.rs, health_check.rs). The
-- write lock makes a handler one step, with the state and the state of iptables passed on. A message
-- is kept as what it is made of; the log lines are not modelled.
pub mod Ports
pub mod Outcomes
pub mod Known
pub mod Contract
pub mod Mirrors
pub mod Router
pub mod Answers
pub mod RoundTrip
pub mod Rules
use xdp_natd.Base.{ℕ, true, false, Result, ok, err, Option, none, some}
use xdp_natd.Common.{ContainerInfo}
use xdp_natd.BpfMap.{BpfMap, bpf_noexist}
use xdp_natd.PortAllocator.{PortAllocator, allocate_next, deallocate}
use xdp_natd.Containers
use xdp_natd.Containers.{ContainerMetadata, ContainerMap}
use xdp_natd.Iptables.{Iptables, IptablesError, add_iptables_rule, remove_iptables_rule}

pub record AppState (E : Type 0) : Type 0 where
  pub expose_map : E
  pub port_allocator : PortAllocator
  pub container_metas : ContainerMap

-- `AppState::new`.
abbrev pub app_state : {E : Type 0} → E → PortAllocator → ContainerMap → AppState E
app_state expose_map port_allocator container_metas = record {
  expose_map = expose_map;
  port_allocator = port_allocator;
  container_metas = container_metas;
}

pub record ExposeRequest : Type 0 where
  pub container_ip : ℕ
  pub container_port : ℕ

-- The messages that a client may see, with what each names; their texts are in Api.Answers.
pub data Message : Type 0 where
  no_container : ℕ → Message
  no_ports : Message
  not_exposed : ℕ → Message

-- `anyhow::Error`: what failed in the daemon.
pub data Cause : Type 0 where
  not_inserted : ℕ → Cause
  not_exposed_tcp : ℕ → IptablesError → Cause
  rule_not_removed : IptablesError → Cause

pub data AppError : Type 0 where
  not_found conflict capacity : Message → AppError
  internal : Cause → AppError

pub data Body : Type 0 where
  exposing : ℕ → ℕ → Body
  unexposed : ℕ → Body
  healthy : Body
  message : Message → Body
  -- "An internal server error occurred", whatever the error was.
  internal_error : Body

pub record Response : Type 0 where
  pub status : ℕ
  pub body : Body

abbrev pub response : ℕ → Body → Response
response status body = record { status = status; body = body }

unfoldable pub into_response : AppError → Response
into_response (not_found msg) = response 404 (message msg)
into_response (conflict msg) = response 409 (message msg)
into_response (capacity msg) = response 503 (message msg)
into_response (internal e) = response 500 internal_error

pub health_check : Response
health_check = response 200 healthy

-- What EXPOSE_MAP will hold.
abbrev pub info_of : ContainerMetadata → ℕ → ContainerInfo
info_of container container_port = record {
  container_ip = container.ipv4_address;
  container_mac = container.mac_address;
  container_port = container_port;
  ifindex = container.ifindex;
}

-- A request that the router hands to a handler, and what it answers.
pub data Request : Type 0 where
  health : Request
  expose : ExposeRequest → Request
  unexpose : ℕ → Request

module _ {E N : Type 0} (exposed : BpfMap ℕ ContainerInfo E) (tables : Iptables N) where
  abbrev pub Outcome : Type 0
  Outcome = Result Response AppError × AppState E × N

  -- `expose_map.remove` and `deallocate`, and the failure of the handler.
  take_back : AppState E → N → ℕ → AppError → Outcome
  take_back st n port e = (
    err e,
    record st {
      expose_map = (exposed.remove st.expose_map port).1;
      port_allocator = deallocate st.port_allocator port;
    },
    n,
  )

  -- From the entry in the map on: the rule for TCP.
  expose_added : AppState E → ContainerInfo → ℕ → Result (Unit {0}) IptablesError × N → Outcome
  unfolding take_back
  expose_added st info port (ok done, n) =
      (ok (response 200 (exposing info.container_port port)), st, n)
  expose_added st info port (err e, n) = take_back st n port (internal (not_exposed_tcp port e))

  expose_tcp : AppState E → N → ContainerInfo → ℕ → Outcome
  unfolding expose_added
  expose_tcp st n info port =
      expose_added st info port
        (add_iptables_rule tables port info.container_ip info.container_port n)

  -- From the allocated port on: the entry for UDP. A port that was not inserted goes back.
  expose_on : AppState E → N → ContainerInfo → ℕ → Outcome
  unfolding expose_tcp
  expose_on st n info port =
      let (inserted, expose_map') = exposed.insert st.expose_map port info bpf_noexist in
      let st' : AppState E = record st { expose_map = expose_map' } in
      elim inserted [
        | true ↦ expose_tcp st' n info port
        | false ↦ (
          err (internal (not_inserted port)),
          record st' { port_allocator = deallocate st.port_allocator port },
          n,
        )
      ]

  expose_next : AppState E → N → ContainerInfo → Option ℕ × PortAllocator → Outcome
  unfolding expose_on
  expose_next st n info (none, ports') =
      (err (capacity no_ports), record st { port_allocator = ports' }, n)
  expose_next st n info (some port, ports') =
      expose_on (record st { port_allocator = ports' }) n info port

  expose_container : AppState E → N → ContainerInfo → Outcome
  unfolding expose_next
  expose_container st n info = expose_next st n info (allocate_next st.port_allocator)

  unfoldable pub expose_port : AppState E → N → ExposeRequest → Outcome
  unfolding expose_container
  expose_port st n req = elim (Containers.get st.container_metas req.container_ip) [
    | none ↦ (err (not_found (no_container req.container_ip)), st, n)
    | some container ↦ expose_container st n (info_of container req.container_port)
  ]

  unexpose_removed : AppState E → ℕ → Result (Unit {0}) IptablesError × N → Outcome
  unexpose_removed st port (err e, n) = (err (internal (rule_not_removed e)), st, n)
  unexpose_removed st port (ok done, n) = (
    ok (response 200 (unexposed port)),
    record st {
      expose_map = (exposed.remove st.expose_map port).1;
      port_allocator = deallocate st.port_allocator port;
    },
    n,
  )

  unexpose_tcp : AppState E → N → ContainerInfo → ℕ → Outcome
  unfolding unexpose_removed
  unexpose_tcp st n info port =
      unexpose_removed st port
        (remove_iptables_rule tables port info.container_ip info.container_port n)

  unfoldable pub unexpose_port : AppState E → N → ℕ → Outcome
  unfolding unexpose_tcp
  unexpose_port st n host_port = elim (exposed.get st.expose_map host_port) [
    | none ↦ (err (not_found (not_exposed host_port)), st, n)
    | some info ↦ unexpose_tcp st n info host_port
  ]

  abbrev pub answer : Outcome → Response × AppState E × N
  answer (ok r, st, n) = (r, st, n)
  answer (err e, st, n) = (into_response e, st, n)

  unfoldable pub handle : AppState E → N → Request → Response × AppState E × N
  unfolding into_response health_check expose_port unexpose_port
  handle st n health = (health_check, st, n)
  handle st n (expose req) = answer (expose_port st n req)
  handle st n (unexpose host_port) = answer (unexpose_port st n host_port)
