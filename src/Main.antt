-- ===== src/Main.antt =====
-- main of xdp-natd/src/main.rs, from its configuration to its end, with setup_axum_server and
-- start_server of xdp-natd/src/api/server.rs. The stubs, whose failures are ignored, have no part in
-- it, and nor has the logger of the kernel programs.
pub mod End
use Prim.Native.String.{String}
use xdp_natd.Base.{
  ℕ, Bool, true, false, ◌≡◌, refl, Result, ok, err, Option, none, some, List, [], ◌∷◌,
  if◌then◌else◌,
}
use xdp_natd.Common.{ContainerInfo}
use xdp_natd.BpfMap.{BpfMap}
use xdp_natd.Texts.Decimal
use xdp_natd.Texts.Split.{onto}
use xdp_natd.Configuration.{Configuration, ConfigError, Sources, get_configuration}
use xdp_natd.Discovery.{Docker, DiscoveryError, get_containers}
use xdp_natd.Containers.{ContainerMap}
use xdp_natd.Iptables.{Iptables, IptablesError, clean_up}
use xdp_natd.Iptables.Chain.{Chain}
use xdp_natd.Api.{AppState}
use xdp_natd.Api.Router.{Axum, HttpRequest}
use xdp_natd.Setup.{Platform, SetupError}
use xdp_natd.Setup.Start.{ReservedPorts, Plane, Outcome, start}
use xdp_natd.Serving.{answer_all}
use xdp_natd.Telemetry.{Tracing, init_logging}

pub data MainError : Type 0 where
  not_configured : ConfigError → MainError
  -- Of the logging: a panic.
  not_logging : MainError
  not_loaded : MainError
  not_discovered : DiscoveryError → MainError
  not_set_up : SetupError → MainError
  -- The process exits with code 1.
  not_bound : MainError
  no_signals : MainError
  not_cleaned : IptablesError → MainError

-- `{}:{}` of the host and the port.
abbrev pub listen_address : Configuration → String
listen_address configuration =
    onto configuration.control_plane.host
      (String.◌∷◌ ":" (Decimal.show configuration.control_plane.port))

-- What the process asks of the system: its logging, the object with the programs and the maps, an
-- address to listen on, and to be told of SIGTERM.
pub record Process : Type 0 where
  pub tracing : Tracing
  pub object : Bool
  pub bind : String → Bool
  pub signals : Bool

module _ (axum : Axum) {S C L D E F N : Type 0} (sources : Sources S C) (docker : Docker)
    (platform : Platform L) (devmap : BpfMap ℕ ℕ D) (file : ReservedPorts F)
    (exposed : BpfMap ℕ ContainerInfo E) (tables : Iptables N) (process : Process) where
  abbrev pub End : Type 0
  End = Result (Unit {0}) MainError × Plane L D E F × N

  abbrev pub cleaned : Result (Unit {0}) IptablesError → Result (Unit {0}) MainError
  cleaned (ok done) = ok tt
  cleaned (err e) = err (not_cleaned e)

  -- From the wait for a signal on. `meanwhile` is what the spawned task does to iptables after the
  -- clean-up, until the process ends.
  pub until_signal : (N → N) → Plane L D E F → N → End
  until_signal meanwhile p n =
      let (done, n') = clean_up tables n in
      if process.signals then (cleaned done, p, meanwhile n') else (err no_signals, p, n)

  -- The server is a task of its own: it answers requests until the signal comes, and goes on during
  -- and after the clean-up. Of a request that is handled at that time, it is the call of iptables
  -- that comes before or after the flush.
  pub serve :
      Configuration → List HttpRequest → List HttpRequest → AppState E → Plane L D E F → N → End
  unfolding until_signal
  serve configuration reqs late st p n =
      let (st', n') = answer_all axum exposed tables configuration.control_plane.prefix reqs st n in
      if process.bind (listen_address configuration)
      then until_signal
          (λ flushed.
            (answer_all axum exposed tables configuration.control_plane.prefix late st' flushed).1)
          p n'
      else (err not_bound, p, n)

  pub after_start :
      Configuration → List HttpRequest → List HttpRequest → N → Outcome E platform devmap file → End
  unfolding until_signal serve
  after_start configuration reqs late n (err e, p) = (err (not_set_up e), p, n)
  after_start configuration reqs late n (ok none, p) = until_signal (λ flushed. flushed) p n
  after_start configuration reqs late n (ok (some st), p) = serve configuration reqs late st p n

  pub with_containers :
      Configuration
      → List HttpRequest
      → List HttpRequest
      → Plane L D E F
      → N
      → Result ContainerMap DiscoveryError
      → End
  unfolding after_start
  with_containers configuration reqs late p n (err e) = (err (not_discovered e), p, n)
  with_containers configuration reqs late p n (ok containers) =
      after_start configuration reqs late n (
        start E platform devmap file configuration.data_plane.pnic configuration.data_plane.mode
          containers p)

  -- From the loading of the object on.
  pub with_logging : List HttpRequest → List HttpRequest → Plane L D E F → N → Configuration → End
  unfolding with_containers
  with_logging reqs late p n configuration =
      if process.object
      then with_containers configuration reqs late p n
          (get_containers docker configuration.data_plane.network)
      else (err not_loaded, p, n)

  pub with_configuration :
      List HttpRequest
      → List HttpRequest
      → Plane L D E F
      → N
      → Result Configuration ConfigError
      → End
  unfolding with_logging
  with_configuration reqs late p n (err e) = (err (not_configured e), p, n)
  with_configuration reqs late p n (ok configuration) =
      if init_logging process.tracing configuration
      then with_logging reqs late p n configuration
      else (err not_logging, p, n)

  -- The requests are those that the server answers before the flush of the clean-up, and those after.
  unfoldable pub main : List HttpRequest → List HttpRequest → Plane L D E F → N → End
  unfolding with_configuration
  main reqs late p n = with_configuration reqs late p n (get_configuration sources)
