-- ===== src/Main/End.antt =====
-- What the daemon leaves of its rules when it ends.
use Prim.Native.String.{String}
use xdp_natd.Base.{ℕ, ◌≡◌, ◌≢◌, ok, err, List}
use xdp_natd.Common.{ContainerInfo}
use xdp_natd.BpfMap.{BpfMap}
use xdp_natd.Configuration.{Configuration, Sources}
use xdp_natd.Discovery.{Docker}
use xdp_natd.Iptables.{Iptables, specification}
use xdp_natd.Iptables.Chain.{Chain}
use xdp_natd.Api.{AppState}
use xdp_natd.Api.Router.{Axum, HttpRequest}
use xdp_natd.Setup.{Platform}
use xdp_natd.Setup.Start.{ReservedPorts}
use xdp_natd.Serving.Rules.{AnsweredWith}
use xdp_natd.Main.{
  not_configured, not_logging, not_loaded, not_discovered, not_set_up, not_bound, no_signals,
  not_cleaned, Process, End,
}

module _ (axum : Axum) {S C L D E F N : Type 0} (sources : Sources S C) (docker : Docker)
    (platform : Platform L) (devmap : BpfMap ℕ ℕ D) (file : ReservedPorts F)
    (exposed : BpfMap ℕ ContainerInfo E) (tables : Iptables N) (process : Process)
    (chain : Chain tables) (late : List HttpRequest) (n : N) where
  abbrev Ending : Type 0
  Ending = End axum sources docker platform devmap file exposed tables process

  -- From a state of iptables without a rule for any port on, one of the last requests is answered
  -- with the port.
  abbrev pub ExposedLate : ℕ → Type 0
  ExposedLate port =
      (prefix : String) × (st : AppState E) × (flushed : N) × ((p ip target : ℕ)
        → chain.count (specification p ip target) flushed ≡ 0)
      × AnsweredWith axum exposed tables prefix port late st flushed

  -- Of a run that ends well, the rules left are those of ports exposed after the flush.
  abbrev pub OnlyLate : N → Type 0
  OnlyLate n' =
      (port ip target : ℕ) → chain.count (specification port ip target) n' ≢ 0 → ExposedLate port

  -- One that ends before the server has started leaves iptables as it was. Of an end between the
  -- two, and of a clean-up that fails, nothing is said.
  abbrev pub EndMeets : Ending → Type 0
  EndMeets (ok done, p, n') = OnlyLate n'
  EndMeets (err (not_configured e), p, n') = n' ≡ n
  EndMeets (err not_logging, p, n') = n' ≡ n
  EndMeets (err not_loaded, p, n') = n' ≡ n
  EndMeets (err (not_discovered e), p, n') = n' ≡ n
  EndMeets (err (not_set_up e), p, n') = n' ≡ n
  EndMeets (err not_bound, p, n') = n' ≡ n
  EndMeets (err no_signals, p, n') = Unit
  EndMeets (err (not_cleaned e), p, n') = Unit
