-- ===== src/Iptables.antt =====
-- add_iptables_rule and remove_iptables_rule of xdp-natd/src/api/expose.rs. The command iptables is
-- not part of the repository: `N` is the state that it changes. What it documents of the rules that
-- the daemon adds and deletes is in Iptables.Rules.
pub mod Rules
pub mod Chain
use Prim.Native.String.{String}
use xdp_natd.Base.{ℕ, Bool, true, false, Result, ok, err, List, [], ◌∷◌}
use xdp_natd.Texts.Decimal
use xdp_natd.Texts.Address.{show_ipv4_onto}

-- `Command::new("iptables").args(..).status()`: `ok` of whether the command succeeded, or `err` if it
-- could not be executed.
pub record Iptables (N : Type 0) : Type 0 where
  pub status : List String → N → Result Bool (Unit {0}) × N

pub data IptablesError : Type 0 where
  not_executed not_flushed : IptablesError
  not_added not_removed : ℕ → IptablesError

-- `format!("{}:{}", Ipv4Addr::from_bits(container_ip), container_port)`.
abbrev pub endpoint : ℕ → ℕ → String
endpoint container_ip container_port =
    show_ipv4_onto container_ip (String.◌∷◌ ":" (Decimal.show container_port))

-- What both calls give of the rule itself.
abbrev pub specification : ℕ → ℕ → ℕ → List String
specification host_port container_ip container_port =
    "-p"
    ∷ "tcp"
    ∷ "--dport"
    ∷ Decimal.show host_port
    ∷ "-j"
    ∷ "DNAT"
    ∷ "--to-destination"
    ∷ endpoint container_ip container_port
    ∷ []

-- The arguments of both calls: `-A` appends a rule, `-D` deletes it.
abbrev pub rule : String → ℕ → ℕ → ℕ → List String
rule action host_port container_ip container_port =
    "-t" ∷ "nat" ∷ action ∷ "PREROUTING" ∷ specification host_port container_ip container_port

-- `context(..)?` and `ensure!(status.success(), ..)`.
ensure_success : IptablesError → Result Bool (Unit {0}) → Result (Unit {0}) IptablesError
ensure_success failed (ok true) = ok tt
ensure_success failed (ok false) = err failed
ensure_success failed (err e) = err not_executed

module _ {N : Type 0} (tables : Iptables N) (host_port container_ip container_port : ℕ)
    (n : N) where
  unfoldable pub add_iptables_rule : Result (Unit {0}) IptablesError × N
  unfolding ensure_success
  add_iptables_rule =
      let (status, n') = tables.status (rule "-A" host_port container_ip container_port) n in
      (ensure_success (not_added host_port) status, n')

  unfoldable pub remove_iptables_rule : Result (Unit {0}) IptablesError × N
  unfolding ensure_success
  remove_iptables_rule =
      let (status, n') = tables.status (rule "-D" host_port container_ip container_port) n in
      (ensure_success (not_removed host_port) status, n')

abbrev pub flush : List String
flush = "-t" ∷ "nat" ∷ "-F" ∷ "PREROUTING" ∷ []

-- What main of xdp-natd/src/main.rs does before it ends: all rules of the chain go.
unfoldable pub clean_up : {N : Type 0} → Iptables N → N → Result (Unit {0}) IptablesError × N
unfolding ensure_success
clean_up tables n =
    let (status, n') = tables.status flush n in (ensure_success not_flushed status, n')
