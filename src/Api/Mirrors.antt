-- ===== src/Api/Mirrors.antt =====
-- The rules of iptables, for TCP, beside the entries of EXPOSE_MAP, for UDP: xdp-natd/src/api/expose.rs.
pub mod Handlers
use Prim.Native.String.{String}
use xdp_natd.Base.{
  ℕ, suc, ◌≡◌, ◌≢◌, refl, sym, ap, ◌∙◌, inl, inr, Result, ok, err, none, some, List, [], ◌∷◌, arith,
  Bool-cases, Option-cases, ℕ_discrete,
}
use xdp_natd.Common.{ContainerInfo}
use xdp_natd.BpfMap.{BpfMap, bpf_noexist, get-remove_self}
use xdp_natd.PortAllocator.Queue.{allocate_next-nil, allocate_next-cons}
use xdp_natd.Containers
use xdp_natd.Iptables.{
  Iptables, IptablesError, specification, add_iptables_rule, remove_iptables_rule,
}
use xdp_natd.Iptables.Rules.{specification-host_port}
use xdp_natd.Iptables.Chain.{
  Chain, arguments_discrete, add_iptables_rule-ok, add_iptables_rule-others, add_iptables_rule-err,
  remove_iptables_rule-ok, remove_iptables_rule-others, remove_iptables_rule-err,
}
use xdp_natd.Api.{
  AppState, ExposeRequest, Outcome, expose_added, expose_tcp, expose_on, expose_next,
  expose_container, info_of, expose_port, unexpose_removed, unexpose_tcp, unexpose_port, Request,
  health, expose, unexpose, handle, take_back, answer,
}
use xdp_natd.Api.Ports.{Owns}

-- The rule for an exposed port.
abbrev pub rule_of : ℕ → ContainerInfo → List String
rule_of port info = specification port info.container_ip info.container_port

module _ {E N : Type 0} (exposed : BpfMap ℕ ContainerInfo E) (tables : Iptables N)
    (chain : Chain tables) where
  open exposed use {get}
  open chain use {count}

  -- Each exposed port has its rule, once, and each rule is that of an exposed port.
  pub record Mirrors (e : E) (n : N) : Type 0 where
    pub once :
        (port : ℕ) (info : ContainerInfo) → get e port ≡ some info → count (rule_of port info) n ≡ 1
    pub only :
        (port ip target : ℕ)
        → count (specification port ip target) n ≢ 0
        → (info : ContainerInfo) × (get e port ≡ some info)
          × (specification port ip target ≡ rule_of port info)

  -- A port that is not exposed has no rule.
  pub unexposed_ruleless :
      {e : E} {n : N}
      → Mirrors e n
      → (port ip target : ℕ) → get e port ≡ none
      → count (specification port ip target) n ≡ 0
  unexposed_ruleless {n = n} v port ip target hidden =
      elim (ℕ_discrete (count (specification port ip target) n) 0) [
        | yes z ↦ z
        | no ne ↦ let (info, found, _) = v.only port ip target ne in absurd (cc (hidden, found))
      ]

  pub same_mirror :
      (e e' : E) (n n' : N)
      → ((j : ℕ) → get e' j ≡ get e j)
      → ((port ip target : ℕ)
          → count (specification port ip target) n' ≡ count (specification port ip target) n)
      → Mirrors e n
      → Mirrors e' n'
  same_mirror e e' n n' maps counts v = record {
    once = λ port info h.
        counts port info.container_ip info.container_port ∙ v.once port info (sym (maps port) ∙ h);
    only = λ port ip target h.
        let (info, found, same) = v.only port ip target (λ z. h (counts port ip target ∙ z)) in
        (info, maps port ∙ found, same);
  }

  module _ (e e' : E) (n n' : N) (port : ℕ) (info : ContainerInfo)
      (others : (j : ℕ) → j ≢ port → get e' j ≡ get e j)
      (counts : (port' ip target : ℕ)
        → specification port' ip target ≢ rule_of port info
        → count (specification port' ip target) n' ≡ count (specification port' ip target) n) where
    -- A rule for another port.
    other_port : (j ip target : ℕ) → j ≢ port → specification j ip target ≢ rule_of port info
    other_port j ip target ne same =
        ne (specification-host_port j ip target port info.container_ip info.container_port same)

    pub add_mirror :
        get e port ≡ none
        → get e' port ≡ some info
        → count (rule_of port info) n' ≡ suc (count (rule_of port info) n)
        → Mirrors e n
        → Mirrors e' n'
    add_mirror hidden here more v = record {
      once = λ j info' h. elim (ℕ_discrete j port) [
        | yes own ↦
            let same : info' ≡ info = cc (own, here, h) in
            rw (own, same)
              (more
                ∙ ap suc (unexposed_ruleless v port info.container_ip info.container_port hidden))
        | no ne ↦
            counts j info'.container_ip info'.container_port
              (other_port j info'.container_ip info'.container_port ne)
            ∙ v.once j info' (sym (others j ne) ∙ h)
      ];
      only = λ j ip target h.
          elim (arguments_discrete (specification j ip target) (rule_of port info)) [
            | yes same ↦
                let own : j ≡ port =
                  specification-host_port j ip target port info.container_ip info.container_port
                    same in
                (info, rw own here, same ∙ ap (λ q. rule_of q info) (sym own))
            | no other ↦
                let (info', found, same) =
                  v.only j ip target (λ z. h (counts j ip target other ∙ z)) in
                (info', others j (λ own. absurd (cc (own, found, hidden))) ∙ found, same)
          ];
    }

    pub remove_mirror :
        get e port ≡ some info
        → get e' port ≡ none
        → count (rule_of port info) n ≡ suc (count (rule_of port info) n')
        → Mirrors e n
        → Mirrors e' n'
    remove_mirror was gone less v = record {
      once = λ j info' h. elim (ℕ_discrete j port) [
        | yes own ↦ absurd (cc (own, h, gone))
        | no ne ↦
            counts j info'.container_ip info'.container_port
              (other_port j info'.container_ip info'.container_port ne)
            ∙ v.once j info' (sym (others j ne) ∙ h)
      ];
      only = λ j ip target h.
          elim (arguments_discrete (specification j ip target) (rule_of port info)) [
            | yes same ↦
                absurd (omega (arith, ap (λ r. count r n') same, less, v.once port info was, h))
            | no other ↦
                let (info', found, same) =
                  v.only j ip target (λ z. h (counts j ip target other ∙ z)) in
                (info', others j (λ own. other (cc (own, found, was, same))) ∙ found, same)
          ];
    }

  -- With nothing exposed and no rules there is nothing to mirror.
  pub empty-Mirrors :
      (e : E) (n : N)
      → ((port : ℕ) → get e port ≡ none)
      → ((port ip target : ℕ) → count (specification port ip target) n ≡ 0)
      → Mirrors e n
  empty-Mirrors e n hidden none_there = record {
    once = λ port info h. absurd (cc (hidden port, h));
    only = λ port ip target h. absurd (h (none_there port ip target));
  }
