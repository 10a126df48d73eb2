-- ===== src/Api/Rules.antt =====
-- Which requests to the handlers of xdp-natd/src/api leave a rule of iptables for a port.
use xdp_natd.Base.{
  ℕ, ◌≡◌, ◌≢◌, refl, sym, ap, ◌∙◌, ◌⊎◌, inl, inr, ok, err, none, some, arith, Option, Result,
  Bool-cases, Option-cases,
}
use xdp_natd.Common.{ContainerInfo}
use xdp_natd.BpfMap.{BpfMap, bpf_noexist}
use xdp_natd.PortAllocator.{PortAllocator, allocate_next}
use xdp_natd.Containers
use xdp_natd.Iptables.{
  Iptables, IptablesError, specification, add_iptables_rule, remove_iptables_rule,
}
use xdp_natd.Iptables.Rules.{specification-host_port}
use xdp_natd.Iptables.Chain.{
  Chain, arguments_discrete, add_iptables_rule-others, add_iptables_rule-err,
  remove_iptables_rule-ok, remove_iptables_rule-others, remove_iptables_rule-err,
}
use xdp_natd.Api.{
  AppState, ExposeRequest, Outcome, Response, response, exposing, expose_added, expose_tcp,
  expose_on, expose_next, expose_container, info_of, expose_port, unexpose_removed, unexpose_tcp,
  unexpose_port, Request, health, expose, unexpose, handle, take_back, answer,
}

module _ {E N : Type 0} (exposed : BpfMap ℕ ContainerInfo E) (tables : Iptables N)
    (chain : Chain tables) (port ip target : ℕ) where
  abbrev pub rules : N → ℕ
  rules = chain.count (specification port ip target)

  abbrev pub Exposes : Response → Type 0
  Exposes r = (asked : ℕ) × (r ≡ response 200 (exposing asked port))

  -- A rule that is there afterwards was there before, or the answer names its port.
  abbrev FromBefore : N → Outcome exposed tables → Type 0
  FromBefore n o =
      rules (answer exposed tables o).2 ≢ 0 → (rules n ≢ 0) ⊎ Exposes (answer exposed tables o).0

  expose_added-FromBefore :
      (st : AppState E) (n : N) (info : ContainerInfo) (p : ℕ)
      (r : Result (Unit {0}) IptablesError × N)
      → add_iptables_rule tables p info.container_ip info.container_port n ≡ r
      → FromBefore n (expose_added exposed tables st info p r)
  unfolding expose_added take_back
  expose_added-FromBefore st n info p (ok done, n') ran there =
      elim (arguments_discrete (specification port ip target)
        (specification p info.container_ip info.container_port)) [
          | yes same ↦ inr (
            info.container_port,
            ap (λ q. response 200 (exposing info.container_port q))
                (sym (
                  specification-host_port port ip target p info.container_ip info.container_port
                    same)),
          )
          | no other ↦ inl (λ z. there (
              (rw ran at
                  (add_iptables_rule-others tables chain p info.container_ip info.container_port n))
                port ip target other
              ∙ z))
        ]
  expose_added-FromBefore st n info p (err e, n') ran there = inl (λ z. there (
      (rw ran at (
          add_iptables_rule-err tables chain p info.container_ip info.container_port n e port ip
            target))
        refl
      ∙ z))

  expose_on-FromBefore :
      (st : AppState E) (n : N) (info : ContainerInfo) (p : ℕ)
      → FromBefore n (expose_on exposed tables st n info p)
  unfolding expose_on expose_tcp
  expose_on-FromBefore st n info p =
      elim (Bool-cases (exposed.insert st.expose_map p info bpf_noexist).0) [
        | inl done ↦ rw (done, expose_on) (expose_added-FromBefore _ n info p _ refl)
        | inr failed ↦ rw (failed, expose_on) (λ there. inl there)
      ]

  expose_next-FromBefore :
      (st : AppState E) (n : N) (info : ContainerInfo) (o : Option ℕ × PortAllocator)
      → FromBefore n (expose_next exposed tables st n info o)
  unfolding expose_next
  expose_next-FromBefore st n info (none, ports) = λ there. inl there
  expose_next-FromBefore st n info (some p, ports) =
      expose_on-FromBefore (record st { port_allocator = ports }) n info p

  expose_port-FromBefore :
      (st : AppState E) (n : N) (req : ExposeRequest)
      → FromBefore n (expose_port exposed tables st n req)
  unfolding expose_port expose_container
  expose_port-FromBefore st n req =
      elim (Option-cases (Containers.get st.container_metas req.container_ip)) [
        | inl missing ↦ rw (missing, expose_port) (λ there. inl there)
        | inr (container, found) ↦
            rw (found, expose_port)
              (expose_next-FromBefore st n (info_of container req.container_port)
                (allocate_next st.port_allocator))
      ]

  unexpose_removed-FromBefore :
      (st : AppState E) (n : N) (info : ContainerInfo) (p : ℕ)
      (r : Result (Unit {0}) IptablesError × N)
      → remove_iptables_rule tables p info.container_ip info.container_port n ≡ r
      → FromBefore n (unexpose_removed exposed tables st p r)
  unfolding unexpose_removed
  unexpose_removed-FromBefore st n info p (ok done, n') ran there =
      elim (arguments_discrete (specification port ip target)
        (specification p info.container_ip info.container_port)) [
          | yes same ↦ inl (λ z. absurd (
              omega (
                arith,
                z,
                ap (λ s. chain.count s n) same,
                (rw ran at (
                      remove_iptables_rule-ok tables chain p info.container_ip info.container_port
                        n))
                    refl,
              )))
          | no other ↦ inl (λ z. there (
              (rw ran at (
                  remove_iptables_rule-others tables chain p info.container_ip info.container_port
                    n))
                port ip target other
              ∙ z))
        ]
  unexpose_removed-FromBefore st n info p (err e, n') ran there = inl (λ z. there (
      (rw ran at (
          remove_iptables_rule-err tables chain p info.container_ip info.container_port n e port ip
            target))
        refl
      ∙ z))

  unexpose_port-FromBefore :
      (st : AppState E) (n : N) (p : ℕ) → FromBefore n (unexpose_port exposed tables st n p)
  unfolding unexpose_port unexpose_tcp
  unexpose_port-FromBefore st n p = elim (Option-cases (exposed.get st.expose_map p)) [
    | inl absent ↦ rw (absent, unexpose_port) (λ there. inl there)
    | inr (info, was) ↦ rw (was, unexpose_port) (unexpose_removed-FromBefore st n info p _ refl)
  ]

  pub handle-FromBefore :
      (st : AppState E) (n : N) (req : Request)
      → rules (handle exposed tables st n req).2 ≢ 0
      → (rules n ≢ 0) ⊎ Exposes (handle exposed tables st n req).0
  unfolding handle
  handle-FromBefore st n health = λ there. inl there
  handle-FromBefore st n (expose req) = expose_port-FromBefore st n req
  handle-FromBefore st n (unexpose p) = unexpose_port-FromBefore st n p
