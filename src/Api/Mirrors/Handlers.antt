-- ===== src/Api/Mirrors/Handlers.antt =====
-- What the handlers make of the rules of iptables and of EXPOSE_MAP together.
use xdp_natd.Base.{
  ℕ, ◌≡◌, ◌≢◌, refl, sym, ap, ◌∙◌, inl, inr, Result, ok, err, none, some, List, [], ◌∷◌, Bool-cases,
  Option-cases, ℕ_discrete,
}
use xdp_natd.Common.{ContainerInfo}
use xdp_natd.BpfMap.{BpfMap, bpf_noexist, get-remove_self}
use xdp_natd.PortAllocator.Queue.{allocate_next-nil, allocate_next-cons}
use xdp_natd.Containers
use xdp_natd.Iptables.{
  Iptables, IptablesError, specification, add_iptables_rule, remove_iptables_rule,
}
use xdp_natd.Iptables.Chain.{
  Chain, add_iptables_rule-ok, add_iptables_rule-others, add_iptables_rule-err,
  remove_iptables_rule-ok, remove_iptables_rule-others, remove_iptables_rule-err,
}
use xdp_natd.Api.{
  AppState, ExposeRequest, Outcome, expose_added, expose_tcp, expose_on, expose_next,
  expose_container, info_of, expose_port, unexpose_removed, unexpose_tcp, unexpose_port, Request,
  health, expose, unexpose, handle, take_back, answer,
}
use xdp_natd.Api.Ports.{Owns}
use xdp_natd.Api.Mirrors.{Mirrors, same_mirror, add_mirror, remove_mirror}

module _ {E N : Type 0} (exposed : BpfMap ℕ ContainerInfo E) (tables : Iptables N)
    (chain : Chain tables) where
  open exposed use {get}
  open chain use {count}

  -- The state that a handler leaves.
  abbrev pub MirrorsAfter : Outcome exposed tables → Type 0
  MirrorsAfter (r, st, n) = Mirrors exposed tables chain st.expose_map n

  module _ (st : AppState E) (n : N) (port : ℕ) (info : ContainerInfo)
      (v : Mirrors exposed tables chain st.expose_map n) where
    -- An entry that was new and is taken back, with no rule added.
    back_mirror :
        (e : E) (n' : N)
        → get st.expose_map port ≡ none
        → ((j : ℕ) → j ≢ port → get e j ≡ get st.expose_map j)
        → ((p ip target : ℕ)
            → count (specification p ip target) n' ≡ count (specification p ip target) n)
        → Mirrors exposed tables chain (exposed.remove e port).1 n'
    back_mirror e n' hidden others counts =
        same_mirror exposed tables chain st.expose_map (exposed.remove e port).1 n n'
          (λ j. elim (ℕ_discrete j port) [
            | yes own ↦ rw own (get-remove_self exposed e port ∙ sym hidden)
            | no ne ↦ exposed.remove_ne e j port ne ∙ others j ne
          ])
          counts v

    expose_added-Mirrors :
        (st' : AppState E) (r : Result (Unit {0}) IptablesError × N)
        → add_iptables_rule tables port info.container_ip info.container_port n ≡ r
        → get st.expose_map port ≡ none
        → get st'.expose_map port ≡ some info
        → ((j : ℕ) → j ≢ port → get st'.expose_map j ≡ get st.expose_map j)
        → MirrorsAfter (expose_added exposed tables st' info port r)
    unfolding expose_added take_back
    expose_added-Mirrors st' (ok done, n') ran hidden here others =
        add_mirror exposed tables chain st.expose_map st'.expose_map n n' port info others
          (rw ran at
            (add_iptables_rule-others tables chain port info.container_ip info.container_port n))
          hidden here
          ((rw ran at
              (add_iptables_rule-ok tables chain port info.container_ip info.container_port n))
            refl)
          v
    expose_added-Mirrors st' (err failed, n') ran hidden here others =
        back_mirror st'.expose_map n' hidden others λ p ip target.
          (rw ran at (
              add_iptables_rule-err tables chain port info.container_ip info.container_port n failed
                p ip target))
            refl

    expose_on-Mirrors :
        get st.expose_map port ≡ none → MirrorsAfter (expose_on exposed tables st n info port)
    unfolding expose_on expose_tcp
    expose_on-Mirrors hidden =
        elim (Bool-cases (exposed.insert st.expose_map port info bpf_noexist).0) [
          | inl done ↦
              rw (done, expose_on)
                (expose_added-Mirrors _ _ refl hidden
                  (exposed.insert_ok st.expose_map port info bpf_noexist done)
                  (λ j ne. exposed.insert_ne st.expose_map j port info bpf_noexist ne))
          | inr failed ↦
              rw (failed, expose_on)
                (same_mirror exposed tables chain st.expose_map _ n n
                  (λ j.
                    ap (λ e. get e j)
                      (exposed.insert_err st.expose_map port info bpf_noexist failed))
                  (λ p ip target. refl) v)
        ]

    unexpose_removed-Mirrors :
        (r : Result (Unit {0}) IptablesError × N)
        → remove_iptables_rule tables port info.container_ip info.container_port n ≡ r
        → get st.expose_map port ≡ some info
        → MirrorsAfter (unexpose_removed exposed tables st port r)
    unfolding unexpose_removed
    unexpose_removed-Mirrors (ok done, n') ran was =
        remove_mirror exposed tables chain st.expose_map (exposed.remove st.expose_map port).1 n n'
          port info (λ j ne. exposed.remove_ne st.expose_map j port ne)
          (rw ran at
            (remove_iptables_rule-others tables chain port info.container_ip info.container_port n))
          was (get-remove_self exposed st.expose_map port)
          ((rw ran at
              (remove_iptables_rule-ok tables chain port info.container_ip info.container_port n))
            refl)
          v
    unexpose_removed-Mirrors (err failed, n') ran was =
        same_mirror exposed tables chain st.expose_map st.expose_map n n' (λ j. refl)
          (λ p ip target.
            (rw ran at (
                remove_iptables_rule-err tables chain port info.container_ip info.container_port n
                  failed p ip target))
              refl)
          v

  module _ (lower upper : ℕ) where
    expose_container-Mirrors :
        (st : AppState E) (n : N) (info : ContainerInfo) (ports : List ℕ)
        → st.port_allocator.ports ≡ ports
        → Owns exposed tables lower upper st
        → Mirrors exposed tables chain st.expose_map n
        → MirrorsAfter (expose_container exposed tables st n info)
    unfolding expose_container expose_next
    expose_container-Mirrors st n info [] none_left o v =
        rw (allocate_next-nil st.port_allocator none_left, expose_next) v
    expose_container-Mirrors st n info (port ∷ rest) first o v =
        rw (allocate_next-cons st.port_allocator port rest first, expose_next)
          (expose_on-Mirrors (record st { port_allocator = record { ports = rest } }) n port info v
            (o.apart port (rw first (inl refl))))

    expose_port-Mirrors :
        (st : AppState E) (n : N) (req : ExposeRequest)
        → Owns exposed tables lower upper st
        → Mirrors exposed tables chain st.expose_map n
        → MirrorsAfter (expose_port exposed tables st n req)
    unfolding expose_port
    expose_port-Mirrors st n req o v =
        elim (Option-cases (Containers.get st.container_metas req.container_ip)) [
          | inl missing ↦ rw (missing, expose_port) v
          | inr (container, found) ↦
              rw (found, expose_port)
                (expose_container-Mirrors st n (info_of container req.container_port) _ refl o v)
        ]

    unexpose_port-Mirrors :
        (st : AppState E) (n : N) (port : ℕ)
        → Mirrors exposed tables chain st.expose_map n
        → MirrorsAfter (unexpose_port exposed tables st n port)
    unfolding unexpose_port unexpose_tcp
    unexpose_port-Mirrors st n port v = elim (Option-cases (get st.expose_map port)) [
      | inl absent ↦ rw (absent, unexpose_port) v
      | inr (info, was) ↦
          rw (was, unexpose_port) (unexpose_removed-Mirrors st n port info v _ refl was)
    ]

    MirrorsAfter-answer :
        (o : Outcome exposed tables)
        → MirrorsAfter o
        → Mirrors exposed tables chain
            (answer exposed tables o).1.expose_map
            (answer exposed tables o).2
    MirrorsAfter-answer (ok r, st, n) v = v
    MirrorsAfter-answer (err e, st, n) v = v

    -- By the laws of Chain for iptables, and in a state that owns its ports: if each exposed port
    -- has its rule once, and each rule that the daemon may name is that of an exposed port, then
    -- both hold after any request, whether it succeeds or fails.
    pub handle-Mirrors :
        (st : AppState E) (n : N) (req : Request)
        → Owns exposed tables lower upper st
        → Mirrors exposed tables chain st.expose_map n
        → Mirrors exposed tables chain
            (handle exposed tables st n req).1.expose_map
            (handle exposed tables st n req).2
    unfolding handle
    handle-Mirrors st n health o v = v
    handle-Mirrors st n (expose req) o v =
        MirrorsAfter-answer (expose_port exposed tables st n req) (expose_port-Mirrors st n req o v)
    handle-Mirrors st n (unexpose port) o v =
        MirrorsAfter-answer (unexpose_port exposed tables st n port)
          (unexpose_port-Mirrors st n port v)
