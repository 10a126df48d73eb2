-- ===== src/Api/Known.antt =====
-- Every exposed port leads to a container that the daemon knows.
use xdp_natd.Base.{ℕ, ◌≡◌, subst, refl, sym, ap, ◌∙◌, ok, err, some, arith, ℕ_discrete}
use xdp_natd.Common.{ContainerInfo}
use xdp_natd.BpfMap.{BpfMap}
use xdp_natd.Containers
use xdp_natd.Containers.{ContainerMap, ContainerMetadata}
use xdp_natd.Iptables.{Iptables}
use xdp_natd.Api.{
  AppState, ExposeRequest, Outcome, expose_port, expose_container, expose_next, expose_on,
  expose_tcp, expose_added, unexpose_port, unexpose_tcp, unexpose_removed, take_back, Request,
  health, expose, unexpose, handle, answer,
}
use xdp_natd.Api.Ports.{Owns}
use xdp_natd.Api.Outcomes.{ExposeMeets, expose_port-Meets, UnexposeMeets, unexpose_port-Meets}

-- Each container stands under its own address, as get_containers inserts it.
abbrev pub ByAddress : ContainerMap → Type 0
ByAddress containers =
    (ip : ℕ) (c : ContainerMetadata) → Containers.get containers ip ≡ some c → c.ipv4_address ≡ ip

-- A known container with the entry's address, MAC address and device.
abbrev pub KnownAs : ContainerMap → ContainerInfo → Type 0
KnownAs containers info =
    (c : ContainerMetadata) × (Containers.get containers info.container_ip ≡ some c)
    × (info.container_mac ≡ c.mac_address)
    × (info.ifindex ≡ c.ifindex)

module _ {E N : Type 0} (exposed : BpfMap ℕ ContainerInfo E) (tables : Iptables N) where
  open exposed use {get}

  -- Each exposed port's entry is that of a known container.
  abbrev pub IsKnown : AppState E → Type 0
  IsKnown st =
      (port : ℕ) (info : ContainerInfo)
      → get st.expose_map port ≡ some info
      → KnownAs st.container_metas info

  expose_port-metas :
      (st : AppState E) (n : N) (req : ExposeRequest)
      → (expose_port exposed tables st n req).1.container_metas ≡ st.container_metas
  unfolding expose_port expose_container expose_next expose_on expose_tcp expose_added take_back
  expose_port-metas st n req = ground arith

  unexpose_port-metas :
      (st : AppState E) (n : N) (port : ℕ)
      → (unexpose_port exposed tables st n port).1.container_metas ≡ st.container_metas
  unfolding unexpose_port unexpose_tcp unexpose_removed
  unexpose_port-metas st n port = ground arith

  same_metas :
      (metas metas' : ContainerMap) (info : ContainerInfo)
      → metas' ≡ metas
      → KnownAs metas info
      → KnownAs metas' info
  same_metas metas metas' info e h = rw e h

  ExposeMeets-IsKnown :
      (st : AppState E) (req : ExposeRequest) (o : Outcome exposed tables)
      → ByAddress st.container_metas
      → o.1.container_metas ≡ st.container_metas
      → IsKnown st
      → ExposeMeets exposed tables st req o
      → IsKnown o.1
  ExposeMeets-IsKnown st req (err e, st', n) keyed same known (maps, _) port info shown =
      same_metas st.container_metas st'.container_metas info same
        (known port info (sym (maps port) ∙ shown))
  ExposeMeets-IsKnown st req (ok r, st', n) keyed same known (own, c, found, _, _, here, others)
        port info shown =
      elim (ℕ_discrete port own) [
        | no ne ↦
            same_metas st.container_metas st'.container_metas info same
              (known port info (sym (others port ne) ∙ shown))
        | yes e ↦ same_metas st.container_metas st'.container_metas info same (
            subst (KnownAs st.container_metas)
              (some_inj (sym here ∙ sym (ap (get st'.expose_map) e) ∙ shown))
              (
                c,
                ap (Containers.get st.container_metas) (keyed req.container_ip c found) ∙ found,
                refl,
                refl,
              ))
      ]
    where
      some_inj : {i j : ContainerInfo} → some i ≡ some j → i ≡ j
      some_inj h = cc h

  UnexposeMeets-IsKnown :
      (st : AppState E) (port : ℕ) (o : Outcome exposed tables)
      → o.1.container_metas ≡ st.container_metas
      → IsKnown st
      → UnexposeMeets exposed tables st port o
      → IsKnown o.1
  UnexposeMeets-IsKnown st port (err e, st', n) same known left j info shown =
      subst IsKnown (sym left) known j info shown
  UnexposeMeets-IsKnown st port (ok r, st', n) same known (_, _, _, absent, others, _) j info
        shown =
      elim (ℕ_discrete j port) [
        | no ne ↦
            same_metas st.container_metas st'.container_metas info same
              (known j info (sym (others j ne) ∙ shown))
        | yes e ↦ ground (arith, absent, e, shown)
      ]

  answer-state : (o : Outcome exposed tables) → (answer exposed tables o).1 ≡ o.1
  answer-state (ok r, st, n) = refl
  answer-state (err e, st, n) = refl

  -- A handler keeps each exposed port's entry that of a known container, and the containers that are
  -- known as they were.
  pub handle-IsKnown :
      (lower upper : ℕ) (st : AppState E) (n : N) (req : Request)
      → Owns exposed tables lower upper st
      → ByAddress st.container_metas
      → IsKnown st
      → IsKnown (handle exposed tables st n req).1
        × ((handle exposed tables st n req).1.container_metas ≡ st.container_metas)
  unfolding handle
  handle-IsKnown lower upper st n health owns keyed known = (known, refl)
  handle-IsKnown lower upper st n (expose req) owns keyed known =
      rw (answer-state (expose_port exposed tables st n req)) (
        ExposeMeets-IsKnown st req (expose_port exposed tables st n req) keyed
            (expose_port-metas st n req) known
            (expose_port-Meets exposed tables lower upper st n req owns),
        expose_port-metas st n req,
      )
  handle-IsKnown lower upper st n (unexpose port) owns keyed known =
      rw (answer-state (unexpose_port exposed tables st n port)) (
        UnexposeMeets-IsKnown st port (unexpose_port exposed tables st n port)
            (unexpose_port-metas st n port) known (unexpose_port-Meets exposed tables st n port),
        unexpose_port-metas st n port,
      )
