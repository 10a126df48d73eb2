-- ===== src/Serving.antt =====
-- The daemon from its start on: main of xdp-natd/src/main.rs, then any requests to the handlers of
-- xdp-natd/src/api.
pub mod Network
pub mod Packets
pub mod Rules
use Prim.Native.String.{String}
use xdp_natd.Base.{
  ℕ, ◌≤◌, ◌≡◌, ◌≢◌, refl, sym, ap, subst, ◌∙◌, ok, some, none, List, [], ◌∷◌, arith,
}
use xdp_natd.Common.{ContainerInfo}
use xdp_natd.BpfMap.{BpfMap}
use xdp_natd.Containers.{ContainerMap}
use xdp_natd.Iptables.{Iptables}
use xdp_natd.PortAllocator.Partition.{new-Partition}
use xdp_natd.Api.{AppState, Request, handle}
use xdp_natd.Api.Router.{Axum, HttpRequest, respond, respond-keeps}
use xdp_natd.Api.Ports.{Owns, handle-Owns}
use xdp_natd.Api.Known.{ByAddress, KnownAs, IsKnown, handle-IsKnown}
use xdp_natd.Setup.{Platform}
use xdp_natd.Setup.Start.{ReservedPorts, Plane, start}
use xdp_natd.Containers.Keyed.{Keyed}
use xdp_natd.Setup.Start.Devices.{Serves, start-Serves}

pub Keyed-ByAddress : (containers : ContainerMap) → Keyed containers → ByAddress containers
Keyed-ByAddress [] keyed ip c found = ground arith
Keyed-ByAddress ((j, b) ∷ rest) keyed ip c found = ground (arith, Keyed-ByAddress rest keyed.2 ip c)

module _ {E N : Type 0} (exposed : BpfMap ℕ ContainerInfo E) (tables : Iptables N) where
  -- What requests keep, for some containers.
  pub record Holds (containers : ContainerMap) (st : AppState E) : Type 0 where
    pub owned : Owns exposed tables 10000 12000 st
    pub known : IsKnown exposed tables st
    pub metas : st.container_metas ≡ containers

  pub handle-Holds :
      (containers : ContainerMap) (st : AppState E) (n : N) (req : Request)
      → ByAddress containers
      → Holds containers st
      → Holds containers (handle exposed tables st n req).1
  handle-Holds containers st n req keyed h =
      let (known', metas') =
        handle-IsKnown exposed tables 10000 12000 st n req h.owned
          (subst ByAddress (sym h.metas) keyed) h.known in
      record {
        owned = handle-Owns exposed tables 10000 12000 st n req h.owned;
        known = known';
        metas = metas' ∙ h.metas;
      }

  module _ {L D F : Type 0} (platform : Platform L) (devmap : BpfMap ℕ ℕ D)
      (file : ReservedPorts F) where
    pub started-Holds :
        (containers : ContainerMap) (nic mode : String) (p : Plane L D E F) (st : AppState E)
        (p' : Plane L D E F)
        → Keyed containers
        → ((port : ℕ) → exposed.get p.expose_map port ≡ none)
        → start E platform devmap file (some nic) mode containers p ≡ (ok (some st), p')
        → Serves E platform devmap file containers nic p.expose_map st p' × Holds containers st
    started-Holds containers nic mode p st p' keyed hidden ran = (
      up,
      record {
        owned = rw up.ports (new-Partition exposed 10000 12000 st.expose_map empty (omega arith));
        known = λ q i h. ground (arith, empty q);
        metas = up.metas;
      },
    )
      where
        up : Serves E platform devmap file containers nic p.expose_map st p'
        up =
            start-Serves E platform devmap file containers nic p.expose_map mode p st p' keyed refl
              ran

        empty : (port : ℕ) → exposed.get st.expose_map port ≡ none
        empty port = ap (λ e. exposed.get e port) up.exposes ∙ hidden port

    -- In the state of a server that has started, an exposed port is served.
    pub Holds-leads :
        (containers : ContainerMap) (nic : String) (e : E) (st st' : AppState E)
        (p' : Plane L D E F)
        → Serves E platform devmap file containers nic e st p'
        → Holds containers st'
        → (port : ℕ) (info : ContainerInfo) → exposed.get st'.expose_map port ≡ some info
        → (10000 ≤ port)
          × (port ≤ 12000)
          × (info.container_ip ≢ 0
              → devmap.get p'.redirect_map info.container_ip ≡ some info.ifindex)
    Holds-leads containers nic e st st' p' up held port info shown =
        let (low, high) = held.owned.exposed_inside port (λ gone. ground arith) in
        (
          low,
          high,
          λ ne.
              let (c, found, _, same) =
                subst (λ metas. KnownAs metas info) held.metas (held.known port info shown) in
              up.listed info.container_ip c ne found ∙ ap some (sym same),
        )

module _ (axum : Axum) {E N : Type 0} (exposed : BpfMap ℕ ContainerInfo E) (tables : Iptables N)
    (prefix : String) where
  -- Requests over HTTP, one after the other, below a prefix.
  unfoldable pub answer_all : List HttpRequest → AppState E → N → AppState E × N
  answer_all [] st n = (st, n)
  answer_all (req ∷ reqs) st n =
      let (_, st', n') = respond axum exposed tables prefix st n req in answer_all reqs st' n'

  -- What the handlers keep, all requests keep.
  pub answer_all-keeps :
      (P : AppState E → N → Type 0)
      → ((st : AppState E) (n : N) (req : Request)
          → P st n
          → P (handle exposed tables st n req).1 (handle exposed tables st n req).2)
      → (reqs : List HttpRequest) (st : AppState E) (n : N) → P st n
      → P (answer_all reqs st n).0 (answer_all reqs st n).1
  unfolding answer_all
  answer_all-keeps P kept [] st n h = h
  answer_all-keeps P kept (req ∷ reqs) st n h =
      answer_all-keeps P kept reqs (respond axum exposed tables prefix st n req).1
        (respond axum exposed tables prefix st n req).2
        (respond-keeps axum exposed tables prefix P st n req (λ r. kept st n r h) h)

  pub answer_all-Holds :
      (containers : ContainerMap) (reqs : List HttpRequest) (st : AppState E) (n : N)
      → ByAddress containers
      → Holds exposed tables containers st
      → Holds exposed tables containers (answer_all reqs st n).0
  answer_all-Holds containers reqs st n keyed h =
      answer_all-keeps (λ st n. Holds exposed tables containers st)
        (λ st n req h. handle-Holds exposed tables containers st n req keyed h) reqs st n h

  module _ {L D F : Type 0} (platform : Platform L) (devmap : BpfMap ℕ ℕ D)
      (file : ReservedPorts F) where
    -- The start, with a host device, an empty EXPOSE_MAP and each container under its own address,
    -- has brought up the server, and has been followed by any requests. Then an exposed port is one
    -- from 10000 to 12000, its container's address, if it is not 0, leads to the container's device
    -- in REDIRECT_MAP, and 0 leads to the host's device.
    pub exposed_leads :
        (containers : ContainerMap) (nic mode : String) (p : Plane L D E F) (st : AppState E)
        (p' : Plane L D E F) (reqs : List HttpRequest) (n : N)
        → Keyed containers
        → ((port : ℕ) → exposed.get p.expose_map port ≡ none)
        → start E platform devmap file (some nic) mode containers p ≡ (ok (some st), p')
        → (port : ℕ) (info : ContainerInfo)
        → exposed.get (answer_all reqs st n).0.expose_map port ≡ some info
        → info.container_ip ≢ 0
        → (10000 ≤ port)
          × (port ≤ 12000)
          × (devmap.get p'.redirect_map info.container_ip ≡ some info.ifindex)
          × (devmap.get p'.redirect_map 0 ≡ platform.if_nametoindex nic)
    exposed_leads containers nic mode p st p' reqs n keyed hidden ran port info shown ne =
        let (up, first) =
          started-Holds exposed tables platform devmap file containers nic mode p st p' keyed hidden
            ran in
        let held = answer_all-Holds containers reqs st n (Keyed-ByAddress containers keyed) first in
        let (low, high, leads) =
          Holds-leads exposed tables platform devmap file containers nic p.expose_map st
            (answer_all reqs st n).0 p' up held port info shown in
        (low, high, leads ne, up.has_nic.redirect ∙ sym up.has_nic.index)
