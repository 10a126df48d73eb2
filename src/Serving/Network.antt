-- ===== src/Serving/Network.antt =====
-- From the network that Docker describes to the ports that are served: get_containers and the rest of
-- main of xdp-natd/src/main.rs, then any requests.
use Prim.Native.String.{String}
use xdp_natd.Base.{ℕ, ◌^◌, ◌≤◌, ◌<◌, ◌≡◌, ◌≢◌, sym, ap, subst, ◌∙◌, ok, some, none, List, In}
use xdp_natd.Common.{ContainerInfo}
use xdp_natd.BpfMap.{BpfMap}
use xdp_natd.Texts.Bounds.{parse_ipv4-lt}
use xdp_natd.Containers.{ContainerMap, ContainerMetadata}
use xdp_natd.Discovery.{NetworkContainer, Docker, get_containers}
use xdp_natd.Discovery.Found.{IsRead}
use xdp_natd.Discovery.Network.{listed, get_containers-Finds}
use xdp_natd.Iptables.{Iptables, specification}
use xdp_natd.Iptables.Chain.{Chain}
use xdp_natd.Api.{AppState}
use xdp_natd.Api.Router.{Axum, HttpRequest}
use xdp_natd.Api.Ports.{Owns, handle-Owns}
use xdp_natd.Api.Known.{KnownAs}
use xdp_natd.Api.Mirrors.{Mirrors, rule_of, empty-Mirrors, unexposed_ruleless}
use xdp_natd.Api.Mirrors.Handlers.{handle-Mirrors}
use xdp_natd.Setup.{Platform}
use xdp_natd.Setup.Start.Devices.{Serves}
use xdp_natd.Setup.Start.{ReservedPorts, Plane, start}
use xdp_natd.Serving.{
  answer_all, answer_all-keeps, Holds, answer_all-Holds, started-Holds, Holds-leads,
  Keyed-ByAddress,
}

module _ (axum : Axum) {E N : Type 0} (exposed : BpfMap ℕ ContainerInfo E) (tables : Iptables N)
    (prefix : String) (chain : Chain tables) where
  answer_all-Mirrors :
      (reqs : List HttpRequest) (st : AppState E) (n : N)
      → Owns exposed tables 10000 12000 st
      → Mirrors exposed tables chain st.expose_map n
      → Mirrors exposed tables chain
          (answer_all axum exposed tables prefix reqs st n).0.expose_map
          (answer_all axum exposed tables prefix reqs st n).1
  answer_all-Mirrors reqs st n o v =
      (answer_all-keeps axum exposed tables prefix
        (λ st n. Owns exposed tables 10000 12000 st × Mirrors exposed tables chain st.expose_map n)
        (λ st n req h. (
          handle-Owns exposed tables 10000 12000 st n req h.0,
          handle-Mirrors exposed tables chain 10000 12000 st n req h.0 h.1,
        ))
        reqs st n (o, v)).1

  module _ {L D F : Type 0} (docker : Docker) (platform : Platform L) (devmap : BpfMap ℕ ℕ D)
      (file : ReservedPorts F) (network : String) where
    -- An exposed port: it is one of the range, it has its rule for TCP, once, and its container is one
    -- of the network, as its metadata was read, with a device in REDIRECT_MAP.
    pub record IsServed (nic : String) (redirect_map : D) (n : N) (port : ℕ) (info : ContainerInfo)
        : Type 0 where
      pub above : 10000 ≤ port
      pub below : port ≤ 12000
      pub rule_once : chain.count (rule_of port info) n ≡ 1
      pub container : String × NetworkContainer
      pub on_network : In container (listed docker (docker.inspect_network network))
      pub metadata : ContainerMetadata
      pub read : IsRead docker container metadata
      pub same_ip : info.container_ip ≡ metadata.ipv4_address
      pub same_mac : info.container_mac ≡ metadata.mac_address
      pub same_device : info.ifindex ≡ metadata.ifindex
      pub ip-lt : info.container_ip < 2 ^ 32
      pub leads :
          info.container_ip ≢ 0 → devmap.get redirect_map info.container_ip ≡ some info.ifindex
      pub host_device : devmap.get redirect_map 0 ≡ platform.if_nametoindex nic

    Holds-IsServed :
        (containers : ContainerMap) (nic : String) (e : E) (st st' : AppState E)
        (p' : Plane L D E F) (n' : N)
        → get_containers docker network ≡ ok containers
        → Serves E platform devmap file containers nic e st p'
        → Holds exposed tables containers st'
        → Mirrors exposed tables chain st'.expose_map n'
        → (port : ℕ) (info : ContainerInfo) → exposed.get st'.expose_map port ≡ some info
        → IsServed nic p'.redirect_map n' port info
    Holds-IsServed containers nic e st st' p' n' discovered up held mirrors port info shown =
        let found = get_containers-Finds docker network containers discovered in
        let (low, high, leads) =
          Holds-leads exposed tables platform devmap file containers nic e st st' p' up held port
            info shown in
        let (c, known, mac, device) : KnownAs containers info =
          subst (λ metas. KnownAs metas info) held.metas (held.known port info shown) in
        let (container, on_network, read) = found.from info.container_ip c known in
        let own : c.ipv4_address ≡ info.container_ip =
          Keyed-ByAddress containers found.keyed info.container_ip c known in
        record {
          above = low;
          below = high;
          rule_once = mirrors.once port info shown;
          container = container;
          on_network = on_network;
          metadata = c;
          read = read;
          same_ip = sym own;
          same_mac = mac;
          same_device = device;
          ip-lt = subst (λ ip. ip < 2 ^ 32) own (parse_ipv4-lt read.ip c.ipv4_address read.address);
          leads = leads;
          host_device = up.has_nic.redirect ∙ sym up.has_nic.index;
        }

    -- The containers were found on a network, the start, with a host device, an empty EXPOSE_MAP
    -- and no rule for any port, has brought up the server, and it has answered any requests over
    -- HTTP; iptables obeys the laws of Chain. Then every exposed port is one from 10000 to 12000
    -- and has its rule once; its entry has the address, MAC address and device of a container of
    -- the network, as its metadata was read; the address fits 32 bits and, if it is not 0, leads to
    -- that device in REDIRECT_MAP, where 0 leads to the host's device. Every port that is not
    -- exposed has no rule.
    pub network_ports :
        (containers : ContainerMap) (nic mode : String) (p : Plane L D E F) (st : AppState E)
        (p' : Plane L D E F) (reqs : List HttpRequest) (n : N)
        → get_containers docker network ≡ ok containers
        → ((port : ℕ) → exposed.get p.expose_map port ≡ none)
        → ((port ip target : ℕ) → chain.count (specification port ip target) n ≡ 0)
        → start E platform devmap file (some nic) mode containers p ≡ (ok (some st), p')
        → (port : ℕ)
        → let (st', n') = answer_all axum exposed tables prefix reqs st n in
          ((info : ContainerInfo)
            → exposed.get st'.expose_map port ≡ some info
            → IsServed nic p'.redirect_map n' port info)
          × (exposed.get st'.expose_map port ≡ none
              → (ip target : ℕ) → chain.count (specification port ip target) n' ≡ 0)
    network_ports containers nic mode p st p' reqs n discovered hidden no_rules ran port =
        let keyed = (get_containers-Finds docker network containers discovered).keyed in
        let (up, begun) =
          started-Holds exposed tables platform devmap file containers nic mode p st p' keyed hidden
            ran in
        let held =
          answer_all-Holds axum exposed tables prefix containers reqs st n
            (Keyed-ByAddress containers keyed) begun in
        let mirrors = answer_all-Mirrors reqs st n begun.owned (
          empty-Mirrors exposed tables chain st.expose_map n
            (λ q. ap (λ e. exposed.get e q) up.exposes ∙ hidden q) no_rules) in
        (
          Holds-IsServed containers nic p.expose_map st
              (answer_all axum exposed tables prefix reqs st n).0 p'
              (answer_all axum exposed tables prefix reqs st n).1 discovered up held mirrors port,
          λ unexposed ip target.
              unexposed_ruleless exposed tables chain mirrors port ip target unexposed,
        )
