-- ===== src/Serving/Packets.antt =====
-- From the network that Docker describes to a datagram in a container: the daemon's start, its
-- requests, and the host's XDP program.
use Prim.Native.String.{String}
use xdp_natd.Base.{ℕ, ◌^◌, ◌<◌, ◌≡◌, ◌≢◌, ap, sym, ◌∙◌, ok, some, none, List, In}
use xdp_natd.Common.{ConnectionTuple, ContainerInfo, FibMacs, FlowState}
use xdp_natd.BpfMap.{BpfMap}
use xdp_natd.Rewrite.ZeroCheck.{source_of, dest_of}
use xdp_natd.Kernel.{Kernel, xdp_pass}
use xdp_natd.Xdp.{Machine, code_of, xdp_redirect_host}
use xdp_natd.Containers.{ContainerMap, ContainerMetadata}
use xdp_natd.Discovery.{NetworkContainer, Docker, get_containers}
use xdp_natd.Discovery.Found.{IsRead}
use xdp_natd.Discovery.Network.{listed}
use xdp_natd.Iptables.{Iptables, specification}
use xdp_natd.Iptables.Chain.{Chain}
use xdp_natd.Api.{AppState}
use xdp_natd.Api.Router.{Axum, HttpRequest}
use xdp_natd.Setup.{Platform}
use xdp_natd.Setup.Start.{ReservedPorts, Plane, start}
use xdp_natd.Serving.{answer_all}
use xdp_natd.Serving.Network.{IsServed, network_ports}
use xdp_natd.Exposure.{Asks, shown_serves}

module _ (axum : Axum) {S E N L D F : Type 0} (tracker : BpfMap ConnectionTuple FlowState S)
    (exposed : BpfMap ℕ ContainerInfo E) (tables : Iptables N) (prefix : String)
    (chain : Chain tables) (docker : Docker) (platform : Platform L) (devmap : BpfMap ℕ ℕ D)
    (file : ReservedPorts F) (network : String) where
  -- A datagram for a container of the network, as it was discovered: the program ends with a
  -- redirection by the container's address as the key, under which the map has its device, and the
  -- packet goes to its MAC address and address.
  pub record Reaches (k : Kernel) (m m1 : Machine S E) (redirect_map : D) (target : ℕ)
      : Type 0 where
    pub container : String × NetworkContainer
    pub on_network : In container (listed docker (docker.inspect_network network))
    pub metadata : ContainerMetadata
    pub read : IsRead docker container metadata
    pub redirected :
        xdp_redirect_host tracker exposed k m
        ≡ some (code_of tracker exposed k m (k.redirect metadata.ipv4_address xdp_pass), m1)
    pub by_device : devmap.get redirect_map metadata.ipv4_address ≡ some metadata.ifindex
    pub to_mac : m1.frame.eth.dst_addr ≡ metadata.mac_address
    pub to_address : dest_of k.endian m1.frame ≡ (metadata.ipv4_address, target)
    pub same_source : source_of k.endian m1.frame ≡ source_of k.endian m.frame

  IsServed-Reaches :
      (nic : String) (redirect_map : D) (n' : N) (port : ℕ) (info : ContainerInfo)
      → IsServed axum exposed tables prefix chain docker platform devmap file network nic
          redirect_map n' port info
      → info.container_ip ≢ 0
      → info.container_port < 2 ^ 16
      → (k : Kernel) (m : Machine S E) (fib_macs : FibMacs) → exposed.get m.expose port ≡ some info
      → Asks tracker exposed tables k m fib_macs port
      → (m1 : Machine S E) × Reaches k m m1 redirect_map info.container_port
  IsServed-Reaches nic redirect_map n' port info served ne port-lt k m fib_macs shown asks =
      let (m1, ran, mac, to, from) =
        shown_serves tracker exposed tables port info served.ip-lt port-lt k m fib_macs shown
          asks in
      (
        m1,
        record {
          container = served.container;
          on_network = served.on_network;
          metadata = served.metadata;
          read = served.read;
          redirected =
              ran
              ∙ ap (λ (ip : ℕ). some (code_of tracker exposed k m (k.redirect ip xdp_pass), m1))
                  served.same_ip;
          by_device =
              ap (devmap.get redirect_map) (sym served.same_ip)
              ∙ served.leads ne
              ∙ ap some served.same_device;
          to_mac = mac ∙ served.same_mac;
          to_address = to ∙ ap (λ (ip : ℕ). (ip, info.container_port)) served.same_ip;
          same_source = from;
        },
      )

  -- The containers were found on a network, the start, with a host device, an empty EXPOSE_MAP and
  -- no rule for any port, has brought up the server, it has answered any requests over HTTP, and
  -- iptables obeys the laws of Chain. A port is exposed, for an address that is not 0 and a port
  -- that fits 16 bits, and the host's program finds this EXPOSE_MAP. Then for a translatable packet
  -- to the port, whose flow is untracked and whose UDP checksum is in use, with a route back, the
  -- program returns what the redirection by REDIRECT_MAP under the address of a container of the
  -- network, as its metadata was read, returns; the map's entry for that address is the container's
  -- device; and the packet goes to the container's MAC address and address and the exposed port,
  -- from the source that it had.
  pub exposed_datagram :
      (containers : ContainerMap) (nic mode : String) (p : Plane L D E F) (st : AppState E)
      (p' : Plane L D E F) (reqs : List HttpRequest) (n : N)
      → get_containers docker network ≡ ok containers
      → ((port : ℕ) → exposed.get p.expose_map port ≡ none)
      → ((port ip target : ℕ) → chain.count (specification port ip target) n ≡ 0)
      → start E platform devmap file (some nic) mode containers p ≡ (ok (some st), p')
      → (port : ℕ) (info : ContainerInfo)
      → exposed.get (answer_all axum exposed tables prefix reqs st n).0.expose_map port ≡ some info
      → info.container_ip ≢ 0
      → info.container_port < 2 ^ 16
      → (k : Kernel) (m : Machine S E) (fib_macs : FibMacs)
      → m.expose ≡ (answer_all axum exposed tables prefix reqs st n).0.expose_map
      → Asks tracker exposed tables k m fib_macs port
      → (m1 : Machine S E) × Reaches k m m1 p'.redirect_map info.container_port
  exposed_datagram containers nic mode p st p' reqs n discovered hidden no_rules ran port info shown
        ne port-lt k m fib_macs shared asks =
      IsServed-Reaches nic p'.redirect_map (answer_all axum exposed tables prefix reqs st n).1 port
        info
        ((network_ports axum exposed tables prefix chain docker platform devmap file network
            containers nic mode p st p' reqs n discovered hidden no_rules ran port).0
          info shown)
        ne port-lt k m fib_macs (ap (λ e. exposed.get e port) shared ∙ shown) asks
