-- ===== src/Exposure.antt =====
-- The daemon's handlers and the host's XDP program together: EXPOSE_MAP as expose_port and
-- unexpose_port of xdp-natd/src/api/expose.rs leave it, and process_udp_dnat of
-- xdp-natd-ebpf/src/main.rs reads it.
use xdp_natd.Base.{ok, ℕ, ◌^◌, ◌<◌, ◌≡◌, ◌≢◌, ap, ◌∙◌, some, none}
use xdp_natd.Common.{ConnectionTuple, ContainerInfo, FibMacs, FlowState}
use xdp_natd.Word.{be16}
use xdp_natd.BpfMap.{BpfMap}
use xdp_natd.Rewrite.ZeroCheck.{source_of, dest_of}
use xdp_natd.Kernel.{Kernel, xdp_pass}
use xdp_natd.Xdp.{Machine, code_of, xdp_redirect_host}
use xdp_natd.Xdp.Cases.{dnat_route}
use xdp_natd.Xdp.Guards.{IsTranslatable}
use xdp_natd.Xdp.Paths.{src_ip, dst_ip, flow_key, inbound_hidden}
use xdp_natd.Xdp.Programs.{host_passes}
use xdp_natd.Xdp.EndToEnd.{request_delivered}
use xdp_natd.Containers
use xdp_natd.Containers.{ContainerMetadata}
use xdp_natd.Iptables.{Iptables}
use xdp_natd.Api.{AppState, ExposeRequest, Response, exposing, info_of, expose_port, unexpose_port}
use xdp_natd.Api.Ports.{Owns}
use xdp_natd.Api.Outcomes.{ExposeMeets, expose_port-Meets, UnexposeMeets, unexpose_port-Meets}

module _ {S E N : Type 0} (tracker : BpfMap ConnectionTuple FlowState S)
    (exposed : BpfMap ℕ ContainerInfo E) (tables : Iptables N) where
  -- A new datagram to a port: its flow is not tracked, its UDP checksum is in use, and there is a
  -- route back.
  pub record Asks (k : Kernel) (m : Machine S E) (fib_macs : FibMacs) (port : ℕ) : Type 0 where
    pub translatable : IsTranslatable k m.frame
    pub to_port : be16 k.endian m.frame.udp.dest ≡ port
    pub untracked : tracker.get m.conntrack (flow_key tracker exposed k m) ≡ none
    pub route :
        dnat_route tracker exposed k m (src_ip tracker exposed k m) (dst_ip tracker exposed k m)
        ≡ some fib_macs
    pub check_used : m.frame.udp.check ≢ 0
    pub dst_addr-lt : m.frame.ipv4.dst_addr < 2 ^ 32
    pub dest-lt : m.frame.udp.dest < 2 ^ 16

  -- A new datagram to a port that is exposed for a container is redirected to it.
  pub shown_serves :
      (port : ℕ) (info : ContainerInfo)
      → info.container_ip < 2 ^ 32
      → info.container_port < 2 ^ 16
      → (k : Kernel) (m : Machine S E) (fib_macs : FibMacs) → exposed.get m.expose port ≡ some info
      → Asks k m fib_macs port
      → (m1 : Machine S E) × (xdp_redirect_host tracker exposed k m
          ≡ some (code_of tracker exposed k m (k.redirect info.container_ip xdp_pass), m1))
        × (m1.frame.eth.dst_addr ≡ info.container_mac)
        × (dest_of k.endian m1.frame ≡ (info.container_ip, info.container_port))
        × (source_of k.endian m1.frame ≡ source_of k.endian m.frame)
  shown_serves port info ip-lt port-lt k m fib_macs shown asks =
      request_delivered tracker exposed k m info fib_macs asks.translatable (record {
        untracked = asks.untracked;
        is_exposed = ap (exposed.get m.expose) asks.to_port ∙ shown;
        route = asks.route;
        check_used = asks.check_used;
        container_ip-lt = ip-lt;
        container_port-lt = port-lt;
        dst_addr-lt = asks.dst_addr-lt;
        dest-lt = asks.dest-lt;
      })

  -- What a successful expose_port has done, by the port that it names.
  pub expose_port-shown :
      (lower upper : ℕ) (st : AppState E) (n : N) (st1 : AppState E) (n1 : N) (r : Response)
      (port : ℕ) (req : ExposeRequest) (container : ContainerMetadata)
      → Owns exposed tables lower upper st
      → expose_port exposed tables st n req ≡ (ok r, st1, n1)
      → r.body ≡ exposing req.container_port port
      → Containers.get st.container_metas req.container_ip ≡ some container
      → exposed.get st1.expose_map port ≡ some (info_of container req.container_port)
  expose_port-shown lower upper st n st1 n1 r port req container v ran body found =
      let shown : ExposeMeets exposed tables st req (ok r, st1, n1) =
        rw ran at (expose_port-Meets exposed tables lower upper st n req v) in
      let (port', container', found', _, answered, here, _) = shown in
      let own : port' ≡ port = cc (ap (λ (r : Response). r.body) answered) in
      let same : container' ≡ container = cc in rw (own, same) at here

  -- A new datagram to a port that is not exposed is passed.
  pub hidden_passes :
      (port : ℕ) (k : Kernel) (m : Machine S E)
      → IsTranslatable k m.frame
      → be16 k.endian m.frame.udp.dest ≡ port
      → tracker.get m.conntrack (flow_key tracker exposed k m) ≡ none
      → exposed.get m.expose port ≡ none
      → xdp_redirect_host tracker exposed k m ≡ some (xdp_pass, m)
  hidden_passes port k m t to_port untracked hidden =
      host_passes tracker exposed k m t
        (inbound_hidden tracker exposed k m untracked (ap (exposed.get m.expose) to_port ∙ hidden))

  -- What a successful unexpose_port has done.
  pub unexpose_port-hidden :
      (st : AppState E) (n : N) (st1 : AppState E) (n1 : N) (r : Response) (port : ℕ)
      → unexpose_port exposed tables st n port ≡ (ok r, st1, n1)
      → exposed.get st1.expose_map port ≡ none
  unexpose_port-hidden st n st1 n1 r port ran =
      let gone : UnexposeMeets exposed tables st port (ok r, st1, n1) =
        rw ran at (unexpose_port-Meets exposed tables st n port) in
      let (_, _, _, absent, _, _) = gone in absent

  module _ (lower upper : ℕ) (st : AppState E) (n : N) (st1 : AppState E) (n1 : N) (r : Response)
      (port : ℕ) where
    -- In a state that owns its ports, expose_port has succeeded for a container, whose address and
    -- port fit their widths, and answered with a host port. Then a translatable packet to that
    -- port, whose flow is untracked and whose UDP checksum is in use, when the host's program finds
    -- EXPOSE_MAP as the handler left it and there is a route back, is redirected by the container's
    -- address, to the container's MAC address and address and the container port that was asked
    -- for, from the source that it had.
    pub expose_port_serves :
        (req : ExposeRequest) (container : ContainerMetadata)
        → Owns exposed tables lower upper st
        → expose_port exposed tables st n req ≡ (ok r, st1, n1)
        → r.body ≡ exposing req.container_port port
        → Containers.get st.container_metas req.container_ip ≡ some container
        → container.ipv4_address < 2 ^ 32
        → req.container_port < 2 ^ 16
        → (k : Kernel) (m : Machine S E) (fib_macs : FibMacs) → m.expose ≡ st1.expose_map
        → Asks k m fib_macs port
        → (m1 : Machine S E) × (xdp_redirect_host tracker exposed k m
            ≡ some (code_of tracker exposed k m (k.redirect container.ipv4_address xdp_pass), m1))
          × (m1.frame.eth.dst_addr ≡ container.mac_address)
          × (dest_of k.endian m1.frame ≡ (container.ipv4_address, req.container_port))
          × (source_of k.endian m1.frame ≡ source_of k.endian m.frame)
    expose_port_serves req container v ran body found ip-lt port-lt k m fib_macs shared =
        shown_serves port (info_of container req.container_port) ip-lt port-lt k m fib_macs (
          ap (λ e. exposed.get e port) shared
          ∙ expose_port-shown lower upper st n st1 n1 r port req container v ran body found)

    -- unexpose_port has succeeded for a port. Then a translatable packet to that port whose flow is
    -- untracked, when the host's program finds EXPOSE_MAP as the handler left it, is passed to the
    -- kernel's own stack, and nothing changes.
    pub unexpose_port_silences :
        unexpose_port exposed tables st n port ≡ (ok r, st1, n1)
        → (k : Kernel) (m : Machine S E) → m.expose ≡ st1.expose_map
        → IsTranslatable k m.frame
        → be16 k.endian m.frame.udp.dest ≡ port
        → tracker.get m.conntrack (flow_key tracker exposed k m) ≡ none
        → xdp_redirect_host tracker exposed k m ≡ some (xdp_pass, m)
    unexpose_port_silences ran k m shared t to_port untracked =
        hidden_passes port k m t to_port untracked
          (ap (λ e. exposed.get e port) shared ∙ unexpose_port-hidden st n st1 n1 r port ran)
