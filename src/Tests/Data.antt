-- ===== src/Tests/Data.antt =====
-- A host with two containers: its maps, a kernel and packets.
use xdp_natd.Base.{ℕ, ok, some, List, [], ◌∷◌, ℕ_discrete}
use xdp_natd.Common.{
  ConnectionTuple, ConnectionTuple-discrete, ContainerInfo, FibMacs, FlowState, MacAddr, NicInfo,
}
use xdp_natd.Word.{little}
use xdp_natd.BpfMap.{BpfMap}
use xdp_natd.BpfMap.Assoc.{assoc_map}
use xdp_natd.Frame.{Frame}
use xdp_natd.Kernel.{Kernel, xdp_redirect}
use xdp_natd.Xdp.{Machine}

abbrev pub Conntrack : Type 0
Conntrack = List (ConnectionTuple × FlowState)

abbrev pub Exposed : Type 0
Exposed = List (ℕ × ContainerInfo)

abbrev pub tracker : BpfMap ConnectionTuple FlowState Conntrack
tracker = assoc_map ConnectionTuple-discrete 16

abbrev pub exposed : BpfMap ℕ ContainerInfo Exposed
exposed = assoc_map ℕ_discrete 16

-- A MAC address that ends with the number.
abbrev pub mac : ℕ → MacAddr
mac n = record { byte0 = 2; byte1 = 66; byte2 = 0; byte3 = 0; byte4 = 0; byte5 = n }

-- The MAC addresses of the device and of the gateway.
abbrev pub route_macs : FibMacs
route_macs = record { fib_smac = mac 10; fib_dmac = mac 11 }

-- Every destination has a route through the gateway, and every redirection succeeds.
abbrev pub kernel : ℕ → Kernel
kernel time = record {
  endian = little;
  bpf_fib_lookup = λ fib flags. (0, record fib { smac = mac 10; dmac = mac 11 });
  ktime = time;
  redirect = λ key flags. ok xdp_redirect;
  ingress_ifindex = 2;
}

-- 172.17.0.2 and 172.17.0.3, the host's 192.168.0.10, and the remote 8.8.8.8, in host order.
abbrev pub container_ip : ℕ
container_ip = 0xac110002

abbrev pub container_ip2 : ℕ
container_ip2 = 0xac110003

abbrev pub host_ip : ℕ
host_ip = 0xc0a8000a

abbrev pub remote_ip : ℕ
remote_ip = 0x08080808

abbrev pub nic : NicInfo
nic = record { nic_ip = host_ip; nic_ifindex = 2 }

abbrev pub web : ContainerInfo
web = record {
  container_ip = container_ip;
  container_mac = mac 2;
  container_port = 80;
  ifindex = 7;
}

-- A datagram of two payload bytes, its words as a little-endian machine loads them. The IPv4
-- addresses and the ports are those of the packet: 172.17.0.2:4000 to 8.8.8.8:53 is
-- `datagram 0x020011ac 0x08080808 0xa00f 0x3500`.
abbrev pub datagram : ℕ → ℕ → ℕ → ℕ → MacAddr → MacAddr → Frame
datagram src dst source dest from to = record {
  start = 0;
  end = 44;
  eth = record { dst_addr = to; src_addr = from; ether_type = 8 };
  ipv4 = record {
    vihl = 69;
    tos = 0;
    tot_len = 0x1e00;
    id = 0;
    frags = 0;
    ttl = 64;
    proto = 17;
    check = 1;
    src_addr = src;
    dst_addr = dst;
  };
  udp = record { source = source; dest = dest; len = 0x0a00; check = 1 };
  payload = 0x6968 ∷ [];
}

abbrev pub Host : Type 0
Host = Machine Conntrack Exposed

-- The host with a packet, no flows, and port 8080 exposed for port 80 of the first container.
abbrev pub host : Frame → Host
host f = record { frame = f; conntrack = []; expose = (8080, web) ∷ []; pnic = some nic }

-- 172.17.0.2:4000 to 8.8.8.8:53, and its answer to 192.168.0.10:4000.
abbrev pub query : Frame
query = datagram 0x020011ac 0x08080808 0xa00f 0x3500 (mac 2) (mac 1)

abbrev pub query_answer : Frame
query_answer = datagram 0x08080808 0x0a00a8c0 0x3500 0xa00f (mac 11) (mac 10)

-- 8.8.8.8:5000 to 192.168.0.10:8080, and its answer from 172.17.0.2:80.
abbrev pub request : Frame
request = datagram 0x08080808 0x0a00a8c0 0x8813 0x901f (mac 11) (mac 10)

abbrev pub request_answer : Frame
request_answer = datagram 0x020011ac 0x08080808 0x5000 0x8813 (mac 2) (mac 1)
