-- ===== src/Tests/Daemons.antt =====
-- A daemon with one container and three host ports, before and after requests.
use xdp_natd.Base.{ℕ, suc, ◌≡◌, refl, ok, none, true, arith, ℕ_discrete, [], ◌∷◌}
use xdp_natd.PortAllocator.{new, allocate_next, deallocate}
use xdp_natd.PortAllocator.Partition.{new-Partition}
use xdp_natd.Containers.{ContainerMetadata}
use xdp_natd.Iptables.{Iptables, add_iptables_rule, remove_iptables_rule}
use xdp_natd.Api.{
  AppState, ExposeRequest, expose_port, unexpose_port, response, exposing, unexposed,
}
use xdp_natd.Api.Ports.{Owns}
use xdp_natd.Tests.Data.{Exposed, exposed, mac, container_ip}

-- A command that always succeeds; the state counts its runs.
abbrev pub tables : Iptables ℕ
tables = record { status = λ args n. (ok true, suc n) }

abbrev pub container : ContainerMetadata
container = record {
  name = "web";
  veth = "veth0";
  ipv4_address = container_ip;
  ifindex = 7;
  pid = none;
  mac_address = mac 2;
}

abbrev pub fresh : AppState Exposed
fresh = record {
  expose_map = [];
  port_allocator = new 10000 10002;
  container_metas = (container_ip, container) ∷ [];
}

abbrev pub wanted : ExposeRequest
wanted = record { container_ip = container_ip; container_port = 80 }

pub fresh-Owns : Owns exposed tables 10000 10002 fresh
fresh-Owns = new-Partition exposed 10000 10002 [] (λ p. refl) (ground arith)

-- The state with port 10000 exposed for the container, and the state with it given back.
abbrev pub serving : AppState Exposed
serving = record fresh {
  expose_map =
      (
        10000,
        record {
          container_ip = container_ip;
          container_mac = mac 2;
          container_port = 80;
          ifindex = 7;
        },
      )
      ∷ [];
  port_allocator = record { ports = 10001 ∷ 10002 ∷ [] };
}

abbrev pub closed : AppState Exposed
closed = record fresh { port_allocator = record { ports = 10001 ∷ 10002 ∷ 10000 ∷ [] } }

pub expose_port-wanted :
    expose_port exposed tables fresh 0 wanted ≡ (ok (response 200 (exposing 80 10000)), serving, 1)
unfolding expose_port allocate_next add_iptables_rule ℕ_discrete
expose_port-wanted = refl

pub unexpose_port-serving :
    unexpose_port exposed tables serving 1 10000 ≡ (ok (response 200 (unexposed 10000)), closed, 2)
unfolding unexpose_port deallocate remove_iptables_rule ℕ_discrete
unexpose_port-serving = refl
