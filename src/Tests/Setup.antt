-- ===== src/Tests/Setup.antt =====
-- A start of the daemon on a host with one container, and a request to it.
use Prim.Native.String.{String}
use xdp_natd.Base.{ℕ, suc, ◌≡◌, refl, ok, some, none, true, ℕ_discrete, List, [], ◌∷◌}
use xdp_natd.BpfMap.{BpfMap}
use xdp_natd.BpfMap.Assoc.{assoc_map}
use xdp_natd.Containers.{ContainerMap}
use xdp_natd.PortAllocator.{new}
use xdp_natd.Api.{AppState}
use xdp_natd.Setup.{Platform, attach_container_xdp, setup_devmap, setup_pnic, parse_xdp_mode}
use xdp_natd.Setup.{skb_mode}
use xdp_natd.Setup.Stubs.{Namespaces, already_loaded, attach_stubs, attach_stubs-stop}
use xdp_natd.Base.{not, Bool, false, ◌==◌}
use xdp_natd.Containers.{ContainerMetadata, ℤ, pos, negsuc}
use xdp_natd.Setup.Start.{ReservedPorts, Plane, start}
use xdp_natd.Containers.Keyed.{Keyed}
use xdp_natd.Setup.Start.Devices.{Serves, start-Serves}
use xdp_natd.Tests.Data.{Exposed, container_ip, host_ip, nic}
use xdp_natd.Tests.Daemons.{container}

-- Everything succeeds; the loader counts the devices that programs are attached to.
abbrev pub platform : Platform ℕ
platform = record {
  load = λ program l. (true, l);
  attach = λ program device mode l. (true, suc l);
  if_nametoindex = λ name. some 2;
  getifaddrs = some (record { interface_name = "eth0"; sockaddr_in = some host_ip } ∷ []);
  stub_object = true;
}

abbrev pub Devmap : Type 0
Devmap = List (ℕ × ℕ)

abbrev pub devmap : BpfMap ℕ ℕ Devmap
devmap = assoc_map ℕ_discrete 8

abbrev pub file : ReservedPorts String
file = record { read_to_string = λ text. some text; write = λ text f. (true, text) }

abbrev pub containers : ContainerMap
containers = (container_ip, container) ∷ []

abbrev pub before : Plane ℕ Devmap Exposed String
before = record {
  loader = 0;
  redirect_map = [];
  pnic_array = none;
  expose_map = [];
  reserved = "8080\n";
}

abbrev pub after : Plane ℕ Devmap Exposed String
after = record {
  loader = 2;
  redirect_map = (0, 2) ∷ (container_ip, 7) ∷ [];
  pnic_array = some nic;
  expose_map = [];
  reserved = "8080,10000-12000";
}

abbrev pub served : AppState Exposed
served = record { expose_map = []; port_allocator = new 10000 12000; container_metas = containers }

pub started :
    start Exposed platform devmap file (some "eth0") "skb" containers before
    ≡ (ok (some served), after)
unfolding start attach_container_xdp setup_devmap setup_pnic parse_xdp_mode ℕ_discrete
started = refl

containers-Keyed : Keyed containers
containers-Keyed = (refl, refl, tt)

start-Serves_example : Serves Exposed platform devmap file containers "eth0" [] served after
start-Serves_example =
    start-Serves Exposed platform devmap file containers "eth0" [] "skb" before served after
      containers-Keyed refl started

abbrev is_nine : ℤ → Bool
is_nine (pos pid) = pid == 9
is_nine (negsuc n) = false

-- The namespace of process 9 cannot be entered; the loader counts the stubs that are attached.
abbrev namespaces : Namespaces ℕ
namespaces = record {
  opens = λ pid. true;
  load_stub = λ l. (already_loaded, l);
  setns = λ pid. not (is_nine pid);
  attach_eth0 = λ pid mode l. (true, suc l);
}

abbrev with_pid : ℕ → ContainerMetadata
with_pid pid = record container { pid = some (pos pid) }

attach_stubs-stop_example :
    (attach_stubs namespaces skb_mode
        (with_pid 8 ∷ (with_pid 9 ∷ with_pid 10 ∷ []))
        (record { poisoned = false; ebpf = 0 })
      ≡ attach_stubs namespaces skb_mode
          (with_pid 8 ∷ (with_pid 9 ∷ []))
          (record { poisoned = false; ebpf = 0 }))
    × ((attach_stubs namespaces skb_mode
          (with_pid 8 ∷ (with_pid 9 ∷ with_pid 10 ∷ []))
          (record { poisoned = false; ebpf = 0 })).poisoned
        ≡ true)
attach_stubs-stop_example =
    attach_stubs-stop namespaces skb_mode (with_pid 8 ∷ []) (with_pid 10 ∷ []) (with_pid 9) (pos 9)
      (record { poisoned = false; ebpf = 0 }) refl refl refl
