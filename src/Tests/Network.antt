-- ===== src/Tests/Network.antt =====
-- A network with one container, and the daemon from its configuration to its end.
use Prim.Native.String.{String}
use xdp_natd.Base.{
  Result, err, if◌then◌else◌, ℕ_discrete, ℕ, ◌≡◌, ◌≢◌, ◌⊎◌, refl, ok, some, none, true, arith, List,
  [], ◌∷◌,
}
use xdp_natd.Common.{ContainerInfo}
use xdp_natd.PortAllocator.Partition.{new-Partition}
use xdp_natd.Configuration.{Configuration, Sources}
use xdp_natd.Discovery.{
  NetworkContainer, Docker, std_out, std_err, get_containers, add_containers, add_container,
  read_stream, metadata,
}
use xdp_natd.Discovery.Network.{Finds, get_containers-Finds}
use xdp_natd.Iptables.{specification}
use xdp_natd.Api.{expose, handle, expose_port}
use xdp_natd.Api.Ports.{Owns}
use xdp_natd.Api.Mirrors.{Mirrors, empty-Mirrors}
use xdp_natd.Api.Mirrors.Handlers.{handle-Mirrors}
use text.Mathlib.Text.{◌==◌}
use xdp_natd.Api.Router.{Axum, HttpRequest, Route, get, post, router, respond}
use xdp_natd.Serving.{answer_all}
use xdp_natd.Serving.Rules.{AnsweredWith, answer_all-rules}
use xdp_natd.Api.Rules.{rules}
use xdp_natd.Serving.Network.{IsServed, network_ports}
use xdp_natd.Main.{Process}
use xdp_natd.Exposure.{Asks}
use xdp_natd.Serving.Packets.{Reaches, exposed_datagram}
use xdp_natd.PortAllocator.{allocate_next}
use xdp_natd.Kernel.{get_fib_macs, do_fib_lookup}
use xdp_natd.Word.{be16, be32}
use xdp_natd.Iptables.{add_iptables_rule}
use xdp_natd.Tests.Data.{
  Host, host, datagram, kernel, tracker, route_macs, web, exposed, mac, container_ip,
}
use xdp_natd.Tests.Daemons.{fresh, wanted}
use xdp_natd.Tests.Chain.{run_arguments, run, listing, listing_chain, no_rules}
use xdp_natd.Tests.Setup.{platform, devmap, file, containers, before, after, served, started}

abbrev described : List (String × NetworkContainer)
described =
    (
      "c1",
      record {
        name = some "web";
        mac_address = some "02:42:00:00:00:02";
        i_pv_4_address = some "172.17.0.2/16";
      },
    )
    ∷ []

-- A warning comes before the index of the device.
abbrev docker : Docker
docker = record {
  inspect_network = λ network. some (some described);
  inspect = λ cid. some none;
  exec = λ cid. some (some (std_err "warning") ∷ (some (std_out " 7\n") ∷ []));
  if_nameindex =
      λ cid. some (record { index = 1; name = "lo" } ∷ (record { index = 7; name = "veth0" } ∷ []));
  parse_mac = λ text. some (mac 2);
}

discovered : get_containers docker "br-xdp" ≡ ok containers
unfolding get_containers add_containers add_container read_stream metadata
discovered = refl

get_containers-Finds_example : Finds docker described described containers
get_containers-Finds_example = get_containers-Finds docker "br-xdp" containers discovered

-- Paths are matched as they are written, and every body asks for the same container and port.
abbrev find_route : List Route → String → Result (Route × List String) ℕ
find_route [] path = err 404
find_route (r ∷ rest) path =
    let later = find_route rest path in if r.path == path then ok (r, []) else later

abbrev axum : Axum
axum = record {
  find_route = λ prefix table method path. find_route table path;
  json = λ body. ok wanted;
  bad_parameter = 400;
}

abbrev posts : List HttpRequest
posts =
    record { method = get; path = "/metrics"; body = "" }
    ∷ (record { method = post; path = "/expose"; body = "{}" } ∷ [])

fresh-Owns : Owns exposed listing 10000 10002 fresh
fresh-Owns = new-Partition exposed 10000 10002 [] (λ p. refl) (ground arith)

handle-Mirrors_example :
    Mirrors exposed listing listing_chain
      (handle exposed listing fresh [] (expose wanted)).1.expose_map
      (handle exposed listing fresh [] (expose wanted)).2
handle-Mirrors_example =
    handle-Mirrors exposed listing listing_chain 10000 10002 fresh [] (expose wanted) fresh-Owns
      (empty-Mirrors exposed listing listing_chain [] [] (λ p. refl) no_rules)

network_ports_example :
    let (st, n) = answer_all axum exposed listing "/api/v1/" posts served [] in
    ((info : ContainerInfo)
      → exposed.get st.expose_map 10000 ≡ some info
      → IsServed axum exposed listing "/api/v1/" listing_chain docker platform devmap file "br-xdp"
          "eth0" after.redirect_map n 10000 info)
    × (exposed.get st.expose_map 10000 ≡ none
        → (ip target : ℕ) → listing_chain.count (specification 10000 ip target) n ≡ 0)
network_ports_example =
    network_ports axum exposed listing "/api/v1/" listing_chain docker platform devmap file "br-xdp"
      containers "eth0" "skb" before served after posts [] discovered (λ port. refl) no_rules
      started 10000

-- 8.8.8.8:5000 to 192.168.0.10:10000, when the first request has been answered.
abbrev asking : Host
asking = record (host (datagram 0x08080808 0x0a00a8c0 0x8813 0x1027 (mac 11) (mac 10))) {
  expose = (answer_all axum exposed listing "/api/v1/" posts served []).0.expose_map;
}

asking-Asks : Asks tracker exposed listing (kernel 0) asking route_macs 10000
unfolding get_fib_macs do_fib_lookup be16 be32
asking-Asks = record {
  translatable = ground arith;
  to_port = refl;
  untracked = refl;
  route = refl;
  check_used = ground arith;
  dst_addr-lt = ground arith;
  dest-lt = ground arith;
}

wanted_shown :
    exposed.get (answer_all axum exposed listing "/api/v1/" posts served []).0.expose_map 10000
    ≡ some web
unfolding answer_all respond router handle expose_port allocate_next add_iptables_rule run_arguments
    run ℕ_discrete
wanted_shown = refl

exposed_datagram_example :
    (m1 : Host) × Reaches axum tracker exposed listing "/api/v1/" listing_chain docker platform
      devmap file "br-xdp"
      (kernel 0)
      asking
      m1
      after.redirect_map
      80
exposed_datagram_example =
    exposed_datagram axum tracker exposed listing "/api/v1/" listing_chain docker platform devmap
      file "br-xdp" containers "eth0" "skb" before served after posts [] discovered (λ port. refl)
      no_rules started 10000 web wanted_shown (ground arith) (ground arith) (kernel 0) asking
      route_macs refl asking-Asks

rule_left :
    rules exposed listing listing_chain 10000 container_ip 80
      (answer_all axum exposed listing "/api/v1/" posts served []).1
    ≢ 0
rule_left z =
    let (shown, hidden) =
      network_ports axum exposed listing "/api/v1/" listing_chain docker platform devmap file
        "br-xdp" containers "eth0" "skb" before served after posts [] discovered (λ port. refl)
        no_rules started 10000 in
    absurd (omega (arith, z, (shown web wanted_shown).rule_once))

answer_all-rules_example :
    (rules exposed listing listing_chain 10000 container_ip 80 [] ≢ 0)
    ⊎ AnsweredWith axum exposed listing "/api/v1/" 10000 posts served []
answer_all-rules_example =
    answer_all-rules exposed listing listing_chain 10000 container_ip 80 axum "/api/v1/" posts
      served [] rule_left

abbrev configuration : Configuration
configuration = record {
  control_plane = record {
    host = "0.0.0.0";
    port = 8080;
    prefix = "/api/v1/";
    logger_name = "xdp-natd";
    default_env_filter = "info";
  };
  data_plane = record { network = "br-xdp"; mode = "skb"; pnic = some "eth0" };
}

abbrev sources : Sources String String
sources = record {
  app_env = some "PRODUCTION";
  file = λ name. name;
  environment = λ prefix separator. prefix;
  build = λ names. some "merged";
  try_deserialize = λ merged. some configuration;
}

abbrev process : Process
process = record {
  tracing = record { default_env = none; tracer_init = true; set_global_default = λ s. true };
  object = true;
  bind = λ address. true;
  signals = true;
}
