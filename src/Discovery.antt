-- ===== src/Discovery.antt =====
-- get_containers of xdp-natd/src/main.rs. What Docker answers, the interfaces of the host and the
-- parser of MAC addresses (docker_api, nix and macaddr, which are not part of the repository) are
-- parameters. A chunk is its text, as `String::from_utf8_lossy` decodes it.
pub mod Found
pub mod Network
use Prim.Native.String.{String}
use xdp_natd.Base.{
  ℕ, Result, ok, err, ◌>>=◌, or_err, Option, none, some, List, [], ◌∷◌, ◌==◌, if◌then◌else◌,
}
use xdp_natd.Common.{MacAddr}
use xdp_natd.Texts
use xdp_natd.Texts.Decimal
use xdp_natd.Texts.Split.{split, first_part}
use xdp_natd.Texts.Address.{parse_ipv4}
use xdp_natd.Containers
use xdp_natd.Containers.{ContainerMap, ContainerMetadata, ℤ}

-- A container as the network's description shows it.
pub record NetworkContainer : Type 0 where
  pub name : Option String
  pub mac_address : Option String
  pub i_pv_4_address : Option String

pub record State : Type 0 where
  pub pid : Option ℤ

pub record Interface : Type 0 where
  pub index : ℕ
  pub name : String

-- What a command in a container prints, in pieces.
pub data TtyChunk : Type 0 where
  std_in : TtyChunk
  std_out std_err : String → TtyChunk

-- `none` is a call that fails, or a piece that cannot be read. The host's interfaces are those at the
-- time when they are asked for, on behalf of a container.
pub record Docker : Type 0 where
  pub inspect_network : String → Option (Option (List (String × NetworkContainer)))
  pub inspect : String → Option (Option State)
  pub exec : String → Option (List (Option TtyChunk))
  pub if_nameindex : String → Option (List Interface)
  pub parse_mac : String → Option MacAddr

pub data DiscoveryError : Type 0 where
  docker_failed no_interfaces : DiscoveryError
  iflink_not_parsed interface_not_found mac_not_parsed : DiscoveryError
  address_missing address_not_parsed : DiscoveryError

abbrev pub unwrap_or_default : Option String → String
unwrap_or_default none = ""
unwrap_or_default (some s) = s

-- `and_then(|s| s.pid)`.
abbrev pub pid_of : Option State → Option ℤ
pid_of none = none
pid_of (some s) = s.pid

abbrev pub find : List Interface → ℕ → Option Interface
find [] iflink = none
find (i ∷ rest) iflink = if i.index == iflink then some i else find rest iflink

-- The address without the length of its prefix.
abbrev pub without_prefix : Option String → Option String
without_prefix none = none
without_prefix (some ip) = first_part (split b'/' ip)

module _ (docker : Docker) where
  -- What a container's first output tells of it.
  unfoldable pub metadata :
      String → NetworkContainer → Option ℤ → String → Result ContainerMetadata DiscoveryError
  metadata cid container_info pid output = do
    iflink ← or_err iflink_not_parsed (Decimal.parse_u32 (Texts.trim output))
    interfaces ← or_err no_interfaces (docker.if_nameindex cid)
    interface ← or_err interface_not_found (find interfaces iflink)
    mac_address ←
        or_err mac_not_parsed (docker.parse_mac (unwrap_or_default container_info.mac_address))
    ip ← or_err address_missing (without_prefix container_info.i_pv_4_address)
    ipv4_address ← or_err address_not_parsed (parse_ipv4 ip)
    ok (record {
      name = unwrap_or_default container_info.name;
      veth = interface.name;
      ipv4_address = ipv4_address;
      ifindex = iflink;
      pid = pid;
      mac_address = mac_address;
    })

  -- The loop over the stream: the first output is the last piece that is read, and a container that
  -- prints nothing is left out.
  unfoldable pub read_stream :
      String
      → NetworkContainer
      → Option ℤ
      → ContainerMap
      → List (Option TtyChunk)
      → Result ContainerMap DiscoveryError
  read_stream cid container_info pid metas [] = ok metas
  read_stream cid container_info pid metas (none ∷ stream) = err docker_failed
  read_stream cid container_info pid metas (some (std_out output) ∷ stream) = do
    c ← metadata cid container_info pid output
    ok (Containers.insert metas c.ipv4_address c)
  read_stream cid container_info pid metas (some std_in ∷ stream) =
      read_stream cid container_info pid metas stream
  read_stream cid container_info pid metas (some (std_err output) ∷ stream) =
      read_stream cid container_info pid metas stream

  -- The body of the loop over the containers.
  unfoldable pub add_container :
      ContainerMap → String × NetworkContainer → Result ContainerMap DiscoveryError
  add_container metas (cid, container_info) = do
    state ← or_err docker_failed (docker.inspect cid)
    stream ← or_err docker_failed (docker.exec cid)
    read_stream cid container_info (pid_of state) metas stream

  unfoldable pub add_containers :
      ContainerMap → List (String × NetworkContainer) → Result ContainerMap DiscoveryError
  add_containers metas [] = ok metas
  add_containers metas (container ∷ rest) = do
    metas' ← add_container metas container
    add_containers metas' rest

  abbrev pub add_network :
      Option (List (String × NetworkContainer)) → Result ContainerMap DiscoveryError
  add_network none = ok []
  add_network (some containers) = add_containers [] containers

  unfoldable pub get_containers : String → Result ContainerMap DiscoveryError
  get_containers network = do
    network_info ← or_err docker_failed (docker.inspect_network network)
    add_network network_info
