-- ===== src/Setup.antt =====
-- The start of the daemon: xdp-natd/src/main.rs. The loader of programs (aya), the interfaces that
-- the system lists (nix) and the file of reserved ports are parameters; what the code does with their
-- answers is here. The object with the programs and the maps is built from this repository, so the
-- look-ups of a program or a map by its name do not fail.
pub mod Start
pub mod Stubs
use Prim.Native.String.{String}
use text.Mathlib.Text.{◌==◌}
use xdp_natd.Base.{
  ℕ, Bool, true, false, Result, ok, err, Option, none, some, List, [], ◌∷◌, if◌then◌else◌,
}
use xdp_natd.BpfMap.{BpfMap}
use xdp_natd.Containers
use xdp_natd.Containers.{ContainerMap, ContainerMetadata}

pub data XdpFlags : Type 0 where
  skb_mode drv_mode : XdpFlags

pub data SetupError : Type 0 where
  invalid_mode : SetupError
  not_loaded : String → SetupError
  not_attached : String → SetupError
  devmap_error : ℕ → SetupError
  no_interface : String → SetupError
  no_address : String → SetupError
  no_file : SetupError
  invalid_range : SetupError
  no_object : SetupError

unfoldable pub parse_xdp_mode : String → Result XdpFlags SetupError
parse_xdp_mode mode =
    if mode == "skb"
    then ok skb_mode
    else if mode == "native"
    then ok drv_mode
    else err invalid_mode

-- One entry of `getifaddrs`: the interface's name, and its IPv4 address if it is one of that family.
pub record IfAddr : Type 0 where
  pub interface_name : String
  pub sockaddr_in : Option ℕ

-- `find_map`: the first IPv4 address of the interface.
pub find_addr : String → List IfAddr → Option ℕ
find_addr ifname [] = none
find_addr ifname (ifaddr ∷ rest) =
    let later = find_addr ifname rest in
    if ifaddr.interface_name == ifname
    then elim ifaddr.sockaddr_in [ some addr ↦ some addr | none ↦ later ]
    else later

-- What the daemon asks of the system. `L` is the state of the loader: which programs are loaded, and
-- to which devices they are attached.
pub record Platform (L : Type 0) : Type 0 where
  pub load : String → L → Bool × L
  pub attach : String → String → XdpFlags → L → Bool × L
  pub if_nametoindex : String → Option ℕ
  pub getifaddrs : Option (List IfAddr)
  -- Whether the object with the stubs loads.
  pub stub_object : Bool

module _ {L : Type 0} (platform : Platform L) where
  pub get_if_addr : String → Result ℕ SetupError
  unfolding find_addr
  get_if_addr ifname = elim platform.getifaddrs [
    | none ↦ err (no_interface ifname)
    | some list ↦ elim (find_addr ifname list) [
      | some addr ↦ ok addr
      | none ↦ err (no_address ifname)
    ]
  ]

  -- `program.attach(..)?`, for each container's device.
  pub attach_all : String → XdpFlags → List ContainerMetadata → L → Result (Unit {0}) SetupError × L
  attach_all program mode [] l = (ok tt, l)
  attach_all program mode (container ∷ rest) l =
      let (attached, l') = platform.attach program container.veth mode l in
      let later = attach_all program mode rest l' in
      if attached then later else (err (not_attached container.veth), l')

  unfoldable pub attach_container_xdp :
      ContainerMap → XdpFlags → L → Result (Unit {0}) SetupError × L
  unfolding attach_all
  attach_container_xdp containers mode l =
      let (loaded, l') = platform.load "xdp_redirect_containers" l in
      if loaded
      then attach_all "xdp_redirect_containers" mode (Containers.values containers) l'
      else (err (not_loaded "xdp_redirect_containers"), l')

module _ {D : Type 0} (devmap : BpfMap ℕ ℕ D) where
  -- `devmap.insert(..)?`, for each container.
  pub insert_all : List ContainerMetadata → D → Result (Unit {0}) SetupError × D
  insert_all [] d = (ok tt, d)
  insert_all (container ∷ rest) d =
      let (inserted, d') = devmap.insert d container.ipv4_address container.ifindex 0 in
      let later = insert_all rest d' in
      if inserted then later else (err (devmap_error container.ipv4_address), d')

  unfoldable pub setup_devmap : ContainerMap → D → Result (Unit {0}) SetupError × D
  unfolding insert_all
  setup_devmap containers d = insert_all (Containers.values containers) d

  module _ {L : Type 0} (platform : Platform L) (nic_name : String) (mode : XdpFlags) where
    pub attach_nic : ℕ → ℕ → L → D → Result (ℕ × ℕ) SetupError × L × D
    attach_nic nic_addr nic_ifindex l d =
        let (loaded, l') = platform.load "xdp_redirect_host" l in
        let (attached, l'') = platform.attach "xdp_redirect_host" nic_name mode l' in
        if loaded
        then if attached
          then (ok (nic_addr, nic_ifindex), l'', d)
          else (err (not_attached nic_name), l'', d)
        else (err (not_loaded "xdp_redirect_host"), l', d)

    pub insert_nic : ℕ → ℕ → L → D → Result (ℕ × ℕ) SetupError × L × D
    unfolding attach_nic
    insert_nic nic_addr nic_ifindex l d =
        let (inserted, d') = devmap.insert d 0 nic_ifindex 0 in
        let later = attach_nic nic_addr nic_ifindex l d' in
        if inserted then later else (err (devmap_error 0), l, d')

    -- Up to the start of the reaper's task.
    unfoldable pub setup_pnic : L → D → Result (ℕ × ℕ) SetupError × L × D
    unfolding insert_nic get_if_addr
    setup_pnic l d = elim (platform.if_nametoindex nic_name) [
      | none ↦ (err (no_interface nic_name), l, d)
      | some nic_ifindex ↦ elim (get_if_addr platform nic_name) [
        | err e ↦ (err e, l, d)
        | ok nic_addr ↦ insert_nic nic_addr nic_ifindex l d
      ]
    ]
