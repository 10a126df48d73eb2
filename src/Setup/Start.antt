-- ===== src/Setup/Start.antt =====
-- reserve_kernel_ports and the part of main of xdp-natd/src/main.rs up to the server's start. The
-- stubs in the containers' own namespaces are attached by threads whose failures are ignored, through
-- an object of their own, and are in Setup.Stubs. Entry 0 of PNIC_ARRAY exists, so setting it succeeds.
pub mod Devices
use Prim.Native.String.{String, ◌++◌, []}
use text.Mathlib.Text.{is_eq, ◌==◌}
use xdp_natd.Base.{ℕ, Bool, true, false, Result, ok, err, Option, none, some, if◌then◌else◌}
use xdp_natd.Common.{NicInfo}
use xdp_natd.BpfMap.{BpfMap}
use xdp_natd.Texts
use xdp_natd.Texts.Decimal
use xdp_natd.PortAllocator.{new}
use xdp_natd.Containers.{ContainerMap}
use xdp_natd.Api.{AppState, app_state}
use xdp_natd.Setup.{
  XdpFlags, SetupError, no_object, no_file, invalid_range, parse_xdp_mode, Platform,
  attach_container_xdp, setup_devmap, setup_pnic,
}

pub parse_range : Option (String × String) → Result (ℕ × ℕ) SetupError
parse_range none = err invalid_range
parse_range (some (num1, num2)) = elim (Decimal.parse_u16 num1) [
  | none ↦ err invalid_range
  | some lower ↦ elim (Decimal.parse_u16 num2) [
    | none ↦ err invalid_range
    | some upper ↦ ok (lower, upper)
  ]
]

-- The file ip_local_reserved_ports; `F` is its state.
pub record ReservedPorts (F : Type 0) : Type 0 where
  pub read_to_string : F → Option String
  pub write : String → F → Bool × F

-- What is written: the range behind what was reserved before.
pub new_content : String → String → String
new_content existing range =
    let existing_trimmed = Texts.trim existing in
    if existing_trimmed == "" then range else existing_trimmed ++ "," ++ range

pub reserve_kernel_ports :
    {F : Type 0} → ReservedPorts F → String → F → Result (ℕ × ℕ) SetupError × F
unfolding new_content parse_range
reserve_kernel_ports file range f = elim (file.read_to_string f) [
  | none ↦ (err no_file, f)
  | some existing ↦
      let (written, f') = file.write (new_content existing range) f in
      if written then (parse_range (Texts.split_once 45 range), f') else (err no_file, f')
]

abbrev pub port_range : String
port_range = "10000-12000"

-- The maps and programs of the object, and the file, as the start finds and leaves them. EXPOSE_MAP
-- is handed to the server.
pub record Plane (L D E F : Type 0) : Type 0 where
  pub loader : L
  pub redirect_map : D
  pub pnic_array : Option NicInfo
  pub expose_map : E
  pub reserved : F

module _ {L D F : Type 0} (E : Type 0) (platform : Platform L) (devmap : BpfMap ℕ ℕ D)
    (file : ReservedPorts F) where
  abbrev pub Outcome : Type 0
  Outcome = Result (Option (AppState E)) SetupError × Plane L D E F

  -- From `reserve_kernel_ports` on: the server's state.
  pub with_ports : ContainerMap → Plane L D E F → Result (ℕ × ℕ) SetupError × F → Outcome
  with_ports containers p (err e, f) = (err e, record p { reserved = f })
  with_ports containers p (ok (lower, upper), f) =
      (ok (some (app_state p.expose_map (new lower upper) containers)), record p { reserved = f })

  pub with_nic : ContainerMap → Plane L D E F → Result (ℕ × ℕ) SetupError × L × D → Outcome
  unfolding with_ports reserve_kernel_ports
  with_nic containers p (err e, l, d) = (err e, record p { loader = l; redirect_map = d })
  with_nic containers p (ok (nic_addr, nic_ifindex), l, d) =
      let p' : Plane L D E F = record p {
        loader = l;
        redirect_map = d;
        pnic_array = some (record { nic_ip = nic_addr; nic_ifindex = nic_ifindex });
      } in
      with_ports containers p' (reserve_kernel_ports file port_range p'.reserved)

  -- From `if let Some(ref nic)` on.
  pub with_stubs : Option String → XdpFlags → ContainerMap → Plane L D E F → Outcome
  unfolding with_nic
  with_stubs none mode containers p = (ok none, p)
  with_stubs (some nic) mode containers p =
      with_nic containers p (setup_pnic devmap platform nic mode p.loader p.redirect_map)

  pub with_devmap :
      Option String
      → XdpFlags
      → ContainerMap
      → Plane L D E F
      → Result (Unit {0}) SetupError × D
      → Outcome
  unfolding with_stubs
  with_devmap pnic mode containers p (err e, d) = (err e, record p { redirect_map = d })
  with_devmap pnic mode containers p (ok done, d) =
      if platform.stub_object
      then with_stubs pnic mode containers (record p { redirect_map = d })
      else (err no_object, record p { redirect_map = d })

  pub with_programs :
      Option String
      → XdpFlags
      → ContainerMap
      → Plane L D E F
      → Result (Unit {0}) SetupError × L
      → Outcome
  unfolding with_devmap
  with_programs pnic mode containers p (err e, l) = (err e, record p { loader = l })
  with_programs pnic mode containers p (ok done, l) =
      with_devmap pnic mode containers (record p { loader = l })
        (setup_devmap devmap containers p.redirect_map)

  pub with_mode :
      Option String → ContainerMap → Plane L D E F → Result XdpFlags SetupError → Outcome
  unfolding with_programs
  with_mode pnic containers p (err e) = (err e, p)
  with_mode pnic containers p (ok mode) =
      with_programs pnic mode containers p (attach_container_xdp platform containers mode p.loader)

  -- `none` is a start without a host device, and so without a server.
  unfoldable pub start : Option String → String → ContainerMap → Plane L D E F → Outcome
  unfolding with_mode
  start pnic mode containers p = with_mode pnic containers p (parse_xdp_mode mode)
