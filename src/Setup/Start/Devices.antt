-- ===== src/Setup/Start/Devices.antt =====
-- What the start leaves in REDIRECT_MAP and gives to the server.
use Prim.Native.String.{String}
use xdp_natd.Base.{
  Bool, true, false, if◌then◌else◌, ℕ, ◌≡◌, ◌≢◌, subst, refl, Result, ok, err, Option, none, some,
  [], ◌∷◌, arith, inl, inr, Option-cases,
}
use xdp_natd.BpfMap.{BpfMap}
use xdp_natd.PortAllocator.{new}
use xdp_natd.Containers
use xdp_natd.Containers.Keyed.{Keyed}
use xdp_natd.Containers.{ContainerMap, ContainerMetadata}
use xdp_natd.Api.{AppState}
use xdp_natd.Setup.{
  XdpFlags, SetupError, Platform, get_if_addr, attach_container_xdp, insert_all, setup_devmap,
  setup_pnic, insert_nic, attach_nic, parse_xdp_mode,
}
use xdp_natd.Setup.Start.{
  ReservedPorts, port_range, Plane, parse_range, reserve_kernel_ports, Outcome, with_ports,
  with_nic, with_stubs, with_devmap, with_programs, with_mode, start,
}

module _ {D : Type 0} (devmap : BpfMap ℕ ℕ D) where
  insert_all_keeps :
      (containers : ContainerMap) (d : D) (ip : ℕ)
      → Keyed containers
      → Containers.get containers ip ≡ none
      → (insert_all devmap (Containers.values containers) d).0 ≡ ok tt
      → devmap.get (insert_all devmap (Containers.values containers) d).1 ip ≡ devmap.get d ip
  unfolding insert_all
  insert_all_keeps [] d ip keyed absent e = refl
  insert_all_keeps ((j, c) ∷ rest) d ip keyed absent e = ground (
    arith,
    insert_all_keeps rest (devmap.insert d c.ipv4_address c.ifindex 0).1 ip,
    devmap.insert_ne d ip c.ipv4_address c.ifindex 0,
  )

  insert_all_lists :
      (containers : ContainerMap) (d : D) (ip : ℕ) (c : ContainerMetadata)
      → Keyed containers
      → Containers.get containers ip ≡ some c
      → (insert_all devmap (Containers.values containers) d).0 ≡ ok tt
      → devmap.get (insert_all devmap (Containers.values containers) d).1 ip ≡ some c.ifindex
  unfolding insert_all
  insert_all_lists [] d ip c keyed found e = ground arith
  insert_all_lists ((j, b) ∷ rest) d ip c keyed found e = ground (
    arith,
    insert_all_lists rest (devmap.insert d b.ipv4_address b.ifindex 0).1 ip c,
    insert_all_keeps rest (devmap.insert d b.ipv4_address b.ifindex 0).1 ip,
    devmap.insert_ok d b.ipv4_address b.ifindex 0,
  )

-- The range is the one that the daemon names.
reserve_kernel_ports-range :
    {F : Type 0} (file : ReservedPorts F) (f : F) (lower upper : ℕ)
    → (reserve_kernel_ports file port_range f).0 ≡ ok (lower, upper)
    → (lower ≡ 10000) × (upper ≡ 12000)
unfolding reserve_kernel_ports parse_range
reserve_kernel_ports-range file f lower upper e = ground arith

module _ {L D F : Type 0} (E : Type 0) (platform : Platform L) (devmap : BpfMap ℕ ℕ D)
    (file : ReservedPorts F) (containers : ContainerMap) (nic : String) (expose_map : E) where
  -- Each container's device stands under its address; 0 is for the host's.
  abbrev pub Listed : D → Type 0
  Listed d =
      (ip : ℕ) (c : ContainerMetadata)
      → ip ≢ 0
      → Containers.get containers ip ≡ some c
      → devmap.get d ip ≡ some c.ifindex

  -- The host's device is known, by its index and address, and stands under 0 of REDIRECT_MAP.
  pub record HasNic (p : Plane L D E F) : Type 0 where
    pub nic_ifindex : ℕ
    pub nic_addr : ℕ
    pub index : platform.if_nametoindex nic ≡ some nic_ifindex
    pub address : get_if_addr platform nic ≡ ok nic_addr
    pub redirect : devmap.get p.redirect_map 0 ≡ some nic_ifindex
    pub known : p.pnic_array ≡ some (record { nic_ip = nic_addr; nic_ifindex = nic_ifindex })

  -- A start with a server: both kinds of devices are in REDIRECT_MAP, and the server has the
  -- containers, the map and all ports of the range.
  pub record Serves (st : AppState E) (p : Plane L D E F) : Type 0 where
    pub has_nic : HasNic p
    pub listed : Listed p.redirect_map
    pub metas : st.container_metas ≡ containers
    pub ports : st.port_allocator ≡ new 10000 12000
    pub exposes : st.expose_map ≡ expose_map

  -- Of a start that fails, and of one without a host device, nothing is said.
  abbrev pub StartMeets : Outcome E platform devmap file → Type 0
  StartMeets (err e, p) = Unit
  StartMeets (ok none, p) = Unit
  StartMeets (ok (some st), p) = Serves st p

  with_ports-Meets :
      (p : Plane L D E F) (r : Result (ℕ × ℕ) SetupError × F)
      → ((lower upper : ℕ) → r.0 ≡ ok (lower, upper) → (lower ≡ 10000) × (upper ≡ 12000))
      → p.expose_map ≡ expose_map
      → HasNic p
      → Listed p.redirect_map
      → StartMeets (with_ports E platform devmap file containers p r)
  unfolding with_ports
  with_ports-Meets p (err e, f) range same h l = tt
  with_ports-Meets p (ok (lower, upper), f) range same h l = record {
    has_nic = record {
      nic_ifindex = h.nic_ifindex;
      nic_addr = h.nic_addr;
      index = h.index;
      address = h.address;
      redirect = h.redirect;
      known = h.known;
    };
    listed = l;
    metas = refl;
    ports = rw ((range lower upper refl).0, (range lower upper refl).1) refl;
    exposes = same;
  }

  with_nic-Meets :
      (p : Plane L D E F) (r : Result (ℕ × ℕ) SetupError × L × D)
      → p.expose_map ≡ expose_map
      → ((addr index : ℕ)
          → r.0 ≡ ok (addr, index)
          → (platform.if_nametoindex nic ≡ some index)
            × (get_if_addr platform nic ≡ ok addr)
            × (devmap.get r.2 0 ≡ some index)
            × Listed r.2)
      → StartMeets (with_nic E platform devmap file containers p r)
  unfolding with_nic
  with_nic-Meets p (err e, l, d) same found = tt
  with_nic-Meets p (ok (addr, index), l, d) same found =
      let (i, a, z, all) = found addr index refl in
      with_ports-Meets
        (record p {
          loader = l;
          redirect_map = d;
          pnic_array = some (record { nic_ip = addr; nic_ifindex = index });
        })
        (reserve_kernel_ports file port_range p.reserved)
        (reserve_kernel_ports-range file p.reserved) same
        (record {
          nic_ifindex = index;
          nic_addr = addr;
          index = i;
          address = a;
          redirect = z;
          known = refl;
        })
        all

  setup_pnic-Listed :
      (mode : XdpFlags) (l : L) (d : D) (addr index : ℕ)
      → Listed d
      → (setup_pnic devmap platform nic mode l d).0 ≡ ok (addr, index)
      → let r = setup_pnic devmap platform nic mode l d in
        (platform.if_nametoindex nic ≡ some index)
        × (get_if_addr platform nic ≡ ok addr)
        × (devmap.get r.2 0 ≡ some index)
        × Listed r.2
  unfolding setup_pnic insert_nic attach_nic
  setup_pnic-Listed mode l d addr index all e = elim (Option-cases (platform.if_nametoindex nic)) [
    | inl no_index ↦ ground arith
    | inr (i, h) ↦
        ground (arith, all, devmap.insert_ok d 0 i 0, λ (ip : ℕ). devmap.insert_ne d ip 0 i 0)
  ]

  with_stubs-Meets :
      (pnic : Option String) (mode : XdpFlags) (p : Plane L D E F)
      → pnic ≡ some nic
      → p.expose_map ≡ expose_map
      → Listed p.redirect_map
      → StartMeets (with_stubs E platform devmap file pnic mode containers p)
  unfolding with_stubs
  with_stubs-Meets none mode p named same all = tt
  with_stubs-Meets (some name) mode p named same all = rw (own named) (
      with_nic-Meets p (setup_pnic devmap platform nic mode p.loader p.redirect_map) same
        (λ addr index e. setup_pnic-Listed mode p.loader p.redirect_map addr index all e))
    where
      own : some name ≡ some nic → name ≡ nic
      own e = cc e

  either-Meets :
      (b : Bool) (x y : Outcome E platform devmap file)
      → StartMeets x
      → StartMeets y
      → StartMeets (if b then x else y)
  either-Meets true x y h k = h
  either-Meets false x y h k = k

  with_devmap-Meets :
      (mode : XdpFlags) (p : Plane L D E F) (r : Result (Unit {0}) SetupError × D)
      → p.expose_map ≡ expose_map
      → (r.0 ≡ ok tt → Listed r.1)
      → StartMeets (with_devmap E platform devmap file (some nic) mode containers p r)
  unfolding with_devmap
  with_devmap-Meets mode p (err e, d) same all = tt
  with_devmap-Meets mode p (ok done, d) same all =
      either-Meets platform.stub_object _ _
        (with_stubs-Meets (some nic) mode (record p { redirect_map = d }) refl same (all refl)) tt

  with_programs-Meets :
      (mode : XdpFlags) (p : Plane L D E F) (r : Result (Unit {0}) SetupError × L)
      → Keyed containers
      → p.expose_map ≡ expose_map
      → StartMeets (with_programs E platform devmap file (some nic) mode containers p r)
  unfolding with_programs setup_devmap
  with_programs-Meets mode p (err e, l) keyed same = tt
  with_programs-Meets mode p (ok done, l) keyed same =
      with_devmap-Meets mode (record p { loader = l })
        (setup_devmap devmap containers p.redirect_map) same
        (λ inserted ip c ne found.
          insert_all_lists devmap containers p.redirect_map ip c keyed found inserted)

  with_mode-Meets :
      (p : Plane L D E F) (mode : Result XdpFlags SetupError)
      → Keyed containers
      → p.expose_map ≡ expose_map
      → StartMeets (with_mode E platform devmap file (some nic) containers p mode)
  unfolding with_mode
  with_mode-Meets p (err e) keyed same = tt
  with_mode-Meets p (ok mode) keyed same =
      with_programs-Meets mode p (attach_container_xdp platform containers mode p.loader) keyed same

  -- If the start, with a host device and each container under its own address, brings up the
  -- server, then REDIRECT_MAP leads 0 to the host's device and each container's address but 0 to
  -- that container's device, PNIC_ARRAY holds the host's index and address, and the server begins
  -- with these containers, with EXPOSE_MAP as it was, and with the ports from 10000 to 12000.
  pub start-Serves :
      (mode : String) (p : Plane L D E F) (st : AppState E) (p' : Plane L D E F)
      → Keyed containers
      → p.expose_map ≡ expose_map
      → start E platform devmap file (some nic) mode containers p ≡ (ok (some st), p')
      → Serves st p'
  unfolding start
  start-Serves mode p st p' keyed same ran =
      subst StartMeets ran (with_mode-Meets p (parse_xdp_mode mode) keyed same)
