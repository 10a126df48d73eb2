-- ===== src/Discovery/Found.antt =====
-- What the containers that get_containers finds are like.
use Prim.Native.String.{String}
use xdp_natd.Base.{
  ℕ, ◌≡◌, refl, sym, subst, ok, >>=-eq-ok, or_err-eq-ok, ok_inj, Option, none, some, List, [], ◌∷◌,
  In, ◌⊎◌, inl, inr, arith,
}
use xdp_natd.Common.{MacAddr}
use xdp_natd.Texts
use xdp_natd.Texts.Decimal
use xdp_natd.Texts.Address.{parse_ipv4}
use xdp_natd.Containers
use xdp_natd.Containers.{ContainerMap, ContainerMetadata}
use xdp_natd.Discovery.{
  NetworkContainer, State, Interface, TtyChunk, std_in, std_out, std_err, Docker, docker_failed,
  no_interfaces, iflink_not_parsed, interface_not_found, mac_not_parsed, address_missing,
  address_not_parsed, unwrap_or_default, pid_of, find, without_prefix, metadata, read_stream,
  add_container,
}

-- The first output in a stream, if all pieces before it can be read.
abbrev pub first_output : List (Option TtyChunk) → Option String
first_output [] = none
first_output (none ∷ stream) = none
first_output (some std_in ∷ stream) = first_output stream
first_output (some (std_err output) ∷ stream) = first_output stream
first_output (some (std_out output) ∷ stream) = some output

find-In :
    (interfaces : List Interface) (index : ℕ) (i : Interface)
    → find interfaces index ≡ some i
    → In i interfaces × (i.index ≡ index)
find-In [] index i e = ground arith
find-In (j ∷ rest) index i e = ground (arith, find-In rest index i)

module _ (docker : Docker) where
  -- A container's metadata is what its output, the host's interfaces and the network tell of it.
  pub record IsRead (container : String × NetworkContainer) (c : ContainerMetadata) : Type 0 where
    pub state : Option State
    pub inspected : docker.inspect container.0 ≡ some state
    pub same_container : c.name ≡ unwrap_or_default container.1.name
    pub same_pid : c.pid ≡ pid_of state
    pub stream : List (Option TtyChunk)
    pub executed : docker.exec container.0 ≡ some stream
    pub output : String
    pub printed : first_output stream ≡ some output
    pub iflink : Decimal.parse_u32 (Texts.trim output) ≡ some c.ifindex
    pub interfaces : List Interface
    pub asked : docker.if_nameindex container.0 ≡ some interfaces
    pub interface : Interface
    pub on_host : In interface interfaces
    pub same_index : interface.index ≡ c.ifindex
    pub same_name : interface.name ≡ c.veth
    pub mac : docker.parse_mac (unwrap_or_default container.1.mac_address) ≡ some c.mac_address
    pub ip : String
    pub has_ip : without_prefix container.1.i_pv_4_address ≡ some ip
    pub address : parse_ipv4 ip ≡ some c.ipv4_address

  -- A container that prints nothing before the stream ends.
  pub record IsSilent (container : String × NetworkContainer) : Type 0 where
    pub stream : List (Option TtyChunk)
    pub executed : docker.exec container.0 ≡ some stream
    pub unprinted : first_output stream ≡ none

  -- A container that prints nothing is left out; another stands under the address that is read.
  abbrev pub Adds : String × NetworkContainer → ContainerMap → ContainerMap → Type 0
  Adds container metas metas' =
      (IsSilent container × (metas' ≡ metas))
      ⊎ ((c : ContainerMetadata) × IsRead container c
          × (metas' ≡ Containers.insert metas c.ipv4_address c))

  module _ (cid : String) (info : NetworkContainer) (state : Option State)
      (all : List (Option TtyChunk)) (inspected : docker.inspect cid ≡ some state)
      (executed : docker.exec cid ≡ some all) where
    built :
        (output : String) (iflink : ℕ) (interfaces : List Interface) (interface : Interface)
        (mac : MacAddr) (ip : String) (address : ℕ)
        → first_output all ≡ some output
        → Decimal.parse_u32 (Texts.trim output) ≡ some iflink
        → docker.if_nameindex cid ≡ some interfaces
        → find interfaces iflink ≡ some interface
        → docker.parse_mac (unwrap_or_default info.mac_address) ≡ some mac
        → without_prefix info.i_pv_4_address ≡ some ip
        → parse_ipv4 ip ≡ some address
        → IsRead
            (cid, info)
            (record {
              name = unwrap_or_default info.name;
              veth = interface.name;
              ipv4_address = address;
              ifindex = iflink;
              pid = pid_of state;
              mac_address = mac;
            })
    built output iflink interfaces interface mac ip address printed read asked found mac_read has_ip
          parsed =
        record {
          state = state;
          inspected = inspected;
          same_container = refl;
          same_pid = refl;
          stream = all;
          executed = executed;
          output = output;
          printed = printed;
          iflink = read;
          interfaces = interfaces;
          asked = asked;
          interface = interface;
          on_host = (find-In interfaces iflink interface found).0;
          same_index = (find-In interfaces iflink interface found).1;
          same_name = refl;
          mac = mac_read;
          ip = ip;
          has_ip = has_ip;
          address = parsed;
        }

    metadata-IsRead :
        (output : String) (c : ContainerMetadata)
        → first_output all ≡ some output
        → metadata docker cid info (pid_of state) output ≡ ok c
        → IsRead (cid, info) c
    unfolding metadata
    metadata-IsRead output c printed e =
        let (iflink, read, e1) =
          or_err-eq-ok iflink_not_parsed (Decimal.parse_u32 (Texts.trim output)) _ c e in
        let (interfaces, asked, e2) = or_err-eq-ok no_interfaces (docker.if_nameindex cid) _ c e1 in
        let (interface, found, e3) =
          or_err-eq-ok interface_not_found (find interfaces iflink) _ c e2 in
        let (mac, mac_read, e4) =
          or_err-eq-ok mac_not_parsed (docker.parse_mac (unwrap_or_default info.mac_address)) _ c
            e3 in
        let (ip, has_ip, e5) =
          or_err-eq-ok address_missing (without_prefix info.i_pv_4_address) _ c e4 in
        let (address, parsed, e6) = or_err-eq-ok address_not_parsed (parse_ipv4 ip) _ c e5 in
        subst (IsRead (cid, info)) (ok_inj _ c e6) (
          built output iflink interfaces interface mac ip address printed read asked found mac_read
            has_ip parsed)

    read_stream-Adds :
        (metas metas' : ContainerMap) (stream : List (Option TtyChunk))
        → first_output all ≡ first_output stream
        → read_stream docker cid info (pid_of state) metas stream ≡ ok metas'
        → Adds (cid, info) metas metas'
    unfolding read_stream
    read_stream-Adds metas metas' [] same e = inl (
      record { stream = all; executed = executed; unprinted = same },
      sym (ok_inj metas metas' e),
    )
    read_stream-Adds metas metas' (none ∷ stream) same e = absurd (cc e)
    read_stream-Adds metas metas' (some std_in ∷ stream) same e =
        read_stream-Adds metas metas' stream same e
    read_stream-Adds metas metas' (some (std_err output) ∷ stream) same e =
        read_stream-Adds metas metas' stream same e
    read_stream-Adds metas metas' (some (std_out output) ∷ stream) same e =
        let (c, read, added) =
          >>=-eq-ok (metadata docker cid info (pid_of state) output) _ metas' e in
        inr (c, metadata-IsRead output c same read, sym (ok_inj _ metas' added))

  pub add_container-Adds :
      (metas metas' : ContainerMap) (container : String × NetworkContainer)
      → add_container docker metas container ≡ ok metas'
      → Adds container metas metas'
  unfolding add_container
  add_container-Adds metas metas' (cid, info) e =
      let (state, inspected, e1) = or_err-eq-ok docker_failed (docker.inspect cid) _ metas' e in
      let (stream, executed, e2) = or_err-eq-ok docker_failed (docker.exec cid) _ metas' e1 in
      read_stream-Adds cid info state stream inspected executed metas metas' stream refl e2
