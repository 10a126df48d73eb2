-- ===== src/Concurrent.antt =====
-- Packets on several processors at once: process_udp_snat and process_udp_dnat of
-- xdp-natd-ebpf/src/main.rs as the accesses that they make to UDP_CONNTRACK, one at a time. The
-- other maps and the packet belong to the run alone, or are only read. Each field of an entry is read
-- where the code reads it, through the pointer of the look-up; a store through a pointer to an entry
-- that has been removed since is lost.
pub mod Ways
pub mod Updates
pub mod Sequential
pub mod Processors
pub mod Kept
pub mod Ends
pub mod Progress
pub mod Alike
pub mod Bounds
pub mod LostReply
use xdp_natd.Base.{ℕ, Bool, true, false, Option, none, some, if◌then◌else◌}
use xdp_natd.Common.{
  ConnectionTuple, ContainerInfo, Direction, FibMacs, FlowState, NatData, NicInfo, connection_tuple,
  flow_state, nat_data, original, reply, timeout_new,
}
use xdp_natd.Word.{add64, be16, be32}
use xdp_natd.BpfMap.{BpfMap, bpf_noexist}
use xdp_natd.Frame.{Frame, ip_proto_udp}
use xdp_natd.Rewrite.{snat_frame, dnat_frame}
use xdp_natd.Kernel.{Kernel, get_fib_macs}
use xdp_natd.Flow.{refresh}
use xdp_natd.Xdp.{Flags, snat, dnat}

-- What is left of a run that ends with an `A`.
pub data Access (A : Type 0) : Type 0 where
  return : A → Access A
  bpf_ktime_get_coarse_ns : (ℕ → Access A) → Access A
  get_ptr_mut : ConnectionTuple → (Option FlowState → Access A) → Access A
  -- A read of an entry through its pointer, by a run that knows it as the state given.
  read : ConnectionTuple → FlowState → (FlowState → Access A) → Access A
  set_seen_reply : ConnectionTuple → Bool → Access A → Access A
  set_timeout : ConnectionTuple → ℕ → Access A → Access A
  -- An insertion with BPF_NOEXIST, whose result is ignored.
  insert : ConnectionTuple → FlowState → Access A → Access A

-- What a pointer to an entry shows: the entry, or, when it has been removed since, what the run knew
-- of it last, its own stores included.
abbrev pub live : FlowState → Option FlowState → FlowState
live known none = known
live known (some v) = v

module _ {A : Type 0} where
  -- Reads of one field each.
  abbrev pub read_direction : ConnectionTuple → FlowState → (FlowState → Access A) → Access A
  read_direction key known rest =
      read key known (λ v. rest (record known { direction = v.direction }))

  abbrev pub read_seen_reply : ConnectionTuple → FlowState → (FlowState → Access A) → Access A
  read_seen_reply key known rest =
      read key known (λ v. rest (record known { seen_reply = v.seen_reply }))

  abbrev pub read_timeout : ConnectionTuple → FlowState → (FlowState → Access A) → Access A
  read_timeout key known rest = read key known (λ v. rest (record known { timeout = v.timeout }))

  abbrev pub read_nat : ConnectionTuple → FlowState → (FlowState → Access A) → Access A
  read_nat key known rest = read key known (λ v. rest (record known { nat = v.nat }))

  -- `if let Some(rev_ptr) = UDP_CONNTRACK.get_ptr_mut(..)`, which copies two fields.
  pub touch_reverse : ConnectionTuple → ConnectionTuple → FlowState → A → Access A
  touch_reverse key reverse state a = get_ptr_mut reverse (λ found. elim found [
    | none ↦ return a
    | some rev_conn ↦ read_seen_reply key state (λ seen.
        set_seen_reply reverse seen.seen_reply
          (read_timeout key seen (λ both. set_timeout reverse both.timeout (return a))))
  ])

  -- The fields that a change of a flow stores.
  pub store : Direction → ConnectionTuple → FlowState → Access A → Access A
  store original key state rest = set_timeout key state.timeout rest
  store reply key state rest = set_seen_reply key true (set_timeout key state.timeout rest)

  -- `let snat = state.nat`, and the change of the reverse entry.
  pub translate_by :
      Bool → ConnectionTuple → FlowState → (NatData → ConnectionTuple) → (NatData → A) → Access A
  unfolding touch_reverse
  translate_by update_reverse key state reverse_of result = read_nat key state (λ known.
      if update_reverse
      then touch_reverse key (reverse_of known.nat) known (result known.nat)
      else return (result known.nat))

  -- The rest of a tracked flow's packet, with the fields as they have been read.
  pub change :
      ConnectionTuple → FlowState → (NatData → ConnectionTuple) → ℕ → (NatData → A) → Access A
  unfolding store translate_by
  change key state reverse_of time result =
      let (update_reverse, state') = refresh state time in
      if update_reverse
      then store state.direction key state' (translate_by true key state' reverse_of result)
      else translate_by false key state' reverse_of result

  -- The rest from the reading of the clock on. The timeout is read in either direction, also where
  -- the condition does not need it.
  pub track :
      ConnectionTuple → FlowState → (NatData → ConnectionTuple) → ℕ → (NatData → A) → Access A
  unfolding change
  track key state reverse_of time result = read_direction key state (λ directed.
      read_seen_reply key directed
        (λ seen. read_timeout key seen (λ known. change key known reverse_of time result)))

  -- Both insertions of a new flow.
  pub open_flow : ConnectionTuple → NatData → ConnectionTuple → NatData → ℕ → A → Access A
  open_flow key nat reverse reverse_nat time a =
      insert key (flow_state nat original (add64 time timeout_new))
        (insert reverse (flow_state reverse_nat reply (add64 time timeout_new)) (return a))

-- The translation, if there is one, and the packet.
abbrev pub Translated : Type 0
Translated = Option NatData × Frame

module _ {E : Type 0} (exposed : BpfMap ℕ ContainerInfo E) (k : Kernel) (frame : Frame) (expose : E)
    (pnic : Option NicInfo) (src_ip dst_ip : ℕ) where
  abbrev src_port : ℕ
  src_port = be16 k.endian frame.udp.source

  abbrev dst_port : ℕ
  dst_port = be16 k.endian frame.udp.dest

  abbrev pub key_of : ConnectionTuple
  key_of = connection_tuple src_ip dst_ip src_port dst_port

  pub snat_open : NicInfo → FibMacs → Access Translated
  unfolding open_flow
  snat_open nic fib_macs =
      let snat = nat_data nic.nic_ip src_port fib_macs 0 in
      let dnat_macs : FibMacs = record {
        fib_smac = fib_macs.fib_smac;
        fib_dmac = frame.eth.src_addr;
      } in
      let dkey = connection_tuple dst_ip nic.nic_ip dst_port src_port in
      let dnat = nat_data src_ip src_port dnat_macs src_ip in
      bpf_ktime_get_coarse_ns
        (λ time. open_flow key_of snat dkey dnat time (some snat, snat_frame k.endian snat frame))

  pub snat_new : Access Translated
  unfolding snat_open
  snat_new = elim pnic [
    | none ↦ return (none, frame)
    | some nic ↦
        elim (get_fib_macs k (be32 k.endian nic.nic_ip) (be32 k.endian dst_ip) ip_proto_udp
          (be16 k.endian frame.ipv4.tot_len) nic.nic_ifindex) [
            | none ↦ return (none, frame)
            | some fib_macs ↦ snat_open nic fib_macs
          ]
  ]

  pub snat_found : Option FlowState → Access Translated
  unfolding track snat_new
  snat_found (some state) = bpf_ktime_get_coarse_ns (λ time.
      track key_of state (λ snat. connection_tuple dst_ip snat.nat_addr dst_port snat.nat_port) time
        (λ snat. (some snat, snat_frame k.endian snat frame)))
  snat_found none = snat_new

  pub process_udp_snat : Access Translated
  unfolding snat_found
  process_udp_snat = get_ptr_mut key_of snat_found

  pub dnat_open : ContainerInfo → FibMacs → Access Translated
  unfolding open_flow
  dnat_open info fib_macs =
      let dnat_macs : FibMacs = record {
        fib_smac = frame.eth.dst_addr;
        fib_dmac = info.container_mac;
      } in
      let dnat = nat_data info.container_ip info.container_port dnat_macs info.container_ip in
      let snat = nat_data dst_ip dst_port fib_macs 0 in
      let skey = connection_tuple info.container_ip src_ip info.container_port src_port in
      bpf_ktime_get_coarse_ns
        (λ time. open_flow key_of dnat skey snat time (some dnat, dnat_frame k.endian dnat frame))

  pub dnat_new : Access Translated
  unfolding dnat_open
  dnat_new = elim (exposed.get expose dst_port) [
    | none ↦ return (none, frame)
    | some info ↦
        elim (get_fib_macs k (be32 k.endian dst_ip) (be32 k.endian src_ip) ip_proto_udp
          (be16 k.endian frame.ipv4.tot_len) k.ingress_ifindex) [
            | none ↦ return (none, frame)
            | some fib_macs ↦ dnat_open info fib_macs
          ]
  ]

  pub dnat_found : Option FlowState → Access Translated
  unfolding track dnat_new
  dnat_found (some state) = bpf_ktime_get_coarse_ns (λ time.
      track key_of state (λ dnat. connection_tuple dnat.nat_addr src_ip dnat.nat_port src_port) time
        (λ dnat. (some dnat, dnat_frame k.endian dnat frame)))
  dnat_found none = dnat_new

  pub process_udp_dnat : Access Translated
  unfolding dnat_found
  process_udp_dnat = get_ptr_mut key_of dnat_found

  unfoldable pub process : Flags → Access Translated
  unfolding process_udp_snat process_udp_dnat
  process snat = process_udp_snat
  process dnat = process_udp_dnat

module _ {S : Type 0} (tracker : BpfMap ConnectionTuple FlowState S) where
  -- A store to a field of an entry.
  pub update : S → ConnectionTuple → (FlowState → FlowState) → S
  update s key f = elim (tracker.get s key) [ none ↦ s | some v ↦ tracker.write s key (f v) ]

  -- One access, at a time.
  unfoldable pub advance : {A : Type 0} → ℕ → S → Access A → S × Access A
  unfolding update
  advance now s (return a) = (s, return a)
  advance now s (bpf_ktime_get_coarse_ns rest) = (s, rest now)
  advance now s (get_ptr_mut key rest) = (s, rest (tracker.get s key))
  advance now s (read key known rest) = (s, rest (live known (tracker.get s key)))
  advance now s (set_seen_reply key seen rest) =
      (update s key (λ v. record v { seen_reply = seen }), rest)
  advance now s (set_timeout key timeout rest) =
      (update s key (λ v. record v { timeout = timeout }), rest)
  advance now s (insert key v rest) = ((tracker.insert s key v bpf_noexist).1, rest)

  -- A run with nothing in between.
  pub run : {A : Type 0} → ℕ → S → Access A → S × A
  unfolding update
  run now s (return a) = (s, a)
  run now s (bpf_ktime_get_coarse_ns rest) = run now s (rest now)
  run now s (get_ptr_mut key rest) = run now s (rest (tracker.get s key))
  run now s (read key known rest) = run now s (rest (live known (tracker.get s key)))
  run now s (set_seen_reply key seen rest) =
      run now (update s key (λ v. record v { seen_reply = seen })) rest
  run now s (set_timeout key timeout rest) =
      run now (update s key (λ v. record v { timeout = timeout })) rest
  run now s (insert key v rest) = run now (tracker.insert s key v bpf_noexist).1 rest
