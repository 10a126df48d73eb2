-- ===== src/Lib.antt =====
-- xdp-natd: network address translation for containers' UDP traffic by XDP programs, with a daemon
-- that loads them, forgets idle flows and exposes containers' ports on request.
--
-- The parts and how they interact. The kernel programs (xdp-natd-ebpf) run once for each packet:
-- one on the containers' devices, for source translation, one on the host's device, for destination
-- translation. They share the map UDP_CONNTRACK, which holds one entry for each direction of a flow
-- under the connection tuple that a packet of that direction has. The first packet of a flow asks
-- the kernel for a route and inserts both entries; a later one is translated by its entry, and
-- refreshes the timeouts of both. The daemon (xdp-natd) removes the entries that have timed out
-- every 30 s, and its HTTP handlers fill EXPOSE_MAP, by which the host's program finds the
-- container of a new flow, while a rule of iptables does the same for TCP.
--
-- Which file models what (paths from the repository's root):
--   Common         xdp-natd-common/src/lib.rs: the structures that both sides share
--   Configuration  xdp-natd/src/configuration: the structures, Environment, get_configuration
--   Word           integer operations of the language: to_be, from_be, !, >>, wrapping_add
--   Checksum       xdp-natd-ebpf/src/helpers.rs: csum_add, csum_fold, csum_replace4
--   Rewrite        helpers.rs: apply_ip_dnat, apply_ip_snat, rewrite_macs, with the calls' arguments
--   Kernel         helpers.rs: do_fib_lookup, get_fib_macs; the helpers of the kernel
--   Logging        helpers.rs: log_fib_lookup, log_mac_address_change
--   Frame          the packet and its headers
--   Flow           xdp-natd-ebpf/src/main.rs: the lazy timeout, `match state.direction`
--   Conntrack      main.rs: the changes that the two routines make to UDP_CONNTRACK
--   Xdp            main.rs: try_xdp_redirect, process_udp_snat, process_udp_dnat and the programs
--   BpfMap         the maps of the kernel as the code reaches them
--   Reaper         xdp-natd/src/main.rs: get_nsecs and the task of setup_pnic
--   PortAllocator  xdp-natd/src/port_allocator.rs
--   Containers     xdp-natd/src/lib.rs: ContainerMetadata, ContainerMap
--   Discovery      xdp-natd/src/main.rs: get_containers
--   Iptables       xdp-natd/src/api/expose.rs: add_iptables_rule, remove_iptables_rule;
--                  clean_up of xdp-natd/src/main.rs; what iptables documents is in Iptables.Chain
--   Api            xdp-natd/src/api: the handlers, their errors and responses, the table of routes
--                  (Api.Router); what they promise is in Api.Contract, and how TCP and UDP go
--                  together in Api.Mirrors; the texts that a client reads are in Api.Answers
--   Texts          the language's strings: trim, split, split_once, to_lowercase, and numbers and
--                  IPv4 addresses parsed and printed
--   Setup          xdp-natd/src/main.rs: from parse_xdp_mode to setup_pnic, main (Setup.Start) and
--                  attach_namespace_pass_programs (Setup.Stubs)
--   Serving        the start, and any requests after it; with get_containers before it in
--                  Serving.Network
--   Telemetry      xdp-natd/src/telemetry.rs
--   Main           xdp-natd/src/main.rs: main; start_server of xdp-natd/src/api/server.rs
--   Concurrent     main.rs: the two routines as their accesses to UDP_CONNTRACK, and processors that
--                  run them at once (Concurrent.Processors)
--   Exposure       expose_port and unexpose_port together with the host's program
--   System         packets, the reaper's task and the handlers as steps in any order; a flow along
--                  them in System.Lifetime, an answer in System.Delivery, an exposed port in
--                  System.Exposed, a withdrawn one in System.Withdrawn
--   Base           shared names and lemmas
--   Tests          concrete data, and the theorems at it
--
-- How the code is modelled. A program's run is a function of the packet and the maps (Xdp.Machine)
-- to a return code, the packet and the maps; `none` stands for a reference beyond the packet's end.
-- A packet is one step in Xdp and in System, which interleaves packets with the reaper's walks and
-- single removals and with requests. Concurrent takes the steps apart: there a run is a tree of its
-- accesses to UDP_CONNTRACK (a look-up, a reading of the clock, a read of or a store to a field, an
-- insertion), and processors, the clock and the reaper interleave them. Each field is read where
-- the code reads it, through the pointer of the look-up, except that the timeout is read once and
-- in either direction. Of an entry that has gone since, a read gives what the run knew of it last,
-- and a store is lost; that the kernel may give the room of such an entry to another flow is not
-- modelled. A header field of two or four bytes is the number that a load in the machine's byte
-- order gives, and the byte order is a parameter (Word.Endian), so the conversions to_be and
-- from_be are written where the code writes them. A u16, u32 or u64 is a number, with its
-- wrap-around written out; that a field fits its width is a hypothesis where it matters. The write
-- lock makes a handler one step, on the daemon's state and the state of iptables. The text of an
-- answer is what the client reads (Api.Answers); the messages of inner errors stay in the daemon
-- and are kept as what they name. The server of main goes on after the signal: the requests that it
-- answers before and after the flush of the clean-up are arguments. All loops are over lists and
-- texts; only the printing of a number recurses on fuel, one more than the number, which every
-- digit but the last makes smaller (Texts.Decimal).
--
-- What is a parameter. A BPF map (BpfMap.BpfMap) is its operations with what bpf(2) documents of
-- them; BpfMap.Assoc gives one. The kernel's route lookup, clock and redirection (Kernel.Kernel)
-- are functions, and so are the command iptables (Iptables.Iptables, with the laws that it
-- documents in Iptables.Chain.Chain), Docker, the host's interfaces and the parser of MAC addresses
-- (Discovery.Docker), the merging of configuration (Configuration.Sources), the loader and the list
-- of addresses (Setup.Platform), the network namespaces (Setup.Stubs.Namespaces), the file of
-- reserved ports (Setup.Start.ReservedPorts), the matching of paths and the reading of bodies
-- (Api.Router.Axum), the loggers (Telemetry.Tracing), and the object, the socket and the signals
-- (Main.Process). A record called Fits or HasRoom says that the table had room for a flow.
--
-- What is not modelled: the logger of the kernel programs (setup_ebpf_logging), which only passes
-- their messages on, the log lines and spans of the daemon, the build scripts, and the test bed.
pub mod Base
pub mod Common
pub mod Configuration
pub mod Word
pub mod BpfMap
pub mod Frame
pub mod Rewrite
pub mod Kernel
pub mod Logging
pub mod Flow
pub mod Conntrack
pub mod Xdp
pub mod Reaper
pub mod PortAllocator
pub mod Containers
pub mod Discovery
pub mod Iptables
pub mod Api
pub mod Checksum
pub mod Texts
pub mod Setup
pub mod Exposure
pub mod Serving
pub mod Telemetry
pub mod Main
pub mod Concurrent
pub mod System
pub mod Tests
