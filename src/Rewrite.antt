-- ===== src/Rewrite.antt =====
-- apply_ip_dnat, apply_ip_snat and rewrite_macs of xdp-natd-ebpf/src/helpers.rs: a packet's address,
-- port and link-layer addresses are replaced, and its checksums updated.
pub mod Sums
pub mod Updates
pub mod Verifies
pub mod ZeroCheck
use xdp_natd.Base.{ℕ, not, ◌==◌, if◌then◌else◌}
use xdp_natd.Common.{FibMacs, NatData}
use xdp_natd.Word.{Endian, be16, be32}
use xdp_natd.Checksum.{csum_replace4}
use xdp_natd.Frame.{Frame, EthHdr}

-- The four words that the routines are given pointers to; no two of them overlap.
pub record Words : Type 0 where
  pub ip_check : ℕ
  pub udp_check : ℕ
  pub addr : ℕ
  pub port : ℕ

abbrev pub never_zero : ℕ → ℕ
never_zero check = if check == 0 then 0xffff else check

pub apply_ip_dnat : Endian → NatData → Words → Words
apply_ip_dnat e nat w =
    let nat_port_be = be16 e nat.nat_port in
    let nat_addr_be = be32 e nat.nat_addr in
    let ported = csum_replace4 w.udp_check w.port nat_port_be in
    let updated : Words = record w {
      udp_check = never_zero (csum_replace4 ported w.addr nat_addr_be);
      port = nat_port_be;
    } in
    let w' : Words = if not (w.udp_check == 0) then updated else w in
    record w' { ip_check = csum_replace4 w'.ip_check w'.addr nat_addr_be; addr = nat_addr_be }

pub apply_ip_snat : Endian → NatData → Words → Words
apply_ip_snat e nat w =
    let nat_port_be = be16 e nat.nat_port in
    let nat_addr_be = be32 e nat.nat_addr in
    let ported = csum_replace4 w.udp_check w.port nat_port_be in
    let updated : Words = record w {
      udp_check = never_zero (csum_replace4 ported w.addr nat_addr_be);
      port = nat_port_be;
    } in
    let w' : Words = if not (w.udp_check == 0) then updated else w in
    record w' { ip_check = csum_replace4 w'.ip_check w'.addr nat_addr_be; addr = nat_addr_be }

-- The calls' arguments and what they leave in the packet: the source's words for SNAT, the
-- destination's for DNAT.
pub snat_frame : Endian → NatData → Frame → Frame
snat_frame e nat f =
    let w = apply_ip_snat e nat (record {
      ip_check = f.ipv4.check;
      udp_check = f.udp.check;
      addr = f.ipv4.src_addr;
      port = f.udp.source;
    }) in
    record f {
      ipv4 = record f.ipv4 { check = w.ip_check; src_addr = w.addr };
      udp = record f.udp { check = w.udp_check; source = w.port };
    }

pub dnat_frame : Endian → NatData → Frame → Frame
dnat_frame e nat f =
    let w = apply_ip_dnat e nat (record {
      ip_check = f.ipv4.check;
      udp_check = f.udp.check;
      addr = f.ipv4.dst_addr;
      port = f.udp.dest;
    }) in
    record f {
      ipv4 = record f.ipv4 { check = w.ip_check; dst_addr = w.addr };
      udp = record f.udp { check = w.udp_check; dest = w.port };
    }

unfoldable pub rewrite_macs : FibMacs → EthHdr → EthHdr
rewrite_macs fib eth = record eth { src_addr = fib.fib_smac; dst_addr = fib.fib_dmac }
