-- ===== src/Kernel.antt =====
-- What the kernel programs call: the helpers of the kernel and of aya-ebpf, which are not part of
-- the repository, as parameters; and do_fib_lookup and get_fib_macs of
-- xdp-natd-ebpf/src/helpers.rs.
use xdp_natd.Base.{ℕ, Result, Option, none, some, ◌==◌, if◌then◌else◌}
use xdp_natd.Common.{MacAddr, FibMacs}
use xdp_natd.Word.{Endian}

-- The fields of `bpf_fib_lookup` that the code sets or reads.
pub record BpfFibLookup : Type 0 where
  pub family : ℕ
  pub l4_protocol : ℕ
  pub tot_len : ℕ
  pub ifindex : ℕ
  pub ipv4_src : ℕ
  pub ipv4_dst : ℕ
  pub smac : MacAddr
  pub dmac : MacAddr

-- One run of a program on one packet. A return code is its bit pattern.
pub record Kernel : Type 0 where
  pub endian : Endian
  -- `bpf_fib_lookup`, with its flags: the return code, and the parameters as it leaves them.
  pub bpf_fib_lookup : BpfFibLookup → ℕ → ℕ × BpfFibLookup
  -- `bpf_ktime_get_coarse_ns`; no path reads it twice.
  pub ktime : ℕ
  -- `REDIRECT_MAP.redirect`, with the key and the flags.
  pub redirect : ℕ → ℕ → Result ℕ ℕ
  pub ingress_ifindex : ℕ

-- Actions of an XDP program, and other numbers of the kernel's interface.
abbrev pub xdp_aborted : ℕ
xdp_aborted = 0

abbrev pub xdp_pass : ℕ
xdp_pass = 2

abbrev pub xdp_redirect : ℕ
xdp_redirect = 4

abbrev pub bpf_fib_lookup_output : ℕ
bpf_fib_lookup_output = 2

abbrev pub af_inet : ℕ
af_inet = 2

abbrev zero_mac : MacAddr
zero_mac = record { byte0 = 0; byte1 = 0; byte2 = 0; byte3 = 0; byte4 = 0; byte5 = 0 }

-- `core::mem::zeroed()`.
abbrev zeroed : BpfFibLookup
zeroed = record {
  family = 0;
  l4_protocol = 0;
  tot_len = 0;
  ifindex = 0;
  ipv4_src = 0;
  ipv4_dst = 0;
  smac = zero_mac;
  dmac = zero_mac;
}

unfoldable pub do_fib_lookup : Kernel → BpfFibLookup → ℕ → ℕ → ℕ → ℕ → ℕ → ℕ × BpfFibLookup
do_fib_lookup k fib proto saddr daddr tot_len ifindex =
    k.bpf_fib_lookup
      (record fib {
        family = af_inet;
        l4_protocol = proto;
        ipv4_src = saddr;
        ipv4_dst = daddr;
        tot_len = tot_len;
        ifindex = ifindex;
      })
      bpf_fib_lookup_output

unfoldable pub get_fib_macs : Kernel → ℕ → ℕ → ℕ → ℕ → ℕ → Option FibMacs
unfolding do_fib_lookup
get_fib_macs k src_ip dst_ip proto tot_len ingress_ifindex =
    let (rc, fib) = do_fib_lookup k zeroed proto src_ip dst_ip tot_len ingress_ifindex in
    if rc == 0 then some (record { fib_smac = fib.smac; fib_dmac = fib.dmac }) else none
