-- ===== src/Logging.antt =====
-- The debug messages of xdp-natd-ebpf/src/helpers.rs: log_fib_lookup and log_mac_address_change, as the
-- texts that `debug!` makes of its format and its arguments.
use Prim.Native.String.{String, [], ◌∷◌}
use xdp_natd.Base.{ℕ, ◌^◌, ◌<◌, ◌≡◌, ap, ◌∙◌, some, bit_and, refl}
use xdp_natd.Base.Bits.{bit_and_ones}
use xdp_natd.Common.{MacAddr, FibMacs}
use xdp_natd.Word.{◌>>>◌}
use xdp_natd.Texts.Decimal.{show_onto, show}
use xdp_natd.Texts.Split.{onto}
use xdp_natd.Texts.Address.{show_ipv4_onto, parse_ipv4, parse_ipv4-show_ipv4}

-- `{}.{}.{}.{}` of the four bytes, as the code takes them out.
abbrev pub dotted : ℕ → String → String
dotted ip rest = show_onto (bit_and (ip >>> 24) 0xff) (
    "."
    ∷ show_onto (bit_and (ip >>> 16) 0xff)
        ("." ∷ show_onto (bit_and (ip >>> 8) 0xff) ("." ∷ show_onto (bit_and ip 0xff) rest)))

pub log_fib_lookup : ℕ → ℕ → ℕ → ℕ → String
log_fib_lookup src_ip dst_ip tot_len ingress_ifindex = onto "performing fib lookup for src_ip: " (
    dotted src_ip (
      onto " dst_ip: " (
        dotted dst_ip (
          onto " tot_len: "
            (show_onto tot_len (onto " ingress_ifindex: " (show ingress_ifindex)))))))

-- `{}.{}.{}.{}.{}.{}` of a MAC address.
abbrev pub dotted_mac : MacAddr → String → String
dotted_mac mac rest = show_onto mac.byte0 (
    "."
    ∷ show_onto mac.byte1 (
        "."
        ∷ show_onto mac.byte2 (
            "."
            ∷ show_onto mac.byte3 ("." ∷ show_onto mac.byte4 ("." ∷ show_onto mac.byte5 rest)))))

-- The two messages, for the source and for the destination.
pub log_mac_address_change : MacAddr → MacAddr → FibMacs → String × String
log_mac_address_change eth_src_addr eth_dst_addr fib = (
  onto "changing eth src addr from "
      (dotted_mac eth_src_addr (onto " to " (dotted_mac fib.fib_smac []))),
  onto "changing eth dst addr from "
      (dotted_mac eth_dst_addr (onto " to " (dotted_mac fib.fib_dmac []))),
)

-- A message shows an address as it is written, and so it is read back.
dotted-show_ipv4 : (ip : ℕ) (rest : String) → dotted ip rest ≡ show_ipv4_onto ip rest
dotted-show_ipv4 ip rest =
    rw
      (
        bit_and_ones 8 (ip >>> 24),
        bit_and_ones 8 (ip >>> 16),
        bit_and_ones 8 (ip >>> 8),
        bit_and_ones 8 ip,
      )
      refl

parse_ipv4-dotted : (ip : ℕ) → ip < 2 ^ 32 → parse_ipv4 (dotted ip []) ≡ some ip
parse_ipv4-dotted ip h = ap parse_ipv4 (dotted-show_ipv4 ip []) ∙ parse_ipv4-show_ipv4 ip h
