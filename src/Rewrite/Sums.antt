-- ===== src/Rewrite/Sums.antt =====
-- The words that the checksums of a packet cover, and the updates of those checksums as sums.
use xdp_natd.Base.{ℕ, ◌+◌, ◌*◌, ◌/◌, ◌%◌, ◌^◌, ◌<◌, ◌≡◌, sym, ◌∙◌, arith, List, ◌∷◌, ◌++◌}
use xdp_natd.Common.{NatData}
use xdp_natd.Word.{Endian, little, big}
use xdp_natd.Checksum.{csum_replace4}
use xdp_natd.Checksum.Fold.{ones}
use xdp_natd.Checksum.Replace.{halves, csum_replace4_lem, csum_replace4-Verifies}
use xdp_natd.Frame.{Frame, Ipv4Hdr}
use xdp_natd.Rewrite.{never_zero}

-- Two neighbouring bytes as one word.
abbrev pub pair : Endian → ℕ → ℕ → ℕ
pair little a b = a + 2 ^ 8 * b
pair big a b = 2 ^ 8 * a + b

-- The words of the IPv4 header.
abbrev pub ip_words : Endian → Ipv4Hdr → List ℕ
ip_words e h =
    pair e h.vihl h.tos
      ∷ h.tot_len
      ∷ h.id
      ∷ h.frags
      ∷ pair e h.ttl h.proto
      ∷ h.check
      ∷ halves h.src_addr
    ++ halves h.dst_addr

-- The words that the UDP checksum covers: the pseudo header, the UDP header and the payload.
abbrev pub udp_words : Endian → Frame → List ℕ
udp_words e f =
    f.udp.source
      ∷ f.udp.dest
      ∷ f.udp.len
      ∷ f.udp.check
      ∷ pair e 0 f.ipv4.proto
      ∷ f.udp.len
      ∷ halves f.ipv4.src_addr
    ++ halves f.ipv4.dst_addr
    ++ f.payload

-- The fields that the translation reads fit their widths.
pub record FitsWidths (f : Frame) : Type 0 where
  pub ip_check : f.ipv4.check < 2 ^ 16
  pub src_addr : f.ipv4.src_addr < 2 ^ 32
  pub dst_addr : f.ipv4.dst_addr < 2 ^ 32
  pub udp_check : f.udp.check < 2 ^ 16
  pub source : f.udp.source < 2 ^ 16
  pub dest : f.udp.dest < 2 ^ 16

-- So does the address and port of a translation.
pub record IsNat (nat : NatData) : Type 0 where
  pub addr : nat.nat_addr < 2 ^ 32
  pub port : nat.nat_port < 2 ^ 16

pub never_zero-ones : (c rest : ℕ) → 0 < rest → ones (never_zero c + rest) ≡ ones (c + rest)
never_zero-ones c rest h = ground arith

replace_port :
    (c from to rest : ℕ)
    → c < 2 ^ 16
    → from < 2 ^ 16
    → to < 2 ^ 16
    → 0 < rest
    → ones (c + from + rest) ≡ 0xffff
    → (ones (csum_replace4 c from to + to + rest) ≡ 0xffff) × (csum_replace4 c from to < 2 ^ 16)
replace_port c from to rest hc hf ht pos h = ground (arith, csum_replace4_lem c from to)

pub regroup : (a b : ℕ) → a ≡ b → ones a ≡ 0xffff → ones b ≡ 0xffff
regroup a b e h = rw (sym e) h

-- The two updates of the UDP checksum, and what stands for a result of 0.
module _ (c port port' addr addr' : ℕ) where
  abbrev pub replace_both : ℕ
  replace_both = csum_replace4 (csum_replace4 c port port') addr addr'

  pub udp_update :
      (rest : ℕ)
      → c < 2 ^ 16
      → port < 2 ^ 16
      → port' < 2 ^ 16
      → addr < 2 ^ 32
      → addr' < 2 ^ 32
      → 0 < rest
      → ones (c + port + (addr / 2 ^ 16 + addr % 2 ^ 16 + rest)) ≡ 0xffff
      → ones (never_zero replace_both + (port' + (addr' / 2 ^ 16 + addr' % 2 ^ 16) + rest)) ≡ 0xffff
  udp_update rest hc hp hp' ha ha' pos h =
      never_zero-ones replace_both (port' + (addr' / 2 ^ 16 + addr' % 2 ^ 16) + rest) (omega arith)
      ∙ regroup (replace_both + (addr' / 2 ^ 16 + addr' % 2 ^ 16) + (port' + rest)) _ (omega arith)
          second
    where
      first :
          (ones (csum_replace4 c port port' + port' + (addr / 2 ^ 16 + addr % 2 ^ 16 + rest))
            ≡ 0xffff)
          × (csum_replace4 c port port' < 2 ^ 16)
      first =
          replace_port c port port' (addr / 2 ^ 16 + addr % 2 ^ 16 + rest) hc hp hp' (omega arith) h

      second : ones (replace_both + (addr' / 2 ^ 16 + addr' % 2 ^ 16) + (port' + rest)) ≡ 0xffff
      second =
          csum_replace4-Verifies (csum_replace4 c port port') addr addr' (port' + rest) first.1 ha
            ha' (omega arith) (regroup _ _ (omega arith) first.0)

pub pair_pos : (e : Endian) (a b : ℕ) → 0 < a → 0 < pair e a b
pair_pos little a b h = omega arith
pair_pos big a b h = omega arith

pub pair_proto_pos : (e : Endian) (proto : ℕ) → 0 < proto → 0 < pair e 0 proto
pair_proto_pos little proto h = omega arith
pair_proto_pos big proto h = omega arith
