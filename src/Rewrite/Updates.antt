-- ===== src/Rewrite/Updates.antt =====
-- What apply_ip_snat and apply_ip_dnat do to the checksums that they are given.
use xdp_natd.Base.{ℕ, ◌+◌, ◌/◌, ◌%◌, ◌^◌, ◌<◌, ◌≡◌, ◌≢◌, refl, arith, ◌↔◌}
use xdp_natd.Common.{NatData}
use xdp_natd.Word.{Endian, be16, be32, be16-lt, be32-lt}
use xdp_natd.Checksum.{csum_replace4}
use xdp_natd.Checksum.Fold.{ones}
use xdp_natd.Checksum.Replace.{csum_replace4-Verifies}
use xdp_natd.Rewrite.{Words, never_zero, apply_ip_dnat, apply_ip_snat}
use xdp_natd.Rewrite.Sums.{IsNat, replace_both, udp_update}

-- What the routine leaves in the words, on both of its branches.
apply_ip_snat_words :
    (e : Endian) (nat : NatData) (w : Words)
    → let r = apply_ip_snat e nat w in
      (r.ip_check ≡ csum_replace4 w.ip_check w.addr (be32 e nat.nat_addr))
      × (r.addr ≡ be32 e nat.nat_addr)
      × (w.udp_check ≡ 0 → (r.udp_check ≡ 0) × (r.port ≡ w.port))
      × (w.udp_check ≢ 0
          → (r.udp_check
              ≡ never_zero (
                  replace_both w.udp_check w.port
                    (be16 e nat.nat_port)
                    w.addr
                    (be32 e nat.nat_addr)))
            × (r.port ≡ be16 e nat.nat_port))
unfolding apply_ip_snat
apply_ip_snat_words e nat w = ground arith

-- The routine for DNAT does to its words what the one for SNAT does to its own.
pub apply_ip_dnat-apply_ip_snat :
    (e : Endian) (nat : NatData) (w : Words) → apply_ip_dnat e nat w ≡ apply_ip_snat e nat w
unfolding apply_ip_dnat apply_ip_snat
apply_ip_dnat-apply_ip_snat e nat w = refl

-- A UDP checksum of 0 means that there is none: it stays 0, and no other becomes 0.
pub apply_ip_snat-unused :
    (e : Endian) (nat : NatData) (w : Words)
    → (w.udp_check ≡ 0) ↔ ((apply_ip_snat e nat w).udp_check ≡ 0)
unfolding apply_ip_snat
apply_ip_snat-unused e nat w = ground arith

-- The words fit their widths.
pub record Fit (w : Words) : Type 0 where
  pub ip_check : w.ip_check < 2 ^ 16
  pub udp_check : w.udp_check < 2 ^ 16
  pub addr : w.addr < 2 ^ 32
  pub port : w.port < 2 ^ 16

-- The checksums of words that stand beside the sums of all else that they cover.
module _ (e : Endian) (nat : NatData) (w : Words) (ip_rest udp_rest : ℕ) where
  abbrev pub after : Words
  after = apply_ip_snat e nat w

  pub apply_ip_snat-ip :
      IsNat nat
      → Fit w
      → 0 < ip_rest
      → ones (w.ip_check + (w.addr / 2 ^ 16 + w.addr % 2 ^ 16) + ip_rest) ≡ 0xffff
      → ones (after.ip_check + (after.addr / 2 ^ 16 + after.addr % 2 ^ 16) + ip_rest) ≡ 0xffff
  apply_ip_snat-ip n v pos h =
      rw ((apply_ip_snat_words e nat w).0, (apply_ip_snat_words e nat w).1)
        (csum_replace4-Verifies w.ip_check w.addr (be32 e nat.nat_addr) ip_rest v.ip_check v.addr
          (be32-lt e nat.nat_addr n.addr) pos h)

  pub apply_ip_snat-udp :
      IsNat nat
      → Fit w
      → 0 < udp_rest
      → w.udp_check ≢ 0
      → ones (w.udp_check + w.port + (w.addr / 2 ^ 16 + w.addr % 2 ^ 16 + udp_rest)) ≡ 0xffff
      → ones
          (after.udp_check + (after.port + (after.addr / 2 ^ 16 + after.addr % 2 ^ 16) + udp_rest))
        ≡ 0xffff
  apply_ip_snat-udp n v pos ne h =
      rw ((changed ne).0, (changed ne).1, (apply_ip_snat_words e nat w).1)
        (udp_update w.udp_check w.port (be16 e nat.nat_port) w.addr (be32 e nat.nat_addr) udp_rest
          v.udp_check v.port (be16-lt e nat.nat_port n.port) v.addr (be32-lt e nat.nat_addr n.addr)
          pos h)
    where
      open apply_ip_snat_words e nat w use {«3» as changed}
