-- ===== src/Rewrite/Verifies.antt =====
-- A translated packet still verifies: the routines' words against all that the checksums cover.
use xdp_natd.Base.{ℕ, ◌<◌, ◌≡◌, arith, sum, ◌⊎◌, inl, inr, ◌↔◌, ℕ_discrete}
use xdp_natd.Common.{NatData}
use xdp_natd.Word.{Endian}
use xdp_natd.Checksum.Replace.{Verifies}
use xdp_natd.Frame.{Frame}
use xdp_natd.Rewrite.{Words, apply_ip_dnat, apply_ip_snat, snat_frame, dnat_frame}
use xdp_natd.Rewrite.Sums.{
  ip_words, udp_words, FitsWidths, IsNat, pair_proto_pos, pair_pos, regroup,
}
use xdp_natd.Rewrite.Updates.{Fit, apply_ip_snat-unused, apply_ip_snat-ip, apply_ip_snat-udp}

-- The IPv4 header verifies, and so does the UDP checksum if it is in use.
abbrev pub PassesChecksums : Endian → Frame → Type 0
PassesChecksums e f = Verifies (ip_words e f.ipv4) × ((f.udp.check ≡ 0) ⊎ Verifies (udp_words e f))

in_use {ℓ κ} : {A : Type ℓ} {B : Type κ} → A ⊎ B → ¬ A → B
in_use (inl a) h = absurd (h a)
in_use (inr b) h = b

-- The sums of what source translation leaves alone.
module _ (e : Endian) (f : Frame) where
  abbrev snat_words : Words
  snat_words = record {
    ip_check = f.ipv4.check;
    udp_check = f.udp.check;
    addr = f.ipv4.src_addr;
    port = f.udp.source;
  }

  abbrev snat_ip_rest : ℕ
  snat_ip_rest = sum (ip_words e (record f.ipv4 { check = 0; src_addr = 0 }))

  abbrev snat_udp_rest : ℕ
  snat_udp_rest = sum (
      udp_words e (record f {
        ipv4 = record f.ipv4 { src_addr = 0 };
        udp = record f.udp { check = 0; source = 0 };
      }))

-- If a packet's fields and the translation fit their widths, its first byte and its protocol are
-- not 0, its IPv4 header verifies and so does its UDP checksum if it is in use, then all of that
-- verifies after source translation, and the UDP checksum is in use just if it was before.
pub snat_frame-Verifies :
    (e : Endian) (nat : NatData) (f : Frame)
    → FitsWidths f
    → IsNat nat
    → 0 < f.ipv4.vihl
    → 0 < f.ipv4.proto
    → PassesChecksums e f
    → PassesChecksums e (snat_frame e nat f)
      × ((f.udp.check ≡ 0) ↔ ((snat_frame e nat f).udp.check ≡ 0))
unfolding snat_frame apply_ip_snat
snat_frame-Verifies e nat f v n ver proto (ip, udp) = (
  (
    regroup _ _ (omega arith) (
        apply_ip_snat-ip e nat w ip_rest udp_rest n fit
          (omega (arith, pair_pos e f.ipv4.vihl f.ipv4.tos ver)) (regroup _ _ (omega arith) ip)),
    elim (ℕ_discrete f.udp.check 0) [
      | yes unused ↦ inl ((apply_ip_snat-unused e nat w).0 unused)
      | no used ↦ inr (
          regroup _ _ (omega arith) (
            apply_ip_snat-udp e nat w ip_rest udp_rest n fit
              (omega (arith, pair_proto_pos e f.ipv4.proto proto)) used
              (regroup _ _ (omega arith) (in_use udp used))))
    ],
  ),
  apply_ip_snat-unused e nat w,
)
  where
    w : Words
    w = snat_words e f

    ip_rest : ℕ
    ip_rest = snat_ip_rest e f

    udp_rest : ℕ
    udp_rest = snat_udp_rest e f

    fit : Fit w
    fit = record {
      ip_check = v.ip_check;
      udp_check = v.udp_check;
      addr = v.src_addr;
      port = v.source;
    }

-- The sums of what destination translation leaves alone.
module _ (e : Endian) (f : Frame) where
  abbrev dnat_words : Words
  dnat_words = record {
    ip_check = f.ipv4.check;
    udp_check = f.udp.check;
    addr = f.ipv4.dst_addr;
    port = f.udp.dest;
  }

  abbrev dnat_ip_rest : ℕ
  dnat_ip_rest = sum (ip_words e (record f.ipv4 { check = 0; dst_addr = 0 }))

  abbrev dnat_udp_rest : ℕ
  dnat_udp_rest = sum (
      udp_words e (record f {
        ipv4 = record f.ipv4 { dst_addr = 0 };
        udp = record f.udp { check = 0; dest = 0 };
      }))

-- If a packet's fields and the translation fit their widths, its first byte and its protocol are
-- not 0, its IPv4 header verifies and so does its UDP checksum if it is in use, then all of that
-- verifies after destination translation, and the UDP checksum is in use just if it was before.
pub dnat_frame-Verifies :
    (e : Endian) (nat : NatData) (f : Frame)
    → FitsWidths f
    → IsNat nat
    → 0 < f.ipv4.vihl
    → 0 < f.ipv4.proto
    → PassesChecksums e f
    → PassesChecksums e (dnat_frame e nat f)
      × ((f.udp.check ≡ 0) ↔ ((dnat_frame e nat f).udp.check ≡ 0))
unfolding dnat_frame apply_ip_dnat apply_ip_snat
dnat_frame-Verifies e nat f v n ver proto (ip, udp) = (
  (
    regroup _ _ (omega arith) (
        apply_ip_snat-ip e nat w ip_rest udp_rest n fit
          (omega (arith, pair_pos e f.ipv4.vihl f.ipv4.tos ver)) (regroup _ _ (omega arith) ip)),
    elim (ℕ_discrete f.udp.check 0) [
      | yes unused ↦ inl ((apply_ip_snat-unused e nat w).0 unused)
      | no used ↦ inr (
          regroup _ _ (omega arith) (
            apply_ip_snat-udp e nat w ip_rest udp_rest n fit
              (omega (arith, pair_proto_pos e f.ipv4.proto proto)) used
              (regroup _ _ (omega arith) (in_use udp used))))
    ],
  ),
  apply_ip_snat-unused e nat w,
)
  where
    w : Words
    w = dnat_words e f

    ip_rest : ℕ
    ip_rest = dnat_ip_rest e f

    udp_rest : ℕ
    udp_rest = dnat_udp_rest e f

    fit : Fit w
    fit = record {
      ip_check = v.ip_check;
      udp_check = v.udp_check;
      addr = v.dst_addr;
      port = v.dest;
    }
