-- ===== src/Rewrite/ZeroCheck.antt =====
-- Which endpoint a translated packet carries, and what a datagram without a UDP checksum keeps.
use xdp_natd.Base.{ℕ, ◌≡◌, ◌≢◌, sym, ap, ◌∙◌, arith}
use xdp_natd.Common.{NatData}
use xdp_natd.Word.{Endian, be16, be32, be16-be16, be32-be32}
use xdp_natd.Frame.{Frame}
use xdp_natd.Rewrite.{apply_ip_dnat, apply_ip_snat, snat_frame, dnat_frame}
use xdp_natd.Rewrite.Sums.{IsNat}

-- The source and the destination of a packet, in host order.
abbrev pub source_of : Endian → Frame → ℕ × ℕ
source_of e f = (be32 e f.ipv4.src_addr, be16 e f.udp.source)

abbrev pub dest_of : Endian → Frame → ℕ × ℕ
dest_of e f = (be32 e f.ipv4.dst_addr, be16 e f.udp.dest)

module _ (e : Endian) (nat : NatData) (f : Frame) where
  -- If the translation fits its widths and the UDP checksum is in use, source translation makes the
  -- translation's address and port the packet's source, and keeps its destination and its
  -- link-layer header.
  pub snat_frame-source :
      IsNat nat
      → f.udp.check ≢ 0
      → (source_of e (snat_frame e nat f) ≡ (nat.nat_addr, nat.nat_port))
        × (dest_of e (snat_frame e nat f) ≡ dest_of e f)
        × ((snat_frame e nat f).eth ≡ f.eth)
  unfolding snat_frame apply_ip_snat
  snat_frame-source n used =
      ground (arith, be16-be16 e nat.nat_port n.port, be32-be32 e nat.nat_addr n.addr)

  -- If the translation fits its widths and the UDP checksum is in use, destination translation
  -- makes the translation's address and port the packet's destination, and keeps its source and its
  -- link-layer header.
  pub dnat_frame-dest :
      IsNat nat
      → f.udp.check ≢ 0
      → (dest_of e (dnat_frame e nat f) ≡ (nat.nat_addr, nat.nat_port))
        × (source_of e (dnat_frame e nat f) ≡ source_of e f)
        × ((dnat_frame e nat f).eth ≡ f.eth)
  unfolding dnat_frame apply_ip_dnat
  dnat_frame-dest n used =
      ground (arith, be16-be16 e nat.nat_port n.port, be32-be32 e nat.nat_addr n.addr)

  dest_kept : f.udp.check ≡ 0 → (dnat_frame e nat f).udp.dest ≡ f.udp.dest
  unfolding dnat_frame apply_ip_dnat
  dest_kept unused = ground arith

  -- If a datagram has no UDP checksum (0, which IPv4 allows) and its port is not the translation's,
  -- destination translation gives it the translation's address and leaves it its own port and no
  -- checksum, so its destination is not the translation's.
  pub dnat_frame_zero_check :
      IsNat nat
      → f.udp.check ≡ 0
      → be16 e f.udp.dest ≢ nat.nat_port
      → (dest_of e (dnat_frame e nat f) ≡ (nat.nat_addr, be16 e f.udp.dest))
        × ((dnat_frame e nat f).udp.check ≡ 0)
        × (dest_of e (dnat_frame e nat f) ≢ (nat.nat_addr, nat.nat_port))
  unfolding dnat_frame apply_ip_dnat
  dnat_frame_zero_check n unused differs = (
    ground (arith, be32-be32 e nat.nat_addr n.addr),
    ground (arith, unused),
    λ aimed. differs (ap (be16 e) (sym (dest_kept unused)) ∙ ap (λ (p : ℕ × ℕ). p.1) aimed),
  )
