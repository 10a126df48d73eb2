-- ===== src/Tests/Packets.antt =====
-- Checksums, translations and flows at concrete packets.
use xdp_natd.Base.{◌≡◌, ◌≢◌, ◌↔◌, inr, refl, some, arith, ℕ_discrete, [], ◌∷◌, ◌++◌}
use xdp_natd.Common.{
  ConnectionTuple, ConnectionTuple-discrete, connection_tuple, FlowState, flow_state, nat_data,
  NatData, original, reply,
}
use xdp_natd.Word.{little, be16, be32}
use xdp_natd.Checksum.{csum_replace4}
use xdp_natd.Checksum.Replace.{internet_checksum, halves, csum_replace4-internet_checksum}
use xdp_natd.Frame.{Frame}
use xdp_natd.Rewrite.{snat_frame, dnat_frame}
use xdp_natd.Rewrite.Sums.{ip_words, udp_words, FitsWidths, IsNat}
use xdp_natd.Rewrite.Verifies.{PassesChecksums, snat_frame-Verifies, dnat_frame-Verifies}
use xdp_natd.Rewrite.ZeroCheck.{
  source_of, dest_of, snat_frame-source, dnat_frame-dest, dnat_frame_zero_check,
}
use xdp_natd.Flow.{refresh}
use xdp_natd.Flow.Timeout.{IsRefreshed, refresh-IsRefreshed}
use xdp_natd.Conntrack.{track}
use xdp_natd.Conntrack.Timeouts.{InSync, track-InSync}
use xdp_natd.Tests.Data.{Conntrack, tracker, route_macs, container_ip, host_ip, remote_ip, query}

csum_replace4-internet_checksum_example :
    csum_replace4
      (internet_checksum ((69 ∷ []) ++ (halves 0x020011ac ++ (0x1100 ∷ []))))
      0x020011ac
      0x0a00a8c0
    ≡ internet_checksum ((69 ∷ []) ++ (halves 0x0a00a8c0 ++ (0x1100 ∷ [])))
csum_replace4-internet_checksum_example =
    csum_replace4-internet_checksum 0x020011ac 0x0a00a8c0 (69 ∷ []) (0x1100 ∷ []) (ground arith)
      (ground arith) (ground arith)

-- The query with the checksums that its words have.
abbrev checked : Frame
checked = record query {
  ipv4 = record query.ipv4 {
    check = internet_checksum (ip_words little (record query.ipv4 { check = 0 }));
  };
  udp = record query.udp {
    check =
        internet_checksum
          (udp_words little (record query { udp = record query.udp { check = 0 } }));
  };
}

abbrev out : NatData
out = nat_data host_ip 4000 route_macs 0

checked-FitsWidths : FitsWidths checked
checked-FitsWidths = ground arith

out-IsNat : IsNat out
out-IsNat = ground arith

checked-PassesChecksums : PassesChecksums little checked
checked-PassesChecksums = (refl, inr refl)

snat_frame-Verifies_example :
    PassesChecksums little (snat_frame little out checked)
    × ((checked.udp.check ≡ 0) ↔ ((snat_frame little out checked).udp.check ≡ 0))
snat_frame-Verifies_example =
    snat_frame-Verifies little out checked checked-FitsWidths out-IsNat (ground arith)
      (ground arith) checked-PassesChecksums

dnat_frame-Verifies_example :
    PassesChecksums little (dnat_frame little out checked)
    × ((checked.udp.check ≡ 0) ↔ ((dnat_frame little out checked).udp.check ≡ 0))
dnat_frame-Verifies_example =
    dnat_frame-Verifies little out checked checked-FitsWidths out-IsNat (ground arith)
      (ground arith) checked-PassesChecksums

snat_frame-source_example :
    (source_of little (snat_frame little out query) ≡ (host_ip, 4000))
    × (dest_of little (snat_frame little out query) ≡ (remote_ip, 53))
    × ((snat_frame little out query).eth ≡ query.eth)
unfolding be16 be32
snat_frame-source_example = snat_frame-source little out query out-IsNat (ground arith)

dnat_frame-dest_example :
    (dest_of little (dnat_frame little out query) ≡ (host_ip, 4000))
    × (source_of little (dnat_frame little out query) ≡ (container_ip, 4000))
    × ((dnat_frame little out query).eth ≡ query.eth)
unfolding be16 be32
dnat_frame-dest_example = dnat_frame-dest little out query out-IsNat (ground arith)

-- The query without a UDP checksum.
abbrev unchecked : Frame
unchecked = record query { udp = record query.udp { check = 0 } }

unchecked_port : be16 little unchecked.udp.dest ≢ out.nat_port
unfolding be16
unchecked_port = ground arith

dnat_frame_zero_check_example :
    (dest_of little (dnat_frame little out unchecked) ≡ (host_ip, 53))
    × ((dnat_frame little out unchecked).udp.check ≡ 0)
    × (dest_of little (dnat_frame little out unchecked) ≢ (host_ip, 4000))
unfolding be16
dnat_frame_zero_check_example =
    dnat_frame_zero_check little out unchecked out-IsNat refl unchecked_port

abbrev key : ConnectionTuple
key = connection_tuple container_ip remote_ip 4000 53

abbrev reverse : ConnectionTuple
reverse = connection_tuple remote_ip host_ip 53 4000

abbrev flow : FlowState
flow = flow_state out original 30_000_000_000

abbrev answers : FlowState
answers = flow_state (nat_data container_ip 4000 route_macs container_ip) reply 30_000_000_000

refresh-IsRefreshed_example :
    IsRefreshed 5_000_000_000 answers
      (refresh answers 5_000_000_000).1
      (refresh answers 5_000_000_000).0
refresh-IsRefreshed_example =
    refresh-IsRefreshed answers 5_000_000_000 (ground arith) (ground arith)

abbrev table : Conntrack
table = (key, flow) ∷ (reverse, answers) ∷ []

track-InSync_example :
    InSync tracker (track tracker table reverse answers key 5_000_000_000) reverse key
    × (tracker.get (track tracker table reverse answers key 5_000_000_000) reverse
        ≡ some (refresh answers 5_000_000_000).1)
unfolding ConnectionTuple-discrete ℕ_discrete
track-InSync_example =
    track-InSync tracker table reverse key answers flow 5_000_000_000 (ground arith) refl refl refl
      refl
