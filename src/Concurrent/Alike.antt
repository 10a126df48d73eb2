-- ===== src/Concurrent/Alike.antt =====
-- A tracked flow's packet, with the flow's translation, whatever happens meanwhile.
use xdp_natd.Base.{ℕ, ◌≤◌, ◌≡◌, ◌≢◌, refl, ap, ◌∙◌, Option, none, some}
use xdp_natd.Common.{ConnectionTuple, ContainerInfo, FlowState, NatData, NicInfo}
use xdp_natd.Word.{be32}
use xdp_natd.BpfMap.{BpfMap}
use xdp_natd.Frame.{Frame}
use xdp_natd.Kernel.{Kernel}
use xdp_natd.Xdp.{Flags}
use xdp_natd.Concurrent.{return, live, Translated, key_of}
use xdp_natd.Concurrent.Ways.{translate, looked_up, looked_up_tracked}
use xdp_natd.Concurrent.Processors.{Processors, Steps, accesses_of, Along, begins}
use xdp_natd.Concurrent.Kept.{Kept}
use xdp_natd.Concurrent.Ends.{EndsWithin, track-EndsWithin, process-EndsWithin}
use xdp_natd.Concurrent.Progress.{Steps-end, Along-map, Along-Kept}

module _ {S E : Type 0} (tracker : BpfMap ConnectionTuple FlowState S)
    (exposed : BpfMap ℕ ContainerInfo E) (i : ℕ) (s t : Processors S) (k : Kernel) (f : Frame)
    (expose : E) (pnic : Option NicInfo) (flag : Flags) (steps : Steps tracker exposed i s t) where
  abbrev key : ConnectionTuple
  key =
      key_of exposed k f expose pnic (be32 k.endian f.ipv4.src_addr) (be32 k.endian f.ipv4.dst_addr)

  Finds : NatData → ConnectionTuple → Option FlowState → Type 0
  Finds nat j found = j ≡ key → (v : FlowState) × (found ≡ some v) × (v.nat ≡ nat)

  Ended : NatData → Translated → Type 0
  Ended nat r = r ≡ (
    some nat,
    translate exposed k f expose pnic (be32 k.endian f.ipv4.src_addr)
        (be32 k.endian f.ipv4.dst_addr) flag nat,
  )

  -- What a pointer to the flow's entry shows is its translation.
  ends :
      {nat : NatData} (known : FlowState) (found : Option FlowState)
      → ((v : FlowState) × (found ≡ some v) × (v.nat ≡ nat))
      → Ended nat (
        some (live known found).nat,
        translate exposed k f expose pnic
            (be32 k.endian f.ipv4.src_addr)
            (be32 k.endian f.ipv4.dst_addr)
            flag
            (live known found).nat,
      )
  unfolding Ended
  ends known found (v, here, same) = rw (here, same) refl

  found-EndsWithin :
      (nat : NatData) (found : Option FlowState)
      → Finds nat key found
      → EndsWithin (Finds nat) (Ended nat) 12 (
          looked_up exposed k f expose pnic
            (be32 k.endian f.ipv4.src_addr)
            (be32 k.endian f.ipv4.dst_addr)
            flag
            found)
  unfolding EndsWithin Ended Finds
  found-EndsWithin nat found finds =
      let (v, here, same) = finds refl in
      looked_up_tracked exposed k f expose pnic _ _ (EndsWithin (Finds nat) (Ended nat) 12) flag v
        found here
        (λ reverse_of time.
          track-EndsWithin (Finds nat) (Ended nat) key reverse_of _
            (λ known again allowed. ends known again (allowed refl)) v time)

  -- A processor begins with a packet whose flow is tracked. After any steps that include thirteen
  -- accesses of its own, with accesses of other processors, passing time, walks and removals in
  -- between, while the flow stays tracked and the processor takes no other packet, its run has
  -- returned the flow's translation and the packet translated by it.
  pub translated_alike :
      (v : FlowState)
      → s.running i ≡ begins tracker exposed k f expose pnic flag
      → 13 ≤ accesses_of tracker exposed steps
      → tracker.get s.conntrack key ≡ some v
      → Along tracker exposed (λ u. tracker.get u.conntrack key ≢ none) steps
      → t.running i
        ≡ return (
          some v.nat,
          translate exposed k f expose pnic
              (be32 k.endian f.ipv4.src_addr)
              (be32 k.endian f.ipv4.dst_addr)
              flag
              v.nat,
        )
  unfolding Finds Ended
  translated_alike v begun enough tracked stays =
      let (r, ended, same) =
        Steps-end tracker (Finds v.nat) (Ended v.nat) exposed i s t steps enough
          (Along-map tracker exposed i (λ u. Kept tracker u.conntrack key v)
            (λ u. (j : ConnectionTuple) → Finds v.nat j (tracker.get u.conntrack j)) s t steps
            (λ u kept j own. let (w, here, nat, direction) = kept in (w, rw own here, nat))
            (Along-Kept tracker exposed i s t steps key v (v, tracked, refl, refl) stays))
          (rw begun (
            process-EndsWithin exposed k f expose pnic _ _ (Finds v.nat) (Ended v.nat) flag
              (λ found allowed. found-EndsWithin v.nat found allowed))) in
      ended ∙ ap return same
