-- ===== src/Xdp/Later.antt =====
-- The table as later packets find it, and the key of a packet with given endpoints.
use xdp_natd.Base.{ℕ, ◌≡◌, refl, ap, ◌∙◌, some, arith}
use xdp_natd.Common.{ConnectionTuple, ContainerInfo, FlowState, connection_tuple}
use xdp_natd.BpfMap.{BpfMap}
use xdp_natd.Rewrite.ZeroCheck.{source_of, dest_of}
use xdp_natd.Kernel.{Kernel}
use xdp_natd.Xdp.{Flags, Machine}
use xdp_natd.Xdp.Stable.{machine_after, run_keeps_translation}
use xdp_natd.Xdp.Paths.{flow_key}

module _ {S E : Type 0} (tracker : BpfMap ConnectionTuple FlowState S)
    (exposed : BpfMap ℕ ContainerInfo E) where
  -- The table after any packets that either program handled.
  pub data Later (s : S) : S → Type 0 where
    now : Later s s
    packet :
        {t : S} (k : Kernel) (m : Machine S E) (flag : Flags)
        → m.conntrack ≡ t
        → Later s t
        → Later s (machine_after tracker exposed k m flag).conntrack

  -- A flow, if it is tracked, is so later, under the same translation.
  abbrev pub Keeps : ConnectionTuple → S → S → Type 0
  Keeps j s u =
      (v : FlowState)
      → tracker.get s j ≡ some v
      → (v' : FlowState) × (tracker.get u j ≡ some v') × (v'.nat ≡ v.nat)

  pub Later-Keeps : {s u : S} (j : ConnectionTuple) → Later s u → Keeps j s u
  Later-Keeps j now v e = (v, e, refl)
  Later-Keeps j (packet k m flag at_t before) v e =
      let (v', e', same) = Later-Keeps j before v e in
      let (v'', e'', same', _) =
        run_keeps_translation tracker exposed k m flag j v' (ap (λ t. tracker.get t j) at_t ∙ e') in
      (v'', e'', same' ∙ same)

  pub flow_key-eq :
      (k : Kernel) (m : Machine S E) (a b c d : ℕ)
      → source_of k.endian m.frame ≡ (a, c)
      → dest_of k.endian m.frame ≡ (b, d)
      → flow_key tracker exposed k m ≡ connection_tuple a b c d
  flow_key-eq k m a b c d from to = ground arith
