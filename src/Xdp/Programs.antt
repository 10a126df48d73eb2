-- ===== src/Xdp/Programs.antt =====
-- The two programs on a packet that is translated: what they return and leave.
use mathlib.Core.Option
use xdp_natd.Base.{ok, none, ℕ, ◌≡◌, refl, ap, ◌∙◌, inl, inr, some}
use xdp_natd.Common.{ConnectionTuple, ContainerInfo, FlowState, NatData}
use xdp_natd.BpfMap.{BpfMap}
use xdp_natd.Rewrite.{rewrite_macs}
use xdp_natd.Kernel.{Kernel, xdp_pass}
use xdp_natd.Xdp.{
  Machine, NatResult, Flags, snat, dnat, process, send, code_of, try_xdp_redirect,
  xdp_redirect_containers, xdp_redirect_host, unwrap_or_aborted,
}
use xdp_natd.Xdp.Guards.{IsTranslatable, try_xdp_redirect_guards}
use xdp_natd.Xdp.Paths.{src_ip, dst_ip, outbound, inbound}

module _ {S E : Type 0} (tracker : BpfMap ConnectionTuple FlowState S)
    (exposed : BpfMap ℕ ContainerInfo E) (k : Kernel) (m : Machine S E) where
  -- The packet as a translation's device is to send it.
  abbrev pub addressed : NatData → Machine S E → Machine S E
  addressed nat m' = record m' {
    frame = record m'.frame { eth = rewrite_macs nat.fib_macs m'.frame.eth };
  }

  -- What the map of devices says of a translation's key.
  abbrev pub verdict : NatData → ℕ
  verdict nat = code_of tracker exposed k m (k.redirect nat.devmap_key xdp_pass)

  translated :
      (flag : Flags) (r : NatResult S E) (nat : NatData)
      → IsTranslatable k m.frame
      → process tracker exposed k m flag (src_ip tracker exposed k m) (dst_ip tracker exposed k m)
        ≡ r
      → r.0 ≡ ok (some nat)
      → Option.map
          (unwrap_or_aborted tracker exposed k m)
          (try_xdp_redirect tracker exposed k m flag)
        ≡ some (verdict nat, addressed nat r.1)
  unfolding send
  translated flag (o, m') nat t e found = elim (try_xdp_redirect_guards tracker exposed k m flag) [
    | inl (_, went) ↦ rw (went, e, found, send) refl
    | inr (other, _) ↦ absurd (other t)
  ]

  pub containers_translated :
      (nat : NatData)
      → IsTranslatable k m.frame
      → (outbound tracker exposed k m).0 ≡ ok (some nat)
      → xdp_redirect_containers tracker exposed k m
        ≡ some (verdict nat, addressed nat (outbound tracker exposed k m).1)
  unfolding xdp_redirect_containers process
  containers_translated nat t found = translated snat _ nat t refl found

  pub host_translated :
      (nat : NatData)
      → IsTranslatable k m.frame
      → (inbound tracker exposed k m).0 ≡ ok (some nat)
      → xdp_redirect_host tracker exposed k m
        ≡ some (verdict nat, addressed nat (inbound tracker exposed k m).1)
  unfolding xdp_redirect_host process
  host_translated nat t found = translated dnat _ nat t refl found

  -- The same for a device that is known by its key.
  pub containers_sends :
      (nat : NatData) (device : ℕ)
      → IsTranslatable k m.frame
      → (outbound tracker exposed k m).0 ≡ ok (some nat)
      → nat.devmap_key ≡ device
      → xdp_redirect_containers tracker exposed k m
        ≡ some (
          code_of tracker exposed k m (k.redirect device xdp_pass),
          addressed nat (outbound tracker exposed k m).1,
        )
  containers_sends nat device t found key =
      containers_translated nat t found
      ∙ ap
          (λ d. some (
            code_of tracker exposed k m (k.redirect d xdp_pass),
            addressed nat (outbound tracker exposed k m).1,
          ))
          key

  pub host_sends :
      (nat : NatData) (device : ℕ)
      → IsTranslatable k m.frame
      → (inbound tracker exposed k m).0 ≡ ok (some nat)
      → nat.devmap_key ≡ device
      → xdp_redirect_host tracker exposed k m
        ≡ some (
          code_of tracker exposed k m (k.redirect device xdp_pass),
          addressed nat (inbound tracker exposed k m).1,
        )
  host_sends nat device t found key =
      host_translated nat t found
      ∙ ap
          (λ d. some (
            code_of tracker exposed k m (k.redirect d xdp_pass),
            addressed nat (inbound tracker exposed k m).1,
          ))
          key

  -- The table that a translated packet leaves.
  pub containers_left :
      (nat : NatData) (code : ℕ) (m1 : Machine S E)
      → IsTranslatable k m.frame
      → (outbound tracker exposed k m).0 ≡ ok (some nat)
      → xdp_redirect_containers tracker exposed k m ≡ some (code, m1)
      → m1.conntrack ≡ (outbound tracker exposed k m).1.conntrack
  containers_left nat code m1 t found ran = cc (ran, containers_translated nat t found)

  pub host_left :
      (nat : NatData) (code : ℕ) (m1 : Machine S E)
      → IsTranslatable k m.frame
      → (inbound tracker exposed k m).0 ≡ ok (some nat)
      → xdp_redirect_host tracker exposed k m ≡ some (code, m1)
      → m1.conntrack ≡ (inbound tracker exposed k m).1.conntrack
  host_left nat code m1 t found ran = cc (ran, host_translated nat t found)

  pub host_passes :
      IsTranslatable k m.frame
      → inbound tracker exposed k m ≡ (ok none, m)
      → xdp_redirect_host tracker exposed k m ≡ some (xdp_pass, m)
  unfolding xdp_redirect_host process send
  host_passes t e = elim (try_xdp_redirect_guards tracker exposed k m dnat) [
    | inl (_, went) ↦ rw (went, e, send) refl
    | inr (other, _) ↦ absurd (other t)
  ]
