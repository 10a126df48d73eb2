-- ===== src/Xdp/Guards.antt =====
-- Which packets the programs touch, and that they stay inside the packet.
use mathlib.Core.Option
use xdp_natd.Base.{
  ok, ℕ, ◌+◌, ◌%◌, ◌^◌, ◌≤◌, ◌≡◌, refl, ap, ◌∙◌, ◌⊎◌, inl, inr, Option, none, some, arith,
}
use xdp_natd.Base.Bits.{bit_and_ones}
use xdp_natd.Common.{ConnectionTuple, ContainerInfo, FlowState, NatData}
use xdp_natd.Word.{be16, be32}
use xdp_natd.BpfMap.{BpfMap}
use xdp_natd.Frame.{Frame, ether_type_ipv4, ip_proto_udp}
use xdp_natd.Kernel.{Kernel, xdp_pass, xdp_redirect}
use xdp_natd.Xdp.{
  Flags, snat, dnat, Machine, NatResult, snat_open, dnat_open, process, send, try_xdp_redirect,
  xdp_redirect_containers, xdp_redirect_host, unwrap_or_aborted, snat_tracked, dnat_tracked,
  code_of,
}
use xdp_natd.Xdp.Cases.{snat_cases, dnat_cases}

-- A whole UDP header behind an IPv4 header with no options, in a packet that is no fragment.
pub record IsTranslatable (k : Kernel) (f : Frame) : Type 0 where
  pub whole : f.start + 42 ≤ f.end
  pub is_ipv4 : f.eth.ether_type ≡ be16 k.endian ether_type_ipv4
  pub is_udp : f.ipv4.proto ≡ ip_proto_udp
  pub no_options : f.ipv4.vihl % 2 ^ 4 ≡ 5
  pub no_fragment : be16 k.endian f.ipv4.frags % 2 ^ 14 ≡ 0

IsTranslatable-dec : (k : Kernel) (f : Frame) → Dec (IsTranslatable k f)
IsTranslatable-dec k f = ground arith

module _ {S E : Type 0} (tracker : BpfMap ConnectionTuple FlowState S)
    (exposed : BpfMap ℕ ContainerInfo E) (k : Kernel) (m : Machine S E) where
  -- A packet that is translatable goes through the routine for its direction, with its addresses in
  -- host order, and on to the redirection; every other packet is passed to the kernel's own stack,
  -- with the packet and all maps as they were.
  pub try_xdp_redirect_guards :
      (flag : Flags)
      → (IsTranslatable k m.frame
          × (try_xdp_redirect tracker exposed k m flag
              ≡ some (
                  send tracker exposed k m (
                    process tracker exposed k m flag
                      (be32 k.endian m.frame.ipv4.src_addr)
                      (be32 k.endian m.frame.ipv4.dst_addr)))))
        ⊎ ((¬ IsTranslatable k m.frame)
            × (try_xdp_redirect tracker exposed k m flag ≡ some (ok xdp_pass, m)))
  unfolding try_xdp_redirect
  try_xdp_redirect_guards flag = elim (IsTranslatable-dec k m.frame) [
    | yes t ↦ inl (
      t,
      ground (
        arith,
        bit_and_ones 4 m.frame.ipv4.vihl,
        bit_and_ones 14 (be16 k.endian m.frame.ipv4.frags),
      ),
    )
    | no other ↦ inr (
      other,
      ground (
        arith,
        bit_and_ones 4 m.frame.ipv4.vihl,
        bit_and_ones 14 (be16 k.endian m.frame.ipv4.frags),
        other,
      ),
    )
  ]

  -- A routine leaves everything as it was, or gives a translation; it never fails.
  abbrev pub Settles : NatResult S E → Type 0
  Settles r =
      (r ≡ (ok none, m)) ⊎ ((nat : NatData) × (m' : Machine S E) × (r ≡ (ok (some nat), m')))

  pub process-Settles :
      (flag : Flags) (src_ip dst_ip : ℕ) → Settles (process tracker exposed k m flag src_ip dst_ip)
  unfolding process snat_tracked snat_open dnat_tracked dnat_open
  process-Settles snat src_ip dst_ip =
      snat_cases tracker exposed k m src_ip dst_ip Settles (inl refl) (λ state _. inr (_, _, refl))
        (λ _ nic fib _ _. inr (_, _, refl))
  process-Settles dnat src_ip dst_ip =
      dnat_cases tracker exposed k m src_ip dst_ip Settles (inl refl) (λ state _. inr (_, _, refl))
        (λ _ info fib _ _. inr (_, _, refl))

  pub try_xdp_redirect_ways :
      (flag : Flags)
      → (try_xdp_redirect tracker exposed k m flag ≡ some (ok xdp_pass, m))
        ⊎ (try_xdp_redirect tracker exposed k m flag
            ≡ some (
                send tracker exposed k m (
                  process tracker exposed k m flag
                    (be32 k.endian m.frame.ipv4.src_addr)
                    (be32 k.endian m.frame.ipv4.dst_addr))))
  unfolding try_xdp_redirect
  try_xdp_redirect_ways flag = ground arith

  -- A run never reaches beyond the packet and never aborts: it passes the packet on with nothing
  -- changed, or returns what REDIRECT_MAP says of the key of a translation.
  pub try_xdp_redirect_total :
      (flag : Flags)
      → (try_xdp_redirect tracker exposed k m flag ≡ some (ok xdp_pass, m))
        ⊎ ((nat : NatData) × (m' : Machine S E) × (try_xdp_redirect tracker exposed k m flag
              ≡ some (ok (code_of tracker exposed k m (k.redirect nat.devmap_key xdp_pass)), m')))
  unfolding send
  try_xdp_redirect_total flag = elim (try_xdp_redirect_ways flag) [
    | inl passed ↦ inl passed
    | inr sent ↦ elim (process-Settles flag _ _) [
      | inl none_found ↦ inl (sent ∙ ap (λ r. some (send tracker exposed k m r)) none_found)
      | inr (nat, m', found) ↦
          inr (nat, _, sent ∙ ap (λ r. some (send tracker exposed k m r)) found)
    ]
  ]

  -- What the kernel documents of a redirection: XDP_REDIRECT, or the two low bits of the flags.
  abbrev pub IsRedirect : Type 0
  IsRedirect =
      (key flags : ℕ)
      → (code_of tracker exposed k m (k.redirect key flags) ≡ xdp_redirect)
        ⊎ (code_of tracker exposed k m (k.redirect key flags) ≡ flags % 2 ^ 2)

  -- A program that ends by passing or redirecting the packet.
  abbrev pub PassesOrRedirects : Option (ℕ × Machine S E) → Type 0
  PassesOrRedirects r =
      (code : ℕ) × (m' : Machine S E) × (r ≡ some (code, m'))
      × ((code ≡ xdp_pass) ⊎ (code ≡ xdp_redirect))

  -- If a redirection returns XDP_REDIRECT or the two low bits of its flags, as the kernel
  -- documents, then both programs end on every packet, refer to nothing beyond its end, and return
  -- XDP_PASS or XDP_REDIRECT.
  pub xdp_redirect_total :
      IsRedirect
      → PassesOrRedirects (xdp_redirect_containers tracker exposed k m)
        × PassesOrRedirects (xdp_redirect_host tracker exposed k m)
  unfolding xdp_redirect_containers xdp_redirect_host
  xdp_redirect_total documented = (ends snat, ends dnat)
    where
      ends :
          (flag : Flags)
          → PassesOrRedirects (
              Option.map
                (unwrap_or_aborted tracker exposed k m)
                (try_xdp_redirect tracker exposed k m flag))
      ends flag = elim (try_xdp_redirect_total flag) [
        | inl passed ↦
            (xdp_pass, m, ap (Option.map (unwrap_or_aborted tracker exposed k m)) passed, inl refl)
        | inr (nat, m', sent) ↦ (
          code_of tracker exposed k m (k.redirect nat.devmap_key xdp_pass),
          m',
          ap (Option.map (unwrap_or_aborted tracker exposed k m)) sent,
          ground (arith, documented nat.devmap_key xdp_pass),
        )
      ]
