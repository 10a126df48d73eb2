-- ===== src/Iptables/Rules.antt =====
-- The rules of the chain PREROUTING: what the two calls of iptables mean, and when two rules are one.
use Prim.Native.String.{String}
use xdp_natd.Base.{ℕ, ◌^◌, ◌<◌, ◌≡◌, refl, sym, ap, ◌∙◌, List, [], ◌∷◌, arith}
use xdp_natd.Texts.Decimal
use xdp_natd.Texts.Printed.{show_inj, show-AllDigits, AllDigits-Free_above}
use xdp_natd.Texts.Split.{split, split-onto, split-Free}
use xdp_natd.Texts.Address.{show_ipv4, show_ipv4_onto-onto, show_ipv4-Free, parse_ipv4-show_ipv4}
use xdp_natd.Iptables.{specification, rule, endpoint}

-- A rule has the text of at most one host port.
pub specification-host_port :
    (p i c p' i' c' : ℕ) → specification p i c ≡ specification p' i' c' → p ≡ p'
specification-host_port p i c p' i' c' e = show_inj p p' (cc e)

-- The endpoint is read back from its text.
split-endpoint : (i c : ℕ) → split b':' (endpoint i c) ≡ show_ipv4 i ∷ (Decimal.show c ∷ [])
split-endpoint i c =
    ap (split b':') (show_ipv4_onto-onto i (String.◌∷◌ ":" (Decimal.show c)))
    ∙ split-onto b':' (show_ipv4 i) ":" (Decimal.show c) (show_ipv4-Free b':' i (omega arith)) refl
    ∙ ap (λ (parts : List String). show_ipv4 i ∷ parts)
        (split-Free b':' (Decimal.show c)
          (AllDigits-Free_above b':' (Decimal.show c) (omega arith) (show-AllDigits c)))

endpoint_inj :
    (i c i' c' : ℕ) → i < 2 ^ 32 → i' < 2 ^ 32 → endpoint i c ≡ endpoint i' c' → (i ≡ i') × (c ≡ c')
endpoint_inj i c i' c' h h' e =
    let parts : show_ipv4 i ∷ (Decimal.show c ∷ []) ≡ show_ipv4 i' ∷ (Decimal.show c' ∷ []) =
      sym (split-endpoint i c) ∙ ap (split b':') e ∙ split-endpoint i' c' in
    (cc (parse_ipv4-show_ipv4 i h, parse_ipv4-show_ipv4 i' h', parts), show_inj c c' (cc parts))

-- If the arguments of two calls of iptables are the same, for addresses that fit 32 bits, then so
-- are the action, the host port, the address and the container's port.
pub rule_inj :
    (action action' : String) (p i c p' i' c' : ℕ)
    → i < 2 ^ 32
    → i' < 2 ^ 32
    → rule action p i c ≡ rule action' p' i' c'
    → (action ≡ action') × (p ≡ p') × (i ≡ i') × (c ≡ c')
rule_inj action action' p i c p' i' c' h h' e =
    let (ips, ports) = endpoint_inj i c i' c' h h' (cc e) in (cc, show_inj p p' (cc e), ips, ports)
