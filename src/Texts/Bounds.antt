-- ===== src/Texts/Bounds.antt =====
-- What is parsed fits its type.
use Prim.Native.Char.{code}
use Prim.Native.String.{String, [], ◌∷◌}
use xdp_natd.Base.{ℕ, ◌+◌, ◌-◌, ◌*◌, ◌^◌, ◌<◌, ◌≡◌, refl, some, none, Option, arith}
use xdp_natd.Texts.Decimal.{digits, parse}
use xdp_natd.Texts.Address.{octet, quad, octets, parse_ipv4}
use xdp_natd.Texts.Split.{split, four}

digits-lt : (limit : ℕ) (s : String) (n m : ℕ) → n < limit → digits limit s n ≡ some m → m < limit
digits-lt limit [] n m h e = ground arith
digits-lt limit (c ∷ s) n m h e = ground (arith, digits-lt limit s (n * 10 + (code c - 48)) m)

pub parse-lt : (limit : ℕ) (s : String) (n : ℕ) → 0 < limit → parse limit s ≡ some n → n < limit
parse-lt limit [] n h e = ground arith
parse-lt limit (c ∷ []) n h e = digits-lt limit (c ∷ []) 0 n h e
parse-lt limit (c ∷ (d ∷ s)) n h e =
    ground (arith, digits-lt limit (d ∷ s) 0 n h, digits-lt limit (c ∷ (d ∷ s)) 0 n h)

octet-lt : (s : String) (n : ℕ) → octet s ≡ some n → n < 256
octet-lt [] n e = ground arith
octet-lt (c ∷ []) n e = digits-lt 256 (c ∷ []) 0 n (omega arith) e
octet-lt (c ∷ (d ∷ s)) n e = ground (arith, digits-lt 256 (c ∷ (d ∷ s)) 0 n)

quad-lt :
    (a b c d : Option ℕ) (n : ℕ)
    → ((m : ℕ) → a ≡ some m → m < 256)
    → ((m : ℕ) → b ≡ some m → m < 256)
    → ((m : ℕ) → c ≡ some m → m < 256)
    → ((m : ℕ) → d ≡ some m → m < 256)
    → quad a b c d ≡ some n
    → n < 2 ^ 32
quad-lt (some a) (some b) (some c) (some d) n ha hb hc hd e =
    ground (arith, ha a refl, hb b refl, hc c refl, hd d refl)
quad-lt _ _ _ _ n ha hb hc hd e = ground arith

octets-lt :
    (parts : Option (String × String × String × String)) (n : ℕ)
    → octets parts ≡ some n
    → n < 2 ^ 32
octets-lt none n e = ground arith
octets-lt (some (a, b, c, d)) n e =
    quad-lt (octet a) (octet b) (octet c) (octet d) n (octet-lt a) (octet-lt b) (octet-lt c)
      (octet-lt d) e

pub parse_ipv4-lt : (s : String) (n : ℕ) → parse_ipv4 s ≡ some n → n < 2 ^ 32
parse_ipv4-lt s n e = octets-lt (four (split b'.' s)) n e
