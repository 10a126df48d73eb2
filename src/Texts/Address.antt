-- ===== src/Texts/Address.antt =====
-- IPv4 addresses as text: `Ipv4Addr::from_str` and its `Display`.
use Prim.Native.Char.{Char, code}
use Prim.Native.String.{String, ◌∷◌}
use xdp_natd.Base.{
  ℕ, zero, suc, ◌+◌, ◌*◌, ◌/◌, ◌%◌, ◌^◌, ◌<◌, ◌≡◌, ◌≢◌, refl, subst, ap, ◌∙◌, sym, Option, none,
  some, List, arith, ◌==◌, if◌then◌else◌,
}
use xdp_natd.Texts.Decimal.{digits, digit, digit-code, show_fuel, show_onto, show}
use xdp_natd.Texts.Split.{split, four, onto, Free, onto-Free, split-onto, split-Free}
use xdp_natd.Texts.Printed.{
  show-AllDigits, AllDigits-Free, AllDigits-Free_above, show_onto-onto, digits-show,
}

-- A number below 256 in digits, with no 0 in front of others.
abbrev pub octet : String → Option ℕ
octet String.[] = none
octet (c ∷ String.[]) = digits 256 (c ∷ String.[]) 0
octet (c ∷ (d ∷ s)) = if code c == b'0' then none else digits 256 (c ∷ (d ∷ s)) 0

abbrev pub ipv4 : ℕ → ℕ → ℕ → ℕ → ℕ
ipv4 a b c d = ((a * 256 + b) * 256 + c) * 256 + d

abbrev pub quad : Option ℕ → Option ℕ → Option ℕ → Option ℕ → Option ℕ
quad (some a) (some b) (some c) (some d) = some (ipv4 a b c d)
quad (some a) (some b) (some c) none = none
quad (some a) (some b) none d = none
quad (some a) none c d = none
quad none b c d = none

abbrev pub octets : Option (String × String × String × String) → Option ℕ
octets none = none
octets (some (a, b, c, d)) = quad (octet a) (octet b) (octet c) (octet d)

abbrev pub parse_ipv4 : String → Option ℕ
parse_ipv4 s = octets (four (split b'.' s))

-- The four bytes, and a text behind them.
abbrev pub show_ipv4_onto : ℕ → String → String
show_ipv4_onto n rest = show_onto (n / 2 ^ 24 % 256) (
    "."
    ∷ show_onto (n / 2 ^ 16 % 256)
        ("." ∷ show_onto (n / 2 ^ 8 % 256) ("." ∷ show_onto (n % 256) rest)))

abbrev pub show_ipv4 : ℕ → String
show_ipv4 n = show_ipv4_onto n ""

leading_zero : parse_ipv4 "10.0.07.1" ≡ none
leading_zero = refl

-- The first character is not 0.
abbrev NoZero : String → Type 0
NoZero String.[] = ⊥
NoZero (c ∷ s) = code c ≢ 48

show_fuel-NoZero : (fuel n : ℕ) (s : String) → n < fuel → 0 < n → NoZero (show_fuel fuel n s)
unfolding show_fuel
show_fuel-NoZero zero n s h k = absurd (omega arith)
show_fuel-NoZero (suc fuel) n s h k =
    ground (arith, digit-code n, show_fuel-NoZero fuel (n / 10) (digit (n % 10) ∷ s))

NoZero-octet : (s : String) → NoZero s → octet s ≡ digits 256 s 0
NoZero-octet String.[] h = absurd h
NoZero-octet (c ∷ String.[]) h = refl
NoZero-octet (c ∷ (d ∷ s)) h = ground arith

octet-show : (n : ℕ) → n < 256 → octet (show n) ≡ some n
unfolding show_onto show_fuel
octet-show zero h = refl
octet-show (suc n) h =
    NoZero-octet (show (suc n))
      (show_fuel-NoZero (suc (suc n)) (suc n) "" (omega arith) (omega arith))
    ∙ digits-show 256 (suc n) h

module _ (at : ℕ) (low : at < 48) where
  -- Printing a number, and a text behind it that begins with the character that splits.
  pub split-show_onto :
      (n : ℕ) (c : Char) (rest : String)
      → code c ≡ at
      → split at (show_onto n (c ∷ rest)) ≡ List.◌∷◌ (show n) (split at rest)
  split-show_onto n c rest e =
      ap (split at) (show_onto-onto n "" (c ∷ rest))
      ∙ split-onto at (show n) c rest (AllDigits-Free at (show n) low (show-AllDigits n)) e

pub split-show_ipv4 :
    (n : ℕ)
    → four (split b'.' (show_ipv4 n))
      ≡ some
          (show (n / 2 ^ 24 % 256), show (n / 2 ^ 16 % 256), show (n / 2 ^ 8 % 256), show (n % 256))
split-show_ipv4 n =
    rw
      (
        split-show_onto b'.' (omega arith) (n / 2 ^ 24 % 256) "."
            (show_onto (n / 2 ^ 16 % 256)
              ("." ∷ show_onto (n / 2 ^ 8 % 256) ("." ∷ show (n % 256))))
            refl,
        split-show_onto b'.' (omega arith) (n / 2 ^ 16 % 256) "."
            (show_onto (n / 2 ^ 8 % 256) ("." ∷ show (n % 256))) refl,
        split-show_onto b'.' (omega arith) (n / 2 ^ 8 % 256) "." (show (n % 256)) refl,
        split-Free b'.' (show (n % 256))
            (AllDigits-Free b'.' (show (n % 256)) (omega arith) (show-AllDigits (n % 256))),
      )
      refl

ipv4-octets :
    (n : ℕ)
    → n < 2 ^ 32
    → ipv4 (n / 2 ^ 24 % 256) (n / 2 ^ 16 % 256) (n / 2 ^ 8 % 256) (n % 256) ≡ n
ipv4-octets n h = omega arith

-- An address that is printed is read back.
pub parse_ipv4-show_ipv4 : (n : ℕ) → n < 2 ^ 32 → parse_ipv4 (show_ipv4 n) ≡ some n
parse_ipv4-show_ipv4 n h =
    rw
      (
        split-show_ipv4 n,
        octet-show (n / 2 ^ 24 % 256) (omega arith),
        octet-show (n / 2 ^ 16 % 256) (omega arith),
        octet-show (n / 2 ^ 8 % 256) (omega arith),
        octet-show (n % 256) (omega arith),
      )
      (ap some (ipv4-octets n h))

-- Printing an address in front of a text is printing it, and the text behind it.
pub show_ipv4_onto-onto : (n : ℕ) (rest : String) → show_ipv4_onto n rest ≡ onto (show_ipv4 n) rest
show_ipv4_onto-onto n rest =
    rw
      (
        show_onto-onto (n % 256) "" rest,
        show_onto-onto (n / 2 ^ 8 % 256) ("." ∷ show (n % 256)) rest,
        show_onto-onto (n / 2 ^ 16 % 256) ("." ∷ show_onto (n / 2 ^ 8 % 256) ("." ∷ show (n % 256)))
            rest,
        show_onto-onto (n / 2 ^ 24 % 256)
            ("."
              ∷ show_onto (n / 2 ^ 16 % 256)
                  ("." ∷ show_onto (n / 2 ^ 8 % 256) ("." ∷ show (n % 256))))
            rest,
      )
      refl

show_onto-Free : (at n : ℕ) (s : String) → 57 < at → Free at s → Free at (show_onto n s)
show_onto-Free at n s h free =
    subst (Free at) (sym (show_onto-onto n "" s))
      (onto-Free at (show n) s (AllDigits-Free_above at (show n) h (show-AllDigits n)) free)

-- An address has digits and dots only.
pub show_ipv4-Free : (at n : ℕ) → 57 < at → Free at (show_ipv4 n)
show_ipv4-Free at n h = show_onto-Free at (n / 2 ^ 24 % 256) _ h (
    dot _ (
      show_onto-Free at (n / 2 ^ 16 % 256) _ h (
        dot _
          (show_onto-Free at (n / 2 ^ 8 % 256) _ h (dot _ (show_onto-Free at (n % 256) "" h tt))))))
  where
    dot : (s : String) → Free at s → Free at ("." ∷ s)
    dot s free = ((omega arith), free)
