-- ===== src/Texts/Decimal.antt =====
-- Decimal numbers: `parse::<u16>` and `parse::<u32>`, and `to_string`.
use Prim.Native.Char.{Char, code}
use Prim.Native.String.{String, [], ◌∷◌}
use xdp_natd.Base.{
  ℕ, zero, suc, ◌+◌, ◌-◌, ◌*◌, ◌/◌, ◌%◌, ◌^◌, ◌<◌, ◌≡◌, refl, ◌&&◌, Option, none, some, ltb, leb,
  ◌==◌, if◌then◌else◌, arith,
}

-- Digits to the end, after a number; `none` on any other character, or at the limit.
abbrev pub digits : ℕ → String → ℕ → Option ℕ
digits limit [] n = some n
digits limit (c ∷ s) n =
    let next = n * 10 + (code c - 48) in
    let rest = digits limit s next in
    if leb 48 (code c) && leb (code c) 57 && ltb next limit then rest else none

-- A sign may stand in front of the digits, of which there is one at least.
abbrev pub unsigned : ℕ → Char → String → Option ℕ
unsigned limit c [] = digits limit (c ∷ []) 0
unsigned limit c (d ∷ s) =
    if code c == b'+' then digits limit (d ∷ s) 0 else digits limit (c ∷ d ∷ s) 0

abbrev pub parse : ℕ → String → Option ℕ
parse limit [] = none
parse limit (c ∷ s) = unsigned limit c s

abbrev pub parse_u16 : String → Option ℕ
parse_u16 = parse (2 ^ 16)

abbrev pub parse_u32 : String → Option ℕ
parse_u32 = parse (2 ^ 32)

abbrev pub digit : ℕ → Char
digit zero = "0"
digit (suc zero) = "1"
digit (suc (suc zero)) = "2"
digit (suc (suc (suc zero))) = "3"
digit (suc (suc (suc (suc zero)))) = "4"
digit (suc (suc (suc (suc (suc zero))))) = "5"
digit (suc (suc (suc (suc (suc (suc zero)))))) = "6"
digit (suc (suc (suc (suc (suc (suc (suc zero))))))) = "7"
digit (suc (suc (suc (suc (suc (suc (suc (suc zero)))))))) = "8"
digit (suc (suc (suc (suc (suc (suc (suc (suc (suc d))))))))) = "9"

pub digit-code : (d : ℕ) → d < 10 → code (digit d) ≡ 48 + d
digit-code zero h = refl
digit-code (suc zero) h = refl
digit-code (suc (suc zero)) h = refl
digit-code (suc (suc (suc zero))) h = refl
digit-code (suc (suc (suc (suc zero)))) h = refl
digit-code (suc (suc (suc (suc (suc zero))))) h = refl
digit-code (suc (suc (suc (suc (suc (suc zero)))))) h = refl
digit-code (suc (suc (suc (suc (suc (suc (suc zero))))))) h = refl
digit-code (suc (suc (suc (suc (suc (suc (suc (suc zero)))))))) h = refl
digit-code (suc (suc (suc (suc (suc (suc (suc (suc (suc d))))))))) h = omega arith

-- The digits of a number in front of a text. The fuel is more than the number.
unfoldable pub show_fuel : ℕ → ℕ → String → String
show_fuel zero n rest = rest
show_fuel (suc fuel) n rest =
    let shorter = show_fuel fuel (n / 10) (digit (n % 10) ∷ rest) in
    if ltb n 10 then digit n ∷ rest else shorter

unfoldable pub show_onto : ℕ → String → String
unfolding show_fuel
show_onto n rest = show_fuel (suc n) n rest

abbrev pub show : ℕ → String
show n = show_onto n []

range_number : parse_u16 "12000" ≡ some 12000
range_number = refl

too_large : parse_u16 "65536" ≡ none
too_large = refl

port_text : show 10080 ≡ "10080"
unfolding show_onto show_fuel
port_text = refl
