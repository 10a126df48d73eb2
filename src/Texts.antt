-- ===== src/Texts.antt =====
-- What the daemon uses of the language's strings: `trim` and `split_once` (core::str); in the
-- children `split`, numbers and IPv4 addresses (core::num, core::net).
pub mod Decimal
pub mod Split
pub mod Printed
pub mod Address
pub mod Bounds
pub mod Lower
use Prim.Native.Char.{Char, code}
use Prim.Native.String.{String}
use Prim.Native.String.{[], ◌∷◌}
use xdp_natd.Base.{
  ℕ, ◌≡◌, Bool, ◌&&◌, ◌||◌, Option, none, some, ltb, leb, ◌==◌, if◌then◌else◌, refl,
}

-- Unicode's White_Space.
abbrev pub is_whitespace : Char → Bool
is_whitespace c =
    let n = code c in
    (leb 9 n && leb n 13)
    || n == 0x20
    || n == 0x85
    || n == 0xa0
    || n == 0x1680
    || (leb 0x2000 n && leb n 0x200a)
    || n == 0x2028
    || n == 0x2029
    || n == 0x202f
    || n == 0x205f
    || n == 0x3000

abbrev pub trim_start : String → String
trim_start [] = []
trim_start (c ∷ s) = let rest = trim_start s in if is_whitespace c then rest else c ∷ s

-- A character in front of a trimmed rest, or nothing for white space at the end.
abbrev in_front : Char → String → String
in_front c [] = if is_whitespace c then [] else c ∷ []
in_front c (d ∷ s) = c ∷ (d ∷ s)

abbrev pub trim_end : String → String
trim_end [] = []
trim_end (c ∷ s) = in_front c (trim_end s)

abbrev pub trim : String → String
trim s = trim_end (trim_start s)

abbrev before_too : Char → Option (String × String) → Option (String × String)
before_too c none = none
before_too c (some (s, t)) = some (c ∷ s, t)

-- The texts before and after the first occurrence of a character.
abbrev pub split_once : ℕ → String → Option (String × String)
split_once at [] = none
split_once at (c ∷ s) =
    let rest = before_too c (split_once at s) in if code c == at then some ([], s) else rest

range_text : split_once 45 "10000-12000" ≡ some ("10000", "12000")
range_text = refl
