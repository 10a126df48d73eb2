-- ===== src/Texts/Lower.antt =====
-- `to_lowercase`, as far as the daemon depends on it.
use Prim.Native.Char.{Char, code}
use Prim.Native.String.{String, [], ◌∷◌}
use xdp_natd.Base.{◌==◌, if◌then◌else◌}

-- The character at the place where another stands in a first text.
abbrev translated : Char → String → String → Char
translated c [] lowers = c
translated c (u ∷ uppers) [] = c
translated c (u ∷ uppers) (l ∷ lowers) =
    let rest = translated c uppers lowers in if code c == code u then l else rest

abbrev lower : Char → Char
lower c = translated c "ABCDEFGHIJKLMNOPQRSTUVWXYZ" "abcdefghijklmnopqrstuvwxyz"

-- The letters of ASCII. What `to_lowercase` makes of other characters has no part in the name of an
-- environment, and they are kept.
abbrev pub to_lowercase : String → String
to_lowercase [] = []
to_lowercase (c ∷ s) = lower c ∷ to_lowercase s
