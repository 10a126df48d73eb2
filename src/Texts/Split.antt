-- ===== src/Texts/Split.antt =====
-- `split` at a character, and texts put together.
use Prim.Native.Char.{Char, code}
use Prim.Native.String.{String}
use xdp_natd.Base.{
  ℕ, ◌≡◌, ◌≢◌, refl, ap, Option, none, some, List, [], ◌∷◌, ◌==◌, if◌then◌else◌, arith,
}

abbrev add_part : Char → List String → List String
add_part c [] = String.◌∷◌ c String.[] ∷ []
add_part c (part ∷ parts) = String.◌∷◌ c part ∷ parts

-- The parts between all occurrences of a character; there is one more than there are of those.
abbrev pub split : ℕ → String → List String
split at String.[] = String.[] ∷ []
split at (String.◌∷◌ c s) =
    let parts = split at s in if code c == at then String.[] ∷ parts else add_part c parts

-- The parts, when there are four.
abbrev pub four : List String → Option (String × String × String × String)
four (a ∷ (b ∷ (c ∷ (d ∷ [])))) = some (a, b, c, d)
four _ = none

-- The first part, which there always is: `split(..).next()`.
abbrev pub first_part : List String → Option String
first_part [] = none
first_part (part ∷ parts) = some part

-- `format!("{}{}", s, t)`.
abbrev pub onto : String → String → String
onto String.[] t = t
onto (String.◌∷◌ c s) t = String.◌∷◌ c (onto s t)

address_text : split b'.' "10.0.0.7" ≡ "10" ∷ "0" ∷ "0" ∷ "7" ∷ []
address_text = refl

-- No occurrence of the character.
abbrev pub Free : ℕ → String → Type 0
Free at String.[] = Unit
Free at (String.◌∷◌ c s) = (code c ≢ at) × Free at s

pub split-onto :
    (at : ℕ) (s : String) (c : Char) (rest : String)
    → Free at s
    → code c ≡ at
    → split at (onto s (String.◌∷◌ c rest)) ≡ s ∷ split at rest
split-onto at String.[] c rest free e = ground arith
split-onto at (String.◌∷◌ d s) c rest free e = ground (arith, split-onto at s c rest)

pub split-Free : (at : ℕ) (s : String) → Free at s → split at s ≡ s ∷ []
split-Free at String.[] free = refl
split-Free at (String.◌∷◌ d s) free = ground (arith, split-Free at s)

pub onto-onto : (s t u : String) → onto (onto s t) u ≡ onto s (onto t u)
onto-onto String.[] t u = refl
onto-onto (String.◌∷◌ c s) t u = ap (String.◌∷◌ c) (onto-onto s t u)

pub onto-Free : (at : ℕ) (s t : String) → Free at s → Free at t → Free at (onto s t)
onto-Free at String.[] t free free' = free'
onto-Free at (String.◌∷◌ c s) t (ne, free) free' = (ne, onto-Free at s t free free')
