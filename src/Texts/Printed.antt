-- ===== src/Texts/Printed.antt =====
-- Numbers as they are printed.
use Prim.Native.Char.{code}
use Prim.Native.String.{String, [], ◌∷◌}
use xdp_natd.Base.{ℕ, zero, suc, ◌+◌, ◌/◌, ◌%◌, ◌≤◌, ◌<◌, ◌≡◌, refl, ◌∙◌, some, arith}
use xdp_natd.Texts.Decimal.{digits, parse, digit, digit-code, show_fuel, show_onto, show}
use xdp_natd.Texts.Split.{onto, Free}

-- Digits only.
abbrev pub AllDigits : String → Type 0
AllDigits [] = Unit
AllDigits (c ∷ s) = (48 ≤ code c) × (code c ≤ 57) × AllDigits s

digit-AllDigits : (d : ℕ) (s : String) → d < 10 → AllDigits s → AllDigits (digit d ∷ s)
digit-AllDigits d s h all = (omega (arith, digit-code d h), omega (arith, digit-code d h), all)

show_fuel-AllDigits : (fuel n : ℕ) (s : String) → AllDigits s → AllDigits (show_fuel fuel n s)
unfolding show_fuel
show_fuel-AllDigits zero n s all = all
show_fuel-AllDigits (suc fuel) n s all = ground (
  arith,
  digit-AllDigits n s,
  digit-AllDigits (n % 10) s,
  show_fuel-AllDigits fuel (n / 10) (digit (n % 10) ∷ s),
)

pub show-AllDigits : (n : ℕ) → AllDigits (show n)
unfolding show_onto
show-AllDigits n = show_fuel-AllDigits (suc n) n [] tt

show_fuel-onto :
    (fuel n : ℕ) (s rest : String) → show_fuel fuel n (onto s rest) ≡ onto (show_fuel fuel n s) rest
unfolding show_fuel
show_fuel-onto zero n s rest = refl
show_fuel-onto (suc fuel) n s rest =
    ground (arith, show_fuel-onto fuel (n / 10) (digit (n % 10) ∷ s) rest)

pub show_onto-onto :
    (n : ℕ) (s rest : String) → show_onto n (onto s rest) ≡ onto (show_onto n s) rest
unfolding show_onto
show_onto-onto n = show_fuel-onto (suc n) n

digits-show_fuel :
    (limit fuel n : ℕ) (s : String)
    → n < fuel
    → n < limit
    → digits limit (show_fuel fuel n s) 0 ≡ digits limit s n
unfolding show_fuel
digits-show_fuel limit zero n s h k = absurd (omega arith)
digits-show_fuel limit (suc fuel) n s h k = ground (
  arith,
  digit-code n,
  digit-code (n % 10),
  digits-show_fuel limit fuel (n / 10) (digit (n % 10) ∷ s),
)

pub digits-show : (limit n : ℕ) → n < limit → digits limit (show n) 0 ≡ some n
unfolding show_onto
digits-show limit n h = digits-show_fuel limit (suc n) n [] (omega arith) h

-- One character at least.
abbrev pub IsSome : String → Type 0
IsSome [] = ⊥
IsSome (c ∷ s) = Unit

pub parse-AllDigits :
    (limit : ℕ) (s : String) → AllDigits s → IsSome s → parse limit s ≡ digits limit s 0
parse-AllDigits limit [] all ne = absurd ne
parse-AllDigits limit (c ∷ []) all ne = refl
parse-AllDigits limit (c ∷ (d ∷ s)) all ne = ground arith

show_fuel-IsSome : (fuel n : ℕ) (s : String) → IsSome s → IsSome (show_fuel fuel n s)
unfolding show_fuel
show_fuel-IsSome zero n s ne = ne
show_fuel-IsSome (suc fuel) n s ne =
    ground (arith, show_fuel-IsSome fuel (n / 10) (digit (n % 10) ∷ s))

pub show-IsSome : (n : ℕ) → IsSome (show n)
unfolding show_onto show_fuel
show-IsSome n = ground (arith, show_fuel-IsSome n (n / 10) (digit (n % 10) ∷ []))

pub parse-show : (limit n : ℕ) → n < limit → parse limit (show n) ≡ some n
parse-show limit n h =
    parse-AllDigits limit (show n) (show-AllDigits n) (show-IsSome n) ∙ digits-show limit n h

-- Two numbers that print alike are the same.
pub show_inj : (n m : ℕ) → show n ≡ show m → n ≡ m
show_inj n m e =
    cc (digits-show (suc (n + m)) n (omega arith), digits-show (suc (n + m)) m (omega arith), e)

pub AllDigits-Free : (at : ℕ) (s : String) → at < 48 → AllDigits s → Free at s
AllDigits-Free at [] h all = tt
AllDigits-Free at (c ∷ s) h all = ground (arith, AllDigits-Free at s)

pub AllDigits-Free_above : (at : ℕ) (s : String) → 57 < at → AllDigits s → Free at s
AllDigits-Free_above at [] h all = tt
AllDigits-Free_above at (c ∷ s) h all = ground (arith, AllDigits-Free_above at s)
