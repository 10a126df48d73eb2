-- ===== src/Base/Bits.antt =====
-- `&` with a mask of low ones is a remainder, at every width.
use Prim.Native.Nat.{
  ℕ, zero, suc, ◌+◌, ◌-◌, ◌*◌, ◌/◌, ◌%◌, ◌^◌, ◌≤◌, ◌<◌, min, bit_and, digits, bit_and-bitwise,
}
use mathlib.Core.Path.{◌≡◌, refl, ap, sym, ◌∙◌}
use native.Mathlib.Nat.{
  pow-suc, one-le-pow, div-add-mod, mod-lt, mod-eq_of_lt, add-mul-mod_self_left,
}
use native.Mathlib.Omega.{arith}

-- The digit recursion that `bit_and` stands for, on fuel.
abbrev shared : ℕ → ℕ → ℕ → ℕ
shared fuel a b = digits (λ _. zero) min fuel a b

shared_zero : (n b : ℕ) → shared n 0 b ≡ 0
shared_zero zero b = refl
shared_zero (suc n) b = refl

-- Two amounts of fuel that cover the number give one result.
shared_any : (n m a b : ℕ) → a ≤ n → a ≤ m → shared n a b ≡ shared m a b
shared_any n m zero b h k = shared_zero n b ∙ sym (shared_zero m b)
shared_any zero m (suc a) b h k = absurd (omega arith)
shared_any (suc n) zero (suc a) b h k = absurd (omega arith)
shared_any (suc n) (suc m) (suc a) b h k =
    omega (arith, shared_any n m (suc a / 2) (b / 2) (omega arith) (omega arith))

-- The lowest binary digit of both numbers, split off.
bit_and_digit : (a b : ℕ) → bit_and a b ≡ 2 * bit_and (a / 2) (b / 2) + min (a % 2) (b % 2)
bit_and_digit zero b = omega (arith, bit_and-bitwise 0 b, bit_and-bitwise 0 (b / 2))
bit_and_digit (suc a) b = omega (
  arith,
  bit_and-bitwise (suc a) b,
  bit_and-bitwise (suc a / 2) (b / 2),
  shared_any a (suc a / 2) (suc a / 2) (b / 2) (omega arith) (omega arith),
)

mask_zero : (n a : ℕ) → a ≤ n → bit_and a 0 ≡ 0
mask_zero n zero h = bit_and-bitwise 0 0
mask_zero zero (suc a) h = absurd (omega arith)
mask_zero (suc n) (suc a) h =
    omega (arith, bit_and_digit (suc a) 0, mask_zero n (suc a / 2) (omega arith))

halve_mask : (k : ℕ) → ((2 ^ suc k - 1) / 2 ≡ 2 ^ k - 1) × ((2 ^ suc k - 1) % 2 ≡ 1)
halve_mask k = omega (arith, pow-suc 2 k, one-le-pow k 2)

halve_mod : (a p : ℕ) → 0 < p → a % (p * 2) ≡ 2 * (a / 2 % p) + a % 2
halve_mod a p h = rw shape at (add-mul-mod_self_left low (p * 2) (a / 2 / p) ∙ mod-eq_of_lt fits)
  where
    low : ℕ
    low = 2 * (a / 2 % p) + a % 2

    shape : low + p * 2 * (a / 2 / p) ≡ a
    shape = omega (arith, div-add-mod (a / 2) p)

    fits : low < p * 2
    fits = omega (arith, mod-lt (a / 2) h)

-- A mask of `k` ones keeps the last `k` digits.
pub bit_and_ones : (k a : ℕ) → bit_and a (2 ^ k - 1) ≡ a % 2 ^ k
bit_and_ones zero a = omega (arith, mask_zero a a (omega arith))
bit_and_ones (suc k) a = omega (
  arith,
  bit_and_digit a (2 ^ suc k - 1),
  halve_mask k,
  bit_and_ones k (a / 2),
  ap (λ (m : ℕ). bit_and (a / 2) m) (halve_mask k).0,
  halve_mod a (2 ^ k) (one-le-pow k 2 (omega arith)),
  ap (λ (m : ℕ). a % m) (pow-suc 2 k),
)
