-- ===== src/Word.antt =====
-- Machine words: the width of a value is written out where the source wraps, and a load in the
-- machine's own byte order is turned round as `to_be` and `from_be` do.
use xdp_natd.Base.{ℕ, ◌+◌, ◌-◌, ◌*◌, ◌/◌, ◌%◌, ◌^◌, ◌<◌, ◌≡◌, refl, arith}

-- The byte order of the machine that the kernel program is built for.
pub data Endian : Type 0 where
  little big : Endian

-- `!x` on a u16 and on a u32.
abbrev pub not16 : ℕ → ℕ
not16 x = 2 ^ 16 - 1 - x

abbrev pub not32 : ℕ → ℕ
not32 x = 2 ^ 32 - 1 - x

-- `x as u16`.
abbrev pub as_u16 : ℕ → ℕ
as_u16 x = x % 2 ^ 16

-- `x >> k`.
infixl 75 ◌>>>◌
abbrev pub ◌>>>◌ : ℕ → ℕ → ℕ
x >>> k = x / 2 ^ k

-- `u32::wrapping_add`, and `+` on a u64 in a release build.
abbrev pub wrapping_add32 : ℕ → ℕ → ℕ
wrapping_add32 a b = (a + b) % 2 ^ 32

abbrev pub add64 : ℕ → ℕ → ℕ
add64 a b = (a + b) % 2 ^ 64

swap16 : ℕ → ℕ
swap16 x = x % 2 ^ 8 * 2 ^ 8 + x / 2 ^ 8

swap32 : ℕ → ℕ
unfolding swap16
swap32 x = swap16 (x % 2 ^ 16) * 2 ^ 16 + swap16 (x / 2 ^ 16)

-- `u16::to_be`, which is also `u16::from_be`; so for u32.
unfoldable pub be16 : Endian → ℕ → ℕ
unfolding swap16
be16 little x = swap16 x
be16 big x = x

unfoldable pub be32 : Endian → ℕ → ℕ
unfolding swap32
be32 little x = swap32 x
be32 big x = x

pub be16-lt : (e : Endian) (x : ℕ) → x < 2 ^ 16 → be16 e x < 2 ^ 16
unfolding be16
be16-lt little x h = omega arith
be16-lt big x h = h

pub be32-lt : (e : Endian) (x : ℕ) → x < 2 ^ 32 → be32 e x < 2 ^ 32
unfolding be32
be32-lt little x h = omega arith
be32-lt big x h = h

pub be16-be16 : (e : Endian) (x : ℕ) → x < 2 ^ 16 → be16 e (be16 e x) ≡ x
unfolding be16
be16-be16 little x h = omega arith
be16-be16 big x h = refl

pub be32-be32 : (e : Endian) (x : ℕ) → x < 2 ^ 32 → be32 e (be32 e x) ≡ x
unfolding be32
be32-be32 little x h = omega arith
be32-be32 big x h = refl
