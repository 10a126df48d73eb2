-- ===== src/Checksum/Fold.antt =====
-- The 32-bit accumulator stands for its remainder by 2 ^ 16 - 1, the value of a one's complement
-- sum of 16-bit words.
use xdp_natd.Base.{ℕ, ◌+◌, ◌-◌, ◌%◌, ◌^◌, ◌≤◌, ◌<◌, ◌≡◌, arith, ◌==◌, if◌then◌else◌}
use xdp_natd.Base.Bits.{bit_and_ones}
use xdp_natd.Word.{not16}
use xdp_natd.Checksum.{csum_add, fold_once, csum_fold}

-- The one's complement value of a sum of words: 0 for no bits at all, else 1 to 0xffff.
abbrev pub ones : ℕ → ℕ
ones s = if s == 0 then 0 else (s - 1) % 0xffff + 1

fold_once_lem : (s : ℕ) → s < 2 ^ 32 → (fold_once s ≤ 0x1fffe) × (ones (fold_once s) ≡ ones s)
unfolding fold_once
fold_once_lem s h = ground (arith, bit_and_ones 16 s)

-- Folding twice and inverting a 32-bit accumulator gives the complement of its one's complement
-- value, which fits 16 bits.
pub csum_fold_lem : (s : ℕ) → s < 2 ^ 32 → (csum_fold s ≡ not16 (ones s)) × (csum_fold s < 2 ^ 16)
unfolding csum_fold
csum_fold_lem s h =
    ground (arith, bit_and_ones 16 s, bit_and_ones 16 (fold_once s), fold_once_lem s h)

-- Adding with the end-around carry keeps to 32 bits, and keeps the one's complement value of the
-- sum.
pub csum_add_lem :
    (a b : ℕ)
    → a < 2 ^ 32
    → b < 2 ^ 32
    → (csum_add a b < 2 ^ 32) × (ones (csum_add a b) ≡ ones (a + b))
unfolding csum_add
csum_add_lem a b ha hb = ground arith

pub ones-add : (a b c : ℕ) → ones a ≡ ones b → ones (a + c) ≡ ones (b + c)
ones-add a b c h = ground arith
