-- ===== src/Checksum/Replace.antt =====
-- csum_replace4 against a checksum that is computed from all the words (RFC 1071, RFC 1624).
use xdp_natd.Base.{ℕ, ◌+◌, ◌%◌, ◌/◌, ◌^◌, ◌<◌, ◌≡◌, arith, List, [], ◌∷◌, ◌++◌, sum, sum-append}
use xdp_natd.Word.{not16, not32}
use xdp_natd.Checksum.{csum_add, csum_replace4}
use xdp_natd.Checksum.Fold.{ones, csum_fold_lem, csum_add_lem, ones-add}

-- The checksum of a sequence of 16-bit words, in one go.
abbrev pub internet_checksum : List ℕ → ℕ
internet_checksum words = not16 (ones (sum words))

-- The two 16-bit words of a 32-bit value; the first is 0 for a port.
abbrev pub halves : ℕ → List ℕ
halves x = x / 2 ^ 16 ∷ x % 2 ^ 16 ∷ []

-- What a receiver tests: with the checksum among the words, they add up to all ones.
abbrev pub Verifies : List ℕ → Type 0
Verifies words = ones (sum words) ≡ 0xffff

-- Equation 3 of RFC 1624.
pub csum_replace4_lem :
    (c from to : ℕ)
    → c < 2 ^ 16
    → from < 2 ^ 32
    → to < 2 ^ 32
    → (csum_replace4 c from to ≡ not16 (ones (not32 c + not32 from + to)))
      × (csum_replace4 c from to < 2 ^ 16)
unfolding csum_replace4
csum_replace4_lem c from to hc hf ht = ground (
  arith,
  csum_fold_lem (csum_add (csum_add (not32 c) (not32 from)) to),
  csum_add_lem (csum_add (not32 c) (not32 from)) to,
  csum_add_lem (not32 c) (not32 from),
  ones-add (csum_add (not32 c) (not32 from)) (not32 c + not32 from) to,
)

-- A 32-bit value adds the sum of its halves, wherever it stands.
pub sum-halves :
    (before after : List ℕ) (x : ℕ)
    → sum (before ++ (halves x ++ after)) ≡ sum (before ++ after) + (x / 2 ^ 16 + x % 2 ^ 16)
sum-halves before after x =
    omega (arith, sum-append before (halves x ++ after), sum-append before after)

replace_sum :
    (s from to : ℕ)
    → from < 2 ^ 32
    → to < 2 ^ 32
    → 0 < s
    → csum_replace4 (not16 (ones (s + (from / 2 ^ 16 + from % 2 ^ 16)))) from to
      ≡ not16 (ones (s + (to / 2 ^ 16 + to % 2 ^ 16)))
replace_sum s from to hf ht pos =
    ground (arith, csum_replace4_lem (not16 (ones (s + (from / 2 ^ 16 + from % 2 ^ 16)))) from to)

-- Replacing a 32-bit value, wherever it stands among the words, by csum_replace4 gives the checksum
-- that a computation over all the words gives, if some other word is not 0.
pub csum_replace4-internet_checksum :
    (from to : ℕ) (before after : List ℕ)
    → from < 2 ^ 32
    → to < 2 ^ 32
    → 0 < sum (before ++ after)
    → csum_replace4 (internet_checksum (before ++ (halves from ++ after))) from to
      ≡ internet_checksum (before ++ (halves to ++ after))
csum_replace4-internet_checksum from to before after hf ht pos =
    rw (sum-halves before after from, sum-halves before after to)
      (replace_sum (sum (before ++ after)) from to hf ht pos)

-- A datagram that verifies still does when a 32-bit value in it and its checksum are replaced.
pub csum_replace4-Verifies :
    (c from to rest : ℕ)
    → c < 2 ^ 16
    → from < 2 ^ 32
    → to < 2 ^ 32
    → 0 < rest
    → ones (c + (from / 2 ^ 16 + from % 2 ^ 16) + rest) ≡ 0xffff
    → ones (csum_replace4 c from to + (to / 2 ^ 16 + to % 2 ^ 16) + rest) ≡ 0xffff
csum_replace4-Verifies c from to rest hc hf ht pos h =
    ground (arith, csum_replace4_lem c from to hc hf ht)
