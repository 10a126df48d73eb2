-- ===== src/Checksum.antt =====
-- The incremental checksum of xdp-natd-ebpf/src/helpers.rs: csum_add, csum_fold, csum_replace4.
pub mod Fold
pub mod Replace
use xdp_natd.Base.{ℕ, ◌+◌, ◌-◌, bit_and, ltb, if◌then◌else◌}
use xdp_natd.Word.{not16, not32, as_u16, ◌>>>◌, wrapping_add32}

-- The carry out of 32 bits is added back in.
pub csum_add : ℕ → ℕ → ℕ
csum_add csum addend =
    let res = wrapping_add32 csum addend in wrapping_add32 res (if ltb res addend then 1 else 0)

fold_once : ℕ → ℕ
fold_once csum = wrapping_add32 (bit_and csum 0xffff) (csum >>> 16)

pub csum_fold : ℕ → ℕ
unfolding fold_once
csum_fold csum = not16 (as_u16 (fold_once (fold_once csum)))

pub csum_replace4 : ℕ → ℕ → ℕ → ℕ
csum_replace4 csum from to = csum_fold (csum_add (csum_add (not32 csum) (not32 from)) to)
