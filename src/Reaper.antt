-- ===== src/Reaper.antt =====
-- The task that setup_pnic of xdp-natd/src/main.rs starts: every 30 s it drops the flows that have
-- timed out. The ticks are the scheduler's; here is what one of them does.
pub mod Laws
pub mod Race
use xdp_natd.Base.{
  ℕ, suc, ◌+◌, ◌*◌, ◌%◌, ◌^◌, Option, none, some, List, [], ◌∷◌, leb, if◌then◌else◌,
}
use xdp_natd.Common.{ConnectionTuple, FlowState}
use xdp_natd.Word.{add64}
use xdp_natd.BpfMap.{BpfMap}

-- What CLOCK_MONOTONIC_COARSE gives.
pub record TimeSpec : Type 0 where
  pub tv_sec : ℕ
  pub tv_nsec : ℕ

unfoldable pub get_nsecs : TimeSpec → ℕ
get_nsecs ts = add64 (ts.tv_sec * 1_000_000_000 % 2 ^ 64) ts.tv_nsec

-- `filter_map(|res| res.ok())`.
abbrev pub readable {ℓ} : {A : Type ℓ} → List (Option A) → List A
readable [] = []
readable (none ∷ rest) = readable rest
readable (some a ∷ rest) = a ∷ readable rest

-- `filter(|(_, v)| v.timeout <= get_nsecs()).map(|(k, _)| k)`: the clock is read anew for each
-- entry, and `clock i` is its reading for the entry at place `i`.
pub timed_out : (ℕ → TimeSpec) → ℕ → List (ConnectionTuple × FlowState) → List ConnectionTuple
timed_out clock i [] = []
timed_out clock i ((k, v) ∷ rest) =
    let later = timed_out clock (suc i) rest in
    if leb v.timeout (get_nsecs (clock i)) then k ∷ later else later

module _ {S : Type 0} (tracker : BpfMap ConnectionTuple FlowState S) where
  pub to_remove : (ℕ → TimeSpec) → S → List ConnectionTuple
  unfolding timed_out
  to_remove clock s = timed_out clock 0 (readable (tracker.iter s))

  -- `let _ = conntrack.remove(&key)`, for each key.
  unfoldable pub remove_all : List ConnectionTuple → S → S
  remove_all [] s = s
  remove_all (key ∷ keys) s = remove_all keys (tracker.remove s key).1

  -- One tick, if no packet comes between the walk and the removals.
  unfoldable pub reap : (ℕ → TimeSpec) → S → S
  unfolding to_remove remove_all
  reap clock s = remove_all (to_remove clock s) s
