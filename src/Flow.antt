-- ===== src/Flow.antt =====
-- A tracked flow's lazy timeout: the `match state.direction` that process_udp_snat and
-- process_udp_dnat of xdp-natd-ebpf/src/main.rs share word for word.
pub mod Timeout
use xdp_natd.Base.{ℕ, ◌-◌, Bool, true, false, not, ◌&&◌, ◌||◌, ltb, if◌then◌else◌}
use xdp_natd.Common.{FlowState, Direction, original, reply, timeout_new, timeout_est}
use xdp_natd.Word.{add64}

abbrev pub threshold_ns : ℕ
threshold_ns = 1_000_000_000

-- The two tests of one condition; the subtraction is made only where it does not wrap.
abbrev is_stale : ℕ → FlowState → Bool
is_stale expected_timeout state =
    ltb state.timeout expected_timeout && ltb threshold_ns (expected_timeout - state.timeout)

refresh_as : Direction → FlowState → ℕ → Bool × FlowState
refresh_as original state time =
    let expected_timeout = add64 time (if state.seen_reply then timeout_est else timeout_new) in
    if is_stale expected_timeout state
    then (true, record state { timeout = expected_timeout })
    else (false, state)
refresh_as reply state time =
    let expected_timeout = add64 time timeout_est in
    if not state.seen_reply || is_stale expected_timeout state
    then (true, record state { seen_reply = true; timeout = expected_timeout })
    else (false, state)

-- The flow as it is left, behind `update_reverse`.
unfoldable pub refresh : FlowState → ℕ → Bool × FlowState
unfolding refresh_as
refresh state time = refresh_as state.direction state time
