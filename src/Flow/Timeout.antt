-- ===== src/Flow/Timeout.antt =====
-- A packet keeps its flow alive, whichever way the flow was opened.
use xdp_natd.Base.{ℕ, ◌+◌, ◌^◌, ◌≤◌, ◌<◌, ◌≡◌, Bool, true, false, arith, if◌then◌else◌}
use xdp_natd.Common.{FlowState, original, reply, timeout_new, timeout_est}
use xdp_natd.Flow.{threshold_ns, refresh}

-- What a packet at `time` makes of a flow.
pub record IsRefreshed (time : ℕ) (old new : FlowState) (changed : Bool) : Type 0 where
  -- The timeout is not shortened, nor does it pass the longest one.
  pub kept : old.timeout ≤ new.timeout
  pub bounded : new.timeout ≤ time + timeout_est
  -- It falls short of the full lifetime by a second at most.
  pub alive :
      time + (if new.seen_reply then timeout_est else timeout_new) ≤ new.timeout + threshold_ns
  -- A change gives the full lifetime of what the flow has seen.
  pub renewed :
      changed ≡ true → new.timeout ≡ time + (if new.seen_reply then timeout_est else timeout_new)
  pub same_nat : new.nat ≡ old.nat
  pub same_direction : new.direction ≡ old.direction
  pub still_seen : old.seen_reply ≡ true → new.seen_reply ≡ true
  pub seen_by_reply : old.direction ≡ reply → new.seen_reply ≡ true
  pub not_seen : old.direction ≡ original → new.seen_reply ≡ old.seen_reply
  pub unchanged : changed ≡ false → new ≡ old

-- If a flow's timeout lies at most 180 s past a clock that does not wrap, a packet does not shorten
-- it, leaves it at most 180 s past the clock and at most a second short of the flow's lifetime (180
-- s past the clock if a reply was seen, else 30 s), changes it only to exactly that lifetime, keeps
-- the translation and direction, notes a reply for a reply's packet and for no other, and does not
-- forget one.
pub refresh-IsRefreshed :
    (state : FlowState) (time : ℕ)
    → time + timeout_est < 2 ^ 64
    → state.timeout ≤ time + timeout_est
    → IsRefreshed time state (refresh state time).1 (refresh state time).0
unfolding refresh
refresh-IsRefreshed state time fits old = ground arith

pub refresh-nat : (state : FlowState) (time : ℕ) → (refresh state time).1.nat ≡ state.nat
unfolding refresh
refresh-nat state time = ground arith

pub refresh-direction :
    (state : FlowState) (time : ℕ) → (refresh state time).1.direction ≡ state.direction
unfolding refresh
refresh-direction state time = ground arith

pub refresh-unchanged :
    (state : FlowState) (time : ℕ) → (refresh state time).0 ≡ false → (refresh state time).1 ≡ state
unfolding refresh
refresh-unchanged state time h = ground arith

-- A change leaves at least 30 s, and no change is for the worse as far as these reach.
pub refresh-deadline :
    (deadline : ℕ) (state : FlowState) (time : ℕ)
    → time + timeout_est < 2 ^ 64
    → deadline ≤ time + timeout_new
    → ((refresh state time).0 ≡ true → deadline ≤ (refresh state time).1.timeout)
      × (deadline ≤ state.timeout → deadline ≤ (refresh state time).1.timeout)
unfolding refresh
refresh-deadline deadline state time fits near = ground arith

-- Which fields a change of an original's flow, and of a reply's, stores.
pub refresh-original :
    (state : FlowState) (time : ℕ)
    → state.direction ≡ original
    → record state { timeout = (refresh state time).1.timeout } ≡ (refresh state time).1
unfolding refresh
refresh-original state time h = ground arith

pub refresh-reply :
    (state : FlowState) (time : ℕ)
    → state.direction ≡ reply
    → (refresh state time).0 ≡ true
    → record state { seen_reply = true; timeout = (refresh state time).1.timeout }
      ≡ (refresh state time).1
unfolding refresh
refresh-reply state time h changed = ground arith

-- A change leaves the timeout within 180 s, whatever it was.
pub refresh-changed_bounded :
    (state : FlowState) (time : ℕ)
    → time + timeout_est < 2 ^ 64
    → (refresh state time).0 ≡ true
    → (refresh state time).1.timeout ≤ time + timeout_est
unfolding refresh
refresh-changed_bounded state time fits changed = ground arith

-- What a packet changes of a flow that has had no reply.
pub refresh_unseen :
    (state : FlowState) (time : ℕ)
    → time + timeout_est < 2 ^ 64
    → state.direction ≡ original
    → state.seen_reply ≡ false
    → state.timeout + threshold_ns < time + timeout_new
    → ((refresh state time).0 ≡ true)
      × ((refresh state time).1.seen_reply ≡ false)
      × ((refresh state time).1.timeout ≡ time + timeout_new)
unfolding refresh
refresh_unseen state time fits own unseen stale = ground arith

pub refresh_first_reply :
    (state : FlowState) (time : ℕ)
    → time + timeout_est < 2 ^ 64
    → state.direction ≡ reply
    → state.seen_reply ≡ false
    → ((refresh state time).0 ≡ true)
      × ((refresh state time).1.seen_reply ≡ true)
      × ((refresh state time).1.timeout ≡ time + timeout_est)
unfolding refresh
refresh_first_reply state time fits own unseen = ground arith
