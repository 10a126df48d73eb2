-- ===== src/Concurrent/Ends.antt =====
-- How many accesses a run makes, and what it ends with, whatever the other processors do.
use xdp_natd.Base.{
  ℕ, zero, suc, inl, inr, Bool, true, false, Bool-cases, ◌+◌, ◌≡◌, refl, subst, Option, none, some,
  arith,
}
use xdp_natd.Common.{
  ConnectionTuple, ContainerInfo, Direction, original, reply, FlowState, NatData, NicInfo,
}
use xdp_natd.BpfMap.{BpfMap}
use xdp_natd.Frame.{Frame}
use xdp_natd.Kernel.{Kernel}
use xdp_natd.Flow.{refresh}
use xdp_natd.Xdp.{Flags}
use xdp_natd.Concurrent.{
  Access, return, bpf_ktime_get_coarse_ns, get_ptr_mut, read, live, set_seen_reply, set_timeout,
  insert, touch_reverse, store, track, change, translate_by, open_flow, process, key_of, Translated,
}
use xdp_natd.Concurrent.Ways.{looked_up, process-looked_up, looked_up_ways}

-- At most `n` accesses are left, and the end is as `P` says, if every look-up finds what `F` allows.
unfoldable pub EndsWithin :
    {A : Type 0}
    → (ConnectionTuple → Option FlowState → Type 0)
    → (A → Type 0)
    → ℕ
    → Access A
    → Type 0
EndsWithin F P n (return a) = P a
EndsWithin F P zero (bpf_ktime_get_coarse_ns rest) = ⊥
EndsWithin F P (suc n) (bpf_ktime_get_coarse_ns rest) = (time : ℕ) → EndsWithin F P n (rest time)
EndsWithin F P zero (get_ptr_mut key rest) = ⊥
EndsWithin F P (suc n) (get_ptr_mut key rest) =
    (found : Option FlowState) → F key found → EndsWithin F P n (rest found)
EndsWithin F P zero (read key known rest) = ⊥
EndsWithin F P (suc n) (read key known rest) =
    (found : Option FlowState) → F key found → EndsWithin F P n (rest (live known found))
EndsWithin F P zero (set_seen_reply key seen rest) = ⊥
EndsWithin F P (suc n) (set_seen_reply key seen rest) = EndsWithin F P n rest
EndsWithin F P zero (set_timeout key timeout rest) = ⊥
EndsWithin F P (suc n) (set_timeout key timeout rest) = EndsWithin F P n rest
EndsWithin F P zero (insert key v rest) = ⊥
EndsWithin F P (suc n) (insert key v rest) = EndsWithin F P n rest

module _ {A : Type 0} (F : ConnectionTuple → Option FlowState → Type 0) (P : A → Type 0) where
  EndsWithin-suc : (n : ℕ) (a : Access A) → EndsWithin F P n a → EndsWithin F P (suc n) a
  unfolding EndsWithin
  EndsWithin-suc n (return a) h = h
  EndsWithin-suc (suc n) (bpf_ktime_get_coarse_ns rest) h =
      λ time. EndsWithin-suc n (rest time) (h time)
  EndsWithin-suc (suc n) (get_ptr_mut key rest) h =
      λ found allowed. EndsWithin-suc n (rest found) (h found allowed)
  EndsWithin-suc (suc n) (read key known rest) h =
      λ found allowed. EndsWithin-suc n (rest (live known found)) (h found allowed)
  EndsWithin-suc (suc n) (set_seen_reply key seen rest) h = EndsWithin-suc n rest h
  EndsWithin-suc (suc n) (set_timeout key timeout rest) h = EndsWithin-suc n rest h
  EndsWithin-suc (suc n) (insert key v rest) h = EndsWithin-suc n rest h
  EndsWithin-suc zero (bpf_ktime_get_coarse_ns rest) h = absurd h
  EndsWithin-suc zero (get_ptr_mut key rest) h = absurd h
  EndsWithin-suc zero (read key known rest) h = absurd h
  EndsWithin-suc zero (set_seen_reply key seen rest) h = absurd h
  EndsWithin-suc zero (set_timeout key timeout rest) h = absurd h
  EndsWithin-suc zero (insert key v rest) h = absurd h

  pub EndsWithin-mono : (m n : ℕ) (a : Access A) → EndsWithin F P n a → EndsWithin F P (m + n) a
  EndsWithin-mono zero n a h = subst (λ l. EndsWithin F P l a) (omega arith) h
  EndsWithin-mono (suc m) n a h =
      subst (λ l. EndsWithin F P l a) (omega arith)
        (EndsWithin-suc (m + n) a (EndsWithin-mono m n a h))

  -- No access is left.
  pub EndsWithin-zero : (a : Access A) → EndsWithin F P 0 a → (r : A) × (a ≡ return r) × P r
  unfolding EndsWithin
  EndsWithin-zero (return r) h = (r, refl, h)
  EndsWithin-zero (bpf_ktime_get_coarse_ns rest) h = absurd h
  EndsWithin-zero (get_ptr_mut key rest) h = absurd h
  EndsWithin-zero (read key known rest) h = absurd h
  EndsWithin-zero (set_seen_reply key seen rest) h = absurd h
  EndsWithin-zero (set_timeout key timeout rest) h = absurd h
  EndsWithin-zero (insert key v rest) h = absurd h

  touch_reverse-EndsWithin :
      (key reverse : ConnectionTuple) (state : FlowState) (a : A)
      → P a
      → EndsWithin F P 5 (touch_reverse key reverse state a)
  unfolding EndsWithin touch_reverse
  touch_reverse-EndsWithin key reverse state a ends none allowed = ends
  touch_reverse-EndsWithin key reverse state a ends (some rev) allowed = λ f g h i. ends

  store-EndsWithin :
      (n : ℕ) (direction : Direction) (key : ConnectionTuple) (state : FlowState) (rest : Access A)
      → EndsWithin F P n rest
      → EndsWithin F P (suc (suc n)) (store direction key state rest)
  unfolding EndsWithin store
  store-EndsWithin n original key state rest h = EndsWithin-suc n rest h
  store-EndsWithin n reply key state rest h = h

  module _ (key : ConnectionTuple) (reverse_of : NatData → ConnectionTuple) (result : NatData → A)
      (ends : (known : FlowState) (found : Option FlowState)
        → F key found
        → P (result (live known found).nat)) where
    translate_by-EndsWithin :
        (update_reverse : Bool) (state : FlowState)
        → EndsWithin F P 6 (translate_by update_reverse key state reverse_of result)
    unfolding EndsWithin translate_by
    translate_by-EndsWithin true state found allowed =
        touch_reverse-EndsWithin key _ _ _ (ends state found allowed)
    translate_by-EndsWithin false state found allowed = ends state found allowed

    change-EndsWithin :
        (state : FlowState) (time : ℕ) → EndsWithin F P 8 (change key state reverse_of time result)
    unfolding change
    change-EndsWithin state time = elim (Bool-cases (refresh state time).0) [
      | inl changed ↦ rw changed (
          store-EndsWithin 6 state.direction key (refresh state time).1 _
            (translate_by-EndsWithin true (refresh state time).1))
      | inr fresh ↦
          rw fresh (EndsWithin-mono 2 6 _ (translate_by-EndsWithin false (refresh state time).1))
    ]

    pub track-EndsWithin :
        (state : FlowState) (time : ℕ) → EndsWithin F P 11 (track key state reverse_of time result)
    unfolding track EndsWithin
    track-EndsWithin state time = λ _ _ _ _ _ _. change-EndsWithin _ time

module _ {E : Type 0} (exposed : BpfMap ℕ ContainerInfo E) (k : Kernel) (frame : Frame) (expose : E)
    (pnic : Option NicInfo) (src_ip dst_ip : ℕ) (F : ConnectionTuple → Option FlowState → Type 0)
    (P : Translated → Type 0) where
  -- A routine makes at most thirteen accesses.
  pub process-EndsWithin :
      (flag : Flags)
      → ((found : Option FlowState)
          → F (key_of exposed k frame expose pnic src_ip dst_ip) found
          → EndsWithin F P 12 (looked_up exposed k frame expose pnic src_ip dst_ip flag found))
      → EndsWithin F P 13 (process exposed k frame expose pnic src_ip dst_ip flag)
  unfolding EndsWithin
  process-EndsWithin flag h =
      rw (process-looked_up exposed k frame expose pnic src_ip dst_ip flag) h

  pub any-EndsWithin :
      (flag : Flags)
      → ((r : Translated) → P r)
      → EndsWithin F P 13 (process exposed k frame expose pnic src_ip dst_ip flag)
  unfolding EndsWithin open_flow
  any-EndsWithin flag any = process-EndsWithin flag (λ found allowed.
      looked_up_ways exposed k frame expose pnic src_ip dst_ip (EndsWithin F P 12) (any _)
        (λ key nat reverse reverse_nat f time. any _) flag found
        (λ state reverse_of here time.
          track-EndsWithin F P _ reverse_of _ (λ known found allowed. any _) state time))
