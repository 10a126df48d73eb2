-- ===== src/Concurrent/Progress.antt =====
-- What a run ends with, and when, whatever the other processors and the reaper do meanwhile.
use xdp_natd.Base.{
  ℕ, suc, ◌+◌, ◌-◌, ◌≤◌, ◌≡◌, ◌≢◌, sym, subst, ◌∙◌, inl, inr, Option, none, In, ◌⊎◌, arith,
  ℕ_discrete,
}
use xdp_natd.Common.{ConnectionTuple, ContainerInfo, FlowState, NicInfo}
use xdp_natd.BpfMap.{BpfMap}
use xdp_natd.Frame.{Frame}
use xdp_natd.Kernel.{Kernel}
use xdp_natd.Xdp.{Flags}
use xdp_natd.Concurrent.{
  Access, return, bpf_ktime_get_coarse_ns, get_ptr_mut, read, set_seen_reply, set_timeout, insert,
  advance, Translated,
}
use xdp_natd.Concurrent.Processors.{
  Processors, Step, tick, arrival, access, walk, removal, IsArrival, own, set_self, set_ne, Steps,
  done, then, accesses_of, Along, begins,
}
use xdp_natd.Concurrent.Kept.{Kept, access-KeptOrRemoved}
use xdp_natd.Concurrent.Ends.{EndsWithin, EndsWithin-mono, EndsWithin-zero, any-EndsWithin}

module _ {S : Type 0} (tracker : BpfMap ConnectionTuple FlowState S)
    (F : ConnectionTuple → Option FlowState → Type 0) (P : Translated → Type 0) where
  advance-EndsWithin :
      (now : ℕ) (s : S) (n : ℕ) (a : Access Translated)
      → ((key : ConnectionTuple) → F key (tracker.get s key))
      → EndsWithin F P (suc n) a
      → EndsWithin F P n (advance tracker now s a).1
  unfolding advance EndsWithin
  advance-EndsWithin now s n (return a) finds h = h
  advance-EndsWithin now s n (bpf_ktime_get_coarse_ns rest) finds h = h now
  advance-EndsWithin now s n (get_ptr_mut key rest) finds h = h (tracker.get s key) (finds key)
  advance-EndsWithin now s n (read key known rest) finds h = h (tracker.get s key) (finds key)
  advance-EndsWithin now s n (set_seen_reply key seen rest) finds h = h
  advance-EndsWithin now s n (set_timeout key timeout rest) finds h = h
  advance-EndsWithin now s n (insert key v rest) finds h = h

  module _ {E : Type 0} (exposed : BpfMap ℕ ContainerInfo E) (i : ℕ) where
    no_access : (n : ℕ) (a : Access Translated) → EndsWithin F P (0 + n) a → EndsWithin F P n a
    no_access n a h = subst (λ l. EndsWithin F P l a) (omega arith) h

    Step-EndsWithin :
        (n : ℕ) (s t : Processors S) (first : Step tracker exposed s t)
        → ¬ IsArrival tracker exposed i first
        → ((key : ConnectionTuple) → F key (tracker.get s.conntrack key))
        → EndsWithin F P (own tracker exposed i first + n) (s.running i)
        → EndsWithin F P n (t.running i)
    Step-EndsWithin n s _ (tick t later fits) other finds h = no_access n (s.running i) h
    Step-EndsWithin n s _ (arrival j before k f expose pnic flag waits) other finds h =
        subst (EndsWithin F P n)
          (sym (
            set_ne s.running j i (begins tracker exposed k f expose pnic flag)
              (λ e. other (sym e))))
          (no_access n (s.running i) h)
    Step-EndsWithin n s _ (access j) other finds h = elim (ℕ_discrete i j) [
      | yes same ↦ rw (← same) (
          subst (EndsWithin F P n) (sym (set_self s.running i _)) (
            advance-EndsWithin s.now s.conntrack n (s.running i) finds
              (subst (λ l. EndsWithin F P l (s.running i)) (ground arith) h)))
      | no ne ↦
          subst (EndsWithin F P n) (sym (set_ne s.running j i _ (λ e. ne (sym e))))
            (subst (λ l. EndsWithin F P l (s.running i)) (ground arith) h)
    ]
    Step-EndsWithin n s _ (walk clock readings idle) other finds h = no_access n (s.running i) h
    Step-EndsWithin n s _ (removal key keys first) other finds h = no_access n (s.running i) h

    Steps-EndsWithin :
        (n : ℕ) (s t : Processors S) (steps : Steps tracker exposed i s t)
        → Along tracker exposed
            (λ u. (key : ConnectionTuple) → F key (tracker.get u.conntrack key))
            steps
        → EndsWithin F P (accesses_of tracker exposed steps + n) (s.running i)
        → EndsWithin F P n (t.running i)
    unfolding Along accesses_of
    Steps-EndsWithin n s _ done finds h =
        subst (λ l. EndsWithin F P l (s.running i)) (omega arith) h
    Steps-EndsWithin n s t (then {t = u} first other rest) (here, finds) h =
        Steps-EndsWithin n u t rest finds (
          Step-EndsWithin (accesses_of tracker exposed rest + n) s u first other here
            (subst (λ l. EndsWithin F P l (s.running i)) (omega arith) h))

    -- A run with at most thirteen accesses to come has ended after thirteen of them.
    pub Steps-end :
        (s t : Processors S) (steps : Steps tracker exposed i s t)
        → 13 ≤ accesses_of tracker exposed steps
        → Along tracker exposed
            (λ u. (key : ConnectionTuple) → F key (tracker.get u.conntrack key))
            steps
        → EndsWithin F P 13 (s.running i)
        → (r : Translated) × (t.running i ≡ return r) × P r
    Steps-end s t steps enough finds h = EndsWithin-zero F P (t.running i) (
        Steps-EndsWithin 0 s t steps finds (
          subst (λ l. EndsWithin F P l (s.running i)) (omega arith)
            (EndsWithin-mono F P (accesses_of tracker exposed steps - 13) 13 (s.running i) h)))

module _ {S E : Type 0} (tracker : BpfMap ConnectionTuple FlowState S)
    (exposed : BpfMap ℕ ContainerInfo E) (i : ℕ) where
  Along-always :
      (P : Processors S → Type 0) (s t : Processors S) (steps : Steps tracker exposed i s t)
      → ((u : Processors S) → P u)
      → Along tracker exposed P steps
  unfolding Along
  Along-always P s _ done always = always s
  Along-always P s t (then {t = u} first other rest) always =
      (always s, Along-always P u t rest always)

  pub Along-map :
      (P Q : Processors S → Type 0) (s t : Processors S) (steps : Steps tracker exposed i s t)
      → ((u : Processors S) → P u → Q u)
      → Along tracker exposed P steps
      → Along tracker exposed Q steps
  unfolding Along
  Along-map P Q s _ done f here = f s here
  Along-map P Q s t (then {t = u} first other rest) f (here, later) =
      (f s here, Along-map P Q u t rest f later)

  Along-head :
      (P : Processors S → Type 0) (s t : Processors S) (steps : Steps tracker exposed i s t)
      → Along tracker exposed P steps
      → P s
  unfolding Along
  Along-head P s _ done here = here
  Along-head P s t (then first other rest) (here, later) = here

  -- A flow that stays tracked stays so under its translation.
  pub Along-Kept :
      (s t : Processors S) (steps : Steps tracker exposed i s t) (key : ConnectionTuple)
      (v : FlowState)
      → Kept tracker s.conntrack key v
      → Along tracker exposed (λ u. tracker.get u.conntrack key ≢ none) steps
      → Along tracker exposed (λ u. Kept tracker u.conntrack key v) steps
  unfolding Along
  Along-Kept s _ done key v kept tracked = kept
  Along-Kept s t (then {t = u} first other rest) key v (v', here, nat, direction) (_, later) = (
    (v', here, nat, direction),
    Along-Kept u t rest key v (next (access-KeptOrRemoved tracker exposed s u key v' first here))
        later,
  )
    where
      next :
          Kept tracker u.conntrack key v' ⊎ (In key s.to_go × (tracker.get u.conntrack key ≡ none))
          → Kept tracker u.conntrack key v
      next (inl (w, there, nat', direction')) = (w, there, nat' ∙ nat, direction' ∙ direction)
      next (inr (_, gone)) =
          absurd (Along-head (λ u. tracker.get u.conntrack key ≢ none) u t rest later gone)

  module _ (s t : Processors S) (k : Kernel) (f : Frame) (expose : E) (pnic : Option NicInfo)
      (flag : Flags) (steps : Steps tracker exposed i s t) where
    -- A processor begins with a packet. After any steps that include thirteen accesses of its own,
    -- whatever other processors and the reaper do in between, and while it takes no other packet,
    -- its run has returned.
    pub run_ends :
        s.running i ≡ begins tracker exposed k f expose pnic flag
        → 13 ≤ accesses_of tracker exposed steps
        → (r : Translated) × (t.running i ≡ return r)
    run_ends begun enough =
        let (r, ended, _) =
          Steps-end tracker (λ key found. Unit) (λ r. Unit) exposed i s t steps enough
            (Along-always (λ u. (key : ConnectionTuple) → Unit) s t steps (λ u key. tt))
            (rw begun (
              any-EndsWithin exposed k f expose pnic _ _ (λ key found. Unit) (λ r. Unit) flag
                (λ r. tt))) in
        (r, ended)
