-- ===== src/Reaper/Laws.antt =====
-- A tick removes the flows that have timed out, and no other.
use xdp_natd.Base.{
  ℕ, suc, ◌≤◌, ◌<◌, ◌≡◌, refl, ap, ◌∙◌, inl, inr, Option, none, some, List, [], ◌∷◌, In, arith, leb,
  leb→le, ltb, ltb→lt, ◌⊎◌, Bool-cases, Option-cases,
}
use xdp_natd.Common.{ConnectionTuple, ConnectionTuple-discrete, FlowState}
use xdp_natd.BpfMap.{BpfMap, get-remove_self}
use xdp_natd.Reaper.{TimeSpec, get_nsecs, readable, timed_out, to_remove, remove_all, reap}

pub In-readable : {A : Type 0} (a : A) (l : List (Option A)) → In (some a) l → In a (readable l)
In-readable a [] h = h
In-readable a (none ∷ l) h = ground (arith, In-readable a l)
In-readable a (some b ∷ l) h = ground (arith, In-readable a l)

In-readable_inv : {A : Type 0} (a : A) (l : List (Option A)) → In a (readable l) → In (some a) l
In-readable_inv a [] h = h
In-readable_inv a (none ∷ l) h = ground (arith, In-readable_inv a l)
In-readable_inv a (some b ∷ l) h = ground (arith, In-readable_inv a l)

In-cases : (k : ConnectionTuple) (l : List ConnectionTuple) → In k l ⊎ (¬ In k l)
In-cases k [] = inr (λ h. h)
In-cases k (j ∷ l) = elim (ConnectionTuple-discrete k j) [
  | yes own ↦ inl (inl own)
  | no ne ↦ ground (arith, In-cases k l)
]

-- The readings of one walk lie between its start and its end.
abbrev pub ReadsWithin : (ℕ → TimeSpec) → ℕ → ℕ → Type 0
ReadsWithin clock start end = (i : ℕ) → (start ≤ get_nsecs (clock i)) × (get_nsecs (clock i) ≤ end)

module _ (clock : ℕ → TimeSpec) (start end : ℕ) (within : ReadsWithin clock start end) where
  pub timed_out-picks :
      (i : ℕ) (l : List (ConnectionTuple × FlowState)) (k : ConnectionTuple) (v : FlowState)
      → In (k, v) l
      → v.timeout ≤ start
      → In k (timed_out clock i l)
  unfolding timed_out
  timed_out-picks i [] k v h old = h
  timed_out-picks i ((j, u) ∷ l) k v h old = ground (arith, within i, timed_out-picks (suc i) l k v)

  timed_out-spares :
      (i : ℕ) (l : List (ConnectionTuple × FlowState)) (k : ConnectionTuple)
      → ((v : FlowState) → In (k, v) l → end < v.timeout)
      → ¬ In k (timed_out clock i l)
  unfolding timed_out
  timed_out-spares i [] k late h = h
  timed_out-spares i ((j, u) ∷ l) k late h =
      let rest = timed_out-spares (suc i) l k (λ v h. late v (inr h)) in
      elim (Bool-cases (leb u.timeout (get_nsecs (clock i)))) [
        | inl due ↦ elim (rw due at h) [
          | inl own ↦
              absurd (omega (arith, leb→le _ _ due, within i, late u (inl (ap (λ j. (j, u)) own))))
          | inr other ↦ rest other
        ]
        | inr live ↦ rest (rw live at h)
      ]

-- What a tick from `start` to `end` may make of an entry: one that lives past `start` may stay, one
-- that has timed out by `end` may go, and none appears.
abbrev pub Reaped : ℕ → ℕ → Option FlowState → Option FlowState → Type 0
Reaped start end none new = new ≡ none
Reaped start end (some v) new =
    ((start < v.timeout) × (new ≡ some v)) ⊎ ((v.timeout ≤ end) × (new ≡ none))

module _ {S : Type 0} (tracker : BpfMap ConnectionTuple FlowState S) where
  open tracker use {get, remove}

  remove_all-absent :
      (keys : List ConnectionTuple) (s : S) (k : ConnectionTuple)
      → get s k ≡ none
      → get (remove_all tracker keys s) k ≡ none
  unfolding remove_all
  remove_all-absent [] s k e = e
  remove_all-absent (j ∷ keys) s k e =
      remove_all-absent keys (remove s j).1 k (elim (ConnectionTuple-discrete k j) [
        | yes own ↦ rw own (get-remove_self tracker s j)
        | no ne ↦ tracker.remove_ne s k j ne ∙ e
      ])

  pub remove_all-In :
      (keys : List ConnectionTuple) (s : S) (k : ConnectionTuple)
      → In k keys
      → get (remove_all tracker keys s) k ≡ none
  unfolding remove_all
  remove_all-In [] s k h = absurd h
  remove_all-In (j ∷ keys) s k (inl own) =
      remove_all-absent keys (remove s j).1 k (rw own (get-remove_self tracker s j))
  remove_all-In (j ∷ keys) s k (inr other) = remove_all-In keys (remove s j).1 k other

  remove_all_ne :
      (keys : List ConnectionTuple) (s : S) (k : ConnectionTuple)
      → ¬ In k keys
      → get (remove_all tracker keys s) k ≡ get s k
  unfolding remove_all
  remove_all_ne [] s k h = refl
  remove_all_ne (j ∷ keys) s k h =
      remove_all_ne keys (remove s j).1 k (λ i. h (inr i))
      ∙ tracker.remove_ne s k j (λ e. h (inl e))

  -- After a tick whose clock readings lie from `start` to `end`, with no packet between its walk
  -- and its removals, every entry either is as it was, and then it times out after `start`, or is
  -- gone, and then it had timed out by `end`; and no entry has appeared.
  pub reap-exact :
      (clock : ℕ → TimeSpec) (start end : ℕ) (s : S) (k : ConnectionTuple)
      → ReadsWithin clock start end
      → Reaped start end (get s k) (get (reap tracker clock s) k)
  unfolding reap
  reap-exact clock start end s k within = elim (Option-cases (get s k)) [
    | inl absent ↦ rw (absent, Reaped) (remove_all-absent (timed_out clock 0 found) s k absent)
    | inr (v, e) ↦ elim (In-cases k (timed_out clock 0 found)) [
      | inl picked ↦
          rw (e, Reaped)
            (inr (in_time v e picked, remove_all-In (timed_out clock 0 found) s k picked))
      | inr spared ↦
          rw (e, Reaped)
            (inl (past_start v e spared, remove_all_ne (timed_out clock 0 found) s k spared ∙ e))
    ]
  ]
    where
      found : List (ConnectionTuple × FlowState)
      found = readable (tracker.iter s)

      listed : (v : FlowState) → get s k ≡ some v → In (k, v) found
      listed v e = In-readable (k, v) (tracker.iter s) (tracker.iter_complete s k v e)

      stored : (v : FlowState) → In (k, v) found → get s k ≡ some v
      stored v h = tracker.iter_sound s k v (In-readable_inv (k, v) (tracker.iter s) h)

      in_time :
          (v : FlowState) → get s k ≡ some v → In k (timed_out clock 0 found) → v.timeout ≤ end
      in_time v e picked = elim (Bool-cases (ltb end v.timeout)) [
        | inl live ↦ absurd (
            timed_out-spares clock start end within 0 found k
              (λ u h. ground (arith, stored u h, ltb→lt _ _ live)) picked)
        | inr due ↦ ground arith
      ]

      past_start :
          (v : FlowState) → get s k ≡ some v → ¬ In k (timed_out clock 0 found) → start < v.timeout
      past_start v e spared = elim (Bool-cases (leb v.timeout start)) [
        | inl due ↦ absurd (
            spared
              (timed_out-picks clock start end within 0 found k v (listed v e) (leb→le _ _ due)))
        | inr live ↦ ground arith
      ]

  -- A walk whose readings end before a flow's timeout leaves it alone.
  pub to_remove-spares :
      (clock : ℕ → TimeSpec) (start end : ℕ) (s : S) (k : ConnectionTuple) (v : FlowState)
      → ReadsWithin clock start end
      → get s k ≡ some v
      → end < v.timeout
      → ¬ In k (to_remove tracker clock s)
  unfolding to_remove
  to_remove-spares clock start end s k v within e late =
      timed_out-spares clock start end within 0 (readable (tracker.iter s)) k
        λ u h. ground (arith, tracker.iter_sound s k u (In-readable_inv (k, u) (tracker.iter s) h))

  -- A walk whose readings begin after a flow's timeout picks it.
  pub to_remove-picks :
      (clock : ℕ → TimeSpec) (start end : ℕ) (s : S) (k : ConnectionTuple) (v : FlowState)
      → ReadsWithin clock start end
      → get s k ≡ some v
      → v.timeout ≤ start
      → In k (to_remove tracker clock s)
  unfolding to_remove
  to_remove-picks clock start end s k v within e due =
      timed_out-picks clock start end within 0 (readable (tracker.iter s)) k v
        (In-readable (k, v) (tracker.iter s) (tracker.iter_complete s k v e)) due
