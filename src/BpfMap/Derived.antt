-- ===== src/BpfMap/Derived.antt =====
-- What follows from the documented behaviour, in the forms that the proofs use.
use xdp_natd.Base.{ℕ, ◌≡◌, ◌∙◌, ◌⊎◌, inl, inr, none, some, Bool-cases, Option-cases}
use xdp_natd.BpfMap.Interface.{BpfMap, bpf_noexist}

module _ {K V S : Type 0} (m : BpfMap K V S) where
  open m use {get, write, insert, remove}

  -- A removed key is absent, whatever the removal reported.
  pub get-remove_self : (s : S) (k : K) → get (remove s k).1 k ≡ none
  get-remove_self s k = elim (Option-cases (get s k)) [
    | inl absent ↦ elim (Bool-cases (remove s k).0) [
      | inl done ↦ m.remove_ok s k done
      | inr failed ↦ rw (m.remove_err s k failed) absent
    ]
    | inr (v, present) ↦ m.remove_ok s k (m.remove_present s k v present)
  ]

  -- An insertion that must not replace keeps an entry that is there.
  pub get-insert_keeps :
      (s : S) (k : K) (v w : V) → get s k ≡ some w → get (insert s k v bpf_noexist).1 k ≡ some w
  get-insert_keeps s k v w e = rw (m.insert_err s k v bpf_noexist (m.insert_exists s k v w e)) e

  -- Whatever an insertion does, a key is afterwards as it was or holds the new value.
  pub get-insert_cases :
      Discrete K
      → (s : S) (j k : K) (v : V) (flags : ℕ)
      → (get (insert s k v flags).1 j ≡ get s j)
        ⊎ ((j ≡ k) × (get (insert s k v flags).1 j ≡ some v))
  get-insert_cases d s j k v flags = elim (d j k) [
    | no ne ↦ inl (m.insert_ne s j k v flags ne)
    | yes e ↦ elim (Bool-cases (insert s k v flags).0) [
      | inl done ↦ inr (e, rw e (m.insert_ok s k v flags done))
      | inr failed ↦ inl (rw (m.insert_err s k v flags failed))
    ]
  ]

  -- So it keeps every entry, under any key.
  pub insert_keeps_all :
      Discrete K
      → (s : S) (j k : K) (v w : V) → get s j ≡ some w
      → get (insert s k v bpf_noexist).1 j ≡ some w
  insert_keeps_all d s j k v w e = elim (d j k) [
    | yes same ↦ rw same (get-insert_keeps s k v w (rw (← same) e))
    | no ne ↦ m.insert_ne s j k v bpf_noexist ne ∙ e
  ]
