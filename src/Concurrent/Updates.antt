-- ===== src/Concurrent/Updates.antt =====
-- What a store to a field does to the entries.
use xdp_natd.Base.{◌≡◌, ◌≢◌, refl, sym, ◌∙◌, inl, inr, none, some, Option-cases}
use xdp_natd.Common.{ConnectionTuple, ConnectionTuple-discrete, FlowState}
use xdp_natd.BpfMap.{BpfMap}
use xdp_natd.Concurrent.{update}

module _ {S : Type 0} (tracker : BpfMap ConnectionTuple FlowState S) where
  open tracker use {get, write}

  -- The same entries.
  abbrev pub Same : S → S → Type 0
  Same s s' = (j : ConnectionTuple) → get s j ≡ get s' j

  pub get-update_self :
      (s : S) (key : ConnectionTuple) (f : FlowState → FlowState) (v : FlowState)
      → get s key ≡ some v
      → get (update tracker s key f) key ≡ some (f v)
  unfolding update
  get-update_self s key f v e = rw (e, update) (tracker.get-write_self s key v (f v) e)

  pub get-update_ne :
      (s : S) (j key : ConnectionTuple) (f : FlowState → FlowState)
      → j ≢ key
      → get (update tracker s key f) j ≡ get s j
  unfolding update
  get-update_ne s j key f ne = elim (Option-cases (get s key)) [
    | inl absent ↦ rw (absent, update) refl
    | inr (v, e) ↦ rw (e, update) (tracker.get-write_ne s j key (f v) ne)
  ]

  pub get-update_absent :
      (s : S) (j key : ConnectionTuple) (f : FlowState → FlowState)
      → get s key ≡ none
      → get (update tracker s key f) j ≡ get s j
  unfolding update
  get-update_absent s j key f absent = rw (absent, update) refl

  -- Stores to two fields are one store.
  pub update-update :
      (s s' : S) (key : ConnectionTuple) (f g : FlowState → FlowState) (v : FlowState)
      → Same s s'
      → get s' key ≡ some v
      → Same (update tracker (update tracker s key f) key g) (write s' key (g (f v)))
  update-update s s' key f g v same e j = elim (ConnectionTuple-discrete j key) [
    | yes own ↦ rw own (
        get-update_self (update tracker s key f) key g (f v)
          (get-update_self s key f v (same key ∙ e))
        ∙ sym (tracker.get-write_self s' key v (g (f v)) e))
    | no ne ↦
        get-update_ne (update tracker s key f) j key g ne
        ∙ get-update_ne s j key f ne
        ∙ same j
        ∙ sym (tracker.get-write_ne s' j key (g (f v)) ne)
  ]

  pub update-write :
      (s : S) (key : ConnectionTuple) (f : FlowState → FlowState) (v : FlowState)
      → get s key ≡ some v
      → update tracker s key f ≡ write s key (f v)
  unfolding update
  update-write s key f v e = rw (e, update) refl

  pub write_unchanged :
      (s : S) (key : ConnectionTuple) (v : FlowState) → get s key ≡ some v → Same s (write s key v)
  write_unchanged s key v e j = elim (ConnectionTuple-discrete j key) [
    | yes own ↦ rw own (e ∙ sym (tracker.get-write_self s key v v e))
    | no ne ↦ sym (tracker.get-write_ne s j key v ne)
  ]
