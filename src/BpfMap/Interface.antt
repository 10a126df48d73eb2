-- ===== src/BpfMap/Interface.antt =====
-- The operations on a BPF hash map and their documented behaviour.
use xdp_natd.Base.{ℕ, ◌≡◌, ◌≢◌, Bool, true, false, Option, none, some, List, In}

-- The flag of an insertion that must not replace an entry.
abbrev pub bpf_noexist : ℕ
bpf_noexist = 1

-- `S` is the type of a map's contents. A Boolean result is `true` for `Ok`.
pub record BpfMap (K V S : Type 0) : Type 0 where
  pub get : S → K → Option V
  -- A store through the pointer that `get_ptr_mut` returned.
  pub write : S → K → V → S
  pub insert : S → K → V → ℕ → Bool × S
  pub remove : S → K → Bool × S
  -- What a walk over the map yields; `none` is an entry that could not be read.
  pub iter : S → List (Option (K × V))
  pub get-write_self : (s : S) (k : K) (v w : V) → get s k ≡ some v → get (write s k w) k ≡ some w
  pub get-write_ne : (s : S) (j k : K) (w : V) → j ≢ k → get (write s k w) j ≡ get s j
  pub insert_ok :
      (s : S) (k : K) (v : V) (flags : ℕ)
      → (insert s k v flags).0 ≡ true
      → get (insert s k v flags).1 k ≡ some v
  pub insert_err :
      (s : S) (k : K) (v : V) (flags : ℕ)
      → (insert s k v flags).0 ≡ false
      → (insert s k v flags).1 ≡ s
  pub insert_ne :
      (s : S) (j k : K) (v : V) (flags : ℕ) → j ≢ k → get (insert s k v flags).1 j ≡ get s j
  pub insert_exists :
      (s : S) (k : K) (v w : V) → get s k ≡ some w → (insert s k v bpf_noexist).0 ≡ false
  pub remove_ok : (s : S) (k : K) → (remove s k).0 ≡ true → get (remove s k).1 k ≡ none
  pub remove_err : (s : S) (k : K) → (remove s k).0 ≡ false → (remove s k).1 ≡ s
  pub remove_ne : (s : S) (j k : K) → j ≢ k → get (remove s k).1 j ≡ get s j
  pub remove_present : (s : S) (k : K) (v : V) → get s k ≡ some v → (remove s k).0 ≡ true
  pub iter_sound : (s : S) (k : K) (v : V) → In (some (k, v)) (iter s) → get s k ≡ some v
  pub iter_complete : (s : S) (k : K) (v : V) → get s k ≡ some v → In (some (k, v)) (iter s)
