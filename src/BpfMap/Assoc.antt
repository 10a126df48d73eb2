-- ===== src/BpfMap/Assoc.antt =====
-- A concrete map: an association list with a capacity. It shows that the documented behaviour can
-- be met, and runs in tests.
use mathlib.Core.Logic.{ite}
use xdp_natd.Base.{
  ℕ, ◌≡◌, ◌≢◌, refl, Bool, true, false, Option, none, some, List, [], ◌∷◌, In, arith, length, inl,
  inr, Option-cases, ltb, ◌==◌, if◌then◌else◌, map,
}
use xdp_natd.BpfMap.Interface.{BpfMap, bpf_noexist}

module _ {K V : Type 0} (d : Discrete K) where
  abbrev lookup : List (K × V) → K → Option V
  lookup [] k = none
  lookup ((j, v) ∷ s) k = ite (d k j) (some v) (lookup s k)

  abbrev write : List (K × V) → K → V → List (K × V)
  write [] k w = []
  write ((j, v) ∷ s) k w = ite (d k j) ((j, w) ∷ s) ((j, v) ∷ write s k w)

  abbrev erase : List (K × V) → K → List (K × V)
  erase [] k = []
  erase ((j, v) ∷ s) k = ite (d k j) (erase s k) ((j, v) ∷ erase s k)

  -- A full map and a flag that forbids the insertion are errors.
  abbrev insert : ℕ → List (K × V) → K → V → ℕ → Bool × List (K × V)
  insert capacity s k v flags = elim (lookup s k) [
    | some w ↦ if flags == bpf_noexist then (false, s) else (true, write s k v)
    | none ↦ if ltb (length s) capacity then (true, (k, v) ∷ s) else (false, s)
  ]

  abbrev remove : List (K × V) → K → Bool × List (K × V)
  remove s k = elim (lookup s k) [ some w ↦ (true, erase s k) | none ↦ (false, s) ]

  -- The first entry of each key.
  abbrev distinct : List (K × V) → List (K × V)
  distinct [] = []
  distinct ((k, v) ∷ s) = (k, v) ∷ erase (distinct s) k

  abbrev iter : List (K × V) → List (Option (K × V))
  iter s = map some (distinct s)

  pub lookup-write_self :
      (s : List (K × V)) (k : K) (v w : V) → lookup s k ≡ some v → lookup (write s k w) k ≡ some w
  lookup-write_self [] k v w e = cc
  lookup-write_self ((j, u) ∷ s) k v w e = ground (arith, lookup-write_self s k v w)

  pub lookup-write_ne :
      (s : List (K × V)) (j k : K) (w : V) → j ≢ k → lookup (write s k w) j ≡ lookup s j
  lookup-write_ne [] j k w ne = refl
  lookup-write_ne ((i, u) ∷ s) j k w ne = ground (arith, lookup-write_ne s j k w ne)

  pub lookup-erase_self : (s : List (K × V)) (k : K) → lookup (erase s k) k ≡ none
  lookup-erase_self [] k = refl
  lookup-erase_self ((j, u) ∷ s) k = ground (arith, lookup-erase_self s k)

  pub lookup-erase_ne : (s : List (K × V)) (j k : K) → j ≢ k → lookup (erase s k) j ≡ lookup s j
  lookup-erase_ne [] j k ne = refl
  lookup-erase_ne ((i, u) ∷ s) j k ne = ground (arith, lookup-erase_ne s j k ne)

  In-erase :
      (s : List (K × V)) (j k : K) (v : V)
      → In (some (k, v)) (map some (erase s j))
      → (k ≢ j) × In (some (k, v)) (map some s)
  In-erase [] j k v h = absurd h
  In-erase ((i, u) ∷ s) j k v h = ground (arith, In-erase s j k v)

  In-erase_ne :
      (s : List (K × V)) (j k : K) (v : V)
      → k ≢ j
      → In (some (k, v)) (map some s)
      → In (some (k, v)) (map some (erase s j))
  In-erase_ne [] j k v ne h = absurd h
  In-erase_ne ((i, u) ∷ s) j k v ne h = ground (arith, In-erase_ne s j k v ne)

  pub iter_sound :
      (s : List (K × V)) (k : K) (v : V) → In (some (k, v)) (iter s) → lookup s k ≡ some v
  iter_sound [] k v h = absurd h
  iter_sound ((j, u) ∷ s) k v h = ground (arith, In-erase (distinct s) j k v, iter_sound s k v)

  pub iter_complete :
      (s : List (K × V)) (k : K) (v : V) → lookup s k ≡ some v → In (some (k, v)) (iter s)
  iter_complete [] k v e = cc
  iter_complete ((j, u) ∷ s) k v e =
      ground (arith, In-erase_ne (distinct s) j k v, iter_complete s k v)

  module _ (capacity : ℕ) (s : List (K × V)) (k : K) where
    pub insert_ok :
        (v : V) (flags : ℕ)
        → (insert capacity s k v flags).0 ≡ true
        → lookup (insert capacity s k v flags).1 k ≡ some v
    insert_ok v flags h = elim (Option-cases (lookup s k)) [
      | inl absent ↦ ground arith
      | inr (w, present) ↦ ground (arith, lookup-write_self s k w v present)
    ]

    pub insert_err :
        (v : V) (flags : ℕ)
        → (insert capacity s k v flags).0 ≡ false
        → (insert capacity s k v flags).1 ≡ s
    insert_err v flags h = ground arith

    pub insert_ne :
        (j : K) (v : V) (flags : ℕ) → j ≢ k → lookup (insert capacity s k v flags).1 j ≡ lookup s j
    insert_ne j v flags ne = ground (arith, lookup-write_ne s j k v ne)

    pub insert_exists :
        (v w : V) → lookup s k ≡ some w → (insert capacity s k v bpf_noexist).0 ≡ false
    insert_exists v w e = ground arith

  module _ (s : List (K × V)) (k : K) where
    pub remove_ok : (remove s k).0 ≡ true → lookup (remove s k).1 k ≡ none
    remove_ok h = ground (arith, lookup-erase_self s k)

    pub remove_err : (remove s k).0 ≡ false → (remove s k).1 ≡ s
    remove_err h = ground arith

    pub remove_ne : (j : K) → j ≢ k → lookup (remove s k).1 j ≡ lookup s j
    remove_ne j ne = ground (arith, lookup-erase_ne s j k ne)

    pub remove_present : (v : V) → lookup s k ≡ some v → (remove s k).0 ≡ true
    remove_present v e = ground arith

  -- A map that holds at most `capacity` keys.
  abbrev pub assoc_map : ℕ → BpfMap K V (List (K × V))
  assoc_map capacity = record {
    get = lookup;
    write = write;
    insert = insert capacity;
    remove = remove;
    iter = iter;
    get-write_self = lookup-write_self;
    get-write_ne = lookup-write_ne;
    insert_ok = insert_ok capacity;
    insert_err = insert_err capacity;
    insert_ne = λ s j k. insert_ne capacity s k j;
    insert_exists = insert_exists capacity;
    remove_ok = remove_ok;
    remove_err = remove_err;
    remove_ne = λ s j k. remove_ne s k j;
    remove_present = remove_present;
    iter_sound = iter_sound;
    iter_complete = iter_complete;
  }
