-- ===== src/PortAllocator/Partition.antt =====
-- The ports of a range, each either free or exposed.
use xdp_natd.Base.{
  ℕ, zero, suc, ◌+◌, ◌≤◌, ◌<◌, ◌≡◌, ◌≢◌, refl, sym, ap, ◌∙◌, ◌⊎◌, inl, inr, none, some, List, [],
  ◌∷◌, ◌++◌, In, arith, ℕ_discrete,
}
use xdp_natd.Common.{ContainerInfo}
use xdp_natd.BpfMap.{BpfMap}
use xdp_natd.PortAllocator.{count_up, new}

abbrev pub Distinct : List ℕ → Type 0
Distinct [] = Unit
Distinct (x ∷ xs) = (¬ In x xs) × Distinct xs

pub In-append : (p : ℕ) (xs ys : List ℕ) → In p (xs ++ ys) → In p xs ⊎ In p ys
In-append p [] ys h = inr h
In-append p (x ∷ xs) ys h = ground (arith, In-append p xs ys)

pub In-append_left : (p : ℕ) (xs ys : List ℕ) → In p xs → In p (xs ++ ys)
In-append_left p [] ys h = absurd h
In-append_left p (x ∷ xs) ys h = ground (arith, In-append_left p xs ys)

pub In-append_last : (p : ℕ) (xs : List ℕ) → In p (xs ++ p ∷ [])
In-append_last p [] = inl refl
In-append_last p (x ∷ xs) = inr (In-append_last p xs)

Distinct-append : (p : ℕ) (xs : List ℕ) → Distinct xs → ¬ In p xs → Distinct (xs ++ p ∷ [])
Distinct-append p [] d h = ((λ e. e), tt)
Distinct-append p (x ∷ xs) d h = (
  (λ i. ground (arith, In-append x xs (p ∷ []), d.0, h)),
  Distinct-append p xs d.1 (λ i. h (inr i)),
)

In-count_up : (first n p : ℕ) → In p (count_up first n) → (first ≤ p) × (p < first + n)
In-count_up first zero p h = absurd h
In-count_up first (suc n) p h = ground (arith, In-count_up (suc first) n p)

count_up-In : (first n p : ℕ) → first ≤ p → p < first + n → In p (count_up first n)
count_up-In first zero p h k = absurd (omega arith)
count_up-In first (suc n) p h k = elim (ℕ_discrete p first) [
  | yes own ↦ inl own
  | no ne ↦ inr (count_up-In (suc first) n p (omega arith) (omega arith))
]

Distinct-count_up : (first n : ℕ) → Distinct (count_up first n)
Distinct-count_up first zero = tt
Distinct-count_up first (suc n) = (
  (λ h. absurd (omega (arith, In-count_up (suc first) n first h))),
  Distinct-count_up (suc first) n,
)

module _ {E : Type 0} (exposed : BpfMap ℕ ContainerInfo E) (lower upper : ℕ) where
  open exposed use {get}

  pub record Partition (free : List ℕ) (e : E) : Type 0 where
    -- No port is free twice, or free and exposed.
    pub distinct : Distinct free
    pub apart : (p : ℕ) → In p free → get e p ≡ none
    -- The free and the exposed ports are those of the range.
    pub free_inside : (p : ℕ) → In p free → (lower ≤ p) × (p ≤ upper)
    pub exposed_inside : (p : ℕ) → get e p ≢ none → (lower ≤ p) × (p ≤ upper)
    pub covered : (p : ℕ) → lower ≤ p → p ≤ upper → In p free ⊎ (get e p ≢ none)

  -- A new allocator for a non-empty range, beside a map with no entries: each port of the range is
  -- free, once, none is exposed, and no other port is either.
  pub new-Partition :
      (e : E) → ((p : ℕ) → get e p ≡ none) → lower ≤ upper → Partition (new lower upper).ports e
  new-Partition e empty order = record {
    distinct = Distinct-count_up lower _;
    apart = λ p h. empty p;
    free_inside = λ p h. omega (arith, In-count_up lower _ p h);
    exposed_inside = λ p h. absurd (h (empty p));
    covered = λ p h k. inl (count_up-In lower _ p h (omega arith));
  }

  -- The first free port is exposed.
  pub Partition-take :
      (p : ℕ) (rest : List ℕ) (e e' : E) (info : ContainerInfo)
      → Partition (p ∷ rest) e
      → get e' p ≡ some info
      → ((j : ℕ) → j ≢ p → get e' j ≡ get e j)
      → Partition rest e'
  Partition-take p rest e e' info v here others = record {
    distinct = v.distinct.1;
    apart = λ q h. elim (ℕ_discrete q p) [
      | yes own ↦ absurd (v.distinct.0 (rw own at h))
      | no ne ↦ others q ne ∙ v.apart q (inr h)
    ];
    free_inside = λ q h. v.free_inside q (inr h);
    exposed_inside = λ q h. elim (ℕ_discrete q p) [
      | yes own ↦ v.free_inside q (inl own)
      | no ne ↦ v.exposed_inside q (λ z. h (others q ne ∙ z))
    ];
    covered = λ q h k. elim (ℕ_discrete q p) [
      | yes own ↦ inr (λ z. cc (ap (get e') own))
      | no ne ↦ elim (v.covered q h k) [
        | inl (inl own) ↦ absurd (ne own)
        | inl (inr i) ↦ inl i
        | inr x ↦ inr (λ z. x (sym (others q ne) ∙ z))
      ]
    ];
  }

  -- An exposed port becomes free, as the last.
  pub Partition-give :
      (p : ℕ) (free : List ℕ) (e e' : E)
      → Partition free e
      → get e p ≢ none
      → get e' p ≡ none
      → ((j : ℕ) → j ≢ p → get e' j ≡ get e j)
      → Partition (free ++ p ∷ []) e'
  Partition-give p free e e' v was here others = record {
    distinct = Distinct-append p free v.distinct (λ i. was (v.apart p i));
    apart = λ q h. elim (ℕ_discrete q p) [
      | yes own ↦ rw own here
      | no ne ↦ elim (In-append q free (p ∷ []) h) [
        | inl i ↦ others q ne ∙ v.apart q i
        | inr (inl own) ↦ absurd (ne own)
        | inr (inr i) ↦ absurd i
      ]
    ];
    free_inside = λ q h. elim (In-append q free (p ∷ []) h) [
      | inl i ↦ v.free_inside q i
      | inr (inl own) ↦ rw own (v.exposed_inside p was)
      | inr (inr i) ↦ absurd i
    ];
    exposed_inside = λ q h. elim (ℕ_discrete q p) [
      | yes own ↦ absurd (h (rw own here))
      | no ne ↦ v.exposed_inside q (λ z. h (others q ne ∙ z))
    ];
    covered = λ q h k. elim (ℕ_discrete q p) [
      | yes own ↦ inl (rw own (In-append_last p free))
      | no ne ↦ elim (v.covered q h k) [
        | inl i ↦ inl (In-append_left q free (p ∷ []) i)
        | inr x ↦ inr (λ z. x (sym (others q ne) ∙ z))
      ]
    ];
  }

  -- The first free port becomes the last.
  pub Partition-rotate :
      (p : ℕ) (rest : List ℕ) (e : E) → Partition (p ∷ rest) e → Partition (rest ++ p ∷ []) e
  Partition-rotate p rest e v = record {
    distinct = Distinct-append p rest v.distinct.1 v.distinct.0;
    apart = λ q h. v.apart q (turned q h);
    free_inside = λ q h. v.free_inside q (turned q h);
    exposed_inside = v.exposed_inside;
    covered = λ q h k. elim (v.covered q h k) [
      | inl (inl own) ↦ inl (rw own (In-append_last p rest))
      | inl (inr i) ↦ inl (In-append_left q rest (p ∷ []) i)
      | inr x ↦ inr x
    ];
  }
    where
      turned : (q : ℕ) → In q (rest ++ p ∷ []) → In q (p ∷ rest)
      turned q h = ground (arith, In-append q rest (p ∷ []) h)
