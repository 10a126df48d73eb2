-- ===== src/Tests/Chain.antt =====
-- A command iptables that keeps its rules in a list, and the laws that it obeys.
use Prim.Native.String.{String}
use text.Mathlib.Text.{◌==◌}
use xdp_natd.Base.{
  ℕ, suc, ◌≡◌, ◌≢◌, refl, ap, sym, ◌∙◌, Bool-cases, Bool, true, false, Result, ok, inl, inr, List,
  [], ◌∷◌, arith, if◌then◌else◌,
}
use xdp_natd.Iptables.{Iptables, specification}
use xdp_natd.Iptables.Chain.{Chain, arguments_discrete}

abbrev pub Rules : Type 0
Rules = List (List String)

pub same : List String → List String → Bool
same r s = elim (arguments_discrete r s) [ yes e ↦ true | no ne ↦ false ]

same_self : (r : List String) → same r r ≡ true
unfolding same
same_self r = decided (arguments_discrete r r)
  where
    decided : (d : Dec (r ≡ r)) → elim d as (λ x. Bool) [ yes e ↦ true | no ne ↦ false ] ≡ true
    decided (yes e) = refl
    decided (no ne) = absurd (ne refl)

same_ne : (r s : List String) → r ≢ s → same r s ≡ false
unfolding same
same_ne r s other = decided (arguments_discrete r s)
  where
    decided : (d : Dec (r ≡ s)) → elim d as (λ x. Bool) [ yes e ↦ true | no ne ↦ false ] ≡ false
    decided (yes e) = absurd (other e)
    decided (no ne) = refl

same_eq : (r s : List String) → same r s ≡ true → r ≡ s
same_eq r s h = elim (arguments_discrete r s) [
  | yes e ↦ e
  | no ne ↦ absurd (cc (h, same_ne r s ne))
]

pub count : List String → Rules → ℕ
count spec [] = 0
count spec (r ∷ n) = let rest = count spec n in if same spec r then suc rest else rest

remove : List String → Rules → Bool × Rules
remove spec [] = (false, [])
remove spec (r ∷ n) =
    let (found, rest) = remove spec n in if same spec r then (true, n) else (found, r ∷ rest)

-- The action, and what follows the name of the chain.
unfoldable pub run : String → List String → Rules → Result Bool (Unit {0}) × Rules
unfolding remove same
run action spec n =
    let (found, rest) = remove spec n in
    if action == "-A"
    then (ok true, spec ∷ n)
    else if action == "-D"
    then (ok found, rest)
    else (ok true, [])

unfoldable pub run_arguments : List String → Rules → Result Bool (Unit {0}) × Rules
unfolding run
run_arguments (t ∷ (nat ∷ (action ∷ (chain ∷ spec)))) n = run action spec n
run_arguments _ n = (ok false, n)

abbrev pub listing : Iptables Rules
listing = record { status = run_arguments }

count_self : (spec : List String) (n : Rules) → count spec (spec ∷ n) ≡ suc (count spec n)
unfolding count
count_self spec n = rw (same_self spec) refl

count-other : (spec r : List String) (n : Rules) → spec ≢ r → count spec (r ∷ n) ≡ count spec n
unfolding count
count-other spec r n ne = rw (same_ne spec r ne) refl

remove-ok :
    (spec : List String) (n : Rules)
    → (remove spec n).0 ≡ true
    → count spec n ≡ suc (count spec (remove spec n).1)
unfolding count remove
remove-ok spec [] h = ground arith
remove-ok spec (r ∷ n) h = ground (arith, remove-ok spec n)

remove-others :
    (spec s : List String) (n : Rules) → s ≢ spec → count s (remove spec n).1 ≡ count s n
unfolding count remove
remove-others spec s [] ne = refl
remove-others spec s (r ∷ n) ne = elim (Bool-cases (same spec r)) [
  | inl hit ↦ rw (hit, same_ne s r (λ e. ne (e ∙ sym (same_eq spec r hit)))) refl
  | inr miss ↦ rw (miss, remove-others spec s n ne) refl
]

remove-failed : (spec : List String) (n : Rules) → (remove spec n).0 ≢ true → (remove spec n).1 ≡ n
unfolding remove
remove-failed spec [] h = refl
remove-failed spec (r ∷ n) h = elim (Bool-cases (same spec r)) [
  | inl hit ↦ absurd (h (rw hit refl))
  | inr miss ↦ rw (miss, remove-failed spec n (λ e. h (rw miss e))) refl
]

pub listing_chain : Chain listing
unfolding run_arguments run count
listing_chain = record {
  count = count;
  appended = λ n port ip target h. count_self (specification port ip target) n;
  deleted = λ n port ip target h. remove-ok (specification port ip target) n (cc h);
  others = λ action n port ip target port' ip' target' change ne. elim change [
    | inl adds ↦
        rw adds (count-other (specification port' ip' target') (specification port ip target) n ne)
    | inr deletes ↦
        rw deletes
          (remove-others (specification port ip target) (specification port' ip' target') n ne)
  ];
  failed = λ action n port ip target port' ip' target' change failed. elim change [
    | inl adds ↦ absurd (failed (rw adds refl))
    | inr deletes ↦ rw deletes (
        ap (λ r. count (specification port' ip' target') r)
          (remove-failed (specification port ip target) n
            (λ e. failed (rw deletes (ap (λ (b : Bool). ok b) e)))))
  ];
  flushed = λ n port ip target h. refl;
}

pub no_rules : (port ip target : ℕ) → listing_chain.count (specification port ip target) [] ≡ 0
unfolding listing_chain count
no_rules port ip target = refl
