-- ===== src/Iptables/Chain.antt =====
-- What iptables documents of the chain PREROUTING, as far as the daemon uses it.
use Prim.Native.String.{String}
use mathlib.Core.List.{List-discrete}
use text.Mathlib.TextEquality.{eq_iff}
use text.Mathlib.Text.{◌==◌}
use xdp_natd.Base.{
  ℕ, suc, ◌≡◌, ◌≢◌, refl, true, ok, inl, inr, Bool-cases, List, Result, err, arith, ◌⊎◌,
}
use xdp_natd.Iptables.{
  Iptables, IptablesError, ensure_success, add_iptables_rule, remove_iptables_rule, clean_up,
  specification, rule, flush,
}

String_discrete : Discrete String
String_discrete s t = elim (Bool-cases (s == t)) [
  | inl same ↦ yes ((eq_iff s t).0 same)
  | inr other ↦ no (λ e. cc (other, (eq_iff s t).1 e))
]

unfoldable pub arguments_discrete : Discrete (List String)
unfolding String_discrete
arguments_discrete = List-discrete String_discrete

-- The daemon appends rules and deletes them.
abbrev pub IsChange : String → Type 0
IsChange action = (action ≡ "-A") ⊎ (action ≡ "-D")

-- How many rules of the chain are as a specification says, and how a call changes that. Appending
-- and deleting a rule that the daemon names change the number of these rules by one, and of no
-- others that it may name; a call that fails changes nothing.
pub record Chain {N : Type 0} (tables : Iptables N) : Type 0 where
  pub count : List String → N → ℕ
  pub appended :
      (n : N) (port ip target : ℕ)
      → (tables.status (rule "-A" port ip target) n).0 ≡ ok true
      → count (specification port ip target) (tables.status (rule "-A" port ip target) n).1
        ≡ suc (count (specification port ip target) n)
  pub deleted :
      (n : N) (port ip target : ℕ)
      → (tables.status (rule "-D" port ip target) n).0 ≡ ok true
      → count (specification port ip target) n
        ≡ suc (count (specification port ip target) (tables.status (rule "-D" port ip target) n).1)
  pub others :
      (action : String) (n : N) (port ip target port' ip' target' : ℕ)
      → IsChange action
      → specification port' ip' target' ≢ specification port ip target
      → count (specification port' ip' target') (tables.status (rule action port ip target) n).1
        ≡ count (specification port' ip' target') n
  pub failed :
      (action : String) (n : N) (port ip target port' ip' target' : ℕ)
      → IsChange action
      → (tables.status (rule action port ip target) n).0 ≢ ok true
      → count (specification port' ip' target') (tables.status (rule action port ip target) n).1
        ≡ count (specification port' ip' target') n
  pub flushed :
      (n : N) (port ip target : ℕ)
      → (tables.status flush n).0 ≡ ok true
      → count (specification port ip target) (tables.status flush n).1 ≡ 0

-- The same in terms of the daemon's calls.
module _ {N : Type 0} (tables : Iptables N) (chain : Chain tables) (port ip target : ℕ)
    (n : N) where
  abbrev added : Result (Unit {0}) IptablesError × N
  added = add_iptables_rule tables port ip target n

  abbrev removed : Result (Unit {0}) IptablesError × N
  removed = remove_iptables_rule tables port ip target n

  pub add_iptables_rule-ok :
      added.0 ≡ ok tt
      → chain.count (specification port ip target) added.1
        ≡ suc (chain.count (specification port ip target) n)
  unfolding add_iptables_rule ensure_success
  add_iptables_rule-ok e = chain.appended n port ip target (ground arith)

  pub add_iptables_rule-others :
      (port' ip' target' : ℕ)
      → specification port' ip' target' ≢ specification port ip target
      → chain.count (specification port' ip' target') added.1
        ≡ chain.count (specification port' ip' target') n
  unfolding add_iptables_rule
  add_iptables_rule-others port' ip' target' =
      chain.others "-A" n port ip target port' ip' target' (inl refl)

  pub add_iptables_rule-err :
      (e : IptablesError) (port' ip' target' : ℕ)
      → added.0 ≡ err e
      → chain.count (specification port' ip' target') added.1
        ≡ chain.count (specification port' ip' target') n
  unfolding add_iptables_rule ensure_success
  add_iptables_rule-err e port' ip' target' h =
      chain.failed "-A" n port ip target port' ip' target' (inl refl) (λ k. ground arith)

  pub remove_iptables_rule-ok :
      removed.0 ≡ ok tt
      → chain.count (specification port ip target) n
        ≡ suc (chain.count (specification port ip target) removed.1)
  unfolding remove_iptables_rule ensure_success
  remove_iptables_rule-ok e = chain.deleted n port ip target (ground arith)

  pub remove_iptables_rule-others :
      (port' ip' target' : ℕ)
      → specification port' ip' target' ≢ specification port ip target
      → chain.count (specification port' ip' target') removed.1
        ≡ chain.count (specification port' ip' target') n
  unfolding remove_iptables_rule
  remove_iptables_rule-others port' ip' target' =
      chain.others "-D" n port ip target port' ip' target' (inr refl)

  pub remove_iptables_rule-err :
      (e : IptablesError) (port' ip' target' : ℕ)
      → removed.0 ≡ err e
      → chain.count (specification port' ip' target') removed.1
        ≡ chain.count (specification port' ip' target') n
  unfolding remove_iptables_rule ensure_success
  remove_iptables_rule-err e port' ip' target' h =
      chain.failed "-D" n port ip target port' ip' target' (inr refl) (λ k. ground arith)

-- What clean_up leaves.
pub clean_up-ok :
    {N : Type 0} (tables : Iptables N) (chain : Chain tables) (n : N) (port ip target : ℕ)
    → (clean_up tables n).0 ≡ ok tt
    → chain.count (specification port ip target) (clean_up tables n).1 ≡ 0
unfolding clean_up ensure_success
clean_up-ok tables chain n port ip target e = chain.flushed n port ip target (ground arith)
