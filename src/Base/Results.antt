-- ===== src/Base/Results.antt =====
-- Rust's `Result`, its `?` as the bind of a `do` block.
use mathlib.Core.Path.{◌≡◌, refl}
use mathlib.Core.Option.{Option, none, some}

pub data Result (A E : Type 0) : Type 0 where
  ok : A → Result A E
  err : E → Result A E

infixl 5 ◌>>=◌
abbrev pub ◌>>=◌ : {A B E : Type 0} → Result A E → (A → Result B E) → Result B E
ok a >>= f = f a
err e >>= f = err e

-- `ok_or`, `context(..)` and `map_err`: an error in place of `None`.
abbrev pub or_err : {A E : Type 0} → E → Option A → Result A E
or_err e none = err e
or_err e (some a) = ok a

-- Both parts of a successful chain succeed.
pub >>=-eq-ok :
    {A B E : Type 0} (m : Result A E) (f : A → Result B E) (b : B)
    → (m >>= f) ≡ ok b
    → (a : A) × (m ≡ ok a) × (f a ≡ ok b)
>>=-eq-ok (ok a) f b h = (a, refl, h)
>>=-eq-ok (err e) f b h = cc h

pub or_err-eq-ok :
    {A B E : Type 0} (e : E) (o : Option A) (f : A → Result B E) (b : B)
    → (or_err e o >>= f) ≡ ok b
    → (a : A) × (o ≡ some a) × (f a ≡ ok b)
or_err-eq-ok e none f b h = cc h
or_err-eq-ok e (some a) f b h = (a, refl, h)

pub ok_inj : {A E : Type 0} (a b : A) → Path (Result A E) (ok a) (ok b) → a ≡ b
ok_inj a b h = cc h
