-- ===== src/Base/Exec.antt =====
-- Python's exceptions, and methods that change an object and may raise. What was written before
-- the raise stays written, so the state comes back beside the error.
use mathlib.Core.Path.{◌≡◌, refl}
use mathlib.Core.Logic.{◌⊎◌, inl, inr}
use mathlib.Core.Bool.{Bool, true, false}
use mathlib.Core.Option.{Option, none, some}

pub data Error : Type 0 where
  -- `float("abc")`, `json.loads("{")`
  value_error : Error
  -- `float([])`, `None[0]`
  type_error : Error
  -- `.get` of something that is no dict
  attribute_error : Error
  -- `d[k]` on a missing key
  key_error : Error
  -- `xs[0]` of a list that is empty
  index_error : Error
  -- a NOT NULL column of SQLite is given NULL, as which it stores NaN
  integrity_error : Error
  -- a value that SQLite cannot bind to a `?`
  interface_error : Error
  -- a failed `assert`
  assertion_error : Error
  -- an error that Redis answers
  response_error : Error
  -- `CrashInjected`, or the death of the process at a chosen point
  crash_injected : Error

pub data Result {ℓ} (A : Type ℓ) : Type ℓ where
  ok : A → Result A
  err : Error → Result A

abbrev pub bind_result {ℓ κ} : {A : Type ℓ} {B : Type κ} → Result A → (A → Result B) → Result B
bind_result (ok a) f = f a
bind_result (err e) f = err e

abbrev pub or_raise {ℓ} : {A : Type ℓ} → Option A → Error → Result A
or_raise none e = err e
or_raise (some a) e = ok a

-- `assert b`
unfoldable pub assert_that : Bool → Result (Unit {0})
assert_that true = ok tt
assert_that false = err assertion_error

abbrev pub Exec {ℓ} : Type ℓ → Type ℓ → Type ℓ
Exec S A = S → Result A × S

module _ {ℓ} {S A : Type ℓ} where
  abbrev pub pure : A → Exec S A
  pure a s = (ok a, s)

  abbrev pub raise : Error → Exec S A
  raise e s = (err e, s)

  abbrev pub lift : Result A → Exec S A
  lift r s = (r, s)

  abbrev pub gets : (S → A) → Exec S A
  gets f s = (ok (f s), s)

  -- `d[k]`, or a row that must be there
  abbrev pub demand : (S → Option A) → Error → Exec S A
  demand f e s = (or_raise (f s) e, s)

module _ {ℓ} {S A B : Type ℓ} where
  abbrev pub continue : Result A → (A → Exec S B) → S → Result B × S
  continue (ok a) f s = f a s
  continue (err e) f s = (err e, s)

  infixl 5 ◌>>=◌ ◌>>◌
  abbrev pub ◌>>=◌ : Exec S A → (A → Exec S B) → Exec S B
  ◌>>=◌ m f s = continue (m s).0 f (m s).1

  abbrev pub ◌>>◌ : Exec S A → Exec S B → Exec S B
  ◌>>◌ m k s = continue (m s).0 (λ _. k) (m s).1

abbrev pub modify : {S : Type 0} → (S → S) → Exec S Unit
modify f s = (ok tt, f s)

pub Result-cases :
    {A : Type 0} → (r : Result A) → ((e : Error) × (r ≡ err e)) ⊎ ((x : A) × (r ≡ ok x))
Result-cases (err e) = inl (e, refl)
Result-cases (ok x) = inr (x, refl)

-- the three ends of a method that may return None
pub Answer-cases :
    {A S : Type 0}
    → (p : Result (Option A) × S)
    → ((e : Error) × (s : S) × (p ≡ (err e, s)))
      ⊎ (((s : S) × (p ≡ (ok none, s))) ⊎ ((a : A) × (s : S) × (p ≡ (ok (some a), s))))
Answer-cases (err e, s) = inl (e, s, refl)
Answer-cases (ok none, s) = inr (inl (s, refl))
Answer-cases (ok (some a), s) = inr (inr (a, s, refl))

-- a method raises, or returns
pub Run-cases :
    {A S : Type 0}
    → (p : Result A × S)
    → ((e : Error) × (s : S) × (p ≡ (err e, s))) ⊎ ((a : A) × (s : S) × (p ≡ (ok a, s)))
Run-cases (err e, s) = inl (e, s, refl)
Run-cases (ok a, s) = inr (a, s, refl)
