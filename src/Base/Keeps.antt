-- ===== src/Base/Keeps.antt =====
-- A property that a method keeps, whether it returns or raises.
use mathlib.Core.Path.{subst}
use mathlib.Core.Logic.{inl, inr}
use mathlib.Core.Bool.{Bool, true, false}
use event_driven_trading_led.Base.Tests.{if◌then◌else◌}
use event_driven_trading_led.Base.Exec.{Exec, Result, lift, ◌>>=◌, Run-cases}

abbrev pub Keeps : {S A : Type 0} → (S → Type 0) → Exec S A → Type 0
Keeps {S} P m = (s : S) → P s → P (m s).1

module _ {S A B : Type 0} (P : S → Type 0) where
  -- a method and what follows it
  pub Keeps-bind :
      (m : Exec S A) (f : A → Exec S B) → Keeps P m → ((a : A) → Keeps P (f a)) → Keeps P (m >>= f)
  Keeps-bind m f first then_keeps s h = elim (Run-cases (m s)) [
    | inl (e, t, raised) ↦ rw raised (subst (λ (p : Result A × S). P p.1) raised (first s h))
    | inr (a, t, done) ↦
        rw done (then_keeps a t (subst (λ (p : Result A × S). P p.1) done (first s h)))
  ]

  -- what follows a value that may be an exception
  pub Keeps-lift :
      (r : Result A) (f : A → Exec S B) → ((a : A) → Keeps P (f a)) → Keeps P (lift r >>= f)
  Keeps-lift r f then_keeps = Keeps-bind (lift r) f (λ s h. h) then_keeps

module _ {S A : Type 0} (P : S → Type 0) where
  pub Keeps-if : (b : Bool) (m k : Exec S A) → Keeps P m → Keeps P k → Keeps P (if b then m else k)
  Keeps-if true m k hm hk = hm
  Keeps-if false m k hm hk = hk
