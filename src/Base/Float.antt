-- ===== src/Base/Float.antt =====
-- Python's numbers and what the runtime does with them: arithmetic, comparison, rounding, text,
-- the `statistics` module and SQLite's SUM. None of it is code of the repository, so it is a
-- parameter. JSON integers and floats are one type here.
use Prim.Native.Nat.{ℕ, ◌+◌, ◌-◌, ◌/◌, ◌^◌}
use Prim.Native.String.{String}
use mathlib.Core.Path.{◌≡◌, ap}
use mathlib.Core.Bool.{Bool, true, false, ◌||◌}
use mathlib.Core.Option.{Option, none, some}
use mathlib.Core.List.{List, [], ◌∷◌, ◌++◌, foldl}
use native.Mathlib.Omega.{arith}
use text.Mathlib.Text.{◌==◌}
use event_driven_trading_led.Base.Tests.{if◌then◌else◌}
use event_driven_trading_led.Base.Int.{
  ℤ, pos, ◌+ℤ◌, ◌-ℤ◌, ◌*ℤ◌, abs_ℤ, div_ℤ, ltb_ℤ, eqb_ℤ, +ℤ_zero,
}

pub record Float (F : Type 0) : Type 0 where
  -- `decimal n d` is the literal n / 10 ** d
  pub decimal : ℕ → ℕ → F
  pub add : F → F → F
  pub sub : F → F → F
  pub mul : F → F → F
  pub div : F → F → F
  pub neg : F → F
  pub abs : F → F
  -- `<` and `==`
  pub lt : F → F → Bool
  pub eq : F → F → Bool
  pub is_nan : F → Bool
  -- `round(x, digits)`
  pub round : ℕ → F → F
  -- `float(s)`; none is ValueError
  pub of_text : String → Option F
  -- what a TEXT column keeps of a number
  pub to_text : F → String
  -- `sum`, `statistics.mean`, `statistics.pstdev`, and SQL's COALESCE(SUM(x), 0)
  pub sum : List F → F
  pub mean : List F → F
  pub pstdev : List F → F
  pub sql_sum : List F → F

abbrev pub zero_of : {F : Type 0} → Float F → F
zero_of fl = fl.decimal 0 0

-- A zero among the summands of SUM changes no sum.
pub record SumSkipsZero {F : Type 0} (fl : Float F) : Type 0 where
  pub sum_zero : (xs ys : List F) → fl.sql_sum (xs ++ fl.decimal 0 0 ∷ ys) ≡ fl.sql_sum (xs ++ ys)

-- A number less itself is within the tolerance 1e-9.
pub record SubSelf {F : Type 0} (fl : Float F) : Type 0 where
  pub sub_self : (x : F) → fl.lt (fl.abs (fl.sub x x)) (fl.decimal 1 9) ≡ true

-- A number that is no NaN equals itself.
pub record EqSelf {F : Type 0} (fl : Float F) : Type 0 where
  pub eq_self : (x : F) → fl.is_nan x ≡ false → fl.eq x x ≡ true

-- Whole numbers in place of floats, for the concrete runs: literals are rounded up, `round` does
-- nothing, the mean is the first number, the spread is that of the first two, and one text is a
-- number.
abbrev pub sum_ℤ : List ℤ → ℤ
sum_ℤ = foldl (λ a b. a +ℤ b) (pos 0)

abbrev pub mean_ℤ : List ℤ → ℤ
mean_ℤ [] = pos 0
mean_ℤ (x ∷ xs) = x

abbrev pub pstdev_ℤ : List ℤ → ℤ
pstdev_ℤ [] = pos 0
pstdev_ℤ (x ∷ []) = pos 0
pstdev_ℤ (x ∷ y ∷ r) = abs_ℤ (x -ℤ y)

instance abbrev pub whole : Float ℤ
whole = record {
  decimal = λ n d. pos ((n + 10 ^ d - 1) / 10 ^ d);
  add = ◌+ℤ◌;
  sub = ◌-ℤ◌;
  mul = ◌*ℤ◌;
  div = div_ℤ;
  neg = λ x. pos 0 -ℤ x;
  abs = abs_ℤ;
  lt = ltb_ℤ;
  eq = eqb_ℤ;
  is_nan = λ x. false;
  round = λ d x. x;
  of_text = λ s. if s == "8000" then some (pos 8000) else none;
  to_text = λ x. "number";
  sum = sum_ℤ;
  mean = mean_ℤ;
  pstdev = pstdev_ℤ;
  sql_sum = sum_ℤ;
}

pub sum_ℤ-zero :
    (acc : ℤ) (xs ys : List ℤ)
    → foldl (λ a b. a +ℤ b) acc (xs ++ pos 0 ∷ ys) ≡ foldl (λ a b. a +ℤ b) acc (xs ++ ys)
sum_ℤ-zero acc [] ys = ap (λ a. foldl (λ x y. x +ℤ y) a ys) (+ℤ_zero acc)
sum_ℤ-zero acc (x ∷ xs) ys = sum_ℤ-zero (acc +ℤ x) xs ys

abbrev pub whole_sum_zero : SumSkipsZero whole
whole_sum_zero = record { sum_zero = sum_ℤ-zero (pos 0) }

pub sub_self_ℤ : (x : ℤ) → ltb_ℤ (abs_ℤ (x -ℤ x)) (pos 1) ≡ true
sub_self_ℤ x = ground arith

abbrev pub whole_sub_self : SubSelf whole
whole_sub_self = record { sub_self = sub_self_ℤ }

pub eq_self_ℤ : (x : ℤ) → eqb_ℤ x x ≡ true
eq_self_ℤ x = ground arith

abbrev pub whole_eq_self : EqSelf whole
whole_eq_self = record { eq_self = λ x _. eq_self_ℤ x }

-- `x <= y` and `x >= y`
abbrev pub at_most : {F : Type 0} → Float F → F → F → Bool
at_most fl x y = fl.lt x y || fl.eq x y

abbrev pub at_least : {F : Type 0} → Float F → F → F → Bool
at_least fl x y = fl.lt y x || fl.eq x y
