-- ===== src/Base/Keys.antt =====
-- Dicts with distinct keys: what `d[k] = v` keeps of them, and where their items are found.
use mathlib.Core.Path.{◌≡◌}
use mathlib.Core.Logic.{inl, inr}
use mathlib.Core.Bool.{true, false}
use mathlib.Core.Option.{some}
use mathlib.Core.List.{[], ◌∷◌, map}
use Prim.Native.String.{String}
use native.Mathlib.Omega.{arith}
use text.Mathlib.Text.{◌==◌}
use text.Mathlib.TextEquality.{eq_iff}
use event_driven_trading_led.Base.Tests.{Bool-cases}
use event_driven_trading_led.Base.Lists.{All}
use event_driven_trading_led.Base.Dict.{Dict, lookup, insert}

-- a key stands once, as the keys of a dict and the fields of an entry do
abbrev pub HasDistinctKeys : {V : Type 0} → Dict V → Type 0
HasDistinctKeys [] = Unit
HasDistinctKeys ((k, _) ∷ d) = All (λ item. (k == item.0) ≡ false) d × HasDistinctKeys d

module _ {V : Type 0} where
  pub insert-All :
      (P : String × V → Type 0) (k : String) (v : V) (d : Dict V)
      → All P d
      → ((j : String) → (j == k) ≡ true → P (j, v))
      → P (k, v)
      → All P (insert k v d)
  unfolding insert
  insert-All P k v [] h same new = (new, tt)
  insert-All P k v ((j, w) ∷ d) h same new = elim (Bool-cases (j == k)) [
    | inl here ↦ rw here (same j here, h.1)
    | inr there ↦ rw there (h.0, insert-All P k v d h.1 same new)
  ]

  pub insert-HasDistinctKeys :
      (k : String) (v : V) (d : Dict V) → HasDistinctKeys d → HasDistinctKeys (insert k v d)
  unfolding insert
  insert-HasDistinctKeys k v [] h = (tt, tt)
  insert-HasDistinctKeys k v ((j, w) ∷ d) h = elim (Bool-cases (j == k)) [
    | inl here ↦ rw here h
    | inr there ↦ rw there (
      insert-All (λ item. (j == item.0) ≡ false) k v d h.0
          (λ i same. ground (arith, eq_iff i k, eq_iff j i, eq_iff j k)) there,
      insert-HasDistinctKeys k v d h.1,
    )
  ]

module _ {V W : Type 0} (f : V → W) where
  -- each item of a dict stands in `base` under its key, as `f` writes it
  pub AreIn : Dict V → Dict W → Type 0
  AreIn d base = All (λ item. lookup item.0 base ≡ some (f item.1)) d

  pub AreIn-head :
      (k : String) (v : V) (d : Dict V) (base : Dict W)
      → AreIn ((k, v) ∷ d) base
      → (lookup k base ≡ some (f v)) × AreIn d base
  unfolding AreIn
  AreIn-head k v d base h = h

  AreIn-cons :
      (k : String) (v : W) (d : Dict V) (base : Dict W)
      → All (λ item. (k == item.0) ≡ false) d
      → AreIn d base
      → AreIn d ((k, v) ∷ base)
  unfolding AreIn lookup
  AreIn-cons k v [] base apart h = tt
  AreIn-cons k v (x ∷ d) base apart h = (rw apart.0 h.0, AreIn-cons k v d base apart.1 h.1)

  pub AreIn-map : (d : Dict V) → HasDistinctKeys d → AreIn d (map (λ item. (item.0, f item.1)) d)
  unfolding AreIn lookup
  AreIn-map [] h = tt
  AreIn-map ((k, q) ∷ d) h = (
    ground (arith, eq_iff k k),
    AreIn-cons k (f q) d (map (λ item. (item.0, f item.1)) d) h.0 (AreIn-map d h.1),
  )
