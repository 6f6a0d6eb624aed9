-- ===== src/Base/Text.antt =====
-- Texts put together from parts, as f-strings are, and sets of texts.
use Prim.Native.String
use Prim.Native.String.{String}
use mathlib.Core.Bool.{Bool, true, ◌&&◌}
use mathlib.Core.List.{List, [], ◌∷◌}
use text.Mathlib.Text.{◌==◌}
use event_driven_trading_led.Base.Lists.{any}

abbrev pub joined : List String → String
joined [] = ""
joined (s ∷ ss) = String.◌++◌ s (joined ss)

-- `set(xs) == set(ys)`
abbrev pub is_within : List String → List String → Bool
is_within [] ys = true
is_within (x ∷ xs) ys = any (λ y. y == x) ys && is_within xs ys

abbrev pub same_set : List String → List String → Bool
same_set xs ys = is_within xs ys && is_within ys xs
