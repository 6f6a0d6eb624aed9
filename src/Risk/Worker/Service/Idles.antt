-- ===== src/Risk/Worker/Service/Idles.antt =====
-- When the loop of the worker's `main` ends.
use event_driven_trading_led.Base.{
  ℕ, zero, suc, ◌+◌, ◌≡◌, Bool, true, not, Option, List, [], ◌∷◌, ◌&&◌, String, leb, nat_eq,
}
use event_driven_trading_led.Base.Exec.{ok}
use event_driven_trading_led.Base.Float.{Float}
use event_driven_trading_led.Risk.Json.{Value}
use event_driven_trading_led.Risk.Config.{Config}
use event_driven_trading_led.Risk.Worker.{RiskWorker}
use event_driven_trading_led.Risk.Worker.Service.{Turn, take_turn}

-- the turns that count nothing at the end of a run whose turns count `ns`, after `empty` such turns
abbrev pub trailing : ℕ → List ℕ → ℕ
trailing empty [] = empty
trailing empty (zero ∷ ns) = trailing (empty + 1) ns
trailing empty (suc n ∷ ns) = trailing 0 ns

-- whether such a run never came to `idle_exit` empty turns in a row; with 0 it cannot
abbrev pub goes_on : ℕ → ℕ → List ℕ → Bool
goes_on idle_exit empty [] = true
goes_on idle_exit empty (zero ∷ ns) =
    not (not (nat_eq idle_exit 0) && leb idle_exit (empty + 1)) && goes_on idle_exit (empty + 1) ns
goes_on idle_exit empty (suc n ∷ ns) = goes_on idle_exit 0 ns

module _ {F : Type 0} ⦃fl : Float F⦄ (loads : String → Option (Value F)) (cfg : Config F) where
  -- turns one after the other that raise nothing, whose answers are `ns`, and that take the worker to
  -- `w'`
  abbrev pub Counts : List (Turn F) → List ℕ → RiskWorker F → RiskWorker F → Type 0
  Counts [] [] w w' = w ≡ w'
  Counts (t ∷ ts) (n ∷ ns) w w' =
      (v : RiskWorker F) × (take_turn loads cfg t w ≡ (ok n, v)) × Counts ts ns v w'
  Counts _ _ w w' = ⊥
