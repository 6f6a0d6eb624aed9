-- ===== src/Risk/Explain/Changes/Reports.antt =====
-- Which changes `_changes` reports, and in which direction.
use event_driven_trading_led.Base.{
  String, ◌≡◌, refl, ◌⊎◌, inl, inr, Bool, true, false, not, ◌&&◌, List, [], ◌∷◌, arith, any, All,
  All-append, All-when, ◌==◌, Bool-cases, if◌then◌else◌,
}
use event_driven_trading_led.Base.Float.{Float}
use event_driven_trading_led.Risk.Json.{Fields}
use event_driven_trading_led.Risk.Explain.Metrics.{Format}
use event_driven_trading_led.Risk.Explain.Changes.{
  Change, delta_of, is_moved, is_up, is_gain, differ, pv_change, vol_change, var_change,
  sharpe_change, risk_changes, changes,
}

module _ {F : Type 0} where
  -- whether a change of a key is among them
  abbrev pub reports : String → List (Change F) → Bool
  reports key cs = any (λ c. c.key == key) cs

module _ {F : Type 0} ⦃fl : Float F⦄ (fmt : Format F) (current previous : Fields F) where
  -- The portfolio value is reported exactly when its rounded difference is not zero; volatility
  -- likewise; VaR when its own is not zero and volatility's is; Sharpe when exactly one of the two
  -- ratios is at least zero.
  pub changes_lem :
      let cs = changes fmt current previous in
      let vol_d = delta_of 6 "volatility" current previous in
      (reports "portfolio_value" cs ≡ is_moved (delta_of 2 "portfolio_value" current previous))
      × (reports "volatility" cs ≡ is_moved vol_d)
      × (reports "var" cs ≡ (not (is_moved vol_d) && is_moved (delta_of 2 "var" current previous)))
      × (reports "sharpe" cs ≡ differ (is_gain current) (is_gain previous))
  unfolding changes risk_changes pv_change vol_change var_change sharpe_change
  changes_lem = (ground arith, ground arith, ground arith, ground arith)

  -- the direction is that of the sign of what is reported as the difference
  abbrev pub IsSigned : Change F → Type 0
  IsSigned c = (is_moved c.delta ≡ true) × (c.direction ≡ (if is_up c.delta then "up" else "down"))

  -- or that of Sharpe, where one of the two ratios is at least zero and the other is not
  abbrev pub IsReported : Change F → Type 0
  IsReported c =
      IsSigned c
      ⊎ ((c ≡ sharpe_change fmt current previous)
          × (differ (is_gain current) (is_gain previous) ≡ true))

  risk_changes-IsReported : (vol_d var_d : F) → All IsReported (risk_changes fmt vol_d var_d)
  unfolding risk_changes vol_change var_change
  risk_changes-IsReported vol_d var_d = elim (Bool-cases (is_moved vol_d)) [
    | inl moved ↦ rw moved (inl (moved, refl), tt)
    | inr flat ↦
        rw flat (All-when IsReported (is_moved var_d) (var_change fmt var_d) (λ h. inl (h, refl)))
  ]

  -- Each reported change has a difference that is not zero and a direction that says its sign, or is
  -- the change of Sharpe, where exactly one of the two ratios is at least zero.
  pub changes-IsReported : All IsReported (changes fmt current previous)
  unfolding changes
  changes-IsReported =
      let pv_d = delta_of 2 "portfolio_value" current previous in
      let pnl_d = delta_of 2 "pnl" current previous in
      let risk =
        risk_changes fmt (delta_of 6 "volatility" current previous)
          (delta_of 2 "var" current previous) in
      All-append IsReported (if is_moved pv_d then pv_change fmt pv_d pnl_d ∷ [] else []) _
        (All-when IsReported (is_moved pv_d) (pv_change fmt pv_d pnl_d)
          (λ h. inl (unfold pv_change in (h, refl))))
        (All-append IsReported risk _ (risk_changes-IsReported _ _) (
          All-when IsReported (differ (is_gain current) (is_gain previous))
            (sharpe_change fmt current previous) (λ h. inr (refl, h))))

-- Between a snapshot and itself nothing is reported, where its numbers less themselves round to zero.
pub changes_same :
    {F : Type 0} ⦃fl : Float F⦄ (fmt : Format F) (s : Fields F)
    → is_moved (delta_of 2 "portfolio_value" s s) ≡ false
    → is_moved (delta_of 6 "volatility" s s) ≡ false
    → is_moved (delta_of 2 "var" s s) ≡ false
    → changes fmt s s ≡ []
unfolding changes risk_changes
changes_same fmt s pv vol var = elim (Bool-cases (is_gain s)) [
  | inl gain ↦ rw (pv, vol, var, gain)
  | inr loss ↦ rw (pv, vol, var, loss)
]
