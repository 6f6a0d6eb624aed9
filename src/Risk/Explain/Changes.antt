-- ===== src/Risk/Explain/Changes.antt =====
-- explain.py: what changed between two snapshots, and why.
pub mod Reports
use event_driven_trading_led.Base.{
  ℕ, String, Bool, true, false, not, List, [], ◌∷◌, ◌++◌, if◌then◌else◌,
}
use event_driven_trading_led.Base.Float.{Float, zero_of, at_least}
use event_driven_trading_led.Base.Text.{joined}
use event_driven_trading_led.Risk.Json.{Fields}
use event_driven_trading_led.Risk.Explain.Metrics.{Format, number, signed_money, pct}

pub record Change (F : Type 0) : Type 0 where
  pub key : String
  pub direction : String
  pub delta : F
  pub plain : String

-- `a != b`
abbrev pub differ : Bool → Bool → Bool
differ true b = not b
differ false b = b

module _ {F : Type 0} ⦃fl : Float F⦄ where
  -- `round(_f(current, key) - _f(previous, key), digits)`
  pub delta_of : ℕ → String → Fields F → Fields F → F
  delta_of digits key current previous =
      fl.round digits (fl.sub (number current key) (number previous key))

  abbrev pub is_moved : F → Bool
  is_moved x = not (fl.eq x (zero_of fl))

  abbrev pub is_up : F → Bool
  is_up x = fl.lt (zero_of fl) x

  abbrev pub is_gain : Fields F → Bool
  is_gain s = at_least fl (number s "sharpe") (zero_of fl)

  module _ (fmt : Format F) where
    pub pv_change : F → F → Change F
    pv_change pv_d pnl_d = record {
      key = "portfolio_value";
      direction = if is_up pv_d then "up" else "down";
      delta = pv_d;
      plain = joined (
          "Your portfolio value "
          ∷ (if is_up pv_d then "rose" else "fell")
          ∷ " "
          ∷ signed_money fmt pv_d
          ∷ " since the last update, so your P&L moved by the same amount ("
          ∷ signed_money fmt pnl_d
          ∷ "). This comes from a trade you placed or a market price move in your existing holdings."
          ∷ []);
    }

    pub vol_change : F → Change F
    vol_change vol_d = record {
      key = "volatility";
      direction = if is_up vol_d then "up" else "down";
      delta = vol_d;
      plain =
          if is_up vol_d
          then joined (
              "Volatility increased (+"
              ∷ pct fmt 2 vol_d
              ∷ "), meaning your portfolio has been swinging a bit more. That's why VaR rose too — VaR is directly proportional to volatility."
              ∷ [])
          else joined (
              "Volatility eased ("
              ∷ pct fmt 2 vol_d
              ∷ "), so your portfolio has been steadier and your estimated daily risk (VaR) came down with it."
              ∷ []);
    }

    pub var_change : F → Change F
    var_change var_d = record {
      key = "var";
      direction = if is_up var_d then "up" else "down";
      delta = var_d;
      plain = joined (
          "Your VaR "
          ∷ (if is_up var_d then "rose" else "fell")
          ∷ " "
          ∷ signed_money fmt var_d
          ∷ " mainly because your portfolio size changed — VaR scales with portfolio value even when volatility holds steady."
          ∷ []);
    }

    pub sharpe_change : Fields F → Fields F → Change F
    sharpe_change current previous =
        let now = number current "sharpe" in
        let before = number previous "sharpe" in
        record {
          key = "sharpe";
          direction = if at_least fl now before then "up" else "down";
          delta = delta_of 4 "sharpe" current previous;
          plain =
              if is_gain current
              then "Your Sharpe ratio flipped positive: recent risk-adjusted return improved."
              else "Your Sharpe ratio turned negative: over the recent window your portfolio drifted down on average. It's a short-window measure and can flip back quickly.";
        }

    -- the risk entry: volatility if it moved, else VaR if that did
    pub risk_changes : F → F → List (Change F)
    risk_changes vol_d var_d =
        if is_moved vol_d
        then vol_change vol_d ∷ []
        else if is_moved var_d
        then var_change var_d ∷ []
        else []

    -- `_changes`
    pub changes : Fields F → Fields F → List (Change F)
    changes current previous =
        let pv_d = delta_of 2 "portfolio_value" current previous in
        let pnl_d = delta_of 2 "pnl" current previous in
        let vol_d = delta_of 6 "volatility" current previous in
        let var_d = delta_of 2 "var" current previous in
        (if is_moved pv_d then pv_change pv_d pnl_d ∷ [] else [])
        ++ (risk_changes vol_d var_d
            ++ (if differ (is_gain current) (is_gain previous)
                then sharpe_change current previous ∷ []
                else []))
