-- ===== src/Risk/Metrics.antt =====
-- services/risk-engine/app/metrics.py
use event_driven_trading_led.Base.{String, List, map, ltb, length, if◌then◌else◌}
use event_driven_trading_led.Base.Float.{Float, zero_of}

-- (symbol, qty, resolved_price)
pub record Holding (F : Type 0) : Type 0 where
  pub symbol : String
  pub qty : F
  pub price : F

pub record RiskMetrics (F : Type 0) : Type 0 where
  pub portfolio_value : F
  pub pnl : F
  pub volatility : F
  pub var : F
  pub var_method : String
  pub sharpe : F

pub record HistoryMetrics (F : Type 0) : Type 0 where
  pub volatility : F
  pub var : F
  pub sharpe : F

module _ {F : Type 0} ⦃fl : Float F⦄ where
  abbrev pub var_z_95 : F
  var_z_95 = fl.decimal 165 2

  unfoldable pub history_metrics : F → List F → HistoryMetrics F
  history_metrics portfolio_value returns =
      let volatility = if ltb 1 (length returns) then fl.pstdev returns else zero_of fl in
      record {
        volatility = volatility;
        var = fl.abs (fl.mul (fl.mul var_z_95 volatility) portfolio_value);
        sharpe =
            if fl.lt (zero_of fl) volatility
            then fl.div (fl.mean returns) volatility
            else zero_of fl;
      }

  -- `sum(qty * price for ...)`
  unfoldable pub market_value : List (Holding F) → F
  market_value positions = fl.sum (map (λ p. fl.mul p.qty p.price) positions)

  unfoldable pub compute_metrics : F → List (Holding F) → F → String → List F → RiskMetrics F
  compute_metrics cash positions seed_cash var_method pv_returns =
      let portfolio_value = fl.add cash (market_value positions) in
      let pnl = fl.sub portfolio_value seed_cash in
      let h = history_metrics portfolio_value pv_returns in
      record {
        portfolio_value = fl.round 2 portfolio_value;
        pnl = fl.round 2 pnl;
        volatility = fl.round 6 h.volatility;
        var = fl.round 2 h.var;
        var_method = var_method;
        sharpe = fl.round 4 h.sharpe;
      }
