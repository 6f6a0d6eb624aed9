-- ===== src/Risk/Explain/Metrics.antt =====
-- explain.py: the numbers of a snapshot, the formats, the bands, and the text of each metric.
use event_driven_trading_led.Base.{ℕ, String, List, [], ◌∷◌, if◌then◌else◌}
use event_driven_trading_led.Base.Exec.{ok, err}
use event_driven_trading_led.Base.Float.{Float, zero_of, at_most, at_least}
use event_driven_trading_led.Base.Text.{joined}
use event_driven_trading_led.Risk.Json.{Fields, get_field, to_float}

-- how the runtime writes a number: `f"{x:,.2f}"`, `f"{x:.{digits}f}"` and `str(int(x))`
pub record Format (F : Type 0) : Type 0 where
  pub grouped : F → String
  pub fixed : ℕ → F → String
  pub truncated : F → String

pub record Metric (F : Type 0) : Type 0 where
  pub key : String
  pub label : String
  pub value : F
  pub plain : String

module _ {F : Type 0} ⦃fl : Float F⦄ where
  -- `_f` with its default of 0.0, which None, a missing key and what is no number get too
  unfoldable pub number : Fields F → String → F
  number snapshot key = elim (to_float (get_field key snapshot)) [ ok x ↦ x | err e ↦ zero_of fl ]

  pub vol_band : F → String
  vol_band volatility =
      if at_most fl volatility (zero_of fl)
      then "not measurable yet"
      else if fl.lt volatility (fl.decimal 1 3)
      then "very calm"
      else if fl.lt volatility (fl.decimal 5 3)
      then "low"
      else if fl.lt volatility (fl.decimal 2 2)
      then "moderate"
      else "elevated"

  pub sharpe_band : F → F → String
  sharpe_band sharpe volatility =
      if at_most fl volatility (zero_of fl)
      then "not measurable yet"
      else if at_least fl sharpe (fl.decimal 10 1)
      then "strong"
      else if fl.lt (zero_of fl) sharpe
      then "modestly positive"
      else if fl.eq sharpe (zero_of fl)
      then "flat"
      else "negative"

  -- `round(pv - pnl, 2)`
  pub seed_of : Fields F → F
  seed_of s = fl.round 2 (fl.sub (number s "portfolio_value") (number s "pnl"))

  -- `(a / b) if b else 0.0`
  pub share : F → F → F
  share a b = if fl.eq b (zero_of fl) then zero_of fl else fl.div a b

  -- `VAR_CONFIDENCE * 100`
  abbrev pub confidence : F
  confidence = fl.mul (fl.decimal 95 2) (fl.decimal 100 0)

  module _ (fmt : Format F) where
    pub money : F → String
    money x = joined ("$" ∷ fmt.grouped x ∷ [])

    pub signed_money : F → String
    signed_money x =
        joined ((if at_least fl x (zero_of fl) then "+" else "-") ∷ money (fl.abs x) ∷ [])

    pub pct : ℕ → F → String
    pct digits x = joined (fmt.fixed digits (fl.mul x (fl.decimal 100 0)) ∷ "%" ∷ [])

    pub pnl_plain : Fields F → String
    pnl_plain s =
        let pnl = number s "pnl" in
        let pnl_pct = share pnl (seed_of s) in
        if at_least fl pnl (zero_of fl)
        then joined (
            "You're up "
            ∷ money pnl
            ∷ " ("
            ∷ pct 1 pnl_pct
            ∷ ") compared with your starting cash of "
            ∷ money (seed_of s)
            ∷ ". This is an on-paper (unrealized) gain: it moves with market prices and isn't locked in until you sell."
            ∷ [])
        else joined (
            "You're down "
            ∷ money (fl.abs pnl)
            ∷ " ("
            ∷ pct 1 pnl_pct
            ∷ ") compared with your starting cash of "
            ∷ money (seed_of s)
            ∷ ". This is an on-paper (unrealized) loss and will move back up if prices recover."
            ∷ [])

    pub vol_plain : F → String
    vol_plain vol =
        if at_most fl vol (zero_of fl)
        then "Volatility measures how much your portfolio value bounces around between updates. There isn't enough price history yet to measure it — it fills in after a short while of live prices."
        else joined (
            "Volatility measures how much your portfolio value swings between updates. At "
            ∷ pct 2 vol
            ∷ " it's currently "
            ∷ vol_band vol
            ∷ " — a higher number means bigger swings both up and down."
            ∷ [])

    pub var_plain : Fields F → String
    var_plain s =
        let var = number s "var" in
        if at_most fl var (zero_of fl)
        then "Value at Risk (VaR) estimates your likely worst-case loss on a normal day. There isn't enough history yet to compute it."
        else joined (
            "Value at Risk (VaR) estimates your downside on a normal day. With about "
            ∷ fmt.truncated confidence
            ∷ "% confidence, you wouldn't expect to lose more than "
            ∷ money var
            ∷ " over 1 trading day — roughly "
            ∷ pct 2 (share var (number s "portfolio_value"))
            ∷ " of your portfolio. It rises when either your volatility or your portfolio size grows."
            ∷ [])

    pub sharpe_plain : F → F → String
    sharpe_plain sharpe vol =
        let band = sharpe_band sharpe vol in
        if at_most fl vol (zero_of fl)
        then "The Sharpe ratio compares your recent return against how bumpy the ride was. Not enough history yet to compute it."
        else if fl.lt sharpe (zero_of fl)
        then joined (
            "The Sharpe ratio ("
            ∷ fmt.fixed 2 sharpe
            ∷ ") is your recent return per unit of risk. It's "
            ∷ band
            ∷ ": over the recent window your portfolio drifted down on average. This is a short-window figure that flips easily and does not contradict a positive overall P&L."
            ∷ [])
        else joined (
            "The Sharpe ratio ("
            ∷ fmt.fixed 2 sharpe
            ∷ ") is your recent return per unit of risk over the recent window — it's "
            ∷ band
            ∷ ". Higher is better; it rewards steady gains and penalizes big swings."
            ∷ [])

    pub pv_plain : F → String
    pv_plain pv = joined (
        "This is what your account is worth right now — your cash plus the market value of your holdings priced at the latest market ticks. It currently stands at "
        ∷ money pv
        ∷ "."
        ∷ [])

    abbrev pub metric : String → String → F → String → Metric F
    metric key label value plain = record { key = key; label = label; value = value; plain = plain }

    -- `_metrics`
    unfoldable pub metrics : Fields F → List (Metric F)
    metrics s =
        let pv = number s "portfolio_value" in
        let vol = number s "volatility" in
        let sharpe = number s "sharpe" in
        metric "portfolio_value" "Portfolio value" pv (pv_plain pv)
        ∷ metric "pnl" "P&L" (number s "pnl") (pnl_plain s)
        ∷ metric "volatility" "Volatility" vol (vol_plain vol)
        ∷ metric "var" "VaR" (number s "var") (var_plain s)
        ∷ metric "sharpe" "Sharpe" sharpe (sharpe_plain sharpe vol)
        ∷ []
