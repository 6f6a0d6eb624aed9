-- ===== src/Risk/Explain.antt =====
-- services/risk-engine/app/explain.py: the plain-language analysis of a snapshot. A snapshot is a dict.
-- Numbers reach the texts by `float(v)` first, so `_money`, `_pct` and `_num` never meet an exception.
pub mod Metrics
pub mod Changes
use event_driven_trading_led.Base.{
  ℕ, String, Bool, false, Option, none, some, List, [], ◌∷◌, ◌++◌, ◌||◌, if◌then◌else◌,
}
use event_driven_trading_led.Base.Float.{Float, zero_of, at_most}
use event_driven_trading_led.Base.Text.{joined}
use event_driven_trading_led.Risk.Json.{Value, Fields, end, field, get_field}
use event_driven_trading_led.Risk.Explain.Metrics.{
  Format, Metric, number, money, pct, seed_of, share, confidence, metrics,
}
use event_driven_trading_led.Risk.Explain.Changes.{Change, changes}

-- what `explain_snapshot` returns, with the two keys that the endpoint and the narrative add
pub record Facts (F : Type 0) : Type 0 where
  pub account_id : Value F
  pub computed_at : Value F
  pub headline : String
  pub summary : String
  pub metrics : List (Metric F)
  pub changes : List (Change F)
  pub notes : List String
  pub mode : Option String
  pub llm_unavailable : Bool

module _ {F : Type 0} ⦃fl : Float F⦄ (fmt : Format F) where
  -- `_headline`
  pub headline : Fields F → String
  headline s =
      let pv = number s "portfolio_value" in
      let pnl = number s "pnl" in
      let pnl_pct = share pnl (seed_of s) in
      if fl.lt (zero_of fl) pnl
      then joined (
          "Your portfolio is worth "
          ∷ money fmt pv
          ∷ " — up "
          ∷ money fmt pnl
          ∷ " ("
          ∷ pct fmt 1 pnl_pct
          ∷ ")."
          ∷ [])
      else if fl.lt pnl (zero_of fl)
      then joined (
          "Your portfolio is worth "
          ∷ money fmt pv
          ∷ " — down "
          ∷ money fmt (fl.abs pnl)
          ∷ " ("
          ∷ pct fmt 1 pnl_pct
          ∷ ")."
          ∷ [])
      else joined
          ("Your portfolio is worth " ∷ money fmt pv ∷ " — flat versus your starting cash." ∷ [])

  -- `_notes`
  pub notes : Fields F → List String
  notes s =
      "These figures update live as you trade and as market prices move."
      ∷ joined (
          "VaR here is parametric (about "
          ∷ fmt.truncated confidence
          ∷ "% confidence, 1-day horizon). Volatility and Sharpe use a short rolling window, so they react quickly and can swing."
          ∷ [])
      ∷ (if at_most fl (number s "volatility") (zero_of fl)
            || at_most fl (number s "var") (zero_of fl)
          then "Volatility, VaR and Sharpe read 0 until enough live price history has accrued — this is 'not enough data yet', not 'no risk'."
            ∷ []
          else [])

  -- `_changes(current, previous) if previous else []`
  pub changes_since : Fields F → Option (Fields F) → List (Change F)
  changes_since current none = []
  changes_since current (some end) = []
  changes_since current (some (field k v fs)) = changes fmt current (field k v fs)

  pub summary_of : List (Change F) → String
  summary_of [] = "Here's what each number means for your account, in plain language."
  summary_of (c ∷ cs) = "Here's what changed and why, in plain language."

  unfoldable pub explain_snapshot : Fields F → Option (Fields F) → Facts F
  explain_snapshot current previous =
      let found = changes_since current previous in
      record {
        account_id = get_field "account_id" current;
        computed_at = get_field "computed_at" current;
        headline = headline current;
        summary = summary_of found;
        metrics = metrics fmt current;
        changes = found;
        notes = notes current;
        mode = none;
        llm_unavailable = false;
      }
