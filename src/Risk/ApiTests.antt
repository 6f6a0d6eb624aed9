-- ===== src/Risk/ApiTests.antt =====
-- The read API and the explanations over whole numbers, and the theorems at concrete inputs.
use event_driven_trading_led.Base.{
  String, ◌≡◌, refl, Option, none, some, [], ◌∷◌, ◌==◌, if◌then◌else◌,
}
use event_driven_trading_led.Base.Int.{ℤ, pos, negsuc}
use event_driven_trading_led.Base.Dict.{lookup, insert}
use event_driven_trading_led.Base.Exec.{ok}
use event_driven_trading_led.Base.Float.{whole}
use event_driven_trading_led.Risk.Json.{arr, nil, obj, field, end}
use event_driven_trading_led.Risk.Metrics.{compute_metrics, history_metrics, market_value}
use event_driven_trading_led.Risk.Store.{
  RiskSnapshot, RiskStore, pv_window, pv_returns, apply_ledger_event, already_applied,
  save_risk_snapshot, account_cash, cash_deltas, window, rows_of, get_price, returns_of,
  returns_from,
}
use event_driven_trading_led.Risk.Positions.{
  resolved_positions, latest_positions, latest_rows, has_later, order_by_symbol, insert_by_symbol,
  resolve,
}
use event_driven_trading_led.Risk.Consumer.{
  LedgerInput, parse_ledger, process_ledger_envelope, snapshot_of, metrics_of, apply_input,
  build_risk_envelope, envelope_of, event_row, payload_of, bind_key, as_float,
}
use event_driven_trading_led.Risk.Explain.Metrics.{Format}
use event_driven_trading_led.Risk.Narrative.Reply.{Runtime, Response}
use event_driven_trading_led.Risk.Api.{
  response, respond, summary, var_detail, error, or_text, risk_summary, risk_var,
}
use event_driven_trading_led.Risk.Api.Coherence.{announced_summary, announced_var, answers-process}
use event_driven_trading_led.Risk.Tests.{cfg, stamp, message, start, announced, after}

abbrev pub fmt : Format ℤ
fmt = record { grouped = λ x. "1,000.00"; fixed = λ d x. "1.00"; truncated = λ x. "95" }

abbrev pub snapshot : RiskSnapshot ℤ
snapshot = record {
  account_id = "acct_123";
  portfolio_value = pos 10500;
  pnl = pos 500;
  volatility = pos 1;
  var = pos 2;
  var_method = "parametric";
  sharpe = negsuc 0;
  computed_at = "t1";
}

abbrev pub stored : RiskStore ℤ
stored = record start { risk_snapshots = ("acct_123", snapshot) ∷ [] }

-- a service whose answer has an empty list of choices, and an environment with some names
abbrev pub runtime : (String → Option String) → Response → Runtime ℤ
runtime getenv reply = record {
  getenv = getenv;
  strip = λ s. s;
  lower = λ s. s;
  rstrip_slash = λ s. s;
  show = λ v. "note";
  loads = λ raw. if raw == "empty" then some (obj (field "choices" (arr nil) end)) else none;
  dumps = λ v. "payload";
  post = λ url key timeout model payload. reply;
}

abbrev pub switched_on : String → Option String
switched_on name =
    if name == "RISK_LLM_ENABLED"
    then some "true"
    else if name == "RISK_LLM_API_KEY"
    then some "key"
    else none

answers-process_example :
    (input : LedgerInput ℤ) × (parse_ledger (message "e1") ≡ ok (some input))
    × (let account_id = input.row.account_id in
        (respond (risk_summary account_id after)
          ≡ response 200 (summary (announced_summary account_id announced)))
        × (respond (risk_var account_id none after) ≡ (
            if or_text "" none == "historical"
            then response 400
                (error "unsupported_var_method" "historical VaR is not supported; parametric only")
            else response 200 (var_detail (announced_var account_id announced)))))
unfolding apply_ledger_event already_applied pv_window window rows_of account_cash cash_deltas
    get_price pv_returns returns_of returns_from save_risk_snapshot compute_metrics history_metrics
    market_value resolved_positions latest_positions latest_rows has_later order_by_symbol
    insert_by_symbol resolve parse_ledger event_row payload_of bind_key as_float
    process_ledger_envelope apply_input build_risk_envelope metrics_of snapshot_of envelope_of
    lookup insert
answers-process_example = answers-process cfg stamp (message "e1") start after announced none refl
