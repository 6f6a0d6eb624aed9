-- ===== src/Risk/WireTests.antt =====
-- What stands on the streams, at concrete inputs.
use event_driven_trading_led.Base.{String, ◌≡◌, refl, Option, some, [], ◌∷◌}
use event_driven_trading_led.Base.Int.{ℤ, pos, negsuc}
use event_driven_trading_led.Base.Dict.{lookup, insert}
use event_driven_trading_led.Base.Exec.{ok}
use event_driven_trading_led.Base.Float.{whole}
use event_driven_trading_led.Risk.Json.{Value, str}
use event_driven_trading_led.Risk.Metrics.{compute_metrics, history_metrics, market_value}
use event_driven_trading_led.Risk.Store.{
  RiskSnapshot, pv_window, pv_returns, apply_ledger_event, already_applied, save_risk_snapshot,
  account_cash, cash_deltas, window, rows_of, get_price, returns_of, returns_from,
}
use event_driven_trading_led.Risk.Positions.{
  resolved_positions, latest_positions, latest_rows, has_later, order_by_symbol, insert_by_symbol,
  resolve,
}
use event_driven_trading_led.Risk.Consumer.{
  LedgerInput, parse_ledger, process_ledger_envelope, snapshot_of, metrics_of, apply_input,
  build_risk_envelope, envelope_of, event_row, payload_of, bind_key, as_float,
}
use event_driven_trading_led.Risk.Worker.{parse_event}
use event_driven_trading_led.Risk.Api.{response, respond, summary, risk_summary}
use event_driven_trading_led.Risk.Wire.{
  LedgerArgs, document_of_risk, stream_fields, ledger_envelope, publish_ledger, read_latest_risk,
}
use event_driven_trading_led.Risk.Wire.Published.{data_item, Agrees, summary-published}
use event_driven_trading_led.Risk.Wire.Received.{row_of, parse_ledger-publish_ledger}
use event_driven_trading_led.Risk.Tests.{cfg, stamp, message, start, announced, after}

abbrev dumps : Value ℤ → String
dumps v = "document"

abbrev loads_risk : String → Option (Value ℤ)
loads_risk raw = some (document_of_risk announced)

summary-published_example :
    (input : LedgerInput ℤ) × (r : RiskSnapshot ℤ) × (v : Value ℤ) × (parse_ledger (message "e1")
      ≡ ok (some input))
    × (r.account_id ≡ input.row.account_id)
    × (respond (risk_summary input.row.account_id after) ≡ response 200 (summary r))
    × (read_latest_risk loads_risk (stream_fields dumps announced ∷ []) ≡ ok (some v))
    × (data_item "account_id" v ≡ ok input.account_id)
    × Agrees r v
unfolding apply_ledger_event already_applied pv_window window rows_of account_cash cash_deltas
    get_price pv_returns returns_of returns_from save_risk_snapshot compute_metrics history_metrics
    market_value resolved_positions latest_positions latest_rows has_later order_by_symbol
    insert_by_symbol resolve parse_ledger event_row payload_of bind_key as_float
    process_ledger_envelope apply_input build_risk_envelope metrics_of snapshot_of envelope_of
    lookup insert
summary-published_example =
    summary-published loads_risk dumps cfg stamp (message "e1") start after announced [] refl refl

abbrev bought : LedgerArgs ℤ
bought = record {
  event_id = "e1";
  correlation_id = "corr-1";
  source_event_id = "r1";
  symbol = "AAPL";
  side = "BUY";
  qty = pos 10;
  price = pos 100;
  cash_delta = negsuc 999;
  position_after = pos 10;
  account = "acct_123";
}

abbrev loads_ledger : String → Option (Value ℤ)
loads_ledger raw = some (ledger_envelope bought)

parse_ledger-publish_ledger_example :
    (v : Value ℤ) × (parse_event loads_ledger
        (record { entry_id = "1-0"; event = some (publish_ledger dumps bought).event })
      ≡ some v)
    × (parse_ledger v
        ≡ ok (
            some (record {
              row = row_of bought;
              account_id = str "acct_123";
              correlation_id = str "corr-1";
            })))
parse_ledger-publish_ledger_example =
    parse_ledger-publish_ledger loads_ledger dumps bought "1-0" refl refl refl refl refl
