-- ===== src/Risk/Wire.antt =====
-- What stands on the streams: `stream_fields` of services/risk-engine/app/consumer.py, and what
-- services/risk-engine/utils/live_wire_proof.py writes to a stream and reads from one. `json.loads` and
-- `json.dumps` are parameters.
pub mod Published
pub mod Received
use event_driven_trading_led.Base.{String, Option, none, some, List, [], ◌∷◌}
use event_driven_trading_led.Base.Exec.{Result, ok, err, value_error, bind_result, or_raise}
use event_driven_trading_led.Base.Float.{Float}
use event_driven_trading_led.Risk.Json.{Value, num, str, obj, end, field}
use event_driven_trading_led.Risk.Consumer.{RiskEnvelope}

-- the fields of a stream entry
pub record StreamFields : Type 0 where
  pub event_type : String
  pub schema_version : String
  pub event : String

-- the arguments of `ledger_envelope`, with the id that it draws
pub record LedgerArgs (F : Type 0) : Type 0 where
  pub event_id : String
  pub correlation_id : String
  pub source_event_id : String
  pub symbol : String
  pub side : String
  pub qty : F
  pub price : F
  pub cash_delta : F
  pub position_after : F
  pub account : String

module _ {F : Type 0} where
  -- the dict of an envelope
  pub document_of_risk : RiskEnvelope F → Value F
  document_of_risk env =
      let m = env.metrics in
      let content = obj (
        field "account_id" env.account_id (
          field "portfolio_value" (num m.portfolio_value) (
            field "pnl" (num m.pnl) (
              field "volatility" (num m.volatility) (
                field "var" (num m.var) (
                  field "var_method" (str m.var_method) (
                    field "sharpe" (num m.sharpe)
                      (field "computed_at" (str env.computed_at) end)))))))) in
      obj (
        field "event_id" (str env.event_id) (
          field "event_type" (str "RiskComputed") (
            field "schema_version" (str "1") (
              field "correlation_id" env.correlation_id (
                field "produced_at" (str env.produced_at)
                  (field "producer" (str "risk-engine") (field "data" content end)))))))

  pub stream_fields : (Value F → String) → RiskEnvelope F → StreamFields
  stream_fields dumps env = record {
    event_type = "RiskComputed";
    schema_version = "1";
    event = dumps (document_of_risk env);
  }

  pub ledger_envelope : LedgerArgs F → Value F
  ledger_envelope a =
      let content = obj (
        field "journal_entry_id" (str "je_1001") (
          field "source_event_id" (str a.source_event_id) (
            field "account_id" (str a.account) (
              field "symbol" (str a.symbol) (
                field "side" (str a.side) (
                  field "quantity" (num a.qty) (
                    field "price" (num a.price) (
                      field "cash_delta" (num a.cash_delta) (
                        field "position_after" (num a.position_after)
                          (field "posted_at" (str "2026-09-01T12:00:00.500Z") end)))))))))) in
      obj (
        field "event_id" (str a.event_id) (
          field "event_type" (str "LedgerUpdated") (
            field "schema_version" (str "1") (
              field "correlation_id" (str a.correlation_id) (
                field "produced_at" (str "2026-09-01T12:00:00.500Z")
                  (field "producer" (str "ledger-core") (field "data" content end)))))))

  -- the fields that `publish_ledger` adds, for an envelope of `ledger_envelope`
  pub publish_ledger : (Value F → String) → LedgerArgs F → StreamFields
  publish_ledger dumps a = record {
    event_type = "LedgerUpdated";
    schema_version = "1";
    event = dumps (ledger_envelope a);
  }

  -- the entries that XREVRANGE returns, newest first
  pub read_latest_risk : (String → Option (Value F)) → List StreamFields → Result (Option (Value F))
  read_latest_risk loads [] = ok none
  read_latest_risk loads (e ∷ es) =
      bind_result (or_raise (loads e.event) value_error) λ v. ok (some v)
