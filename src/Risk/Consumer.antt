-- ===== src/Risk/Consumer.antt =====
-- services/risk-engine/app/consumer.py: the Redis-free core. What `uuid.uuid4()` and `_now_iso()`
-- return is an argument.
pub mod Redelivery
pub mod Snapshots
pub mod Settled
pub mod Growth
use event_driven_trading_led.Base.{
  String, Bool, true, false, not, Option, none, some, List, [], ◌∷◌, ◌||◌, if◌then◌else◌,
}
use event_driven_trading_led.Base.Exec.{
  Exec, Result, ok, err, integrity_error, bind_result, pure, lift, gets, ◌>>=◌, ◌>>◌,
}
use event_driven_trading_led.Base.Float.{Float}
use event_driven_trading_led.Risk.Json.{
  Value, str, get, is_null, truthy, or_empty, to_float, bind_text,
}
use event_driven_trading_led.Risk.Config.{Config}
use event_driven_trading_led.Risk.Metrics.{Holding, RiskMetrics, market_value, compute_metrics}
use event_driven_trading_led.Risk.Store.{
  AppliedEvent, RiskSnapshot, RiskStore, upsert_price, append_price, append_pv, pv_returns,
  apply_ledger_event, account_cash, save_risk_snapshot,
}
use event_driven_trading_led.Risk.Positions.{resolved_positions}

-- what one call draws
pub record Stamp : Type 0 where
  pub computed_at : String
  pub event_id : String
  pub correlation_id : String

-- a `RiskComputed.v1` envelope: its constant fields are left out, and what came in as JSON goes out
-- as it came
pub record RiskEnvelope (F : Type 0) : Type 0 where
  pub event_id : String
  pub correlation_id : Value F
  pub produced_at : String
  pub account_id : Value F
  pub metrics : RiskMetrics F
  pub computed_at : String

-- what a `LedgerUpdated.v1` envelope holds, once it has been checked
pub record LedgerInput (F : Type 0) : Type 0 where
  pub row : AppliedEvent F
  pub account_id : Value F
  pub correlation_id : Value F

module _ {F : Type 0} ⦃fl : Float F⦄ where
  -- `_as_float`
  unfoldable pub as_float : Value F → Option F
  as_float v = elim (to_float v) [ ok x ↦ some x | err e ↦ none ]

  -- a value bound to a TEXT column that is NOT NULL
  unfoldable pub bind_key : Value F → Result String
  bind_key v =
      bind_result (bind_text v) (λ t. elim t [ none ↦ err integrity_error | some k ↦ ok k ])

  -- `get("data") or {}`
  unfoldable pub payload_of : Value F → Result (Value F)
  payload_of envelope = bind_result (get "data" envelope) (λ v. ok (or_empty v))

  -- `process_tick_envelope` once symbol and price have passed
  pub record_tick : Config F → Value F → Value F → F → Exec (RiskStore F) Bool
  record_tick cfg content symbol price = do
    key ← lift (bind_key symbol)
    upsert_price key price
    tick_time ← lift (get "tick_time" content)
    time ← lift (bind_text tick_time)
    append_price key price cfg.window_size time
    pure true

  pub process_tick_envelope : Config F → Value F → Exec (RiskStore F) Bool
  process_tick_envelope cfg envelope = do
    content ← lift (payload_of envelope)
    symbol ← lift (get "symbol" content)
    price ← lift (get "price" content)
    if not (truthy symbol) || is_null price
        then pure false
        else elim (as_float price) [ none ↦ pure false | some p ↦ record_tick cfg content symbol p ]

  unfoldable pub metrics_of : Config F → String → RiskStore F → RiskMetrics F
  metrics_of cfg key s =
      compute_metrics (account_cash key cfg.seed_cash s) (resolved_positions key s) cfg.seed_cash
        "parametric" (pv_returns key s)

  unfoldable pub snapshot_of : String → RiskMetrics F → String → RiskSnapshot F
  snapshot_of key m computed_at = record {
    account_id = key;
    portfolio_value = m.portfolio_value;
    pnl = m.pnl;
    volatility = m.volatility;
    var = m.var;
    var_method = m.var_method;
    sharpe = m.sharpe;
    computed_at = computed_at;
  }

  unfoldable pub envelope_of : Value F → Value F → RiskMetrics F → Stamp → RiskEnvelope F
  envelope_of account_id correlation_id m stamp = record {
    event_id = stamp.event_id;
    correlation_id = if truthy correlation_id then correlation_id else str stamp.correlation_id;
    produced_at = stamp.computed_at;
    account_id = account_id;
    metrics = m;
    computed_at = stamp.computed_at;
  }

  -- `key` is the account id as SQLite reads it
  unfoldable pub build_risk_envelope :
      Config F → Stamp → String → Value F → Value F → Exec (RiskStore F) (RiskEnvelope F)
  build_risk_envelope cfg stamp key account_id correlation_id = do
    m ← gets (metrics_of cfg key)
    save_risk_snapshot (snapshot_of key m stamp.computed_at)
    pure (envelope_of account_id correlation_id m stamp)

  -- the arguments of `apply_ledger_event`: the conversions to float, then the binding
  unfoldable pub event_row :
      Value F → Value F → Value F → Value F → Value F → Value F → Result (AppliedEvent F)
  event_row envelope content event_id account_id cash_delta position_after =
      bind_result (to_float cash_delta) λ cash. bind_result (to_float position_after) λ position.
        bind_result (bind_key event_id) λ event. bind_result (bind_key account_id) λ account.
          bind_result (bind_result (get "symbol" content) bind_key) λ symbol.
            bind_result (bind_result (get "side" content) bind_text) λ side.
              bind_result (get "quantity" content) λ quantity.
                bind_result (get "price" content) λ price.
                  bind_result (bind_result (get "correlation_id" envelope) bind_text) λ correlation.
                    bind_result (bind_result (get "posted_at" content) bind_text) λ posted_at.
                      ok (record {
                        event_id = event;
                        account_id = account;
                        symbol = symbol;
                        side = side;
                        quantity = as_float quantity;
                        price = as_float price;
                        cash_delta = cash;
                        position_after = position;
                        correlation_id = correlation;
                        posted_at = posted_at;
                      })

  -- the checks and conversions of `process_ledger_envelope`, up to its first write; none is a skip
  unfoldable pub parse_ledger : Value F → Result (Option (LedgerInput F))
  parse_ledger envelope = bind_result (get "event_id" envelope) λ event_id.
      bind_result (payload_of envelope) λ content.
        bind_result (get "account_id" content) λ account_id.
          bind_result (get "symbol" content) λ symbol.
            bind_result (get "cash_delta" content) λ cash_delta.
              bind_result (get "position_after" content) λ position_after.
                if not (truthy event_id) || not (truthy account_id) || not (truthy symbol)
                then ok none
                else if is_null cash_delta || is_null position_after
                then ok none
                else bind_result (get "correlation_id" envelope) λ correlation_id.
                  bind_result
                    (event_row envelope content event_id account_id cash_delta position_after)
                    λ row. ok (
                      some (record {
                        row = row;
                        account_id = account_id;
                        correlation_id = correlation_id;
                      }))

  -- the rest of it: the write, and the envelope if the event was new
  unfoldable pub apply_input :
      Config F → Stamp → LedgerInput F → Exec (RiskStore F) (Option (RiskEnvelope F))
  apply_input cfg stamp input = do
    newly_applied ← apply_ledger_event input.row
    if newly_applied
        then (do
          env ←
              build_risk_envelope cfg stamp input.row.account_id input.account_id
                input.correlation_id
          pure (some env))
        else pure none

  unfoldable pub process_ledger_envelope :
      Config F → Stamp → Value F → Exec (RiskStore F) (Option (RiskEnvelope F))
  process_ledger_envelope cfg stamp envelope = do
    parsed ← lift (parse_ledger envelope)
    elim parsed [ none ↦ pure none | some input ↦ apply_input cfg stamp input ]

  unfoldable pub recompute_account :
      Config F → Stamp → String → Value F → Exec (RiskStore F) (Option (RiskEnvelope F))
  recompute_account cfg stamp account_id correlation_id = do
    positions ← gets (resolved_positions account_id)
    elim positions [
      | [] ↦ pure none
      | p ∷ ps ↦ do
        cash ← gets (account_cash account_id cfg.seed_cash)
        append_pv account_id (fl.add cash (market_value (p ∷ ps))) cfg.window_size none
        env ← build_risk_envelope cfg stamp account_id (str account_id) correlation_id
        pure (some env)
    ]
