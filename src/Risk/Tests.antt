-- ===== src/Risk/Tests.antt =====
-- Runs of the risk engine over whole numbers, and the theorems at concrete inputs.
use event_driven_trading_led.Base.{
  ◌+◌, String, ◌≡◌, refl, inr, Option, none, some, List, [], ◌∷◌, ◌++◌, ◌==◌, ◌≤◌, map, length,
  take_last, if◌then◌else◌, select,
}
use event_driven_trading_led.Base.Int.{ℤ, pos, negsuc}
use event_driven_trading_led.Base.Dict.{lookup, insert}
use event_driven_trading_led.Base.Exec.{ok}
use event_driven_trading_led.Base.Float.{whole}
use event_driven_trading_led.Risk.Json.{Value, str, num, obj, field, end}
use event_driven_trading_led.Risk.Config.{Config, default_config, from_env}
use event_driven_trading_led.Risk.Config.Defaults.{from_env-default}
use event_driven_trading_led.Risk.Metrics.{compute_metrics, history_metrics, market_value}
use event_driven_trading_led.Risk.Store.{
  AppliedEvent, RiskStore, empty_store, append_pv, pv_window, pv_returns, apply_ledger_event,
  already_applied, save_risk_snapshot, account_cash, cash_deltas, window, rows_of, get_price,
  returns_of, returns_from, accounts, distinct, evict, insert_row, newest_ids,
}
use event_driven_trading_led.Risk.Store.Appends.{
  append_pvs, pv_window-append_pvs, length-pv_returns,
}
use event_driven_trading_led.Risk.Positions.{
  resolved_positions, latest_positions, latest_rows, has_later, order_by_symbol, insert_by_symbol,
  resolve,
}
use event_driven_trading_led.Risk.Positions.Latest.{
  last_event, find_holding, resolved_of, find_holding-resolved_positions,
}
use event_driven_trading_led.Risk.Consumer.{
  Stamp, RiskEnvelope, parse_ledger, process_ledger_envelope, snapshot_of, metrics_of, apply_input,
  build_risk_envelope, envelope_of, event_row, payload_of, bind_key, as_float, recompute_account,
}
use event_driven_trading_led.Risk.Consumer.Redelivery.{quiet, process_redelivered}
use event_driven_trading_led.Risk.Worker.{
  Entry, RiskWorker, parse_event, handle_ledger, drain_ledger, maybe_recompute, send, publish_some,
  is_throttled, recompute_each,
}
use event_driven_trading_led.Risk.Worker.Handling.{
  acked, published, handled, handle_ledger_lem, drain_ledger_lem,
}
use event_driven_trading_led.Risk.Worker.Throttle.{maybe_recompute_throttled}

abbrev pub cfg : Config ℤ
cfg = default_config whole

abbrev pub stamp : Stamp
stamp = record { computed_at = "t1"; event_id = "risk-1"; correlation_id = "fresh" }

abbrev pub later_stamp : Stamp
later_stamp = record { computed_at = "t2"; event_id = "risk-2"; correlation_id = "fresh" }

-- a `LedgerUpdated.v1` envelope: ten AAPL bought at 100
abbrev pub message : String → Value ℤ
message event_id = obj (
    field "event_id" (str event_id) (
      field "correlation_id" (str "corr-1") (
        field "data"
          (obj (
            field "account_id" (str "acct_123") (
              field "symbol" (str "AAPL") (
                field "side" (str "BUY") (
                  field "quantity" (num (pos 10)) (
                    field "price" (num (pos 100)) (
                      field "cash_delta" (num (negsuc 999)) (
                        field "position_after" (num (pos 10))
                          (field "posted_at" (str "t0") end)))))))))
          end)))

abbrev pub bought : AppliedEvent ℤ
bought = record {
  event_id = "e1";
  account_id = "acct_123";
  symbol = "AAPL";
  side = some "BUY";
  quantity = some (pos 10);
  price = some (pos 100);
  cash_delta = negsuc 999;
  position_after = pos 10;
  correlation_id = some "corr-1";
  posted_at = some "t0";
}

abbrev pub start : RiskStore ℤ
start = empty_store

abbrev pub applied : RiskStore ℤ
applied = record start { applied_events = bought ∷ [] }

abbrev pub loads : String → Option (Value ℤ)
loads raw = if raw == "one" then some (message "e1") else none

abbrev pub entry : String → String → Entry
entry i raw = record { entry_id = i; event = some raw }

abbrev pub idle : RiskWorker ℤ
idle = record { store = start; last_recompute = none; sent = [] }

parsed :
    parse_ledger (message "e1")
    ≡ ok
        (some (record { row = bought; account_id = str "acct_123"; correlation_id = str "corr-1" }))
unfolding parse_ledger event_row payload_of bind_key as_float
parsed = refl

-- what the first delivery publishes, and the store it leaves
abbrev pub announced : RiskEnvelope ℤ
announced = record {
  event_id = "risk-1";
  correlation_id = str "corr-1";
  produced_at = "t1";
  account_id = str "acct_123";
  metrics = metrics_of cfg "acct_123" applied;
  computed_at = "t1";
}

abbrev pub after : RiskStore ℤ
after = (process_ledger_envelope cfg stamp (message "e1") start).1

process_redelivered_example :
    let s' = (process_ledger_envelope cfg stamp (message "e1") start).1 in
    process_ledger_envelope cfg later_stamp (message "e1") s'
    ≡ (quiet (parse_ledger (message "e1")), s')
process_redelivered_example = process_redelivered cfg stamp later_stamp (message "e1") start

find_holding-resolved_positions_example :
    find_holding "AAPL" (resolved_positions "acct_123" applied)
    ≡ resolved_of applied (last_event "acct_123" "AAPL" applied.applied_events)
find_holding-resolved_positions_example = find_holding-resolved_positions "acct_123" "AAPL" applied

length-pv_returns_example :
    length (pv_returns "acct_123" (append_pv "acct_123" (pos 5) (pos 30) none start).1) ≤ 30
length-pv_returns_example = length-pv_returns "acct_123" (pos 5) (pos 30) none start refl tt

pv_window-append_pvs_example :
    pv_window "acct_123" (append_pvs "acct_123" (pos 1) (pos 5 ∷ pos 6 ∷ pos 7 ∷ []) start)
    ≡ take_last 2 (pos 5 ∷ pos 6 ∷ pos 7 ∷ [])
unfolding pv_window window rows_of select
pv_window-append_pvs_example =
    pv_window-append_pvs "acct_123" (pos 1) [] (pos 5 ∷ pos 6 ∷ pos 7 ∷ []) start tt refl
      (refl, (refl, (refl, tt)))

abbrev busy : RiskWorker ℤ
busy = (handle_ledger loads cfg (λ _. stamp) (entry "1" "one") idle).1

handle_ledger_lem_example :
    handle_ledger loads cfg (λ _. stamp) (entry "1" "one") idle
    ≡ elim (parse_event loads (entry "1" "one")) [
      | none ↦ handled cfg (entry "1" "one") (ok none, idle.store) idle
      | some env ↦
          handled cfg (entry "1" "one") (process_ledger_envelope cfg stamp env idle.store) idle
    ]
handle_ledger_lem_example = handle_ledger_lem loads cfg (λ _. stamp) (entry "1" "one") idle

abbrev pub two : List Entry
two = entry "1" "one" ∷ entry "2" "one" ∷ []

abbrev pub drained : RiskWorker ℤ
drained = (drain_ledger loads cfg (λ _. stamp) two idle).1

drain_ledger_lem_example :
    (acked cfg.ledger_stream drained.sent
      ≡ acked cfg.ledger_stream idle.sent ++ map (λ e. e.entry_id) two)
    × (length (published cfg.risk_stream drained.sent)
        ≡ length (published cfg.risk_stream idle.sent) + 1)
unfolding apply_ledger_event already_applied pv_window window rows_of account_cash cash_deltas
    get_price pv_returns returns_of returns_from save_risk_snapshot compute_metrics history_metrics
    market_value resolved_positions latest_positions latest_rows has_later order_by_symbol
    insert_by_symbol resolve parse_ledger event_row payload_of bind_key as_float
    process_ledger_envelope apply_input build_risk_envelope metrics_of snapshot_of envelope_of
    lookup insert parse_event handle_ledger send publish_some drain_ledger
drain_ledger_lem_example = drain_ledger_lem loads cfg (λ _. stamp) two 1 idle drained refl

abbrev pub ready : RiskWorker ℤ
ready = record { store = applied; last_recompute = some (pos 3); sent = [] }

abbrev recomputed : RiskWorker ℤ
recomputed = (maybe_recompute cfg (λ _. stamp) (pos 9) ready).1

maybe_recompute_throttled_example :
    maybe_recompute cfg (λ _. later_stamp) (pos 9) recomputed ≡ (ok 0, recomputed)
unfolding apply_ledger_event already_applied pv_window window rows_of account_cash cash_deltas
    get_price pv_returns returns_of returns_from save_risk_snapshot compute_metrics history_metrics
    market_value resolved_positions latest_positions latest_rows has_later order_by_symbol
    insert_by_symbol resolve parse_ledger event_row payload_of bind_key as_float
    process_ledger_envelope apply_input build_risk_envelope metrics_of snapshot_of envelope_of
    lookup insert maybe_recompute is_throttled recompute_each accounts distinct recompute_account
    append_pv evict insert_row newest_ids send publish_some
maybe_recompute_throttled_example =
    maybe_recompute_throttled cfg (λ _. stamp) (λ _. later_stamp) (pos 9) (pos 9) 1 ready recomputed
      refl refl refl

from_env-default_example :
    from_env
      (λ raw. raw)
      (λ _. none)
      (λ n. n)
      (λ name. if name == "RISK_WINDOW_SIZE" then some "thirty" else none)
    ≡ default_config whole
from_env-default_example =
    from_env-default (λ raw. raw) (λ _. none) (λ n. n)
      (λ name. if name == "RISK_WINDOW_SIZE" then some "thirty" else none) refl
      (refl, (refl, (refl, (refl, (refl, (refl, (refl, tt))))))) tt
      (tt, (tt, (tt, (inr refl, (tt, tt)))))
