-- ===== src/Risk/ServiceTests.antt =====
-- Runs of the worker, and the theorems on it at concrete inputs.
use event_driven_trading_led.Base.{◌≡◌, refl, inl, inr, none, some, [], ◌∷◌, ◌++◌, ◌==◌, reverse}
use event_driven_trading_led.Base.Int.{ℤ, pos}
use event_driven_trading_led.Base.Dict.{lookup, insert}
use event_driven_trading_led.Base.Exec.{ok, err, response_error}
use event_driven_trading_led.Base.Float.{whole}
use event_driven_trading_led.Risk.Metrics.{compute_metrics, history_metrics, market_value}
use event_driven_trading_led.Risk.Store.{
  pv_window, pv_returns, apply_ledger_event, already_applied, save_risk_snapshot, account_cash,
  cash_deltas, window, rows_of, get_price, returns_of, returns_from,
}
use event_driven_trading_led.Risk.Positions.{
  resolved_positions, latest_positions, latest_rows, has_later, order_by_symbol, insert_by_symbol,
  resolve,
}
use event_driven_trading_led.Risk.Consumer.{
  parse_ledger, process_ledger_envelope, snapshot_of, metrics_of, apply_input, build_risk_envelope,
  envelope_of, event_row, payload_of, bind_key, as_float,
}
use event_driven_trading_led.Risk.Consumer.Growth.{Grown}
use event_driven_trading_led.Risk.Worker.{
  RiskWorker, parse_event, handle_ledger, drain_ledger, send, publish_some, reclaim_ledger,
}
use event_driven_trading_led.Risk.Worker.Reclaim.{acks, reclaim_ledger-drain_ledger}
use event_driven_trading_led.Risk.Worker.Service.{
  Turn, no_reply, only_cursor, take_turn, worker_loop, ensure_groups, ensure_each, allow_busy,
}
use event_driven_trading_led.Risk.Worker.Service.Deduped.{worker_loop-Grown}
use event_driven_trading_led.Risk.Tests.{
  cfg, stamp, later_stamp, loads, entry, idle, two, drained, ready,
}

reclaim_ledger-drain_ledger_example :
    reclaim_ledger loads cfg (λ _. later_stamp) (reverse two) drained
    ≡ (ok 2, record drained { sent = drained.sent ++ acks loads cfg (reverse two) })
unfolding apply_ledger_event already_applied pv_window window rows_of account_cash cash_deltas
    get_price pv_returns returns_of returns_from save_risk_snapshot compute_metrics history_metrics
    market_value resolved_positions latest_positions latest_rows has_later order_by_symbol
    insert_by_symbol resolve parse_ledger event_row payload_of bind_key as_float
    process_ledger_envelope apply_input build_risk_envelope metrics_of snapshot_of envelope_of
    lookup insert parse_event handle_ledger send publish_some drain_ledger
reclaim_ledger-drain_ledger_example =
    reclaim_ledger-drain_ledger loads cfg (λ _. stamp) (λ _. later_stamp) two (reverse two) 1 idle
      drained refl (inr (inl refl), (inl refl, tt))

abbrev busy_turn : Turn ℤ
busy_turn = record {
  claimed = no_reply;
  ticks = none;
  ledger = some (("ledger.updates", some (entry "1" "one" ∷ [])) ∷ []);
  now = pos 3;
  stamps = λ _. stamp;
  recompute_stamps = λ _. later_stamp;
}

abbrev quiet_turn : Turn ℤ
quiet_turn = record busy_turn { claimed = only_cursor "0-0"; ledger = some [] }

abbrev settled : RiskWorker ℤ
settled = (take_turn loads cfg busy_turn idle).1

worker_loop-Grown_example :
    Grown ready.store.applied_events
      (worker_loop loads cfg 3 (some busy_turn ∷ none ∷ []) 0 ready).1.store
unfolding already_applied
worker_loop-Grown_example =
    worker_loop-Grown loads cfg 3 (some busy_turn ∷ none ∷ []) 0 ready (refl, tt)

-- a group that exists already is no error, any other ResponseError is raised at once
ensure_groups_runs :
    (ensure_groups (λ m. m == "BUSYGROUP") (λ _. some "BUSYGROUP") cfg []
      ≡ (ok tt, ("market.ticks", "cg:risk-engine") ∷ ("ledger.updates", "cg:risk-engine") ∷ []))
    × (ensure_groups (λ m. m == "BUSYGROUP") (λ _. some "NOAUTH") cfg []
        ≡ (err response_error, ("market.ticks", "cg:risk-engine") ∷ []))
unfolding ensure_groups ensure_each allow_busy
ensure_groups_runs = (refl, refl)
