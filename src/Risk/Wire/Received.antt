-- ===== src/Risk/Wire/Received.antt =====
-- What the ledger publishes, as the risk engine reads it.
use event_driven_trading_led.Base.{String, ◌≡◌, false, Option, some, ◌==◌}
use event_driven_trading_led.Base.Exec.{ok}
use event_driven_trading_led.Base.Float.{Float}
use event_driven_trading_led.Risk.Json.{Value, str}
use event_driven_trading_led.Risk.Store.{AppliedEvent}
use event_driven_trading_led.Risk.Consumer.{parse_ledger, payload_of, event_row, bind_key, as_float}
use event_driven_trading_led.Risk.Worker.{parse_event}
use event_driven_trading_led.Risk.Wire.{LedgerArgs, ledger_envelope, publish_ledger}

module _ {F : Type 0} ⦃fl : Float F⦄ where
  -- the row that a published trade becomes
  abbrev pub row_of : LedgerArgs F → AppliedEvent F
  row_of a = record {
    event_id = a.event_id;
    account_id = a.account;
    symbol = a.symbol;
    side = some a.side;
    quantity = some a.qty;
    price = some a.price;
    cash_delta = a.cash_delta;
    position_after = a.position_after;
    correlation_id = some a.correlation_id;
    posted_at = some "2026-09-01T12:00:00.500Z";
  }

  -- A published ledger event, read by the worker and checked by the consumer, is the row with its
  -- values, where its event id, account, symbol and text are not empty and `json.loads` reads what
  -- `json.dumps` wrote.
  pub parse_ledger-publish_ledger :
      (loads : String → Option (Value F)) (dumps : Value F → String) (a : LedgerArgs F)
      (entry_id : String)
      → loads (dumps (ledger_envelope a)) ≡ some (ledger_envelope a)
      → (dumps (ledger_envelope a) == "") ≡ false
      → (a.event_id == "") ≡ false
      → (a.account == "") ≡ false
      → (a.symbol == "") ≡ false
      → (v : Value F) × (parse_event loads
            (record { entry_id = entry_id; event = some (publish_ledger dumps a).event })
          ≡ some v)
        × (parse_ledger v
            ≡ ok (
                some (record {
                  row = row_of a;
                  account_id = str a.account;
                  correlation_id = str a.correlation_id;
                })))
  unfolding parse_event publish_ledger ledger_envelope parse_ledger payload_of event_row bind_key
      as_float
  parse_ledger-publish_ledger loads dumps a entry_id read shown named owned listed =
      (ledger_envelope a, rw (shown, read), rw (named, owned, listed))
