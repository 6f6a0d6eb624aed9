-- ===== src/Pipeline/Market.antt =====
-- poc/end-to-end/market_data.py: the envelopes, and the ticks. What `uuid.uuid4()` and `now()` return
-- is an argument.
use event_driven_trading_led.Base.{ℕ, String, List, [], ◌∷◌, length}
use event_driven_trading_led.Base.Exec.{Exec, ok}
use event_driven_trading_led.Outbox.Bus.{StreamBus, xadd}

-- the `data` of a message: of TickReceived, of LedgerUpdated, and of RiskComputed
pub data Body (F : Type 0) : Type 0 where
  -- symbol, price, tick_time; the volume and the source are constants
  tick : String → F → String → Body F
  -- account_id, symbol, cash_delta, position_after; the risk engine reads no other field
  ledger : String → String → F → F → Body F
  -- account_id, portfolio_value, pnl, volatility, var, sharpe, computed_at
  risk : String → F → F → F → F → F → String → Body F

pub record Message (F : Type 0) : Type 0 where
  pub event_id : String
  pub event_type : String
  pub correlation_id : String
  pub produced_at : String
  pub producer : String
  pub content : Body F

-- what one envelope draws
pub record Stamp : Type 0 where
  pub event_id : String
  pub produced_at : String
  pub content_time : String

module _ {F : Type 0} where
  unfoldable pub envelope : Stamp → String → String → Body F → String → Message F
  envelope stamp event_type producer content correlation_id = record {
    event_id = stamp.event_id;
    event_type = event_type;
    correlation_id = correlation_id;
    produced_at = stamp.produced_at;
    producer = producer;
    content = content;
  }

  -- the loop; the id that xadd returns is not used
  unfoldable pub add_ticks :
      List (Stamp × F) → String → String → StreamBus (Message F) → StreamBus (Message F)
  add_ticks [] correlation_id symbol b = b
  add_ticks ((stamp, price) ∷ prices) correlation_id symbol b =
      let content = tick symbol price stamp.content_time in
      let evt = envelope stamp "TickReceived" "market-data" content correlation_id in
      add_ticks prices correlation_id symbol (xadd "market.ticks" evt b).1

  unfoldable pub produce_ticks : List (Stamp × F) → String → String → Exec (StreamBus (Message F)) ℕ
  produce_ticks prices correlation_id symbol b =
      (ok (length prices), add_ticks prices correlation_id symbol b)
