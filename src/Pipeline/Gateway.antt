-- ===== src/Pipeline/Gateway.antt =====
-- poc/end-to-end/gateway.py: the gateway, which pushes each event once.
pub mod Once
use event_driven_trading_led.Base.{ℕ, String, List, [], ◌∷◌, ◌++◌, ◌==◌, if◌then◌else◌}
use event_driven_trading_led.Base.Exec.{Exec, pure, ◌>>=◌, ◌>>◌}
use event_driven_trading_led.Outbox.Bus.{StreamBus, xgroup_create, xreadgroup, xack}
use event_driven_trading_led.Outbox.Consumer.{contains}
use event_driven_trading_led.Pipeline.Market.{Body, tick, ledger, risk, Message}

pub record Gateway : Type 0 where
  pub seen : List String
  -- event type, and account or symbol
  pub pushed : List (String × String)

pub record World (F : Type 0) : Type 0 where
  pub bus : StreamBus (Message F)
  pub gateway : Gateway

module _ {F : Type 0} where
  -- `Gateway(bus)`
  unfoldable pub new_gateway : StreamBus (Message F) → World F
  new_gateway b = record {
    bus =
        (xgroup_create "risk.updates" "cg:gateway" 0
          ((xgroup_create "market.ticks" "cg:gateway" 0 b).1)).1;
    gateway = record { seen = []; pushed = [] };
  }

  -- `data.get("symbol") or data.get("account_id", "")`
  pub label : Body F → String
  label (tick symbol price time) = symbol
  label (ledger account_id symbol cash_delta position_after) =
      if symbol == "" then account_id else symbol
  label (risk account_id pv pnl volatility var sharpe time) = account_id

  -- the body of the loop, before the XACK
  pub push : Message F → Gateway → Gateway
  push evt g = if contains evt.event_id g.seen then g else record {
    seen = g.seen ++ evt.event_id ∷ [];
    pushed = g.pushed ++ (evt.event_type, label evt.content) ∷ [];
  }

  unfoldable pub push_one : String → ℕ → Message F → Exec (World F) Unit
  push_one stream eid evt w =
      let g = push evt w.gateway in
      let (r, b) = xack stream "cg:gateway" eid w.bus in (r, record { bus = b; gateway = g })

  unfoldable pub push_each : String → List (ℕ × Message F) → Exec (World F) Unit
  push_each stream [] = pure tt
  push_each stream ((eid, evt) ∷ es) = do push_one stream eid evt; push_each stream es

  unfoldable pub pump_stream : String → Exec (World F) Unit
  pump_stream stream = do
    es ← (λ w. let (r, b) = xreadgroup stream "cg:gateway" 10 w.bus in (r, record w { bus = b }))
    push_each stream es

  unfoldable pub pump : Exec (World F) Unit
  pump = do pump_stream "market.ticks"; pump_stream "risk.updates"
