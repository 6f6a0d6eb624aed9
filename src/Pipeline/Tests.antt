-- ===== src/Pipeline/Tests.antt =====
-- The gateway at concrete inputs.
use event_driven_trading_led.Base.{String, ◌≡◌, [], ◌∷◌, ◌++◌, map}
use event_driven_trading_led.Base.Int.{ℤ, pos, negsuc}
use event_driven_trading_led.Base.Float.{whole}
use event_driven_trading_led.Pipeline.Market.{Body, tick, ledger, Message}
use event_driven_trading_led.Pipeline.Gateway.{Gateway, label}
use event_driven_trading_led.Pipeline.Gateway.Once.{first_messages, push_all, push_all_lem}

abbrev message : String → String → Body ℤ → Message ℤ
message event_id event_type content = record {
  event_id = event_id;
  event_type = event_type;
  correlation_id = "corr-e2e-1";
  produced_at = "t0";
  producer = "producer";
  content = content;
}

abbrev tick_message : Message ℤ
tick_message = message "m1" "TickReceived" (tick "AAPL" (pos 103) "t0")

abbrev ledger_message : Message ℤ
ledger_message = message "m2" "LedgerUpdated" (ledger "acct_123" "AAPL" (negsuc 1029) (pos 10))

abbrev idle : Gateway
idle = record { seen = []; pushed = [] }

push_all_lem_example :
    let new = first_messages idle.seen (tick_message ∷ ledger_message ∷ tick_message ∷ []) in
    push_all (tick_message ∷ ledger_message ∷ tick_message ∷ []) idle ≡ record {
      seen = idle.seen ++ map (λ e. e.event_id) new;
      pushed = idle.pushed ++ map (λ e. (e.event_type, label e.content)) new;
    }
push_all_lem_example = push_all_lem (tick_message ∷ ledger_message ∷ tick_message ∷ []) idle
