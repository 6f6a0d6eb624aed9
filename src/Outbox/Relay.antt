-- ===== src/Outbox/Relay.antt =====
-- poc/outbox-idempotency/relay.py: unsent outbox rows go to the stream and are marked sent.
pub mod Publication
use event_driven_trading_led.Base.{ℕ, ◌+◌, String, Bool, List, [], ◌∷◌, if◌then◌else◌}
use event_driven_trading_led.Outbox.Bus.{StreamBus, xadd}
use event_driven_trading_led.Outbox.Ledger.{Ledger, LedgerUpdated, unsent_outbox, mark_sent}

-- the two objects that the relay is given
pub record Pipe (F : Type 0) : Type 0 where
  pub ledger : Ledger F
  pub bus : StreamBus (LedgerUpdated F)

module _ {F : Type 0} where
  -- one or two `xadd` calls
  unfoldable pub publish :
      String → Bool → LedgerUpdated F → StreamBus (LedgerUpdated F) → StreamBus (LedgerUpdated F)
  publish stream inject_dup payload b =
      let once = (xadd stream payload b).1 in
      if inject_dup then (xadd stream payload once).1 else once

  -- the loop over the rows that were unsent when it began
  unfoldable pub relay_rows :
      String → Bool → List (String × LedgerUpdated F) → ℕ → Pipe F → ℕ × Pipe F
  relay_rows stream inject_dup [] published p = (published, p)
  relay_rows stream inject_dup ((event_id, payload) ∷ rows) published p =
      relay_rows stream inject_dup rows (published + 1) (record {
        ledger = mark_sent event_id p.ledger;
        bus = publish stream inject_dup payload p.bus;
      })

  unfoldable pub relay_outbox : String → Bool → Pipe F → ℕ × Pipe F
  relay_outbox stream inject_dup p = relay_rows stream inject_dup (unsent_outbox p.ledger) 0 p
