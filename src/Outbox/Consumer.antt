-- ===== src/Outbox/Consumer.antt =====
-- poc/outbox-idempotency/consumer.py: the consumer that deduplicates by `event_id`. It shares the bus
-- with the other parts, so a state is the bus with the consumer's own fields.
pub mod Dedupe
pub mod Polling
pub mod Replays
use event_driven_trading_led.Base.{
  ℕ, ◌+◌, String, Bool, true, false, List, [], ◌∷◌, ◌++◌, ◌&&◌, ◌||◌, ◌==◌, if◌then◌else◌,
}
use event_driven_trading_led.Base.Exec.{Exec, Result, ok, pure, modify, ◌>>=◌, ◌>>◌}
use event_driven_trading_led.Outbox.Bus.{
  StreamBus, xgroup_create, xreadgroup, xack, redeliver_pending,
}
use event_driven_trading_led.Outbox.Ledger.{LedgerUpdated, Position}

pub record RiskConsumer (F : Type 0) : Type 0 where
  pub stream : String
  pub group : String
  -- a set, as the list of its members in the order of their arrival
  pub seen : List String
  pub position_view : List (Position F)
  pub applied : ℕ
  pub skipped : ℕ

pub record World (F : Type 0) : Type 0 where
  pub bus : StreamBus (LedgerUpdated F)
  pub consumer : RiskConsumer F

abbrev pub contains : String → List String → Bool
contains k [] = false
contains k (j ∷ js) = j == k || contains k js

pub data PollResult : Type 0 where
  poll_ok crashed_before_ack : PollResult

module _ {F : Type 0} where
  -- `position_view[(account_id, symbol)] = qty`
  unfoldable pub set_view : String → String → F → List (Position F) → List (Position F)
  set_view a s q [] = record { account_id = a; symbol = s; qty = q } ∷ []
  set_view a s q (p ∷ ps) =
      if p.account_id == a && p.symbol == s
      then record p { qty = q } ∷ ps
      else p ∷ set_view a s q ps

  -- `RiskConsumer(bus, stream, group)`
  unfoldable pub new_consumer : String → String → StreamBus (LedgerUpdated F) → World F
  new_consumer stream group b = record {
    bus = (xgroup_create stream group 0 b).1;
    consumer = record {
      stream = stream;
      group = group;
      seen = [];
      position_view = [];
      applied = 0;
      skipped = 0;
    };
  }

  -- a method of the bus, called by the consumer
  abbrev pub on_bus : {A : Type 0} → Exec (StreamBus (LedgerUpdated F)) A → Exec (World F) A
  on_bus m w = let (r, b) = m w.bus in (r, record w { bus = b })

  -- what `_apply` does to the consumer's own fields before its `xack`
  unfoldable pub consume : LedgerUpdated F → RiskConsumer F → RiskConsumer F
  consume evt c =
      if contains evt.event_id c.seen then record c { skipped = c.skipped + 1 } else record c {
        position_view =
            set_view evt.content.account_id evt.content.symbol evt.content.position_after
              c.position_view;
        seen = c.seen ++ evt.event_id ∷ [];
        applied = c.applied + 1;
      }

  unfoldable pub apply : ℕ → LedgerUpdated F → Exec (World F) Unit
  apply eid evt w =
      let c = consume evt w.consumer in
      let (r, b) = xack w.consumer.stream w.consumer.group eid w.bus in
      (r, record { bus = b; consumer = c })

  -- the loops of `poll` and `recover`
  unfoldable pub apply_each : List (ℕ × LedgerUpdated F) → Exec (World F) Unit
  apply_each [] = pure tt
  apply_each ((eid, evt) ∷ es) = do apply eid evt; apply_each es

  abbrev pub poll_batch : Bool → List (ℕ × LedgerUpdated F) → Exec (World F) PollResult
  poll_batch crash_before_ack [] = pure poll_ok
  poll_batch true (e ∷ es) = pure crashed_before_ack
  poll_batch false (e ∷ es) = do apply_each (e ∷ es); pure poll_ok

  unfoldable pub poll : Bool → Exec (World F) PollResult
  poll crash_before_ack = do
    es ← (λ w. on_bus (xreadgroup w.consumer.stream w.consumer.group 10) w)
    poll_batch crash_before_ack es

  unfoldable pub recover : Exec (World F) Unit
  recover = do
    es ← (λ w. on_bus (redeliver_pending w.consumer.stream w.consumer.group) w)
    apply_each es
