-- ===== src/Outbox/Tests.antt =====
-- Runs of the outbox model over whole numbers, and the theorems at concrete inputs.
use event_driven_trading_led.Base.{
  ℕ, ◌+◌, inl, String, ◌≡◌, refl, true, false, some, List, [], ◌∷◌, ◌++◌, arith, map, length,
}
use event_driven_trading_led.Base.Int.{ℤ, pos, negsuc}
use event_driven_trading_led.Base.Dict.{lookup, update}
use event_driven_trading_led.Base.Exec.{ok, err, crash_injected, integrity_error}
use event_driven_trading_led.Base.Float.{whole}
use event_driven_trading_led.Outbox.Bus.{StreamBus, Group, empty_bus, find_group}
use event_driven_trading_led.Outbox.Bus.Reads.{IsReady}
use event_driven_trading_led.Outbox.Ledger.{
  Audit, TradeRequest, Draw, find_entry, cash_delta_of, no_crash, before_commit,
  after_commit_before_publish, Ledger, LedgerUpdated, new_ledger, posted, replayed, has_entry,
  has_audit, has_event, qty_is_null, cash_is_null, find_qty, add_qty, transact, reject,
  write_outbox, qty_delta_of, audit_of, post_trade, mark_sent, tables_of, unsent_outbox, event_of,
}
use event_driven_trading_led.Outbox.Ledger.Posting.{
  Accepts, committed, post_trade_atomic, post_trade_retry,
}
use event_driven_trading_led.Outbox.Ledger.HalfPosted.{half_posted, post_trade-half_posted}
use event_driven_trading_led.Outbox.Ledger.Invariant.{
  KeepsConstraints, IsSound, Call, post_all, post_all-IsSound,
}
use event_driven_trading_led.Outbox.Relay.{Pipe, relay_outbox}
use event_driven_trading_led.Outbox.Relay.Publication.{contents, copies, relay_outbox_lem}
use event_driven_trading_led.Outbox.Consumer.{World, new_consumer, poll, recover}
use event_driven_trading_led.Outbox.Consumer.Dedupe.{
  consume_all, first_deliveries, view_after, consume_all_lem,
}
use event_driven_trading_led.Outbox.Consumer.Polling.{poll_crash_recover}

abbrev trade : String → String → ℤ → ℤ → TradeRequest ℤ
trade rid side quantity price = record {
  request_id = rid;
  account_id = "acct_123";
  symbol = "AAPL";
  side = side;
  quantity = quantity;
  price = price;
  correlation_id = some "corr-1";
}

abbrev draw : String → String → Draw
draw je event_id = record {
  je = je;
  audit_id = event_id;
  event_id = event_id;
  correlation_id = "fresh";
  entered_at = "t0";
  recorded_at = "t1";
  produced_at = "t2";
  posted_at = "t3";
  created_at = "t4";
}

abbrev buy : TradeRequest ℤ
buy = trade "r1" "BUY" (pos 10) (pos 100)

abbrev too_much : TradeRequest ℤ
too_much = trade "r2" "BUY" (pos 10) (pos 10000)

abbrev pub start : Ledger ℤ
start = new_ledger

buy-Accepts : Accepts (draw "je1" "e1") buy start (pos 10000)
unfolding find_entry lookup cash_delta_of has_entry has_audit has_event qty_is_null find_qty
buy-Accepts = (
  refl,
  refl,
  refl,
  record {
    idle = refl;
    entry_new = refl;
    amount = refl;
    left = refl;
    held = refl;
    audit_new = refl;
    event_new = refl;
  },
)

post_trade_atomic_example :
    (post_trade (draw "je1" "e1") buy no_crash start
      ≡ (ok (posted "je1" "e1"), committed (draw "je1" "e1") buy start))
    × (post_trade (draw "je1" "e1") buy before_commit start ≡ (err crash_injected, start))
    × (post_trade (draw "je1" "e1") buy after_commit_before_publish start
        ≡ (err crash_injected, committed (draw "je1" "e1") buy start))
post_trade_atomic_example = post_trade_atomic (draw "je1" "e1") buy start (pos 10000) buy-Accepts

post_trade_retry_example :
    let l' = (post_trade (draw "je1" "e1") buy no_crash start).1 in
    post_trade (draw "je2" "e2") buy before_commit l' ≡ (ok (replayed "je1"), l')
post_trade_retry_example =
    post_trade_retry (draw "je1" "e1") (draw "je2" "e2") buy before_commit start (pos 10000)
      buy-Accepts

abbrev audit_row : Audit
audit_row = audit_of (draw "je0" "e1") too_much "rejected" (some "NEGATIVE_CASH")

-- a ledger whose audit log has the id that the next posting draws
abbrev audited_once : Ledger ℤ
audited_once = record start { audit_log = audit_row ∷ [] }

post_trade-half_posted_example :
    let (r, l') = post_trade (draw "je1" "e1") buy no_crash audited_once in
    (r ≡ err integrity_error)
    × (l' ≡ record (half_posted (draw "je1" "e1") buy audited_once) {
      undo = some (tables_of audited_once);
    })
    × (mark_sent "e0" l' ≡ mark_sent "e0" (half_posted (draw "je1" "e1") buy audited_once))
unfolding find_entry lookup cash_delta_of has_entry has_audit qty_is_null find_qty audit_of
post_trade-half_posted_example =
    post_trade-half_posted (draw "je1" "e1") buy audited_once (pos 10000) no_crash "e0" audit_row
      refl refl refl refl refl refl refl refl (inl refl) refl

IsSound-new_ledger : IsSound start
unfolding lookup
IsSound-new_ledger = record {
  idle = refl;
  mirrored = tt;
  solvent = λ a c found. ground arith;
  unique = tt;
  matched = refl;
}

abbrev pub calls : List (Call ℤ)
calls =
    record { draw = draw "je1" "e1"; request = buy; crash = after_commit_before_publish }
    ∷ record { draw = draw "je2" "e2"; request = too_much; crash = no_crash }
    ∷ record { draw = draw "je3" "e3"; request = buy; crash = before_commit }
    ∷ record {
      draw = draw "je4" "e4";
      request = trade "r3" "SELL" (pos 4) (pos 110);
      crash = no_crash;
    }
    ∷ []

pub calls-KeepsConstraints : KeepsConstraints calls start
unfolding post_trade transact reject find_entry find_qty add_qty lookup update cash_delta_of
    qty_delta_of has_entry has_audit has_event cash_is_null qty_is_null write_outbox audit_of
calls-KeepsConstraints = (refl, (refl, (refl, (refl, tt))))

post_all-IsSound_example : IsSound (post_all calls start)
post_all-IsSound_example = post_all-IsSound calls start calls-KeepsConstraints IsSound-new_ledger

abbrev pipe : Pipe ℤ
pipe = record { ledger = post_all calls start; bus = empty_bus }

relay_outbox_lem_example :
    let (published, p') = relay_outbox "ledger.updates" true pipe in
    (unsent_outbox p'.ledger ≡ [])
    × (published ≡ length (unsent_outbox pipe.ledger))
    × (contents "ledger.updates" p'.bus
        ≡ contents "ledger.updates" pipe.bus ++ copies true (unsent_outbox pipe.ledger))
relay_outbox_lem_example = relay_outbox_lem "ledger.updates" true pipe

abbrev event : String → ℤ → LedgerUpdated ℤ
event event_id q = event_of (draw "je1" event_id) buy (negsuc 999) q

abbrev delivered_events : List (LedgerUpdated ℤ)
delivered_events = event "e1" (pos 10) ∷ event "e2" (pos 20) ∷ event "e1" (pos 10) ∷ []

abbrev world : World ℤ
world = new_consumer "ledger.updates" "cg:risk-engine" empty_bus

consume_all_lem_example :
    let c = world.consumer in
    let new = first_deliveries c.seen delivered_events in
    let c' = consume_all delivered_events c in
    (c'.position_view ≡ view_after c.position_view new)
    × (c'.seen ≡ c.seen ++ map (λ e. e.event_id) new)
    × (c'.applied ≡ c.applied + length new)
    × (c'.applied + c'.skipped ≡ c.applied + c.skipped + length delivered_events)
consume_all_lem_example = consume_all_lem delivered_events world.consumer

-- a stream of two entries, and a group that has been delivered none
abbrev pub two_entries : List (ℕ × LedgerUpdated ℤ)
two_entries = (1, event "e1" (pos 10)) ∷ (2, event "e2" (pos 20)) ∷ []

abbrev pub fresh_group : Group (LedgerUpdated ℤ)
fresh_group = record { last = 0; pel = [] }

abbrev filled_bus : StreamBus (LedgerUpdated ℤ)
filled_bus = record {
  streams = ("ledger.updates", two_entries) ∷ [];
  groups = record { stream = "ledger.updates"; group = "cg:risk-engine"; state = fresh_group } ∷ [];
}

pub filled_bus-IsReady :
    IsReady "ledger.updates" "cg:risk-engine" two_entries fresh_group filled_bus
unfolding lookup find_group
filled_bus-IsReady = record {
  has_stream = refl;
  has_group = refl;
  numbered = omega arith;
  below = tt;
}

abbrev pub filled_world : World ℤ
filled_world = record {
  bus = filled_bus;
  consumer = record {
    stream = "ledger.updates";
    group = "cg:risk-engine";
    seen = "e1" ∷ [];
    position_view = [];
    applied = 1;
    skipped = 0;
  };
}

poll_crash_recover_example : (recover (poll true filled_world).1).1 ≡ (poll false filled_world).1
poll_crash_recover_example =
    poll_crash_recover two_entries fresh_group filled_world filled_bus-IsReady refl
