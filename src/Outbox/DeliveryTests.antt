-- ===== src/Outbox/DeliveryTests.antt =====
-- From the postings to the view of the consumer, at a concrete input.
use event_driven_trading_led.Base.{◌+◌, ◌≡◌, refl, true, false, [], ◌∷◌, length}
use event_driven_trading_led.Base.Int.{ℤ}
use event_driven_trading_led.Base.Dict.{lookup}
use event_driven_trading_led.Base.Float.{whole}
use event_driven_trading_led.Outbox.Bus.{StreamBus, empty_bus, entries}
use event_driven_trading_led.Outbox.Ledger.{LedgerUpdated, event_of}
use event_driven_trading_led.Outbox.Ledger.Invariant.{post_all}
use event_driven_trading_led.Outbox.Relay.{relay_outbox}
use event_driven_trading_led.Outbox.Relay.Publication.{contents}
use event_driven_trading_led.Outbox.Consumer.{RiskConsumer, World, poll, poll_ok}
use event_driven_trading_led.Outbox.Consumer.Dedupe.{consume_all}
use event_driven_trading_led.Outbox.Consumer.Replays.{rewound, poll-setid}
use event_driven_trading_led.Outbox.Bus.Delivery.{batch}
use event_driven_trading_led.Base.Exec.{ok}
use event_driven_trading_led.Outbox.Delivery.{view_of_postings}
use event_driven_trading_led.Outbox.Tests.{
  calls, calls-KeepsConstraints, start, two_entries, fresh_group, filled_world, filled_bus-IsReady,
}

abbrev fresh : RiskConsumer ℤ
fresh = record {
  stream = "ledger.updates";
  group = "cg:risk-engine";
  seen = [];
  position_view = [];
  applied = 0;
  skipped = 0;
}

abbrev no_streams : StreamBus (LedgerUpdated ℤ)
no_streams = empty_bus

view_of_postings_example :
    let l = post_all calls start in
    let p' = (relay_outbox "ledger.updates" true (record { ledger = l; bus = no_streams })).1 in
    let c' = consume_all (contents "ledger.updates" p'.bus) fresh in
    (c'.position_view ≡ l.positions) × (c'.applied ≡ fresh.applied + length l.outbox_events)
unfolding entries lookup
view_of_postings_example =
    view_of_postings calls "ledger.updates" true no_streams fresh
      ((refl, (refl, (refl, tt))), ((refl, (refl, tt)), ((refl, tt), (tt, tt))))
      calls-KeepsConstraints refl refl refl

-- a consumer that has seen both entries of its stream
abbrev caught_up : World ℤ
caught_up = record filled_world {
  consumer = record (filled_world.consumer) { seen = "e1" ∷ "e2" ∷ []; applied = 2 };
}

poll-setid_example :
    let (r, w') = poll false (rewound 0 caught_up) in
    (r ≡ ok poll_ok)
    × (w'.consumer ≡ record (caught_up.consumer) {
      skipped = caught_up.consumer.skipped + length (batch 10 0 two_entries);
    })
unfolding event_of
poll-setid_example =
    poll-setid 0 two_entries fresh_group caught_up filled_bus-IsReady (refl, (refl, tt))
