-- ===== src/Outbox/Consumer/Replays.antt =====
-- A replay: the cursor of the group is set back, and the consumer polls again.
use event_driven_trading_led.Base.{
  ℕ, ◌+◌, ◌≡◌, refl, ap, ◌∙◌, true, false, List, [], ◌∷◌, length, length-map, ltb, All, All-select,
  All-take,
}
use event_driven_trading_led.Base.Exec.{ok}
use event_driven_trading_led.Outbox.Bus.{Group, setid}
use event_driven_trading_led.Outbox.Bus.Delivery.{batch, undelivered}
use event_driven_trading_led.Outbox.Bus.Groups.{find_group-put_group_self}
use event_driven_trading_led.Outbox.Ledger.{LedgerUpdated}
use event_driven_trading_led.Outbox.Consumer.{RiskConsumer, World, contains, on_bus, poll, poll_ok}
use event_driven_trading_led.Outbox.Consumer.Dedupe.{consume_all, consume_all-seen}
use event_driven_trading_led.Outbox.Consumer.Polling.{events, Ready, poll_lem}

module _ {F : Type 0} where
  -- the entries whose events a consumer has seen
  abbrev pub AreSeen : RiskConsumer F → List (ℕ × LedgerUpdated F) → Type 0
  AreSeen c = All (λ e. contains e.1.event_id c.seen ≡ true)

  events-AreSeen :
      (c : RiskConsumer F) (es : List (ℕ × LedgerUpdated F))
      → AreSeen c es
      → All (λ x. contains x.event_id c.seen ≡ true) (events es)
  events-AreSeen c [] h = tt
  events-AreSeen c (e ∷ es) h = (h.0, events-AreSeen c es h.1)

  -- `setid` on the consumer's own stream and group
  abbrev pub rewound : ℕ → World F → World F
  rewound start w = (on_bus (setid w.consumer.stream w.consumer.group start) w).1

  rewound-Ready :
      (start : ℕ) (es : List (ℕ × LedgerUpdated F)) (g : Group (LedgerUpdated F)) (w : World F)
      → Ready es g w
      → Ready es (record { last = start; pel = [] }) (rewound start w)
  unfolding setid
  rewound-Ready start es g w r = record {
    has_stream = r.has_stream;
    has_group = find_group-put_group_self w.consumer.stream w.consumer.group _ w.bus.groups;
    numbered = r.numbered;
    below = tt;
  }

  rewound-consumer : (start : ℕ) (w : World F) → (rewound start w).consumer ≡ w.consumer
  unfolding setid
  rewound-consumer start w = refl

  -- A consumer that has seen every event of its stream, whose group is set back to any entry, and
  -- that polls then: it raises nothing and skips each of the entries that it is given, at most ten,
  -- and its view, its seen ids and its applied count stay.
  pub poll-setid :
      (start : ℕ) (es : List (ℕ × LedgerUpdated F)) (g : Group (LedgerUpdated F)) (w : World F)
      → Ready es g w
      → AreSeen w.consumer es
      → let (r, w') = poll false (rewound start w) in
        (r ≡ ok poll_ok)
        × (w'.consumer
            ≡ record (w.consumer) { skipped = w.consumer.skipped + length (batch 10 start es) })
  poll-setid start es g w ready seen =
      let g' : Group (LedgerUpdated F) = record { last = start; pel = [] } in
      let b = batch 10 start es in
      let c = w.consumer in
      let given : AreSeen c b =
        All-take (λ e. contains e.1.event_id c.seen ≡ true) 10 (undelivered start es)
          (All-select (λ e. contains e.1.event_id c.seen ≡ true) (λ e. ltb start e.0) es seen) in
      rw (poll_lem es g' (rewound start w) (rewound-Ready start es g w ready)) (
        refl,
        ap (consume_all (events b)) (rewound-consumer start w)
            ∙ consume_all-seen (events b) c (events-AreSeen c b given)
            ∙ ap (λ n. record c { skipped = c.skipped + n })
                (length-map (λ (e : ℕ × LedgerUpdated F). e.1) b),
      )
