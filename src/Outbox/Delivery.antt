-- ===== src/Outbox/Delivery.antt =====
-- The relay and the consumer together: what reaches the consumer through the stream.
use event_driven_trading_led.Base.{
  String, ◌≡◌, refl, ap, ◌∙◌, Bool, true, false, List, [], ◌∷◌, ◌++◌, map, length, length-map, ◌+◌,
}
use event_driven_trading_led.Outbox.Ledger.{
  LedgerUpdated, OutboxRow, Ledger, new_ledger, unsent_outbox,
}
use event_driven_trading_led.Base.Float.{Float}
use event_driven_trading_led.Outbox.Bus.{StreamBus}
use event_driven_trading_led.Outbox.Ledger.Invariant.{Call, post_all, KeepsConstraints}
use event_driven_trading_led.Outbox.Ledger.Projection.{
  events, IsProjected, DrawsApart, post_all-IsProjected, new_ledger-IsProjected,
  new_ledger-DrawsFresh, payloads-unsent_outbox, first_deliveries-AreNew,
}
use event_driven_trading_led.Outbox.Relay.{Pipe, relay_outbox}
use event_driven_trading_led.Outbox.Relay.Publication.{copies, contents, relay_outbox_lem}
use event_driven_trading_led.Outbox.Consumer.{RiskConsumer}
use event_driven_trading_led.Outbox.Consumer.Dedupe.{
  consume_all, consume_all_lem, first_deliveries, doubled, consume_all-doubled,
}

module _ {F : Type 0} where
  -- the payloads of rows of the outbox
  abbrev pub payloads : List (String × LedgerUpdated F) → List (LedgerUpdated F)
  payloads = map (λ r. r.1)

  copies-true :
      (rows : List (String × LedgerUpdated F)) → copies true rows ≡ doubled (payloads rows)
  copies-true [] = refl
  copies-true (r ∷ rows) = ap (λ es. r.1 ∷ r.1 ∷ es) (copies-true rows)

  copies-false : (rows : List (String × LedgerUpdated F)) → copies false rows ≡ payloads rows
  copies-false [] = refl
  copies-false (r ∷ rows) = ap (λ es. r.1 ∷ es) (copies-false rows)

  consume_all-copies :
      (dup : Bool) (rows : List (String × LedgerUpdated F)) (c : RiskConsumer F)
      → let c' = consume_all (copies dup rows) c in
        let once = consume_all (payloads rows) c in
        (c'.position_view ≡ once.position_view)
        × (c'.seen ≡ once.seen)
        × (c'.applied ≡ once.applied)
  consume_all-copies true rows c =
      let twice = consume_all-doubled (payloads rows) c in
      rw (copies-true rows) (twice.0, twice.1, twice.2)
  consume_all-copies false rows c = rw (copies-false rows) (refl, refl, refl)

  -- Whatever a run of the relay puts on a stream that was empty, with or without duplicates, gives a
  -- consumer the view, the seen ids and the applied count that the payloads of the unsent rows of
  -- the outbox give it, each once and in order.
  pub relayed_once :
      (stream : String) (dup : Bool) (p : Pipe F) (c : RiskConsumer F)
      → contents stream p.bus ≡ []
      → let p' = (relay_outbox stream dup p).1 in
        let c' = consume_all (contents stream p'.bus) c in
        let once = consume_all (payloads (unsent_outbox p.ledger)) c in
        (c'.position_view ≡ once.position_view)
        × (c'.seen ≡ once.seen)
        × (c'.applied ≡ once.applied)
  relayed_once stream dup p c empty =
      let rows = unsent_outbox p.ledger in
      rw ((relay_outbox_lem stream dup p).2 ∙ ap (λ es. es ++ copies dup rows) empty)
        (consume_all-copies dup rows c)

module _ {F : Type 0} ⦃fl : Float F⦄ where
  -- a consumer that has applied nothing, after the events of a ledger
  consume_all-events :
      (l : Ledger F) (c : RiskConsumer F)
      → IsProjected l
      → c.seen ≡ []
      → c.position_view ≡ []
      → let c' = consume_all (events l) c in
        (c'.position_view ≡ l.positions) × (c'.applied ≡ c.applied + length l.outbox_events)
  consume_all-events l c h unseen blank =
      let (view, _, count, _) = consume_all_lem (events l) c in
      let all : first_deliveries c.seen (events l) ≡ events l =
        rw unseen (first_deliveries-AreNew [] (events l) h.new) in
      (
        view ∙ rw (all, blank) h.told,
        count
            ∙ ap (λ es. c.applied + length es) all
            ∙ ap (λ n. c.applied + n) (length-map (λ (r : OutboxRow F). r.payload) l.outbox_events),
      )

  -- From a new ledger, after any postings with event ids that differ, wherever they crash, none of which
  -- raises IntegrityError: a run of the relay onto an empty stream, with or without duplicates, brings a fresh
  -- consumer to a view that is the table of positions of the ledger, with one event applied for each
  -- row of the outbox.
  pub view_of_postings :
      (cs : List (Call F)) (stream : String) (dup : Bool) (bus : StreamBus (LedgerUpdated F))
      (c : RiskConsumer F)
      → DrawsApart cs
      → KeepsConstraints cs new_ledger
      → contents stream bus ≡ []
      → c.seen ≡ []
      → c.position_view ≡ []
      → let l = post_all cs new_ledger in
        let p' = (relay_outbox stream dup (record { ledger = l; bus = bus })).1 in
        let c' = consume_all (contents stream p'.bus) c in
        (c'.position_view ≡ l.positions) × (c'.applied ≡ c.applied + length l.outbox_events)
  view_of_postings cs stream dup bus c apart quiet empty unseen blank =
      let l = post_all cs new_ledger in
      let projected =
        post_all-IsProjected cs new_ledger apart (new_ledger-DrawsFresh cs) quiet
          new_ledger-IsProjected in
      let start : Pipe F = record { ledger = l; bus = bus } in
      let (view, _, count) = relayed_once stream dup start c empty in
      let same : payloads (unsent_outbox l) ≡ events l = payloads-unsent_outbox l projected in
      let (told, applied) = consume_all-events l c projected unseen blank in
      (
        view ∙ ap (λ es. (consume_all es c).position_view) same ∙ told,
        count ∙ ap (λ es. (consume_all es c).applied) same ∙ applied,
      )
