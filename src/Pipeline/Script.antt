-- ===== src/Pipeline/Script.antt =====
-- poc/end-to-end/run_pipeline.py: the parts on one bus, the acceptance criteria, the duplicate with a
-- replay, and the exit code. The relay is relay_outbox of poc/outbox-idempotency/relay.py, on a bus
-- whose entries are messages. What the envelopes and the postings draw is an argument; printing is
-- left out.
pub mod Resilience
pub mod Postings
pub mod Stages
pub mod Answers
pub mod Passes
use event_driven_trading_led.Base.{
  ℕ, ◌+◌, String, Bool, true, false, Option, none, some, List, [], ◌∷◌, ◌++◌, ◌&&◌, nat_eq, leb,
  length, map, reverse, if◌then◌else◌,
}
use event_driven_trading_led.Base.Exec.{
  Exec, Result, ok, err, key_error, index_error, bind_result, or_raise, assert_that, pure, ◌>>=◌,
  ◌>>◌,
}
use event_driven_trading_led.Base.Dict.{Dict, lookup}
use event_driven_trading_led.Base.Text.{same_set}
use event_driven_trading_led.Base.Float.{Float}
use event_driven_trading_led.Outbox.Bus.{StreamBus, empty_bus, xadd, stream_len, setid}
use event_driven_trading_led.Outbox.Ledger.{
  TradeRequest, Draw, no_crash, Ledger, LedgerUpdated, new_ledger, post_trade, unsent_outbox,
  mark_sent, je_count, assert_double_entry,
}
use event_driven_trading_led.Outbox.Scenarios.{exit_on_assertion}
use event_driven_trading_led.Pipeline.Market.{Message, Stamp, ledger, produce_ticks}
use event_driven_trading_led.Pipeline.Engine.{World, new_engine, refresh, poll_ledger}
use event_driven_trading_led.Pipeline.Gateway.{Gateway, new_gateway, pump}

-- what a run draws: for the ticks by their index, for the posting of a request, and for the risk
-- engine's answer to an event
pub record Draws : Type 0 where
  pub ticks : ℕ → Stamp
  pub posts : String → Draw
  pub stamps : String → Stamp

abbrev pub correlation : String
correlation = "corr-e2e-1"

-- `gw.pushed_types()`
abbrev pub pushed_types : Gateway → List String
pushed_types g = map (λ p. p.0) g.pushed

module _ {F : Type 0} where
  -- a LedgerUpdated envelope as a message
  abbrev pub message_of : LedgerUpdated F → Message F
  message_of e = record {
    event_id = e.event_id;
    event_type = e.event_type;
    correlation_id = e.correlation_id;
    produced_at = e.produced_at;
    producer = e.producer;
    content =
        ledger e.content.account_id e.content.symbol e.content.cash_delta e.content.position_after;
  }

  -- the relay over the rows that were unsent when it began
  pub relay_messages :
      List (String × LedgerUpdated F)
      → Ledger F × StreamBus (Message F)
      → Ledger F × StreamBus (Message F)
  relay_messages [] p = p
  relay_messages ((event_id, payload) ∷ rows) p =
      relay_messages rows
        (mark_sent event_id p.0, (xadd "ledger.updates" (message_of payload) p.1).1)

  -- the types of the entries of a stream
  abbrev pub types_of : List (ℕ × Message F) → List String
  types_of = map (λ e. e.1.event_type)

  -- `bus.streams[s]`
  abbrev pub stream_of : String → StreamBus (Message F) → Result (List (ℕ × Message F))
  stream_of s b = or_raise (lookup s b.streams) key_error

  pub streamed_types : StreamBus (Message F) → Result (List String)
  streamed_types b = bind_result (stream_of "market.ticks" b) λ ticks.
      bind_result (stream_of "ledger.updates" b) λ updates.
        bind_result (stream_of "risk.updates" b)
          λ risks. ok (types_of ticks ++ (types_of updates ++ types_of risks))

  -- `[-1][1]`
  pub last_message : List (ℕ × Message F) → Result (Message F)
  last_message [] = err index_error
  last_message (e ∷ []) = ok e.1
  last_message (e ∷ f ∷ es) = last_message (f ∷ es)

module _ {F : Type 0} ⦃fl : Float F⦄ where
  abbrev pub trade_request : String → F → TradeRequest F
  trade_request rid price = record {
    request_id = rid;
    account_id = "acct_123";
    symbol = "AAPL";
    side = "BUY";
    quantity = fl.decimal 10 0;
    price = price;
    correlation_id = some correlation;
  }

  -- the prices of the ticks, each with what its tick draws
  abbrev pub priced : (ℕ → Stamp) → List (Stamp × F)
  priced draw =
      (draw 0, fl.decimal 1000 1)
      ∷ (draw 1, fl.decimal 1010 1)
      ∷ (draw 2, fl.decimal 1025 1)
      ∷ (draw 3, fl.decimal 1015 1)
      ∷ (draw 4, fl.decimal 1030 1)
      ∷ []

  -- the loop over the request ids
  pub post_each : (String → Draw) → F → List String → Exec (Ledger F) Unit
  post_each draw price [] = pure tt
  post_each draw price (rid ∷ rids) = do
    post_trade (draw rid) (trade_request rid price) no_crash
    post_each draw price rids

  -- whether each item of a dict is one of another, and `risk.pos == positions_before`
  abbrev pub dict_holds : Dict F → Dict F → Bool
  dict_holds [] before = true
  dict_holds ((k, q) ∷ d) before =
      elim (lookup k before) [ none ↦ false | some x ↦ fl.eq q x ] && dict_holds d before

  abbrev pub same_dict : Dict F → Dict F → Bool
  same_dict d before = nat_eq (length d) (length before) && dict_holds d before

-- the parts once each has run: the count of the ticks, the ledger, the engine with the bus, the gateway
pub record Ran (F : Type 0) : Type 0 where
  pub ticks : ℕ
  pub books : Ledger F
  pub world : World F
  pub gateway : Gateway

module _ {F : Type 0} ⦃fl : Float F⦄ where
  -- the market data, the ledger, the relay, the risk engine and the gateway, one after the other
  pub run_parts : Draws → Result (Ran F)
  run_parts draws =
      let engine : World F = new_engine empty_bus in
      let (count, ticked) =
        produce_ticks (priced draws.ticks) correlation "AAPL" (new_gateway engine.bus).bus in
      bind_result count λ ticks.
        let (refreshed, cached) = refresh (record engine { bus = ticked }) in
        bind_result refreshed λ _.
          bind_result (or_raise (lookup "AAPL" cached.latest) key_error) λ price.
            let (posted, books) =
              post_each draws.posts price ("t1" ∷ "t2" ∷ "t3" ∷ []) new_ledger in
            bind_result posted λ _.
              let (books', relayed) = relay_messages (unsent_outbox books) (books, cached.bus) in
              let (polled, w) = poll_ledger draws.stamps (record cached { bus = relayed }) in
              bind_result polled λ _.
                let (pumped, g) =
                  pump (record { bus = w.bus; gateway = (new_gateway engine.bus).gateway }) in
                bind_result pumped λ _. ok (record {
                  ticks = ticks;
                  books = books';
                  world = record w { bus = g.bus };
                  gateway = g.gateway;
                })

  -- the acceptance criteria
  pub accept : Ran F → Result (Unit {0})
  accept r =
      let b = r.world.bus in
      bind_result (assert_that (nat_eq (stream_len "market.ticks" b) r.ticks)) λ _.
        bind_result
          (assert_that (nat_eq (je_count r.books) 3 && nat_eq (stream_len "ledger.updates" b) 3))
          λ _. bind_result (assert_that (nat_eq (stream_len "risk.updates" b) 3)) λ _.
            bind_result
              (assert_that (nat_eq r.world.engine.applied 3 && nat_eq r.world.engine.skipped 0))
              λ _. bind_result (streamed_types b) λ types.
                bind_result
                  (assert_that
                    (same_set types ("TickReceived" ∷ "LedgerUpdated" ∷ "RiskComputed" ∷ [])))
                  λ _.
                    bind_result
                      (assert_that
                        (same_set (pushed_types r.gateway) ("TickReceived" ∷ "RiskComputed" ∷ [])))
                      λ _. bind_result (assert_double_entry r.books).0 λ _. ok tt

  -- the duplicate of the last event, and the replay from the start
  pub resist : (String → Stamp) → World F → Result (Unit {0})
  resist stamps w = bind_result (stream_of "ledger.updates" w.bus) λ es.
      bind_result (last_message es) λ message.
        let doubled = (xadd "ledger.updates" message w.bus).1 in
        let rewound = (setid "ledger.updates" "cg:risk-engine" 0 doubled).1 in
        let (polled, w') = poll_ledger stamps (record w { bus = rewound }) in
        bind_result polled λ _.
          bind_result (assert_that (same_dict w'.engine.pos w.engine.pos))
            λ _. assert_that (leb 3 w'.engine.skipped)

module _ (F : Type 0) ⦃fl : Float F⦄ where
  pub pipeline_main : Draws → Result ℕ
  pipeline_main draws = exit_on_assertion (
      bind_result (run_parts {F = F} draws)
        λ r. bind_result (accept r) λ _. resist draws.stamps r.world)
