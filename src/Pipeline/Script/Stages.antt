-- ===== src/Pipeline/Script/Stages.antt =====
-- What each part of run_pipeline.py does to the bus.
use event_driven_trading_led.Base.{ℕ, ◌≡◌, refl, none, List, [], ◌∷◌, select}
use event_driven_trading_led.Base.Exec.{ok}
use event_driven_trading_led.Base.Dict.{lookup, insert}
use event_driven_trading_led.Base.Float.{Float}
use event_driven_trading_led.Outbox.Bus.{
  Group, StreamBus, empty_bus, xadd, entries, xgroup_create, put_group, find_group, pel_put,
  read_loop, xreadgroup, pel_drop, xack,
}
use event_driven_trading_led.Outbox.Ledger.{
  Draw, cash_delta_of, write_outbox, find_qty, add_qty, qty_delta_of, event_of, unsent_outbox,
  mark_row, mark_sent, je_count,
}
use event_driven_trading_led.Pipeline.Market.{
  Body, ledger, tick, Message, Stamp, envelope, add_ticks, produce_ticks,
}
use event_driven_trading_led.Pipeline.Gateway.{
  Gateway, new_gateway, push, push_one, push_each, pump_stream, pump,
}
use event_driven_trading_led.Pipeline.Engine.{
  RiskEngine, new_engine, cache_tick, cache_each, refresh,
}
use event_driven_trading_led.Pipeline.Script.{priced, correlation, Draws, relay_messages}
use event_driven_trading_led.Pipeline.Script.Postings.{last_price, paid, books_3}

module _ {F : Type 0} where
  -- the bus of the script: its three streams and four groups
  abbrev pub bus_of :
      List (ℕ × Message F)
      → List (ℕ × Message F)
      → List (ℕ × Message F)
      → Group (Message F)
      → Group (Message F)
      → Group (Message F)
      → Group (Message F)
      → StreamBus (Message F)
  bus_of ts ls rs g h i j = record {
    streams = ("market.ticks", ts) ∷ ("ledger.updates", ls) ∷ ("risk.updates", rs) ∷ [];
    groups =
        record { stream = "market.ticks"; group = "cg:risk-engine"; state = g }
        ∷ record { stream = "ledger.updates"; group = "cg:risk-engine"; state = h }
        ∷ record { stream = "market.ticks"; group = "cg:gateway"; state = i }
        ∷ record { stream = "risk.updates"; group = "cg:gateway"; state = j }
        ∷ [];
  }

  abbrev pub at_start : Group (Message F)
  at_start = record { last = 0; pel = [] }

  abbrev pub at_end : ℕ → Group (Message F)
  at_end n = record { last = n; pel = [] }

  pub pump_lem :
      (ls : List (ℕ × Message F)) (g h : Group (Message F)) (m0 m1 m2 m3 m4 r1 r2 r3 : Message F)
      → let gate : Gateway = record { seen = []; pushed = [] } in
        let ts : List (ℕ × Message F) = (1, m0) ∷ (2, m1) ∷ (3, m2) ∷ (4, m3) ∷ (5, m4) ∷ [] in
        let rs : List (ℕ × Message F) = (1, r1) ∷ (2, r2) ∷ (3, r3) ∷ [] in
        pump (record { bus = bus_of ts ls rs g h at_start at_start; gateway = gate }) ≡ (
          ok tt,
          record {
            bus = bus_of ts ls rs g h (at_end 5) (at_end 3);
            gateway =
                push r3 (push r2 (push r1 (push m4 (push m3 (push m2 (push m1 (push m0 gate)))))));
          },
        )
  unfolding push_one push_each pump_stream pump xreadgroup find_group put_group pel_put read_loop
      pel_drop xack select lookup
  pump_lem ls g h m0 m1 m2 m3 m4 r1 r2 r3 = refl

module _ {F : Type 0} ⦃fl : Float F⦄ where
  abbrev pub fresh : RiskEngine F
  fresh = record {
    seen = [];
    pos = [];
    cost = [];
    returns = [];
    last_pv = none;
    applied = 0;
    skipped = 0;
  }

  abbrev pub update_message : Draw → F → F → Message F
  update_message d c q = record {
    event_id = d.event_id;
    event_type = "LedgerUpdated";
    correlation_id = correlation;
    produced_at = d.produced_at;
    producer = "ledger-core";
    content = ledger "acct_123" "AAPL" c q;
  }

  abbrev pub update_entries : Draw → Draw → Draw → F → F → F → F → List (ℕ × Message F)
  update_entries d1 d2 d3 c q1 q2 q3 =
      (1, update_message d1 c q1) ∷ (2, update_message d2 c q2) ∷ (3, update_message d3 c q3) ∷ []

  abbrev pub answer : Stamp → Body F → Message F
  answer s x = envelope s "RiskComputed" "risk-engine" x correlation

  abbrev pub tick_message : Stamp → F → Message F
  tick_message s price =
      envelope s "TickReceived" "market-data" (tick "AAPL" price s.content_time) correlation

  abbrev pub tick_entries : (ℕ → Stamp) → List (ℕ × Message F)
  tick_entries t =
      (1, tick_message (t 0) (fl.decimal 1000 1))
      ∷ (2, tick_message (t 1) (fl.decimal 1010 1))
      ∷ (3, tick_message (t 2) (fl.decimal 1025 1))
      ∷ (4, tick_message (t 3) (fl.decimal 1015 1))
      ∷ (5, tick_message (t 4) (fl.decimal 1030 1))
      ∷ []

  -- the bus once the three clients have created their groups
  abbrev pub joined : StreamBus (Message F)
  joined = (new_gateway (new_engine {F = F} empty_bus).bus).bus

  pub market_lem :
      (t : ℕ → Stamp)
      → refresh (record (new_engine empty_bus) {
        bus = (produce_ticks (priced t) correlation "AAPL" joined).1;
      })
        ≡ (
          ok tt,
          record {
            bus = bus_of (tick_entries t) [] [] (at_end 5) at_start at_start at_start;
            latest = ("AAPL", last_price F) ∷ [];
            engine = fresh;
          },
        )
  unfolding refresh cache_tick cache_each new_engine new_gateway produce_ticks add_ticks xadd
      xgroup_create entries lookup insert envelope xreadgroup xack find_group put_group pel_put
      read_loop pel_drop select
  market_lem t = refl

  pub relay_lem :
      (draws : Draws) (ts : List (ℕ × Message F)) (g h i j : Group (Message F))
      → let p =
          relay_messages (unsent_outbox (books_3 draws)) (books_3 draws, bus_of ts [] [] g h i j) in
        let q = fl.decimal 10 0 in
        (p.1
          ≡ bus_of ts
              (update_entries
                (draws.posts "t1")
                (draws.posts "t2")
                (draws.posts "t3")
                (paid F)
                q
                (fl.add q q)
                (fl.add (fl.add q q) q))
              []
              g
              h
              i
              j)
        × (p.0.journal_lines ≡ (books_3 draws).journal_lines)
        × (je_count p.0 ≡ 3)
  unfolding relay_messages unsent_outbox select mark_sent mark_row xadd entries lookup insert
      je_count write_outbox find_qty add_qty qty_delta_of event_of cash_delta_of
  relay_lem draws ts g h i j = (refl, refl, refl)
