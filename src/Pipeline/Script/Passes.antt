-- ===== src/Pipeline/Script/Passes.antt =====
-- The pipeline script passes.
use event_driven_trading_led.Base.{ℕ, map, Option, String, List, [], ◌∷◌, ◌++◌}
use event_driven_trading_led.Base.Dict.{Dict}
use event_driven_trading_led.Base.Float.{Float}
use event_driven_trading_led.Outbox.Bus.{Group, StreamBus}
use event_driven_trading_led.Outbox.Ledger.{Ledger, unsent_outbox}
use event_driven_trading_led.Pipeline.Market.{Body, Message}
use event_driven_trading_led.Pipeline.Gateway.Once.{push_all}
use event_driven_trading_led.Pipeline.Engine.{RiskEngine}
use event_driven_trading_led.Pipeline.Script.{Draws, Ran, relay_messages}
use event_driven_trading_led.Pipeline.Script.Postings.{last_price, paid, ledger_ids, books_3}
use event_driven_trading_led.Pipeline.Script.Stages.{
  bus_of, at_start, at_end, update_entries, answer, tick_entries,
}

-- what the engine's answers say, and what it keeps of its values
record Answers (F : Type 0) : Type 0 where
  x1 : Body F
  x2 : Body F
  x3 : Body F
  cost : Dict F
  returns : List F
  last : Option F

module _ {F : Type 0} ⦃fl : Float F⦄ (draws : Draws) where
  abbrev ten : F
  ten = fl.decimal 10 0

  abbrev thirty : F
  thirty = fl.add (fl.add ten ten) ten

  abbrev updates : List (ℕ × Message F)
  updates =
      update_entries (draws.posts "t1") (draws.posts "t2") (draws.posts "t3") (paid F) ten
        (fl.add ten ten) thirty

  abbrev sent_books : Ledger F
  sent_books =
      (relay_messages (unsent_outbox (books_3 draws)) (
        books_3 draws,
        bus_of (tick_entries draws.ticks) [] [] (at_end 5) at_start at_start at_start,
      )).0

  abbrev answer_of : String → Body F → Message F
  answer_of rid x = answer (draws.stamps (draws.posts rid).event_id) x

  abbrev gateway_messages : Answers F → List (Message F)
  gateway_messages a =
      map (λ e. e.1) (tick_entries draws.ticks)
      ++ (answer_of "t1" a.x1 ∷ answer_of "t2" a.x2 ∷ answer_of "t3" a.x3 ∷ [])

  abbrev ran_engine : Answers F → RiskEngine F
  ran_engine a = record {
    seen = ledger_ids draws;
    pos = ("AAPL", thirty) ∷ [];
    cost = a.cost;
    returns = a.returns;
    last_pv = a.last;
    applied = 3;
    skipped = 0;
  }

  abbrev ran_bus : Answers F → Group (Message F) → Group (Message F) → StreamBus (Message F)
  ran_bus a i j =
      bus_of (tick_entries draws.ticks) updates
        ((1, answer_of "t1" a.x1) ∷ (2, answer_of "t2" a.x2) ∷ (3, answer_of "t3" a.x3) ∷ [])
        (at_end 5) (at_end 3) i j

  -- the parts after the run
  abbrev ran : Answers F → Ran F
  ran a = record {
    ticks = 5;
    books = sent_books;
    world = record {
      bus = ran_bus a (at_end 5) (at_end 3);
      latest = ("AAPL", last_price F) ∷ [];
      engine = ran_engine a;
    };
    gateway = push_all (gateway_messages a) (record { seen = []; pushed = [] });
  }
