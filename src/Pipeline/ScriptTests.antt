-- ===== src/Pipeline/ScriptTests.antt =====
-- The pipeline script over whole numbers, and its resilience pass on a world with two events.
use event_driven_trading_led.Base.{
  ℕ, String, [], ◌∷◌, some, arith, ◌≡◌, refl, nat_eq, ◌==◌, if◌then◌else◌,
}
use event_driven_trading_led.Base.Int.{ℤ, pos, negsuc}
use event_driven_trading_led.Base.Exec.{ok}
use event_driven_trading_led.Base.Float.{whole, whole_eq_self}
use event_driven_trading_led.Outbox.Ledger.{Draw}
use event_driven_trading_led.Base.Dict.{lookup}
use event_driven_trading_led.Pipeline.Market.{Message, ledger}
use event_driven_trading_led.Pipeline.Engine.{World}
use event_driven_trading_led.Pipeline.Script.{Draws, resist}
use event_driven_trading_led.Pipeline.Script.Resilience.{resist_passes}

-- an id of a posting, by its table
abbrev id_of : String → String → String → String → String
id_of rid a b c = if rid == "t1" then a else if rid == "t2" then b else c

abbrev post : String → Draw
post rid = record {
  je = id_of rid "je1" "je2" "je3";
  audit_id = id_of rid "a1" "a2" "a3";
  event_id = id_of rid "l1" "l2" "l3";
  correlation_id = "fresh";
  entered_at = "t0";
  recorded_at = "t1";
  produced_at = "t2";
  posted_at = "t3";
  created_at = "t4";
}

abbrev tick_id : ℕ → String
tick_id n =
    if nat_eq n 0
    then "m0"
    else if nat_eq n 1
    then "m1"
    else if nat_eq n 2
    then "m2"
    else if nat_eq n 3
    then "m3"
    else "m4"

abbrev answer_id : String → String
answer_id k = if k == "l1" then "r1" else if k == "l2" then "r2" else "r3"

abbrev draws : Draws
draws = record {
  ticks = λ n. record { event_id = tick_id n; produced_at = "t5"; content_time = "t6" };
  posts = post;
  stamps = λ k. record { event_id = answer_id k; produced_at = "t7"; content_time = "t8" };
}

abbrev update_message : String → ℤ → Message ℤ
update_message event_id q = record {
  event_id = event_id;
  event_type = "LedgerUpdated";
  correlation_id = "corr-e2e-1";
  produced_at = "t2";
  producer = "ledger-core";
  content = ledger "acct_123" "AAPL" (negsuc 1029) q;
}

-- after two ledger messages were applied, and before the second was acknowledged
abbrev applied_world : World ℤ
applied_world = record {
  bus = record {
    streams =
        (
          "ledger.updates",
          (1, update_message "l1" (pos 10)) ∷ (2, update_message "l2" (pos 20)) ∷ [],
        )
        ∷ [];
    groups =
        record {
          stream = "ledger.updates";
          group = "cg:risk-engine";
          state = record { last = 2; pel = (2, update_message "l2" (pos 20)) ∷ [] };
        }
        ∷ [];
  };
  latest = ("AAPL", pos 103) ∷ [];
  engine = record {
    seen = "l1" ∷ "l2" ∷ [];
    pos = ("AAPL", pos 20) ∷ [];
    cost = ("AAPL", pos 2060) ∷ [];
    returns = [];
    last_pv = some (pos 100000);
    applied = 2;
    skipped = 0;
  };
}

resist_passes_example : resist draws.stamps applied_world ≡ ok tt
unfolding lookup
resist_passes_example =
    resist_passes draws.stamps
      ((1, update_message "l1" (pos 10)) ∷ (2, update_message "l2" (pos 20)) ∷ []) applied_world
      whole_eq_self refl (refl, (refl, tt)) (omega arith) (refl, (refl, tt)) ((tt, tt), (refl, tt))
