-- ===== src/Outbox/ScenarioTests.antt =====
-- The scenarios over whole numbers.
use event_driven_trading_led.Base.{ℕ, nat_eq, if◌then◌else◌}
use event_driven_trading_led.Base.Float.{whole}
use event_driven_trading_led.Outbox.Ledger.{Draw}

-- every posting but the last draws the same
abbrev draw : ℕ → Draw
draw n = record {
  je = if nat_eq n 7 then "je2" else "je1";
  audit_id = if nat_eq n 7 then "a2" else "a1";
  event_id = if nat_eq n 7 then "e2" else "e1";
  correlation_id = "fresh";
  entered_at = "t0";
  recorded_at = "t1";
  produced_at = "t2";
  posted_at = "t3";
  created_at = "t4";
}
