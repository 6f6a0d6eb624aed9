-- ===== src/Native/SeedTests.antt =====
-- The run with both kills over two trades, and at-least-once deliveries, at concrete inputs.
use event_driven_trading_led.Base.{
  ℕ, ◌+◌, String, ◌≡◌, refl, inl, inr, Option, none, some, List, [], ◌∷◌, map, length, nat_eq,
  if◌then◌else◌, select, arith,
}
use event_driven_trading_led.Base.Int.{ℤ, pos}
use event_driven_trading_led.Base.Dict.{lookup, insert, update}
use event_driven_trading_led.Base.Exec.{ok}
use event_driven_trading_led.Base.Float.{whole}
use event_driven_trading_led.Risk.Json.{Value, str, obj, field}
use event_driven_trading_led.Native.Store.{
  KillStore, seed_rows, seed_outbox, init_projection, unsent_rows, unsent_count, mark_sent,
  projection, already_processed, cash_refused, put_position, apply,
}
use event_driven_trading_led.Native.Relay.{Pipe, exit_ok, exit_killed, relay_rows, relay_run}
use event_driven_trading_led.Native.Consumer.{
  extract_root, extract, record_event, handle, handle_each,
}
use event_driven_trading_led.Native.Consumer.Delivery.{finished, again, next, handle_each-Delivery}
use event_driven_trading_led.Native.Seed.{
  Trade, Codec, seed_account, seed_envelope, postings, generate_from, baseline,
}
use event_driven_trading_led.Native.Seed.Baseline.{ids, as_values}
use event_driven_trading_led.Native.Seed.Run.{seeded_store}
use event_driven_trading_led.Native.Seed.Proof.{run_proof_lem}

abbrev trades : List (Trade ℤ)
trades =
    record { symbol = "AAPL"; side = "BUY"; quantity = pos 10; price = pos 100 }
    ∷ record { symbol = "AAPL"; side = "SELL"; quantity = pos 3; price = pos 120 }
    ∷ []

abbrev event_name : ℕ → String
event_name i = if nat_eq i 1 then "evt-001" else "evt-002"

-- a document that no function reads
abbrev unread : Codec ℤ
unread = record { loads = λ _. none; dumps = λ _. ""; event_id = event_name }

abbrev event_id_of : Value ℤ → String
event_id_of (obj (field k (str s) fs)) = s
event_id_of v = "document"

-- a document is written as its event id, and read by it
abbrev codec : Codec ℤ
unfolding lookup postings insert
codec = record {
  loads =
      λ raw. lookup raw (map (λ p. (p.event_id, seed_envelope p)) (postings unread 1 [] trades));
  dumps = event_id_of;
  event_id = event_name;
}

abbrev start : Pipe ℤ
start = record { db = seeded_store codec (generate_from codec trades); stream = [] }

abbrev relayed : Pipe ℤ
relayed = (relay_run 0 (relay_run 1 start).1).1

abbrev delivered : List (Option String)
delivered = some "evt-001" ∷ some "evt-001" ∷ some "evt-001" ∷ some "evt-002" ∷ some "evt-001" ∷ []

run_proof_lem_example :
    (((relay_run 1 start).0 ≡ exit_killed)
      × ((relay_run 0 (relay_run 1 start).1).0 ≡ exit_ok)
      × (unsent_count relayed.db ≡ 0)
      × (length relayed.stream ≡ length trades + 1))
    × (let (e, s') = handle_each codec.loads delivered relayed.db in
        (e ≡ ok tt)
        × (s'.processed_events ≡ ids (postings codec 1 [] trades))
        × (baseline codec (generate_from codec trades)
            ≡ ok ((projection seed_account s').0, as_values (projection seed_account s').1)))
unfolding postings lookup insert relay_run relay_rows unsent_rows mark_sent seed_outbox seed_rows
    init_projection select
run_proof_lem_example =
    run_proof_lem codec trades 0 delivered ((refl, refl, refl), ((refl, refl, refl), tt))
      ((refl, tt), (tt, tt)) refl (refl, refl, refl, (refl, refl, refl, tt)) (omega arith)
      (next (some "evt-001") (
        next (some "evt-001") (
          again (some "evt-001") (inl refl) (
            next (some "evt-002") (
              again (some "evt-001") (inr (inl refl))
                (finished (some "evt-002" ∷ some "evt-001" ∷ some "evt-001" ∷ [])))))))

abbrev posted : List (Option String)
posted = some "evt-001" ∷ some "evt-002" ∷ []

abbrev once : KillStore ℤ
once = (handle_each codec.loads posted start.db).1

handle_each-Delivery_example :
    handle_each codec.loads (some "evt-001" ∷ some "evt-001" ∷ some "evt-002" ∷ []) start.db
    ≡ (ok tt, once)
unfolding handle_each handle extract extract_root record_event apply already_processed cash_refused
    put_position init_projection lookup insert update postings seed_outbox seed_rows
handle_each-Delivery_example =
    handle_each-Delivery codec.loads posted (some "evt-001" ∷ some "evt-001" ∷ some "evt-002" ∷ [])
      start.db once
      (next (some "evt-001") (
        again (some "evt-001") (inl refl)
          (next (some "evt-002") (finished (some "evt-002" ∷ some "evt-001" ∷ [])))))
      refl
