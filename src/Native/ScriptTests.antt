-- ===== src/Native/ScriptTests.antt =====
-- The script of the run with both kills over three trades, and the client over its replies.
use event_driven_trading_led.Base.{
  ℕ, String, ◌≡◌, refl, inl, none, some, List, [], ◌∷◌, ◌++◌, ◌==◌, map, select, arith, nat_eq,
  if◌then◌else◌,
}
use event_driven_trading_led.Base.Int.{ℤ, pos}
use event_driven_trading_led.Base.Dict.{lookup, insert}
use event_driven_trading_led.Base.Exec.{Result, ok}
use event_driven_trading_led.Base.Float.{whole, whole_eq_self}
use event_driven_trading_led.Risk.Json.{Value, str, obj, field}
use event_driven_trading_led.Native.Store.{
  new_store, seed_rows, seed_outbox, init_projection, unsent_rows, mark_sent,
}
use event_driven_trading_led.Native.Relay.{relay_rows, relay_run}
use event_driven_trading_led.Native.Client.{
  raw_text, redis_error, ClientEntry, to_str, xrange, xreadgroup, xautoclaim, claimed_with,
  xgroup_create,
}
use event_driven_trading_led.Native.Client.Stored.{
  intact, deleted, nothing, stored_entry, returned, raw_claimed, reads-stored_entry,
}
use event_driven_trading_led.Native.Consumer.Delivery.{finished, again, next}
use event_driven_trading_led.Native.Process.{StreamEntry, Round, consume}
use event_driven_trading_led.Native.Process.Kills.{single}
use event_driven_trading_led.Native.Process.Main.{
  Sent, SentRound, plain_round, raw_round, consumer_main, consumer_main_lem,
}
use event_driven_trading_led.Native.Seed.{Trade, Codec, seed_envelope, postings}
use event_driven_trading_led.Native.Script.{started, proof_main}
use event_driven_trading_led.Native.Script.Passes.{proof_main_passes}

abbrev trades : List (Trade ℤ)
trades =
    record { symbol = "AAPL"; side = "BUY"; quantity = pos 10; price = pos 100 }
    ∷ record { symbol = "MSFT"; side = "BUY"; quantity = pos 5; price = pos 200 }
    ∷ record { symbol = "AAPL"; side = "SELL"; quantity = pos 3; price = pos 120 }
    ∷ []

abbrev event_name : ℕ → String
event_name i = if nat_eq i 1 then "evt-001" else if nat_eq i 2 then "evt-002" else "evt-003"

-- a document that no function reads
abbrev unread : Codec ℤ
unread = record { loads = λ _. none; dumps = λ _. ""; event_id = event_name }

abbrev event_id_of : Value ℤ → String
event_id_of (obj (field k (str s) fs)) = s
event_id_of v = "document"

-- a document is written as its event id, and read by it
abbrev codec : Codec ℤ
unfolding lookup postings insert
codec = record {
  loads =
      λ raw. lookup raw (map (λ p. (p.event_id, seed_envelope p)) (postings unread 1 [] trades));
  dumps = event_id_of;
  event_id = event_name;
}

abbrev entry : String → String → StreamEntry
entry i raw = record { entry_id = i; event = some raw }

-- the second process claims what the first did not acknowledge, and takes the rest, of which the
-- third row came twice
abbrev busy : List Round
busy =
    record {
      claimed = entry "2-0" "evt-002" ∷ [];
      new_entries = entry "3-0" "evt-003" ∷ [];
      pending = 0;
    }
    ∷ record { claimed = []; new_entries = entry "4-0" "evt-003" ∷ []; pending = 0 }
    ∷ []

abbrev quiet_round : Round
quiet_round = record { claimed = []; new_entries = []; pending = 0 }

abbrev quiet : List Round
quiet = quiet_round ∷ quiet_round ∷ quiet_round ∷ []

proof_main_passes_example :
    proof_main codec trades
      (single (entry "1-0" "evt-001") ∷ single (entry "2-0" "evt-002") ∷ [])
      1
      (busy ++ quiet)
      0
    ≡ ok 0
unfolding postings lookup insert relay_run relay_rows unsent_rows mark_sent seed_outbox seed_rows
    init_projection select
proof_main_passes_example =
    proof_main_passes codec trades (entry "1-0" "evt-001") (entry "2-0" "evt-002") busy quiet 1
      ((refl, refl, refl), ((refl, refl, refl), ((refl, refl, refl), tt)))
      ((refl, (refl, tt)), ((refl, tt), (tt, tt))) refl
      (refl, refl, refl, (refl, refl, refl, (refl, refl, refl, tt))) whole_eq_self refl
      (omega arith) (omega arith)
      (next (some "evt-001") (
        next (some "evt-002") (
          again (some "evt-002") (inl refl) (
            next (some "evt-003") (
              next (some "evt-003") (
                finished
                  (some "evt-003" ∷ some "evt-003" ∷ some "evt-002" ∷ some "evt-001" ∷ [])))))))
      (refl, (refl, tt)) ((refl, refl, refl), ((refl, refl, refl), ((refl, refl, refl), tt))) refl

-- bytes are numbers here, of which one is a text
abbrev decode : ℕ → Result String
decode b = ok "b"

abbrev added : List ClientEntry
added = ("1-0", ("event", some "evt-001") ∷ ("note", none) ∷ []) ∷ ("2-0", []) ∷ []

reads-stored_entry_example :
    (xrange decode (some (map (stored_entry decode raw_text) added)) ≡ ok (map returned added))
    × (xreadgroup decode
          (some (("ledger.updates", some (map (stored_entry decode raw_text) added)) ∷ []))
        ≡ ok (map returned added))
    × (xautoclaim decode (
          claimed_with (raw_text "0-0") (
            some (
              map
                (raw_claimed decode raw_text)
                (nothing ∷ intact ("1-0", []) ∷ deleted "2-0" ∷ []))))
        ≡ ok ("0-0", map returned (("1-0", []) ∷ [])))
unfolding to_str
reads-stored_entry_example =
    reads-stored_entry decode raw_text added (nothing ∷ intact ("1-0", []) ∷ deleted "2-0" ∷ [])
      "ledger.updates" "0-0" (λ s. refl) (((refl, tt), (tt, tt)), (tt, tt)) (tt, tt)

abbrev sent : String → String → Sent
sent i payload = (i, record { event_type = "LedgerUpdated"; schema_version = "1"; event = payload })

abbrev rounds : List SentRound
rounds =
    record {
      claimed = sent "1-0" "evt-001" ∷ [];
      new_entries = sent "2-0" "evt-002" ∷ [];
      pending = 0;
    }
    ∷ []

consumer_main_lem_example :
    consumer_main codec.loads decode
      (λ m. m == "BUSYGROUP")
      (redis_error "BUSYGROUP")
      0
      3
      (map (raw_round decode raw_text "ledger.updates" "0-0") rounds)
      (started new_store)
    ≡ consume codec.loads 0 3 (map (plain_round) rounds) (started new_store)
unfolding to_str xgroup_create
consumer_main_lem_example =
    consumer_main_lem decode raw_text "ledger.updates" "0-0" codec.loads (λ m. m == "BUSYGROUP")
      (redis_error "BUSYGROUP") 0 3 rounds (started new_store) (λ t. refl) refl
