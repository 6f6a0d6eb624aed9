-- ===== src/Native/ProcessTests.antt =====
-- The loop of the consumer process at concrete inputs.
use event_driven_trading_led.Base.{
  String, ◌≡◌, refl, Option, none, some, List, [], ◌∷◌, ◌++◌, ◌==◌, if◌then◌else◌, ◌+◌, arith,
}
use event_driven_trading_led.Base.Int.{ℤ, pos, negsuc}
use event_driven_trading_led.Base.Dict.{lookup, insert, update}
use event_driven_trading_led.Base.Exec.{ok}
use event_driven_trading_led.Base.Float.{whole}
use event_driven_trading_led.Risk.Json.{Value, str, num, obj, field, end}
use event_driven_trading_led.Native.Store.{
  KillStore, new_store, init_projection, already_processed, cash_refused, put_position, apply,
}
use event_driven_trading_led.Native.Consumer.{
  extract_root, extract, record_event, handle, handle_each,
}
use event_driven_trading_led.Native.Process.{StreamEntry, Round, exit_done, ConsumerRun, consume}
use event_driven_trading_led.Native.Process.Acks.{IsAcked, consume-IsAcked}
use event_driven_trading_led.Native.Process.Drains.{
  events_of, entries_of, count_new, count_claimed, consume_drains,
}

abbrev loads : String → Option (Value ℤ)
loads raw =
    if raw == "one"
    then some (
        obj (
          field "event_id" (str "evt-001") (
            field "data"
              (obj (
                field "account_id" (str "acct_123") (
                  field "symbol" (str "AAPL") (
                    field "cash_delta" (num (negsuc 999))
                      (field "position_after" (num (pos 10)) end)))))
              end)))
    else none

abbrev run : ConsumerRun ℤ
run = record {
  db = (init_projection "acct_123" (pos 10000) new_store).1;
  acked = [];
  applied_new = 0;
  reclaimed = 0;
  idle_polls = 0;
}

abbrev entry : String → String → StreamEntry
entry i raw = record { entry_id = i; event = some raw }

-- an entry that was left pending comes with a new one; then a round with another copy
abbrev busy : List Round
busy =
    record { claimed = entry "1-0" "one" ∷ []; new_entries = entry "2-0" "junk" ∷ []; pending = 0 }
    ∷ record { claimed = []; new_entries = entry "3-0" "one" ∷ []; pending = 0 }
    ∷ []

abbrev nothing : Round
nothing = record { claimed = []; new_entries = []; pending = 0 }

consume-IsAcked_example : IsAcked loads (consume loads 2 3 busy run).1
consume-IsAcked_example = consume-IsAcked loads 2 3 busy run tt

abbrev settled : KillStore ℤ
settled = (handle_each loads (events_of (entries_of busy)) run.db).1

consume_drains_example : consume loads 0 2 (busy ++ nothing ∷ nothing ∷ []) run ≡ (
  ok exit_done,
  record {
    db = settled;
    acked = run.acked ++ entries_of busy;
    applied_new = run.applied_new + count_new busy;
    reclaimed = run.reclaimed + count_claimed busy;
    idle_polls = 2;
  },
)
unfolding handle_each handle extract extract_root record_event apply already_processed cash_refused
    put_position init_projection lookup insert update
consume_drains_example =
    consume_drains loads 2 busy (nothing ∷ nothing ∷ []) run settled refl (omega arith)
      (refl, (refl, tt)) ((refl, refl, refl), ((refl, refl, refl), tt)) refl refl
