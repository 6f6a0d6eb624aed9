-- ===== src/Outbox/Scenarios.antt =====
-- poc/outbox-idempotency/run_scenarios.py: the scenarios with their faults and assertions, and the exit
-- code. What a posting draws is an argument; what is only printed is left out.
pub mod Passes
use event_driven_trading_led.Base.{
  ℕ, ◌+◌, String, Bool, true, false, Option, none, some, List, [], ◌∷◌, ◌&&◌, nat_eq, length,
  if◌then◌else◌,
}
use event_driven_trading_led.Base.Exec.{
  Error, crash_injected, assertion_error, value_error, type_error, attribute_error, key_error,
  index_error, integrity_error, interface_error, response_error, Exec, Result, ok, err, bind_result,
  assert_that,
}
use event_driven_trading_led.Base.Float.{Float}
use event_driven_trading_led.Outbox.Bus.{StreamBus, empty_bus, stream_len, xpending, setid}
use event_driven_trading_led.Outbox.Ledger.{
  TradeRequest, Draw, CrashPoint, no_crash, before_commit, after_commit_before_publish, Outcome,
  Position, Ledger, LedgerUpdated, new_ledger, find_qty, post_trade, cash, position, je_count,
  assert_double_entry,
}
use event_driven_trading_led.Outbox.Relay.{Pipe, relay_outbox}
use event_driven_trading_led.Outbox.Consumer.{
  World, PollResult, new_consumer, on_bus, poll, recover,
}

abbrev pub stream_name : String
stream_name = "ledger.updates"

abbrev pub group_name : String
group_name = "cg:risk-engine"

-- the `except` clause around a posting
abbrev pub allow_crash : Result Outcome → Result (Unit {0})
allow_crash (ok _) = ok tt
allow_crash (err crash_injected) = ok tt
allow_crash (err assertion_error) = err assertion_error
allow_crash (err value_error) = err value_error
allow_crash (err type_error) = err type_error
allow_crash (err attribute_error) = err attribute_error
allow_crash (err key_error) = err key_error
allow_crash (err index_error) = err index_error
allow_crash (err integrity_error) = err integrity_error
allow_crash (err interface_error) = err interface_error
allow_crash (err response_error) = err response_error

module _ {F : Type 0} ⦃fl : Float F⦄ where
  -- `req`, with its default side
  abbrev pub req : String → F → F → TradeRequest F
  req rid q p = record {
    request_id = rid;
    account_id = "acct_123";
    symbol = "AAPL";
    side = "BUY";
    quantity = q;
    price = p;
    correlation_id = some "corr-1";
  }

  -- with its default quantity and price
  abbrev pub default_req : String → TradeRequest F
  default_req rid = req rid (fl.decimal 10 0) (fl.decimal 100 0)

  -- a ledger and its bus after a run of the relay, on a bus that was new
  abbrev pub relayed : Bool → Ledger F → Pipe F
  relayed inject_dup l =
      (relay_outbox stream_name inject_dup (record { ledger = l; bus = empty_bus })).1

  -- a consumer with the default stream and group
  abbrev pub consumer_on : Pipe F → World F
  consumer_on p = new_consumer stream_name group_name p.bus

  -- whether each item of a view stands in another
  abbrev pub view_holds : List (Position F) → List (Position F) → Bool
  view_holds [] before = true
  view_holds (p ∷ ps) before =
      elim (find_qty p.account_id p.symbol before) [ none ↦ false | some q ↦ fl.eq p.qty q ]
      && view_holds ps before

  -- `position_view == view_before`
  abbrev pub same_view : List (Position F) → List (Position F) → Bool
  same_view view before = nat_eq (length view) (length before) && view_holds view before

module _ (F : Type 0) ⦃fl : Float F⦄ where
  pub s1_crash_after_commit : Draw → Result (Unit {0})
  s1_crash_after_commit d =
      let (r, l) = post_trade {F = F} d (default_req "r1") after_commit_before_publish new_ledger in
      bind_result (allow_crash r)
        λ _. assert_that (nat_eq (stream_len stream_name (relayed false l).bus) 1)

  pub s2_crash_before_commit : Draw → Result (Unit {0})
  s2_crash_before_commit d =
      let (r, l) = post_trade {F = F} d (default_req "r2") before_commit new_ledger in
      bind_result (allow_crash r) λ _.
        let p = relayed false l in
        assert_that (nat_eq (je_count p.ledger) 0 && nat_eq (stream_len stream_name p.bus) 0)

  pub s3_duplicate_delivery : Draw → Result (Unit {0})
  s3_duplicate_delivery d =
      let (r, l) = post_trade {F = F} d (default_req "r3") no_crash new_ledger in
      bind_result r λ _.
        let (polled, w) = poll false (consumer_on (relayed true l)) in
        bind_result polled
          λ _. assert_that (nat_eq w.consumer.applied 1 && nat_eq w.consumer.skipped 1)

  pub s4_consumer_crash_before_ack : Draw → Result (Unit {0})
  s4_consumer_crash_before_ack d =
      let (r, l) = post_trade {F = F} d (default_req "r4") no_crash new_ledger in
      bind_result r λ _.
        let (polled, w) = poll true (consumer_on (relayed false l)) in
        bind_result polled λ _.
          let (recovered, w') = recover w in
          bind_result recovered λ _.
            bind_result (xpending stream_name group_name w'.bus).0
              λ pending. assert_that (nat_eq w'.consumer.applied 1 && nat_eq (length pending) 0)

  pub s5_retried_request : Draw → Draw → Result (Unit {0})
  s5_retried_request d d' =
      let (r, l) = post_trade {F = F} d (default_req "r5") no_crash new_ledger in
      bind_result r λ _. bind_result (cash "acct_123" l).0 λ cash1.
        let pos1 = position "acct_123" "AAPL" l in
        let (r', l') = post_trade d' (default_req "r5") no_crash l in
        bind_result r' λ _. bind_result (cash "acct_123" l').0 λ cash2. assert_that (
          nat_eq (je_count l') 1 && fl.eq cash2 cash1 && fl.eq (position "acct_123" "AAPL" l') pos1)

  -- the consumer polls, its group is set back to the beginning, and it polls again
  pub replay_steps : StreamBus (LedgerUpdated F) → Result (Unit {0})
  replay_steps b =
      let (polled, w) = poll false (new_consumer stream_name group_name b) in
      bind_result polled λ _.
        let view_before = w.consumer.position_view in
        let (again, w') = poll false (on_bus (setid stream_name group_name 0) w).1 in
        bind_result again λ _. assert_that (same_view w'.consumer.position_view view_before)

  pub s6_replay : Draw → Draw → Result (Unit {0})
  s6_replay d d' =
      let price = fl.decimal 100 0 in
      let (r, l) = post_trade {F = F} d (req "r6a" (fl.decimal 5 0) price) no_crash new_ledger in
      bind_result r λ _.
        let (r', l') = post_trade d' (req "r6b" (fl.decimal 6 0) price) no_crash l in
        bind_result r' λ _.
          let p = relayed false l' in
          bind_result (replay_steps p.bus)
            λ _. bind_result (assert_double_entry p.ledger).0 λ _. ok tt

  -- the scenarios in order; `draw` is what the postings draw, one after the other
  pub scenarios : (ℕ → Draw) → Result (Unit {0})
  scenarios draw = bind_result (s1_crash_after_commit (draw 0)) λ _.
      bind_result (s2_crash_before_commit (draw 1)) λ _.
        bind_result (s3_duplicate_delivery (draw 2)) λ _.
          bind_result (s4_consumer_crash_before_ack (draw 3))
            λ _. bind_result (s5_retried_request (draw 4) (draw 5)) λ _. s6_replay (draw 6) (draw 7)

-- the exit code of `main`; an exception that is no AssertionError is raised
unfoldable pub exit_on_assertion : Result (Unit {0}) → Result ℕ
exit_on_assertion (ok _) = ok 0
exit_on_assertion (err assertion_error) = ok 1
exit_on_assertion (err crash_injected) = err crash_injected
exit_on_assertion (err value_error) = err value_error
exit_on_assertion (err type_error) = err type_error
exit_on_assertion (err attribute_error) = err attribute_error
exit_on_assertion (err key_error) = err key_error
exit_on_assertion (err index_error) = err index_error
exit_on_assertion (err integrity_error) = err integrity_error
exit_on_assertion (err interface_error) = err interface_error
exit_on_assertion (err response_error) = err response_error

pub scenarios_main : (F : Type 0) → ⦃fl : Float F⦄ → (ℕ → Draw) → Result ℕ
scenarios_main F draw = exit_on_assertion (scenarios F draw)
