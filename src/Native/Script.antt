-- ===== src/Native/Script.antt =====
-- `main` of poc/native-kill-restart/run_proof.py: the runs of the two processes with both kills, and
-- what is asserted on the way and at the end. Starting and stopping Redis, the file and printing are
-- left out. What Redis answers to the consumer processes, and the two counts of XPENDING, are
-- arguments; a process that does not end with the answers given counts as one that fails.
pub mod Dicts
pub mod Passes
use event_driven_trading_led.Base.{
  ℕ, ◌+◌, String, Bool, true, false, not, ◌&&◌, List, [], ◌∷◌, map, any, length, leb, nat_eq, ◌==◌,
  Option, none, some, if◌then◌else◌,
}
use event_driven_trading_led.Base.Exec.{
  Error, assertion_error, response_error, value_error, type_error, attribute_error, key_error,
  index_error, integrity_error, interface_error, crash_injected, Result, ok, err, bind_result,
  assert_that,
}
use event_driven_trading_led.Base.Text.{same_set}
use event_driven_trading_led.Base.Dict.{Dict, lookup}
use event_driven_trading_led.Base.Float.{Float}
use event_driven_trading_led.Risk.Json.{Value, null, bool, num, str, arr, obj}
use event_driven_trading_led.Risk.Store.{distinct}
use event_driven_trading_led.Native.Store.{
  KillStore, new_store, seed_outbox, init_projection, unsent_count, processed_ids, projection,
}
use event_driven_trading_led.Native.Relay.{Pipe, Exit, exit_ok, exit_killed, relay_run}
use event_driven_trading_led.Native.Process.{
  Round, ProcessEnd, exit_done, exit_died, still_running, ConsumerRun, consume,
}
use event_driven_trading_led.Native.Seed.{
  Trade, Codec, seed_account, seed_cash, generate_from, baseline,
}

-- exit codes 137 and 0 of a relay run, and of a consumer run
abbrev pub was_killed : Exit → Bool
was_killed exit_killed = true
was_killed exit_ok = false

abbrev pub has_died : Result ProcessEnd → Bool
has_died (ok exit_died) = true
has_died (ok exit_done) = false
has_died (ok still_running) = false
has_died (err e) = false

abbrev pub has_ended : Result ProcessEnd → Bool
has_ended (ok exit_done) = true
has_ended (ok exit_died) = false
has_ended (ok still_running) = false
has_ended (err e) = false

-- the `except` clauses of `main`: a failed assertion, a RedisError; other errors are raised
pub exit_of_error : Error → Result ℕ
exit_of_error assertion_error = ok 1
exit_of_error response_error = ok 2
exit_of_error value_error = err value_error
exit_of_error type_error = err type_error
exit_of_error attribute_error = err attribute_error
exit_of_error key_error = err key_error
exit_of_error index_error = err index_error
exit_of_error integrity_error = err integrity_error
exit_of_error interface_error = err interface_error
exit_of_error crash_injected = err crash_injected

pub exit_code : Result (Unit {0}) → Result ℕ
exit_code (ok _) = ok 0
exit_code (err e) = exit_of_error e

module _ {F : Type 0} ⦃fl : Float F⦄ where
  -- `q == v`
  abbrev pub equals_value : F → Value F → Bool
  equals_value q (num y) = fl.eq q y
  equals_value q (bool true) = fl.eq q (fl.decimal 1 0)
  equals_value q (bool false) = fl.eq q (fl.decimal 0 0)
  equals_value q null = false
  equals_value q (str s) = false
  equals_value q (arr xs) = false
  equals_value q (obj fs) = false

  -- whether each item of a dict is one of another
  abbrev pub holds_items : Dict F → Dict (Value F) → Bool
  holds_items [] base = true
  holds_items ((k, q) ∷ d) base =
      elim (lookup k base) [ none ↦ false | some v ↦ equals_value q v ] && holds_items d base

  -- `proj_positions == base_positions`
  abbrev pub same_positions : Dict F → Dict (Value F) → Bool
  same_positions d base = nat_eq (length d) (length base) && holds_items d base

  -- a consumer process that starts on a store
  abbrev pub started : KillStore F → ConsumerRun F
  started db = record { db = db; acked = []; applied_new = 0; reclaimed = 0; idle_polls = 0 }

  module _ (codec : Codec F) (trades : List (Trade F)) where
    abbrev pub events : List (String × (String × String))
    events = generate_from codec trades

    abbrev pub event_ids : List String
    event_ids = distinct [] (map (λ e. e.0) events)

    -- the outbox and the projection, seeded
    pub seeded : Result (KillStore F)
    seeded =
        let outbox = seed_outbox {F = F} events new_store in
        bind_result outbox.0 λ _.
          let projected = init_projection seed_account seed_cash outbox.1 in
          bind_result projected.0 λ _. ok projected.1

    -- the first kill point
    pub relay_steps : KillStore F → Result (Pipe F)
    relay_steps db =
        let (first, p) = relay_run 3 (record { db = db; stream = [] }) in
        bind_result (assert_that (was_killed first)) λ _.
          bind_result (assert_that (nat_eq (length p.stream) 3)) λ _.
            bind_result (assert_that (nat_eq (unsent_count p.db + 2) (length events))) λ _.
              let (second, p') = relay_run 0 p in
              bind_result (assert_that (not (was_killed second))) λ _.
                bind_result (assert_that (nat_eq (length p'.stream) (length events + 1)))
                  λ _. bind_result (assert_that (nat_eq (unsent_count p'.db) 0)) λ _. ok p'

    -- the second kill point
    pub consumer_steps : List Round → ℕ → List Round → KillStore F → Result (KillStore F)
    consumer_steps rounds pending rounds' db =
        let (first, killed) = consume codec.loads 2 3 rounds (started db) in
        bind_result (assert_that (has_died first)) λ _.
          bind_result (assert_that (leb 1 pending)) λ _.
            let (second, run) = consume codec.loads 0 3 rounds' (started killed.db) in
            bind_result (assert_that (has_ended second)) λ _. ok run.db

    -- what holds at the end
    pub final_steps : F × Dict (Value F) → ℕ → KillStore F → Result (Unit {0})
    final_steps (base_cash, base_positions) pending db =
        let processed = processed_ids db in
        let (proj_cash, proj_positions) = projection seed_account db in
        bind_result (assert_that (same_set processed event_ids)) λ _.
          bind_result (assert_that (nat_eq (length processed) (length event_ids))) λ _.
            bind_result (assert_that (nat_eq pending 0)) λ _.
              bind_result
                (assert_that (fl.lt (fl.abs (fl.sub proj_cash base_cash)) (fl.decimal 1 9)))
                λ _. assert_that (same_positions proj_positions base_positions)

    pub proof_steps : List Round → ℕ → List Round → ℕ → Result (Unit {0})
    proof_steps rounds pending rounds' pending' = bind_result seeded λ db.
        bind_result (baseline codec events) λ base. bind_result (relay_steps db) λ p.
          bind_result (consumer_steps rounds pending rounds' p.db)
            λ db'. final_steps base pending' db'

    pub proof_main : List Round → ℕ → List Round → ℕ → Result ℕ
    proof_main rounds pending rounds' pending' =
        exit_code (proof_steps rounds pending rounds' pending')
