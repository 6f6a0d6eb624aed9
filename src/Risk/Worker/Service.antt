-- ===== src/Risk/Worker/Service.antt =====
-- services/risk-engine/app/worker.py: what surrounds the reads of the worker, from its groups and the
-- replies of Redis to the loop of `main`. What Redis replies is an argument. A KeyboardInterrupt
-- comes between two turns, where the worker sleeps; logging and the sleep are left out.
pub mod Idles
pub mod Deduped
use event_driven_trading_led.Base.{
  ℕ, zero, suc, ◌+◌, String, Bool, true, false, not, Option, none, some, List, [], ◌∷◌, ◌++◌, ◌&&◌,
  leb, nat_eq, if◌then◌else◌,
}
use event_driven_trading_led.Base.Exec.{Exec, response_error, pure, raise, modify, ◌>>=◌, ◌>>◌}
use event_driven_trading_led.Base.Float.{Float}
use event_driven_trading_led.Risk.Json.{Value}
use event_driven_trading_led.Risk.Config.{Config}
use event_driven_trading_led.Risk.Consumer.{Stamp}
use event_driven_trading_led.Risk.Worker.{Entry, RiskWorker, cycle, maybe_recompute}

-- the reply of XREADGROUP: the streams with their entries, either of which may be None
abbrev pub ReadReply : Type 0
ReadReply = Option (List (String × Option (List Entry)))

abbrev pub or_no_entries : Option (List Entry) → List Entry
or_no_entries none = []
or_no_entries (some es) = es

unfoldable pub decode_streams : List (String × Option (List Entry)) → List Entry
decode_streams [] = []
decode_streams ((_, es) ∷ streams) = or_no_entries es ++ decode_streams streams

-- `_decode_entries`
unfoldable pub decode_entries : ReadReply → List Entry
decode_entries none = []
decode_entries (some streams) = decode_streams streams

-- the reply of XAUTOCLAIM, by its length: nothing, a cursor, a cursor and entries with what follows
pub data ClaimReply : Type 0 where
  no_reply : ClaimReply
  only_cursor : String → ClaimReply
  with_entries : String → Option (List Entry) → ClaimReply

-- `result[1] if result and len(result) > 1 else []`, and `entries or []`
unfoldable pub claimed_entries : ClaimReply → List Entry
claimed_entries no_reply = []
claimed_entries (only_cursor _) = []
claimed_entries (with_entries _ es) = or_no_entries es

-- one call of XGROUP CREATE: the message of the ResponseError that it raises, if it raises one
abbrev pub GroupReplies : Type 0
GroupReplies = String → Option String

abbrev pub Groups : Type 0
Groups = List (String × String)

-- the `except` clause; `is_busy` is `"BUSYGROUP" in message`
unfoldable pub allow_busy : (String → Bool) → Option String → Exec Groups Unit
allow_busy is_busy none = pure tt
allow_busy is_busy (some message) = if is_busy message then pure tt else raise response_error

-- the loop of `ensure_groups` over the streams; the state is the groups whose creation was asked for
unfoldable pub ensure_each :
    (String → Bool) → (String → Option String) → String → List String → Exec Groups Unit
ensure_each is_busy replies group [] = pure tt
ensure_each is_busy replies group (stream ∷ streams) = do
  modify (λ asked. asked ++ (stream, group) ∷ [])
  allow_busy is_busy (replies stream)
  ensure_each is_busy replies group streams

-- `replies` is the message of the ResponseError that XGROUP CREATE raises for a stream, if it does
unfoldable pub ensure_groups :
    {F : Type 0} → (String → Bool) → (String → Option String) → Config F → Exec Groups Unit
ensure_groups is_busy replies cfg =
    ensure_each is_busy replies cfg.group (cfg.ticks_stream ∷ cfg.ledger_stream ∷ [])

-- what one turn of the loop of `main` gets: the replies to its three reads, the time, and what the
-- envelopes of the cycle and of the recompute draw
pub record Turn (F : Type 0) : Type 0 where
  pub claimed : ClaimReply
  pub ticks : ReadReply
  pub ledger : ReadReply
  pub now : F
  pub stamps : String → Stamp
  pub recompute_stamps : String → Stamp

pub data WorkerEnd : Type 0 where
  exit_ok still_running : WorkerEnd

module _ {F : Type 0} ⦃fl : Float F⦄ (loads : String → Option (Value F)) (cfg : Config F) where
  -- a cycle and the recompute after it; the answer counts what was published
  unfoldable pub take_turn : Turn F → Exec (RiskWorker F) ℕ
  take_turn t = do
    n ←
        cycle loads cfg t.stamps (claimed_entries t.claimed) (decode_entries t.ticks)
          (decode_entries t.ledger)
    m ← maybe_recompute cfg t.recompute_stamps t.now
    pure (n + m)

  -- what follows a turn that published so much, after so many empty ones; `rest` is the next turn
  pub after_turn : ℕ → ℕ → ℕ → (ℕ → Exec (RiskWorker F) WorkerEnd) → Exec (RiskWorker F) WorkerEnd
  after_turn idle_exit zero empty rest =
      if not (nat_eq idle_exit 0) && leb idle_exit (empty + 1)
      then pure exit_ok
      else rest (empty + 1)
  after_turn idle_exit (suc n) empty rest = rest 0

  -- the loop of `main`, as far as the turns go; none is the KeyboardInterrupt
  pub worker_loop : ℕ → List (Option (Turn F)) → ℕ → Exec (RiskWorker F) WorkerEnd
  worker_loop idle_exit [] empty = pure still_running
  worker_loop idle_exit (none ∷ ts) empty = pure exit_ok
  worker_loop idle_exit (some t ∷ ts) empty = do
    n ← take_turn t
    after_turn idle_exit n empty (worker_loop idle_exit ts)

  -- `main` with `--once`
  pub run_once : Turn F → Exec (RiskWorker F) WorkerEnd
  run_once t = do take_turn t; pure exit_ok
