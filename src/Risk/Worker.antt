-- ===== src/Risk/Worker.antt =====
-- services/risk-engine/app/worker.py: the stream worker. What Redis answers to a read is an argument,
-- and what is sent to it is kept as a list of commands, newest last. `json.loads` is a parameter of
-- the section; none is a ValueError. Logging is left out.
pub mod Handling
pub mod Throttle
pub mod Reclaim
pub mod Service
use event_driven_trading_led.Base.{
  ℕ, ◌+◌, String, Bool, true, false, Option, none, some, List, [], ◌∷◌, ◌++◌, ◌==◌, if◌then◌else◌,
}
use event_driven_trading_led.Base.Exec.{
  Exec, Result, ok, err, pure, lift, gets, modify, ◌>>=◌, ◌>>◌,
}
use event_driven_trading_led.Base.Float.{Float}
use event_driven_trading_led.Risk.Json.{Value, null, is_null}
use event_driven_trading_led.Risk.Config.{Config}
use event_driven_trading_led.Risk.Store.{RiskStore, accounts}
use event_driven_trading_led.Risk.Consumer.{
  Stamp, RiskEnvelope, process_tick_envelope, process_ledger_envelope, recompute_account,
}

-- an entry of a stream: its id and its field `event`
pub record Entry : Type 0 where
  pub entry_id : String
  pub event : Option String

pub data Command (F : Type 0) : Type 0 where
  -- XADD of an envelope to a stream
  xadd : String → RiskEnvelope F → Command F
  -- XACK of an entry of a stream
  xack : String → String → Command F

pub record RiskWorker (F : Type 0) : Type 0 where
  pub store : RiskStore F
  pub last_recompute : Option F
  pub sent : List (Command F)

module _ {F : Type 0} where
  -- a method of the consumer, which works on the store
  abbrev pub on_store : {A : Type 0} → Exec (RiskStore F) A → Exec (RiskWorker F) A
  on_store m w = let (r, s) = m w.store in (r, record w { store = s })

  unfoldable pub send : Command F → Exec (RiskWorker F) Unit
  send c w = (ok tt, record w { sent = w.sent ++ c ∷ [] })

  -- `_publish`, if there is something to publish; the answer counts it
  unfoldable pub publish_some : Config F → Option (RiskEnvelope F) → Exec (RiskWorker F) ℕ
  publish_some cfg none = pure 0
  publish_some cfg (some env) = do send (xadd cfg.risk_stream env); pure 1

module _ {F : Type 0} ⦃fl : Float F⦄ (loads : String → Option (Value F)) where
  -- `_parse_event`; a JSON null is none too, which the callers test for
  unfoldable pub parse_event : Entry → Option (Value F)
  parse_event e = elim e.event [
    | none ↦ none
    | some raw ↦
        if raw == ""
        then none
        else elim (loads raw) [ none ↦ none | some v ↦ if is_null v then none else some v ]
  ]

  pub handle_tick : Config F → Entry → Exec (RiskWorker F) Unit
  handle_tick cfg e = do
    elim (parse_event e) [
      | none ↦ pure tt
      | some env ↦ (do on_store (process_tick_envelope cfg env); pure tt)
    ]
    send (xack cfg.ticks_stream e.entry_id)

  -- the body of the loop over the ticks that were read
  unfoldable pub refresh_prices : Config F → List Entry → Exec (RiskWorker F) ℕ
  refresh_prices cfg [] = pure 0
  refresh_prices cfg (e ∷ es) = do handle_tick cfg e; n ← refresh_prices cfg es; pure (n + 1)

  -- one entry of `ledger.updates`, new or reclaimed; the answer counts what was published
  unfoldable pub handle_ledger : Config F → (String → Stamp) → Entry → Exec (RiskWorker F) ℕ
  handle_ledger cfg stamps e = do
    n ← elim (parse_event e) [
      | none ↦ pure 0
      | some env ↦ (do
        risk_env ← on_store (process_ledger_envelope cfg (stamps e.entry_id) env)
        publish_some cfg risk_env)
    ]
    send (xack cfg.ledger_stream e.entry_id)
    pure n

  -- the entries that XAUTOCLAIM returned; the answer counts them
  unfoldable pub reclaim_ledger : Config F → (String → Stamp) → List Entry → Exec (RiskWorker F) ℕ
  reclaim_ledger cfg stamps [] = pure 0
  reclaim_ledger cfg stamps (e ∷ es) = do
    handle_ledger cfg stamps e
    n ← reclaim_ledger cfg stamps es
    pure (n + 1)

  -- the entries that XREADGROUP returned; the answer counts what was published
  unfoldable pub drain_ledger : Config F → (String → Stamp) → List Entry → Exec (RiskWorker F) ℕ
  drain_ledger cfg stamps [] = pure 0
  drain_ledger cfg stamps (e ∷ es) = do
    n ← handle_ledger cfg stamps e
    m ← drain_ledger cfg stamps es
    pure (n + m)

  -- `cycle`, over the answers to its three reads
  unfoldable pub cycle :
      Config F → (String → Stamp) → List Entry → List Entry → List Entry → Exec (RiskWorker F) ℕ
  cycle cfg stamps claimed ticks new = do
    reclaim_ledger cfg stamps claimed
    refresh_prices cfg ticks
    drain_ledger cfg stamps new

module _ {F : Type 0} ⦃fl : Float F⦄ where
  -- the loop of `maybe_recompute` over the accounts
  unfoldable pub recompute_each : Config F → (String → Stamp) → List String → Exec (RiskWorker F) ℕ
  recompute_each cfg stamps [] = pure 0
  recompute_each cfg stamps (a ∷ names) = do
    risk_env ← on_store (recompute_account cfg (stamps a) a null)
    n ← publish_some cfg risk_env
    m ← recompute_each cfg stamps names
    pure (n + m)

  -- whether the last recompute is less than an interval ago
  unfoldable pub is_throttled : Config F → F → Option F → Bool
  is_throttled cfg current none = false
  is_throttled cfg current (some last) =
      fl.lt (fl.mul (fl.sub current last) (fl.decimal 1000 0)) cfg.recompute_interval_ms

  -- `current` is `now`, or the monotonic clock where that is None
  unfoldable pub maybe_recompute : Config F → (String → Stamp) → F → Exec (RiskWorker F) ℕ
  maybe_recompute cfg stamps current = do
    throttled ← gets (λ w. is_throttled cfg current w.last_recompute)
    if throttled then pure 0 else do
      modify (λ w. record w { last_recompute = some current })
      names ← gets (λ w. accounts w.store)
      recompute_each cfg stamps names
