-- ===== src/Pipeline/Engine.antt =====
-- poc/end-to-end/risk_engine.py: the price cache and the risk engine. What an envelope draws is a
-- function of the event that it answers.
pub mod Replay
use event_driven_trading_led.Base.{
  ℕ, ◌+◌, String, Bool, true, false, not, Option, none, some, List, [], ◌∷◌, ◌++◌, ◌||◌,
  if◌then◌else◌,
}
use event_driven_trading_led.Base.Exec.{Exec, ok, err, key_error, pure, ◌>>=◌, ◌>>◌}
use event_driven_trading_led.Base.Dict.{Dict, lookup, insert}
use event_driven_trading_led.Base.Float.{Float, zero_of}
use event_driven_trading_led.Outbox.Bus.{StreamBus, xgroup_create, xreadgroup, xack, xadd}
use event_driven_trading_led.Outbox.Consumer.{contains}
use event_driven_trading_led.Pipeline.Market.{Body, tick, ledger, risk, Message, Stamp, envelope}

pub record RiskEngine (F : Type 0) : Type 0 where
  pub seen : List String
  pub pos : Dict F
  pub cost : Dict F
  pub returns : List F
  pub last_pv : Option F
  pub applied : ℕ
  pub skipped : ℕ

pub record World (F : Type 0) : Type 0 where
  pub bus : StreamBus (Message F)
  -- `PriceCache.latest`
  pub latest : Dict F
  pub engine : RiskEngine F

-- what the engine takes from a LedgerUpdated message
pub record Update (F : Type 0) : Type 0 where
  pub account_id : String
  pub symbol : String
  pub cash_delta : F
  pub position_after : F

module _ {F : Type 0} where
  -- `PriceCache(bus)` and `RiskEngine(bus, cache)`
  unfoldable pub new_engine : StreamBus (Message F) → World F
  new_engine b = record {
    bus =
        (xgroup_create "ledger.updates" "cg:risk-engine" 0
          ((xgroup_create "market.ticks" "cg:risk-engine" 0 b).1)).1;
    latest = [];
    engine = record {
      seen = [];
      pos = [];
      cost = [];
      returns = [];
      last_pv = none;
      applied = 0;
      skipped = 0;
    };
  }

  -- `d[...]` of the fields, which only such a message has
  unfoldable pub update_of : Body F → Option (Update F)
  update_of (tick symbol price time) = none
  update_of (ledger account_id symbol cash_delta position_after) = some (record {
    account_id = account_id;
    symbol = symbol;
    cash_delta = cash_delta;
    position_after = position_after;
  })
  update_of (risk account_id pv pnl volatility var sharpe time) = none

  -- the body of the loop of `refresh`
  unfoldable pub cache_tick : ℕ → Message F → Exec (World F) Unit
  cache_tick eid evt w = elim evt.content [
    | tick symbol price time ↦
        let (r, b) = xack "market.ticks" "cg:risk-engine" eid w.bus in
        (r, record w { bus = b; latest = insert symbol price w.latest })
    | ledger account_id symbol cash_delta position_after ↦ (err key_error, w)
    | risk account_id pv pnl volatility var sharpe time ↦ (err key_error, w)
  ]

  unfoldable pub cache_each : List (ℕ × Message F) → Exec (World F) Unit
  cache_each [] = pure tt
  cache_each ((eid, evt) ∷ es) = do cache_tick eid evt; cache_each es

  unfoldable pub refresh : Exec (World F) Unit
  refresh = do
    es ← (λ w.
        let (r, b) = xreadgroup "market.ticks" "cg:risk-engine" 10 w.bus in
        (r, record w { bus = b }))
    cache_each es

module _ {F : Type 0} ⦃fl : Float F⦄ where
  abbrev pub or_zero : Option F → F
  or_zero none = zero_of fl
  or_zero (some x) = x

  -- `self.last_pv`, where it is true
  abbrev pub last_of : Option F → Option F
  last_of none = none
  last_of (some x) = if fl.eq x (zero_of fl) then none else some x

  pub returns_after : F → RiskEngine F → List F
  returns_after pv c = elim (last_of c.last_pv) [
    | none ↦ c.returns
    | some last ↦ c.returns ++ fl.div (fl.sub pv last) last ∷ []
  ]

  -- `statistics.pstdev(returns)`, where there are two
  pub volatility_of : List F → F
  volatility_of [] = zero_of fl
  volatility_of (x ∷ []) = zero_of fl
  volatility_of (x ∷ y ∷ rest) = fl.pstdev (x ∷ y ∷ rest)

  -- `_compute`
  unfoldable pub compute : Stamp → String → String → World F → World F
  compute stamp account_id correlation_id w =
      let c = w.engine in
      let price = or_zero (lookup "AAPL" w.latest) in
      let qty = or_zero (lookup "AAPL" c.pos) in
      let pnl = fl.sub (fl.mul qty price) (or_zero (lookup "AAPL" c.cost)) in
      let pv = fl.add (fl.decimal 100000 1) pnl in
      let returns = returns_after pv c in
      let vol = volatility_of returns in
      let var = fl.mul (fl.mul (fl.decimal 165 2) vol) pv in
      let sharpe = if fl.lt (zero_of fl) vol then fl.div (fl.mean returns) vol else zero_of fl in
      let content =
        risk account_id (fl.round 2 pv) (fl.round 2 pnl) (fl.round 6 vol) (fl.round 2 (fl.abs var))
          (fl.round 4 sharpe) stamp.content_time in
      let evt = envelope stamp "RiskComputed" "risk-engine" content correlation_id in
      record w {
        bus = (xadd "risk.updates" evt w.bus).1;
        engine = record c { returns = returns; last_pv = some pv };
      }

  -- what `_apply` does to the engine for an event that is new, before its XACK
  unfoldable pub absorb : String → Update F → RiskEngine F → RiskEngine F
  absorb event_id d c = record c {
    pos = insert d.symbol d.position_after c.pos;
    cost = insert d.symbol (fl.add (or_zero (lookup d.symbol c.cost)) (fl.neg d.cash_delta)) c.cost;
    seen = c.seen ++ event_id ∷ [];
    applied = c.applied + 1;
  }

  -- the XACK of an entry of `ledger.updates`
  abbrev pub settle : ℕ → Exec (World F) Unit
  settle eid w =
      let (r, b) = xack "ledger.updates" "cg:risk-engine" eid w.bus in (r, record w { bus = b })

  -- `_apply`
  unfoldable pub react : (String → Stamp) → ℕ → Message F → Exec (World F) Unit
  react stamps eid evt w =
      if contains evt.event_id w.engine.seen
      then settle eid (record w { engine = record (w.engine) { skipped = w.engine.skipped + 1 } })
      else elim (update_of evt.content) [
        | none ↦ (err key_error, w)
        | some d ↦
            (do
              settle eid
              (λ v. (ok tt, compute (stamps evt.event_id) d.account_id evt.correlation_id v)))
              (record w { engine = absorb evt.event_id d w.engine })
      ]

  unfoldable pub react_each : (String → Stamp) → List (ℕ × Message F) → Exec (World F) Unit
  react_each stamps [] = pure tt
  react_each stamps ((eid, evt) ∷ es) = do react stamps eid evt; react_each stamps es

  -- `poll`, and `replay_pending`, which reads new entries as well
  unfoldable pub poll_ledger : (String → Stamp) → Exec (World F) Unit
  poll_ledger stamps = do
    es ← (λ w.
        let (r, b) = xreadgroup "ledger.updates" "cg:risk-engine" 10 w.bus in
        (r, record w { bus = b }))
    react_each stamps es
