-- ===== src/Risk/Worker/Service/Deduped.antt =====
-- The log of applied events, over a whole run of the worker.
use event_driven_trading_led.Base.{
  ℕ, zero, suc, ◌+◌, String, Option, none, some, List, [], ◌∷◌, append-nil, sym, not, ◌&&◌, leb,
  nat_eq,
}
use event_driven_trading_led.Base.Exec.{Exec, pure, ◌>>=◌, ◌>>◌}
use event_driven_trading_led.Base.Keeps.{Keeps, Keeps-bind, Keeps-if}
use event_driven_trading_led.Base.Float.{Float}
use event_driven_trading_led.Risk.Json.{Value, null}
use event_driven_trading_led.Risk.Config.{Config}
use event_driven_trading_led.Risk.Store.{AppliedEvent, RiskStore, accounts}
use event_driven_trading_led.Risk.Store.Dedupe.{IsDeduped}
use event_driven_trading_led.Risk.Consumer.{
  Stamp, RiskEnvelope, process_tick_envelope, process_ledger_envelope, recompute_account,
}
use event_driven_trading_led.Risk.Consumer.Growth.{
  Grown, process_tick-Grown, process_ledger-Grown, recompute-Grown,
}
use event_driven_trading_led.Risk.Worker.{
  Entry, RiskWorker, on_store, send, publish_some, parse_event, handle_tick, refresh_prices,
  handle_ledger, reclaim_ledger, drain_ledger, cycle, recompute_each, is_throttled, maybe_recompute,
}
use event_driven_trading_led.Risk.Worker.Service.{
  Turn, WorkerEnd, take_turn, after_turn, worker_loop, claimed_entries, decode_entries,
}

module _ {F : Type 0} ⦃fl : Float F⦄ (loads : String → Option (Value F))
    (log : List (AppliedEvent F)) (cfg : Config F) where
  abbrev WorkerGrown : RiskWorker F → Type 0
  WorkerGrown w = Grown log w.store

  abbrev Safe : {A : Type 0} → Exec (RiskWorker F) A → Type 0
  Safe m = Keeps WorkerGrown m

  publish_some-Safe : (env : Option (RiskEnvelope F)) → Safe (publish_some cfg env)
  unfolding publish_some send
  publish_some-Safe none = λ w h. h
  publish_some-Safe (some env) = λ w h. h

  on_store-Safe :
      {A : Type 0} → (m : Exec (RiskStore F) A) → Keeps (Grown log) m → Safe (on_store m)
  on_store-Safe m keeps w h = keeps w.store h

  read_tick-Safe :
      (env : Option (Value F))
      → Keeps {A = Unit} WorkerGrown (elim env [
        | none ↦ pure tt
        | some v ↦ (do on_store (process_tick_envelope cfg v); pure tt)
      ])
  read_tick-Safe none = λ w h. h
  read_tick-Safe (some v) =
      Keeps-bind WorkerGrown (on_store (process_tick_envelope cfg v)) _
        (on_store-Safe (process_tick_envelope cfg v) (process_tick-Grown log cfg v)) (λ _ w h. h)

  handle_tick-Safe : (e : Entry) → Safe (handle_tick loads cfg e)
  unfolding handle_tick send
  handle_tick-Safe e =
      Keeps-bind WorkerGrown _ _ (read_tick-Safe (parse_event loads e)) (λ _ w h. h)

  refresh_prices-Safe : (es : List Entry) → Safe (refresh_prices loads cfg es)
  unfolding refresh_prices
  refresh_prices-Safe [] = λ w h. h
  refresh_prices-Safe (e ∷ es) =
      Keeps-bind WorkerGrown (handle_tick loads cfg e) _ (handle_tick-Safe e) λ _.
        Keeps-bind WorkerGrown (refresh_prices loads cfg es) _ (refresh_prices-Safe es) (λ _ w h. h)

  read_ledger-Safe :
      (stamp : Stamp) (env : Option (Value F))
      → Keeps {A = ℕ} WorkerGrown (elim env [
        | none ↦ pure 0
        | some v ↦ (do
          risk_env ← on_store (process_ledger_envelope cfg stamp v)
          publish_some cfg risk_env)
      ])
  read_ledger-Safe stamp none = λ w h. h
  read_ledger-Safe stamp (some v) =
      Keeps-bind WorkerGrown (on_store (process_ledger_envelope cfg stamp v)) _
        (on_store-Safe (process_ledger_envelope cfg stamp v) (process_ledger-Grown log cfg stamp v))
        publish_some-Safe

  handle_ledger-Safe :
      (stamps : String → Stamp) (e : Entry) → Safe (handle_ledger loads cfg stamps e)
  unfolding handle_ledger send
  handle_ledger-Safe stamps e =
      Keeps-bind WorkerGrown _ _ (read_ledger-Safe (stamps e.entry_id) (parse_event loads e))
        (λ _ w h. h)

  reclaim_ledger-Safe :
      (stamps : String → Stamp) (es : List Entry) → Safe (reclaim_ledger loads cfg stamps es)
  unfolding reclaim_ledger
  reclaim_ledger-Safe stamps [] = λ w h. h
  reclaim_ledger-Safe stamps (e ∷ es) =
      Keeps-bind WorkerGrown (handle_ledger loads cfg stamps e) _ (handle_ledger-Safe stamps e) λ _.
        Keeps-bind WorkerGrown (reclaim_ledger loads cfg stamps es) _
          (reclaim_ledger-Safe stamps es) (λ _ w h. h)

  drain_ledger-Safe :
      (stamps : String → Stamp) (es : List Entry) → Safe (drain_ledger loads cfg stamps es)
  unfolding drain_ledger
  drain_ledger-Safe stamps [] = λ w h. h
  drain_ledger-Safe stamps (e ∷ es) =
      Keeps-bind WorkerGrown (handle_ledger loads cfg stamps e) _ (handle_ledger-Safe stamps e) λ _.
        Keeps-bind WorkerGrown (drain_ledger loads cfg stamps es) _ (drain_ledger-Safe stamps es)
          (λ _ w h. h)

  recompute_each-Safe :
      (stamps : String → Stamp) (names : List String) → Safe (recompute_each cfg stamps names)
  unfolding recompute_each
  recompute_each-Safe stamps [] = λ w h. h
  recompute_each-Safe stamps (a ∷ names) =
      let account = recompute_account cfg (stamps a) a null in
      Keeps-bind WorkerGrown (on_store account) _
        (on_store-Safe account (recompute-Grown log cfg (stamps a) a null))
        λ env. Keeps-bind WorkerGrown (publish_some cfg env) _ (publish_some-Safe env) λ n.
          Keeps-bind WorkerGrown (recompute_each cfg stamps names) _
            (recompute_each-Safe stamps names) (λ _ w h. h)

  maybe_recompute-Safe : (stamps : String → Stamp) (now : F) → Safe (maybe_recompute cfg stamps now)
  unfolding maybe_recompute
  maybe_recompute-Safe stamps now w =
      Keeps-if WorkerGrown (is_throttled cfg now w.last_recompute) _ _ (λ v h. h)
        (λ v h.
          recompute_each-Safe stamps (accounts v.store) (record v { last_recompute = some now }) h)
        w

  cycle-Safe :
      (stamps : String → Stamp) (claimed ticks new : List Entry)
      → Safe (cycle loads cfg stamps claimed ticks new)
  unfolding cycle
  cycle-Safe stamps claimed ticks new =
      Keeps-bind WorkerGrown (reclaim_ledger loads cfg stamps claimed) _
        (reclaim_ledger-Safe stamps claimed)
        λ _.
          Keeps-bind WorkerGrown (refresh_prices loads cfg ticks) _ (refresh_prices-Safe ticks)
            λ _. drain_ledger-Safe stamps new

  take_turn-Safe : (t : Turn F) → Safe (take_turn loads cfg t)
  unfolding take_turn
  take_turn-Safe t =
      let claimed = claimed_entries t.claimed in
      let ticks = decode_entries t.ticks in
      let new = decode_entries t.ledger in
      Keeps-bind WorkerGrown (cycle loads cfg t.stamps claimed ticks new) _
        (cycle-Safe t.stamps claimed ticks new)
        λ n.
          Keeps-bind WorkerGrown (maybe_recompute cfg t.recompute_stamps t.now) _
            (maybe_recompute-Safe t.recompute_stamps t.now) (λ _ w h. h)

  after_turn-Safe :
      (idle_exit n empty : ℕ) (rest : ℕ → Exec (RiskWorker F) WorkerEnd)
      → ((k : ℕ) → Safe (rest k))
      → Safe (after_turn loads cfg idle_exit n empty rest)
  unfolding after_turn
  after_turn-Safe idle_exit zero empty rest h =
      Keeps-if WorkerGrown (not (nat_eq idle_exit 0) && leb idle_exit (empty + 1)) _ _ (λ w g. g)
        (h (empty + 1))
  after_turn-Safe idle_exit (suc n) empty rest h = h 0

  loop-Safe :
      (idle_exit : ℕ) (ts : List (Option (Turn F))) (empty : ℕ)
      → Safe (worker_loop loads cfg idle_exit ts empty)
  unfolding worker_loop
  loop-Safe idle_exit [] empty = λ w h. h
  loop-Safe idle_exit (none ∷ ts) empty = λ w h. h
  loop-Safe idle_exit (some t ∷ ts) empty =
      Keeps-bind WorkerGrown (take_turn loads cfg t) _ (take_turn-Safe t) λ n.
        after_turn-Safe idle_exit n empty (worker_loop loads cfg idle_exit ts)
          (loop-Safe idle_exit ts)

module _ {F : Type 0} ⦃fl : Float F⦄ (loads : String → Option (Value F)) (cfg : Config F) where
  -- However long the worker runs, and also when an exception ends the run, its log of applied events
  -- only grows at its end, and an event id that is in it once stays there once.
  pub worker_loop-Grown :
      (idle_exit : ℕ) (ts : List (Option (Turn F))) (empty : ℕ) (w : RiskWorker F)
      → IsDeduped w.store.applied_events
      → Grown w.store.applied_events (worker_loop loads cfg idle_exit ts empty w).1.store
  worker_loop-Grown idle_exit ts empty w h =
      loop-Safe loads w.store.applied_events cfg idle_exit ts empty w
        (([], sym (append-nil w.store.applied_events)), h)
