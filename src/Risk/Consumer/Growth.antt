-- ===== src/Risk/Consumer/Growth.antt =====
-- How the methods of the consumer change the log of applied events.
use event_driven_trading_led.Base.{
  String, ◌≡◌, ◌∙◌, inl, inr, Bool-cases, Option, none, some, List, [], ◌∷◌, ◌++◌, append_assoc, ap,
  false, not, ◌||◌,
}
use event_driven_trading_led.Base.Exec.{pure, gets, ◌>>=◌, ◌>>◌}
use event_driven_trading_led.Base.Keeps.{Keeps, Keeps-bind, Keeps-lift, Keeps-if}
use event_driven_trading_led.Base.Float.{Float}
use event_driven_trading_led.Base.Int.{ℤ}
use event_driven_trading_led.Risk.Json.{Value, str, get, truthy, is_null, bind_text}
use event_driven_trading_led.Risk.Config.{Config}
use event_driven_trading_led.Risk.Store.{
  AppliedEvent, RiskStore, upsert_price, append_price, append_pv, account_cash,
}
use event_driven_trading_led.Risk.Store.Dedupe.{IsDeduped}
use event_driven_trading_led.Risk.Consumer.{
  Stamp, RiskEnvelope, record_tick, process_tick_envelope, process_ledger_envelope,
  build_risk_envelope, recompute_account, as_float, bind_key, payload_of,
}
use event_driven_trading_led.Risk.Consumer.Snapshots.{build_risk_envelope_lem}
use event_driven_trading_led.Risk.Positions.{resolved_positions}
use event_driven_trading_led.Risk.Metrics.{Holding, market_value}
use event_driven_trading_led.Risk.Consumer.Settled.{process_log}
use event_driven_trading_led.Risk.Consumer.Redelivery.{process-IsDeduped}

module _ {F : Type 0} (log : List (AppliedEvent F)) where
  -- the log has grown at its end, and no event id stands twice in it
  abbrev pub Grown : RiskStore F → Type 0
  Grown s =
      ((rows : List (AppliedEvent F)) × (s.applied_events ≡ log ++ rows))
      × IsDeduped s.applied_events

module _ {F : Type 0} ⦃fl : Float F⦄ (log : List (AppliedEvent F)) (cfg : Config F) where
  upsert_price-Grown : (k : String) (p : F) → Keeps (Grown log) (upsert_price k p)
  unfolding upsert_price
  upsert_price-Grown k p s h = elim (Bool-cases (fl.is_nan p)) [
    | inl nan ↦ rw nan h
    | inr number ↦ rw number h
  ]

  append_price-Grown :
      (k : String) (p : F) (size : ℤ) (t : Option String)
      → Keeps (Grown log) (append_price k p size t)
  unfolding append_price
  append_price-Grown k p size t s h = elim (Bool-cases (fl.is_nan p)) [
    | inl nan ↦ rw nan h
    | inr number ↦ rw number h
  ]

  append_pv-Grown :
      (k : String) (p : F) (size : ℤ) (t : Option String) → Keeps (Grown log) (append_pv k p size t)
  unfolding append_pv
  append_pv-Grown k p size t s h = elim (Bool-cases (fl.is_nan p)) [
    | inl nan ↦ rw nan h
    | inr number ↦ rw number h
  ]

  record_tick-Grown :
      (content symbol : Value F) (p : F) → Keeps (Grown log) (record_tick cfg content symbol p)
  unfolding record_tick
  record_tick-Grown content symbol p = Keeps-lift (Grown log) (bind_key symbol) _ λ key.
      Keeps-bind (Grown log) (upsert_price key p) _ (upsert_price-Grown key p) λ _.
        Keeps-lift (Grown log) (get "tick_time" content) _ λ time.
          Keeps-lift (Grown log) (bind_text time) _ λ t.
            Keeps-bind (Grown log) (append_price key p cfg.window_size t) _
              (append_price-Grown key p cfg.window_size t) (λ _ s h. h)

  pub process_ledger-Grown :
      (stamp : Stamp) (env : Value F) → Keeps (Grown log) (process_ledger_envelope cfg stamp env)
  process_ledger-Grown stamp env s ((rows, at), h) =
      let kept = process-IsDeduped cfg stamp env s h in
      elim (process_log cfg stamp env s) [
        | inl same ↦ ((rows, same ∙ at), kept)
        | inr (row, grown) ↦ (
          (
            rows ++ row ∷ [],
            grown ∙ ap (λ es. es ++ row ∷ []) at ∙ append_assoc log rows (row ∷ []),
          ),
          kept,
        )
      ]

  read_tick-Grown :
      (content symbol : Value F) (p : Option F)
      → Keeps (Grown log) (elim p [ none ↦ pure false | some x ↦ record_tick cfg content symbol x ])
  read_tick-Grown content symbol none = λ s h. h
  read_tick-Grown content symbol (some x) = record_tick-Grown content symbol x

  pub process_tick-Grown : (env : Value F) → Keeps (Grown log) (process_tick_envelope cfg env)
  unfolding process_tick_envelope
  process_tick-Grown env = Keeps-lift (Grown log) (payload_of env) _ λ content.
      Keeps-lift (Grown log) (get "symbol" content) _ λ symbol.
        Keeps-lift (Grown log) (get "price" content) _ λ price.
          Keeps-if (Grown log) (not (truthy symbol) || is_null price) _ _ (λ s h. h)
            (read_tick-Grown content symbol (as_float price))

  build_risk_envelope-Grown :
      (stamp : Stamp) (key : String) (a c : Value F)
      → Keeps (Grown log) (build_risk_envelope cfg stamp key a c)
  build_risk_envelope-Grown stamp key a c s h = elim (build_risk_envelope_lem cfg stamp key a c s) [
    | inl failed ↦ rw failed h
    | inr done ↦ rw done h
  ]

  held-Grown :
      (stamp : Stamp) (a : String) (c : Value F) (ps : List (Holding F))
      → Keeps {A = Option (RiskEnvelope F)} (Grown log) (elim ps [
        | [] ↦ pure none
        | p ∷ ps' ↦ (do
          cash ← gets (account_cash a cfg.seed_cash)
          append_pv a (fl.add cash (market_value (p ∷ ps'))) cfg.window_size none
          env ← build_risk_envelope cfg stamp a (str a) c
          pure (some env))
      ])
  held-Grown stamp a c [] s h = h
  held-Grown stamp a c (p ∷ ps) s h =
      let pv = fl.add (account_cash a cfg.seed_cash s) (market_value (p ∷ ps)) in
      Keeps-bind (Grown log) (append_pv a pv cfg.window_size none) _
        (append_pv-Grown a pv cfg.window_size none)
        (λ _.
          Keeps-bind (Grown log) (build_risk_envelope cfg stamp a (str a) c) _
            (build_risk_envelope-Grown stamp a (str a) c) (λ _ t g. g))
        s h

  pub recompute-Grown :
      (stamp : Stamp) (a : String) (c : Value F)
      → Keeps (Grown log) (recompute_account cfg stamp a c)
  unfolding recompute_account
  recompute-Grown stamp a c s = held-Grown stamp a c (resolved_positions a s) s
