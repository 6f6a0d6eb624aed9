-- ===== src/Risk/Worker/Throttle.antt =====
-- `maybe_recompute`: the throttle on the time of the last recompute.
use event_driven_trading_led.Base.{
  ℕ, String, ◌≡◌, refl, true, false, some, List, [], ◌∷◌, ◌++◌, inl, inr, arith,
}
use event_driven_trading_led.Base.Exec.{ok, Answer-cases}
use event_driven_trading_led.Base.Float.{Float}
use event_driven_trading_led.Risk.Config.{Config}
use event_driven_trading_led.Risk.Json.{null}
use event_driven_trading_led.Risk.Consumer.{Stamp, recompute_account}
use event_driven_trading_led.Risk.Store.{accounts}
use event_driven_trading_led.Risk.Worker.{
  xadd, RiskWorker, publish_some, send, recompute_each, is_throttled, maybe_recompute,
}

module _ {F : Type 0} ⦃fl : Float F⦄ (cfg : Config F) where
  recompute_each_keeps :
      (stamps : String → Stamp) (names : List String) (w : RiskWorker F)
      → (recompute_each cfg stamps names w).1.last_recompute ≡ w.last_recompute
  unfolding recompute_each send publish_some
  recompute_each_keeps stamps [] w = refl
  recompute_each_keeps stamps (a ∷ names) w =
      elim (Answer-cases (recompute_account cfg (stamps a) a null w.store)) [
        | inl (x, s, raised) ↦ rw raised
        | inr (inl (s, skipped)) ↦
            ground (arith, skipped, recompute_each_keeps stamps names (record w { store = s }))
        | inr (inr (env, s, done)) ↦ ground (
          arith,
          done,
          recompute_each_keeps stamps names
              (record w { store = s; sent = w.sent ++ xadd cfg.risk_stream env ∷ [] }),
        )
      ]

  -- Within the interval after a recompute that ran and returned, the next one does nothing.
  pub maybe_recompute_throttled :
      (stamps stamps' : String → Stamp) (earlier later : F) (n : ℕ) (w w' : RiskWorker F)
      → is_throttled cfg earlier w.last_recompute ≡ false
      → maybe_recompute cfg stamps earlier w ≡ (ok n, w')
      → fl.lt (fl.mul (fl.sub later earlier) (fl.decimal 1000 0)) cfg.recompute_interval_ms ≡ true
      → maybe_recompute cfg stamps' later w' ≡ (ok 0, w')
  unfolding maybe_recompute is_throttled
  maybe_recompute_throttled stamps stamps' earlier later n w w' runs h soon = ground (
    arith,
    recompute_each_keeps stamps (accounts w.store) (record w { last_recompute = some earlier }),
  )
