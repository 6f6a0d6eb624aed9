-- ===== src/Risk/Consumer/Redelivery.antt =====
-- Redelivery to `process_ledger_envelope`: the second time nothing is written and nothing published.
use event_driven_trading_led.Base.{◌≡◌, refl, sym, subst, Option, none, some, inl, inr, arith}
use event_driven_trading_led.Base.Exec.{Result, ok, err, Result-cases}
use event_driven_trading_led.Base.Float.{Float}
use event_driven_trading_led.Risk.Json.{Value}
use event_driven_trading_led.Risk.Config.{Config}
use event_driven_trading_led.Risk.Store.{RiskStore}
use event_driven_trading_led.Risk.Store.Dedupe.{
  IsDeduped, apply_ledger_event_cases, apply_ledger_event_again, apply_ledger_event-IsDeduped,
  apply_ledger_event_kept,
}
use event_driven_trading_led.Risk.Consumer.Snapshots.{
  built, apply_input_refused, apply_input_applied,
}
use event_driven_trading_led.Risk.Consumer.{
  Stamp, RiskEnvelope, LedgerInput, parse_ledger, apply_input, process_ledger_envelope,
}

module _ {F : Type 0} ⦃fl : Float F⦄ where
  -- what a redelivered message answers: the exception that it raised while it was read, or nothing
  abbrev pub quiet : Result (Option (LedgerInput F)) → Result (Option (RiskEnvelope F))
  quiet (ok _) = ok none
  quiet (err e) = err e

  apply_input_again :
      (cfg : Config F) (stamp stamp' : Stamp) (input : LedgerInput F) (s : RiskStore F)
      → let s' = (apply_input cfg stamp input s).1 in
        apply_input cfg stamp' input s' ≡ (ok none, s')
  apply_input_again cfg stamp stamp' input s = elim (apply_ledger_event_cases input.row s) [
    | inl refused ↦
        rw (apply_input_refused cfg stamp input s refused)
          (apply_input_refused cfg stamp' input s refused)
    | inr (t, applied) ↦ elim (apply_input_applied cfg stamp input s t applied) [
      | inl failed ↦ rw failed (
          apply_input_refused cfg stamp' input t
            (apply_ledger_event_again input.row input.row s t applied refl))
      | inr done ↦ rw done (
          apply_input_refused cfg stamp' input (built cfg stamp input.row.account_id t) (
            apply_ledger_event_kept input.row t _ refl
              (apply_ledger_event_again input.row input.row s t applied refl)))
    ]
  ]

  -- A message that was processed, whatever came of it, is processed again with no write and no
  -- envelope to publish; only an exception that reading it raises is raised again.
  pub process_redelivered :
      (cfg : Config F) (stamp stamp' : Stamp) (envelope : Value F) (s : RiskStore F)
      → let s' = (process_ledger_envelope cfg stamp envelope s).1 in
        process_ledger_envelope cfg stamp' envelope s' ≡ (quiet (parse_ledger envelope), s')
  unfolding process_ledger_envelope
  process_redelivered cfg stamp stamp' envelope s = elim (Result-cases (parse_ledger envelope)) [
    | inl (e, failed) ↦ rw failed
    | inr (none, skipped) ↦ rw skipped
    | inr (some input, parsed) ↦ rw parsed (apply_input_again cfg stamp stamp' input s)
  ]

  apply_input-IsDeduped :
      (cfg : Config F) (stamp : Stamp) (input : LedgerInput F) (s : RiskStore F)
      → IsDeduped s.applied_events
      → IsDeduped (apply_input cfg stamp input s).1.applied_events
  apply_input-IsDeduped cfg stamp input s h = elim (apply_ledger_event_cases input.row s) [
    | inl refused ↦ rw (apply_input_refused cfg stamp input s refused) h
    | inr (t, applied) ↦
        let kept : IsDeduped t.applied_events =
          subst (λ m. IsDeduped m.1.applied_events) applied
            (apply_ledger_event-IsDeduped input.row s h) in
        elim (apply_input_applied cfg stamp input s t applied) [
          | inl failed ↦ rw failed kept
          | inr done ↦ rw done kept
        ]
  ]

  -- Whatever the message, the log stays free of repeated event ids.
  pub process-IsDeduped :
      (cfg : Config F) (stamp : Stamp) (envelope : Value F) (s : RiskStore F)
      → IsDeduped s.applied_events
      → IsDeduped (process_ledger_envelope cfg stamp envelope s).1.applied_events
  unfolding process_ledger_envelope
  process-IsDeduped cfg stamp envelope s h = elim (Result-cases (parse_ledger envelope)) [
    | inl (e, failed) ↦ rw failed h
    | inr (none, skipped) ↦ rw skipped h
    | inr (some input, parsed) ↦ rw parsed (apply_input-IsDeduped cfg stamp input s h)
  ]

  -- after a message that was processed without an exception
  pub process_redelivered_ok :
      (cfg : Config F) (stamp stamp' : Stamp) (envelope : Value F) (r : Option (RiskEnvelope F))
      (s s' : RiskStore F)
      → process_ledger_envelope cfg stamp envelope s ≡ (ok r, s')
      → process_ledger_envelope cfg stamp' envelope s' ≡ (ok none, s')
  unfolding process_ledger_envelope
  process_redelivered_ok cfg stamp stamp' envelope r s s' h =
      elim (Result-cases (parse_ledger envelope)) [
        | inl (e, failed) ↦ cc (h, failed)
        | inr (none, skipped) ↦ rw skipped
        | inr (some input, parsed) ↦
            let end : (apply_input cfg stamp input s).1 ≡ s' = ground (arith, h, parsed) in
            rw (parsed, sym end) (apply_input_again cfg stamp stamp' input s)
      ]
