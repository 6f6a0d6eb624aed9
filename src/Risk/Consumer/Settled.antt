-- ===== src/Risk/Consumer/Settled.antt =====
-- Messages that `process_ledger_envelope` has settled: its log is what remembers them.
use event_driven_trading_led.Base.{
  ◌≡◌, refl, sym, ◌⊎◌, inl, inr, Bool, true, false, ◌||◌, Option, none, some, List, [], ◌∷◌, ◌++◌,
  arith, eq_iff,
}
use event_driven_trading_led.Base.Exec.{Result, ok, err, Result-cases}
use event_driven_trading_led.Base.Float.{Float}
use event_driven_trading_led.Risk.Json.{Value}
use event_driven_trading_led.Risk.Config.{Config}
use event_driven_trading_led.Risk.Store.{AppliedEvent, RiskStore, already_applied}
use event_driven_trading_led.Risk.Store.Dedupe.{
  stored, already_applied-append, apply_ledger_event_lem,
}
use event_driven_trading_led.Risk.Consumer.Snapshots.{apply_input_refused, apply_input_applied}
use event_driven_trading_led.Risk.Consumer.{
  Stamp, RiskEnvelope, LedgerInput, parse_ledger, process_ledger_envelope,
}

module _ {F : Type 0} ⦃fl : Float F⦄ where
  -- whether a message, as it was read, has nothing left to do: it is skipped, or its event is in the
  -- log, or the table refuses it
  abbrev pub is_settled : List (AppliedEvent F) → Result (Option (LedgerInput F)) → Bool
  is_settled log (err e) = false
  is_settled log (ok none) = true
  is_settled log (ok (some input)) =
      already_applied input.row.event_id log
      || (fl.is_nan input.row.cash_delta || fl.is_nan input.row.position_after)

  pub is_settled-append :
      (log : List (AppliedEvent F)) (row : AppliedEvent F) (r : Result (Option (LedgerInput F)))
      → is_settled log r ≡ true
      → is_settled (log ++ row ∷ []) r ≡ true
  is_settled-append log row (err e) h = h
  is_settled-append log row (ok none) h = refl
  is_settled-append log row (ok (some input)) h =
      ground (arith, already_applied-append input.row.event_id log row, h)

  module _ (cfg : Config F) (stamp : Stamp) where
    -- a settled message does nothing
    pub process_settled :
        (envelope : Value F) (s : RiskStore F)
        → is_settled s.applied_events (parse_ledger envelope) ≡ true
        → process_ledger_envelope cfg stamp envelope s ≡ (ok none, s)
    unfolding process_ledger_envelope
    process_settled envelope s h = elim (Result-cases (parse_ledger envelope)) [
      | inl (e, failed) ↦ ground (arith, h, failed)
      | inr (none, skipped) ↦ rw skipped
      | inr (some input, parsed) ↦ elim (apply_ledger_event_lem input.row s) [
        | inl (_, refused) ↦ rw parsed (apply_input_refused cfg stamp input s refused)
        | inr (new, numbers, applied) ↦ ground (arith, h, parsed, new, numbers)
      ]
    ]

    -- what processing a message leaves in the log
    pub process_log :
        (envelope : Value F) (s : RiskStore F)
        → let log = (process_ledger_envelope cfg stamp envelope s).1.applied_events in
          (log ≡ s.applied_events) ⊎ ((row : AppliedEvent F) × (log ≡ s.applied_events ++ row ∷ []))
    unfolding process_ledger_envelope
    process_log envelope s = elim (Result-cases (parse_ledger envelope)) [
      | inl (e, failed) ↦ inl (rw failed)
      | inr (none, skipped) ↦ inl (rw skipped)
      | inr (some input, parsed) ↦ elim (apply_ledger_event_lem input.row s) [
        | inl (_, refused) ↦ inl (rw (parsed, apply_input_refused cfg stamp input s refused))
        | inr (new, numbers, applied) ↦ elim (apply_input_applied cfg stamp input s _ applied) [
          | inl failed ↦ inr (stored input.row, rw (parsed, failed))
          | inr done ↦ inr (stored input.row, rw (parsed, done))
        ]
      ]
    ]

    -- a message that was processed with no exception is settled
    pub process_settles :
        (envelope : Value F) (r : Option (RiskEnvelope F)) (s s' : RiskStore F)
        → process_ledger_envelope cfg stamp envelope s ≡ (ok r, s')
        → is_settled s'.applied_events (parse_ledger envelope) ≡ true
    unfolding process_ledger_envelope
    process_settles envelope r s s' h = elim (Result-cases (parse_ledger envelope)) [
      | inl (e, failed) ↦ ground (arith, h, failed)
      | inr (none, skipped) ↦ rw skipped
      | inr (some input, parsed) ↦ elim (apply_ledger_event_lem input.row s) [
        | inl (old, refused) ↦
            let same : s ≡ s' = cc (h, parsed, apply_input_refused cfg stamp input s refused) in
            rw (parsed, sym same) old
        | inr (new, numbers, applied) ↦ elim (apply_input_applied cfg stamp input s _ applied) [
          | inl failed ↦ cc (h, parsed, failed)
          | inr done ↦
              let end : s'.applied_events ≡ s.applied_events ++ stored input.row ∷ [] =
                ground (arith, h, parsed, done) in
              rw (parsed, end)
                (ground (
                  arith,
                  already_applied-append input.row.event_id s.applied_events (stored input.row),
                  eq_iff input.row.event_id input.row.event_id,
                ))
        ]
      ]
    ]
