-- ===== src/Risk/Store/Dedupe.antt =====
-- `apply_ledger_event` of store.py records each `event_id` once.
use event_driven_trading_led.Base.{
  String, ◌≡◌, refl, ◌⊎◌, inl, inr, true, false, ◌||◌, List, [], ◌∷◌, ◌++◌, arith, eq_iff, ◌==◌,
  Bool-cases,
}
use event_driven_trading_led.Base.Exec.{ok}
use event_driven_trading_led.Base.Float.{Float}
use event_driven_trading_led.Risk.Store.{
  AppliedEvent, RiskStore, already_applied, apply_ledger_event, null_nan,
}

module _ {F : Type 0} where
  pub already_applied-append :
      (k : String) (es : List (AppliedEvent F)) (e : AppliedEvent F)
      → already_applied k (es ++ e ∷ []) ≡ (already_applied k es || e.event_id == k)
  unfolding already_applied
  already_applied-append k [] e = ground arith
  already_applied-append k (x ∷ es) e = ground (arith, already_applied-append k es e)

  -- no event id stands twice in the log
  abbrev pub IsDeduped : List (AppliedEvent F) → Type 0
  IsDeduped [] = Unit
  IsDeduped (e ∷ es) = (already_applied e.event_id es ≡ false) × IsDeduped es

  IsDeduped-append :
      (es : List (AppliedEvent F)) (e : AppliedEvent F)
      → IsDeduped es
      → already_applied e.event_id es ≡ false
      → IsDeduped (es ++ e ∷ [])
  unfolding already_applied
  IsDeduped-append [] e h new = (refl, tt)
  IsDeduped-append (x ∷ es) e h new = (
    ground (
      arith,
      already_applied-append x.event_id es e,
      h.0,
      eq_iff x.event_id e.event_id,
      eq_iff e.event_id x.event_id,
    ),
    IsDeduped-append es e h.1 (ground arith),
  )

module _ {F : Type 0} ⦃fl : Float F⦄ where
  -- the row as it is stored
  abbrev pub stored : AppliedEvent F → AppliedEvent F
  stored e = record e { quantity = null_nan e.quantity; price = null_nan e.price }

  -- An event is applied exactly when its id is new and neither of its required numbers is a NaN;
  -- then its row goes to the end of the log, and nothing else changes.
  pub apply_ledger_event_lem :
      (e : AppliedEvent F) (s : RiskStore F)
      → ((already_applied e.event_id s.applied_events
              || (fl.is_nan e.cash_delta || fl.is_nan e.position_after)
            ≡ true)
          × (apply_ledger_event e s ≡ (ok false, s)))
        ⊎ ((already_applied e.event_id s.applied_events ≡ false)
            × (fl.is_nan e.cash_delta || fl.is_nan e.position_after ≡ false)
            × (apply_ledger_event e s
                ≡ (ok true, record s { applied_events = s.applied_events ++ stored e ∷ [] })))
  unfolding apply_ledger_event
  apply_ledger_event_lem e s = elim (Bool-cases (already_applied e.event_id s.applied_events)) [
    | inl old ↦ inl (ground arith, ground arith)
    | inr new ↦ elim (Bool-cases (fl.is_nan e.cash_delta || fl.is_nan e.position_after)) [
      | inl nan ↦ inl (ground arith, ground arith)
      | inr numbers ↦ inr (new, numbers, ground arith)
    ]
  ]

  -- Once an event is applied, an event with its id is refused and changes nothing.
  pub apply_ledger_event_again :
      (e e' : AppliedEvent F) (s s' : RiskStore F)
      → apply_ledger_event e s ≡ (ok true, s')
      → e'.event_id ≡ e.event_id
      → apply_ledger_event e' s' ≡ (ok false, s')
  unfolding apply_ledger_event
  apply_ledger_event_again e e' s s' done same = ground (
    arith,
    already_applied-append e'.event_id s.applied_events (stored e),
    eq_iff e.event_id e'.event_id,
  )

  -- The log stays free of repeated event ids.
  pub apply_ledger_event-IsDeduped :
      (e : AppliedEvent F) (s : RiskStore F)
      → IsDeduped s.applied_events
      → IsDeduped (apply_ledger_event e s).1.applied_events
  apply_ledger_event-IsDeduped e s h = elim (apply_ledger_event_lem e s) [
    | inl (_, kept) ↦ rw kept h
    | inr (new, _, grown) ↦ rw grown (IsDeduped-append s.applied_events (stored e) h new)
  ]

  -- refused with no change, or applied
  pub apply_ledger_event_cases :
      (e : AppliedEvent F) (s : RiskStore F)
      → (apply_ledger_event e s ≡ (ok false, s))
        ⊎ ((s' : RiskStore F) × (apply_ledger_event e s ≡ (ok true, s')))
  apply_ledger_event_cases e s = elim (apply_ledger_event_lem e s) [
    | inl (_, refused) ↦ inl refused
    | inr (_, _, applied) ↦
        inr (record s { applied_events = s.applied_events ++ stored e ∷ [] }, applied)
  ]

  -- a refusal depends on the log alone
  pub apply_ledger_event_kept :
      (e : AppliedEvent F) (s t : RiskStore F)
      → t.applied_events ≡ s.applied_events
      → apply_ledger_event e s ≡ (ok false, s)
      → apply_ledger_event e t ≡ (ok false, t)
  unfolding apply_ledger_event
  apply_ledger_event_kept e s t same refused = ground arith
