-- ===== src/Risk/Consumer/Snapshots.antt =====
-- The snapshot that the REST API reads is the one that is published.
use event_driven_trading_led.Base.{
  String, ◌≡◌, ap, sym, ◌⊎◌, inl, inr, none, some, true, false, arith,
}
use event_driven_trading_led.Base.Exec.{ok, err, integrity_error, Result-cases}
use event_driven_trading_led.Base.Float.{Float}
use event_driven_trading_led.Risk.Json.{Value}
use event_driven_trading_led.Risk.Config.{Config}
use event_driven_trading_led.Risk.Store.{RiskStore, apply_ledger_event, get_risk_snapshot}
use event_driven_trading_led.Risk.Store.Dedupe.{apply_ledger_event_cases}
use event_driven_trading_led.Risk.Store.Saves.{
  saved, save_risk_snapshot_lem, get_risk_snapshot-saved,
}
use event_driven_trading_led.Risk.Consumer.{
  Stamp, RiskEnvelope, LedgerInput, parse_ledger, metrics_of, snapshot_of, envelope_of,
  build_risk_envelope, apply_input, process_ledger_envelope,
}

module _ {F : Type 0} ⦃fl : Float F⦄ (cfg : Config F) (stamp : Stamp) where
  -- what `build_risk_envelope` saves and returns
  abbrev pub built : String → RiskStore F → RiskStore F
  built key s = saved (snapshot_of key (metrics_of cfg key s) stamp.computed_at) s

  pub build_risk_envelope_lem :
      (key : String) (a c : Value F) (s : RiskStore F)
      → (build_risk_envelope cfg stamp key a c s ≡ (err integrity_error, s))
        ⊎ (build_risk_envelope cfg stamp key a c s
            ≡ (ok (envelope_of a c (metrics_of cfg key s) stamp), built key s))
  unfolding build_risk_envelope
  build_risk_envelope_lem key a c s =
      elim (save_risk_snapshot_lem (snapshot_of key (metrics_of cfg key s) stamp.computed_at) s) [
        | inl refused ↦ inl (rw refused)
        | inr done ↦ inr (rw done)
      ]

  pub apply_input_refused :
      (input : LedgerInput F) (s : RiskStore F)
      → apply_ledger_event input.row s ≡ (ok false, s)
      → apply_input cfg stamp input s ≡ (ok none, s)
  unfolding apply_input
  apply_input_refused input s h = rw h

  pub apply_input_applied :
      (input : LedgerInput F) (s s' : RiskStore F)
      → apply_ledger_event input.row s ≡ (ok true, s')
      → let key = input.row.account_id in
        (apply_input cfg stamp input s ≡ (err integrity_error, s'))
        ⊎ (apply_input cfg stamp input s ≡ (
          ok (
              some
                (envelope_of input.account_id input.correlation_id (metrics_of cfg key s') stamp)),
          built key s',
        ))
  unfolding apply_input
  apply_input_applied input s s' h =
      elim (build_risk_envelope_lem input.row.account_id input.account_id input.correlation_id s') [
        | inl refused ↦ inl (rw (h, refused))
        | inr done ↦ inr (rw (h, done))
      ]

  apply_input_snapshot :
      (input : LedgerInput F) (s s' : RiskStore F) (env : RiskEnvelope F)
      → apply_input cfg stamp input s ≡ (ok (some env), s')
      → let key = input.row.account_id in
        (get_risk_snapshot key s' ≡ some (snapshot_of key env.metrics env.computed_at))
        × (env.account_id ≡ input.account_id)
  unfolding envelope_of snapshot_of
  apply_input_snapshot input s s' env h = elim (apply_ledger_event_cases input.row s) [
    | inl refused ↦ cc (h, apply_input_refused input s refused)
    | inr (t, applied) ↦ elim (apply_input_applied input s t applied) [
      | inl failed ↦ cc (h, failed)
      | inr done ↦
          let key = input.row.account_id in
          let same : envelope_of input.account_id input.correlation_id (metrics_of cfg key t) stamp
              ≡ env =
            cc (h, done) in
          let end : built key t ≡ s' = cc (h, done) in
          (
            rw (sym same, sym end)
                (get_risk_snapshot-saved (snapshot_of key (metrics_of cfg key t) stamp.computed_at)
                  t),
            ap (λ e. e.account_id) (sym same),
          )
    ]
  ]

  -- When processing a message yields an envelope to publish, the snapshot that the store then holds
  -- of the account is the one that the envelope announces: its metrics, at its time; and the envelope
  -- names the account of the message.
  pub process_snapshot :
      (envelope : Value F) (s s' : RiskStore F) (env : RiskEnvelope F)
      → process_ledger_envelope cfg stamp envelope s ≡ (ok (some env), s')
      → (input : LedgerInput F) × (parse_ledger envelope ≡ ok (some input))
        × (get_risk_snapshot input.row.account_id s'
            ≡ some (snapshot_of input.row.account_id env.metrics env.computed_at))
        × (env.account_id ≡ input.account_id)
  unfolding process_ledger_envelope
  process_snapshot envelope s s' env h = elim (Result-cases (parse_ledger envelope)) [
    | inl (e, failed) ↦ cc (h, failed)
    | inr (none, skipped) ↦ cc (h, skipped)
    | inr (some input, parsed) ↦
        let (stored, named) = apply_input_snapshot input s s' env (ground (arith, h, parsed)) in
        (input, parsed, stored, named)
  ]
