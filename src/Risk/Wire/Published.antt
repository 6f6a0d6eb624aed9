-- ===== src/Risk/Wire/Published.antt =====
-- What is published, read back, is what the read API answers.
use event_driven_trading_led.Base.{String, ◌≡◌, refl, ap, ◌∙◌, Option, none, some, List, ◌∷◌}
use event_driven_trading_led.Base.Exec.{Result, ok, bind_result}
use event_driven_trading_led.Base.Float.{Float}
use event_driven_trading_led.Risk.Json.{Value, num, str}
use event_driven_trading_led.Risk.Config.{Config}
use event_driven_trading_led.Risk.Store.{RiskSnapshot, RiskStore}
use event_driven_trading_led.Risk.Consumer.{
  Stamp, RiskEnvelope, LedgerInput, parse_ledger, process_ledger_envelope,
}
use event_driven_trading_led.Risk.Consumer.Snapshots.{process_snapshot}
use event_driven_trading_led.Risk.Narrative.Reply.{item, field_or_raise}
use event_driven_trading_led.Risk.Api.{response, respond, summary, risk_summary}
use event_driven_trading_led.Risk.Api.Coherence.{announced_summary, answers-process}
use event_driven_trading_led.Risk.Wire.{
  StreamFields, document_of_risk, stream_fields, read_latest_risk,
}

module _ {F : Type 0} where
  -- `v["data"][k]`
  abbrev pub data_item : String → Value F → Result (Value F)
  data_item k v = bind_result (item "data" v) (item k)

  -- a published document has the figures and the time of a snapshot
  abbrev pub Agrees : RiskSnapshot F → Value F → Type 0
  Agrees r v =
      (data_item "portfolio_value" v ≡ ok (num r.portfolio_value))
      × (data_item "pnl" v ≡ ok (num r.pnl))
      × (data_item "volatility" v ≡ ok (num r.volatility))
      × (data_item "var" v ≡ ok (num r.var))
      × (data_item "var_method" v ≡ ok (str r.var_method))
      × (data_item "sharpe" v ≡ ok (num r.sharpe))
      × (data_item "computed_at" v ≡ ok (str r.computed_at))

  document_of_risk-Agrees :
      (account_id : String) (env : RiskEnvelope F)
      → Agrees (announced_summary account_id env) (document_of_risk env)
  unfolding document_of_risk item field_or_raise
  document_of_risk-Agrees account_id env = (refl, refl, refl, refl, refl, refl, refl)

  document_of_risk-account :
      (env : RiskEnvelope F) → data_item "account_id" (document_of_risk env) ≡ ok env.account_id
  unfolding document_of_risk item field_or_raise
  document_of_risk-account env = refl

  read_latest_risk-stream_fields :
      (loads : String → Option (Value F)) (dumps : Value F → String) (env : RiskEnvelope F)
      (older : List StreamFields)
      → loads (dumps (document_of_risk env)) ≡ some (document_of_risk env)
      → read_latest_risk loads (stream_fields dumps env ∷ older) ≡ ok (some (document_of_risk env))
  unfolding read_latest_risk stream_fields
  read_latest_risk-stream_fields loads dumps env older read = rw read

-- The envelope that the handling of a message yields, written to the stream and read back as the
-- latest entry, names the account of the message and has the figures and the time of the summary of
-- that account, which the read API then answers with status 200, where `json.loads` reads what
-- `json.dumps` wrote.
pub summary-published :
    {F : Type 0} ⦃fl : Float F⦄ (loads : String → Option (Value F)) (dumps : Value F → String)
    (cfg : Config F) (stamp : Stamp) (envelope : Value F) (s s' : RiskStore F)
    (env : RiskEnvelope F) (older : List StreamFields)
    → process_ledger_envelope cfg stamp envelope s ≡ (ok (some env), s')
    → loads (dumps (document_of_risk env)) ≡ some (document_of_risk env)
    → (input : LedgerInput F) × (r : RiskSnapshot F) × (v : Value F) × (parse_ledger envelope
        ≡ ok (some input))
      × (r.account_id ≡ input.row.account_id)
      × (respond (risk_summary input.row.account_id s') ≡ response 200 (summary r))
      × (read_latest_risk loads (stream_fields dumps env ∷ older) ≡ ok (some v))
      × (data_item "account_id" v ≡ ok input.account_id)
      × Agrees r v
summary-published loads dumps cfg stamp envelope s s' env older h read =
    let (input, parsed, (answered, _)) = answers-process cfg stamp envelope s s' env none h in
    let (other, parsed', _, named) = process_snapshot cfg stamp envelope s s' env h in
    let same : other ≡ input = cc (parsed, parsed') in
    let account_id = input.row.account_id in
    (
      input,
      announced_summary account_id env,
      document_of_risk env,
      parsed,
      refl,
      answered,
      read_latest_risk-stream_fields loads dumps env older read,
      document_of_risk-account env ∙ ap ok (named ∙ ap (λ i. i.account_id) same),
      document_of_risk-Agrees account_id env,
    )
