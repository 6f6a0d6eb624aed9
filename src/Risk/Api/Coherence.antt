-- ===== src/Risk/Api/Coherence.antt =====
-- What the client of the read API gets, after the risk engine has handled a message.
use event_driven_trading_led.Base.{
  String, ◌≡◌, inl, inr, true, false, Option, none, some, ◌==◌, Bool-cases, if◌then◌else◌,
}
use event_driven_trading_led.Base.Exec.{ok}
use event_driven_trading_led.Base.Float.{Float}
use event_driven_trading_led.Risk.Json.{Value}
use event_driven_trading_led.Risk.Config.{Config}
use event_driven_trading_led.Risk.Store.{RiskSnapshot, RiskStore, get_risk_snapshot}
use event_driven_trading_led.Risk.Consumer.{
  Stamp, RiskEnvelope, LedgerInput, parse_ledger, snapshot_of, process_ledger_envelope,
}
use event_driven_trading_led.Risk.Consumer.Snapshots.{process_snapshot}
use event_driven_trading_led.Risk.Explain.Metrics.{Format}
use event_driven_trading_led.Risk.Narrative.Reply.{Runtime}
use event_driven_trading_led.Risk.Api.{
  VarDetail, Response, response, respond, summary, var_detail, error, or_text, detail_of,
  risk_summary, risk_var, risk_explain,
}

module _ {F : Type 0} where
  -- what an envelope announces of an account
  abbrev pub announced_summary : String → RiskEnvelope F → RiskSnapshot F
  announced_summary account_id env = record {
    account_id = account_id;
    portfolio_value = env.metrics.portfolio_value;
    pnl = env.metrics.pnl;
    volatility = env.metrics.volatility;
    var = env.metrics.var;
    var_method = env.metrics.var_method;
    sharpe = env.metrics.sharpe;
    computed_at = env.computed_at;
  }

  -- the answer to a client for whose account nothing is stored
  abbrev pub missing : Response F
  missing = response 404 (error "not_found" "No metrics computed yet for this account.")

  risk_summary_found :
      (account_id : String) (s : RiskStore F) (r : RiskSnapshot F)
      → get_risk_snapshot account_id s ≡ some r
      → respond (risk_summary account_id s) ≡ response 200 (summary r)
  unfolding risk_summary respond
  risk_summary_found account_id s r found = rw (found, risk_summary)

  risk_summary_absent :
      (account_id : String) (s : RiskStore F)
      → get_risk_snapshot account_id s ≡ none
      → respond (risk_summary account_id s) ≡ missing
  unfolding risk_summary respond
  risk_summary_absent account_id s absent = rw (absent, risk_summary)

module _ {F : Type 0} ⦃fl : Float F⦄ where
  risk_var_historical :
      (account_id : String) (method : Option String) (s : RiskStore F)
      → (or_text "" method == "historical") ≡ true
      → respond (risk_var account_id method s)
        ≡ response 400
            (error "unsupported_var_method" "historical VaR is not supported; parametric only")
  unfolding risk_var respond
  risk_var_historical account_id method s h = rw (h, risk_var)

  risk_var_found :
      (account_id : String) (method : Option String) (s : RiskStore F) (r : RiskSnapshot F)
      → (or_text "" method == "historical") ≡ false
      → get_risk_snapshot account_id s ≡ some r
      → respond (risk_var account_id method s) ≡ response 200 (var_detail (detail_of r))
  unfolding risk_var respond
  risk_var_found account_id method s r h found = rw (h, found, risk_var)

  risk_var_absent :
      (account_id : String) (method : Option String) (s : RiskStore F)
      → (or_text "" method == "historical") ≡ false
      → get_risk_snapshot account_id s ≡ none
      → respond (risk_var account_id method s) ≡ missing
  unfolding risk_var respond
  risk_var_absent account_id method s h absent = rw (h, absent, risk_var)

  -- the VaR that an envelope announces, at 95 percent over one day
  abbrev pub announced_var : String → RiskEnvelope F → VarDetail F
  announced_var account_id env = record {
    account_id = account_id;
    var = env.metrics.var;
    var_method = env.metrics.var_method;
    confidence = fl.decimal 95 2;
    horizon_days = 1;
    computed_at = env.computed_at;
  }

  -- After a message whose handling publishes an envelope, the summary and the VaR of its account are
  -- answered with status 200 and the metrics of that envelope, at its time; a VaR of the historical
  -- method is answered with 400.
  pub answers-process :
      (cfg : Config F) (stamp : Stamp) (envelope : Value F) (s s' : RiskStore F)
      (env : RiskEnvelope F) (method : Option String)
      → process_ledger_envelope cfg stamp envelope s ≡ (ok (some env), s')
      → (input : LedgerInput F) × (parse_ledger envelope ≡ ok (some input))
        × (let account_id = input.row.account_id in
            (respond (risk_summary account_id s')
              ≡ response 200 (summary (announced_summary account_id env)))
            × (respond (risk_var account_id method s') ≡ (
                if or_text "" method == "historical"
                then response 400 (
                    error "unsupported_var_method"
                      "historical VaR is not supported; parametric only")
                else response 200 (var_detail (announced_var account_id env)))))
  unfolding snapshot_of detail_of
  answers-process cfg stamp envelope s s' env method h =
      let (input, parsed, stored, _) = process_snapshot cfg stamp envelope s s' env h in
      let account_id = input.row.account_id in
      let r = snapshot_of account_id env.metrics env.computed_at in
      (
        input,
        parsed,
        (
          risk_summary_found account_id s' r stored,
          elim (Bool-cases (or_text "" method == "historical")) [
            | inl old ↦ rw old (risk_var_historical account_id method s' old)
            | inr other ↦ rw other (risk_var_found account_id method s' r other stored)
          ],
        ),
      )

  -- For an account of which nothing is stored, the summary, the explanation in either mode, and the
  -- VaR of a method that is not historical are the same answer with status 404.
  pub answers_missing :
      (fmt : Format F) (rt : Runtime F) (account_id : String) (method mode : Option String)
      (s : RiskStore F)
      → get_risk_snapshot account_id s ≡ none
      → (or_text "" method == "historical") ≡ false
      → (respond (risk_summary account_id s) ≡ missing)
        × (respond (risk_var account_id method s) ≡ missing)
        × (respond (risk_explain fmt rt account_id mode s) ≡ missing)
  unfolding risk_explain respond
  answers_missing fmt rt account_id method mode s absent h = (
    risk_summary_absent account_id s absent,
    risk_var_absent account_id method s h absent,
    rw (absent, risk_explain),
  )
