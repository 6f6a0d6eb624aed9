-- ===== src/Risk/Api/Explained.antt =====
-- `/risk/explain`: the figures of every answer are those of the stored snapshot.
use event_driven_trading_led.Base.{
  String, ◌≡◌, refl, sym, subst, ◌∙◌, ◌⊎◌, inl, inr, true, false, Option, none, some, List, [], ◌∷◌,
  ◌==◌, Bool-cases, if◌then◌else◌,
}
use event_driven_trading_led.Base.Exec.{Result, ok, err}
use event_driven_trading_led.Base.Float.{Float}
use event_driven_trading_led.Risk.Json.{str}
use event_driven_trading_led.Risk.Store.{RiskSnapshot, RiskStore, get_risk_snapshot}
use event_driven_trading_led.Risk.Explain.{Facts, explain_snapshot}
use event_driven_trading_led.Risk.Explain.Metrics.{Format, metrics, number}
use event_driven_trading_led.Risk.Narrative.Reply.{Runtime, network_error}
use event_driven_trading_led.Risk.Narrative.Merge.Figures.{metric_figures, SameFigures}
use event_driven_trading_led.Risk.Narrative.{
  LlmConfig, llm_config, is_caught, generate_llm_narrative,
}
use event_driven_trading_led.Risk.Narrative.Fallback.{
  Faithful, generate-Faithful, generate_unavailable,
}
use event_driven_trading_led.Risk.Api.{
  Outcome, returned, raised, explained, or_text, snapshot_fields, rule_facts, explain_rewrite,
  explain_mode, risk_explain,
}

module _ {F : Type 0} where
  -- what an explanation must say of a snapshot, in order
  abbrev pub figures_of : RiskSnapshot F → List (String × (String × F))
  figures_of r =
      ("portfolio_value", ("Portfolio value", r.portfolio_value))
      ∷ ("pnl", ("P&L", r.pnl))
      ∷ ("volatility", ("Volatility", r.volatility))
      ∷ ("var", ("VaR", r.var))
      ∷ ("sharpe", ("Sharpe", r.sharpe))
      ∷ []

  -- facts about a snapshot: its account, its time and its figures
  pub record Explains (r : RiskSnapshot F) (f : Facts F) : Type 0 where
    pub account : f.account_id ≡ str r.account_id
    pub time : f.computed_at ≡ str r.computed_at
    pub figures : metric_figures f.metrics ≡ figures_of r

  Explains-SameFigures :
      (r : RiskSnapshot F) (a b : Facts F) → Explains r a → SameFigures a b → Explains r b
  Explains-SameFigures r a b e s = record {
    account = s.account ∙ e.account;
    time = s.time ∙ e.time;
    figures = s.metric ∙ e.figures;
  }

module _ {F : Type 0} ⦃fl : Float F⦄ (fmt : Format F) (rt : Runtime F) where
  rule_facts-Explains : (r : RiskSnapshot F) → Explains r (rule_facts fmt rt r)
  unfolding rule_facts snapshot_fields explain_snapshot metrics number
  rule_facts-Explains r = record { account = refl; time = refl; figures = refl }

  -- an explanation of the snapshot, or an exception that no clause of the rewrite takes
  abbrev pub Answers : RiskSnapshot F → Outcome F → Type 0
  Answers r (returned (explained f)) = Explains r f
  Answers r (raised e) = is_caught e ≡ false
  Answers r other = ⊥

  explain_rewrite-Answers :
      (r : RiskSnapshot F) (facts : Facts F) (g : Result (Option (Facts F)))
      → Faithful rt facts g
      → Explains r facts
      → Answers r (explain_rewrite facts g)
  unfolding explain_rewrite
  explain_rewrite-Answers r facts (ok none) h e = record {
    account = e.account;
    time = e.time;
    figures = e.figures;
  }
  explain_rewrite-Answers r facts (ok (some out)) h e = Explains-SameFigures r facts out e h.0
  explain_rewrite-Answers r facts (err x) h e = h

  explain_mode-Answers :
      (r : RiskSnapshot F) (mode : Option String) (facts : Facts F) (cfg : LlmConfig F)
      → llm_config rt ≡ ok cfg
      → Explains r facts
      → Answers r (explain_mode fmt rt mode facts)
  unfolding explain_mode
  explain_mode-Answers r mode facts cfg h e = elim (Bool-cases (or_text "" mode == "llm")) [
    | inr rule ↦ rw rule e
    | inl llm ↦ rw llm (explain_rewrite-Answers r facts _ (generate-Faithful rt facts cfg h) e)
  ]

  explain_mode_rule :
      (mode : Option String) (facts : Facts F)
      → (or_text "" mode == "llm") ≡ false
      → explain_mode fmt rt mode facts ≡ returned (explained facts)
  unfolding explain_mode
  explain_mode_rule mode facts rule = rw (rule, explain_mode)

  explain_mode_absent :
      (mode : Option String) (facts : Facts F)
      → (or_text "" mode == "llm") ≡ true
      → generate_llm_narrative rt facts ≡ ok none
      → explain_mode fmt rt mode facts
        ≡ returned (explained (record facts { llm_unavailable = true }))
  unfolding explain_mode explain_rewrite
  explain_mode_absent mode facts llm absent = rw (llm, absent, explain_mode)

  risk_explain_found :
      (account_id : String) (mode : Option String) (s : RiskStore F) (r : RiskSnapshot F)
      → get_risk_snapshot account_id s ≡ some r
      → risk_explain fmt rt account_id mode s ≡ explain_mode fmt rt mode (rule_facts fmt rt r)
  unfolding risk_explain
  risk_explain_found account_id mode s r found = rw (found, risk_explain)

  -- Whatever the mode and the service, the explanation of a stored snapshot has its account, its time
  -- and its five figures, in order, where the timeout of the service is a number; or an exception
  -- comes out that no clause of the rewrite takes.
  pub risk_explain-Answers :
      (account_id : String) (mode : Option String) (s : RiskStore F) (r : RiskSnapshot F)
      (cfg : LlmConfig F)
      → get_risk_snapshot account_id s ≡ some r
      → llm_config rt ≡ ok cfg
      → Answers r (risk_explain fmt rt account_id mode s)
  risk_explain-Answers account_id mode s r cfg found h =
      subst (Answers r) (sym (risk_explain_found account_id mode s r found))
        (explain_mode-Answers r mode (rule_facts fmt rt r) cfg h (rule_facts-Explains r))

  -- Where the model is switched off, or has no key, or its service cannot be reached, the answer for a
  -- stored snapshot is the rule-based text, with a mark exactly where the rewrite was asked for.
  pub risk_explain_fallback :
      (account_id : String) (mode : Option String) (s : RiskStore F) (r : RiskSnapshot F)
      (cfg : LlmConfig F)
      → get_risk_snapshot account_id s ≡ some r
      → llm_config rt ≡ ok cfg
      → (cfg.enabled ≡ false)
        ⊎ ((cfg.api_key == "") ≡ true)
        ⊎ ((url key : String) (timeout : F) (model payload : String)
            → rt.post url key timeout model payload ≡ network_error)
      → risk_explain fmt rt account_id mode s
        ≡ returned (
            explained (
              if or_text "" mode == "llm"
              then record (rule_facts fmt rt r) { llm_unavailable = true }
              else rule_facts fmt rt r))
  risk_explain_fallback account_id mode s r cfg found h why =
      let same = risk_explain_found account_id mode s r found in
      let facts = rule_facts fmt rt r in
      elim (Bool-cases (or_text "" mode == "llm")) [
        | inl llm ↦
            rw llm
              (same ∙ explain_mode_absent mode facts llm (generate_unavailable rt facts cfg h why))
        | inr rule ↦ rw rule (same ∙ explain_mode_rule mode facts rule)
      ]
