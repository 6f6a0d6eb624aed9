-- ===== src/Risk/NarrativeTests.antt =====
-- The explanations and their rewrite over whole numbers, at concrete inputs.
use event_driven_trading_led.Base.{
  ◌≡◌, refl, inr, true, false, some, [], ◌∷◌, ◌==◌, if◌then◌else◌, not, ◌&&◌,
}
use event_driven_trading_led.Base.Int.{ℤ, pos, negsuc}
use event_driven_trading_led.Base.Dict.{lookup, insert}
use event_driven_trading_led.Base.Exec.{err, index_error}
use event_driven_trading_led.Base.Float.{whole}
use event_driven_trading_led.Risk.Json.{Fields, str, num, arr, nil, cons, obj, field, end}
use event_driven_trading_led.Risk.Store.{get_risk_snapshot}
use event_driven_trading_led.Risk.Explain.{Facts}
use event_driven_trading_led.Risk.Explain.Changes.{delta_of, is_moved, is_gain, differ, changes}
use event_driven_trading_led.Risk.Explain.Changes.Reports.{reports, changes_lem}
use event_driven_trading_led.Risk.Narrative.Reply.{
  Runtime, network_error, answered, item, field_or_raise,
}
use event_driven_trading_led.Risk.Narrative.Merge.{
  merge, prose_map, prose_items, add_prose, prose_of, put_prose, get_or_nil, prose_or, notes_or,
  overlay_metric, overlay_change,
}
use event_driven_trading_led.Risk.Narrative.Merge.Figures.{SameFigures, merge_figures}
use event_driven_trading_led.Risk.Narrative.{
  LlmConfig, env_or, is_enabled, llm_config, generate_llm_narrative,
}
use event_driven_trading_led.Risk.Narrative.Fallback.{generate_no_choices}
use event_driven_trading_led.Risk.Api.{returned, explained, or_text, risk_explain, rule_facts}
use event_driven_trading_led.Risk.Api.Explained.{
  Answers, risk_explain-Answers, risk_explain_fallback,
}
use event_driven_trading_led.Risk.ApiTests.{fmt, snapshot, stored, runtime, switched_on}

-- the model is on, and the service cannot be reached
abbrev unreachable : Runtime ℤ
unreachable = runtime switched_on network_error

abbrev config : LlmConfig ℤ
config = record {
  enabled = true;
  api_key = "key";
  base_url = "https://api.openai.com/v1";
  model = "gpt-4o-mini";
  timeout = whole.div (pos 8000) (pos 1000);
}

risk_explain-Answers_example :
    Answers fmt unreachable snapshot (risk_explain fmt unreachable "acct_123" (some "llm") stored)
unfolding get_risk_snapshot lookup llm_config env_or is_enabled
risk_explain-Answers_example =
    risk_explain-Answers fmt unreachable "acct_123" (some "llm") stored snapshot config refl refl

risk_explain_fallback_example :
    risk_explain fmt unreachable "acct_123" (some "llm") stored
    ≡ returned (
        explained (
          if or_text "" (some "llm") == "llm"
          then record (rule_facts fmt unreachable snapshot) { llm_unavailable = true }
          else rule_facts fmt unreachable snapshot))
unfolding get_risk_snapshot lookup llm_config env_or is_enabled
risk_explain_fallback_example =
    risk_explain_fallback fmt unreachable "acct_123" (some "llm") stored snapshot config refl refl
      (inr (inr (λ url key timeout model payload. refl)))

-- two snapshots as dicts
abbrev dict_of : ℤ → ℤ → ℤ → Fields ℤ
dict_of value volatility sharpe =
    field "portfolio_value" (num value)
      (field "volatility" (num volatility) (field "sharpe" (num sharpe) end))

abbrev current : Fields ℤ
current = dict_of (pos 10500) (pos 2) (pos 1)

abbrev previous : Fields ℤ
previous = dict_of (pos 10000) (pos 2) (negsuc 0)

changes_lem_example :
    let cs = changes fmt current previous in
    let vol_d = delta_of 6 "volatility" current previous in
    (reports "portfolio_value" cs ≡ is_moved (delta_of 2 "portfolio_value" current previous))
    × (reports "volatility" cs ≡ is_moved vol_d)
    × (reports "var" cs ≡ (not (is_moved vol_d) && is_moved (delta_of 2 "var" current previous)))
    × (reports "sharpe" cs ≡ differ (is_gain current) (is_gain previous))
changes_lem_example = changes_lem fmt current previous

abbrev facts : Facts ℤ
facts = record {
  account_id = str "acct_123";
  computed_at = str "t1";
  headline = "Your portfolio is worth $10,500.00.";
  summary = "In plain language.";
  metrics = record { key = "pnl"; label = "P&L"; value = pos 500; plain = "You're up." } ∷ [];
  changes = [];
  notes = [];
  mode = some "rule";
  llm_unavailable = false;
}

-- a document that tries to change a figure
abbrev written : Fields ℤ
written = field "headline" (str "All is well.") (
    field "metrics"
      (arr (
        cons
          (obj (
            field "key" (str "pnl")
              (field "value" (num (pos 9999)) (field "plain" (str "A gain.") end))))
          nil))
      end)

abbrev rewritten : Facts ℤ
rewritten = record facts {
  headline = "All is well.";
  metrics = record { key = "pnl"; label = "P&L"; value = pos 500; plain = "A gain." } ∷ [];
  mode = some "llm";
}

merge_figures_example : SameFigures facts rewritten × (rewritten.mode ≡ some "llm")
unfolding merge prose_map prose_items add_prose prose_of put_prose get_or_nil prose_or notes_or
    overlay_metric overlay_change lookup insert
merge_figures_example = merge_figures unreachable facts rewritten written refl

abbrev empty_choices : Runtime ℤ
empty_choices = runtime switched_on (answered "empty")

generate_no_choices_example : generate_llm_narrative empty_choices facts ≡ err index_error
unfolding llm_config env_or is_enabled item field_or_raise
generate_no_choices_example =
    generate_no_choices empty_choices facts config "empty" (obj (field "choices" (arr nil) end))
      refl refl refl (λ url key timeout model payload. refl) refl refl
