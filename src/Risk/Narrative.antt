-- ===== src/Risk/Narrative.antt =====
-- services/risk-engine/app/llm_explain.py: the optional rewrite of the facts by a language model. The
-- environment, the service and the runtime's text functions are the record `Runtime`; logging is
-- left out, and so are the prompt and the headers of the request.
pub mod Reply
pub mod Merge
pub mod Fallback
use event_driven_trading_led.Base.{
  String, Bool, true, false, not, Option, none, some, List, [], ◌∷◌, ◌==◌, any, if◌then◌else◌,
}
use event_driven_trading_led.Base.Exec.{
  Error, Result, ok, err, value_error, type_error, key_error, bind_result,
}
use event_driven_trading_led.Base.Float.{Float}
use event_driven_trading_led.Base.Text.{joined}
use event_driven_trading_led.Risk.Json.{Value, Fields, obj, null, bool, num, str, arr, parse_number}
use event_driven_trading_led.Risk.Explain.{Facts}
use event_driven_trading_led.Risk.Narrative.Reply.{
  Runtime, Response, network_error, raised, answered, document_of, build_user_payload,
}
use event_driven_trading_led.Risk.Narrative.Merge.{merge}

pub record LlmConfig (F : Type 0) : Type 0 where
  pub enabled : Bool
  pub api_key : String
  pub base_url : String
  pub model : String
  pub timeout : F

-- whether the `except` clauses of a call or of a merge take an exception
pub is_caught : Error → Bool
is_caught key_error = true
is_caught value_error = true
is_caught type_error = true
is_caught e = false

pub caught : {F : Type 0} → Error → Result (Option (Facts F))
caught e = if is_caught e then ok none else err e

module _ {F : Type 0} ⦃fl : Float F⦄ (rt : Runtime F) where
  -- `_env`
  unfoldable pub env_or : String → String → String
  env_or name default = elim (rt.getenv name) [ none ↦ default | some v ↦ v ]

  unfoldable pub is_enabled : Bool
  is_enabled =
      let v = rt.lower (rt.strip (env_or "RISK_LLM_ENABLED" "false")) in
      any (λ yes_word. yes_word == v) ("1" ∷ "true" ∷ "yes" ∷ "on" ∷ [])

  -- `a or b`
  abbrev pub text_or : String → String → String
  text_or a b = if a == "" then b else a

  -- `_config`, which raises where the timeout is no number
  unfoldable pub llm_config : Result (LlmConfig F)
  llm_config =
      bind_result (parse_number (text_or (env_or "RISK_LLM_TIMEOUT_MS" "8000") "8000")) λ ms.
        ok (record {
          enabled = is_enabled;
          api_key = text_or (env_or "RISK_LLM_API_KEY" "") (env_or "OPENAI_API_KEY" "");
          base_url = rt.rstrip_slash (env_or "RISK_LLM_BASE_URL" "https://api.openai.com/v1");
          model = env_or "RISK_LLM_MODEL" "gpt-4o-mini";
          timeout = fl.div ms (fl.decimal 1000 0);
        })

  -- the document, overlaid if it is a dict
  pub narrate : Facts F → Value F → Result (Option (Facts F))
  narrate facts (obj llm) = elim (merge rt facts llm) [ ok out ↦ ok (some out) | err e ↦ caught e ]
  narrate facts null = ok none
  narrate facts (bool b) = ok none
  narrate facts (num x) = ok none
  narrate facts (str s) = ok none
  narrate facts (arr xs) = ok none

  pub read_response : Facts F → Response → Result (Option (Facts F))
  read_response facts network_error = ok none
  read_response facts (raised e) = caught e
  read_response facts (answered raw) = elim (document_of rt raw) [
    | ok llm ↦ narrate facts llm
    | err e ↦ caught e
  ]

  -- `generate_llm_narrative`
  pub generate_llm_narrative : Facts F → Result (Option (Facts F))
  generate_llm_narrative facts = bind_result llm_config λ cfg.
      if not cfg.enabled
      then ok none
      else if cfg.api_key == ""
      then ok none
      else read_response facts (
          rt.post (joined (cfg.base_url ∷ "/chat/completions" ∷ [])) cfg.api_key cfg.timeout
            cfg.model (build_user_payload rt facts))
