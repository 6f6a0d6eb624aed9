-- ===== src/Risk/Api.antt =====
-- services/risk-engine/app/main.py: the read API over the store. FastAPI's routing and the opening of
-- the database are left out: a handler is a function of the store. An exception that the code does
-- not handle is FastAPI's to answer.
pub mod Explained
pub mod Coherence
use event_driven_trading_led.Base.{
  ℕ, String, Bool, true, false, not, Option, none, some, List, [], ◌∷◌, map, select, ◌==◌,
  if◌then◌else◌,
}
use event_driven_trading_led.Base.Exec.{Error, Result, ok, err}
use event_driven_trading_led.Base.Float.{Float}
use event_driven_trading_led.Base.Text.{joined}
use event_driven_trading_led.Risk.Json.{Value, Fields, num, str, end, field}
use event_driven_trading_led.Risk.Store.{RiskSnapshot, RiskStore, get_risk_snapshot}
use event_driven_trading_led.Risk.Explain.{Facts, explain_snapshot}
use event_driven_trading_led.Risk.Explain.Metrics.{Format}
use event_driven_trading_led.Risk.Narrative.Reply.{Runtime}
use event_driven_trading_led.Risk.Narrative.{is_enabled, generate_llm_narrative}

pub record VarDetail (F : Type 0) : Type 0 where
  pub account_id : String
  pub var : F
  pub var_method : String
  pub confidence : F
  pub horizon_days : ℕ
  pub computed_at : String

pub data Body (F : Type 0) : Type 0 where
  -- the constant answers of `/health` and of `/`
  health : Body F
  root : Body F
  summary : RiskSnapshot F → Body F
  var_detail : VarDetail F → Body F
  explained : Facts F → Body F
  -- `llm_enabled`
  capabilities : Bool → Body F
  -- code and message
  error : String → String → Body F

-- how a handler ends: it returns, it raises a `RiskApiError`, or it raises something else
pub data Outcome (F : Type 0) : Type 0 where
  returned : Body F → Outcome F
  api_error : ℕ → String → String → Outcome F
  raised : Error → Outcome F

-- what the client gets: a status and a body; or an exception that is left to the framework
pub data Response (F : Type 0) : Type 0 where
  response : ℕ → Body F → Response F
  unhandled : Error → Response F

-- an error of a request's validation, whose keys may be missing
pub record Invalid : Type 0 where
  pub loc : Option (List String)
  pub msg : Option String

-- `".".join(parts)`
pub dotted : List String → String
dotted [] = ""
dotted (p ∷ []) = p
dotted (p ∷ q ∷ rest) = joined (p ∷ "." ∷ dotted (q ∷ rest) ∷ [])

abbrev pub or_text : String → Option String → String
or_text default none = default
or_text default (some s) = s

-- the message of the first error
pub validation_message : List Invalid → String
validation_message [] = "invalid request"
validation_message (e ∷ es) =
    let loc = dotted (select (λ p. not (p == "query")) (elim e.loc [ none ↦ [] | some l ↦ l ])) in
    if loc == ""
    then or_text "invalid request" e.msg
    else joined (loc ∷ ": " ∷ or_text "None" e.msg ∷ [])

-- the correlation id of a request: its header, or a new one
pub correlation_of : String → Option String → String
correlation_of fresh none = fresh
correlation_of fresh (some cid) = if cid == "" then fresh else cid

module _ {F : Type 0} where
  -- the two exception handlers; a body with infinite numbers, which the framework refuses, is left out
  pub respond : Outcome F → Response F
  respond (returned b) = response 200 b
  respond (api_error status code message) = response status (error code message)
  respond (raised e) = unhandled e

  pub validation_error : List Invalid → Response F
  validation_error errors = response 422 (error "validation_error" (validation_message errors))

  abbrev pub not_computed : Outcome F
  not_computed = api_error 404 "not_found" "No metrics computed yet for this account."

  pub risk_summary : String → RiskStore F → Outcome F
  risk_summary account_id s = elim (get_risk_snapshot account_id s) [
    | none ↦ not_computed
    | some snapshot ↦ returned (summary snapshot)
  ]

  -- the dict that `get_risk_snapshot` returns
  pub snapshot_fields : RiskSnapshot F → Fields F
  snapshot_fields r = field "account_id" (str r.account_id) (
      field "portfolio_value" (num r.portfolio_value) (
        field "pnl" (num r.pnl) (
          field "volatility" (num r.volatility) (
            field "var" (num r.var) (
              field "var_method" (str r.var_method)
                (field "sharpe" (num r.sharpe) (field "computed_at" (str r.computed_at) end)))))))

  -- what came of the rewrite
  pub explain_rewrite : Facts F → Result (Option (Facts F)) → Outcome F
  explain_rewrite facts (ok none) = returned (explained (record facts { llm_unavailable = true }))
  explain_rewrite facts (ok (some narrative)) = returned (explained narrative)
  explain_rewrite facts (err e) = raised e

module _ {F : Type 0} ⦃fl : Float F⦄ where
  pub detail_of : RiskSnapshot F → VarDetail F
  detail_of r = record {
    account_id = r.account_id;
    var = r.var;
    var_method = r.var_method;
    confidence = fl.decimal 95 2;
    horizon_days = 1;
    computed_at = r.computed_at;
  }

  pub risk_var : String → Option String → RiskStore F → Outcome F
  risk_var account_id method s =
      if or_text "" method == "historical"
      then api_error 400 "unsupported_var_method" "historical VaR is not supported; parametric only"
      else elim (get_risk_snapshot account_id s) [
        | none ↦ not_computed
        | some snapshot ↦ returned (var_detail (detail_of snapshot))
      ]

  module _ (fmt : Format F) (rt : Runtime F) where
    -- the facts of a snapshot, by rule
    pub rule_facts : RiskSnapshot F → Facts F
    rule_facts r = record (explain_snapshot fmt (snapshot_fields r) none) { mode = some "rule" }

    -- the rewrite, where the mode asks for it
    pub explain_mode : Option String → Facts F → Outcome F
    unfolding explain_rewrite
    explain_mode mode facts =
        if or_text "" mode == "llm"
        then explain_rewrite facts (generate_llm_narrative rt facts)
        else returned (explained facts)

    pub risk_explain : String → Option String → RiskStore F → Outcome F
    risk_explain account_id mode s = elim (get_risk_snapshot account_id s) [
      | none ↦ not_computed
      | some snapshot ↦ explain_mode mode (rule_facts snapshot)
    ]

    pub risk_explain_capabilities : Outcome F
    risk_explain_capabilities = returned (capabilities (is_enabled rt))
